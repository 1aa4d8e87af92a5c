-- ===== src/Multitape/Tests.antt =====
-- The theorems on tar/multitape applied to small inputs.
use tarsnap.Base.{
  ℕ, ◌≡◌, refl, sym, Bool, true, none, some, List, [], ◌∷◌, ◌++◌, arith, length, replicate, ◌==◌,
  if◌then◌else◌, take, drop, same_bytes, same_bytes_iff, Bool-cases, inl, inr, ◌≢◌, bytes_eq, ap,
}
use tarsnap.Datastruct.Rwhashtab.Implements.{rwhashtab}
use tarsnap.Chunks.Data.{Chunkstats, ChunkTable, key_of}
use tarsnap.Chunks.Write.{Services, WriteState}
use tarsnap.Base.Endian.Little.{little}
use tarsnap.Multitape.Wire.{decoded}
use tarsnap.Multitape.Metadata.{
  Tapemetadata, good, bad, Rsa, enc_body, multitape_metadata_enc, multitape_metadata_dec,
}
use tarsnap.Multitape.Metaindex.{
  Tapemetaindex, Hashes, found, absent, Reader, enc_streams, dec_streams, fragment_length,
  write_fragments, multitape_metaindex_put, multitape_metaindex_get,
}
use tarsnap.Multitape.Metaindex.Streams.{dec_streams-enc_streams}
use tarsnap.Multitape.Metaindex.Roundtrip.{put-get}
use tarsnap.Multitape.Metadata.Signed.{dec-signed}
use tarsnap.Multitape.Files.{FileReader, multitape_metadata_put, multitape_metadata_get_byname}
use tarsnap.Multitape.Files.Roundtrip.{put-get_byname}
use tarsnap.Multitape.Metadata.Roundtrip.{IsMetadata, dec-enc}

-- A signature that is always the same.
abbrev signer : Rsa
signer = record {
  crypto_rsa_sign = λ d. some (replicate 256 7);
  crypto_rsa_verify = λ d sig. if length sig == 256 then good else bad;
}

abbrev mdat : Tapemetadata
mdat = record {
  name = 97 ∷ 98 ∷ [];
  ctime = 1700000000;
  argv = (99 ∷ []) ∷ [] ∷ (100 ∷ 101 ∷ []) ∷ [];
  indexhash = replicate 32 5;
  indexlen = 300000;
}

mdat-IsMetadata : IsMetadata mdat
mdat-IsMetadata = record {
  name = (λ h. omega (arith, h), (λ h. omega (arith, h), tt));
  ctime = omega arith;
  argc = omega arith;
  argv = (
    (λ h. omega (arith, h), tt),
    (tt, ((λ h. omega (arith, h), (λ h. omega (arith, h), tt)), tt)),
  );
  indexhash = refl;
  indexlen = omega arith;
}

abbrev mdat_buf : List ℕ
mdat_buf = enc_body little signer (λ n. true) mdat ++ replicate 256 7

mdat_encoded : multitape_metadata_enc little signer (λ n. true) mdat ≡ some mdat_buf
unfolding multitape_metadata_enc
mdat_encoded = refl

signs :
    (d sig : List ℕ)
    → signer.crypto_rsa_sign d ≡ some sig
    → (length sig ≡ 256) × (signer.crypto_rsa_verify d sig ≡ good)
signs d sig h = let eq : replicate 256 7 ≡ sig = cc in rw (sym eq) (refl, refl)

dec-enc_example : multitape_metadata_dec little signer (λ n. true) mdat_buf ≡ decoded mdat
dec-enc_example =
    dec-enc little signer (λ n. true) (λ n. refl) mdat mdat_buf mdat-IsMetadata signs mdat_encoded

abbrev grants : ℕ → Bool
grants n = true

abbrev table : ChunkTable
table = rwhashtab key_of (λ bytes k. 0) 32 (some (7 ∷ [])) grants

-- Storage that keeps every file with its name.
abbrev services : Services
services = record {
  Storage = List (List ℕ × List ℕ);
  storage_write_file = λ s file class name. ((name, file) ∷ s, true);
  compress2 = λ n d. some (take n d);
  alloc = grants;
  undefined = λ n. 0;
}

look_up : List (List ℕ × List ℕ) → Reader
look_up [] l class name = absent
look_up (file ∷ files) l class name =
    let rest = look_up files l class name in if same_bytes file.0 name then found file.1 else rest

reads_back :
    (s : services.Storage) (b name : List ℕ)
    → (services.storage_write_file s b b'i' name).1 ≡ true
    → look_up (services.storage_write_file s b b'i' name).0 (length b) b'i' name ≡ found b
unfolding look_up
reads_back s b name ok = rw ((same_bytes_iff name name).1 refl) refl

reads_others :
    (s : services.Storage) (b name other : List ℕ) (l : ℕ)
    → name ≢ other
    → look_up (services.storage_write_file s b b'i' name).0 l b'i' other ≡ look_up s l b'i' other
unfolding look_up
reads_others s b name other l ne = elim (Bool-cases (same_bytes name other)) [
  | inl same ↦ absurd (ne ((same_bytes_iff name other).0 same))
  | inr differ ↦ rw differ refl
]

-- A hash that is what it hashes.
abbrev hashes : Hashes
hashes = record { hmac_name = λ d. some d; sha256 = λ d. some d; sha256_2 = λ d e. d ++ e }

abbrev mind : Tapemetaindex
mind = record { hindex = 1 ∷ 2 ∷ 3 ∷ []; cindex = []; tindex = 4 ∷ [] }

abbrev no_stats : Chunkstats
no_stats = record { nchunks = 0; s_len = 0; s_zlen = 0 }

abbrev c0 : WriteState table services
c0 = record {
  maxlen = 100;
  zbuflen = 113;
  ht = record {
    cursize = 4;
    numentries = 0;
    ht = none ∷ none ∷ none ∷ none ∷ [];
    randbuf = 7 ∷ [];
  };
  store = [];
  stats_total = no_stats;
  stats_unique = no_stats;
  stats_extra = no_stats;
  stats_extra_copy = no_stats;
  stats_tape = no_stats;
  stats_new = no_stats;
  stats_tapee = no_stats;
}

abbrev c1 : WriteState table services
c1 = (multitape_metaindex_put little hashes grants table services c0 mind mdat).0

abbrev mdat1 : Tapemetadata
mdat1 = record mdat { indexhash = enc_streams little hashes grants mind; indexlen = 16 }

mind_stored :
    multitape_metaindex_put little hashes grants table services c0 mind mdat ≡ (c1, some mdat1)
unfolding multitape_metaindex_put write_fragments enc_streams fragment_length
mind_stored = refl

apart :
    (a b : ℕ)
    → mdat.name ++ little.le32enc a ≡ mdat.name ++ little.le32enc b
    → little.le32enc a ≡ little.le32enc b
apart a b h = ap (drop 2) h

put-get_example :
    (multitape_metaindex_get little hashes grants (look_up c1.store) none mdat1).1 ≡ found mind
put-get_example =
    put-get little hashes grants (λ n. refl) table services look_up reads_back reads_others
      mdat.name apart c0 c1 mind mdat mdat1 none refl mind_stored

dec_streams-enc_streams_example :
    dec_streams little hashes grants (enc_streams little hashes grants mind) ≡ decoded mind
dec_streams-enc_streams_example =
    dec_streams-enc_streams little hashes grants (λ n. refl) mind (omega arith) (omega arith)
      (omega arith)

look_up_all : List (List ℕ × List ℕ) → FileReader
look_up_all [] class name = absent
look_up_all (file ∷ files) class name =
    let rest = look_up_all files class name in if same_bytes file.0 name then found file.1 else rest

reads_back_all :
    (s : services.Storage) (b name : List ℕ)
    → (services.storage_write_file s b b'm' name).1 ≡ true
    → look_up_all (services.storage_write_file s b b'm' name).0 b'm' name ≡ found b
unfolding look_up_all
reads_back_all s b name ok = rw ((same_bytes_iff name name).1 refl) refl

abbrev c2 : WriteState table services
c2 = (multitape_metadata_put little signer hashes grants table services c0 mdat).0

mdat_stored : multitape_metadata_put little signer hashes grants table services c0 mdat ≡ (c2, true)
unfolding multitape_metadata_put multitape_metadata_enc
mdat_stored = refl

put-get_byname_example :
    (buf : List ℕ) × (multitape_metadata_enc little signer grants mdat ≡ some buf)
    × ((multitape_metadata_get_byname little signer hashes grants
          (look_up_all c2.store)
          none
          mdat.name).1
        ≡ found (mdat, length buf))
put-get_byname_example =
    put-get_byname little signer hashes grants (λ n. refl) table services look_up_all reads_back_all
      signs c0 c2 mdat none mdat-IsMetadata mdat_stored

dec-signed_example :
    (body sig : List ℕ) × (mdat_buf ≡ body ++ sig)
    × (length sig ≡ 256)
    × (signer.crypto_rsa_verify body sig ≡ good)
dec-signed_example = dec-signed little signer (λ n. true) mdat_buf mdat dec-enc_example
