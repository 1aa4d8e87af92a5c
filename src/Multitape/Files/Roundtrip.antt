-- ===== src/Multitape/Files/Roundtrip.antt =====
-- Storing an archive's metadata and reading it by the archive's name.
use tarsnap.Base.{
  ℕ, ◌≡◌, refl, sym, ap, ◌∙◌, Bool, true, Option, some, List, length, same_bytes_iff, Option-cases,
  Bool-cases, inl, inr,
}
use tarsnap.Chunks.Data.{Chunkstats, ChunkTable}
use tarsnap.Chunks.Write.{Services, WriteState, chunks_write_extrastats}
use tarsnap.Base.Endian.{Endian}
use tarsnap.Multitape.Metadata.{Tapemetadata, Rsa, good, multitape_metadata_enc}
use tarsnap.Multitape.Metadata.Roundtrip.{IsMetadata, dec-enc}
use tarsnap.Multitape.Metaindex.{Hashes, found}
use tarsnap.Multitape.Files.{
  FileReader, check_name, parse_file, multitape_metadata_get, multitape_metadata_get_byname,
  multitape_metadata_put,
}

module _ (le : Endian) (rsa : Rsa) (hs : Hashes) (alloc : ℕ → Bool)
    (plenty : (n : ℕ) → alloc n ≡ true) (tab : ChunkTable) (sv : Services)
    (reader : sv.Storage → FileReader)
    (reads : (s : sv.Storage) (b name : List ℕ)
      → (sv.storage_write_file s b b'm' name).1 ≡ true
      → reader (sv.storage_write_file s b b'm' name).0 b'm' name ≡ found b)
    (signs : (d sig : List ℕ)
      → rsa.crypto_rsa_sign d ≡ some sig
      → (length sig ≡ 256) × (rsa.crypto_rsa_verify d sig ≡ good)) where
  -- What a success of `multitape_metadata_put` tells.
  record WasStored (C E : WriteState tab sv) (mdat : Tapemetadata) : Type 0 where
    buf : List ℕ
    hbuf : List ℕ
    encoded : multitape_metadata_enc le rsa alloc mdat ≡ some buf
    named : hs.hmac_name mdat.name ≡ some hbuf
    readable : reader E.store b'm' hbuf ≡ found buf

  put-WasStored :
      (C E : WriteState tab sv) (mdat : Tapemetadata)
      → multitape_metadata_put le rsa hs alloc tab sv C mdat ≡ (E, true)
      → WasStored C E mdat
  unfolding multitape_metadata_put chunks_write_extrastats
  put-WasStored C E mdat done =
      let ok = λ (r : WriteState tab sv × Bool). r.1 in
      elim (Option-cases (multitape_metadata_enc le rsa alloc mdat)) [
        | inl refused ↦ absurd (cc (ap ok (rw (refused, multitape_metadata_put) at done)))
        | inr (buf, encoded) ↦ elim (Option-cases (hs.hmac_name mdat.name)) [
          | inl refused ↦
              absurd (cc (ap ok (rw (encoded, refused, multitape_metadata_put) at done)))
          | inr (hbuf, named) ↦ elim (Bool-cases (sv.storage_write_file C.store buf b'm' hbuf).1) [
            | inr refused ↦
                absurd (cc (ap ok (rw (encoded, named, refused, multitape_metadata_put) at done)))
            | inl sent ↦
                let made =
                  ap (λ (r : WriteState tab sv × Bool). r.0.store)
                    (rw (encoded, named, sent, multitape_metadata_put) at done) in
                record {
                  buf = buf;
                  hbuf = hbuf;
                  encoded = encoded;
                  named = named;
                  readable =
                      ap (λ (s : sv.Storage). reader s b'm' hbuf) (sym made)
                      ∙ reads C.store buf hbuf sent;
                }
          ]
        ]
      ]

  -- Metadata that `multitape_metadata_put` stores is what `multitape_metadata_get_byname` then finds
  -- under the archive's name, with the length of its encoding, if memory does not run out, the
  -- metadata is such as C's types allow, a signature that is made has 256 bytes and is accepted, and
  -- the storage layer returns a file that was written.
  pub put-get_byname :
      (C E : WriteState tab sv) (mdat : Tapemetadata) (stats : Option Chunkstats)
      → IsMetadata mdat
      → multitape_metadata_put le rsa hs alloc tab sv C mdat ≡ (E, true)
      → (buf : List ℕ) × (multitape_metadata_enc le rsa alloc mdat ≡ some buf)
        × ((multitape_metadata_get_byname le rsa hs alloc (reader E.store) stats mdat.name).1
            ≡ found (mdat, length buf))
  unfolding multitape_metadata_get_byname multitape_metadata_get check_name parse_file
  put-get_byname C E mdat stats m done =
      let w = put-WasStored C E mdat done in
      let parsed = dec-enc le rsa alloc plenty mdat w.buf m signs w.encoded in
      let same = (same_bytes_iff w.hbuf w.hbuf).1 refl in
      let named : check_name le rsa hs alloc w.hbuf (length w.buf) mdat
          ≡ found (mdat, length w.buf) =
        rw (w.named, check_name) (rw same refl) in
      let file : parse_file le rsa hs alloc w.hbuf w.buf ≡ found (mdat, length w.buf) =
        rw (parsed, parse_file) named in
      (
        w.buf,
        w.encoded,
        rw (w.named, multitape_metadata_get_byname) (rw (w.readable, multitape_metadata_get) file),
      )
