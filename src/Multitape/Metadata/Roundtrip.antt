-- ===== src/Multitape/Metadata/Roundtrip.antt =====
-- Encoding an archive's metadata and decoding it again.
use tarsnap.Base.{
  append_assoc, ℕ, ◌+◌, ◌-◌, ◌*◌, ◌^◌, ◌<◌, ◌≤◌, ◌≡◌, refl, ap, ◌∙◌, Bool, true, some, List, [],
  ◌∷◌, ◌++◌, arith, length, take, All, length-append, take-append, Option-cases, inl, inr,
}
use mathlib.Core.Option
use tarsnap.Base.Endian.{Endian}
use tarsnap.Multitape.Wire.{
  decoded, get_string, put_string, IsString, allocate_lem, get_bytes-append, get_bytes_all,
  get_string-put_string,
}
use tarsnap.Multitape.Metadata.{
  Tapemetadata, good, Rsa, argv_length, enc_argv, enc_body, multitape_metadata_enc, dec_argv,
  dec_signature, check_argc, dec_index, multitape_metadata_dec,
}

-- What C's types make of a `struct tapemetadata`.
pub record IsMetadata (mdat : Tapemetadata) : Type 0 where
  pub name : IsString mdat.name
  pub ctime : mdat.ctime < 2 ^ 64
  pub argc : length mdat.argv < 2 ^ 31
  pub argv : All IsString mdat.argv
  pub indexhash : length mdat.indexhash ≡ 32
  pub indexlen : mdat.indexlen < 2 ^ 64

-- One byte at least for each argument.
length-enc_argv : (argv : List (List ℕ)) → length argv ≤ length (enc_argv argv)
unfolding enc_argv put_string
length-enc_argv [] = omega arith
length-enc_argv (arg ∷ argv) = omega (
  arith,
  length-append (put_string arg) (enc_argv argv),
  length-append arg (0 ∷ []),
  length-enc_argv argv,
)

module _ (le : Endian) (rsa : Rsa) (alloc : ℕ → Bool) (plenty : (n : ℕ) → alloc n ≡ true) where
  dec_argv-enc_argv :
      (argv : List (List ℕ)) (rest : List ℕ)
      → All IsString argv
      → dec_argv le rsa alloc (length argv) (enc_argv argv ++ rest) ≡ decoded (argv, rest)
  unfolding dec_argv enc_argv
  dec_argv-enc_argv [] rest ok = refl
  dec_argv-enc_argv (arg ∷ argv) rest (ok, oks) =
      rw (append_assoc (put_string arg) (enc_argv argv) rest) (
        rw (get_string-put_string alloc arg (enc_argv argv ++ rest) ok (plenty (length arg + 1)))
          (rw (dec_argv-enc_argv argv rest oks) refl))

  check_argc_lem :
      (n : ℕ) (p : List ℕ) → n < 2 ^ 31 → n ≤ length p → check_argc le rsa alloc n p ≡ decoded tt
  unfolding check_argc
  check_argc_lem n p small fits = ground arith

  dec_signature-append :
      (body sig : List ℕ)
      → rsa.crypto_rsa_verify body sig ≡ good
      → length sig ≡ 256
      → dec_signature le rsa alloc (body ++ sig) sig ≡ decoded tt
  unfolding dec_signature
  dec_signature-append body sig ok len =
      let cut : length (body ++ sig) - length sig ≡ length body =
        omega (arith, length-append body sig) in
      let all : take (length (body ++ sig) - length sig) (body ++ sig) ≡ body =
        ap (λ (n : ℕ). take n (body ++ sig)) cut ∙ take-append body sig in
      rw (get_bytes_all 256 sig len) (rw (all, ok) refl)

  dec_index-append :
      (buf name : List ℕ) (ctime : ℕ) (argv : List (List ℕ)) (hash sig : List ℕ) (len : ℕ)
      → length hash ≡ 32
      → len < 2 ^ 64
      → dec_signature le rsa alloc buf sig ≡ decoded tt
      → dec_index le rsa alloc buf name ctime argv (hash ++ (le.le64enc len ++ sig))
        ≡ decoded
            (record { name = name; ctime = ctime; argv = argv; indexhash = hash; indexlen = len })
  unfolding dec_index
  dec_index-append buf name ctime argv hash sig len short small signed =
      rw (get_bytes-append 32 hash (le.le64enc len ++ sig) short) (
        rw (get_bytes-append 8 (le.le64enc len) sig (le.length-le64enc len))
          (rw signed (rw (le.le64dec-le64enc len small) refl)))

  -- The buffer, field by field.
  body-append :
      (mdat : Tapemetadata) (sig : List ℕ)
      → enc_body le rsa alloc mdat ++ sig
        ≡ put_string mdat.name
          ++ (le.le64enc mdat.ctime
              ++ (le.le32enc (length mdat.argv)
                  ++ (enc_argv mdat.argv ++ (mdat.indexhash ++ (le.le64enc mdat.indexlen ++ sig)))))
  unfolding enc_body
  body-append mdat sig =
      append_assoc (put_string mdat.name) _ sig
      ∙ ap (λ (t : List ℕ). put_string mdat.name ++ t)
          (append_assoc (le.le64enc mdat.ctime) _ sig
            ∙ ap (λ (t : List ℕ). le.le64enc mdat.ctime ++ t)
                (append_assoc (le.le32enc (length mdat.argv)) _ sig
                  ∙ ap (λ (t : List ℕ). le.le32enc (length mdat.argv) ++ t)
                      (append_assoc (enc_argv mdat.argv) _ sig
                        ∙ ap (λ (t : List ℕ). enc_argv mdat.argv ++ t)
                            (append_assoc mdat.indexhash _ sig))))

  enc_signed :
      (mdat : Tapemetadata) (buf : List ℕ)
      → multitape_metadata_enc le rsa alloc mdat ≡ some buf
      → (sig : List ℕ) × (rsa.crypto_rsa_sign (enc_body le rsa alloc mdat) ≡ some sig)
        × (buf ≡ enc_body le rsa alloc mdat ++ sig)
  unfolding multitape_metadata_enc
  enc_signed mdat buf encoded =
      let body = enc_body le rsa alloc mdat in
      let room = plenty (argv_length mdat.argv (length mdat.name + 1 + 8 + 4) + 32 + 8 + 256) in
      let made : Option.map (λ (sig : List ℕ). body ++ sig) (rsa.crypto_rsa_sign body) ≡ some buf =
        rw room at encoded in
      elim (Option-cases (rsa.crypto_rsa_sign (enc_body le rsa alloc mdat))) [
        | inl refused ↦ absurd (cc (ap (Option.map (λ (sig : List ℕ). body ++ sig)) refused))
        | inr (sig, signed) ↦
            (sig, signed, cc (ap (Option.map (λ (sig : List ℕ). body ++ sig)) signed))
      ]

  dec-body :
      (mdat : Tapemetadata) (sig : List ℕ)
      → IsMetadata mdat
      → length sig ≡ 256
      → rsa.crypto_rsa_verify (enc_body le rsa alloc mdat) sig ≡ good
      → multitape_metadata_dec le rsa alloc (enc_body le rsa alloc mdat ++ sig) ≡ decoded mdat
  unfolding multitape_metadata_dec
  dec-body mdat sig m len ok =
      let tail = mdat.indexhash ++ (le.le64enc mdat.indexlen ++ sig) in
      let p3 = enc_argv mdat.argv ++ tail in
      let p2 = le.le32enc (length mdat.argv) ++ p3 in
      let p1 = le.le64enc mdat.ctime ++ p2 in
      let buf = enc_body le rsa alloc mdat ++ sig in
      let name : get_string alloc buf ≡ decoded (mdat.name, p1) =
        ap (get_string alloc) (body-append mdat sig)
        ∙ get_string-put_string alloc mdat.name p1 m.name (plenty _) in
      let count : le.le32dec (le.le32enc (length mdat.argv)) ≡ length mdat.argv =
        le.le32dec-le32enc (length mdat.argv) (omega (arith, m.argc)) in
      let fits : length mdat.argv ≤ length p3 =
        omega (arith, length-append (enc_argv mdat.argv) tail, length-enc_argv mdat.argv) in
      rw name (
        rw (get_bytes-append 8 (le.le64enc mdat.ctime) p2 (le.length-le64enc mdat.ctime)) (
          rw
            (get_bytes-append 4 (le.le32enc (length mdat.argv)) p3
              (le.length-le32enc (length mdat.argv)))
            (rw count (
              rw (check_argc_lem (length mdat.argv) p3 m.argc fits) (
                rw (allocate_lem alloc (length mdat.argv * 8) (plenty _)) (
                  rw (dec_argv-enc_argv mdat.argv tail m.argv) (
                    rw (le.le64dec-le64enc mdat.ctime m.ctime) (
                      dec_index-append buf mdat.name mdat.ctime mdat.argv mdat.indexhash sig
                        mdat.indexlen m.indexhash m.indexlen
                        (dec_signature-append (enc_body le rsa alloc mdat) sig ok len)))))))))

  -- Metadata that is encoded decodes to itself, where memory does not run out, the metadata is such
  -- as C's types allow, and the signature that `crypto_rsa_sign` makes has 256 bytes and is accepted
  -- by `crypto_rsa_verify`.
  pub dec-enc :
      (mdat : Tapemetadata) (buf : List ℕ)
      → IsMetadata mdat
      → ((d sig : List ℕ)
          → rsa.crypto_rsa_sign d ≡ some sig
          → (length sig ≡ 256) × (rsa.crypto_rsa_verify d sig ≡ good))
      → multitape_metadata_enc le rsa alloc mdat ≡ some buf
      → multitape_metadata_dec le rsa alloc buf ≡ decoded mdat
  dec-enc mdat buf m signs encoded =
      let (sig, signed, eq) = enc_signed mdat buf encoded in
      let (len, ok) = signs (enc_body le rsa alloc mdat) sig signed in
      rw eq (dec-body mdat sig m len ok)
