-- ===== src/Multitape/Metadata.antt =====
-- tar/multitape/multitape_metadata.c: the metadata of an archive and its encoding.
pub mod Roundtrip
pub mod Signed
use tarsnap.Base.{
  ℕ, zero, suc, ◌+◌, ◌-◌, ◌*◌, ◌^◌, Bool, Option, none, some, List, [], ◌∷◌, ◌++◌, ltb, leb, ◌==◌,
  if◌then◌else◌, length, take,
}
use mathlib.Core.Option
use tarsnap.Base.Endian.{Endian}
use tarsnap.Multitape.Wire.{
  Decoded, decoded, corrupt, failed, and_then, allocate, get_bytes, get_string, put_string,
}

-- `struct tapemetadata`, but for the length that `multitape_metadata_get` adds. The time is the bit
-- pattern of a 64-bit time_t; `argc` is the length of `argv`.
pub record Tapemetadata : Type 0 where
  pub name : List ℕ
  pub ctime : ℕ
  pub argv : List (List ℕ)
  pub indexhash : List ℕ
  pub indexlen : ℕ

-- crypto_rsa_verify: the signature is good (0), bad (1), or could not be checked (-1).
pub data Verified : Type 0 where
  good : Verified
  bad : Verified
  error : Verified

pub record Rsa : Type 0 where
  pub crypto_rsa_sign : List ℕ → Option (List ℕ)
  pub crypto_rsa_verify : List ℕ → List ℕ → Verified

unfoldable pub enc_argv : List (List ℕ) → List ℕ
enc_argv [] = []
enc_argv (arg ∷ argv) = put_string arg ++ enc_argv argv

-- The loop that adds up the lengths of the arguments.
unfoldable pub argv_length : List (List ℕ) → ℕ → ℕ
argv_length [] buflen = buflen
argv_length (arg ∷ argv) buflen = argv_length argv (buflen + (length arg + 1))

module _ (le : Endian) (rsa : Rsa) (alloc : ℕ → Bool) where
  open le use {le32enc, le32dec, le64enc, le64dec}
  open rsa use {crypto_rsa_sign, crypto_rsa_verify}

  -- What is signed.
  unfoldable pub enc_body : Tapemetadata → List ℕ
  enc_body mdat =
      put_string mdat.name
      ++ (le64enc mdat.ctime
          ++ (le32enc (length mdat.argv)
              ++ (enc_argv mdat.argv ++ (mdat.indexhash ++ le64enc mdat.indexlen))))

  unfoldable pub multitape_metadata_enc : Tapemetadata → Option (List ℕ)
  multitape_metadata_enc mdat =
      let buflen = argv_length mdat.argv (length mdat.name + 1 + 8 + 4) + 32 + 8 + 256 in
      if alloc buflen
      then Option.map (λ (sig : List ℕ). enc_body mdat ++ sig) (crypto_rsa_sign (enc_body mdat))
      else none

  unfoldable pub dec_argv : ℕ → List ℕ → Decoded (List (List ℕ) × List ℕ)
  dec_argv zero p = decoded ([], p)
  dec_argv (suc n) p =
      and_then (get_string alloc p)
        (λ (arg, q). and_then (dec_argv n q) (λ (argv, rest). decoded (arg ∷ argv, rest)))

  -- The signature is over all that precedes it in the buffer, and nothing follows it.
  unfoldable pub dec_signature : List ℕ → List ℕ → Decoded (Unit {0})
  dec_signature buf p = and_then (get_bytes 256 p) (λ (sig, rest).
      elim (crypto_rsa_verify (take (length buf - length p) buf) sig) [
        | error ↦ failed
        | bad ↦ corrupt
        | good ↦ if length rest == 0 then decoded tt else corrupt
      ])

  -- The sanity check of the number of arguments, as an int and against what is left.
  unfoldable pub check_argc : ℕ → List ℕ → Decoded (Unit {0})
  check_argc argc p =
      if leb (2 ^ 31) argc then corrupt else if ltb (length p) argc then corrupt else decoded tt

  -- The fields behind the arguments.
  unfoldable pub dec_index : List ℕ → List ℕ → ℕ → List (List ℕ) → List ℕ → Decoded Tapemetadata
  dec_index buf name ctime argv p = and_then (get_bytes 32 p) (λ (hash, p1).
      and_then (get_bytes 8 p1) (λ (len, p2). and_then (dec_signature buf p2) (λ _.
        decoded (record {
          name = name;
          ctime = ctime;
          argv = argv;
          indexhash = hash;
          indexlen = le64dec len;
        }))))

  unfoldable pub multitape_metadata_dec : List ℕ → Decoded Tapemetadata
  multitape_metadata_dec buf = and_then (get_string alloc buf) (λ (name, p1).
      and_then (get_bytes 8 p1) (λ (time, p2). and_then (get_bytes 4 p2) (λ (count, p3).
        and_then (check_argc (le32dec count) p3) (λ _.
          and_then (allocate alloc (le32dec count * 8)) (λ _.
            and_then (dec_argv (le32dec count) p3)
              (λ (argv, p4). dec_index buf name (le64dec time) argv p4))))))

  -- Decrypting is done by the caller; an old file is parsed and encoded anew.
  unfoldable pub multitape_metadata_recrypt : List ℕ → Option (List ℕ)
  multitape_metadata_recrypt obuf = elim (multitape_metadata_dec obuf) [
    | decoded mdat ↦ multitape_metadata_enc mdat
    | corrupt ↦ none
    | failed ↦ none
  ]
