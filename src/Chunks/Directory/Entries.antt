-- ===== src/Chunks/Directory/Entries.antt =====
-- The entries of the chunk directory as bytes, and the list of chunks that a table's entries make.
use tarsnap.Base.{
  ℕ, ◌*◌, ◌^◌, ◌<◌, ◌≡◌, refl, ap, ◌∙◌, inl, inr, Option, none, some, List, [], ◌∷◌, ◌++◌, arith,
  length, length-append, drop, take-append_eq, drop-append_eq, take_all, ◌==◌, if◌then◌else◌,
  Bool-cases, All, same_bytes, same_bytes_iff, bytes_eq,
}
use tarsnap.Base.Endian.{Endian}
use tarsnap.Datastruct.KeyedTable.{find_in, AllDistinct}
use tarsnap.Chunks.Data.{Chunkdata, Chunkstats, key_of, zlen_of}
use tarsnap.Chunks.Flags.{zlen_of_lem}
use tarsnap.Chunks.Directory.{Entry, hash_of, enc_chunk, dec_chunk, enc_stats, dec_stats}
use tarsnap.Chunks.Directory.Sane.{IsSane, reloaded}

-- What a chunk is whose entry can be written and is accepted again.
pub record IsStorable (ch : Chunkdata) : Type 0 where
  pub hash : length ch.hash ≡ 32
  pub long : 0 < ch.len
  pub len : ch.len < 2 ^ 32
  pub stored : 0 < zlen_of ch
  pub nrefs : ch.nrefs < 2 ^ 32
  pub ncopies : ch.ncopies < 2 ^ 32

pub reloaded-IsSane : (ch : Chunkdata) → IsStorable ch → 0 < ch.nrefs → IsSane (reloaded ch)
reloaded-IsSane ch s used = record {
  long = s.long;
  stored = s.stored;
  unmarked = omega (arith, zlen_of_lem ch);
  used = used;
  refs = s.nrefs;
  copies = s.ncopies;
}

pub reloaded-IsStorable : (ch : Chunkdata) → IsStorable ch → IsStorable (reloaded ch)
reloaded-IsStorable ch s = record {
  hash = s.hash;
  long = s.long;
  len = s.len;
  stored = omega (arith, s.stored, zlen_of_lem ch, zlen_of_lem (reloaded ch));
  nrefs = s.nrefs;
  ncopies = s.ncopies;
}

module _ (le : Endian) where
  -- The flags are not written.
  pub enc_chunk-reloaded : (ch : Chunkdata) → enc_chunk le (reloaded ch) ≡ enc_chunk le ch
  unfolding enc_chunk
  enc_chunk-reloaded ch =
      let same : zlen_of (reloaded ch) ≡ zlen_of ch =
        omega (arith, zlen_of_lem ch, zlen_of_lem (reloaded ch)) in
      rw same refl

  pub length-enc_chunk : (ch : Chunkdata) → length ch.hash ≡ 32 → length (enc_chunk le ch) ≡ 48
  unfolding enc_chunk
  length-enc_chunk ch h = grind (arith, length-append, le.length-le32enc)

  pub length-enc_stats : (s : Chunkstats) → length (enc_stats le s) ≡ 24
  unfolding enc_stats
  length-enc_stats s = grind (arith, length-append, le.length-le64enc)

  -- An entry reads as the chunk without its flags.
  pub dec_chunk-enc_chunk :
      (ch : Chunkdata) → IsStorable ch → dec_chunk le (enc_chunk le ch) ≡ reloaded ch
  unfolding dec_chunk enc_chunk
  dec_chunk-enc_chunk ch s =
      let copies = le.le32enc ch.ncopies in
      let refs = le.le32enc ch.nrefs ++ copies in
      let zlen = le.le32enc (zlen_of ch) ++ refs in
      let len = le.le32enc ch.len ++ zlen in
      let small : zlen_of ch < 2 ^ 32 = omega (arith, zlen_of_lem ch) in
      let at_len : drop 32 (ch.hash ++ len) ≡ len =
        drop-append_eq 32 0 ch.hash len (omega (arith, s.hash)) in
      let at_zlen : drop 36 (ch.hash ++ len) ≡ zlen =
        drop-append_eq 36 4 ch.hash len (omega (arith, s.hash))
        ∙ drop-append_eq 4 0 (le.le32enc ch.len) zlen (omega (arith, le.length-le32enc ch.len)) in
      let at_refs : drop 40 (ch.hash ++ len) ≡ refs =
        drop-append_eq 40 8 ch.hash len (omega (arith, s.hash))
        ∙ drop-append_eq 8 4 (le.le32enc ch.len) zlen (omega (arith, le.length-le32enc ch.len))
        ∙ drop-append_eq 4 0 (le.le32enc (zlen_of ch)) refs
            (omega (arith, le.length-le32enc (zlen_of ch))) in
      let at_copies : drop 44 (ch.hash ++ len) ≡ copies =
        drop-append_eq 44 12 ch.hash len (omega (arith, s.hash))
        ∙ drop-append_eq 12 8 (le.le32enc ch.len) zlen (omega (arith, le.length-le32enc ch.len))
        ∙ drop-append_eq 8 4 (le.le32enc (zlen_of ch)) refs
            (omega (arith, le.length-le32enc (zlen_of ch)))
        ∙ drop-append_eq 4 0 (le.le32enc ch.nrefs) copies
            (omega (arith, le.length-le32enc ch.nrefs)) in
      let first =
        λ (n : ℕ) (rest : List ℕ). take-append_eq 4 (le.le32enc n) rest (le.length-le32enc n) in
      rw (take-append_eq 32 ch.hash len s.hash) (
        rw (at_len, at_zlen, at_refs, at_copies)
          (rw
            (
              first ch.len zlen,
              first (zlen_of ch) refs,
              first ch.nrefs copies,
              take_all 4 copies (le.length-le32enc ch.ncopies),
            )
            (rw
              (
                le.le32dec-le32enc ch.len s.len,
                le.le32dec-le32enc (zlen_of ch) small,
                le.le32dec-le32enc ch.nrefs s.nrefs,
                le.le32dec-le32enc ch.ncopies s.ncopies,
              )
              refl)))

  -- The entries of a list of chunks.
  abbrev pub enc_all : List Chunkdata → List ℕ
  enc_all [] = []
  enc_all (ch ∷ chs) = enc_chunk le ch ++ enc_all chs

  pub length-enc_all :
      (chs : List Chunkdata) → All IsStorable chs → length (enc_all chs) ≡ length chs * 48
  length-enc_all [] ok = omega arith
  length-enc_all (ch ∷ chs) (ok, oks) = omega (
    arith,
    length-append (enc_chunk le ch) (enc_all chs),
    length-enc_chunk ch ok.hash,
    length-enc_all chs oks,
  )

  pub dec_stats-enc_stats :
      (s : Chunkstats)
      → s.nchunks < 2 ^ 64
      → s.s_len < 2 ^ 64
      → s.s_zlen < 2 ^ 64
      → dec_stats le (enc_stats le s) ≡ s
  unfolding dec_stats enc_stats
  dec_stats-enc_stats s n l z =
      let zlen = le.le64enc s.s_zlen in
      let len = le.le64enc s.s_len ++ zlen in
      let at_len : drop 8 (le.le64enc s.nchunks ++ len) ≡ len =
        drop-append_eq 8 0 (le.le64enc s.nchunks) len
          (omega (arith, le.length-le64enc s.nchunks)) in
      let at_zlen : drop 16 (le.le64enc s.nchunks ++ len) ≡ zlen =
        drop-append_eq 16 8 (le.le64enc s.nchunks) len (omega (arith, le.length-le64enc s.nchunks))
        ∙ drop-append_eq 8 0 (le.le64enc s.s_len) zlen (omega (arith, le.length-le64enc s.s_len)) in
      let first =
        λ (m : ℕ) (rest : List ℕ). take-append_eq 8 (le.le64enc m) rest (le.length-le64enc m) in
      rw (first s.nchunks len, at_len, at_zlen)
        (rw (first s.s_len zlen, take_all 8 zlen (le.length-le64enc s.s_zlen))
          (rw
            (
              le.le64dec-le64enc s.nchunks n,
              le.le64dec-le64enc s.s_len l,
              le.le64dec-le64enc s.s_zlen z,
            )
            refl))

module _ (e : Entry) where
  -- What becomes of a record: it is stored without flags, if an archive uses it.
  abbrev pub stored : Option e.R → Option Chunkdata
  stored none = none
  stored (some r) = if (e.view r).nrefs == 0 then none else some (reloaded (e.view r))

  unfoldable pub kept : List e.R → List Chunkdata
  kept [] = []
  kept (r ∷ rs) = if (e.view r).nrefs == 0 then kept rs else reloaded (e.view r) ∷ kept rs

  pub find_in-kept :
      (k : List ℕ) (rs : List e.R)
      → AllDistinct (hash_of e) rs
      → find_in key_of k (kept rs) ≡ stored (find_in (hash_of e) k rs)
  unfolding kept
  find_in-kept k [] d = refl
  find_in-kept k (r ∷ rs) (alone, d) =
      let rest = find_in-kept k rs d in
      elim (Bool-cases ((e.view r).nrefs == 0)) [
        | inr used ↦ elim (Bool-cases (same_bytes (e.view r).hash k)) [
          | inl hit ↦ rw used (rw hit (rw used refl))
          | inr miss ↦ rw used (rw miss rest)
        ]
        | inl unused ↦ elim (Bool-cases (same_bytes (e.view r).hash k)) [
          | inl hit ↦
              let is_k : (e.view r).hash ≡ k = (same_bytes_iff (e.view r).hash k).0 hit in
              let gone : find_in (hash_of e) k rs ≡ none = rw is_k at alone in
              rw unused (rw hit (rw unused (rest ∙ ap stored gone)))
          | inr miss ↦ rw unused (rw miss rest)
        ]
      ]

  pub AllDistinct-kept : (rs : List e.R) → AllDistinct (hash_of e) rs → AllDistinct key_of (kept rs)
  unfolding kept
  AllDistinct-kept [] d = tt
  AllDistinct-kept (r ∷ rs) (alone, d) = elim (Bool-cases ((e.view r).nrefs == 0)) [
    | inl unused ↦ rw unused (AllDistinct-kept rs d)
    | inr used ↦
        rw used (find_in-kept (e.view r).hash rs d ∙ ap stored alone, AllDistinct-kept rs d)
  ]
