-- ===== src/Chunks/Read/Checked.antt =====
-- What `chunks_read_chunk` has checked of what it returns.
use tarsnap.Base.{
  ℕ, ◌≡◌, sym, ap, subst, ◌∙◌, ◌||◌, inl, inr, some, List, ltb, ◌==◌, ==_iff, Bool-cases,
  Option-cases, length, same_bytes, same_bytes_iff,
}
use tarsnap.Chunks.Read.{
  ReadServices, ReadFile, failure, file, no_file, bad_file, ReadChunk, chunk, error, notpresent,
  corrupt, ReadState, check_hash, unpack, after_read_file, chunks_read_chunk,
}

module _ (rv : ReadServices) (hash : List ℕ) (len : ℕ) where
  -- Bytes that are returned have the length and the hash.
  abbrev IsChecked : ReadChunk → Type 0
  IsChecked (chunk buf) = (length buf ≡ len) × (rv.crypto_hash_data buf ≡ some hash)
  IsChecked error = Unit {0}
  IsChecked notpresent = Unit {0}
  IsChecked corrupt = Unit {0}

  check_hash-IsChecked : (buf : List ℕ) → length buf ≡ len → IsChecked (check_hash rv hash buf)
  unfolding check_hash
  check_hash-IsChecked buf is_len = elim (Option-cases (rv.crypto_hash_data buf)) [
    | inl none_made ↦ rw (none_made, check_hash) tt
    | inr (hash_actual, made) ↦ elim (Bool-cases (same_bytes hash hash_actual)) [
      | inl same ↦
          rw (made, same, check_hash)
            (
              is_len,
              made ∙ ap (λ (h : List ℕ). some h) (sym ((same_bytes_iff hash hash_actual).0 same)),
            )
      | inr other ↦ rw (made, other, check_hash) tt
    ]
  ]

  unpack-IsChecked : (zbuf : List ℕ) → IsChecked (unpack rv hash len zbuf)
  unfolding unpack
  unpack-IsChecked zbuf = elim (Option-cases (rv.uncompress len zbuf)) [
    | inl none_made ↦ rw (none_made, unpack) tt
    | inr (buf, made) ↦ elim (Bool-cases (length buf == len)) [
      | inl same ↦
          rw (made, same, unpack) (check_hash-IsChecked buf ((==_iff (length buf) len).0 same))
      | inr other ↦ rw (made, other, unpack) tt
    ]
  ]

  after_read_file-IsChecked : (answer : ReadFile) → IsChecked (after_read_file rv hash len answer)
  unfolding after_read_file
  after_read_file-IsChecked failure = tt
  after_read_file-IsChecked (file zbuf) = unpack-IsChecked zbuf
  after_read_file-IsChecked no_file = tt
  after_read_file-IsChecked bad_file = tt

  chunks_read_chunk-IsChecked :
      (R : ReadState rv) (zlen : ℕ) → IsChecked (chunks_read_chunk rv R hash len zlen).1
  unfolding chunks_read_chunk
  chunks_read_chunk-IsChecked R zlen = elim (Bool-cases (ltb R.maxlen len || ltb R.zbuflen zlen)) [
    | inl long ↦ rw (long, chunks_read_chunk) tt
    | inr fits ↦
        rw (fits, chunks_read_chunk)
          (after_read_file-IsChecked (rv.storage_read_file R.s zlen b'c' hash).1)
  ]

-- Whatever the storage layer and uncompress return, chunks_read_chunk returns 0 only with bytes that
-- have the length it was given and whose hash is the one it was given.
pub chunks_read_chunk_checked :
    (rv : ReadServices) (R R' : ReadState rv) (hash : List ℕ) (len zlen : ℕ) (buf : List ℕ)
    → chunks_read_chunk rv R hash len zlen ≡ (R', chunk buf)
    → (length buf ≡ len) × (rv.crypto_hash_data buf ≡ some hash)
chunks_read_chunk_checked rv R R' hash len zlen buf h =
    subst (IsChecked rv hash len) (ap (λ (p : ReadState rv × ReadChunk). p.1) h)
      (chunks_read_chunk-IsChecked rv hash len R zlen)
