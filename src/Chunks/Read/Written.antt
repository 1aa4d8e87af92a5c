-- ===== src/Chunks/Read/Written.antt =====
-- Reading a chunk that a write transaction stored.
use tarsnap.Base.{
  ◌<◌, ◌/◌, ◌%◌, else-eq-some, if-eq-some, if◌then◌else◌, ℕ, ◌+◌, ◌-◌, ◌^◌, ◌≤◌, ◌≡◌, refl, sym, ap,
  subst, ◌∙◌, Bool, true, false, ◌||◌, inl, inr, Option, none, some, List, ◌++◌, arith, ltb, ◌==◌,
  Bool-cases, Option-cases, length, replicate, length-append, length-replicate, same_bytes,
  same_bytes_iff,
}
use tarsnap.Datastruct.KeyedTable.{Inserted, done, present, failed}
use tarsnap.Chunks.Data.{Chunkdata, ChunkTable}
use tarsnap.Chunks.Padme.{padme}
use tarsnap.Chunks.Padme.Exact.{padme-le}
use tarsnap.Chunks.Write.{
  Services, WriteState, after_insert, count_new, new_chunk, store_chunk, chunks_write_chunk,
}
use tarsnap.Chunks.Read.{
  ReadServices, file, chunk, ReadState, check_hash, unpack, after_read_file, chunks_read_init,
  chunks_read_chunk,
}

-- A compressed chunk with its padding.
abbrev padded : (ℕ → ℕ) → ℕ → List ℕ → List ℕ
padded undefined zbuflen zbuf = zbuf ++ replicate (padme undefined (length zbuf) zbuflen) 0

length-padded :
    (undefined : ℕ → ℕ) (zbuflen : ℕ) (zbuf : List ℕ)
    → length (padded undefined zbuflen zbuf) ≡ length zbuf + padme undefined (length zbuf) zbuflen
length-padded undefined zbuflen zbuf =
    let padlen = padme undefined (length zbuf) zbuflen in
    length-append zbuf (replicate padlen 0)
    ∙ ap (λ (n : ℕ). length zbuf + n) (length-replicate padlen 0)

module _ (tab : ChunkTable) (sv : Services) where
  -- The file of a chunk that was stored, if it was.
  abbrev Sent : sv.Storage → List ℕ → List ℕ → WriteState tab sv × Option ℕ → Type 0
  Sent s hash bytes (C', none) = Unit {0}
  Sent s hash bytes (C', some zlen) =
      (sv.storage_write_file s bytes b'c' hash ≡ (C'.store, true)) × (zlen ≡ length bytes)

  after_insert-Sent :
      (s : sv.Storage) (hash bytes : List ℕ) (C : WriteState tab sv) (ch : Chunkdata) (zlen : ℕ)
      (r : tab.T × Inserted)
      → sv.storage_write_file s bytes b'c' hash ≡ (C.store, true)
      → zlen ≡ length bytes
      → Sent s hash bytes (after_insert tab sv C ch zlen r)
  unfolding after_insert count_new
  after_insert-Sent s hash bytes C ch zlen (t, done) sent len = (sent, len)
  after_insert-Sent s hash bytes C ch zlen (t, present) sent len = tt
  after_insert-Sent s hash bytes C ch zlen (t, failed) sent len = tt

  store_chunk-Sent :
      (C : WriteState tab sv) (hash : List ℕ) (buflen : ℕ) (zbuf : List ℕ)
      → Sent C.store hash
          (padded sv.undefined C.zbuflen zbuf)
          (store_chunk tab sv C hash buflen zbuf)
  unfolding store_chunk
  store_chunk-Sent C hash buflen zbuf =
      let bytes = padded sv.undefined C.zbuflen zbuf in
      let zlen = length zbuf + padme sv.undefined (length zbuf) C.zbuflen in
      let ch = new_chunk hash buflen zlen in
      let sent = sv.storage_write_file C.store bytes b'c' hash in
      let C1 : WriteState tab sv = record C { store = sent.0 } in
      let len : zlen ≡ length bytes = sym (length-padded sv.undefined C.zbuflen zbuf) in
      elim (Bool-cases (ltb (2 ^ 63 - 1) (length zbuf))) [
        | inl huge ↦ rw (huge, store_chunk) tt
        | inr fine ↦ elim (Bool-cases sent.1) [
          | inr lost ↦ rw (fine, lost, store_chunk) tt
          | inl stored ↦ elim (Bool-cases (sv.alloc 48)) [
            | inr refused ↦ rw (fine, stored, refused, store_chunk) tt
            | inl granted ↦
                rw (fine, stored, granted, store_chunk)
                  (after_insert-Sent C.store hash bytes C1 ch zlen (tab.insert C.ht ch)
                    (ap (λ (b : Bool). (sent.0, b)) stored) len)
          ]
        ]
      ]

  chunks_write_chunk-Sent :
      (C : WriteState tab sv) (hash buf : List ℕ)
      → tab.read C.ht hash ≡ none
      → (zbuf : List ℕ) → sv.compress2 C.zbuflen buf ≡ some zbuf
      → Sent C.store hash
          (padded sv.undefined C.zbuflen zbuf)
          (chunks_write_chunk tab sv C hash buf)
  unfolding chunks_write_chunk
  chunks_write_chunk-Sent C hash buf absent zbuf packs =
      rw (absent, packs, chunks_write_chunk) (store_chunk-Sent C hash (length buf) zbuf)

  chunks_write_chunk_fails :
      (C : WriteState tab sv) (hash buf : List ℕ)
      → tab.read C.ht hash ≡ none
      → sv.compress2 C.zbuflen buf ≡ none
      → chunks_write_chunk tab sv C hash buf ≡ (C, none)
  unfolding chunks_write_chunk
  chunks_write_chunk_fails C hash buf absent packs = rw (absent, packs, chunks_write_chunk) refl

  module _ (rv : ReadServices) where
    -- What is read of a file that holds the data.
    read_file :
        (R : ReadState rv) (hash buf bytes : List ℕ)
        → (rv.storage_read_file R.s (length bytes) b'c' hash).1 ≡ file bytes
        → rv.uncompress (length buf) bytes ≡ some buf
        → rv.crypto_hash_data buf ≡ some hash
        → length buf ≤ R.maxlen
        → length bytes ≤ R.zbuflen
        → (chunks_read_chunk rv R hash (length buf) (length bytes)).1 ≡ chunk buf
    unfolding chunks_read_chunk after_read_file unpack check_hash
    read_file R hash buf bytes there unpacks hashes short fits =
        let in_len : (ltb R.maxlen (length buf) || ltb R.zbuflen (length bytes)) ≡ false =
          ground (arith, short, fits) in
        let same_len : (length buf == length buf) ≡ true = ground arith in
        let same_hash : same_bytes hash hash ≡ true = (same_bytes_iff hash hash).1 refl in
        rw
          (in_len, there, unpacks, same_len, hashes, same_hash, after_read_file, unpack, check_hash)
          refl

chunks_read_init_made :
    (rv : ReadServices) (s : rv.Cookie) (maxchunksize : ℕ) (R : ReadState rv)
    → chunks_read_init rv s maxchunksize ≡ some R
    → (R.maxlen ≡ maxchunksize)
      × (R.zbuflen ≡ (maxchunksize + maxchunksize / 1000 + 13) % 2 ^ 64)
      × (R.s ≡ s)
unfolding chunks_read_init
chunks_read_init_made rv s maxchunksize R h =
    let zbuflen = (maxchunksize + maxchunksize / 1000 + 13) % 2 ^ 64 in
    let made : ReadState rv = record { maxlen = maxchunksize; zbuflen = zbuflen; s = s } in
    let (sane, h1) =
      else-eq-some ((maxchunksize == 0) || ltb ((2 ^ 64 - 1) / 2) maxchunksize)
        (if rv.alloc 32 then (if rv.alloc zbuflen then some made else none) else none) h in
    let (first, h2) = if-eq-some (rv.alloc 32) (if rv.alloc zbuflen then some made else none) h1 in
    let (second, h3) = if-eq-some (rv.alloc zbuflen) (some made) h2 in
    let is : made ≡ R = cc in
    (
      ap (λ (r : ReadState rv). r.maxlen) (sym is),
      ap (λ (r : ReadState rv). r.zbuflen) (sym is),
      ap (λ (r : ReadState rv). r.s) (sym is),
    )

-- The storage layer that reads after a write transaction is `opened` of the one that wrote.
module _ (tab : ChunkTable) (sv : Services) (rv : ReadServices) (opened : sv.Storage → rv.Cookie)
    (reads_back : (s s' : sv.Storage) (bytes name : List ℕ)
      → sv.storage_write_file s bytes b'c' name ≡ (s', true)
      → (rv.storage_read_file (opened s') (length bytes) b'c' name).1 ≡ file bytes)
    (bounded : (n : ℕ) (input zbuf : List ℕ) → sv.compress2 n input ≡ some zbuf → length zbuf ≤ n)
    (inflates : (n k : ℕ) (input zbuf : List ℕ)
      → sv.compress2 n input ≡ some zbuf
      → rv.uncompress (length input) (zbuf ++ replicate k 0) ≡ some input) where
  -- By a reader whose limits are no lower than the writer's.
  read_stored :
      (C C' : WriteState tab sv) (hash buf : List ℕ) (zlen : ℕ) (R : ReadState rv)
      → tab.read C.ht hash ≡ none
      → chunks_write_chunk tab sv C hash buf ≡ (C', some zlen)
      → rv.crypto_hash_data buf ≡ some hash
      → R.s ≡ opened C'.store
      → length buf ≤ R.maxlen
      → C.zbuflen ≤ R.zbuflen
      → C.zbuflen < 2 ^ 37
      → (chunks_read_chunk rv R hash (length buf) zlen).1 ≡ chunk buf
  read_stored C C' hash buf zlen R absent written hashes reader short fits limit =
      elim (Option-cases (sv.compress2 C.zbuflen buf)) [
        | inl packs ↦
            let failed_write = chunks_write_chunk_fails tab sv C hash buf absent packs in
            absurd (cc)
        | inr (zbuf, packs) ↦
            let bytes = padded sv.undefined C.zbuflen zbuf in
            let (sent, len) : Sent tab sv C.store hash bytes (C', some zlen) =
              subst (Sent tab sv C.store hash bytes) written
                (chunks_write_chunk-Sent tab sv C hash buf absent zbuf packs) in
            let whole : length bytes ≤ C.zbuflen = omega (
              arith,
              length-padded sv.undefined C.zbuflen zbuf,
              padme-le sv.undefined (length zbuf) C.zbuflen (bounded C.zbuflen buf zbuf packs)
                  limit,
            ) in
            let there : (rv.storage_read_file R.s (length bytes) b'c' hash).1 ≡ file bytes =
              ap (λ (s : rv.Cookie). (rv.storage_read_file s (length bytes) b'c' hash).1) reader
              ∙ reads_back C.store C'.store bytes hash sent in
            ap (λ (n : ℕ). (chunks_read_chunk rv R hash (length buf) n).1) len
            ∙ read_file tab sv rv R hash buf bytes there
                (inflates C.zbuflen (padme sv.undefined (length zbuf) C.zbuflen) buf zbuf packs)
                hashes short (omega (arith, whole, fits))
      ]

  -- A chunk that chunks_write_chunk stores anew, chunks_read_chunk reads back, given the hash, the
  -- length and the compressed length that was returned, with a cookie of chunks_read_init for the
  -- maximum that the writer's buffer is for: over a storage layer that returns a file that was
  -- written, if the hash is that of the chunk, the chunk is no longer than the maximum, what
  -- uncompress makes of a compressed chunk and zeros after it is the chunk, and the buffer is shorter
  -- than 2 ^ 37 bytes (chunks_write_chunk asserts 2 ^ 30).
  pub chunks_read_chunk-chunks_write_chunk :
      (C C' : WriteState tab sv) (hash buf : List ℕ) (zlen maxchunksize : ℕ) (R : ReadState rv)
      → tab.read C.ht hash ≡ none
      → chunks_write_chunk tab sv C hash buf ≡ (C', some zlen)
      → rv.crypto_hash_data buf ≡ some hash
      → chunks_read_init rv (opened C'.store) maxchunksize ≡ some R
      → C.zbuflen ≡ (maxchunksize + maxchunksize / 1000 + 13) % 2 ^ 64
      → length buf ≤ maxchunksize
      → C.zbuflen < 2 ^ 37
      → (chunks_read_chunk rv R hash (length buf) zlen).1 ≡ chunk buf
  chunks_read_chunk-chunks_write_chunk C C' hash buf zlen maxchunksize R absent written hashes
        started same_buffer short limit =
      let (is_max, is_buffer, reader) =
        chunks_read_init_made rv (opened C'.store) maxchunksize R started in
      read_stored C C' hash buf zlen R absent written hashes reader (omega (arith, short, is_max))
        (omega (arith, is_buffer, same_buffer)) limit
