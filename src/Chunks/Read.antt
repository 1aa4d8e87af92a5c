-- ===== src/Chunks/Read.antt =====
-- tar/chunks/chunks_read.c: reading chunks.
--
-- Outside the file are the storage layer's cookie with its two operations, zlib's `uncompress` (what
-- it returns within the buffer's length, or none on an error), `crypto_hash_data` with the key of
-- chunks, and memory (`alloc`).
pub mod Written
pub mod Checked
mod Tests
use tarsnap.Base.{
  ℕ, ◌+◌, ◌-◌, ◌/◌, ◌%◌, ◌^◌, Bool, true, false, ◌||◌, Option, none, some, List, ltb, ◌==◌, length,
  not, same_bytes, if◌then◌else◌,
}

-- What `storage_read_file` returns: -1, 0 with what the buffer holds then, 1 and 2.
pub data ReadFile : Type 0 where
  failure : ReadFile
  file : List ℕ → ReadFile
  no_file : ReadFile
  bad_file : ReadFile

-- What `chunks_read_chunk` returns: -1, 0 with what `buf` holds then, 1 and 2.
pub data ReadChunk : Type 0 where
  error : ReadChunk
  chunk : List ℕ → ReadChunk
  notpresent : ReadChunk
  corrupt : ReadChunk

pub record ReadServices : Type 1 where
  pub Cookie : Type 0
  -- Given the file's length, its class and its name.
  pub storage_read_file : Cookie → ℕ → ℕ → List ℕ → Cookie × ReadFile
  -- Given the class and the name.
  pub storage_read_add_name_cache : Cookie → ℕ → List ℕ → Cookie × Bool
  -- Given the buffer's length and the data.
  pub uncompress : ℕ → List ℕ → Option (List ℕ)
  pub crypto_hash_data : List ℕ → Option (List ℕ)
  pub alloc : ℕ → Bool

module _ (rv : ReadServices) where
  open rv use {
    Cookie, storage_read_file, storage_read_add_name_cache, uncompress, crypto_hash_data, alloc,
  }

  -- `struct chunks_read_internal`, but for the buffer.
  pub record ReadState : Type 0 where
    pub maxlen : ℕ
    pub zbuflen : ℕ
    pub s : Cookie

  unfoldable pub chunks_read_init : Cookie → ℕ → Option ReadState
  chunks_read_init s maxchunksize =
      let zbuflen = (maxchunksize + maxchunksize / 1000 + 13) % 2 ^ 64 in
      if (maxchunksize == 0) || ltb ((2 ^ 64 - 1) / 2) maxchunksize
      then none
      else if alloc 32
      then (if alloc zbuflen
          then some (record { maxlen = maxchunksize; zbuflen = zbuflen; s = s })
          else none)
      else none

  -- True stands for 0.
  unfoldable pub chunks_read_cache : ReadState → List ℕ → ReadState × Bool
  chunks_read_cache C hash =
      let (s', ok) = storage_read_add_name_cache C.s b'c' hash in (record C { s = s' }, ok)

  unfoldable pub check_hash : List ℕ → List ℕ → ReadChunk
  check_hash hash buf = elim (crypto_hash_data buf) [
    | none ↦ error
    | some hash_actual ↦ if same_bytes hash hash_actual then chunk buf else corrupt
  ]

  unfoldable pub unpack : List ℕ → ℕ → List ℕ → ReadChunk
  unpack hash len zbuf = elim (uncompress len zbuf) [
    | none ↦ corrupt
    | some buf ↦ if length buf == len then check_hash hash buf else corrupt
  ]

  -- What follows the storage layer's answer.
  unfoldable pub after_read_file : List ℕ → ℕ → ReadFile → ReadChunk
  after_read_file hash len failure = error
  after_read_file hash len (file zbuf) = unpack hash len zbuf
  after_read_file hash len no_file = notpresent
  after_read_file hash len bad_file = corrupt

  unfoldable pub chunks_read_chunk : ReadState → List ℕ → ℕ → ℕ → ReadState × ReadChunk
  chunks_read_chunk C hash len zlen =
      if ltb C.maxlen len || ltb C.zbuflen zlen
      then (C, corrupt)
      else let (s', answer) = storage_read_file C.s zlen b'c' hash in
        (record C { s = s' }, after_read_file hash len answer)
