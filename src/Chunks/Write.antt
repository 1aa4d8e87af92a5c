-- ===== src/Chunks/Write.antt =====
-- tar/chunks/chunks_write.c: a write transaction.
--
-- The hash table is any that keeps the laws of `KeyedTable`. Outside the repository are zlib's
-- `compress2` (a result within the buffer's length, or none on an error) and memory (`alloc`); the
-- storage layer is a state and its `storage_write_file`, whose second part is true on success.
pub mod Account
pub mod Counts
use tarsnap.Base.{
  ℕ, ◌+◌, ◌-◌, ◌/◌, ◌%◌, ◌^◌, bit_or, Bool, true, false, Option, none, some, List, ◌++◌, ltb, leb,
  length, replicate, if◌then◌else◌,
}
use tarsnap.Datastruct.KeyedTable.{Inserted, done, present, failed}
use tarsnap.Chunks.Data.{
  Chunkdata, Chunkstats, ChunkTable, zlen_of, in_ctape, mark_ctape, chdata_malloc, chdata_ctape,
  chunks_stats_add,
}
use tarsnap.Chunks.Padme.{padme}

-- What the write transaction uses of other components.
pub record Services : Type 1 where
  pub Storage : Type 0
  -- Given the file's bytes, its class and its name.
  pub storage_write_file : Storage → List ℕ → ℕ → List ℕ → Storage × Bool
  -- Given the buffer's length and the data.
  pub compress2 : ℕ → List ℕ → Option (List ℕ)
  pub alloc : ℕ → Bool
  -- What becomes of the shift in `padme` that C leaves undefined.
  pub undefined : ℕ → ℕ

-- The reference count of a chunk for one more use by the current archive.
unfoldable pub add_ref : Chunkdata → Chunkdata
add_ref ch =
    let ch1 = record ch { ncopies = (ch.ncopies + 1) % 2 ^ 32 } in
    if in_ctape ch then ch1 else mark_ctape (record ch1 { nrefs = (ch.nrefs + 1) % 2 ^ 32 })

-- The record that `chunks_write_chunk` fills in.
unfoldable pub new_chunk : List ℕ → ℕ → ℕ → Chunkdata
new_chunk hash buflen zlen = record {
  hash = hash;
  len = buflen % 2 ^ 32;
  zlen_flags = bit_or (bit_or zlen chdata_malloc) chdata_ctape % 2 ^ 32;
  nrefs = 1;
  ncopies = 1;
}

module _ (tab : ChunkTable) (sv : Services) where
  open tab use {T, read, insert, poke}
  open sv use {Storage, storage_write_file, compress2, alloc, undefined}

  -- `struct chunks_write_internal`, but for the buffer, the path and the on-disk records.
  pub record WriteState : Type 0 where
    pub maxlen : ℕ
    pub zbuflen : ℕ
    pub ht : T
    pub store : Storage
    pub stats_total : Chunkstats
    pub stats_unique : Chunkstats
    pub stats_extra : Chunkstats
    pub stats_extra_copy : Chunkstats
    pub stats_tape : Chunkstats
    pub stats_new : Chunkstats
    pub stats_tapee : Chunkstats

  -- The branch of `chunks_write_chunk` and `chunks_write_chunkref` for a chunk that is present.
  unfoldable pub use_chunk : WriteState → List ℕ → Chunkdata → WriteState
  use_chunk C hash ch = record C {
    stats_total = chunks_stats_add C.stats_total ch.len (zlen_of ch) 1;
    stats_tape = chunks_stats_add C.stats_tape ch.len (zlen_of ch) 1;
    ht = poke C.ht hash (add_ref ch);
  }

  unfoldable pub count_new : WriteState → Chunkdata → ℕ → WriteState
  count_new C ch zlen = record C {
    stats_total = chunks_stats_add C.stats_total ch.len zlen 1;
    stats_unique = chunks_stats_add C.stats_unique ch.len zlen 1;
    stats_tape = chunks_stats_add C.stats_tape ch.len zlen 1;
    stats_new = chunks_stats_add C.stats_new ch.len zlen 1;
  }

  -- What follows the hash table's answer; -1 is `none`.
  unfoldable pub after_insert : WriteState → Chunkdata → ℕ → T × Inserted → WriteState × Option ℕ
  after_insert C ch zlen (ht', done) = (count_new (record C { ht = ht' }) ch zlen, some zlen)
  after_insert C ch zlen (ht', present) = (record C { ht = ht' }, none)
  after_insert C ch zlen (ht', failed) = (record C { ht = ht' }, none)

  -- The file for a new chunk, and its record.
  unfoldable pub store_chunk : WriteState → List ℕ → ℕ → List ℕ → WriteState × Option ℕ
  store_chunk C hash buflen zbuf =
      let zlen0 = length zbuf in
      let padlen = padme undefined zlen0 C.zbuflen in
      let zlen = zlen0 + padlen in
      let (store', ok) = storage_write_file C.store (zbuf ++ replicate padlen 0) b'c' hash in
      let C1 = record C { store = store' } in
      if ltb (2 ^ 63 - 1) zlen0
      then (C, none)
      else if ok
      then (let ch = new_chunk hash buflen zlen in
          if alloc 48 then after_insert C1 ch zlen (insert C1.ht ch) else (C1, none))
      else (C1, none)

  -- The two asserts, on `buflen` and on `zbuflen`, are hypotheses of the theorems.
  unfoldable pub chunks_write_chunk : WriteState → List ℕ → List ℕ → WriteState × Option ℕ
  chunks_write_chunk C hash buf = elim (read C.ht hash) [
    | some ch ↦ (use_chunk C hash ch, some (zlen_of ch))
    | none ↦ elim (compress2 C.zbuflen buf) [
      | none ↦ (C, none)
      | some zbuf ↦ store_chunk C hash (length buf) zbuf
    ]
  ]

  -- True stands for 0, the chunk is present.
  unfoldable pub chunks_write_ispresent : WriteState → List ℕ → Bool
  chunks_write_ispresent C hash = elim (read C.ht hash) [ some ch ↦ true | none ↦ false ]

  -- True stands for 0, and false for 1: there is no such chunk.
  unfoldable pub chunks_write_chunkref : WriteState → List ℕ → WriteState × Bool
  chunks_write_chunkref C hash = elim (read C.ht hash) [
    | some ch ↦ (use_chunk C hash ch, true)
    | none ↦ (C, false)
  ]

  unfoldable pub chunks_write_extrastats : WriteState → ℕ → WriteState
  chunks_write_extrastats C len = record C {
    stats_extra = chunks_stats_add C.stats_extra len len 1;
    stats_tapee = chunks_stats_add C.stats_tapee len len 1;
  }

  unfoldable pub chunks_write_extrastats_copy : WriteState → ℕ → WriteState
  chunks_write_extrastats_copy C direction =
      if leb direction 0
      then record C { stats_extra_copy = C.stats_extra }
      else record C { stats_extra = C.stats_extra_copy }
