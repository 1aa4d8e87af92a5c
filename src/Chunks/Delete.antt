-- ===== src/Chunks/Delete.antt =====
-- tar/chunks/chunks_delete.c: a delete transaction. The storage layer is a state and its
-- `storage_delete_file`, whose second part is true on success.
pub mod Account
pub mod Counts
use tarsnap.Base.{
  ℕ, ◌+◌, ◌-◌, ◌%◌, ◌^◌, Bool, true, false, Option, none, some, List, ◌==◌, if◌then◌else◌, bytes_eq,
}
use tarsnap.Datastruct.KeyedTable.{KeyedTable}
use tarsnap.Chunks.Data.{
  Chunkdata, Chunkstats, ChunkTable, zlen_of, in_ctape, mark_ctape, chunks_stats_add, minus_one,
}

pub record DeleteServices : Type 1 where
  pub Storage : Type 0
  -- Given the file's class and its name.
  pub storage_delete_file : Storage → ℕ → List ℕ → Storage × Bool

-- The chunk's record after one use by the current archive is dropped.
unfoldable pub drop_ref : Chunkdata → Chunkdata
drop_ref ch =
    let ch1 = record ch { ncopies = (ch.ncopies + 2 ^ 32 - 1) % 2 ^ 32 } in
    if in_ctape ch
    then ch1
    else record (mark_ctape ch1) { nrefs = (ch.nrefs + 2 ^ 32 - 1) % 2 ^ 32 }

-- The archive's first drop of the chunk leaves no archive that uses it.
unfoldable pub last_ref : Chunkdata → Bool
last_ref ch = if in_ctape ch then false else (drop_ref ch).nrefs == 0

module _ (tab : ChunkTable) (sv : DeleteServices) where
  open tab use {T, read, poke}
  open sv use {Storage, storage_delete_file}

  -- `struct chunks_delete_internal`, but for the path and the on-disk records.
  pub record DeleteState : Type 0 where
    pub ht : T
    pub store : Storage
    pub stats_total : Chunkstats
    pub stats_unique : Chunkstats
    pub stats_extra : Chunkstats
    pub stats_tape : Chunkstats
    pub stats_freed : Chunkstats
    pub stats_tapee : Chunkstats

  unfoldable pub chunks_delete_getdirsz : DeleteState → ℕ
  chunks_delete_getdirsz C = tab.getsize C.ht

  -- The statistics and the counts of a chunk that is present.
  unfoldable pub drop_chunk : DeleteState → List ℕ → Chunkdata → DeleteState
  drop_chunk C hash ch = record C {
    stats_total = chunks_stats_add C.stats_total ch.len (zlen_of ch) minus_one;
    stats_tape = chunks_stats_add C.stats_tape ch.len (zlen_of ch) 1;
    ht = poke C.ht hash (drop_ref ch);
  }

  -- The reference count is now zero: the chunk is freed.
  unfoldable pub free_chunk : DeleteState → List ℕ → Chunkdata → DeleteState × Bool
  free_chunk C hash ch =
      let (store', ok) = storage_delete_file C.store b'c' hash in
      (
        record C {
          stats_unique = chunks_stats_add C.stats_unique ch.len (zlen_of ch) minus_one;
          stats_freed = chunks_stats_add C.stats_freed ch.len (zlen_of ch) 1;
          store = store';
        },
        ok,
      )

  -- True stands for 0, and false for -1.
  unfoldable pub chunks_delete_chunk : DeleteState → List ℕ → DeleteState × Bool
  chunks_delete_chunk C hash = elim (read C.ht hash) [
    | none ↦ (C, false)
    | some ch ↦
        let C1 = drop_chunk C hash ch in if last_ref ch then free_chunk C1 hash ch else (C1, true)
  ]

  unfoldable pub chunks_delete_extrastats : DeleteState → ℕ → DeleteState
  chunks_delete_extrastats C len = record C {
    stats_extra = chunks_stats_add C.stats_extra len len minus_one;
    stats_tapee = chunks_stats_add C.stats_tapee len len 1;
  }
