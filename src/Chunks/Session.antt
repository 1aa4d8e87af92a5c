-- ===== src/Chunks/Session.antt =====
-- The start and the end of the write and delete transactions of tar/chunks, which read the chunk
-- directory and write it.
pub mod Account
pub mod Archive
mod Tests
use tarsnap.Base.{
  ℕ, ◌+◌, ◌-◌, ◌/◌, ◌%◌, ◌^◌, Bool, true, false, Option, none, some, List, ltb, ◌==◌, if◌then◌else◌,
}
use tarsnap.Base.Endian.{Endian}
use tarsnap.Chunks.Data.{Chunkstats, ChunkTable, chunks_stats_zero}
use tarsnap.Chunks.Write.{Services, WriteState}
use tarsnap.Chunks.Delete.{DeleteServices, DeleteState}
use tarsnap.Chunks.Directory.{
  Io, OnDisk, plain, Loaded, chunks_directory_read, chunks_directory_write,
}

-- The path is copied, if there is one.
unfoldable pub copy_path : Io → Option OnDisk → Bool
copy_path io none = true
copy_path io (some state) = io.copied

module _ (le : Endian) (tab : ChunkTable) where
  -- A state of the transaction with what the directory gave. `unset` stands for the fields that
  -- `chunks_write_start` leaves as `malloc` gave them.
  abbrev pub write_state :
      (sv : Services) → sv.Storage → ℕ → ℕ → Chunkstats → Loaded le plain tab → WriteState tab sv
  write_state sv S maxlen zbuflen unset L = record {
    maxlen = maxlen;
    zbuflen = zbuflen;
    ht = L.ht;
    store = S;
    stats_total = L.stats_all;
    stats_unique = L.stats_unique;
    stats_extra = L.stats_extra;
    stats_extra_copy = unset;
    stats_tape = chunks_stats_zero;
    stats_new = chunks_stats_zero;
    stats_tapee = chunks_stats_zero;
  }

  -- No cache directory is `none`, and its path is not copied then. The state has 224 bytes.
  unfoldable pub chunks_write_start :
      (sv : Services) (io : Io)
      → Option OnDisk
      → sv.Storage
      → ℕ
      → Chunkstats
      → Option (WriteState tab sv)
  chunks_write_start sv io cache S maxchunksize unset =
      let zbuflen = (maxchunksize + maxchunksize / 1000 + 13) % 2 ^ 64 in
      if maxchunksize == 0
      then none
      else if ltb ((2 ^ 64 - 1) / 2) maxchunksize
      then none
      else if io.alloc 224
      then if io.alloc zbuflen
        then if copy_path io cache
          then elim (chunks_directory_read le plain tab io false cache) [
            | none ↦ none
            | some L ↦ some (write_state sv S maxchunksize zbuflen unset L)
          ]
          else none
        else none
      else none

  -- The file that is left, and whether the function returns 0. In a dry run nothing is written.
  unfoldable pub chunks_write_checkpoint :
      (sv : Services) → Io → Bool → WriteState tab sv → Option (List ℕ) × Bool
  chunks_write_checkpoint sv io dryrun C =
      if dryrun then (none, true) else chunks_directory_write le plain tab io C.ht C.stats_extra

  abbrev pub delete_state :
      (sv : DeleteServices) → sv.Storage → Loaded le plain tab → DeleteState tab sv
  delete_state sv S L = record {
    ht = L.ht;
    store = S;
    stats_total = L.stats_all;
    stats_unique = L.stats_unique;
    stats_extra = L.stats_extra;
    stats_tape = chunks_stats_zero;
    stats_freed = chunks_stats_zero;
    stats_tapee = chunks_stats_zero;
  }

  -- The state has 176 bytes.
  unfoldable pub chunks_delete_start :
      (sv : DeleteServices) (io : Io) → OnDisk → sv.Storage → Option (DeleteState tab sv)
  chunks_delete_start sv io state S =
      if io.alloc 176
      then if io.copied
        then elim (chunks_directory_read le plain tab io false (some state)) [
          | none ↦ none
          | some L ↦ some (delete_state sv S L)
        ]
        else none
      else none

  unfoldable pub chunks_delete_end :
      (sv : DeleteServices) → Io → DeleteState tab sv → Option (List ℕ) × Bool
  chunks_delete_end sv io C = chunks_directory_write le plain tab io C.ht C.stats_extra
