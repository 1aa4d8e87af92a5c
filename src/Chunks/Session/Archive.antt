-- ===== src/Chunks/Session/Archive.antt =====
-- An archive written by one session and deleted by another, with the chunk directory on disk between.
use tarsnap.Base.{
  ℕ, ◌^◌, ◌<◌, ◌≤◌, ◌≡◌, ◌≢◌, refl, ◌∙◌, true, false, Option, none, some, List, arith, length, ◌==◌,
  bytes_eq,
}
use mathlib.Core.Option
use tarsnap.Base.Endian.{Endian}
use tarsnap.Datastruct.KeyedTable.{failed}
use tarsnap.Chunks.Data.{Chunkdata, ChunkTable}
use tarsnap.Chunks.Refs.{IsCounted}
use tarsnap.Chunks.Counts.{copies_at, refs_at, seen_at, count_of}
use tarsnap.Chunks.Write.{Services, WriteState}
use tarsnap.Chunks.Write.Account as WriteAccount
use tarsnap.Chunks.Delete.{DeleteServices, DeleteState}
use tarsnap.Chunks.Directory.{Io, holds, plain, Loaded, chunks_directory_read}
use tarsnap.Chunks.Directory.Sane.{reloaded}
use tarsnap.Chunks.Directory.Entries.{IsStorable, stored}
use tarsnap.Chunks.Directory.Reading.{IsSmooth}
use tarsnap.Chunks.Directory.Roundtrip.{read-write}
use tarsnap.Chunks.Session.{chunks_write_checkpoint, chunks_delete_start, delete_state}
use tarsnap.Chunks.Session.Account.{chunks_delete_start-Accounted}
use tarsnap.Chunks.Lifetime.{HasRoom, Archived, archive-Outcome, Deleted, archive_delete}

-- Where every chunk is in use, the stored chunks are the chunks without flags.
stored-used :
    (o : Option Chunkdata)
    → ((ch : Chunkdata) → o ≡ some ch → IsCounted ch)
    → Option.map (λ (ch : Chunkdata). ch) (stored plain o) ≡ Option.map reloaded o
stored-used none used = refl
stored-used (some ch) used =
    let in_use : (ch.nrefs == 0) ≡ false = ground (arith, (used ch refl).used) in rw in_use

module _ (le : Endian) (tab : ChunkTable) (wsv : Services) (dsv : DeleteServices)
    (room : (t : tab.T) (r : Chunkdata)
      → tab.IsOk t
      → tab.getsize t < 2 ^ 58
      → (tab.insert t r).1 ≢ failed) where
  open tab use {read}

  -- A checkpoint that a write transaction with its accounts right writes is what a delete transaction
  -- starts from: both succeed, the delete transaction's table is that of the write transaction without
  -- flags, and the statistics of extra data are the same. This is if no call of the system fails, the
  -- tables can grow, each chunk is storable (its name has 32 bytes, neither its length nor its
  -- compressed length is zero, and its numbers fit 32 bits), the statistics fit 64 bits, and there are
  -- fewer than 2 ^ 58 chunks.
  pub chunks_delete_start-chunks_write_checkpoint :
      (io jo : Io) (t0 : tab.T) (W : WriteState tab wsv) (S : dsv.Storage)
      → IsSmooth io
      → IsSmooth jo
      → tab.init ≡ some t0
      → WriteAccount.Accounted tab wsv W
      → ((k : List ℕ) (ch : Chunkdata) → read W.ht k ≡ some ch → IsStorable ch)
      → tab.getsize W.ht < 2 ^ 58
      → W.stats_extra.nchunks < 2 ^ 64
      → W.stats_extra.s_len < 2 ^ 64
      → W.stats_extra.s_zlen < 2 ^ 64
      → (file : List ℕ) × (D : DeleteState tab dsv) × (chunks_write_checkpoint le tab wsv io false W
          ≡ (some file, true))
        × (chunks_delete_start le tab dsv jo (holds file) S ≡ some D)
        × ((k : List ℕ) → read D.ht k ≡ Option.map reloaded (read W.ht k))
        × (D.stats_extra ≡ W.stats_extra)
  unfolding chunks_write_checkpoint chunks_delete_start
  chunks_delete_start-chunks_write_checkpoint io jo t0 W S smooth smooth' empty a storable few n l
        z =
      let (file, L, written, loaded, reads, extra) =
        read-write le plain tab room io jo false W.ht t0 W.stats_extra smooth smooth' empty a.ok
          (λ k ch held used. storable k ch held) few n l z in
      (
        file,
        delete_state le tab dsv S L,
        written,
        started file L loaded,
        λ k. reads k ∙ stored-used (read W.ht k) (λ ch held. a.counted k ch held),
        extra,
      )
    where
      started :
          (file : List ℕ) (L : Loaded le plain tab)
          → chunks_directory_read le plain tab jo false (some (holds file)) ≡ some L
          → chunks_delete_start le tab dsv jo (holds file) S ≡ some (delete_state le tab dsv S L)
      started file L loaded = simp (smooth'.alloc 176, smooth'.copied) (rw loaded)

  -- Archiving, writing the checkpoint, starting to delete from that file, and deleting what was
  -- archived leaves each chunk with the copies and references that it had before. The write
  -- transaction starts with its accounts right, no chunk flagged, a buffer shorter than the flag
  -- bits (chunks_write_chunk asserts that), a `compress2` that stays within it, and for each chunk
  -- fewer than 2 ^ 32 copies and uses together. At the checkpoint each chunk is storable (its name has
  -- 32 bytes, neither its length nor its compressed length is zero, and its numbers fit 32 bits), the
  -- statistics of extra data fit 64 bits, and there are fewer than 2 ^ 58 chunks; no call of the
  -- system fails between the transactions, and the tables can grow. The chunks are dropped as often as
  -- they were used, in any order.
  pub archive_delete_disk :
      (io jo : Io) (t0 : tab.T) (C W : WriteState tab wsv) (S : dsv.Storage) (hs : List (List ℕ))
      → WriteAccount.Accounted tab wsv C
      → C.zbuflen < 2 ^ 30
      → ((n : ℕ) (d z : List ℕ) → wsv.compress2 n d ≡ some z → length z ≤ n)
      → HasRoom tab wsv C hs
      → ((k : List ℕ) → seen_at (read C.ht k) ≡ false)
      → Archived tab wsv C hs W
      → IsSmooth io
      → IsSmooth jo
      → tab.init ≡ some t0
      → ((k : List ℕ) (ch : Chunkdata) → read W.ht k ≡ some ch → IsStorable ch)
      → tab.getsize W.ht < 2 ^ 58
      → W.stats_extra.nchunks < 2 ^ 64
      → W.stats_extra.s_len < 2 ^ 64
      → W.stats_extra.s_zlen < 2 ^ 64
      → (file : List ℕ) × (D : DeleteState tab dsv) × (chunks_write_checkpoint le tab wsv io false W
          ≡ (some file, true))
        × (chunks_delete_start le tab dsv jo (holds file) S ≡ some D)
        × ((gs : List (List ℕ)) (E : DeleteState tab dsv)
            → ((k : List ℕ) → count_of k gs ≡ count_of k hs)
            → Deleted tab dsv D gs E
            → (k : List ℕ)
            → (copies_at (read E.ht k) ≡ copies_at (read C.ht k))
              × (refs_at (read E.ht k) ≡ refs_at (read C.ht k)))
  archive_delete_disk io jo t0 C W S hs a small bounded has_room unseen archived smooth smooth'
        empty storable few n l z =
      let out = archive-Outcome tab wsv C W hs a small bounded has_room archived in
      let (file, D, written, started, same_table, extra) =
        chunks_delete_start-chunks_write_checkpoint io jo t0 W S smooth smooth' empty out.accounts
          storable few n l z in
      let (d, unmarked) = chunks_delete_start-Accounted le tab dsv jo (holds file) S D started in
      (
        file,
        D,
        written,
        started,
        λ gs E same_uses deleted k.
            archive_delete tab wsv dsv C W D E hs gs a small bounded has_room unseen archived d
              same_table same_uses deleted k,
      )
