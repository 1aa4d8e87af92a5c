-- ===== src/Chunks/Delete/Account.antt =====
-- A delete transaction keeps its accounts, and asks the storage layer to remove a chunk exactly when
-- the last archive that uses it goes.
use tarsnap.Base.{
  ℕ, ◌+◌, ◌^◌, ◌<◌, ◌≤◌, ◌≡◌, sym, ◌∙◌, inl, inr, true, false, some, List, arith, Bool-cases,
  Option-cases, same_bytes, bytes_eq,
}
use tarsnap.Datastruct.KeyedTable.{Updates}
use tarsnap.Chunks.Data.{Chunkdata, ChunkTable, key_of, in_ctape}
use tarsnap.Chunks.Stats.{Tallies, Tallies-replace_same, Tallies-replace_less}
use tarsnap.Chunks.Refs.{live, copies_of, drop_ref-SameChunk, drop_ref_counts, once}
use tarsnap.Chunks.Delete.{
  DeleteServices, drop_ref, last_ref, DeleteState, drop_chunk, free_chunk, chunks_delete_chunk,
}

-- The counts of a chunk that a delete transaction has in its table: they fit their fields, and a
-- chunk that the current archive has not yet dropped is used by it.
pub record IsDroppable (ch : Chunkdata) : Type 0 where
  pub refs : once (in_ctape ch) ≤ ch.nrefs
  pub small : ch.nrefs < 2 ^ 32
  pub fits : ch.ncopies < 2 ^ 32

module _ (ch : Chunkdata) (d : IsDroppable ch) (pos : 0 < ch.ncopies) where
  live_kept : last_ref ch ≡ false → live (drop_ref ch) ≡ live ch
  unfolding last_ref
  live_kept kept = ground (arith, drop_ref_counts ch pos d.fits d.refs d.small)

  live_last : last_ref ch ≡ true → live ch ≡ live (drop_ref ch) + 1
  unfolding last_ref
  live_last gone = ground (arith, drop_ref_counts ch pos d.fits d.refs d.small)

  drop_ref-IsDroppable : IsDroppable (drop_ref ch)
  drop_ref-IsDroppable =
      let (copies, refs, marked) = drop_ref_counts ch pos d.fits d.refs d.small in
      record {
        refs = rw marked (omega arith);
        small = omega (arith, d.small);
        fits = omega (arith, d.fits);
      }

module _ (tab : ChunkTable) (sv : DeleteServices) where
  open tab use {read, records}

  pub record Accounted (C : DeleteState tab sv) : Type 0 where
    pub ok : tab.IsOk C.ht
    pub droppable : (k : List ℕ) (ch : Chunkdata) → read C.ht k ≡ some ch → IsDroppable ch
    pub unique : Tallies live (records C.ht) C.stats_unique
    pub total : Tallies copies_of (records C.ht) C.stats_total

  reads-IsDroppable :
      (t : tab.T) (new : Chunkdata) (u : tab.T)
      → IsDroppable new
      → ((k : List ℕ) (ch : Chunkdata) → read t k ≡ some ch → IsDroppable ch)
      → Updates key_of read records t new u
      → (k : List ℕ) (ch : Chunkdata) → read u k ≡ some ch
      → IsDroppable ch
  reads-IsDroppable t new u fresh old updates k ch h = elim (Bool-cases (same_bytes new.hash k)) [
    | inl hit ↦
        let is_new : some new ≡ some ch = sym (updates k ∙ rw hit) ∙ h in
        let eq : new ≡ ch = cc in rw eq at fresh
    | inr miss ↦ old k ch (sym (updates k ∙ rw miss) ∙ h)
  ]

  module _ (C : DeleteState tab sv) (hash : List ℕ) (ch : Chunkdata) (a : Accounted C)
      (held : read C.ht hash ≡ some ch) (pos : 0 < ch.ncopies) where
    drop_chunk-Accounted : last_ref ch ≡ false → Accounted (drop_chunk tab sv C hash ch)
    unfolding drop_chunk
    drop_chunk-Accounted kept =
        let same = drop_ref-SameChunk ch in
        let d = a.droppable hash ch held in
        let (ok', reads, sums) = tab.poke_law C.ht hash ch (drop_ref ch) a.ok held same.hash in
        let (copies, refs, marked) = drop_ref_counts ch pos d.fits d.refs d.small in
        record {
          ok = ok';
          droppable = λ k ch' h.
              reads-IsDroppable C.ht (drop_ref ch) _ (drop_ref-IsDroppable ch d pos) a.droppable
                reads k ch' h;
          unique =
              Tallies-replace_same live (records C.ht) _ C.stats_unique ch (drop_ref ch) same sums
                (live_kept ch d pos kept) a.unique;
          total =
              Tallies-replace_less copies_of (records C.ht) _ C.stats_total ch (drop_ref ch) same
                sums (sym copies) a.total;
        }

    free_chunk-Accounted :
        last_ref ch ≡ true → Accounted (free_chunk tab sv (drop_chunk tab sv C hash ch) hash ch).0
    unfolding drop_chunk free_chunk
    free_chunk-Accounted gone =
        let same = drop_ref-SameChunk ch in
        let d = a.droppable hash ch held in
        let (ok', reads, sums) = tab.poke_law C.ht hash ch (drop_ref ch) a.ok held same.hash in
        let (copies, refs, marked) = drop_ref_counts ch pos d.fits d.refs d.small in
        record {
          ok = ok';
          droppable = λ k ch' h.
              reads-IsDroppable C.ht (drop_ref ch) _ (drop_ref-IsDroppable ch d pos) a.droppable
                reads k ch' h;
          unique =
              Tallies-replace_less live (records C.ht) _ C.stats_unique ch (drop_ref ch) same sums
                (live_last ch d pos gone) a.unique;
          total =
              Tallies-replace_less copies_of (records C.ht) _ C.stats_total ch (drop_ref ch) same
                sums (sym copies) a.total;
        }

  -- Dropping a chunk keeps the accounts on every branch, a failure of the storage layer included, if
  -- the table records a copy for this use of the chunk. Modulo 2 ^ 64, the statistics of all archives
  -- stay, with multiplicity, the sums over all chunks of the hash table, each counted as often as it
  -- has copies, and without, those over the chunks that have references left; and each chunk has a
  -- reference for the current archive if that has not dropped it, and counts that fit 32 bits.
  pub chunks_delete_chunk-Accounted :
      (C : DeleteState tab sv) (hash : List ℕ)
      → Accounted C
      → ((ch : Chunkdata) → read C.ht hash ≡ some ch → 0 < ch.ncopies)
      → Accounted (chunks_delete_chunk tab sv C hash).0
  unfolding chunks_delete_chunk
  chunks_delete_chunk-Accounted C hash a copies = elim (Option-cases (read C.ht hash)) [
    | inl absent ↦ rw (absent, chunks_delete_chunk) a
    | inr (ch, held) ↦
        let pos = copies ch held in
        elim (Bool-cases (last_ref ch)) [
          | inl gone ↦
              rw (held, gone, chunks_delete_chunk) (free_chunk-Accounted C hash ch a held pos gone)
          | inr kept ↦
              rw (held, kept, chunks_delete_chunk) (drop_chunk-Accounted C hash ch a held pos kept)
        ]
  ]
