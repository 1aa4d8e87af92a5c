-- ===== src/Chunks/Delete/Counts.antt =====
-- What `chunks_delete_chunk` does to the counts of each chunk.
use tarsnap.Base.{
  ℕ, ◌<◌, ◌≡◌, refl, ap, ◌∙◌, ◌⊎◌, inl, inr, Bool, true, false, none, some, List, arith, Bool-cases,
  Option-cases, same_bytes, same_bytes_iff, bytes_eq,
}
use tarsnap.Chunks.Data.{Chunkdata, ChunkTable, in_ctape}
use tarsnap.Chunks.Refs.{drop_ref-SameChunk, drop_ref_counts}
use tarsnap.Chunks.Counts.{Dropped, refs_at, seen_at}
use tarsnap.Chunks.Delete.{
  DeleteServices, drop_ref, last_ref, DeleteState, drop_chunk, free_chunk, chunks_delete_chunk,
}
use tarsnap.Chunks.Delete.Account.{Accounted}

last_ref-true :
    (ch : Chunkdata) → last_ref ch ≡ true → (in_ctape ch ≡ false) × ((drop_ref ch).nrefs ≡ 0)
unfolding last_ref
last_ref-true ch h = ground arith

last_ref-false :
    (ch : Chunkdata) → last_ref ch ≡ false → (in_ctape ch ≡ true) ⊎ (0 < (drop_ref ch).nrefs)
unfolding last_ref
last_ref-false ch h = ground arith

module _ (tab : ChunkTable) (sv : DeleteServices) where
  open tab use {read, records}

  pub record DropsOne (t t' : tab.T) (hash : List ℕ) : Type 0 where
    pub dropped : Dropped (read t hash) (read t' hash)
    pub others : (k : List ℕ) → same_bytes hash k ≡ false → read t' k ≡ read t k

  drop_chunk-now :
      (C : DeleteState tab sv) (hash : List ℕ) (ch : Chunkdata)
      → Accounted tab sv C
      → read C.ht hash ≡ some ch
      → read (drop_chunk tab sv C hash ch).ht hash ≡ some (drop_ref ch)
  unfolding drop_chunk
  drop_chunk-now C hash ch a held =
      let same = drop_ref-SameChunk ch in
      let (ok', updates, sums) = tab.poke_law C.ht hash ch (drop_ref ch) a.ok held same.hash in
      let is_hash = same.hash ∙ tab.read_law C.ht hash ch a.ok held in
      updates hash ∙ rw ((same_bytes_iff (drop_ref ch).hash hash).1 is_hash)

  drop_chunk-DropsOne :
      (C : DeleteState tab sv) (hash : List ℕ) (ch : Chunkdata)
      → Accounted tab sv C
      → read C.ht hash ≡ some ch
      → 0 < ch.ncopies
      → DropsOne C.ht (drop_chunk tab sv C hash ch).ht hash
  unfolding drop_chunk
  drop_chunk-DropsOne C hash ch a held pos =
      let same = drop_ref-SameChunk ch in
      let d = a.droppable hash ch held in
      let (copies, refs, marked) = drop_ref_counts ch pos d.fits d.refs d.small in
      let (ok', updates, sums) = tab.poke_law C.ht hash ch (drop_ref ch) a.ok held same.hash in
      let is_hash = same.hash ∙ tab.read_law C.ht hash ch a.ok held in
      let now = drop_chunk-now C hash ch a held in
      record {
        dropped = rw (held, now) (record { copies = copies; refs = refs; seen = marked });
        others = λ k apart.
            let miss : same_bytes (drop_ref ch).hash k ≡ false = rw is_hash apart in
            updates k ∙ rw miss;
      }

  -- The chunk's file is removed: this was the archive's first drop of the chunk, and no other archive
  -- uses it.
  abbrev pub Removed : DeleteState tab sv → List ℕ → DeleteState tab sv × Bool → Type 0
  Removed C hash (C', ok) =
      (seen_at (read C.ht hash) ≡ false)
      × (refs_at (read C'.ht hash) ≡ 0)
      × (C'.store ≡ (sv.storage_delete_file C.store b'c' hash).0)
      × (ok ≡ (sv.storage_delete_file C.store b'c' hash).1)

  -- The chunk's file is kept.
  abbrev pub Kept : DeleteState tab sv → List ℕ → DeleteState tab sv × Bool → Type 0
  Kept C hash (C', ok) =
      ((seen_at (read C.ht hash) ≡ true) ⊎ (0 < refs_at (read C'.ht hash)))
      × (C'.store ≡ C.store)
      × (ok ≡ true)

  pub chunks_delete_chunk_counts :
      (C : DeleteState tab sv) (hash : List ℕ)
      → Accounted tab sv C
      → ((ch : Chunkdata) → read C.ht hash ≡ some ch → 0 < ch.ncopies)
      → ((read C.ht hash ≡ none) × (chunks_delete_chunk tab sv C hash ≡ (C, false)))
        ⊎ (DropsOne C.ht (chunks_delete_chunk tab sv C hash).0.ht hash
            × (Removed C hash (chunks_delete_chunk tab sv C hash)
                ⊎ Kept C hash (chunks_delete_chunk tab sv C hash)))
  unfolding chunks_delete_chunk
  chunks_delete_chunk_counts C hash a copies = elim (Option-cases (read C.ht hash)) [
    | inl absent ↦ inl (absent, rw (absent, chunks_delete_chunk))
    | inr (ch, held) ↦
        let one = drop_chunk-DropsOne C hash ch a held (copies ch held) in
        let now = drop_chunk-now C hash ch a held in
        elim (Bool-cases (last_ref ch)) [
          | inl gone ↦
              let (unseen, unused) = last_ref-true ch gone in
              let zero_refs : refs_at (read (drop_chunk tab sv C hash ch).ht hash) ≡ 0 =
                ap refs_at now ∙ unused in
              inr (
                rw (held, gone, chunks_delete_chunk) (unfold free_chunk in one),
                inl (
                    rw (held, gone, chunks_delete_chunk)
                      (unfold free_chunk drop_chunk in
                        (unseen, unfold drop_chunk in zero_refs, refl, refl))),
              )
          | inr kept ↦
              let still : (in_ctape ch ≡ true)
                  ⊎ (0 < refs_at (read (drop_chunk tab sv C hash ch).ht hash)) =
                elim (last_ref-false ch kept) [
                  | inl seen ↦ inl seen
                  | inr some_left ↦ inr (rw now some_left)
                ] in
              inr (
                rw (held, kept, chunks_delete_chunk) one,
                inr (rw (held, kept, chunks_delete_chunk) (still, unfold drop_chunk in refl, refl)),
              )
        ]
  ]
