-- ===== src/Chunks/Write/Account.antt =====
-- A write transaction keeps its accounts: the statistics are the sums over the chunks that the hash
-- table holds.
use tarsnap.Base.{
  ℕ, ◌+◌, ◌-◌, ◌^◌, ◌<◌, ◌≤◌, ◌≡◌, refl, sym, ◌∙◌, inl, inr, some, List, arith, ltb, Bool-cases,
  Option-cases, same_bytes, bytes_eq, length, ◌++◌, replicate,
}
use tarsnap.Datastruct.KeyedTable.{Updates, InsertLaw, Inserted, done, present, failed}
use tarsnap.Chunks.Data.{Chunkdata, ChunkTable, key_of, zlen_of}
use tarsnap.Chunks.Stats.{
  Tallies, Tallies-replace_same, Tallies-replace_more, Tallies-insert, Tallies_same,
}
use tarsnap.Chunks.Refs.{
  IsCounted, live, copies_of, add_ref-SameChunk, add_ref_counts, add_ref-IsCounted,
}
use tarsnap.Chunks.Flags.{zlen_of_lem, new_flags}
use tarsnap.Chunks.Padme.{padme}
use tarsnap.Chunks.Padme.Exact.{padme-le}
use tarsnap.Chunks.Write.{
  Services, add_ref, WriteState, use_chunk, after_insert, count_new, new_chunk, store_chunk,
  chunks_write_chunk, chunks_write_chunkref,
}

live_used : (ch : Chunkdata) → 0 < ch.nrefs → live ch ≡ 1
live_used ch h = ground arith

-- A new chunk's record holds the length that was stored.
pub zlen_of-new_chunk :
    (hash : List ℕ) (buflen zlen : ℕ) → zlen < 2 ^ 30 → zlen_of (new_chunk hash buflen zlen) ≡ zlen
unfolding new_chunk
zlen_of-new_chunk hash buflen zlen small =
    omega (arith, zlen_of_lem (new_chunk hash buflen zlen), new_flags zlen small)

new_chunk-IsCounted : (hash : List ℕ) (buflen zlen : ℕ) → IsCounted (new_chunk hash buflen zlen)
unfolding new_chunk
new_chunk-IsCounted hash buflen zlen = record { used = omega arith; covered = omega arith }

module _ (tab : ChunkTable) (sv : Services) where
  open tab use {read, records}

  pub record Accounted (C : WriteState tab sv) : Type 0 where
    pub ok : tab.IsOk C.ht
    pub counted : (k : List ℕ) (ch : Chunkdata) → read C.ht k ≡ some ch → IsCounted ch
    pub unique : Tallies live (records C.ht) C.stats_unique
    pub total : Tallies copies_of (records C.ht) C.stats_total

  -- The invariant of the records, after a record that has it is written.
  reads-IsCounted :
      (t : tab.T) (new : Chunkdata) (u : tab.T)
      → IsCounted new
      → ((k : List ℕ) (ch : Chunkdata) → read t k ≡ some ch → IsCounted ch)
      → Updates key_of read records t new u
      → (k : List ℕ) (ch : Chunkdata) → read u k ≡ some ch
      → IsCounted ch
  reads-IsCounted t new u fresh old updates k ch h = elim (Bool-cases (same_bytes new.hash k)) [
    | inl hit ↦
        let is_new : some new ≡ some ch = sym (updates k ∙ rw hit) ∙ h in
        let eq : new ≡ ch = cc in rw eq at fresh
    | inr miss ↦ old k ch (sym (updates k ∙ rw miss) ∙ h)
  ]

  module _ (C : WriteState tab sv) (hash : List ℕ) (ch : Chunkdata) (a : Accounted C)
      (held : read C.ht hash ≡ some ch) (room : ch.ncopies + 1 < 2 ^ 32) where
    pub use_chunk-Accounted : Accounted (use_chunk tab sv C hash ch)
    unfolding use_chunk
    use_chunk-Accounted =
        let same = add_ref-SameChunk ch in
        let c = a.counted hash ch held in
        let (copies, refs, marked) = add_ref_counts ch c room in
        let c' = add_ref-IsCounted ch c room in
        let (ok', reads, sums) = tab.poke_law C.ht hash ch (add_ref ch) a.ok held same.hash in
        let one = live_used ch c.used in
        let one' = live_used (add_ref ch) c'.used in
        record {
          ok = ok';
          counted = λ k ch' h. reads-IsCounted C.ht (add_ref ch) _ c' a.counted reads k ch' h;
          unique =
              Tallies-replace_same live (records C.ht) _ C.stats_unique ch (add_ref ch) same sums
                (one' ∙ sym one) a.unique;
          total =
              Tallies-replace_more copies_of (records C.ht) _ C.stats_total ch (add_ref ch) same
                sums copies a.total;
        }

  -- What the hash table's answer does to the accounts.
  after_insert-Accounted :
      (C : WriteState tab sv) (ch : Chunkdata) (zlen : ℕ)
      → Accounted C
      → IsCounted ch
      → ch.nrefs ≡ 1
      → ch.ncopies ≡ 1
      → zlen_of ch ≡ zlen
      → (r : tab.T × Inserted) → tab.IsOk r.0
      → InsertLaw key_of read records C.ht ch r
      → Accounted (after_insert tab sv C ch zlen r).0
  unfolding after_insert count_new
  after_insert-Accounted C ch zlen a c refs copies same (t, done) ok (absent, reads, sums) =
      record {
        ok = ok;
        counted = λ k ch' h. reads-IsCounted C.ht ch t c a.counted reads k ch' h;
        unique =
            Tallies-insert live (records C.ht) (records t) C.stats_unique ch zlen sums
              (live_used ch c.used) same a.unique;
        total =
            Tallies-insert copies_of (records C.ht) (records t) C.stats_total ch zlen sums copies
              same a.total;
      }
  after_insert-Accounted C ch zlen a c refs copies same (t, present) ok (held, reads, sums) =
      record {
        ok = ok;
        counted = λ k ch' h. a.counted k ch' (sym (reads k) ∙ h);
        unique = Tallies_same live (records C.ht) (records t) C.stats_unique sums a.unique;
        total = Tallies_same copies_of (records C.ht) (records t) C.stats_total sums a.total;
      }
  after_insert-Accounted C ch zlen a c refs copies same (t, failed) ok kept = rw kept a

  -- The accounts do not depend on the store.
  store-Accounted :
      (C : WriteState tab sv) (store : sv.Storage)
      → Accounted C
      → Accounted (record C { store = store })
  store-Accounted C store a = record {
    ok = a.ok;
    counted = a.counted;
    unique = a.unique;
    total = a.total;
  }

  store_chunk-Accounted :
      (C : WriteState tab sv) (hash : List ℕ) (buflen : ℕ) (zbuf : List ℕ)
      → Accounted C
      → length zbuf ≤ C.zbuflen
      → C.zbuflen < 2 ^ 30
      → Accounted (store_chunk tab sv C hash buflen zbuf).0
  unfolding store_chunk
  store_chunk-Accounted C hash buflen zbuf a fits small =
      let zlen = length zbuf + padme sv.undefined (length zbuf) C.zbuflen in
      let within : zlen < 2 ^ 30 =
        omega (arith, padme-le sv.undefined (length zbuf) C.zbuflen fits (omega (arith, small))) in
      let ch = new_chunk hash buflen zlen in
      let sent =
        sv.storage_write_file C.store
          (zbuf ++ replicate (padme sv.undefined (length zbuf) C.zbuflen) 0) b'c' hash in
      let C1 : WriteState tab sv = record C { store = sent.0 } in
      let a1 = store-Accounted C sent.0 a in
      let (ok, law) = tab.insert_law C.ht ch a.ok in
      elim (Bool-cases (ltb (2 ^ 63 - 1) (length zbuf))) [
        | inl huge ↦ rw huge a
        | inr fine ↦ elim (Bool-cases sent.1) [
          | inr lost ↦ rw (fine, lost) a1
          | inl stored ↦ elim (Bool-cases (sv.alloc 48)) [
            | inr refused ↦ rw (fine, stored, refused) a1
            | inl granted ↦
                rw (fine, stored, granted)
                  (after_insert-Accounted C1 ch zlen a1 (new_chunk-IsCounted hash buflen zlen)
                    (unfold new_chunk in refl) (unfold new_chunk in refl)
                    (zlen_of-new_chunk hash buflen zlen within) (tab.insert C.ht ch) ok law)
          ]
        ]
      ]

  -- Storing a chunk keeps the accounts on every branch, the errors included: afterwards the
  -- statistics of all archives are again the sums over the chunks of the hash table, with and without
  -- multiplicity, if no counter of the chunk is at its limit, the buffer is shorter than the flag
  -- bits (as the code asserts), and `compress2` stays within the buffer it is given.
  pub chunks_write_chunk-Accounted :
      (C : WriteState tab sv) (hash buf : List ℕ)
      → Accounted C
      → ((ch : Chunkdata) → read C.ht hash ≡ some ch → ch.ncopies + 1 < 2 ^ 32)
      → C.zbuflen < 2 ^ 30
      → ((n : ℕ) (d z : List ℕ) → sv.compress2 n d ≡ some z → length z ≤ n)
      → Accounted (chunks_write_chunk tab sv C hash buf).0
  unfolding chunks_write_chunk
  chunks_write_chunk-Accounted C hash buf a room small bounded =
      elim (Option-cases (read C.ht hash)) [
        | inr (ch, held) ↦
            rw (held, chunks_write_chunk) (use_chunk-Accounted C hash ch a held (room ch held))
        | inl absent ↦ elim (Option-cases (sv.compress2 C.zbuflen buf)) [
          | inl refused ↦ rw (absent, refused, chunks_write_chunk) a
          | inr (zbuf, fits) ↦
              rw (absent, fits, chunks_write_chunk)
                (store_chunk-Accounted C hash (length buf) zbuf a (bounded C.zbuflen buf zbuf fits)
                  small)
        ]
      ]

  pub chunks_write_chunkref-Accounted :
      (C : WriteState tab sv) (hash : List ℕ)
      → Accounted C
      → ((ch : Chunkdata) → read C.ht hash ≡ some ch → ch.ncopies + 1 < 2 ^ 32)
      → Accounted (chunks_write_chunkref tab sv C hash).0
  unfolding chunks_write_chunkref
  chunks_write_chunkref-Accounted C hash a room = elim (Option-cases (read C.ht hash)) [
    | inr (ch, held) ↦
        rw (held, chunks_write_chunkref) (use_chunk-Accounted C hash ch a held (room ch held))
    | inl absent ↦ rw (absent, chunks_write_chunkref) a
  ]
