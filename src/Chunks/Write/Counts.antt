-- ===== src/Chunks/Write/Counts.antt =====
-- What a stored chunk, or a reference to one, does to the counts of each chunk.
use tarsnap.Base.{
  ℕ, ◌+◌, ◌-◌, ◌%◌, ◌^◌, ◌<◌, ◌≤◌, ◌≡◌, ◌≢◌, refl, sym, ap, ◌∙◌, ◌⊎◌, inl, inr, true, false, Option,
  none, some, List, arith, ltb, Bool-cases, Option-cases, same_bytes, same_bytes_iff, bytes_eq,
  length, ◌++◌, replicate, bit_or,
}
use tarsnap.Datastruct.KeyedTable.{Updates, InsertLaw, Inserted, done, present, failed}
use tarsnap.Chunks.Data.{Chunkdata, ChunkTable, key_of, zlen_of, chdata_malloc, chdata_ctape}
use tarsnap.Chunks.Refs.{add_ref-SameChunk, add_ref_counts}
use tarsnap.Chunks.Counts.{Used}
use tarsnap.Chunks.Flags.{zlen_of_lem, in_ctape_new}
use tarsnap.Chunks.Padme.{padme}
use tarsnap.Chunks.Padme.Exact.{padme-le}
use tarsnap.Chunks.Write.{
  Services, add_ref, WriteState, use_chunk, after_insert, count_new, new_chunk, store_chunk,
  chunks_write_chunk, chunks_write_chunkref,
}
use tarsnap.Chunks.Write.Account.{Accounted, zlen_of-new_chunk}

module _ (tab : ChunkTable) (sv : Services) where
  open tab use {read, records}

  -- Only the chunk `hash` was used; `o` is what the table held for it.
  pub record UsesOne (t t' : tab.T) (hash : List ℕ) : Type 0 where
    pub used : Used (read t hash) (read t' hash)
    pub others : (k : List ℕ) → same_bytes hash k ≡ false → read t' k ≡ read t k

  -- Every chunk is as it was.
  abbrev pub Unchanged : tab.T → tab.T → Type 0
  Unchanged t t' = (k : List ℕ) → read t' k ≡ read t k

  update_same :
      (t u : tab.T) (new : Chunkdata) (hash : List ℕ)
      → Updates key_of read records t new u
      → new.hash ≡ hash
      → read u hash ≡ some new
  update_same t u new hash updates is_new =
      updates hash ∙ rw ((same_bytes_iff new.hash hash).1 is_new)

  update_other :
      (t u : tab.T) (new : Chunkdata) (hash k : List ℕ)
      → Updates key_of read records t new u
      → new.hash ≡ hash
      → same_bytes hash k ≡ false
      → read u k ≡ read t k
  update_other t u new hash k updates is_new apart =
      let miss : same_bytes new.hash k ≡ false = rw is_new apart in updates k ∙ rw miss

  use_chunk-UsesOne :
      (C : WriteState tab sv) (hash : List ℕ) (ch : Chunkdata)
      → Accounted tab sv C
      → read C.ht hash ≡ some ch
      → ch.ncopies + 1 < 2 ^ 32
      → UsesOne C.ht (use_chunk tab sv C hash ch).ht hash
  unfolding use_chunk
  use_chunk-UsesOne C hash ch a held room =
      let same = add_ref-SameChunk ch in
      let (copies, refs, marked) = add_ref_counts ch (a.counted hash ch held) room in
      let (ok', updates, sums) = tab.poke_law C.ht hash ch (add_ref ch) a.ok held same.hash in
      let is_hash = same.hash ∙ tab.read_law C.ht hash ch a.ok held in
      let now = update_same C.ht _ (add_ref ch) hash updates is_hash in
      record {
        used = rw (held, now) (record { copies = copies; refs = refs; seen = marked });
        others = λ k apart. update_other C.ht _ (add_ref ch) hash k updates is_hash apart;
      }

  use_chunk_zlen :
      (C : WriteState tab sv) (hash : List ℕ) (ch : Chunkdata)
      → Accounted tab sv C
      → read C.ht hash ≡ some ch
      → (ch' : Chunkdata) → read (use_chunk tab sv C hash ch).ht hash ≡ some ch'
      → zlen_of ch' ≡ zlen_of ch
  unfolding use_chunk
  use_chunk_zlen C hash ch a held ch' h =
      let same = add_ref-SameChunk ch in
      let (ok', updates, sums) = tab.poke_law C.ht hash ch (add_ref ch) a.ok held same.hash in
      let is_hash = same.hash ∙ tab.read_law C.ht hash ch a.ok held in
      let eq : some (add_ref ch) ≡ some ch' =
        sym (update_same C.ht _ (add_ref ch) hash updates is_hash) ∙ h in
      let is_new : add_ref ch ≡ ch' = cc in ap zlen_of (sym is_new) ∙ same.zlen

  -- What `chunks_write_chunk` promises: a length is that of the chunk's record, and the chunk was
  -- used once; without one nothing can be seen to have changed.
  abbrev pub Stored : tab.T → List ℕ → WriteState tab sv × Option ℕ → Type 0
  Stored t hash (C', some zlen) =
      UsesOne t C'.ht hash × ((ch : Chunkdata) → read C'.ht hash ≡ some ch → zlen_of ch ≡ zlen)
  Stored t hash (C', none) = Unchanged t C'.ht

  new_chunk-Used :
      (hash : List ℕ) (buflen zlen : ℕ)
      → zlen < 2 ^ 30
      → Used none (some (new_chunk hash buflen zlen))
  unfolding new_chunk
  new_chunk-Used hash buflen zlen small = record {
    copies = refl;
    refs = refl;
    seen = in_ctape_new (new_chunk hash buflen zlen) (
        ap (λ (t : ℕ). bit_or (bit_or t chdata_malloc) chdata_ctape % 2 ^ 32)
          (sym (
            sym (zlen_of_lem (new_chunk hash buflen zlen))
            ∙ zlen_of-new_chunk hash buflen zlen small)));
  }

  after_insert-Stored :
      (C : WriteState tab sv) (hash : List ℕ) (buflen zlen : ℕ)
      → zlen < 2 ^ 30
      → read C.ht hash ≡ none
      → (r : tab.T × Inserted) → InsertLaw key_of read records C.ht (new_chunk hash buflen zlen) r
      → Stored C.ht hash (after_insert tab sv C (new_chunk hash buflen zlen) zlen r)
  unfolding after_insert count_new
  after_insert-Stored C hash buflen zlen small absent (t, done) (free, updates, sums) =
      let ch = new_chunk hash buflen zlen in
      let is_hash : ch.hash ≡ hash = unfold new_chunk in refl in
      let now : read t hash ≡ some ch = update_same C.ht t ch hash updates is_hash in
      (
        record {
          used = rw (absent, now) (new_chunk-Used hash buflen zlen small);
          others = λ k apart. update_other C.ht t ch hash k updates is_hash apart;
        },
        λ ch' h.
            let held : some ch ≡ some ch' = sym now ∙ h in
            let eq : ch ≡ ch' = cc in
            ap zlen_of (sym eq) ∙ zlen_of-new_chunk hash buflen zlen small,
      )
  after_insert-Stored C hash buflen zlen small absent (t, present) (held, reads, sums) = reads
  after_insert-Stored C hash buflen zlen small absent (t, failed) kept = λ k. rw kept

  store_chunk-Stored :
      (C : WriteState tab sv) (hash : List ℕ) (buflen : ℕ) (zbuf : List ℕ)
      → tab.IsOk C.ht
      → read C.ht hash ≡ none
      → length zbuf ≤ C.zbuflen
      → C.zbuflen < 2 ^ 30
      → Stored C.ht hash (store_chunk tab sv C hash buflen zbuf)
  unfolding store_chunk
  store_chunk-Stored C hash buflen zbuf ok absent fits small =
      let zlen = length zbuf + padme sv.undefined (length zbuf) C.zbuflen in
      let within : zlen < 2 ^ 30 =
        omega (arith, padme-le sv.undefined (length zbuf) C.zbuflen fits (omega (arith, small))) in
      let ch = new_chunk hash buflen zlen in
      let sent =
        sv.storage_write_file C.store
          (zbuf ++ replicate (padme sv.undefined (length zbuf) C.zbuflen) 0) b'c' hash in
      let C1 : WriteState tab sv = record C { store = sent.0 } in
      let (ok', law) = tab.insert_law C.ht ch ok in
      elim (Bool-cases (ltb (2 ^ 63 - 1) (length zbuf))) [
        | inl huge ↦ rw (huge, store_chunk) (λ k. refl)
        | inr fine ↦ elim (Bool-cases sent.1) [
          | inr lost ↦ rw (fine, lost, store_chunk) (λ k. refl)
          | inl stored ↦ elim (Bool-cases (sv.alloc 48)) [
            | inr refused ↦ rw (fine, stored, refused, store_chunk) (λ k. refl)
            | inl granted ↦
                rw (fine, stored, granted, store_chunk)
                  (after_insert-Stored C1 hash buflen zlen within absent (tab.insert C.ht ch) law)
          ]
        ]
      ]

  after_insert-zbuflen :
      (C : WriteState tab sv) (ch : Chunkdata) (zlen : ℕ) (r : tab.T × Inserted)
      → (after_insert tab sv C ch zlen r).0.zbuflen ≡ C.zbuflen
  unfolding after_insert count_new
  after_insert-zbuflen C ch zlen (t, done) = refl
  after_insert-zbuflen C ch zlen (t, present) = refl
  after_insert-zbuflen C ch zlen (t, failed) = refl

  store_chunk-zbuflen :
      (C : WriteState tab sv) (hash : List ℕ) (buflen : ℕ) (zbuf : List ℕ)
      → (store_chunk tab sv C hash buflen zbuf).0.zbuflen ≡ C.zbuflen
  unfolding store_chunk
  store_chunk-zbuflen C hash buflen zbuf = grind (arith, after_insert-zbuflen)

  -- From a state whose accounts hold, storing a chunk either counts one use of it by the current
  -- archive, for every other chunk nothing changes, and the length returned is the one on record; or
  -- it fails, and then no chunk's record has changed. This is if no counter of the chunk is at its
  -- limit, the buffer is shorter than the flag bits, and `compress2` stays within the buffer.
  pub chunks_write_chunk-Stored :
      (C : WriteState tab sv) (hash buf : List ℕ)
      → Accounted tab sv C
      → ((ch : Chunkdata) → read C.ht hash ≡ some ch → ch.ncopies + 1 < 2 ^ 32)
      → C.zbuflen < 2 ^ 30
      → ((n : ℕ) (d z : List ℕ) → sv.compress2 n d ≡ some z → length z ≤ n)
      → Stored C.ht hash (chunks_write_chunk tab sv C hash buf)
  unfolding chunks_write_chunk
  chunks_write_chunk-Stored C hash buf a room small bounded = elim (Option-cases (read C.ht hash)) [
    | inr (ch, held) ↦
        let one = use_chunk-UsesOne C hash ch a held (room ch held) in
        rw (held, chunks_write_chunk) (one, use_chunk_zlen C hash ch a held)
    | inl absent ↦ elim (Option-cases (sv.compress2 C.zbuflen buf)) [
      | inl refused ↦ rw (absent, refused, chunks_write_chunk) (λ k. refl)
      | inr (zbuf, fits) ↦
          rw (absent, fits, chunks_write_chunk)
            (store_chunk-Stored C hash (length buf) zbuf a.ok absent
              (bounded C.zbuflen buf zbuf fits) small)
    ]
  ]

  pub chunks_write_chunkref_counts :
      (C : WriteState tab sv) (hash : List ℕ)
      → Accounted tab sv C
      → ((ch : Chunkdata) → read C.ht hash ≡ some ch → ch.ncopies + 1 < 2 ^ 32)
      → (((chunks_write_chunkref tab sv C hash).1 ≡ true)
          × (read C.ht hash ≢ none)
          × UsesOne C.ht (chunks_write_chunkref tab sv C hash).0.ht hash)
        ⊎ ((chunks_write_chunkref tab sv C hash ≡ (C, false)) × (read C.ht hash ≡ none))
  unfolding chunks_write_chunkref
  chunks_write_chunkref_counts C hash a room = elim (Option-cases (read C.ht hash)) [
    | inr (ch, held) ↦
        let one = use_chunk-UsesOne C hash ch a held (room ch held) in
        let there : read C.ht hash ≢ none = λ absent. cc in
        inl (rw (held, chunks_write_chunkref) refl, there, rw (held, chunks_write_chunkref) one)
    | inl absent ↦ inr (rw (absent, chunks_write_chunkref), absent)
  ]

  -- The buffer is the transaction's for good.
  pub chunks_write_chunk-zbuflen :
      (C : WriteState tab sv) (hash buf : List ℕ)
      → (chunks_write_chunk tab sv C hash buf).0.zbuflen ≡ C.zbuflen
  unfolding chunks_write_chunk use_chunk
  chunks_write_chunk-zbuflen C hash buf = elim (Option-cases (read C.ht hash)) [
    | inr (ch, held) ↦ rw (held, chunks_write_chunk)
    | inl absent ↦ elim (Option-cases (sv.compress2 C.zbuflen buf)) [
      | inl refused ↦ rw (absent, refused, chunks_write_chunk)
      | inr (zbuf, fits) ↦
          rw (absent, fits, chunks_write_chunk) (store_chunk-zbuflen C hash (length buf) zbuf)
    ]
  ]

  pub chunks_write_chunkref-zbuflen :
      (C : WriteState tab sv) (hash : List ℕ)
      → (chunks_write_chunkref tab sv C hash).0.zbuflen ≡ C.zbuflen
  unfolding chunks_write_chunkref use_chunk
  chunks_write_chunkref-zbuflen C hash = elim (Option-cases (read C.ht hash)) [
    | inr (ch, held) ↦ rw (held, chunks_write_chunkref)
    | inl absent ↦ rw (absent, chunks_write_chunkref)
  ]
