-- ===== src/Datastruct/Rwhashtab/Insert.antt =====
-- `rwhashtab_insert` keeps the table well formed, and acts on it as on a map from keys to records.
use tarsnap.Base.{
  ℕ, ◌+◌, ◌-◌, ◌*◌, ◌/◌, ◌%◌, ◌^◌, ◌<◌, ◌≤◌, ◌≡◌, refl, sym, ap, subst, ◌∙◌, ◌≢◌, inl, inr, Bool,
  true, false, none, some, List, arith, Eq, ltb, leb, if◌then◌else◌, Bool-cases, Option-cases,
}
use tarsnap.Datastruct.KeyedTable.{Inserted, done, present, failed}
use tarsnap.Datastruct.Rwhashtab.{
  Rwhashtab, slot, search_pos, read, rehash, fresh, enlarge, insert_free, insert, size_max,
}
use tarsnap.Datastruct.Rwhashtab.Slots.{count, total, total-replicate}
use tarsnap.Datastruct.Rwhashtab.Table.{
  IsTable, written, IsTable-written, IsTable-numentries, read-numentries,
}
use tarsnap.Datastruct.Rwhashtab.Written.{total-written, read-written}
use tarsnap.Datastruct.Rwhashtab.Enlarge.{rehash-fresh, rehash-reads}

module _ {ℓ κ} {K : Type ℓ} {R : Type κ} ⦃e : Eq K⦄ (key : R → K) (hash : List ℕ → K → ℕ) where
  pub record IsValid (H : Rwhashtab R) : Type (ℓ ⊔ κ) where
    pub table : IsTable key hash H
    pub counted : H.numentries ≡ count H.ht
    pub loaded : H.numentries ≤ H.cursize - H.cursize / 4
    pub large : 4 ≤ H.cursize
    pub bounded : H.cursize ≤ size_max / 8

  pub IsValid-room : (H : Rwhashtab R) → IsValid H → count H.ht < H.cursize
  IsValid-room H v = omega arith

  -- Reads by key, and the sums over the records, are those of `H`.
  pub record Same (H G : Rwhashtab R) : Type (ℓ ⊔ κ) where
    pub reads : (k : K) → read key hash G k ≡ read key hash H k
    pub sums : (f : R → ℕ) → total f G.ht ≡ total f H.ht
    pub size : G.numentries ≡ H.numentries

  -- `enlarge` doubles the table and changes nothing that can be read from it.
  pub record Enlarged (H G : Rwhashtab R) : Type (ℓ ⊔ κ) where
    pub valid : IsValid G
    pub same : Same H G
    pub roomy : G.numentries < G.cursize - G.cursize / 4

  rehash-Enlarged :
      (H : Rwhashtab R) (size : ℕ)
      → IsValid H
      → size ≡ H.cursize * 2
      → size ≤ size_max / 8
      → Enlarged H (rehash key hash (fresh key hash H size) H.ht)
  rehash-Enlarged H size v twice fits =
      let moved = rehash-fresh key hash H v.table size twice (IsValid-room H v) in
      let sums =
        λ (f : R → ℕ). moved.sums f ∙ ap (λ (t : ℕ). t + total f H.ht) (total-replicate f size) in
      record {
        valid = record {
          table = moved.table;
          counted = omega (arith, moved.numentries, sums (λ r. 1), v.counted);
          loaded = omega (arith, moved.numentries, moved.cursize, v.loaded, v.large);
          large = omega (arith, moved.cursize, v.large);
          bounded = omega (arith, moved.cursize);
        };
        same = record {
          reads = rehash-reads key hash H v.table size twice (IsValid-room H v);
          sums = λ f. omega (arith, sums f);
          size = moved.numentries;
        };
        roomy = omega (arith, moved.numentries, moved.cursize, v.loaded, v.large);
      }

  pub enlarge-Enlarged :
      (alloc : ℕ → Bool) (H G : Rwhashtab R)
      → IsValid H
      → enlarge key hash alloc H ≡ some G
      → Enlarged H G
  unfolding enlarge
  enlarge-Enlarged alloc H G v grown =
      let size = H.cursize * 2 % 2 ^ 64 in
      elim (Bool-cases (ltb (size_max / 8) size)) [
        | inl large ↦ absurd (cc (rw large at grown))
        | inr small ↦ elim (Bool-cases (alloc (size * 8))) [
          | inr refused ↦ absurd (cc (rw (small, refused) at grown))
          | inl granted ↦
              let is_g : some (rehash key hash (fresh key hash H size) H.ht) ≡ some G =
                rw (small, granted) at grown in
              let eq : rehash key hash (fresh key hash H size) H.ht ≡ G = cc in
              subst (Enlarged H) eq
                (rehash-Enlarged H size v (ground (arith, v.bounded)) (ground arith))
        ]
      ]

  -- What `rwhashtab_insert` promises of the table that it leaves and of its status.
  abbrev pub Outcome : Rwhashtab R → R → Rwhashtab R × Inserted → Type (ℓ ⊔ κ)
  Outcome H rec (G, done) =
      (read key hash H (key rec) ≡ none)
      × ((k : K) → read key hash G k ≡ (if e.beq (key rec) k then some rec else read key hash H k))
      × ((f : R → ℕ) → total f G.ht ≡ f rec + total f H.ht)
      × (G.numentries ≡ H.numentries + 1)
  Outcome H rec (G, present) = (read key hash H (key rec) ≢ none) × Same H G
  Outcome H rec (G, failed) = Same H G × (G ≡ H)

  Same-refl : (H : Rwhashtab R) → Same H H
  Same-refl H = record { reads = λ k. refl; sums = λ f. refl; size = refl }

  insert_free-ne-failed : (H : Rwhashtab R) (rec : R) → (insert_free key hash H rec).1 ≢ failed
  unfolding insert_free
  insert_free-ne-failed H rec = elim (Option-cases (slot H.ht (search_pos key hash H (key rec)))) [
    | inl free ↦ rw (free, insert_free) (λ h. cc)
    | inr (other, held) ↦ rw (held, insert_free) (λ h. cc)
  ]

  insert_free-Outcome :
      (H : Rwhashtab R) (rec : R)
      → IsValid H
      → H.numentries < H.cursize - H.cursize / 4
      → IsValid (insert_free key hash H rec).0 × Outcome H rec (insert_free key hash H rec)
  unfolding insert_free read
  insert_free-Outcome H rec v roomy =
      elim (Option-cases (slot H.ht (search_pos key hash H (key rec)))) [
        | inl free ↦
            let room : 1 + count H.ht < H.cursize = omega (arith, v.counted) in
            let no_wrap : (H.numentries + 1) % 2 ^ 64 ≡ H.numentries + 1 =
              omega (arith, v.bounded) in
            let step = read-written key hash H v.table rec free room in
            rw (free, insert_free)
              (
                record {
                  table =
                      IsTable-numentries key hash (written key hash H rec)
                        ((H.numentries + 1) % 2 ^ 64) (IsTable-written key hash H v.table rec free);
                  counted = omega (
                    arith,
                    no_wrap,
                    v.counted,
                    total-written key hash H v.table rec (λ r. 1) free,
                  );
                  loaded = omega (arith, no_wrap);
                  large = v.large;
                  bounded = v.bounded;
                },
                (
                  free,
                  λ k.
                      read-numentries key hash (written key hash H rec)
                        ((H.numentries + 1) % 2 ^ 64) k
                      ∙ step k,
                  λ f. total-written key hash H v.table rec f free,
                  no_wrap,
                ),
              )
        | inr (other, held) ↦ rw (held, insert_free) (v, (λ absent. cc, Same-refl H))
      ]

  through :
      (H G : Rwhashtab R) (rec : R)
      → Same H G
      → (r : Rwhashtab R × Inserted) → r.1 ≢ failed
      → Outcome G rec r
      → Outcome H rec r
  through H G rec same (F, done) ne (absent, reads, sums, size) = (
    sym (same.reads (key rec)) ∙ absent,
    λ k. reads k ∙ ap (λ o. if e.beq (key rec) k then some rec else o) (same.reads k),
    λ f. sums f ∙ ap (λ (t : ℕ). f rec + t) (same.sums f),
    omega (arith, size, same.size),
  )
  through H G rec same (F, present) ne (held, kept) = (
    λ absent. held (same.reads (key rec) ∙ absent),
    record {
      reads = λ k. kept.reads k ∙ same.reads k;
      sums = λ f. kept.sums f ∙ same.sums f;
      size = kept.size ∙ same.size;
    },
  )
  through H G rec same (F, failed) ne out = absurd (ne refl)

  -- `rwhashtab_insert` keeps a well-formed table well formed on every branch. If it says that the
  -- record was added, no record had its key, and reads, sums over the records and the size differ by
  -- that record alone; if it says that the key is present, it was, and reads, sums and the size are as
  -- before, whether or not the table was enlarged; if it fails, the table is unchanged.
  pub insert-Outcome :
      (alloc : ℕ → Bool) (H : Rwhashtab R) (rec : R)
      → IsValid H
      → IsValid (insert key hash alloc H rec).0 × Outcome H rec (insert key hash alloc H rec)
  unfolding insert
  insert-Outcome alloc H rec v = elim (Bool-cases (leb (H.cursize - H.cursize / 4) H.numentries)) [
    | inr room ↦ rw room (insert_free-Outcome H rec v (ground arith))
    | inl full ↦ elim (Option-cases (enlarge key hash alloc H)) [
      | inl refused ↦ rw (full, refused) (v, (Same-refl H, refl))
      | inr (G, grown) ↦
          let bigger = enlarge-Enlarged alloc H G v grown in
          let (valid, outcome) = insert_free-Outcome G rec bigger.valid bigger.roomy in
          rw (full, grown)
            (
              valid,
              through H G rec bigger.same (insert_free key hash G rec) (insert_free-ne-failed G rec)
                  outcome,
            )
    ]
  ]

  -- A well-formed table of fewer than 2 ^ 58 records fails to take a record only for want of memory.
  pub insert-ne-failed :
      (alloc : ℕ → Bool) (H : Rwhashtab R) (rec : R)
      → ((n : ℕ) → alloc n ≡ true)
      → IsValid H
      → H.numentries < 2 ^ 58
      → (insert key hash alloc H rec).1 ≢ failed
  unfolding insert enlarge
  insert-ne-failed alloc H rec plenty v few =
      elim (Bool-cases (leb (H.cursize - H.cursize / 4) H.numentries)) [
        | inr room ↦ rw (room, insert) (insert_free-ne-failed H rec)
        | inl full ↦
            let newsize : ℕ = H.cursize * 2 % 2 ^ 64 in
            let fits : ltb (size_max / 8) newsize ≡ false = ground (arith, v.bounded) in
            let grown : enlarge key hash alloc H
                ≡ some (rehash key hash (fresh key hash H newsize) H.ht) =
              rw (fits, enlarge) (rw (plenty (newsize * 8)) refl) in
            rw (full, insert)
              (rw grown
                (insert_free-ne-failed (rehash key hash (fresh key hash H newsize) H.ht) rec))
      ]
