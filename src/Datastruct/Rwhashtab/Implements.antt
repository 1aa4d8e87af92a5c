-- ===== src/Datastruct/Rwhashtab/Implements.antt =====
-- rwhashtab.c fills the interface `KeyedTable`.
use tarsnap.Base.{
  ℕ, ◌+◌, ◌≡◌, refl, sym, ap, ◌∙◌, Bool, Option, none, some, List, [], ◌∷◌, suc, inl, inr,
  Option-cases, arith, Eq, All, sum_by, replicate, get_or-replicate,
}
use tarsnap.Datastruct.KeyedTable.{
  KeyedTable, Inserted, done, present, failed, InsertLaw, Updates, find_in, AllDistinct,
}
use tarsnap.Datastruct.Rwhashtab
use tarsnap.Datastruct.Rwhashtab.{Rwhashtab, slot, foreach}
use tarsnap.Datastruct.Rwhashtab.Slots.{
  records, sum_by-records, records-All, find, find-slot, Distinct, tail-Distinct,
}
use tarsnap.Datastruct.Rwhashtab.Table.{read-find, IsTable-Distinct}
use tarsnap.Datastruct.Rwhashtab.Written.{IsTable-poke, read-poke, total-poke}
use tarsnap.Datastruct.Rwhashtab.Enlarge.{IsTable-empty}
use tarsnap.Datastruct.Rwhashtab.Insert.{IsValid, IsValid-room, Outcome, insert-Outcome}

module _ {K R : Type 0} ⦃e : Eq K⦄ (key : R → K) (hash : List ℕ → K → ℕ) where
  pub read_key :
      (H : Rwhashtab R) (k : K) (r : R)
      → IsValid key hash H
      → Rwhashtab.read key hash H k ≡ some r
      → key r ≡ k
  read_key H k r v held =
      let (i, at_i, same) =
        find-slot key k H.ht r
          (sym (read-find key hash H v.table k (IsValid-room key hash H v)) ∙ held) in
      same

  -- A write through a pointer that `rwhashtab_read` returned, which leaves the record's key as it was,
  -- keeps the table well formed.
  pub poke-IsValid :
      (H : Rwhashtab R) (k : K) (old new : R)
      → IsValid key hash H
      → Rwhashtab.read key hash H k ≡ some old
      → key new ≡ key old
      → IsValid key hash (Rwhashtab.poke key hash H k new)
  unfolding Rwhashtab.poke
  poke-IsValid H k old new v held same = record {
    table = IsTable-poke key hash H v.table k old new held same;
    counted = omega (arith, total-poke key hash H v.table k old new held same (λ r. 1), v.counted);
    loaded = v.loaded;
    large = v.large;
    bounded = v.bounded;
  }

  abbrev four : List ℕ → Rwhashtab R
  four bytes = record { cursize = 4; numentries = 0; ht = replicate 4 none; randbuf = bytes }

  init_four :
      (keylength : ℕ) (entropy : Option (List ℕ)) (alloc : ℕ → Bool) (H : Rwhashtab R)
      → Rwhashtab.init keylength entropy alloc ≡ some H
      → (bytes : List ℕ) × (H ≡ four bytes)
  unfolding Rwhashtab.init
  init_four keylength none alloc H h = ground arith
  init_four keylength (some bytes) alloc H h = (bytes, ground arith)

  -- A table that `rwhashtab_init` returns is well formed and empty.
  pub init-IsValid :
      (keylength : ℕ) (entropy : Option (List ℕ)) (alloc : ℕ → Bool) (H : Rwhashtab R)
      → Rwhashtab.init keylength entropy alloc ≡ some H
      → IsValid key hash H × ((k : K) → Rwhashtab.read key hash H k ≡ none) × (records H.ht ≡ [])
  unfolding Rwhashtab.read
  init-IsValid keylength entropy alloc H h =
      let (bytes, eq) = init_four keylength entropy alloc H h in
      rw eq (
        record {
          table = IsTable-empty key hash 2 0 bytes;
          counted = refl;
          loaded = omega arith;
          large = omega arith;
          bounded = omega arith;
        },
        λ k. get_or-replicate 4 _ none,
        refl,
      )

  pub insert_law :
      (alloc : ℕ → Bool) (H : Rwhashtab R) (new : R)
      → IsValid key hash H
      → IsValid key hash (Rwhashtab.insert key hash alloc H new).0
        × InsertLaw key
            (Rwhashtab.read key hash)
            (λ (t : Rwhashtab R). records t.ht)
            H
            new
            (Rwhashtab.insert key hash alloc H new)
  insert_law alloc H new v =
      let (valid, outcome) = insert-Outcome key hash alloc H new v in
      (valid, translate (Rwhashtab.insert key hash alloc H new) outcome)
    where
      translate :
          (r : Rwhashtab R × Inserted)
          → Outcome key hash H new r
          → InsertLaw key (Rwhashtab.read key hash) (λ (t : Rwhashtab R). records t.ht) H new r
      translate (G, done) (absent, reads, sums, size) =
          (absent, reads, λ f. omega (arith, sums f, sum_by-records f G.ht, sum_by-records f H.ht))
      translate (G, present) (held, same) = (
        held,
        same.reads,
        λ f. omega (arith, same.sums f, sum_by-records f G.ht, sum_by-records f H.ht),
      )
      translate (G, failed) (same, kept) = kept

  pub poke_law :
      (H : Rwhashtab R) (k : K) (old new : R)
      → IsValid key hash H
      → Rwhashtab.read key hash H k ≡ some old
      → key new ≡ key old
      → IsValid key hash (Rwhashtab.poke key hash H k new)
        × Updates key
            (Rwhashtab.read key hash)
            (λ (t : Rwhashtab R). records t.ht)
            H
            new
            (Rwhashtab.poke key hash H k new)
        × ((f : R → ℕ)
            → sum_by f (records (Rwhashtab.poke key hash H k new).ht) + f old
              ≡ sum_by f (records H.ht) + f new)
  poke_law H k old new v held same = (
    poke-IsValid H k old new v held same,
    λ j. read-poke key hash H v.table k old new held same j (IsValid-room key hash H v),
    λ f. omega (
      arith,
      total-poke key hash H v.table k old new held same f,
      sum_by-records f (Rwhashtab.poke key hash H k new).ht,
      sum_by-records f H.ht,
    ),
  )

  pub records_law :
      (H : Rwhashtab R) (P : R → Type 0)
      → IsValid key hash H
      → ((k : K) (r : R) → Rwhashtab.read key hash H k ≡ some r → P r)
      → All P (records H.ht)
  unfolding Rwhashtab.read
  records_law H P v h =
      records-All P H.ht (λ i r at_i. h (key r) r (ap (slot H.ht) (v.table.found i r at_i) ∙ at_i))

  find_in-records : (k : K) (xs : List (Option R)) → find_in key k (records xs) ≡ find key k xs
  unfolding find
  find_in-records k [] = refl
  find_in-records k (none ∷ xs) = find_in-records k xs
  find_in-records k (some r ∷ xs) = ground (arith, find_in-records k xs)

  pub find_law :
      (H : Rwhashtab R) (k : K)
      → IsValid key hash H
      → find_in key k (records H.ht) ≡ Rwhashtab.read key hash H k
  find_law H k v =
      find_in-records k H.ht ∙ sym (read-find key hash H v.table k (IsValid-room key hash H v))

  AllDistinct-records : (xs : List (Option R)) → Distinct key xs → AllDistinct key (records xs)
  AllDistinct-records [] d = tt
  AllDistinct-records (none ∷ xs) d = AllDistinct-records xs (tail-Distinct key none xs d)
  AllDistinct-records (some r ∷ xs) d = (
    elim (Option-cases (find key (key r) xs)) [
      | inl missing ↦ find_in-records (key r) xs ∙ missing
      | inr (s, scanned) ↦
          let (i, at_i, same) = find-slot key (key r) xs s scanned in
          absurd (omega (arith, d 0 (suc i) r s refl at_i (sym same)))
    ],
    AllDistinct-records xs (tail-Distinct key (some r) xs d),
  )

  pub distinct_law : (H : Rwhashtab R) → IsValid key hash H → AllDistinct key (records H.ht)
  distinct_law H v = AllDistinct-records H.ht (IsTable-Distinct key hash H v.table)

  pub getsize_law :
      (H : Rwhashtab R)
      → IsValid key hash H
      → Rwhashtab.getsize H ≡ sum_by (λ (r : R). 1) (records H.ht)
  unfolding Rwhashtab.getsize
  getsize_law H v = v.counted ∙ sym (sum_by-records (λ r. 1) H.ht)

  -- The table of rwhashtab.c, given what `init` finds of entropy and memory.
  abbrev pub rwhashtab : ℕ → Option (List ℕ) → (ℕ → Bool) → KeyedTable key
  rwhashtab keylength entropy alloc = record {
    T = Rwhashtab R;
    IsOk = IsValid key hash;
    init = Rwhashtab.init keylength entropy alloc;
    read = Rwhashtab.read key hash;
    insert = Rwhashtab.insert key hash alloc;
    poke = Rwhashtab.poke key hash;
    getsize = Rwhashtab.getsize;
    records = λ H. records H.ht;
    init_law = init-IsValid keylength entropy alloc;
    insert_law = insert_law alloc;
    poke_law = poke_law;
    read_law = read_key;
    records_law = records_law;
    find_law = find_law;
    distinct_law = distinct_law;
    getsize_law = getsize_law;
  }
