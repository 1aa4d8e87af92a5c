-- ===== src/Datastruct/Rwhashtab/Enlarge.antt =====
-- `rwhashtab_enlarge`: the larger table has the same records.
use tarsnap.Base.{
  ℕ, suc, ◌+◌, ◌*◌, ◌^◌, ◌<◌, ◌≡◌, refl, sym, ap, ◌∙◌, inl, inr, false, Option, none, some, List,
  [], ◌∷◌, arith, Eq, if◌then◌else◌, Bool-cases, Option-cases, replicate, length-replicate,
  get_or-replicate,
}
use native.Mathlib.Nat.{pow-suc}
use tarsnap.Datastruct.Rwhashtab.{Rwhashtab, slot, search_pos, read, place, rehash, fresh}
use tarsnap.Datastruct.Rwhashtab.Slots.{
  count, total, Distinct, tail-Distinct, find, find-slot, total-replicate,
}
use tarsnap.Datastruct.Rwhashtab.Table.{
  IsTable, written, IsTable-written, IsTable-Distinct, read-find,
}
use tarsnap.Datastruct.Rwhashtab.Written.{total-written, read-written}

-- The first value that is there.
abbrev pub first {ℓ} : {A : Type ℓ} → Option A → Option A → Option A
first none b = b
first (some a) b = some a

first-none {ℓ} : {A : Type ℓ} (o : Option A) → first o none ≡ o
first-none none = refl
first-none (some a) = refl

module _ {ℓ κ} {K : Type ℓ} {R : Type κ} ⦃e : Eq K⦄ (key : R → K) (hash : List ℕ → K → ℕ) where
  -- `G'` has what `G` has and the records of `xs`.
  pub record Rehashed (G : Rwhashtab R) (xs : List (Option R)) (G' : Rwhashtab R)
      : Type (ℓ ⊔ κ) where
    pub table : IsTable key hash G'
    pub cursize : G'.cursize ≡ G.cursize
    pub numentries : G'.numentries ≡ G.numentries
    pub sums : (f : R → ℕ) → total f G'.ht ≡ total f G.ht + total f xs
    pub reads : (k : K) → read key hash G' k ≡ first (find key k xs) (read key hash G k)

  -- No record of `xs` has a key of `G`.
  abbrev pub Apart : Rwhashtab R → List (Option R) → Type κ
  Apart G xs = (i : ℕ) (r : R) → slot xs i ≡ some r → read key hash G (key r) ≡ none

  pub rehash-Rehashed :
      (G : Rwhashtab R) (xs : List (Option R))
      → IsTable key hash G
      → Distinct key xs
      → Apart G xs
      → count G.ht + count xs < G.cursize
      → Rehashed G xs (rehash key hash G xs)
  unfolding rehash place find
  rehash-Rehashed G [] t d apart room = record {
    table = t;
    cursize = refl;
    numentries = refl;
    sums = λ f. omega arith;
    reads = λ k. refl;
  }
  rehash-Rehashed G (none ∷ xs) t d apart room =
      let rest =
        rehash-Rehashed G xs t (tail-Distinct key none xs d) (λ i r h. apart (suc i) r h) room in
      record {
        table = rest.table;
        cursize = rest.cursize;
        numentries = rest.numentries;
        sums = rest.sums;
        reads = λ k. rest.reads k;
      }
  rehash-Rehashed G (some new ∷ xs) t d apart room =
      let free : slot G.ht (search_pos key hash G (key new)) ≡ none =
        unfold read in apart 0 new refl in
      let lone : 1 + count G.ht < G.cursize = omega arith in
      let step = read-written key hash G t new free lone in
      let rest =
        rehash-Rehashed (written key hash G new) xs (IsTable-written key hash G t new free)
          (tail-Distinct key (some new) xs d)
          (λ i r h.
            let ne : e.beq (key new) (key r) ≡ false = other_key i r h in
            step (key r) ∙ rw ne (apart (suc i) r h))
          (rw (total-written key hash G t new (λ r. 1) free) (omega arith)) in
      record {
        table = rest.table;
        cursize = rest.cursize;
        numentries = rest.numentries;
        sums = λ f. omega (arith, rest.sums f, total-written key hash G t new f free);
        reads = λ k. rest.reads k ∙ ap (first (find key k xs)) (step k) ∙ merge k;
      }
    where
      other_key : (i : ℕ) (r : R) → slot xs i ≡ some r → e.beq (key new) (key r) ≡ false
      other_key i r h = elim (Bool-cases (e.beq (key new) (key r))) [
        | inl hit ↦ absurd (omega (arith, d 0 (suc i) new r refl h ((e.beq_iff _ _).0 hit)))
        | inr miss ↦ miss
      ]

      merge :
          (k : K)
          → first (find key k xs) (if e.beq (key new) k then some new else read key hash G k)
            ≡ first (find key k (some new ∷ xs)) (read key hash G k)
      merge k = elim (Bool-cases (e.beq (key new) k)) [
        | inr miss ↦ rw miss
        | inl hit ↦ elim (Option-cases (find key k xs)) [
          | inl missing ↦ rw (hit, missing)
          | inr (r, scanned) ↦
              let (i, at_i, same) = find-slot key k xs r scanned in absurd (cc (other_key i r at_i))
        ]
      ]

  -- A table of empty slots, of the size that `enlarge` or `init` gives it.
  pub IsTable-empty :
      (w n : ℕ) (bytes : List ℕ)
      → IsTable key hash
          (record { cursize = 2 ^ w; numentries = n; ht = replicate (2 ^ w) none; randbuf = bytes })
  IsTable-empty w n bytes = record {
    width = w;
    sized = refl;
    filled = length-replicate (2 ^ w) none;
    found = λ q r at_q.
        let empty : slot {R = R} (replicate (2 ^ w) none) q ≡ none =
          get_or-replicate (2 ^ w) q none in
        absurd (cc);
  }

  module _ (H : Rwhashtab R) (t : IsTable key hash H) where
    fresh_table : (size : ℕ) → size ≡ H.cursize * 2 → IsTable key hash (fresh key hash H size)
    fresh_table size twice =
        let double : size ≡ 2 ^ suc t.width = omega (arith, t.sized, pow-suc 2 t.width) in
        rw double (IsTable-empty (suc t.width) H.numentries H.randbuf)

    read-fresh : (size : ℕ) (k : K) → read key hash (fresh key hash H size) k ≡ none
    unfolding read
    read-fresh size k = get_or-replicate size _ none

    -- Every record of the old array reaches the new one, and nothing else does.
    pub rehash-fresh :
        (size : ℕ)
        → size ≡ H.cursize * 2
        → count H.ht < H.cursize
        → Rehashed (fresh key hash H size) H.ht (rehash key hash (fresh key hash H size) H.ht)
    rehash-fresh size twice room =
        rehash-Rehashed (fresh key hash H size) H.ht (fresh_table size twice)
          (IsTable-Distinct key hash H t) (λ i r h. read-fresh size (key r))
          (omega (arith, total-replicate (λ (r : R). 1) size))

    pub rehash-reads :
        (size : ℕ)
        → size ≡ H.cursize * 2
        → count H.ht < H.cursize
        → (k : K)
        → read key hash (rehash key hash (fresh key hash H size) H.ht) k ≡ read key hash H k
    rehash-reads size twice room k =
        (rehash-fresh size twice room).reads k
        ∙ ap (first (find key k H.ht)) (read-fresh size k)
        ∙ first-none (find key k H.ht)
        ∙ sym (read-find key hash H t k room)
