-- ===== src/Datastruct/Rwhashtab/Slots.antt =====
-- The table's array of slots: a scan for a key, sums over the records, and a free slot.
use tarsnap.Base.{
  ℕ, zero, suc, ◌+◌, ◌<◌, ◌≡◌, refl, sym, ap, ◌∙◌, Option, none, some, List, [], ◌∷◌, arith, Eq,
  length, set, replicate, if◌then◌else◌, Bool-cases, sum_by, All, inl, inr,
}
use mathlib.Core.Option
use tarsnap.Datastruct.Rwhashtab.{slot}

module _ {κ} {R : Type κ} where
  -- The sum of `f` over the records; with `λ _. 1` their number.
  abbrev pub total : (R → ℕ) → List (Option R) → ℕ
  total f [] = 0
  total f (none ∷ xs) = total f xs
  total f (some r ∷ xs) = f r + total f xs

  abbrev pub count : List (Option R) → ℕ
  count = total (λ r. 1)

  -- The records in the order of the array.
  abbrev pub records : List (Option R) → List R
  records [] = []
  records (none ∷ xs) = records xs
  records (some r ∷ xs) = r ∷ records xs

  pub sum_by-records : (f : R → ℕ) (xs : List (Option R)) → sum_by f (records xs) ≡ total f xs
  sum_by-records f [] = refl
  sum_by-records f (none ∷ xs) = sum_by-records f xs
  sum_by-records f (some r ∷ xs) = omega (arith, sum_by-records f xs)

  pub records-All {μ} :
      (P : R → Type μ) (xs : List (Option R))
      → ((i : ℕ) (r : R) → slot xs i ≡ some r → P r)
      → All P (records xs)
  records-All P [] h = tt
  records-All P (none ∷ xs) h = records-All P xs (λ i r at_i. h (suc i) r at_i)
  records-All P (some r ∷ xs) h = (h 0 r refl, records-All P xs (λ i s at_i. h (suc i) s at_i))

  -- An array with fewer records than slots has a free slot.
  pub free_slot :
      (xs : List (Option R)) → count xs < length xs → (i : ℕ) × (i < length xs) × (slot xs i ≡ none)
  free_slot [] h = absurd (omega arith)
  free_slot (none ∷ xs) h = (0, omega arith, refl)
  free_slot (some r ∷ xs) h =
      let (i, lt, free) = free_slot xs (omega arith) in (suc i, omega arith, free)

  pub total-set_free :
      (f : R → ℕ) (xs : List (Option R)) (i : ℕ) (r : R)
      → i < length xs
      → slot xs i ≡ none
      → total f (set xs i (some r)) ≡ f r + total f xs
  total-set_free f [] i r lt free = absurd (omega arith)
  total-set_free f (none ∷ xs) zero r lt free = refl
  total-set_free f (some s ∷ xs) zero r lt free = cc
  total-set_free f (none ∷ xs) (suc i) r lt free = total-set_free f xs i r (omega arith) free
  total-set_free f (some s ∷ xs) (suc i) r lt free =
      omega (arith, total-set_free f xs i r (omega arith) free)

  pub total-set_held :
      (f : R → ℕ) (xs : List (Option R)) (i : ℕ) (r s : R)
      → slot xs i ≡ some s
      → total f (set xs i (some r)) + f s ≡ total f xs + f r
  total-set_held f [] i r s held = cc
  total-set_held f (none ∷ xs) zero r s held = cc
  total-set_held f (some t ∷ xs) zero r s held = let same : f t ≡ f s = cc in omega arith
  total-set_held f (none ∷ xs) (suc i) r s held = total-set_held f xs i r s held
  total-set_held f (some t ∷ xs) (suc i) r s held = omega (arith, total-set_held f xs i r s held)

  pub total-replicate : (f : R → ℕ) (n : ℕ) → total f (replicate n none) ≡ 0
  total-replicate f zero = refl
  total-replicate f (suc n) = total-replicate f n

module _ {ℓ κ} {K : Type ℓ} {R : Type κ} (key : R → K) where
  -- A record that is replaced by one with its key.
  pub slot-set_held :
      (xs : List (Option R)) (i : ℕ) (new old : R)
      → slot xs i ≡ some old
      → slot (set xs i (some new)) i ≡ some new
  slot-set_held [] i new old held = absurd (cc)
  slot-set_held (x ∷ xs) zero new old held = refl
  slot-set_held (x ∷ xs) (suc i) new old held = slot-set_held xs i new old held

  pub keys-set_held :
      (xs : List (Option R)) (i : ℕ) (new old : R)
      → slot xs i ≡ some old
      → key new ≡ key old
      → (j : ℕ) → Option.map key (slot (set xs i (some new)) j) ≡ Option.map key (slot xs j)
  keys-set_held [] i new old held same j = refl
  keys-set_held (x ∷ xs) zero new old held same zero = rw held (ap some same)
  keys-set_held (x ∷ xs) zero new old held same (suc j) = refl
  keys-set_held (x ∷ xs) (suc i) new old held same zero = refl
  keys-set_held (x ∷ xs) (suc i) new old held same (suc j) = keys-set_held xs i new old held same j

module _ {ℓ κ} {K : Type ℓ} {R : Type κ} ⦃e : Eq K⦄ (key : R → K) where
  -- The first record with the key, by a scan.
  unfoldable pub find : K → List (Option R) → Option R
  find k [] = none
  find k (none ∷ xs) = find k xs
  find k (some r ∷ xs) = if e.beq (key r) k then some r else find k xs

  -- No two slots hold records with one key.
  abbrev pub Distinct : List (Option R) → Type (ℓ ⊔ κ)
  Distinct xs =
      (i j : ℕ) (r s : R) → slot xs i ≡ some r → slot xs j ≡ some s → key r ≡ key s → i ≡ j

  pub tail-Distinct : (x : Option R) (xs : List (Option R)) → Distinct (x ∷ xs) → Distinct xs
  tail-Distinct x xs d i j r s hi hj same = omega (arith, d (suc i) (suc j) r s hi hj same)

  pub find-slot :
      (k : K) (xs : List (Option R)) (r : R)
      → find k xs ≡ some r
      → (i : ℕ) × (slot xs i ≡ some r) × (key r ≡ k)
  unfolding find
  find-slot k [] r h = absurd (cc)
  find-slot k (none ∷ xs) r h = let (i, at_i, same) = find-slot k xs r h in (suc i, at_i, same)
  find-slot k (some s ∷ xs) r h = elim (Bool-cases (e.beq (key s) k)) [
    | inl hit ↦
        let is_r : some s ≡ some r = rw hit at h in
        let same : s ≡ r = cc in (0, is_r, ap key (sym same) ∙ (e.beq_iff (key s) k).0 hit)
    | inr miss ↦ let (i, at_i, same) = find-slot k xs r (rw miss at h) in (suc i, at_i, same)
  ]

  pub find_unique :
      (k : K) (xs : List (Option R)) (i : ℕ) (r : R)
      → Distinct xs
      → slot xs i ≡ some r
      → key r ≡ k
      → find k xs ≡ some r
  unfolding find
  find_unique k [] i r d h same = cc
  find_unique k (none ∷ xs) zero r d h same = cc
  find_unique k (none ∷ xs) (suc i) r d h same =
      find_unique k xs i r (tail-Distinct none xs d) h same
  find_unique k (some s ∷ xs) zero r d h same =
      let is_r : s ≡ r = cc in rw ((e.beq_iff (key s) k).1 (ap key is_r ∙ same)) h
  find_unique k (some s ∷ xs) (suc i) r d h same = elim (Bool-cases (e.beq (key s) k)) [
    | inl hit ↦
        absurd (omega (arith, d 0 (suc i) s r refl h ((e.beq_iff (key s) k).0 hit ∙ sym same)))
    | inr miss ↦ rw miss (find_unique k xs i r (tail-Distinct (some s) xs d) h same)
  ]
