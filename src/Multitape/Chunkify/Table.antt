-- ===== src/Multitape/Chunkify/Table.antt =====
-- The hash table of the chunkifier: the times of its entries, and the two loops over it.
use tarsnap.Base.{
  ℕ, zero, suc, ◌+◌, ◌-◌, ◌*◌, ◌%◌, ◌^◌, ◌≤◌, ◌<◌, ◌≡◌, refl, sym, ap, subst, ◌∙◌, ◌⊎◌, inl, inr,
  Bool, true, false, some, List, [], ◌∷◌, arith, leb, ◌==◌, if◌then◌else◌, Bool-cases, bit_and,
  length, get_or, set, length-set, All, sum_by,
}
use tarsnap.Base.Bits.{bit_and_mask}
use native.Mathlib.Nat.{mod-add-mod, mod-eq_of_lt, mod-lt, one-le-pow}
use tarsnap.Datastruct.Rwhashtab.Table.{distance}
use tarsnap.Multitape.Chunkify.{Chunkifier, sub32, age, is_cycle, no_entry, look, insert_queued}

-- The entries that are of the time `v`, counted.
abbrev pub occurs : ℕ → List (ℕ × ℕ) → ℕ
occurs v = sum_by (λ (e : ℕ × ℕ). if e.0 == v then 1 else 0)

-- An entry of a table at time `k`: an old one, or none.
abbrev pub IsEntry : ℕ → ℕ → ℕ × ℕ → Type 0
IsEntry htlen k e = (e.0 ≤ k) ⊎ (e.0 ≡ 2 ^ 32 - htlen)

pub record IsTable (htlen k : ℕ) (ht : List (ℕ × ℕ)) : Type 0 where
  pub filled : length ht ≡ htlen
  pub entries : All (IsEntry htlen k) ht
  pub once : (v : ℕ) → v ≤ k → occurs v ht ≤ 1

-- Sums over lists.
sum_by-le :
    {A : Type 0} (P : A → Type 0) (f g h : A → ℕ) (xs : List A)
    → All P xs
    → ((x : A) → P x → f x ≤ g x + h x)
    → sum_by f xs ≤ sum_by g xs + sum_by h xs
sum_by-le P f g h [] all le = omega arith
sum_by-le P f g h (x ∷ xs) (one, all) le = omega (arith, le x one, sum_by-le P f g h xs all le)

sum_by-zero : {A : Type 0} (xs : List A) → sum_by (λ x. 0) xs ≡ 0
sum_by-zero [] = refl
sum_by-zero (x ∷ xs) = omega (arith, sum_by-zero xs)

sum_by-set :
    {A : Type 0} (f : A → ℕ) (xs : List A) (i : ℕ) (x : A)
    → sum_by f (set xs i x) ≤ sum_by f xs + f x
sum_by-set f [] i x = omega arith
sum_by-set f (y ∷ ys) zero x = omega arith
sum_by-set f (y ∷ ys) (suc i) x = omega (arith, sum_by-set f ys i x)

All-set :
    {A : Type 0} (P : A → Type 0) (xs : List A) (i : ℕ) (x : A)
    → All P xs
    → P x
    → All P (set xs i x)
All-set P [] i x all one = tt
All-set P (y ∷ ys) zero x (first, all) one = (one, all)
All-set P (y ∷ ys) (suc i) x (first, all) one = (first, All-set P ys i x all one)

All-map :
    {A : Type 0} (P Q : A → Type 0) (xs : List A) → ((x : A) → P x → Q x) → All P xs → All Q xs
All-map P Q [] f all = tt
All-map P Q (x ∷ xs) f (one, all) = (f x one, All-map P Q xs f all)

-- Fewer marks than elements leave one without.
unmarked :
    {A : Type 0} (test : A → Bool) (d : A) (xs : List A)
    → sum_by (λ x. if test x then 0 else 1) xs < length xs
    → (i : ℕ) × (i < length xs) × (test (get_or xs i d) ≡ true)
unmarked test d [] lt = absurd (omega arith)
unmarked test d (x ∷ xs) lt = elim (Bool-cases (test x)) [
  | inl hit ↦ (0, omega arith, hit)
  | inr miss ↦
      let lt' : sum_by (λ x. if test x then 0 else 1) xs < length xs = ground (arith, miss) in
      let (i, in_range, hit) = unmarked test d xs lt' in (suc i, omega arith, hit)
]

-- No entry is of a time to come.
occurs-later :
    (htlen k v : ℕ) (ht : List (ℕ × ℕ))
    → k < v
    → v + htlen < 2 ^ 32
    → All (IsEntry htlen k) ht
    → occurs v ht ≡ 0
occurs-later htlen k v [] later below all = refl
occurs-later htlen k v ((t, y) ∷ ht) later below (one, all) = elim one [
  | inl le ↦
      let miss : (t == v) ≡ false = ground arith in
      rw miss (omega (arith, occurs-later htlen k v ht later below all))
  | inr dead ↦
      let miss : (t == v) ≡ false = ground arith in
      rw miss (omega (arith, occurs-later htlen k v ht later below all))
]

-- Time passes.
pub IsTable-later :
    (htlen k : ℕ) (ht : List (ℕ × ℕ))
    → k + 1 + htlen < 2 ^ 32
    → IsTable htlen k ht
    → IsTable htlen (k + 1) ht
IsTable-later htlen k ht below t = record {
  filled = t.filled;
  entries = All-map (IsEntry htlen k) (IsEntry htlen (k + 1)) ht (λ e. widen_entry e) t.entries;
  once = λ v le. elim (Bool-cases (v == k + 1)) [
    | inl now ↦
        let eq : v ≡ k + 1 = ground (arith, now) in
        rw eq (omega (arith, occurs-later htlen k (k + 1) ht (omega arith) below t.entries))
    | inr past ↦ t.once v (ground (arith, past, le))
  ];
}
  where
    widen_entry : (e : ℕ × ℕ) → IsEntry htlen k e → IsEntry htlen (k + 1) e
    widen_entry e (inl le) = inl (omega (arith, le))
    widen_entry e (inr dead) = inr dead

-- An entry of the present replaces another.
pub IsTable-set :
    (htlen k i y : ℕ) (ht : List (ℕ × ℕ))
    → k + 1 + htlen < 2 ^ 32
    → IsTable htlen k ht
    → IsTable htlen (k + 1) (set ht i (k + 1, y))
IsTable-set htlen k i y ht below t =
    let t' = IsTable-later htlen k ht below t in
    record {
      filled = length-set ht i (k + 1, y) ∙ t.filled;
      entries = All-set (IsEntry htlen (k + 1)) ht i (k + 1, y) t'.entries (inl (omega arith));
      once = λ v le. elim (Bool-cases (v == k + 1)) [
        | inl now ↦
            let eq : v ≡ k + 1 = ground (arith, now) in
            let free = occurs-later htlen k (k + 1) ht (omega arith) below t.entries in
            rw eq (
              ground (
                arith,
                free,
                sum_by-set (λ (e : ℕ × ℕ). if e.0 == k + 1 then 1 else 0) ht i (k + 1, y),
              ))
        | inr past ↦
            let miss : (k + 1 == v) ≡ false = ground (arith, past) in
            ground (
              arith,
              miss,
              t'.once v le,
              sum_by-set (λ (e : ℕ × ℕ). if e.0 == v then 1 else 0) ht i (k + 1, y),
            )
      ];
    }

module _ (htlen k : ℕ) (ht : List (ℕ × ℕ)) (below : k + 1 + htlen < 2 ^ 32)
    (t : IsTable htlen k ht) where
  abbrev young : ℕ → ℕ × ℕ → ℕ
  young n e = if leb n (age (k + 1) e) then 0 else 1

  young-suc :
      (n : ℕ) (e : ℕ × ℕ)
      → n < htlen
      → IsEntry htlen k e
      → young (suc n) e ≤ young n e + (if e.0 + n == k then 1 else 0)
  unfolding age sub32
  young-suc n e lt (inl le) = ground arith
  young-suc n e lt (inr dead) = ground arith

  young-zero : (xs : List (ℕ × ℕ)) → sum_by (young 0) xs ≡ 0
  young-zero [] = refl
  young-zero (e ∷ xs) = ground (arith, young-zero xs)

  -- At most `n` entries are younger than `n`.
  young-le : (n : ℕ) → n ≤ htlen → sum_by (young n) ht ≤ n
  young-le zero le = omega (arith, young-zero ht)
  young-le (suc n) le =
      let at : ℕ × ℕ → ℕ = λ e. if e.0 + n == k then 1 else 0 in
      let step =
        sum_by-le (IsEntry htlen k) (young (suc n)) (young n) at ht t.entries
          (λ e one. young-suc n e (omega arith) one) in
      omega (arith, step, young-le n (omega arith), at_most_one n)
    where
      at_most_one : (n : ℕ) → sum_by (λ (e : ℕ × ℕ). if e.0 + n == k then 1 else 0) ht ≤ 1
      at_most_one n = omega (
        arith,
        t.once (k - n) (omega arith),
        sum_by-le (IsEntry htlen k) (λ (e : ℕ × ℕ). if e.0 + n == k then 1 else 0)
            (λ (e : ℕ × ℕ). if e.0 == k - n then 1 else 0) (λ e. 0) ht t.entries
            (λ e one. ground arith),
        sum_by-zero ht,
      )

  -- A slot that ends both loops.
  pub old_slot :
      (n : ℕ)
      → n < htlen
      → (i : ℕ) × (i < htlen) × (leb n (age (k + 1) (get_or ht i no_entry)) ≡ true)
  old_slot n lt =
      let (i, in_range, old) =
        unmarked (λ e. leb n (age (k + 1) e)) no_entry ht
          (omega (arith, t.filled, young-le n (omega arith))) in
      (i, omega (arith, in_range, t.filled), old)

-- The loops, from a slot that ends them `d` rounds ahead.
module _ (c : Chunkifier) (width : ℕ) (sized : c.htlen ≡ 2 ^ width) where
  next_slot :
      (pos d : ℕ) → (bit_and (pos + 1) (c.htlen - 1) + d) % c.htlen ≡ (pos + suc d) % c.htlen
  next_slot pos d =
      rw (sized, bit_and_mask width (pos + 1))
        (mod-add-mod (pos + 1) (2 ^ width) d ∙ ap (λ (n : ℕ). n % 2 ^ width) (omega arith))

  here_slot : (pos : ℕ) → pos < c.htlen → (pos + 0) % c.htlen ≡ pos
  here_slot pos lt = ap (λ (n : ℕ). n % c.htlen) (omega arith) ∙ mod-eq_of_lt lt

  slot-lt : (y : ℕ) → bit_and y (c.htlen - 1) < c.htlen
  slot-lt y = rw (sized, bit_and_mask width y) (mod-lt y (one-le-pow width 2 (omega arith)))

  look_from :
      (rounds pos d : ℕ)
      → d < rounds
      → pos < c.htlen
      → leb (2 * c.r % 2 ^ 32) (age c.k (get_or c.ht ((pos + d) % c.htlen) no_entry)) ≡ true
      → (b : Bool) × (look rounds c pos ≡ some b)
  unfolding look
  look_from zero pos d lt here old = absurd (omega arith)
  look_from (suc rounds) pos zero lt here old =
      let empty : leb (2 * c.r % 2 ^ 32) (age c.k (get_or c.ht pos no_entry)) ≡ true =
        subst (λ (n : ℕ). leb (2 * c.r % 2 ^ 32) (age c.k (get_or c.ht n no_entry)) ≡ true)
          (here_slot pos here) old in
      elim (Bool-cases (is_cycle c (get_or c.ht pos no_entry))) [
        | inl cycle ↦ (true, rw cycle refl)
        | inr none_here ↦ (false, rw (none_here, empty) refl)
      ]
  look_from (suc rounds) pos (suc d) lt here old =
      let next =
        look_from rounds (bit_and (pos + 1) (c.htlen - 1)) d (omega arith) (slot-lt (pos + 1))
          (rw (next_slot pos d) old) in
      elim (Bool-cases (is_cycle c (get_or c.ht pos no_entry))) [
        | inl cycle ↦ (true, rw cycle refl)
        | inr none_here ↦
            elim (Bool-cases (leb (2 * c.r % 2 ^ 32) (age c.k (get_or c.ht pos no_entry)))) [
              | inl empty ↦ (false, rw (none_here, empty) refl)
              | inr full ↦ rw (none_here, full) next
            ]
      ]

  insert_from :
      (rounds y pos d : ℕ)
      → d < rounds
      → pos < c.htlen
      → leb c.r (age c.k (get_or c.ht ((pos + d) % c.htlen) no_entry)) ≡ true
      → (i : ℕ) × (insert_queued rounds c y pos ≡ some (set c.ht i (c.k, y)))
  unfolding insert_queued
  insert_from zero y pos d lt here old = absurd (omega arith)
  insert_from (suc rounds) y pos zero lt here old =
      let empty : leb c.r (age c.k (get_or c.ht pos no_entry)) ≡ true =
        subst (λ (n : ℕ). leb c.r (age c.k (get_or c.ht n no_entry)) ≡ true) (here_slot pos here)
          old in
      (pos, rw empty refl)
  insert_from (suc rounds) y pos (suc d) lt here old =
      let next =
        insert_from rounds y (bit_and (pos + 1) (c.htlen - 1)) d (omega arith) (slot-lt (pos + 1))
          (rw (next_slot pos d) old) in
      elim (Bool-cases (leb c.r (age c.k (get_or c.ht pos no_entry)))) [
        | inl empty ↦ (pos, rw empty refl)
        | inr full ↦ rw full next
      ]

  -- In a table that is as the chunkifier keeps it, with more than 2 * r slots, the loop that looks for
  -- a value and the loop that inserts one end within a round for each slot, by a test of their own.
  pub loops_stop :
      (k y z : ℕ)
      → c.k ≡ k + 1
      → k + 1 + c.htlen < 2 ^ 32
      → 2 * c.r < c.htlen
      → IsTable c.htlen k c.ht
      → ((b : Bool) × (look c.htlen c (bit_and y (c.htlen - 1)) ≡ some b))
        × ((i : ℕ) × (insert_queued c.htlen c z (bit_and z (c.htlen - 1))
              ≡ some (set c.ht i (c.k, z))))
  loops_stop k y z now below room t =
      let (i, in_range, old) = old_slot c.htlen k c.ht below t (2 * c.r) room in
      let old' : leb (2 * c.r) (age c.k (get_or c.ht i no_entry)) ≡ true =
        subst (λ (K : ℕ). leb (2 * c.r) (age K (get_or c.ht i no_entry)) ≡ true) (sym now) old in
      let small : 2 * c.r % 2 ^ 32 ≡ 2 * c.r = mod-eq_of_lt (omega (arith, room, below)) in
      (look_at i in_range (rw small old'), insert_at i in_range (ground (arith, old')))
    where
      look_at :
          (i : ℕ)
          → i < c.htlen
          → leb (2 * c.r % 2 ^ 32) (age c.k (get_or c.ht i no_entry)) ≡ true
          → (b : Bool) × (look c.htlen c (bit_and y (c.htlen - 1)) ≡ some b)
      look_at i in_range old =
          let (d, near, at_i) = distance c.htlen i (bit_and y (c.htlen - 1)) in_range (slot-lt y) in
          look_from c.htlen (bit_and y (c.htlen - 1)) d near (slot-lt y) (rw at_i old)

      insert_at :
          (i : ℕ)
          → i < c.htlen
          → leb c.r (age c.k (get_or c.ht i no_entry)) ≡ true
          → (j : ℕ) × (insert_queued c.htlen c z (bit_and z (c.htlen - 1))
              ≡ some (set c.ht j (c.k, z)))
      insert_at i in_range old =
          let (d, near, at_i) = distance c.htlen i (bit_and z (c.htlen - 1)) in_range (slot-lt z) in
          insert_from c.htlen z (bit_and z (c.htlen - 1)) d near (slot-lt z) (rw at_i old)
