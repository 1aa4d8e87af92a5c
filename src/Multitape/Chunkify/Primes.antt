-- ===== src/Multitape/Chunkify/Primes.antt =====
-- The test for primes from which the chunkifier's modulus comes.
use tarsnap.Base.{
  ℕ, zero, suc, ◌+◌, ◌*◌, ◌/◌, ◌%◌, ◌^◌, ◌≤◌, ◌<◌, ◌≡◌, ◌≢◌, ◌⊎◌, inl, inr, refl, sym, ap, ◌∙◌,
  Bool, true, false, arith, ltb, leb, ◌==◌, Bool-cases,
}
use native.Mathlib.Decide.{dec_lt}
use native.Mathlib.Nat.{mod-eq_of_lt, mul-le-mul_left, mul-le-mul_right, div-add-mod, mul-mod_left}
use tarsnap.Multitape.Chunkify.{isprime, isprime_from}

-- No number below `x` divides `n`.
abbrev Undivided : ℕ → ℕ → Type 0
Undivided n x = (d : ℕ) → 1 < d → d < x → n % d ≢ 0

-- A number that is not a prime: it is below 2, or a smaller number but 1 divides it.
abbrev pub IsDivided : ℕ → Type 0
IsDivided n = (n < 2) ⊎ ((d : ℕ) × (1 < d) × (d < n) × (n % d ≡ 0))

-- What the answer tells.
abbrev pub Decided : ℕ → Bool → Type 0
Decided n true = (1 < n) × Undivided n n
Decided n false = IsDivided n

cofactor-lt : (n x d e : ℕ) → d * e ≡ n → x ≤ d → n < x * x → e < x
cofactor-lt n x d e product le large = elim (dec_lt e x) [
  | yes lt ↦ lt
  | no ge ↦
      let le' : x ≤ e = omega arith in
      absurd (omega (arith, product, large, mul-le-mul_left x le', mul-le-mul_right e le))
]

cofactor-more : (n d e : ℕ) → d * e ≡ n → d < n → 1 < e
cofactor-more n d zero product less = absurd (omega (arith, product, less))
cofactor-more n d (suc zero) product less = absurd (omega (arith, product, less))
cofactor-more n d (suc (suc e)) product less = omega arith

-- Where no number whose square is at most `n` divides it, none does: the cofactor of another would.
undivided : (n x : ℕ) → Undivided n x → n < x * x → Undivided n n
undivided n x none_below large d more less divides = elim (dec_lt d x) [
  | yes small ↦ none_below d more small divides
  | no big ↦
      let le : x ≤ d = omega arith in
      let e = n / d in
      let product : d * e ≡ n = omega (arith, div-add-mod n d, divides) in
      let below : e < x = cofactor-lt n x d e product le large in
      let above : 1 < e = cofactor-more n d e product less in
      none_below e above below (ap (λ (m : ℕ). m % e) (sym product) ∙ mul-mod_left d e)
]

small-Decided : (n x : ℕ) → Undivided n x → n < x * x → Decided n (ltb 1 n)
small-Decided n x none_below large = elim (Bool-cases (ltb 1 n)) [
  | inl two ↦ rw two (ground (arith, two), undivided n x none_below large)
  | inr one ↦ rw one (inl (ground (arith, one)))
]

below_square : (n x : ℕ) → leb (x * x) n ≡ true → 1 < x → x < n
below_square n x within more =
    let le : x * x ≤ n = ground (arith, within) in omega (arith, le, mul-le-mul_right x more)

isprime_from_lem :
    (rounds n x : ℕ)
    → n < 2 ^ 32
    → 1 < x
    → x + rounds ≡ 65536
    → Undivided n x
    → Decided n (isprime_from rounds n x)
unfolding isprime_from
isprime_from_lem zero n x small more left none_below =
    let eq : x ≡ 65536 = omega (arith, left) in
    small-Decided n x none_below (rw eq (omega (arith, small)))
isprime_from_lem (suc rounds) n x small more left none_below =
    let lt : x ≤ 65535 = omega (arith, left) in
    let square : x * x % 2 ^ 32 ≡ x * x =
      mod-eq_of_lt (omega (arith, lt, mul-le-mul_left x lt, mul-le-mul_right 65535 lt)) in
    elim (Bool-cases (leb (x * x) n)) [
      | inr past ↦ rw (square, past) (small-Decided n x none_below (ground (arith, past)))
      | inl within ↦ elim (Bool-cases (n % x == 0)) [
        | inl hit ↦
            rw (square, within, hit)
              (inr (x, more, omega (arith, below_square n x within more), ground (arith, hit)))
        | inr miss ↦
            rw (square, within, miss)
              (isprime_from_lem rounds n (x + 1) small (omega arith) (omega (arith, left))
                (λ d above under. elim (dec_lt d x) [
                  | yes below ↦ none_below d above below
                  | no at ↦
                      let eq : d ≡ x = omega arith in
                      rw eq (λ divides. absurd (ground (arith, miss, divides)))
                ]))
      ]
    ]

-- `isprime` decides for every 32-bit number whether it is a prime: what it accepts is above 1 and no
-- smaller number but 1 divides it, and what it rejects is below 2 or divided by such a number.
pub isprime-Decided : (n : ℕ) → n < 2 ^ 32 → Decided n (isprime n)
unfolding isprime
isprime-Decided n small =
    isprime_from_lem 65534 n 2 small (omega arith) refl (λ d above under. absurd (omega arith))
