-- ===== src/Multitape/Chunkify/Montgomery.antt =====
-- The multiplication modulo p of the chunkifier, which is Montgomery's.
use tarsnap.Base.{
  ℕ, ◌+◌, ◌-◌, ◌*◌, ◌/◌, ◌%◌, ◌^◌, bit_and, ◌≤◌, ◌<◌, ◌≡◌, refl, sym, ap, ap₂, subst, ◌⊎◌, inl, inr,
  ◌∙◌, arith,
}
use native.Mathlib.Nat.{
  mod-eq_of_lt, mod-lt, div-add-mod, mul-le-mul_right, mul-add-mod_self_left, add-mod-mod,
}
use tarsnap.Base.Bits.{bit_and_high, bit_and-one}
use tarsnap.Multitape.Chunkify.{mmul, sub32, refine_inverse, negated_inverse}

sums :
    (w p pp q r k u d ab : ℕ)
    → p * pp + 1 ≡ q * w
    → w * d + r ≡ ab
    → w * u + k ≡ r * pp
    → w * (p * u) + (ab + k * p) ≡ w * (d + r * q) + 0
sums w p pp q r k u d ab inverse split_ab split_k =
    let scaled : r * (p * pp + 1) ≡ r * (q * w) = ap (λ (n : ℕ). r * n) inverse in
    let spread : p * (w * u + k) ≡ p * (r * pp) = ap (λ (n : ℕ). p * n) split_k in
    omega (arith, scaled, spread, split_ab)

-- The multiple of `p` that makes a product divisible by `w`.
divisible : (w ab p pp q : ℕ) → p * pp + 1 ≡ q * w → 0 < w → (ab + ab % w * pp % w * p) % w ≡ 0
divisible w ab p pp q inverse some_w =
    let r = ab % w in
    let k = r * pp % w in
    let u = r * pp / w in
    let split_ab : w * (ab / w) + r ≡ ab = div-add-mod ab w in
    let split_k : w * u + k ≡ r * pp = div-add-mod (r * pp) w in
    let whole : w * (p * u) + (ab + k * p) ≡ w * (ab / w + r * q) + 0 =
      sums w p pp q r k u (ab / w) ab inverse split_ab split_k in
    sym (mul-add-mod_self_left w (p * u) (ab + k * p))
    ∙ ap (λ (n : ℕ). n % w) whole
    ∙ mul-add-mod_self_left w (ab / w + r * q) 0
    ∙ mod-eq_of_lt some_w

no_overflow : (a b k p : ℕ) → a < 2 ^ 32 → k < 2 ^ 32 → b + p ≤ 2 ^ 32 → a * b + k * p < 2 ^ 64
no_overflow a b k p small lt fits =
    let le_a : a ≤ 2 ^ 32 - 1 = omega arith in
    let le_k : k ≤ 2 ^ 32 - 1 = omega arith in
    omega (arith, mul-le-mul_right b le_a, mul-le-mul_right p le_k, fits)

-- For a multiplier with p * pp congruent to -1 modulo 2 ^ 32, `mmul` is exact: it is the quotient by
-- 2 ^ 32, without remainder, of a * b and a multiple of p below 2 ^ 32 * p. No sum overflows if b + p
-- is at most 2 ^ 32.
pub mmul-exact :
    (a b p pp : ℕ)
    → a < 2 ^ 32
    → b + p ≤ 2 ^ 32
    → (p * pp + 1) % 2 ^ 32 ≡ 0
    → (k : ℕ) × (k < 2 ^ 32) × (mmul a b p pp * 2 ^ 32 ≡ a * b + k * p)
unfolding mmul
mmul-exact a b p pp small fits inverse =
    let k = a * b % 2 ^ 32 * pp % 2 ^ 32 in
    let lt : k < 2 ^ 32 = mod-lt (a * b % 2 ^ 32 * pp) (omega arith) in
    let q : p * pp + 1 ≡ (p * pp + 1) / 2 ^ 32 * 2 ^ 32 = omega (arith, inverse) in
    let exact = divisible (2 ^ 32) (a * b) p pp ((p * pp + 1) / 2 ^ 32) q (omega arith) in
    let bound : a * b + k * p < 2 ^ 64 = no_overflow a b k p small lt fits in
    let ab : a * b % 2 ^ 64 ≡ a * b = mod-eq_of_lt (omega (arith, bound)) in
    let sum : (a * b + k * p) % 2 ^ 64 ≡ a * b + k * p = mod-eq_of_lt bound in
    (k, lt, rw (ab, sum) (omega (arith, exact)))

refine_square : (w p x q : ℕ) → p * x + 1 ≡ q * w → p * (x * (2 + p * x)) + 1 ≡ q * q * w * w
refine_square w p x q inverse =
    let square : (p * x + 1) * (p * x + 1) ≡ q * w * (q * w) =
      ap₂ (λ (m n : ℕ). m * n) inverse inverse in
    omega (arith, square)

refine_sums :
    (w e p x s y d c r q : ℕ)
    → w * e ≡ 2 ^ 32
    → 2 ^ 32 * d + y ≡ s
    → 2 ^ 32 * c + r ≡ x * y
    → p * (x * s) + 1 ≡ w * q
    → w * (e * (p * (x * d) + p * c)) + (p * r + 1) ≡ w * q + 0
refine_sums w e p x s y d c r q divides split_y split_r square =
    let scaled_y : p * (x * (2 ^ 32 * d + y)) ≡ p * (x * s) = ap (λ (n : ℕ). p * (x * n)) split_y in
    let scaled_r : p * (2 ^ 32 * c + r) ≡ p * (x * y) = ap (λ (n : ℕ). p * n) split_r in
    let both : w * e * (p * (x * d) + p * c) ≡ 2 ^ 32 * (p * (x * d) + p * c) =
      ap (λ (n : ℕ). n * (p * (x * d) + p * c)) divides in
    omega (arith, scaled_y, scaled_r, both, square)

-- Twice as many bits of the inverse.
refine_inverse-doubles :
    (w e p x : ℕ)
    → w * w * e ≡ 2 ^ 32
    → 0 < w * w
    → (p * x + 1) % w ≡ 0
    → (p * refine_inverse p x + 1) % (w * w) ≡ 0
unfolding refine_inverse
refine_inverse-doubles w e p x divides positive inverse =
    let y = (2 + p * x % 2 ^ 32) % 2 ^ 32 in
    let is_y : y ≡ (2 + p * x) % 2 ^ 32 = add-mod-mod 2 (p * x) (2 ^ 32) in
    let q = (p * x + 1) / w in
    let inverse' : p * x + 1 ≡ q * w = sym (div-add-mod (p * x + 1) w) ∙ omega (arith, inverse) in
    let square : p * (x * (2 + p * x)) + 1 ≡ w * w * (q * q) =
      omega (arith, refine_square w p x q inverse') in
    let d = (2 + p * x) / 2 ^ 32 in
    let split_y : 2 ^ 32 * d + y ≡ 2 + p * x = omega (arith, is_y) in
    let r = x * y % 2 ^ 32 in
    let c = x * y / 2 ^ 32 in
    let split_r : 2 ^ 32 * c + r ≡ x * y = omega arith in
    let whole =
      refine_sums (w * w) e p x (2 + p * x) y d c r (q * q) divides split_y split_r square in
    sym (mul-add-mod_self_left (w * w) (e * (p * (x * d) + p * c)) (p * r + 1))
    ∙ ap (λ (n : ℕ). n % (w * w)) whole
    ∙ mul-add-mod_self_left (w * w) (q * q) 0
    ∙ mod-eq_of_lt positive

-- The first four bits: `c` and 8 * `b` are what p and the seed come from.
seed_bits :
    (g x t c b i j : ℕ)
    → c * c + 16 * i ≡ 8 * b * c + 1 + 16 * j
    → x + (8 * g + c) ≡ 16 * t + 8 * b
    → ((8 * g + c) * x + 1) % 16 ≡ 0
seed_bits g x t c b i j bits sum =
    let scaled : (8 * g + c) * (x + (8 * g + c)) ≡ (8 * g + c) * (16 * t + 8 * b) =
      ap (λ (n : ℕ). (8 * g + c) * n) sum in
    omega (arith, scaled, bits)

seed_at :
    (p x t c b i j : ℕ)
    → p % 8 ≡ c
    → c * c + 16 * i ≡ 8 * b * c + 1 + 16 * j
    → x + p ≡ 16 * t + 8 * b
    → (p * x + 1) % 16 ≡ 0
seed_at p x t c b i j eighth bits sum =
    let is_p : 8 * (p / 8) + c ≡ p = omega (arith, eighth) in
    subst (λ (n : ℕ). (n * x + 1) % 16 ≡ 0) is_p
      (seed_bits (p / 8) x t c b i j bits (omega (arith, is_p, sum)))

odd_eighth : (p : ℕ) → p % 2 ≡ 1 → (p % 8 ≡ 1) ⊎ ((p % 8 ≡ 3) ⊎ ((p % 8 ≡ 5) ⊎ (p % 8 ≡ 7)))
odd_eighth p odd = ground arith

seed_lem :
    (p : ℕ)
    → p < 2 ^ 32
    → p % 2 ≡ 1
    → (p * sub32 (bit_and ((2 * p % 2 ^ 32 + 4) % 2 ^ 32) 8) p + 1) % 16 ≡ 0
unfolding sub32
seed_lem p small odd =
    let a = (2 * p % 2 ^ 32 + 4) % 2 ^ 32 in
    let mask : bit_and a 8 ≡ a / 8 % 2 * 8 =
      bit_and_high 3 a 1 ∙ ap (λ (n : ℕ). n * 8) (bit_and-one (a / 8)) in
    let b = a / 8 % 2 in
    let x = (b * 8 + (2 ^ 32 - p % 2 ^ 32)) % 2 ^ 32 in
    let sum : x + p ≡ 16 * ((x + p) / 16) + 8 * b = omega arith in
    rw mask (elim (odd_eighth p odd) [
      | inl one ↦
          let bit : b ≡ 0 = omega arith in
          seed_at p x ((x + p) / 16) 1 b 0 0 one (omega (arith, bit)) sum
      | inr (inl three) ↦
          let bit : b ≡ 1 = omega arith in
          seed_at p x ((x + p) / 16) 3 b 1 0 three (omega (arith, bit)) sum
      | inr (inr (inl five)) ↦
          let bit : b ≡ 1 = omega arith in
          seed_at p x ((x + p) / 16) 5 b 1 0 five (omega (arith, bit)) sum
      | inr (inr (inr seven)) ↦
          let bit : b ≡ 0 = omega arith in
          seed_at p x ((x + p) / 16) 7 b 0 3 seven (omega (arith, bit)) sum
    ])

-- Of every odd p below 2 ^ 32, `chunkify_init` computes the negated inverse modulo 2 ^ 32: p times it
-- is congruent to -1.
pub negated_inverse_lem :
    (p : ℕ) → p < 2 ^ 32 → p % 2 ≡ 1 → (p * negated_inverse p + 1) % 2 ^ 32 ≡ 0
unfolding negated_inverse
negated_inverse_lem p small odd =
    let pp = sub32 (bit_and ((2 * p % 2 ^ 32 + 4) % 2 ^ 32) 8) p in
    refine_inverse-doubles 65536 1 p (refine_inverse p (refine_inverse p pp)) refl (omega arith) (
      refine_inverse-doubles 256 65536 p (refine_inverse p pp) refl (omega arith)
        (refine_inverse-doubles 16 (2 ^ 24) p pp refl (omega arith) (seed_lem p small odd)))
