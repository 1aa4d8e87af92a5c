-- ===== src/Base/Bits/Xor.antt =====
-- `^`: where two numbers differ, digit by digit, and the digits above a place.
use Prim.Native.Nat.{
  ℕ, zero, suc, ◌+◌, ◌*◌, ◌/◌, ◌%◌, ◌^◌, ◌≤◌, ◌<◌, differ, bit_xor, bit_xor-bitwise,
}
use mathlib.Core.Path.{◌≡◌, refl, sym, ap, ap₂, ◌∙◌}
use mathlib.Core.Logic.{◌≢◌, ◌⊎◌, inl, inr}
use native.Mathlib.Nat.{div-div-eq-div-mul, div-one, pow-suc}
use native.Mathlib.Omega.{arith}
use tarsnap.Base.Bits.{digits_enough}

pub bit_xor_low : (a b : ℕ) → bit_xor a b ≡ bit_xor (a / 2) (b / 2) * 2 + differ (a % 2) (b % 2)
bit_xor_low zero b = omega (arith, bit_xor-bitwise 0 b, bit_xor-bitwise 0 (b / 2))
bit_xor_low (suc a) b = omega (
  arith,
  bit_xor-bitwise (suc a) b,
  bit_xor-bitwise (suc a / 2) (b / 2),
  digits_enough (λ y. y) differ a (suc a / 2) (suc a / 2) (b / 2) (omega arith) (omega arith),
)

-- Equal digits, and different ones.
differ_cases :
    (x y : ℕ) → x < 2 → y < 2 → ((differ x y ≡ 0) × (x ≡ y)) ⊎ ((differ x y ≡ 1) × (x ≢ y))
differ_cases zero zero p q = inl (refl, refl)
differ_cases zero (suc zero) p q = inr (refl, λ e. absurd (omega (arith, e)))
differ_cases (suc zero) zero p q = inr (refl, λ e. absurd (omega (arith, e)))
differ_cases (suc zero) (suc zero) p q = inl (refl, refl)
differ_cases (suc (suc x)) y p q = absurd (omega arith)
differ_cases zero (suc (suc y)) p q = absurd (omega arith)
differ_cases (suc zero) (suc (suc y)) p q = absurd (omega arith)

differ_bits :
    (a b : ℕ)
    → ((differ (a % 2) (b % 2) ≡ 0) × (a % 2 ≡ b % 2))
      ⊎ ((differ (a % 2) (b % 2) ≡ 1) × (a % 2 ≢ b % 2))
differ_bits a b = differ_cases (a % 2) (b % 2) (omega arith) (omega arith)

-- One place further.
pub div_pow : (k a : ℕ) → a / 2 ^ suc k ≡ a / 2 ^ k / 2
div_pow k a = ap (λ (t : ℕ). a / t) (pow-suc 2 k) ∙ sym (div-div-eq-div-mul a (2 ^ k) 2)

-- The digits of `a ^ b` from a place on are those of the operands.
pub bit_xor-div : (k a b : ℕ) → bit_xor a b / 2 ^ k ≡ bit_xor (a / 2 ^ k) (b / 2 ^ k)
bit_xor-div zero a b = simp div-one
bit_xor-div (suc k) a b =
    let here = bit_xor_low (a / 2 ^ k) (b / 2 ^ k) in
    let half : bit_xor (a / 2 ^ k) (b / 2 ^ k) / 2 ≡ bit_xor (a / 2 ^ k / 2) (b / 2 ^ k / 2) =
      elim (differ_bits (a / 2 ^ k) (b / 2 ^ k)) [
        | inl (same, e) ↦ omega (arith, here, same)
        | inr (other, e) ↦ omega (arith, here, other)
      ] in
    div_pow k (bit_xor a b)
    ∙ ap (λ (t : ℕ). t / 2) (bit_xor-div k a b)
    ∙ half
    ∙ ap₂ bit_xor (sym (div_pow k a)) (sym (div_pow k b))

pub eq_of_bit_xor : (n a b : ℕ) → a ≤ n → b ≤ n → bit_xor a b ≡ 0 → a ≡ b
eq_of_bit_xor zero a b p q h = omega arith
eq_of_bit_xor (suc n) a b p q h =
    let here = bit_xor_low a b in
    elim (differ_bits a b) [
      | inl (same, e) ↦
          let halves =
            eq_of_bit_xor n (a / 2) (b / 2) (omega arith) (omega arith)
              (omega (arith, here, same, h)) in
          omega (arith, halves, e)
      | inr (other, e) ↦ absurd (omega (arith, here, other, h))
    ]

pub bit_xor_self : (n a : ℕ) → a ≤ n → bit_xor a a ≡ 0
bit_xor_self zero a p = let zero_a : a ≡ 0 = omega arith in rw zero_a (bit_xor-bitwise 0 0)
bit_xor_self (suc n) a p = elim (differ_bits a a) [
  | inl (same, e) ↦ omega (arith, bit_xor_low a a, same, bit_xor_self n (a / 2) (omega arith))
  | inr (other, e) ↦ absurd (e refl)
]

-- `a ^ b` with one digit from a place on: there the operands differ, and above they agree.
pub bit_xor-one : (a b : ℕ) → bit_xor a b ≡ 1 → (a / 2 ≡ b / 2) × (a % 2 ≢ b % 2)
bit_xor-one a b h =
    let here = bit_xor_low a b in
    elim (differ_bits a b) [
      | inl (same, e) ↦ absurd (omega (arith, here, same, h))
      | inr (other, e) ↦ (
        eq_of_bit_xor (a / 2 + b / 2) (a / 2) (b / 2) (omega arith) (omega arith)
            (omega (arith, here, other, h)),
        e,
      )
    ]
