-- ===== src/Base/Bits.antt =====
-- `&` with a mask and `|` of disjoint fields as arithmetic, at every width.
pub mod Xor
use Prim.Native.Nat.{
  ℕ, zero, suc, ◌+◌, ◌-◌, ◌*◌, ◌/◌, ◌%◌, ◌^◌, ◌≤◌, ◌<◌, min, max, digits, bit_and, bit_or,
  bit_and-bitwise, bit_or-bitwise,
}
use mathlib.Core.Path.{◌≡◌, refl, sym, ap, ◌∙◌}
use native.Mathlib.Nat.{
  div-one, mod-one, add-zero, mul-one, mul_comm, div-div-eq-div-mul, pow-suc, one-le-pow, mod-lt,
  div-add-mod, mul-add-mod_self_left, mod-eq_of_lt,
}
use native.Mathlib.Omega.{arith}

-- The native operations stand for `bitwise`, a recursion on binary digits with fuel; the fuel only
-- has to be large enough.
module _ (z : ℕ → ℕ) (f : ℕ → ℕ → ℕ) where
  digits_enough : (n m a b : ℕ) → a ≤ n → a ≤ m → digits z f n a b ≡ digits z f m a b
  digits_enough zero zero a b p q = refl
  digits_enough zero (suc m) zero b p q = refl
  digits_enough zero (suc m) (suc a) b p q = absurd (omega arith)
  digits_enough (suc n) zero zero b p q = refl
  digits_enough (suc n) zero (suc a) b p q = absurd (omega arith)
  digits_enough (suc n) (suc m) zero b p q = refl
  digits_enough (suc n) (suc m) (suc a) b p q =
      omega (arith, digits_enough n m (suc a / 2) (b / 2) (omega arith) (omega arith))

-- One equation for the lowest digit.
pub bit_and_low : (a b : ℕ) → bit_and a b ≡ bit_and (a / 2) (b / 2) * 2 + min (a % 2) (b % 2)
bit_and_low zero b = omega (arith, bit_and-bitwise 0 b, bit_and-bitwise 0 (b / 2))
bit_and_low (suc a) b = omega (
  arith,
  bit_and-bitwise (suc a) b,
  bit_and-bitwise (suc a / 2) (b / 2),
  digits_enough (λ y. 0) min a (suc a / 2) (suc a / 2) (b / 2) (omega arith) (omega arith),
)

pub bit_or_low : (a b : ℕ) → bit_or a b ≡ bit_or (a / 2) (b / 2) * 2 + max (a % 2) (b % 2)
bit_or_low zero b = omega (arith, bit_or-bitwise 0 b, bit_or-bitwise 0 (b / 2))
bit_or_low (suc a) b = omega (
  arith,
  bit_or-bitwise (suc a) b,
  bit_or-bitwise (suc a / 2) (b / 2),
  digits_enough (λ y. y) max a (suc a / 2) (suc a / 2) (b / 2) (omega arith) (omega arith),
)

zero-bit_and : (b : ℕ) → bit_and 0 b ≡ 0
zero-bit_and b = bit_and-bitwise 0 b

zero-bit_or : (b : ℕ) → bit_or 0 b ≡ b
zero-bit_or b = bit_or-bitwise 0 b

pub bit_and-zero : (n a : ℕ) → a ≤ n → bit_and a 0 ≡ 0
bit_and-zero n zero h = refl
bit_and-zero zero (suc a) h = absurd (omega arith)
bit_and-zero (suc n) (suc a) h =
    omega (arith, bit_and_low (suc a) 0, bit_and-zero n (suc a / 2) (omega arith))

-- The remainder by an even number, from that of the half.
mod_half : (p a : ℕ) → 0 < p → a % (p * 2) ≡ a / 2 % p * 2 + a % 2
mod_half p a h =
    let s : ℕ = a / 2 % p * 2 + a % 2 in
    let small : s < p * 2 = omega (arith, mod-lt (a / 2) h) in
    let whole : a ≡ p * 2 * (a / 2 / p) + s = omega (arith, div-add-mod (a / 2) p) in
    ap (λ (t : ℕ). t % (p * 2)) whole
    ∙ mul-add-mod_self_left (p * 2) (a / 2 / p) s
    ∙ mod-eq_of_lt small

-- `a & (2 ^ k - 1)` keeps the low `k` bits.
pub bit_and_mask : (k a : ℕ) → bit_and a (2 ^ k - 1) ≡ a % 2 ^ k
bit_and_mask zero a = omega (arith, bit_and-zero a a (omega arith))
bit_and_mask (suc k) a = ground (
  arith,
  pow-suc 2 k,
  one-le-pow k 2,
  bit_and_low a (2 ^ suc k - 1),
  bit_and_mask k (a / 2),
  mod_half (2 ^ k) a,
)

bit_or-zero : (n a : ℕ) → a ≤ n → bit_or a 0 ≡ a
bit_or-zero n zero h = refl
bit_or-zero zero (suc a) h = absurd (omega arith)
bit_or-zero (suc n) (suc a) h =
    omega (arith, bit_or_low (suc a) 0, bit_or-zero n (suc a / 2) (omega arith))

shifted : (k q : ℕ) → q * 2 ^ suc k ≡ q * 2 ^ k * 2
shifted k q = omega (arith, ap (λ (t : ℕ). q * t) (pow-suc 2 k))

half_of_double : (n : ℕ) → n * 2 / 2 ≡ n
half_of_double n = omega arith

div_pow-suc : (k a : ℕ) → a / 2 ^ suc k ≡ a / 2 / 2 ^ k
div_pow-suc k a =
    ap (λ (t : ℕ). a / t) (pow-suc 2 k ∙ mul_comm (2 ^ k) 2) ∙ sym (div-div-eq-div-mul a 2 (2 ^ k))

-- An operand with `k` low zero bits leaves the other's low bits alone, or cuts them off.
pub bit_and_high : (k a q : ℕ) → bit_and a (q * 2 ^ k) ≡ bit_and (a / 2 ^ k) q * 2 ^ k
bit_and_high zero a q = simp (div-one, mul-one)
bit_and_high (suc k) a q = omega (
  arith,
  ap (λ t. bit_and a t) (shifted k q),
  bit_and_low a (q * 2 ^ k * 2),
  ap (λ (t : ℕ). bit_and (a / 2) t) (half_of_double (q * 2 ^ k)),
  bit_and_high k (a / 2) q,
  ap (λ (t : ℕ). bit_and t q) (div_pow-suc k a),
  ap (λ (t : ℕ). bit_and (a / 2 / 2 ^ k) q * t) (pow-suc 2 k),
  ap (λ (t : ℕ). t * 2 ^ suc k) (ap (λ (t : ℕ). bit_and t q) (div_pow-suc k a)),
)

pub bit_or_high : (k a q : ℕ) → bit_or a (q * 2 ^ k) ≡ bit_or (a / 2 ^ k) q * 2 ^ k + a % 2 ^ k
bit_or_high zero a q = simp (div-one, mul-one, mod-one, add-zero)
bit_or_high (suc k) a q = omega (
  arith,
  ap (λ (t : ℕ). bit_or a t) (shifted k q),
  bit_or_low a (q * 2 ^ k * 2),
  ap (λ (t : ℕ). bit_or (a / 2) t) (half_of_double (q * 2 ^ k)),
  bit_or_high k (a / 2) q,
  ap (λ (t : ℕ). t * 2 ^ suc k) (ap (λ (t : ℕ). bit_or t q) (div_pow-suc k a)),
  ap (λ (t : ℕ). bit_or (a / 2 / 2 ^ k) q * t) (pow-suc 2 k),
  ap (λ (t : ℕ). a % t) (pow-suc 2 k),
  mod_half (2 ^ k) a (one-le-pow k 2 (omega arith)),
)

pub bit_and-one : (a : ℕ) → bit_and a 1 ≡ a % 2
bit_and-one a = omega (arith, bit_and_mask 1 a)

pub bit_or-one : (a : ℕ) → bit_or a 1 ≡ a / 2 * 2 + 1
bit_or-one a = omega (arith, bit_or_low a 1, bit_or-zero (a / 2) (a / 2) (omega arith))
