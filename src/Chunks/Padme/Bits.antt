-- ===== src/Chunks/Padme/Bits.antt =====
-- The loops of `padme`, which compute logarithms.
use tarsnap.Base.{
  ℕ, zero, suc, ◌+◌, ◌-◌, ◌*◌, ◌/◌, ◌^◌, ◌<◌, ◌≤◌, false, true, ◌≡◌, ap, sym, ◌∙◌, arith, ltb, ◌==◌,
  Bool-cases, inl, inr,
}
use native.Mathlib.Numerals.{add-one}
use native.Mathlib.Nat.{
  pow-suc, one-le-pow, zero-add, suc-add, div-add-mod, div-lt_iff_lt-mul, le-div_iff_mul-le,
}
use tarsnap.Base.{refl}
use tarsnap.Chunks.Padme.{floor_log, bits_of, pad_bits}

floor_log-le : (fuel len e : ℕ) → floor_log fuel len e ≤ e + fuel
unfolding floor_log
floor_log-le zero len e = omega arith
floor_log-le (suc fuel) len e = ground (arith, floor_log-le fuel len (e + 1))

pub pad_bits-le : (len : ℕ) → pad_bits len ≤ 64
unfolding pad_bits
pad_bits-le len = omega (arith, floor_log-le 64 len 0)

pub pow-add : (a b : ℕ) → 2 ^ (a + b) ≡ 2 ^ a * 2 ^ b
pow-add zero b = omega (arith, ap (λ (t : ℕ). 2 ^ t) (zero-add b))
pow-add (suc a) b = omega (
  arith,
  ap (λ (t : ℕ). 2 ^ t) (suc-add a b),
  pow-suc 2 (a + b),
  pow-add a b,
  ap (λ (t : ℕ). t * 2 ^ b) (pow-suc 2 a),
)

pub pred_mul : (p q : ℕ) → 0 < p → (p - 1) * q + q ≡ p * q
pred_mul zero q h = absurd (omega arith)
pred_mul (suc p) q h =
    let less : suc p - 1 ≡ p = omega arith in omega (arith, ap (λ (t : ℕ). t * q) less)

pub grow : (a q : ℕ) {c : ℕ} → c ≤ a → q * c ≤ q * a
grow a q h = grind arith

-- The loop stops at a power of two within `len`.
floor_log_pow : (fuel len e : ℕ) → 2 ^ e ≤ len → 2 ^ floor_log fuel len e ≤ len
unfolding floor_log
floor_log_pow zero len e h = h
floor_log_pow (suc fuel) len e h = elim (Bool-cases (ltb (len / 2 ^ e) 2)) [
  | inl stop ↦ rw (stop, floor_log) h
  | inr more ↦
      let two : 2 ≤ len / 2 ^ e = ground arith in
      let double : 2 ^ (e + 1) ≤ len = omega (
        arith,
        pow-suc 2 e,
        ap (λ (t : ℕ). 2 ^ t) (add-one e),
        grow (len / 2 ^ e) (2 ^ e) two,
        div-add-mod len (2 ^ e),
      ) in
      rw (more, floor_log) (floor_log_pow fuel len (e + 1) double)
]

pub pad_bits_small : (len : ℕ) → 0 < len → 2 ^ pad_bits len ≤ len
unfolding pad_bits
pad_bits_small len h =
    let e = floor_log 64 len 0 in
    let b = e - bits_of 64 e 1 in
    let parts : b + (e - b) ≡ e = omega arith in
    let split : 2 ^ b * 2 ^ (e - b) ≡ 2 ^ e =
      sym (pow-add b (e - b)) ∙ ap (λ (t : ℕ). 2 ^ t) parts in
    omega (
      arith,
      split,
      floor_log_pow 64 len 0 h,
      grow (2 ^ (e - b)) (2 ^ b) (one-le-pow (e - b) 2 (omega arith)),
    )

-- The exponent that the first loop finds, and the length that the second one finds of it.
pub pow-le : (a b : ℕ) → a ≤ b → 2 ^ a ≤ 2 ^ b
pow-le a b h =
    let parts : a + (b - a) ≡ b = omega arith in
    let split : 2 ^ a * 2 ^ (b - a) ≡ 2 ^ b =
      sym (pow-add a (b - a)) ∙ ap (λ (t : ℕ). 2 ^ t) parts in
    omega (arith, split, grow (2 ^ (b - a)) (2 ^ a) (one-le-pow (b - a) 2 (omega arith)))

floor_log_lem :
    (fuel len i e : ℕ)
    → i ≤ e
    → e < i + fuel
    → 2 ^ e ≤ len
    → len < 2 ^ suc e
    → floor_log fuel len i ≡ e
unfolding floor_log
floor_log_lem zero len i e before enough low high = absurd (omega arith)
floor_log_lem (suc fuel) len i e before enough low high = elim (Bool-cases (ltb i e)) [
  | inl earlier ↦
      let more : 2 ≤ len / 2 ^ i =
        (le-div_iff_mul-le (one-le-pow i 2 (omega arith))).1
          (omega (arith, pow-suc 2 i, low, pow-le (suc i) e (ground (arith, earlier)))) in
      let go_on : ltb (len / 2 ^ i) 2 ≡ false = ground (arith, more) in
      rw (go_on, floor_log)
        (floor_log_lem fuel len (i + 1) e (ground (arith, earlier)) (omega arith) low high)
  | inr there ↦
      let same : i ≡ e = ground (arith, there) in
      let few : len / 2 ^ i < 2 =
        (div-lt_iff_lt-mul (one-le-pow i 2 (omega arith))).1
          (omega (arith, high, pow-suc 2 e, ap (λ (t : ℕ). 2 ^ t) same)) in
      let stop : ltb (len / 2 ^ i) 2 ≡ true = ground (arith, few) in rw (stop, floor_log) same
]

bits_of_lem :
    (fuel e i s : ℕ)
    → i ≤ suc s
    → suc s < i + fuel
    → 2 ^ s ≤ e
    → e < 2 ^ suc s
    → bits_of fuel e i ≡ suc s
unfolding bits_of
bits_of_lem zero e i s before enough low high = absurd (omega arith)
bits_of_lem (suc fuel) e i s before enough low high = elim (Bool-cases (ltb i (suc s))) [
  | inl earlier ↦
      let more : 1 ≤ e / 2 ^ i =
        (le-div_iff_mul-le (one-le-pow i 2 (omega arith))).1
          (omega (arith, low, pow-le i s (ground (arith, earlier)))) in
      let go_on : (e / 2 ^ i == 0) ≡ false = ground (arith, more) in
      rw (go_on, bits_of)
        (bits_of_lem fuel e (i + 1) s (ground (arith, earlier)) (omega arith) low high)
  | inr there ↦
      let same : i ≡ suc s = ground (arith, there, before) in
      let few : e / 2 ^ i < 1 =
        (div-lt_iff_lt-mul (one-le-pow i 2 (omega arith))).1
          (omega (arith, high, ap (λ (t : ℕ). 2 ^ t) same)) in
      let stop : (e / 2 ^ i == 0) ≡ true = ground (arith, few) in rw (stop, bits_of) same
]

bits_of-ge : (fuel e i : ℕ) → i ≤ bits_of fuel e i
unfolding bits_of
bits_of-ge zero e i = omega arith
bits_of-ge (suc fuel) e i = ground (arith, bits_of-ge fuel e (i + 1))

exponent-lt : (e k len : ℕ) → 2 ^ e ≤ len → len < 2 ^ k → e < k
exponent-lt e k len low high = elim (Bool-cases (ltb e k)) [
  | inl t ↦ ground (arith, t)
  | inr f ↦ absurd (omega (arith, low, high, pow-le k e (ground (arith, f))))
]

-- Below 2 ^ 37 the shift stays in an int.
pub pad_bits_fits : (len : ℕ) → 8 < len → len < 2 ^ 37 → pad_bits len < 31
unfolding pad_bits
pad_bits_fits len long small =
    let e = floor_log 64 len 0 in
    let below : e < 37 =
      exponent-lt e 37 len (floor_log_pow 64 len 0 (omega (arith, long))) small in
    elim (Bool-cases (ltb e 32)) [
      | inl t ↦ ground (arith, t, bits_of-ge 64 e 1)
      | inr f ↦
          let six : bits_of 64 e 1 ≡ 6 =
            bits_of_lem 64 e 1 5 (omega arith) (omega arith) (ground (arith, f))
              (omega (arith, below)) in
          omega (arith, six, below)
    ]

-- What `E` and `S` are: the logarithms of the length and of `E`, rounded down, and one more.
pub pad_bits_lem :
    (len e s : ℕ)
    → len < 2 ^ 37
    → 2 ^ e ≤ len
    → len < 2 ^ suc e
    → 2 ^ s ≤ e
    → e < 2 ^ suc s
    → pad_bits len ≡ e - suc s
unfolding pad_bits
pad_bits_lem len e s small low high low' high' =
    let few : e < 37 = exponent-lt e 37 len low small in
    let fewer : s < 6 = exponent-lt s 6 e low' (omega (arith, few)) in
    let is_e : floor_log 64 len 0 ≡ e =
      floor_log_lem 64 len 0 e (omega arith) (omega (arith, few)) low high in
    let is_s : bits_of 64 e 1 ≡ suc s =
      bits_of_lem 64 e 1 s (omega arith) (omega (arith, fewer)) low' high' in
    rw (is_e, is_s) refl

pub lt-pow : (n : ℕ) → n < 2 ^ n
lt-pow zero = omega arith
lt-pow (suc n) = omega (arith, lt-pow n, pow-suc 2 n)
