-- ===== src/Datastruct/Patricia/Digits.antt =====
-- The bits of a byte from a place on, which the masks of the nodes single out.
use tarsnap.Base.{
  ℕ, zero, suc, ◌+◌, ◌-◌, ◌*◌, ◌/◌, ◌%◌, ◌^◌, ◌≤◌, ◌<◌, ◌≡◌, ◌≢◌, ◌⊎◌, inl, inr, refl, sym, ap,
  subst, ◌∙◌, bit_and, bit_xor, arith, ◌==◌, Bool-cases, ltb,
}
use tarsnap.Base.Bits.{bit_and_high, bit_and_mask, bit_and-one}
use tarsnap.Base.Bits.Xor.{div_pow, bit_xor-div, bit_xor-one, eq_of_bit_xor, bit_xor_self}
use native.Mathlib.Nat.{
  pow-suc, one-le-pow, mod-eq_of_lt, div-lt_iff_lt-mul, zero-div, mul-div_cancel,
}
use tarsnap.Datastruct.Patricia.{above, critical}

-- The bit of place `j`.
abbrev pub bit : ℕ → ℕ → ℕ
bit j a = a / 2 ^ j % 2

-- A mask tests its bit.
pub bit_and-bit : (j a : ℕ) → bit_and a (2 ^ j) ≡ bit j a * 2 ^ j
bit_and-bit j a =
    ap (λ (m : ℕ). bit_and a m) (omega arith)
    ∙ bit_and_high j a 1
    ∙ ap (λ (n : ℕ). n * 2 ^ j) (bit_and-one (a / 2 ^ j))

pub test_bit : (j a : ℕ) → (bit_and a (2 ^ j) == 0) ≡ (bit j a == 0)
test_bit j a = elim (Bool-cases (bit j a == 0)) [
  | inl zero_bit ↦
      let is_zero : bit j a ≡ 0 = ground (arith, zero_bit) in
      let none_there : bit_and a (2 ^ j) ≡ 0 =
        bit_and-bit j a ∙ ap (λ (n : ℕ). n * 2 ^ j) is_zero ∙ omega arith in
      rw (is_zero, none_there) refl
  | inr one_bit ↦
      let is_one : bit j a ≡ 1 = ground (arith, one_bit) in
      let there : bit_and a (2 ^ j) ≡ 2 ^ j =
        bit_and-bit j a ∙ ap (λ (n : ℕ). n * 2 ^ j) is_one ∙ omega arith in
      let positive : 1 ≤ 2 ^ j = one-le-pow j 2 (omega arith) in
      rw (is_one, there) (ground (arith, positive))
]

agree_after : (j d a b : ℕ) → a / 2 ^ j ≡ b / 2 ^ j → a / 2 ^ (d + j) ≡ b / 2 ^ (d + j)
agree_after j zero a b h = let here : 0 + j ≡ j = omega arith in rw here h
agree_after j (suc d) a b h =
    let next : suc d + j ≡ suc (d + j) = omega arith in
    rw next
      (div_pow (d + j) a ∙ ap (λ (n : ℕ). n / 2) (agree_after j d a b h) ∙ sym (div_pow (d + j) b))

-- Numbers that agree from a place on agree from a later one on.
pub agree_later : (j e a b : ℕ) → j ≤ e → a / 2 ^ j ≡ b / 2 ^ j → a / 2 ^ e ≡ b / 2 ^ e
agree_later j e a b le h =
    let way : e - j + j ≡ e = omega arith in
    subst (λ (n : ℕ). a / 2 ^ n ≡ b / 2 ^ n) way (agree_after j (e - j) a b h)

-- The loop of `critical` finds the highest bit.
critical_from :
    (j mm : ℕ)
    → 0 < mm
    → mm / 2 ^ suc j ≡ 0
    → (i : ℕ) × (i ≤ j) × (critical (suc j) (2 ^ j) mm ≡ 2 ^ i) × (mm / 2 ^ i ≡ 1)
unfolding critical
critical_from zero mm some_bit top = elim (Bool-cases (bit 0 mm == 0)) [
  | inl zero_bit ↦ absurd (ground (arith, some_bit, top, zero_bit))
  | inr one_bit ↦ (0, omega arith, rw (test_bit 0 mm, one_bit) refl, ground (arith, top))
]
critical_from (suc j) mm some_bit top =
    let halves : mm / 2 ^ suc j / 2 ≡ 0 = sym (div_pow (suc j) mm) ∙ top in
    elim (Bool-cases (bit (suc j) mm == 0)) [
      | inl zero_bit ↦
          let lower : mm / 2 ^ suc j ≡ 0 = ground (arith, zero_bit, halves) in
          let (i, le, is, one) = critical_from j mm some_bit lower in
          let half : 2 ^ suc j / 2 ≡ 2 ^ j = omega (arith, pow-suc 2 j) in
          (i, omega (arith, le), rw (test_bit (suc j) mm, zero_bit, half) is, one)
      | inr one_bit ↦ (
        suc j,
        omega arith,
        rw (test_bit (suc j) mm, one_bit) refl,
        ground (arith, one_bit, halves),
      )
    ]

-- Where two bytes differ first: from the place after it on they agree, at it they differ.
pub record Differ (i a b : ℕ) : Type 0 where
  pub place : i < 8
  pub agree : a / 2 ^ suc i ≡ b / 2 ^ suc i
  pub differ : bit i a ≢ bit i b

Differ-at : (i a b : ℕ) → i < 8 → bit_xor a b / 2 ^ i ≡ 1 → Differ i a b
Differ-at i a b lt one =
    let (same, other) = bit_xor-one (a / 2 ^ i) (b / 2 ^ i) (sym (bit_xor-div i a b) ∙ one) in
    record { place = lt; agree = div_pow i a ∙ same ∙ sym (div_pow i b); differ = other }

byte_xor : (a b : ℕ) → a < 2 ^ 8 → b < 2 ^ 8 → bit_xor a b / 2 ^ 8 ≡ 0
byte_xor a b p q =
    let low_a : a / 2 ^ 8 ≡ 0 = omega arith in
    let low_b : b / 2 ^ 8 ≡ 0 = omega arith in
    bit_xor-div 8 a b ∙ rw (low_a, low_b) (bit_xor_self 0 0 (omega arith))

pub critical-Differ :
    (a b : ℕ)
    → a < 2 ^ 8
    → b < 2 ^ 8
    → bit_xor a b ≢ 0
    → (i : ℕ) × (critical 8 (2 ^ 7) (bit_xor a b) ≡ 2 ^ i) × Differ i a b
critical-Differ a b p q some_bit =
    let (i, le, is, one) =
      critical_from 7 (bit_xor a b) (omega (arith, some_bit)) (byte_xor a b p q) in
    (i, is, Differ-at i a b (omega (arith, le)) one)

-- What is above a mask, and what of a number it keeps.
masks : (k j : ℕ) → j + k ≡ 7 → 2 ^ k * 2 ^ suc j ≡ 2 ^ 8
masks k zero h = let eq : k ≡ 7 = omega (arith, h) in rw eq refl
masks k (suc j) h =
    let up : 2 ^ suc (suc j) ≡ 2 ^ suc j * 2 = pow-suc 2 (suc j) in
    let down : 2 ^ suc k ≡ 2 ^ k * 2 = pow-suc 2 k in
    let before = masks (suc k) j (omega (arith, h)) in
    omega (arith, ap (λ (n : ℕ). 2 ^ k * n) up, ap (λ (n : ℕ). n * 2 ^ suc j) down, before)

above_lem : (k j : ℕ) → j + k ≡ 7 → above (2 ^ j) ≡ (2 ^ k - 1) * 2 ^ suc j
unfolding above
above_lem k j h =
    let double : 2 ^ suc j ≡ 2 ^ j * 2 = pow-suc 2 j in
    let some_p : 1 ≤ 2 ^ k = one-le-pow k 2 (omega arith) in
    let some_q : 1 ≤ 2 ^ j = one-le-pow j 2 (omega arith) in
    let one_more : 2 ^ k ≡ 2 ^ k - 1 + 1 = omega arith in
    let product : (2 ^ k - 1 + 1) * 2 ^ suc j ≡ 2 ^ 8 =
      ap (λ (n : ℕ). n * 2 ^ suc j) (sym one_more) ∙ masks k j h in
    let value : (2 ^ k - 1) * 2 ^ suc j + 2 ^ suc j ≡ 2 ^ 8 = omega (arith, product) in
    omega (arith, double, some_q, value)

pub bit_and-above :
    (j x : ℕ) → j < 8 → x < 2 ^ 8 → bit_and x (above (2 ^ j)) ≡ x / 2 ^ suc j * 2 ^ suc j
bit_and-above j x lt small =
    let k = 7 - j in
    ap (bit_and x) (above_lem k j (omega arith))
    ∙ bit_and_high (suc j) x (2 ^ k - 1)
    ∙ ap (λ (n : ℕ). n * 2 ^ suc j)
        (bit_and_mask k (x / 2 ^ suc j)
          ∙ mod-eq_of_lt (
              (div-lt_iff_lt-mul (one-le-pow (suc j) 2 (omega arith))).1
                (omega (arith, small, masks k j (omega arith)))))

zero_over : (k : ℕ) → 0 / 2 ^ k ≡ 0
zero_over k = zero-div (2 ^ k)

-- The high bits of a node with mask 2 ^ j agree with a byte, or differ first at a place after j.
pub compare_high-Differ :
    (j h b : ℕ)
    → j < 8
    → h < 2 ^ 8
    → b < 2 ^ 8
    → let mm = bit_and (bit_xor h b) (above (2 ^ j)) in
      ((mm ≡ 0) × (h / 2 ^ suc j ≡ b / 2 ^ suc j))
      ⊎ ((mm ≢ 0) × ((i : ℕ) × (j < i) × (critical 8 (2 ^ 7) mm ≡ 2 ^ i) × Differ i h b))
compare_high-Differ j h b lt p q =
    let x = bit_xor h b in
    let mm = bit_and x (above (2 ^ j)) in
    let y = x / 2 ^ suc j in
    let small : x < 2 ^ 8 = omega (arith, byte_xor h b p q) in
    let is : mm ≡ y * 2 ^ suc j = bit_and-above j x lt small in
    let some_p : 1 ≤ 2 ^ suc j = one-le-pow (suc j) 2 (omega arith) in
    let kept : mm / 2 ^ suc j ≡ y = ap (λ (n : ℕ). n / 2 ^ suc j) is ∙ mul-div_cancel y some_p in
    elim (Bool-cases (y == 0)) [
      | inl none_there ↦
          let zero_y : y ≡ 0 = ground (arith, none_there) in
          let same : bit_xor (h / 2 ^ suc j) (b / 2 ^ suc j) ≡ 0 =
            sym (bit_xor-div (suc j) h b) ∙ zero_y in
          inl (
            is ∙ ap (λ (n : ℕ). n * 2 ^ suc j) zero_y ∙ omega arith,
            eq_of_bit_xor (h / 2 ^ suc j + b / 2 ^ suc j) (h / 2 ^ suc j) (b / 2 ^ suc j)
                (omega arith) (omega arith) same,
          )
      | inr some_there ↦
          let positive : y ≢ 0 = λ e. ground (arith, some_there, e) in
          let nonzero : mm ≢ 0 =
            λ e. positive (sym kept ∙ ap (λ (n : ℕ). n / 2 ^ suc j) e ∙ zero_over (suc j)) in
          let (i, le, crit, one) =
            critical_from 7 mm (omega (arith, nonzero))
              (agree_later (suc j) 8 mm x (omega arith) kept ∙ byte_xor h b p q) in
          let later : j < i = elim (Bool-cases (ltb j i)) [
            | inl h ↦ ground (arith, h)
            | inr h ↦
                let le' : i ≤ j = ground (arith, h) in
                let low : mm / 2 ^ suc i ≡ 0 / 2 ^ suc i =
                  div_pow i mm ∙ ap (λ (n : ℕ). n / 2) one ∙ sym (zero_over (suc i)) in
                absurd (
                  positive (
                    sym kept
                    ∙ agree_later (suc i) (suc j) mm 0 (omega (arith, le')) low
                    ∙ zero_over (suc j)))
          ] in
          inr (
            nonzero,
            (
              i,
              later,
              crit,
              Differ-at i h b (omega (arith, le))
                  (agree_later (suc j) i x mm (omega (arith, later)) (sym kept) ∙ one),
            ),
          )
    ]
