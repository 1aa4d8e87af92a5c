-- ===== src/Multitape/Chunkify/Sizes.antt =====
-- The sizes that the chunkifier computes: the square root of its mean length, and its hash table's.
use tarsnap.Base.{
  ℕ, zero, suc, ◌+◌, ◌-◌, ◌*◌, ◌/◌, ◌%◌, ◌^◌, ◌≤◌, ◌<◌, ◌≡◌, refl, sym, ◌∙◌, inl, inr, arith, ltb,
  ◌==◌, Bool-cases,
}
use native.Mathlib.Nat.{mod-eq_of_lt, mul-le-mul_left, mul-le-mul_right, pow-suc, pow-le-pow_right}
use tarsnap.Multitape.Chunkify.{Chunkifier, isqrt, isqrt_from, table_size}
use tarsnap.Multitape.Chunkify.Root.{IsSized}

-- The loop from `y` on, whose predecessor's square is at most `x`.
isqrt_from_lem :
    (rounds x y : ℕ)
    → x < 2 ^ 32
    → y + 1 + rounds ≡ 65536
    → y * y ≤ x
    → (z : ℕ) × (isqrt_from rounds x (y + 1) ≡ z + 1) × (z * z ≤ x) × (x < (z + 1) * (z + 1))
unfolding isqrt_from
isqrt_from_lem zero x y small left le =
    let eq : y ≡ 65535 = omega (arith, left) in (y, refl, le, rw eq (omega (arith, small)))
isqrt_from_lem (suc rounds) x y small left le =
    let lt : y + 1 < 65536 = omega (arith, left) in
    let square : (y + 1) * (y + 1) % 2 ^ 32 ≡ (y + 1) * (y + 1) =
      mod-eq_of_lt (omega (arith, lt, mul-le-mul_left (y + 1) (lt), mul-le-mul_right 65536 (lt))) in
    elim (Bool-cases (ltb x ((y + 1) * (y + 1)))) [
      | inl over ↦ (y, rw (square, over) refl, le, ground (arith, over))
      | inr under ↦
          let le' : (y + 1) * (y + 1) ≤ x = ground (arith, under) in
          let (z, is, low, high) =
            isqrt_from_lem rounds x (y + 1) small (omega (arith, left)) le' in
          (z, rw (square, under) is, low, high)
    ]

-- `isqrt` is the integer square root of every 32-bit number.
pub isqrt_lem : (x : ℕ) → x < 2 ^ 32 → (isqrt x * isqrt x ≤ x) × (x < (isqrt x + 1) * (isqrt x + 1))
unfolding isqrt
isqrt_lem x small =
    let (z, is, low, high) = isqrt_from_lem 65535 x 0 small refl (omega arith) in
    let same : isqrt_from 65535 x 1 - 1 ≡ z = omega (arith, is) in rw same (low, high)

-- The loop that doubles the table, from a size of 2 ^ `n`: it ends with more than 4 ^ `n` * `i` as the
-- square of the size.
table_size_lem :
    (rounds i n : ℕ)
    → i < 4 ^ rounds
    → n + rounds ≤ 31
    → (m : ℕ) × (table_size rounds i (2 ^ n) ≡ 2 ^ m)
      × (n ≤ m)
      × (m ≤ n + rounds)
      × (2 ^ n * 2 ^ n * (i + 1) ≤ 2 ^ m * 2 ^ m)
unfolding table_size
table_size_lem zero i n few small =
    let none_left : i ≡ 0 = omega (arith, few) in
    (n, refl, omega arith, omega arith, rw none_left (omega arith))
table_size_lem (suc rounds) i n few small = elim (Bool-cases (i == 0)) [
  | inl stop ↦
      let none_left : i ≡ 0 = ground (arith, stop) in
      (n, rw stop refl, omega arith, omega arith, rw none_left (omega arith))
  | inr more ↦
      let twice : 2 ^ suc n ≡ 2 ^ n * 2 = pow-suc 2 n in
      let bound : 2 ^ suc n ≤ 2 ^ 31 =
        let le : suc n ≤ 31 = omega (arith, small) in pow-le-pow_right (omega arith) le in
      let double : 2 ^ n * 2 % 2 ^ 32 ≡ 2 ^ suc n =
        mod-eq_of_lt (omega (arith, bound, twice)) ∙ sym twice in
      let (m, is, low, high, square) =
        table_size_lem rounds (i / 4) (suc n) (omega (arith, few, pow-suc 4 rounds))
          (omega (arith, small)) in
      let squares : 2 ^ n * 2 * (2 ^ n * 2) * (i / 4 + 1) ≤ 2 ^ m * 2 ^ m = rw (← twice) square in
      (
        m,
        rw (more, double) is,
        omega (arith, low),
        omega (arith, high),
        omega (arith, squares, mul-le-mul_left (2 ^ n * 2 ^ n) (next i)),
      )
]
  where
    next : (i : ℕ) → i + 1 ≤ 4 * (i / 4 + 1)
    next i = omega arith

-- The sizes that `chunkify_init` computes fit the 32 bits, and the square of the table's size
-- exceeds 16 * (4 * maxlen - meanlen).
pub init-IsSized :
    (c : Chunkifier)
    → c.mu ≤ 1262226
    → c.mu < c.blen
    → c.blen ≤ 2 ^ 31
    → c.htlen ≡ table_size 16 (c.blen - c.mu / 4) 8
    → IsSized c
init-IsSized c mean below fits is =
    let (m, size, low, high, square) =
      table_size_lem 16 (c.blen - c.mu / 4) 3 (omega (arith, fits)) (omega arith) in
    let width : c.htlen ≡ 2 ^ m = is ∙ size in
    record {
      mean = omega (arith, mean);
      below = below;
      buffer =
          let le : 2 ^ m ≤ 2 ^ 19 = pow-le-pow_right (omega arith) high in
          omega (arith, width, le, fits);
      width = m;
      table = width;
      wide =
          let le : 2 ^ 3 ≤ 2 ^ m = pow-le-pow_right (omega arith) low in omega (arith, width, le);
      holds = rw width (omega (arith, square, below));
    }
