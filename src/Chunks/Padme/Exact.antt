-- ===== src/Chunks/Padme/Exact.antt =====
-- How far `padme` pads a chunk.
use tarsnap.Base.{
  ℕ, suc, ◌+◌, ◌-◌, ◌*◌, ◌/◌, ◌%◌, ◌^◌, ◌<◌, ◌≤◌, bit_and, false, true, ◌≡◌, ap, sym, ◌∙◌, arith,
  ltb, leb, if◌then◌else◌, Bool-cases, inl, inr,
}
use tarsnap.Base.Bits.{bit_and_high, bit_and_mask}
use native.Mathlib.Nat.{one-le-pow, mod-eq_of_lt, div-add-mod, mod-lt, div-lt_iff_lt-mul}
use tarsnap.Base.{subst}
use tarsnap.Chunks.Padme.{padme, bitmask_of, pad_bits}
use tarsnap.Chunks.Padme.Bits.{
  pow-add, pred_mul, grow, pad_bits-le, pad_bits_small, pad_bits_fits, pad_bits_lem, lt-pow,
}

-- `x & ~(2 ^ b - 1)` rounds down to a multiple of `2 ^ b`.
round_down :
    (b x : ℕ) → b ≤ 64 → x < 2 ^ 64 → bit_and x (2 ^ 64 - 1 - (2 ^ b - 1)) ≡ x / 2 ^ b * 2 ^ b
round_down b x fits small =
    let c : ℕ = 64 - b in
    let whole : c + b ≡ 64 = omega arith in
    let split : 2 ^ c * 2 ^ b ≡ 2 ^ 64 = sym (pow-add c b) ∙ ap (λ (t : ℕ). 2 ^ t) whole in
    let mask : 2 ^ 64 - 1 - (2 ^ b - 1) ≡ (2 ^ c - 1) * 2 ^ b = omega (
      arith,
      split,
      pred_mul (2 ^ c) (2 ^ b) (one-le-pow c 2 (omega arith)),
      one-le-pow b 2 (omega arith),
    ) in
    let small' : x / 2 ^ b < 2 ^ c =
      (div-lt_iff_lt-mul (one-le-pow b 2 (omega arith))).1 (omega (arith, split)) in
    ap (bit_and x) mask
    ∙ bit_and_high b x (2 ^ c - 1)
    ∙ ap (λ (t : ℕ). t * 2 ^ b) (bit_and_mask c (x / 2 ^ b) ∙ mod-eq_of_lt small')

-- The padded length is the least multiple that holds the chunk, or the buffer's.
padme-pad_bits :
    (undefined : ℕ → ℕ) (len maxlen : ℕ)
    → 8 < len
    → len ≤ maxlen
    → maxlen < 2 ^ 37
    → let unit = 2 ^ pad_bits len in
      let up = (len + (unit - 1)) / unit * unit in
      padme undefined len maxlen ≡ (if ltb maxlen up then maxlen else up) - len
unfolding padme bitmask_of
padme-pad_bits undefined len maxlen long fits small =
    let b = pad_bits len in
    let in_int : ltb b 31 ≡ true =
      ground (arith, pad_bits_fits len long (omega (arith, fits, small))) in
    let unit : 2 ^ b ≤ len = pad_bits_small len (omega arith) in
    let above_8 : leb len 8 ≡ false = ground (arith, long) in
    let x = len + (2 ^ b - 1) in
    let no_wrap : x % 2 ^ 64 ≡ x = omega (arith, unit, fits, small) in
    let down = round_down b x (pad_bits-le len) (omega (arith, unit, fits, small)) in
    let whole : len ≤ x / 2 ^ b * 2 ^ b =
      omega (arith, div-add-mod x (2 ^ b), mod-lt x (one-le-pow b 2 (omega arith))) in
    let near : x / 2 ^ b * 2 ^ b ≤ x = omega (arith, div-add-mod x (2 ^ b)) in
    rw (above_8, in_int, no_wrap, down, padme, bitmask_of)
      (ground (arith, whole, near, unit, fits, small))

none_added :
    (undefined : ℕ → ℕ) (len maxlen : ℕ)
    → leb len 8 ≡ true
    → len ≤ maxlen
    → len + padme undefined len maxlen ≤ maxlen
unfolding padme
none_added undefined len maxlen short fits = rw (short, padme) (omega (arith, fits))

-- Padding never takes a chunk past the buffer.
pub padme-le :
    (undefined : ℕ → ℕ) (len maxlen : ℕ)
    → len ≤ maxlen
    → maxlen < 2 ^ 37
    → len + padme undefined len maxlen ≤ maxlen
padme-le undefined len maxlen fits small = elim (Bool-cases (leb len 8)) [
  | inl short ↦ none_added undefined len maxlen short fits
  | inr long ↦
      let is = padme-pad_bits undefined len maxlen (ground (arith, long)) fits small in
      ground (arith, is, fits)
]

-- With `E` the logarithm of the length and `S` one more than that of `E`, both rounded down, a chunk
-- of more than 8 bytes is padded to the least multiple of 2 ^ (E - S) that holds it, or to the end of
-- the buffer where that is first, and by less than the part 1 / 2 ^ S of its length. The buffer is
-- shorter than 2 ^ 37 bytes, so that no shift leaves the range of an int.
pub padme_lem :
    (undefined : ℕ → ℕ) (len maxlen e s : ℕ)
    → 8 < len
    → len ≤ maxlen
    → maxlen < 2 ^ 37
    → 2 ^ e ≤ len
    → len < 2 ^ suc e
    → 2 ^ s ≤ e
    → e < 2 ^ suc s
    → let unit = 2 ^ (e - suc s) in
      let up = (len + (unit - 1)) / unit * unit in
      (len + padme undefined len maxlen ≡ (if ltb maxlen up then maxlen else up))
      × (padme undefined len maxlen * 2 ^ suc s < len)
padme_lem undefined len maxlen e s long fits small low high low' high' =
    let unit = 2 ^ (e - suc s) in
    let up = (len + (unit - 1)) / unit * unit in
    let bits = pad_bits_lem len e s (omega (arith, fits, small)) low high low' high' in
    let is : padme undefined len maxlen ≡ (if ltb maxlen up then maxlen else up) - len =
      subst
        (λ (b : ℕ).
          padme undefined len maxlen
          ≡ (if ltb maxlen ((len + (2 ^ b - 1)) / 2 ^ b * 2 ^ b)
              then maxlen
              else (len + (2 ^ b - 1)) / 2 ^ b * 2 ^ b)
            - len)
        bits (padme-pad_bits undefined len maxlen long fits small) in
    let some_unit : 1 ≤ unit = one-le-pow (e - suc s) 2 (omega arith) in
    let whole : len ≤ up =
      omega (arith, div-add-mod (len + (unit - 1)) unit, mod-lt (len + (unit - 1)) some_unit) in
    let near : up ≤ len + (unit - 1) = omega (arith, div-add-mod (len + (unit - 1)) unit) in
    let less : padme undefined len maxlen + 1 ≤ unit =
      ground (arith, is, near, whole, fits, some_unit) in
    let parts : e - suc s + suc s ≡ e = omega (arith, lt-pow s, low') in
    let product : unit * 2 ^ suc s ≡ 2 ^ e =
      sym (pow-add (e - suc s) (suc s)) ∙ ap (λ (t : ℕ). 2 ^ t) parts in
    (
      ground (arith, is, whole, fits),
      omega (arith, grow unit (2 ^ suc s) less, product, low, one-le-pow (suc s) 2 (omega arith)),
    )
