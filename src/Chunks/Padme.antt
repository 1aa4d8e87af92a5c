-- ===== src/Chunks/Padme.antt =====
-- `padme` of tar/chunks/chunks_write.c: how much a compressed chunk is padded.
pub mod Bits
pub mod Exact
use tarsnap.Base.{
  ℕ, zero, suc, ◌+◌, ◌-◌, ◌*◌, ◌/◌, ◌%◌, ◌^◌, ◌<◌, ◌≤◌, bit_and, false, true, ◌≡◌, ap, sym, ◌∙◌,
  arith, ltb, leb, ◌==◌, if◌then◌else◌, Bool-cases, inl, inr, ◌⊎◌,
}
use tarsnap.Base.Bits.{bit_and_high, bit_and_mask}
use native.Mathlib.Numerals.{add-one}
use native.Mathlib.Nat.{
  pow-suc, one-le-pow, mod-eq_of_lt, zero-add, suc-add, div-add-mod, mod-lt, mul-mod_left,
  div-lt_iff_lt-mul, le-div_iff_mul-le,
}

-- `for (e = 0; ; e++) if ((len >> e) < 2) break;` A size_t has 64 bits, so 64 rounds are enough.
unfoldable pub floor_log : ℕ → ℕ → ℕ → ℕ
floor_log zero len e = e
floor_log (suc fuel) len e =
    let next = floor_log fuel len (e + 1) in if ltb (len / 2 ^ e) 2 then e else next

-- `for (s = 1; ; s++) if ((e >> s) == 0) break;`
unfoldable pub bits_of : ℕ → ℕ → ℕ → ℕ
bits_of zero e s = s
bits_of (suc fuel) e s = let next = bits_of fuel e (s + 1) in if e / 2 ^ s == 0 then s else next

-- The number of low bits that padding clears: `e - s`.
unfoldable pub pad_bits : ℕ → ℕ
pad_bits len = let e = floor_log 64 len 0 in e - bits_of 64 e 1

-- `(1 << (e - s)) - 1` is computed in an int of 32 bits. From a shift of 31 on C leaves it undefined,
-- and `undefined` is what becomes of it.
unfoldable pub bitmask_of : (ℕ → ℕ) → ℕ → ℕ
bitmask_of undefined n = if ltb n 31 then 2 ^ n - 1 else undefined n

-- In size_t, of which `~bitmask` is `2 ^ 64 - 1 - bitmask`.
unfoldable pub padme : (ℕ → ℕ) → ℕ → ℕ → ℕ
padme undefined len maxlen =
    if leb len 8
    then 0
    else (let bitmask = bitmask_of undefined (pad_bits len) in
        let plen = bit_and ((len + bitmask) % 2 ^ 64) (2 ^ 64 - 1 - bitmask) in
        ((if ltb maxlen plen then maxlen else plen) + 2 ^ 64 - len) % 2 ^ 64)
