-- ===== src/Datastruct/Patricia/Reshape.antt =====
-- Splitting a node of a sound tree: the two new nodes are sound.
use tarsnap.Base.{
  ℕ, suc, ◌+◌, ◌-◌, ◌*◌, ◌/◌, ◌%◌, ◌^◌, ◌<◌, ◌≡◌, ◌≢◌, inl, inr, refl, sym, ap, subst, ◌∙◌, bit_and,
  Bool, true, false, none, List, [], ◌∷◌, ◌++◌, arith, ◌==◌, Bool-cases, length, get_or,
  length-append,
}
use native.Mathlib.Nat.{pow-suc, one-le-pow, mul-div_cancel, div-mul-le_self}
use tarsnap.Base.Bits.Xor.{div_pow}
use tarsnap.Datastruct.Patricia.{Tree, null, node, Kids, above, mask_of, high_of, upper}
use tarsnap.Datastruct.Patricia.Digits.{Differ, bit, test_bit, bit_and-above}
use tarsnap.Datastruct.Patricia.Find.{find}
use tarsnap.Datastruct.Patricia.Compare.{IsBytes, Apart, Parts}
use tarsnap.Datastruct.Patricia.Sound.{IsSound, IsSoundKids, IsBelow, on_left, on_right}
use tarsnap.Datastruct.Patricia.Lookup.{IsBytes-after}
use tarsnap.Datastruct.Patricia.Split.{miss_end, miss-Next, Next-end, upper_at}

pub IsBytes-before : (s t : List ℕ) → IsBytes (s ++ t) → IsBytes s
IsBytes-before [] t bytes = tt
IsBytes-before (a ∷ s) t (small, bytes) = (small, IsBytes-before s t bytes)

-- The high bits that a split keeps of a byte.
pub kept_high :
    (b e : ℕ) → b < 2 ^ 8 → e < 8 → bit_and b (above (2 ^ e)) / 2 ^ suc e ≡ b / 2 ^ suc e
kept_high b e small lt =
    ap (λ (n : ℕ). n / 2 ^ suc e) (bit_and-above e b lt small)
    ∙ mul-div_cancel (b / 2 ^ suc e) (one-le-pow (suc e) 2 (omega arith))

kept_small : (b e : ℕ) → b < 2 ^ 8 → e < 8 → bit_and b (above (2 ^ e)) < 2 ^ 8
kept_small b e small lt = omega (arith, bit_and-above e b lt small, div-mul-le_self b (2 ^ suc e))

-- A byte with the digits of `c` from the place `e` on is on its side.
same_side :
    (b c e b' : ℕ)
    → b < 2 ^ 8
    → Differ e c b
    → b' / 2 ^ e ≡ c / 2 ^ e
    → (b' / (2 ^ e * 2) == bit_and b (above (2 ^ e)) / (2 ^ e * 2)) ≡ true
      × ((bit_and b' (2 ^ e) == 0) ≡ (bit e c == 0))
same_side b c e b' small d same =
    let high : b' / 2 ^ suc e ≡ bit_and b (above (2 ^ e)) / 2 ^ suc e =
      div_pow e b'
      ∙ ap (λ (n : ℕ). n / 2) same
      ∙ sym (div_pow e c)
      ∙ d.agree
      ∙ sym (kept_high b e small d.place) in
    (rw (sym (pow-suc 2 e), high) (ground arith), test_bit e b' ∙ ap (λ (n : ℕ). n % 2 == 0) same)

false≢true : false ≢ true
false≢true e = cc

module _ {R : Type 0} where
  IsBelow-null : (test : ℕ → Bool) → IsBelow {R = R} test null
  unfolding find
  IsBelow-null test = (refl, λ b key h. refl)

  -- The lower node on either side of the upper one.
  IsBelow-low :
      (b c e : ℕ) (low : Tree R)
      → b < 2 ^ 8
      → Differ e c b
      → find low [] ≡ none
      → ((b' : ℕ) (key : List ℕ) → b' / 2 ^ e ≢ c / 2 ^ e → find low (b' ∷ key) ≡ none)
      → let high = bit_and b (above (2 ^ e)) in
        ((bit e c == 0) ≡ true → IsBelow (on_left (2 ^ e) high) low)
        × ((bit e c == 0) ≡ false → IsBelow (on_right (2 ^ e) high) low)
  IsBelow-low b c e low small d at_end misses = (
    λ side. (
      at_end,
      λ b' key off. misses b' key (λ same.
          let (agree, test) = same_side b c e b' small d same in
          false≢true (sym off ∙ (rw (agree, test, side) refl))),
    ),
    λ side. (
      at_end,
      λ b' key off. misses b' key (λ same.
          let (agree, test) = same_side b c e b' small d same in
          false≢true (sym off ∙ (rw (agree, test, side) refl))),
    ),
  )

  upper-IsSound :
      (n : ℕ) (s : List ℕ) (kids : Kids R) (key : List ℕ) (m : ℕ)
      → Apart (mask_of kids) (high_of kids) s key m
      → IsSound n (node s kids)
      → IsSoundKids n (upper m (get_or key 0 0) (node s kids))
  unfolding IsSoundKids upper
  upper-IsSound n s kids key m (inl (is, zero_m, h)) sound = rw zero_m (miss_end s kids h, sound)
  upper-IsSound n s kids key m (inr (b, key', c, e, is, small, pow, d, next)) sound =
      let at_end = miss_end s kids (Next-end s kids c e next) in
      let (left, right) =
        IsBelow-low b c e (node s kids) small d at_end (miss-Next s kids c e next) in
      rw (is, pow, upper_at b e (node s kids))
        (elim (Bool-cases (bit e b == 0)) [
          | inl zero_bit ↦
              let side : (bit e c == 0) ≡ false = elim (Bool-cases (bit e c == 0)) [
                | inl t ↦ absurd (d.differ (ground (arith, t, zero_bit)))
                | inr t ↦ t
              ] in
              rw zero_bit (
                (e, d.place, refl),
                kept_small b e small d.place,
                IsBelow-null (on_left (2 ^ e) (bit_and b (above (2 ^ e)))),
                right side,
                tt,
                sound,
              )
          | inr one_bit ↦
              let side : (bit e c == 0) ≡ true = elim (Bool-cases (bit e c == 0)) [
                | inl t ↦ t
                | inr t ↦ absurd (d.differ (ground (arith, t, one_bit)))
              ] in
              rw one_bit (
                (e, d.place, refl),
                kept_small b e small d.place,
                left side,
                IsBelow-null (on_right (2 ^ e) (bit_and b (above (2 ^ e)))),
                sound,
                tt,
              )
        ])

  pub split-IsSound :
      (n : ℕ) (s : List ℕ) (kids : Kids R) (key : List ℕ) (m : ℕ)
      → (parts : Parts (mask_of kids) (high_of kids) s key m) → IsSound n (node s kids)
      → IsSound n (node parts.common (upper m (get_or parts.rest 0 0) (node parts.low kids)))
  unfolding IsSound
  split-IsSound n s kids key m parts (short, bytes, within, sound) =
      let total : length s ≡ length parts.common + length parts.low =
        ap length parts.node_is ∙ length-append parts.common parts.low in
      let parted = subst IsBytes parts.node_is bytes in
      let below : n - length parts.common - length parts.low ≡ n - length s =
        omega (arith, total) in
      (
        omega (arith, short, total),
        IsBytes-before parts.common parts.low parted,
        omega (arith, within, total),
        upper-IsSound (n - length parts.common) parts.low kids parts.rest m parts.apart (
          omega (arith, short, total),
          IsBytes-after parts.common parts.low parted,
          omega (arith, within, total),
          subst (λ (l : ℕ). IsSoundKids l kids) (sym below) sound,
        ),
      )
