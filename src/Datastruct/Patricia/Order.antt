-- ===== src/Datastruct/Patricia/Order.antt =====
-- The order of the entries: each key is less than those after it.
use tarsnap.Base.{
  ℕ, ◌-◌, ◌*◌, ◌/◌, ◌^◌, ◌<◌, ◌≡◌, inl, inr, refl, sym, ap, ap₂, ◌∙◌, ==_iff, Bool, true, false,
  not, none, some, List, [], ◌∷◌, ◌++◌, arith, ◌==◌, ltb, if◌then◌else◌, length, append-nil,
}
use mathlib.Core.List.Memᴰ
use mathlib.Core.List.{Memᴰ}
use native.Mathlib.Nat.{pow-suc, one-le-pow}
use tarsnap.Base.Bits.Xor.{div_pow}
use tarsnap.Datastruct.Patricia.{Tree, null, node, Kids, stop, fork}
use tarsnap.Datastruct.Patricia.Digits.{bit, test_bit}
use tarsnap.Datastruct.Patricia.Find.{find}
use tarsnap.Datastruct.Patricia.Sound.{
  IsSound, IsSoundKids, IsBelow, on_left, on_right, agrees, zero_at,
}
use tarsnap.Datastruct.Patricia.Walk.{entries, entries_kids}
use native.Mathlib.Nat.{div-mul-le_self, div-lt_iff_lt-mul}
use tarsnap.Datastruct.Patricia.Entries.{both, of_not, starts_below, entries-find}

-- The lexicographical order of strings of bytes.
abbrev pub less : List ℕ → List ℕ → Bool
less x [] = false
less [] (b ∷ y) = true
less (a ∷ x) (b ∷ y) = if ltb a b then true else if a == b then less x y else false

less_common : (p x y : List ℕ) → less (p ++ x) (p ++ y) ≡ less x y
less_common [] x y = refl
less_common (a ∷ p) x y = ground (arith, less_common p x y)

-- A byte on the left is less than one on the right.
byte_less :
    (j high b b' : ℕ) → on_left (2 ^ j) high b ≡ true → on_right (2 ^ j) high b' ≡ true → b < b'
byte_less j high b b' left right =
    let mask = 2 ^ j in
    let (agree, zero_b) = both (agrees mask high b) (zero_at mask b) left in
    let (agree', other) = both (agrees mask high b') (not (zero_at mask b')) right in
    let same : b / (mask * 2) ≡ b' / (mask * 2) =
      (==_iff (b / (mask * 2)) (high / (mask * 2))).0 agree
      ∙ sym ((==_iff (b' / (mask * 2)) (high / (mask * 2))).0 agree') in
    let half : (a : ℕ) → a / (mask * 2) ≡ a / 2 ^ j / 2 =
      λ a. ap (λ (n : ℕ). a / n) (sym (pow-suc 2 j)) ∙ div_pow j a in
    let halves : b / 2 ^ j / 2 ≡ b' / 2 ^ j / 2 = sym (half b) ∙ same ∙ half b' in
    let bit_b : bit j b ≡ 0 = (==_iff (bit j b) 0).0 (sym (test_bit j b) ∙ zero_b) in
    let bit_b' : (bit j b' == 0) ≡ false = sym (test_bit j b') ∙ of_not (zero_at mask b') other in
    let below : b / 2 ^ j < b' / 2 ^ j = ground (arith, halves, bit_b, bit_b') in
    omega (
      arith,
      (div-lt_iff_lt-mul (one-le-pow j 2 (omega arith))).0 below,
      div-mul-le_self b' (2 ^ j),
    )

module _ {R : Type 0} where
  abbrev pub IsAscending : List (List ℕ × R) → Type 0
  IsAscending [] = Unit {0}
  IsAscending (x ∷ xs) = ((y : List ℕ × R) → Memᴰ y xs → less x.0 y.0 ≡ true) × IsAscending xs

  IsAscending-append :
      (xs ys : List (List ℕ × R))
      → IsAscending xs
      → IsAscending ys
      → ((x y : List ℕ × R) → Memᴰ x xs → Memᴰ y ys → less x.0 y.0 ≡ true)
      → IsAscending (xs ++ ys)
  IsAscending-append [] ys asc_x asc_y between = asc_y
  IsAscending-append (x ∷ xs) ys (first, asc_x) asc_y between = (
    λ y m. elim (Memᴰ.append_cases xs m) [
      | inl m ↦ first y m
      | inr m ↦ between x y (Memᴰ.head refl) m
    ],
    IsAscending-append xs ys asc_x asc_y (λ x y m. between x y (Memᴰ.tail m)),
  )

  after_stop :
      (prefix : List ℕ) (right : Tree R) (y : List ℕ × R)
      → find right [] ≡ none
      → (key : List ℕ) × (y.0 ≡ prefix ++ key) × (find right key ≡ some y.1)
      → less prefix y.0 ≡ true
  after_stop prefix right y at_end ([], is, found) = absurd (cc)
  after_stop prefix right y at_end (b ∷ key, is, found) =
      ap (less prefix) is
      ∙ ap (λ (l : List ℕ). less l (prefix ++ (b ∷ key))) (sym (append-nil prefix))
      ∙ less_common prefix [] (b ∷ key)

  across :
      (prefix : List ℕ) (mask high : ℕ) (left right : Tree R) (x y : List ℕ × R)
      → (j : ℕ) × (j < 8) × (mask ≡ 2 ^ j)
      → IsBelow (on_left mask high) left
      → IsBelow (on_right mask high) right
      → (key : List ℕ) × (x.0 ≡ prefix ++ key) × (find left key ≡ some x.1)
      → (key : List ℕ) × (y.0 ≡ prefix ++ key) × (find right key ≡ some y.1)
      → less x.0 y.0 ≡ true
  across prefix mask high left right x y (j, lt, is_mask) below_left below_right (key, is, found)
        (key', is', found') =
      let (b, rest, is_b, takes) = starts_below (on_left mask high) left key x.1 below_left found in
      let (b', rest', is_b', takes') =
        starts_below (on_right mask high) right key' y.1 below_right found' in
      let first : b < b' =
        byte_less j high b b' (ap (λ (m : ℕ). on_left m high b) (sym is_mask) ∙ takes)
          (ap (λ (m : ℕ). on_right m high b') (sym is_mask) ∙ takes') in
      let before : less (b ∷ rest) (b' ∷ rest') ≡ true = ground (arith, first) in
      ap₂ less (is ∙ ap (◌++◌ prefix) is_b) (is' ∙ ap (◌++◌ prefix) is_b')
      ∙ less_common prefix (b ∷ rest) (b' ∷ rest')
      ∙ before

  mutual
    unfolding entries IsSound

    pub entries-IsAscending :
        (n : ℕ) (prefix : List ℕ) (t : Tree R) → IsSound n t → IsAscending (entries prefix t)
    entries-IsAscending n prefix null sound = tt
    entries-IsAscending n prefix (node s kids) (short, bytes, within, sound) =
        entries_kids-IsAscending (n - length s) (prefix ++ s) kids sound

    entries_kids-IsAscending :
        (n : ℕ) (prefix : List ℕ) (kids : Kids R)
        → IsSoundKids n kids
        → IsAscending (entries_kids prefix kids)
    entries_kids-IsAscending n prefix (stop none right) (at_end, sound) =
        entries-IsAscending n prefix right sound
    entries_kids-IsAscending n prefix (stop (some r) right) (at_end, sound) = (
      λ y m. after_stop prefix right y at_end (entries-find n prefix right y sound m),
      entries-IsAscending n prefix right sound,
    )
    entries_kids-IsAscending n prefix (fork mask high left right)
          (masked, small, below_left, below_right, sound_left, sound_right) =
        IsAscending-append (entries prefix left) (entries prefix right)
          (entries-IsAscending n prefix left sound_left)
          (entries-IsAscending n prefix right sound_right)
          (λ x y m m'.
            across prefix mask high left right x y masked below_left below_right
              (entries-find n prefix left x sound_left m)
              (entries-find n prefix right y sound_right m'))
