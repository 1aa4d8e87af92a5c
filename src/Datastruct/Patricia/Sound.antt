-- ===== src/Datastruct/Patricia/Sound.antt =====
-- The invariant of the tree: nodes of bytes, masks of one bit, and children that hold only the keys
-- their side of the mask has.
use tarsnap.Base.{
  ℕ, ◌-◌, ◌*◌, ◌/◌, ◌^◌, ◌≤◌, ◌<◌, ◌≡◌, ◌⊎◌, inl, inr, refl, ap, ◌∙◌, bit_and, Bool, false, not,
  ◌&&◌, none, some, List, [], ◌∷◌, arith, ◌==◌, length,
}
use tarsnap.Datastruct.Patricia.{Tree, null, node, Kids, stop, fork, mask_of, high_of, compare}
use tarsnap.Datastruct.Patricia.Find.{find}
use tarsnap.Datastruct.Patricia.Compare.{IsBytes, IsMask, Fits, Parts, compare_from_lem}

-- Whether a byte has a node's high bits, the child it takes, and both.
abbrev pub agrees : ℕ → ℕ → ℕ → Bool
agrees mask high b = b / (mask * 2) == high / (mask * 2)

abbrev pub zero_at : ℕ → ℕ → Bool
zero_at mask b = bit_and b mask == 0

abbrev pub on_left : ℕ → ℕ → ℕ → Bool
on_left mask high b = agrees mask high b && zero_at mask b

abbrev pub on_right : ℕ → ℕ → ℕ → Bool
on_right mask high b = agrees mask high b && not (zero_at mask b)

module _ {R : Type 0} where
  -- The keys of a child all start with a byte that the test takes.
  abbrev pub IsBelow : (ℕ → Bool) → Tree R → Type 0
  IsBelow test t =
      (find t [] ≡ none) × ((b : ℕ) (key : List ℕ) → test b ≡ false → find t (b ∷ key) ≡ none)

  unfoldable mutual
    -- A tree whose paths have at most `n` bytes.
    pub IsSound : ℕ → Tree R → Type 0
    IsSound n null = Unit {0}
    IsSound n (node s kids) =
        (length s < 2 ^ 8) × IsBytes s × (length s ≤ n) × IsSoundKids (n - length s) kids

    pub IsSoundKids : ℕ → Kids R → Type 0
    IsSoundKids n (stop left right) = (find right [] ≡ none) × IsSound n right
    IsSoundKids n (fork mask high left right) =
        ((j : ℕ) × (j < 8) × (mask ≡ 2 ^ j))
        × (high < 2 ^ 8)
        × IsBelow (on_left mask high) left
        × IsBelow (on_right mask high) right
        × IsSound n left
        × IsSound n right

  pub IsMask-mask_of :
      (n : ℕ) (kids : Kids R) → IsSoundKids n kids → IsMask (mask_of kids) × (high_of kids < 2 ^ 8)
  unfolding IsSoundKids
  IsMask-mask_of n (stop left right) sound = (inl refl, omega arith)
  IsMask-mask_of n (fork mask high left right)
        (masked, small, rest_left, rest_right, in_left, in_right) =
      (inr masked, small)

  pub compare_lem :
      (n : ℕ) (s : List ℕ) (kids : Kids R) (key : List ℕ)
      → IsSound n (node s kids)
      → IsBytes key
      → ((compare s kids key ≡ none) × Fits (mask_of kids) (high_of kids) s key)
        ⊎ ((m : ℕ) × (parts : Parts (mask_of kids) (high_of kids) s key m) × (compare s kids key
              ≡ some (length parts.common, m)))
  unfolding compare IsSound
  compare_lem n s kids key (lt, bytes, within, sound) bk =
      let (masked, small) = IsMask-mask_of (n - length s) kids sound in
      elim (compare_from_lem s (mask_of kids) (high_of kids) key 0 masked small bytes bk
        (omega (arith, lt))) [
          | inl same ↦ inl same
          | inr (m, parts, is) ↦ inr (m, parts, is ∙ ap (λ (n : ℕ). some (n, m)) (omega arith))
        ]
