-- ===== src/Datastruct/Patricia/Find.antt =====
-- What a key finds, read off the tree: the bytes of a node are stripped off, and a key that goes on
-- takes the child its next byte belongs to.
use tarsnap.Base.{
  ℕ, ◌*◌, ◌/◌, ◌≡◌, refl, ap, bit_and, Option, none, List, [], ◌∷◌, ◌++◌, arith, ◌==◌,
  if◌then◌else◌,
}
use tarsnap.Datastruct.Patricia.{Tree, null, node, Kids, stop, fork}

module _ {R : Type 0} where
  abbrev pub after : List ℕ → (List ℕ → Option R) → List ℕ → Option R
  after [] f key = f key
  after (a ∷ s) f [] = none
  after (a ∷ s) f (b ∷ key) = if a == b then after s f key else none

  unfoldable mutual
    pub find : Tree R → List ℕ → Option R
    find null key = none
    find (node s kids) key = after s (find_kids kids) key

    pub find_kids : Kids R → List ℕ → Option R
    find_kids (stop left right) [] = left
    find_kids (stop left right) (b ∷ key) = find right (b ∷ key)
    find_kids (fork mask high left right) [] = none
    find_kids (fork mask high left right) (b ∷ key) =
        let at_left = find left (b ∷ key) in
        let at_right = find right (b ∷ key) in
        if b / (mask * 2) == high / (mask * 2)
        then (if bit_and b mask == 0 then at_left else at_right)
        else none

  pub after_common :
      (s : List ℕ) (f : List ℕ → Option R) (key : List ℕ) → after s f (s ++ key) ≡ f key
  after_common [] f key = refl
  after_common (a ∷ s) f key = ground (arith, after_common s f key)

  pub after_ext :
      (s : List ℕ) (f g : List ℕ → Option R)
      → ((k : List ℕ) → f k ≡ g k)
      → (key : List ℕ) → after s f key ≡ after s g key
  after_ext [] f g h key = h key
  after_ext (a ∷ s) f g h [] = refl
  after_ext (a ∷ s) f g h (b ∷ key) =
      ap (λ (o : Option R). if a == b then o else none) (after_ext s f g h key)

  pub after_append :
      (s t : List ℕ) (f : List ℕ → Option R) (key : List ℕ)
      → after (s ++ t) f key ≡ after s (after t f) key
  after_append [] t f key = refl
  after_append (a ∷ s) t f [] = refl
  after_append (a ∷ s) t f (b ∷ key) =
      ap (λ (o : Option R). if a == b then o else none) (after_append s t f key)
