-- ===== src/Datastruct/Patricia/Law.antt =====
-- What an insertion does to what is found, and how that passes from a child to the nodes above it.
use tarsnap.Base.{
  ℕ, ◌≡◌, ◌≢◌, ◌⊎◌, inl, inr, refl, sym, ap, ◌∙◌, false, Option, none, some, List, [], ◌∷◌, ◌++◌,
  ◌==◌, if◌then◌else◌, Bool-cases, same_bytes, same_bytes_iff,
}
use tarsnap.Datastruct.KeyedTable.{Inserted, done, present, failed}
use tarsnap.Datastruct.Patricia.Find.{after, after_common, after_ext}

module _ {R : Type 0} where
  -- `before` and `now` are what each key finds; 0 is for a new key, which finds the record then, 1 for
  -- a key that was there, and -1 for no memory.
  abbrev pub Law : (List ℕ → Option R) → List ℕ → R → Inserted → (List ℕ → Option R) → Type 0
  Law before key rec done now =
      (before key ≡ none)
      × ((k : List ℕ) → now k ≡ (if same_bytes key k then some rec else before k))
  Law before key rec present now = (before key ≢ none) × ((k : List ℕ) → now k ≡ before k)
  Law before key rec failed now = (k : List ℕ) → now k ≡ before k

  pub Law-before :
      (before before' now : List ℕ → Option R) (key : List ℕ) (rec : R) (answer : Inserted)
      → ((k : List ℕ) → before k ≡ before' k)
      → Law before key rec answer now
      → Law before' key rec answer now
  Law-before before before' now key rec done eq (new, h) = (
    sym (eq key) ∙ new,
    λ k. h k ∙ ap (λ (o : Option R). if same_bytes key k then some rec else o) (eq k),
  )
  Law-before before before' now key rec present eq (old, h) =
      (λ e. old (eq key ∙ e), λ k. h k ∙ eq k)
  Law-before before before' now key rec failed eq h = λ k. h k ∙ eq k

  -- Of a larger tree that the key leads through, where the other keys find what they found.
  pub Law-part :
      (f g F G : List ℕ → Option R) (key : List ℕ) (rec : R) (answer : Inserted)
      → F key ≡ f key
      → ((k : List ℕ) → ((F k ≡ f k) × (G k ≡ g k)) ⊎ ((G k ≡ F k) × (key ≢ k)))
      → Law f key rec answer g
      → Law F key rec answer G
  Law-part f g F G key rec done at_key parts (new, h) = (
    at_key ∙ new,
    λ k. elim (parts k) [
      | inl (below, now_below) ↦
          now_below
          ∙ h k
          ∙ ap (λ (o : Option R). if same_bytes key k then some rec else o) (sym below)
      | inr (same, other) ↦
          let differs : same_bytes key k ≡ false = elim (Bool-cases (same_bytes key k)) [
            | inl t ↦ absurd (other ((same_bytes_iff key k).0 t))
            | inr t ↦ t
          ] in
          rw differs same
    ],
  )
  Law-part f g F G key rec present at_key parts (old, h) = (
    λ e. old (sym at_key ∙ e),
    λ k. elim (parts k) [
      | inl (below, now_below) ↦ now_below ∙ h k ∙ sym below
      | inr (same, other) ↦ same
    ],
  )
  Law-part f g F G key rec failed at_key parts h = λ k. elim (parts k) [
    | inl (below, now_below) ↦ now_below ∙ h k ∙ sym below
    | inr (same, other) ↦ same
  ]

  after-done :
      (s : List ℕ) (f g : List ℕ → Option R) (key : List ℕ) (rec : R)
      → ((k : List ℕ) → g k ≡ (if same_bytes key k then some rec else f k))
      → (k : List ℕ) → after s g k ≡ (if same_bytes (s ++ key) k then some rec else after s f k)
  after-done [] f g key rec h k = h k
  after-done (a ∷ s) f g key rec h [] = refl
  after-done (a ∷ s) f g key rec h (b ∷ k) = elim (Bool-cases (a == b)) [
    | inl t ↦ rw t (after-done s f g key rec h k)
    | inr t ↦ rw t refl
  ]

  -- Of the node above, with its bytes before the key.
  pub Law-after :
      (s : List ℕ) (f g : List ℕ → Option R) (key : List ℕ) (rec : R) (answer : Inserted)
      → Law f key rec answer g
      → Law (after s f) (s ++ key) rec answer (after s g)
  Law-after s f g key rec done (new, h) = (after_common s f key ∙ new, after-done s f g key rec h)
  Law-after s f g key rec present (old, h) =
      (λ e. old (sym (after_common s f key) ∙ e), after_ext s g f h)
  Law-after s f g key rec failed h = after_ext s g f h

  -- What another key finds.
  pub Law-other :
      (before now : List ℕ → Option R) (key : List ℕ) (rec : R) (answer : Inserted)
      → Law before key rec answer now
      → (k : List ℕ) → key ≢ k
      → now k ≡ before k
  Law-other before now key rec done (new, h) k other = elim (Bool-cases (same_bytes key k)) [
    | inl t ↦ absurd (other ((same_bytes_iff key k).0 t))
    | inr t ↦ h k ∙ rw t refl
  ]
  Law-other before now key rec present (old, h) k other = h k
  Law-other before now key rec failed h k other = h k
