-- ===== src/Datastruct/Patricia/Divide.antt =====
-- A round of `patricia_insert` that splits the node at hand.
use tarsnap.Base.{
  ℕ, suc, ◌+◌, ◌/◌, ◌^◌, ◌≡◌, ◌≢◌, inl, inr, refl, sym, ap, ◌∙◌, bit_and, Bool, true, false, Option,
  none, some, List, [], ◌∷◌, ◌++◌, ◌==◌, Bool-cases, length, take, drop, get_or, take-append,
  drop-append,
}
use native.Mathlib.Nat.{pow-suc}
use tarsnap.Datastruct.Patricia.Digits.{bit, test_bit}
use tarsnap.Datastruct.Patricia.{
  Tree, null, node, Kids, above, mask_of, high_of, compare, upper, split, fit,
}
use tarsnap.Datastruct.Patricia.Compare.{Apart, Parts}
use tarsnap.Datastruct.Patricia.Sound.{zero_at}
use tarsnap.Datastruct.Patricia.Split.{upper_at}
use tarsnap.Datastruct.Patricia.Reshape.{kept_high}
use tarsnap.Datastruct.Patricia.Descend.{child, GoesOn}

module _ {R : Type 0} (malloc : ℕ → Bool) where
  pub fit-some :
      (n : ℕ) (s : List ℕ) (kids : Kids R) (key : List ℕ) (answer : ℕ × ℕ)
      → compare s kids key ≡ some answer
      → fit malloc n s kids key ≡ split malloc n s kids key answer
  unfolding fit
  fit-some n s kids key answer h =
      ap
        (λ (o : Option (ℕ × ℕ)). elim o as (λ x. Option (List ℕ × Kids R × ℕ)) [
          | none ↦ some (s, kids, n)
          | some answer ↦ split malloc n s kids key answer
        ])
        h

  pub split_first :
      (n : ℕ) (s : List ℕ) (kids : Kids R) (key : List ℕ) (answer : ℕ × ℕ)
      → malloc n ≡ false
      → split malloc n s kids key answer ≡ none
  unfolding split
  split_first n s kids key (mlen, mask) refused = rw (refused, split) refl

  pub split_second :
      (n : ℕ) (s : List ℕ) (kids : Kids R) (key : List ℕ) (answer : ℕ × ℕ)
      → malloc (n + 1) ≡ false
      → split malloc n s kids key answer ≡ none
  unfolding split
  split_second n s kids key (mlen, mask) refused = elim (Bool-cases (malloc n)) [
    | inl t ↦ rw (t, refused, split) refl
    | inr t ↦ rw (t, split) refl
  ]

  pub split_both :
      (n : ℕ) (s : List ℕ) (kids : Kids R) (key : List ℕ) (mask : ℕ)
      → (parts : Parts (mask_of kids) (high_of kids) s key mask) → malloc n ≡ true
      → malloc (n + 1) ≡ true
      → split malloc n s kids key (length parts.common, mask)
        ≡ some (parts.common, upper mask (get_or parts.rest 0 0) (node parts.low kids), n + 2)
  unfolding split
  split_both n s kids key mask parts first second =
      let mlen = length parts.common in
      let kept : take mlen key ≡ parts.common =
        ap (take mlen) parts.key_is ∙ take-append parts.common parts.rest in
      let lower : drop mlen s ≡ parts.low =
        ap (drop mlen) parts.node_is ∙ drop-append parts.common parts.low in
      let byte : get_or key mlen 0 ≡ get_or parts.rest 0 0 =
        ap (λ (l : List ℕ). get_or l mlen 0) parts.key_is ∙ get_or-append parts.common parts.rest in
      rw (first, second, kept, lower, byte, split) refl
    where
      get_or-append : (xs ys : List ℕ) → get_or (xs ++ ys) (length xs) 0 ≡ get_or ys 0 0
      get_or-append [] ys = refl
      get_or-append (x ∷ xs) ys = get_or-append xs ys

module _ {R : Type 0} (malloc : ℕ → Bool) (rec : R) (low : Tree R) (mask high m : ℕ)
    (s key : List ℕ) where
  pub upper-GoesOn : Apart mask high s key m → GoesOn malloc rec (upper m (get_or key 0 0) low) key
  unfolding upper
  upper-GoesOn (inl (is, zero_m, h)) = inl (rw zero_m refl)
  upper-GoesOn (inr (b, key', c, e, is, small, pow, d, next)) =
      let kept : b / 2 ^ suc e ≡ bit_and b (above (2 ^ e)) / 2 ^ suc e =
        sym (kept_high b e small d.place) in
      rw (is, pow, upper_at b e low)
        (elim (Bool-cases (bit e b == 0)) [
          | inl t ↦ rw t (inr (b, key', refl, rw (sym (pow-suc 2 e)) kept))
          | inr t ↦ rw t (inr (b, key', refl, rw (sym (pow-suc 2 e)) kept))
        ])

  -- The key goes on in the child that the split leaves empty.
  pub upper-child :
      Apart mask high s key m
      → key ≢ []
      → child malloc rec (upper m (get_or key 0 0) low) key ≡ null
  unfolding upper
  upper-child (inl (is, zero_m, h)) some_key = absurd (some_key is)
  upper-child (inr (b, key', c, e, is, small, pow, d, next)) some_key =
      rw (is, pow, upper_at b e low)
        (elim (Bool-cases (bit e b == 0)) [
          | inl t ↦ rw t (let test : zero_at (2 ^ e) b ≡ true = test_bit e b ∙ t in rw test refl)
          | inr t ↦ rw t (let test : zero_at (2 ^ e) b ≡ false = test_bit e b ∙ t in rw test refl)
        ])
