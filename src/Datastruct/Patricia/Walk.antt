-- ===== src/Datastruct/Patricia/Walk.antt =====
-- The traversal as a run of the callback over a list of keys and records.
use tarsnap.Base.{
  ℕ, ◌+◌, ◌-◌, ◌≤◌, ◌≡◌, refl, sym, ap, ◌∙◌, false, Option, none, some, List, [], ◌∷◌, ◌++◌, arith,
  ltb, length, length-append,
}
use tarsnap.Datastruct.Patricia.{Tree, null, node, Kids, stop, fork, foreach_internal, foreach_kids}
use tarsnap.Datastruct.Patricia.Sound.{IsSound, IsSoundKids}

module _ {R : Type 0} where
  unfoldable mutual
    -- The keys under a node, in the order of the tree, after the bytes that lead to it.
    pub entries : List ℕ → Tree R → List (List ℕ × R)
    entries prefix null = []
    entries prefix (node s kids) = entries_kids (prefix ++ s) kids

    pub entries_kids : List ℕ → Kids R → List (List ℕ × R)
    entries_kids prefix (stop none right) = entries prefix right
    entries_kids prefix (stop (some r) right) = (prefix, r) ∷ entries prefix right
    entries_kids prefix (fork mask high left right) = entries prefix left ++ entries prefix right

-- The callback on each key and its record in turn, until it returns another value than 0.
module _ {S E R : Type 0} (func : S → List ℕ → R → S × Option E) where
  abbrev pub deliver : List (List ℕ × R) → S → S × Option E
  deliver [] s = (s, none)
  deliver ((key, r) ∷ xs) s =
      let (s', rc) = func s key r in
      elim rc as (λ x. S × Option E) [ some e ↦ (s', some e) | none ↦ deliver xs s' ]

  abbrev continue : List (List ℕ × R) → S × Option E → S × Option E
  continue ys (s, some e) = (s, some e)
  continue ys (s, none) = deliver ys s

  deliver-append :
      (xs ys : List (List ℕ × R)) (s : S) → deliver (xs ++ ys) s ≡ continue ys (deliver xs s)
  deliver-append [] ys s = refl
  deliver-append ((key, r) ∷ xs) ys s = step (func s key r) (deliver-append xs ys)
    where
      step :
          (answer : S × Option E)
          → ((s : S) → deliver (xs ++ ys) s ≡ continue ys (deliver xs s))
          → (elim answer.1 as (λ x. S × Option E) [
            | some e ↦ (answer.0, some e)
            | none ↦ deliver (xs ++ ys) answer.0
          ])
            ≡ continue ys (elim answer.1 as (λ x. S × Option E) [
              | some e ↦ (answer.0, some e)
              | none ↦ deliver xs answer.0
            ])
      step (s', some e) ih = refl
      step (s', none) ih = ih s'

  -- What a traversal does after the callback, and after a child.
  after_call :
      (answer : S × Option E) (f : S → Option (S × Option E)) (ys : List (List ℕ × R))
      → ((s : S) → f s ≡ some (deliver ys s))
      → (elim answer.1 as (λ x. Option (S × Option E)) [
        | some e ↦ some (answer.0, some e)
        | none ↦ f answer.0
      ])
        ≡ some (elim answer.1 as (λ x. S × Option E) [
          | some e ↦ (answer.0, some e)
          | none ↦ deliver ys answer.0
        ])
  after_call (s', some e) f ys h = refl
  after_call (s', none) f ys h = h s'

  after_child :
      (answer : S × Option E) (f : S → Option (S × Option E)) (ys : List (List ℕ × R))
      → ((s : S) → f s ≡ some (deliver ys s))
      → (elim (some answer) as (λ x. Option (S × Option E)) [
        | none ↦ none
        | some (s', some e) ↦ some (s', some e)
        | some (s', none) ↦ f s'
      ])
        ≡ some (continue ys answer)
  after_child (s', some e) f ys h = refl
  after_child (s', none) f ys h = h s'

  module _ (maxkey : ℕ) where
    mutual
      unfolding foreach_internal entries IsSound

      pub foreach_internal_lem :
          (n : ℕ) (t : Tree R) (s : S) (prefix : List ℕ)
          → IsSound n t
          → length prefix + n ≤ maxkey
          → foreach_internal func maxkey t s prefix ≡ some (deliver (entries prefix t) s)
      foreach_internal_lem n null s prefix sound fits = refl
      foreach_internal_lem n (node bytes kids) s prefix (short, is_bytes, within, sound) fits =
          let inside : ltb maxkey (length prefix + length bytes) ≡ false =
            ground (arith, fits, within) in
          rw inside (
            foreach_kids_lem (n - length bytes) kids s (prefix ++ bytes) sound
              (omega (arith, length-append prefix bytes, fits, within)))

      foreach_kids_lem :
          (n : ℕ) (kids : Kids R) (s : S) (prefix : List ℕ)
          → IsSoundKids n kids
          → length prefix + n ≤ maxkey
          → foreach_kids func maxkey kids s prefix ≡ some (deliver (entries_kids prefix kids) s)
      foreach_kids_lem n (stop none right) s prefix (at_end, sound) fits =
          foreach_internal_lem n right s prefix sound fits
      foreach_kids_lem n (stop (some r) right) s prefix (at_end, sound) fits =
          after_call (func s prefix r) (λ s'. foreach_internal func maxkey right s' prefix)
            (entries prefix right) (λ s'. foreach_internal_lem n right s' prefix sound fits)
      foreach_kids_lem n (fork mask high left right) s prefix
            (masked, small, in_left, in_right, sound_left, sound_right) fits =
          let go = λ (s' : S). foreach_internal func maxkey right s' prefix in
          ap
            (λ (o : Option (S × Option E)). elim o as (λ x. Option (S × Option E)) [
              | none ↦ none
              | some (s', some e) ↦ some (s', some e)
              | some (s', none) ↦ go s'
            ])
            (foreach_internal_lem n left s prefix sound_left fits)
          ∙ after_child (deliver (entries prefix left) s) go (entries prefix right)
              (λ s'. foreach_internal_lem n right s' prefix sound_right fits)
          ∙ ap (λ (a : S × Option E). some a)
              (sym (deliver-append (entries prefix left) (entries prefix right) s))
