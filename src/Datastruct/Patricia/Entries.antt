-- ===== src/Datastruct/Patricia/Entries.antt =====
-- The entries of a tree are the keys it leads to.
use tarsnap.Base.{
  ℕ, ◌-◌, ◌≡◌, ◌≢◌, ◌⊎◌, inl, inr, refl, sym, ap, ap₂, subst, ◌∙◌, if-eq-some, ==_iff, Bool, true,
  false, not, ◌&&◌, Option, none, some, List, [], ◌∷◌, ◌++◌, ◌==◌, if◌then◌else◌, Bool-cases,
  length, append_assoc, append-nil,
}
use mathlib.Core.List.Memᴰ
use mathlib.Core.List.{Memᴰ}
use tarsnap.Datastruct.Patricia.{Tree, null, node, Kids, stop, fork}
use tarsnap.Datastruct.Patricia.Find.{find, find_kids, after, after_common}
use tarsnap.Datastruct.Patricia.Sound.{
  IsSound, IsSoundKids, IsBelow, on_left, on_right, agrees, zero_at,
}
use tarsnap.Datastruct.Patricia.Walk.{entries, entries_kids}

pub both : (a b : Bool) → (a && b) ≡ true → (a ≡ true) × (b ≡ true)
both true b h = (refl, h)
both false b h = absurd (cc)

pub of_not : (a : Bool) → not a ≡ true → a ≡ false
of_not true h = absurd (cc)
of_not false h = refl

module _ {R : Type 0} where
  pub starts_below :
      (test : ℕ → Bool) (t : Tree R) (key : List ℕ) (r : R)
      → IsBelow test t
      → find t key ≡ some r
      → (b : ℕ) × (rest : List ℕ) × (key ≡ b ∷ rest) × (test b ≡ true)
  starts_below test t [] r (at_end, off) found = absurd (cc)
  starts_below test t (b ∷ rest) r (at_end, off) found = elim (Bool-cases (test b)) [
    | inl takes ↦ (b, rest, refl, takes)
    | inr leaves ↦ absurd (none≢some (sym (off b rest leaves) ∙ found))
  ]
    where
      none≢some : {x : R} → none ≢ some x
      none≢some e = cc

  in_stop :
      (prefix : List ℕ) (left : Option R) (right : Tree R) (x : List ℕ × R)
      → find right [] ≡ none
      → (key : List ℕ) × (x.0 ≡ prefix ++ key) × (find right key ≡ some x.1)
      → (key : List ℕ) × (x.0 ≡ prefix ++ key) × (find_kids (stop left right) key ≡ some x.1)
  unfolding find
  in_stop prefix left right x at_end ([], is, found) = absurd (cc)
  in_stop prefix left right x at_end (b ∷ key, is, found) = (b ∷ key, is, found)

  in_left :
      (prefix : List ℕ) (mask high : ℕ) (left right : Tree R) (x : List ℕ × R)
      → IsBelow (on_left mask high) left
      → (key : List ℕ) × (x.0 ≡ prefix ++ key) × (find left key ≡ some x.1)
      → (key : List ℕ) × (x.0 ≡ prefix ++ key)
        × (find_kids (fork mask high left right) key ≡ some x.1)
  unfolding find
  in_left prefix mask high left right x below (key, is, found) =
      let (b, rest, is_b, takes) = starts_below (on_left mask high) left key x.1 below found in
      let (agree, zero_b) = both (agrees mask high b) (zero_at mask b) takes in
      (b ∷ rest, is ∙ ap (◌++◌ prefix) is_b, rw (agree, zero_b) (ap (find left) (sym is_b) ∙ found))

  in_right :
      (prefix : List ℕ) (mask high : ℕ) (left right : Tree R) (x : List ℕ × R)
      → IsBelow (on_right mask high) right
      → (key : List ℕ) × (x.0 ≡ prefix ++ key) × (find right key ≡ some x.1)
      → (key : List ℕ) × (x.0 ≡ prefix ++ key)
        × (find_kids (fork mask high left right) key ≡ some x.1)
  unfolding find
  in_right prefix mask high left right x below (key, is, found) =
      let (b, rest, is_b, takes) = starts_below (on_right mask high) right key x.1 below found in
      let (agree, other) = both (agrees mask high b) (not (zero_at mask b)) takes in
      let one_b : zero_at mask b ≡ false = of_not (zero_at mask b) other in
      (b ∷ rest, is ∙ ap (◌++◌ prefix) is_b, rw (agree, one_b) (ap (find right) (sym is_b) ∙ found))

  mutual
    unfolding entries find IsSound

    -- An entry is of a key that the tree leads to.
    pub entries-find :
        (n : ℕ) (prefix : List ℕ) (t : Tree R) (x : List ℕ × R)
        → IsSound n t
        → Memᴰ x (entries prefix t)
        → (key : List ℕ) × (x.0 ≡ prefix ++ key) × (find t key ≡ some x.1)
    entries-find n prefix null x sound m = absurd (Memᴰ.not-nil m)
    entries-find n prefix (node s kids) x (short, bytes, within, sound) m =
        let (key, is, found) = entries_kids-find (n - length s) (prefix ++ s) kids x sound m in
        (s ++ key, is ∙ append_assoc prefix s key, after_common s (find_kids kids) key ∙ found)

    entries_kids-find :
        (n : ℕ) (prefix : List ℕ) (kids : Kids R) (x : List ℕ × R)
        → IsSoundKids n kids
        → Memᴰ x (entries_kids prefix kids)
        → (key : List ℕ) × (x.0 ≡ prefix ++ key) × (find_kids kids key ≡ some x.1)
    entries_kids-find n prefix (stop none right) x (at_end, sound) m =
        in_stop prefix none right x at_end (entries-find n prefix right x sound m)
    entries_kids-find n prefix (stop (some r) right) x (at_end, sound) m =
        elim (Memᴰ.cases_cons m) [
          | inl is ↦ (
            [],
            ap (λ (y : List ℕ × R). y.0) is ∙ sym (append-nil prefix),
            ap (λ (y : List ℕ × R). some y.1) (sym is),
          )
          | inr m ↦ in_stop prefix (some r) right x at_end (entries-find n prefix right x sound m)
        ]
    entries_kids-find n prefix (fork mask high left right) x
          (masked, small, below_left, below_right, sound_left, sound_right) m =
        elim (Memᴰ.append_cases (entries prefix left) m) [
          | inl m ↦
              in_left prefix mask high left right x below_left
                (entries-find n prefix left x sound_left m)
          | inr m ↦
              in_right prefix mask high left right x below_right
                (entries-find n prefix right x sound_right m)
        ]

  stripped :
      (s : List ℕ) (f : List ℕ → Option R) (key : List ℕ) (r : R)
      → after s f key ≡ some r
      → (rest : List ℕ) × (key ≡ s ++ rest) × (f rest ≡ some r)
  stripped [] f key r found = (key, refl, found)
  stripped (a ∷ s) f [] r found = absurd (cc)
  stripped (a ∷ s) f (b ∷ key) r found =
      let (same, found') = if-eq-some (a == b) (after s f key) found in
      let (rest, is, below) = stripped s f key r found' in
      let eq : a ≡ b = (==_iff a b).0 same in
      (rest, ap (◌∷◌ b) is ∙ ap (λ (c : ℕ). c ∷ (s ++ rest)) (sym eq), below)

  either :
      (c d : Bool) (x y : Option R) (r : R)
      → (if c then (if d then x else y) else none) ≡ some r
      → (x ≡ some r) ⊎ (y ≡ some r)
  either true true x y r h = inl h
  either true false x y r h = inr h
  either false d x y r h = absurd (cc)

  some_inj : {x y : R} → some x ≡ some y → x ≡ y
  some_inj {x} e = ap (λ (o : Option R). elim o as (λ y. R) [ none ↦ x | some v ↦ v ]) e

  mutual
    unfolding entries find IsSound

    -- A key that the tree leads to has its entry.
    pub find-entries :
        (prefix : List ℕ) (t : Tree R) (key : List ℕ) (r : R)
        → find t key ≡ some r
        → Memᴰ (prefix ++ key, r) (entries prefix t)
    find-entries prefix null key r found = absurd (cc)
    find-entries prefix (node s kids) key r found =
        let (rest, is, below) = stripped s (find_kids kids) key r found in
        let m = find_kids-entries (prefix ++ s) kids rest r below in
        subst (λ (l : List ℕ). Memᴰ (l, r) (entries_kids (prefix ++ s) kids))
          (append_assoc prefix s rest ∙ ap (◌++◌ prefix) (sym is)) m

    find_kids-entries :
        (prefix : List ℕ) (kids : Kids R) (key : List ℕ) (r : R)
        → find_kids kids key ≡ some r
        → Memᴰ (prefix ++ key, r) (entries_kids prefix kids)
    find_kids-entries prefix (stop none right) [] r found = absurd (cc)
    find_kids-entries prefix (stop (some old) right) [] r found =
        Memᴰ.head (ap₂ (λ (k : List ℕ) (o : R). (k, o)) (append-nil prefix) (some_inj (sym found)))
    find_kids-entries prefix (stop none right) (b ∷ key) r found =
        find-entries prefix right (b ∷ key) r found
    find_kids-entries prefix (stop (some old) right) (b ∷ key) r found =
        Memᴰ.tail (find-entries prefix right (b ∷ key) r found)
    find_kids-entries prefix (fork mask high left right) [] r found = absurd (cc)
    find_kids-entries prefix (fork mask high left right) (b ∷ key) r found =
        elim (either (agrees mask high b) (zero_at mask b) (find left (b ∷ key))
          (find right (b ∷ key)) r found) [
            | inl is ↦
                Memᴰ.append_left (entries prefix right) (find-entries prefix left (b ∷ key) r is)
            | inr is ↦
                Memᴰ.append_right (entries prefix left) (find-entries prefix right (b ∷ key) r is)
          ]
