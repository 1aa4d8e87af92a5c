-- ===== src/Datastruct/Patricia/Attach.antt =====
-- What an insertion below a child does to the node.
use tarsnap.Base.{
  ℕ, ◌-◌, ◌≡◌, ◌≢◌, ◌⊎◌, inl, inr, refl, sym, ap, ◌∙◌, Bool, true, false, Option, some, List, [],
  ◌∷◌, ◌++◌, Bool-cases, length, get_or,
}
use tarsnap.Datastruct.KeyedTable.{Inserted, failed}
use tarsnap.Datastruct.Patricia.{Tree, node, Kids, stop, fork, attach}
use tarsnap.Datastruct.Patricia.Find.{find, find_kids}
use tarsnap.Datastruct.Patricia.Sound.{
  IsSound, IsSoundKids, IsBelow, on_left, on_right, agrees, zero_at,
}
use tarsnap.Datastruct.Patricia.Law.{Law, Law-before, Law-part, Law-after, Law-other}

other_key :
    (test : ℕ → Bool) (b b' : ℕ) (key k : List ℕ)
    → test b ≡ true
    → test b' ≡ false
    → (b ∷ key) ≢ (b' ∷ k)
other_key test b b' key k yes_b no_b' e =
    let same : b ≡ b' = ap (λ (l : List ℕ). get_or l 0 0) e in cc

module _ {R : Type 0} (malloc : ℕ → Bool) where
  -- The loop ended with a sound tree, and did to what is found what its answer says; it fails only
  -- where an allocation does.
  pub record Inserts (n : ℕ) (t : Tree R) (key : List ℕ) (rec : R) (o : Option (Tree R × Inserted))
      : Type 0 where
    pub tree : Tree R
    pub answer : Inserted
    pub is : o ≡ some (tree, answer)
    pub sound : IsSound n tree
    pub memory : answer ≡ failed → (i : ℕ) × (malloc i ≡ false)
    pub law : Law (find t) key rec answer (find tree)

  pub Inserts-before :
      (n : ℕ) (t t' : Tree R) (key : List ℕ) (rec : R) (o : Option (Tree R × Inserted))
      → ((k : List ℕ) → find t k ≡ find t' k)
      → Inserts n t key rec o
      → Inserts n t' key rec o
  Inserts-before n t t' key rec o eq h = record {
    tree = h.tree;
    answer = h.answer;
    is = h.is;
    sound = h.sound;
    memory = h.memory;
    law = Law-before (find t) (find t') (find h.tree) key rec h.answer eq h.law;
  }

  -- Other keys than those of a child stay out of it.
  stays-IsBelow :
      (test : ℕ → Bool) (t u : Tree R) (b : ℕ) (key : List ℕ) (rec : R) (answer : Inserted)
      → test b ≡ true
      → Law (find t) (b ∷ key) rec answer (find u)
      → IsBelow test t
      → IsBelow test u
  stays-IsBelow test t u b key rec answer takes law (at_end, off) = (
    Law-other (find t) (find u) (b ∷ key) rec answer law [] (λ e. cc) ∙ at_end,
    λ b' k h.
        Law-other (find t) (find u) (b ∷ key) rec answer law (b' ∷ k)
          (other_key test b b' key k takes h)
        ∙ off b' k h,
  )

  attach_at :
      (n : ℕ) (s : List ℕ) (g : Tree R → Kids R) (t : Tree R) (key : List ℕ) (rec : R)
      (o : Option (Tree R × Inserted))
      → IsSound n (node s (g t))
      → find_kids (g t) key ≡ find t key
      → ((u : Tree R) (k : List ℕ)
          → ((find_kids (g t) k ≡ find t k) × (find_kids (g u) k ≡ find u k))
            ⊎ ((find_kids (g u) k ≡ find_kids (g t) k) × (key ≢ k)))
      → ((u : Tree R) (answer : Inserted)
          → Law (find t) key rec answer (find u)
          → IsSound (n - length s) u
          → IsSoundKids (n - length s) (g u))
      → Inserts (n - length s) t key rec o
      → Inserts n (node s (g t)) (s ++ key) rec (attach (λ u. node s (g u)) o)
  unfolding IsSound find
  attach_at n s g t key rec o (short, bytes, within, sound) at_key parts keeps h = record {
    tree = node s (g h.tree);
    answer = h.answer;
    is = ap (attach (λ u. node s (g u))) h.is;
    memory = h.memory;
    sound = (short, bytes, within, keeps h.tree h.answer h.law h.sound);
    law = Law-after s (find_kids (g t)) (find_kids (g h.tree)) key rec h.answer (
        Law-part (find t) (find h.tree) (find_kids (g t)) (find_kids (g h.tree)) key rec h.answer
          at_key (parts h.tree) h.law);
  }

  pub stop_right :
      (n : ℕ) (s : List ℕ) (left : Option R) (right : Tree R) (b : ℕ) (key : List ℕ) (rec : R)
      (o : Option (Tree R × Inserted))
      → IsSound n (node s (stop left right))
      → Inserts (n - length s) right (b ∷ key) rec o
      → Inserts n
          (node s (stop left right))
          (s ++ (b ∷ key))
          rec
          (attach (λ t. node s (stop left t)) o)
  unfolding IsSound find
  stop_right n s left right b key rec o sound =
      attach_at n s (λ t. stop left t) right (b ∷ key) rec o sound refl parts
        (λ u answer law sound_u.
          let at_end = sound.3.0 in
          (Law-other (find right) (find u) (b ∷ key) rec answer law [] (λ e. cc) ∙ at_end, sound_u))
    where
      parts :
          (u : Tree R) (k : List ℕ)
          → ((find_kids (stop left right) k ≡ find right k)
              × (find_kids (stop left u) k ≡ find u k))
            ⊎ ((find_kids (stop left u) k ≡ find_kids (stop left right) k) × ((b ∷ key) ≢ k))
      parts u [] = inr (refl, λ e. cc)
      parts u (b' ∷ k) = inl (refl, refl)

  pub fork_left :
      (mask high n : ℕ) (s : List ℕ) (left right : Tree R) (b : ℕ) (key : List ℕ) (rec : R)
      (o : Option (Tree R × Inserted))
      → agrees mask high b ≡ true
      → zero_at mask b ≡ true
      → IsSound n (node s (fork mask high left right))
      → Inserts (n - length s) left (b ∷ key) rec o
      → Inserts n
          (node s (fork mask high left right))
          (s ++ (b ∷ key))
          rec
          (attach (λ t. node s (fork mask high t right)) o)
  unfolding IsSound find
  fork_left mask high n s left right b key rec o agree zero_b sound =
      attach_at n s (λ t. fork mask high t right) left (b ∷ key) rec o sound
        (rw (agree, zero_b) refl) parts
        (λ u answer law sound_u.
          let (masked, small, in_left, in_right, sound_left, sound_right) = sound.3 in
          (
            masked,
            small,
            stays-IsBelow (on_left mask high) left u b key rec answer (rw (agree, zero_b) refl) law
                in_left,
            in_right,
            sound_u,
            sound_right,
          ))
    where
      parts :
          (u : Tree R) (k : List ℕ)
          → ((find_kids (fork mask high left right) k ≡ find left k)
              × (find_kids (fork mask high u right) k ≡ find u k))
            ⊎ ((find_kids (fork mask high u right) k ≡ find_kids (fork mask high left right) k)
                × ((b ∷ key) ≢ k))
      parts u [] = inr (refl, λ e. cc)
      parts u (b' ∷ k) = elim (Bool-cases (agrees mask high b')) [
        | inr differs ↦ inr (rw differs refl, other_key (agrees mask high) b b' key k agree differs)
        | inl same ↦ elim (Bool-cases (zero_at mask b')) [
          | inl zero' ↦ inl (rw (same, zero') refl, rw (same, zero') refl)
          | inr one' ↦ inr (rw (same, one') refl, other_key (zero_at mask) b b' key k zero_b one')
        ]
      ]

  pub fork_right :
      (mask high n : ℕ) (s : List ℕ) (left right : Tree R) (b : ℕ) (key : List ℕ) (rec : R)
      (o : Option (Tree R × Inserted))
      → agrees mask high b ≡ true
      → zero_at mask b ≡ false
      → IsSound n (node s (fork mask high left right))
      → Inserts (n - length s) right (b ∷ key) rec o
      → Inserts n
          (node s (fork mask high left right))
          (s ++ (b ∷ key))
          rec
          (attach (λ t. node s (fork mask high left t)) o)
  unfolding IsSound find
  fork_right mask high n s left right b key rec o agree one_b sound =
      attach_at n s (λ t. fork mask high left t) right (b ∷ key) rec o sound
        (rw (agree, one_b) refl) parts
        (λ u answer law sound_u.
          let (masked, small, in_left, in_right, sound_left, sound_right) = sound.3 in
          (
            masked,
            small,
            in_left,
            stays-IsBelow (on_right mask high) right u b key rec answer (rw (agree, one_b) refl) law
                in_right,
            sound_left,
            sound_u,
          ))
    where
      parts :
          (u : Tree R) (k : List ℕ)
          → ((find_kids (fork mask high left right) k ≡ find right k)
              × (find_kids (fork mask high left u) k ≡ find u k))
            ⊎ ((find_kids (fork mask high left u) k ≡ find_kids (fork mask high left right) k)
                × ((b ∷ key) ≢ k))
      parts u [] = inr (refl, λ e. cc)
      parts u (b' ∷ k) = elim (Bool-cases (agrees mask high b')) [
        | inr differs ↦ inr (rw differs refl, other_key (agrees mask high) b b' key k agree differs)
        | inl same ↦ elim (Bool-cases (zero_at mask b')) [
          | inl zero' ↦
              inr (
                rw (same, zero') refl,
                λ e. other_key (zero_at mask) b' b k key zero' one_b (sym e),
              )
          | inr one' ↦ inl (rw (same, one') refl, rw (same, one') refl)
        ]
      ]
