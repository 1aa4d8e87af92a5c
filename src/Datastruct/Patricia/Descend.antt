-- ===== src/Datastruct/Patricia/Descend.antt =====
-- The end of a round of `patricia_insert`: the key ends at the node, or a child takes the rest of it.
use tarsnap.Base.{
  ℕ, ◌-◌, ◌*◌, ◌/◌, ◌≡◌, ◌≢◌, ◌⊎◌, inl, inr, refl, sym, ap, subst, ◌∙◌, Bool, true, Option, none,
  some, List, [], ◌∷◌, ◌++◌, arith, if◌then◌else◌, Bool-cases, length, get_or, same_bytes,
}
use tarsnap.Datastruct.KeyedTable.{Inserted, done, present}
use tarsnap.Datastruct.Patricia.{Tree, node, Kids, stop, fork, mask_of, high_of, descend}
use tarsnap.Datastruct.Patricia.Find.{find, find_kids}
use tarsnap.Datastruct.Patricia.Compare.{pow_nonzero}
use tarsnap.Datastruct.Patricia.Sound.{IsSound, agrees, zero_at}
use tarsnap.Datastruct.Patricia.Law.{Law-after}
use tarsnap.Datastruct.Patricia.Attach.{Inserts, stop_right, fork_left, fork_right}

module _ {R : Type 0} (malloc : ℕ → Bool) (rec : R) where
  -- The child that the rest of a key takes.
  abbrev pub child : Kids R → List ℕ → Tree R
  child (stop left right) rest = right
  child (fork mask high left right) rest = if zero_at mask (get_or rest 0 0) then left else right

  abbrev pub GoesOn : Kids R → List ℕ → Type 0
  GoesOn kids rest =
      (mask_of kids ≡ 0)
      ⊎ ((b : ℕ) × (rest' : List ℕ) × (rest ≡ b ∷ rest')
          × (b / (mask_of kids * 2) ≡ high_of kids / (mask_of kids * 2)))

  stop_here :
      (go : Tree R → List ℕ → Option (Tree R × Inserted)) (n : ℕ) (s : List ℕ) (left : Option R)
      (right : Tree R)
      → IsSound n (node s (stop left right))
      → Inserts malloc n
          (node s (stop left right))
          (s ++ [])
          rec
          (descend go rec s (stop left right) [])
  unfolding descend find IsSound
  stop_here go n s none right sound = record {
    tree = node s (stop (some rec) right);
    answer = done;
    is = refl;
    sound = sound;
    memory = λ e. absurd (cc);
    law =
        Law-after s (find_kids (stop none right)) (find_kids (stop (some rec) right)) [] rec done
          (refl, found);
  }
    where
      found :
          (k : List ℕ)
          → find_kids (stop (some rec) right) k
            ≡ (if same_bytes [] k then some rec else find_kids (stop none right) k)
      found [] = refl
      found (b ∷ k) = refl
  stop_here go n s (some old) right sound = record {
    tree = node s (stop (some old) right);
    answer = present;
    is = refl;
    sound = sound;
    memory = λ e. absurd (cc);
    law =
        Law-after s (find_kids (stop (some old) right)) (find_kids (stop (some old) right)) [] rec
          present (λ e. cc, λ k. refl);
  }

  pub descend_lem :
      (go : Tree R → List ℕ → Option (Tree R × Inserted)) (n : ℕ) (s : List ℕ) (kids : Kids R)
      (rest : List ℕ)
      → IsSound n (node s kids)
      → GoesOn kids rest
      → (rest ≢ []
          → Inserts malloc (n - length s) (child kids rest) rest rec (go (child kids rest) rest))
      → Inserts malloc n (node s kids) (s ++ rest) rec (descend go rec s kids rest)
  unfolding descend IsSound
  descend_lem go n s (stop left right) [] sound goes_on below = stop_here go n s left right sound
  descend_lem go n s (stop none right) (b ∷ rest) sound goes_on below =
      stop_right malloc n s none right b rest rec (go right (b ∷ rest)) sound (below (λ e. cc))
  descend_lem go n s (stop (some old) right) (b ∷ rest) sound goes_on below =
      stop_right malloc n s (some old) right b rest rec (go right (b ∷ rest)) sound
        (below (λ e. cc))
  descend_lem go n s (fork mask high left right) rest sound (inl zero_mask) below =
      let (j, lt, is) = sound.3.0 in absurd (pow_nonzero j (sym is ∙ zero_mask))
  descend_lem go n s (fork mask high left right) [] sound (inr (b', rest', is, same)) below =
      absurd (cc)
  descend_lem go n s (fork mask high left right) (b ∷ rest) sound (inr (b', rest', is, same))
        below =
      let first : b ≡ b' = ap (λ (l : List ℕ). get_or l 0 0) is in
      let agree : agrees mask high b ≡ true = rw (first, same) (ground arith) in
      elim (Bool-cases (zero_at mask b)) [
        | inl zero_b ↦
            let ih = below (λ e. cc) in
            rw zero_b (
              fork_left malloc mask high n s left right b rest rec (go left (b ∷ rest)) agree zero_b
                sound
                (subst
                  (λ (t : Tree R). Inserts malloc (n - length s) t (b ∷ rest) rec (go t (b ∷ rest)))
                  (rw zero_b refl) ih))
        | inr one_b ↦
            let ih = below (λ e. cc) in
            rw one_b (
              fork_right malloc mask high n s left right b rest rec (go right (b ∷ rest)) agree
                one_b sound
                (subst
                  (λ (t : Tree R). Inserts malloc (n - length s) t (b ∷ rest) rec (go t (b ∷ rest)))
                  (rw one_b refl) ih))
      ]
