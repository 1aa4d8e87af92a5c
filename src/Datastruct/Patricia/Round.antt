-- ===== src/Datastruct/Patricia/Round.antt =====
-- A round of `patricia_insert`, from what its steps return.
use tarsnap.Base.{
  ℕ, suc, ◌^◌, ◌≤◌, ◌<◌, ◌≡◌, refl, ap, ◌∙◌, Bool, false, Option, none, some, List, length, drop,
}
use tarsnap.Datastruct.KeyedTable.{Inserted, failed}
use tarsnap.Datastruct.Patricia.{Tree, node, Kids, compare, grow, split, fit, descend, insert}
use tarsnap.Datastruct.Patricia.Sound.{IsSound}
use tarsnap.Datastruct.Patricia.Attach.{Inserts}

module _ {R : Type 0} (maxslen : ℕ) (malloc : ℕ → Bool) (rec : R) (room : 1 ≤ maxslen)
    (small : maxslen < 2 ^ 8) where
  -- A round whose node is a prefix of the key, as it stands or as it is made so.
  pub round :
      (rounds n n1 n2 : ℕ) (t : Tree R) (s s1 : List ℕ) (kids kids1 : Kids R) (key : List ℕ)
      → grow maxslen malloc n t key ≡ some (s, kids, n1)
      → fit malloc n1 s kids key ≡ some (s1, kids1, n2)
      → insert maxslen malloc rec (suc rounds) n t key
        ≡ descend (insert maxslen malloc rec rounds n2) rec s1 kids1 (drop (length s1) key)
  unfolding insert
  round rounds n n1 n2 t s s1 kids kids1 key grown fits =
      let go = insert maxslen malloc rec rounds in
      let after_fit : List ℕ → Kids R → Option (List ℕ × Kids R × ℕ) → Option (Tree R × Inserted) =
        λ s kids o. elim o as (λ x. Option (Tree R × Inserted)) [
          | none ↦ some (node s kids, failed)
          | some (s1, kids1, n2) ↦ descend (go n2) rec s1 kids1 (drop (length s1) key)
        ] in
      let after_grow : Option (List ℕ × Kids R × ℕ) → Option (Tree R × Inserted) = λ o.
        elim o as (λ x. Option (Tree R × Inserted)) [
          | none ↦ some (t, failed)
          | some (s, kids, n1) ↦ after_fit s kids (fit malloc n1 s kids key)
        ] in
      ap after_grow grown ∙ ap (after_fit s kids) fits

  -- A round that an allocation for the split ends.
  pub round_failed :
      (rounds n : ℕ) (s : List ℕ) (kids : Kids R) (key : List ℕ)
      → fit malloc n s kids key ≡ none
      → insert maxslen malloc rec (suc rounds) n (node s kids) key ≡ some (node s kids, failed)
  unfolding insert grow
  round_failed rounds n s kids key fits =
      ap
        (λ (o : Option (List ℕ × Kids R × ℕ)). elim o as (λ x. Option (Tree R × Inserted)) [
          | none ↦ some (node s kids, failed)
          | some (s1, kids1, n2) ↦
              descend (insert maxslen malloc rec rounds n2) rec s1 kids1 (drop (length s1) key)
        ])
        fits

  pub failed-Inserts :
      (n : ℕ) (t : Tree R) (key : List ℕ) (i : ℕ)
      → IsSound n t
      → malloc i ≡ false
      → Inserts malloc n t key rec (some (t, failed))
  failed-Inserts n t key i sound refused = record {
    tree = t;
    answer = failed;
    is = refl;
    sound = sound;
    memory = λ e. (i, refused);
    law = λ k. refl;
  }

  pub round_refused :
      (rounds n : ℕ) (t : Tree R) (key : List ℕ)
      → grow maxslen malloc n t key ≡ none
      → insert maxslen malloc rec (suc rounds) n t key ≡ some (t, failed)
  unfolding insert
  round_refused rounds n t key grown =
      ap
        (λ (o : Option (List ℕ × Kids R × ℕ)). elim o as (λ x. Option (Tree R × Inserted)) [
          | none ↦ some (t, failed)
          | some (s, kids, n1) ↦
              elim (fit malloc n1 s kids key) as (λ x. Option (Tree R × Inserted)) [
                | none ↦ some (node s kids, failed)
                | some (s1, kids1, n2) ↦
                    descend (insert maxslen malloc rec rounds n2) rec s1 kids1
                      (drop (length s1) key)
              ]
        ])
        grown

  pub node_grown :
      (n : ℕ) (s : List ℕ) (kids : Kids R) (key : List ℕ)
      → grow maxslen malloc n (node s kids) key ≡ some (s, kids, n)
  unfolding grow
  node_grown n s kids key = refl

  pub fit-none :
      (n : ℕ) (s : List ℕ) (kids : Kids R) (key : List ℕ)
      → compare s kids key ≡ none
      → fit malloc n s kids key ≡ some (s, kids, n)
  unfolding fit
  fit-none n s kids key h =
      ap
        (λ (o : Option (ℕ × ℕ)). elim o as (λ x. Option (List ℕ × Kids R × ℕ)) [
          | none ↦ some (s, kids, n)
          | some answer ↦ split malloc n s kids key answer
        ])
        h
