-- ===== src/Datastruct/Patricia/Insert.antt =====
-- The loop of `patricia_insert` on a sound tree.
use tarsnap.Base.{
  ℕ, zero, suc, ◌+◌, ◌-◌, ◌^◌, ◌≤◌, ◌<◌, ◌≡◌, inl, inr, sym, ap, subst, ◌∙◌, Bool, List, arith,
  Bool-cases, length, drop, get_or, length-append, drop-append,
}
use tarsnap.Datastruct.Patricia.{
  Tree, null, node, Kids, stop, fork, mask_of, high_of, upper, descend, insert, height, height_kids,
}
use tarsnap.Datastruct.Patricia.Compare.{IsBytes}
use tarsnap.Datastruct.Patricia.Sound.{IsSound, zero_at, compare_lem}
use tarsnap.Datastruct.Patricia.Split.{split-find}
use tarsnap.Datastruct.Patricia.Lookup.{IsBytes-after}
use tarsnap.Datastruct.Patricia.Reshape.{split-IsSound}
use tarsnap.Datastruct.Patricia.Attach.{Inserts, Inserts-before}
use tarsnap.Datastruct.Patricia.Divide.{
  fit-some, split_first, split_second, split_both, upper-GoesOn, upper-child,
}
use tarsnap.Datastruct.Patricia.Descend.{child, descend_lem}
use tarsnap.Datastruct.Patricia.Round.{round, round_failed, failed-Inserts, node_grown, fit-none}
use tarsnap.Datastruct.Patricia.Leaf.{insert_null}

module _ {R : Type 0} (maxslen : ℕ) (malloc : ℕ → Bool) (rec : R) (room : 1 ≤ maxslen)
    (small : maxslen < 2 ^ 8) where
  height-child :
      (kids : Kids R) (rest : List ℕ) → height (child malloc rec kids rest) ≤ height_kids kids
  unfolding height
  height-child (stop left right) rest = omega arith
  height-child (fork mask high left right) rest =
      elim (Bool-cases (zero_at mask (get_or rest 0 0))) [
        | inl t ↦ rw t (omega arith)
        | inr t ↦ rw t (omega arith)
      ]

  child-IsSound :
      (n : ℕ) (s : List ℕ) (kids : Kids R) (rest : List ℕ)
      → IsSound n (node s kids)
      → IsSound (n - length s) (child malloc rec kids rest)
  unfolding IsSound
  child-IsSound n s (stop left right) rest sound = sound.3.1
  child-IsSound n s (fork mask high left right) rest sound =
      elim (Bool-cases (zero_at mask (get_or rest 0 0))) [
        | inl t ↦ rw t (sound.3.4)
        | inr t ↦ rw t (sound.3.5)
      ]

  insert_node :
      (rounds n m : ℕ) (s : List ℕ) (kids : Kids R) (key : List ℕ)
      → IsSound n (node s kids)
      → IsBytes key
      → length key ≤ n
      → length key < rounds
      → ((t : Tree R) (rest : List ℕ)
          → height t ≤ height_kids kids
          → length rest ≤ length key
          → IsSound (n - length s) t
          → IsBytes rest
          → length rest ≤ n - length s
          → Inserts malloc (n - length s) t rest rec (insert maxslen malloc rec rounds m t rest))
      → Inserts malloc n
          (node s kids)
          key
          rec
          (insert maxslen malloc rec (suc rounds) m (node s kids) key)
  insert_node rounds n m s kids key sound bytes within lt below =
      elim (compare_lem n s kids key sound bytes) [
        | inl (is, fits) ↦
            let rest = fits.rest in
            let go = insert maxslen malloc rec rounds m in
            let stripped : drop (length s) key ≡ rest =
              ap (drop (length s)) fits.key_is ∙ drop-append s rest in
            let is_descend : insert maxslen malloc rec (suc rounds) m (node s kids) key
                ≡ descend go rec s kids rest =
              round maxslen malloc rec room small rounds m m m (node s kids) s s kids kids key
                (node_grown maxslen malloc rec room small m s kids key)
                (fit-none maxslen malloc rec room small m s kids key is)
              ∙ ap (descend go rec s kids) stripped in
            let total : length key ≡ length s + length rest =
              ap length fits.key_is ∙ length-append s rest in
            let ended = descend_lem malloc rec go n s kids rest sound fits.goes_on (λ some_rest.
              below (child malloc rec kids rest) rest (height-child kids rest)
                (omega (arith, total)) (child-IsSound n s kids rest sound)
                (IsBytes-after s rest (subst IsBytes fits.key_is bytes))
                (omega (arith, total, within))) in
            subst (Inserts malloc n (node s kids) key rec) (sym is_descend) (
              subst
                (λ (l : List ℕ). Inserts malloc n (node s kids) l rec (descend go rec s kids rest))
                (sym fits.key_is) ended)
        | inr (mask, parts, is) ↦ elim (Bool-cases (malloc m)) [
          | inr refused ↦
              subst (Inserts malloc n (node s kids) key rec)
                (sym (
                  round_failed maxslen malloc rec room small rounds m s kids key (
                    fit-some malloc m s kids key (length parts.common, mask) is
                    ∙ split_first malloc m s kids key (length parts.common, mask) refused)))
                (failed-Inserts maxslen malloc rec room small n (node s kids) key m sound refused)
          | inl granted ↦ elim (Bool-cases (malloc (m + 1))) [
            | inr refused ↦
                subst (Inserts malloc n (node s kids) key rec)
                  (sym (
                    round_failed maxslen malloc rec room small rounds m s kids key (
                      fit-some malloc m s kids key (length parts.common, mask) is
                      ∙ split_second malloc m s kids key (length parts.common, mask) refused)))
                  (failed-Inserts maxslen malloc rec room small n (node s kids) key (m + 1) sound
                    refused)
            | inl granted2 ↦
                let rest = parts.rest in
                let kids1 = upper mask (get_or rest 0 0) (node parts.low kids) in
                let go = insert maxslen malloc rec rounds (m + 2) in
                let stripped : drop (length parts.common) key ≡ rest =
                  ap (drop (length parts.common)) parts.key_is ∙ drop-append parts.common rest in
                let is_descend : insert maxslen malloc rec (suc rounds) m (node s kids) key
                    ≡ descend go rec parts.common kids1 rest =
                  round maxslen malloc rec room small rounds m m (m + 2) (node s kids) s
                    parts.common kids kids1 key
                    (node_grown maxslen malloc rec room small m s kids key)
                    (fit-some malloc m s kids key (length parts.common, mask) is
                      ∙ split_both malloc m s kids key mask parts granted granted2)
                  ∙ ap (descend go rec parts.common kids1) stripped in
                let total : length key ≡ length parts.common + length rest =
                  ap length parts.key_is ∙ length-append parts.common rest in
                let ended =
                  descend_lem malloc rec go n parts.common kids1 rest
                    (split-IsSound n s kids key mask parts sound)
                    (upper-GoesOn malloc rec (node parts.low kids) (mask_of kids) (high_of kids)
                      mask parts.low rest parts.apart)
                    (λ some_rest.
                      subst
                        (λ (t : Tree R).
                          Inserts malloc (n - length parts.common) t rest rec (go t rest))
                        (sym (
                          upper-child malloc rec (node parts.low kids) (mask_of kids) (high_of kids)
                            mask parts.low rest parts.apart some_rest))
                        (insert_null maxslen malloc rec room small rounds (n - length parts.common)
                          (m + 2) rest (omega (arith, total, lt)) (omega (arith, total, within))
                          (IsBytes-after parts.common rest (subst IsBytes parts.key_is bytes)))) in
                subst (Inserts malloc n (node s kids) key rec) (sym is_descend) (
                  Inserts-before malloc n (node parts.common kids1) (node s kids) key rec
                    (descend go rec parts.common kids1 rest) (split-find s kids key mask parts)
                    (subst
                      (λ (l : List ℕ).
                        Inserts malloc n (node parts.common kids1) l rec
                          (descend go rec parts.common kids1 rest))
                      (sym parts.key_is) ended))
          ]
        ]
      ]

  pub insert_lem :
      (rounds n m : ℕ) (t : Tree R) (key : List ℕ)
      → IsSound n t
      → IsBytes key
      → length key ≤ n
      → height t + length key < rounds
      → Inserts malloc n t key rec (insert maxslen malloc rec rounds m t key)
  unfolding height
  insert_lem zero n m t key sound bytes within lt = absurd (omega (arith, lt))
  insert_lem (suc rounds) n m null key sound bytes within lt =
      insert_null maxslen malloc rec room small (suc rounds) n m key (omega (arith, lt)) within
        bytes
  insert_lem (suc rounds) n m (node s kids) key sound bytes within lt =
      insert_node rounds n m s kids key sound bytes within (omega (arith, lt))
        (λ t rest lower shorter sound_t bytes_rest within_rest.
          insert_lem rounds (n - length s) m t rest sound_t bytes_rest within_rest
            (omega (arith, lt, lower, shorter)))
