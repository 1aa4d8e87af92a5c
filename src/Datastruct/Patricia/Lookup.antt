-- ===== src/Datastruct/Patricia/Lookup.antt =====
-- The loop of `patricia_lookup` on a sound tree.
use tarsnap.Base.{
  ℕ, ◌-◌, ◌*◌, ◌/◌, ◌≡◌, ◌⊎◌, inl, inr, refl, sym, ap, subst, ◌∙◌, true, Option, none, some, List,
  [], ◌∷◌, ◌++◌, arith, ◌==◌, drop-append, length, drop, get_or,
}
use tarsnap.Datastruct.Patricia.{
  Tree, null, node, Kids, stop, fork, mask_of, high_of, compare, lookup, lookup_kids,
}
use tarsnap.Datastruct.Patricia.Find.{find, find_kids, after, after_common}
use tarsnap.Datastruct.Patricia.Compare.{IsBytes, pow_nonzero}
use tarsnap.Datastruct.Patricia.Sound.{IsSound, IsSoundKids, compare_lem}
use tarsnap.Datastruct.Patricia.Split.{miss}

pub IsBytes-after : (s t : List ℕ) → IsBytes (s ++ t) → IsBytes t
IsBytes-after [] t bytes = bytes
IsBytes-after (a ∷ s) t (small, bytes) = IsBytes-after s t bytes

module _ {R : Type 0} where
  mutual
    unfolding lookup find IsSound

    -- What the loop of `patricia_lookup` finds.
    pub lookup-find :
        (n : ℕ) (t : Tree R) (key : List ℕ) → IsSound n t → IsBytes key → lookup t key ≡ find t key
    lookup-find n null key sound bytes = refl
    lookup-find n (node s kids) key sound bytes =
        let chosen : (answer : Option (ℕ × ℕ))
            → compare s kids key ≡ answer
            → lookup (node s kids) key ≡ (elim answer as (λ x. Option R) [
              | some a ↦ none
              | none ↦ lookup_kids kids (drop (length s) key)
            ]) =
          λ answer is.
            ap
              (λ (o : Option (ℕ × ℕ)). elim o as (λ x. Option R) [
                | some a ↦ none
                | none ↦ lookup_kids kids (drop (length s) key)
              ])
              is in
        elim (compare_lem n s kids key sound bytes) [
          | inl (is, fits) ↦
              let rest_bytes : IsBytes fits.rest =
                IsBytes-after s fits.rest (subst IsBytes fits.key_is bytes) in
              let stripped : drop (length s) key ≡ fits.rest =
                ap (drop (length s)) fits.key_is ∙ drop-append s fits.rest in
              let below =
                lookup_kids-find (n - length s) kids fits.rest (sound.3) rest_bytes fits.goes_on in
              chosen none is
              ∙ ap (lookup_kids kids) stripped
              ∙ below
              ∙ sym (
                  ap (after s (find_kids kids)) fits.key_is
                  ∙ after_common s (find_kids kids) fits.rest)
          | inr (m, parts, is) ↦
              chosen (some (length parts.common, m)) is ∙ sym (miss s kids key m parts)
        ]

    lookup_kids-find :
        (n : ℕ) (kids : Kids R) (key : List ℕ)
        → IsSoundKids n kids
        → IsBytes key
        → (mask_of kids ≡ 0)
          ⊎ ((b : ℕ) × (rest : List ℕ) × (key ≡ b ∷ rest)
              × (b / (mask_of kids * 2) ≡ high_of kids / (mask_of kids * 2)))
        → lookup_kids kids key ≡ find_kids kids key
    lookup_kids-find n (stop left right) [] sound bytes goes_on = refl
    lookup_kids-find n (stop left right) (b ∷ key) sound bytes goes_on =
        lookup-find n right (b ∷ key) sound.1 bytes
    lookup_kids-find n (fork mask high left right) key
          ((j, lt, is), small, in_left, in_right, sound_left, sound_right) bytes (inl e) =
        absurd (pow_nonzero j (sym is ∙ e))
    lookup_kids-find n (fork mask high left right) [] sound bytes (inr (b, rest, is, agree)) =
        absurd (cc)
    lookup_kids-find n (fork mask high left right) (b ∷ key)
          (masked, small, in_left, in_right, sound_left, sound_right) bytes
          (inr (b', rest, is, agree)) =
        let fst : b ≡ b' = ap (λ (l : List ℕ). get_or l 0 0) is in
        let test : (b / (mask * 2) == high / (mask * 2)) ≡ true =
          rw fst (rw agree (ground arith)) in
        rw
          (
            test,
            lookup-find n left (b ∷ key) sound_left bytes,
            lookup-find n right (b ∷ key) sound_right bytes,
          )
          refl
