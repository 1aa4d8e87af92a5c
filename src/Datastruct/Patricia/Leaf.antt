-- ===== src/Datastruct/Patricia/Leaf.antt =====
-- The rounds of `patricia_insert` that have fallen off the bottom of the tree.
use tarsnap.Base.{
  ℕ, zero, suc, ◌+◌, ◌-◌, ◌%◌, ◌^◌, ◌≤◌, ◌<◌, ◌≡◌, ◌≢◌, ◌⊎◌, inl, inr, refl, sym, ap, subst, ◌∙◌,
  bit_xor, Bool, true, false, Option, none, some, List, [], ◌∷◌, ◌++◌, arith, ◌==◌, ltb,
  if◌then◌else◌, Bool-cases, length, take, drop, length-append, take-append-drop, length-take,
}
use tarsnap.Base.Bits.Xor.{bit_xor_self}
use tarsnap.Datastruct.Patricia.{
  null, node, Kids, stop, compare, compare_from, grow, split, fit, descend, insert,
}
use tarsnap.Datastruct.Patricia.Find.{find, find_kids, after}
use tarsnap.Datastruct.Patricia.Compare.{IsBytes}
use tarsnap.Datastruct.Patricia.Sound.{IsSound}
use tarsnap.Datastruct.Patricia.Lookup.{IsBytes-after}
use tarsnap.Datastruct.Patricia.Reshape.{IsBytes-before}
use tarsnap.Datastruct.Patricia.Attach.{Inserts, Inserts-before}
use tarsnap.Datastruct.Patricia.Descend.{descend_lem}
use tarsnap.Datastruct.Patricia.Round.{round, round_refused, failed-Inserts}

grown_fits : (s rest : List ℕ) (i : ℕ) → compare_from s 0 0 (s ++ rest) i ≡ none
unfolding compare_from
grown_fits [] [] i = refl
grown_fits [] (b ∷ rest) i = refl
grown_fits (a ∷ s) rest i =
    let same : bit_xor a a ≡ 0 = bit_xor_self a a (omega arith) in
    rw same (grown_fits s rest ((i + 1) % 2 ^ 8))

nil_of_length : (rest : List ℕ) → length rest ≡ 0 → rest ≡ []
nil_of_length [] h = refl
nil_of_length (b ∷ rest) h = absurd (omega (arith, h))

-- How much of a key goes into a new node.
new_length :
    (maxslen n : ℕ)
    → 1 ≤ maxslen
    → let slen = if ltb maxslen n then maxslen else n in
      (slen ≤ n) × (slen ≤ maxslen) × ((n ≡ 0) ⊎ (1 ≤ slen))
new_length maxslen n h = elim (Bool-cases (ltb maxslen n)) [
  | inl t ↦ rw t (ground (arith, t), omega arith, inr h)
  | inr t ↦ rw t (omega arith, ground (arith, t), some_or_none n)
]
  where
    some_or_none : (n : ℕ) → (n ≡ 0) ⊎ (1 ≤ n)
    some_or_none zero = inl refl
    some_or_none (suc n) = inr (omega arith)

module _ {R : Type 0} (maxslen : ℕ) (malloc : ℕ → Bool) (rec : R) (room : 1 ≤ maxslen)
    (small : maxslen < 2 ^ 8) where
  null_found : (s k : List ℕ) → find (node s (stop none null)) k ≡ find {R = R} null k
  unfolding find
  null_found s k = after_none s k
    where
      empty_stop : (k : List ℕ) → find_kids {R = R} (stop none null) k ≡ none
      empty_stop [] = refl
      empty_stop (b ∷ k) = refl

      after_none : (s k : List ℕ) → after s (find_kids {R = R} (stop none null)) k ≡ none
      after_none [] k = empty_stop k
      after_none (a ∷ s) [] = refl
      after_none (a ∷ s) (b ∷ k) = elim (Bool-cases (a == b)) [
        | inl t ↦ rw t (after_none s k)
        | inr t ↦ rw t refl
      ]

  new-IsSound :
      (n : ℕ) (s : List ℕ)
      → length s < 2 ^ 8
      → IsBytes s
      → length s ≤ n
      → IsSound {R = R} n (node s (stop none null))
  unfolding IsSound find
  new-IsSound n s short bytes within = (short, bytes, within, (refl, tt))

  new_fits :
      (s rest key : List ℕ) (n : ℕ)
      → s ++ rest ≡ key
      → fit {R = R} malloc n s (stop none null) key ≡ some (s, stop none null, n)
  unfolding fit compare
  new_fits s rest key n parted =
      let matched : compare_from s 0 0 key 0 ≡ none =
        ap (λ (l : List ℕ). compare_from s 0 0 l 0) (sym parted) ∙ grown_fits s rest 0 in
      ap
        (λ (o : Option (ℕ × ℕ)). elim o as (λ x. Option (List ℕ × Kids R × ℕ)) [
          | none ↦ some (s, stop none null, n)
          | some answer ↦ split malloc n s (stop none null) key answer
        ])
        matched

  null_grown :
      (n : ℕ) (key : List ℕ) (b : Bool)
      → malloc n ≡ b
      → let slen = if ltb maxslen (length key) then maxslen else length key in
        grow {R = R} maxslen malloc n null key
        ≡ (if b then some (take slen key, stop none null, n + 1) else none)
  unfolding grow
  null_grown n key b h =
      let slen = if ltb maxslen (length key) then maxslen else length key in
      ap (λ (c : Bool). if c then some (take slen key, stop none null, n + 1) else none) h

  pub insert_null :
      (rounds n m : ℕ) (key : List ℕ)
      → length key < rounds
      → length key ≤ n
      → IsBytes key
      → Inserts malloc n null key rec (insert maxslen malloc rec rounds m null key)
  unfolding IsSound
  insert_null zero n m key lt within bytes = absurd (omega (arith, lt))
  insert_null (suc rounds) n m key lt within bytes = elim (Bool-cases (malloc m)) [
    | inr refused ↦
        subst (Inserts malloc n null key rec)
          (sym (
            round_refused maxslen malloc rec room small rounds m null key
              (null_grown m key false refused)))
          (failed-Inserts maxslen malloc rec room small n null key m tt refused)
    | inl granted ↦
        let slen = if ltb maxslen (length key) then maxslen else length key in
        let s = take slen key in
        let rest = drop slen key in
        let (shorter, enough, progress) = new_length maxslen (length key) room in
        let parted : s ++ rest ≡ key = take-append-drop slen key in
        let len : length s ≡ slen = length-take slen key shorter in
        let total : length key ≡ slen + length rest =
          ap length (sym parted) ∙ length-append s rest ∙ ap (λ (l : ℕ). l + length rest) len in
        let parted_bytes = subst IsBytes (sym parted) bytes in
        let sound : IsSound n (node s (stop none null)) =
          new-IsSound n s (omega (arith, len, enough, small)) (IsBytes-before s rest parted_bytes)
            (omega (arith, len, shorter, within)) in
        let fits : fit malloc (m + 1) s (stop none null) key ≡ some (s, stop none null, m + 1) =
          new_fits s rest key (m + 1) parted in
        let stripped : drop (length s) key ≡ rest = ap (λ (l : ℕ). drop l key) len in
        let go = insert maxslen malloc rec rounds (m + 1) in
        let is : insert maxslen malloc rec (suc rounds) m null key
            ≡ descend go rec s (stop none null) rest =
          round maxslen malloc rec room small rounds m (m + 1) (m + 1) null s s (stop none null)
            (stop none null) key (null_grown m key true granted) fits
          ∙ ap (descend go rec s (stop none null)) stripped in
        let below : rest ≢ [] → Inserts malloc (n - length s) null rest rec (go null rest) =
          λ some_rest.
            let nonzero : length rest ≢ 0 = λ z. some_rest (nil_of_length rest z) in
            insert_null rounds (n - length s) (m + 1) rest
              (elim progress [
                | inl none_key ↦ absurd (nonzero (omega (arith, total, none_key)))
                | inr one ↦ omega (arith, total, one, lt)
              ])
              (omega (arith, total, len, within)) (IsBytes-after s rest parted_bytes) in
        let ended = descend_lem malloc rec go n s (stop none null) rest sound (inl refl) below in
        subst (Inserts malloc n null key rec) (sym is) (
          Inserts-before malloc n (node s (stop none null)) null key rec
            (descend go rec s (stop none null) rest) (null_found s)
            (subst
              (λ (l : List ℕ).
                Inserts malloc n (node s (stop none null)) l rec
                  (descend go rec s (stop none null) rest))
              parted ended))
  ]
