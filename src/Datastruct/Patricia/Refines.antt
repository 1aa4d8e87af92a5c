-- ===== src/Datastruct/Patricia/Refines.antt =====
-- The operations of the tree as those of a map from strings of bytes to records.
use tarsnap.Base.{
  ℕ, ◌+◌, ◌-◌, inl, inr, ◌≡◌, ◌≢◌, ◌≤◌, ◌<◌, ◌^◌, ◌∙◌, refl, sym, ap, Bool, false, Option, none,
  some, List, length, arith, ltb, if◌then◌else◌, Bool-cases, same_bytes,
}
use tarsnap.Datastruct.KeyedTable.{Inserted, done, present, failed}
use tarsnap.Datastruct.Patricia.{
  Tree, null, node, Kids, stop, fork, Patricia, patricia_insert, patricia_lookup, height,
}
use tarsnap.Datastruct.Patricia.Find.{find}
use tarsnap.Datastruct.Patricia.Compare.{IsBytes}
use tarsnap.Datastruct.Patricia.Sound.{IsSound, IsSoundKids}
use tarsnap.Datastruct.Patricia.Lookup.{lookup-find}
use tarsnap.Datastruct.Patricia.Law.{Law}
use tarsnap.Datastruct.Patricia.Insert.{insert_lem}

module _ {R : Type 0} where
  -- A sound tree whose longest path is no longer than the longest key.
  abbrev pub IsValid : Patricia R → Type 0
  IsValid P = IsSound P.maxkey P.root

  -- What the lookups find after an insertion, as its answer has it.
  abbrev pub InsertLaw : (ℕ → Bool) → Patricia R → List ℕ → R → Inserted → Patricia R → Type 0
  InsertLaw malloc P key rec done Q =
      (patricia_lookup P key ≡ none)
      × ((k : List ℕ)
          → IsBytes k
          → patricia_lookup Q k ≡ (if same_bytes key k then some rec else patricia_lookup P k))
  InsertLaw malloc P key rec present Q =
      (patricia_lookup P key ≢ none)
      × ((k : List ℕ) → IsBytes k → patricia_lookup Q k ≡ patricia_lookup P k)
  InsertLaw malloc P key rec failed Q =
      ((i : ℕ) × (malloc i ≡ false))
      × ((k : List ℕ) → IsBytes k → patricia_lookup Q k ≡ patricia_lookup P k)

  mutual
    unfolding IsSound

    IsSound-longer : (n m : ℕ) (t : Tree R) → n ≤ m → IsSound n t → IsSound m t
    IsSound-longer n m null le sound = tt
    IsSound-longer n m (node s kids) le (short, bytes, within, sound) = (
      short,
      bytes,
      omega (arith, le, within),
      IsSoundKids-longer (n - length s) (m - length s) kids (omega (arith, le)) sound,
    )

    IsSoundKids-longer : (n m : ℕ) (kids : Kids R) → n ≤ m → IsSoundKids n kids → IsSoundKids m kids
    IsSoundKids-longer n m (stop left right) le (at_end, sound) =
        (at_end, IsSound-longer n m right le sound)
    IsSoundKids-longer n m (fork mask high left right) le
          (masked, small, in_left, in_right, sound_left, sound_right) =
        (
          masked,
          small,
          in_left,
          in_right,
          IsSound-longer n m left le sound_left,
          IsSound-longer n m right le sound_right,
        )

  pub lookup_at :
      (P : Patricia R) → IsValid P → (k : List ℕ) → IsBytes k → patricia_lookup P k ≡ find P.root k
  unfolding patricia_lookup
  lookup_at P valid k bytes = lookup-find P.maxkey P.root k valid bytes

  lookup-Law :
      (malloc : ℕ → Bool) (P Q : Patricia R) (key : List ℕ) (rec : R) (answer : Inserted)
      → IsValid P
      → IsValid Q
      → IsBytes key
      → (answer ≡ failed → (i : ℕ) × (malloc i ≡ false))
      → Law (find P.root) key rec answer (find Q.root)
      → InsertLaw malloc P key rec answer Q
  lookup-Law malloc P Q key rec done valid valid_Q bytes memory (new, h) = (
    lookup_at P valid key bytes ∙ new,
    λ k bytes_k.
        lookup_at Q valid_Q k bytes_k
        ∙ h k
        ∙ ap (λ (o : Option R). if same_bytes key k then some rec else o)
            (sym (lookup_at P valid k bytes_k)),
  )
  lookup-Law malloc P Q key rec present valid valid_Q bytes memory (old, h) = (
    λ e. old (sym (lookup_at P valid key bytes) ∙ e),
    λ k bytes_k. lookup_at Q valid_Q k bytes_k ∙ h k ∙ sym (lookup_at P valid k bytes_k),
  )
  lookup-Law malloc P Q key rec failed valid valid_Q bytes memory h = (
    memory refl,
    λ k bytes_k. lookup_at Q valid_Q k bytes_k ∙ h k ∙ sym (lookup_at P valid k bytes_k),
  )

  -- Whatever allocations fail, with room for 1 to 255 bytes in a node, patricia_insert of a string of
  -- bytes into a valid tree ends. It returns a valid tree and 0 for a key that was not there, after
  -- which patricia_lookup finds the record at the key and what it found elsewhere; 1 for a key that
  -- was there, or -1 if an allocation failed, and then patricia_lookup finds what it found.
  pub patricia_insert_lem :
      (maxslen : ℕ) (malloc : ℕ → Bool) (P : Patricia R) (key : List ℕ) (rec : R)
      → 1 ≤ maxslen
      → maxslen < 2 ^ 8
      → IsBytes key
      → IsValid P
      → (Q : Patricia R) × (answer : Inserted) × (patricia_insert maxslen malloc P key rec
          ≡ some (Q, answer))
        × IsValid Q
        × InsertLaw malloc P key rec answer Q
  unfolding patricia_insert
  patricia_insert_lem maxslen malloc P key rec room small bytes valid =
      let maxkey = if ltb P.maxkey (length key) then length key else P.maxkey in
      let (longer, enough) = new_maxkey P.maxkey (length key) in
      let h =
        insert_lem maxslen malloc rec room small (height P.root + length key + 1) maxkey 0 P.root
          key (IsSound-longer P.maxkey maxkey P.root longer valid) bytes enough (omega arith) in
      let Q : Patricia R = record { root = h.tree; maxkey = maxkey } in
      let wide : Patricia R = record { root = P.root; maxkey = maxkey } in
      (
        Q,
        h.answer,
        ap
            (λ (o : Option (Tree R × Inserted)). elim o as (λ x. Option (Patricia R × Inserted)) [
              | none ↦ none
              | some (t, answer) ↦ some (record { root = t; maxkey = maxkey }, answer)
            ])
            h.is,
        h.sound,
        lookup-Law malloc P Q key rec h.answer valid h.sound bytes h.memory h.law,
      )
    where
      new_maxkey : (a b : ℕ) → let c = if ltb a b then b else a in (a ≤ c) × (b ≤ c)
      new_maxkey a b = elim (Bool-cases (ltb a b)) [
        | inl t ↦ rw t (ground (arith, t), omega arith)
        | inr t ↦ rw t (omega arith, ground (arith, t))
      ]
