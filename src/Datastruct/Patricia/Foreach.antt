-- ===== src/Datastruct/Patricia/Foreach.antt =====
-- The traversal of a valid tree.
use tarsnap.Base.{
  ℕ, ◌-◌, ◌≡◌, inl, inr, sym, ap, subst, ◌∙◌, Bool, ◌||◌, Option, none, some, List, [], ◌∷◌, ◌++◌,
  arith, ◌==◌, if◌then◌else◌, length,
}
use mathlib.Core.List.Memᴰ
use mathlib.Core.List.{Memᴰ}
use tarsnap.Datastruct.Patricia.{Tree, null, node, Kids, stop, fork}
use tarsnap.Datastruct.Patricia.Find.{find}
use tarsnap.Datastruct.Patricia.Compare.{IsBytes}
use tarsnap.Datastruct.Patricia.Sound.{IsSound, IsSoundKids}
use tarsnap.Datastruct.Patricia.Walk.{entries, entries_kids}
use tarsnap.Datastruct.Patricia.{Patricia, patricia_lookup, patricia_foreach}
use tarsnap.Datastruct.Patricia.Refines.{IsValid, lookup_at}
use tarsnap.Datastruct.Patricia.Walk.{deliver, foreach_internal_lem}
use tarsnap.Datastruct.Patricia.Entries.{entries-find, find-entries}
use tarsnap.Datastruct.Patricia.Order.{IsAscending, entries-IsAscending}

IsBytes-append : (s t : List ℕ) → IsBytes s → IsBytes t → IsBytes (s ++ t)
IsBytes-append [] t bytes_s bytes_t = bytes_t
IsBytes-append (a ∷ s) t (small, bytes_s) bytes_t = (small, IsBytes-append s t bytes_s bytes_t)

module _ {R : Type 0} where
  mutual
    unfolding entries IsSound

    entries-IsBytes :
        (n : ℕ) (prefix : List ℕ) (t : Tree R) (x : List ℕ × R)
        → IsSound n t
        → IsBytes prefix
        → Memᴰ x (entries prefix t)
        → IsBytes x.0
    entries-IsBytes n prefix null x sound bytes m = absurd (Memᴰ.not-nil m)
    entries-IsBytes n prefix (node s kids) x (short, bytes_s, within, sound) bytes m =
        entries_kids-IsBytes (n - length s) (prefix ++ s) kids x sound
          (IsBytes-append prefix s bytes bytes_s) m

    entries_kids-IsBytes :
        (n : ℕ) (prefix : List ℕ) (kids : Kids R) (x : List ℕ × R)
        → IsSoundKids n kids
        → IsBytes prefix
        → Memᴰ x (entries_kids prefix kids)
        → IsBytes x.0
    entries_kids-IsBytes n prefix (stop none right) x (at_end, sound) bytes m =
        entries-IsBytes n prefix right x sound bytes m
    entries_kids-IsBytes n prefix (stop (some r) right) x (at_end, sound) bytes m =
        elim (Memᴰ.cases_cons m) [
          | inl is ↦ subst IsBytes (ap (λ (y : List ℕ × R). y.0) (sym is)) bytes
          | inr m ↦ entries-IsBytes n prefix right x sound bytes m
        ]
    entries_kids-IsBytes n prefix (fork mask high left right) x
          (masked, small, below_left, below_right, sound_left, sound_right) bytes m =
        elim (Memᴰ.append_cases (entries prefix left) m) [
          | inl m ↦ entries-IsBytes n prefix left x sound_left bytes m
          | inr m ↦ entries-IsBytes n prefix right x sound_right bytes m
        ]

  -- What the traversal of a tree calls back for: strings of bytes in ascending order, which are those
  -- that are found, each with the record found there.
  abbrev pub IsListing : Patricia R → List (List ℕ × R) → Type 0
  IsListing P xs =
      IsAscending xs
      × ((x : List ℕ × R) → Memᴰ x xs → IsBytes x.0 × (patricia_lookup P x.0 ≡ some x.1))
      × ((key : List ℕ) (r : R) → IsBytes key → patricia_lookup P key ≡ some r → Memᴰ (key, r) xs)

  listing : (P : Patricia R) → IsValid P → IsListing P (entries [] P.root)
  listing P valid = (
    entries-IsAscending P.maxkey [] P.root valid,
    λ x m.
        let bytes = entries-IsBytes P.maxkey [] P.root x valid tt m in
        let (key, is, found) = entries-find P.maxkey [] P.root x valid m in
        (bytes, lookup_at P valid x.0 bytes ∙ ap (find P.root) is ∙ found),
    λ key r bytes found. find-entries [] P.root key r (sym (lookup_at P valid key bytes) ∙ found),
  )

  -- patricia_foreach on a valid tree calls the callback for the keys that patricia_lookup finds, each
  -- once, with the record found, in lexicographical order, until the callback returns another value
  -- than 0, and returns that value. No key overruns the buffer; without memory for it, it returns -1
  -- and makes no call.
  pub patricia_foreach_lem :
      {S E : Type 0} (func : S → List ℕ → R → S × Option E) (malloc : ℕ → Bool) (P : Patricia R)
      → IsValid P
      → (xs : List (List ℕ × R)) × IsListing P xs
        × ((s : S)
            → patricia_foreach func malloc P s ≡ (
                if malloc P.maxkey || (P.maxkey == 0)
                then some (some (deliver func xs s))
                else some none))
  unfolding patricia_foreach
  patricia_foreach_lem {S} {E} func malloc P valid = (
    entries [] P.root,
    listing P valid,
    λ s.
        let walked = foreach_internal_lem func P.maxkey P.maxkey P.root s [] valid (omega arith) in
        rw walked (ground arith),
  )
