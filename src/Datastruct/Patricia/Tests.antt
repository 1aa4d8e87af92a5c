-- ===== src/Datastruct/Patricia/Tests.antt =====
-- Trees of one and two keys, and the claims at them.
use tarsnap.Base.{
  ℕ, ◌+◌, ◌≡◌, ◌||◌, ◌==◌, refl, sym, ap, subst, ◌∙◌, Bool, true, Option, none, some, List, [], ◌∷◌,
  arith, if◌then◌else◌,
}
use tarsnap.Datastruct.KeyedTable.{Inserted, done, present}
use tarsnap.Datastruct.Patricia.{
  Tree, null, node, stop, fork, Patricia, patricia_insert, patricia_lookup, patricia_foreach,
  lookup, insert, grow, fit, compare, compare_from, compare_high, critical, above, split, upper,
  descend, height, foreach_internal,
}
use tarsnap.Datastruct.Patricia.Find.{find}
use tarsnap.Datastruct.Patricia.Sound.{IsSound}
use tarsnap.Datastruct.Patricia.Refines.{IsValid, InsertLaw, patricia_insert_lem}
use tarsnap.Datastruct.Patricia.Walk.{deliver}
use tarsnap.Datastruct.Patricia.Foreach.{IsListing, patricia_foreach_lem}

abbrev memory : ℕ → Bool
memory n = true

abbrev hi_tree : Tree ℕ
hi_tree = node (104 ∷ 105 ∷ []) (stop (some 1) null)

abbrev one_key : Patricia ℕ
one_key = record { root = hi_tree; maxkey = 2 }

abbrev two_keys : Patricia ℕ
two_keys = record {
  root = node [] (fork 16 96 hi_tree (node (119 ∷ []) (stop (some 2) null)));
  maxkey = 2;
}

-- The first key of an empty tree, and one that differs from it in the fourth bit.
insert_first :
    patricia_insert 8 memory (record { root = null; maxkey = 0 }) (104 ∷ 105 ∷ []) 1
    ≡ some (one_key, done)
unfolding patricia_insert insert grow fit compare compare_from critical descend height
insert_first = refl

insert_second : patricia_insert 8 memory one_key (119 ∷ []) 2 ≡ some (two_keys, done)
unfolding patricia_insert insert grow fit compare compare_from compare_high critical above split
    upper descend height
insert_second = refl

insert_again : patricia_insert 8 memory two_keys (119 ∷ []) 3 ≡ some (two_keys, present)
unfolding patricia_insert insert grow fit compare compare_from compare_high critical above split
    upper descend height
insert_again = refl

-- A key's prefix has no record of its own.
lookup_prefix : patricia_lookup two_keys (104 ∷ []) ≡ none
unfolding patricia_lookup lookup compare compare_from compare_high critical above
lookup_prefix = refl

one_key-IsValid : IsValid one_key
unfolding IsSound find
one_key-IsValid = (omega arith, (omega arith, (omega arith, tt)), omega arith, (refl, tt))

patricia_insert_lem_example :
    (Q : Patricia ℕ) × (answer : Inserted) × (patricia_insert 8 memory one_key (119 ∷ []) 2
      ≡ some (Q, answer))
    × IsValid Q
    × InsertLaw memory one_key (119 ∷ []) 2 answer Q
patricia_insert_lem_example =
    patricia_insert_lem 8 memory one_key (119 ∷ []) 2 (omega arith) (omega arith) (omega arith, tt)
      one_key-IsValid

two_keys-IsValid : IsValid two_keys
two_keys-IsValid =
    let (Q, answer, is, valid, law) =
      patricia_insert_lem 8 memory one_key (119 ∷ []) 2 (omega arith) (omega arith)
        (omega arith, tt) one_key-IsValid in
    subst IsValid (ap tree_of (sym is ∙ insert_second)) valid
  where
    tree_of : Option (Patricia ℕ × Inserted) → Patricia ℕ
    tree_of none = one_key
    tree_of (some (P, answer)) = P

-- A callback that counts and stops at the record 2.
abbrev count : ℕ → List ℕ → ℕ → ℕ × Option ℕ
count n key r = if r == 2 then (n + 1, some 7) else (n + 1, none)

patricia_foreach_lem_example :
    (xs : List (List ℕ × ℕ)) × IsListing two_keys xs
    × ((s : ℕ)
        → patricia_foreach count memory two_keys s
          ≡ (if memory 2 || (2 == 0) then some (some (deliver count xs s)) else some none))
patricia_foreach_lem_example = patricia_foreach_lem count memory two_keys two_keys-IsValid

foreach_two : patricia_foreach count memory two_keys 0 ≡ some (some (2, some 7))
unfolding patricia_foreach foreach_internal
foreach_two = refl
