-- ===== src/Datastruct/KeyedTable.antt =====
-- What the chunk layer relies on of lib/datastruct/rwhashtab.h: a table of records with keys, as the
-- operations of that header and their laws. `Rwhashtab/Implements` fills it from rwhashtab.c.
use tarsnap.Base.{
  ℕ, ◌+◌, ◌≡◌, ◌≢◌, Option, none, some, List, [], ◌∷◌, Eq, All, sum_by, if◌then◌else◌,
}

-- What `rwhashtab_insert` returns: 0, 1 and -1.
pub data Inserted : Type 0 where
  done present failed : Inserted

module _ {T K R : Type 0} ⦃e : Eq K⦄ (key : R → K) (read : T → K → Option R)
    (records : T → List R) where
  -- The reads of `u` are those of `t` but for the record `new`.
  abbrev pub Updates : T → R → T → Type 0
  Updates t new u = (j : K) → read u j ≡ (if e.beq (key new) j then some new else read t j)

  abbrev pub InsertLaw : T → R → T × Inserted → Type 0
  InsertLaw t new (u, done) =
      (read t (key new) ≡ none)
      × Updates t new u
      × ((f : R → ℕ) → sum_by f (records u) ≡ f new + sum_by f (records t))
  InsertLaw t new (u, present) =
      (read t (key new) ≢ none)
      × ((j : K) → read u j ≡ read t j)
      × ((f : R → ℕ) → sum_by f (records u) ≡ sum_by f (records t))
  InsertLaw t new (u, failed) = u ≡ t

module _ {K R : Type 0} ⦃e : Eq K⦄ (key : R → K) where
  -- The first record of the list with the key.
  abbrev pub find_in : K → List R → Option R
  find_in k [] = none
  find_in k (r ∷ rs) = if e.beq (key r) k then some r else find_in k rs

  -- No two records of the list have one key.
  abbrev pub AllDistinct : List R → Type 0
  AllDistinct [] = Unit {0}
  AllDistinct (r ∷ rs) = (find_in (key r) rs ≡ none) × AllDistinct rs

pub record KeyedTable {K R : Type 0} ⦃e : Eq K⦄ (key : R → K) : Type 1 where
  pub T : Type 0
  pub IsOk : T → Type 0
  pub init : Option T
  pub read : T → K → Option R
  pub insert : T → R → T × Inserted
  -- A write through the pointer that `read` returned.
  pub poke : T → K → R → T
  pub getsize : T → ℕ
  -- The records in the order in which `rwhashtab_foreach` visits them.
  pub records : T → List R
  pub init_law : (t : T) → init ≡ some t → IsOk t × ((k : K) → read t k ≡ none) × (records t ≡ [])
  pub insert_law :
      (t : T) (new : R)
      → IsOk t
      → IsOk (insert t new).0 × InsertLaw key read records t new (insert t new)
  pub poke_law :
      (t : T) (k : K) (old new : R)
      → IsOk t
      → read t k ≡ some old
      → key new ≡ key old
      → IsOk (poke t k new)
        × Updates key read records t new (poke t k new)
        × ((f : R → ℕ) → sum_by f (records (poke t k new)) + f old ≡ sum_by f (records t) + f new)
  pub read_law : (t : T) (k : K) (r : R) → IsOk t → read t k ≡ some r → key r ≡ k
  pub records_law :
      (t : T) (P : R → Type 0)
      → IsOk t
      → ((k : K) (r : R) → read t k ≡ some r → P r)
      → All P (records t)
  pub find_law : (t : T) (k : K) → IsOk t → find_in key k (records t) ≡ read t k
  pub distinct_law : (t : T) → IsOk t → AllDistinct key (records t)
  pub getsize_law : (t : T) → IsOk t → getsize t ≡ sum_by (λ r. 1) (records t)
