-- ===== src/Datastruct/Rwhashtab.antt =====
-- lib/datastruct/rwhashtab.c: an open-addressing hash table of pointers to records.
--
-- A record is a value of type `R`; `key` reads its key, the `keylength` bytes at `keyoffset`. `hash`
-- is the first eight bytes of `crypto_hash_data_2` over `randbuf` and the key, read by `le64dec`.
-- `alloc` says whether `malloc` grants a request of so many bytes.
pub mod Slots
pub mod Probe
pub mod Table
pub mod Written
pub mod Enlarge
pub mod Insert
pub mod Implements
mod Tests
use tarsnap.Base.{
  ℕ, zero, suc, ◌+◌, ◌-◌, ◌*◌, ◌/◌, ◌%◌, ◌^◌, bit_and, Bool, true, false, Option, none, some, List,
  [], ◌∷◌, ltb, leb, ◌==◌, if◌then◌else◌, Eq, get_or, set, replicate,
}
use tarsnap.Datastruct.KeyedTable.{Inserted, done, present, failed}

abbrev pub size_max : ℕ
size_max = 2 ^ 64 - 1

-- `struct rwhashtab_internal`; the table's `NULL` is `none`.
pub record Rwhashtab {ℓ} (R : Type ℓ) : Type ℓ where
  pub cursize : ℕ
  pub numentries : ℕ
  pub ht : List (Option R)
  pub randbuf : List ℕ

abbrev pub slot {ℓ} : {R : Type ℓ} → List (Option R) → ℕ → Option R
slot ht i = get_or ht i none

unfoldable pub init {ℓ} : {R : Type ℓ} → ℕ → Option (List ℕ) → (ℕ → Bool) → Option (Rwhashtab R)
init keylength entropy alloc =
    if keylength == 0
    then none
    else if alloc 72
    then elim entropy [
      | none ↦ none
      | some bytes ↦
          if alloc (4 * 8)
          then some (record { cursize = 4; numentries = 0; ht = replicate 4 none; randbuf = bytes })
          else none
    ]
    else none

unfoldable pub getsize {ℓ} : {R : Type ℓ} → Rwhashtab R → ℕ
getsize H = H.numentries

-- `func` is given the cookie and a record, and returns the cookie's new state and its status.
unfoldable pub foreach {ℓ κ μ} :
    {R : Type ℓ} {C : Type κ} {S : Type μ}
    → (C → R → C × Option S)
    → List (Option R)
    → C
    → C × Option S
foreach func [] cookie = (cookie, none)
foreach func (none ∷ slots) cookie = foreach func slots cookie
foreach func (some rec ∷ slots) cookie =
    let (cookie', rc) = func cookie rec in
    elim rc [ none ↦ foreach func slots cookie' | some status ↦ (cookie', some status) ]

module _ {ℓ κ} {K : Type ℓ} {R : Type κ} ⦃e : Eq K⦄ (key : R → K) where
  -- The loop of `rwhashtab_search`, a round for each unit of fuel. The mask also hides the wrap of
  -- `htpos + 1`.
  unfoldable pub probe : ℕ → List (Option R) → ℕ → K → ℕ → ℕ
  probe zero ht size k pos = pos
  probe (suc fuel) ht size k pos = elim (slot ht pos) [
    | none ↦ pos
    | some rec ↦ elim (e.beq (key rec) k) [
      | true ↦ pos
      | false ↦ probe fuel ht size k (bit_and (pos + 1) (size - 1))
    ]
  ]

module _ {ℓ κ} {K : Type ℓ} {R : Type κ} ⦃e : Eq K⦄ (key : R → K) (hash : List ℕ → K → ℕ) where
  unfoldable pub home : Rwhashtab R → K → ℕ
  home H k = bit_and (hash H.randbuf k) (H.cursize - 1)

  unfoldable pub search_pos : Rwhashtab R → K → ℕ
  search_pos H k = probe key H.cursize H.ht H.cursize k (home H k)

  -- The body of the loop that moves the records to the new table.
  unfoldable pub place : Rwhashtab R → Option R → Rwhashtab R
  place H none = H
  place H (some rec) = record H { ht = set H.ht (search_pos H (key rec)) (some rec) }

  unfoldable pub rehash : Rwhashtab R → List (Option R) → Rwhashtab R
  rehash H [] = H
  rehash H (x ∷ xs) = rehash (place H x) xs

  abbrev pub fresh : Rwhashtab R → ℕ → Rwhashtab R
  fresh H newsize = record H { cursize = newsize; ht = replicate newsize none }

  unfoldable pub enlarge : (ℕ → Bool) → Rwhashtab R → Option (Rwhashtab R)
  enlarge alloc H =
      let newsize = H.cursize * 2 % 2 ^ 64 in
      if ltb (size_max / 8) newsize
      then none
      else if alloc (newsize * 8)
      then some (rehash (fresh H newsize) H.ht)
      else none

  unfoldable pub insert_free : Rwhashtab R → R → Rwhashtab R × Inserted
  insert_free H rec =
      let htpos = search_pos H (key rec) in
      elim (slot H.ht htpos) [
        | some other ↦ (H, present)
        | none ↦ (
          record H { ht = set H.ht htpos (some rec); numentries = (H.numentries + 1) % 2 ^ 64 },
          done,
        )
      ]

  unfoldable pub insert : (ℕ → Bool) → Rwhashtab R → R → Rwhashtab R × Inserted
  insert alloc H rec =
      if leb (H.cursize - H.cursize / 4) H.numentries
      then elim (enlarge alloc H) [ none ↦ (H, failed) | some G ↦ insert_free G rec ]
      else insert_free H rec

  unfoldable pub read : Rwhashtab R → K → Option R
  read H k = slot H.ht (search_pos H k)

  -- A write through the pointer that `read` returned.
  unfoldable pub poke : Rwhashtab R → K → R → Rwhashtab R
  poke H k rec = record H { ht = set H.ht (search_pos H k) (some rec) }
