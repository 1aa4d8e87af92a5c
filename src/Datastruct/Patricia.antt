-- ===== src/Datastruct/Patricia.antt =====
-- lib/datastruct/patricia.c: a map from strings of bytes to records. A node is a value, a NULL
-- child is `null`, and `slen` is the length of `s`.
pub mod Digits
pub mod Find
pub mod Compare
pub mod Sound
pub mod Split
pub mod Lookup
pub mod Reshape
pub mod Law
pub mod Attach
pub mod Descend
pub mod Divide
pub mod Round
pub mod Leaf
pub mod Insert
pub mod Refines
pub mod Walk
pub mod Entries
pub mod Order
pub mod Foreach
mod Tests
use tarsnap.Base.{
  ℕ, zero, suc, ◌+◌, ◌-◌, ◌*◌, ◌/◌, ◌%◌, ◌^◌, bit_and, bit_xor, Bool, true, false, Option, none,
  some, List, [], ◌∷◌, ◌++◌, ltb, leb, ◌==◌, if◌then◌else◌, length, take, drop, get_or,
}
use tarsnap.Datastruct.KeyedTable.{Inserted, done, present, failed}

-- `struct pnode`. The union of a record and a left child that `mask` tells apart is two constructors
-- of what follows `s`: with mask 0, a record if the key ends here and the child where it goes on (of
-- `high` nothing reads); otherwise the mask, the high bits and the two children.
mutual
  pub data Tree (R : Type 0) : Type 0 where
    null : Tree R
    node : List ℕ → Kids R → Tree R

  pub data Kids (R : Type 0) : Type 0 where
    stop : Option R → Tree R → Kids R
    fork : ℕ → ℕ → Tree R → Tree R → Kids R

-- `struct patricia_internal`
pub record Patricia (R : Type 0) : Type 0 where
  pub root : Tree R
  pub maxkey : ℕ

-- The bits above a mask, `(- mask) << 1` of a byte.
unfoldable pub above : ℕ → ℕ
above mask = (2 ^ 8 - mask) * 2 % 2 ^ 8

-- The loop that finds the highest bit of `mm` from `mask` down.
unfoldable pub critical : ℕ → ℕ → ℕ → ℕ
critical zero mask mm = mask
critical (suc rounds) mask mm =
    let rest = critical rounds (mask / 2) mm in if bit_and mm mask == 0 then rest else mask

-- The high bits of a node with a mask against the next byte of the key.
unfoldable pub compare_high : ℕ → ℕ → ℕ → ℕ → Option (ℕ × ℕ)
compare_high mask high b i =
    let mm = bit_and (bit_xor high b) (above mask) in
    if mm == 0 then none else some (i, critical 8 (2 ^ 7) mm)

-- `none` for 0, or what `compare` sets `mlen` and `mask` to. The first `i` bytes match.
unfoldable pub compare_from : List ℕ → ℕ → ℕ → List ℕ → ℕ → Option (ℕ × ℕ)
compare_from [] mask high [] i = if mask == 0 then none else some (i, 0)
compare_from [] mask high (b ∷ key) i = if mask == 0 then none else compare_high mask high b i
compare_from (a ∷ s) mask high [] i = some (i, 0)
compare_from (a ∷ s) mask high (b ∷ key) i =
    let rest = compare_from s mask high key ((i + 1) % 2 ^ 8) in
    let mm = bit_xor a b in if mm == 0 then rest else some (i, critical 8 (2 ^ 7) mm)

module _ {R : Type 0} where
  abbrev pub mask_of : Kids R → ℕ
  mask_of (stop left right) = 0
  mask_of (fork mask high left right) = mask

  abbrev pub high_of : Kids R → ℕ
  high_of (stop left right) = 0
  high_of (fork mask high left right) = high

  unfoldable pub compare : List ℕ → Kids R → List ℕ → Option (ℕ × ℕ)
  compare s kids key = compare_from s (mask_of kids) (high_of kids) key 0

  unfoldable mutual
    pub lookup : Tree R → List ℕ → Option R
    lookup null key = none
    lookup (node s kids) key = elim (compare s kids key) as (λ x. Option R) [
      | some answer ↦ none
      | none ↦ lookup_kids kids (drop (length s) key)
    ]

    -- The rest of the loop's body, with the matching part of the key stripped off.
    pub lookup_kids : Kids R → List ℕ → Option R
    lookup_kids (stop left right) [] = left
    lookup_kids (stop left right) (b ∷ key) = lookup right (b ∷ key)
    lookup_kids (fork mask high left right) key =
        let at_left = lookup left key in
        let at_right = lookup right key in
        if bit_and (get_or key 0 0) mask == 0 then at_left else at_right

  -- The record that the pointer it returns points to.
  unfoldable pub patricia_lookup : Patricia R → List ℕ → Option R
  patricia_lookup P key = lookup P.root key

  -- Below, `malloc n` is whether the `n`-th call of `malloc` succeeds. First, the node at hand; a NULL
  -- pointer is set to a new node with up to `maxslen` bytes of the key.
  unfoldable pub grow : ℕ → (ℕ → Bool) → ℕ → Tree R → List ℕ → Option (List ℕ × Kids R × ℕ)
  grow maxslen malloc n null key =
      let slen = if ltb maxslen (length key) then maxslen else length key in
      if malloc n then some (take slen key, stop none null, n + 1) else none
  grow maxslen malloc n (node s kids) key = some (s, kids, n)

  -- What the upper of two new nodes has below it, `b` being the key's byte after its own.
  unfoldable pub upper : ℕ → ℕ → Tree R → Kids R
  upper mask b lower =
      if mask == 0
      then stop none lower
      else if bit_and b mask == 0
      then fork mask (bit_and b (above mask)) null lower
      else fork mask (bit_and b (above mask)) lower null

  unfoldable pub split :
      (ℕ → Bool) → ℕ → List ℕ → Kids R → List ℕ → ℕ × ℕ → Option (List ℕ × Kids R × ℕ)
  split malloc n s kids key (mlen, mask) =
      if malloc n
      then if malloc (n + 1)
        then some (take mlen key, upper mask (get_or key mlen 0) (node (drop mlen s) kids), n + 2)
        else none
      else none

  unfoldable pub fit : (ℕ → Bool) → ℕ → List ℕ → Kids R → List ℕ → Option (List ℕ × Kids R × ℕ)
  fit malloc n s kids key = elim (compare s kids key) as (λ x. Option (List ℕ × Kids R × ℕ)) [
    | none ↦ some (s, kids, n)
    | some answer ↦ split malloc n s kids key answer
  ]

  abbrev pub attach : (Tree R → Tree R) → Option (Tree R × Inserted) → Option (Tree R × Inserted)
  attach f none = none
  attach f (some (t, answer)) = some (f t, answer)

  -- From the node at hand on, with the matching part of the key stripped off; `go` is the next round.
  unfoldable pub descend :
      (Tree R → List ℕ → Option (Tree R × Inserted))
      → R
      → List ℕ
      → Kids R
      → List ℕ
      → Option (Tree R × Inserted)
  descend go rec s (stop none right) [] = some (node s (stop (some rec) right), done)
  descend go rec s (stop (some old) right) [] = some (node s (stop (some old) right), present)
  descend go rec s (stop left right) (b ∷ key) =
      attach (λ t. node s (stop left t)) (go right (b ∷ key))
  descend go rec s (fork mask high left right) key =
      if bit_and (get_or key 0 0) mask == 0
      then attach (λ t. node s (fork mask high t right)) (go left key)
      else attach (λ t. node s (fork mask high left t)) (go right key)

  -- The loop of `patricia_insert`; `none` is for a loop of more rounds than given.
  unfoldable pub insert : ℕ → (ℕ → Bool) → R → ℕ → ℕ → Tree R → List ℕ → Option (Tree R × Inserted)
  insert maxslen malloc rec zero n t key = none
  insert maxslen malloc rec (suc rounds) n t key =
      elim (grow maxslen malloc n t key) as (λ x. Option (Tree R × Inserted)) [
        | none ↦ some (t, failed)
        | some (s, kids, n1) ↦
            elim (fit malloc n1 s kids key) as (λ x. Option (Tree R × Inserted)) [
              | none ↦ some (node s kids, failed)
              | some (s1, kids1, n2) ↦
                  descend (insert maxslen malloc rec rounds n2) rec s1 kids1 (drop (length s1) key)
            ]
      ]

  unfoldable mutual
    pub height : Tree R → ℕ
    height null = 0
    height (node s kids) = height_kids kids + 1

    pub height_kids : Kids R → ℕ
    height_kids (stop left right) = height right
    height_kids (fork mask high left right) = height left + height right

  -- `none` only where the rounds, one for each node and byte, were not enough.
  unfoldable pub patricia_insert :
      ℕ → (ℕ → Bool) → Patricia R → List ℕ → R → Option (Patricia R × Inserted)
  patricia_insert maxslen malloc P key rec =
      let maxkey = if ltb P.maxkey (length key) then length key else P.maxkey in
      elim (insert maxslen malloc rec (height P.root + length key + 1) 0 P.root key)
        as (λ x. Option (Patricia R × Inserted)) [
          | none ↦ none
          | some (t, answer) ↦ some (record { root = t; maxkey = maxkey }, answer)
        ]

  unfoldable pub patricia_init : Bool → Option (Patricia R)
  patricia_init malloc = if malloc then some (record { root = null; maxkey = 0 }) else none

  -- The callback, over the state of its cookie: none is 0, other values are those of E. A key that
  -- does not fit the buffer of `maxkey` bytes is `none`.
  module _ {S E : Type 0} (func : S → List ℕ → R → S × Option E) (maxkey : ℕ) where
    unfoldable mutual
      pub foreach_internal : Tree R → S → List ℕ → Option (S × Option E)
      foreach_internal null s prefix = some (s, none)
      foreach_internal (node bytes kids) s prefix =
          let rest = foreach_kids kids s (prefix ++ bytes) in
          if ltb maxkey (length prefix + length bytes) then none else rest

      pub foreach_kids : Kids R → S → List ℕ → Option (S × Option E)
      foreach_kids (stop none right) s prefix = foreach_internal right s prefix
      foreach_kids (stop (some r) right) s prefix =
          let (s', rc) = func s prefix r in
          elim rc as (λ x. Option (S × Option E)) [
            | some e ↦ some (s', some e)
            | none ↦ foreach_internal right s' prefix
          ]
      foreach_kids (fork mask high left right) s prefix =
          elim (foreach_internal left s prefix) as (λ x. Option (S × Option E)) [
            | none ↦ none
            | some (s', some e) ↦ some (s', some e)
            | some (s', none) ↦ foreach_internal right s' prefix
          ]

  -- -1 and what the callback returns are apart: `none` inside is the former.
  unfoldable pub patricia_foreach :
      {S E : Type 0} (func : S → List ℕ → R → S × Option E)
      → (ℕ → Bool)
      → Patricia R
      → S
      → Option (Option (S × Option E))
  patricia_foreach {S} {E} func malloc P s =
      let called : Option (Option (S × Option E)) =
        elim (foreach_internal func P.maxkey P.root s []) as (λ x. Option (Option (S × Option E))) [
          | none ↦ none
          | some answer ↦ some (some answer)
        ] in
      if malloc P.maxkey then called else if P.maxkey == 0 then called else some none
