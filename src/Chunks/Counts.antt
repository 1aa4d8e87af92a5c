-- ===== src/Chunks/Counts.antt =====
-- What the counts of a chunk look like from outside: a chunk that is not in the table has none.
use tarsnap.Base.{
  ℕ, suc, ◌+◌, ◌≤◌, ◌≡◌, refl, Bool, true, false, Option, none, some, List, [], ◌∷◌, arith, ◌==◌,
  if◌then◌else◌, same_bytes, same_bytes_iff,
}
use tarsnap.Chunks.Data.{Chunkdata, in_ctape}
use tarsnap.Chunks.Refs.{once}

abbrev pub refs_at : Option Chunkdata → ℕ
refs_at none = 0
refs_at (some ch) = ch.nrefs

abbrev pub copies_at : Option Chunkdata → ℕ
copies_at none = 0
copies_at (some ch) = ch.ncopies

-- The current archive has met the chunk.
abbrev pub seen_at : Option Chunkdata → Bool
seen_at none = false
seen_at (some ch) = in_ctape ch

-- One use more, by the current archive.
pub record Used (o o' : Option Chunkdata) : Type 0 where
  pub copies : copies_at o' ≡ copies_at o + 1
  pub refs : refs_at o' ≡ refs_at o + once (seen_at o)
  pub seen : seen_at o' ≡ true

-- How often `k` is among the names.
unfoldable pub count_of : List ℕ → List (List ℕ) → ℕ
count_of k [] = 0
count_of k (h ∷ hs) = if same_bytes h k then suc (count_of k hs) else count_of k hs

pub count_of_self : (k : List ℕ) (hs : List (List ℕ)) → count_of k (k ∷ hs) ≡ suc (count_of k hs)
unfolding count_of
count_of_self k hs = rw ((same_bytes_iff k k).1 refl)

pub count_of_tail : (k h : List ℕ) (hs : List (List ℕ)) → count_of k hs ≤ count_of k (h ∷ hs)
unfolding count_of
count_of_tail k h hs = ground arith

-- The counts of one chunk after `n` uses by an archive that starts from `o`.
pub record After (n : ℕ) (o o' : Option Chunkdata) : Type 0 where
  pub copies : copies_at o' ≡ copies_at o + n
  pub refs : refs_at o' ≡ refs_at o + (if n == 0 then 0 else once (seen_at o))
  pub seen : seen_at o' ≡ (if n == 0 then seen_at o else true)

pub After-none : (k : List ℕ) (o : Option Chunkdata) → After (count_of k []) o o
unfolding count_of
After-none k o = record { copies = omega arith; refs = omega arith; seen = refl }

pub After-next : (n : ℕ) (o p q : Option Chunkdata) → After n o p → Used p q → After (suc n) o q
After-next n o p q a u = record {
  copies = omega (arith, a.copies, u.copies);
  refs = ground (arith, a.refs, a.seen, u.refs);
  seen = ground (arith, u.seen);
}

-- One use less, by the current archive, and `n` uses less.
pub record Dropped (o o' : Option Chunkdata) : Type 0 where
  pub copies : copies_at o' + 1 ≡ copies_at o
  pub refs : refs_at o' + once (seen_at o) ≡ refs_at o
  pub seen : seen_at o' ≡ true

pub record Without (n : ℕ) (o o' : Option Chunkdata) : Type 0 where
  pub copies : copies_at o' + n ≡ copies_at o
  pub refs : refs_at o' + (if n == 0 then 0 else once (seen_at o)) ≡ refs_at o
  pub seen : seen_at o' ≡ (if n == 0 then seen_at o else true)

pub Without-none : (k : List ℕ) (o : Option Chunkdata) → Without (count_of k []) o o
unfolding count_of
Without-none k o = record { copies = omega arith; refs = omega arith; seen = refl }

pub Without-next :
    (n : ℕ) (o p q : Option Chunkdata) → Without n o p → Dropped p q → Without (suc n) o q
Without-next n o p q a u = record {
  copies = omega (arith, a.copies, u.copies);
  refs = ground (arith, a.refs, a.seen, u.refs);
  seen = ground (arith, u.seen);
}

-- Uses that begin and end unmarked come to nothing when they are dropped again.
pub Without-After :
    (n : ℕ) (o p p' q : Option Chunkdata)
    → After n o p
    → seen_at o ≡ false
    → copies_at p' ≡ copies_at p
    → refs_at p' ≡ refs_at p
    → seen_at p' ≡ false
    → Without n p' q
    → (copies_at q ≡ copies_at o) × (refs_at q ≡ refs_at o)
Without-After n o p p' q a so copies refs sp w =
    (omega (arith, a.copies, w.copies, copies), ground (arith, a.refs, w.refs, refs, so, sp))
