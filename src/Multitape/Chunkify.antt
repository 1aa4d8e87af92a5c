-- ===== src/Multitape/Chunkify.antt =====
-- tar/multitape/chunkify.c: the cutting of a stream of bytes into chunks, on a chunkifier whose
-- parameters are computed. Numbers of type uint32_t wrap around at 2 ^ 32.
pub mod Root
pub mod Table
pub mod Written
pub mod Conserved
pub mod Sizes
pub mod Montgomery
pub mod Primes
mod Tests
use tarsnap.Base.{
  ℕ, zero, suc, ◌+◌, ◌-◌, ◌*◌, ◌/◌, ◌%◌, ◌^◌, bit_and, Bool, true, false, ◌&&◌, Option, none, some,
  List, [], ◌∷◌, ◌++◌, ltb, leb, ◌==◌, if◌then◌else◌, take, drop, get_or, set, replicate,
}

-- `struct chunkifier_internal` without the callback, which is an argument of what calls it. `buf` is
-- its first `k` bytes, those that are written, and `ht` has the pairs (k, yka).
pub record Chunkifier : Type 0 where
  pub mu : ℕ
  pub p : ℕ
  pub pp : ℕ
  pub ar : ℕ
  pub cm : List ℕ
  pub htlen : ℕ
  pub blen : ℕ
  pub w : ℕ
  pub k : ℕ
  pub r : ℕ
  pub rs : ℕ
  pub akr : ℕ
  pub yka : ℕ
  pub b : List ℕ
  pub ht : List (ℕ × ℕ)
  pub buf : List ℕ

unfoldable pub sub32 : ℕ → ℕ → ℕ
sub32 a b = (a + (2 ^ 32 - b % 2 ^ 32)) % 2 ^ 32

unfoldable pub mmul : ℕ → ℕ → ℕ → ℕ → ℕ
mmul a b p pp =
    let ab = a * b % 2 ^ 64 in
    let abpp = ab % 2 ^ 32 * pp % 2 ^ 32 in (ab + abpp * p) % 2 ^ 64 / 2 ^ 32

-- `pp *= 2 + p * pp`
unfoldable pub refine_inverse : ℕ → ℕ → ℕ
refine_inverse p pp = pp * ((2 + p * pp % 2 ^ 32) % 2 ^ 32) % 2 ^ 32

-- How `chunkify_init` computes - p^(-1) mod 2^32.
unfoldable pub negated_inverse : ℕ → ℕ
negated_inverse p =
    let pp = sub32 (bit_and ((2 * p % 2 ^ 32 + 4) % 2 ^ 32) 8) p in
    refine_inverse p (refine_inverse p (refine_inverse p pp))

-- The loop of `isprime`, with rounds for each `x` below 65536.
unfoldable pub isprime_from : ℕ → ℕ → ℕ → Bool
isprime_from zero n x = ltb 1 n
isprime_from (suc rounds) n x =
    let rest = isprime_from rounds n (x + 1) in
    if leb (x * x % 2 ^ 32) n then if n % x == 0 then false else rest else ltb 1 n

unfoldable pub isprime : ℕ → Bool
isprime n = isprime_from 65534 n 2

-- The loop of `isqrt`, with rounds for each `y` below 65536.
unfoldable pub isqrt_from : ℕ → ℕ → ℕ → ℕ
isqrt_from zero x y = y
isqrt_from (suc rounds) x y =
    let rest = isqrt_from rounds x (y + 1) in if ltb x (y * y % 2 ^ 32) then y else rest

unfoldable pub isqrt : ℕ → ℕ
isqrt x = isqrt_from 65535 x 1 - 1

-- The loop of `chunkify_init` that doubles the size of the hash table, with rounds for the bits of `i`.
unfoldable pub table_size : ℕ → ℕ → ℕ → ℕ
table_size zero i htlen = htlen
table_size (suc rounds) i htlen =
    let rest = table_size rounds (i / 4) (htlen * 2 % 2 ^ 32) in if i == 0 then htlen else rest

unfoldable pub chunkify_start : Chunkifier → Chunkifier
chunkify_start c = record c {
  ht = replicate c.htlen (2 ^ 32 - c.htlen, 2 ^ 32 - c.htlen);
  b = replicate c.w c.p;
  akr = sub32 0 c.p % c.p;
  yka = 0;
  k = 0;
  r = 0;
  rs = (1 + c.mu) % 2 ^ 32;
  buf = [];
}

-- The loop of `validcycle` over the bytes of the cycle.
unfoldable pub count_seen : List ℕ → ℕ → List ℕ → ℕ
count_seen seen nzcount [] = nzcount
count_seen seen nzcount (x ∷ xs) = count_seen (set seen x 1) (nzcount + (1 - get_or seen x 0)) xs

unfoldable pub validcycle : List ℕ → ℕ → ℕ → Bool
validcycle buf start end =
    leb 8 (count_seen (replicate 256 0) 0 (take (end - start) (drop start buf)))

-- The loop that moves `r` and `rs` on, in which `rs` is at least 1.
unfoldable pub widen : ℕ → ℕ → ℕ → ℕ × ℕ
widen zero r rs = (r, rs)
widen (suc rounds) r rs =
    let rest = widen rounds ((r + 1) % 2 ^ 32) ((rs + (2 * r + 1)) % 2 ^ 32) in
    if leb rs 4 then rest else (r, rs)

-- From the start of the loop's body to the test of `blen`.
unfoldable pub add_byte : Chunkifier → ℕ → Chunkifier
add_byte c x =
    let (r, rs) = widen 4 c.r c.rs in
    record c { buf = c.buf ++ (x ∷ []); k = (c.k + 1) % 2 ^ 32; r = r; rs = sub32 rs 4 }

-- One of the two steps that reduce yka by p iff yka >= p.
unfoldable pub reduce : ℕ → ℕ → ℕ
reduce p yka = sub32 yka (bit_and p (sub32 (sub32 yka p / 2 ^ 31) 1))

unfoldable pub roll : Chunkifier → ℕ → Chunkifier
roll c x = record c {
  yka = reduce c.p (reduce c.p ((c.yka + mmul c.akr (get_or c.cm x 0) c.p c.pp) % 2 ^ 32));
  akr = mmul c.akr c.ar c.p c.pp;
}

-- How long ago an entry was made, less 1.
unfoldable pub age : ℕ → ℕ × ℕ → ℕ
age k entry = sub32 (sub32 k entry.0) 1

unfoldable pub is_cycle : Chunkifier → ℕ × ℕ → Bool
is_cycle c entry =
    if entry.1 == c.yka
    then if ltb (age c.k entry) c.r then validcycle c.buf (sub32 entry.0 c.w) c.k else false
    else false

abbrev pub no_entry : ℕ × ℕ
no_entry = (0, 0)

-- Is yka in the hash table? `none` is for a loop of more rounds than given.
unfoldable pub look : ℕ → Chunkifier → ℕ → Option Bool
look zero c htpos = none
look (suc rounds) c htpos =
    let entry = get_or c.ht htpos no_entry in
    let rest = look rounds c (bit_and (htpos + 1) (c.htlen - 1)) in
    if is_cycle c entry
    then some true
    else if leb (2 * c.r % 2 ^ 32) (age c.k entry)
    then some false
    else rest

-- Insert the queued value.
unfoldable pub insert_queued : ℕ → Chunkifier → ℕ → ℕ → Option (List (ℕ × ℕ))
insert_queued zero c yka_tmp htpos = none
insert_queued (suc rounds) c yka_tmp htpos =
    let rest = insert_queued rounds c yka_tmp (bit_and (htpos + 1) (c.htlen - 1)) in
    if leb c.r (age c.k (get_or c.ht htpos no_entry))
    then some (set c.ht htpos (c.k, yka_tmp))
    else rest

-- Insert the queued value, and queue the current one.
unfoldable pub enqueue : Chunkifier → Option Chunkifier
enqueue c =
    let at = bit_and c.k (c.w - 1) in
    let yka_tmp = get_or c.b at 0 in
    elim (insert_queued c.htlen c yka_tmp (bit_and yka_tmp (c.htlen - 1)))
      as (λ x. Option Chunkifier) [
        | none ↦ none
        | some ht ↦ some (record c { ht = ht; b = set c.b at c.yka })
      ]

-- What becomes of the chunkifier, and whether its chunk ends.
unfoldable pub after_look : Chunkifier → Option Bool → Option (Chunkifier × Bool)
after_look c none = none
after_look c (some true) = some (c, true)
after_look c (some false) = elim (enqueue c) as (λ x. Option (Chunkifier × Bool)) [
  | none ↦ none
  | some c' ↦ some (c', false)
]

unfoldable pub find_cycle : Chunkifier → Option (Chunkifier × Bool)
find_cycle c = after_look c (look c.htlen c (bit_and c.yka (c.htlen - 1)))

unfoldable pub write_byte : Chunkifier → ℕ → Option (Chunkifier × Bool)
write_byte c x =
    let c1 = add_byte c x in
    if c1.k == c1.blen
    then some (c1, true)
    else if c1.r == 0
    then some (c1, false)
    else find_cycle (roll c1 x)

-- The callback, over the state of its cookie: none is 0, other values are those of E.
module _ {S E : Type 0} (chunkdone : S → List ℕ → S × Option E) where
  unfoldable pub after_done : Chunkifier → S × Option E → S × Chunkifier × Option E
  after_done c (s, none) = (s, chunkify_start c, none)
  after_done c (s, some rc) = (s, c, some rc)

  unfoldable pub chunkify_end : S → Chunkifier → S × Chunkifier × Option E
  chunkify_end s c = if c.k == 0 then (s, c, none) else after_done c (chunkdone s c.buf)

  unfoldable pub after_byte : S → Chunkifier × Bool → S × Chunkifier × Option E
  after_byte s (c, true) = chunkify_end s c
  after_byte s (c, false) = (s, c, none)

  unfoldable pub chunkify_write : S → Chunkifier → List ℕ → Option (S × Chunkifier × Option E)
  chunkify_write s c [] = some (s, c, none)
  chunkify_write s c (x ∷ buf) =
      elim (write_byte c x) as (λ x. Option (S × Chunkifier × Option E)) [
        | none ↦ none
        | some answer ↦
            let (s', c', rc) = after_byte s answer in
            elim rc as (λ x. Option (S × Chunkifier × Option E)) [
              | none ↦ chunkify_write s' c' buf
              | some e ↦ some (s', c', some e)
            ]
      ]
