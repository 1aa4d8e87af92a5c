-- ===== src/Multitape/Chunkify/Root.antt =====
-- The counters r and rs of the chunkifier, which give the number of entries of its table to look at.
use tarsnap.Base.{
  ℕ, zero, suc, ◌+◌, ◌-◌, ◌*◌, ◌%◌, ◌^◌, ◌≤◌, ◌<◌, ◌≡◌, inl, inr, arith, leb, Bool-cases,
}
use native.Mathlib.Decide.{dec_lt}
use native.Mathlib.Nat.{mul-le-mul_left, mul-le-mul_right, mod-eq_of_lt}
use tarsnap.Multitape.Chunkify.{Chunkifier, widen, sub32, add_byte}

-- `r` is the least number whose square is at least 4 * k - mu, and `rs` is r ^ 2 + 1 - (4 * k - mu).
pub record IsRoot (mu k r rs : ℕ) : Type 0 where
  pub exact : rs + 4 * k ≡ r * r + 1 + mu
  pub positive : 0 < rs
  pub least : (q : ℕ) → r ≡ q + 1 → q * q + mu < 4 * k

pub root-lt : (a b : ℕ) → a * a < b * b → a < b
root-lt a b h = elim (dec_lt a b) [
  | yes lt ↦ lt
  | no ge ↦
      let le : b ≤ a = omega arith in
      absurd (omega (arith, h, mul-le-mul_left a le, mul-le-mul_right b le))
]

square-lt : (q : ℕ) → q * q < 2 ^ 34 → q < 2 ^ 17
square-lt q h = root-lt q (2 ^ 17) (omega (arith, h))

square_suc : (r : ℕ) → (r + 1) * (r + 1) ≡ r * r + (2 * r + 1)
square_suc r = omega arith

root-le : (r : ℕ) → ((q : ℕ) → r ≡ q + 1 → q * q < 2 ^ 34) → r ≤ 2 ^ 17
root-le zero h = omega arith
root-le (suc q) h = omega (arith, square-lt q (h q (omega arith)))

pub IsRoot-lt : (mu k r rs : ℕ) → IsRoot mu k r rs → k ≤ 2 ^ 32 → r ≤ 2 ^ 17
IsRoot-lt mu k r rs i h = root-le r (λ q eq. omega (arith, i.least q eq, h))

sub32-small : (a b : ℕ) → b ≤ a → a < 2 ^ 32 → sub32 a b ≡ a - b
unfolding sub32
sub32-small a b le lt = ground arith

lt-32 :
    (mu k r rs : ℕ)
    → mu < 2 ^ 31
    → k < 2 ^ 32
    → rs + 4 * k ≡ r * r + 1 + mu
    → ((q : ℕ) → r ≡ q + 1 → q * q + mu < 4 * (k + 1))
    → rs < 2 ^ 32
lt-32 mu k zero rs mean small exact least = omega arith
lt-32 mu k (suc q) rs mean small exact least =
    let below = least q (omega arith) in
    omega (arith, below, exact, square_suc q, square-lt q (omega (arith, below, small)))

-- The loop, before 4 is taken off `rs`.
widen-IsRoot :
    (rounds mu k r rs : ℕ)
    → k < 2 ^ 32
    → rs + 4 * k ≡ r * r + 1 + mu
    → 5 ≤ rs + rounds
    → ((q : ℕ) → r ≡ q + 1 → q * q + mu < 4 * (k + 1))
    → (4 < (widen rounds r rs).1)
      × ((widen rounds r rs).1 + 4 * k ≡ (widen rounds r rs).0 * (widen rounds r rs).0 + 1 + mu)
      × ((q : ℕ) → (widen rounds r rs).0 ≡ q + 1 → q * q + mu < 4 * (k + 1))
unfolding widen
widen-IsRoot zero mu k r rs small exact enough least = (omega arith, exact, least)
widen-IsRoot (suc rounds) mu k r rs small exact enough least = elim (Bool-cases (leb rs 4)) [
  | inr stop ↦ rw (stop) (ground (arith, stop), exact, least)
  | inl go ↦
      let le : rs ≤ 4 = ground (arith, go) in
      let bound : r ≤ 2 ^ 17 = root-le r (λ q eq. omega (arith, least q eq, small)) in
      let r' : (r + 1) % 2 ^ 32 ≡ r + 1 = ground arith in
      let rs' : (rs + (2 * r + 1)) % 2 ^ 32 ≡ rs + (2 * r + 1) = ground arith in
      rw (go, r', rs')
        (widen-IsRoot rounds mu k (r + 1) (rs + (2 * r + 1)) small
          (omega (arith, exact, square_suc r)) (omega arith)
          (λ q eq. let same : q ≡ r = omega (arith, eq) in rw same (omega (arith, exact, le))))
]

-- The room that the parameters of `chunkify_init` leave in 32 bits, and in the hash table.
pub record IsSized (c : Chunkifier) : Type 0 where
  pub mean : c.mu < 2 ^ 31
  pub below : c.mu < c.blen
  pub buffer : c.blen + c.htlen ≤ 2 ^ 32
  pub width : ℕ
  pub table : c.htlen ≡ 2 ^ width
  pub wide : 8 ≤ c.htlen
  pub holds : 64 * c.blen < c.htlen * c.htlen + 16 * c.mu

-- After every byte that does not fill the buffer, `r` is the least number whose square is at least
-- 4 * k - mu, and `rs` is r ^ 2 + 1 - (4 * k - mu); the hash table has more than 2 * r slots. This is
-- for sizes that fit the 32 bits and the table.
pub add_byte-IsRoot :
    (c : Chunkifier) (x : ℕ)
    → IsSized c
    → c.k < c.blen
    → IsRoot c.mu c.k c.r c.rs
    → IsRoot c.mu (c.k + 1) (add_byte c x).r (add_byte c x).rs
      × ((add_byte c x).k ≡ c.k + 1)
      × (2 * (add_byte c x).r < c.htlen)
unfolding add_byte
add_byte-IsRoot c x sized room i =
    let (R, RS) = widen 4 c.r c.rs in
    let (big, exact, least) =
      widen-IsRoot 4 c.mu c.k c.r c.rs (omega (arith, sized.buffer)) i.exact
        (omega (arith, i.positive)) (λ q eq. omega (arith, i.least q eq)) in
    let next : (c.k + 1) % 2 ^ 32 ≡ c.k + 1 = mod-eq_of_lt (omega (arith, room, sized.buffer)) in
    let off : sub32 RS 4 ≡ RS - 4 =
      sub32-small RS 4 (omega (arith, big))
        (lt-32 c.mu c.k R RS sized.mean (omega (arith, room, sized.buffer)) exact least) in
    (
      record {
        exact = rw off (omega (arith, exact, big));
        positive = rw off (omega (arith, big));
        least = least;
      },
      next,
      room_for R least,
    )
  where
    room_for : (R : ℕ) → ((q : ℕ) → R ≡ q + 1 → q * q + c.mu < 4 * (c.k + 1)) → 2 * R < c.htlen
    room_for zero least = omega (arith, sized.wide)
    room_for (suc q) least =
        let squares : 4 * q * (4 * q) < c.htlen * c.htlen =
          omega (arith, least q (omega arith), sized.holds, room) in
        omega (arith, sized.wide, root-lt (4 * q) c.htlen squares)
