-- ===== src/Multitape/Chunkify/Written.antt =====
-- What one byte makes of a chunkifier.
use tarsnap.Base.{
  ℕ, zero, suc, ◌+◌, ◌-◌, ◌*◌, ◌%◌, ◌^◌, ◌≤◌, ◌<◌, ◌≡◌, refl, sym, subst, ◌∙◌, inl, inr, Bool, true,
  false, some, List, [], ◌∷◌, ◌++◌, arith, ◌==◌, Bool-cases, bit_and, length, length-append, get_or,
  set, replicate, length-replicate, All,
}
use native.Mathlib.Nat.{mod-eq_of_lt}
use tarsnap.Multitape.Chunkify.{
  Chunkifier, add_byte, roll, enqueue, after_look, find_cycle, write_byte, chunkify_start,
}
use tarsnap.Multitape.Chunkify.Root.{IsRoot, IsSized, add_byte-IsRoot}
use tarsnap.Multitape.Chunkify.Table.{
  IsTable, IsEntry, occurs, IsTable-later, IsTable-set, loops_stop,
}

-- A chunkifier between two bytes.
pub record IsValid (c : Chunkifier) : Type 0 where
  pub sized : IsSized c
  pub room : c.k < c.blen
  pub bytes : length c.buf ≡ c.k
  pub root : IsRoot c.mu c.k c.r c.rs
  pub table : IsTable c.htlen c.k c.ht

-- A chunkifier whose chunk ends.
pub record IsFull (c : Chunkifier) : Type 0 where
  pub sized : IsSized c
  pub some_byte : 0 < c.k
  pub room : c.k ≤ c.blen
  pub bytes : length c.buf ≡ c.k

-- Only the parameters count for the sizes.
resized :
    (c d : Chunkifier) → c.mu ≡ d.mu → c.blen ≡ d.blen → c.htlen ≡ d.htlen → IsSized c → IsSized d
resized c d mu blen htlen s = record {
  mean = omega (arith, s.mean, mu);
  below = omega (arith, s.below, mu, blen);
  buffer = omega (arith, s.buffer, blen, htlen);
  width = s.width;
  table = sym htlen ∙ s.table;
  wide = omega (arith, s.wide, htlen);
  holds = rw (← mu, ← blen, ← htlen) s.holds;
}

-- How a byte that follows `buf` leaves a chunkifier.
abbrev pub Written : ℕ → List ℕ → Chunkifier × Bool → Type 0
Written blen buf (c, true) = IsFull c × (c.buf ≡ buf) × (c.blen ≡ blen)
Written blen buf (c, false) = IsValid c × (c.buf ≡ buf) × (c.blen ≡ blen)

replicate-IsTable :
    (htlen width : ℕ)
    → htlen ≡ 2 ^ width
    → 0 < htlen
    → htlen < 2 ^ 32
    → IsTable htlen 0 (replicate htlen (2 ^ 32 - htlen, 2 ^ 32 - htlen))
replicate-IsTable htlen width sized some_slot small = record {
  filled = length-replicate htlen (2 ^ 32 - htlen, 2 ^ 32 - htlen);
  entries = dead htlen;
  once = λ v le. let eq : v ≡ 0 = omega arith in rw eq (omega (arith, never htlen));
}
  where
    dead : (n : ℕ) → All (IsEntry htlen 0) (replicate n (2 ^ 32 - htlen, 2 ^ 32 - htlen))
    dead zero = tt
    dead (suc n) = (inr refl, dead n)

    never : (n : ℕ) → occurs 0 (replicate n (2 ^ 32 - htlen, 2 ^ 32 - htlen)) ≡ 0
    never zero = refl
    never (suc n) =
        let miss : (2 ^ 32 - htlen == 0) ≡ false = ground arith in rw miss (omega (arith, never n))

-- `chunkify_start` makes a chunkifier valid.
pub chunkify_start-IsValid : (c : Chunkifier) → IsSized c → IsValid (chunkify_start c)
unfolding chunkify_start
chunkify_start-IsValid c s =
    let first : (1 + c.mu) % 2 ^ 32 ≡ 1 + c.mu = mod-eq_of_lt (omega (arith, s.mean)) in
    record {
      sized = resized c (chunkify_start c) refl refl refl s;
      room = omega (arith, s.below);
      bytes = refl;
      root = record {
        exact = rw first (omega arith);
        positive = rw first (omega arith);
        least = λ q eq. absurd (omega (arith, eq));
      };
      table =
          replicate-IsTable c.htlen s.width s.table (omega (arith, s.wide))
            (omega (arith, s.below, s.buffer));
    }

-- The chunkifier after `add_byte` and `roll`, and its table as it was before the byte.
record IsAdded (buf : List ℕ) (c : Chunkifier) : Type 0 where
  sized : IsSized c
  k : ℕ
  now : c.k ≡ k + 1
  within : c.k < c.blen
  bytes : length c.buf ≡ c.k
  same : c.buf ≡ buf
  root : IsRoot c.mu c.k c.r c.rs
  room : 2 * c.r < c.htlen
  table : IsTable c.htlen k c.ht

below : (buf : List ℕ) (c : Chunkifier) (a : IsAdded buf c) → a.k + 1 + c.htlen < 2 ^ 32
below buf c a = omega (arith, a.now, a.within, a.sized.buffer)

enqueue-Written :
    (buf : List ℕ) (c : Chunkifier)
    → IsAdded buf c
    → (a : Chunkifier × Bool) × (after_look c (some false) ≡ some a) × Written c.blen buf a
unfolding after_look enqueue
enqueue-Written buf c a =
    let at = bit_and c.k (c.w - 1) in
    let z = get_or c.b at 0 in
    let (found, (i, inserted)) =
      loops_stop c a.sized.width a.sized.table a.k c.yka z a.now (below buf c a) a.room a.table in
    let c' : Chunkifier = record c { ht = set c.ht i (c.k, z); b = set c.b at c.yka } in
    (
      (c', false),
      rw (inserted, after_look, enqueue) refl,
      (
        record {
          sized = resized c c' refl refl refl a.sized;
          room = a.within;
          bytes = a.bytes;
          root = a.root;
          table =
              subst (λ (K : ℕ). IsTable c.htlen K (set c.ht i (K, z))) (sym a.now)
                (IsTable-set c.htlen a.k i z c.ht (below buf c a) a.table);
        },
        a.same,
        refl,
      ),
    )

find_cycle-Written :
    (buf : List ℕ) (c : Chunkifier)
    → IsAdded buf c
    → (a : Chunkifier × Bool) × (find_cycle c ≡ some a) × Written c.blen buf a
unfolding find_cycle
find_cycle-Written buf c a =
    let ((b, found), inserted) =
      loops_stop c a.sized.width a.sized.table a.k c.yka 0 a.now (below buf c a) a.room a.table in
    rw found (go b)
  where
    go :
        (b : Bool)
        → (d : Chunkifier × Bool) × (after_look c (some b) ≡ some d) × Written c.blen buf d
    go false = enqueue-Written buf c a
    go true = (
      (c, true),
      unfold after_look in refl,
      (
        record {
          sized = a.sized;
          some_byte = omega (arith, a.now);
          room = omega (arith, a.within);
          bytes = a.bytes;
        },
        a.same,
        refl,
      ),
    )

-- A byte is added to the buffer, and the chunkifier goes on or ends its chunk.
pub write_byte-Written :
    (c : Chunkifier) (x : ℕ)
    → IsValid c
    → (a : Chunkifier × Bool) × (write_byte c x ≡ some a) × Written c.blen (c.buf ++ (x ∷ [])) a
unfolding write_byte add_byte roll
write_byte-Written c x v =
    let c1 = add_byte c x in
    let (root, k1, slots) = add_byte-IsRoot c x v.sized v.room v.root in
    let s1 : IsSized c1 = resized c c1 refl refl refl v.sized in
    let bytes : length c1.buf ≡ c1.k = omega (arith, length-append c.buf (x ∷ []), v.bytes, k1) in
    let root' : IsRoot c.mu c1.k c1.r c1.rs =
      subst (λ (K : ℕ). IsRoot c.mu K c1.r c1.rs) (sym k1) root in
    elim (Bool-cases (c1.k == c1.blen)) [
      | inl full ↦ rw full (
        (c1, true),
        refl,
        (
          record {
            sized = s1;
            some_byte = omega (arith, k1);
            room = omega (arith, k1, v.room);
            bytes = bytes;
          },
          refl,
          refl,
        ),
      )
      | inr more ↦
          let within : c1.k < c1.blen = ground (arith, more, k1, v.room) in
          rw more (elim (Bool-cases (c1.r == 0)) [
            | inl early ↦ rw early (
              (c1, false),
              refl,
              (
                record {
                  sized = s1;
                  room = within;
                  bytes = bytes;
                  root = root';
                  table =
                      subst (λ (K : ℕ). IsTable c.htlen K c.ht) (sym k1)
                        (IsTable-later c.htlen c.k c.ht (omega (arith, within, k1, s1.buffer))
                          v.table);
                },
                refl,
                refl,
              ),
            )
            | inr later ↦ rw later (
                find_cycle-Written (c.buf ++ (x ∷ [])) (roll c1 x) (record {
                  sized = resized c (roll c1 x) refl refl refl v.sized;
                  k = c.k;
                  now = k1;
                  within = within;
                  bytes = bytes;
                  same = refl;
                  root = root';
                  room = slots;
                  table = v.table;
                }))
          ])
    ]
