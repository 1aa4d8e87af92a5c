-- ===== src/Datastruct/Patricia/Compare.antt =====
-- What `compare` answers: whether a node is a prefix of a key, and where they part if it is not.
use tarsnap.Base.{
  ℕ, suc, ◌+◌, ◌*◌, ◌/◌, ◌%◌, ◌^◌, ◌<◌, ◌≡◌, ◌≢◌, ◌⊎◌, inl, inr, refl, sym, ap, ◌∙◌, bit_and,
  bit_xor, false, Option, none, some, List, [], ◌∷◌, ◌++◌, arith, ◌==◌, Bool-cases, length, All,
}
use native.Mathlib.Nat.{pow-suc, one-le-pow}
use tarsnap.Base.Bits.Xor.{eq_of_bit_xor}
use tarsnap.Datastruct.Patricia.{above, compare_high, compare_from}
use tarsnap.Datastruct.Patricia.Digits.{Differ, critical-Differ, compare_high-Differ}

-- A string of bytes.
abbrev pub IsBytes : List ℕ → Type 0
IsBytes key = All (λ b. b < 2 ^ 8) key

-- A mask of a node: one bit of a byte, or 0 where it splits on bit 9.
abbrev pub IsMask : ℕ → Type 0
IsMask mask = (mask ≡ 0) ⊎ ((j : ℕ) × (j < 8) × (mask ≡ 2 ^ j))

-- A node with these bytes, mask and high bits is a prefix of the key.
pub record Fits (mask high : ℕ) (s key : List ℕ) : Type 0 where
  pub rest : List ℕ
  pub key_is : key ≡ s ++ rest
  pub goes_on :
      (mask ≡ 0)
      ⊎ ((b : ℕ) × (rest' : List ℕ) × (rest ≡ b ∷ rest') × (b / (mask * 2) ≡ high / (mask * 2)))

-- The next byte of a node after `s`, as far as its mask tells.
abbrev pub Next : List ℕ → ℕ → ℕ → ℕ → ℕ → Type 0
Next [] mask high c e = (high ≡ c) × ((j : ℕ) × (j < e) × (mask ≡ 2 ^ j))
Next (a ∷ s) mask high c e = a ≡ c

-- How the rest of a node and of a key part: the key ends within the node, or the next bytes differ.
abbrev pub Apart : ℕ → ℕ → List ℕ → List ℕ → ℕ → Type 0
Apart mask high s key m =
    ((key ≡ []) × (m ≡ 0) × (s ≡ [] → mask ≢ 0))
    ⊎ ((b : ℕ) × (key' : List ℕ) × (c : ℕ) × (e : ℕ) × (key ≡ b ∷ key')
        × (b < 2 ^ 8)
        × (m ≡ 2 ^ e)
        × Differ e c b
        × Next s mask high c e)

pub record Parts (mask high : ℕ) (s key : List ℕ) (m : ℕ) : Type 0 where
  pub common : List ℕ
  pub low : List ℕ
  pub rest : List ℕ
  pub node_is : s ≡ common ++ low
  pub key_is : key ≡ common ++ rest
  pub apart : Apart mask high low rest m

-- What `compare` answers.
abbrev pub Compares : ℕ → ℕ → List ℕ → List ℕ → ℕ → Option (ℕ × ℕ) → Type 0
Compares mask high s key i answer =
    ((answer ≡ none) × Fits mask high s key)
    ⊎ ((m : ℕ) × (parts : Parts mask high s key m) × (answer ≡ some (i + length parts.common, m)))

pub pow_nonzero : (j : ℕ) → 2 ^ j ≢ 0
pow_nonzero j z = absurd (omega (arith, one-le-pow j 2 (omega arith), z))

high_lem :
    (mask high b : ℕ) (key : List ℕ) (i j : ℕ)
    → j < 8
    → mask ≡ 2 ^ j
    → mask ≢ 0
    → high < 2 ^ 8
    → b < 2 ^ 8
    → Compares mask high [] (b ∷ key) i (compare_from [] mask high (b ∷ key) i)
unfolding compare_from compare_high
high_lem mask high b key i j lt is some_mask p q =
    let test : (mask == 0) ≡ false = ground (arith, some_mask) in
    let twice : mask * 2 ≡ 2 ^ suc j = ap (λ (n : ℕ). n * 2) is ∙ sym (pow-suc 2 j) in
    elim (compare_high-Differ j high b lt p q) [
      | inl (zero_mm, same) ↦
          let agrees : b / (mask * 2) ≡ high / (mask * 2) =
            ap (λ (n : ℕ). b / n) twice ∙ sym same ∙ ap (λ (n : ℕ). high / n) (sym twice) in
          inl (
            rw (test, is, zero_mm) refl,
            record { rest = b ∷ key; key_is = refl; goes_on = inr (b, key, refl, agrees) },
          )
      | inr (some_mm, (e, later, crit, d)) ↦
          let nonzero : (bit_and (bit_xor high b) (above (2 ^ j)) == 0) ≡ false =
            ground (arith, some_mm) in
          inr (
            2 ^ e,
            record {
              common = [];
              low = [];
              rest = b ∷ key;
              node_is = refl;
              key_is = refl;
              apart = inr (b, key, high, e, refl, q, refl, d, (refl, (j, later, is)));
            },
            rw (test, is, nonzero, crit) (ap (λ (n : ℕ). some (n, 2 ^ e)) (omega arith)),
          )
    ]

-- One more byte in common.
more :
    (mask high a : ℕ) (s key : List ℕ) (i : ℕ) (answer : Option (ℕ × ℕ))
    → Compares mask high s key (i + 1) answer
    → Compares mask high (a ∷ s) (a ∷ key) i answer
more mask high a s key i answer (inl (is, fits)) =
    inl (is, record { rest = fits.rest; key_is = ap (◌∷◌ a) fits.key_is; goes_on = fits.goes_on })
more mask high a s key i answer (inr (m, parts, is)) = inr (
  m,
  record {
    common = a ∷ parts.common;
    low = parts.low;
    rest = parts.rest;
    node_is = ap (◌∷◌ a) parts.node_is;
    key_is = ap (◌∷◌ a) parts.key_is;
    apart = parts.apart;
  },
  is ∙ ap (λ (n : ℕ). some (n, m)) (omega arith),
)

pub compare_from_lem :
    (s : List ℕ) (mask high : ℕ) (key : List ℕ) (i : ℕ)
    → IsMask mask
    → high < 2 ^ 8
    → IsBytes s
    → IsBytes key
    → i + length s < 2 ^ 8
    → Compares mask high s key i (compare_from s mask high key i)
unfolding compare_from compare_high
compare_from_lem [] mask high [] i masked h bs bk lt = elim masked [
  | inl e ↦ inl (rw e refl, record { rest = []; key_is = refl; goes_on = inl e })
  | inr (j, lt_j, e) ↦
      let some_mask : mask ≢ 0 = λ z. pow_nonzero j (sym e ∙ z) in
      inr (
        0,
        record {
          common = [];
          low = [];
          rest = [];
          node_is = refl;
          key_is = refl;
          apart = inl (refl, refl, λ z. some_mask);
        },
        ground (arith, some_mask),
      )
]
compare_from_lem [] mask high (b ∷ key) i masked h bs bk lt = elim masked [
  | inl e ↦ inl (rw e refl, record { rest = b ∷ key; key_is = refl; goes_on = inl e })
  | inr (j, lt_j, e) ↦
      let some_mask : mask ≢ 0 = λ z. pow_nonzero j (sym e ∙ z) in
      high_lem mask high b key i j lt_j e some_mask h bk.0
]
compare_from_lem (a ∷ s) mask high [] i masked h bs bk lt = inr (
  0,
  record {
    common = [];
    low = a ∷ s;
    rest = [];
    node_is = refl;
    key_is = refl;
    apart = inl (refl, refl, λ e. absurd (cc));
  },
  ap (λ (n : ℕ). some (n, 0)) (omega arith),
)
compare_from_lem (a ∷ s) mask high (b ∷ key) i masked h (ba, bs) (bb, bk) lt =
    let xor = bit_xor a b in
    elim (Bool-cases (xor == 0)) [
      | inl same ↦
          let eq : a ≡ b =
            eq_of_bit_xor (a + b) a b (omega arith) (omega arith) (ground (arith, same)) in
          let next : (i + 1) % 2 ^ 8 ≡ i + 1 = omega (arith, lt) in
          let ih = compare_from_lem s mask high key (i + 1) masked h bs bk (omega (arith, lt)) in
          rw (same, next, eq) (more mask high b s key i (compare_from s mask high key (i + 1)) ih)
      | inr other ↦
          let (e, crit, d) = critical-Differ a b ba bb (λ z. ground (arith, other, z)) in
          inr (
            2 ^ e,
            record {
              common = [];
              low = a ∷ s;
              rest = b ∷ key;
              node_is = refl;
              key_is = refl;
              apart = inr (b, key, a, e, refl, bb, refl, d, refl);
            },
            rw (other, crit) (ap (λ (n : ℕ). some (n, 2 ^ e)) (omega arith)),
          )
    ]
