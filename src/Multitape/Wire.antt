-- ===== src/Multitape/Wire.antt =====
-- The pieces of which tar/multitape makes its files: little-endian integers, C strings and runs of
-- bytes of a known length; and the cursor that the decoders move over a buffer.
use tarsnap.Base.{
  append-nil, ℕ, ◌+◌, ◌≤◌, ◌≡◌, ◌≢◌, refl, sym, ap, ◌∙◌, Bool, true, false, Option, none, some,
  List, [], ◌∷◌, ◌++◌, arith, ltb, ◌==◌, if◌then◌else◌, Bool-cases, length, take, drop, All,
  take-append, drop-append, length-append, take-append-drop, length-take, inl, inr,
}
use mathlib.Core.Option

-- What a decoder returns: 0 with its result, 1 (or 2) for a corrupt file, -1 for an error.
pub data Decoded {ℓ} (A : Type ℓ) : Type ℓ where
  decoded : A → Decoded A
  corrupt : Decoded A
  failed : Decoded A

module _ {ℓ κ} {A : Type ℓ} {B : Type κ} where
  abbrev pub and_then : Decoded A → (A → Decoded B) → Decoded B
  and_then (decoded a) f = f a
  and_then corrupt f = corrupt
  and_then failed f = failed

-- Memory of this size, or an error.
unfoldable pub allocate : (ℕ → Bool) → ℕ → Decoded (Unit {0})
allocate alloc n = if alloc n then decoded tt else failed

-- `if (buflen < n) goto bad; ... buflen -= n; p += n;`
unfoldable pub get_bytes : ℕ → List ℕ → Decoded (List ℕ × List ℕ)
get_bytes n p = if ltb (length p) n then corrupt else decoded (take n p, drop n p)

-- The bytes before the first NUL, and those behind it.
unfoldable pub split_nul : List ℕ → Option (List ℕ × List ℕ)
split_nul [] = none
split_nul (b ∷ p) =
    if b == 0
    then some ([], p)
    else Option.map (λ (r : List ℕ × List ℕ). (b ∷ r.0, r.1)) (split_nul p)

-- The string must be NUL-terminated; it is copied with its NUL, and `p` moves behind it.
unfoldable pub get_string : (ℕ → Bool) → List ℕ → Decoded (List ℕ × List ℕ)
get_string alloc p = elim (split_nul p) [
  | none ↦ corrupt
  | some (s, rest) ↦ and_then (allocate alloc (length s + 1)) (λ _. decoded (s, rest))
]

-- A C string's bytes.
abbrev pub IsString : List ℕ → Type 0
IsString s = All (λ b. b ≢ 0) s

unfoldable pub put_string : List ℕ → List ℕ
put_string s = s ++ (0 ∷ [])

pub allocate_lem : (alloc : ℕ → Bool) (n : ℕ) → alloc n ≡ true → allocate alloc n ≡ decoded tt
unfolding allocate
allocate_lem alloc n h = rw h

pub get_bytes-append :
    (n : ℕ) (xs ys : List ℕ) → length xs ≡ n → get_bytes n (xs ++ ys) ≡ decoded (xs, ys)
unfolding get_bytes
get_bytes-append n xs ys h =
    let long : ltb (length (xs ++ ys)) n ≡ false = ground (arith, length-append xs ys) in
    rw (sym h) (rw (h, long) (rw (sym h) (rw (take-append xs ys, drop-append xs ys) refl)))

pub get_bytes_all : (n : ℕ) (xs : List ℕ) → length xs ≡ n → get_bytes n xs ≡ decoded (xs, [])
get_bytes_all n xs h = ap (get_bytes n) (sym (append-nil xs)) ∙ get_bytes-append n xs [] h

split_nul-put_string :
    (s rest : List ℕ) → IsString s → split_nul (put_string s ++ rest) ≡ some (s, rest)
unfolding split_nul put_string
split_nul-put_string [] rest ok = refl
split_nul-put_string (b ∷ s) rest (nz, ok) =
    let more : (b == 0) ≡ false = ground arith in rw (more, split_nul-put_string s rest ok) refl

pub get_string-put_string :
    (alloc : ℕ → Bool) (s rest : List ℕ)
    → IsString s
    → alloc (length s + 1) ≡ true
    → get_string alloc (put_string s ++ rest) ≡ decoded (s, rest)
unfolding get_string
get_string-put_string alloc s rest ok room =
    rw (split_nul-put_string s rest ok, get_string)
      (rw (allocate_lem alloc (length s + 1) room) refl)

-- Where a run of bytes is taken, the buffer is it and the rest.
pub get_bytes-decoded :
    (n : ℕ) (p xs ys : List ℕ) → get_bytes n p ≡ decoded (xs, ys) → (p ≡ xs ++ ys) × (length xs ≡ n)
unfolding get_bytes
get_bytes-decoded n p xs ys h = elim (Bool-cases (ltb (length p) n)) [
  | inl short ↦ absurd (cc)
  | inr long ↦
      let fits : n ≤ length p = ground arith in
      let eq : (take n p, drop n p) ≡ (xs, ys) = cc in
      let first : take n p ≡ xs = ap (λ (r : List ℕ × List ℕ). r.0) eq in
      let rest : drop n p ≡ ys = ap (λ (r : List ℕ × List ℕ). r.1) eq in
      (rw (sym first, sym rest) (sym (take-append-drop n p)), rw (sym first) (length-take n p fits))
]
