-- ===== src/Base/Endian/Little.antt =====
-- A byte order that keeps the laws of `Endian`: least significant byte first.
use tarsnap.Base.{ℕ, ◌+◌, ◌*◌, ◌/◌, ◌%◌, ◌^◌, refl, List, [], ◌∷◌, ◌++◌, arith, get_or}
use tarsnap.Base.Endian.{Endian}

abbrev bytes4 : ℕ → List ℕ
bytes4 x = x % 256 ∷ (x / 256) % 256 ∷ (x / 65536) % 256 ∷ (x / 16777216) % 256 ∷ []

abbrev number4 : List ℕ → ℕ
number4 bs = get_or bs 0 0 + 256 * get_or bs 1 0 + 65536 * get_or bs 2 0 + 16777216 * get_or bs 3 0

abbrev bytes8 : ℕ → List ℕ
bytes8 x = bytes4 x ++ bytes4 (x / 4294967296)

abbrev number8 : List ℕ → ℕ
number8 bs =
    number4 bs
    + 4294967296
      * (get_or bs 4 0 + 256 * get_or bs 5 0 + 65536 * get_or bs 6 0 + 16777216 * get_or bs 7 0)

abbrev pub little : Endian
little = record {
  le32enc = bytes4;
  le32dec = λ bs. number4 bs % 2 ^ 32;
  le64enc = bytes8;
  le64dec = number8;
  length-le32enc = λ x. refl;
  length-le64enc = λ x. refl;
  le32dec-lt = λ bs. omega arith;
  le32dec-le32enc = λ x h. omega arith;
  le64dec-le64enc = λ x h. omega arith;
}
