-- ===== src/Base/Endian.antt =====
-- The byte order functions of libcperciva's sysendian.h, which the files on disk are made with.
pub mod Little
use Prim.Native.Nat.{ℕ, ◌^◌, ◌<◌}
use mathlib.Core.Path.{◌≡◌}
use mathlib.Core.List.{List}
use tarsnap.Base.Lists.{length}

-- le32enc and the other functions of sysendian.h, with what is documented of them.
pub record Endian : Type 0 where
  pub le32enc : ℕ → List ℕ
  pub le32dec : List ℕ → ℕ
  pub le64enc : ℕ → List ℕ
  pub le64dec : List ℕ → ℕ
  pub length-le32enc : (x : ℕ) → length (le32enc x) ≡ 4
  pub length-le64enc : (x : ℕ) → length (le64enc x) ≡ 8
  pub le32dec-lt : (bytes : List ℕ) → le32dec bytes < 2 ^ 32
  pub le32dec-le32enc : (x : ℕ) → x < 2 ^ 32 → le32dec (le32enc x) ≡ x
  pub le64dec-le64enc : (x : ℕ) → x < 2 ^ 64 → le64dec (le64enc x) ≡ x
