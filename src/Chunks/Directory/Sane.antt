-- ===== src/Chunks/Directory/Sane.antt =====
-- The entries that `chunks_directory_read` accepts.
use tarsnap.Base.{ℕ, ◌*◌, ◌/◌, ◌%◌, ◌^◌, ◌<◌, bit_and, ◌≡◌, false, List, arith}
use tarsnap.Base.Bits.{bit_and_mask, bit_and_high}
use tarsnap.Base.Endian.{Endian}
use tarsnap.Chunks.Data.{Chunkdata, zlen_of, chdata_flags}
use tarsnap.Chunks.Flags.{zlen_of_lem}
use tarsnap.Chunks.Directory.{is_insane, dec_chunk}

-- The integers are `uint32_t`.
pub record Is32 (ch : Chunkdata) : Type 0 where
  pub len : ch.len < 2 ^ 32
  pub zlen_flags : ch.zlen_flags < 2 ^ 32
  pub nrefs : ch.nrefs < 2 ^ 32
  pub ncopies : ch.ncopies < 2 ^ 32

-- An entry has lengths and is used, and none of its flags is set.
pub record IsSane (ch : Chunkdata) : Type 0 where
  pub long : 0 < ch.len
  pub stored : 0 < ch.zlen_flags
  pub unmarked : ch.zlen_flags < 2 ^ 30
  pub used : 0 < ch.nrefs
  pub refs : ch.nrefs < 2 ^ 32
  pub copies : ch.ncopies < 2 ^ 32

flag_bits : (f : ℕ) → bit_and f chdata_flags ≡ f / 2 ^ 30 % 4 * 2 ^ 30
flag_bits f = omega (arith, bit_and_high 30 f 3, bit_and_mask 2 (f / 2 ^ 30))

pub zlen_of-unmarked : (ch : Chunkdata) → ch.zlen_flags < 2 ^ 30 → zlen_of ch ≡ ch.zlen_flags
zlen_of-unmarked ch small = omega (arith, zlen_of_lem ch)

-- A chunk's record as the next transaction reads it: without flags.
abbrev pub reloaded : Chunkdata → Chunkdata
reloaded ch = record ch { zlen_flags = zlen_of ch }

module _ (le : Endian) where
  pub dec_chunk-Is32 : (che : List ℕ) → Is32 (dec_chunk le che)
  unfolding dec_chunk
  dec_chunk-Is32 che = record {
    len = le.le32dec-lt _;
    zlen_flags = le.le32dec-lt _;
    nrefs = le.le32dec-lt _;
    ncopies = le.le32dec-lt _;
  }

  pub is_insane-false : (ch : Chunkdata) → Is32 ch → is_insane le ch ≡ false → IsSane ch
  unfolding is_insane
  is_insane-false ch fits h = ground (arith, flag_bits ch.zlen_flags)

  pub is_insane-IsSane : (ch : Chunkdata) → IsSane ch → is_insane le ch ≡ false
  unfolding is_insane
  is_insane-IsSane ch s = ground (arith, flag_bits ch.zlen_flags)
