-- ===== src/Chunks/Data.antt =====
-- tar/chunks/chunks_internal.h and the arithmetic of tar/chunks/chunks_stats_internal.c.
use tarsnap.Base.{ℕ, ◌+◌, ◌-◌, ◌*◌, ◌%◌, ◌^◌, bit_and, bit_or, Bool, not, List, ◌==◌, bytes_eq}
use tarsnap.Datastruct.KeyedTable.{KeyedTable}

-- `CHDATA_MALLOC`, `CHDATA_CTAPE` and `CHDATA_ZLEN`.
abbrev pub chdata_malloc : ℕ
chdata_malloc = 2 ^ 30

abbrev pub chdata_ctape : ℕ
chdata_ctape = 2 ^ 31

abbrev pub chdata_flags : ℕ
chdata_flags = 0xc000_0000

abbrev pub chdata_zlen : ℕ
chdata_zlen = 2 ^ 32 - 1 - chdata_flags

-- `struct chunkdata`
pub record Chunkdata : Type 0 where
  pub hash : List ℕ
  pub len : ℕ
  pub zlen_flags : ℕ
  pub nrefs : ℕ
  pub ncopies : ℕ

-- `struct chunkstats`
pub record Chunkstats : Type 0 where
  pub nchunks : ℕ
  pub s_len : ℕ
  pub s_zlen : ℕ

-- `offsetof(struct chunkdata, hash)`, which the hash table is given to find the keys.
abbrev pub key_of : Chunkdata → List ℕ
key_of ch = ch.hash

-- A hash table of chunks.
abbrev pub ChunkTable : Type 1
ChunkTable = KeyedTable key_of

-- `ch->zlen_flags & CHDATA_ZLEN`
unfoldable pub zlen_of : Chunkdata → ℕ
zlen_of ch = bit_and ch.zlen_flags chdata_zlen

-- `(ch->zlen_flags & CHDATA_CTAPE) != 0`
unfoldable pub in_ctape : Chunkdata → Bool
in_ctape ch = not (bit_and ch.zlen_flags chdata_ctape == 0)

-- `ch->zlen_flags |= CHDATA_CTAPE`
unfoldable pub mark_ctape : Chunkdata → Chunkdata
mark_ctape ch = record ch { zlen_flags = bit_or ch.zlen_flags chdata_ctape }

unfoldable pub chunks_stats_zero : Chunkstats
chunks_stats_zero = record { nchunks = 0; s_len = 0; s_zlen = 0 }

-- `copies` is `(uint64_t)copies`, so that -1 is `minus_one`.
abbrev pub minus_one : ℕ
minus_one = 2 ^ 64 - 1

unfoldable pub chunks_stats_add : Chunkstats → ℕ → ℕ → ℕ → Chunkstats
chunks_stats_add stats len zlen copies = record {
  nchunks = (stats.nchunks + copies) % 2 ^ 64;
  s_len = (stats.s_len + len * copies % 2 ^ 64) % 2 ^ 64;
  s_zlen = (stats.s_zlen + zlen * copies % 2 ^ 64) % 2 ^ 64;
}

unfoldable pub chunks_stats_addstats : Chunkstats → Chunkstats → Chunkstats
chunks_stats_addstats to from = record {
  nchunks = (to.nchunks + from.nchunks) % 2 ^ 64;
  s_len = (to.s_len + from.s_len) % 2 ^ 64;
  s_zlen = (to.s_zlen + from.s_zlen) % 2 ^ 64;
}
