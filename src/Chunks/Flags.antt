-- ===== src/Chunks/Flags.antt =====
-- The flag bits of `zlen_flags` and the length below them do not disturb each other.
use tarsnap.Base.{ℕ, ◌+◌, ◌*◌, ◌/◌, ◌%◌, ◌^◌, ◌<◌, bit_and, bit_or, ◌≡◌, ap, true, false, arith}
use tarsnap.Base.Bits.{bit_and_mask, bit_and_high, bit_or_high, bit_and-one, bit_or-one}
use tarsnap.Chunks.Data.{Chunkdata, zlen_of, in_ctape, mark_ctape, chdata_malloc, chdata_ctape}

pub zlen_of_lem : (ch : Chunkdata) → zlen_of ch ≡ ch.zlen_flags % 2 ^ 30
unfolding zlen_of
zlen_of_lem ch = bit_and_mask 30 ch.zlen_flags

ctape_bit : (f : ℕ) → bit_and f (2 ^ 31) ≡ f / 2 ^ 31 % 2 * 2 ^ 31
ctape_bit f = omega (arith, bit_and_high 31 f 1, bit_and-one (f / 2 ^ 31))

marked : (k f : ℕ) → bit_or f (1 * 2 ^ k) ≡ (f / 2 ^ k / 2 * 2 + 1) * 2 ^ k + f % 2 ^ k
marked k f = omega (arith, bit_or_high k f 1, ap (λ (t : ℕ). t * 2 ^ k) (bit_or-one (f / 2 ^ k)))

pub zlen_of-mark_ctape : (ch : Chunkdata) → zlen_of (mark_ctape ch) ≡ zlen_of ch
unfolding mark_ctape
zlen_of-mark_ctape ch =
    omega (arith, zlen_of_lem ch, zlen_of_lem (mark_ctape ch), marked 31 ch.zlen_flags)

pub in_ctape-mark_ctape : (ch : Chunkdata) → in_ctape (mark_ctape ch) ≡ true
unfolding mark_ctape in_ctape
in_ctape-mark_ctape ch =
    ground (arith, ctape_bit (bit_or ch.zlen_flags (2 ^ 31)), marked 31 ch.zlen_flags)

-- A chunk read from the directory has a length below the flags, and belongs to no current tape.
pub in_ctape_small : (ch : Chunkdata) → ch.zlen_flags < 2 ^ 30 → in_ctape ch ≡ false
unfolding in_ctape
in_ctape_small ch small = ground (arith, ctape_bit ch.zlen_flags)

-- The fields of a chunk that `chunks_write_chunk` creates.
pub new_flags :
    (zlen : ℕ)
    → zlen < 2 ^ 30
    → bit_or (bit_or zlen chdata_malloc) chdata_ctape ≡ zlen + chdata_malloc + chdata_ctape
new_flags zlen small = omega (arith, marked 30 zlen, marked 31 (bit_or zlen (2 ^ 30)))

-- A record that `chunks_write_chunk` creates is marked.
pub in_ctape_new :
    (ch : Chunkdata)
    → ch.zlen_flags ≡ bit_or (bit_or (ch.zlen_flags % 2 ^ 30) chdata_malloc) chdata_ctape % 2 ^ 32
    → in_ctape ch ≡ true
unfolding in_ctape
in_ctape_new ch made =
    ground (arith, ctape_bit ch.zlen_flags, new_flags (ch.zlen_flags % 2 ^ 30) (omega arith))
