-- ===== src/Chunks/Stats.antt =====
-- `chunks_stats_add` keeps running totals modulo 2 ^ 64.
use tarsnap.Base.{ℕ, ◌+◌, ◌*◌, ◌%◌, ◌^◌, ◌≡◌, refl, sym, List, arith, sum_by}
use tarsnap.Chunks.Data.{Chunkdata, Chunkstats, zlen_of, chunks_stats_add, minus_one}

-- `s` counts each chunk of `l` as often as `copies` says.
pub record Tallies (copies : Chunkdata → ℕ) (l : List Chunkdata) (s : Chunkstats) : Type 0 where
  pub chunks : s.nchunks ≡ sum_by copies l % 2 ^ 64
  pub lens : s.s_len ≡ sum_by (λ ch. copies ch * ch.len) l % 2 ^ 64
  pub zlens : s.s_zlen ≡ sum_by (λ ch. copies ch * zlen_of ch) l % 2 ^ 64

add_mod : (x a l c : ℕ) → x ≡ a % 2 ^ 64 → (x + l * c % 2 ^ 64) % 2 ^ 64 ≡ (a + l * c) % 2 ^ 64
add_mod x a l c h = omega arith

sub_mod :
    (x a b l : ℕ) → x ≡ a % 2 ^ 64 → b + l ≡ a → (x + l * minus_one % 2 ^ 64) % 2 ^ 64 ≡ b % 2 ^ 64
sub_mod x a b l h e = omega arith

module _ (copies : Chunkdata → ℕ) (l l' : List Chunkdata) (s : Chunkstats) (len zlen : ℕ) where
  -- `c` more chunks of one size.
  pub Tallies-add :
      (c : ℕ)
      → Tallies copies l s
      → sum_by copies l' ≡ sum_by copies l + c
      → sum_by (λ ch. copies ch * ch.len) l' ≡ sum_by (λ ch. copies ch * ch.len) l + len * c
      → sum_by (λ ch. copies ch * zlen_of ch) l'
        ≡ sum_by (λ ch. copies ch * zlen_of ch) l + zlen * c
      → Tallies copies l' (chunks_stats_add s len zlen c)
  unfolding chunks_stats_add
  Tallies-add c t h1 h2 h3 = record {
    chunks = omega (arith, t.chunks);
    lens = rw h2 (add_mod s.s_len _ len c t.lens);
    zlens = rw h3 (add_mod s.s_zlen _ zlen c t.zlens);
  }

  -- One chunk less.
  pub Tallies-sub :
      Tallies copies l s
      → sum_by copies l' + 1 ≡ sum_by copies l
      → sum_by (λ ch. copies ch * ch.len) l' + len ≡ sum_by (λ ch. copies ch * ch.len) l
      → sum_by (λ ch. copies ch * zlen_of ch) l' + zlen ≡ sum_by (λ ch. copies ch * zlen_of ch) l
      → Tallies copies l' (chunks_stats_add s len zlen minus_one)
  unfolding chunks_stats_add
  Tallies-sub t h1 h2 h3 = record {
    chunks = omega (arith, t.chunks);
    lens = sub_mod s.s_len _ _ len t.lens h2;
    zlens = sub_mod s.s_zlen _ _ zlen t.zlens h3;
  }

-- The chunk's name and lengths are `ch`'s.
pub record SameChunk (ch ch' : Chunkdata) : Type 0 where
  pub hash : ch'.hash ≡ ch.hash
  pub len : ch'.len ≡ ch.len
  pub zlen : zlen_of ch' ≡ zlen_of ch

mul_same : (a b x y : ℕ) → a ≡ b → x ≡ y → a * x ≡ b * y
mul_same a b x y h k = rw (h, k)

mul_more : (a b x y : ℕ) → a ≡ b + 1 → x ≡ y → a * x ≡ b * y + y
mul_more a b x y h k = rw (h, k) (omega arith)

-- The list after one of its records, `old`, is replaced by `new`.
module _ (copies : Chunkdata → ℕ) (l l' : List Chunkdata) (s : Chunkstats) (old new : Chunkdata)
    (same : SameChunk old new)
    (sums : (f : Chunkdata → ℕ) → sum_by f l' + f old ≡ sum_by f l + f new) where
  abbrev lens : Chunkdata → ℕ
  lens ch = copies ch * ch.len

  abbrev zlens : Chunkdata → ℕ
  zlens ch = copies ch * zlen_of ch

  pub Tallies-replace_same : copies new ≡ copies old → Tallies copies l s → Tallies copies l' s
  Tallies-replace_same h t =
      let eq : sum_by copies l' ≡ sum_by copies l = omega (arith, sums copies) in
      let eq_lens : sum_by lens l' ≡ sum_by lens l =
        omega (arith, sums lens, mul_same _ _ _ _ h same.len) in
      let eq_zlens : sum_by zlens l' ≡ sum_by zlens l =
        omega (arith, sums zlens, mul_same _ _ _ _ h same.zlen) in
      record { chunks = rw eq t.chunks; lens = rw eq_lens t.lens; zlens = rw eq_zlens t.zlens }

  pub Tallies-replace_more :
      copies new ≡ copies old + 1
      → Tallies copies l s
      → Tallies copies l' (chunks_stats_add s old.len (zlen_of old) 1)
  Tallies-replace_more h t =
      Tallies-add copies l l' s old.len (zlen_of old) 1 t (omega (arith, sums copies))
        (omega (arith, sums lens, mul_more _ _ _ _ h same.len))
        (omega (arith, sums zlens, mul_more _ _ _ _ h same.zlen))

  pub Tallies-replace_less :
      copies old ≡ copies new + 1
      → Tallies copies l s
      → Tallies copies l' (chunks_stats_add s old.len (zlen_of old) minus_one)
  Tallies-replace_less h t =
      Tallies-sub copies l l' s old.len (zlen_of old) t (omega (arith, sums copies))
        (omega (arith, sums lens, mul_more _ _ _ _ h (sym same.len), same.len))
        (omega (arith, sums zlens, mul_more _ _ _ _ h (sym same.zlen), same.zlen))

-- The list with one more record.
pub Tallies-insert :
    (copies : Chunkdata → ℕ) (l l' : List Chunkdata) (s : Chunkstats) (new : Chunkdata) (zlen : ℕ)
    → ((f : Chunkdata → ℕ) → sum_by f l' ≡ f new + sum_by f l)
    → copies new ≡ 1
    → zlen_of new ≡ zlen
    → Tallies copies l s
    → Tallies copies l' (chunks_stats_add s new.len zlen 1)
Tallies-insert copies l l' s new zlen sums one same t =
    Tallies-add copies l l' s new.len zlen 1 t (omega (arith, sums copies))
      (omega (arith, sums (λ ch. copies ch * ch.len), mul_same _ 1 _ _ one (refl {a = new.len})))
      (omega (arith, sums (λ ch. copies ch * zlen_of ch), mul_same _ 1 _ _ one same))

-- A list with the same sums.
pub Tallies_same :
    (copies : Chunkdata → ℕ) (l l' : List Chunkdata) (s : Chunkstats)
    → ((f : Chunkdata → ℕ) → sum_by f l' ≡ sum_by f l)
    → Tallies copies l s
    → Tallies copies l' s
Tallies_same copies l l' s sums t = record {
  chunks = rw (sums copies) t.chunks;
  lens = rw (sums (λ ch. copies ch * ch.len)) t.lens;
  zlens = rw (sums (λ ch. copies ch * zlen_of ch)) t.zlens;
}
