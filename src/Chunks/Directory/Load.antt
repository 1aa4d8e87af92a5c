-- ===== src/Chunks/Directory/Load.antt =====
-- What `chunks_directory_read` returns: a table of sane entries, and statistics that are their sums.
use tarsnap.Base.{
  ◌||◌, ℕ, zero, suc, ◌+◌, ◌-◌, ◌*◌, ◌/◌, ◌%◌, ◌^◌, ltb, leb, length, if-eq-some, else-eq-some,
  elim-eq-some, ◌<◌, ◌≡◌, refl, sym, ap, ◌∙◌, inl, inr, Bool, Option, none, some, List, [], ◌∷◌,
  arith, map, sum_by, ◌==◌, if◌then◌else◌, Bool-cases, Option-cases, same_bytes, bytes_eq, take,
  drop,
}
use native.Mathlib.Nat.{mul_comm}
use tarsnap.Base.Endian.{Endian}
use tarsnap.Datastruct.KeyedTable.{KeyedTable, Inserted, done, present, failed, InsertLaw}
use tarsnap.Chunks.Data.{Chunkdata, Chunkstats, zlen_of, chunks_stats_zero, chunks_stats_add}
use tarsnap.Chunks.Stats.{Tallies, Tallies-add}
use tarsnap.Chunks.Refs.{live, copies_of}
use tarsnap.Chunks.Directory.{
  Entry, hash_of, Io, OnDisk, missing, unknown, holds, dec_chunk, dec_stats, is_insane, Loaded,
  fresh, count_entry, load_entry, load_entries, read_entries, read_file, read_cache,
  chunks_directory_read,
}
use tarsnap.Chunks.Directory.Sane.{Is32, IsSane, zlen_of-unmarked, dec_chunk-Is32, is_insane-false}

pub sum_by-map {ℓ κ} :
    {A : Type ℓ} {B : Type κ} (f : B → ℕ) (g : A → B) (xs : List A)
    → sum_by f (map g xs) ≡ sum_by (λ a. f (g a)) xs
sum_by-map f g [] = refl
sum_by-map f g (x ∷ xs) = omega (arith, sum_by-map f g xs)

module _ (le : Endian) (e : Entry) (tab : KeyedTable (hash_of e)) where
  abbrev pub chunks : tab.T → List Chunkdata
  chunks t = map e.view (tab.records t)

  pub record IsLoaded (L : Loaded le e tab) : Type 0 where
    pub ok : tab.IsOk L.ht
    pub sane : (k : List ℕ) (r : e.R) → tab.read L.ht k ≡ some r → IsSane (e.view r)
    pub unique : Tallies live (chunks L.ht) L.stats_unique
    pub all : Tallies copies_of (chunks L.ht) L.stats_all

  -- An empty table with its statistics.
  fresh-IsLoaded :
      (t : tab.T) (extra : Chunkstats) → tab.init ≡ some t → IsLoaded (fresh le e tab t extra)
  unfolding chunks_stats_zero
  fresh-IsLoaded t extra h =
      let (ok, empty, none_there) = tab.init_law t h in
      record {
        ok = ok;
        sane = λ k r held. absurd (cc (empty k));
        unique = rw none_there (record { chunks = refl; lens = refl; zlens = refl });
        all = rw none_there (record { chunks = refl; lens = refl; zlens = refl });
      }

  -- The table with one more chunk.
  module _ (t t' : tab.T) (ch : Chunkdata)
      (sums : (f : e.R → ℕ)
        → sum_by f (tab.records t') ≡ f (e.make ch) + sum_by f (tab.records t)) where
    sums_chunks : (f : Chunkdata → ℕ) → sum_by f (chunks t') ≡ f ch + sum_by f (chunks t)
    sums_chunks f = omega (
      arith,
      sum_by-map f e.view (tab.records t'),
      sum_by-map f e.view (tab.records t),
      sums (λ r. f (e.view r)),
      ap f (e.view-make ch),
    )

    Tallies-entry :
        (copies : Chunkdata → ℕ) (s : Chunkstats) (c : ℕ)
        → copies ch ≡ c
        → ch.zlen_flags < 2 ^ 30
        → Tallies copies (chunks t) s
        → Tallies copies (chunks t') (chunks_stats_add s ch.len ch.zlen_flags c)
    Tallies-entry copies s c counted small tally =
        let zlen = zlen_of-unmarked ch small in
        Tallies-add copies (chunks t) (chunks t') s ch.len ch.zlen_flags c tally
          (omega (arith, sums_chunks copies))
          (omega (
            arith,
            sums_chunks (λ ch. copies ch * ch.len),
            ap (λ (n : ℕ). n * ch.len) counted,
            mul_comm c ch.len,
          ))
          (omega (
            arith,
            sums_chunks (λ ch. copies ch * zlen_of ch),
            ap (λ (n : ℕ). n * zlen_of ch) counted,
            ap (λ (n : ℕ). c * n) zlen,
            mul_comm c ch.zlen_flags,
          ))

  count_entry-IsLoaded :
      (L L' : Loaded le e tab) (ch : Chunkdata) (answer : tab.T × Inserted)
      → IsLoaded L
      → IsSane ch
      → tab.IsOk answer.0
      → InsertLaw (hash_of e) tab.read tab.records L.ht (e.make ch) answer
      → count_entry le e tab L ch answer ≡ some L'
      → IsLoaded L'
  unfolding count_entry
  count_entry-IsLoaded L L' ch (t, done) l s ok (absent, updates, sums) counted =
      let made = record L {
        ht = t;
        stats_unique = chunks_stats_add L.stats_unique ch.len ch.zlen_flags 1;
        stats_all = chunks_stats_add L.stats_all ch.len ch.zlen_flags ch.ncopies;
      } in
      let same : made ≡ L' = cc in
      rw (← same) (record {
        ok = ok;
        sane = λ k r held. elim (Bool-cases (same_bytes (e.view (e.make ch)).hash k)) [
          | inl hit ↦
              let is_new : some (e.make ch) ≡ some r = sym (updates k ∙ rw hit) ∙ held in
              let eq : e.make ch ≡ r = cc in
              let seen : ch ≡ e.view r = sym (e.view-make ch) ∙ ap e.view eq in rw seen at s
          | inr miss ↦ l.sane k r (sym (updates k ∙ rw miss) ∙ held)
        ];
        unique =
            Tallies-entry L.ht t ch sums live L.stats_unique 1 (ground (arith, s.used)) s.unmarked
              l.unique;
        all = Tallies-entry L.ht t ch sums copies_of L.stats_all ch.ncopies refl s.unmarked l.all;
      })
  count_entry-IsLoaded L L' ch (t, present) l s ok law counted = absurd (cc)
  count_entry-IsLoaded L L' ch (t, failed) l s ok law counted = absurd (cc)

  load_entry-IsLoaded :
      (L L' : Loaded le e tab) (ch : Chunkdata)
      → IsLoaded L
      → Is32 ch
      → load_entry le e tab L ch ≡ some L'
      → IsLoaded L'
  unfolding load_entry
  load_entry-IsLoaded L L' ch l fits loaded = elim (Bool-cases (is_insane le ch)) [
    | inl insane ↦ absurd (cc (rw (insane, load_entry) at loaded))
    | inr sane ↦
        let (ok, law) = tab.insert_law L.ht (e.make ch) l.ok in
        count_entry-IsLoaded L L' ch (tab.insert L.ht (e.make ch)) l
          (is_insane-false le ch fits sane) ok law (rw (sane, load_entry) at loaded)
  ]

  load_entries-IsLoaded :
      (io : Io) (n : ℕ) (L L' : Loaded le e tab) (pos : ℕ) (rest : List ℕ)
      → IsLoaded L
      → load_entries le e tab io n L pos rest ≡ some L'
      → IsLoaded L'
  unfolding load_entries
  load_entries-IsLoaded io zero L L' pos rest l loaded = let same : L ≡ L' = cc in rw (← same) l
  load_entries-IsLoaded io (suc n) L L' pos rest l loaded =
      elim (Bool-cases (io.reads (pos + 48))) [
        | inr unreadable ↦ absurd (cc (rw (unreadable, load_entries) at loaded))
        | inl readable ↦ elim (Option-cases (load_entry le e tab L (dec_chunk le (take 48 rest)))) [
          | inl refused ↦ absurd (cc (rw (readable, refused, load_entries) at loaded))
          | inr (M, entered) ↦
              load_entries-IsLoaded io n M L' (pos + 48) (drop 48 rest)
                (load_entry-IsLoaded L M (dec_chunk le (take 48 rest)) l (dec_chunk-Is32 le _)
                  entered)
                (rw (readable, entered, load_entries) at loaded)
        ]
      ]

  read_file-IsLoaded :
      (io : Io) (t : tab.T) (file : List ℕ) (L : Loaded le e tab)
      → tab.init ≡ some t
      → read_file le e tab io t file ≡ some L
      → IsLoaded L
  unfolding read_file read_entries
  read_file-IsLoaded io t file L empty loaded =
      let n : ℕ = (length file - 24) / 48 in
      let (long, h1) = else-eq-some (ltb (length file) 24) _ loaded in
      let (whole, h2) = if-eq-some ((length file - 24) % 48 == 0) _ h1 in
      let (few, h3) = else-eq-some (leb ((2 ^ 64 - 1) / 52) n) _ h2 in
      let (memory, h4) = if-eq-some ((n == 0) || io.alloc (n * e.size)) _ h3 in
      let (opened, h5) = if-eq-some io.opens _ h4 in
      let (begun, h6) = if-eq-some (io.reads 24) _ h5 in
      let first = fresh le e tab t (dec_stats le (take 24 file)) in
      let (M, entries, h7) =
        elim-eq-some (load_entries le e tab io n first 24 (drop 24 file))
          (λ (M : Loaded le e tab). if io.closes then some M else none) h6 in
      let (closed, h8) = if-eq-some io.closes (some M) h7 in
      let same : M ≡ L = cc in
      rw (← same)
        (load_entries-IsLoaded io n first M 24 (drop 24 file) (fresh-IsLoaded t _ empty) entries)

  -- What `chunks_directory_read` returns, with or without a file, is a table of sane entries, and its
  -- two statistics are the sums over the table's chunks, without multiplicity and with it.
  pub chunks_directory_read-IsLoaded :
      (io : Io) (mustexist : Bool) (cache : Option OnDisk) (L : Loaded le e tab)
      → chunks_directory_read le e tab io mustexist cache ≡ some L
      → IsLoaded L
  unfolding chunks_directory_read read_cache
  chunks_directory_read-IsLoaded io mustexist cache L loaded =
      let (t, empty, h1) =
        elim-eq-some tab.init
          (λ (t : tab.T). elim cache [
            | none ↦ some (fresh le e tab t chunks_stats_zero)
            | some state ↦ if io.named then read_cache le e tab io mustexist t state else none
          ])
          loaded in
      from_cache t cache empty h1
    where
      from_state :
          (t : tab.T) (state : OnDisk)
          → tab.init ≡ some t
          → read_cache le e tab io mustexist t state ≡ some L
          → IsLoaded L
      from_state t missing empty h =
          let (allowed, h1) =
            else-eq-some mustexist (some (fresh le e tab t chunks_stats_zero)) h in
          let same : fresh le e tab t chunks_stats_zero ≡ L = cc in
          rw (← same) (fresh-IsLoaded t chunks_stats_zero empty)
      from_state t unknown empty h = absurd (cc)
      from_state t (holds file) empty h = read_file-IsLoaded io t file L empty h

      from_cache :
          (t : tab.T) (cache : Option OnDisk)
          → tab.init ≡ some t
          → (elim cache as (λ x. Option (Loaded le e tab)) [
            | none ↦ some (fresh le e tab t chunks_stats_zero)
            | some state ↦ if io.named then read_cache le e tab io mustexist t state else none
          ])
            ≡ some L
          → IsLoaded L
      from_cache t none empty h =
          let same : fresh le e tab t chunks_stats_zero ≡ L = cc in
          rw (← same) (fresh-IsLoaded t chunks_stats_zero empty)
      from_cache t (some state) empty h = from_state t state empty (if-eq-some io.named _ h).1
