-- ===== src/Chunks/Directory/Reading.antt =====
-- The entries of a directory file whose chunks are sane, of distinct names and not there yet.
use tarsnap.Base.{
  ℕ, ◌+◌, ◌^◌, ◌<◌, ◌≡◌, ◌≢◌, refl, sym, ap, ◌∙◌, inl, inr, true, false, Option, none, some, List,
  [], ◌∷◌, ◌++◌, arith, length, take, drop, take-append_eq, drop-append_eq, if◌then◌else◌,
  Bool-cases, All, same_bytes, same_bytes_iff, bytes_eq,
}
use tarsnap.Base.Endian.{Endian}
use tarsnap.Datastruct.KeyedTable.{
  KeyedTable, Inserted, done, present, failed, Updates, InsertLaw, find_in, AllDistinct,
}
use tarsnap.Chunks.Data.{Chunkdata, key_of, chunks_stats_add}
use tarsnap.Chunks.Directory.{
  Entry, hash_of, Io, enc_chunk, dec_chunk, Loaded, count_entry, load_entry, load_entries,
}
use tarsnap.Chunks.Directory.Sane.{IsSane, is_insane-IsSane, zlen_of-unmarked}
use tarsnap.Chunks.Directory.Entries.{IsStorable, length-enc_chunk, dec_chunk-enc_chunk, enc_all}

-- A run on which no call of the system fails.
pub record IsSmooth (io : Io) : Type 0 where
  pub named : io.named ≡ true
  pub copied : io.copied ≡ true
  pub alloc : (n : ℕ) → io.alloc n ≡ true
  pub opens : io.opens ≡ true
  pub reads : (n : ℕ) → io.reads n ≡ true
  pub closes : io.closes ≡ true
  pub writes : (n : ℕ) → io.writes n ≡ true
  pub syncs : io.syncs ≡ true
  pub syncs_dir : io.syncs_dir ≡ true

-- Chunks as a file gives them: storable, sane and without flags.
abbrev pub IsEntry : Chunkdata → Type 0
IsEntry ch = IsStorable ch × IsSane ch

module _ (le : Endian) (e : Entry) (tab : KeyedTable (hash_of e))
    (room : (t : tab.T) (r : e.R)
      → tab.IsOk t
      → tab.getsize t < 2 ^ 58
      → (tab.insert t r).1 ≢ failed) where
  -- A new sane entry is inserted and counted.
  load_entry-done :
      (L : Loaded le e tab) (ch : Chunkdata)
      → tab.IsOk L.ht
      → IsSane ch
      → tab.read L.ht ch.hash ≡ none
      → tab.getsize L.ht < 2 ^ 58
      → (M : Loaded le e tab) × (load_entry le e tab L ch ≡ some M)
        × tab.IsOk M.ht
        × Updates (hash_of e) tab.read tab.records L.ht (e.make ch) M.ht
        × (M.stats_extra ≡ L.stats_extra)
        × (tab.getsize M.ht ≡ tab.getsize L.ht + 1)
  unfolding load_entry count_entry
  load_entry-done L ch ok s absent fits =
      let (ok', law) = tab.insert_law L.ht (e.make ch) ok in
      go (tab.insert L.ht (e.make ch)) refl ok' law
    where
      go :
          (answer : tab.T × Inserted)
          → tab.insert L.ht (e.make ch) ≡ answer
          → tab.IsOk answer.0
          → InsertLaw (hash_of e) tab.read tab.records L.ht (e.make ch) answer
          → (M : Loaded le e tab) × (load_entry le e tab L ch ≡ some M)
            × tab.IsOk M.ht
            × Updates (hash_of e) tab.read tab.records L.ht (e.make ch) M.ht
            × (M.stats_extra ≡ L.stats_extra)
            × (tab.getsize M.ht ≡ tab.getsize L.ht + 1)
      go (t, done) is ok' (free, updates, sums) = (
        record L {
          ht = t;
          stats_unique = chunks_stats_add L.stats_unique ch.len ch.zlen_flags 1;
          stats_all = chunks_stats_add L.stats_all ch.len ch.zlen_flags ch.ncopies;
        },
        rw (is_insane-IsSane le ch s, load_entry) (rw is refl),
        ok',
        updates,
        refl,
        omega (arith, tab.getsize_law t ok', tab.getsize_law L.ht ok, sums (λ r. 1)),
      )
      go (t, present) is ok' (held, reads, sums) =
          let same : (e.view (e.make ch)).hash ≡ ch.hash =
            ap (λ (c : Chunkdata). c.hash) (e.view-make ch) in
          absurd (held (ap (tab.read L.ht) same ∙ absent))
      go (t, failed) is ok' same =
          absurd (room L.ht (e.make ch) ok fits (ap (λ (a : tab.T × Inserted). a.1) is))

  abbrev pub over : Option Chunkdata → Option e.R → Option e.R
  over none old = old
  over (some ch) old = some (e.make ch)

  abbrev pub AllAbsent : List Chunkdata → tab.T → Type 0
  AllAbsent chs t = All (λ ch. tab.read t ch.hash ≡ none) chs

  AllAbsent-next :
      (t t' : tab.T) (ch : Chunkdata) (chs : List Chunkdata)
      → Updates (hash_of e) tab.read tab.records t (e.make ch) t'
      → find_in key_of ch.hash chs ≡ none
      → AllAbsent chs t
      → AllAbsent chs t'
  AllAbsent-next t t' ch [] updates alone absent = tt
  AllAbsent-next t t' ch (c ∷ chs) updates alone (free, absent) =
      elim (Bool-cases (same_bytes c.hash ch.hash)) [
        | inl same ↦ absurd (cc (rw same at alone))
        | inr differ ↦
            let apart : same_bytes (e.view (e.make ch)).hash c.hash ≡ false =
              elim (Bool-cases (same_bytes (e.view (e.make ch)).hash c.hash)) [
                | inr no_match ↦ no_match
                | inl equal ↦
                    let one : (e.view (e.make ch)).hash ≡ c.hash = (same_bytes_iff _ _).0 equal in
                    let two : c.hash ≡ ch.hash =
                      sym one ∙ ap (λ (x : Chunkdata). x.hash) (e.view-make ch) in
                    absurd (cc ((same_bytes_iff c.hash ch.hash).1 two))
              ] in
            (
              updates c.hash ∙ rw apart free,
              AllAbsent-next t t' ch chs updates (rw differ at alone) absent,
            )
      ]

  -- The entries of a file are all inserted.
  pub load_entries-done :
      (io : Io) (chs : List Chunkdata) (L : Loaded le e tab) (pos : ℕ)
      → IsSmooth io
      → tab.IsOk L.ht
      → All IsEntry chs
      → AllDistinct key_of chs
      → AllAbsent chs L.ht
      → tab.getsize L.ht + length chs < 2 ^ 58
      → (M : Loaded le e tab) × (load_entries le e tab io (length chs) L pos (enc_all le chs)
          ≡ some M)
        × ((k : List ℕ) → tab.read M.ht k ≡ over (find_in key_of k chs) (tab.read L.ht k))
        × (M.stats_extra ≡ L.stats_extra)
  unfolding load_entries
  load_entries-done io [] L pos smooth ok entries distinct absent fits = (L, refl, λ k. refl, refl)
  load_entries-done io (ch ∷ chs) L pos smooth ok ((storable, sane), entries) (alone, distinct)
        (free, absent) fits =
      let (M, entered, ok', updates, extra, size') =
        load_entry-done L ch ok sane free (omega (arith, fits)) in
      let (N, loaded, reads, extra') =
        load_entries-done io chs M (pos + 48) smooth ok' entries distinct
          (AllAbsent-next L.ht M.ht ch chs updates alone absent) (omega (arith, fits, size')) in
      let bytes = enc_chunk le ch in
      let size = length-enc_chunk le ch storable.hash in
      let first : take 48 (bytes ++ enc_all le chs) ≡ bytes =
        take-append_eq 48 bytes (enc_all le chs) size in
      let rest : drop 48 (bytes ++ enc_all le chs) ≡ enc_all le chs =
        drop-append_eq 48 0 bytes (enc_all le chs) (omega (arith, size)) in
      let same : dec_chunk le bytes ≡ ch =
        dec_chunk-enc_chunk le ch storable
        ∙ ap (λ (n : ℕ). record ch { zlen_flags = n }) (zlen_of-unmarked ch sane.unmarked) in
      (
        N,
        rw (smooth.reads (pos + 48)) (rw (first, same) (rw entered (rw rest loaded))),
        λ k. reads k ∙ step k M updates,
        extra' ∙ extra,
      )
    where
      step :
          (k : List ℕ) (M : Loaded le e tab)
          → Updates (hash_of e) tab.read tab.records L.ht (e.make ch) M.ht
          → over (find_in key_of k chs) (tab.read M.ht k)
            ≡ over (find_in key_of k (ch ∷ chs)) (tab.read L.ht k)
      step k M updates =
          let now : tab.read M.ht k
              ≡ (if same_bytes ch.hash k then some (e.make ch) else tab.read L.ht k) =
            updates k
            ∙ ap
                (λ (c : Chunkdata).
                  if same_bytes c.hash k then some (e.make ch) else tab.read L.ht k)
                (e.view-make ch) in
          elim (Bool-cases (same_bytes ch.hash k)) [
            | inl hit ↦
                let is_k : ch.hash ≡ k = (same_bytes_iff ch.hash k).0 hit in
                let gone : find_in key_of k chs ≡ none = rw is_k at alone in
                rw hit
                  (ap (λ (o : Option Chunkdata). over o (tab.read M.ht k)) gone ∙ now ∙ rw hit refl)
            | inr miss ↦ rw miss (ap (over (find_in key_of k chs)) (now ∙ rw miss refl))
          ]
