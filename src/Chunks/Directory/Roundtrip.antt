-- ===== src/Chunks/Directory/Roundtrip.antt =====
-- Writing the chunk directory and reading it again.
use tarsnap.Base.{
  ◌||◌, ℕ, ◌+◌, ◌-◌, ◌*◌, ◌/◌, ◌%◌, ◌^◌, ◌<◌, ◌≤◌, ◌≡◌, ◌≢◌, refl, sym, ap, ◌∙◌, inl, inr, Bool,
  true, false, Option, none, some, List, [], ◌∷◌, ◌++◌, arith, length, length-append, take, drop,
  take-append_eq, drop-append_eq, append_assoc, append-nil, ◌==◌, ltb, leb, Bool-cases, All,
  bytes_eq, sum_by,
}
use mathlib.Core.Option
use tarsnap.Base.Endian.{Endian}
use tarsnap.Datastruct.KeyedTable.{KeyedTable, failed, find_in, AllDistinct}
use tarsnap.Chunks.Data.{Chunkdata, Chunkstats, key_of}
use tarsnap.Chunks.Directory.{
  Entry, hash_of, Io, holds, enc_chunk, enc_stats, dec_stats, Loaded, fresh, load_entries,
  read_entries, read_file, read_cache, chunks_directory_read, fwrite, callback_write, write_entries,
  write_file, chunks_directory_write,
}
use tarsnap.Chunks.Directory.Entries.{
  IsStorable, reloaded-IsSane, reloaded-IsStorable, enc_chunk-reloaded, length-enc_stats,
  dec_stats-enc_stats, enc_all, length-enc_all, stored, kept, find_in-kept, AllDistinct-kept,
}
use tarsnap.Chunks.Directory.Reading.{IsSmooth, IsEntry, AllAbsent, over, load_entries-done}

module _ (le : Endian) (e : Entry) (tab : KeyedTable (hash_of e))
    (room : (t : tab.T) (r : e.R)
      → tab.IsOk t
      → tab.getsize t < 2 ^ 58
      → (tab.insert t r).1 ≢ failed) where
  callback_write_unused :
      (io : Io) (f : List ℕ) (r : e.R)
      → ((e.view r).nrefs == 0) ≡ true
      → callback_write le e tab io f r ≡ (f, true)
  unfolding callback_write
  callback_write_unused io f r unused = rw (unused, callback_write)

  callback_write_used :
      (io : Io) (f : List ℕ) (r : e.R)
      → IsSmooth io
      → ((e.view r).nrefs == 0) ≡ false
      → callback_write le e tab io f r ≡ (f ++ enc_chunk le (e.view r), true)
  unfolding callback_write fwrite
  callback_write_used io f r smooth used =
      rw (used, callback_write)
        (rw (smooth.writes (length f + length (enc_chunk le (e.view r))), fwrite))

  -- The entries of the records, one after the other.
  write_entries-kept :
      (io : Io) (f : List ℕ) (rs : List e.R)
      → IsSmooth io
      → All (λ r. (e.view r).nrefs ≢ 0 → IsStorable (e.view r)) rs
      → write_entries le e tab io f rs ≡ (f ++ enc_all le (kept e rs), true)
  unfolding write_entries kept
  write_entries-kept io f [] smooth ok = ap (λ (g : List ℕ). (g, true)) (sym (append-nil f))
  write_entries-kept io f (r ∷ rs) smooth (ok, oks) = elim (Bool-cases ((e.view r).nrefs == 0)) [
    | inl unused ↦ rw unused (
        rw (callback_write_unused io f r unused, write_entries)
          (write_entries-kept io f rs smooth oks))
    | inr used ↦
        let bytes = enc_chunk le (e.view r) in
        rw used (
          rw (callback_write_used io f r smooth used, write_entries)
            (write_entries-kept io (f ++ bytes) rs smooth oks
              ∙ ap (λ (g : List ℕ). (g, true))
                  (append_assoc f bytes (enc_all le (kept e rs))
                    ∙ ap (λ (c : List ℕ). f ++ (c ++ enc_all le (kept e rs)))
                        (sym (enc_chunk-reloaded le (e.view r))))))
  ]

  kept-IsEntry :
      (rs : List e.R)
      → All (λ r. (e.view r).nrefs ≢ 0 → IsStorable (e.view r)) rs
      → All IsEntry (kept e rs)
  unfolding kept
  kept-IsEntry [] ok = tt
  kept-IsEntry (r ∷ rs) (ok, oks) = elim (Bool-cases ((e.view r).nrefs == 0)) [
    | inl unused ↦ rw unused (kept-IsEntry rs oks)
    | inr used ↦
        let s = ok (ground arith) in
        let sane = reloaded-IsSane (e.view r) s (ground arith) in
        rw used ((reloaded-IsStorable (e.view r) s, sane), kept-IsEntry rs oks)
  ]

  write_file-done :
      (io : Io) (t : tab.T) (extra : Chunkstats)
      → IsSmooth io
      → All (λ r. (e.view r).nrefs ≢ 0 → IsStorable (e.view r)) (tab.records t)
      → chunks_directory_write le e tab io t extra
        ≡ (some (enc_stats le extra ++ enc_all le (kept e (tab.records t))), true)
  unfolding chunks_directory_write write_file fwrite
  write_file-done io t extra smooth ok =
      let entries = write_entries-kept io (enc_stats le extra) (tab.records t) smooth ok in
      simp (smooth.named, smooth.opens, smooth.writes (0 + length (enc_stats le extra)))
        (rw entries (simp (smooth.syncs, smooth.closes, smooth.syncs_dir)))

  entries-AllStorable : (chs : List Chunkdata) → All IsEntry chs → All IsStorable chs
  entries-AllStorable [] ok = tt
  entries-AllStorable (ch ∷ chs) (ok, oks) = (ok.0, entries-AllStorable chs oks)

  all_absent :
      (chs : List Chunkdata) (t : tab.T)
      → ((k : List ℕ) → tab.read t k ≡ none)
      → AllAbsent le e tab room chs t
  all_absent [] t absent = tt
  all_absent (ch ∷ chs) t absent = (absent ch.hash, all_absent chs t absent)

  over-absent :
      (o : Option Chunkdata) (old : Option e.R)
      → old ≡ none
      → over le e tab room o old ≡ Option.map e.make o
  over-absent none old h = h
  over-absent (some ch) old h = refl

  length-kept : (rs : List e.R) → length (kept e rs) ≤ sum_by (λ r. 1) rs
  unfolding kept
  length-kept [] = omega arith
  length-kept (r ∷ rs) = ground (arith, length-kept rs)

  read_file-load_entries :
      (io : Io) (t : tab.T) (stats entries : List ℕ) (n : ℕ) (M : Loaded le e tab)
      → IsSmooth io
      → length stats ≡ 24
      → length entries ≡ n * 48
      → n < 2 ^ 58
      → load_entries le e tab io n (fresh le e tab t (dec_stats le stats)) 24 entries ≡ some M
      → read_file le e tab io t (stats ++ entries) ≡ some M
  unfolding read_file read_entries
  read_file-load_entries io t stats entries n M smooth size size' few loaded =
      let file = stats ++ entries in
      let len : length file ≡ 24 + n * 48 =
        omega (arith, length-append stats entries, size, size') in
      let long : ltb (length file) 24 ≡ false = ground (arith, len) in
      let whole : ((length file - 24) % 48 == 0) ≡ true = ground (arith, len) in
      let num : (length file - 24) / 48 ≡ n = omega (arith, len) in
      let small : leb ((2 ^ 64 - 1) / 52) n ≡ false = ground arith in
      let memory : ((n == 0) || io.alloc (n * e.size)) ≡ true =
        ground (arith, smooth.alloc (n * e.size)) in
      let head : take 24 file ≡ stats = take-append_eq 24 stats entries size in
      let rest : drop 24 file ≡ entries = drop-append_eq 24 0 stats entries (omega (arith, size)) in
      rw (long, whole)
        (rw num (
          simp (small, memory, smooth.opens, smooth.reads 24)
            (rw (head, rest) (rw loaded (simp smooth.closes)))))

  read_file-done :
      (io : Io) (t : tab.T) (extra : Chunkstats) (chs : List Chunkdata)
      → IsSmooth io
      → tab.init ≡ some t
      → All IsEntry chs
      → AllDistinct key_of chs
      → length chs < 2 ^ 58
      → (M : Loaded le e tab) × (read_file le e tab io t (enc_stats le extra ++ enc_all le chs)
          ≡ some M)
        × ((k : List ℕ) → tab.read M.ht k ≡ Option.map e.make (find_in key_of k chs))
        × (M.stats_extra ≡ dec_stats le (enc_stats le extra))
  read_file-done io t extra chs smooth empty entries distinct few =
      let stats = enc_stats le extra in
      let ok = tab.init_law t empty in
      let none_there : tab.getsize t ≡ 0 =
        tab.getsize_law t ok.0 ∙ ap (sum_by (λ (r : e.R). 1)) ok.2 in
      let (M, loaded, found, extra') =
        load_entries-done le e tab room io chs (fresh le e tab t (dec_stats le stats)) 24 smooth
          ok.0 entries distinct (all_absent chs t ok.1) (omega (arith, few, none_there)) in
      (
        M,
        read_file-load_entries io t stats (enc_all le chs) (length chs) M smooth
            (length-enc_stats le extra) (length-enc_all le chs (entries-AllStorable chs entries))
            few loaded,
        λ k. found k ∙ over-absent (find_in key_of k chs) (tab.read t k) (ok.1 k),
        extra',
      )

  read_holds :
      (io : Io) (mustexist : Bool) (t : tab.T) (file : List ℕ)
      → tab.init ≡ some t
      → io.named ≡ true
      → chunks_directory_read le e tab io mustexist (some (holds file))
        ≡ read_file le e tab io t file
  unfolding chunks_directory_read read_cache
  read_holds io mustexist t file empty named =
      rw (empty, chunks_directory_read) (rw (named, read_cache))

  -- A directory that is written is read back: every chunk that an archive uses is found again, with
  -- its name, lengths and counts and no flag, and no other chunk; and so are the statistics of extra
  -- data. This is if no call of the system fails, the tables can grow, each such chunk is storable
  -- (its name has 32 bytes, neither its length nor its compressed length is zero, and its numbers fit
  -- 32 bits), the statistics fit 64 bits, and there are fewer than 2 ^ 58 entries. (A chunk of length
  -- zero is written, and is corrupt to chunks_directory_read.)
  pub read-write :
      (io jo : Io) (mustexist : Bool) (t t0 : tab.T) (extra : Chunkstats)
      → IsSmooth io
      → IsSmooth jo
      → tab.init ≡ some t0
      → tab.IsOk t
      → ((k : List ℕ) (r : e.R)
          → tab.read t k ≡ some r
          → (e.view r).nrefs ≢ 0
          → IsStorable (e.view r))
      → tab.getsize t < 2 ^ 58
      → extra.nchunks < 2 ^ 64
      → extra.s_len < 2 ^ 64
      → extra.s_zlen < 2 ^ 64
      → (file : List ℕ) × (L : Loaded le e tab) × (chunks_directory_write le e tab io t extra
          ≡ (some file, true))
        × (chunks_directory_read le e tab jo mustexist (some (holds file)) ≡ some L)
        × ((k : List ℕ) → tab.read L.ht k ≡ Option.map e.make (stored e (tab.read t k)))
        × (L.stats_extra ≡ extra)
  read-write io jo mustexist t t0 extra smooth smooth' empty ok storable few n l z =
      let rs = tab.records t in
      let all = tab.records_law t (λ r. (e.view r).nrefs ≢ 0 → IsStorable (e.view r)) ok storable in
      let distinct = tab.distinct_law t ok in
      let (M, loaded, reads, extra') =
        read_file-done jo t0 extra (kept e rs) smooth' empty (kept-IsEntry rs all)
          (AllDistinct-kept e rs distinct) (omega (arith, length-kept rs, tab.getsize_law t ok)) in
      (
        enc_stats le extra ++ enc_all le (kept e rs),
        M,
        write_file-done io t extra smooth all,
        read_holds jo mustexist t0 _ empty smooth'.named ∙ loaded,
        λ k.
            reads k
            ∙ ap (Option.map e.make)
                (find_in-kept e k rs distinct ∙ ap (stored e) (tab.find_law t k ok)),
        extra' ∙ dec_stats-enc_stats le extra n l z,
      )
