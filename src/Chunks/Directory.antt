-- ===== src/Chunks/Directory.antt =====
-- tar/chunks/chunks_directory.c: the chunk directory on disk, read into a hash table and written
-- from one. (How the file is moved into place is in Chunks/Commit.)
pub mod Sane
pub mod Load
pub mod Entries
pub mod Reading
pub mod Roundtrip
use tarsnap.Base.{
  ℕ, zero, suc, ◌+◌, ◌-◌, ◌*◌, ◌/◌, ◌%◌, ◌^◌, bit_and, Bool, true, false, ◌||◌, Option, none, some,
  List, [], ◌∷◌, ◌++◌, ltb, leb, ◌==◌, if◌then◌else◌, length, take, drop, bytes_eq, ◌≡◌, refl,
}
use tarsnap.Base.Endian.{Endian}
use tarsnap.Datastruct.KeyedTable.{KeyedTable, Inserted, done, present, failed}
use tarsnap.Chunks.Data.{
  Chunkdata, Chunkstats, zlen_of, chdata_flags, chunks_stats_zero, chunks_stats_add,
}

-- How a record of the table holds a `struct chunkdata`: it is one, or it is a
-- `struct chunkdata_statstape`, which begins with one (`statstape`).
pub record Entry : Type 1 where
  pub R : Type 0
  pub view : R → Chunkdata
  pub make : Chunkdata → R
  pub size : ℕ
  pub view-make : (ch : Chunkdata) → view (make ch) ≡ ch

abbrev pub hash_of : (e : Entry) → e.R → List ℕ
hash_of e r = (e.view r).hash

abbrev pub plain : Entry
plain = record {
  R = Chunkdata;
  view = λ ch. ch;
  make = λ ch. ch;
  size = 48;
  view-make = λ ch. refl;
}

-- The file system on one run: whether paths (`asprintf`), copies of them (`strdup`) and memory can be had, the file be
-- opened and closed, its first so many bytes read, or a file of so many bytes written and synced.
pub record Io : Type 0 where
  pub named : Bool
  pub copied : Bool
  pub alloc : ℕ → Bool
  pub opens : Bool
  pub reads : ℕ → Bool
  pub closes : Bool
  pub writes : ℕ → Bool
  pub syncs : Bool
  pub syncs_dir : Bool

-- What `stat` finds of "directory": ENOENT, another error, or a file with these bytes.
pub data OnDisk : Type 0 where
  missing : OnDisk
  unknown : OnDisk
  holds : List ℕ → OnDisk

module _ (le : Endian) where
  open le use {le32enc, le32dec, le64enc, le64dec}

  -- `struct chunkdata_external`
  unfoldable pub enc_chunk : Chunkdata → List ℕ
  enc_chunk ch =
      ch.hash
      ++ (le32enc ch.len ++ (le32enc (zlen_of ch) ++ (le32enc ch.nrefs ++ le32enc ch.ncopies)))

  unfoldable pub dec_chunk : List ℕ → Chunkdata
  dec_chunk che = record {
    hash = take 32 che;
    len = le32dec (take 4 (drop 32 che));
    zlen_flags = le32dec (take 4 (drop 36 che));
    nrefs = le32dec (take 4 (drop 40 che));
    ncopies = le32dec (take 4 (drop 44 che));
  }

  -- `struct chunkstats_external`
  unfoldable pub enc_stats : Chunkstats → List ℕ
  enc_stats s = le64enc s.nchunks ++ (le64enc s.s_len ++ le64enc s.s_zlen)

  unfoldable pub dec_stats : List ℕ → Chunkstats
  dec_stats cse = record {
    nchunks = le64dec (take 8 cse);
    s_len = le64dec (take 8 (drop 8 cse));
    s_zlen = le64dec (take 8 (drop 16 cse));
  }

  -- The sanity check of an entry.
  unfoldable pub is_insane : Chunkdata → Bool
  is_insane ch =
      ch.len == 0
      || (ch.zlen_flags == 0
          || (if bit_and ch.zlen_flags chdata_flags == 0 then ch.nrefs == 0 else true))

  module _ (e : Entry) (tab : KeyedTable (hash_of e)) where
    -- The hash table and the statistics that `chunks_directory_read` fills in.
    pub record Loaded : Type 0 where
      pub ht : tab.T
      pub stats_unique : Chunkstats
      pub stats_all : Chunkstats
      pub stats_extra : Chunkstats

    abbrev pub fresh : tab.T → Chunkstats → Loaded
    fresh t extra = record {
      ht = t;
      stats_unique = chunks_stats_zero;
      stats_all = chunks_stats_zero;
      stats_extra = extra;
    }

    -- What follows the answer of `rwhashtab_insert`, of which only 0 is good.
    unfoldable pub count_entry : Loaded → Chunkdata → tab.T × Inserted → Option Loaded
    count_entry L ch (ht', done) = some (record L {
      ht = ht';
      stats_unique = chunks_stats_add L.stats_unique ch.len ch.zlen_flags 1;
      stats_all = chunks_stats_add L.stats_all ch.len ch.zlen_flags ch.ncopies;
    })
    count_entry L ch (ht', present) = none
    count_entry L ch (ht', failed) = none

    unfoldable pub load_entry : Loaded → Chunkdata → Option Loaded
    load_entry L ch = if is_insane ch then none else count_entry L ch (tab.insert L.ht (e.make ch))

    -- The loop over the entries, of which `numchunks` are left, from the offset `pos` of the file.
    unfoldable pub load_entries : Io → ℕ → Loaded → ℕ → List ℕ → Option Loaded
    load_entries io zero L pos rest = some L
    load_entries io (suc numchunks) L pos rest =
        if io.reads (pos + 48)
        then elim (load_entry L (dec_chunk (take 48 rest))) [
          | none ↦ none
          | some L' ↦ load_entries io numchunks L' (pos + 48) (drop 48 rest)
        ]
        else none

    unfoldable pub read_entries : Io → tab.T → ℕ → List ℕ → Option Loaded
    read_entries io t numchunks file =
        if io.reads 24
        then elim (load_entries io numchunks (fresh t (dec_stats (take 24 file))) 24
            (drop 24 file)) [ none ↦ none | some L ↦ if io.closes then some L else none ]
        else none

    -- The checks of the file's size, and `IMALLOC`, which needs no memory for no records. `off_t` is no wider than `size_t`, and a size is not negative.
    unfoldable pub read_file : Io → tab.T → List ℕ → Option Loaded
    read_file io t file =
        let numchunks = (length file - 24) / 48 in
        if ltb (length file) 24
        then none
        else if (length file - 24) % 48 == 0
        then if leb ((2 ^ 64 - 1) / 52) numchunks
          then none
          else if numchunks == 0 || io.alloc (numchunks * e.size)
          then if io.opens then read_entries io t numchunks file else none
          else none
        else none

    unfoldable pub read_cache : Io → Bool → tab.T → OnDisk → Option Loaded
    read_cache io mustexist t missing = if mustexist then none else some (fresh t chunks_stats_zero)
    read_cache io mustexist t unknown = none
    read_cache io mustexist t (holds file) = read_file io t file

    -- No cache directory is `none`.
    unfoldable pub chunks_directory_read : Io → Bool → Option OnDisk → Option Loaded
    chunks_directory_read io mustexist cache = elim tab.init [
      | none ↦ none
      | some t ↦ elim cache [
        | none ↦ some (fresh t chunks_stats_zero)
        | some state ↦ if io.named then read_cache io mustexist t state else none
      ]
    ]

    -- `fwrite` to a file that holds `f`.
    unfoldable pub fwrite : Io → List ℕ → List ℕ → List ℕ × Bool
    fwrite io f bytes =
        if io.writes (length f + length bytes) then (f ++ bytes, true) else (f, false)

    unfoldable pub callback_write : Io → List ℕ → e.R → List ℕ × Bool
    callback_write io f rec =
        if (e.view rec).nrefs == 0 then (f, true) else fwrite io f (enc_chunk (e.view rec))

    -- `rwhashtab_foreach(HT, callback_write, f)`
    unfoldable pub write_entries : Io → List ℕ → List e.R → List ℕ × Bool
    write_entries io f [] = (f, true)
    write_entries io f (rec ∷ recs) =
        let (f', ok) = callback_write io f rec in
        let rest = write_entries io f' recs in if ok then rest else (f', false)

    unfoldable pub write_file : Io → tab.T → Chunkstats → List ℕ × Bool
    write_file io t stats_extra =
        let (f, ok) = fwrite io [] (enc_stats stats_extra) in
        if ok
        then (let (f', ok') = write_entries io f (tab.records t) in
            (
              f',
              if ok'
                  then if io.syncs then if io.closes then io.syncs_dir else false else false
                  else false,
            ))
        else (f, false)

    -- The file that is left, if it could be created, and whether the function returns 0.
    unfoldable pub chunks_directory_write : Io → tab.T → Chunkstats → Option (List ℕ) × Bool
    chunks_directory_write io t stats_extra =
        if io.named
        then if io.opens
          then (let (f, ok) = write_file io t stats_extra in (some f, ok))
          else (none, false)
        else (none, false)
