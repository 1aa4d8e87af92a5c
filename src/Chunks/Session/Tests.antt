-- ===== src/Chunks/Session/Tests.antt =====
-- The theorems on the chunk directory and on sessions applied to the small archive.
use tarsnap.Base.{
  ℕ, ◌+◌, ◌/◌, ◌^◌, ◌<◌, ◌≤◌, ◌≡◌, ◌≢◌, refl, ap, subst, if◌then◌else◌, ◌∙◌, inl, inr, true, false,
  none, some, List, [], ◌∷◌, arith, ◌++◌, same_bytes, same_bytes_iff, Bool-cases, bytes_eq,
}
use mathlib.Core.Option
use tarsnap.Base.Endian.Little.{little}
use tarsnap.Datastruct.KeyedTable.{failed, done, InsertLaw}
use tarsnap.Datastruct.Rwhashtab
use tarsnap.Datastruct.Rwhashtab.Insert.{insert-ne-failed}
use tarsnap.Chunks.Data.{Chunkdata, key_of, zlen_of, chunks_stats_zero, chunks_stats_add}
use tarsnap.Chunks.Counts.{copies_at, refs_at, seen_at, count_of}
use tarsnap.Chunks.Padme.{padme, bitmask_of}
use tarsnap.Chunks.Write.{
  use_chunk, after_insert, count_new, new_chunk, store_chunk, chunks_write_chunk,
  chunks_write_chunkref,
}
use tarsnap.Chunks.Write.Account as WriteAccount
use tarsnap.Chunks.Delete.{DeleteState}
use tarsnap.Chunks.Delete.Account as DeleteAccount
use tarsnap.Chunks.Lifetime.{Deleted}
use tarsnap.Chunks.Directory.{
  Io, holds, plain, Loaded, chunks_directory_read, chunks_directory_write, read_cache, read_file,
  read_entries, load_entries, load_entry, count_entry, dec_chunk, dec_stats, enc_stats, is_insane,
}
use tarsnap.Chunks.Directory.Sane.{reloaded}
use tarsnap.Chunks.Directory.Load.{IsLoaded, chunks_directory_read-IsLoaded}
use tarsnap.Chunks.Directory.Entries.{IsStorable, stored}
use tarsnap.Chunks.Directory.Reading.{IsSmooth}
use tarsnap.Chunks.Directory.Roundtrip.{read-write}
use tarsnap.Chunks.Session.{
  copy_path, chunks_write_start, write_state, chunks_write_checkpoint, chunks_delete_start,
}
use tarsnap.Chunks.Session.Account.{chunks_write_start-Accounted, chunks_delete_start-Accounted}
use tarsnap.Chunks.Session.Archive.{
  chunks_delete_start-chunks_write_checkpoint, archive_delete_disk,
}
use tarsnap.Chunks.Samples.{
  table, services, delete_services, within, c0, c2, name, c0-Accounted, c0_law, c0_roomy, c0_unseen,
  first_byte, grants, c2-Archived, c2-Outcome, c2_kept, c2_others, kept, no_stats,
}

abbrev smooth : Io
smooth = record {
  named = true;
  copied = true;
  alloc = λ n. true;
  opens = true;
  reads = λ n. true;
  closes = true;
  writes = λ n. true;
  syncs = true;
  syncs_dir = true;
}

smooth-IsSmooth : IsSmooth smooth
smooth-IsSmooth = record {
  named = refl;
  copied = refl;
  alloc = λ n. refl;
  opens = refl;
  reads = λ n. refl;
  closes = refl;
  writes = λ n. refl;
  syncs = refl;
  syncs_dir = refl;
}

empty : table.init ≡ some c0.ht
unfolding Rwhashtab.init
empty = refl

room :
    (t : table.T) (r : Chunkdata)
    → table.IsOk t
    → table.getsize t < 2 ^ 58
    → (table.insert t r).1 ≢ failed
unfolding Rwhashtab.getsize
room t r ok few = insert-ne-failed key_of first_byte grants t r (λ n. refl) ok few

kept-IsStorable : IsStorable kept
unfolding zlen_of
kept-IsStorable = record {
  hash = refl;
  long = omega arith;
  len = omega arith;
  stored = omega arith;
  nrefs = omega arith;
  ncopies = omega arith;
}

c2-IsStorable : (k : List ℕ) (ch : Chunkdata) → table.read c2.ht k ≡ some ch → IsStorable ch
c2-IsStorable k ch held = elim (Bool-cases (same_bytes name k)) [
  | inl hit ↦
      let same : name ≡ k = (same_bytes_iff name k).0 hit in
      let eq : kept ≡ ch = cc (ap (table.read c2.ht) same, c2_kept) in rw eq at kept-IsStorable
  | inr miss ↦ absurd (cc (c2_others k miss))
]

extra_fits :
    (c2.stats_extra.nchunks < 2 ^ 64)
    × (c2.stats_extra.s_len < 2 ^ 64)
    × (c2.stats_extra.s_zlen < 2 ^ 64)
unfolding chunks_write_chunk chunks_write_chunkref use_chunk store_chunk after_insert count_new
    new_chunk padme bitmask_of Rwhashtab.read Rwhashtab.insert Rwhashtab.insert_free
    Rwhashtab.search_pos Rwhashtab.home Rwhashtab.probe Rwhashtab.poke
extra_fits = (omega arith, omega arith, omega arith)

few : table.getsize c2.ht < 2 ^ 58
unfolding chunks_write_chunk chunks_write_chunkref use_chunk store_chunk after_insert count_new
    new_chunk padme bitmask_of Rwhashtab.read Rwhashtab.insert Rwhashtab.insert_free
    Rwhashtab.search_pos Rwhashtab.home Rwhashtab.probe Rwhashtab.poke Rwhashtab.getsize
few = omega arith

read-write_example :
    (file : List ℕ) × (L : Loaded little plain table) × (chunks_directory_write little plain table
        smooth c2.ht no_stats
      ≡ (some file, true))
    × (chunks_directory_read little plain table smooth true (some (holds file)) ≡ some L)
    × ((k : List ℕ)
        → table.read L.ht k
          ≡ Option.map (λ (ch : Chunkdata). ch) (stored plain (table.read c2.ht k)))
    × (L.stats_extra ≡ no_stats)
read-write_example =
    read-write little plain table room smooth smooth true c2.ht c0.ht no_stats smooth-IsSmooth
      smooth-IsSmooth empty c2-Outcome.accounts.ok (λ k ch held used. c2-IsStorable k ch held) few
      (omega arith) (omega arith) (omega arith)

-- The directory of the small archive, as one run writes it and another reads it.
abbrev session :
    (file : List ℕ) × (D : DeleteState table delete_services) × (chunks_write_checkpoint little
        table services smooth false c2
      ≡ (some file, true))
    × (chunks_delete_start little table delete_services smooth (holds file) [] ≡ some D)
    × ((k : List ℕ) → table.read D.ht k ≡ Option.map reloaded (table.read c2.ht k))
    × (D.stats_extra ≡ c2.stats_extra)
session =
    chunks_delete_start-chunks_write_checkpoint little table services delete_services room smooth
      smooth c0.ht c2 [] smooth-IsSmooth smooth-IsSmooth empty c2-Outcome.accounts c2-IsStorable few
      extra_fits.0 extra_fits.1 extra_fits.2

session_example :
    (file : List ℕ) × (D : DeleteState table delete_services) × (chunks_write_checkpoint little
        table services smooth false c2
      ≡ (some file, true))
    × (chunks_delete_start little table delete_services smooth (holds file) [] ≡ some D)
    × ((k : List ℕ) → table.read D.ht k ≡ Option.map reloaded (table.read c2.ht k))
    × (D.stats_extra ≡ c2.stats_extra)
session_example =
    chunks_delete_start-chunks_write_checkpoint little table services delete_services room smooth
      smooth c0.ht c2 [] smooth-IsSmooth smooth-IsSmooth empty c2-Outcome.accounts c2-IsStorable few
      extra_fits.0 extra_fits.1 extra_fits.2

chunks_delete_start-Accounted_example :
    DeleteAccount.Accounted table delete_services session.1
    × ((k : List ℕ) → seen_at (table.read session.1.ht k) ≡ false)
chunks_delete_start-Accounted_example =
    chunks_delete_start-Accounted little table delete_services smooth (holds session.0) [] session.1
      session.3

archive_delete_disk_example :
    (file : List ℕ) × (D : DeleteState table delete_services) × (chunks_write_checkpoint little
        table services smooth false c2
      ≡ (some file, true))
    × (chunks_delete_start little table delete_services smooth (holds file) [] ≡ some D)
    × ((gs : List (List ℕ)) (E : DeleteState table delete_services)
        → ((k : List ℕ) → count_of k gs ≡ count_of k (name ∷ name ∷ []))
        → Deleted table delete_services D gs E
        → (k : List ℕ)
        → (copies_at (table.read E.ht k) ≡ copies_at (table.read c0.ht k))
          × (refs_at (table.read E.ht k) ≡ refs_at (table.read c0.ht k)))
archive_delete_disk_example =
    archive_delete_disk little table services delete_services room smooth smooth c0.ht c0 c2 []
      (name ∷ name ∷ []) c0-Accounted (omega arith) within c0_roomy c0_unseen c2-Archived
      smooth-IsSmooth smooth-IsSmooth empty c2-IsStorable few extra_fits.0 extra_fits.1 extra_fits.2

-- A directory with the one chunk, byte for byte.
abbrev one_chunk : List ℕ
one_chunk =
    enc_stats little no_stats
    ++ (name ++ (3 ∷ 0 ∷ 0 ∷ 0 ∷ 3 ∷ 0 ∷ 0 ∷ 0 ∷ 1 ∷ 0 ∷ 0 ∷ 0 ∷ 2 ∷ 0 ∷ 0 ∷ 0 ∷ []))

abbrev next : Loaded little plain table
next = record {
  ht = (table.insert c0.ht (reloaded kept)).0;
  stats_unique = record { nchunks = 1; s_len = 3; s_zlen = 3 };
  stats_all = record { nchunks = 2; s_len = 6; s_zlen = 6 };
  stats_extra = no_stats;
}

reads_one_chunk :
    chunks_directory_read little plain table smooth true (some (holds one_chunk)) ≡ some next
unfolding chunks_directory_read read_cache read_file read_entries load_entries load_entry
    count_entry dec_chunk dec_stats enc_stats is_insane Rwhashtab.init Rwhashtab.read
    Rwhashtab.insert Rwhashtab.insert_free Rwhashtab.search_pos Rwhashtab.home Rwhashtab.probe
    chunks_stats_zero chunks_stats_add zlen_of
reads_one_chunk = refl

chunks_directory_read-IsLoaded_example : IsLoaded little plain table next
chunks_directory_read-IsLoaded_example =
    chunks_directory_read-IsLoaded little plain table smooth true (some (holds one_chunk)) next
      reads_one_chunk

inserts : table.insert c0.ht (reloaded kept) ≡ (next.ht, done)
unfolding Rwhashtab.insert Rwhashtab.insert_free Rwhashtab.search_pos Rwhashtab.home Rwhashtab.probe
inserts = refl

next_law :
    (k : List ℕ) → table.read next.ht k ≡ (if same_bytes name k then some (reloaded kept) else none)
next_law k =
    let (ok, law) = table.insert_law c0.ht (reloaded kept) c0-Accounted.ok in
    let (absent, updates, sums) =
      subst (InsertLaw key_of table.read table.records c0.ht (reloaded kept)) inserts law in
    updates k ∙ rw (c0_law.1 k) refl

next_reads : (k : List ℕ) (ch : Chunkdata) → table.read next.ht k ≡ some ch → ch.nrefs ≤ ch.ncopies
next_reads k ch held = elim (Bool-cases (same_bytes name k)) [
  | inl hit ↦ let eq : reloaded kept ≡ ch = cc (next_law k, held, hit) in rw (← eq) (omega arith)
  | inr miss ↦ absurd (cc (next_law k, held, miss))
]

starts :
    chunks_write_start little table services smooth (some (holds one_chunk)) [] 100 no_stats
    ≡ some (write_state little table services [] 100 113 no_stats next)
unfolding chunks_write_start chunks_directory_read read_cache read_file read_entries load_entries
    load_entry count_entry dec_chunk dec_stats enc_stats is_insane Rwhashtab.init Rwhashtab.read
    Rwhashtab.insert Rwhashtab.insert_free Rwhashtab.search_pos Rwhashtab.home Rwhashtab.probe
    chunks_stats_zero chunks_stats_add zlen_of copy_path
starts = refl

chunks_write_start-Accounted_example :
    WriteAccount.Accounted table services
      (write_state little table services [] 100 113 no_stats next)
    × ((k : List ℕ) → seen_at (table.read next.ht k) ≡ false)
    × (113 ≡ 100 + 100 / 1000 + 13)
chunks_write_start-Accounted_example =
    chunks_write_start-Accounted little table services smooth (some (holds one_chunk)) [] 100
      no_stats (write_state little table services [] 100 113 no_stats next) starts next_reads
