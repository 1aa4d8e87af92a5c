-- ===== src/Chunks/Samples.antt =====
-- A small archive over the real hash table, written and deleted again: its services, states and their facts.
use tarsnap.Base.{
  ℕ, suc, zero, ◌+◌, ◌<◌, ◌≤◌, ◌^◌, ◌≡◌, refl, sym, ap, subst, ◌∙◌, inl, inr, Bool, true, false,
  none, some, List, [], ◌∷◌, arith, bytes_eq, length, take, replicate, same_bytes, same_bytes_iff,
  sum_by, Bool-cases,
}
use mathlib.Core.Option
use tarsnap.Datastruct.KeyedTable.{Updates}
use tarsnap.Datastruct.Rwhashtab
use tarsnap.Datastruct.Rwhashtab.{Rwhashtab}
use tarsnap.Datastruct.Rwhashtab.Implements.{rwhashtab}
use tarsnap.Chunks.Data.{Chunkdata, Chunkstats, ChunkTable, key_of, zlen_of, in_ctape, mark_ctape}
use tarsnap.Chunks.Padme.{padme, bitmask_of}
use tarsnap.Chunks.Write.{
  Services, WriteState, add_ref, use_chunk, after_insert, count_new, new_chunk, store_chunk,
  chunks_write_chunk, chunks_write_chunkref,
}
use tarsnap.Chunks.Write.Account as WriteAccount
use tarsnap.Chunks.Write.Counts.{Stored, chunks_write_chunk-Stored, chunks_write_chunkref_counts}
use tarsnap.Chunks.Delete.{
  DeleteServices, DeleteState, drop_ref, last_ref, drop_chunk, free_chunk, chunks_delete_chunk,
}
use tarsnap.Chunks.Delete.Account as DeleteAccount
use tarsnap.Chunks.Counts.{count_of, copies_at, seen_at}
use tarsnap.Chunks.Directory.Sane.{reloaded}
use tarsnap.Chunks.Lifetime.{
  Archived, start, stored, referenced, Outcome, archive-Outcome, Deleted, begin, dropped,
}

abbrev pub first_byte : List ℕ → List ℕ → ℕ
first_byte bytes [] = 0
first_byte bytes (b ∷ k) = b

abbrev pub grants : ℕ → Bool
grants n = true

abbrev pub table : ChunkTable
table = rwhashtab key_of first_byte 32 (some (7 ∷ [])) grants

-- Storage that remembers the names, and a compressor that cuts.
abbrev pub services : Services
services = record {
  Storage = List (List ℕ);
  storage_write_file = λ s file class name. (name ∷ s, true);
  compress2 = λ n d. some (take n d);
  alloc = grants;
  undefined = λ n. 0;
}

abbrev pub delete_services : DeleteServices
delete_services = record {
  Storage = List (List ℕ);
  storage_delete_file = λ s class name. (name ∷ s, true);
}

pub length-take-le : (n : ℕ) (xs : List ℕ) → length (take n xs) ≤ n
length-take-le zero xs = omega arith
length-take-le (suc n) [] = omega arith
length-take-le (suc n) (x ∷ xs) = omega (arith, length-take-le n xs)

pub within : (n : ℕ) (d z : List ℕ) → services.compress2 n d ≡ some z → length z ≤ n
within n d z h = let eq : take n d ≡ z = cc in rw (← eq) (length-take-le n d)

abbrev pub no_stats : Chunkstats
no_stats = record { nchunks = 0; s_len = 0; s_zlen = 0 }

abbrev pub c0 : WriteState table services
c0 = record {
  maxlen = 100;
  zbuflen = 113;
  ht = record {
    cursize = 4;
    numentries = 0;
    ht = none ∷ none ∷ none ∷ none ∷ [];
    randbuf = 7 ∷ [];
  };
  store = [];
  stats_total = no_stats;
  stats_unique = no_stats;
  stats_extra = no_stats;
  stats_extra_copy = no_stats;
  stats_tape = no_stats;
  stats_new = no_stats;
  stats_tapee = no_stats;
}

pub c0_law :
    table.IsOk c0.ht × ((k : List ℕ) → table.read c0.ht k ≡ none) × (table.records c0.ht ≡ [])
unfolding Rwhashtab.init
c0_law = table.init_law c0.ht refl

pub c0-Accounted : WriteAccount.Accounted table services c0
c0-Accounted = record {
  ok = c0_law.0;
  counted = λ k ch h. absurd (cc (c0_law.1 k));
  unique = record { chunks = refl; lens = refl; zlens = refl };
  total = record { chunks = refl; lens = refl; zlens = refl };
}

abbrev pub name : List ℕ
name = replicate 32 9

abbrev pub bytes : List ℕ
bytes = 1 ∷ 2 ∷ 3 ∷ []

abbrev pub c1 : WriteState table services
c1 = (chunks_write_chunk table services c0 name bytes).0

abbrev pub c2 : WriteState table services
c2 = (chunks_write_chunkref table services c1 name).0

pub c0_room : (ch : Chunkdata) → table.read c0.ht name ≡ some ch → ch.ncopies + 1 < 2 ^ 32
c0_room ch h = absurd (cc (c0_law.1 name))

-- The first use stores the chunk, the second refers to it.
pub stores : chunks_write_chunk table services c0 name bytes ≡ (c1, some 3)
unfolding chunks_write_chunk chunks_write_chunkref use_chunk store_chunk after_insert count_new
    new_chunk padme bitmask_of Rwhashtab.read Rwhashtab.insert Rwhashtab.insert_free
    Rwhashtab.search_pos Rwhashtab.home Rwhashtab.probe Rwhashtab.poke
stores = refl

pub refers : chunks_write_chunkref table services c1 name ≡ (c2, true)
unfolding chunks_write_chunk chunks_write_chunkref use_chunk store_chunk after_insert count_new
    new_chunk padme bitmask_of Rwhashtab.read Rwhashtab.insert Rwhashtab.insert_free
    Rwhashtab.search_pos Rwhashtab.home Rwhashtab.probe Rwhashtab.poke
refers = refl

pub c2-Archived : Archived table services c0 (name ∷ name ∷ []) c2
c2-Archived = referenced name (stored name bytes start stores) refers

pub c0_roomy :
    (k : List ℕ) → copies_at (table.read c0.ht k) + count_of k (name ∷ name ∷ []) < 2 ^ 32
unfolding count_of
c0_roomy k = rw (c0_law.1 k) (ground arith)

pub c1-Stored : Stored table services c0.ht name (c1, some 3)
c1-Stored =
    subst (λ answer. Stored table services c0.ht name answer) stores
      (chunks_write_chunk-Stored table services c0 name bytes c0-Accounted c0_room (omega arith)
        within)

pub c1-Accounted : WriteAccount.Accounted table services c1
c1-Accounted =
    WriteAccount.chunks_write_chunk-Accounted table services c0 name bytes c0-Accounted c0_room
      (omega arith) within

pub c2-Outcome : Outcome table services c0 c2 (name ∷ name ∷ [])
c2-Outcome =
    archive-Outcome table services c0 c2 (name ∷ name ∷ []) c0-Accounted (omega arith) within
      c0_roomy c2-Archived

pub c1_room : (ch : Chunkdata) → table.read c1.ht name ≡ some ch → ch.ncopies + 1 < 2 ^ 32
c1_room ch h =
    let zero_before : copies_at (table.read c0.ht name) ≡ 0 = ap copies_at (c0_law.1 name) in
    let now : copies_at (table.read c1.ht name) ≡ ch.ncopies = ap copies_at h in
    omega (arith, c1-Stored.0.used.copies)

-- What the two uses left of the chunk, and the delete transaction that starts from it.
abbrev pub kept : Chunkdata
kept = record { hash = name; len = 3; zlen_flags = 3 + 2 ^ 30 + 2 ^ 31; nrefs = 1; ncopies = 2 }

pub c2_kept : table.read c2.ht name ≡ some kept
unfolding chunks_write_chunk chunks_write_chunkref use_chunk store_chunk after_insert count_new
    new_chunk padme bitmask_of Rwhashtab.read Rwhashtab.insert Rwhashtab.insert_free
    Rwhashtab.search_pos Rwhashtab.home Rwhashtab.probe Rwhashtab.poke add_ref in_ctape mark_ctape
c2_kept = refl

abbrev pub d0 : DeleteState table delete_services
d0 = record {
  ht = table.poke c2.ht name (reloaded kept);
  store = [];
  stats_total = record { nchunks = 2; s_len = 6; s_zlen = 6 };
  stats_unique = record { nchunks = 1; s_len = 3; s_zlen = 3 };
  stats_extra = no_stats;
  stats_tape = no_stats;
  stats_freed = no_stats;
  stats_tapee = no_stats;
}

pub c2_others : (k : List ℕ) → same_bytes name k ≡ false → table.read c2.ht k ≡ none
c2_others k miss = elim (chunks_write_chunkref_counts table services c1 name c1-Accounted c1_room) [
  | inl (ok, there, one) ↦ one.others k miss ∙ c1-Stored.0.others k miss ∙ c0_law.1 k
  | inr (refused, absent) ↦ absurd (cc refers)
]

pub d0_law :
    table.IsOk d0.ht
    × Updates key_of table.read table.records c2.ht (reloaded kept) d0.ht
    × ((f : Chunkdata → ℕ)
        → sum_by f (table.records d0.ht) + f kept
          ≡ sum_by f (table.records c2.ht) + f (reloaded kept))
d0_law = table.poke_law c2.ht name kept (reloaded kept) c2-Outcome.accounts.ok c2_kept refl

pub d0_reads : (k : List ℕ) → table.read d0.ht k ≡ Option.map reloaded (table.read c2.ht k)
d0_reads k = elim (Bool-cases (same_bytes name k)) [
  | inl hit ↦
      let same : name ≡ k = (same_bytes_iff name k).0 hit in
      let held : table.read c2.ht k ≡ some kept = ap (table.read c2.ht) (sym same) ∙ c2_kept in
      d0_law.1 k ∙ rw (hit, held)
  | inr miss ↦ d0_law.1 k ∙ rw (miss, c2_others k miss)
]

pub kept-IsDroppable : DeleteAccount.IsDroppable (reloaded kept)
unfolding in_ctape zlen_of
kept-IsDroppable = record { refs = omega arith; small = omega arith; fits = omega arith }

pub d0-IsDroppable :
    (k : List ℕ) (ch : Chunkdata) → table.read d0.ht k ≡ some ch → DeleteAccount.IsDroppable ch
d0-IsDroppable k ch h = elim (Bool-cases (same_bytes name k)) [
  | inl hit ↦
      let held : some (reloaded kept) ≡ some ch = sym (d0_law.1 k ∙ rw hit) ∙ h in
      let eq : reloaded kept ≡ ch = cc in rw eq at kept-IsDroppable
  | inr miss ↦
      let absent : table.read d0.ht k ≡ none = d0_law.1 k ∙ rw miss (c2_others k miss) in
      absurd (cc)
]

pub d0-Accounted : DeleteAccount.Accounted table delete_services d0
unfolding chunks_write_chunk chunks_write_chunkref use_chunk store_chunk after_insert count_new
    new_chunk padme bitmask_of Rwhashtab.read Rwhashtab.insert Rwhashtab.insert_free
    Rwhashtab.search_pos Rwhashtab.home Rwhashtab.probe Rwhashtab.poke add_ref in_ctape mark_ctape
    zlen_of
d0-Accounted = record {
  ok = d0_law.0;
  droppable = d0-IsDroppable;
  unique = record { chunks = refl; lens = refl; zlens = refl };
  total = record { chunks = refl; lens = refl; zlens = refl };
}

abbrev pub d1 : DeleteState table delete_services
d1 = (chunks_delete_chunk table delete_services d0 name).0

abbrev pub d2 : DeleteState table delete_services
d2 = (chunks_delete_chunk table delete_services d1 name).0

-- The first drop removes the file, the second only counts.
pub drops : chunks_delete_chunk table delete_services d0 name ≡ (d1, true)
unfolding chunks_write_chunk chunks_write_chunkref use_chunk store_chunk after_insert count_new
    new_chunk padme bitmask_of Rwhashtab.read Rwhashtab.insert Rwhashtab.insert_free
    Rwhashtab.search_pos Rwhashtab.home Rwhashtab.probe Rwhashtab.poke add_ref in_ctape mark_ctape
    chunks_delete_chunk drop_chunk free_chunk drop_ref last_ref zlen_of
drops = refl

pub drops_again : chunks_delete_chunk table delete_services d1 name ≡ (d2, true)
unfolding chunks_write_chunk chunks_write_chunkref use_chunk store_chunk after_insert count_new
    new_chunk padme bitmask_of Rwhashtab.read Rwhashtab.insert Rwhashtab.insert_free
    Rwhashtab.search_pos Rwhashtab.home Rwhashtab.probe Rwhashtab.poke add_ref in_ctape mark_ctape
    chunks_delete_chunk drop_chunk free_chunk drop_ref last_ref zlen_of
drops_again = refl

pub d2-Deleted : Deleted table delete_services d0 (name ∷ name ∷ []) d2
d2-Deleted = dropped name (dropped name begin drops) drops_again

pub d0_copies : (ch : Chunkdata) → table.read d0.ht name ≡ some ch → 0 < ch.ncopies
d0_copies ch h =
    let held : some (reloaded kept) ≡ some ch = sym (d0_law.1 name) ∙ h in
    let eq : reloaded kept ≡ ch = cc in
    let two : ch.ncopies ≡ 2 = ap (λ (c : Chunkdata). c.ncopies) (sym eq) in omega arith

pub d0_enough : (k : List ℕ) → count_of k (name ∷ name ∷ []) ≤ copies_at (table.read d0.ht k)
unfolding count_of
d0_enough k = elim (Bool-cases (same_bytes name k)) [
  | inl hit ↦ rw (d0_law.1 k, hit) (omega arith)
  | inr miss ↦ rw miss (omega arith)
]

pub c0_unseen : (k : List ℕ) → seen_at (table.read c0.ht k) ≡ false
c0_unseen k = ap seen_at (c0_law.1 k)

pub same_uses : (k : List ℕ) → count_of k (name ∷ name ∷ []) ≡ count_of k (name ∷ name ∷ [])
same_uses k = refl
