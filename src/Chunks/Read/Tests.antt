-- ===== src/Chunks/Read/Tests.antt =====
-- A store of named files, a packer that leaves its input as it is, and a chunk written and read.
use tarsnap.Base.{
  ℕ, ◌≤◌, ◌≡◌, refl, ap, subst, Bool, true, none, some, List, [], ◌∷◌, ◌++◌, arith, leb, length,
  take, replicate, take-append, same_bytes, same_bytes_iff, if◌then◌else◌, if-eq-some,
}
use tarsnap.Datastruct.Rwhashtab
use tarsnap.Chunks.Padme.{padme, bitmask_of}
use tarsnap.Chunks.Write.{
  Services, WriteState, store_chunk, after_insert, count_new, new_chunk, chunks_write_chunk,
}
use tarsnap.Chunks.Read.{
  ReadServices, ReadFile, file, no_file, chunk, notpresent, corrupt, ReadState, after_read_file,
  unpack, check_hash, chunks_read_init, chunks_read_chunk,
}
use tarsnap.Chunks.Read.Checked.{chunks_read_chunk_checked}
use tarsnap.Chunks.Read.Written.{chunks_read_chunk-chunks_write_chunk}
use tarsnap.Chunks.Samples.{grants, table, c0, c0_law, no_stats, bytes}

abbrev Files : Type 0
Files = List (List ℕ × List ℕ)

abbrev files : Services
files = record {
  Storage = Files;
  storage_write_file = λ s contents class name. ((name, contents) ∷ s, true);
  compress2 = λ n d. if leb (length d) n then some d else none;
  alloc = grants;
  undefined = λ n. 0;
}

abbrev get_file : Files → List ℕ → ReadFile
get_file [] name = no_file
get_file ((name', contents) ∷ s) name =
    if same_bytes name' name then file contents else get_file s name

abbrev reader : ReadServices
reader = record {
  Cookie = Files;
  storage_read_file = λ s n class name. (s, get_file s name);
  storage_read_add_name_cache = λ s class name. (s, true);
  uncompress = λ n z. some (take n z);
  crypto_hash_data = λ d. some (replicate 32 (length d));
  alloc = grants;
}

abbrev hash : List ℕ
hash = replicate 32 3

abbrev w0 : WriteState table files
w0 = record {
  maxlen = 100;
  zbuflen = 113;
  ht = c0.ht;
  store = [];
  stats_total = no_stats;
  stats_unique = no_stats;
  stats_extra = no_stats;
  stats_extra_copy = no_stats;
  stats_tape = no_stats;
  stats_new = no_stats;
  stats_tapee = no_stats;
}

abbrev w1 : WriteState table files
w1 = (chunks_write_chunk table files w0 hash bytes).0

abbrev r1 : ReadState reader
r1 = record { maxlen = 100; zbuflen = 113; s = w1.store }

files_read_back :
    (s s' : Files) (contents name : List ℕ)
    → files.storage_write_file s contents b'c' name ≡ (s', true)
    → (reader.storage_read_file s' (length contents) b'c' name).1 ≡ file contents
files_read_back s s' contents name written =
    let is : (name, contents) ∷ s ≡ s' = ap (λ (p : Files × Bool). p.0) written in
    let same : same_bytes name name ≡ true = (same_bytes_iff name name).1 refl in
    subst (λ (f : Files). get_file f name ≡ file contents) is (rw same refl)

files_bounded :
    (n : ℕ) (input zbuf : List ℕ) → files.compress2 n input ≡ some zbuf → length zbuf ≤ n
files_bounded n input zbuf packs =
    let (fits, is) = if-eq-some (leb (length input) n) (some input) packs in
    let eq : input ≡ zbuf = cc in subst (λ (z : List ℕ). length z ≤ n) eq (ground (arith, fits))

files_inflate :
    (n k : ℕ) (input zbuf : List ℕ)
    → files.compress2 n input ≡ some zbuf
    → reader.uncompress (length input) (zbuf ++ replicate k 0) ≡ some input
files_inflate n k input zbuf packs =
    let (fits, is) = if-eq-some (leb (length input) n) (some input) packs in
    let eq : input ≡ zbuf = cc in
    subst (λ (z : List ℕ). reader.uncompress (length input) (z ++ replicate k 0) ≡ some input) eq
      (ap (λ (l : List ℕ). some l) (take-append input (replicate k 0)))

absent_w0 : table.read w0.ht hash ≡ none
absent_w0 = c0_law.1 hash

writes : chunks_write_chunk table files w0 hash bytes ≡ (w1, some 3)
unfolding chunks_write_chunk store_chunk after_insert count_new new_chunk padme bitmask_of
    Rwhashtab.read Rwhashtab.insert Rwhashtab.insert_free Rwhashtab.search_pos Rwhashtab.home
    Rwhashtab.probe
writes = refl

read_absent : (chunks_read_chunk reader r1 bytes 3 3).1 ≡ notpresent
unfolding chunks_read_chunk after_read_file chunks_write_chunk store_chunk after_insert count_new
    new_chunk padme bitmask_of Rwhashtab.read Rwhashtab.insert Rwhashtab.insert_free
    Rwhashtab.search_pos Rwhashtab.home Rwhashtab.probe
read_absent = refl

read_long : (chunks_read_chunk reader r1 hash 101 3).1 ≡ corrupt
unfolding chunks_read_chunk
read_long = refl

starts : chunks_read_init reader w1.store 100 ≡ some r1
unfolding chunks_read_init
starts = refl

chunks_read_chunk-chunks_write_chunk_example :
    (chunks_read_chunk reader r1 hash 3 3).1 ≡ chunk bytes
chunks_read_chunk-chunks_write_chunk_example =
    chunks_read_chunk-chunks_write_chunk table files reader (λ s. s) files_read_back files_bounded
      files_inflate w0 w1 hash bytes 3 100 r1 absent_w0 writes refl starts refl (omega arith)
      (omega arith)

reads : chunks_read_chunk reader r1 hash 3 3 ≡ (r1, chunk bytes)
unfolding chunks_read_chunk after_read_file unpack check_hash chunks_write_chunk store_chunk
    after_insert count_new new_chunk padme bitmask_of Rwhashtab.read Rwhashtab.insert
    Rwhashtab.insert_free Rwhashtab.search_pos Rwhashtab.home Rwhashtab.probe
reads = refl

chunks_read_chunk_checked_example : (length bytes ≡ 3) × (reader.crypto_hash_data bytes ≡ some hash)
chunks_read_chunk_checked_example = chunks_read_chunk_checked reader r1 r1 hash 3 3 bytes reads
