-- ===== src/Chunks/Session/Account.antt =====
-- A transaction starts with its accounts right.
use tarsnap.Base.{
  ℕ, ◌+◌, ◌-◌, ◌/◌, ◌%◌, ◌^◌, ◌≤◌, ◌≡◌, refl, sym, ap, ◌∙◌, false, Option, some, List, [], ◌∷◌,
  arith, map, ltb, ◌==◌, if-eq-some, else-eq-some, elim-eq-some, bytes_eq, Option-cases, inl, inr,
}
use tarsnap.Base.Endian.{Endian}
use tarsnap.Chunks.Data.{Chunkdata, Chunkstats, ChunkTable}
use tarsnap.Chunks.Flags.{in_ctape_small}
use tarsnap.Chunks.Counts.{seen_at}
use tarsnap.Chunks.Write.{Services, WriteState}
use tarsnap.Chunks.Write.Account as WriteAccount
use tarsnap.Chunks.Delete.{DeleteServices, DeleteState}
use tarsnap.Chunks.Delete.Account as DeleteAccount
use tarsnap.Chunks.Directory.{Io, OnDisk, plain, Loaded, chunks_directory_read}
use tarsnap.Chunks.Directory.Load.{IsLoaded, chunks_directory_read-IsLoaded}
use tarsnap.Chunks.Session.{
  copy_path, chunks_write_start, write_state, chunks_delete_start, delete_state,
}

map-same {ℓ} : {A : Type ℓ} (xs : List A) → map (λ x. x) xs ≡ xs
map-same [] = refl
map-same (x ∷ xs) = ap (◌∷◌ x) (map-same xs)

module _ (le : Endian) (tab : ChunkTable) where
  open tab use {read, records}

  unseen :
      (L : Loaded le plain tab)
      → IsLoaded le plain tab L
      → (k : List ℕ) → seen_at (read L.ht k) ≡ false
  unseen L l k = elim (Option-cases (read L.ht k)) [
    | inl absent ↦ ap seen_at absent
    | inr (ch, held) ↦ ap seen_at held ∙ in_ctape_small ch (l.sane k ch held).unmarked
  ]

  write_state-Accounted :
      (sv : Services) (S : sv.Storage) (maxlen zbuflen : ℕ) (unset : Chunkstats)
      (L : Loaded le plain tab)
      → IsLoaded le plain tab L
      → ((k : List ℕ) (ch : Chunkdata) → read L.ht k ≡ some ch → ch.nrefs ≤ ch.ncopies)
      → WriteAccount.Accounted tab sv (write_state le tab sv S maxlen zbuflen unset L)
  write_state-Accounted sv S maxlen zbuflen unset L l covered = record {
    ok = l.ok;
    counted = λ k ch held. record { used = (l.sane k ch held).used; covered = covered k ch held };
    unique = rw (sym (map-same (records L.ht))) l.unique;
    total = rw (sym (map-same (records L.ht))) l.all;
  }

  delete_state-Accounted :
      (sv : DeleteServices) (S : sv.Storage) (L : Loaded le plain tab)
      → IsLoaded le plain tab L
      → DeleteAccount.Accounted tab sv (delete_state le tab sv S L)
  delete_state-Accounted sv S L l = record {
    ok = l.ok;
    droppable = λ k ch held. record {
      refs = let s = l.sane k ch held in ground (arith, s.used);
      small = (l.sane k ch held).refs;
      fits = (l.sane k ch held).copies;
    };
    unique = rw (sym (map-same (records L.ht))) l.unique;
    total = rw (sym (map-same (records L.ht))) l.all;
  }

  -- A write transaction that starts, over a directory whose entries have no fewer copies than
  -- references, starts with its accounts right, with no chunk flagged, and with a buffer for what
  -- deflating the longest chunk can make.
  pub chunks_write_start-Accounted :
      (sv : Services) (io : Io) (cache : Option OnDisk) (S : sv.Storage) (maxlen : ℕ)
      (unset : Chunkstats) (C : WriteState tab sv)
      → chunks_write_start le tab sv io cache S maxlen unset ≡ some C
      → ((k : List ℕ) (ch : Chunkdata) → read C.ht k ≡ some ch → ch.nrefs ≤ ch.ncopies)
      → WriteAccount.Accounted tab sv C
        × ((k : List ℕ) → seen_at (read C.ht k) ≡ false)
        × (C.zbuflen ≡ maxlen + maxlen / 1000 + 13)
  unfolding chunks_write_start
  chunks_write_start-Accounted sv io cache S maxlen unset C started covered =
      let zbuflen : ℕ = (maxlen + maxlen / 1000 + 13) % 2 ^ 64 in
      let (some_len, h1) = else-eq-some (maxlen == 0) _ started in
      let (fits, h2) = else-eq-some (ltb ((2 ^ 64 - 1) / 2) maxlen) _ h1 in
      let (memory, h3) = if-eq-some (io.alloc 224) _ h2 in
      let (buffer, h4) = if-eq-some (io.alloc zbuflen) _ h3 in
      let (copied, h5) = if-eq-some (copy_path io cache) _ h4 in
      let (L, loaded, h6) =
        elim-eq-some (chunks_directory_read le plain tab io false cache)
          (λ (L : Loaded le plain tab). some (write_state le tab sv S maxlen zbuflen unset L)) h5 in
      let l = chunks_directory_read-IsLoaded le plain tab io false cache L loaded in
      let same : write_state le tab sv S maxlen zbuflen unset L ≡ C = cc in
      let covered' = rw (← same) at covered in
      rw (← same)
        (write_state-Accounted sv S maxlen zbuflen unset L l covered', unseen L l, ground arith)

  -- A delete transaction that starts, starts with its accounts right and with no chunk flagged.
  pub chunks_delete_start-Accounted :
      (sv : DeleteServices) (io : Io) (state : OnDisk) (S : sv.Storage) (D : DeleteState tab sv)
      → chunks_delete_start le tab sv io state S ≡ some D
      → DeleteAccount.Accounted tab sv D × ((k : List ℕ) → seen_at (read D.ht k) ≡ false)
  unfolding chunks_delete_start
  chunks_delete_start-Accounted sv io state S D started =
      let (memory, h1) = if-eq-some (io.alloc 176) _ started in
      let (copied, h2) = if-eq-some io.copied _ h1 in
      let (L, loaded, h3) =
        elim-eq-some (chunks_directory_read le plain tab io false (some state))
          (λ (L : Loaded le plain tab). some (delete_state le tab sv S L)) h2 in
      let l = chunks_directory_read-IsLoaded le plain tab io false (some state) L loaded in
      let same : delete_state le tab sv S L ≡ D = cc in
      rw (← same) (delete_state-Accounted sv S L l, unseen L l)
