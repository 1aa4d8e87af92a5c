-- ===== src/Chunks/Lifetime.antt =====
-- The life of an archive's chunks: a write transaction that uses them, and a delete transaction that
-- drops each as often.
use tarsnap.Base.{
  ℕ, ◌+◌, ◌<◌, ◌≤◌, ◌^◌, ◌≡◌, refl, sym, ap, ◌∙◌, inl, inr, true, false, Option, none, some, List,
  [], ◌∷◌, arith, Bool-cases, same_bytes, same_bytes_iff, bytes_eq, length,
}
use mathlib.Core.Option
use tarsnap.Chunks.Data.{Chunkdata, ChunkTable}
use tarsnap.Chunks.Directory.Sane.{reloaded}
use tarsnap.Chunks.Flags.{zlen_of_lem, in_ctape_small}
use tarsnap.Chunks.Delete.{DeleteServices, DeleteState, chunks_delete_chunk}
use tarsnap.Chunks.Delete.Account as DeleteAccount
use tarsnap.Chunks.Delete.Account.{chunks_delete_chunk-Accounted}
use tarsnap.Chunks.Delete.Counts.{DropsOne, chunks_delete_chunk_counts}
use tarsnap.Chunks.Counts.{
  After, After-none, After-next, Without, Without-none, Without-next, Without-After, refs_at,
  copies_at, seen_at, count_of, count_of_self, count_of_tail,
}
use tarsnap.Chunks.Write.{Services, WriteState, chunks_write_chunk, chunks_write_chunkref}
use tarsnap.Chunks.Write.Account as WriteAccount
use tarsnap.Chunks.Write.Account.{chunks_write_chunk-Accounted, chunks_write_chunkref-Accounted}
use tarsnap.Chunks.Write.Counts.{
  UsesOne, chunks_write_chunk-Stored, chunks_write_chunkref_counts, chunks_write_chunk-zbuflen,
  chunks_write_chunkref-zbuflen,
}

module _ (tab : ChunkTable) (sv : Services) where
  open tab use {read}

  -- A write transaction from `C` to a later state, with the names of the chunks that it used.
  pub data Archived (C : WriteState tab sv) : List (List ℕ) → WriteState tab sv → Type 0 where
    start : Archived C [] C
    stored :
        {hs : List (List ℕ)} {W W' : WriteState tab sv} {zlen : ℕ} (hash buf : List ℕ)
        → Archived C hs W
        → chunks_write_chunk tab sv W hash buf ≡ (W', some zlen)
        → Archived C (hash ∷ hs) W'
    referenced :
        {hs : List (List ℕ)} {W W' : WriteState tab sv} (hash : List ℕ)
        → Archived C hs W
        → chunks_write_chunkref tab sv W hash ≡ (W', true)
        → Archived C (hash ∷ hs) W'

  -- What a write transaction leaves.
  pub record Outcome (C W : WriteState tab sv) (hs : List (List ℕ)) : Type 0 where
    pub accounts : WriteAccount.Accounted tab sv W
    pub counts : (k : List ℕ) → After (count_of k hs) (read C.ht k) (read W.ht k)
    pub buffer : W.zbuflen ≡ C.zbuflen

  counts_next :
      (C W W' : WriteState tab sv) (hs : List (List ℕ)) (hash : List ℕ)
      → ((k : List ℕ) → After (count_of k hs) (read C.ht k) (read W.ht k))
      → UsesOne tab sv W.ht W'.ht hash
      → (k : List ℕ) → After (count_of k (hash ∷ hs)) (read C.ht k) (read W'.ht k)
  unfolding count_of
  counts_next C W W' hs hash counts one k = elim (Bool-cases (same_bytes hash k)) [
    | inl hit ↦
        let same : hash ≡ k = (same_bytes_iff hash k).0 hit in
        rw hit (After-next _ _ _ _ (counts k) (rw same at one.used))
    | inr miss ↦ rw (miss, one.others k miss) (counts k)
  ]

  -- Room for every use of a chunk in its 32-bit counter.
  abbrev pub HasRoom : WriteState tab sv → List (List ℕ) → Type 0
  HasRoom C hs = (k : List ℕ) → copies_at (read C.ht k) + count_of k hs < 2 ^ 32

  room_before :
      (C : WriteState tab sv) (h : List ℕ) (hs : List (List ℕ)) → HasRoom C (h ∷ hs) → HasRoom C hs
  room_before C h hs room k = omega (arith, room k, count_of_tail k h hs)

  room_step :
      (C W : WriteState tab sv) (h : List ℕ) (hs : List (List ℕ))
      → HasRoom C (h ∷ hs)
      → Outcome C W hs
      → (ch : Chunkdata) → read W.ht h ≡ some ch
      → ch.ncopies + 1 < 2 ^ 32
  room_step C W h hs room out ch held =
      let now : ch.ncopies ≡ copies_at (read C.ht h) + count_of h hs =
        sym (ap copies_at held) ∙ (out.counts h).copies in
      omega (arith, room h, count_of_self h hs, now)

  pub archive-Outcome :
      (C W : WriteState tab sv) (hs : List (List ℕ))
      → WriteAccount.Accounted tab sv C
      → C.zbuflen < 2 ^ 30
      → ((n : ℕ) (d z : List ℕ) → sv.compress2 n d ≡ some z → length z ≤ n)
      → HasRoom C hs
      → Archived C hs W
      → Outcome C W hs
  archive-Outcome C W hs a small bounded room start = record {
    accounts = a;
    counts = λ k. After-none k (read C.ht k);
    buffer = refl;
  }
  archive-Outcome C W' hs a small bounded room (stored {hs = gs} {W = W} hash buf before done) =
      let out = archive-Outcome C W gs a small bounded (room_before C hash gs room) before in
      let fits = rw (sym out.buffer) at small in
      let step = room_step C W hash gs room out in
      let result = chunks_write_chunk-Stored tab sv W hash buf out.accounts step fits bounded in
      let accounts =
        chunks_write_chunk-Accounted tab sv W hash buf out.accounts step fits bounded in
      record {
        accounts = rw done at accounts;
        counts = counts_next C W W' gs hash out.counts ((rw done at result).0);
        buffer =
            sym (ap (λ r. r.0.zbuflen) done)
            ∙ chunks_write_chunk-zbuflen tab sv W hash buf
            ∙ out.buffer;
      }
  archive-Outcome C W' hs a small bounded room (referenced {hs = gs} {W = W} hash before done) =
      let out = archive-Outcome C W gs a small bounded (room_before C hash gs room) before in
      let step = room_step C W hash gs room out in
      let accounts = chunks_write_chunkref-Accounted tab sv W hash out.accounts step in
      record {
        accounts = rw done at accounts;
        counts =
            counts_next C W W' gs hash out.counts
              (elim (chunks_write_chunkref_counts tab sv W hash out.accounts step) [
                | inl (ok, there, one) ↦ rw done at one
                | inr (refused, absent) ↦ absurd (cc)
              ]);
        buffer =
            sym (ap (λ r. r.0.zbuflen) done)
            ∙ chunks_write_chunkref-zbuflen tab sv W hash
            ∙ out.buffer;
      }

module _ (tab : ChunkTable) (sv : DeleteServices) where
  open tab use {read}

  -- A delete transaction from `D` to a later state, with the names of the chunks that it dropped.
  pub data Deleted (D : DeleteState tab sv) : List (List ℕ) → DeleteState tab sv → Type 0 where
    begin : Deleted D [] D
    dropped :
        {hs : List (List ℕ)} {W W' : DeleteState tab sv} (hash : List ℕ)
        → Deleted D hs W
        → chunks_delete_chunk tab sv W hash ≡ (W', true)
        → Deleted D (hash ∷ hs) W'

  pub record Emptied (D W : DeleteState tab sv) (hs : List (List ℕ)) : Type 0 where
    pub accounts : DeleteAccount.Accounted tab sv W
    pub counts : (k : List ℕ) → Without (count_of k hs) (read D.ht k) (read W.ht k)

  drops_next :
      (D W W' : DeleteState tab sv) (hs : List (List ℕ)) (hash : List ℕ)
      → ((k : List ℕ) → Without (count_of k hs) (read D.ht k) (read W.ht k))
      → DropsOne tab sv W.ht W'.ht hash
      → (k : List ℕ) → Without (count_of k (hash ∷ hs)) (read D.ht k) (read W'.ht k)
  unfolding count_of
  drops_next D W W' hs hash counts one k = elim (Bool-cases (same_bytes hash k)) [
    | inl hit ↦
        let same : hash ≡ k = (same_bytes_iff hash k).0 hit in
        rw hit (Without-next _ _ _ _ (counts k) (rw same at one.dropped))
    | inr miss ↦ rw (miss, one.others k miss) (counts k)
  ]

  pub delete-Emptied :
      (D W : DeleteState tab sv) (hs : List (List ℕ))
      → DeleteAccount.Accounted tab sv D
      → ((k : List ℕ) → count_of k hs ≤ copies_at (read D.ht k))
      → Deleted D hs W
      → Emptied D W hs
  delete-Emptied D W hs a enough begin = record {
    accounts = a;
    counts = λ k. Without-none k (read D.ht k);
  }
  delete-Emptied D W' hs a enough (dropped {hs = gs} {W = W} hash before done) =
      let out =
        delete-Emptied D W gs a (λ k. omega (arith, enough k, count_of_tail k hash gs)) before in
      let copies = λ (ch : Chunkdata) (held : read W.ht hash ≡ some ch).
        let now : copies_at (read W.ht hash) ≡ ch.ncopies = ap copies_at held in
        let left : 0 < ch.ncopies =
          omega (arith, (out.counts hash).copies, enough hash, count_of_self hash gs, now) in
        left in
      let accounts = chunks_delete_chunk-Accounted tab sv W hash out.accounts copies in
      record {
        accounts = rw done at accounts;
        counts =
            drops_next D W W' gs hash out.counts
              (elim (chunks_delete_chunk_counts tab sv W hash out.accounts copies) [
                | inl (absent, refused) ↦ absurd (cc)
                | inr (one, file) ↦ rw done at one
              ]);
      }

reloaded-unmarked :
    (o : Option Chunkdata)
    → (copies_at (Option.map reloaded o) ≡ copies_at o)
      × (refs_at (Option.map reloaded o) ≡ refs_at o)
      × (seen_at (Option.map reloaded o) ≡ false)
reloaded-unmarked none = (refl, refl, refl)
reloaded-unmarked (some ch) =
    (refl, refl, in_ctape_small (reloaded ch) (omega (arith, zlen_of_lem ch)))

module _ (tab : ChunkTable) (wsv : Services) (dsv : DeleteServices) where
  open tab use {read}

  -- Archiving and then deleting the archive leaves each chunk with the copies and references that it
  -- had, where a chunk that the archive brought had none. The write transaction starts with its
  -- accounts right, no chunk flagged as used, a buffer shorter than the flag bits, a `compress2`
  -- that stays within it, and for each chunk fewer than 2 ^ 32 copies and uses together; the delete
  -- transaction starts with its accounts right from the table that the write transaction left, with
  -- the flags cleared, and drops each chunk as often as that used it, in any order.
  pub archive_delete :
      (C W : WriteState tab wsv) (D E : DeleteState tab dsv) (hs gs : List (List ℕ))
      → WriteAccount.Accounted tab wsv C
      → C.zbuflen < 2 ^ 30
      → ((n : ℕ) (d z : List ℕ) → wsv.compress2 n d ≡ some z → length z ≤ n)
      → HasRoom tab wsv C hs
      → ((k : List ℕ) → seen_at (read C.ht k) ≡ false)
      → Archived tab wsv C hs W
      → DeleteAccount.Accounted tab dsv D
      → ((k : List ℕ) → read D.ht k ≡ Option.map reloaded (read W.ht k))
      → ((k : List ℕ) → count_of k gs ≡ count_of k hs)
      → Deleted tab dsv D gs E
      → (k : List ℕ)
      → (copies_at (read E.ht k) ≡ copies_at (read C.ht k))
        × (refs_at (read E.ht k) ≡ refs_at (read C.ht k))
  archive_delete C W D E hs gs a small bounded room unseen archived d same_table same_uses deleted
        k =
      let out = archive-Outcome tab wsv C W hs a small bounded room archived in
      let same = λ (j : List ℕ). reloaded-unmarked (read W.ht j) in
      let copies : (j : List ℕ) → copies_at (read D.ht j) ≡ copies_at (read W.ht j) =
        λ j. ap copies_at (same_table j) ∙ (same j).0 in
      let gone =
        delete-Emptied tab dsv D E gs d
          (λ j. omega (arith, same_uses j, copies j, (out.counts j).copies)) deleted in
      Without-After (count_of k hs) (read C.ht k) (read W.ht k) (read D.ht k) (read E.ht k)
        (out.counts k) (unseen k) (copies k) (ap refs_at (same_table k) ∙ (same k).1)
        (ap seen_at (same_table k) ∙ (same k).2) (rw same_uses at (gone.counts k))
