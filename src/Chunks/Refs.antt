-- ===== src/Chunks/Refs.antt =====
-- One use of a chunk more, or one less: what becomes of its counts.
use tarsnap.Base.{
  ℕ, ◌+◌, ◌^◌, ◌<◌, ◌≤◌, ◌≡◌, refl, ◌∙◌, inl, inr, Bool, true, false, arith, ◌==◌, if◌then◌else◌,
  Bool-cases,
}
use tarsnap.Chunks.Data.{Chunkdata, zlen_of, in_ctape, mark_ctape}
use tarsnap.Chunks.Stats.{SameChunk}
use tarsnap.Chunks.Flags.{zlen_of-mark_ctape, in_ctape-mark_ctape}
use tarsnap.Chunks.Write.{add_ref}
use tarsnap.Chunks.Delete.{drop_ref}

-- What holds of each chunk that archives use.
pub record IsCounted (ch : Chunkdata) : Type 0 where
  pub used : 0 < ch.nrefs
  pub covered : ch.nrefs ≤ ch.ncopies

-- 1 while archives use the chunk.
abbrev pub live : Chunkdata → ℕ
live ch = if ch.nrefs == 0 then 0 else 1

abbrev pub copies_of : Chunkdata → ℕ
copies_of ch = ch.ncopies

-- The counts stand beside the flags.
zlen_of_recount :
    (ch : Chunkdata) (n m : ℕ)
    → zlen_of (mark_ctape (record ch { nrefs = n; ncopies = m })) ≡ zlen_of ch
zlen_of_recount ch n m =
    let ch1 : Chunkdata = record ch { nrefs = n; ncopies = m } in
    let same : zlen_of ch1 ≡ zlen_of ch = unfold zlen_of in refl in zlen_of-mark_ctape ch1 ∙ same

pub add_ref-SameChunk : (ch : Chunkdata) → SameChunk ch (add_ref ch)
unfolding add_ref
add_ref-SameChunk ch = elim (Bool-cases (in_ctape ch)) [
  | inl marked ↦ rw marked (record { hash = refl; len = refl; zlen = unfold zlen_of in refl })
  | inr fresh ↦ rw fresh (record {
    hash = unfold mark_ctape in refl;
    len = unfold mark_ctape in refl;
    zlen = zlen_of_recount ch _ _;
  })
]

pub drop_ref-SameChunk : (ch : Chunkdata) → SameChunk ch (drop_ref ch)
unfolding drop_ref mark_ctape
drop_ref-SameChunk ch = elim (Bool-cases (in_ctape ch)) [
  | inl marked ↦ rw marked (record { hash = refl; len = refl; zlen = unfold zlen_of in refl })
  | inr fresh ↦
      rw fresh
        (record { hash = refl; len = refl; zlen = unfold mark_ctape in zlen_of_recount ch _ _ })
]

-- One archive counts a chunk once, however often it uses it; each use counts as a copy.
abbrev pub once : Bool → ℕ
once seen = if seen then 0 else 1

pub add_ref_counts :
    (ch : Chunkdata)
    → IsCounted ch
    → ch.ncopies + 1 < 2 ^ 32
    → ((add_ref ch).ncopies ≡ ch.ncopies + 1)
      × ((add_ref ch).nrefs ≡ ch.nrefs + once (in_ctape ch))
      × (in_ctape (add_ref ch) ≡ true)
unfolding add_ref
add_ref_counts ch c room = elim (Bool-cases (in_ctape ch)) [
  | inl marked ↦ rw marked (omega arith, omega arith, unfold in_ctape in marked)
  | inr fresh ↦ rw fresh (
    unfold mark_ctape in omega (arith, c.covered),
    unfold mark_ctape in omega (arith, c.covered),
    in_ctape-mark_ctape _,
  )
]

pub drop_ref_counts :
    (ch : Chunkdata)
    → 0 < ch.ncopies
    → ch.ncopies < 2 ^ 32
    → once (in_ctape ch) ≤ ch.nrefs
    → ch.nrefs < 2 ^ 32
    → ((drop_ref ch).ncopies + 1 ≡ ch.ncopies)
      × ((drop_ref ch).nrefs + once (in_ctape ch) ≡ ch.nrefs)
      × (in_ctape (drop_ref ch) ≡ true)
unfolding drop_ref
drop_ref_counts ch pos fits used small = elim (Bool-cases (in_ctape ch)) [
  | inl marked ↦ rw marked (omega arith, omega arith, unfold in_ctape in marked)
  | inr fresh ↦
      let used' : once false ≤ ch.nrefs = rw fresh at used in
      rw fresh (
        unfold mark_ctape in omega arith,
        omega arith,
        unfold mark_ctape in_ctape in in_ctape-mark_ctape ch,
      )
]

pub add_ref-IsCounted :
    (ch : Chunkdata) → IsCounted ch → ch.ncopies + 1 < 2 ^ 32 → IsCounted (add_ref ch)
add_ref-IsCounted ch c room =
    let (copies, refs, marked) = add_ref_counts ch c room in
    let small : once (in_ctape ch) ≤ 1 = ground arith in
    record { used = omega (arith, c.used); covered = omega (arith, c.covered) }
