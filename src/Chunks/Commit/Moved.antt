-- ===== src/Chunks/Commit/Moved.antt =====
-- Where the new chunk directory is when a commit ends, whichever calls fail.
use tarsnap.Base.{
  ℕ, Bool, true, false, none, some, ◌≡◌, ◌≢◌, refl, sym, ap, subst, ◌∙◌, ◌⊎◌, inl, inr, ◌==◌, arith,
  Bool-cases,
}
use tarsnap.Chunks.Commit.{
  Suffix, directory, tmp, ckpt, of_stat, chunks_directory_exists, chunks_transaction_checkpoint,
  chunks_transaction_commit, Stat, missing, unknown, found, Linked, linked, unsupported, refused,
  StatLaw, UnlinkLaw, LinkLaw, RenameLaw, SyncLaw, CacheDir, and_then, linkdone, after_link,
  make_link, replace, move, chunks_directory_commit,
}

-- What holds of both answers of a call, and after the rest where it was good, holds of the two.
pub and_then_lem :
    {D : Type 0} (Law P : D × Bool → Type 0) (answer : D × Bool) (rest : D → D × Bool)
    → Law answer
    → ((d : D) → Law (d, true) → P (rest d))
    → ((d : D) → Law (d, false) → P (d, false))
    → P (and_then answer rest)
and_then_lem Law P (d, true) rest law good bad = good d law
and_then_lem Law P (d, false) rest law good bad = bad d law

ckpt_ne_tmp : ckpt ≢ tmp
ckpt_ne_tmp eq = absurd (cc)

ckpt_ne_directory : ckpt ≢ directory
ckpt_ne_directory eq = absurd (cc)

pub tmp_ne_directory : tmp ≢ directory
tmp_ne_directory eq = absurd (cc)

module _ (cd : CacheDir) (t s : Suffix) (apart : t ≢ s) (f : ℕ) where
  open cd use {D, file, survives}

  abbrev Others : D → D → Type 0
  Others d e = (m : Suffix) → m ≢ t → m ≢ s → file e m ≡ file d m

  -- How a run that starts in `d` ends.
  abbrev pub Ends : D → D × Bool → Type 0
  Ends d (e, true) = (file e s ≡ some f) × (file e t ≡ none) × Others d e
  Ends d (e, false) = ((file e t ≡ some f) ⊎ (file e s ≡ some f)) × Others d e

  sync-Ends : (d e : D) → file e s ≡ some f → file e t ≡ none → Others d e → Ends d (cd.fsyncdir e)
  sync-Ends d e at_s at_t others = go (cd.fsyncdir e) (cd.sync_law e)
    where
      go : (answer : D × Bool) → SyncLaw file survives e answer → Ends d answer
      go (e', true) y =
          (y.files s ∙ at_s, y.files t ∙ at_t, λ m m_t m_s. y.files m ∙ others m m_t m_s)
      go (e', false) y = (inr (y.files s ∙ at_s), λ m m_t m_s. y.files m ∙ others m m_t m_s)

  linkdone-Ends :
      (d e : D) → file e t ≡ some f → file e s ≡ some f → Others d e → Ends d (linkdone cd e t)
  unfolding linkdone
  linkdone-Ends d e at_t at_s others =
      and_then_lem (SyncLaw file survives e) (Ends d) (cd.fsyncdir e) _ (cd.sync_law e)
        (λ e1 y.
          and_then_lem (UnlinkLaw file survives e1 t) (Ends d) (cd.unlink e1 t) _
            (cd.unlink_law e1 t)
            (λ e2 w.
              sync-Ends d e2 (w.others s (λ eq. apart (sym eq)) ∙ y.files s ∙ at_s) w.written
                (λ m m_t m_s. w.others m m_t ∙ y.files m ∙ others m m_t m_s))
            (λ e2 u. (
              inl (u.files t ∙ y.files t ∙ at_t),
              λ m m_t m_s. u.files m ∙ y.files m ∙ others m m_t m_s,
            )))
        (λ e1 y. (inl (y.files t ∙ at_t), λ m m_t m_s. y.files m ∙ others m m_t m_s))

  rename-Ends :
      (d e : D)
      → file e t ≡ some f
      → file e s ≡ none
      → Others d e
      → Ends d (and_then (cd.rename e t s) cd.fsyncdir)
  rename-Ends d e at_t at_s others =
      and_then_lem (RenameLaw file survives e t s) (Ends d) (cd.rename e t s) _
        (cd.rename_law e t s)
        (λ e1 moves.
          let v = moves at_s in
          sync-Ends d e1 (v.moved ∙ at_t) v.gone
            (λ m m_t m_s. v.others m m_t m_s ∙ others m m_t m_s))
        (λ e1 u. (inl (u.files t ∙ at_t), λ m m_t m_s. u.files m ∙ others m m_t m_s))

  make_link-Ends :
      (d e : D) → file e t ≡ some f → file e s ≡ none → Others d e → Ends d (make_link cd e t s)
  unfolding make_link after_link
  make_link-Ends d e at_t at_s others = go (cd.link e t s) (cd.link_law e t s)
    where
      go :
          (answer : D × Linked)
          → LinkLaw file survives e t s answer
          → Ends d (after_link cd t s answer)
      go (e1, linked) w =
          linkdone-Ends d e1 (w.others t apart ∙ at_t) (w.written ∙ at_t)
            (λ m m_t m_s. w.others m m_s ∙ others m m_t m_s)
      go (e1, unsupported) u =
          rename-Ends d e1 (u.files t ∙ at_t) (u.files s ∙ at_s)
            (λ m m_t m_s. u.files m ∙ others m m_t m_s)
      go (e1, refused) u = (inl (u.files t ∙ at_t), λ m m_t m_s. u.files m ∙ others m m_t m_s)

  replace-Ends :
      (d : D) (stat : Stat)
      → file d t ≡ some f
      → StatLaw file survives d s stat
      → Ends d (replace cd d t s f stat)
  unfolding replace
  replace-Ends d missing at_t at_s = make_link-Ends d d at_t at_s (λ m m_t m_s. refl)
  replace-Ends d unknown at_t at_s = (inl at_t, λ m m_t m_s. refl)
  replace-Ends d (found ino) at_t at_s = elim (Bool-cases (ino == f)) [
    | inl same ↦
        let eq : ino ≡ f = ground (arith, same) in
        rw same (linkdone-Ends d d at_t (at_s ∙ ap some eq) (λ m m_t m_s. refl))
    | inr other ↦ rw other (
        and_then_lem (UnlinkLaw file survives d s) (Ends d) (cd.unlink d s) _ (cd.unlink_law d s)
          (λ e w.
            make_link-Ends d e (w.others t apart ∙ at_t) w.written (λ m m_t m_s. w.others m m_s))
          (λ e u. (inl (u.files t ∙ at_t), λ m m_t m_s. u.files m)))
  ]

  -- Of a new directory file under the old suffix, `chunks_directory_commit` makes the one under the
  -- new suffix and leaves no other name of it if it succeeds; if it fails, wherever that is, the file
  -- still has one of the two names. No third name changes. The two suffixes differ.
  pub chunks_directory_commit-Ends :
      (d : D) → file d t ≡ some f → Ends d (chunks_directory_commit cd d t s)
  unfolding chunks_directory_commit move
  chunks_directory_commit-Ends d at_t = elim (Bool-cases (cd.asprintf d s)) [
    | inr fails ↦ rw fails (inl at_t, λ m m_t m_s. refl)
    | inl named ↦ rw named (elim (Bool-cases (cd.asprintf d t)) [
      | inr fails' ↦ rw fails' (inl at_t, λ m m_t m_s. refl)
      | inl named' ↦ rw named' (go (cd.lstat d t) (cd.lstat_law d t))
    ])
  ]
    where
      go : (stat : Stat) → StatLaw file survives d t stat → Ends d (move cd d t s stat)
      go missing absent = absurd (cc)
      go unknown x = (inl at_t, λ m m_t m_s. refl)
      go (found ino) at_ino =
          let eq : f ≡ ino = cc in
          subst (λ (i : ℕ). Ends d (replace cd d t s i (cd.lstat d s))) eq
            (replace-Ends d (cd.lstat d s) at_t (cd.lstat_law d s))

module _ (cd : CacheDir) where
  open cd use {D, file}

  -- A checkpoint and then a commit that both succeed give the file "directory.ckpt" the name
  -- "directory" and no other, and where that can be looked up `chunks_directory_exists` then says so.
  pub checkpoint-commit :
      (d e k : D) (f : ℕ)
      → file d ckpt ≡ some f
      → chunks_transaction_checkpoint cd d ≡ (e, true)
      → chunks_transaction_commit cd e ≡ (k, true)
      → (file k directory ≡ some f)
        × (file k tmp ≡ none)
        × (file k ckpt ≡ none)
        × (cd.asprintf k directory ≡ true
            → cd.stat k directory ≢ unknown
            → chunks_directory_exists cd k ≡ some true)
  unfolding chunks_transaction_checkpoint chunks_transaction_commit chunks_directory_exists
  checkpoint-commit d e k f at_ckpt first second =
      let (at_tmp, no_ckpt, others) =
        subst (Ends cd ckpt tmp ckpt_ne_tmp f d) first
          (chunks_directory_commit-Ends cd ckpt tmp ckpt_ne_tmp f d at_ckpt) in
      let (at_directory, no_tmp, others') =
        subst (Ends cd tmp directory tmp_ne_directory f e) second
          (chunks_directory_commit-Ends cd tmp directory tmp_ne_directory f e at_tmp) in
      (
        at_directory,
        no_tmp,
        others' ckpt ckpt_ne_tmp ckpt_ne_directory ∙ no_ckpt,
        λ named known.
            rw named (go (cd.stat k directory) (cd.stat_law k directory) known at_directory),
      )
    where
      go :
          (stat : Stat)
          → StatLaw file cd.survives k directory stat
          → stat ≢ unknown
          → file k directory ≡ some f
          → of_stat cd stat ≡ some true
      go missing absent known there = absurd (cc)
      go unknown x known there = absurd (known refl)
      go (found ino) is known there = refl
