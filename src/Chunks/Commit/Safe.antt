-- ===== src/Chunks/Commit/Safe.antt =====
-- The commit of a chunk directory when the system may crash at any time, where hard links can be made.
use tarsnap.Base.{
  ℕ, Bool, true, false, Option, none, some, ◌≡◌, ◌≢◌, refl, sym, ap, ◌∙◌, ◌⊎◌, inl, inr, ◌==◌,
  arith, Bool-cases, subst,
}
use tarsnap.Chunks.Commit.{
  Suffix, Stat, missing, unknown, found, Linked, linked, unsupported, refused, Same, Writes,
  StatLaw, UnlinkLaw, LinkLaw, SyncLaw, CacheDir, linkdone, after_link, make_link, replace, move,
  chunks_directory_commit,
}
use tarsnap.Chunks.Commit.Moved.{and_then_lem}

module _ (cd : CacheDir) where
  open cd use {D, survives}

  -- A crash leaves this of the name.
  abbrev pub Only : D → Suffix → Option ℕ → Type 0
  Only d n v = (x : Option ℕ) → survives d n x → x ≡ v

  -- The file `f` has the name `t` for sure, or the name `s`, and then no other file has the name `t`.
  abbrev pub IsSafe : Suffix → Suffix → ℕ → D → Type 0
  IsSafe t s f d =
      Only d t (some f)
      ⊎ (Only d s (some f) × ((x : Option ℕ) → survives d t x → (x ≡ some f) ⊎ (x ≡ none)))

  pub Same-IsSafe :
      (t s : Suffix) (f : ℕ) (d e : D) → Same cd.file survives d e → IsSafe t s f d → IsSafe t s f e
  Same-IsSafe t s f d e u (inl old) = inl (λ x h. old x (u.survivors t x h))
  Same-IsSafe t s f d e u (inr (new, rest)) =
      inr (λ x h. new x (u.survivors s x h), λ x h. rest x (u.survivors t x h))

module _ (cd : CacheDir) (t s : Suffix) (apart : t ≢ s) (f : ℕ)
    (hard_links : (d e : cd.D) → cd.link d t s ≢ (e, unsupported)) where
  open cd use {D, file, survives}

  -- How a run ends.
  abbrev pub Ends : D × Bool → Type 0
  Ends (e, true) = IsSafe cd t s f e × (file e s ≡ some f) × (file e t ≡ none)
  Ends (e, false) = IsSafe cd t s f e

  sync-Ends :
      (e : D)
      → Only cd e s (some f)
      → file e t ≡ none
      → ((x : Option ℕ) → survives e t x → (x ≡ some f) ⊎ (x ≡ none))
      → Ends (cd.fsyncdir e)
  sync-Ends e new at_t rest = go (cd.fsyncdir e) (cd.sync_law e)
    where
      go : (answer : D × Bool) → SyncLaw file survives e answer → Ends answer
      go (e', true) y =
          let at_s : file e' s ≡ some f = y.files s ∙ new (file e s) (cd.current e s) in
          let gone : file e' t ≡ none = y.files t ∙ at_t in
          (inr (λ x h. y.durable s x h ∙ at_s, λ x h. inr (y.durable t x h ∙ gone)), at_s, gone)
      go (e', false) u = Same-IsSafe cd t s f e e' u (inr (new, rest))

  linkdone-Ends :
      (e : D) → file e t ≡ some f → file e s ≡ some f → IsSafe cd t s f e → Ends (linkdone cd e t)
  unfolding linkdone
  linkdone-Ends e at_t at_s safe =
      and_then_lem (SyncLaw file survives e) Ends (cd.fsyncdir e) _ (cd.sync_law e)
        (λ e1 y.
          let old : Only cd e1 t (some f) = λ x h. y.durable t x h ∙ y.files t ∙ at_t in
          let new : Only cd e1 s (some f) = λ x h. y.durable s x h ∙ y.files s ∙ at_s in
          and_then_lem (UnlinkLaw file survives e1 t) Ends (cd.unlink e1 t) _ (cd.unlink_law e1 t)
            (λ e2 w.
              sync-Ends e2 (λ x h. kept e1 e2 w new x (w.survivors s x h)) w.written
                (λ x h. dropped e1 e2 w old x (w.survivors t x h)))
            (λ e2 u. Same-IsSafe cd t s f e1 e2 u (inl old)))
        (λ e1 u. Same-IsSafe cd t s f e e1 u safe)
    where
      kept :
          (e1 e2 : D)
          → Writes file survives e1 t none e2
          → Only cd e1 s (some f)
          → (x : Option ℕ) → survives e1 s x ⊎ ((s ≡ t) × (x ≡ none))
          → x ≡ some f
      kept e1 e2 w new x (inl h) = new x h
      kept e1 e2 w new x (inr (eq, v)) = absurd (apart (sym eq))

      dropped :
          (e1 e2 : D)
          → Writes file survives e1 t none e2
          → Only cd e1 t (some f)
          → (x : Option ℕ) → survives e1 t x ⊎ ((t ≡ t) × (x ≡ none))
          → (x ≡ some f) ⊎ (x ≡ none)
      dropped e1 e2 w old x (inl h) = inl (old x h)
      dropped e1 e2 w old x (inr (eq, v)) = inr v

  -- A change of the new name leaves the old one.
  Writes-Only :
      (d e : D) (v : Option ℕ)
      → Writes file survives d s v e
      → Only cd d t (some f)
      → Only cd e t (some f)
  Writes-Only d e v w old x h = go (w.survivors t x h)
    where
      go : survives d t x ⊎ ((t ≡ s) × (x ≡ v)) → x ≡ some f
      go (inl h') = old x h'
      go (inr (eq, is_v)) = absurd (apart eq)

  make_link-Ends : (e : D) → Only cd e t (some f) → Ends (make_link cd e t s)
  unfolding make_link after_link
  make_link-Ends e old = go (cd.link e t s) (cd.link_law e t s) refl
    where
      go :
          (answer : D × Linked)
          → LinkLaw file survives e t s answer
          → cd.link e t s ≡ answer
          → Ends (after_link cd t s answer)
      go (e1, linked) w is =
          let at_t = old (file e t) (cd.current e t) in
          linkdone-Ends e1 (w.others t apart ∙ at_t) (w.written ∙ at_t)
            (inl (Writes-Only e e1 (file e t) w old))
      go (e1, unsupported) u is = absurd (hard_links e e1 is)
      go (e1, refused) u is = Same-IsSafe cd t s f e e1 u (inl old)

  replace-Ends :
      (d : D) (stat : Stat)
      → file d t ≡ some f
      → StatLaw file survives d s stat
      → IsSafe cd t s f d
      → Ends (replace cd d t s f stat)
  unfolding replace
  replace-Ends d missing at_t at_s (inl old) = make_link-Ends d old
  replace-Ends d missing at_t at_s (inr (new, rest)) =
      let there = new (file d s) (cd.current d s) in absurd (cc)
  replace-Ends d unknown at_t at_s safe = safe
  replace-Ends d (found ino) at_t at_s safe = elim (Bool-cases (ino == f)) [
    | inl same ↦
        let eq : ino ≡ f = ground (arith, same) in
        rw same (linkdone-Ends d at_t (at_s ∙ ap some eq) safe)
    | inr other ↦ rw other (
        and_then_lem (UnlinkLaw file survives d s) Ends (cd.unlink d s) _ (cd.unlink_law d s)
          (λ e w. make_link-Ends e (Writes-Only d e none w (old safe other)))
          (λ e u. Same-IsSafe cd t s f d e u safe))
  ]
    where
      old : IsSafe cd t s f d → (ino == f) ≡ false → Only cd d t (some f)
      old (inl h) other = h
      old (inr (new, rest)) other =
          let there = new (file d s) (cd.current d s) in
          let eq : ino ≡ f = cc in absurd (ground (arith, other, eq))

  -- One run of the commit, wherever a failing call ends it.
  pub chunks_directory_commit-IsSafe :
      (d : D)
      → IsSafe cd t s f d
      → IsSafe cd t s f (chunks_directory_commit cd d t s).0
        × ((chunks_directory_commit cd d t s).1 ≡ true
            → (file (chunks_directory_commit cd d t s).0 s ≡ some f)
              × (file (chunks_directory_commit cd d t s).0 t ≡ none))
  unfolding chunks_directory_commit move
  chunks_directory_commit-IsSafe d safe = elim (Bool-cases (cd.asprintf d s)) [
    | inr fails ↦ rw fails (safe, λ h. absurd (cc))
    | inl named ↦ rw named (elim (Bool-cases (cd.asprintf d t)) [
      | inr fails' ↦ rw fails' (safe, λ h. absurd (cc))
      | inl named' ↦
          rw named'
            (of_Ends (move cd d t s (cd.lstat d t)) (go safe (cd.lstat d t) (cd.lstat_law d t)))
    ])
  ]
    where
      of_Ends :
          (answer : D × Bool)
          → Ends answer
          → IsSafe cd t s f answer.0
            × (answer.1 ≡ true → (file answer.0 s ≡ some f) × (file answer.0 t ≡ none))
      of_Ends (e, true) (safe', at_s, at_t) = (safe', λ h. (at_s, at_t))
      of_Ends (e, false) safe' = (safe', λ h. absurd (cc))

      is_f : (ino : ℕ) → file d t ≡ some ino → IsSafe cd t s f d → f ≡ ino
      is_f ino at_t (inl old) = let there = old (file d t) (cd.current d t) in cc
      is_f ino at_t (inr (new, rest)) = elim (rest (file d t) (cd.current d t)) [
        | inl there ↦ cc
        | inr gone ↦ absurd (cc)
      ]

      go :
          IsSafe cd t s f d
          → (stat : Stat) → StatLaw file survives d t stat
          → Ends (move cd d t s stat)
      go (inl old) missing absent = let there = old (file d t) (cd.current d t) in absurd (cc)
      go (inr (new, rest)) missing absent =
          (inr (new, rest), new (file d s) (cd.current d s), absent)
      go safe' unknown x = safe'
      go safe' (found ino) at_ino =
          let eq = is_f ino at_ino safe' in
          subst (λ (i : ℕ). Ends (replace cd d t s i (cd.lstat d s))) eq
            (replace-Ends d (cd.lstat d s) (at_ino ∙ ap some (sym eq)) (cd.lstat_law d s) safe')
