-- ===== src/Chunks/Commit/Recovery.antt =====
-- Runs of the commit between crashes of the system.
use tarsnap.Base.{
  ℕ, Bool, true, Option, none, some, ◌≡◌, ◌≢◌, refl, sym, ap, ◌∙◌, ◌⊎◌, inl, inr, ◌==◌, Bool-cases,
  subst,
}
use tarsnap.Chunks.Commit.{
  Suffix, Stat, missing, unknown, found, Linked, linked, unsupported, refused, Same, StatLaw,
  UnlinkLaw, LinkLaw, SyncLaw, CacheDir, linkdone, after_link, make_link, replace, move,
  chunks_directory_commit,
}
use tarsnap.Chunks.Commit.Moved.{and_then_lem}
use tarsnap.Chunks.Commit.Safe.{IsSafe, Only, Same-IsSafe, chunks_directory_commit-IsSafe}

module _ (cd : CacheDir) (t s : Suffix) (apart : t ≢ s) where
  open cd use {D, file, survives}

  -- In the states `Up`, no call fails that its documentation lets succeed.
  pub record Works (Up : D → Type 0) : Type 0 where
    pub named : (d : D) (n : Suffix) → Up d → cd.asprintf d n ≡ true
    pub looks : (d : D) (n : Suffix) → Up d → cd.lstat d n ≢ unknown
    pub unlinks :
        (d : D) (n : Suffix)
        → Up d
        → file d n ≢ none
        → ((cd.unlink d n).1 ≡ true) × Up (cd.unlink d n).0
    pub links :
        (d : D)
        → Up d
        → file d t ≢ none
        → file d s ≡ none
        → ((cd.link d t s).1 ≡ linked) × Up (cd.link d t s).0
    pub syncs : (d : D) → Up d → ((cd.fsyncdir d).1 ≡ true) × Up (cd.fsyncdir d).0

  -- A crash leaves each name as it was at some time since it was last durable, and durable.
  pub record Crash (d e : D) : Type 0 where
    pub left : (n : Suffix) → survives d n (file e n)
    pub durable : (n : Suffix) (x : Option ℕ) → survives e n x → x ≡ file e n

  -- What attempts to commit, time that passes and crashes make of a cache directory. An attempt that
  -- is killed before a call ends as one in which that call fails.
  pub data Reaches (d : D) : D → Type 0 where
    here : Reaches d d
    commit : {e : D} → Reaches d e → Reaches d (chunks_directory_commit cd e t s).0
    wait : {e e' : D} → Reaches d e → Same file survives e e' → Reaches d e'
    crash : {e e' : D} → Reaches d e → Crash e e' → Reaches d e'

  module _ (f : ℕ) (hard_links : (d e : D) → cd.link d t s ≢ (e, unsupported)) where
    Crash-IsSafe : (d e : D) → Crash d e → IsSafe cd t s f d → IsSafe cd t s f e
    Crash-IsSafe d e c (inl old) = inl (λ x h. c.durable t x h ∙ old (file e t) (c.left t))
    Crash-IsSafe d e c (inr (new, rest)) = inr (
      λ x h. c.durable s x h ∙ new (file e s) (c.left s),
      λ x h.
          let eq : x ≡ file e t = c.durable t x h in
          subst (λ y. (y ≡ some f) ⊎ (y ≡ none)) (sym eq) (rest (file e t) (c.left t)),
    )

    -- From a cache directory whose new directory file is durable under its old suffix, attempts to
    -- commit, crashes and time never lose it, where the file system has hard links: what a crash
    -- leaves has it under the old suffix or under the new one.
    pub Reaches-IsSafe : (d e : D) → Only cd d t (some f) → Reaches d e → IsSafe cd t s f e
    Reaches-IsSafe d e old r = go r
      where
        go : {e : D} → Reaches d e → IsSafe cd t s f e
        go here = inl old
        go (commit {e} r) = (chunks_directory_commit-IsSafe cd t s apart f hard_links e (go r)).0
        go (wait {e} {e'} r u) = Same-IsSafe cd t s f e e' u (go r)
        go (crash {e} {e'} r c) = Crash-IsSafe e e' c (go r)

    module _ (Up : D → Type 0) (works : Works Up) where
      abbrev Good : D × Bool → Type 0
      Good answer = (answer.1 ≡ true) × Up answer.0

      linkdone-true : (e : D) → Up e → file e t ≢ none → (linkdone cd e t).1 ≡ true
      unfolding linkdone
      linkdone-true e up there =
          and_then_lem (λ a. SyncLaw file survives e a × Good a) (λ a. a.1 ≡ true) (cd.fsyncdir e) _
            (cd.sync_law e, works.syncs e up)
            (λ e1 (y, (ok, up1)).
              and_then_lem Good (λ a. a.1 ≡ true) (cd.unlink e1 t) _
                (works.unlinks e1 t up1 (λ gone. there (sym (y.files t) ∙ gone)))
                (λ e2 (ok', up2). (works.syncs e2 up2).0) (λ e2 (bad, up2). bad))
            (λ e1 (y, (bad, up1)). bad)

      make_link-true :
          (e : D) → Up e → file e t ≢ none → file e s ≡ none → (make_link cd e t s).1 ≡ true
      unfolding make_link after_link
      make_link-true e up there free =
          go (cd.link e t s) (cd.link_law e t s) (works.links e up there free)
        where
          go :
              (answer : D × Linked)
              → LinkLaw file survives e t s answer
              → (answer.1 ≡ linked) × Up answer.0
              → (after_link cd t s answer).1 ≡ true
          go (e1, linked) w (ok, up1) =
              linkdone-true e1 up1 (λ gone. there (sym (w.others t apart) ∙ gone))
          go (e1, unsupported) u (bad, up1) = absurd (cc)
          go (e1, refused) u (bad, up1) = absurd (cc)

      replace-true :
          (d : D) (i : ℕ) (stat : Stat)
          → Up d
          → file d t ≢ none
          → StatLaw file survives d s stat
          → stat ≢ unknown
          → (replace cd d t s i stat).1 ≡ true
      unfolding replace
      replace-true d i missing up there free known = make_link-true d up there free
      replace-true d i unknown up there free known = absurd (known refl)
      replace-true d i (found ino) up there at_s known = elim (Bool-cases (ino == i)) [
        | inl same ↦ rw same (linkdone-true d up there)
        | inr other ↦ rw other (
            and_then_lem (λ a. UnlinkLaw file survives d s a × Good a) (λ a. a.1 ≡ true)
              (cd.unlink d s) _
              (cd.unlink_law d s, works.unlinks d s up (λ gone. absurd (cc (gone, at_s))))
              (λ e (w, (ok, up1)).
                make_link-true e up1 (λ gone. there (sym (w.others t apart) ∙ gone)) w.written)
              (λ e (u, (bad, up1)). bad))
      ]

      commit-true : (d : D) → Up d → (chunks_directory_commit cd d t s).1 ≡ true
      unfolding chunks_directory_commit move
      commit-true d up =
          rw (works.named d s up)
            (rw (works.named d t up) (go (cd.lstat d t) (cd.lstat_law d t) (works.looks d t up)))
        where
          go :
              (stat : Stat)
              → StatLaw file survives d t stat
              → stat ≢ unknown
              → (move cd d t s stat).1 ≡ true
          go missing absent known = refl
          go unknown x known = absurd (known refl)
          go (found ino) at_t known =
              replace-true d ino (cd.lstat d s) up (λ gone. absurd (cc)) (cd.lstat_law d s)
                (works.looks d s up)

      -- However attempts to commit are cut short, a later one that starts where no call fails succeeds,
      -- and then the new directory file has the new name and no longer the old one. The file was
      -- durable under the old suffix at the start, and the file system has hard links.
      pub chunks_directory_commit-recovers :
          (d e : D)
          → Only cd d t (some f)
          → Reaches d e
          → Up e
          → (k : D) × (chunks_directory_commit cd e t s ≡ (k, true))
            × (file k s ≡ some f)
            × (file k t ≡ none)
      chunks_directory_commit-recovers d e old r up =
          let ok = commit-true e up in
          let (safe, moved) =
            chunks_directory_commit-IsSafe cd t s apart f hard_links e (Reaches-IsSafe d e old r) in
          let (at_s, gone) = moved ok in
          (
            (chunks_directory_commit cd e t s).0,
            ap (λ b. ((chunks_directory_commit cd e t s).0, b)) ok,
            at_s,
            gone,
          )
