-- ===== src/Chunks/Commit.antt =====
-- tar/chunks/chunks_directory.c, chunks_directory_commit and chunks_directory_exists, and
-- tar/chunks/chunks_transaction.c: how a new chunk directory takes the place of the old one.
pub mod Moved
pub mod Safe
pub mod Recovery
pub mod Memory
mod Tests
use tarsnap.Base.{
  ℕ, zero, suc, Bool, true, false, Option, none, some, ◌≡◌, ◌≢◌, ◌⊎◌, ◌==◌, if◌then◌else◌,
}

-- The suffixes of the names "directory", "directory.tmp" and "directory.ckpt".
pub data Suffix : Type 0 where
  directory : Suffix
  tmp : Suffix
  ckpt : Suffix

-- What `lstat` finds: ENOENT, another error, or a file with this inode number.
pub data Stat : Type 0 where
  missing : Stat
  unknown : Stat
  found : ℕ → Stat

-- What `link` answers: 0, ENOSYS or EPERM, or another error.
pub data Linked : Type 0 where
  linked : Linked
  unsupported : Linked
  refused : Linked

-- The effects of the system's calls on the names of the cache directory, each of which is the name of a
-- file, by its inode number, or of none. What a crash of the system leaves of a name is among what `survives`.
module _ {D : Type 0} (file : D → Suffix → Option ℕ)
    (survives : D → Suffix → Option ℕ → Type 0) where
  pub record Same (d d' : D) : Type 0 where
    pub files : (m : Suffix) → file d' m ≡ file d m
    pub survivors : (m : Suffix) (x : Option ℕ) → survives d' m x → survives d m x

  pub record Writes (d : D) (n : Suffix) (v : Option ℕ) (d' : D) : Type 0 where
    pub written : file d' n ≡ v
    pub others : (m : Suffix) → m ≢ n → file d' m ≡ file d m
    pub survivors :
        (m : Suffix) (x : Option ℕ) → survives d' m x → survives d m x ⊎ ((m ≡ n) × (x ≡ v))

  pub record Moves (d : D) (t s : Suffix) (d' : D) : Type 0 where
    pub moved : file d' s ≡ file d t
    pub gone : file d' t ≡ none
    pub others : (m : Suffix) → m ≢ t → m ≢ s → file d' m ≡ file d m

  pub record Synced (d d' : D) : Type 0 where
    pub files : (m : Suffix) → file d' m ≡ file d m
    pub durable : (m : Suffix) (x : Option ℕ) → survives d' m x → x ≡ file d' m

  abbrev pub StatLaw : D → Suffix → Stat → Type 0
  StatLaw d n missing = file d n ≡ none
  StatLaw d n unknown = Unit
  StatLaw d n (found ino) = file d n ≡ some ino

  abbrev pub UnlinkLaw : D → Suffix → D × Bool → Type 0
  UnlinkLaw d n (d', true) = Writes d n none d'
  UnlinkLaw d n (d', false) = Same d d'

  abbrev pub LinkLaw : D → Suffix → Suffix → D × Linked → Type 0
  LinkLaw d t s (d', linked) = Writes d s (file d t) d'
  LinkLaw d t s (d', unsupported) = Same d d'
  LinkLaw d t s (d', refused) = Same d d'

  -- Of two names of one file POSIX says something else, so the new name is free here.
  abbrev pub RenameLaw : D → Suffix → Suffix → D × Bool → Type 0
  RenameLaw d t s (d', true) = file d s ≡ none → Moves d t s d'
  RenameLaw d t s (d', false) = Same d d'

  abbrev pub SyncLaw : D → D × Bool → Type 0
  SyncLaw d (d', true) = Synced d d'
  SyncLaw d (d', false) = Same d d'

-- The cache directory, with `asprintf` for the path of a name in it.
pub record CacheDir : Type 1 where
  pub D : Type 0
  pub file : D → Suffix → Option ℕ
  pub survives : D → Suffix → Option ℕ → Type 0
  pub asprintf : D → Suffix → Bool
  pub stat : D → Suffix → Stat
  pub lstat : D → Suffix → Stat
  pub unlink : D → Suffix → D × Bool
  pub link : D → Suffix → Suffix → D × Linked
  pub rename : D → Suffix → Suffix → D × Bool
  pub fsyncdir : D → D × Bool
  pub current : (d : D) (n : Suffix) → survives d n (file d n)
  pub stat_law : (d : D) (n : Suffix) → StatLaw file survives d n (stat d n)
  pub lstat_law : (d : D) (n : Suffix) → StatLaw file survives d n (lstat d n)
  pub unlink_law : (d : D) (n : Suffix) → UnlinkLaw file survives d n (unlink d n)
  pub link_law : (d : D) (t s : Suffix) → LinkLaw file survives d t s (link d t s)
  pub rename_law : (d : D) (t s : Suffix) → RenameLaw file survives d t s (rename d t s)
  pub sync_law : (d : D) → SyncLaw file survives d (fsyncdir d)

-- What a failed call leaves is the end; a good one is followed by the rest.
abbrev pub and_then : {D : Type 0} → D × Bool → (D → D × Bool) → D × Bool
and_then (d, true) rest = rest d
and_then (d, false) rest = (d, false)

module _ (cd : CacheDir) where
  open cd use {D, lstat, unlink, link, rename, fsyncdir, asprintf}

  abbrev pub of_stat : Stat → Option Bool
  of_stat missing = some false
  of_stat unknown = none
  of_stat (found ino) = some true

  -- 1, 0, and `none` for -1.
  unfoldable pub chunks_directory_exists : D → Option Bool
  chunks_directory_exists d = if asprintf d directory then of_stat (cd.stat d directory) else none

  -- From the label `linkdone` on.
  unfoldable pub linkdone : D → Suffix → D × Bool
  linkdone d t = and_then (fsyncdir d) (λ d1. and_then (unlink d1 t) fsyncdir)

  unfoldable pub after_link : Suffix → Suffix → D × Linked → D × Bool
  after_link t s (d, linked) = linkdone d t
  after_link t s (d, unsupported) = and_then (rename d t s) fsyncdir
  after_link t s (d, refused) = (d, false)

  unfoldable pub make_link : D → Suffix → Suffix → D × Bool
  make_link d t s = after_link t s (link d t s)

  -- `ino` is that of the file to move.
  unfoldable pub replace : D → Suffix → Suffix → ℕ → Stat → D × Bool
  replace d t s ino missing = make_link d t s
  replace d t s ino unknown = (d, false)
  replace d t s ino (found ino_s) =
      if ino_s == ino then linkdone d t else and_then (unlink d s) (λ d1. make_link d1 t s)

  unfoldable pub move : D → Suffix → Suffix → Stat → D × Bool
  move d t s missing = (d, true)
  move d t s unknown = (d, false)
  move d t s (found ino) = replace d t s ino (lstat d s)

  unfoldable pub chunks_directory_commit : D → Suffix → Suffix → D × Bool
  chunks_directory_commit d osuff nsuff =
      if asprintf d nsuff
      then if asprintf d osuff then move d osuff nsuff (lstat d osuff) else (d, false)
      else (d, false)

  unfoldable pub chunks_transaction_checkpoint : D → D × Bool
  chunks_transaction_checkpoint d = chunks_directory_commit d ckpt tmp

  unfoldable pub chunks_transaction_commit : D → D × Bool
  chunks_transaction_commit d = chunks_directory_commit d tmp directory
