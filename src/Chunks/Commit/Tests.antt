-- ===== src/Chunks/Commit/Tests.antt =====
-- The theorems on the commit applied to a cache directory in memory.
use tarsnap.Base.{ℕ, true, Option, none, some, [], ◌≡◌, ◌≢◌, refl, inl, inr}
use tarsnap.Chunks.Commit.{
  Suffix, directory, tmp, ckpt, unknown, linkdone, after_link, make_link, replace, move,
  chunks_directory_commit, chunks_transaction_checkpoint, chunks_transaction_commit,
  chunks_directory_exists,
}
use tarsnap.Chunks.Commit.Moved.{
  Ends, chunks_directory_commit-Ends, checkpoint-commit, tmp_ne_directory,
}
use tarsnap.Chunks.Commit.Safe.{Only, IsSafe}
use tarsnap.Chunks.Commit.Recovery.{
  Crash, Reaches, here, commit, crash, Reaches-IsSafe, chunks_directory_commit-recovers,
}
use tarsnap.Chunks.Commit.Memory.{
  Cell, Disk, SurvivesAt, file_at, Up, memory, memory-Works, hard_links,
}

-- An old directory, file 3, and a new one, file 7.
abbrev durable : Option ℕ → Cell
durable v = record { now = v; past = [] }

abbrev cells_of : Option ℕ → Option ℕ → Option ℕ → Suffix → Cell
cells_of a b c directory = durable a
cells_of a b c tmp = durable b
cells_of a b c ckpt = durable c

abbrev d0 : Disk
d0 = record { cells = cells_of (some 3) (some 7) none; left = some 2 }

-- The commit removes the old directory and links the new one, and is cut short before it is durable.
abbrev d1 : Disk
d1 = (chunks_directory_commit memory d0 tmp directory).0

-- The system crashes: the old directory is gone, the link is not there.
abbrev d2 : Disk
d2 = record { cells = cells_of none (some 7) none; left = none }

d1-Crash : Crash memory tmp directory tmp_ne_directory d1 d2
unfolding chunks_directory_commit move replace make_link after_link linkdone
d1-Crash = record { left = λ n. left_lem n; durable = λ n x h. durable_lem n x h }
  where
    left_lem : (n : Suffix) → SurvivesAt d1 n (file_at d2 n)
    left_lem directory = inr (inl refl)
    left_lem tmp = inl refl
    left_lem ckpt = inl refl

    durable_lem : (n : Suffix) (x : Option ℕ) → SurvivesAt d2 n x → x ≡ file_at d2 n
    durable_lem directory x (inl now) = now
    durable_lem directory x (inr past) = absurd past
    durable_lem tmp x (inl now) = now
    durable_lem tmp x (inr past) = absurd past
    durable_lem ckpt x (inl now) = now
    durable_lem ckpt x (inr past) = absurd past

d0-Only : Only memory d0 tmp (some 7)
d0-Only x (inl now) = now
d0-Only x (inr past) = absurd past

d2-Reaches : Reaches memory tmp directory tmp_ne_directory d0 d2
d2-Reaches = crash (commit here) d1-Crash

chunks_directory_commit-recovers_example :
    (k : Disk) × (chunks_directory_commit memory d2 tmp directory ≡ (k, true))
    × (file_at k directory ≡ some 7)
    × (file_at k tmp ≡ none)
chunks_directory_commit-recovers_example =
    chunks_directory_commit-recovers memory tmp directory tmp_ne_directory 7 hard_links Up
      memory-Works d0 d2 d0-Only d2-Reaches refl

Reaches-IsSafe_example : IsSafe memory tmp directory 7 d2
Reaches-IsSafe_example =
    Reaches-IsSafe memory tmp directory tmp_ne_directory 7 hard_links d0 d2 d0-Only d2-Reaches

chunks_directory_commit-Ends_example :
    Ends memory tmp directory tmp_ne_directory 7 d0
      (chunks_directory_commit memory d0 tmp directory)
chunks_directory_commit-Ends_example =
    chunks_directory_commit-Ends memory tmp directory tmp_ne_directory 7 d0 refl

abbrev c0 : Disk
c0 = record { cells = cells_of (some 3) none (some 9); left = none }

abbrev c1 : Disk
c1 = (chunks_transaction_checkpoint memory c0).0

abbrev c2 : Disk
c2 = (chunks_transaction_commit memory c1).0

checkpoints : chunks_transaction_checkpoint memory c0 ≡ (c1, true)
unfolding chunks_transaction_checkpoint chunks_directory_commit move replace make_link after_link
    linkdone
checkpoints = refl

commits : chunks_transaction_commit memory c1 ≡ (c2, true)
unfolding chunks_transaction_checkpoint chunks_transaction_commit chunks_directory_commit move
    replace make_link after_link linkdone
commits = refl

checkpoint-commit_example :
    (file_at c2 directory ≡ some 9)
    × (file_at c2 tmp ≡ none)
    × (file_at c2 ckpt ≡ none)
    × (memory.asprintf c2 directory ≡ true
        → memory.stat c2 directory ≢ unknown
        → chunks_directory_exists memory c2 ≡ some true)
checkpoint-commit_example = checkpoint-commit memory c0 c1 c2 9 refl checkpoints commits
