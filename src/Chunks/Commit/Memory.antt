-- ===== src/Chunks/Commit/Memory.antt =====
-- A cache directory in memory, whose system works for ever or for a number of calls.
use tarsnap.Base.{
  ℕ, zero, suc, Bool, true, false, Option, none, some, List, [], ◌∷◌, ◌≡◌, ◌≢◌, refl, ap, ◌⊎◌, inl,
  inr, ◌==◌, if◌then◌else◌, arith, Bool-cases,
}
use tarsnap.Chunks.Commit.{
  Suffix, directory, tmp, ckpt, Stat, missing, unknown, found, Linked, linked, unsupported, refused,
  Same, Writes, StatLaw, UnlinkLaw, LinkLaw, SyncLaw, CacheDir,
}
use tarsnap.Chunks.Commit.Moved.{tmp_ne_directory}
use tarsnap.Chunks.Commit.Recovery.{Works}

abbrev pub number : Suffix → ℕ
number directory = 0
number tmp = 1
number ckpt = 2

number_inj : (m n : Suffix) → number m ≡ number n → m ≡ n
number_inj directory directory h = refl
number_inj tmp tmp h = refl
number_inj ckpt ckpt h = refl
number_inj directory tmp h = absurd (omega (arith, h))
number_inj directory ckpt h = absurd (omega (arith, h))
number_inj tmp directory h = absurd (omega (arith, h))
number_inj tmp ckpt h = absurd (omega (arith, h))
number_inj ckpt directory h = absurd (omega (arith, h))
number_inj ckpt tmp h = absurd (omega (arith, h))

-- A name: what it is the name of, and what it was since it was last durable.
pub record Cell : Type 0 where
  pub now : Option ℕ
  pub past : List (Option ℕ)

abbrev pub Past : Option ℕ → List (Option ℕ) → Type 0
Past x [] = ⊥
Past x (y ∷ ys) = (x ≡ y) ⊎ Past x ys

-- `left` is how many more calls change the disk before all calls fail, `none` for no end.
pub record Disk : Type 0 where
  pub cells : Suffix → Cell
  pub left : Option ℕ

abbrev pub up : Option ℕ → Bool
up none = true
up (some zero) = false
up (some (suc n)) = true

abbrev pub spend : Option ℕ → Option ℕ
spend none = none
spend (some zero) = some zero
spend (some (suc n)) = some n

abbrev pub file_at : Disk → Suffix → Option ℕ
file_at d n = (d.cells n).now

abbrev pub SurvivesAt : Disk → Suffix → Option ℕ → Type 0
SurvivesAt d n x = (x ≡ (d.cells n).now) ⊎ Past x (d.cells n).past

abbrev pub put : Disk → Suffix → Option ℕ → Disk
put d n v = record {
  cells = λ m.
      if number m == number n
      then record { now = v; past = (d.cells m).now ∷ (d.cells m).past }
      else d.cells m;
  left = spend d.left;
}

abbrev pub look : Bool → Option ℕ → Stat
look false x = unknown
look true none = missing
look true (some i) = found i

abbrev pub unlink_up : Disk → Suffix → Bool → Option ℕ → Disk × Bool
unlink_up d n false x = (d, false)
unlink_up d n true none = (d, false)
unlink_up d n true (some i) = (put d n none, true)

abbrev pub link_up : Disk → Suffix → Bool → Option ℕ → Option ℕ → Disk × Linked
link_up d s false x y = (d, refused)
link_up d s true none y = (d, refused)
link_up d s true (some i) none = (put d s (some i), linked)
link_up d s true (some i) (some j) = (d, refused)

abbrev pub sync_up : Disk → Bool → Disk × Bool
sync_up d false = (d, false)
sync_up d true =
    (record { cells = λ n. record { now = (d.cells n).now; past = [] }; left = spend d.left }, true)

pub same : (d : Disk) → Same file_at SurvivesAt d d
same d = record { files = λ m. refl; survivors = λ m x h. h }

put-Writes : (d : Disk) (n : Suffix) (v : Option ℕ) → Writes file_at SurvivesAt d n v (put d n v)
put-Writes d n v = record {
  written = let hit : (number n == number n) ≡ true = ground arith in rw (hit, file_at) refl;
  others = λ m other. elim (Bool-cases (number m == number n)) [
    | inl hit ↦
        let eq : number m ≡ number n = ground (arith, hit) in absurd (other (number_inj m n eq))
    | inr miss ↦ rw (miss, file_at) refl
  ];
  survivors = λ m x h. elim (Bool-cases (number m == number n)) [
    | inl hit ↦
        let eq : number m ≡ number n = ground (arith, hit) in
        elim (rw hit at h) [ inl is_v ↦ inr (number_inj m n eq, is_v) | inr before ↦ inl before ]
    | inr miss ↦ inl (rw miss at h)
  ];
}

pub look_law :
    (d : Disk) (n : Suffix) (b : Bool) (x : Option ℕ)
    → file_at d n ≡ x
    → StatLaw file_at SurvivesAt d n (look b x)
look_law d n false x h = tt
look_law d n true none h = h
look_law d n true (some i) h = h

pub unlink_law :
    (d : Disk) (n : Suffix) (b : Bool) (x : Option ℕ)
    → UnlinkLaw file_at SurvivesAt d n (unlink_up d n b x)
unlink_law d n false x = same d
unlink_law d n true none = same d
unlink_law d n true (some i) = put-Writes d n none

pub link_law :
    (d : Disk) (t s : Suffix) (b : Bool) (x y : Option ℕ)
    → file_at d t ≡ x
    → LinkLaw file_at SurvivesAt d t s (link_up d s b x y)
link_law d t s false x y h = same d
link_law d t s true none y h = same d
link_law d t s true (some i) none h = rw h (put-Writes d s (some i))
link_law d t s true (some i) (some j) h = same d

pub sync_law : (d : Disk) (b : Bool) → SyncLaw file_at SurvivesAt d (sync_up d b)
sync_law d false = same d
sync_law d true = record {
  files = λ m. refl;
  durable = λ m x h. elim h [ inl now ↦ now | inr past ↦ absurd past ];
}

abbrev pub memory : CacheDir
memory = record {
  D = Disk;
  file = file_at;
  survives = SurvivesAt;
  asprintf = λ d n. up d.left;
  stat = λ d n. look (up d.left) (file_at d n);
  lstat = λ d n. look (up d.left) (file_at d n);
  unlink = λ d n. unlink_up d n (up d.left) (file_at d n);
  link = λ d t s. link_up d s (up d.left) (file_at d t) (file_at d s);
  rename = λ d t s. (d, false);
  fsyncdir = λ d. sync_up d (up d.left);
  current = λ d n. inl refl;
  stat_law = λ d n. look_law d n (up d.left) (file_at d n) refl;
  lstat_law = λ d n. look_law d n (up d.left) (file_at d n) refl;
  unlink_law = λ d n. unlink_law d n (up d.left) (file_at d n);
  link_law = λ d t s. link_law d t s (up d.left) (file_at d t) (file_at d s) refl;
  rename_law = λ d t s. same d;
  sync_law = λ d. sync_law d (up d.left);
}

abbrev pub Up : Disk → Type 0
Up d = d.left ≡ none

Up-put : (d : Disk) (n : Suffix) (v : Option ℕ) → Up d → Up (put d n v)
Up-put d n v h = ap spend h

up-true : (d : Disk) → Up d → up d.left ≡ true
up-true d h = ap up h

look_known : (b : Bool) (x : Option ℕ) → b ≡ true → look b x ≢ unknown
look_known false x ok h = absurd (cc)
look_known true none ok h = absurd (cc)
look_known true (some i) ok h = absurd (cc)

unlink_works :
    (d : Disk) (n : Suffix) (b : Bool) (x : Option ℕ)
    → Up d
    → b ≡ true
    → x ≢ none
    → ((unlink_up d n b x).1 ≡ true) × Up (unlink_up d n b x).0
unlink_works d n false x h ok there = absurd (cc)
unlink_works d n true none h ok there = absurd (there refl)
unlink_works d n true (some i) h ok there = (refl, Up-put d n none h)

link_works :
    (d : Disk) (s : Suffix) (b : Bool) (x y : Option ℕ)
    → Up d
    → b ≡ true
    → x ≢ none
    → y ≡ none
    → ((link_up d s b x y).1 ≡ linked) × Up (link_up d s b x y).0
link_works d s false x y h ok there free = absurd (cc)
link_works d s true none y h ok there free = absurd (there refl)
link_works d s true (some i) none h ok there free = (refl, Up-put d s (some i) h)
link_works d s true (some i) (some j) h ok there free = absurd (cc)

sync_works : (d : Disk) (b : Bool) → Up d → b ≡ true → ((sync_up d b).1 ≡ true) × Up (sync_up d b).0
sync_works d false h ok = absurd (cc)
sync_works d true h ok = (refl, ap spend h)

pub memory-Works : Works memory tmp directory tmp_ne_directory Up
memory-Works = record {
  named = λ d n h. up-true d h;
  looks = λ d n h. look_known (up d.left) (file_at d n) (up-true d h);
  unlinks = λ d n h there. unlink_works d n (up d.left) (file_at d n) h (up-true d h) there;
  links = λ d h there free.
      link_works d directory (up d.left) (file_at d tmp) (file_at d directory) h (up-true d h) there
        free;
  syncs = λ d h. sync_works d (up d.left) h (up-true d h);
}

link_hard :
    (d : Disk) (s : Suffix) (b : Bool) (x y : Option ℕ) (e : Disk)
    → link_up d s b x y ≢ (e, unsupported)
link_hard d s false x y e h = absurd (cc)
link_hard d s true none y e h = absurd (cc)
link_hard d s true (some i) none e h = absurd (cc)
link_hard d s true (some i) (some j) e h = absurd (cc)

pub hard_links : (d e : Disk) → memory.link d tmp directory ≢ (e, unsupported)
hard_links d e = link_hard d directory (up d.left) (file_at d tmp) (file_at d directory) e
