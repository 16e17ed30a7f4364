-- ===== src/Directory/Search.antt =====
-- lock/lock.c: `find_lock_directory`.
use waitlock.Base.{
  ℕ, Bool, true, false, List, [], ◌∷◌, ◌++◌, codes, Option, none, some, if◌then◌else◌,
}
use waitlock.Text.{Str, truncate}

-- `access(path, W_OK)`: 0, or -1 with `errno` ENOENT or another.
pub data Access : Type 0 where
  writable missing denied : Access

-- What the file system answers while the directory is looked for: `access`, and whether `mkdir`
-- succeeds.
pub record Paths : Type 0 where
  pub access : Str → Access
  pub mkdir : Str → Bool

-- One candidate: writable as it is, or missing and made.
unfoldable pub usable : Paths → Str → Bool
usable p path = elim (p.access path) [
  | Access.writable ↦ true
  | Access.missing ↦ p.mkdir path
  | Access.denied ↦ false
]

-- The loop over the standard locations.
unfoldable pub first_usable : Paths → List Str → Option Str
first_usable p [] = none
first_usable p (c ∷ cs) = if usable p c then some c else first_usable p cs

abbrev pub candidates : List Str
candidates =
    codes "/var/run/waitlock"
    ∷ codes "/run/waitlock"
    ∷ codes "/var/lock/waitlock"
    ∷ codes "/tmp/waitlock"
    ∷ []

abbrev pub path_max : ℕ
path_max = 4096

abbrev pub home_directory : Option Str → List Str
home_directory none = []
home_directory (some home) = truncate path_max (home ++ codes "/.waitlock") ∷ []

abbrev pub or_next : Option Str → Option Str → Option Str
or_next (some c) next = some c
or_next none next = next

-- `find_lock_directory`, with `opts.lock_dir` and `getenv("HOME")`.
unfoldable pub find_lock_directory : Paths → Option Str → Option Str → Option Str
find_lock_directory p (some lock_dir) home = if usable p lock_dir then some lock_dir else none
find_lock_directory p none home =
    or_next (first_usable p candidates)
      (or_next (first_usable p (home_directory home)) (first_usable p (codes "./waitlock" ∷ [])))
