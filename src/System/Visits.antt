-- ===== src/System/Visits.antt =====
-- lock/lock.c: other runs of the program, `check_lock` and `done_lock`, beside the processes that acquire
-- and release. A visitor reads a file of the directory and may find that it has to go; its `unlink` is
-- another call, some time later. Between the read and the last test
-- of the file's process others may act as well, and processes may end. A process whose new file was unlinked writes all the same, and nobody
-- finds what it wrote. The SIGTERM of `done_lock` is a process that ends.
pub mod Exclusion
pub mod Race
use waitlock.Base.{ℕ, ◌<◌, ◌≡◌, Bool, true, false, not, Option, none, some, ◌==◌, if◌then◌else◌}
use waitlock.Base.Int.{ℤ}
use waitlock.Directory.{Dir, lookup, remove, slot_name}
use waitlock.Lock.Check.{check_entry, no_locks}
use waitlock.Lock.Done.{done_entry, nothing_done}
use waitlock.LockFile.{File}
use waitlock.Process.{Probe, KillResult}
use waitlock.System.{created, holding, put}
use waitlock.System.Ending as Ending
use waitlock.System.Ending.{World, Gone}
use waitlock.Text.{Str}

-- A run of `check_lock`, or one of `done_lock` with what `kill` answers to its SIGTERM.
pub data Visitor : Type 0 where
  checker : Visitor
  ender : (ℤ → KillResult) → Visitor

-- Whether a visitor to a descriptor unlinks the file of an entry, by what `kill` answers to its first
-- test of the process and to its last.
unfoldable pub condemns : Visitor → Probe → Probe → Str → Str × File → Bool
condemns checker before after d e = not (check_entry before d e no_locks).1
condemns (ender terminate) before after d e =
    not
      (done_entry (record { before = before; terminate = terminate; after = after }) d e
        nothing_done).1

-- The processes, and the file that each visitor has read, and is about to unlink.
pub record State : Type 0 where
  pub processes : Ending.State
  pub read : ℕ → Option (Str × File)
  pub doomed : ℕ → Option (Str × File)

abbrev pub note : (ℕ → Option (Str × File)) → ℕ → Option (Str × File) → ℕ → Option (Str × File)
note f k o j = if k == j then o else f j

-- Whoever had ended before has ended now.
abbrev pub IsEarlier : Gone → Gone → Type 0
IsEarlier before now = (i : ℕ) → before i ≡ true → now i ≡ true

-- The steps, where a visitor's `unlink` comes when `Allowed` says so of the directory, the name and
-- the file that was read. A visitor judges a file by tests of which the last is made now.
pub data Step (w : World) (Allowed : Dir → Str → File → Type 0) (s : State) : State → Type 0 where
  process :
      {t : Ending.State}
      → Ending.Step w s.processes t
      → Step w Allowed s (record s { processes = t })
  lost_write :
      (i x : ℕ)
      → i < w.count
      → s.processes.gone i ≡ false
      → s.processes.at i ≡ created x
      → lookup (slot_name w.setup.descriptor x) s.processes.dir ≡ none
      → Step w Allowed s
          (record s { processes = record s.processes { at = put s.processes.at i (holding x) } })
  reads :
      (k : ℕ) (name : Str) (file : File)
      → lookup name s.processes.dir ≡ some file
      → Step w Allowed s (record s { read = note s.read k (some (name, file)) })
  judges :
      (k : ℕ) (v : Visitor) (d name : Str) (file : File) (before : Gone)
      → s.read k ≡ some (name, file)
      → IsEarlier before s.processes.gone
      → condemns v (w.answers before) (w.answers s.processes.gone) d (name, file) ≡ true
      → Step w Allowed s (record s { doomed = note s.doomed k (some (name, file)) })
  unlinks :
      (k : ℕ) (name : Str) (file : File)
      → s.doomed k ≡ some (name, file)
      → Allowed s.processes.dir name file
      → Step w Allowed s (record s {
        processes = record s.processes { dir = remove name s.processes.dir };
        doomed = note s.doomed k none;
      })

pub data Reach (w : World) (Allowed : Dir → Str → File → Type 0) (s : State) : State → Type 0 where
  here : Reach w Allowed s s
  next : {t v : State} → Reach w Allowed s t → Step w Allowed t v → Reach w Allowed s v

-- All processes before their first pass, and no visitor.
abbrev pub start : Dir → State
start dir = record { processes = Ending.start dir; read = λ k. none; doomed = λ k. none }

-- The file that was read is still there, or none.
abbrev pub IsUnchanged : Dir → Str → File → Type 0
IsUnchanged dir name file = (f : File) → lookup name dir ≡ some f → f ≡ file
