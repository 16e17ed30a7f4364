-- ===== src/System/Ending.antt =====
-- lock/lock.c: `acquire_lock` and `release_lock` of many processes, each of which may end at any of its
-- calls and leaves its file behind. What the processes of the system answer depends on which have
-- ended. A step is timely if a file that is unlinked as stale is still stale.
pub mod Kept
pub mod Calls
pub mod Exclusion
use waitlock.Base.{ℕ, ◌<◌, ◌≡◌, Bool, true, false, List, ◌∷◌, some, ◌==◌, not, if◌then◌else◌}
use waitlock.Directory.{Dir, lookup}
use waitlock.Lock.{Holder, holder_of}
use waitlock.LockFile.{File}
use waitlock.LockInfo.{IsValid, lock_magic}
use waitlock.Process.{Probe, process_exists}
use waitlock.System.{Setup, Point, unlinking, Move, put}
use waitlock.Text.{Str}

-- Which processes have ended.
abbrev pub Gone : Type 0
Gone = ℕ → Bool

-- The first `count` processes run; `answers` is what `kill(pid, 0)` answers once some have ended.
pub record World : Type 0 where
  pub count : ℕ
  pub setup : Setup
  pub answers : Gone → Probe

-- The setup with what the system answers now.
abbrev pub now : World → Gone → Setup
now w gone = record w.setup { probe = w.answers gone }

-- The processes' structs are in the range of the C types, and exactly the processes that have not
-- ended exist.
pub record IsWorld (w : World) : Type 0 where
  pub valid : (i : ℕ) → i < w.count → IsValid (w.setup.info i)
  pub marked : (i : ℕ) → i < w.count → (w.setup.info i).magic ≡ lock_magic
  pub exists :
      (i : ℕ) (gone : Gone)
      → i < w.count
      → process_exists (w.answers gone) (w.setup.info i).pid ≡ not (gone i)

pub record State : Type 0 where
  pub dir : Dir
  pub at : ℕ → Point
  pub gone : Gone

-- Where the next call is an `unlink` of a stale file, the file is still stale.
abbrev pub Timely : Setup → Dir → Point → Type 0
Timely u dir (unlinking name names n) =
    (f : File) → lookup name dir ≡ some f → holder_of u.probe f ≡ Holder.stale
Timely u dir _ = Unit {0}

-- A process that runs makes a call, or ends.
pub data Step (w : World) (s : State) : State → Type 0 where
  call :
      (i : ℕ) {dir : Dir} {p : Point}
      → i < w.count
      → s.gone i ≡ false
      → Timely (now w s.gone) s.dir (s.at i)
      → Move (now w s.gone) i s.dir (s.at i) dir p
      → Step w s (record { dir = dir; at = put s.at i p; gone = s.gone })
  quit :
      (i : ℕ)
      → i < w.count
      → s.gone i ≡ false
      → Step w s (record { dir = s.dir; at = s.at; gone = λ j. if i == j then true else s.gone j })

pub data Reach (w : World) (s : State) : State → Type 0 where
  here : Reach w s s
  next : {t v : State} → Reach w s t → Step w t v → Reach w s v

-- All processes before their first pass.
abbrev pub start : Dir → State
start dir = record { dir = dir; at = λ i. Point.idle; gone = λ i. false }
