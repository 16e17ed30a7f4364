-- ===== src/Main/Program.antt =====
-- waitlock.c: `main` as a whole, with what the system answers to each part of it.
pub mod Stays
pub mod Keeps
pub mod Descriptor
use waitlock.Args.{Environment, Settings, Parsed, usage, quits, parsed}
use waitlock.Args.Options.{parse_args}
use waitlock.Base.{ℕ, Bool, List, [], Option, none, some}
use waitlock.Base.Int.{ℤ, pos_part}
use waitlock.Directory.{Dir}
use waitlock.Directory.Search.{Paths, find_lock_directory}
use waitlock.Globals.{GlobalState, e_success, e_usage}
use waitlock.Lock.Acquire.{Round, Outcome, returned, waiting, acquire_lock}
use waitlock.Lock.Check.{check_lock}
use waitlock.Lock.Claim.{Host}
use waitlock.Lock.Done.{Signals, done_lock}
use waitlock.Lock.Listing.{Names, list_locks}
use waitlock.Main.{Mode, mode_of, initial_settings, with_debug}
use waitlock.Main.Run.{Ending, exited, acquiring, lock_and_wait}
use waitlock.Process.{Probe}
use waitlock.Process.Exec.{ChildWait, Finished, exec_with_lock}
use waitlock.Text.{Str}

-- Everything that the program gets from outside.
pub record Outside : Type 0 where
  pub debug : Option Str  -- WAITLOCK_DEBUG
  pub environment : Environment
  pub paths : Paths
  pub home : Option Str  -- HOME
  pub host : Host
  pub start : ℕ  -- the clock before the first pass
  pub rounds : List Round  -- the passes of `acquire_lock`
  pub opened : Bool  -- `opendir` in the other modes
  pub probe : Probe
  pub signals : Signals  -- of `done_lock`
  pub names : Names
  pub caught : List ℕ  -- the signals that come while the lock is held
  pub forked : Option ℤ
  pub child : ChildWait
  pub others : Dir → Dir  -- what happens to the directory while the command runs
  pub unit_tests : Dir → ℕ × Dir  -- `run_unit_tests`

-- How `main` ends, where the descriptor may be a null pointer.
pub data Ended : Type 0 where
  ended : Ending → Ended
  null_descriptor : Ended

abbrev pub with_descriptor : (Str → Ending) → Option Str → Ended
with_descriptor f none = null_descriptor
with_descriptor f (some d) = ended (f d)

-- The lock directory as `opts` and the environment have it.
abbrev pub directory : Outside → Settings → Option Str
directory o s = find_lock_directory o.paths s.lock_dir o.home

-- The call of `acquire_lock`.
unfoldable pub acquire : Outside → Settings → Str → Dir → Outcome
acquire o s d dir =
    acquire_lock (directory o s) o.host d (pos_part s.max_holders) s.timeout o.start o.rounds dir
      s.globals

-- The directory that paths of lock files are in; without one there is no lock.
abbrev pub path_of : Option Str → Str
path_of none = []
path_of (some lock_dir) = lock_dir

abbrev pub after_exec : Outcome → Option Finished → Ending
after_exec outcome (some f) = exited f.code f.entries
after_exec (waiting wait_ms dir) none = acquiring dir
after_exec (returned code dir g) none = exited code dir

-- "Handle different modes"
unfoldable pub run_mode : Outside → Settings → Dir → Mode → Ended
run_mode o s dir Mode.tests = let r = o.unit_tests dir in ended (exited r.0 r.1)
run_mode o s dir Mode.listing = ended (
    exited
      (list_locks (directory o s) o.opened o.probe o.names s.globals.quiet s.output_format
        s.show_all s.stale_only dir).0
      dir)
run_mode o s dir Mode.checking =
    with_descriptor
      (λ d. let r = check_lock (directory o s) o.opened o.probe d dir in exited r.0 r.1)
      s.descriptor
run_mode o s dir Mode.ending =
    with_descriptor
      (λ d. let r = done_lock (directory o s) o.opened o.signals d dir in exited r.0 r.2)
      s.descriptor
run_mode o s dir Mode.executing =
    with_descriptor
      (λ d.
        after_exec (acquire o s d dir)
          (exec_with_lock (path_of (directory o s)) o.others o.forked o.child (acquire o s d dir)))
      s.descriptor
run_mode o s dir Mode.locking =
    with_descriptor (λ d. lock_and_wait (path_of (directory o s)) o.caught (acquire o s d dir))
      s.descriptor

unfoldable pub after_parse : Outside → Dir → Parsed → Ended
after_parse o dir usage = ended (exited e_usage dir)
after_parse o dir quits = ended (exited e_success dir)
after_parse o dir (parsed s) = run_mode o s dir (mode_of s)

-- `main`, over the lock directory, from the initial `g_state`.
unfoldable pub main : Outside → List Str → Dir → GlobalState → Ended
main o args dir g =
    after_parse o dir (parse_args o.environment args (initial_settings (with_debug o.debug g)))
