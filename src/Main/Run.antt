-- ===== src/Main/Run.antt =====
-- waitlock.c: the lock acquisition of `main` and the wait for a signal after it. The signals come in
-- the order of a list; the process keeps waiting when the list ends.
pub mod Endings
use waitlock.Base.{ℕ, Bool, true, false, List, [], ◌∷◌, Option, none, some, ◌==◌, if◌then◌else◌}
use waitlock.Directory.{Dir}
use waitlock.Globals.{GlobalState, e_success}
use waitlock.Lock.Acquire.{Outcome, returned, waiting}
use waitlock.Lock.Release.{release_lock}
use waitlock.Signals.{Call, signal_handler}
use waitlock.Text.{Str}

-- The program exits with a code, is ended by a signal, waits in `pause`, or is still in
-- `acquire_lock`.
pub data Ending : Type 0 where
  exited : ℕ → Dir → Ending
  killed : ℕ → Dir → Ending
  pausing : Dir → GlobalState → Ending
  acquiring : Dir → Ending

-- The signals that have their default action, which ends the program.
abbrev pub Fatal : Type 0
Fatal = ℕ → Bool

-- After `install_signal_handlers`, as far as the signals that reach `signal_handler` go.
abbrev pub handled : Fatal
handled sig = false

-- The signal by which the calls of a handler end the program, if they do.
unfoldable pub fatal_signal : Fatal → List Call → Option ℕ
fatal_signal fatal [] = none
fatal_signal fatal (Call.kill pid sig ∷ cs) = fatal_signal fatal cs
fatal_signal fatal (Call.close fd ∷ cs) = fatal_signal fatal cs
fatal_signal fatal (Call.restore_default sig ∷ cs) =
    fatal_signal (λ s. if s == sig then true else fatal s) cs
fatal_signal fatal (Call.raise sig ∷ cs) =
    let rest = fatal_signal fatal cs in if fatal sig then some sig else rest

-- `while (!g_state.should_exit) pause();`, and `release_lock` with `return E_SUCCESS` behind it.
unfoldable pub wait_for_signal : Str → List ℕ → Dir → GlobalState → Ending
wait_for_signal lock_dir [] dir g =
    if g.should_exit then exited e_success (release_lock lock_dir dir g).0 else pausing dir g
wait_for_signal lock_dir (sig ∷ sigs) dir g =
    let handler = signal_handler sig g in
    let resumed = wait_for_signal lock_dir sigs dir handler.1 in
    if g.should_exit
    then exited e_success (release_lock lock_dir dir g).0
    else elim (fatal_signal handled handler.0) [ none ↦ resumed | some s ↦ killed s dir ]

-- "Normal lock acquisition", with what `acquire_lock` comes to.
unfoldable pub lock_and_wait : Str → List ℕ → Outcome → Ending
lock_and_wait lock_dir sigs (waiting wait_ms dir) = acquiring dir
lock_and_wait lock_dir sigs (returned code dir g) =
    if code == e_success then wait_for_signal lock_dir sigs dir g else exited code dir
