-- ===== src/Process/Exec.antt =====
-- process/process.c: `exec_with_lock`. What the child does is a list of events of `waitpid`; messages
-- to syslog are left out.
pub mod Ending
pub mod Slot
use waitlock.Base.{
  ℕ, ◌+◌, ltb, Bool, true, false, List, [], ◌∷◌, ◌++◌, codes, Option, none, some, ◌==◌,
  if◌then◌else◌,
}
use waitlock.Base.Int.{ℤ, pos}
use waitlock.Directory.{Dir}
use waitlock.Globals.{GlobalState, e_success, e_system, e_exec, e_notfound}
use waitlock.Lock.Acquire.{Outcome, returned, waiting}
use waitlock.Lock.Release.{release_lock}
use waitlock.Process.{Probe, KillResult}
use waitlock.Signals.{signal_handler}
use waitlock.Text.{Str, after_first}
use waitlock.Text.Decimal.{atoi, print_int}

-- What `waitpid` answers in the end: `WIFEXITED`, `WIFSIGNALED`, another status, or an error.
pub data Ended : Type 0 where
  exited signalled : ℕ → Ended
  abnormal wait_failed : Ended

-- The calls of `waitpid`: each is interrupted by a signal, with what `kill(pid, 0)` answers then and
-- a second later, until one returns.
pub data ChildWait : Type 0 where
  ends : Ended → ChildWait
  interrupted : ℕ → Probe → Probe → ChildWait → ChildWait

-- What is sent to the child.
pub data Sent : Type 0 where
  terminate kill : ℤ → Sent

abbrev is_there : KillResult → Bool
is_there KillResult.delivered = true
is_there KillResult.eperm = false
is_there KillResult.esrch = false
is_there KillResult.einval = false

-- "If we received a signal and should exit, try to terminate child cleanly"
unfoldable pub stop_child : Probe → Probe → ℤ → GlobalState → List Sent
stop_child before after pid g =
    if g.should_exit
    then (if is_there (before pid)
        then Sent.terminate pid ∷ (if is_there (after pid) then Sent.kill pid ∷ [] else [])
        else [])
    else []

-- The loop over `waitpid`; the signal that interrupts it has run its handler.
unfoldable pub wait_loop : ChildWait → ℤ → GlobalState → Ended × List Sent × GlobalState
wait_loop (ends e) pid g = (e, [], g)
wait_loop (interrupted sig before after w) pid g =
    let handled = (signal_handler sig g).1 in
    let rest = wait_loop w pid handled in
    (rest.0, stop_child before after pid handled ++ rest.1, rest.2)

unfoldable pub exit_code : Ended → ℕ
exit_code (Ended.exited status) = status
exit_code (Ended.signalled sig) = 128 + sig
exit_code Ended.abnormal = e_system
exit_code Ended.wait_failed = e_system

-- The end of a call: its code, what was sent, the entries and the state.
pub record Finished : Type 0 where
  pub code : ℕ
  pub sent : List Sent
  pub entries : Dir
  pub state : GlobalState

unfoldable pub finish : Str → ℕ → List Sent → Dir → GlobalState → Finished
finish lock_dir code sent dir g =
    let r = release_lock lock_dir dir g in
    record { code = code; sent = sent; entries = r.0; state = r.1 }

-- The parent behind a `fork` that gave `pid`; others act on the directory while the child runs.
unfoldable pub exec_parent : Str → (Dir → Dir) → ℤ → ChildWait → Dir → GlobalState → Finished
exec_parent lock_dir others pid w dir g =
    let r = wait_loop w pid (record g { child_pid = pid }) in
    finish lock_dir (exit_code r.0) r.1 (others dir) (record r.2 { child_pid = pos 0 })

-- A `fork` that fails is `none`.
unfoldable pub exec_fork : Str → (Dir → Dir) → Option ℤ → ChildWait → Dir → GlobalState → Finished
exec_fork lock_dir others none w dir g = finish lock_dir e_system [] dir g
exec_fork lock_dir others (some pid) w dir g = exec_parent lock_dir others pid w dir g

-- `exec_with_lock` in the parent, from how `acquire_lock` ended; if that still waits, so does this.
unfoldable pub exec_with_lock : Str → (Dir → Dir) → Option ℤ → ChildWait → Outcome → Option Finished
exec_with_lock lock_dir others fork w (waiting wait_ms dir) = none
exec_with_lock lock_dir others fork w (returned code dir g) =
    if code == e_success
    then some (exec_fork lock_dir others fork w dir g)
    else some (record { code = code; sent = []; entries = dir; state = g })

-- What the child puts into WAITLOCK_SLOT.
unfoldable pub slot_variable : ℕ → Str → Option Str
slot_variable max_holders lock_path =
    if ltb 1 max_holders
    then elim (after_first (codes ".slot") lock_path) [
      | none ↦ none
      | some rest ↦ some (print_int (atoi rest))
    ]
    else none

-- The code of a child that `execvp` failed in, by whether the command was missing.
unfoldable pub exec_failed : Bool → ℕ
exec_failed missing = if missing then e_notfound else e_exec
