-- ===== src/Debugging/Commands.antt =====
-- debugging/debug_semaphore_exec_standalone.c: its tests of `exec_with_lock`, as the lines in which the
-- parent tells a result, and the two functions that print what there is.
pub mod Timeouts
use waitlock.Base.{
  ℕ, suc, ◌%◌, Bool, true, false, ◌&&◌, not, List, [], ◌∷◌, ◌++◌, codes, Option, none, some, ◌==◌,
  if◌then◌else◌,
}
use waitlock.Base.Int.{ℤ, pos}
use waitlock.Debugging.{or_line, mkdir_line}
use waitlock.Directory.{Dir}
use waitlock.Globals.{GlobalState, e_success, e_timeout}
use waitlock.Lock.Acquire.{Round, acquire_lock}
use waitlock.Lock.Claim.{Host}
use waitlock.Process.{Probe, process_exists}
use waitlock.Process.Exec.{ChildWait, Finished, exec_with_lock}
use waitlock.Text.{Str, contains}
use waitlock.Text.Decimal.{print_nat, print_int}

-- `debug_print_lock_files`, with the error of `opendir`.
abbrev pub is_listed : Str → Str → Bool
is_listed descriptor name = contains descriptor name && contains (codes ".lock") name

unfoldable pub listed : Str → Dir → List Str
listed descriptor [] = []
listed descriptor (e ∷ dir) =
    if is_listed descriptor e.0 then e.0 ∷ listed descriptor dir else listed descriptor dir

unfoldable pub listed_lines : List Str → List Str
listed_lines [] = []
listed_lines (name ∷ names) = (codes "[DEBUG]   " ++ name) ∷ listed_lines names

unfoldable pub count_of : List Str → ℕ
count_of [] = 0
count_of (name ∷ names) = suc (count_of names)

unfoldable pub total_lines : ℕ → List Str
total_lines count =
    let total = codes "[DEBUG] Total lock files: " ++ print_nat count in
    if count == 0 then codes "[DEBUG]   (no lock files found)" ∷ total ∷ [] else total ∷ []

unfoldable pub debug_print_lock_files : Str → Str → Option Str → Dir → List Str
debug_print_lock_files lock_dir descriptor (some error) dir =
    (codes "[DEBUG] Lock files for descriptor '"
      ++ (descriptor ++ (codes "' in " ++ (lock_dir ++ codes ":"))))
    ∷ (codes "[DEBUG] Cannot open lock directory: " ++ error)
    ∷ []
debug_print_lock_files lock_dir descriptor none dir =
    (codes "[DEBUG] Lock files for descriptor '"
      ++ (descriptor ++ (codes "' in " ++ (lock_dir ++ codes ":"))))
    ∷ (listed_lines (listed descriptor dir) ++ total_lines (count_of (listed descriptor dir)))

unfoldable pub debug_print_process_info : Probe → Str → ℤ → Str
debug_print_process_info probe label pid =
    codes "[DEBUG] "
    ++ (label
        ++ (codes " - PID: "
            ++ (print_int pid
                ++ (codes ", exists: "
                    ++ (if process_exists probe pid then codes "YES" else codes "NO")))))

-- A child that calls `exec_with_lock`: `opts.max_holders`, and what the system answers.
pub record Command : Type 0 where
  pub lock_dir : Str
  pub host : Host
  pub max_holders : ℕ
  pub start : ℕ
  pub rounds : List Round
  pub entries : Dir
  pub state : GlobalState
  pub others : Dir → Dir
  pub fork : Option ℤ
  pub child : ChildWait

unfoldable pub exec_command : Str → ℤ → Command → Option Finished
exec_command descriptor timeout c = exec_with_lock c.lock_dir c.others c.fork c.child (
    acquire_lock (some c.lock_dir) c.host descriptor c.max_holders timeout c.start c.rounds
      c.entries c.state)

-- What `waitpid` says: the child has not ended, a signal ended it, or it exited with a code.
pub data Status : Type 0 where
  waits killed : Status
  exited : ℕ → Status

-- A child that `fork` gave or not (`child_pid > 0`), and whether a signal ends it.
pub record Trial : Type 0 where
  pub forked : Bool
  pub killed : Bool
  pub command : Command

-- `exit(result)` as `WEXITSTATUS` gives it.
unfoldable pub status_of : Bool → Option Finished → Status
status_of true f = Status.killed
status_of false none = waits
status_of false (some f) = exited (f.code % 256)

-- The lines on a child, and those behind them.
unfoldable pub followed : (Status → List Str) → List Str → Status → List Str
followed report rest waits = []
followed report rest Status.killed = report Status.killed ++ rest
followed report rest (exited code) = report (exited code) ++ rest

unfoldable pub after_trial : Str → ℤ → Trial → (Status → List Str) → List Str → List Str
after_trial descriptor timeout t report rest =
    if t.forked
    then followed report rest (status_of t.killed (exec_command descriptor timeout t.command))
    else rest

abbrev pub code_line : ℕ → Str
code_line code = codes "[Parent] Child exited with code " ++ print_nat code

-- What the parent prints on the first child.
unfoldable pub reproduced : Status → List Str
reproduced waits = []
reproduced Status.killed = []
reproduced (exited code) =
    code_line code
    ∷ (if code == e_timeout
        then codes "CONFIRMED BUG: exec_with_lock failed due to uninitialized timeout"
          ∷ codes "             This explains integration test 4 failure!"
          ∷ []
        else if code == e_success
        then codes "UNEXPECTED: exec_with_lock succeeded despite uninitialized timeout" ∷ []
        else (codes "DIFFERENT ERROR: exec_with_lock failed with code " ++ print_nat code) ∷ [])

unfoldable pub fixed : Status → List Str
fixed waits = []
fixed Status.killed = []
fixed (exited code) =
    code_line code
    ∷ (if code == e_success
        then codes "PASS: exec_with_lock succeeded with proper timeout"
          ∷ codes "      This confirms the fix for integration test 4!"
          ∷ []
        else (codes "FAIL: exec_with_lock still failed even with proper timeout (code "
            ++ (print_nat code ++ codes ")"))
          ∷ [])

abbrev pub five_seconds : ℤ
five_seconds = pos 5000000

-- The test, with the timeout that `opts` has before it, which the first child keeps.
unfoldable pub test_opts_timeout_integration_bug : Str → Option Str → ℤ → Trial → Trial → List Str
test_opts_timeout_integration_bug lock_dir mkdir_error timeout first second =
    or_line (mkdir_line lock_dir mkdir_error) (
      after_trial (codes "test_opts_timeout_bug") timeout first reproduced
        (after_trial (codes "test_opts_timeout_bug") five_seconds second fixed []))

unfoldable pub simple_exec : Status → List Str
simple_exec waits = []
simple_exec Status.killed = codes "FAIL: Child did not exit normally" ∷ []
simple_exec (exited code) =
    code_line code
    ∷ (if code == e_success
        then codes "PASS: Simple exec succeeded"
        else codes "FAIL: Simple exec failed with exit code " ++ print_nat code)
    ∷ []

-- With the text of the time that has passed, and whether it is less than a second.
unfoldable pub zero_exec : Str → Bool → Status → List Str
zero_exec elapsed quick waits = []
zero_exec elapsed quick Status.killed = codes "FAIL: Child did not exit normally" ∷ []
zero_exec elapsed quick (exited code) =
    (code_line code ++ (codes " after " ++ (elapsed ++ codes "s")))
    ∷ (if not (code == e_success) && quick
        then codes "PASS: timeout=0.0 failed quickly as expected"
        else if code == e_success
        then codes "FAIL: timeout=0.0 should have failed but succeeded"
        else codes "FAIL: timeout=0.0 took too long (" ++ (elapsed ++ codes "s)"))
    ∷ []

unfoldable pub exec_final : ℕ → Str
exec_final code =
    if code == e_success
    then codes "PASS: All exec test locks properly cleaned up"
    else codes "FAIL: Exec test locks not properly cleaned up (check_result="
      ++ (print_nat code ++ codes ")")

-- The test, with the result of `check_lock` at its end.
unfoldable pub test_exec_timeout_detailed :
    Str → Option Str → Trial → Trial → Str → Bool → ℕ → List Str
test_exec_timeout_detailed lock_dir mkdir_error first second elapsed quick final_check =
    or_line (mkdir_line lock_dir mkdir_error) (
      after_trial (codes "test_exec_detailed") five_seconds first simple_exec (
        after_trial (codes "test_exec_detailed") (pos 0) second (zero_exec elapsed quick)
          (exec_final final_check ∷ [])))
