-- ===== src/Debugging.antt =====
-- debugging/debug_semaphore_exec_standalone.c: its tests of many holders, as the lines in which the
-- parent tells a result. Headings, the listings of the directory and what the children print are left
-- out. What the system answers is an argument.
pub mod Reports
pub mod Commands
pub mod Contention
pub mod Refused
pub mod Exclusive
use waitlock.Base.{
  ℕ, suc, ◌+◌, Bool, false, List, [], ◌∷◌, ◌++◌, codes, Option, none, some, ◌==◌, ltb,
  if◌then◌else◌,
}
use waitlock.Base.Int.{ℤ, pos, minus_one}
use waitlock.Directory.{Dir}
use waitlock.Globals.{GlobalState, e_success}
use waitlock.Lock.Acquire.{Round, Outcome, returned, waiting, acquire_lock}
use waitlock.Lock.Check.{check_lock}
use waitlock.Lock.Claim.{Host}
use waitlock.Lock.Release.{release_lock}
use waitlock.Process.{Probe}
use waitlock.Text.{Str, c_string, contains, truncate}
use waitlock.Text.Decimal.{print_nat, print_int}
use waitlock.Debugging.Reports.{Contest, semaphore, mutex, two_seconds, Child, reply_of}

-- `bytes_read > 0` and `strstr(child_results[i], ...)`
unfoldable pub is_success : Contest → Option Str → Bool
is_success k none = false
is_success k (some []) = false
is_success k (some (c ∷ bytes)) = contains k.won (c_string (c ∷ bytes))

unfoldable pub successes : Contest → List (Option Str) → ℕ
successes k [] = 0
successes k (r ∷ rs) = if is_success k r then suc (successes k rs) else successes k rs

unfoldable pub verdict : Contest → ℕ → List Str
verdict k n =
    if n == k.max_holders
    then k.passed
    else if ltb k.max_holders n
    then k.exceeded n
    else k.fewer n ∷ []

-- The lines on the children, from number `i`.
unfoldable pub result_lines : ℕ → List (Option Str) → List Str
result_lines i [] = []
result_lines i (none ∷ rs) =
    (codes "[Parent] Child " ++ (print_nat i ++ codes " timed out or error"))
    ∷ result_lines (suc i) rs
result_lines i (some [] ∷ rs) = result_lines (suc i) rs
result_lines i (some (c ∷ bytes) ∷ rs) =
    (codes "[Parent] Child " ++ (print_nat i ++ (codes " result: " ++ c_string (c ∷ bytes))))
    ∷ result_lines (suc i) rs

unfoldable pub exit_lines : ℕ → List ℤ → List Str
exit_lines i [] = []
exit_lines i (status ∷ rest) =
    (codes "[Parent] Child " ++ (print_nat i ++ (codes " exited with status " ++ print_int status)))
    ∷ exit_lines (suc i) rest

-- The error of the first call that failed, from number `i`.
unfoldable pub first_error : Str → ℕ → List (Option Str) → Option Str
first_error text i [] = none
first_error text i (none ∷ rest) = first_error text (suc i) rest
first_error text i (some error ∷ rest) = some (text ++ (print_nat i ++ (codes ": " ++ error)))

-- What the system answers to the parent: the errors of `pipe` and `fork`, the exit codes of the
-- children, what they have done to the directory when the parent releases its lock and when it looks
-- again, and the answers to `check_lock`.
pub record Parent : Type 0 where
  pub lock_dir : Str
  pub mkdir_error : Option Str
  pub host : Host
  pub start : ℕ
  pub rounds : List Round
  pub pipes : List (Option Str)
  pub forks : List (Option Str)
  pub children : List Child
  pub statuses : List ℤ
  pub during : Dir → Dir
  pub afterwards : Dir → Dir
  pub found : Option Str
  pub opened : Bool
  pub probe : Probe

unfoldable pub replies : Contest → Str → List Child → List (Option Str)
replies k lock_dir [] = []
replies k lock_dir (c ∷ cs) = reply_of k lock_dir c ∷ replies k lock_dir cs

-- "Final cleanup verification"
unfoldable pub final_lines : Contest → ℕ → List Str
final_lines k code =
    if code == e_success
    then k.released ∷ []
    else (k.not_released ++ (print_nat code ++ codes ")")) ∷ []

unfoldable pub count_lines : Contest → ℕ → List Str
count_lines k n =
    (codes "  Parent + Children successful acquisitions: " ++ print_nat n)
    ∷ (codes "  Maximum allowed (max_holders): " ++ print_nat k.max_holders)
    ∷ k.detected (ltb 1 n)

-- From the collection of the results to the end.
unfoldable pub collect : Contest → Parent → Dir → GlobalState → List Str
collect k p dir g =
    let heard = replies k p.lock_dir p.children in
    let entries = p.afterwards (release_lock p.lock_dir (p.during dir) g).0 in
    result_lines k.first_child heard
    ++ (count_lines k (suc (successes k heard))
        ++ (verdict k (suc (successes k heard))
            ++ (exit_lines k.first_child p.statuses
                ++ final_lines k (check_lock p.found p.opened p.probe k.descriptor entries).0)))

-- A call that failed ends the test with its line.
abbrev pub or_line : Option Str → List Str → List Str
or_line none rest = rest
or_line (some line) rest = line ∷ []

-- With the lock: the pipes and the forks, either of which may fail.
unfoldable pub start_children : Contest → Parent → Dir → GlobalState → List Str
start_children k p dir g =
    or_line (first_error (codes "FAIL: Could not create pipe ") 0 p.pipes)
      (or_line (first_error (codes "FAIL: Could not fork child ") 0 p.forks) (collect k p dir g))

unfoldable pub after_acquire : Contest → Parent → Outcome → List Str
after_acquire k p (waiting wait_ms dir) = []
after_acquire k p (returned code dir g) =
    if code == e_success
    then k.got ∷ start_children k p dir g
    else (k.refused ++ (print_nat code ++ codes ")")) ∷ []

abbrev pub mkdir_line : Str → Option Str → Option Str
mkdir_line lock_dir none = none
mkdir_line lock_dir (some error) =
    some (codes "FAIL: Cannot create lock directory " ++ (lock_dir ++ (codes ": " ++ error)))

-- The test in the parent.
unfoldable pub contention_test : Contest → Parent → Dir → GlobalState → List Str
contention_test k p dir g = or_line (mkdir_line p.lock_dir p.mkdir_error) (
    after_acquire k p (
      acquire_lock (some p.lock_dir) p.host k.descriptor k.max_holders two_seconds p.start p.rounds
        dir g))

-- The two tests.
abbrev pub test_semaphore_race_condition_detailed : Parent → Dir → GlobalState → List Str
test_semaphore_race_condition_detailed = contention_test semaphore

abbrev pub test_mutex_race_condition_detailed : Parent → Dir → GlobalState → List Str
test_mutex_race_condition_detailed = contention_test mutex
