-- ===== src/Debugging/Commands/Timeouts.antt =====
-- What the tests of timeouts find.
use waitlock.Base.{
  ℕ, ◌%◌, ◌<◌, ◌≤◌, ◌≡◌, refl, ap, ◌∙◌, Bool, true, false, List, [], ◌∷◌, ◌++◌, none, some, codes,
  arith,
}
use waitlock.Base.Int.{ℤ, pos, is_pos}
use waitlock.Debugging.Commands.{
  Command, Trial, exited, exec_command, status_of, followed, after_trial, simple_exec, zero_exec,
  exec_final, five_seconds, test_exec_timeout_detailed, code_line,
}
use waitlock.Directory.{Dir, lookup}
use waitlock.Globals.{GlobalState, e_success, e_timeout}
use waitlock.Lock.Acquire.{
  Round, returned, request, expired, cleaned, acquire_lock, initial_wait_ms,
}
use waitlock.Lock.{scan}
use waitlock.Lock.Acquire.Outcomes.{loop-return, acquire_lock_zero_timeout}
use waitlock.Lock.Acquire.Progress.{acquire_pass_progress}
use waitlock.Process.Exec.{Ended, exec_with_lock, exec_fork, exit_code}
use waitlock.Process.Exec.Ending.{exec_with_lock_releases, last_event}
use waitlock.Text.{Str}

-- With a timeout of 0, `exec_with_lock` does not run its command and the child exits with E_TIMEOUT.
zero_timeout :
    (c : Command) (d : Str) (r : Round) (rs : List Round)
    → c.rounds ≡ r ∷ rs
    → c.start ≤ r.now
    → status_of false (exec_command d (pos 0) c) ≡ exited e_timeout
unfolding status_of exec_command exec_with_lock
zero_timeout c d r rs first later =
    rw
      (
        first,
        acquire_lock_zero_timeout c.lock_dir c.host d c.max_holders c.start r rs c.entries c.state
            later,
      )
      refl

-- The directory is empty, the first pass comes in time and can make its file, and the command exits
-- with 0, however often signals interrupt the wait for it.
pub record IsFree (d : Str) (timeout : ℤ) (c : Command) : Type 0 where
  pub round : Round
  pub later : List Round
  pub pid : ℤ
  pub first : c.rounds ≡ round ∷ later
  pub empty : c.entries ≡ []
  pub early : expired (request c.lock_dir c.host d c.max_holders timeout c.start) round.now ≡ false
  pub holders : 0 < c.max_holders
  pub can_create : round.slots.can_create 0 ≡ true
  pub written : round.slots.written 0 ≡ true
  pub forked : c.fork ≡ some pid
  pub is_pid : is_pos pid ≡ true
  pub succeeds : last_event c.child ≡ Ended.exited 0

acquired :
    (d : Str) (timeout : ℤ) (c : Command)
    → IsFree d timeout c
    → (dir : Dir) × ((g : GlobalState) × (acquire_lock
            (some c.lock_dir)
            c.host
            d
            c.max_holders
            timeout
            c.start
            c.rounds
            c.entries
            c.state
          ≡ returned e_success dir g))
unfolding acquire_lock cleaned scan lookup request
acquired d timeout c free =
    let q = request c.lock_dir c.host d c.max_holders timeout c.start in
    let counted : cleaned q free.round [] ≡ (0, []) = ground arith in
    let got =
      acquire_pass_progress q free.round [] c.state 0 free.early (rw counted free.holders)
        free.holders (rw counted refl) free.can_create free.written in
    (
      got.0,
      (
        got.1.0,
        rw (free.first, free.empty)
            (loop-return q free.round free.later initial_wait_ms [] got.0 c.state got.1.0 e_success
              got.1.1),
      ),
    )

code-free :
    (c : Command) (pid : ℤ) (dir : Dir) (g : GlobalState)
    → is_pos pid ≡ true
    → last_event c.child ≡ Ended.exited 0
    → (exec_fork c.lock_dir c.others (some pid) c.child dir g).code ≡ 0
unfolding exec_with_lock exit_code
code-free c pid dir g is last =
    (exec_with_lock_releases c.lock_dir c.others pid c.child dir g _ is refl).4 ∙ ap exit_code last

free_exits :
    (d : Str) (timeout : ℤ) (c : Command)
    → IsFree d timeout c
    → status_of false (exec_command d timeout c) ≡ exited 0
unfolding status_of exec_command exec_with_lock
free_exits d timeout c free =
    let got = acquired d timeout c free in
    rw (got.1.1, free.forked)
      (ap (λ (n : ℕ). exited (n % 256))
        (code-free c free.pid got.0 got.1.0 free.is_pid free.succeeds))

-- `fork` gives a child that no signal ends.
abbrev pub IsStarted : Trial → Type 0
IsStarted t = (t.forked ≡ true) × (t.killed ≡ false)

exec_lines :
    (lock_dir : Str) (first second : Trial) (elapsed : Str) (quick : Bool) (final_check a b : ℕ)
    → IsStarted first
    → IsStarted second
    → status_of false (exec_command (codes "test_exec_detailed") five_seconds first.command)
      ≡ exited a
    → status_of false (exec_command (codes "test_exec_detailed") (pos 0) second.command) ≡ exited b
    → test_exec_timeout_detailed lock_dir none first second elapsed quick final_check
      ≡ simple_exec (exited a)
        ++ (zero_exec elapsed quick (exited b) ++ exec_final final_check ∷ [])
unfolding test_exec_timeout_detailed after_trial followed
exec_lines lock_dir first second elapsed quick final_check a b one two ea eb =
    rw (one.0, one.1, ea, followed, two.0, two.1, eb, followed) refl

-- In the test of timeouts of commands, behind a directory that could be made and with children that no
-- signal ends: if the first child looks at the empty directory before its five seconds are over, can
-- make its file, and runs a command that exits with 0, and the clock of the second, whose timeout is 0,
-- does not go back, then the first is reported as a success and the second as passed if it was quick:
-- it has exited with E_TIMEOUT, whatever its directory holds.
pub exec_timeout_verdicts :
    (lock_dir : Str) (first second : Trial) (elapsed : Str) (final_check : ℕ) (r : Round)
    (rs : List Round)
    → IsStarted first
    → IsStarted second
    → IsFree (codes "test_exec_detailed") five_seconds first.command
    → second.command.rounds ≡ r ∷ rs
    → second.command.start ≤ r.now
    → test_exec_timeout_detailed lock_dir none first second elapsed true final_check
      ≡ code_line 0
        ∷ codes "PASS: Simple exec succeeded"
        ∷ (code_line e_timeout ++ (codes " after " ++ (elapsed ++ codes "s")))
        ∷ codes "PASS: timeout=0.0 failed quickly as expected"
        ∷ exec_final final_check
        ∷ []
unfolding simple_exec zero_exec
exec_timeout_verdicts lock_dir first second elapsed final_check r rs one two free rounds later =
    exec_lines lock_dir first second elapsed true final_check 0 e_timeout one two
      (free_exits _ five_seconds first.command free)
      (zero_timeout second.command _ r rs rounds later)
