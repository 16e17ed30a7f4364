-- ===== src/Examples/Timeouts.antt =====
-- Runs of the debugging programs: tests of the timeout of a command, and a test of the coordinator.
use waitlock.Base.{◌≡◌, refl, true, false, [], ◌∷◌, ◌++◌, codes, none, some, arith}
use waitlock.Base.Int.{pos}
use waitlock.Coordinator.Talk.{Wait, bytes, select_loop}
use waitlock.Coordinator.Tests.{
  Replies, ChildStatus, failures, assertions, test_pc_basic_communication,
}
use waitlock.Coordinator.Tests.Timing.{basic_communication_timing}
use waitlock.Debugging.Commands.{Command, Trial, test_exec_timeout_detailed, code_line, exec_final}
use waitlock.Debugging.Commands.Timeouts.{IsFree, exec_timeout_verdicts}
use waitlock.Examples.{host, lock_dir, everyone_lives, quiet_round}
use waitlock.Process.Exec.Ending.{last_event}
use waitlock.Globals.{initial_state, e_timeout}
use waitlock.Lock.Acquire.{expired, request}
use waitlock.Text.{Str}
use waitlock.Process.Exec.{ends, Ended}

abbrev command : Command
command = record {
  lock_dir = lock_dir;
  host = host;
  max_holders = 1;
  start = 0;
  rounds = quiet_round ∷ [];
  entries = [];
  state = initial_state;
  others = λ dir. dir;
  fork = some (pos 200);
  child = ends (Ended.exited 0);
}

abbrev trial : Trial
trial = record { forked = true; killed = false; command = command }

fixed-IsFree : (d : Str) → IsFree d (pos 5000000) command
unfolding request expired last_event
fixed-IsFree d = record {
  round = quiet_round;
  later = [];
  pid = pos 200;
  first = refl;
  empty = refl;
  early = refl;
  holders = omega arith;
  can_create = refl;
  written = refl;
  forked = refl;
  is_pid = refl;
  succeeds = refl;
}

exec_timeout_verdicts_example :
    test_exec_timeout_detailed lock_dir none trial trial (codes "0.003") true 0
    ≡ code_line 0
      ∷ codes "PASS: Simple exec succeeded"
      ∷ (code_line e_timeout ++ (codes " after " ++ (codes "0.003" ++ codes "s")))
      ∷ codes "PASS: timeout=0.0 failed quickly as expected"
      ∷ exec_final 0
      ∷ []
exec_timeout_verdicts_example =
    exec_timeout_verdicts lock_dir trial trial (codes "0.003") 0 quiet_round [] (refl, refl)
      (refl, refl) (fixed-IsFree (codes "test_exec_detailed")) refl (omega arith)

-- A parent whose child has written both messages before the first `read`.
abbrev slow_parent : Replies
slow_parent = record {
  allocated = true;
  down = some (pos 3, pos 4);
  up = some (pos 5, pos 6);
  forked = pos 200;
  own = pos 200;
  write = λ fd message. pos 16;
  then_write = λ fd message. pos 1;
  wait = Wait.ready;
  read = λ fd. bytes (codes "Hello from childD");
  then_wait = Wait.ready;
  then_read = λ fd. bytes [];
  probe = everyone_lives;
  waited = pos 200;
  status = pos 0;
  decode = λ status. ChildStatus.exited 0;
}

basic_communication_timing_example :
    failures (assertions (test_pc_basic_communication slow_parent)) ≡ 2
unfolding select_loop
basic_communication_timing_example =
    basic_communication_timing slow_parent (pos 3, pos 4) (pos 5, pos 6) true refl refl refl refl
      refl refl refl refl refl refl refl
