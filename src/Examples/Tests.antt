-- ===== src/Examples/Tests.antt =====
-- A run of a debugging program: the test of the mutex.
use waitlock.Base.{ℕ, ◌≡◌, refl, Bool, true, false, [], ◌∷◌, ◌++◌, codes, none, some, arith}
use waitlock.Base.Int.{pos}
use waitlock.Debugging.{
  first_error, Parent, test_mutex_race_condition_detailed, result_lines, replies, count_lines,
}
use waitlock.Debugging.Refused.{KeepsHolder, IsBeside}
use waitlock.Debugging.Exclusive.{last_lines, test_mutex_race_condition_detailed-passed}
use waitlock.Debugging.Reports.{Child, mutex, two_seconds}
use waitlock.Directory.{Dir, lookup, slot_name}
use waitlock.Examples.{host, lock_dir, everyone_lives, slots, quiet_round}
use waitlock.Examples.Locks.{host_fits}
use waitlock.Globals.{GlobalState}
use waitlock.Lock.Acquire.{held, try_slots, after_claim}
use waitlock.Lock.Claim.{claim_slot}
use waitlock.Lock.Claim.Laws.{IsHost}
use waitlock.Lock.{scan}
use waitlock.Lock.Release.{release_lock}
use waitlock.Process.{process_exists}
use waitlock.Globals.{initial_state, e_success}
use waitlock.Lock.Acquire.{
  returned, acquire_lock, acquire_loop, acquire_pass, expired, cleaned, request, Request,
}
use waitlock.Lock.Claim.{prepare_info, slot_file}

tester : IsHost host mutex.descriptor
tester = record {
  pid_fits = host_fits.pid_fits;
  ppid_fits = host_fits.ppid_fits;
  uid_fits = host_fits.uid_fits;
  hostname_bytes = host_fits.hostname_bytes;
  descriptor_bytes = (
    omega arith,
    (
      omega arith,
      (
        omega arith,
        (
          omega arith,
          (
            omega arith,
            (
              omega arith,
              (
                omega arith,
                (
                  omega arith,
                  (
                    omega arith,
                    (
                      omega arith,
                      (
                        omega arith,
                        (
                          omega arith,
                          (
                            omega arith,
                            (
                              omega arith,
                              (
                                omega arith,
                                (omega arith, (omega arith, (omega arith, (omega arith, tt)))),
                              ),
                            ),
                          ),
                        ),
                      ),
                    ),
                  ),
                ),
              ),
            ),
          ),
        ),
      ),
    ),
  );
  cmdline_bytes = host_fits.cmdline_bytes;
}

abbrev request_of : Request
request_of = request lock_dir host mutex.descriptor 1 two_seconds 0

-- What the parent holds.
abbrev held_dir : Dir
held_dir =
    (slot_name mutex.descriptor 0, slot_file slots (prepare_info host mutex.descriptor 1) 0) ∷ []

abbrev held_state : GlobalState
held_state = held request_of quiet_round 0 initial_state

-- Two children; the message of the second comes too late.
abbrev child : Child
child = record {
  host = record host { pid = pos 101 };
  start = 0;
  rounds = quiet_round ∷ record quiet_round { now = 3000000 } ∷ [];
  entries = held_dir;
  state = held_state;
  others = λ dir. dir;
  elapsed = codes "2.000";
  heard = true;
}

abbrev parent : Parent
parent = record {
  lock_dir = lock_dir;
  mkdir_error = none;
  host = host;
  start = 0;
  rounds = quiet_round ∷ [];
  pipes = none ∷ none ∷ [];
  forks = none ∷ none ∷ [];
  children = child ∷ record child { heard = false } ∷ [];
  statuses = pos 1 ∷ pos 1 ∷ [];
  during = λ dir. dir;
  afterwards = λ dir. dir;
  found = some lock_dir;
  opened = true;
  probe = everyone_lives;
}

got :
    acquire_lock
      (some lock_dir)
      host
      mutex.descriptor
      1
      two_seconds
      0
      (quiet_round ∷ [])
      []
      initial_state
    ≡ returned e_success held_dir held_state
unfolding acquire_lock request acquire_loop acquire_pass expired try_slots cleaned scan after_claim
    claim_slot lookup
got = refl

keeps : (n : ℕ) → KeepsHolder (pos 100) (record quiet_round { now = n })
unfolding process_exists
keeps n = record { lives = refl; others = λ dir f e. e }

beside : (b : Bool) → IsBeside (pos 100) held_dir (record child { heard = b })
beside b = record {
  entry = refl;
  rounds = (keeps 5, (keeps 3000000, tt));
  no_b = (refl, (refl, (refl, (refl, (refl, tt)))));
  no_c = (refl, (refl, (refl, (refl, (refl, tt)))));
}

test_mutex_race_condition_detailed-passed_example :
    test_mutex_race_condition_detailed parent [] initial_state
    ≡ mutex.got
      ∷ (result_lines 1 (replies mutex lock_dir parent.children)
          ++ (count_lines mutex 1
              ++ (mutex.passed ++ last_lines parent (release_lock lock_dir held_dir held_state).0)))
unfolding first_error
test_mutex_race_condition_detailed-passed_example =
    test_mutex_race_condition_detailed-passed parent [] held_dir initial_state held_state refl refl
      refl tester ((λ slot. omega arith), tt) got (beside true, (beside false, tt))
