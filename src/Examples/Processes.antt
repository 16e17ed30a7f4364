-- ===== src/Examples/Processes.antt =====
-- Runs of several processes at once, of a pass of `acquire_lock`, of `check_lock` beside it, and of
-- `main`.
use waitlock.Base.{ℕ, zero, suc, ◌<◌, ◌≡◌, refl, [], ◌∷◌, some, arith}
use waitlock.Base.Int.{pos}
use mathlib.Core.Logic.{◌≢◌}
use waitlock.Directory.{Dir, lookup, slot_name}
use waitlock.Examples.{app, lock_dir, host, everyone_lives, slots, quiet_round, two_holders}
use waitlock.Examples.Locks.{host_fits, acquired, acquired_state, lock_returns}
use waitlock.Globals.{GlobalState, initial_state, e_success}
use waitlock.Lock.{Holder, holder_of, scan}
use waitlock.Lock.Acquire.{expired, acquire_pass, acquire_lock, return, cleaned, request}
use waitlock.Lock.Acquire.Progress.{acquire_pass_progress, acquire_pass_blocked}
use waitlock.Lock.Claim.{slot_file, prepare_info}
use waitlock.Lock.Claim.Laws.{prepare_info-IsValid, holder_of-slot_file_either}
use waitlock.LockFile.{File}
use waitlock.LockFile.Empty.{empty_file, holder_of-empty_file}
use waitlock.Main.Run.{lock_and_wait}
use waitlock.Main.Run.Endings.{held_until_killed, lock_and_wait-acquire_lock}
use waitlock.Process.{Probe, KillResult, process_exists}
use waitlock.System.{
  Setup, idle, scanning, claiming, created, holding, Move, State, put, Step, pick, Reach, here,
  next, start, clock, store,
}
use waitlock.System.Exclusion.{slot_exclusion}
use waitlock.System.Race.{both_hold}
use waitlock.System.Safe.{IsSetup, IsClean}
use waitlock.System.Semaphore.{Permits, holders, Step-Permits}
use waitlock.Text.{str_eq}
use waitlock.Text.Decimal.{print_nat, digits_of}

-- Two holders of `app`, any number of processes.
abbrev setup : Setup
setup = record {
  descriptor = app;
  max_holders = 2;
  info = λ i. prepare_info host app 2;
  probe = everyone_lives;
}

is_setup : IsSetup setup
unfolding prepare_info process_exists
is_setup = record {
  valid = λ i. prepare_info-IsValid host app 2 host_fits;
  marked = λ i. refl;
  lives = λ i. refl;
}

none_stale : IsClean setup []
unfolding lookup
none_stale name file h = cc

-- Process 7 is the first to make a file, for slot 0.
abbrev made : State
made = record {
  dir = (slot_name app 0, empty_file) ∷ [];
  at = put (put (put (λ i. idle) 7 (scanning [] 0)) 7 (claiming 0)) 7 (created 0);
}

made-Reach : Reach setup (start []) made
unfolding lookup
made-Reach =
    next (next (next here (pick 7 Move.no_dir)) (pick 7 (Move.room (omega arith))))
      (pick 7 (Move.create (omega arith) refl))

-- It writes its struct and holds the lock.
abbrev wrote : State
wrote = record {
  dir =
      store (slot_name app 0) (slot_file (clock (pos 1700000000)) (prepare_info host app 2) 0)
        made.dir;
  at = put made.at 7 (holding 0);
}

wrote-Step : Step setup made wrote
unfolding lookup slot_name print_nat digits_of str_eq
wrote-Step = pick 7 (Move.write (pos 1700000000) (omega arith) refl)

slot_exclusion_example :
    (0 < 2)
    × ((f : File) × (lookup (slot_name app 0) wrote.dir ≡ some f)
        × (holder_of everyone_lives f ≡ Holder.active))
    × ((j : ℕ) → wrote.at j ≡ holding 0 → 7 ≡ j)
slot_exclusion_example = slot_exclusion is_setup none_stale (next made-Reach wrote-Step) 7 0 refl

Step-Permits_example : Permits 2 (holders made) (holders wrote)
Step-Permits_example = Step-Permits is_setup none_stale made-Reach wrote-Step

-- The process of the lock file has ended.
abbrev nobody_lives : Probe
nobody_lives pid = KillResult.esrch

abbrev after_crash : Setup
after_crash = record setup { probe = nobody_lives }

abbrev left_over : File
left_over = slot_file slots (prepare_info host app 2) 0

left_over-stale : holder_of nobody_lives left_over ≡ Holder.stale
unfolding prepare_info process_exists
left_over-stale =
    holder_of-slot_file_either nobody_lives slots (prepare_info host app 2) 0
      (prepare_info-IsValid host app 2 host_fits) refl (omega arith)

both_hold_example :
    (s : State) × Reach after_crash (start ((slot_name app 0, left_over) ∷ [])) s
    × (s.at 0 ≡ holding 0)
    × (s.at 1 ≡ holding 0)
both_hold_example = both_hold after_crash left_over (omega arith) left_over-stale

acquire_pass_progress_example :
    (dir' : Dir) × ((g' : GlobalState) × (acquire_pass two_holders quiet_round [] initial_state
        ≡ return e_success dir' g'))
unfolding request expired cleaned scan lookup
acquire_pass_progress_example =
    acquire_pass_progress two_holders quiet_round [] initial_state 1 refl (omega arith)
      (omega arith) refl refl refl

-- Both slots have a file that was created and never written.
abbrev never_written : Dir
never_written = (slot_name app 0, empty_file) ∷ (slot_name app 1, empty_file) ∷ []

is_blocked :
    (x : ℕ)
    → x < 2
    → (f : File) × (lookup (slot_name app x) never_written ≡ some f)
      × (holder_of everyone_lives f ≢ Holder.stale)
unfolding lookup slot_name print_nat digits_of str_eq
is_blocked zero lt = (empty_file, refl, λ h. cc (rw (holder_of-empty_file everyone_lives) at h))
is_blocked (suc zero) lt =
    (empty_file, refl, λ h. cc (rw (holder_of-empty_file everyone_lives) at h))
is_blocked (suc (suc n)) lt = absurd (omega arith)

acquire_pass_blocked_example :
    acquire_pass two_holders quiet_round never_written initial_state
    ≢ return e_success never_written initial_state
unfolding request
acquire_pass_blocked_example =
    acquire_pass_blocked two_holders quiet_round never_written never_written initial_state
      initial_state is_blocked

lock_and_wait-acquire_lock_example :
    lock_and_wait lock_dir
      (15 ∷ [])
      (acquire_lock (some lock_dir) host app 2 (pos 1000000) 0 (quiet_round ∷ []) [] initial_state)
    ≡ held_until_killed acquired acquired_state (15 ∷ [])
unfolding initial_state
lock_and_wait-acquire_lock_example =
    lock_and_wait-acquire_lock lock_dir host app 2 (pos 1000000) 0 (quiet_round ∷ []) [] acquired
      initial_state acquired_state (15 ∷ []) refl refl lock_returns
