-- ===== src/Examples/Locks.antt =====
-- Runs of the operations of lock/lock.c.
use waitlock.Base.{
  ℕ, zero, suc, ◌<◌, ◌≡◌, refl, true, [], ◌∷◌, ◌++◌, codes, some, length, arith, All,
}
use waitlock.Base.Int.{pos, negsuc, is_neg}
use mathlib.Core.Logic.{◌≢◌}
use waitlock.Directory.{Dir, lookup, slot_name}
use waitlock.Directory.Search.{path_max}
use waitlock.Examples.{
  app, lock_dir, host, everyone_lives, slots, quiet_round, two_holders, unreadable,
}
use waitlock.Globals.{GlobalState, initial_state, e_success, e_busy}
use waitlock.Lock.{Holder, holder_of, claims, scan, scan_entry}
use waitlock.Lock.Acquire.{
  Round, return, returned, acquire_lock, acquire_loop, acquire_pass, held, expired, try_slots,
  after_claim, request, sleep_ms, cleaned,
}
use waitlock.Lock.Acquire.Deadline.{Returns, acquire_loop-Returns}
use waitlock.Lock.Acquire.Held.{Held, HasTimes, acquire_lock-Held}
use waitlock.Lock.Acquire.Outcomes.{NeverTimesOut, acquire_lock-NeverTimesOut, acquire_lock_prefix}
use waitlock.Lock.Claim.{slot_file, prepare_info, claim_slot}
use waitlock.Lock.Claim.Laws.{IsHost, prepare_info-IsValid, holder_of-slot_file}
use waitlock.Lock.Release.{release_lock}
use waitlock.Lock.Release.AfterAcquire.{release_lock-acquire_pass}
use waitlock.LockFile.{File, read_lock_file_any_format, read_text_lock_file}
use waitlock.Process.{process_exists}
use waitlock.Text.Decimal.{print_nat, digits_of}
use waitlock.Text.{starts_with, str_eq}

abbrev quiet_round_later : Round
quiet_round_later = record quiet_round { now = 5000; now_after = 5001; now_sleep = 5002 }

-- The lock directory after `app` was acquired in slot 0.
abbrev pub acquired : Dir
acquired = (slot_name app 0, slot_file slots two_holders.info 0) ∷ []

abbrev pub acquired_state : GlobalState
acquired_state = held two_holders quiet_round 0 initial_state

pub host_fits : IsHost host app
host_fits = record {
  pid_fits = omega arith;
  ppid_fits = omega arith;
  uid_fits = omega arith;
  hostname_bytes = (omega arith, (omega arith, (omega arith, tt)));
  descriptor_bytes = (omega arith, (omega arith, (omega arith, tt)));
  cmdline_bytes = (omega arith, (omega arith, tt));
}

has_times : All HasTimes (quiet_round ∷ [])
has_times = ((λ slot. omega arith), tt)

pass_returns :
    acquire_pass two_holders quiet_round [] initial_state ≡ return e_success acquired acquired_state
unfolding acquire_pass expired request try_slots cleaned scan after_claim claim_slot lookup
pass_returns = refl

pub lock_returns :
    acquire_lock (some lock_dir) host app 2 (pos 1000000) 0 (quiet_round ∷ []) [] initial_state
    ≡ returned e_success acquired acquired_state
unfolding acquire_lock request acquire_loop acquire_pass expired try_slots cleaned scan after_claim
    claim_slot lookup
lock_returns = refl

acquire_lock-Held_example : Held lock_dir host app 2 (quiet_round ∷ []) acquired acquired_state
acquire_lock-Held_example =
    acquire_lock-Held lock_dir host app 2 (pos 1000000) 0 (quiet_round ∷ []) [] acquired
      initial_state acquired_state host_fits has_times lock_returns

-- A file in the directory that is not a lock.
abbrev pub with_notes : Dir
with_notes = (codes "notes", unreadable) ∷ []

notes_not_stale : holder_of everyone_lives unreadable ≢ Holder.stale
unfolding holder_of read_lock_file_any_format read_text_lock_file
notes_not_stale h = ground arith

pass_with_notes :
    acquire_pass two_holders quiet_round with_notes initial_state
    ≡ return e_success
        ((slot_name app 0, slot_file slots two_holders.info 0) ∷ with_notes)
        acquired_state
unfolding acquire_pass expired request try_slots cleaned scan scan_entry claims after_claim
    claim_slot lookup slot_name starts_with str_eq
pass_with_notes = refl

acquire_loop-Returns_example : Returns (
    acquire_loop
      (request lock_dir host app 2 (pos 1000) 0)
      (quiet_round ∷ quiet_round_later ∷ [])
      10
      with_notes
      initial_state)
unfolding request length sleep_ms
acquire_loop-Returns_example =
    acquire_loop-Returns (request lock_dir host app 2 (pos 1000) 0) quiet_round
      (quiet_round_later ∷ []) 10 with_notes initial_state refl (omega arith)
      (omega arith, omega arith, omega arith) (omega arith)

short_paths : (slot : ℕ) → slot < 2 → length (lock_dir ++ b'/' ∷ slot_name app slot) < path_max
unfolding length slot_name print_nat digits_of
short_paths zero h = omega arith
short_paths (suc zero) h = omega arith
short_paths (suc (suc n)) h = absurd (omega arith)

release_lock-acquire_pass_example :
    ((release_lock lock_dir acquired acquired_state).0 ≡ (cleaned two_holders quiet_round []).1)
    × ((release_lock lock_dir acquired acquired_state).1.lock_path ≡ [])
    × (is_neg (release_lock lock_dir acquired acquired_state).1.lock_fd ≡ true)
unfolding request
release_lock-acquire_pass_example =
    release_lock-acquire_pass two_holders quiet_round [] acquired initial_state acquired_state
      pass_returns short_paths

-- `app` and `app2` at the limit of one holder.
abbrev app2_slot : File
app2_slot = slot_file slots (prepare_info host app 1) 0

app2_active : holder_of everyone_lives app2_slot ≡ Holder.active
unfolding prepare_info process_exists
app2_active =
    holder_of-slot_file everyone_lives slots (prepare_info host app 1) 0
      (prepare_info-IsValid host app 1 host_fits) refl (omega arith) refl

acquire_lock_prefix_example :
    acquire_lock
      (some lock_dir)
      host
      app
      1
      (negsuc 999999)
      0
      (quiet_round ∷ [])
      ((slot_name (app ++ codes "2") 0, app2_slot) ∷ [])
      initial_state
    ≡ returned e_busy
        (scan everyone_lives app ((slot_name (app ++ codes "2") 0, app2_slot) ∷ [])).1
        initial_state
acquire_lock_prefix_example =
    acquire_lock_prefix lock_dir host app (codes "2") 0 0 (negsuc 999999) quiet_round [] app2_slot
      [] initial_state refl refl app2_active

abbrev pub app_slot : File
app_slot = slot_file slots (prepare_info host app 1) 0

pub app_active : holder_of everyone_lives app_slot ≡ Holder.active
unfolding prepare_info process_exists
app_active =
    holder_of-slot_file everyone_lives slots (prepare_info host app 1) 0
      (prepare_info-IsValid host app 1 host_fits) refl (omega arith) refl

acquire_lock-NeverTimesOut_example : NeverTimesOut (
    acquire_lock
      (some lock_dir)
      host
      app
      1
      (negsuc 999999)
      0
      (quiet_round ∷ [])
      ((slot_name app 0, app_slot) ∷ [])
      initial_state)
acquire_lock-NeverTimesOut_example =
    acquire_lock-NeverTimesOut lock_dir host app 1 0 (negsuc 999999) (quiet_round ∷ [])
      ((slot_name app 0, app_slot) ∷ []) initial_state refl
