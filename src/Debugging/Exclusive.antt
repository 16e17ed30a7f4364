-- ===== src/Debugging/Exclusive.antt =====
-- What the mutex test of debugging/debug_semaphore_exec_standalone.c finds while its parent holds the lock.
use waitlock.Base.{
  ◌≡◌, ◌≢◌, refl, sym, ap, ◌∙◌, true, List, ◌∷◌, ◌++◌, Option, none, some, All, codes, arith,
}
use waitlock.Debugging.{
  Parent, successes, replies, verdict, result_lines, count_lines, collect, contention_test,
  test_mutex_race_condition_detailed, after_acquire, start_children, first_error, or_line,
  mkdir_line, exit_lines, final_lines,
}
use waitlock.Debugging.Reports.{mutex, two_seconds}
use waitlock.Directory.{Dir, lookup}
use waitlock.Globals.{GlobalState, e_success}
use waitlock.Lock.{Holder, holder_of}
use waitlock.Lock.Acquire.{Round, returned, acquire_lock}
use waitlock.Lock.Acquire.Held.{acquire_lock-Held, HasTimes, Among-All}
use waitlock.Lock.Claim.{Host, prepare_info, slot_file, slot_info}
use waitlock.Lock.Claim.Laws.{
  IsHost, prepare_info-IsValid, holder_of-slot_file_either, read-slot_file,
}
use waitlock.Lock.Check.{check_lock}
use waitlock.Lock.Release.{release_lock}
use waitlock.LockFile.{File, read_lock_file_any_format}
use waitlock.Process.{Probe, process_exists}
use waitlock.Text.{Str}
use waitlock.Debugging.Refused.{name, IsBeside, none_counted}

same_read-holder_of :
    (probe : Probe) (f h : File)
    → read_lock_file_any_format f ≡ read_lock_file_any_format h
    → holder_of probe f ≡ holder_of probe h
unfolding holder_of
same_read-holder_of probe f h e = rw (holder_of, e, holder_of) refl

-- A file that reads as the struct of the parent's slot is active while the parent exists.
written-active :
    (host : Host) (r : Round) (file : File)
    → IsHost host mutex.descriptor
    → HasTimes r
    → read_lock_file_any_format file
      ≡ some (slot_info r.slots (prepare_info host mutex.descriptor 1) 0)
    → (probe : Probe) → process_exists probe host.pid ≡ true
    → holder_of probe file ≢ Holder.stale
unfolding prepare_info
written-active host r file is times read probe lives stale =
    let info = prepare_info host mutex.descriptor 1 in
    let valid = prepare_info-IsValid host mutex.descriptor 1 is in
    let active : holder_of probe file ≡ Holder.active =
      same_read-holder_of probe file (slot_file r.slots info 0)
        (read ∙ sym (read-slot_file r.slots info 0 valid refl (times 0)))
      ∙ holder_of-slot_file_either probe r.slots info 0 valid refl (times 0)
      ∙ rw lives refl in
    ground arith

-- What the parent finds once it holds the lock of the mutex test.
held-none_counted :
    (p : Parent) (dir dir' : Dir) (g g' : GlobalState)
    → IsHost p.host mutex.descriptor
    → All HasTimes p.rounds
    → acquire_lock (some p.lock_dir) p.host mutex.descriptor 1 two_seconds p.start p.rounds dir g
      ≡ returned e_success dir' g'
    → All (IsBeside p.host.pid dir') p.children
    → successes mutex (replies mutex p.lock_dir p.children) ≡ 0
held-none_counted p dir dir' g g' is times got beside =
    let h =
      acquire_lock-Held p.lock_dir p.host mutex.descriptor 1 two_seconds p.start p.rounds dir dir' g
        g' is times got in
    let first : h.slot ≡ 0 = (let lt = h.in_range in omega arith) in
    let there : lookup name dir' ≡ some h.written.0 = rw first at h.written.1 in
    none_counted p.lock_dir p.host.pid dir' h.written.0 p.children
      (written-active p.host h.round h.written.0 is (Among-All h.among times)
        (rw first at h.written.2))
      there beside

-- What the parent prints behind the verdict, from what it finds in the directory.
abbrev pub last_lines : Parent → Dir → List Str
last_lines p entries =
    exit_lines 1 p.statuses
    ++ final_lines mutex (check_lock p.found p.opened p.probe mutex.descriptor entries).0

collect-mutex :
    (p : Parent) (dir : Dir) (g : GlobalState)
    → successes mutex (replies mutex p.lock_dir p.children) ≡ 0
    → collect mutex p dir g
      ≡ result_lines 1 (replies mutex p.lock_dir p.children)
        ++ (count_lines mutex 1
            ++ (mutex.passed
                ++ last_lines p (p.afterwards (release_lock p.lock_dir (p.during dir) g).0)))
unfolding collect verdict
collect-mutex p dir g none_won = rw none_won refl

started :
    (p : Parent) (dir : Dir) (g : GlobalState)
    → first_error (codes "FAIL: Could not create pipe ") 0 p.pipes ≡ none
    → first_error (codes "FAIL: Could not fork child ") 0 p.forks ≡ none
    → start_children mutex p dir g ≡ collect mutex p dir g
unfolding start_children
started p dir g piped forked =
    ap
      (λ (e : Option Str). or_line e (
        or_line (first_error (codes "FAIL: Could not fork child ") 0 p.forks)
          (collect mutex p dir g)))
      piped
    ∙ ap (λ (e : Option Str). or_line e (collect mutex p dir g)) forked

-- In the mutex test, if the directory, the pipes and the children can be made and the parent gets the
-- lock, and if each child starts with the parent's file in the directory, the parent exists in each of
-- its passes, and nobody else removes that file, then, whatever answers of the children come in time,
-- the parent counts one holder and reports that the mutex is limited to one holder. (The parent's
-- struct fits the C types, and the texts of the children's times hold neither B nor C.)
pub test_mutex_race_condition_detailed-passed :
    (p : Parent) (dir dir' : Dir) (g g' : GlobalState)
    → p.mkdir_error ≡ none
    → first_error (codes "FAIL: Could not create pipe ") 0 p.pipes ≡ none
    → first_error (codes "FAIL: Could not fork child ") 0 p.forks ≡ none
    → IsHost p.host mutex.descriptor
    → All HasTimes p.rounds
    → acquire_lock (some p.lock_dir) p.host mutex.descriptor 1 two_seconds p.start p.rounds dir g
      ≡ returned e_success dir' g'
    → All (IsBeside p.host.pid dir') p.children
    → test_mutex_race_condition_detailed p dir g
      ≡ mutex.got
        ∷ (result_lines 1 (replies mutex p.lock_dir p.children)
            ++ (count_lines mutex 1
                ++ (mutex.passed
                    ++ last_lines p (p.afterwards (release_lock p.lock_dir (p.during dir') g').0))))
unfolding contention_test after_acquire
test_mutex_race_condition_detailed-passed p dir dir' g g' made piped forked is times got beside =
    ap
      (λ (e : Option Str). or_line (mkdir_line p.lock_dir e) (
        after_acquire mutex p (
          acquire_lock (some p.lock_dir) p.host mutex.descriptor 1 two_seconds p.start p.rounds dir
            g)))
      made
    ∙ ap (after_acquire mutex p) got
    ∙ ap (λ (lines : List Str). mutex.got ∷ lines)
        (started p dir' g' piped forked
          ∙ collect-mutex p dir' g' (held-none_counted p dir dir' g g' is times got beside))
