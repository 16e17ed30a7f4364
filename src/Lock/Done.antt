-- ===== src/Lock/Done.antt =====
-- lock/lock.c: `done_lock`.
pub mod Answers
use waitlock.Base.{
  ℕ, suc, zero, ◌+◌, Bool, true, false, ◌&&◌, ◌||◌, not, List, [], ◌∷◌, codes, Option, none, some,
  ◌==◌, length, drop, if◌then◌else◌,
}
use waitlock.Base.Int.{ℤ}
use waitlock.Directory.{Dir}
use waitlock.Globals.{e_success, e_system, e_nodir, e_notfound}
use waitlock.LockFile.{File, read_lock_file_any_format}
use waitlock.LockInfo.{LockInfo, validate_lock_checksum}
use waitlock.Process.{Probe, KillResult, process_exists}
use waitlock.Text.{Str, starts_with, contains}

-- What the kernel answers: to the first test, to SIGTERM, and to the test after a signal that failed.
pub record Signals : Type 0 where
  pub before : Probe
  pub terminate : Probe
  pub after : Probe

-- `entry->d_name[desc_len] == '.' || entry->d_name[desc_len] == '\0'`
abbrev pub ends_there : Str → Bool
ends_there [] = true
ends_there (c ∷ s) = c == b'.'

abbrev pub is_hidden : Str → Bool
is_hidden [] = false
is_hidden (c ∷ s) = c == b'.'

unfoldable pub is_target : Str → Str → Bool
is_target descriptor name =
    not (is_hidden name)
    && starts_with descriptor name
    && ends_there (drop (length descriptor) name)
    && contains (codes ".lock") name

-- The counts, and the processes that SIGTERM was delivered to, latest first.
pub record Sweep : Type 0 where
  pub found_locks : ℕ
  pub released_locks : ℕ
  pub signalled : List ℤ

abbrev is_delivered : KillResult → Bool
is_delivered KillResult.delivered = true
is_delivered KillResult.eperm = false
is_delivered KillResult.esrch = false
is_delivered KillResult.einval = false

-- A lock file with a right checksum: the sweep, and whether the file stays.
unfoldable pub release_holder : Signals → LockInfo → Sweep → Sweep × Bool
release_holder s info w =
    if process_exists s.before info.pid
    then (if is_delivered (s.terminate info.pid)
        then (
          record {
            found_locks = suc w.found_locks;
            released_locks = suc w.released_locks;
            signalled = info.pid ∷ w.signalled;
          },
          true,
        )
        else if process_exists s.after info.pid
        then (record w { found_locks = suc w.found_locks }, true)
        else (
          record w { found_locks = suc w.found_locks; released_locks = suc w.released_locks },
          false,
        ))
    else (
      record w { found_locks = suc w.found_locks; released_locks = suc w.released_locks },
      false,
    )

-- The body of the loop.
unfoldable pub done_entry : Signals → Str → Str × File → Sweep → Sweep × Bool
done_entry s descriptor e w =
    if is_target descriptor e.0
    then (elim (read_lock_file_any_format e.1) [
      | none ↦ (w, false)
      | some info ↦
          if validate_lock_checksum (some info) then release_holder s info w else (w, false)
    ])
    else (w, true)

-- The loop: the last sweep, and the entries left.
unfoldable pub done_entries : Signals → Str → Dir → Sweep → Sweep × Dir
done_entries s descriptor [] w = (w, [])
done_entries s descriptor (e ∷ dir) w =
    let here = done_entry s descriptor e w in
    let rest = done_entries s descriptor dir here.0 in
    (rest.0, if here.1 then e ∷ rest.1 else rest.1)

abbrev pub nothing_done : Sweep
nothing_done = record { found_locks = 0; released_locks = 0; signalled = [] }

unfoldable pub done_code : Sweep → ℕ
done_code w =
    if w.found_locks == 0 then e_notfound else if w.released_locks == 0 then e_system else e_success

-- `done_lock`, with what `find_lock_directory` found and whether `opendir` succeeds: the exit code,
-- the sweep and the entries left.
unfoldable pub done_lock : Option Str → Bool → Signals → Str → Dir → ℕ × Sweep × Dir
done_lock none opened s descriptor dir = (e_nodir, nothing_done, dir)
done_lock (some lock_dir) opened s descriptor dir =
    if opened
    then (let w = done_entries s descriptor dir nothing_done in (done_code w.0, w.0, w.1))
    else (e_system, nothing_done, dir)
