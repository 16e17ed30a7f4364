-- ===== src/Lock/Check.antt =====
-- lock/lock.c: `check_lock`.
pub mod Answers
pub mod Window
pub mod Keeping
pub mod Order
use waitlock.Base.{
  ℕ, suc, Bool, true, false, ◌&&◌, not, List, [], ◌∷◌, codes, Option, none, some, ◌==◌, leb, length,
  if◌then◌else◌,
}
use waitlock.Directory.{Dir}
use waitlock.Globals.{e_success, e_busy, e_system}
use waitlock.LockFile.{File, read_lock_file_any_format}
use waitlock.LockInfo.{LockInfo, lock_magic, validate_lock_checksum}
use waitlock.Process.{Probe, process_exists}
use waitlock.Text.{Str, starts_with, contains, split_at}

-- The text before the first dot of a name is the descriptor, and `.lock` occurs in the name.
unfoldable pub is_lock_of : Str → Str → Bool
is_lock_of descriptor name = elim (split_at b'.' name) [
  | none ↦ false
  | some p ↦
      starts_with p.0 descriptor && length p.0 == length descriptor && contains (codes ".lock") name
]

-- The variables of the loop.
pub record Tally : Type 0 where
  pub active_locks : ℕ
  pub max_holders : ℕ

-- A lock file of the descriptor that could be read: the tally, and whether the file stays.
unfoldable pub check_info : Probe → LockInfo → Tally → Tally × Bool
check_info probe info t =
    if info.magic == lock_magic
      && validate_lock_checksum (some info)
      && process_exists probe info.pid
    then (record { active_locks = suc t.active_locks; max_holders = info.max_holders }, true)
    else if info.magic == lock_magic && not (validate_lock_checksum (some info))
    then (t, false)
    else (t, true)

-- The body of the loop.
unfoldable pub check_entry : Probe → Str → Str × File → Tally → Tally × Bool
check_entry probe descriptor e t =
    if is_lock_of descriptor e.0
    then (elim (read_lock_file_any_format e.1) [
      | none ↦ (t, true)
      | some info ↦ check_info probe info t
    ])
    else (t, true)

-- The loop: the last tally, and the entries left.
unfoldable pub check_entries : Probe → Str → Dir → Tally → Tally × Dir
check_entries probe descriptor [] t = (t, [])
check_entries probe descriptor (e ∷ dir) t =
    let here = check_entry probe descriptor e t in
    let rest = check_entries probe descriptor dir here.0 in
    (rest.0, if here.1 then e ∷ rest.1 else rest.1)

abbrev pub no_locks : Tally
no_locks = record { active_locks = 0; max_holders = 1 }

-- `check_lock`, with what `find_lock_directory` found and whether `opendir` succeeds: the exit code,
-- and the entries left.
unfoldable pub check_lock : Option Str → Bool → Probe → Str → Dir → ℕ × Dir
check_lock none opened probe descriptor dir = (e_system, dir)
check_lock (some lock_dir) opened probe descriptor dir =
    if opened
    then (let t = check_entries probe descriptor dir no_locks in
        ((if leb t.0.max_holders t.0.active_locks then e_busy else e_success), t.1))
    else (e_system, dir)
