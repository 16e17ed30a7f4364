-- ===== src/Lock.antt =====
-- lock/lock.c: the operations on locks, a module each, and what is proved of them in the modules
-- below. An operation takes the entries of the lock directory and what the system answers, and gives
-- back its result and the entries as it leaves them.
pub mod Scanning
pub mod Reordered
pub mod Claim
pub mod Acquire
pub mod Release
pub mod Check
pub mod Done
pub mod Listing
use waitlock.Base.{
  ℕ, suc, Bool, true, false, ◌&&◌, List, [], ◌∷◌, codes, Option, none, some, ◌==◌, if◌then◌else◌,
}
use waitlock.Directory.{Dir}
use waitlock.LockFile.{File, read_lock_file_any_format}
use waitlock.LockInfo.{LockInfo, lock_magic, validate_lock_checksum}
use waitlock.Process.{Probe, process_exists}
use waitlock.Text.{Str, starts_with, contains}

-- What a lock file says of its holder: it is alive, it is gone, or the file is not accepted.
pub data Holder : Type 0 where
  active stale unknown : Holder

unfoldable pub holder_of_info : Probe → LockInfo → Holder
holder_of_info probe info =
    if info.magic == lock_magic && validate_lock_checksum (some info)
    then (if process_exists probe info.pid then Holder.active else Holder.stale)
    else Holder.unknown

unfoldable pub holder_of : Probe → File → Holder
holder_of probe file = elim (read_lock_file_any_format file) [
  | none ↦ Holder.unknown
  | some info ↦ holder_of_info probe info
]

-- `strncmp(name, descriptor, strlen(descriptor)) == 0 && strstr(name, ".lock")`
unfoldable pub claims : Str → Str → Bool
claims descriptor name = starts_with descriptor name && contains (codes ".lock") name

-- One entry in the scan of `acquire_lock`: an active lock is counted, a stale one is removed.
unfoldable pub scan_entry : Probe → Str → Str × File → ℕ × Dir → ℕ × Dir
scan_entry probe descriptor e rest =
    if claims descriptor e.0
    then (elim (holder_of probe e.1) [
      | Holder.active ↦ (suc rest.0, e ∷ rest.1)
      | Holder.stale ↦ rest
      | Holder.unknown ↦ (rest.0, e ∷ rest.1)
    ])
    else (rest.0, e ∷ rest.1)

-- The scan of `acquire_lock`: how many locks of the descriptor are active, and the entries left.
unfoldable pub scan : Probe → Str → Dir → ℕ × Dir
scan probe descriptor [] = (0, [])
scan probe descriptor (e ∷ dir) = scan_entry probe descriptor e (scan probe descriptor dir)
