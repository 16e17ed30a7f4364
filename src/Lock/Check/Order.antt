-- ===== src/Lock/Check/Order.antt =====
-- `check_lock` on locks that disagree about the number of holders.
use waitlock.Base.{suc, refl, ◌≡◌, ◌≤◌, ◌<◌, true, ◌&&◌, [], ◌∷◌, some, ◌==◌, arith}
use waitlock.Globals.{e_success, e_busy}
use waitlock.Lock.Check.{
  check_info, check_entry, check_entries, check_lock, is_lock_of, Tally, no_locks,
}
use waitlock.LockFile.{File, read_lock_file_any_format}
use waitlock.LockInfo.{LockInfo, lock_magic, validate_lock_checksum}
use waitlock.Process.{Probe, process_exists}
use waitlock.Text.{Str}

-- An entry that is a lock of the descriptor, held by a process that exists, with this struct.
pub record IsHeld (probe : Probe) (d : Str) (e : Str × File) (i : LockInfo) : Type 0 where
  pub named : is_lock_of d e.0 ≡ true
  pub read : read_lock_file_any_format e.1 ≡ some i
  pub accepted :
      ((i.magic == lock_magic) && validate_lock_checksum (some i) && process_exists probe i.pid)
      ≡ true

check_entry-IsHeld :
    (probe : Probe) (d : Str) (e : Str × File) (i : LockInfo) (t : Tally)
    → IsHeld probe d e i
    → check_entry probe d e t
      ≡ (record { active_locks = suc t.active_locks; max_holders = i.max_holders }, true)
unfolding check_entry check_info
check_entry-IsHeld probe d e i t h = rw (h.named, h.read, h.accepted) refl

-- If of two locks of a descriptor, both held, one allows at most two holders and the other more, then
-- the answer of `check_lock` depends on the order in which `readdir` gives their files: it is the
-- limit of the last file that decides.
pub check_lock_order :
    (lock_dir : Str) (probe : Probe) (d : Str) (a b : Str × File) (i j : LockInfo)
    → IsHeld probe d a i
    → IsHeld probe d b j
    → i.max_holders ≤ 2
    → 2 < j.max_holders
    → ((check_lock (some lock_dir) true probe d (a ∷ b ∷ [])).0 ≡ e_success)
      × ((check_lock (some lock_dir) true probe d (b ∷ a ∷ [])).0 ≡ e_busy)
unfolding check_lock check_entries
check_lock_order lock_dir probe d a b i j ha hb low high = (
  rw (check_entry-IsHeld probe d a i no_locks ha, check_entry-IsHeld probe d b j _ hb)
      (ground arith),
  rw (check_entry-IsHeld probe d b j no_locks hb, check_entry-IsHeld probe d a i _ ha)
      (ground arith),
)
