-- ===== src/Lock/Claim.antt =====
-- lock/lock.c, `acquire_lock`: the lock_info that a process writes, and the loop that claims a slot
-- by creating its file with O_EXCL.
pub mod Laws
use waitlock.Base.{
  ℕ, zero, suc, ◌+◌, ◌%◌, ◌^◌, Bool, true, false, ◌&&◌, ◌||◌, not, List, [], ◌∷◌, codes, Option,
  none, some, ltb, if◌then◌else◌,
}
use waitlock.Base.Int.{ℤ, pos}
use waitlock.Directory.{Dir, exists_in, slot_name}
use waitlock.LockFile.{File, zeroed}
use waitlock.LockInfo.{
  LockInfo, lock_magic, struct_bytes, calculate_lock_checksum, max_hostname, max_desc_len,
  max_cmdline,
}
use waitlock.Text.{Str, store_string}

-- What the process finds out about itself; `gethostname` and `get_process_cmdline` may fail.
pub record Host : Type 0 where
  pub pid : ℤ
  pub ppid : ℤ
  pub uid : ℕ
  pub hostname : Option Str
  pub cmdline : Option Str

abbrev or_else : Option Str → Str → Str
or_else none s = s
or_else (some t) s = t

-- "Prepare lock info" and "Get command line".
unfoldable pub prepare_info : Host → Str → ℕ → LockInfo
unfolding zeroed
prepare_info host descriptor max_holders = record zeroed {
  magic = lock_magic;
  version = 1;
  pid = host.pid;
  ppid = host.ppid;
  uid = host.uid;
  lock_type = if ltb 1 max_holders then 1 else 0;
  max_holders = max_holders % 2 ^ 16;
  slot = 0;
  reserved = 0;
  hostname = store_string max_hostname (or_else host.hostname (codes "unknown"));
  descriptor = store_string (max_desc_len + 1) descriptor;
  cmdline = store_string max_cmdline (or_else host.cmdline []);
}

-- What the file system and the clock answer while slots are claimed: whether a file of a slot can
-- be created that is not there, whether all of the struct is written, and `time(NULL)`.
pub record Slots : Type 0 where
  pub can_create : ℕ → Bool
  pub written : ℕ → Bool
  pub time : ℕ → ℤ

-- The struct that is written into the file of a slot.
unfoldable pub slot_info : Slots → LockInfo → ℕ → LockInfo
slot_info env info slot =
    let stamped = record info { slot = slot % 2 ^ 16; acquired_at = env.time slot } in
    record stamped { checksum = calculate_lock_checksum (some stamped) }

-- A new file belongs to this process, so it can read it.
unfoldable pub slot_file : Slots → LockInfo → ℕ → File
slot_file env info slot = record { bytes = struct_bytes (slot_info env info slot); readable = true }

-- `for (try_slot = 0; try_slot < max_holders; try_slot++)`, from `slot` with `n` left to try. A file
-- that could not be written whole is removed again.
unfoldable pub claim_slot : Slots → Str → LockInfo → ℕ → ℕ → Dir → Option ℕ × Dir
claim_slot env descriptor info zero slot dir = (none, dir)
claim_slot env descriptor info (suc n) slot dir =
    let next = claim_slot env descriptor info n (slot + 1) dir in
    if exists_in (slot_name descriptor slot) dir || not (env.can_create slot)
    then next
    else if env.written slot
    then (some slot, (slot_name descriptor slot, slot_file env info slot) ∷ dir)
    else next
