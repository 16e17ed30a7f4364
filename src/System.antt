-- ===== src/System.antt =====
-- lock/lock.c: `acquire_lock` and `release_lock` of many processes at once, a system call at a time,
-- over one lock directory. The directory is the shared state; each process is at a point of its code.
-- No process ends during a run, so `probe` is fixed; the file of one that ended before may be there.
-- A failed write leaves its file empty. Which names `readdir` gives, and whether `opendir` and `open`
-- succeed, is left open, and so is the order of the processes.
pub mod Names
pub mod Safe
pub mod Calls
pub mod Exclusion
pub mod Semaphore
pub mod Race
pub mod Ending
pub mod Visits
use waitlock.Base.{
  ℕ, zero, suc, ◌≤◌, ◌<◌, ◌≡◌, Bool, true, false, List, [], ◌∷◌, Option, none, some, ◌==◌,
  if◌then◌else◌,
}
use waitlock.Base.Int.{ℤ}
use waitlock.Directory.{Dir, lookup, exists_in, remove, slot_name}
use waitlock.Lock.{Holder, holder_of, claims}
use waitlock.Lock.Claim.{Slots, slot_file}
use waitlock.LockFile.{File}
use waitlock.LockFile.Empty.{empty_file}
use waitlock.LockInfo.{LockInfo}
use waitlock.Process.{Probe}
use waitlock.Text.{Str, str_eq}
use waitlock.Text.Decimal.{IsInt64}

-- What all processes ask for, and the struct that each has prepared.
pub record Setup : Type 0 where
  pub descriptor : Str
  pub max_holders : ℕ
  pub info : ℕ → LockInfo
  pub probe : Probe

-- Where a process stands.
pub data Point : Type 0 where
  idle : Point  -- before a pass, between two, or after the call
  scanning : List Str → ℕ → Point  -- the names that `readdir` will give, and `active_locks`
  unlinking : Str → List Str → ℕ → Point  -- before `unlink(check_path)`
  claiming : ℕ → Point  -- before the `open` of `try_slot`
  created : ℕ → Point  -- before the `write`
  undoing : ℕ → Point  -- before `unlink(lock_path)`, the write having failed
  holding : ℕ → Point  -- after E_SUCCESS

-- Putting content into the file of an entry.
unfoldable pub store : Str → File → Dir → Dir
store name file [] = []
store name file (e ∷ dir) = if str_eq e.0 name then (e.0, file) ∷ dir else e ∷ store name file dir

-- What a file, if it can be read, says of its holder.
unfoldable pub seen : Probe → Option File → Holder
seen probe none = Holder.unknown
seen probe (some file) = holder_of probe file

-- The point after an entry was looked at.
unfoldable pub after_look : Str → List Str → ℕ → Holder → Point
after_look name names n Holder.active = scanning names (suc n)
after_look name names n Holder.stale = unlinking name names n
after_look name names n Holder.unknown = scanning names n

-- One entry of the scan.
unfoldable pub look : Setup → Dir → Str → List Str → ℕ → Point
look u dir name names n =
    if claims u.descriptor name
    then after_look name names n (seen u.probe (lookup name dir))
    else scanning names n

-- The clock, for the file of a slot that is written whole.
abbrev pub clock : ℤ → Slots
clock t = record { can_create = λ slot. true; written = λ slot. true; time = λ slot. t }

-- One system call of process `i`.
pub data Move (u : Setup) (i : ℕ) (dir : Dir) : Point → Dir → Point → Type 0 where
  open_dir : (names : List Str) → Move u i dir idle dir (scanning names 0)
  no_dir : Move u i dir idle dir (scanning [] 0)
  look_at :
      {name : Str} {names : List Str} {n : ℕ}
      → Move u i dir (scanning (name ∷ names) n) dir (look u dir name names n)
  unlink_stale :
      {name : Str} {names : List Str} {n : ℕ}
      → Move u i dir (unlinking name names n) (remove name dir) (scanning names n)
  full : {n : ℕ} → u.max_holders ≤ n → Move u i dir (scanning [] n) dir idle
  room : {n : ℕ} → n < u.max_holders → Move u i dir (scanning [] n) dir (claiming 0)
  taken : {slot : ℕ} → slot < u.max_holders → Move u i dir (claiming slot) dir (claiming (suc slot))
  create :
      {slot : ℕ}
      → slot < u.max_holders
      → exists_in (slot_name u.descriptor slot) dir ≡ false
      → Move u i dir
          (claiming slot)
          ((slot_name u.descriptor slot, empty_file) ∷ dir)
          (created slot)
  no_slot : {slot : ℕ} → u.max_holders ≤ slot → Move u i dir (claiming slot) dir idle
  write :
      {slot : ℕ} (t : ℤ)
      → IsInt64 t
      → lookup (slot_name u.descriptor slot) dir ≡ some empty_file
      → Move u i dir
          (created slot)
          (store (slot_name u.descriptor slot) (slot_file (clock t) (u.info i) slot) dir)
          (holding slot)
  no_write : {slot : ℕ} → Move u i dir (created slot) dir (undoing slot)
  undo :
      {slot : ℕ}
      → Move u i dir (undoing slot) (remove (slot_name u.descriptor slot) dir) (claiming (suc slot))
  release : {slot : ℕ} → Move u i dir (holding slot) (remove (slot_name u.descriptor slot) dir) idle

pub record State : Type 0 where
  pub dir : Dir
  pub at : ℕ → Point

abbrev pub put : (ℕ → Point) → ℕ → Point → ℕ → Point
put f i p j = if i == j then p else f j

-- Some process moves.
pub data Step (u : Setup) (s : State) : State → Type 0 where
  pick :
      (i : ℕ) {dir : Dir} {p : Point}
      → Move u i s.dir (s.at i) dir p
      → Step u s (record { dir = dir; at = put s.at i p })

pub data Reach (u : Setup) (s : State) : State → Type 0 where
  here : Reach u s s
  next : {t v : State} → Reach u s t → Step u t v → Reach u s v

-- All processes before their first pass.
abbrev pub start : Dir → State
start dir = record { dir = dir; at = λ i. idle }

-- The slot whose file a process has made.
abbrev pub slot_of : Point → Option ℕ
slot_of idle = none
slot_of (scanning names n) = none
slot_of (unlinking name names n) = none
slot_of (claiming slot) = none
slot_of (created slot) = some slot
slot_of (undoing slot) = some slot
slot_of (holding slot) = some slot
