-- ===== src/Coordinator.antt =====
-- process_coordinator/process_coordinator.c: two pipes between a parent and its child, and the role
-- that a process has. A closed end is -1. An operation gives back its result and the coordinator;
-- what the system answers is an argument. `debug` output and `fsync` are left out.
pub mod Talk
pub mod Roles
pub mod Paired
pub mod Destroy
pub mod Channel
pub mod Usage
pub mod Tests
use waitlock.Base.{
  ℕ, Bool, true, false, not, ◌&&◌, ◌||◌, List, [], ◌∷◌, codes, Option, none, some, if◌then◌else◌,
}
use waitlock.Base.Int.{ℤ, pos, minus_one, is_pos, eqb_ℤ}
use waitlock.Text.{Str, truncate}

-- `PC_ROLE_UNSET` and so on
pub data Role : Type 0 where
  unset prepared parent child : Role

-- `ProcessCoordinator`: `down` is the pipe from the parent to the child, `up` the other.
pub record ProcessCoordinator : Type 0 where
  pub down_read : ℤ
  pub down_write : ℤ
  pub up_read : ℤ
  pub up_write : ℤ
  pub child_pid : ℤ
  pub role : Role
  pub error_msg : Str

abbrev pub is_role : Role → Role → Bool
is_role Role.unset Role.unset = true
is_role Role.prepared Role.prepared = true
is_role Role.parent Role.parent = true
is_role Role.child Role.child = true
is_role _ _ = false

-- An operation on a pointer that may be null.
abbrev pub or_null :
    (ProcessCoordinator → ℤ × ProcessCoordinator)
    → Option ProcessCoordinator
    → ℤ × Option ProcessCoordinator
or_null f none = (minus_one, none)
or_null f (some pc) = let r = f pc in (r.0, some r.1)

abbrev pub created : ProcessCoordinator
created = record {
  down_read = minus_one;
  down_write = minus_one;
  up_read = minus_one;
  up_write = minus_one;
  child_pid = minus_one;
  role = Role.unset;
  error_msg = [];
}

-- `pc_create`, by whether `malloc` gives memory.
unfoldable pub pc_create : Bool → Option ProcessCoordinator
pc_create allocated = if allocated then some created else none

-- `pc_set_error`, with `char error_msg[256]`
unfoldable pub pc_set_error : Str → ProcessCoordinator → ℤ × ProcessCoordinator
pc_set_error msg pc = (minus_one, record pc { error_msg = truncate 256 msg })

-- `pc_prepare_fork` once the first pipe is there.
unfoldable pub prepare_up : Option (ℤ × ℤ) → ProcessCoordinator → ℤ × ProcessCoordinator
prepare_up none pc =
    pc_set_error (codes "Failed to create child->parent pipe")
      (record pc { down_read = minus_one; down_write = minus_one })
prepare_up (some up) pc =
    (pos 0, record pc { up_read = up.0; up_write = up.1; role = Role.prepared })

unfoldable pub prepare_down :
    Option (ℤ × ℤ) → Option (ℤ × ℤ) → ProcessCoordinator → ℤ × ProcessCoordinator
prepare_down none up pc = pc_set_error (codes "Failed to create parent->child pipe") pc
prepare_down (some down) up pc =
    prepare_up up (record pc { down_read = down.0; down_write = down.1 })

-- `pc_prepare_fork`, with what the two calls of `pipe` give: a read end and a write end.
unfoldable pub pc_prepare_fork :
    Option (ℤ × ℤ) → Option (ℤ × ℤ) → ProcessCoordinator → ℤ × ProcessCoordinator
pc_prepare_fork down up pc =
    if is_role Role.unset pc.role
    then prepare_down down up pc
    else pc_set_error (codes "ProcessCoordinator already initialized") pc

-- `pc_close_pipe_safe` leaves -1 in an end, open or not.
unfoldable pub close_end : ℤ → ℤ
close_end fd = if eqb_ℤ fd minus_one then fd else minus_one

unfoldable pub pc_after_fork_parent : ℤ → ProcessCoordinator → ℤ × ProcessCoordinator
pc_after_fork_parent pid pc =
    if not (is_pos pid)
    then (minus_one, pc)
    else if not (is_role Role.prepared pc.role)
    then pc_set_error (codes "ProcessCoordinator not prepared for fork") pc
    else (
      pos 0,
      record pc {
        role = Role.parent;
        child_pid = pid;
        down_read = close_end pc.down_read;
        up_write = close_end pc.up_write;
      },
    )

-- `pc_after_fork_child`, with `getpid()`
unfoldable pub pc_after_fork_child : ℤ → ProcessCoordinator → ℤ × ProcessCoordinator
pc_after_fork_child pid pc =
    if not (is_role Role.prepared pc.role)
    then pc_set_error (codes "ProcessCoordinator not prepared for fork") pc
    else (
      pos 0,
      record pc {
        role = Role.child;
        child_pid = pid;
        down_write = close_end pc.down_write;
        up_read = close_end pc.up_read;
      },
    )
