-- ===== src/Pipe.antt =====
-- pipe_coordinator/pipe_coordinator.c: a pipe and a child. A closed end is -1; the calls of `close`
-- are a list; what the system answers is an argument.
pub mod Closing
use waitlock.Base.{ℕ, Bool, not, ◌||◌, List, [], ◌∷◌, ◌++◌, Option, none, some, if◌then◌else◌}
use waitlock.Base.Int.{ℤ, minus_one, eqb_ℤ}

pub record PipeCoordinator : Type 0 where
  pub read_fd : ℤ  -- `pipefd[0]`
  pub write_fd : ℤ  -- `pipefd[1]`
  pub child_pid : ℤ

-- `pipe_coordinator_create`, by whether `malloc` gives memory and by the ends that `pipe` gives.
unfoldable pub pipe_coordinator_create : Bool → Option (ℤ × ℤ) → Option PipeCoordinator
pipe_coordinator_create allocated none = none
pipe_coordinator_create allocated (some ends) =
    if allocated
    then some (record { read_fd = ends.0; write_fd = ends.1; child_pid = minus_one })
    else none

unfoldable pub pipe_coordinator_get_read_fd : Option PipeCoordinator → ℤ
pipe_coordinator_get_read_fd none = minus_one
pipe_coordinator_get_read_fd (some pc) = pc.read_fd

unfoldable pub pipe_coordinator_get_write_fd : Option PipeCoordinator → ℤ
pipe_coordinator_get_write_fd none = minus_one
pipe_coordinator_get_write_fd (some pc) = pc.write_fd

unfoldable pub pipe_coordinator_get_child_pid : Option PipeCoordinator → ℤ
pipe_coordinator_get_child_pid none = minus_one
pipe_coordinator_get_child_pid (some pc) = pc.child_pid

unfoldable pub pipe_coordinator_set_child_pid : ℤ → Option PipeCoordinator → Option PipeCoordinator
pipe_coordinator_set_child_pid pid none = none
pipe_coordinator_set_child_pid pid (some pc) = some (record pc { child_pid = pid })

-- The descriptors closed, and the coordinator.
abbrev pub Closed : Type 0
Closed = List ℤ × Option PipeCoordinator

-- `pipe_coordinator_close_read_end`, and `pipe_coordinator_parent_close_read`
unfoldable pub pipe_coordinator_close_read_end : Option PipeCoordinator → Closed
pipe_coordinator_close_read_end none = ([], none)
pipe_coordinator_close_read_end (some pc) =
    if not (eqb_ℤ pc.read_fd minus_one)
    then (pc.read_fd ∷ [], some (record pc { read_fd = minus_one }))
    else ([], some pc)

-- `pipe_coordinator_close_write_end`, and `pipe_coordinator_child_close_write`
unfoldable pub pipe_coordinator_close_write_end : Option PipeCoordinator → Closed
pipe_coordinator_close_write_end none = ([], none)
pipe_coordinator_close_write_end (some pc) =
    if not (eqb_ℤ pc.write_fd minus_one)
    then (pc.write_fd ∷ [], some (record pc { write_fd = minus_one }))
    else ([], some pc)

-- The result of a call, or -1 with this `errno`.
pub data Result : Type 0 where
  gives : ℤ → Result
  ebadf einval : Result

unfoldable pub pipe_coordinator_write : (ℤ → List ℕ → ℤ) → List ℕ → Option PipeCoordinator → Result
pipe_coordinator_write write buf none = Result.ebadf
pipe_coordinator_write write buf (some pc) =
    if eqb_ℤ pc.write_fd minus_one then Result.ebadf else Result.gives (write pc.write_fd buf)

unfoldable pub pipe_coordinator_read : (ℤ → ℤ) → Option PipeCoordinator → Result
pipe_coordinator_read read none = Result.ebadf
pipe_coordinator_read read (some pc) =
    if eqb_ℤ pc.read_fd minus_one then Result.ebadf else Result.gives (read pc.read_fd)

unfoldable pub pipe_coordinator_wait_for_child : (ℤ → ℤ) → Option PipeCoordinator → Result
pipe_coordinator_wait_for_child waitpid none = Result.einval
pipe_coordinator_wait_for_child waitpid (some pc) =
    if eqb_ℤ pc.child_pid minus_one then Result.einval else Result.gives (waitpid pc.child_pid)

-- `pipe_coordinator_destroy`: what it closes.
unfoldable pub pipe_coordinator_destroy : Option PipeCoordinator → List ℤ
pipe_coordinator_destroy pc =
    let read = pipe_coordinator_close_read_end pc in
    let write = pipe_coordinator_close_write_end read.1 in read.0 ++ write.0
