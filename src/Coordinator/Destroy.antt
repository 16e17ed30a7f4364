-- ===== src/Coordinator/Destroy.antt =====
-- process_coordinator/process_coordinator.c: the child's state, the error string, and `pc_destroy` as
-- the calls that it makes.
use waitlock.Base.{
  Bool, true, false, not, ◌&&◌, ◌≡◌, List, [], ◌∷◌, ◌++◌, codes, Option, none, some, if◌then◌else◌,
  arith,
}
use waitlock.Base.Int.{ℤ, pos, minus_one, is_pos, eqb_ℤ}
use waitlock.Coordinator.{Role, ProcessCoordinator, is_role, pc_set_error}
use waitlock.Coordinator.Roles.{is_open, Reachable, Reachable-IsWired}
use waitlock.Process.{Probe, KillResult}
use waitlock.Text.{Str}

pub data Call : Type 0 where
  close : ℤ → Call
  terminate : ℤ → Call  -- SIGTERM
  pause : Call  -- 100 ms
  kill : ℤ → Call  -- SIGKILL
  reap : ℤ → Call  -- `waitpid` with WNOHANG

abbrev is_zero : KillResult → Bool
is_zero KillResult.delivered = true
is_zero KillResult.eperm = false
is_zero KillResult.esrch = false
is_zero KillResult.einval = false

unfoldable pub pc_is_child_alive : Probe → ProcessCoordinator → Bool
pc_is_child_alive probe pc =
    is_role Role.parent pc.role && is_pos pc.child_pid && is_zero (probe pc.child_pid)

unfoldable pub or_no_error : Str → Str
or_no_error [] = codes "No error"
or_no_error (c ∷ s) = c ∷ s

unfoldable pub pc_get_error_string : Option ProcessCoordinator → Str
pc_get_error_string none = codes "Invalid ProcessCoordinator"
pc_get_error_string (some pc) = or_no_error pc.error_msg

unfoldable pub close_pipe_safe : ℤ → List Call
close_pipe_safe fd = if is_open fd then Call.close fd ∷ [] else []

-- What happens to the child, by what `kill(pid, 0)` answers before and after SIGTERM.
unfoldable pub end_child : Probe → Probe → ProcessCoordinator → List Call
end_child before after pc =
    if pc_is_child_alive before pc
    then Call.terminate pc.child_pid
      ∷ Call.pause
      ∷ ((if pc_is_child_alive after pc then Call.kill pc.child_pid ∷ [] else [])
          ++ Call.reap pc.child_pid ∷ [])
    else []

-- The ends are closed, then the child is ended; the test of role and process number around the latter
-- is also the first of `pc_is_child_alive`.
unfoldable pub pc_destroy : Probe → Probe → Option ProcessCoordinator → List Call
pc_destroy before after none = []
pc_destroy before after (some pc) =
    close_pipe_safe pc.down_read
    ++ (close_pipe_safe pc.down_write
        ++ (close_pipe_safe pc.up_read
            ++ (close_pipe_safe pc.up_write
                ++ (if is_role Role.parent pc.role && is_pos pc.child_pid
                    then end_child before after pc
                    else []))))

-- `pc_parent_wait_for_child_exit`, with the result of `waitpid` and the status that it stores.
unfoldable pub pc_parent_wait_for_child_exit :
    ℤ → ℤ → ProcessCoordinator → Option ℤ × ℤ × ProcessCoordinator
pc_parent_wait_for_child_exit waited status pc =
    if not (is_role Role.parent pc.role && is_pos pc.child_pid)
    then (none, minus_one, pc)
    else if eqb_ℤ waited pc.child_pid
    then (some status, pos 0, pc)
    else (let r = pc_set_error (codes "waitpid failed") pc in (none, r.0, r.1))

-- What `pc_destroy` does in each role.
abbrev pub destroyed : Probe → Probe → ProcessCoordinator → Role → List Call
destroyed before after pc Role.unset = []
destroyed before after pc Role.prepared =
    Call.close pc.down_read
    ∷ Call.close pc.down_write
    ∷ Call.close pc.up_read
    ∷ Call.close pc.up_write
    ∷ []
destroyed before after pc Role.parent =
    Call.close pc.down_write ∷ Call.close pc.up_read ∷ end_child before after pc
destroyed before after pc Role.child = Call.close pc.down_read ∷ Call.close pc.up_write ∷ []

-- On a coordinator that calls have led to, `pc_destroy` closes each end that is open in its role once
-- and nothing else, and only a parent ends a child.
pub pc_destroy-Reachable :
    (before after : Probe) (pc : ProcessCoordinator)
    → Reachable pc
    → pc_destroy before after (some pc) ≡ destroyed before after pc pc.role
unfolding pc_destroy close_pipe_safe
pc_destroy-Reachable before after pc r =
    let w = Reachable-IsWired r in
    ground (arith, w.down_reads, w.down_writes, w.up_reads, w.up_writes, w.has_child)
