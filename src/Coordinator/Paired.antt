-- ===== src/Coordinator/Paired.antt =====
-- The two sides of a fork: the same coordinator, continued by the parent and by the child.
use waitlock.Base.{true, ◌≡◌, some, arith}
use waitlock.Base.Int.{ℤ, is_pos}
use waitlock.Coordinator.{
  ProcessCoordinator, created, pc_prepare_fork, prepare_down, prepare_up, pc_after_fork_parent,
  pc_after_fork_child,
}
use waitlock.Coordinator.Talk.{write_end, read_end}

abbrev pub parent_side : ℤ × ℤ → ℤ × ℤ → ℤ → ProcessCoordinator
parent_side down up pid =
    (pc_after_fork_parent pid (pc_prepare_fork (some down) (some up) created).1).1

abbrev pub child_side : ℤ × ℤ → ℤ × ℤ → ℤ → ProcessCoordinator
child_side down up pid =
    (pc_after_fork_child pid (pc_prepare_fork (some down) (some up) created).1).1

-- After the fork each side writes to the pipe that the other reads from: the parent to the first, the
-- child to the second.
pub sides-paired :
    (down up : ℤ × ℤ) (pid own : ℤ)
    → is_pos pid ≡ true
    → (write_end (parent_side down up pid) (parent_side down up pid).role ≡ some down.1)
      × (read_end (child_side down up own) (child_side down up own).role ≡ some down.0)
      × (write_end (child_side down up own) (child_side down up own).role ≡ some up.1)
      × (read_end (parent_side down up pid) (parent_side down up pid).role ≡ some up.0)
unfolding pc_prepare_fork prepare_down prepare_up pc_after_fork_parent pc_after_fork_child write_end
    read_end
sides-paired down up pid own h = ground arith
