-- ===== src/Coordinator/Roles.antt =====
-- The life of a ProcessCoordinator as a step relation, and which ends are open in each role.
use waitlock.Base.{
  ℕ, Bool, true, false, not, ◌≡◌, refl, List, Option, none, some, ◌≤◌, length, if◌then◌else◌, arith,
}
use waitlock.Base.Int.{ℤ, pos, minus_one, is_pos, eqb_ℤ}
use waitlock.Coordinator.{
  Role, ProcessCoordinator, created, pc_prepare_fork, prepare_down, prepare_up,
  pc_after_fork_parent, pc_after_fork_child, pc_set_error, close_end, is_role,
}
use waitlock.Coordinator.Talk.{
  ReadResult, Wait, answers, write_all, write_end, send_to, pc_send, receive_from, take_read,
  pc_receive,
}

-- A pipe as the system makes it: both ends are descriptors.
abbrev pub is_open : ℤ → Bool
is_open fd = not (eqb_ℤ fd minus_one)

abbrev pub Opened : Option (ℤ × ℤ) → Type 0
Opened none = Unit {0}
Opened (some p) = (is_open p.0 ≡ true) × (is_open p.1 ≡ true)

-- One call on the coordinator, in this process.
pub data Step : ProcessCoordinator → ProcessCoordinator → Type 0 where
  prepare :
      (down up : Option (ℤ × ℤ)) (pc : ProcessCoordinator)
      → Opened down
      → Opened up
      → Step pc (pc_prepare_fork down up pc).1
  fork_parent : (pid : ℤ) (pc : ProcessCoordinator) → Step pc (pc_after_fork_parent pid pc).1
  fork_child : (pid : ℤ) (pc : ProcessCoordinator) → Step pc (pc_after_fork_child pid pc).1
  send :
      (write : ℤ → List ℕ → ℤ) (message : Option (List ℕ)) (pc : ProcessCoordinator)
      → Step pc (pc_send (answers write) message pc tt).0.1
  receive :
      (w : Wait) (read : ℤ → ReadResult) (buffer : Bool) (pc : ProcessCoordinator)
      → Step pc (pc_receive w read buffer pc).2

pub data Reachable : ProcessCoordinator → Type 0 where
  start : Reachable created
  next : {p q : ProcessCoordinator} → Reachable p → Step p q → Reachable q

-- Which ends are open in a role: none, all, and after the fork those of this side.
abbrev pub reads_down : Role → Bool
reads_down Role.unset = false
reads_down Role.prepared = true
reads_down Role.parent = false
reads_down Role.child = true

abbrev pub writes_down : Role → Bool
writes_down Role.unset = false
writes_down Role.prepared = true
writes_down Role.parent = true
writes_down Role.child = false

abbrev pub reads_up : Role → Bool
reads_up Role.unset = false
reads_up Role.prepared = true
reads_up Role.parent = true
reads_up Role.child = false

abbrev pub writes_up : Role → Bool
writes_up Role.unset = false
writes_up Role.prepared = true
writes_up Role.parent = false
writes_up Role.child = true

pub record IsWired (pc : ProcessCoordinator) : Type 0 where
  pub down_reads : is_open pc.down_read ≡ reads_down pc.role
  pub down_writes : is_open pc.down_write ≡ writes_down pc.role
  pub up_reads : is_open pc.up_read ≡ reads_up pc.role
  pub up_writes : is_open pc.up_write ≡ writes_up pc.role
  pub has_child : is_role Role.parent pc.role ≡ true → is_pos pc.child_pid ≡ true

-- Only the error message differs.
abbrev SameButMessage : ProcessCoordinator → ProcessCoordinator → Type 0
SameButMessage p q =
    (q.down_read ≡ p.down_read)
    × (q.down_write ≡ p.down_write)
    × (q.up_read ≡ p.up_read)
    × (q.up_write ≡ p.up_write)
    × (q.child_pid ≡ p.child_pid)
    × (q.role ≡ p.role)

same-IsWired : (p q : ProcessCoordinator) → SameButMessage p q → IsWired p → IsWired q
same-IsWired p q (e1, e2, e3, e4, e5, e6) w = record {
  down_reads = rw (e1, e6) w.down_reads;
  down_writes = rw (e2, e6) w.down_writes;
  up_reads = rw (e3, e6) w.up_reads;
  up_writes = rw (e4, e6) w.up_writes;
  has_child = rw (e5, e6) w.has_child;
}

pc_send_same :
    (write : ℤ → List ℕ → ℤ) (message : Option (List ℕ)) (pc : ProcessCoordinator)
    → SameButMessage pc (pc_send (answers write) message pc tt).0.1
unfolding pc_send send_to write_all pc_set_error
pc_send_same write message pc = ground arith

pc_receive_same :
    (w : Wait) (read : ℤ → ReadResult) (buffer : Bool) (pc : ProcessCoordinator)
    → SameButMessage pc (pc_receive w read buffer pc).2
unfolding pc_receive receive_from take_read pc_set_error
pc_receive_same w read buffer pc = ground arith

prepare-IsWired :
    (down up : Option (ℤ × ℤ)) (pc : ProcessCoordinator)
    → Opened down
    → Opened up
    → IsWired pc
    → IsWired (pc_prepare_fork down up pc).1
unfolding pc_prepare_fork prepare_down prepare_up pc_set_error
prepare-IsWired down up pc hd hu w = record {
  down_reads = ground arith;
  down_writes = ground arith;
  up_reads = ground arith;
  up_writes = ground arith;
  has_child = ground arith;
}

parent-IsWired :
    (pid : ℤ) (pc : ProcessCoordinator) → IsWired pc → IsWired (pc_after_fork_parent pid pc).1
unfolding pc_after_fork_parent close_end pc_set_error
parent-IsWired pid pc w = record {
  down_reads = ground (arith, w.down_reads);
  down_writes = ground (arith, w.down_writes);
  up_reads = ground (arith, w.up_reads);
  up_writes = ground (arith, w.up_writes);
  has_child = ground (arith, w.has_child);
}

child-IsWired :
    (pid : ℤ) (pc : ProcessCoordinator) → IsWired pc → IsWired (pc_after_fork_child pid pc).1
unfolding pc_after_fork_child close_end pc_set_error
child-IsWired pid pc w = record {
  down_reads = ground (arith, w.down_reads);
  down_writes = ground (arith, w.down_writes);
  up_reads = ground (arith, w.up_reads);
  up_writes = ground (arith, w.up_writes);
  has_child = ground (arith, w.has_child);
}

Step-IsWired : {p q : ProcessCoordinator} → Step p q → IsWired p → IsWired q
Step-IsWired (Step.prepare down up p hd hu) w = prepare-IsWired down up p hd hu w
Step-IsWired (Step.fork_parent pid p) w = parent-IsWired pid p w
Step-IsWired (Step.fork_child pid p) w = child-IsWired pid p w
Step-IsWired (Step.send write message p) w = same-IsWired p _ (pc_send_same write message p) w
Step-IsWired (Step.receive wait read buffer p) w =
    same-IsWired p _ (pc_receive_same wait read buffer p) w

-- After any sequence of calls on a new coordinator, the open ends are those of its role: none before
-- `pc_prepare_fork`, all four before the fork, and after it the parent's or the child's own; and a
-- parent has the process number of a child.
pub Reachable-IsWired : {pc : ProcessCoordinator} → Reachable pc → IsWired pc
Reachable-IsWired Reachable.start = record {
  down_reads = refl;
  down_writes = refl;
  up_reads = refl;
  up_writes = refl;
  has_child = λ h. ground arith;
}
Reachable-IsWired (Reachable.next r s) = Step-IsWired s (Reachable-IsWired r)

-- On a coordinator that calls have led to, `pc_send` in a role that writes is decided by `write`
-- alone: it gives its result if all was written, and -1 if not, never that the pipe is not there.
pub pc_send-Reachable :
    (write : ℤ → List ℕ → ℤ) (message : List ℕ) (pc : ProcessCoordinator) (fd : ℤ)
    → Reachable pc
    → write_end pc pc.role ≡ some fd
    → (pc_send (answers write) (some message) pc tt).0.0
      ≡ (if eqb_ℤ (write fd message) (pos (length message)) then write fd message else minus_one)
unfolding pc_send send_to write_all pc_set_error write_end
pc_send-Reachable write message pc fd r h =
    let w = Reachable-IsWired r in ground (arith, w.down_writes, w.up_writes)

abbrev pub rank : Role → ℕ
rank Role.unset = 0
rank Role.prepared = 1
rank Role.parent = 2
rank Role.child = 2

-- No call takes a coordinator back to an earlier role, and once it is the parent's or the child's the
-- role stays.
pub Step-rank :
    {p q : ProcessCoordinator}
    → Step p q
    → (rank p.role ≤ rank q.role) × (rank p.role ≡ 2 → q.role ≡ p.role)
unfolding pc_prepare_fork prepare_down prepare_up pc_after_fork_parent pc_after_fork_child
    pc_set_error
Step-rank (Step.prepare down up p hd hu) = ground arith
Step-rank (Step.fork_parent pid p) = ground arith
Step-rank (Step.fork_child pid p) = ground arith
Step-rank (Step.send write message p) =
    let e = pc_send_same write message p in (rw e.5 (omega arith), λ h. e.5)
Step-rank (Step.receive wait read buffer p) =
    let e = pc_receive_same wait read buffer p in (rw e.5 (omega arith), λ h. e.5)
