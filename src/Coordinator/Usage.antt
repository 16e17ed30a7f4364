-- ===== src/Coordinator/Usage.antt =====
-- debugging/example_process_coordinator_usage.c: its first two examples, as the lines that a process
-- prints, to either stream, and the value that it returns or exits with. What the system answers is an
-- argument; `pc_destroy`, which prints nothing, is left out, as is the third example, which uses a name
-- that no header defines.
pub mod Signaling
pub mod Reports
use waitlock.Base.{
  ℕ, Bool, true, not, ◌&&◌, List, [], ◌∷◌, ◌++◌, codes, Option, none, some, ◌==◌, ◌≡◌, ◌≢◌, refl,
  arith, if◌then◌else◌,
}
use waitlock.Base.Int.{ℤ, pos, minus_one, is_pos, eqb_ℤ}
use waitlock.Coordinator.{
  Role, ProcessCoordinator, created, pc_create, pc_prepare_fork, prepare_down, prepare_up,
  pc_after_fork_parent, pc_after_fork_child,
}
use waitlock.Coordinator.Destroy.{pc_get_error_string, pc_parent_wait_for_child_exit}
use waitlock.Coordinator.Talk.{
  Wait, ReadResult, Received, answers, send_as, receive_as, pc_child_signal_ready,
  pc_parent_wait_for_child_ready,
}
use waitlock.Text.{Str}
use waitlock.Text.Decimal.{print_int}

-- What the system answers.
pub record Answers : Type 0 where
  pub allocated : Bool
  pub down : Option (ℤ × ℤ)
  pub up : Option (ℤ × ℤ)
  pub forked : ℤ  -- by `fork`
  pub own : ℤ  -- by `getpid`
  pub write : ℤ → List ℕ → ℤ
  pub wait : Wait
  pub read : ℤ → ReadResult
  pub waited : ℤ  -- by `waitpid`
  pub status : ℤ
  pub exit_code : ℤ → ℤ  -- WEXITSTATUS

-- The lines, and the value.
abbrev pub Run : Type 0
Run = List Str × ℤ

abbrev pub failed : ℤ → Bool
failed result = not (eqb_ℤ result (pos 0))

abbrev pub error_of : ProcessCoordinator → Str
error_of pc = pc_get_error_string (some pc)

-- What the examples do up to `fork`, and its failure.
abbrev pub fork_example :
    Answers → (ProcessCoordinator → Run) → (ProcessCoordinator → Run) → ℤ × ProcessCoordinator → Run
fork_example a in_child in_parent (result, pc) =
    if failed result
    then ((codes "Failed to prepare fork: " ++ error_of pc) ∷ [], pos 1)
    else if eqb_ℤ a.forked (pos 0)
    then in_child pc
    else if is_pos a.forked
    then in_parent pc
    else (codes "Fork failed" ∷ [], pos 1)

unfoldable pub run_example :
    Answers → Str → (ProcessCoordinator → Run) → (ProcessCoordinator → Run) → Run
run_example a title in_child in_parent = elim (pc_create a.allocated) [
  | none ↦ (title ∷ codes "Failed to create ProcessCoordinator" ∷ [], pos 1)
  | some pc ↦
      let run = fork_example a in_child in_parent (pc_prepare_fork a.down a.up pc) in
      (title ∷ run.0, run.1)
]

-- The first example in the child.
unfoldable pub send_completion : Answers → ℤ × ProcessCoordinator → Run
send_completion a (result, pc) =
    let sent = (send_as Role.child (answers a.write) (some (b'C' ∷ [])) 1 pc tt).0 in
    if failed result
    then ((codes "Child: Failed setup: " ++ error_of pc) ∷ [], pos 1)
    else if failed sent.0
    then (
      codes "Child: Starting work..."
          ∷ (codes "Child: Failed to send completion: " ++ error_of sent.1)
          ∷ [],
      pos 1,
    )
    else (codes "Child: Starting work..." ∷ codes "Child: Work completed, exiting" ∷ [], pos 0)

abbrev pub completed : List ℕ → List Str
completed [] = []
completed (c ∷ message) =
    if c == b'C' then codes "Parent: Child completed successfully!" ∷ [] else []

-- The test of `pc_parent_receive`.
unfoldable pub received : Received → List Str
received (result, message, pc) =
    if failed result
    then (codes "Parent: Failed to receive completion: " ++ error_of pc) ∷ []
    else completed message

abbrev pub exited : Answers → Option ℤ × ℤ × ProcessCoordinator → List Str
exited a (none, result, pc) = []
exited a (some status, result, pc) =
    if failed result
    then []
    else (codes "Parent: Child exited with status " ++ print_int (a.exit_code status)) ∷ []

-- The first example in the parent.
unfoldable pub await_completion : Answers → ℤ × ProcessCoordinator → Run
await_completion a (result, pc) =
    let got = receive_as Role.parent a.wait a.read true 1 pc in
    if failed result then ((codes "Parent: Failed setup: " ++ error_of pc) ∷ [], pos 1) else (
      codes "Parent: Waiting for child completion..."
          ∷ (received got
              ++ (exited a (pc_parent_wait_for_child_exit a.waited a.status got.2)
                  ++ codes "Example 1 completed successfully!" ∷ [] ∷ [])),
      pos 0,
    )

unfoldable pub example_simple_coordination : Answers → Run
example_simple_coordination a =
    run_example a (codes "=== Example 1: Simple Parent-Child Coordination ===")
      (λ pc. send_completion a (pc_after_fork_child a.own pc))
      (λ pc. await_completion a (pc_after_fork_parent a.forked pc))
