-- ===== src/Coordinator/Usage/Signaling.antt =====
-- debugging/example_process_coordinator_usage.c: the second example, a ready signal that is
-- acknowledged.
use waitlock.Base.{ℕ, Bool, true, false, ◌&&◌, List, [], ◌∷◌, ◌++◌, codes, ◌==◌, if◌then◌else◌}
use waitlock.Base.Int.{ℤ, pos, eqb_ℤ}
use waitlock.Coordinator.{Role, ProcessCoordinator, pc_after_fork_parent, pc_after_fork_child}
use waitlock.Coordinator.Talk.{
  Received, answers, receive_as, pc_child_signal_ready, pc_parent_wait_for_child_ready,
}
use waitlock.Coordinator.Usage.{Answers, Run, failed, error_of, run_example}
use waitlock.Text.{Str}

abbrev pub is_ack : List ℕ → Bool
is_ack [] = false
is_ack (c ∷ message) = c == b'A'

-- The test of `pc_child_receive`.
unfoldable pub acknowledged : Received → List Str
acknowledged (result, message, pc) =
    if eqb_ℤ result (pos 0) && is_ack message
    then codes "Child: Received acknowledgment from parent" ∷ []
    else []

-- The child, from its ready signal on.
unfoldable pub after_signal : Answers → ℤ × ProcessCoordinator → Run
after_signal a (result, pc) =
    if failed result
    then ((codes "Child: Failed to signal ready: " ++ error_of pc) ∷ [], pos 1)
    else (
      codes "Child: Ready signal sent"
          ∷ acknowledged (receive_as Role.child a.wait a.read true 1 pc),
      pos 0,
    )

unfoldable pub signal_ready : Answers → ℤ × ProcessCoordinator → Run
signal_ready a (result, pc) =
    let run = after_signal a ((pc_child_signal_ready (answers a.write) pc tt).0) in
    if failed result then ([], pos 1) else (codes "Child: Initializing..." ∷ run.0, run.1)

-- The parent: its acknowledgment is sent, and the result of that is not tested.
unfoldable pub answered_ready : ℤ × ProcessCoordinator → List Str
answered_ready (result, pc) =
    if failed result
    then (codes "Parent: Child ready timeout: " ++ error_of pc) ∷ []
    else codes "Parent: Child is ready!" ∷ []

unfoldable pub await_ready : Answers → ℤ × ProcessCoordinator → Run
await_ready a (result, pc) = if failed result then ([], pos 1) else (
  codes "Parent: Waiting for child to be ready..."
      ∷ (answered_ready (pc_parent_wait_for_child_ready a.wait a.read pc)
          ++ codes "Example 2 completed successfully!" ∷ [] ∷ []),
  pos 0,
)

unfoldable pub example_ready_signaling : Answers → Run
example_ready_signaling a =
    run_example a (codes "=== Example 2: Ready Signaling Pattern ===")
      (λ pc. signal_ready a (pc_after_fork_child a.own pc))
      (λ pc. await_ready a (pc_after_fork_parent a.forked pc))
