-- ===== src/Coordinator/Tests.antt =====
-- debugging/debug_process_coordinator.c: its tests, as the assertions of the parent with their
-- messages, and the lines and the exit code of the child. What the system answers is an argument; the
-- sleeps, `pc_destroy`, and the lines that are no assertion are left out.
pub mod Timing
use waitlock.Base.{
  ℕ, suc, Bool, true, false, not, ◌&&◌, List, [], ◌∷◌, ◌++◌, codes, Option, none, some, ◌==◌,
  if◌then◌else◌,
}
use waitlock.Base.Int.{ℤ, pos, is_neg, is_pos, eqb_ℤ}
use waitlock.Coordinator.{
  Role, ProcessCoordinator, pc_create, pc_prepare_fork, pc_after_fork_parent, pc_after_fork_child,
}
use waitlock.Coordinator.Destroy.{
  pc_get_error_string, pc_is_child_alive, pc_parent_wait_for_child_exit,
}
use waitlock.Coordinator.Talk.{
  Wait, ReadResult, Received, answers, send_as, receive_as, pc_child_signal_ready,
  pc_parent_wait_for_child_ready,
}
use waitlock.Process.{Probe}
use waitlock.Text.{Str, c_string, str_eq}

-- What a status of `waitpid` says.
pub data ChildStatus : Type 0 where
  exited signalled : ℕ → ChildStatus
  other : ChildStatus

-- What the system answers; a process makes at most two calls of `write`, and of `select` and `read`.
pub record Replies : Type 0 where
  pub allocated : Bool
  pub down : Option (ℤ × ℤ)
  pub up : Option (ℤ × ℤ)
  pub forked : ℤ  -- by `fork`
  pub own : ℤ  -- by `getpid`
  pub write : ℤ → List ℕ → ℤ
  pub then_write : ℤ → List ℕ → ℤ
  pub wait : Wait
  pub read : ℤ → ReadResult
  pub then_wait : Wait
  pub then_read : ℤ → ReadResult
  pub probe : Probe
  pub waited : ℤ  -- by `waitpid`
  pub status : ℤ
  pub decode : ℤ → ChildStatus

-- An assertion: whether it holds, and its message.
abbrev pub Assertion : Type 0
Assertion = Bool × Str

-- A test returns in the parent, or exits in the child after the assertions made before `fork`.
pub data TestRun : Type 0 where
  returns : List Assertion → ℤ → TestRun
  exits : List Assertion → List Str → ℤ → TestRun

abbrev pub succeeded : ℤ → Bool
succeeded result = eqb_ℤ result (pos 0)

abbrev pub error_line : Str → ProcessCoordinator → List Str
error_line text pc = (text ++ pc_get_error_string (some pc)) ∷ []

-- Assertions in front of those of a test.
unfoldable pub after : List Assertion → TestRun → TestRun
after made (returns rest value) = returns (made ++ rest) value
after made (exits rest lines code) = exits (made ++ rest) lines code

-- The tests up to `fork`.
unfoldable pub fork_test :
    Replies
    → (ProcessCoordinator → List Str × ℤ)
    → (ProcessCoordinator → List Assertion × ℤ)
    → ℤ × ProcessCoordinator
    → TestRun
fork_test s in_child in_parent (prepared, pc) =
    after ((succeeded prepared, codes "Should prepare fork successfully") ∷ []) (
      if not (succeeded prepared)
      then returns [] (pos 1)
      else if eqb_ℤ s.forked (pos 0)
      then exits [] (in_child pc).0 (in_child pc).1
      else if is_pos s.forked
      then returns (in_parent pc).0 (in_parent pc).1
      else returns ((false, codes "Fork failed") ∷ []) (pos 1))

unfoldable pub run_test :
    Replies
    → (ProcessCoordinator → List Str × ℤ)
    → (ProcessCoordinator → List Assertion × ℤ)
    → TestRun
run_test s in_child in_parent = elim (pc_create s.allocated) [
  | none ↦ returns ((false, codes "Should create ProcessCoordinator successfully") ∷ []) (pos 1)
  | some pc ↦
      after ((true, codes "Should create ProcessCoordinator successfully") ∷ [])
        (fork_test s in_child in_parent (pc_prepare_fork s.down s.up pc))
]

-- The set-up of the two sides, and what follows it.
unfoldable pub set_up_child :
    (ProcessCoordinator → List Str × ℤ) → ℤ × ProcessCoordinator → List Str × ℤ
set_up_child go (result, pc) =
    if succeeded result then go pc else (error_line (codes "Child setup failed: ") pc, pos 1)

unfoldable pub set_up_parent :
    (ProcessCoordinator → List Assertion) → ℤ × ProcessCoordinator → List Assertion × ℤ
set_up_parent go (result, pc) =
    if succeeded result
    then ((true, codes "Should set up parent successfully") ∷ go pc, pos 0)
    else ((false, codes "Should set up parent successfully") ∷ [], pos 1)

abbrev pub hello : Str
hello = codes "Hello from child"

-- `test_pc_basic_communication` in the child.
unfoldable pub sends_done : Replies → ProcessCoordinator → List Str × ℤ
sends_done s pc =
    let final = (send_as Role.child (answers s.then_write) (some (b'D' ∷ [])) 1 pc tt).0 in
    if succeeded final.0
    then ([], pos 0)
    else (error_line (codes "Child final send failed: ") final.1, pos 1)

unfoldable pub says_hello : Replies → ProcessCoordinator → List Str × ℤ
says_hello s pc =
    let sent = (send_as Role.child (answers s.write) (some hello) 16 pc tt).0 in
    if succeeded sent.0
    then sends_done s sent.1
    else (error_line (codes "Child send failed: ") sent.1, pos 1)

-- `buffer` of 256 bytes, and one byte.
abbrev pub is_hello : Received → Bool
is_hello (result, message, pc) = is_pos result && str_eq (c_string message) hello

unfoldable pub is_done : Received → Bool
is_done (result, [], pc) = false
is_done (result, c ∷ message, pc) = is_pos result && c == b'D'

-- A status that `pc_parent_wait_for_child_exit` has not stored tells nothing.
unfoldable pub exit_status : Replies → Option ℤ × ℤ × ProcessCoordinator → ChildStatus
exit_status s (none, result, pc) = other
exit_status s (some status, result, pc) = s.decode status

unfoldable pub is_clean : ChildStatus → Bool
is_clean (exited code) = code == 0
is_clean (signalled sig) = false
is_clean other = false

unfoldable pub hears_hello : Replies → ProcessCoordinator → List Assertion
hears_hello s pc =
    let got = receive_as Role.parent s.wait s.read true 256 pc in
    let final = receive_as Role.parent s.then_wait s.then_read true 1 got.2 in
    let ended = pc_parent_wait_for_child_exit s.waited s.status final.2 in
    (is_hello got, codes "Should receive message from child")
    ∷ (is_done final, codes "Parent should receive final signal from child")
    ∷ (succeeded ended.1, codes "Should wait for child successfully")
    ∷ (is_clean (exit_status s ended), codes "Child should exit successfully")
    ∷ []

unfoldable pub test_pc_basic_communication : Replies → TestRun
test_pc_basic_communication s =
    run_test s (λ pc. set_up_child (says_hello s) (pc_after_fork_child s.own pc))
      (λ pc. set_up_parent (hears_hello s) (pc_after_fork_parent s.forked pc))

-- `test_pc_ready_signaling`; the child exits with 0 even if the acknowledgment does not come.
unfoldable pub takes_ack : Replies → ProcessCoordinator → List Str × ℤ
takes_ack s pc =
    let got = receive_as Role.child s.wait s.read true 1 pc in
    ((if is_pos got.0 then [] else error_line (codes "Child ack receive failed: ") got.2), pos 0)

unfoldable pub signals_ready : Replies → ProcessCoordinator → List Str × ℤ
signals_ready s pc =
    let sent = (pc_child_signal_ready (answers s.write) pc tt).0 in
    if succeeded sent.0
    then takes_ack s sent.1
    else (error_line (codes "Child signal ready failed: ") sent.1, pos 1)

unfoldable pub acknowledges : Replies → ProcessCoordinator → List Assertion
acknowledges s pc =
    let ready = pc_parent_wait_for_child_ready s.wait s.read pc in
    let sent = (send_as Role.parent (answers s.write) (some (b'A' ∷ [])) 1 ready.1 tt).0 in
    let ended = pc_parent_wait_for_child_exit s.waited s.status sent.1 in
    (succeeded ready.0, codes "Should receive ready signal from child")
    ∷ (succeeded sent.0, codes "Should send acknowledgment")
    ∷ (succeeded ended.1, codes "Should wait for child successfully")
    ∷ (if is_clean (exit_status s ended)
        then (true, codes "Child should exit successfully") ∷ []
        else [])

unfoldable pub test_pc_ready_signaling : Replies → TestRun
test_pc_ready_signaling s =
    run_test s (λ pc. set_up_child (signals_ready s) (pc_after_fork_child s.own pc))
      (λ pc. set_up_parent (acknowledges s) (pc_after_fork_parent s.forked pc))

-- `test_pc_timeout_handling`: the child is silent, and is sent SIGTERM (15).
abbrev pub is_handled : ChildStatus → Bool
is_handled (exited code) = code == 0
is_handled (signalled sig) = sig == 15
is_handled other = false

unfoldable pub times_out : Replies → ProcessCoordinator → List Assertion
times_out s pc =
    let got = receive_as Role.parent s.wait s.read true 256 pc in
    let ended = pc_parent_wait_for_child_exit s.waited s.status got.2 in
    (is_neg got.0, codes "Should timeout waiting for data")
    ∷ (pc_is_child_alive s.probe got.2, codes "Child should still be alive after parent timeout")
    ∷ (succeeded ended.1, codes "Should wait for child successfully after cleanup")
    ∷ (if is_handled (exit_status s ended)
        then (true, codes "Child should exit or be signaled") ∷ []
        else [])

unfoldable pub test_pc_timeout_handling : Replies → TestRun
test_pc_timeout_handling s =
    run_test s (λ pc. set_up_child (λ pc. ([], pos 0)) (pc_after_fork_child s.own pc))
      (λ pc. set_up_parent (times_out s) (pc_after_fork_parent s.forked pc))

-- `pass_count` and `fail_count`
unfoldable pub failures : List Assertion → ℕ
failures [] = 0
failures ((holds, message) ∷ rest) = if holds then failures rest else suc (failures rest)

abbrev pub assertions : TestRun → List Assertion
assertions (returns made value) = made
assertions (exits made lines code) = made

-- `main`: a test that exits in a child ends it there; the parent answers by whether one has failed.
unfoldable pub then_test : TestRun → TestRun → TestRun
then_test (returns made value) rest = after made rest
then_test (exits made lines code) rest = exits made lines code

unfoldable pub run_tests : Replies → Replies → Replies → TestRun
run_tests a b c = then_test (test_pc_basic_communication a) (
    then_test (test_pc_ready_signaling b)
      (then_test (test_pc_timeout_handling c) (returns [] (pos 0))))

unfoldable pub main_code : TestRun → ℤ
main_code (returns made value) = if failures made == 0 then pos 0 else pos 1
main_code (exits made lines code) = code
