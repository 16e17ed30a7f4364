-- ===== src/Coordinator/Tests/Timing.antt =====
-- When the tests of the coordinator pass.
use waitlock.Base.{
  ℕ, suc, Bool, true, false, List, [], ◌∷◌, ◌++◌, codes, Option, some, ◌≡◌, refl, ==_refl, ap, ◌∙◌,
  length, take, arith, if◌then◌else◌,
}
use waitlock.Base.Int.{ℤ, pos, negsuc, is_pos, minus_one, eqb_ℤ}
use waitlock.Coordinator.{
  Role, ProcessCoordinator, created, pc_create, pc_prepare_fork, close_end, pc_set_error,
  prepare_down, prepare_up, pc_after_fork_parent,
}
use waitlock.Coordinator.Destroy.{pc_parent_wait_for_child_exit}
use waitlock.Coordinator.Talk.{
  Wait, ReadResult, Received, bytes, select_loop, receive_as, pc_receive, receive_from, take_read,
  read_end, pc_wait_for_data, terminated,
}
use waitlock.Coordinator.Tests.{
  Replies, ChildStatus, Assertion, returns, hello, is_done, is_clean, exit_status, hears_hello,
  failures, assertions, test_pc_basic_communication, run_test, fork_test, after, set_up_parent,
}
use waitlock.Text.{Str, c_string, str_eq, truncate}

-- The coordinator of the parent behind the fork, with its last error.
abbrev wired : ℤ × ℤ → ℤ × ℤ → ℤ → Str → ProcessCoordinator
wired down up pid error = record {
  down_read = close_end down.0;
  down_write = down.1;
  up_read = up.0;
  up_write = close_end up.1;
  child_pid = pid;
  role = Role.parent;
  error_msg = error;
}

-- What the parent receives once there are bytes.
parent_receives :
    (down up : ℤ × ℤ) (pid : ℤ) (w : Wait) (read : ℤ → ReadResult) (len : ℕ) (c : ℕ) (m : List ℕ)
    → eqb_ℤ up.0 minus_one ≡ false
    → select_loop w ≡ pos 0
    → read up.0 ≡ bytes (c ∷ m)
    → receive_as Role.parent w read true len (wired down up pid [])
      ≡ (pos (suc (length m)), terminated len (c ∷ m), wired down up pid [])
unfolding read_end receive_as pc_receive receive_from take_read pc_wait_for_data length
parent_receives down up pid w read len c m is hw hr =
    let some_byte : is_pos (pos (suc (length m))) ≡ true = ground arith in
    rw (is, hw, hr, some_byte) refl

waits_for_exit :
    (down up : ℤ × ℤ) (pid status : ℤ) (error : Str)
    → is_pos pid ≡ true
    → pc_parent_wait_for_child_exit pid status (wired down up pid error)
      ≡ (some status, pos 0, wired down up pid error)
unfolding pc_parent_wait_for_child_exit
waits_for_exit down up (pos n) status error h = rw (h, ==_refl n) refl
waits_for_exit down up (negsuc n) status error h = cc

-- What the parent of the first test asserts of what it has received first, and second.
hears :
    (s : Replies) (down up : ℤ × ℤ) (c : ℕ) (m : List ℕ) (final : Received) (error : Str)
    → is_pos s.forked ≡ true
    → eqb_ℤ up.0 minus_one ≡ false
    → select_loop s.wait ≡ pos 0
    → s.read up.0 ≡ bytes (c ∷ m)
    → s.waited ≡ s.forked
    → receive_as Role.parent s.then_wait s.then_read true 1 (wired down up s.forked []) ≡ final
    → final.2 ≡ wired down up s.forked error
    → hears_hello s (wired down up s.forked [])
      ≡ (
        str_eq (c_string (terminated 256 (c ∷ m))) hello,
        codes "Should receive message from child",
      )
        ∷ (is_done final, codes "Parent should receive final signal from child")
        ∷ (true, codes "Should wait for child successfully")
        ∷ (is_clean (s.decode s.status), codes "Child should exit successfully")
        ∷ []
unfolding hears_hello exit_status
hears s down up c m final error h is hw hr waited second same =
    let some_byte : is_pos (pos (suc (length m))) ≡ true = ground arith in
    let ended : pc_parent_wait_for_child_exit s.waited s.status final.2
        ≡ (some s.status, pos 0, wired down up s.forked error) =
      ap (λ (z : ℤ). pc_parent_wait_for_child_exit z s.status final.2) waited
      ∙ ap (pc_parent_wait_for_child_exit s.forked s.status) same
      ∙ waits_for_exit down up s.forked s.status error h in
    rw (parent_receives down up s.forked s.wait s.read 256 c m is hw hr, second, some_byte, ended)
      refl

closed :
    (down up : ℤ × ℤ) (pid : ℤ) (w : Wait) (read : ℤ → ReadResult) (len : ℕ)
    → eqb_ℤ up.0 minus_one ≡ false
    → select_loop w ≡ pos 0
    → read up.0 ≡ bytes []
    → receive_as Role.parent w read true len (wired down up pid [])
      ≡ (minus_one, [], wired down up pid (codes "Pipe closed unexpectedly"))
unfolding read_end receive_as pc_receive receive_from take_read pc_wait_for_data pc_set_error
    truncate take
closed down up pid w read len is hw hr = rw (is, hw, hr) refl

positive-not_zero : (z : ℤ) → is_pos z ≡ true → eqb_ℤ z (pos 0) ≡ false
positive-not_zero (pos n) h = ground arith
positive-not_zero (negsuc n) h = refl

abbrev prepared : ℤ × ℤ → ℤ × ℤ → ProcessCoordinator
prepared down up = record created {
  down_read = down.0;
  down_write = down.1;
  up_read = up.0;
  up_write = up.1;
  role = Role.prepared;
}

forked_test :
    (s : Replies) (down up : ℤ × ℤ) (f : ProcessCoordinator → List Str × ℤ)
    (g : ProcessCoordinator → List Assertion × ℤ)
    → is_pos s.forked ≡ true
    → fork_test s f g (pos 0, prepared down up)
      ≡ after
          ((true, codes "Should prepare fork successfully") ∷ [])
          (returns (g (prepared down up)).0 (g (prepared down up)).1)
unfolding fork_test
forked_test s down up f g h = rw (positive-not_zero s.forked h, h) refl

made : (b : Bool) → b ≡ true → pc_create b ≡ some created
unfolding pc_create
made b h = rw h refl

ready :
    (d u : Option (ℤ × ℤ)) (down up : ℤ × ℤ)
    → d ≡ some down
    → u ≡ some up
    → pc_prepare_fork d u created ≡ (pos 0, prepared down up)
unfolding pc_prepare_fork prepare_down prepare_up
ready d u down up h k = rw (h, k) refl

set_up :
    (g : ProcessCoordinator → List Assertion) (down up : ℤ × ℤ) (pid : ℤ)
    → is_pos pid ≡ true
    → set_up_parent g (pc_after_fork_parent pid (prepared down up))
      ≡ ((true, codes "Should set up parent successfully") ∷ g (wired down up pid []), pos 0)
unfolding pc_after_fork_parent set_up_parent
set_up g down up pid h = rw h refl

-- The test in the parent, behind pipes and a fork.
test_run :
    (s : Replies) (down up : ℤ × ℤ)
    → s.allocated ≡ true
    → s.down ≡ some down
    → s.up ≡ some up
    → is_pos s.forked ≡ true
    → failures (assertions (test_pc_basic_communication s))
      ≡ failures (hears_hello s (wired down up s.forked []))
unfolding test_pc_basic_communication run_test after failures
test_run s down up h0 h1 h2 h3 =
    rw
      (
        made s.allocated h0,
        run_test,
        ready s.down s.up down up h1 h2,
        forked_test s down up _ _ h3,
        set_up (hears_hello s) down up s.forked h3,
      )
      refl

-- In the first test, if the pipes and the child can be made, the waits end with data, the parent gets
-- the status of its child, and the child has exited with 0: no assertion of the parent fails if the two
-- messages of the child are read one by one, and two fail if both have been written before the parent
-- reads, so that one `read` gives both and the next finds the pipe closed.
pub basic_communication_timing :
    (s : Replies) (down up : ℤ × ℤ) (together : Bool)
    → s.allocated ≡ true
    → s.down ≡ some down
    → s.up ≡ some up
    → is_pos s.forked ≡ true
    → eqb_ℤ up.0 minus_one ≡ false
    → select_loop s.wait ≡ pos 0
    → select_loop s.then_wait ≡ pos 0
    → s.waited ≡ s.forked
    → s.decode s.status ≡ ChildStatus.exited 0
    → s.read up.0 ≡ bytes (if together then hello ++ b'D' ∷ [] else hello)
    → s.then_read up.0 ≡ bytes (if together then [] else b'D' ∷ [])
    → failures (assertions (test_pc_basic_communication s)) ≡ (if together then 2 else 0)
unfolding failures is_done is_clean terminated c_string str_eq length
basic_communication_timing s down up true h0 h1 h2 h3 is w v waited ok first second =
    test_run s down up h0 h1 h2 h3
    ∙ ap failures (
        hears s down up _ _ _ _ h3 is w first waited
          (closed down up s.forked s.then_wait s.then_read 1 is v second) refl)
    ∙ rw ok refl
basic_communication_timing s down up false h0 h1 h2 h3 is w v waited ok first second =
    test_run s down up h0 h1 h2 h3
    ∙ ap failures (
        hears s down up _ _ _ _ h3 is w first waited
          (parent_receives down up s.forked s.then_wait s.then_read 1 _ _ is v second) refl)
    ∙ rw ok refl
