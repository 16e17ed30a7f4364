-- ===== src/Coordinator/Usage/Reports.antt =====
-- What the examples report of the bytes that arrive.
use waitlock.Base.{
  ℕ, Bool, true, [], ◌∷◌, ◌++◌, codes, Option, none, some, ◌≡◌, refl, length, arith,
}
use waitlock.Base.Int.{ℤ}
use waitlock.Coordinator.{Role, ProcessCoordinator, pc_set_error}
use waitlock.Coordinator.Talk.{
  Wait, ReadResult, receive_as, pc_receive, receive_from, take_read, read_end, bytes, read_failed,
}
use waitlock.Coordinator.Usage.{failed, error_of, received}
use waitlock.Coordinator.Usage.Signaling.{acknowledged}

take_read-failed : (r : ReadResult) (pc : ProcessCoordinator) → failed (take_read r pc).0 ≡ true
unfolding take_read pc_set_error length
take_read-failed read_failed pc = refl
take_read-failed (bytes []) pc = refl
take_read-failed (bytes (b ∷ bs)) pc = ground arith

receive_from-failed :
    (w : Wait) (read : ℤ → ReadResult) (pc : ProcessCoordinator) (fd : Option ℤ)
    → failed (receive_from w read pc fd).0 ≡ true
unfolding receive_from pc_set_error
receive_from-failed w read pc none = refl
receive_from-failed w read pc (some fd) = let got = take_read-failed (read fd) pc in ground arith

receive_as-failed :
    (role : Role) (w : Wait) (read : ℤ → ReadResult) (buffer : Bool) (len : ℕ)
    (pc : ProcessCoordinator)
    → failed (receive_as role w read buffer len pc).0 ≡ true
unfolding receive_as pc_receive
receive_as-failed role w read buffer len pc =
    let got = receive_from-failed w read pc (read_end pc pc.role) in ground arith

-- Whatever arrives, the first example reports that it failed to receive the completion: the result
-- of `pc_parent_receive` is the number of bytes or -1, and never PC_SUCCESS.
pub received-receive_as :
    (w : Wait) (read : ℤ → ReadResult) (len : ℕ) (pc : ProcessCoordinator)
    → received (receive_as Role.parent w read true len pc)
      ≡ (codes "Parent: Failed to receive completion: "
          ++ error_of (receive_as Role.parent w read true len pc).2)
        ∷ []
unfolding received
received-receive_as w read len pc = rw (receive_as-failed Role.parent w read true len pc) refl

-- Whatever arrives, the child of the second example does not report the acknowledgment.
pub acknowledged-receive_as :
    (w : Wait) (read : ℤ → ReadResult) (len : ℕ) (pc : ProcessCoordinator)
    → acknowledged (receive_as Role.child w read true len pc) ≡ []
unfolding acknowledged
acknowledged-receive_as w read len pc =
    let got = receive_as-failed Role.child w read true len pc in ground arith
