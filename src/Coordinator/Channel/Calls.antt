-- ===== src/Coordinator/Channel/Calls.antt =====
-- process_coordinator/process_coordinator.c: the ends that a side uses, and the bytes that `pc_receive`
-- gives.
use waitlock.Base.{ℕ, ◌≡◌, ◌≢◌, true, false, List, [], ◌∷◌, some, arith, refl}
use waitlock.Base.Int.{ℤ, pos, negsuc, minus_one, eqb_ℤ}
use waitlock.Coordinator.{ProcessCoordinator, pc_set_error}
use waitlock.Coordinator.Talk.{
  Wait, ReadResult, Write, bytes, select_loop, write_end, read_end, pc_send, pc_receive, send_to,
  write_all, receive_from, take_read, pc_wait_for_data,
}

pub eqb_ℤ-refl : (a : ℤ) → eqb_ℤ a a ≡ true
eqb_ℤ-refl (pos n) = ground arith
eqb_ℤ-refl (negsuc n) = ground arith

pub eqb_ℤ-false : (a b : ℤ) → a ≢ b → eqb_ℤ a b ≡ false
eqb_ℤ-false (pos n) (pos m) h = ground arith
eqb_ℤ-false (negsuc n) (negsuc m) h = ground arith
eqb_ℤ-false (pos n) (negsuc m) h = refl
eqb_ℤ-false (negsuc n) (pos m) h = refl

-- The ends that a side writes to and reads from.
pub pc_send-ends :
    {P : Type 0} (write : Write P) (m : List ℕ) (pc : ProcessCoordinator) (k : P)
    → (write_end (pc_send write (some m) pc k).0.1 (pc_send write (some m) pc k).0.1.role
        ≡ write_end pc pc.role)
      × (read_end (pc_send write (some m) pc k).0.1 (pc_send write (some m) pc k).0.1.role
          ≡ read_end pc pc.role)
unfolding pc_send send_to write_all write_end read_end pc_set_error
pc_send-ends write m pc k = (ground arith, ground arith)

-- On an open write end, `pc_send` leaves the pipes as one `write` of the message to it does.
pub pc_send-pipes :
    {P : Type 0} (write : Write P) (m : List ℕ) (pc : ProcessCoordinator) (k : P) (fd : ℤ)
    → write_end pc pc.role ≡ some fd
    → fd ≢ minus_one
    → (pc_send write (some m) pc k).1 ≡ (write fd m k).1
unfolding pc_send send_to write_all
pc_send-pipes write m pc k fd he hf = rw (he, send_to, eqb_ℤ-false fd minus_one hf) (ground arith)

pub pc_receive-ends :
    (w : Wait) (read : ℤ → ReadResult) (pc : ProcessCoordinator)
    → (write_end (pc_receive w read true pc).2 (pc_receive w read true pc).2.role
        ≡ write_end pc pc.role)
      × (read_end (pc_receive w read true pc).2 (pc_receive w read true pc).2.role
          ≡ read_end pc pc.role)
unfolding pc_receive receive_from take_read write_end read_end pc_set_error
pc_receive-ends w read pc = (ground arith, ground arith)

take_read-bytes : (pc : ProcessCoordinator) (bs : List ℕ) → (take_read (bytes bs) pc).1 ≡ bs
unfolding take_read pc_set_error
take_read-bytes pc [] = refl
take_read-bytes pc (b ∷ bs) = refl

receive_from-bytes :
    (w : Wait) (read : ℤ → ReadResult) (pc : ProcessCoordinator) (fd : ℤ) (bs : List ℕ)
    → fd ≢ minus_one
    → select_loop w ≡ pos 0
    → read fd ≡ bytes bs
    → (receive_from w read pc (some fd)).1 ≡ bs
unfolding receive_from pc_set_error pc_wait_for_data
receive_from-bytes w read pc fd bs hf hw hr =
    rw (eqb_ℤ-false fd minus_one hf, hw, hr) (take_read-bytes pc bs)

pub pc_receive-bytes :
    (w : Wait) (read : ℤ → ReadResult) (pc : ProcessCoordinator) (fd : ℤ) (bs : List ℕ)
    → read_end pc pc.role ≡ some fd
    → fd ≢ minus_one
    → select_loop w ≡ pos 0
    → read fd ≡ bytes bs
    → (pc_receive w read true pc).1 ≡ bs
unfolding pc_receive
pc_receive-bytes w read pc fd bs he hf hw hr = rw he (receive_from-bytes w read pc fd bs hf hw hr)

-- Without data `pc_receive` puts nothing into the buffer, whatever `read` would answer.
pub pc_receive-no_data :
    (w : Wait) (read : ℤ → ReadResult) (pc : ProcessCoordinator)
    → select_loop w ≡ minus_one
    → (pc_receive w read true pc).1 ≡ []
unfolding pc_receive receive_from pc_wait_for_data pc_set_error
pc_receive-no_data w read pc hw = ground arith
