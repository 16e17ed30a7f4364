-- ===== src/Coordinator/Talk.antt =====
-- process_coordinator/process_coordinator.c: sending and receiving. A wait for data ends after some
-- interruptions by signals; the bytes of a call of `read` are what it put into the buffer. A call of
-- `write` takes the state of the pipes to the state after it.
use waitlock.Base.{
  ℕ, Bool, true, not, List, [], ◌∷◌, codes, Option, none, some, ◌==◌, ◌++◌, length, ltb,
  if◌then◌else◌,
}
use waitlock.Base.Int.{ℤ, pos, minus_one, is_pos, eqb_ℤ}
use waitlock.Coordinator.{Role, ProcessCoordinator, is_role, pc_set_error}
use waitlock.Text.{Str}

-- What the calls of `select` answer, in turn.
pub data Wait : Type 0 where
  ready timed_out failed : Wait
  interrupted : Wait → Wait

-- What `read` answers.
pub data ReadResult : Type 0 where
  bytes : List ℕ → ReadResult
  read_failed : ReadResult

-- The loop of `pc_wait_for_data` over an open descriptor.
unfoldable pub select_loop : Wait → ℤ
select_loop Wait.ready = pos 0
select_loop Wait.timed_out = minus_one
select_loop Wait.failed = minus_one
select_loop (Wait.interrupted w) = select_loop w

unfoldable pub pc_wait_for_data : ℤ → Wait → ℤ
pc_wait_for_data fd w = if eqb_ℤ fd minus_one then minus_one else select_loop w

-- The end that a role writes to, and the end that it reads from.
unfoldable pub write_end : ProcessCoordinator → Role → Option ℤ
write_end pc Role.parent = some pc.down_write
write_end pc Role.child = some pc.up_write
write_end pc Role.unset = none
write_end pc Role.prepared = none

unfoldable pub read_end : ProcessCoordinator → Role → Option ℤ
read_end pc Role.parent = some pc.up_read
read_end pc Role.child = some pc.down_read
read_end pc Role.unset = none
read_end pc Role.prepared = none

-- A system call `write`: the descriptor, the bytes, and the state of the pipes; what it answers, and
-- the state after it.
abbrev pub Write : Type 0 → Type 0
Write P = ℤ → List ℕ → P → ℤ × P

-- What a call that may write gives: its result, the coordinator, and the state of the pipes.
abbrev pub Sent : Type 0 → Type 0
Sent P = (ℤ × ProcessCoordinator) × P

-- A `write` of which only the answer matters.
abbrev pub answers : (ℤ → List ℕ → ℤ) → Write Unit
answers write fd message k = (write fd message, k)

-- `write(write_fd, data, len)` and the test of its result.
unfoldable pub write_all : {P : Type 0} → Write P → List ℕ → ProcessCoordinator → ℤ → P → Sent P
write_all write message pc fd k =
    let w = write fd message k in
    if eqb_ℤ w.0 (pos (length message))
    then ((w.0, pc), w.1)
    else (pc_set_error (codes "Failed to write all data") pc, w.1)

unfoldable pub send_to :
    {P : Type 0} → Write P → List ℕ → ProcessCoordinator → Option ℤ → P → Sent P
send_to write message pc none k = (pc_set_error (codes "Invalid role for sending") pc, k)
send_to write message pc (some fd) k =
    if eqb_ℤ fd minus_one
    then (pc_set_error (codes "Write pipe not available") pc, k)
    else write_all write message pc fd k

-- `pc_send`; a null pointer for the data is `none`.
unfoldable pub pc_send : {P : Type 0} → Write P → Option (List ℕ) → ProcessCoordinator → P → Sent P
pc_send write none pc k = ((minus_one, pc), k)
pc_send write (some message) pc k = send_to write message pc (write_end pc pc.role) k

-- The result, the bytes in the buffer, the coordinator.
abbrev pub Received : Type 0
Received = ℤ × List ℕ × ProcessCoordinator

abbrev pub fails : Str → ProcessCoordinator → Received
fails msg pc = let r = pc_set_error msg pc in (r.0, [], r.1)

unfoldable pub take_read : ReadResult → ProcessCoordinator → Received
take_read ReadResult.read_failed pc = fails (codes "Read failed") pc
take_read (ReadResult.bytes []) pc = fails (codes "Pipe closed unexpectedly") pc
take_read (ReadResult.bytes (b ∷ bs)) pc = (pos (length (b ∷ bs)), b ∷ bs, pc)

unfoldable pub receive_from : Wait → (ℤ → ReadResult) → ProcessCoordinator → Option ℤ → Received
receive_from w read pc none = fails (codes "Invalid role for receiving") pc
receive_from w read pc (some fd) =
    if eqb_ℤ fd minus_one
    then fails (codes "Read pipe not available") pc
    else if not (eqb_ℤ (pc_wait_for_data fd w) (pos 0))
    then fails (codes "Timeout waiting for data") pc
    else take_read (read fd) pc

-- `pc_receive`, by whether the buffer is not null.
unfoldable pub pc_receive : Wait → (ℤ → ReadResult) → Bool → ProcessCoordinator → Received
pc_receive w read buffer pc =
    if buffer then receive_from w read pc (read_end pc pc.role) else (minus_one, [], pc)

-- The test of the byte that came.
unfoldable pub expect : ℕ → Received → ℤ × ProcessCoordinator
expect expected (result, [], pc) = (minus_one, pc)
expect expected (result, signal ∷ rest, pc) =
    if not (eqb_ℤ result (pos 1))
    then (minus_one, pc)
    else if signal == expected
    then (pos 0, pc)
    else pc_set_error (codes "Received unexpected signal") pc

-- `pc_wait_for_signal`; `read` is asked for one byte.
unfoldable pub pc_wait_for_signal :
    Wait → (ℤ → ReadResult) → ℕ → ProcessCoordinator → ℤ × ProcessCoordinator
pc_wait_for_signal w read expected pc = expect expected (pc_receive w read true pc)

-- What `pc_send` gave, as 0 if that many bytes went and -1 otherwise.
unfoldable pub sent_all : {P : Type 0} → ℕ → Sent P → Sent P
sent_all len r = (((if eqb_ℤ r.0.0 (pos len) then pos 0 else minus_one), r.0.1), r.1)

unfoldable pub pc_send_signal : {P : Type 0} → Write P → ℕ → ProcessCoordinator → P → Sent P
pc_send_signal write signal pc k = sent_all 1 (pc_send write (some (signal ∷ [])) pc k)

-- `pc_parent_send` and `pc_child_send`
unfoldable pub send_as :
    {P : Type 0} → Role → Write P → Option (List ℕ) → ℕ → ProcessCoordinator → P → Sent P
send_as role write message len pc k =
    if not (is_role role pc.role)
    then ((minus_one, pc), k)
    else sent_all len (pc_send write message pc k)

-- `data[result] = '\0'`, where there is room for it.
unfoldable pub terminated : ℕ → List ℕ → List ℕ
terminated len message = if ltb (length message) len then message ++ 0 ∷ [] else message

-- `pc_parent_receive` and `pc_child_receive`
unfoldable pub receive_as :
    Role → Wait → (ℤ → ReadResult) → Bool → ℕ → ProcessCoordinator → Received
receive_as role w read buffer len pc =
    if not (is_role role pc.role)
    then (minus_one, [], pc)
    else (let r = pc_receive w read buffer pc in
        (r.0, (if is_pos r.0 then terminated len r.1 else r.1), r.2))

unfoldable pub pc_parent_wait_for_child_ready :
    Wait → (ℤ → ReadResult) → ProcessCoordinator → ℤ × ProcessCoordinator
pc_parent_wait_for_child_ready w read pc =
    if not (is_role Role.parent pc.role) then (minus_one, pc) else pc_wait_for_signal w read b'R' pc

unfoldable pub pc_child_signal_ready : {P : Type 0} → Write P → ProcessCoordinator → P → Sent P
pc_child_signal_ready write pc k =
    if not (is_role Role.child pc.role)
    then ((minus_one, pc), k)
    else pc_send_signal write b'R' pc k
