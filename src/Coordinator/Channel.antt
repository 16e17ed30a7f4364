-- ===== src/Coordinator/Channel.antt =====
-- process_coordinator/process_coordinator.c: parent and child that send and receive in any order over
-- the two pipes. A pipe is a queue of bytes; `write` may take a part of a message, `read` gives what
-- there is, up to the size of the buffer.
pub mod Calls
pub mod Handshake
pub mod Order
use waitlock.Base.{
  ℕ, ◌≤◌, ◌≡◌, ◌≢◌, Bool, true, List, [], ◌∷◌, ◌++◌, Option, none, some, take, drop, length,
  if◌then◌else◌,
}
use waitlock.Base.Int.{ℤ, pos, minus_one, eqb_ℤ}
use waitlock.Coordinator.{ProcessCoordinator}
use waitlock.Coordinator.Paired.{parent_side, child_side}
use waitlock.Coordinator.Talk.{
  Wait, ReadResult, Write, bytes, select_loop, read_end, pc_send, pc_receive,
}

-- The ends that `pipe` gave for the two pipes.
pub record Ends : Type 0 where
  pub down : ℤ × ℤ
  pub up : ℤ × ℤ

-- The bytes in the pipes.
pub record Pipes : Type 0 where
  pub down : List ℕ
  pub up : List ℕ

-- `write` to an end, `read` from an end, and what is left then.
unfoldable pub put : Ends → ℤ → List ℕ → Pipes → Pipes
put e fd m k =
    if eqb_ℤ fd e.down.1
    then record k { down = k.down ++ m }
    else if eqb_ℤ fd e.up.1
    then record k { up = k.up ++ m }
    else k

unfoldable pub waiting : Ends → ℤ → Pipes → List ℕ
waiting e fd k = if eqb_ℤ fd e.down.0 then k.down else if eqb_ℤ fd e.up.0 then k.up else []

unfoldable pub cut : Ends → Option ℤ → ℕ → Pipes → Pipes
cut e none n k = k
cut e (some fd) n k =
    if eqb_ℤ fd e.down.0
    then record k { down = drop n k.down }
    else if eqb_ℤ fd e.up.0
    then record k { up = drop n k.up }
    else k

pub data Side : Type 0 where
  parent child : Side

-- The coordinators of the two sides, the pipes, and what each side has sent and received so far.
pub record Session : Type 0 where
  pub pc : Side → ProcessCoordinator
  pub pipes : Pipes
  pub said : Side → List ℕ
  pub heard : Side → List ℕ

abbrev pub update : {A : Type 0} → Side → A → (Side → A) → Side → A
update Side.parent a f Side.parent = a
update Side.child a f Side.child = a
update Side.parent a f Side.child = f Side.child
update Side.child a f Side.parent = f Side.parent

-- A `write` that takes `n` bytes of the message, and puts them into the pipe that has the descriptor as
-- its write end.
abbrev pub writes : Ends → ℕ → Write Pipes
writes e n fd message k = (pos n, put e fd (take n message) k)

-- What `read` answers for a buffer of `len` bytes.
abbrev pub reads : Ends → Pipes → ℕ → ℤ → ReadResult
reads e k len fd = bytes (take len (waiting e fd k))

-- A side sends a message of which `write` takes `n` bytes; or a side receives, and its wait ends with
-- data, or without.
pub data Step (e : Ends) (s : Session) : Session → Type 0 where
  send :
      (side : Side) (message : List ℕ) (n : ℕ)
      → n ≤ length message
      → Step e s (record {
        pc = update side (pc_send (writes e n) (some message) (s.pc side) s.pipes).0.1 s.pc;
        pipes = (pc_send (writes e n) (some message) (s.pc side) s.pipes).1;
        said = update side (s.said side ++ take n message) s.said;
        heard = s.heard;
      })
  receive :
      (side : Side) (w : Wait) (len : ℕ)
      → select_loop w ≡ pos 0
      → Step e s (record {
        pc = update side (pc_receive w (reads e s.pipes len) true (s.pc side)).2 s.pc;
        pipes = cut e (read_end (s.pc side) (s.pc side).role) len s.pipes;
        said = s.said;
        heard =
            update side
              (s.heard side ++ (pc_receive w (reads e s.pipes len) true (s.pc side)).1)
              s.heard;
      })
  no_data :
      (side : Side) (w : Wait) (len : ℕ)
      → select_loop w ≡ minus_one
      → Step e s (record s {
        pc = update side (pc_receive w (reads e s.pipes len) true (s.pc side)).2 s.pc;
        heard =
            update side
              (s.heard side ++ (pc_receive w (reads e s.pipes len) true (s.pc side)).1)
              s.heard;
      })

pub data Reach (e : Ends) (s : Session) : Session → Type 0 where
  here : Reach e s s
  next : {t v : Session} → Reach e s t → Step e t v → Reach e s v

-- After `pc_prepare_fork` and `fork`, each side in its role.
abbrev pub forked_pc : Ends → ℤ → ℤ → Side → ProcessCoordinator
forked_pc e pid own Side.parent = parent_side e.down e.up pid
forked_pc e pid own Side.child = child_side e.down e.up own

abbrev pub forked : Ends → ℤ → ℤ → Session
forked e pid own = record {
  pc = forked_pc e pid own;
  pipes = record { down = []; up = [] };
  said = λ side. [];
  heard = λ side. [];
}
