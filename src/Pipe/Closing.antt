-- ===== src/Pipe/Closing.antt =====
-- Each end of a pipe is closed once over the life of its coordinator.
use waitlock.Base.{
  Bool, true, not, ◌≡◌, refl, List, [], ◌∷◌, ◌++◌, Option, some, arith, ◌⊎◌, inl, inr, Bool-cases,
}
use waitlock.Base.Int.{ℤ, minus_one, eqb_ℤ}
use waitlock.Pipe.{
  PipeCoordinator, Result, pipe_coordinator_set_child_pid, pipe_coordinator_close_read_end,
  pipe_coordinator_close_write_end, pipe_coordinator_destroy, pipe_coordinator_read,
}

-- The calls that change a coordinator.
pub data Op : Type 0 where
  set_child : ℤ → Op
  close_read close_write : Op

unfoldable pub apply : Op → Option PipeCoordinator → List ℤ × Option PipeCoordinator
apply (Op.set_child pid) pc = ([], pipe_coordinator_set_child_pid pid pc)
apply Op.close_read pc = pipe_coordinator_close_read_end pc
apply Op.close_write pc = pipe_coordinator_close_write_end pc

-- What a sequence of calls and then `pipe_coordinator_destroy` close, in turn.
unfoldable pub life : List Op → Option PipeCoordinator → List ℤ
life [] pc = pipe_coordinator_destroy pc
life (op ∷ ops) pc = let r = apply op pc in r.0 ++ life ops r.1

abbrev ends : ℤ → ℤ → ℤ → PipeCoordinator
ends r w pid = record { read_fd = r; write_fd = w; child_pid = pid }

abbrev open_end : ℤ → Bool
open_end fd = not (eqb_ℤ fd minus_one)

life_closed : (ops : List Op) (pid : ℤ) → life ops (some (ends minus_one minus_one pid)) ≡ []
unfolding life apply pipe_coordinator_set_child_pid pipe_coordinator_close_read_end
    pipe_coordinator_close_write_end pipe_coordinator_destroy
life_closed [] pid = refl
life_closed (Op.set_child n ∷ ops) pid = life_closed ops n
life_closed (Op.close_read ∷ ops) pid = life_closed ops pid
life_closed (Op.close_write ∷ ops) pid = life_closed ops pid

life_write :
    (ops : List Op) (w pid : ℤ)
    → open_end w ≡ true
    → life ops (some (ends minus_one w pid)) ≡ w ∷ []
unfolding life apply pipe_coordinator_set_child_pid pipe_coordinator_close_read_end
    pipe_coordinator_close_write_end pipe_coordinator_destroy
life_write [] w pid h = ground arith
life_write (Op.set_child n ∷ ops) w pid h = life_write ops w n h
life_write (Op.close_read ∷ ops) w pid h = life_write ops w pid h
life_write (Op.close_write ∷ ops) w pid h = rw (h, life_closed ops pid)

life_read :
    (ops : List Op) (r pid : ℤ)
    → open_end r ≡ true
    → life ops (some (ends r minus_one pid)) ≡ r ∷ []
unfolding life apply pipe_coordinator_set_child_pid pipe_coordinator_close_read_end
    pipe_coordinator_close_write_end pipe_coordinator_destroy
life_read [] r pid h = ground arith
life_read (Op.set_child n ∷ ops) r pid h = life_read ops r n h
life_read (Op.close_read ∷ ops) r pid h = rw (h, life_closed ops pid)
life_read (Op.close_write ∷ ops) r pid h = life_read ops r pid h

-- Over any sequence of calls that close ends or set the child, and `pipe_coordinator_destroy` at its
-- end, a pipe whose ends are descriptors has each end closed exactly once.
pub life_closes :
    (ops : List Op) (r w pid : ℤ)
    → not (eqb_ℤ r minus_one) ≡ true
    → not (eqb_ℤ w minus_one) ≡ true
    → (life ops (some (record { read_fd = r; write_fd = w; child_pid = pid })) ≡ r ∷ w ∷ [])
      ⊎ (life ops (some (record { read_fd = r; write_fd = w; child_pid = pid })) ≡ w ∷ r ∷ [])
unfolding life apply pipe_coordinator_set_child_pid pipe_coordinator_close_read_end
    pipe_coordinator_close_write_end pipe_coordinator_destroy
life_closes [] r w pid hr hw = inl (ground arith)
life_closes (Op.set_child n ∷ ops) r w pid hr hw = life_closes ops r w n hr hw
life_closes (Op.close_read ∷ ops) r w pid hr hw = inl (rw (hr, life_write ops w pid hw))
life_closes (Op.close_write ∷ ops) r w pid hr hw = inr (rw (hw, life_read ops r pid hr))

abbrev pub ending : List Op → Option PipeCoordinator → Option PipeCoordinator
ending [] pc = pc
ending (op ∷ ops) pc = ending ops (apply op pc).1

-- On a pipe whose read end is closed, `pipe_coordinator_read` fails with EBADF and does not call
-- `read`, whatever was done to the coordinator since.
pub read_after_close :
    (read : ℤ → ℤ) (ops : List Op) (w pid : ℤ)
    → pipe_coordinator_read read
        (ending ops (some (record { read_fd = minus_one; write_fd = w; child_pid = pid })))
      ≡ Result.ebadf
unfolding apply pipe_coordinator_set_child_pid pipe_coordinator_close_read_end
    pipe_coordinator_close_write_end pipe_coordinator_read
read_after_close read [] w pid = refl
read_after_close read (Op.set_child n ∷ ops) w pid = read_after_close read ops w n
read_after_close read (Op.close_read ∷ ops) w pid = read_after_close read ops w pid
read_after_close read (Op.close_write ∷ ops) w pid = elim (Bool-cases (not (eqb_ℤ w minus_one))) [
  | inl h ↦ rw (h) (read_after_close read ops minus_one pid)
  | inr h ↦ rw (h) (read_after_close read ops w pid)
]
