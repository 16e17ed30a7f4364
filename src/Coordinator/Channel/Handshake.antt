-- ===== src/Coordinator/Channel/Handshake.antt =====
-- process_coordinator/process_coordinator.c: the child tells its parent that it is ready.
use waitlock.Base.{arith, ◌≡◌, ◌≢◌, ◌∙◌, true, [], ◌∷◌, ◌++◌, take, length, refl, sym, ap}
use waitlock.Base.Int.{ℤ, pos, minus_one, is_pos}
use waitlock.Coordinator.{
  pc_prepare_fork, prepare_down, prepare_up, pc_after_fork_parent, pc_after_fork_child,
}
use waitlock.Coordinator.Channel.{Ends, Pipes, put, waiting, writes, reads}
use waitlock.Coordinator.Channel.Calls.{eqb_ℤ-refl, eqb_ℤ-false}
use waitlock.Coordinator.Paired.{parent_side, child_side}
use waitlock.Coordinator.Talk.{
  Wait, ReadResult, bytes, select_loop, write_all, write_end, send_to, pc_send, receive_from,
  take_read, read_end, pc_receive, pc_wait_for_data, expect, pc_wait_for_signal, Sent, sent_all,
  pc_send_signal, pc_child_signal_ready, pc_parent_wait_for_child_ready,
}

-- What the child's call gives, and what it leaves in the pipes.
signal_lem :
    (e : Ends) (own : ℤ) (k : Pipes)
    → e.down.1 ≢ e.up.1
    → e.up.1 ≢ minus_one
    → pc_child_signal_ready (writes e 1) (child_side e.down e.up own) k
      ≡ ((pos 0, child_side e.down e.up own), record k { up = k.up ++ b'R' ∷ [] })
unfolding pc_prepare_fork prepare_down prepare_up pc_after_fork_child write_end
    pc_child_signal_ready pc_send_signal sent_all pc_send send_to write_all put take length
signal_lem e own k ups is_open =
    rw
      (
        eqb_ℤ-false e.up.1 minus_one is_open,
        eqb_ℤ-false e.up.1 e.down.1 (λ h. ups (sym h)),
        eqb_ℤ-refl e.up.1,
      )
      refl

-- What the child's call gives on pipes `k`, of which its `write` takes the byte.
abbrev pub signalled : Ends → ℤ → Pipes → Sent Pipes
signalled e own k = pc_child_signal_ready (writes e 1) (child_side e.down e.up own) k

-- The parent's call, when it reads the byte.
hears_ready :
    (e : Ends) (pid : ℤ) (read : ℤ → ReadResult) (w : Wait)
    → is_pos pid ≡ true
    → e.up.0 ≢ minus_one
    → read e.up.0 ≡ bytes (b'R' ∷ [])
    → select_loop w ≡ pos 0
    → (pc_parent_wait_for_child_ready w read (parent_side e.down e.up pid)).0 ≡ pos 0
unfolding pc_prepare_fork prepare_down prepare_up pc_after_fork_parent read_end
    pc_parent_wait_for_child_ready pc_wait_for_signal pc_receive receive_from take_read
    pc_wait_for_data expect length
hears_ready e pid read w is is_open hr hw =
    let there = eqb_ℤ-false e.up.0 minus_one is_open in ground arith

reads-up :
    (e : Ends) (k : Pipes)
    → e.down.0 ≢ e.up.0
    → k.up ≡ b'R' ∷ []
    → reads e k 1 e.up.0 ≡ bytes (b'R' ∷ [])
unfolding waiting take
reads-up e k downs up =
    rw (eqb_ℤ-false e.up.0 e.down.0 (λ h. downs (sym h)), eqb_ℤ-refl e.up.0, up) refl

-- If `fork` gave the parent a positive pid, the descriptors of the second pipe are not -1, those of the
-- two pipes are different, the second pipe is empty and `write` takes the child's byte, then the
-- child's `pc_child_signal_ready` succeeds, and on the pipes as it leaves them so does the parent's
-- `pc_parent_wait_for_child_ready`, once its wait ends with data, after any number of interruptions.
pub ready_handshake :
    (e : Ends) (pid own : ℤ) (k : Pipes) (w : Wait)
    → is_pos pid ≡ true
    → e.down.0 ≢ e.up.0
    → e.down.1 ≢ e.up.1
    → e.up.0 ≢ minus_one
    → e.up.1 ≢ minus_one
    → k.up ≡ []
    → select_loop w ≡ pos 0
    → ((signalled e own k).0.0 ≡ pos 0)
      × ((pc_parent_wait_for_child_ready w
            (reads e (signalled e own k).1 1)
            (parent_side e.down e.up pid)).0
          ≡ pos 0)
ready_handshake e pid own k w is downs ups reads_open writes_open empty hw =
    let sent = signal_lem e own k ups writes_open in
    let up = ap (λ r. r.1.up) sent ∙ ap (λ l. l ++ b'R' ∷ []) empty in
    (
      ap (λ r. r.0.0) sent,
      hears_ready e pid _ w is reads_open (reads-up e (signalled e own k).1 downs up) hw,
    )
