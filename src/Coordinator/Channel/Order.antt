-- ===== src/Coordinator/Channel/Order.antt =====
-- process_coordinator/process_coordinator.c: what each side hears is what the other said, in order.
use waitlock.Base.{ℕ, ◌≡◌, ◌≢◌, true, List, ◌++◌, some, take, drop, take-drop, ap, refl, ◌∙◌, sym}
use waitlock.Base.Int.{ℤ, pos, minus_one, is_pos}
use waitlock.Coordinator.Paired.{sides-paired}
use waitlock.Coordinator.Talk.{Wait, bytes, select_loop, write_end, read_end, pc_send, pc_receive}
use waitlock.Coordinator.Channel.Calls.{
  pc_send-ends, pc_send-pipes, pc_receive-ends, pc_receive-bytes, pc_receive-no_data, eqb_ℤ-refl,
  eqb_ℤ-false,
}
use waitlock.Coordinator.Channel.{
  Ends, Pipes, put, writes, waiting, cut, Side, Session, reads, Step, send, receive, no_data, Reach,
  here, next, forked,
}
use mathlib.Core.List.{append_assoc, append-nil}

taken : (h u : List ℕ) (n : ℕ) → h ++ u ≡ h ++ take n u ++ drop n u
taken h u n = ap (λ l. h ++ l) (sym (take-drop n u)) ∙ sym (append_assoc h (take n u) (drop n u))

module _ (e : Ends) (downs : e.down.0 ≢ e.up.0) (ups : e.down.1 ≢ e.up.1)
    (downs_open : e.down.0 ≢ minus_one) (ups_open : e.up.0 ≢ minus_one)
    (down_writes_open : e.down.1 ≢ minus_one) (up_writes_open : e.up.1 ≢ minus_one) where
  put-down : (m : List ℕ) (k : Pipes) → put e e.down.1 m k ≡ record k { down = k.down ++ m }
  unfolding put
  put-down m k = rw (eqb_ℤ-refl e.down.1) refl

  put-up : (m : List ℕ) (k : Pipes) → put e e.up.1 m k ≡ record k { up = k.up ++ m }
  unfolding put
  put-up m k = rw (eqb_ℤ-false e.up.1 e.down.1 (λ h. ups (sym h)), eqb_ℤ-refl e.up.1) refl

  cut-down : (n : ℕ) (k : Pipes) → cut e (some e.down.0) n k ≡ record k { down = drop n k.down }
  unfolding cut
  cut-down n k = rw (eqb_ℤ-refl e.down.0) refl

  cut-up : (n : ℕ) (k : Pipes) → cut e (some e.up.0) n k ≡ record k { up = drop n k.up }
  unfolding cut
  cut-up n k = rw (eqb_ℤ-false e.up.0 e.down.0 (λ h. downs (sym h)), eqb_ℤ-refl e.up.0) refl

  reads-down : (n : ℕ) (k : Pipes) → reads e k n e.down.0 ≡ bytes (take n k.down)
  unfolding waiting
  reads-down n k = rw (eqb_ℤ-refl e.down.0) refl

  reads-up : (n : ℕ) (k : Pipes) → reads e k n e.up.0 ≡ bytes (take n k.up)
  unfolding waiting
  reads-up n k = rw (eqb_ℤ-false e.up.0 e.down.0 (λ h. downs (sym h)), eqb_ℤ-refl e.up.0) refl

  record IsFlowing (s : Session) : Type 0 where
    parent_writes : write_end (s.pc Side.parent) (s.pc Side.parent).role ≡ some e.down.1
    parent_reads : read_end (s.pc Side.parent) (s.pc Side.parent).role ≡ some e.up.0
    child_writes : write_end (s.pc Side.child) (s.pc Side.child).role ≡ some e.up.1
    child_reads : read_end (s.pc Side.child) (s.pc Side.child).role ≡ some e.down.0
    down_kept : s.said Side.parent ≡ s.heard Side.child ++ s.pipes.down
    up_kept : s.said Side.child ≡ s.heard Side.parent ++ s.pipes.up

  sent-down :
      {s : Session} (f : IsFlowing s) (m : List ℕ) (n : ℕ)
      → (pc_send (writes e n) (some m) (s.pc Side.parent) s.pipes).1
        ≡ record (s.pipes) { down = s.pipes.down ++ take n m }
  sent-down {s} f m n =
      pc_send-pipes (writes e n) m (s.pc Side.parent) s.pipes e.down.1 f.parent_writes
        down_writes_open
      ∙ put-down (take n m) s.pipes

  sent-up :
      {s : Session} (f : IsFlowing s) (m : List ℕ) (n : ℕ)
      → (pc_send (writes e n) (some m) (s.pc Side.child) s.pipes).1
        ≡ record (s.pipes) { up = s.pipes.up ++ take n m }
  sent-up {s} f m n =
      pc_send-pipes (writes e n) m (s.pc Side.child) s.pipes e.up.1 f.child_writes up_writes_open
      ∙ put-up (take n m) s.pipes

  received-up :
      {s : Session} (f : IsFlowing s) (w : Wait) (len : ℕ)
      → select_loop w ≡ pos 0
      → (pc_receive w (reads e s.pipes len) true (s.pc Side.parent)).1 ≡ take len s.pipes.up
  received-up {s} f w len ready =
      pc_receive-bytes w _ (s.pc Side.parent) _ _ f.parent_reads ups_open ready
        (reads-up len s.pipes)

  received-down :
      {s : Session} (f : IsFlowing s) (w : Wait) (len : ℕ)
      → select_loop w ≡ pos 0
      → (pc_receive w (reads e s.pipes len) true (s.pc Side.child)).1 ≡ take len s.pipes.down
  received-down {s} f w len ready =
      pc_receive-bytes w _ (s.pc Side.child) _ _ f.child_reads downs_open ready
        (reads-down len s.pipes)

  Step-IsFlowing : {s t : Session} → IsFlowing s → Step e s t → IsFlowing t
  Step-IsFlowing {s} f (send Side.parent m n fits) = record {
    parent_writes = (pc_send-ends (writes e n) m (s.pc Side.parent) s.pipes).0 ∙ f.parent_writes;
    parent_reads = (pc_send-ends (writes e n) m (s.pc Side.parent) s.pipes).1 ∙ f.parent_reads;
    child_writes = f.child_writes;
    child_reads = f.child_reads;
    down_kept =
        rw (sent-down f m n, f.down_kept)
          (append_assoc (s.heard Side.child) s.pipes.down (take n m));
    up_kept = rw (sent-down f m n) f.up_kept;
  }
  Step-IsFlowing {s} f (send Side.child m n fits) = record {
    parent_writes = f.parent_writes;
    parent_reads = f.parent_reads;
    child_writes = (pc_send-ends (writes e n) m (s.pc Side.child) s.pipes).0 ∙ f.child_writes;
    child_reads = (pc_send-ends (writes e n) m (s.pc Side.child) s.pipes).1 ∙ f.child_reads;
    down_kept = rw (sent-up f m n) f.down_kept;
    up_kept =
        rw (sent-up f m n, f.up_kept) (append_assoc (s.heard Side.parent) s.pipes.up (take n m));
  }
  Step-IsFlowing {s} f (receive Side.parent w len ready) = record {
    parent_writes = (pc_receive-ends w _ (s.pc Side.parent)).0 ∙ f.parent_writes;
    parent_reads = (pc_receive-ends w _ (s.pc Side.parent)).1 ∙ f.parent_reads;
    child_writes = f.child_writes;
    child_reads = f.child_reads;
    down_kept = rw (f.parent_reads, cut-up len s.pipes) f.down_kept;
    up_kept =
        rw (received-up f w len ready, f.parent_reads, cut-up len s.pipes, f.up_kept)
          (taken (s.heard Side.parent) s.pipes.up len);
  }
  Step-IsFlowing {s} f (receive Side.child w len ready) = record {
    parent_writes = f.parent_writes;
    parent_reads = f.parent_reads;
    child_writes = (pc_receive-ends w _ (s.pc Side.child)).0 ∙ f.child_writes;
    child_reads = (pc_receive-ends w _ (s.pc Side.child)).1 ∙ f.child_reads;
    down_kept =
        rw (received-down f w len ready, f.child_reads, cut-down len s.pipes, f.down_kept)
          (taken (s.heard Side.child) s.pipes.down len);
    up_kept = rw (f.child_reads, cut-down len s.pipes) f.up_kept;
  }
  Step-IsFlowing {s} f (no_data Side.parent w len ended) = record {
    parent_writes = (pc_receive-ends w _ (s.pc Side.parent)).0 ∙ f.parent_writes;
    parent_reads = (pc_receive-ends w _ (s.pc Side.parent)).1 ∙ f.parent_reads;
    child_writes = f.child_writes;
    child_reads = f.child_reads;
    down_kept = f.down_kept;
    up_kept =
        rw
          (
            pc_receive-no_data w (reads e s.pipes len) (s.pc Side.parent) ended,
            append-nil (s.heard Side.parent),
          )
          f.up_kept;
  }
  Step-IsFlowing {s} f (no_data Side.child w len ended) = record {
    parent_writes = f.parent_writes;
    parent_reads = f.parent_reads;
    child_writes = (pc_receive-ends w _ (s.pc Side.child)).0 ∙ f.child_writes;
    child_reads = (pc_receive-ends w _ (s.pc Side.child)).1 ∙ f.child_reads;
    down_kept =
        rw
          (
            pc_receive-no_data w (reads e s.pipes len) (s.pc Side.child) ended,
            append-nil (s.heard Side.child),
          )
          f.down_kept;
    up_kept = f.up_kept;
  }

  Reach-IsFlowing : {s t : Session} → IsFlowing s → Reach e s t → IsFlowing t
  Reach-IsFlowing f here = f
  Reach-IsFlowing f (next r step) = Step-IsFlowing (Reach-IsFlowing f r) step

forked-IsFlowing :
    (e : Ends) (downs : e.down.0 ≢ e.up.0) (ups : e.down.1 ≢ e.up.1)
    (downs_open : e.down.0 ≢ minus_one) (ups_open : e.up.0 ≢ minus_one)
    (down_writes_open : e.down.1 ≢ minus_one) (up_writes_open : e.up.1 ≢ minus_one) (pid own : ℤ)
    → is_pos pid ≡ true
    → IsFlowing e downs ups downs_open ups_open down_writes_open up_writes_open (forked e pid own)
forked-IsFlowing e downs ups downs_open ups_open down_writes_open up_writes_open pid own h =
    record {
      parent_writes = (sides-paired e.down e.up pid own h).0;
      parent_reads = (sides-paired e.down e.up pid own h).3;
      child_writes = (sides-paired e.down e.up pid own h).2;
      child_reads = (sides-paired e.down e.up pid own h).1;
      down_kept = refl;
      up_kept = refl;
    }

-- If `fork` gave the parent a positive pid, the read ends of the two pipes are different descriptors,
-- their write ends are too, and none of the four is -1, then in every state that the two sides reach by
-- sending and receiving, in any order, with partial writes, with reads of any size and with waits that
-- end without data, what a side said (the bytes that a `write` is to take of each message) is what the
-- other side heard followed by what its pipe still holds: `pc_send` puts the bytes once, into the pipe
-- that the other side reads, and no byte is lost, repeated or reordered.
pub messages_in_order :
    (e : Ends) (pid own : ℤ) {s : Session}
    → is_pos pid ≡ true
    → e.down.0 ≢ e.up.0
    → e.down.1 ≢ e.up.1
    → e.down.0 ≢ minus_one
    → e.up.0 ≢ minus_one
    → e.down.1 ≢ minus_one
    → e.up.1 ≢ minus_one
    → Reach e (forked e pid own) s
    → (s.said Side.parent ≡ s.heard Side.child ++ s.pipes.down)
      × (s.said Side.child ≡ s.heard Side.parent ++ s.pipes.up)
messages_in_order e pid own h downs ups downs_open ups_open down_writes_open up_writes_open r =
    let f =
      Reach-IsFlowing e downs ups downs_open ups_open down_writes_open up_writes_open
        (forked-IsFlowing e downs ups downs_open ups_open down_writes_open up_writes_open pid own h)
        r in
    (f.down_kept, f.up_kept)
