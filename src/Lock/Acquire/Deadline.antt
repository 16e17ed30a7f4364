-- ===== src/Lock/Acquire/Deadline.antt =====
-- `acquire_lock` with a timeout returns: enough passes are given by the clock alone.
use waitlock.Base.{ℕ, ◌+◌, ◌*◌, ◌≤◌, ◌<◌, ◌≡◌, refl, false, List, [], ◌∷◌, arith, length}
use waitlock.Base.Int.{is_neg, pos_part}
use waitlock.Directory.{Dir}
use waitlock.Globals.{GlobalState}
use waitlock.Lock.Acquire.{
  Request, Round, Pass, return, again, Outcome, returned, waiting, expired, sleep_ms, next_wait,
  acquire_pass, acquire_loop, try_slots, after_claim, stop_or_sleep,
}
use waitlock.Lock.Acquire.Backoff.{sleep_ms_bounds}

-- The clock does not go back, and the sleep lasts at least as long as was asked for.
abbrev pub Paced : Request → ℕ → List Round → Type 0
Paced q wait_ms [] = Unit
Paced q wait_ms (r ∷ []) = r.now ≤ r.now_sleep
Paced q wait_ms (r ∷ r' ∷ rs) =
    (r.now ≤ r.now_sleep)
    × (r.now_sleep + sleep_ms q r.now_sleep wait_ms * 1000 ≤ r'.now)
    × Paced q (next_wait r.random wait_ms) (r' ∷ rs)

-- The first reading of the clock is not before the start.
abbrev pub Started : Request → List Round → Type 0
Started q [] = Unit
Started q (r ∷ rs) = q.start ≤ r.now

abbrev pub Returns : Outcome → Type 0
Returns (returned code dir g) = Unit {0}
Returns (waiting wait_ms dir) = ⊥

-- A pass goes on only before the deadline.
again-early :
    (q : Request) (r : Round) (dir : Dir) (g : GlobalState) (dir' : Dir)
    → is_neg q.timeout ≡ false
    → acquire_pass q r dir g ≡ again dir'
    → r.now_sleep < q.start + pos_part q.timeout
unfolding acquire_pass try_slots after_claim stop_or_sleep expired
again-early q r dir g dir' h e = ground arith

-- What a loop gives back when its first pass goes on, or returns.
loop_again :
    (q : Request) (r : Round) (rs : List Round) (wait_ms : ℕ) (dir : Dir) (g : GlobalState)
    (p : Pass)
    → acquire_pass q r dir g ≡ p
    → ((dir' : Dir)
        → p ≡ again dir'
        → Returns (acquire_loop q rs (next_wait r.random wait_ms) dir' g))
    → Returns (acquire_loop q (r ∷ rs) wait_ms dir g)
unfolding acquire_loop
loop_again q r rs wait_ms dir g (return c d g') e h = rw (e, acquire_loop) tt
loop_again q r rs wait_ms dir g (again d) e h = rw (e, acquire_loop) (h d refl)

loop-Returns :
    (q : Request) (r : Round) (rs : List Round) (wait_ms : ℕ) (dir : Dir) (g : GlobalState)
    → is_neg q.timeout ≡ false
    → Paced q wait_ms (r ∷ rs)
    → q.start + pos_part q.timeout ≤ r.now + 1000 * length rs
    → Returns (acquire_loop q (r ∷ rs) wait_ms dir g)
unfolding length
loop-Returns q r [] wait_ms dir g h pace enough =
    loop_again q r [] wait_ms dir g _ refl
      λ dir' e. absurd (omega (arith, again-early q r dir g dir' h e))
loop-Returns q r (r' ∷ rs) wait_ms dir g h pace enough =
    loop_again q r (r' ∷ rs) wait_ms dir g _ refl λ dir' e.
      let early = again-early q r dir g dir' h e in
      let slept = sleep_ms_bounds q r.now_sleep wait_ms h early in
      loop-Returns q r' rs (next_wait r.random wait_ms) dir' g h pace.2 (omega arith)

-- With a timeout, and a clock that does not go back while sleeps last as long as asked for,
-- `acquire_lock`'s loop returns: one pass more than the timeout has milliseconds is enough, whatever
-- other processes do.
pub acquire_loop-Returns :
    (q : Request) (r : Round) (rs : List Round) (wait_ms : ℕ) (dir : Dir) (g : GlobalState)
    → is_neg q.timeout ≡ false
    → q.start ≤ r.now
    → Paced q wait_ms (r ∷ rs)
    → pos_part q.timeout ≤ 1000 * length rs
    → Returns (acquire_loop q (r ∷ rs) wait_ms dir g)
acquire_loop-Returns q r rs wait_ms dir g h start pace enough =
    loop-Returns q r rs wait_ms dir g h pace (omega arith)
