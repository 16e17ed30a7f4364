-- ===== src/Lock/Acquire/Backoff.antt =====
-- The waits between the passes of `acquire_lock`.
use waitlock.Base.{ℕ, ◌-◌, ◌⊎◌, ◌+◌, ◌*◌, ◌≤◌, ◌<◌, ◌≡◌, arith, false}
use waitlock.Base.Int.{is_neg, pos_part}
use waitlock.Lock.Acquire.{Request, sleep_ms, next_wait}

-- From a wait of 10 to 1100 milliseconds the next is in the same range, and it is never shorter
-- than the wait before or 1000 milliseconds, whichever is less.
pub next_wait_bounds :
    (random wait_ms : ℕ)
    → 10 ≤ wait_ms
    → wait_ms ≤ 1100
    → (10 ≤ next_wait random wait_ms)
      × (next_wait random wait_ms ≤ 1100)
      × ((wait_ms ≤ next_wait random wait_ms) ⊎ (1000 ≤ next_wait random wait_ms))
unfolding next_wait
next_wait_bounds random wait_ms lo hi = ground arith

-- The time that is left, in microseconds.
abbrev pub remaining : Request → ℕ → ℕ
remaining q now = q.start + pos_part q.timeout - now

-- With a timeout that has not passed, the sleep is one millisecond, or at most the current wait and
-- nine tenths of the time that is left; no longer sleep has these two bounds; it is at least one
-- millisecond, and it ends at most one millisecond after the deadline.
pub sleep_ms_bounds :
    (q : Request) (now wait_ms : ℕ)
    → is_neg q.timeout ≡ false
    → now < q.start + pos_part q.timeout
    → (1 ≤ sleep_ms q now wait_ms)
      × ((sleep_ms q now wait_ms ≡ 1)
          ⊎ ((sleep_ms q now wait_ms ≤ wait_ms)
              × (sleep_ms q now wait_ms * 10000 ≤ remaining q now * 9)))
      × ((longer : ℕ)
          → longer ≤ wait_ms
          → longer * 10000 ≤ remaining q now * 9
          → longer ≤ sleep_ms q now wait_ms)
      × (now + sleep_ms q now wait_ms * 1000 ≤ q.start + pos_part q.timeout + 1000)
unfolding sleep_ms
sleep_ms_bounds q now wait_ms h before =
    (ground arith, ground arith, (λ longer a b. ground arith), ground arith)
