-- ===== src/Lock/Acquire/Outcomes.antt =====
-- When `acquire_lock` gives up at once: the values of the timeout, and other descriptors' locks.
use mathlib.Core.List.{append_assoc}
use waitlock.Base.{
  ℕ, Option, none, inl, inr, leb, Bool-cases, [], ◌≤◌, ◌≢◌, ◌≡◌, refl, true, false, List, ◌∷◌, ◌++◌,
  some, arith,
}
use waitlock.Base.Int.{ℤ, pos, is_neg, is_pos}
use waitlock.Directory.{Dir, slot_name}
use waitlock.Directory.Entries.{contains-slot_name}
use waitlock.Globals.{GlobalState, e_busy, e_timeout}
use waitlock.Lock.Acquire.{
  Request, Round, Pass, return, again, Outcome, returned, waiting, stop_or_sleep, after_claim,
  expired, cleaned, try_slots, acquire_pass, acquire_loop, request, acquire_lock, next_wait,
  initial_wait_ms,
}
use waitlock.Lock.Claim.{Host}
use waitlock.Lock.Scanning.{scan-cons-active}
use waitlock.Lock.{Holder, holder_of, claims, scan}
use waitlock.LockFile.{File}
use waitlock.Text.{Str, starts_with}
use waitlock.Text.Laws.{starts_with-append}

-- A first pass that returns ends the loop.
pub loop-return :
    (q : Request) (r : Round) (rs : List Round) (wait_ms : ℕ) (dir dir' : Dir) (g g' : GlobalState)
    (code : ℕ)
    → acquire_pass q r dir g ≡ return code dir' g'
    → acquire_loop q (r ∷ rs) wait_ms dir g ≡ returned code dir' g'
unfolding acquire_loop
loop-return q r rs wait_ms dir dir' g g' code h = rw (h, acquire_loop) refl

pass-late :
    (q : Request) (r : Round) (dir : Dir) (g : GlobalState)
    → expired q r.now ≡ true
    → acquire_pass q r dir g ≡ return e_timeout dir g
unfolding acquire_pass
pass-late q r dir g h = rw h

pass-busy :
    (q : Request) (r : Round) (dir : Dir) (g : GlobalState)
    → expired q r.now ≡ false
    → r.opened ≡ true
    → is_pos q.timeout ≡ false
    → q.max_holders ≤ (scan r.probe q.descriptor dir).0
    → acquire_pass q r dir g ≡ return e_busy (scan r.probe q.descriptor dir).1 g
unfolding acquire_pass try_slots cleaned
pass-busy q r dir g h opened waits full = ground arith

-- With a timeout of 0, `acquire_lock` returns E_TIMEOUT without having looked at the lock directory,
-- whether or not a slot is free, if the clock has not gone back since the start.
pub acquire_lock_zero_timeout :
    (lock_dir : Str) (host : Host) (d : Str) (max_holders start : ℕ) (r : Round) (rs : List Round)
    (dir : Dir) (g : GlobalState)
    → start ≤ r.now
    → acquire_lock (some lock_dir) host d max_holders (pos 0) start (r ∷ rs) dir g
      ≡ returned e_timeout dir g
unfolding acquire_lock expired
acquire_lock_zero_timeout lock_dir host d max_holders start r rs dir g h =
    loop-return (request lock_dir host d max_holders (pos 0) start) r rs _ dir dir g g e_timeout
      (pass-late (request lock_dir host d max_holders (pos 0) start) r dir g (ground arith))

-- With a negative timeout, which stands for an infinite one, `acquire_lock` returns E_BUSY in its
-- first pass if the lock directory can be read and the active locks that it counts reach the limit:
-- it does not wait.
pub acquire_lock_no_timeout :
    (lock_dir : Str) (host : Host) (d : Str) (max_holders start : ℕ) (timeout : ℤ) (r : Round)
    (rs : List Round) (dir : Dir) (g : GlobalState)
    → is_neg timeout ≡ true
    → r.opened ≡ true
    → max_holders ≤ (scan r.probe d dir).0
    → acquire_lock (some lock_dir) host d max_holders timeout start (r ∷ rs) dir g
      ≡ returned e_busy (scan r.probe d dir).1 g
unfolding acquire_lock expired
acquire_lock_no_timeout lock_dir host d max_holders start timeout r rs dir g neg opened full =
    loop-return (request lock_dir host d max_holders timeout start) r rs _ dir _ g g e_busy (
      pass-busy (request lock_dir host d max_holders timeout start) r dir g (ground arith) opened
        (ground arith) full)

-- The call has not returned E_TIMEOUT.
abbrev pub NeverTimesOut : Outcome → Type 0
NeverTimesOut (returned code dir g) = code ≢ e_timeout
NeverTimesOut (waiting wait_ms dir) = Unit

abbrev PassGoesOn : Pass → Type 0
PassGoesOn (return code dir g) = code ≢ e_timeout
PassGoesOn (again dir) = Unit

after_claim-GoesOn :
    (q : Request) (r : Round) (g : GlobalState) (claimed : Option ℕ × Dir)
    → is_neg q.timeout ≡ true
    → PassGoesOn (after_claim q r g claimed)
unfolding after_claim stop_or_sleep expired
after_claim-GoesOn q r g (some slot, dir) h = cc
after_claim-GoesOn q r g (none, dir) h = elim (Bool-cases r.should_exit) [
  | inl leaves ↦ rw (h, leaves) cc
  | inr stays ↦ rw (h, stays) tt
]

acquire_pass-GoesOn :
    (q : Request) (r : Round) (dir : Dir) (g : GlobalState)
    → is_neg q.timeout ≡ true
    → PassGoesOn (acquire_pass q r dir g)
unfolding acquire_pass try_slots expired
acquire_pass-GoesOn q r dir g h = elim (Bool-cases (leb q.max_holders (cleaned q r dir).0)) [
  | inl full ↦ rw (h, full, neg-not_pos q.timeout h) cc
  | inr free ↦ rw (h, free) (after_claim-GoesOn q r g _ h)
]
  where
    neg-not_pos : (t : ℤ) → is_neg t ≡ true → is_pos t ≡ false
    neg-not_pos t neg = ground arith

after_pass :
    (q : Request) (r : Round) (rs : List Round) (wait_ms : ℕ) (dir : Dir) (g : GlobalState)
    (p : Pass)
    → acquire_pass q r dir g ≡ p
    → PassGoesOn p
    → ((dir' : Dir) → NeverTimesOut (acquire_loop q rs (next_wait r.random wait_ms) dir' g))
    → NeverTimesOut (acquire_loop q (r ∷ rs) wait_ms dir g)
unfolding acquire_loop
after_pass q r rs wait_ms dir g (return code dir' g') e other h = rw (e, acquire_loop) other
after_pass q r rs wait_ms dir g (again dir') e other h = rw (e, acquire_loop) (h dir')

loop-NeverTimesOut :
    (q : Request) (rs : List Round) (wait_ms : ℕ) (dir : Dir) (g : GlobalState)
    → is_neg q.timeout ≡ true
    → NeverTimesOut (acquire_loop q rs wait_ms dir g)
loop-NeverTimesOut q [] wait_ms dir g h = unfold acquire_loop in tt
loop-NeverTimesOut q (r ∷ rs) wait_ms dir g h =
    after_pass q r rs wait_ms dir g _ refl (acquire_pass-GoesOn q r dir g h)
      λ dir'. loop-NeverTimesOut q rs (next_wait r.random wait_ms) dir' g h

-- With a negative timeout, which stands for an infinite one, `acquire_lock` never returns E_TIMEOUT:
-- not for any directory, any number of passes, any readings of the clock, or anything that other
-- processes do between the passes.
pub acquire_lock-NeverTimesOut :
    (lock_dir : Str) (host : Host) (d : Str) (max_holders start : ℕ) (timeout : ℤ)
    (rounds : List Round) (dir : Dir) (g : GlobalState)
    → is_neg timeout ≡ true
    → NeverTimesOut (acquire_lock (some lock_dir) host d max_holders timeout start rounds dir g)
unfolding acquire_lock
acquire_lock-NeverTimesOut lock_dir host d max_holders start timeout rounds dir g h =
    loop-NeverTimesOut (request lock_dir host d max_holders timeout start) rounds initial_wait_ms
      dir g (unfold request in h)

-- The name of a slot of a longer descriptor is taken for one of its prefix.
pub claims-slot_name_longer :
    (d suffix : Str) (slot : ℕ) → claims d (slot_name (d ++ suffix) slot) ≡ true
unfolding claims
claims-slot_name_longer d suffix slot = rw (prefix, contains-slot_name (d ++ suffix) slot)
  where
    prefix : starts_with d (slot_name (d ++ suffix) slot) ≡ true
    prefix = unfold slot_name in rw append_assoc (starts_with-append d _)

-- An active lock of a descriptor that only begins with `d` makes `d` busy: with one holder allowed
-- and no timeout, `acquire_lock` of `d` returns E_BUSY.
pub acquire_lock_prefix :
    (lock_dir : Str) (host : Host) (d suffix : Str) (slot start : ℕ) (timeout : ℤ) (r : Round)
    (rs : List Round) (file : File) (dir : Dir) (g : GlobalState)
    → is_neg timeout ≡ true
    → r.opened ≡ true
    → holder_of r.probe file ≡ Holder.active
    → acquire_lock
        (some lock_dir)
        host
        d
        1
        timeout
        start
        (r ∷ rs)
        ((slot_name (d ++ suffix) slot, file) ∷ dir)
        g
      ≡ returned e_busy (scan r.probe d ((slot_name (d ++ suffix) slot, file) ∷ dir)).1 g
acquire_lock_prefix lock_dir host d suffix slot start timeout r rs file dir g neg opened active =
    acquire_lock_no_timeout lock_dir host d 1 start timeout r rs _ g neg opened (
      omega (
        arith,
        scan-cons-active r.probe d (slot_name (d ++ suffix) slot, file) dir
            (claims-slot_name_longer d suffix slot) active,
      ))
