-- ===== src/Lock/Acquire.antt =====
-- lock/lock.c: `acquire_lock`. Time is in microseconds; a negative timeout waits for ever. What the
-- clock, the processes and the file system answer in one pass of the loop is a `Round`, and the list
-- of rounds is as long as the process is watched.
pub mod Safety
pub mod Outcomes
pub mod Held
pub mod Backoff
pub mod Deadline
pub mod Progress
pub mod Keeping
pub mod Order
use waitlock.Base.{
  ℕ, zero, suc, ◌+◌, ◌-◌, ◌*◌, ◌/◌, ◌%◌, Bool, true, false, not, List, [], ◌∷◌, ◌++◌, Option, none,
  some, ltb, leb, if◌then◌else◌,
}
use waitlock.Base.Int.{ℤ, is_neg, is_pos, pos_part}
use waitlock.Directory.{Dir, slot_name}
use waitlock.Globals.{GlobalState, e_success, e_busy, e_timeout, e_system, e_nodir}
use waitlock.Lock.Claim.{Host, Slots, prepare_info, claim_slot}
use waitlock.Lock.{scan}
use waitlock.LockInfo.{LockInfo}
use waitlock.Process.{Probe}
use waitlock.Text.{Str, truncate}
use waitlock.Directory.Search.{path_max}

abbrev pub initial_wait_ms : ℕ
initial_wait_ms = 10

abbrev pub max_wait_ms : ℕ
max_wait_ms = 1000

-- One pass of the loop as the process sees it.
pub record Round : Type 0 where
  pub now : ℕ  -- at the top of the loop
  pub opened : Bool  -- `opendir` succeeds
  pub probe : Probe
  pub slots : Slots
  pub reopened : ℤ  -- `open(lock_path, O_RDONLY)`
  pub now_after : ℕ  -- after the slots were tried
  pub should_exit : Bool  -- a signal has come
  pub now_sleep : ℕ  -- before the sleep
  pub random : ℕ  -- `rand()`
  pub others : Dir → Dir  -- what other processes do to the directory during the sleep

-- The arguments and what is fixed before the loop.
pub record Request : Type 0 where
  pub lock_dir : Str
  pub descriptor : Str
  pub max_holders : ℕ
  pub timeout : ℤ
  pub start : ℕ
  pub info : LockInfo

-- `timeout >= 0` and `elapsed >= timeout`
unfoldable pub expired : Request → ℕ → Bool
expired q now = if is_neg q.timeout then false else leb (q.start + pos_part q.timeout) now

abbrev at_most : ℕ → ℕ → ℕ
at_most limit ms = if ltb limit ms then limit else ms

abbrev at_least_one : ℕ → ℕ
at_least_one ms = if ltb ms 1 then 1 else ms

-- The milliseconds to sleep: nine tenths of what remains at most, and one at least.
unfoldable pub sleep_ms : Request → ℕ → ℕ → ℕ
sleep_ms q now wait_ms =
    if is_neg q.timeout
    then wait_ms
    else at_least_one (at_most ((q.start + pos_part q.timeout - now) * 9 / 10000) wait_ms)

abbrev capped : ℕ → ℕ
capped wait_ms = if ltb max_wait_ms wait_ms then max_wait_ms else wait_ms

-- The next wait: twice as long, up to the limit, with some jitter.
unfoldable pub next_wait : ℕ → ℕ → ℕ
next_wait random wait_ms = capped (wait_ms * 2) + random % (capped (wait_ms * 2) / 10 + 1)

-- What a pass ends in: the call returns, or it sleeps and goes on.
pub data Pass : Type 0 where
  return : ℕ → Dir → GlobalState → Pass
  again : Dir → Pass

-- From "No slot could be claimed" to the sleep.
unfoldable pub stop_or_sleep : Request → Round → Dir → GlobalState → Pass
stop_or_sleep q r dir g =
    if expired q r.now_after
    then return e_timeout dir g
    else if r.should_exit
    then return e_system dir g
    else if expired q r.now_sleep
    then return e_timeout dir g
    else again (r.others dir)

-- `"%s/%s.slot%d.lock"`
unfoldable pub slot_path : Str → Str → ℕ → Str
slot_path lock_dir descriptor slot =
    truncate path_max (lock_dir ++ b'/' ∷ slot_name descriptor slot)

-- `g_state` when the lock is held.
unfoldable pub held : Request → Round → ℕ → GlobalState → GlobalState
held q r slot g = record g {
  lock_fd = r.reopened;
  lock_path = slot_path q.lock_dir q.descriptor slot;
}

unfoldable pub after_claim : Request → Round → GlobalState → Option ℕ × Dir → Pass
after_claim q r g claimed = elim claimed.0 [
  | some slot ↦ return e_success claimed.1 (held q r slot g)
  | none ↦ stop_or_sleep q r claimed.1 g
]

-- "Clean up stale locks and count active ones"
unfoldable pub cleaned : Request → Round → Dir → ℕ × Dir
cleaned q r dir = if r.opened then scan r.probe q.descriptor dir else (0, dir)

-- The pass below the first test of the timeout.
unfoldable pub try_slots : Request → Round → GlobalState → ℕ × Dir → Pass
try_slots q r g counted =
    if leb q.max_holders counted.0
    then (if not (is_pos q.timeout)
        then return e_busy counted.1 g
        else stop_or_sleep q r counted.1 g)
    else after_claim q r g (claim_slot r.slots q.descriptor q.info q.max_holders 0 counted.1)

-- One pass of `while (1)`.
unfoldable pub acquire_pass : Request → Round → Dir → GlobalState → Pass
acquire_pass q r dir g =
    if expired q r.now then return e_timeout dir g else try_slots q r g (cleaned q r dir)

-- The call has returned with a code, or is still waiting.
pub data Outcome : Type 0 where
  returned : ℕ → Dir → GlobalState → Outcome
  waiting : ℕ → Dir → Outcome

-- The loop, with the current wait.
unfoldable pub acquire_loop : Request → List Round → ℕ → Dir → GlobalState → Outcome
acquire_loop q [] wait_ms dir g = waiting wait_ms dir
acquire_loop q (r ∷ rs) wait_ms dir g = elim (acquire_pass q r dir g) [
  | return code dir' g' ↦ returned code dir' g'
  | again dir' ↦ acquire_loop q rs (next_wait r.random wait_ms) dir' g
]

-- What is fixed before the loop.
unfoldable pub request : Str → Host → Str → ℕ → ℤ → ℕ → Request
request lock_dir host descriptor max_holders timeout start = record {
  lock_dir = lock_dir;
  descriptor = descriptor;
  max_holders = max_holders;
  timeout = timeout;
  start = start;
  info = prepare_info host descriptor max_holders;
}

-- `acquire_lock`, with what `find_lock_directory` found.
unfoldable pub acquire_lock :
    Option Str → Host → Str → ℕ → ℤ → ℕ → List Round → Dir → GlobalState → Outcome
unfolding request
acquire_lock none host descriptor max_holders timeout start rounds dir g = returned e_nodir dir g
acquire_lock (some lock_dir) host descriptor max_holders timeout start rounds dir g =
    acquire_loop (request lock_dir host descriptor max_holders timeout start) rounds initial_wait_ms
      dir g
