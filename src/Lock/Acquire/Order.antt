-- ===== src/Lock/Acquire/Order.antt =====
-- lock/lock.c: `acquire_lock` on directories that `readdir` gives in different orders.
use waitlock.Base.{
  ℕ, zero, suc, ◌+◌, ◌≡◌, refl, ap, Bool, true, false, not, ◌||◌, List, [], ◌∷◌, Option, none, some,
  All, Bool-cases, inl, inr, leb, if◌then◌else◌,
}
use mathlib.Core.List.{Permᴰ}
use mathlib.Core.Quot
use mathlib.Core.Quot.{Quot}
use waitlock.Directory.{Dir, exists_in, slot_name}
use waitlock.Globals.{GlobalState, e_nodir}
use waitlock.Lock.Acquire.{
  Round, Request, Pass, return, again, Outcome, returned, waiting, expired, stop_or_sleep,
  after_claim, cleaned, try_slots, acquire_pass, acquire_loop, acquire_lock, next_wait, request,
  initial_wait_ms,
}
use waitlock.Base.Int.{ℤ, is_pos}
use waitlock.Lock.Claim.{Host, Slots, claim_slot}
use waitlock.Lock.Reordered.{Entries, count_if-Perm, keep_if-Perm, exists_in-Perm}
use waitlock.Lock.Scanning.{scan_lem, active_claim, stale_claim}
use waitlock.LockInfo.{LockInfo}
use waitlock.Text.{Str}

-- The same slot, and the same entries in some order.
abbrev SameClaim : Option ℕ × Dir → Option ℕ × Dir → Type 0
SameClaim r t = (r.0 ≡ t.0) × Permᴰ r.1 t.1

if-SameClaim :
    (c : Bool) {r t r' t' : Option ℕ × Dir}
    → SameClaim r r'
    → SameClaim t t'
    → SameClaim (if c then r else t) (if c then r' else t')
if-SameClaim true h k = h
if-SameClaim false h k = k

claim_slot-SameClaim :
    (env : Slots) (d : Str) (i : LockInfo) (n slot : ℕ) {x y : Dir}
    → Permᴰ x y
    → SameClaim (claim_slot env d i n slot x) (claim_slot env d i n slot y)
unfolding claim_slot
claim_slot-SameClaim env d i zero slot h = (refl, h)
claim_slot-SameClaim env d i (suc n) slot {y = y} h =
    let rest = claim_slot-SameClaim env d i n (slot + 1) h in
    rw (exists_in-Perm (slot_name d slot) h) (
      if-SameClaim (exists_in (slot_name d slot) y || not (env.can_create slot)) rest
        (if-SameClaim (env.written slot) (refl, Permᴰ.cons refl h) rest))

-- The same way on, and the same entries in some order.
data SamePass : Pass → Pass → Type 0 where
  returns :
      {code : ℕ} {x y : Dir} {g : GlobalState}
      → Permᴰ x y
      → SamePass (return code x g) (return code y g)
  agains : {x y : Dir} → Permᴰ x y → SamePass (again x) (again y)

if-SamePass :
    (c : Bool) {r t r' t' : Pass}
    → SamePass r r'
    → SamePass t t'
    → SamePass (if c then r else t) (if c then r' else t')
if-SamePass true h k = h
if-SamePass false h k = k

-- What others do does not depend on the order of the entries.
abbrev pub IsUnordered : Round → Type 0
IsUnordered r = (x y : Dir) → Permᴰ x y → Permᴰ (r.others x) (r.others y)

module _ (q : Request) (r : Round) (is : IsUnordered r) (g : GlobalState) where
  stop_or_sleep-SamePass :
      {x y : Dir} → Permᴰ x y → SamePass (stop_or_sleep q r x g) (stop_or_sleep q r y g)
  unfolding stop_or_sleep
  stop_or_sleep-SamePass {x} {y} h = if-SamePass (expired q r.now_after) (returns h) (
      if-SamePass r.should_exit (returns h)
        (if-SamePass (expired q r.now_sleep) (returns h) (agains (is x y h))))

  after_claim-SamePass :
      (s s' : Option ℕ) {x y : Dir}
      → s ≡ s'
      → Permᴰ x y
      → SamePass (after_claim q r g (s, x)) (after_claim q r g (s', y))
  unfolding after_claim
  after_claim-SamePass s none e h = rw e (stop_or_sleep-SamePass h)
  after_claim-SamePass s (some slot) e h = rw e (returns h)

  try_slots-SamePass :
      (n n' : ℕ) {x y : Dir}
      → n ≡ n'
      → Permᴰ x y
      → SamePass (try_slots q r g (n, x)) (try_slots q r g (n', y))
  unfolding try_slots
  try_slots-SamePass n n' {y = y} e h =
      let c = claim_slot-SameClaim r.slots q.descriptor q.info q.max_holders 0 h in
      rw e (
        if-SamePass (leb q.max_holders n')
          (if-SamePass (not (is_pos q.timeout)) (returns h) (stop_or_sleep-SamePass h))
          (after_claim-SamePass _ _ c.0 c.1))

  cleaned-Perm :
      {x y : Dir}
      → Permᴰ x y
      → ((cleaned q r x).0 ≡ (cleaned q r y).0) × Permᴰ (cleaned q r x).1 (cleaned q r y).1
  unfolding cleaned
  cleaned-Perm {x} {y} h = elim (Bool-cases r.opened) [
    | inl opened ↦
        rw (opened, scan_lem r.probe q.descriptor x, scan_lem r.probe q.descriptor y)
          (
            count_if-Perm (active_claim r.probe q.descriptor) h,
            keep_if-Perm (λ e. not (stale_claim r.probe q.descriptor e)) h,
          )
    | inr shut ↦ rw shut (refl, h)
  ]

  acquire_pass-SamePass :
      {x y : Dir} → Permᴰ x y → SamePass (acquire_pass q r x g) (acquire_pass q r y g)
  unfolding acquire_pass
  acquire_pass-SamePass h =
      let c = cleaned-Perm h in
      if-SamePass (expired q r.now) (returns h) (try_slots-SamePass _ _ c.0 c.1)

-- What the call does, up to the order of the entries.
pub data Seen : Type 0 where
  ends : ℕ → Entries → GlobalState → Seen
  goes_on : ℕ → Entries → Seen

abbrev pub seen : Outcome → Seen
seen (returned code dir g) = ends code (Quot.mk dir) g
seen (waiting wait_ms dir) = goes_on wait_ms (Quot.mk dir)

acquire_loop-order :
    (q : Request) (rs : List Round) (wait_ms : ℕ) (x y : Dir) (g : GlobalState)
    → All IsUnordered rs
    → Permᴰ x y
    → seen (acquire_loop q rs wait_ms x g) ≡ seen (acquire_loop q rs wait_ms y g)
unfolding acquire_loop
acquire_loop-order q [] wait_ms x y g is h = ap (goes_on wait_ms) (Quot.sound h)
acquire_loop-order q (r ∷ rs) wait_ms x y g is h =
    go (acquire_pass q r x g) (acquire_pass q r y g) (acquire_pass-SamePass q r is.0 g h)
      λ u v k. acquire_loop-order q rs (next_wait r.random wait_ms) u v g is.1 k
  where
    after : Pass → Outcome
    after p = elim p [
      | return code d g' ↦ returned code d g'
      | again d ↦ acquire_loop q rs (next_wait r.random wait_ms) d g
    ]

    go :
        (p p' : Pass)
        → SamePass p p'
        → ((u v : Dir) → Permᴰ u v → seen (after (again u)) ≡ seen (after (again v)))
        → seen (after p) ≡ seen (after p')
    go _ _ (returns {code} {g = g'} k) rest = ap (λ e. ends code e g') (Quot.sound k)
    go _ _ (agains {x} {y} k) rest = rest x y k

-- If what other processes do does not depend on the order of the entries, then what `acquire_lock`
-- does, its result, `g_state` and the entries that it leaves as a directory without an order, is the
-- same for every order in which `readdir` gives the entries.
pub acquire_lock-order :
    (lock_dir : Option Str) (host : Host) (d : Str) (max_holders : ℕ) (timeout : ℤ) (start : ℕ)
    (rounds : List Round) (x y : Dir) (g : GlobalState)
    → All IsUnordered rounds
    → Permᴰ x y
    → seen (acquire_lock lock_dir host d max_holders timeout start rounds x g)
      ≡ seen (acquire_lock lock_dir host d max_holders timeout start rounds y g)
unfolding acquire_lock
acquire_lock-order none host d max_holders timeout start rounds x y g is h =
    ap (λ e. ends e_nodir e g) (Quot.sound h)
acquire_lock-order (some lock_dir) host d max_holders timeout start rounds x y g is h =
    acquire_loop-order (request lock_dir host d max_holders timeout start) rounds initial_wait_ms x
      y g is h
