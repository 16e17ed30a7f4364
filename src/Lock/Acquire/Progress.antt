-- ===== src/Lock/Acquire/Progress.antt =====
-- When a pass of `acquire_lock` gets a slot, and when it cannot.
use waitlock.Base.{
  ℕ, zero, suc, ◌+◌, ◌≤◌, ◌<◌, ◌≡◌, ◌≢◌, refl, true, false, some, Bool-cases, inl, inr, arith, not,
  ◌||◌, leb,
}
use waitlock.Directory.{Dir, lookup, exists_in, slot_name}
use waitlock.Globals.{GlobalState, e_success}
use waitlock.Lock.Acquire.{
  Round, Request, return, expired, acquire_pass, try_slots, after_claim, cleaned,
}
use waitlock.Lock.Acquire.Safety.{acquire_pass-Success, lookup-cleaned}
use waitlock.Lock.Claim.{Slots, claim_slot}
use waitlock.Lock.{Holder, holder_of}
use waitlock.LockFile.{File}
use waitlock.LockInfo.{LockInfo}
use waitlock.Text.{Str}

-- Where one slot can be made, the loop over the slots takes one.
claim_slot-takes :
    (env : Slots) (d : Str) (info : LockInfo) (n slot x : ℕ) (dir : Dir)
    → slot ≤ x
    → x < slot + n
    → exists_in (slot_name d x) dir ≡ false
    → env.can_create x ≡ true
    → env.written x ≡ true
    → (s : ℕ) × ((claim_slot env d info n slot dir).0 ≡ some s)
unfolding claim_slot
claim_slot-takes env d info zero slot x dir lo hi absent can whole = absurd (omega arith)
claim_slot-takes env d info (suc n) slot x dir lo hi absent can whole =
    let later : slot ≢ x → (s : ℕ) × ((claim_slot env d info n (slot + 1) dir).0 ≡ some s) =
      λ other.
        claim_slot-takes env d info n (slot + 1) x dir (ground (arith, other)) (omega arith) absent
          can whole in
    elim (Bool-cases (exists_in (slot_name d slot) dir || not (env.can_create slot))) [
      | inl taken ↦ rw taken (later (λ same. ground (arith, rw same at taken)))
      | inr free ↦ elim (Bool-cases (env.written slot)) [
        | inl done ↦ rw (free, done) (slot, refl)
        | inr short ↦ rw (free, short) (later (λ same. ground (arith, rw same at short)))
      ]
    ]

-- If the timeout has not passed, the directory can be read, fewer than `max_holders` locks are active,
-- and the file of some slot is neither there after the scan nor refused by the file system, then the
-- pass returns success: a free lock is granted at once.
pub acquire_pass_progress :
    (q : Request) (r : Round) (dir : Dir) (g : GlobalState) (x : ℕ)
    → expired q r.now ≡ false
    → (cleaned q r dir).0 < q.max_holders
    → x < q.max_holders
    → exists_in (slot_name q.descriptor x) (cleaned q r dir).1 ≡ false
    → r.slots.can_create x ≡ true
    → r.slots.written x ≡ true
    → (dir' : Dir) × ((g' : GlobalState) × (acquire_pass q r dir g ≡ return e_success dir' g'))
unfolding acquire_pass try_slots after_claim
acquire_pass_progress q r dir g x early room lt absent can whole =
    let s =
      claim_slot-takes r.slots q.descriptor q.info q.max_holders 0 x (cleaned q r dir).1
        (omega arith) (omega arith) absent can whole in
    let too_few : leb q.max_holders (cleaned q r dir).0 ≡ false = ground arith in
    rw (early, too_few, s.1, after_claim) (_, (_, refl))

-- While the file of every slot is there and is not the lock of a dead process, no pass returns
-- success, even if none of the files is an accepted lock.
pub acquire_pass_blocked :
    (q : Request) (r : Round) (dir dir' : Dir) (g g' : GlobalState)
    → ((x : ℕ)
        → x < q.max_holders
        → (f : File) × (lookup (slot_name q.descriptor x) dir ≡ some f)
          × (holder_of r.probe f ≢ Holder.stale))
    → acquire_pass q r dir g ≢ return e_success dir' g'
acquire_pass_blocked q r dir dir' g g' there success =
    let s = acquire_pass-Success q r dir g success in
    let t = there s.slot s.in_range in
    let stays = lookup-cleaned q r dir (slot_name q.descriptor s.slot) t.0 t.1 t.2 in
    let absent = s.absent in ground arith
