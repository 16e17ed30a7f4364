-- ===== src/Lock/Acquire/Safety.antt =====
-- What `acquire_lock` promises about the lock directory: the limit on holders, the file of the slot
-- it took, and the files of live holders.
use waitlock.Base.{
  ℕ, ◌≤◌, ◌<◌, ◌≡◌, refl, ap, ◌∙◌, ◌≢◌, inl, inr, true, false, not, ◌∷◌, Option, some, arith, leb,
  Bool-cases,
}
use waitlock.Base.Int.{is_pos}
use waitlock.Directory.{Dir, lookup, exists_in, slot_name}
use waitlock.Globals.{GlobalState, e_success}
use waitlock.Lock.Acquire.{
  Request, Round, Pass, return, again, expired, cleaned, try_slots, after_claim, stop_or_sleep,
  acquire_pass, held,
}
use waitlock.Lock.Claim.{slot_file}
use waitlock.Lock.Claim.Laws.{Claimed, claim_slot-Claimed}
use waitlock.Lock.Scanning.{scan_twice, scan-cons-le, lookup-scan}
use waitlock.Lock.{Holder, holder_of, scan}
use waitlock.LockFile.{File}
use waitlock.Text.{Str, str_eq}
use waitlock.Text.Laws.{str_eq_sound}

-- How a pass that returns success went: fewer locks than the limit were active, and a slot below
-- the limit was taken whose file was not there.
pub record Success (q : Request) (r : Round) (dir : Dir) (g : GlobalState) (dir' : Dir)
    (g' : GlobalState) : Type 0 where
  pub slot : ℕ
  pub in_range : slot < q.max_holders
  pub room : (cleaned q r dir).0 < q.max_holders
  pub absent : exists_in (slot_name q.descriptor slot) (cleaned q r dir).1 ≡ false
  pub entries :
      dir' ≡ (slot_name q.descriptor slot, slot_file r.slots q.info slot) ∷ (cleaned q r dir).1
  pub state : g' ≡ held q r slot g

abbrev code_of : Pass → ℕ
code_of (return code dir g) = code
code_of (again dir) = 99

stop_or_sleep-fails :
    (q : Request) (r : Round) (dir : Dir) (g : GlobalState)
    → code_of (stop_or_sleep q r dir g) ≢ e_success
unfolding stop_or_sleep
stop_or_sleep-fails q r dir g = ground arith

-- What a returned success says of the two results.
return-parts :
    {c c' : ℕ} {d d' : Dir} {g g' : GlobalState}
    → return c d g ≡ return c' d' g'
    → (d' ≡ d) × (g' ≡ g)
return-parts h = (cc, cc)

after_claim_success :
    (q : Request) (r : Round) (dir0 : Dir) (g : GlobalState) {dir' : Dir} {g' : GlobalState}
    (claimed : Option ℕ × Dir)
    → Claimed r.slots q.descriptor q.info q.max_holders 0 dir0 claimed
    → after_claim q r g claimed ≡ return e_success dir' g'
    → (s : ℕ) × (s < q.max_holders)
      × (exists_in (slot_name q.descriptor s) dir0 ≡ false)
      × (dir' ≡ (slot_name q.descriptor s, slot_file r.slots q.info s) ∷ dir0)
      × (g' ≡ held q r s g)
unfolding after_claim
after_claim_success q r dir0 g claimed (inl (e, _)) h =
    absurd (stop_or_sleep-fails q r claimed.1 g (ap code_of (rw (e, after_claim) at h)))
after_claim_success q r dir0 g claimed (inr (s, e, lo, hi, absent, e')) h =
    let parts = return-parts (rw (e, after_claim) at h) in
    (s, omega arith, absent, parts.0 ∙ e', parts.1)

pub acquire_pass-Success :
    (q : Request) (r : Round) (dir : Dir) (g : GlobalState) {dir' : Dir} {g' : GlobalState}
    → acquire_pass q r dir g ≡ return e_success dir' g'
    → Success q r dir g dir' g'
unfolding acquire_pass try_slots
acquire_pass-Success q r dir g h = elim (Bool-cases (expired q r.now)) [
  | inl late ↦ absurd (ground arith)
  | inr in_time ↦ elim (Bool-cases (leb q.max_holders (cleaned q r dir).0)) [
    | inl full ↦ elim (Bool-cases (not (is_pos q.timeout))) [
      | inl fast ↦ absurd (ground arith)
      | inr slow ↦ absurd (
          stop_or_sleep-fails q r (cleaned q r dir).1 g
            (ap code_of (rw (in_time, full, slow) at h)))
    ]
    | inr room ↦
        let (s, hi, absent, e, e') =
          after_claim_success q r (cleaned q r dir).1 g _
            (claim_slot-Claimed r.slots q.descriptor q.info q.max_holders 0 (cleaned q r dir).1)
            (rw (in_time, room) at h) in
        record {
          slot = s;
          in_range = hi;
          room = ground arith;
          absent = absent;
          entries = e;
          state = e';
        }
  ]
]

-- A pass that could read the lock directory and returns success leaves at most `max_holders` active
-- locks of the descriptor, the new one included.
pub acquire_pass-limit :
    (q : Request) (r : Round) (dir : Dir) (g : GlobalState) {dir' : Dir} {g' : GlobalState}
    → r.opened ≡ true
    → acquire_pass q r dir g ≡ return e_success dir' g'
    → (scan r.probe q.descriptor dir').0 ≤ q.max_holders
unfolding cleaned
acquire_pass-limit q r dir g opened h =
    let s = acquire_pass-Success q r dir g h in
    let counted : (cleaned q r dir) ≡ scan r.probe q.descriptor dir = rw opened refl in
    let room : (scan r.probe q.descriptor dir).0 < q.max_holders = rw (← counted) s.room in
    rw (s.entries, counted)
      (omega (
        arith,
        scan-cons-le r.probe q.descriptor
            (slot_name q.descriptor s.slot, slot_file r.slots q.info s.slot)
            (scan r.probe q.descriptor dir).1,
        scan_twice r.probe q.descriptor dir,
      ))

pub lookup-cleaned :
    (q : Request) (r : Round) (dir : Dir) (name : Str) (file : File)
    → lookup name dir ≡ some file
    → holder_of r.probe file ≢ Holder.stale
    → lookup name (cleaned q r dir).1 ≡ some file
unfolding cleaned
lookup-cleaned q r dir name file found alive = elim (Bool-cases r.opened) [
  | inl yes' ↦ rw yes' (lookup-scan r.probe q.descriptor name file dir found alive)
  | inr no' ↦ rw no' found
]

-- The entries that a pass hands back; before the next pass, other processes act on them.
abbrev pub Keeps : Round → Str → File → Pass → Type 0
Keeps r name file (return code dir g) = lookup name dir ≡ some file
Keeps r name file (again dir) =
    (before : Dir) × (lookup name before ≡ some file) × (dir ≡ r.others before)

stop_or_sleep-Keeps :
    (q : Request) (r : Round) (dir : Dir) (g : GlobalState) (name : Str) (file : File)
    → lookup name dir ≡ some file
    → Keeps r name file (stop_or_sleep q r dir g)
unfolding stop_or_sleep
stop_or_sleep-Keeps q r dir g name file h = elim (Bool-cases (expired q r.now_after)) [
  | inl late ↦ rw late h
  | inr early ↦ elim (Bool-cases r.should_exit) [
    | inl stop ↦ rw (early, stop) h
    | inr stay ↦ elim (Bool-cases (expired q r.now_sleep)) [
      | inl over ↦ rw (early, stay, over) h
      | inr sleeps ↦ rw (early, stay, sleeps) (dir, h, refl)
    ]
  ]
]

lookup-cons :
    (name other : Str) (file new : File) (dir : Dir)
    → lookup name dir ≡ some file
    → exists_in other dir ≡ false
    → lookup name ((other, new) ∷ dir) ≡ some file
unfolding lookup
lookup-cons name other file new dir h absent = elim (Bool-cases (str_eq other name)) [
  | inl hit ↦
      let same : other ≡ name = str_eq_sound other name hit in
      let found : lookup other dir ≡ some file = rw same h in cc (rw (found, exists_in) at absent)
  | inr miss ↦ rw miss h
]

after_claim-Keeps :
    (q : Request) (r : Round) (dir : Dir) (g : GlobalState) (name : Str) (file : File)
    (claimed : Option ℕ × Dir)
    → Claimed r.slots q.descriptor q.info q.max_holders 0 dir claimed
    → lookup name dir ≡ some file
    → Keeps r name file (after_claim q r g claimed)
unfolding after_claim
after_claim-Keeps q r dir g name file claimed (inl (e, e')) h =
    rw (e, after_claim) (stop_or_sleep-Keeps q r claimed.1 g name file (rw e' h))
after_claim-Keeps q r dir g name file claimed (inr (s, e, lo, hi, absent, e')) h =
    rw (e, after_claim) (rw e' (lookup-cons name _ file _ dir h absent))

pub acquire_pass-Keeps :
    (q : Request) (r : Round) (dir : Dir) (g : GlobalState) (name : Str) (file : File)
    → lookup name dir ≡ some file
    → holder_of r.probe file ≢ Holder.stale
    → Keeps r name file (acquire_pass q r dir g)
unfolding acquire_pass try_slots
acquire_pass-Keeps q r dir g name file found alive =
    let kept = lookup-cleaned q r dir name file found alive in
    elim (Bool-cases (expired q r.now)) [
      | inl late ↦ rw late found
      | inr in_time ↦ elim (Bool-cases (leb q.max_holders (cleaned q r dir).0)) [
        | inl full ↦ elim (Bool-cases (not (is_pos q.timeout))) [
          | inl fast ↦ rw (in_time, full, fast) kept
          | inr slow ↦ rw (in_time, full, slow) (stop_or_sleep-Keeps q r _ g name file kept)
        ]
        | inr room ↦
            rw (in_time, room)
              (after_claim-Keeps q r _ g name file _
                (claim_slot-Claimed r.slots q.descriptor q.info q.max_holders 0 (cleaned q r dir).1)
                kept)
      ]
    ]

-- Whatever code a pass returns, every file of the lock directory is still there and unchanged,
-- except files of stale locks: of accepted lock files whose process does not exist.
pub acquire_pass_keeps :
    (q : Request) (r : Round) (dir dir' : Dir) (g g' : GlobalState) (code : ℕ) (name : Str)
    (file : File)
    → acquire_pass q r dir g ≡ return code dir' g'
    → lookup name dir ≡ some file
    → holder_of r.probe file ≢ Holder.stale
    → lookup name dir' ≡ some file
acquire_pass_keeps q r dir dir' g g' code name file h found alive =
    rw h at (acquire_pass-Keeps q r dir g name file found alive)
