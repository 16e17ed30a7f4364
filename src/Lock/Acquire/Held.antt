-- ===== src/Lock/Acquire/Held.antt =====
-- What a process holds when `acquire_lock` has returned success.
use waitlock.Base.{ℕ, ◌≤◌, ◌<◌, ◌≡◌, refl, ap, ◌∙◌, true, List, [], ◌∷◌, some, All}
use waitlock.Base.Int.{ℤ}
use waitlock.Directory.{Dir, lookup, slot_name}
use waitlock.Globals.{GlobalState, e_success}
use waitlock.Lock.Acquire.{
  Request, Round, Pass, return, again, returned, next_wait, slot_path, request, acquire_pass,
  acquire_loop, acquire_lock, held,
}
use waitlock.Lock.Acquire.Safety.{acquire_pass-Success, acquire_pass-limit}
use waitlock.Lock.Claim.{Host, prepare_info, slot_info, slot_file}
use waitlock.Lock.Claim.Laws.{IsHost, prepare_info-IsValid, read-slot_file}
use waitlock.Lock.{scan}
use waitlock.LockFile.{File, read_lock_file_any_format}
use waitlock.Text.{Str}
use waitlock.Text.Decimal.{IsInt64}
use waitlock.Text.Laws.{str_eq_refl}

-- The round is one of the list.
pub data Among (r : Round) : List Round → Type 0 where
  first : {rs : List Round} → Among r (r ∷ rs)
  later : {s : Round} {rs : List Round} → Among r rs → Among r (s ∷ rs)

pub record LastPass (q : Request) (rs : List Round) (g : GlobalState) (code : ℕ) (dir' : Dir)
    (g' : GlobalState) : Type 0 where
  pub round : Round
  pub before : Dir
  pub among : Among round rs
  pub returns : acquire_pass q round before g ≡ return code dir' g'

-- What the loop returns, one of its passes returned.
acquire_loop-LastPass :
    (q : Request) (rs : List Round) (wait_ms : ℕ) (dir : Dir) (g : GlobalState) (code : ℕ)
    (dir' : Dir) (g' : GlobalState)
    → acquire_loop q rs wait_ms dir g ≡ returned code dir' g'
    → LastPass q rs g code dir' g'
unfolding acquire_loop
acquire_loop-LastPass q [] wait_ms dir g code dir' g' h = cc
acquire_loop-LastPass q (r ∷ rs) wait_ms dir g code dir' g' h =
    go (acquire_pass q r dir g) refl λ d e. acquire_loop-LastPass q rs _ d g code dir' g' e
  where
    go :
        (p : Pass)
        → acquire_pass q r dir g ≡ p
        → ((d : Dir)
            → acquire_loop q rs (next_wait r.random wait_ms) d g ≡ returned code dir' g'
            → LastPass q rs g code dir' g')
        → LastPass q (r ∷ rs) g code dir' g'
    go (return c d k) e rec = record {
      round = r;
      before = dir;
      among = first;
      returns = e ∙ cc (rw (e, acquire_loop) at h);
    }
    go (again d) e rec =
        let l = rec d (rw (e, acquire_loop) at h) in
        record { round = l.round; before = l.before; among = later l.among; returns = l.returns }

-- The lock as `acquire_lock` leaves it.
pub record Held (lock_dir : Str) (host : Host) (d : Str) (max_holders : ℕ) (rs : List Round)
    (dir' : Dir) (g' : GlobalState) : Type 0 where
  pub round : Round
  pub among : Among round rs
  pub slot : ℕ
  pub in_range : slot < max_holders
  pub written :
      (file : File) × (lookup (slot_name d slot) dir' ≡ some file)
      × (read_lock_file_any_format file
          ≡ some (slot_info round.slots (prepare_info host d max_holders) slot))
  pub path : g'.lock_path ≡ slot_path lock_dir d slot
  pub limit : round.opened ≡ true → (scan round.probe d dir').0 ≤ max_holders

-- What the clock says at each slot is a `time_t`.
abbrev pub HasTimes : Round → Type 0
HasTimes r = (slot : ℕ) → IsInt64 (r.slots.time slot)

pub Among-All : {r : Round} {rs : List Round} → Among r rs → All HasTimes rs → HasTimes r
Among-All first h = h.0
Among-All (later a) h = Among-All a h.1

-- `acquire_lock` that returns success leaves the child and the wish to exit as they were.
pub acquire_lock-keeps_globals :
    (lock_dir : Str) (host : Host) (d : Str) (max_holders : ℕ) (timeout : ℤ) (start : ℕ)
    (rs : List Round) (dir dir' : Dir) (g g' : GlobalState)
    → acquire_lock (some lock_dir) host d max_holders timeout start rs dir g
      ≡ returned e_success dir' g'
    → (g'.child_pid ≡ g.child_pid) × (g'.should_exit ≡ g.should_exit)
unfolding acquire_lock held
acquire_lock-keeps_globals lock_dir host d max_holders timeout start rs dir dir' g g' e =
    let q = request lock_dir host d max_holders timeout start in
    let l = acquire_loop-LastPass q rs _ dir g e_success dir' g' e in
    let s = acquire_pass-Success q l.round l.before g l.returns in
    (ap (λ (x : GlobalState). x.child_pid) s.state, ap (λ (x : GlobalState). x.should_exit) s.state)

-- If what the system says of the process and the time fits the C types, and `acquire_lock` returns
-- success, then a slot below `max_holders` has a file in the lock directory that reads back,
-- checksum and all, as the struct with this process, descriptor and slot; `g_state.lock_path` names
-- it; and if the last pass could read the directory, at most `max_holders` locks of the descriptor
-- are active.
pub acquire_lock-Held :
    (lock_dir : Str) (host : Host) (d : Str) (max_holders : ℕ) (timeout : ℤ) (start : ℕ)
    (rs : List Round) (dir dir' : Dir) (g g' : GlobalState)
    → IsHost host d
    → All HasTimes rs
    → acquire_lock (some lock_dir) host d max_holders timeout start rs dir g
      ≡ returned e_success dir' g'
    → Held lock_dir host d max_holders rs dir' g'
unfolding acquire_lock
acquire_lock-Held lock_dir host d max_holders timeout start rs dir dir' g g' h times e =
    let q = request lock_dir host d max_holders timeout start in
    let l = acquire_loop-LastPass q rs _ dir g e_success dir' g' e in
    let s = acquire_pass-Success q l.round l.before g l.returns in
    let info = prepare_info host d max_holders in
    record {
      round = l.round;
      among = l.among;
      slot = s.slot;
      in_range = s.in_range;
      written = (
        slot_file l.round.slots info s.slot,
        rw s.entries (found (slot_name d s.slot) _ _),
        read-slot_file l.round.slots info s.slot (prepare_info-IsValid host d max_holders h)
            (unfold prepare_info in refl) (Among-All l.among times s.slot),
      );
      path = ap (λ (x : GlobalState). x.lock_path) s.state ∙ (unfold held in refl);
      limit = λ opened. acquire_pass-limit q l.round l.before g opened l.returns;
    }
  where
    found : (name : Str) (file : File) (rest : Dir) → lookup name ((name, file) ∷ rest) ≡ some file
    found name file rest = unfold lookup in rw (str_eq_refl name)
