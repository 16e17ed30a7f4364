-- ===== src/Lock/Done/Answers.antt =====
-- What `done_lock` answers, whom it signals, and which files it removes.
use waitlock.Base.{
  suc, ◌+◌, ◌≡◌, refl, inl, inr, Bool, true, false, ◌&&◌, not, [], ◌∷◌, Option, none, some, arith,
  ◌==◌, Option-cases, if◌then◌else◌,
}
use waitlock.Directory.{Dir}
use waitlock.Globals.{e_success, e_system, e_notfound}
use waitlock.Lock.Done.{
  Signals, is_target, is_delivered, Sweep, release_holder, done_entry, done_entries, nothing_done,
  done_code, done_lock,
}
use waitlock.Lock.Scanning.{count_if, keep_if}
use waitlock.LockFile.{File, read_lock_file_any_format}
use waitlock.LockInfo.{LockInfo, validate_lock_checksum}
use waitlock.Process.{process_exists}
use waitlock.Text.{Str}

-- The struct of an accepted lock file.
abbrev pub accepted : Option LockInfo → Option LockInfo
accepted none = none
accepted (some info) = if validate_lock_checksum (some info) then some info else none

-- The holder is alive, and stays so if SIGTERM does not reach it.
abbrev pub survives : Signals → LockInfo → Bool
survives s info =
    process_exists s.before info.pid
    && (if is_delivered (s.terminate info.pid) then true else process_exists s.after info.pid)

-- The holder got the signal.
abbrev pub is_signalled : Signals → LockInfo → Bool
is_signalled s info = process_exists s.before info.pid && is_delivered (s.terminate info.pid)

abbrev on_accepted {ℓ} : {A : Type ℓ} → A → (LockInfo → A) → Option LockInfo → A
on_accepted a f none = a
on_accepted a f (some info) = f info

-- A target whose file stays: accepted, with a holder that survives.
abbrev pub stays : Signals → Str → Str × File → Bool
stays s d e =
    if is_target d e.0
    then on_accepted false (survives s) (accepted (read_lock_file_any_format e.1))
    else true

-- A target that counts as found: its file is accepted.
abbrev pub is_found : Str → Str × File → Bool
is_found d e =
    is_target d e.0 && on_accepted false (λ _. true) (accepted (read_lock_file_any_format e.1))

-- A target that counts as released: signalled, or its holder is gone.
abbrev pub is_released : Signals → Str → Str × File → Bool
is_released s d e =
    is_target d e.0
    && on_accepted false (λ info. if is_signalled s info then true else not (survives s info))
        (accepted (read_lock_file_any_format e.1))

-- One entry.
abbrev EntryOf : Signals → Str → Str × File → Sweep → Sweep × Bool → Type 0
EntryOf s d e w r =
    (r.1 ≡ stays s d e)
    × (r.0.found_locks ≡ (if is_found d e then suc w.found_locks else w.found_locks))
    × (r.0.released_locks ≡ (if is_released s d e then suc w.released_locks else w.released_locks))

done_entry-EntryOf :
    (s : Signals) (d : Str) (e : Str × File) (w : Sweep) → EntryOf s d e w (done_entry s d e w)
unfolding done_entry release_holder
done_entry-EntryOf s d e w = elim (Option-cases (read_lock_file_any_format e.1)) [
  | inl r ↦ (ground (arith, r), ground (arith, r), ground (arith, r))
  | inr (info, r) ↦ (ground (arith, r), ground (arith, r), ground (arith, r))
]

done_entries_lem :
    (s : Signals) (d : Str) (dir : Dir) (w : Sweep)
    → ((done_entries s d dir w).1 ≡ keep_if (stays s d) dir)
      × ((done_entries s d dir w).0.found_locks ≡ w.found_locks + count_if (is_found d) dir)
      × ((done_entries s d dir w).0.released_locks
          ≡ w.released_locks + count_if (is_released s d) dir)
unfolding done_entries keep_if count_if
done_entries_lem s d [] w = (refl, omega arith, omega arith)
done_entries_lem s d (e ∷ dir) w =
    let here = done_entry-EntryOf s d e w in
    let rest = done_entries_lem s d dir (done_entry s d e w).0 in
    (rw (here.0, rest.0) refl, ground (arith, here.1, rest.1), ground (arith, here.2, rest.2))

done_lock-code :
    (lock_dir : Str) (s : Signals) (d : Str) (dir : Dir)
    → (done_lock (some lock_dir) true s d dir).0 ≡ (
        if count_if (is_found d) dir == 0
        then e_notfound
        else if count_if (is_released s d) dir == 0
        then e_system
        else e_success)
unfolding done_lock done_code
done_lock-code lock_dir s d dir = ground (arith, done_entries_lem s d dir nothing_done)

-- In a lock directory that can be opened, `done_lock` answers E_NOTFOUND if no lock file of a
-- target is accepted, E_SYSTEM if there are such and none was released, and E_SUCCESS otherwise; it
-- leaves the entries that are no target and the accepted files whose holder survives, in their order,
-- and removes all other targets.
pub done_lock_lem :
    (lock_dir : Str) (s : Signals) (d : Str) (dir : Dir)
    → ((done_lock (some lock_dir) true s d dir).0 ≡ (
        if count_if (is_found d) dir == 0
        then e_notfound
        else if count_if (is_released s d) dir == 0
        then e_system
        else e_success))
      × ((done_lock (some lock_dir) true s d dir).2 ≡ keep_if (stays s d) dir)
unfolding done_lock
done_lock_lem lock_dir s d dir =
    (done_lock-code lock_dir s d dir, (done_entries_lem s d dir nothing_done).0)
