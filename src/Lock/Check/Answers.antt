-- ===== src/Lock/Check/Answers.antt =====
-- What `check_lock` answers, and which files it removes.
use waitlock.Base.{
  ◌⊎◌, ℕ, suc, ◌+◌, ◌≤◌, ◌≡◌, refl, inl, inr, Bool, true, false, ◌&&◌, not, [], ◌∷◌, Option, none,
  some, arith, leb, All, Bool-cases, Option-cases, if◌then◌else◌,
}
use waitlock.Directory.{Dir}
use waitlock.Globals.{e_success, e_busy}
use waitlock.Lock.Check.{
  is_lock_of, Tally, check_info, check_entry, check_entries, no_locks, check_lock,
}
use waitlock.Lock.Scanning.{is_active, count_if, keep_if}
use waitlock.Lock.{holder_of, holder_of_info}
use waitlock.LockFile.{File, read_lock_file_any_format}
use waitlock.LockFile.Reading.{read-magic}
use waitlock.LockInfo.{LockInfo, validate_lock_checksum}
use waitlock.Process.{Probe}
use waitlock.Text.{Str, split_at}
use waitlock.Text.Laws.{Lacks, split_at-Lacks, starts_with_whole}

-- A name whose text before the first dot is the descriptor.
is_lock_of-Lacks : (d name : Str) → is_lock_of d name ≡ true → Lacks b'.' d
unfolding is_lock_of
is_lock_of-Lacks d name h = elim (Option-cases (split_at b'.' name)) [
  | inl e ↦ cc (rw (e, is_lock_of) at h)
  | inr (p, e) ↦
      let same : p.0 ≡ d = starts_with_whole p.0 d (ground arith) (ground arith) in
      rw same at (split_at-Lacks b'.' name p e)
]

not_Lacks-split_at : (d : Str) (p : Str × Str) → split_at b'.' d ≡ some p → ¬ Lacks b'.' d
unfolding split_at
not_Lacks-split_at [] p h l = cc
not_Lacks-split_at (c ∷ d) p h l = elim (Option-cases (split_at b'.' d)) [
  | inl e ↦ cc (rw (l.0, e) at h)
  | inr (r, e) ↦ not_Lacks-split_at d r e l.1
]

check_entries_dotted :
    (probe : Probe) (d : Str) (dir : Dir) (t : Tally)
    → ¬ Lacks b'.' d
    → check_entries probe d dir t ≡ (t, dir)
unfolding check_entries check_entry
check_entries_dotted probe d [] t h = refl
check_entries_dotted probe d (e ∷ dir) t h = elim (Bool-cases (is_lock_of d e.0)) [
  | inl mine ↦ absurd (h (is_lock_of-Lacks d e.0 mine))
  | inr other ↦ rw (other, check_entries_dotted probe d dir t h) refl
]

-- For a descriptor with a dot in it, and a lock directory that can be opened, `check_lock` answers
-- that the lock is available, whatever locks are held.
pub check_lock_dotted :
    (lock_dir : Str) (probe : Probe) (d : Str) (p : Str × Str) (dir : Dir)
    → split_at b'.' d ≡ some p
    → check_lock (some lock_dir) true probe d dir ≡ (e_success, dir)
unfolding check_lock
check_lock_dotted lock_dir probe d p dir h =
    rw (check_entries_dotted probe d dir no_locks (not_Lacks-split_at d p h)) refl

-- A lock file of exactly this descriptor whose holder is alive.
abbrev pub held_lock : Probe → Str → Str × File → Bool
held_lock probe d e = is_lock_of d e.0 && is_active (holder_of probe e.1)

-- A lock file of exactly this descriptor that was read and has a wrong checksum.
abbrev pub is_corrupt : Option LockInfo → Bool
is_corrupt none = false
is_corrupt (some info) = not (validate_lock_checksum (some info))

abbrev pub corrupt_lock : Str → Str × File → Bool
corrupt_lock d e = is_lock_of d e.0 && is_corrupt (read_lock_file_any_format e.1)

pub check_entry-keeps :
    (probe : Probe) (d : Str) (e : Str × File) (t : Tally)
    → (check_entry probe d e t).1 ≡ not (corrupt_lock d e)
unfolding check_entry check_info
check_entry-keeps probe d e t = elim (Option-cases (read_lock_file_any_format e.1)) [
  | inl r ↦ rw (r, check_entry) (ground arith)
  | inr (info, r) ↦ rw (r, check_entry) (ground (arith, read-magic e.1 info r))
]

check_entries-keeps :
    (probe : Probe) (d : Str) (dir : Dir) (t : Tally)
    → (check_entries probe d dir t).1 ≡ keep_if (λ e. not (corrupt_lock d e)) dir
unfolding check_entries keep_if
check_entries-keeps probe d [] t = refl
check_entries-keeps probe d (e ∷ dir) t =
    rw (check_entry-keeps probe d e t, check_entries-keeps probe d dir (check_entry probe d e t).0)
      refl

-- In a lock directory that can be opened, `check_lock` removes exactly the lock files of the
-- descriptor that it can read and whose checksum is wrong, and leaves the others in their order.
pub check_lock_removes :
    (lock_dir : Str) (probe : Probe) (d : Str) (dir : Dir)
    → (check_lock (some lock_dir) true probe d dir).1 ≡ keep_if (λ e. not (corrupt_lock d e)) dir
unfolding check_lock
check_lock_removes lock_dir probe d dir = check_entries-keeps probe d dir no_locks

-- The holders of the descriptor's locks all asked for the limit `m`.
abbrev pub Agrees : Probe → Str → ℕ → Str × File → Type 0
Agrees probe d m e =
    held_lock probe d e ≡ true
    → (info : LockInfo) → read_lock_file_any_format e.1 ≡ some info
    → info.max_holders ≡ m

check_entry_lem :
    (probe : Probe) (d : Str) (m : ℕ) (e : Str × File) (t : Tally)
    → Agrees probe d m e
    → (check_entry probe d e t).0 ≡ (
        if held_lock probe d e
        then record { active_locks = suc t.active_locks; max_holders = m }
        else t)
unfolding check_entry check_info holder_of holder_of_info
check_entry_lem probe d m e t h = elim (Option-cases (read_lock_file_any_format e.1)) [
  | inl r ↦ rw (r, check_entry, holder_of) (ground arith)
  | inr (info, r) ↦
      ground (arith, r, read-magic e.1 info r, λ (x : held_lock probe d e ≡ true). h x info r)
]

-- The tally of the loop, by the number of held locks.
TallyOf : ℕ → ℕ → Tally → Tally → Type 0
TallyOf m n t t' =
    (t'.active_locks ≡ t.active_locks + n)
    × (((n ≡ 0) × (t'.max_holders ≡ t.max_holders)) ⊎ (t'.max_holders ≡ m))

check_entries-TallyOf :
    (probe : Probe) (d : Str) (m : ℕ) (dir : Dir) (t : Tally)
    → All (Agrees probe d m) dir
    → TallyOf m (count_if (held_lock probe d) dir) t (check_entries probe d dir t).0
unfolding check_entries count_if TallyOf
check_entries-TallyOf probe d m [] t h = (omega arith, inl (refl, refl))
check_entries-TallyOf probe d m (e ∷ dir) t h =
    let here = check_entry_lem probe d m e t h.0 in
    let rest = check_entries-TallyOf probe d m dir (check_entry probe d e t).0 h.1 in
    elim (Bool-cases (held_lock probe d e)) [
      | inl mine ↦ ground (arith, here, rest)
      | inr other ↦ ground (arith, here, rest)
    ]

-- Where the holders of the descriptor's locks all asked for the limit `m`, one at least, and the
-- lock directory can be opened, `check_lock` answers E_BUSY if at least `m` of them are alive, and
-- E_SUCCESS if not.
pub check_lock_answer :
    (lock_dir : Str) (probe : Probe) (d : Str) (m : ℕ) (dir : Dir)
    → 1 ≤ m
    → All (Agrees probe d m) dir
    → (check_lock (some lock_dir) true probe d dir).0
      ≡ (if leb m (count_if (held_lock probe d) dir) then e_busy else e_success)
unfolding check_lock TallyOf
check_lock_answer lock_dir probe d m dir h agrees =
    ground (arith, check_entries-TallyOf probe d m dir no_locks agrees)
