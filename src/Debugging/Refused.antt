-- ===== src/Debugging/Refused.antt =====
-- A child of the mutex test while the parent holds the lock: it is refused, and not counted.
use waitlock.Base.{
  ℕ, ◌≡◌, ◌≢◌, refl, ◌∙◌, true, false, List, [], ◌∷◌, none, some, ◌==◌, ==_iff, All, Bool-cases,
  inl, inr, arith, if◌then◌else◌,
}
use waitlock.Base.Int.{ℤ}
use waitlock.Debugging.{is_success, successes, replies}
use waitlock.Debugging.Contention.{is_success-status_msg, of_mutex}
use waitlock.Debugging.Reports.{
  mutex, two_seconds, Child, child_start, finish_child, run_child, reply_of,
}
use waitlock.Directory.{Dir, lookup, slot_name}
use waitlock.Globals.{GlobalState, e_success}
use waitlock.Lock.{Holder, holder_of}
use waitlock.Lock.Acquire.{
  Round, Outcome, returned, waiting, Request, request, acquire_lock, initial_wait_ms,
}
use waitlock.Lock.Acquire.Keeping.{LetsBe, OtherPath, OutcomeLeaves, acquire_loop-Leaves}
use waitlock.LockFile.{File}
use waitlock.Process.{Probe, process_exists}
use waitlock.Text.{Str}
use waitlock.Text.Laws.{Lacks, str_eq_refl}

abbrev pub name : Str
name = slot_name mutex.descriptor 0

-- In this pass a process exists, and what others do behind it leaves the file.
pub record KeepsHolder (pid : ℤ) (r : Round) : Type 0 where
  pub lives : process_exists r.probe pid ≡ true
  pub others :
      (dir : Dir) (f : File)
      → lookup (slot_name mutex.descriptor 0) dir ≡ some f
      → lookup (slot_name mutex.descriptor 0) (r.others dir) ≡ some f

-- In each pass of the child the parent exists, and what others do then leaves the parent's file.
pub record IsBeside (pid : ℤ) (held : Dir) (c : Child) : Type 0 where
  pub entry :
      lookup (slot_name mutex.descriptor 0) c.entries ≡ lookup (slot_name mutex.descriptor 0) held
  pub rounds : All (KeepsHolder pid) c.rounds
  pub no_b : Lacks b'B' c.elapsed
  pub no_c : Lacks b'C' c.elapsed

abbrev of_child : Str → Child → Request
of_child lock_dir c = request lock_dir c.host mutex.descriptor 1 two_seconds c.start

-- A lock of the only slot has no other path.
only_slot :
    (lock_dir : Str) (c : Child) (g : GlobalState) → OtherPath (of_child lock_dir c) name g → ⊥
unfolding request
only_slot lock_dir c g other =
    let first : other.slot ≡ 0 = (let lt = other.in_range in omega arith) in
    let same = str_eq_refl (slot_name mutex.descriptor 0) in
    let differs = rw first at other.differs in ground arith

not_success : (code : ℕ) → code ≢ e_success → (code == e_success) ≡ false
not_success code other = elim (Bool-cases (code == e_success)) [
  | inr e ↦ e
  | inl e ↦ absurd (other ((==_iff code e_success).0 e))
]

outcome-is_success :
    (lock_dir : Str) (c : Child) (file : File) (o : Outcome)
    → OutcomeLeaves (of_child lock_dir c) name file o
    → Lacks b'B' c.elapsed
    → Lacks b'C' c.elapsed
    → is_success mutex (
        if c.heard
        then (elim (finish_child mutex lock_dir c o) [ none ↦ none | some e ↦ some e.message ])
        else none)
      ≡ false
unfolding finish_child is_success
outcome-is_success lock_dir c file (waiting wait_ms dir) kept no_b no_c = ground arith
outcome-is_success lock_dir c file (returned code dir g) kept no_b no_c =
    elim (Bool-cases c.heard) [
      | inr lost ↦ rw lost refl
      | inl heard ↦ rw heard (
          is_success-status_msg c.host.pid c.elapsed code g of_mutex no_b no_c
          ∙ not_success code (λ won. only_slot lock_dir c g (kept.path won)))
    ]

child-is_success :
    (lock_dir : Str) (c : Child) (file : File)
    → All (LetsBe name file) c.rounds
    → lookup name c.entries ≡ some file
    → Lacks b'B' c.elapsed
    → Lacks b'C' c.elapsed
    → is_success mutex (reply_of mutex lock_dir c) ≡ false
unfolding reply_of run_child acquire_lock
child-is_success lock_dir c file be found no_b no_c =
    outcome-is_success lock_dir c file
      (acquire_lock (some lock_dir) c.host mutex.descriptor 1 two_seconds c.start c.rounds c.entries
        (child_start c.state))
      (acquire_loop-Leaves (of_child lock_dir c) c.rounds initial_wait_ms c.entries
        (child_start c.state) name file be found)
      no_b no_c

-- The file of the parent is no stale lock while the parent exists.
lets_be :
    (pid : ℤ) (file : File) (rs : List Round)
    → ((probe : Probe) → process_exists probe pid ≡ true → holder_of probe file ≢ Holder.stale)
    → All (KeepsHolder pid) rs
    → All (LetsBe name file) rs
lets_be pid file [] live h = tt
lets_be pid file (r ∷ rs) live h = (
  record { holder = live r.probe h.0.lives; others = λ dir. h.0.others dir file },
  lets_be pid file rs live h.1,
)

-- No child is counted.
pub none_counted :
    (lock_dir : Str) (pid : ℤ) (held : Dir) (file : File) (cs : List Child)
    → ((probe : Probe) → process_exists probe pid ≡ true → holder_of probe file ≢ Holder.stale)
    → lookup name held ≡ some file
    → All (IsBeside pid held) cs
    → successes mutex (replies mutex lock_dir cs) ≡ 0
unfolding successes replies
none_counted lock_dir pid held file [] live found h = refl
none_counted lock_dir pid held file (c ∷ cs) live found h =
    rw
      (child-is_success lock_dir c file (lets_be pid file c.rounds live h.0.rounds)
        (h.0.entry ∙ found) h.0.no_b h.0.no_c)
      (none_counted lock_dir pid held file cs live found h.1)
