-- ===== src/System/Visits/Exclusion.antt =====
-- Exclusion beside runs of `check_lock` and `done_lock`: only the `unlink` of a file that is new, or not
-- the one that was read, can break it.
use mathlib.Core.Path.{subst}
use waitlock.Base.{
  ℕ, ◌<◌, ◌≡◌, ◌≢◌, refl, sym, ap, ◌∙◌, true, false, Option, none, some, some_eq, ◌==◌, Bool-cases,
  Option-cases, inl, inr, arith,
}
use waitlock.Base.Int.{ℤ}
use waitlock.Directory.{Dir, lookup, remove, slot_name}
use waitlock.Directory.Entries.{lookup-remove}
use waitlock.Lock.{Holder, holder_of, holder_of_info}
use waitlock.Lock.Check.{no_locks}
use waitlock.Lock.Check.Answers.{check_entry-keeps}
use waitlock.Lock.Check.Keeping.{active-not_corrupt}
use waitlock.Lock.Claim.{slot_file}
use waitlock.Lock.Done.{done_entry, release_holder}
use waitlock.LockFile.{File, read_lock_file_any_format}
use waitlock.LockFile.Empty.{empty_file}
use waitlock.Process.{Probe}
use waitlock.System.{
  created, undoing, holding, Point, scanning, unlinking, claiming, clock, slot_of,
}
use waitlock.System.Ending as Ending
use waitlock.System.Ending.{World, IsWorld, Gone, call, quit}
use waitlock.System.Ending.Exclusion.{Step-IsKept, start-IsKept, kept-exclusion}
use waitlock.System.Ending.Kept.{Mine, IsKept, Mine-same, holding-active}
use waitlock.System.Visits.{
  Visitor, IsEarlier, checker, ender, condemns, State, note, Step, process, lost_write, reads,
  judges, unlinks, Reach, here, next, start,
}
use waitlock.Text.{Str, str_eq}
use waitlock.Text.Decimal.{IsInt64}
use waitlock.Text.Laws.{str_eq_sound}

-- No visitor condemns a lock that is active in both of its tests.
pub condemns-not_active :
    (v : Visitor) (before after : Probe) (d name : Str) (file : File)
    → condemns v before after d (name, file) ≡ true
    → holder_of before file ≡ Holder.active
    → holder_of after file ≢ Holder.active
unfolding condemns done_entry holder_of holder_of_info release_holder
condemns-not_active checker before after d name file h active still =
    let kept = check_entry-keeps before d (name, file) no_locks in
    let sound = active-not_corrupt before d name file active in ground arith
condemns-not_active (ender terminate) before after d name file h active still =
    elim (Option-cases (read_lock_file_any_format file)) [
      | inl e ↦ let here = rw (e, holder_of) at active in ground arith
      | inr (info, e) ↦
          let first = rw (e, holder_of) at active in
          let last = rw (e, holder_of) at still in
          let entry = rw (e, done_entry) at h in ground arith
    ]

-- The file that is unlinked is the one that was read, and has been written.
abbrev pub IsInTime : Dir → Str → File → Type 0
IsInTime dir name file = (f : File) → lookup name dir ≡ some f → (f ≡ file) × (f ≢ empty_file)

-- What a visitor is about to unlink is no lock of a process that runs.
record IsSound (w : World) (s : State) : Type 0 where
  kept : IsKept w s.processes
  foreign :
      (k : ℕ) (name : Str) (file : File)
      → s.doomed k ≡ some (name, file)
      → (j x : ℕ) (t : ℤ) → j < w.count
      → s.processes.gone j ≡ false
      → IsInt64 t
      → file ≢ slot_file (clock t) (w.setup.info j) x

Step-gone :
    {w : World} {s t : Ending.State} (j : ℕ)
    → Ending.Step w s t
    → t.gone j ≡ false
    → s.gone j ≡ false
Step-gone j (call i r runs tm mv) h = h
Step-gone j (quit i r runs) h = ground arith

-- An entry that no running process has taken is removed.
swept-IsKept :
    (w : World) (s : Ending.State) (name : Str)
    → IsKept w s
    → ((j y : ℕ)
        → s.gone j ≡ false
        → slot_of (s.at j) ≡ some y
        → str_eq name (slot_name w.setup.descriptor y) ≡ false)
    → IsKept w (record s { dir = remove name s.dir })
swept-IsKept w s name kept other = record {
  mine = λ j runs.
      Mine-same w s.dir (remove name s.dir) j (s.at j)
        (λ y h.
          rw (lookup-remove name (slot_name w.setup.descriptor y) s.dir, other j y runs h) refl)
        (kept.mine j runs);
  unique = kept.unique;
}

-- A file that is unlinked in time belongs to no running process.
foreign-apart :
    (w : World) (s : Ending.State) (name : Str) (file : File) (j y : ℕ) (p : Point)
    → s.gone j ≡ false
    → IsInTime s.dir name file
    → ((x : ℕ) (t : ℤ) → j < w.count → IsInt64 t → file ≢ slot_file (clock t) (w.setup.info j) x)
    → Mine w s.dir j p
    → slot_of p ≡ some y
    → lookup name s.dir ≢ lookup (slot_name w.setup.descriptor y) s.dir
foreign-apart w s name file j y Point.idle runs ok foreign o h same = absurd (ground arith)
foreign-apart w s name file j y (scanning names n) runs ok foreign o h same = absurd (ground arith)
foreign-apart w s name file j y (unlinking c names n) runs ok foreign o h same =
    absurd (ground arith)
foreign-apart w s name file j y (claiming x) runs ok foreign o h same = absurd (ground arith)
foreign-apart w s name file j y (created x) runs ok foreign (r, lt, e) h same =
    (ok empty_file (
        same
        ∙ ap (λ (z : ℕ). lookup (slot_name w.setup.descriptor z) s.dir) (sym (some_eq h))
        ∙ e)).1
      refl
foreign-apart w s name file j y (undoing x) runs ok foreign (r, lt, e) h same =
    (ok empty_file (
        same
        ∙ ap (λ (z : ℕ). lookup (slot_name w.setup.descriptor z) s.dir) (sym (some_eq h))
        ∙ e)).1
      refl
foreign-apart w s name file j y (holding x) runs ok foreign (r, lt, (t, fits, e)) h same =
    foreign x t r fits (
      sym
        (ok _ (
          same
          ∙ ap (λ (z : ℕ). lookup (slot_name w.setup.descriptor z) s.dir) (sym (some_eq h))
          ∙ e)).0)

-- What a visitor condemns is foreign.
judged-foreign :
    (w : World) (s : State) (k : ℕ) (v : Visitor) (d name : Str) (file : File) (before : Gone)
    → IsWorld w
    → IsSound w s
    → IsEarlier before s.processes.gone
    → condemns v (w.answers before) (w.answers s.processes.gone) d (name, file) ≡ true
    → (k' : ℕ) (name' : Str) (file' : File)
    → note s.doomed k (some (name, file)) k' ≡ some (name', file')
    → (j x : ℕ) (t : ℤ) → j < w.count
    → s.processes.gone j ≡ false
    → IsInt64 t
    → file' ≢ slot_file (clock t) (w.setup.info j) x
judged-foreign w s k v d name file before is sound earlier h k' name' file' g j x t r runs fits
      same =
    elim (Bool-cases (k == k')) [
      | inr other ↦ sound.foreign k' name' file' (rw other at g) j x t r runs fits same
      | inl mine ↦
          let it : file ≡ file' = ap (λ (e : Str × File). e.1) (some_eq (rw mine at g)) in
          let ran : before j ≡ false = elim (Bool-cases (before j)) [
            | inr e ↦ e
            | inl e ↦ let ended = earlier j e in absurd (ground arith)
          ] in
          condemns-not_active v (w.answers before) (w.answers s.processes.gone) d name file h
            (ap (holder_of (w.answers before)) (it ∙ same)
              ∙ holding-active w before j x t is r ran fits)
            (ap (holder_of (w.answers s.processes.gone)) (it ∙ same)
              ∙ holding-active w s.processes.gone j x t is r runs fits)
    ]

note-none :
    (f : ℕ → Option (Str × File)) (k k' : ℕ) (e : Str × File)
    → note f k none k' ≡ some e
    → f k' ≡ some e
note-none f k k' e h = ground arith

Step-IsSound :
    {w : World} {s t : State} → IsWorld w → IsSound w s → Step w IsInTime s t → IsSound w t
Step-IsSound {w} {s} is sound (process st) = record {
  kept = Step-IsKept is sound.kept st;
  foreign = λ k name file h j x t r runs fits.
      sound.foreign k name file h j x t r (Step-gone j st runs) fits;
}
Step-IsSound {w} {s} is sound (lost_write i x r runs e none_left) =
    let own : Mine w s.processes.dir i (created x) =
      subst (Mine w s.processes.dir i) e (sound.kept.mine i runs) in
    let there = own.2 in absurd (ground arith)
Step-IsSound is sound (reads k name file found) = record {
  kept = sound.kept;
  foreign = sound.foreign;
}
Step-IsSound {w} {s} is sound (judges k v d name file before read earlier h) = record {
  kept = sound.kept;
  foreign = judged-foreign w s k v d name file before is sound earlier h;
}
Step-IsSound {w} {s} is sound (unlinks k name file h ok) = record {
  kept = swept-IsKept w s.processes name sound.kept (λ j y runs g.
      elim (Bool-cases (str_eq name (slot_name w.setup.descriptor y))) [
        | inr e ↦ e
        | inl e ↦ absurd (
            foreign-apart w s.processes name file j y (s.processes.at j) runs ok
              (λ x t r fits. sound.foreign k name file h j x t r runs fits) (sound.kept.mine j runs)
              g (ap (λ (z : Str). lookup z s.processes.dir) (str_eq_sound name _ e)))
      ]);
  foreign = λ k' name' file' g j x t r runs fits.
      sound.foreign k' name' file' (note-none s.doomed k k' (name', file') g) j x t r runs fits;
}

Reach-IsSound :
    {w : World} {dir : Dir} {s : State} → IsWorld w → Reach w IsInTime (start dir) s → IsSound w s
Reach-IsSound {w} {dir} is here = record {
  kept = start-IsKept w dir;
  foreign = λ k name file h. absurd (ground arith);
}
Reach-IsSound is (next r st) = Step-IsSound is (Reach-IsSound is r) st

-- Beside runs of `check_lock` and `done_lock` for any descriptors, which read a file, test its process
-- and unlink it at three moments, and with processes that may end between any two of their calls: if a
-- file that a process unlinks as stale is still stale then, and a file that a visitor unlinks is the one
-- that it has read, and not empty, then two running processes never hold the same slot, and a slot that
-- a running process holds is below `max_holders` and its file is in the directory and is an active
-- lock. (The processes' structs fit the C types and carry the magic number, and exactly the processes
-- that have not ended exist.)
pub visited_exclusion :
    {w : World} {dir : Dir} {s : State}
    → IsWorld w
    → Reach w IsInTime (start dir) s
    → (i x : ℕ) → s.processes.gone i ≡ false
    → s.processes.at i ≡ holding x
    → (x < w.setup.max_holders)
      × ((f : File) × (lookup (slot_name w.setup.descriptor x) s.processes.dir ≡ some f)
          × (holder_of (w.answers s.processes.gone) f ≡ Holder.active))
      × ((j : ℕ) → s.processes.gone j ≡ false → s.processes.at j ≡ holding x → i ≡ j)
visited_exclusion is reach i x runs e = kept-exclusion is (Reach-IsSound is reach).kept i x runs e
