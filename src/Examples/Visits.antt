-- ===== src/Examples/Visits.antt =====
-- Runs with visitors: `done_lock` removes what a process left that has ended, and `check_lock` beside
-- two new processes.
use waitlock.Base.{
  ℕ, ◌<◌, ◌≡◌, ◌≢◌, refl, sym, ◌∙◌, true, false, [], ◌∷◌, none, some, Option, some_eq, drop, length,
  arith, Option-cases, inl, inr, ap,
}
use waitlock.Base.Int.{pos}
use waitlock.Directory.{lookup, remove, slot_name}
use waitlock.Examples.{app}
use waitlock.Examples.Ended.{world, is_world, name, file_of, left, left_file, left-stale, answers}
use waitlock.Lock.{Holder, holder_of, holder_of_info}
use waitlock.Lock.Done.{done_entry, is_target, release_holder}
use waitlock.LockFile.{File, read_lock_file_any_format}
use waitlock.LockFile.Empty.{empty_file, holder_of-empty_file}
use waitlock.Process.{KillResult}
use waitlock.System.{scanning, claiming, created, holding, Move, put, store}
use waitlock.System.Ending.{call, quit}
use waitlock.System.Visits.{
  Visitor, ender, condemns, State, process, reads, judges, unlinks, Reach, here, next, start, note,
  IsUnchanged,
}
use waitlock.System.Visits.Exclusion.{IsInTime, visited_exclusion}
use waitlock.System.Visits.Race.{visit_race}
use waitlock.Text.{Str, str_eq, starts_with, contains}
use waitlock.Text.Decimal.{print_nat, digits_of}

-- SIGTERM cannot be sent.
abbrev visitor : Visitor
visitor = ender (λ pid. KillResult.esrch)

is_target-name : is_target app name ≡ true
unfolding is_target slot_name print_nat digits_of starts_with drop length contains
is_target-name = refl

-- The file of a process that has ended is unlinked.
condemned : condemns visitor (answers left.gone) (answers left.gone) app (name, file_of 0) ≡ true
unfolding condemns done_entry holder_of holder_of_info release_holder
condemned = elim (Option-cases (read_lock_file_any_format (file_of 0))) [
  | inl e ↦ let stale = rw (e, holder_of) at left-stale in ground (arith, e, is_target-name)
  | inr (info, e) ↦ let stale = rw (e, holder_of) at left-stale in ground (arith, e, is_target-name)
]

ended :
    Reach world IsInTime
      (start [])
      (record { processes = left; read = λ k. none; doomed = λ k. none })
unfolding lookup slot_name print_nat digits_of str_eq
ended =
    next
      (next
        (next
          (next (next here (process (call 0 (omega arith) refl tt Move.no_dir)))
            (process (call 0 (omega arith) refl tt (Move.room (omega arith)))))
          (process (call 0 (omega arith) refl tt (Move.create (omega arith) refl))))
        (process (call 0 (omega arith) refl tt (Move.write (pos 1700000000) (omega arith) refl))))
      (process (quit 0 (omega arith) refl))

Holder-apart : Holder.stale ≢ Holder.unknown
Holder-apart e = ground arith

in_time : IsInTime left.dir name (file_of 0)
in_time f e =
    let same : f ≡ file_of 0 = some_eq (sym e ∙ left_file) in
    (
      same,
      λ empty. absurd (
          Holder-apart (
            sym left-stale
            ∙ ap (holder_of (answers left.gone)) (sym same ∙ empty)
            ∙ holder_of-empty_file (answers left.gone))),
    )

abbrev visit : Option (Str × File)
visit = some (name, file_of 0)

abbrev swept : State
swept = record {
  processes = record left { dir = remove name left.dir };
  read = note (λ k. none) 0 visit;
  doomed = note (note (λ k. none) 0 visit) 0 none;
}

swept-Reach : Reach world IsInTime (start []) swept
swept-Reach =
    next
      (next (next ended (reads 0 name (file_of 0) left_file))
        (judges 0 visitor app name (file_of 0) left.gone refl (λ i e. e) condemned))
      (unlinks 0 name (file_of 0) refl in_time)

-- Process 1 finds the directory empty.
abbrev retaken : State
retaken = record {
  processes = record {
    dir = store name (file_of 1) ((name, empty_file) ∷ remove name left.dir);
    at = put (put (put (put left.at 1 (scanning [] 0)) 1 (claiming 0)) 1 (created 0)) 1 (holding 0);
    gone = left.gone;
  };
  read = swept.read;
  doomed = swept.doomed;
}

retaken-Reach : Reach world IsInTime (start []) retaken
unfolding lookup slot_name print_nat digits_of str_eq store remove
retaken-Reach =
    next
      (next
        (next (next swept-Reach (process (call 1 (omega arith) refl tt Move.no_dir)))
          (process (call 1 (omega arith) refl tt (Move.room (omega arith)))))
        (process (call 1 (omega arith) refl tt (Move.create (omega arith) refl))))
      (process (call 1 (omega arith) refl tt (Move.write (pos 1700000000) (omega arith) refl)))

visited_exclusion_example :
    (0 < 1)
    × ((f : File) × (lookup name retaken.processes.dir ≡ some f)
        × (holder_of (answers retaken.processes.gone) f ≡ Holder.active))
    × ((j : ℕ) → retaken.processes.gone j ≡ false → retaken.processes.at j ≡ holding 0 → 1 ≡ j)
visited_exclusion_example = visited_exclusion is_world retaken-Reach 1 0 refl refl

visit_race_example :
    (s : State) × Reach world IsUnchanged (start []) s
    × (s.processes.at 0 ≡ holding 0)
    × (s.processes.at 1 ≡ holding 0)
    × ((j : ℕ) → s.processes.gone j ≡ false)
visit_race_example = visit_race world (omega arith) (omega arith) (refl, (refl, (refl, tt)))
