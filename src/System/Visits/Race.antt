-- ===== src/System/Visits/Race.antt =====
-- A run of `check_lock` beside two processes: it takes a file that is not written yet for a corrupted
-- lock.
use waitlock.Base.{
  ℕ, ◌<◌, ◌≡◌, refl, sym, ◌∙◌, Bool, false, true, not, [], ◌∷◌, Option, none, some, some_eq, ap,
  arith,
}
use waitlock.Base.Int.{pos}
use waitlock.Directory.{Dir, lookup, exists_in, remove, slot_name}
use waitlock.Directory.Entries.{lookup-remove}
use waitlock.Lock.Check.{no_locks}
use waitlock.Lock.Check.Answers.{check_entry-keeps}
use waitlock.Lock.Check.Window.{corrupt_lock-empty_file}
use waitlock.LockFile.{File}
use waitlock.LockFile.Empty.{empty_file}
use waitlock.System.{Point, idle, scanning, claiming, created, holding, Move, put}
use waitlock.System.Ending as Ending
use waitlock.System.Ending.{World, Timely, now, call}
use waitlock.System.Race.{absent-remove}
use waitlock.System.Visits.{
  State, checker, condemns, process, lost_write, reads, judges, unlinks, Reach, here, next, start,
  note, IsUnchanged,
}
use waitlock.Text.{Str}
use waitlock.Text.Laws.{Lacks, str_eq_refl}

module _ (w : World) (two : 1 < w.count) (room : 0 < w.setup.max_holders)
    (plain : Lacks b'.' w.setup.descriptor) where
  abbrev all_run : Ending.Gone
  all_run = λ j. false

  -- A file for the first slot, made by process 0, and its points.
  abbrev before : ℕ → Point
  before = put (put (put (λ i. idle) 0 (scanning [] 0)) 0 (claiming 0)) 0 (created 0)

  abbrev new : Dir
  new = (slot_name w.setup.descriptor 0, empty_file) ∷ []

  abbrev at_state : Dir → (ℕ → Point) → State
  at_state dir at = record {
    processes = record { dir = dir; at = at; gone = all_run };
    read = λ k. none;
    doomed = λ k. none;
  }

  made : Reach w IsUnchanged (start []) (at_state new before)
  unfolding lookup
  made =
      next
        (next (next here (process (call 0 (omega arith) refl tt Move.no_dir)))
          (process (call 0 (omega arith) refl tt (Move.room room))))
        (process (call 0 (omega arith) refl tt (Move.create room refl)))

  found : lookup (slot_name w.setup.descriptor 0) new ≡ some empty_file
  unfolding lookup
  found = rw (str_eq_refl (slot_name w.setup.descriptor 0)) refl

  condemned :
      condemns checker
        (w.answers all_run)
        (w.answers all_run)
        w.setup.descriptor
        (slot_name w.setup.descriptor 0, empty_file)
      ≡ true
  unfolding condemns
  condemned =
      ap not (
        check_entry-keeps (w.answers all_run) w.setup.descriptor
          (slot_name w.setup.descriptor 0, empty_file) no_locks)
      ∙ ap (λ (b : Bool). not (not b)) (corrupt_lock-empty_file w.setup.descriptor 0 plain)

  abbrev swept : Dir
  swept = remove (slot_name w.setup.descriptor 0) new

  abbrev visit : Option (Str × File)
  visit = some (slot_name w.setup.descriptor 0, empty_file)

  abbrev gone_by : State
  gone_by = record {
    processes = record { dir = swept; at = before; gone = all_run };
    read = note (λ k. none) 0 visit;
    doomed = note (note (λ k. none) 0 visit) 0 none;
  }

  unlinked : Reach w IsUnchanged (start []) gone_by
  unlinked =
      next
        (next (next made (reads 0 (slot_name w.setup.descriptor 0) empty_file found)) (
          judges 0 checker w.setup.descriptor (slot_name w.setup.descriptor 0) empty_file all_run
            refl (λ i e. e) condemned))
        (unlinks 0 (slot_name w.setup.descriptor 0) empty_file refl
          (λ f e. some_eq (sym e ∙ found)))

  exists_in-swept : exists_in (slot_name w.setup.descriptor 0) swept ≡ false
  exists_in-swept = absent-remove (slot_name w.setup.descriptor 0) new

  lookup-swept : lookup (slot_name w.setup.descriptor 0) swept ≡ none
  lookup-swept =
      lookup-remove (slot_name w.setup.descriptor 0) (slot_name w.setup.descriptor 0) new
      ∙ rw (str_eq_refl (slot_name w.setup.descriptor 0)) refl

-- For every descriptor without a dot and every limit above 0, two processes and a run of `check_lock`
-- lead from the empty directory, with no process ended and although the file that is unlinked is the
-- one that was read, to a state in which both processes hold the first slot: `check_lock` reads the
-- file that the first process has made and not written yet, and unlinks it as a corrupted lock.
pub visit_race :
    (w : World)
    → 1 < w.count
    → 0 < w.setup.max_holders
    → Lacks b'.' w.setup.descriptor
    → (s : State) × Reach w IsUnchanged (start []) s
      × (s.processes.at 0 ≡ holding 0)
      × (s.processes.at 1 ≡ holding 0)
      × ((j : ℕ) → s.processes.gone j ≡ false)
unfolding lookup
visit_race w two room plain = (
  _,
  next
      (next
        (next
          (next
            (next (unlinked w two room plain)
              (lost_write 0 0 (omega arith) refl refl (lookup-swept w two room plain)))
            (process (call 1 two refl tt Move.no_dir)))
          (process (call 1 two refl tt (Move.room room))))
        (process (call 1 two refl tt (Move.create room (exists_in-swept w two room plain)))))
      (process (
        call 1 two refl tt (
          Move.write (pos 0) (omega arith)
            (rw (str_eq_refl (slot_name w.setup.descriptor 0)) refl)))),
  refl,
  refl,
  λ j. refl,
)
