-- ===== src/Examples/Ended.antt =====
-- A run in which one process ends with the lock held, and another removes its file and takes the slot.
use waitlock.Base.{
  ℕ, zero, suc, ◌<◌, ◌≡◌, refl, sym, ◌∙◌, Bool, true, false, not, [], ◌∷◌, some, some_eq, ◌==◌, ◌+◌,
  if◌then◌else◌, arith,
}
use mathlib.Core.Path.{subst}
use waitlock.Base.Int.{pos, negsuc}
use waitlock.Directory.{lookup, remove, slot_name}
use waitlock.Examples.{app, host, everyone_lives}
use waitlock.Examples.Locks.{host_fits}
use waitlock.Lock.{Holder, holder_of}
use waitlock.Lock.Claim.{Host, slot_file, prepare_info}
use waitlock.Lock.Claim.Laws.{IsHost, prepare_info-IsValid, holder_of-slot_file_either}
use waitlock.LockFile.{File}
use waitlock.LockFile.Empty.{empty_file}
use waitlock.Process.{KillResult, process_exists, Probe}
use waitlock.System.{
  Point, idle, scanning, unlinking, claiming, created, holding, Move, put, clock, store,
}
use waitlock.System.Race.{look-unlinking}
use waitlock.System.Ending.{World, IsWorld, State, call, quit, Reach, here, next, start, now, Gone}
use waitlock.System.Ending.Exclusion.{timely_exclusion}
use waitlock.Text.{Str, str_eq}
use waitlock.Text.Decimal.{print_nat, digits_of}

-- Processes 100 and 101.
abbrev pub host_of : ℕ → Host
host_of i = record host { pid = pos (100 + i) }

abbrev alive : Bool → KillResult
alive gone = if gone then KillResult.esrch else KillResult.delivered

abbrev pub answers : Gone → Probe
answers gone (pos n) =
    if n == 100 then alive (gone 0) else if n == 101 then alive (gone 1) else KillResult.esrch
answers gone (negsuc n) = KillResult.esrch

abbrev pub world : World
world = record {
  count = 2;
  setup = record {
    descriptor = app;
    max_holders = 1;
    info = λ i. prepare_info (host_of i) app 1;
    probe = everyone_lives;
  };
  answers = answers;
}

host_of-IsHost : (i : ℕ) → i < 2 → IsHost (host_of i) app
host_of-IsHost i lt = record {
  pid_fits = omega arith;
  ppid_fits = omega arith;
  uid_fits = omega arith;
  hostname_bytes = host_fits.hostname_bytes;
  descriptor_bytes = host_fits.descriptor_bytes;
  cmdline_bytes = host_fits.cmdline_bytes;
}

pub is_world : IsWorld world
unfolding prepare_info process_exists
is_world = record {
  valid = λ i lt. prepare_info-IsValid (host_of i) app 1 (host_of-IsHost i lt);
  marked = λ i lt. refl;
  exists = running;
}
  where
    running :
        (i : ℕ) (gone : Gone) → i < 2 → process_exists (answers gone) (pos (100 + i)) ≡ not (gone i)
    running zero gone lt = ground arith
    running (suc zero) gone lt = ground arith
    running (suc (suc n)) gone lt = absurd (omega arith)

abbrev pub name : Str
name = slot_name app 0

abbrev pub file_of : ℕ → File
file_of i = slot_file (clock (pos 1700000000)) (prepare_info (host_of i) app 1) 0

-- Process 0 makes the file of slot 0, writes it and holds the lock; then it ends.
abbrev pub left : State
left = record {
  dir = store name (file_of 0) ((name, empty_file) ∷ []);
  at =
      put (put (put (put (λ i. idle) 0 (scanning [] 0)) 0 (claiming 0)) 0 (created 0)) 0
        (holding 0);
  gone = λ j. if 0 == j then true else false;
}

left-Reach : Reach world (start []) left
unfolding lookup slot_name print_nat digits_of str_eq
left-Reach =
    next
      (next
        (next
          (next (next here (call 0 (omega arith) refl tt Move.no_dir))
            (call 0 (omega arith) refl tt (Move.room (omega arith))))
          (call 0 (omega arith) refl tt (Move.create (omega arith) refl)))
        (call 0 (omega arith) refl tt (Move.write (pos 1700000000) (omega arith) refl)))
      (quit 0 (omega arith) refl)

pub left_file : lookup name left.dir ≡ some (file_of 0)
unfolding lookup slot_name print_nat digits_of str_eq store
left_file = refl

pub left-stale : holder_of (answers left.gone) (file_of 0) ≡ Holder.stale
unfolding prepare_info process_exists
left-stale =
    holder_of-slot_file_either (answers left.gone) (clock (pos 1700000000))
      (prepare_info (host_of 0) app 1) 0
      (prepare_info-IsValid (host_of 0) app 1 (host_of-IsHost 0 (omega arith))) refl (omega arith)

-- Process 1 finds the file, removes it while it is stale, and takes the slot.
abbrev found_at : ℕ → Point
found_at = put left.at 1 (scanning (name ∷ []) 0)

abbrev found : Point → State
found p = record { dir = left.dir; at = put found_at 1 p; gone = left.gone }

found-Reach : Reach world (start []) (found (unlinking name [] 0))
found-Reach =
    subst (λ (p : Point). Reach world (start []) (found p))
      (look-unlinking (now world left.gone) (file_of 0) left.dir left_file left-stale)
      (next (next left-Reach (call 1 (omega arith) refl tt (Move.open_dir (name ∷ []))))
        (call 1 (omega arith) refl tt Move.look_at))

still_stale :
    (f : File) → lookup name left.dir ≡ some f → holder_of (answers left.gone) f ≡ Holder.stale
still_stale f e = let same : file_of 0 ≡ f = some_eq (sym left_file ∙ e) in rw⁻¹ same left-stale

abbrev retaken : State
retaken = record {
  dir = store name (file_of 1) ((name, empty_file) ∷ remove name left.dir);
  at =
      put
        (put (put (put (put found_at 1 (unlinking name [] 0)) 1 (scanning [] 0)) 1 (claiming 0)) 1
          (created 0))
        1 (holding 0);
  gone = left.gone;
}

retaken-Reach : Reach world (start []) retaken
unfolding lookup slot_name print_nat digits_of str_eq store remove
retaken-Reach =
    next
      (next
        (next (next found-Reach (call 1 (omega arith) refl still_stale Move.unlink_stale))
          (call 1 (omega arith) refl tt (Move.room (omega arith))))
        (call 1 (omega arith) refl tt (Move.create (omega arith) refl)))
      (call 1 (omega arith) refl tt (Move.write (pos 1700000000) (omega arith) refl))

timely_exclusion_example :
    (0 < 1)
    × ((f : File) × (lookup name retaken.dir ≡ some f)
        × (holder_of (answers retaken.gone) f ≡ Holder.active))
    × ((j : ℕ) → retaken.gone j ≡ false → retaken.at j ≡ holding 0 → 1 ≡ j)
timely_exclusion_example = timely_exclusion is_world retaken-Reach 1 0 refl refl
