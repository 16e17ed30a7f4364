-- ===== src/Examples/Answers.antt =====
-- Runs of `check_lock`, `done_lock` and `list_locks`.
use waitlock.Base.{
  ap, sym, ◌∙◌, some_eq, not, ◌≡◌, refl, true, false, [], ◌∷◌, ◌++◌, codes, some, leb, ◌==◌,
  if◌then◌else◌, arith, All,
}
use waitlock.Directory.{Dir, slot_name}
use waitlock.Examples.{app, lock_dir, host, everyone_lives, slots}
use waitlock.Globals.{e_success, e_busy, e_notfound, e_system}
use waitlock.Lock.Check.{check_lock}
use waitlock.Lock.Check.Answers.{
  check_lock_answer, check_lock_removes, check_lock_dotted, held_lock, corrupt_lock, Agrees,
}
use waitlock.Lock.Claim.{slot_info, prepare_info}
use waitlock.Lock.Claim.Laws.{prepare_info-IsValid, read-slot_file}
use waitlock.Lock.Done.{Signals, done_lock}
use waitlock.Lock.Done.Answers.{done_lock_lem, stays, is_found, is_released}
use waitlock.Lock.Listing.{Names, OutputFormat, header, map_rows, list_locks}
use waitlock.Lock.Listing.Rows.{list_locks_lem, rows_of, is_shown}
use waitlock.Lock.Scanning.{count_if, keep_if}
use waitlock.LockInfo.{LockInfo}
use waitlock.LockFile.{read_lock_file_any_format}
use waitlock.Text.{split_at}
use waitlock.Examples.Locks.{app_slot, host_fits}

-- The directory with `app` held.
abbrev app_held : Dir
app_held = (slot_name app 0, app_slot) ∷ []

app_read : read_lock_file_any_format app_slot ≡ some (slot_info slots (prepare_info host app 1) 0)
unfolding prepare_info
app_read =
    read-slot_file slots (prepare_info host app 1) 0 (prepare_info-IsValid host app 1 host_fits)
      refl (omega arith)

app-Agrees : All (Agrees everyone_lives app 1) app_held
unfolding slot_info prepare_info
app-Agrees = ((λ h info e. ap (λ (i : LockInfo). i.max_holders) (some_eq (sym e ∙ app_read))), tt)

check_lock_answer_example :
    (check_lock (some lock_dir) true everyone_lives app app_held).0
    ≡ (if leb 1 (count_if (held_lock everyone_lives app) app_held) then e_busy else e_success)
check_lock_answer_example =
    check_lock_answer lock_dir everyone_lives app 1 app_held (omega arith) app-Agrees

check_lock_removes_example :
    (check_lock (some lock_dir) true everyone_lives app app_held).1
    ≡ keep_if (λ e. not (corrupt_lock app e)) app_held
check_lock_removes_example = check_lock_removes lock_dir everyone_lives app app_held

check_lock_dotted_example :
    check_lock (some lock_dir) true everyone_lives (codes "my.app") app_held ≡ (e_success, app_held)
unfolding split_at
check_lock_dotted_example =
    check_lock_dotted lock_dir everyone_lives (codes "my.app") (codes "my", codes "app") app_held
      refl

abbrev all_there : Signals
all_there = record { before = everyone_lives; terminate = everyone_lives; after = everyone_lives }

done_lock_lem_example :
    ((done_lock (some lock_dir) true all_there app app_held).0 ≡ (
      if count_if (is_found app) app_held == 0
      then e_notfound
      else if count_if (is_released all_there app) app_held == 0
      then e_system
      else e_success))
    × ((done_lock (some lock_dir) true all_there app app_held).2
        ≡ keep_if (stays all_there app) app_held)
done_lock_lem_example = done_lock_lem lock_dir all_there app app_held

abbrev plain_names : Names
plain_names = record { user = λ uid. some (codes "root"); time = λ t. codes "2024-01-01 00:00:00" }

list_locks_lem_example :
    (list_locks
        (some lock_dir)
        true
        everyone_lives
        plain_names
        false
        OutputFormat.csv
        true
        false
        app_held
      ≡ (
        e_success,
        header OutputFormat.csv false
            ++ map_rows plain_names OutputFormat.csv
                (rows_of everyone_lives (keep_if (is_shown everyone_lives true false) app_held)),
      ))
    × (list_locks
          (some lock_dir)
          true
          everyone_lives
          plain_names
          false
          OutputFormat.csv
          false
          true
          app_held
        ≡ (e_success, header OutputFormat.csv false))
list_locks_lem_example =
    list_locks_lem lock_dir everyone_lives plain_names false OutputFormat.csv true false app_held
