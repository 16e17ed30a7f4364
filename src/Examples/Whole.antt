-- ===== src/Examples/Whole.antt =====
-- Runs of the whole program, of the text format, and of two coordinators that talk.
use mathlib.Core.Option.{some-injective}
use waitlock.Args.{Settings}
use waitlock.Base.{
  ℕ, zero, suc, ◌<◌, ◌≡◌, ◌≢◌, refl, sym, ap, ◌∙◌, true, List, [], ◌∷◌, ◌++◌, codes, some, none,
  length, arith, take, drop, replicate,
}
use waitlock.Base.Int.{pos, is_pos}
use waitlock.Coordinator.Channel.{Ends, Side, send, receive, here, next, put, waiting, cut}
use waitlock.Coordinator.Channel.Order.{messages_in_order}
use waitlock.Coordinator.{
  pc_after_fork_parent, pc_after_fork_child, pc_prepare_fork, prepare_down, prepare_up,
}
use waitlock.Coordinator.Talk.{
  select_loop, write_end, read_end, pc_receive, receive_from, pc_wait_for_data, take_read, pc_send,
  send_to, write_all,
}
use waitlock.Directory.{Dir, lookup, slot_name}
use waitlock.Directory.Search.{find_lock_directory, first_usable, usable, path_max}
use waitlock.Examples.{app, lock_dir, host, everyone_lives, slots, quiet_round}
use waitlock.Examples.Files.{prepared, prepared-IsValid}
use waitlock.Examples.Programs.{bare_system, quiet_environment, child_run, one_interruption}
use waitlock.Globals.{initial_state}
use waitlock.Lock.{Holder, holder_of}
use waitlock.Lock.Claim.{slot_file, prepare_info}
use waitlock.Lock.Claim.Laws.{holder_of-slot_file_either}
use waitlock.LockFile.{File, read_text_lock_file, write_text_lock_file}
use waitlock.LockFile.Fields.{HasLines}
use waitlock.LockFile.RoundTrip.{read_text-write_text, kept_as_text}
use waitlock.Main.{Mode, initial_settings}
use waitlock.Main.Program.{Outside, run_mode, main, null_descriptor, directory}
use waitlock.Main.Program.Descriptor.{main-not_null}
use waitlock.Main.Program.Keeps.{run_mode-keeps}
use waitlock.Main.Program.Stays.{left, IsUntouched, PathsFit}
use waitlock.Process.{process_exists}
use waitlock.Text.{str_eq, c_string, store_string}
use waitlock.Text.Decimal.{print_nat, digits_of}

-- A quiet moment, with a signal to end once the lock is held.
abbrev outside : Outside
outside = record {
  debug = none;
  environment = quiet_environment;
  paths = bare_system;
  home = none;
  host = host;
  start = 0;
  rounds = quiet_round ∷ [];
  opened = true;
  probe = everyone_lives;
  signals = record { before = everyone_lives; terminate = everyone_lives; after = everyone_lives };
  names = record { user = λ uid. none; time = λ t. [] };
  caught = 15 ∷ [];
  forked = some (pos 101);
  child = child_run;
  others = λ dir. dir;
  unit_tests = λ dir. (0, dir);
}

main-not_null_example : main outside (codes "--check" ∷ app ∷ []) [] initial_state ≢ null_descriptor
main-not_null_example = main-not_null outside (codes "--check" ∷ app ∷ []) [] initial_state

-- `waitlock -m 2 app`, where another process has slot 1.
abbrev two_slots : Settings
two_slots = record (initial_settings initial_state) { max_holders = pos 2; descriptor = some app }

abbrev pub other_file : File
other_file = slot_file slots prepared 1

abbrev one_held : Dir
one_held = (slot_name app 1, other_file) ∷ []

pub other_active : holder_of everyone_lives other_file ≡ Holder.active
unfolding prepare_info process_exists
other_active =
    holder_of-slot_file_either everyone_lives slots prepared 1 prepared-IsValid refl (omega arith)

untouched : IsUntouched outside (slot_name app 1) other_file
untouched = record {
  rounds = (record { holder = λ h. cc (other_active, h); others = λ dir found. found }, tt);
  holder = other_active;
  others = λ dir found. found;
  forked = λ pid h. ap is_pos (sym (some-injective _ _ h));
}

directory_found : directory outside two_slots ≡ some lock_dir
unfolding find_lock_directory initial_settings first_usable usable str_eq
directory_found = refl

slots_fit : (n : ℕ) → n < 2 → length (lock_dir ++ b'/' ∷ slot_name app n) < path_max
unfolding length slot_name print_nat digits_of
slots_fit zero lt = omega arith
slots_fit (suc zero) lt = omega arith
slots_fit (suc (suc n)) lt = absurd (omega arith)

paths_fit : PathsFit outside two_slots
paths_fit d1 d2 h1 h2 slot lt =
    rw (sym (some-injective _ _ (sym directory_found ∙ h1)), sym (some-injective _ _ h2))
      (slots_fit slot lt)

run_mode-keeps_example :
    lookup (slot_name app 1) (left one_held (run_mode outside two_slots one_held Mode.locking))
    ≡ some other_file
unfolding lookup slot_name print_nat digits_of str_eq
run_mode-keeps_example =
    run_mode-keeps outside two_slots (slot_name app 1) other_file one_held Mode.locking untouched
      paths_fit (λ e. ground arith) (λ e. ground arith) refl

prepared-HasLines : HasLines prepared
unfolding prepare_info c_string store_string length take replicate
prepared-HasLines = record {
  hostname_line = (refl, (refl, (refl, tt)));
  descriptor_line = (refl, (refl, (refl, tt)));
  cmdline_line = (refl, (refl, tt));
  cmdline_short = omega arith;
}

read_text-write_text_example :
    read_text_lock_file (record { bytes = write_text_lock_file prepared; readable = true })
    ≡ some (kept_as_text prepared)
read_text-write_text_example = read_text-write_text prepared prepared-IsValid prepared-HasLines

-- Two pipes, and a child that sends two bytes, of which the parent reads one and then answers.
abbrev ends : Ends
ends = record { down = (pos 3, pos 4); up = (pos 5, pos 6) }

abbrev two_bytes : List ℕ
two_bytes = b'R' ∷ b'C' ∷ []

abbrev answer : List ℕ
answer = b'A' ∷ []

messages_in_order_example : (answer ≡ [] ++ answer) × (two_bytes ≡ (b'R' ∷ []) ++ (b'C' ∷ []))
unfolding length take drop put waiting cut select_loop write_end pc_receive receive_from read_end
    pc_after_fork_parent pc_prepare_fork prepare_down prepare_up pc_wait_for_data take_read
    pc_after_fork_child pc_send send_to write_all
messages_in_order_example =
    messages_in_order ends (pos 101) (pos 101) refl (λ h. cc) (λ h. cc) (λ h. cc) (λ h. cc)
      (λ h. cc) (λ h. cc)
      (next
        (next (next here (send Side.child two_bytes 2 (omega arith)))
          (receive Side.parent one_interruption 1 refl))
        (send Side.parent answer 1 (omega arith)))
