-- ===== src/Examples/Programs.antt =====
-- Runs of the arguments, the modes, the handlers, the coordinators, and the command under a lock.
use waitlock.Args.{
  Environment, Settings, parsed, parse_environment, limit_holders, read_descriptor, check_settings,
  descriptor_ok, slot_ok, valid_chars,
}
use waitlock.Args.Checked.{IsReady, parse_args-IsReady}
use waitlock.Args.Options.{
  parse_args, parse_loop, after_loop, after_environment, classify, spelled, set_flag,
}
use waitlock.Base.{◌≡◌, refl, true, false, [], ◌∷◌, codes, some, none, length}
use waitlock.Base.Int.{pos, is_neg}
use waitlock.Coordinator.{ProcessCoordinator, created, pc_prepare_fork, pc_after_fork_parent}
use waitlock.Coordinator.Channel.{Ends, Pipes, reads}
use waitlock.Coordinator.Channel.Handshake.{signalled, ready_handshake}
use waitlock.Coordinator.Paired.{parent_side}
use waitlock.Coordinator.Roles.{Step, Reachable, IsWired, Reachable-IsWired}
use waitlock.Coordinator.Talk.{Wait, pc_parent_wait_for_child_ready, select_loop}
use waitlock.Directory.Choice.{Chosen, places, find_lock_directory-Chosen}
use waitlock.Directory.Search.{Paths, Access, find_lock_directory}
use waitlock.Examples.{app, lock_dir, everyone_lives}
use waitlock.Examples.Locks.{acquired, acquired_state}
use waitlock.Globals.{GlobalState, initial_state}
use waitlock.Lock.Release.{release_lock}
use waitlock.Main.{initial_settings}
use waitlock.Process.Exec.{
  Ended, ChildWait, ends, interrupted, Finished, exec_with_lock, exec_fork, exit_code,
}
use waitlock.Process.Exec.Ending.{last_event, exec_with_lock_releases}
use waitlock.Text.{str_eq}

abbrev holding : GlobalState
holding = record {
  lock_fd = pos 3;
  lock_path = codes "/tmp/waitlock/app.slot0.lock";
  should_exit = false;
  quiet = false;
  verbose = false;
  use_syslog = false;
  syslog_facility = pos 24;
  child_pid = pos 0;
  received_signal = 0;
  cleanup_needed = false;
}

-- A parent with pipes 3, 4 and 5, 6, and the child 101.
abbrev prepared_pc : ProcessCoordinator
prepared_pc = (pc_prepare_fork (some (pos 3, pos 4)) (some (pos 5, pos 6)) created).1

abbrev parent_pc : ProcessCoordinator
parent_pc = (pc_after_fork_parent (pos 101) prepared_pc).1

parent_pc-Reachable : Reachable parent_pc
parent_pc-Reachable =
    Reachable.next
      (Reachable.next Reachable.start (
        Step.prepare (some (pos 3, pos 4)) (some (pos 5, pos 6)) created (refl, refl) (refl, refl)))
      (Step.fork_parent (pos 101) prepared_pc)

Reachable-IsWired_example : IsWired parent_pc
Reachable-IsWired_example = Reachable-IsWired parent_pc-Reachable

abbrev pub one_interruption : Wait
one_interruption = Wait.interrupted Wait.ready

abbrev pipe_ends : Ends
pipe_ends = record { down = (pos 3, pos 4); up = (pos 5, pos 6) }

-- The parent has sent a byte of its own before the child is ready.
abbrev early_byte : Pipes
early_byte = record { down = b'A' ∷ []; up = [] }

ready_handshake_example :
    ((signalled pipe_ends (pos 101) early_byte).0.0 ≡ pos 0)
    × ((pc_parent_wait_for_child_ready one_interruption
          (reads pipe_ends (signalled pipe_ends (pos 101) early_byte).1 1)
          (parent_side (pos 3, pos 4) (pos 5, pos 6) (pos 101))).0
        ≡ pos 0)
unfolding select_loop
ready_handshake_example =
    ready_handshake pipe_ends (pos 101) (pos 101) early_byte one_interruption refl (λ h. cc)
      (λ h. cc) (λ h. cc) (λ h. cc) refl refl

-- A child that exits with 3 after one signal to this process.
abbrev pub child_run : ChildWait
child_run = interrupted 2 everyone_lives everyone_lives (ends (Ended.exited 3))

abbrev command : Finished
command = exec_fork lock_dir (λ dir. dir) (some (pos 101)) child_run acquired acquired_state

exec_with_lock_releases_example :
    (command.entries ≡ (release_lock lock_dir acquired acquired_state).0)
    × (command.state.lock_path ≡ [])
    × (is_neg command.state.lock_fd ≡ true)
    × (command.state.child_pid ≡ pos 0)
    × (command.code ≡ exit_code (last_event child_run))
unfolding exec_with_lock
exec_with_lock_releases_example =
    exec_with_lock_releases lock_dir (λ dir. dir) (pos 101) child_run acquired acquired_state
      command refl refl

abbrev pub quiet_environment : Environment
quiet_environment = record {
  atof = λ s. pos 0;
  waitlock_timeout = none;
  waitlock_dir = none;
  waitlock_slot = none;
  stdin = [];
  processors = pos 4;
}

-- `waitlock --check app`
abbrev check_app : Settings
check_app = record (initial_settings initial_state) { check_only = true; descriptor = some app }

check_parsed :
    parse_args quiet_environment (codes "--check" ∷ app ∷ []) (initial_settings initial_state)
    ≡ parsed check_app
unfolding initial_settings parse_args parse_environment after_environment parse_loop classify
    spelled str_eq set_flag after_loop limit_holders read_descriptor check_settings descriptor_ok
    slot_ok valid_chars length
check_parsed = refl

parse_args-IsReady_example : IsReady check_app
unfolding initial_settings
parse_args-IsReady_example =
    parse_args-IsReady quiet_environment (codes "--check" ∷ app ∷ [])
      (initial_settings initial_state) check_app refl check_parsed

-- Only /tmp/waitlock can be made.
abbrev pub bare_system : Paths
bare_system = record { access = λ path. Access.missing; mkdir = λ path. str_eq path lock_dir }

find_lock_directory-Chosen_example :
    Chosen bare_system (places none) (find_lock_directory bare_system none none)
find_lock_directory-Chosen_example = find_lock_directory-Chosen bare_system none
