-- ===== src/Globals.antt =====
-- waitlock.h and waitlock.c: the exit codes and the global state that handlers and operations share.
use waitlock.Base.{ℕ, Bool, false, []}
use waitlock.Base.Int.{ℤ, pos, minus_one}
use waitlock.Text.{Str}

abbrev pub e_success : ℕ
e_success = 0

abbrev pub e_busy : ℕ
e_busy = 1

abbrev pub e_timeout : ℕ
e_timeout = 2

abbrev pub e_usage : ℕ
e_usage = 3

abbrev pub e_system : ℕ
e_system = 4

abbrev pub e_nodir : ℕ
e_nodir = 6

abbrev pub e_exec : ℕ
e_exec = 126

abbrev pub e_notfound : ℕ
e_notfound = 127

-- `LOG_DAEMON`
abbrev pub log_daemon : ℤ
log_daemon = pos 24

-- `struct global_state`; a `sig_atomic_t` flag is a Boolean.
pub record GlobalState : Type 0 where
  pub lock_fd : ℤ
  pub lock_path : Str
  pub should_exit : Bool
  pub quiet : Bool
  pub verbose : Bool
  pub use_syslog : Bool
  pub syslog_facility : ℤ
  pub child_pid : ℤ
  pub received_signal : ℕ
  pub cleanup_needed : Bool

-- `struct global_state g_state = { -1, "", 0, ... }`
unfoldable pub initial_state : GlobalState
initial_state = record {
  lock_fd = minus_one;
  lock_path = [];
  should_exit = false;
  quiet = false;
  verbose = false;
  use_syslog = false;
  syslog_facility = log_daemon;
  child_pid = pos 0;
  received_signal = 0;
  cleanup_needed = false;
}
