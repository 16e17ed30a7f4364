-- ===== src/Main.antt =====
-- waitlock.c: `opts` and the modes of `main`. `srand`, the signal handlers and the unit tests are left
-- out.
pub mod Modes
pub mod Run
pub mod Program
use waitlock.Args.{Settings, strcasecmp_compat}
use waitlock.Base.{
  ℕ, Bool, true, false, ◌&&◌, ◌||◌, List, [], ◌∷◌, codes, Option, none, some, if◌then◌else◌,
}
use waitlock.Base.Int.{ℤ, pos, negsuc, minus_one, eqb_ℤ}
use waitlock.Globals.{GlobalState}
use waitlock.Lock.Listing.{OutputFormat}
use waitlock.Text.{Str, str_eq}

-- `struct options opts`, with `g_state`; the timeout of -1.0 seconds in microseconds.
unfoldable pub initial_settings : GlobalState → Settings
initial_settings g = record {
  descriptor = none;
  max_holders = pos 1;
  one_per_cpu = false;
  exclude_cpus = pos 0;
  timeout = negsuc 999999;
  check_only = false;
  list_mode = false;
  done_mode = false;
  show_all = false;
  stale_only = false;
  output_format = OutputFormat.human;
  lock_dir = none;
  exec_argv = [];
  test_mode = false;
  preferred_slot = minus_one;
  globals = g;
}

-- WAITLOCK_DEBUG
unfoldable pub debug_wanted : Option Str → Bool
debug_wanted none = false
debug_wanted (some v) =
    str_eq v (codes "1")
    || eqb_ℤ (strcasecmp_compat v (codes "true")) (pos 0)
    || eqb_ℤ (strcasecmp_compat v (codes "yes")) (pos 0)

unfoldable pub with_debug : Option Str → GlobalState → GlobalState
with_debug v g = if debug_wanted v then record g { verbose = true } else g

-- What `main` runs.
pub data Mode : Type 0 where
  tests listing checking ending executing locking : Mode

abbrev pub is_given : List Str → Bool
is_given [] = false
is_given (c ∷ cs) = true

-- "Handle different modes", in the order of the tests.
unfoldable pub mode_of : Settings → Mode
mode_of s =
    if s.test_mode
    then Mode.tests
    else if s.list_mode
    then Mode.listing
    else if s.check_only
    then Mode.checking
    else if s.done_mode
    then Mode.ending
    else if is_given s.exec_argv
    then Mode.executing
    else Mode.locking
