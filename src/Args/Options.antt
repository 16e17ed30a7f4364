-- ===== src/Args/Options.antt =====
-- core/core.c: the loop of `parse_args` over the arguments.
use waitlock.Args.{
  Settings, Environment, Parsed, usage, quits, parse_environment, limit_holders, read_descriptor,
  check_settings, parse_syslog_facility,
}
use waitlock.Base.{Bool, true, false, List, [], ◌∷◌, codes, Option, none, some, ◌==◌, if◌then◌else◌}
use waitlock.Base.Int.{ℤ, minus_one, is_neg, is_pos, eqb_ℤ}
use waitlock.Lock.Listing.{OutputFormat}
use waitlock.Text.{Str, str_eq}
use waitlock.Text.Decimal.{atoi}

-- Options that only set a flag, and options that take the next argument.
pub data Flag : Type 0 where
  one_per_cpu check done list all stale_only quiet verbose syslog test : Flag

pub data Valued : Type 0 where
  allow_multiple exclude_cpus timeout format lock_dir syslog_facility : Valued

pub data Kind : Type 0 where
  help exec unknown word : Kind
  flag : Flag → Kind
  valued : Valued → Kind

abbrev pub starts_with_dash : Str → Bool
starts_with_dash [] = false
starts_with_dash (c ∷ s) = c == b'-'

-- The spellings, in the order of the tests.
abbrev pub spellings : List (Str × Kind)
spellings =
    (codes "-h", Kind.help)
    ∷ (codes "--help", Kind.help)
    ∷ (codes "-V", Kind.help)
    ∷ (codes "--version", Kind.help)
    ∷ (codes "-m", valued allow_multiple)
    ∷ (codes "--allowMultiple", valued allow_multiple)
    ∷ (codes "-c", flag one_per_cpu)
    ∷ (codes "--onePerCPU", flag one_per_cpu)
    ∷ (codes "-x", valued exclude_cpus)
    ∷ (codes "--excludeCPUs", valued exclude_cpus)
    ∷ (codes "-t", valued timeout)
    ∷ (codes "--timeout", valued timeout)
    ∷ (codes "--check", flag check)
    ∷ (codes "--done", flag done)
    ∷ (codes "-l", flag list)
    ∷ (codes "--list", flag list)
    ∷ (codes "-a", flag all)
    ∷ (codes "--all", flag all)
    ∷ (codes "--stale-only", flag stale_only)
    ∷ (codes "-f", valued format)
    ∷ (codes "--format", valued format)
    ∷ (codes "-d", valued lock_dir)
    ∷ (codes "--lock-dir", valued lock_dir)
    ∷ (codes "-q", flag quiet)
    ∷ (codes "--quiet", flag quiet)
    ∷ (codes "-v", flag verbose)
    ∷ (codes "--verbose", flag verbose)
    ∷ (codes "--syslog", flag syslog)
    ∷ (codes "--syslog-facility", valued syslog_facility)
    ∷ (codes "-e", Kind.exec)
    ∷ (codes "--exec", Kind.exec)
    ∷ (codes "--test", flag test)
    ∷ []

unfoldable pub spelled : List (Str × Kind) → Str → Kind
spelled [] a = if starts_with_dash a then Kind.unknown else Kind.word
spelled (s ∷ ss) a = let rest = spelled ss a in if str_eq a s.0 then s.1 else rest

unfoldable pub classify : Str → Kind
classify a = spelled spellings a

unfoldable pub set_flag : Flag → Settings → Settings
set_flag Flag.one_per_cpu s = record s { one_per_cpu = true }
set_flag Flag.check s = record s { check_only = true }
set_flag Flag.done s = record s { done_mode = true }
set_flag Flag.list s = record s { list_mode = true }
set_flag Flag.all s = record s { show_all = true }
set_flag Flag.stale_only s = record s { stale_only = true }
set_flag Flag.quiet s = record s { globals = record s.globals { quiet = true } }
set_flag Flag.verbose s = record s { globals = record s.globals { verbose = true } }
set_flag Flag.syslog s = record s { globals = record s.globals { use_syslog = true } }
set_flag Flag.test s = record s { test_mode = true }

abbrev format_of : Str → Option OutputFormat
format_of v =
    if str_eq v (codes "human")
    then some OutputFormat.human
    else if str_eq v (codes "csv")
    then some OutputFormat.csv
    else if str_eq v (codes "null")
    then some OutputFormat.null
    else none

-- An option with its argument; `none` is a usage error.
unfoldable pub set_value : (Str → ℤ) → Valued → Str → Settings → Option Settings
set_value atof Valued.allow_multiple v s =
    if is_pos (atoi v) then some (record s { max_holders = atoi v }) else none
set_value atof Valued.exclude_cpus v s = some (record s { exclude_cpus = atoi v })
set_value atof Valued.timeout v s =
    if is_neg (atof v) then none else some (record s { timeout = atof v })
set_value atof Valued.format v s = elim (format_of v) [
  | none ↦ none
  | some f ↦ some (record s { output_format = f })
]
set_value atof Valued.lock_dir v s = some (record s { lock_dir = some v })
set_value atof Valued.syslog_facility v s =
    if eqb_ℤ (parse_syslog_facility (some v)) minus_one
    then none
    else some (record s {
      globals = record s.globals { syslog_facility = parse_syslog_facility (some v) };
    })

-- What the loop hands on.
pub data Looped : Type 0 where
  bad_usage shown : Looped
  settings : Settings → Looped

abbrev pub set_descriptor : Str → Settings → Option Str → Option Settings
set_descriptor a s none = some (record s { descriptor = some a })
set_descriptor a s (some d) = none

abbrev pub run_command : List Str → Settings → Looped
run_command [] s = bad_usage
run_command (c ∷ cs) s = settings (record s { exec_argv = c ∷ cs })

-- The loop over `argv`, with the option that waits for its argument.
unfoldable pub parse_loop : (Str → ℤ) → Option Valued → List Str → Settings → Looped
parse_loop atof none [] s = settings s
parse_loop atof (some o) [] s = bad_usage
parse_loop atof (some o) (v ∷ args) s = elim (set_value atof o v s) [
  | none ↦ bad_usage
  | some t ↦ parse_loop atof none args t
]
parse_loop atof none (a ∷ args) s = elim (classify a) [
  | Kind.help ↦ shown
  | Kind.exec ↦ run_command args s
  | Kind.unknown ↦ bad_usage
  | Kind.word ↦ elim (set_descriptor a s s.descriptor) [
    | none ↦ bad_usage
    | some t ↦ parse_loop atof none args t
  ]
  | Kind.flag f ↦ parse_loop atof none args (set_flag f s)
  | Kind.valued o ↦ parse_loop atof (some o) args s
]

-- What follows the loop: the number of holders, the descriptor, and the last checks.
unfoldable pub after_loop : Environment → Looped → Parsed
after_loop env bad_usage = usage
after_loop env shown = quits
after_loop env (settings s) = check_settings (read_descriptor env (limit_holders env s))

unfoldable pub after_environment : Environment → List Str → Option Settings → Parsed
after_environment env args none = usage
after_environment env args (some s) = after_loop env (parse_loop env.atof none args s)

-- `parse_args`, on the options and the global state as they are at its start.
unfoldable pub parse_args : Environment → List Str → Settings → Parsed
parse_args env args s = after_environment env args (parse_environment env s)
