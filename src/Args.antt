-- ===== src/Args.antt =====
-- core/core.c: `parse_args`, `parse_syslog_facility`, `strcasecmp_compat` and `get_cpu_count`. A time
-- is in microseconds; the C library's `atof` and what the environment holds are arguments. Messages
-- are left out.
pub mod Options
pub mod Checked
pub mod Documented
use waitlock.Base.{
  ℕ, ◌+◌, Bool, true, false, not, ◌&&◌, ◌||◌, List, [], ◌∷◌, codes, Option, none, some, ◌==◌, leb,
  ltb, length, if◌then◌else◌,
}
use waitlock.Base.Int.{ℤ, pos, minus_one, is_neg, is_pos, sub_ℕ, pos_part, neg_part, ltb_ℤ, eqb_ℤ}
use waitlock.Globals.{GlobalState}
use waitlock.Lock.Listing.{OutputFormat}
use waitlock.LockFile.{fgets, strip_newline}
use waitlock.LockInfo.{max_desc_len}
use waitlock.Text.{Str, str_eq, c_string}
use waitlock.Text.Decimal.{atoi, print_nat}

-- `tolower` in the C locale
abbrev pub to_lower : ℕ → ℕ
to_lower c = if leb 65 c && leb c 90 then c + 32 else c

-- `strcasecmp_compat`: the difference of the first two characters that differ.
unfoldable pub strcasecmp_compat : Str → Str → ℤ
strcasecmp_compat [] [] = pos 0
strcasecmp_compat [] (d ∷ t) = sub_ℕ 0 (to_lower d)
strcasecmp_compat (c ∷ s) [] = sub_ℕ (to_lower c) 0
strcasecmp_compat (c ∷ s) (d ∷ t) =
    let rest = strcasecmp_compat s t in
    if to_lower c == to_lower d then rest else sub_ℕ (to_lower c) (to_lower d)

-- The names of facilities, with the values of <syslog.h>.
abbrev pub facilities : List (Str × ℕ)
facilities =
    (codes "daemon", 24)
    ∷ (codes "local0", 128)
    ∷ (codes "local1", 136)
    ∷ (codes "local2", 144)
    ∷ (codes "local3", 152)
    ∷ (codes "local4", 160)
    ∷ (codes "local5", 168)
    ∷ (codes "local6", 176)
    ∷ (codes "local7", 184)
    ∷ (codes "user", 8)
    ∷ (codes "mail", 16)
    ∷ (codes "news", 56)
    ∷ (codes "uucp", 64)
    ∷ (codes "cron", 72)
    ∷ (codes "authpriv", 80)
    ∷ (codes "syslog", 40)
    ∷ []

unfoldable pub find_facility : Str → List (Str × ℕ) → ℤ
find_facility name [] = minus_one
find_facility name (f ∷ fs) =
    let rest = find_facility name fs in
    if eqb_ℤ (strcasecmp_compat name f.0) (pos 0) then pos f.1 else rest

unfoldable pub parse_syslog_facility : Option Str → ℤ
parse_syslog_facility none = minus_one
parse_syslog_facility (some name) = find_facility name facilities

-- `get_cpu_count`, with what `sysconf` gives.
unfoldable pub get_cpu_count : ℤ → ℤ
get_cpu_count count = if is_pos count then count else pos 1

-- `get_cpu_count` on BSD and macOS, with what `sysctl` gives for hw.ncpu and, on macOS alone, for
-- hw.logicalcpu.
unfoldable pub sysctl_cpu_count : Option ℤ → Option ℤ → ℤ
sysctl_cpu_count (some count) logical = get_cpu_count count
sysctl_cpu_count none (some count) = get_cpu_count count
sysctl_cpu_count none none = pos 1

-- `struct options`
pub record Settings : Type 0 where
  pub descriptor : Option Str
  pub max_holders : ℤ
  pub one_per_cpu : Bool
  pub exclude_cpus : ℤ
  pub timeout : ℤ
  pub check_only : Bool
  pub list_mode : Bool
  pub done_mode : Bool
  pub show_all : Bool
  pub stale_only : Bool
  pub output_format : OutputFormat
  pub lock_dir : Option Str
  pub exec_argv : List Str
  pub test_mode : Bool
  pub preferred_slot : ℤ
  pub globals : GlobalState

-- The environment: its variables, a line of standard input, the number of processors.
pub record Environment : Type 0 where
  pub atof : Str → ℤ
  pub waitlock_timeout : Option Str
  pub waitlock_dir : Option Str
  pub waitlock_slot : Option Str
  pub stdin : List ℕ
  pub processors : ℤ

-- How parsing ends: E_USAGE, an exit with E_SUCCESS after help or version, or the settings.
pub data Parsed : Type 0 where
  usage quits : Parsed
  parsed : Settings → Parsed

abbrev pub env_timeout : Environment → Option Str → Settings → Option Settings
env_timeout env none s = some s
env_timeout env (some t) s =
    if is_neg (env.atof t) then none else some (record s { timeout = env.atof t })

abbrev pub env_dir : Option Str → Settings → Settings
env_dir none s = s
env_dir (some d) s = record s { lock_dir = some d }

abbrev pub env_slot : Option Str → Settings → Settings
env_slot none s = s
env_slot (some t) s = record s { preferred_slot = if is_neg (atoi t) then minus_one else atoi t }

-- "Check environment variables first"
unfoldable pub parse_environment : Environment → Settings → Option Settings
parse_environment env s = elim (env_timeout env env.waitlock_timeout s) [
  | none ↦ none
  | some t ↦ some (env_slot env.waitlock_slot (env_dir env.waitlock_dir t))
]

abbrev pub minus : ℤ → ℤ → ℤ
minus a b = sub_ℕ (pos_part a + neg_part b) (pos_part b + neg_part a)

-- "Handle CPU-based limits"
unfoldable pub limit_holders : Environment → Settings → Settings
limit_holders env s =
    if s.one_per_cpu
    then (let n = minus (get_cpu_count env.processors) s.exclude_cpus in
        record s { max_holders = if is_pos n then n else pos 1 })
    else s

abbrev pub from_line : List ℕ → Option Str
from_line [] = none
from_line (c ∷ line) = some (strip_newline (c_string (c ∷ line)))

-- "Read descriptor from stdin if not provided"
unfoldable pub read_descriptor : Environment → Settings → Settings
read_descriptor env s = elim s.descriptor [
  | some d ↦ s
  | none ↦
      if s.list_mode || s.test_mode
      then s
      else record s { descriptor = from_line (fgets max_desc_len env.stdin).0 }
]

-- `isalnum` in the C locale, and the three marks.
abbrev pub is_descriptor_char : ℕ → Bool
is_descriptor_char c =
    (leb b'0' c && leb c b'9')
    || (leb b'A' c && leb c b'Z')
    || (leb b'a' c && leb c b'z')
    || c == b'_'
    || c == b'-'
    || c == b'.'

unfoldable pub valid_chars : Str → Bool
valid_chars [] = true
valid_chars (c ∷ s) = is_descriptor_char c && valid_chars s

abbrev pub valid_descriptor : Option Str → Bool
valid_descriptor none = false
valid_descriptor (some d) = valid_chars d && leb (length d) max_desc_len

-- "Validate descriptor" and "Check required arguments"
unfoldable pub descriptor_ok : Settings → Bool
descriptor_ok s = s.list_mode || s.test_mode || valid_descriptor s.descriptor

-- "Validate preferred slot"
unfoldable pub slot_ok : Settings → Bool
slot_ok s = is_neg s.preferred_slot || ltb_ℤ s.preferred_slot s.max_holders

-- What follows the loop over the arguments.
unfoldable pub check_settings : Settings → Parsed
check_settings s = if descriptor_ok s && slot_ok s then parsed s else usage
