-- ===== src/Messages.antt =====
-- core/core.c: the messages of the program: `usage`, `version`, `debug` and `error`, as the bytes that
-- they print. A formatted message is an argument.
pub mod Shown
pub mod Documented
use waitlock.Base.{ℕ, Bool, not, ◌&&◌, List, [], ◌∷◌, ◌++◌, codes, ◌==◌, if◌then◌else◌}
use waitlock.Base.Int.{ℤ}
use waitlock.Globals.{GlobalState, e_usage}
use waitlock.Text.{Str}
use waitlock.Text.Decimal.{print_int}

-- The lines of `usage`.
abbrev pub usage_lines : List Str
usage_lines =
    codes "Usage: waitlock [options] <descriptor>"
    ∷ codes "       waitlock --list [--format=<fmt>] [--all|--stale-only]"
    ∷ codes "       waitlock --check <descriptor>"
    ∷ codes "       waitlock --done <descriptor>"
    ∷ codes "       echo <descriptor> | waitlock [options]"
    ∷ []
    ∷ codes "Process synchronization tool for shell scripts."
    ∷ []
    ∷ codes "Options:"
    ∷ codes "  -m, --allowMultiple N    Allow N concurrent holders (semaphore)"
    ∷ codes "  -c, --onePerCPU          Allow one lock per CPU core"
    ∷ codes "  -x, --excludeCPUs N      Reserve N CPUs (with --onePerCPU)"
    ∷ codes "  -t, --timeout SECS       Timeout in seconds (default: infinite)"
    ∷ codes "  --check                  Test if lock is available"
    ∷ codes "  --done                   Signal lock holder to release lock"
    ∷ codes "  -e, --exec CMD           Execute command while holding lock"
    ∷ codes "  -l, --list               List active locks"
    ∷ codes "  -a, --all                Include stale locks in list"
    ∷ codes "  --stale-only             Show only stale locks"
    ∷ codes "  -f, --format FMT         Output format: human, csv, null"
    ∷ codes "  -d, --lock-dir DIR       Lock directory (default: auto)"
    ∷ codes "  -q, --quiet              Suppress non-error output"
    ∷ codes "  -v, --verbose            Verbose output"
    ∷ codes "  --syslog                 Log to syslog"
    ∷ codes "  --syslog-facility FAC    Syslog facility (daemon|local0-7)"
    ∷ codes "  --test                   Run internal test suite"
    ∷ codes "  -h, --help               Show this help"
    ∷ codes "  -V, --version            Show version"
    ∷ []

unfoldable pub print_lines : List Str → Str
print_lines [] = []
print_lines (l ∷ ls) = l ++ b'\n' ∷ print_lines ls

-- `usage`, on either stream.
abbrev pub usage_message : Str
usage_message = print_lines usage_lines

-- `version`, with `VERSION`
abbrev pub version_message : Str
version_message = codes "waitlock 1.0.0\n"

-- What `debug` prints, with `getpid()`.
unfoldable pub debug_message : ℤ → Str → GlobalState → Str
debug_message pid msg g =
    if g.verbose
    then codes "waitlock[" ++ (print_int pid ++ (codes "]: DEBUG: " ++ (msg ++ codes "\n")))
    else []

-- What `error` prints.
unfoldable pub error_message : ℕ → Str → GlobalState → Str
error_message code msg g =
    if g.quiet && not (code == e_usage) then [] else codes "waitlock: " ++ (msg ++ codes "\n")
