-- ===== src/Process.antt =====
-- process/process.c: `process_exists`, over what `kill` answers. (The branch for Linux and other
-- POSIX systems.)
pub mod Exec
pub mod Cmdline
pub mod Platforms
use waitlock.Base.{Bool, true, false, if◌then◌else◌}
use waitlock.Base.Int.{ℤ, is_pos}

-- The outcome of `kill(pid, sig)`: 0, or -1 with this `errno`.
pub data KillResult : Type 0 where
  delivered esrch eperm einval : KillResult

-- What the kernel answers at one moment, for each process.
abbrev pub Probe : Type 0
Probe = ℤ → KillResult

abbrev pub answered : KillResult → Bool
answered KillResult.delivered = true
answered KillResult.eperm = true
answered KillResult.esrch = false
answered KillResult.einval = false

unfoldable pub process_exists : Probe → ℤ → Bool
process_exists probe pid = if is_pos pid then answered (probe pid) else false
