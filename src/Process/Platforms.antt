-- ===== src/Process/Platforms.antt =====
-- process/process.c: `process_exists` and `get_process_cmdline` on other systems: the branches for BSD
-- and macOS, over what `sysctl` answers, and the one that runs `ps`.
pub mod Stored
use waitlock.Base.{ℕ, ◌-◌, Bool, false, List, [], ◌∷◌, Option, none, some, take, if◌then◌else◌}
use waitlock.Base.Int.{ℤ, is_pos}
use waitlock.LockFile.{fgets, strip_newline}
use waitlock.LockInfo.{max_cmdline}
use waitlock.Process.Cmdline.{get_process_cmdline}
use waitlock.Text.{Str, c_string}

-- `process_exists`, by whether `sysctl` succeeds for a process and gives a record of it.
unfoldable pub sysctl_exists : (ℤ → Bool) → ℤ → Bool
sysctl_exists found pid = if is_pos pid then found pid else false

-- `get_process_cmdline`, with the bytes of `p_comm` or `ki_comm`, if `sysctl` gives a record.
unfoldable pub sysctl_cmdline : Option (List ℕ) → Option Str
sysctl_cmdline none = none
sysctl_cmdline (some comm) = some (c_string (take (max_cmdline - 1) (c_string comm)))

-- The line that `fgets` reads of the output of `ps`.
unfoldable pub ps_line : List ℕ → Option Str
ps_line [] = none
ps_line (c ∷ output) = some (strip_newline (c_string (fgets (max_cmdline - 1) (c ∷ output)).0))

-- `get_process_cmdline`, with the output of `ps`, if `popen` succeeds.
unfoldable pub ps_cmdline : Option (List ℕ) → Option Str
ps_cmdline none = none
ps_cmdline (some output) = ps_line output

-- The branch that is compiled, with what the system answers.
pub data Platform : Type 0 where
  linux bsd other : Option (List ℕ) → Platform

unfoldable pub platform_cmdline : Platform → Option Str
platform_cmdline (linux contents) = get_process_cmdline contents
platform_cmdline (bsd comm) = sysctl_cmdline comm
platform_cmdline (other output) = ps_cmdline output
