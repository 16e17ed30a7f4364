-- ===== src/Process/Cmdline.antt =====
-- process/process.c: `get_process_cmdline`, the branch for Linux, over what `open` and `read` give of
-- `/proc/<pid>/cmdline`.
pub mod Words
use waitlock.Base.{ℕ, ◌-◌, List, [], ◌∷◌, Option, none, some, ◌==◌, take, if◌then◌else◌}
use waitlock.LockInfo.{max_cmdline}
use waitlock.Text.{Str, c_string}

abbrev pub null_to_space : ℕ → ℕ
null_to_space c = if c == 0 then b' ' else c

-- "Replace nulls with spaces": every character but the last.
unfoldable pub replace_nulls : List ℕ → List ℕ
replace_nulls [] = []
replace_nulls (c ∷ []) = c ∷ []
replace_nulls (c ∷ (d ∷ s)) = null_to_space c ∷ replace_nulls (d ∷ s)

-- From the test of `len` on: nothing was read, or the text in the buffer.
unfoldable pub cmdline_of : List ℕ → Option Str
cmdline_of [] = none
cmdline_of (c ∷ s) = some (c_string (replace_nulls (c ∷ s)))

-- The file cannot be opened or read, or it has these characters, of which the buffer takes all but
-- one of its size.
unfoldable pub get_process_cmdline : Option (List ℕ) → Option Str
get_process_cmdline none = none
get_process_cmdline (some contents) = cmdline_of (take (max_cmdline - 1) contents)
