-- ===== src/Lock/Release.antt =====
-- lock/lock.c: `release_lock`. (Its syslog messages are left out.)
pub mod AfterAcquire
use waitlock.Base.{ℕ, Bool, List, [], ◌∷◌, ◌++◌, Option, none, some, drop, length, if◌then◌else◌}
use waitlock.Base.Int.{ℤ, is_neg, minus_one}
use waitlock.Directory.{Dir, remove}
use waitlock.Globals.{GlobalState}
use waitlock.Text.{Str, starts_with}

-- The entry of the lock directory that a path names: what stands behind `lock_dir` and a slash.
unfoldable pub entry_of : Str → Str → Option Str
entry_of lock_dir path =
    if starts_with (lock_dir ++ b'/' ∷ []) path
    then some (drop (length (lock_dir ++ b'/' ∷ [])) path)
    else none

-- `unlink(path)`, as it changes the lock directory.
unfoldable pub unlink_path : Str → Str → Dir → Dir
unlink_path lock_dir path dir = elim (entry_of lock_dir path) [
  | none ↦ dir
  | some name ↦ remove name dir
]

-- `if (g_state.lock_fd >= 0) { close(g_state.lock_fd); g_state.lock_fd = -1; }`
unfoldable pub close_lock_fd : GlobalState → GlobalState
close_lock_fd g = if is_neg g.lock_fd then g else record g { lock_fd = minus_one }

-- `if (g_state.lock_path[0])`: the file is removed and the path forgotten.
unfoldable pub unlink_lock_path : Str → GlobalState → Str → Dir → Dir × GlobalState
unlink_lock_path lock_dir g [] dir = (dir, g)
unlink_lock_path lock_dir g (c ∷ path) dir =
    (unlink_path lock_dir (c ∷ path) dir, record g { lock_path = [] })

unfoldable pub release_lock : Str → Dir → GlobalState → Dir × GlobalState
unfolding close_lock_fd unlink_lock_path
release_lock lock_dir dir g = unlink_lock_path lock_dir (close_lock_fd g) g.lock_path dir
