-- ===== src/Signals/Laws.antt =====
-- What `signal_handler` leaves to `release_lock`.
use waitlock.Base.{ℕ, true, false, ◌≡◌, List, [], ◌∷◌, if◌then◌else◌, arith}
use waitlock.Base.Int.{ℤ, is_neg, is_pos}
use waitlock.Directory.{Dir}
use waitlock.Globals.{GlobalState}
use waitlock.Lock.Release.{release_lock, close_lock_fd, unlink_lock_path}
use waitlock.Signals.{Call, signal_handler, close_lock}
use waitlock.Text.{Str}

-- With or without a child, `signal_handler` asks the program to exit and forgets nothing of the lock's
-- file: `release_lock` after it leaves the same entries as `release_lock` without it.
pub release_lock-signal_handler :
    (sig : ℕ) (lock_dir : Str) (dir : Dir) (g : GlobalState)
    → ((signal_handler sig g).1.should_exit ≡ true)
      × ((signal_handler sig g).1.received_signal ≡ sig)
      × ((release_lock lock_dir dir (signal_handler sig g).1).0 ≡ (release_lock lock_dir dir g).0)
unfolding signal_handler close_lock release_lock close_lock_fd unlink_lock_path
release_lock-signal_handler sig lock_dir dir g = ground arith

-- The files that a list of calls closes.
unfoldable pub closed : List Call → List ℤ
closed [] = []
closed (Call.close fd ∷ cs) = fd ∷ closed cs
closed (Call.kill pid sig ∷ cs) = closed cs
closed (Call.restore_default sig ∷ cs) = closed cs
closed (Call.raise sig ∷ cs) = closed cs

-- Without a child, two signals and `release_lock` close the lock's descriptor once: what the second
-- signal closes is nothing, and the descriptor is marked as closed.
pub signal_handler_twice :
    (sig sig' : ℕ) (g : GlobalState)
    → is_pos g.child_pid ≡ false
    → (is_neg (signal_handler sig g).1.lock_fd ≡ true)
      × (closed (signal_handler sig' (signal_handler sig g).1).0 ≡ [])
      × (closed (signal_handler sig g).0 ≡ (if is_neg g.lock_fd then [] else g.lock_fd ∷ []))
unfolding signal_handler close_lock closed
signal_handler_twice sig sig' g h = ground arith
