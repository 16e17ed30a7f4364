-- ===== src/Signals.antt =====
-- signal/signal.c: `signal_handler`, as it changes `g_state` and what it asks of the system.
pub mod Laws
use waitlock.Base.{ℕ, Bool, true, List, [], ◌∷◌, ◌++◌, if◌then◌else◌}
use waitlock.Base.Int.{ℤ, is_neg, is_pos, minus_one}
use waitlock.Globals.{GlobalState}

-- `kill(pid, sig)`, `close(fd)`, `signal(sig, SIG_DFL)`, `raise(sig)`.
pub data Call : Type 0 where
  kill : ℤ → ℕ → Call
  close : ℤ → Call
  restore_default : ℕ → Call
  raise : ℕ → Call

abbrev pub asked_to_exit : ℕ → GlobalState → GlobalState
asked_to_exit sig g = record g { should_exit = true; received_signal = sig }

-- `if (g_state.lock_fd >= 0)`
unfoldable pub close_lock : GlobalState → List Call × GlobalState
close_lock g =
    if is_neg g.lock_fd
    then ([], g)
    else (Call.close g.lock_fd ∷ [], record g { lock_fd = minus_one })

-- In exec mode the signal goes to the child; else the descriptor is closed and the signal raised
-- again.
unfoldable pub signal_handler : ℕ → GlobalState → List Call × GlobalState
signal_handler sig g =
    if is_pos g.child_pid
    then (Call.kill g.child_pid sig ∷ [], asked_to_exit sig g)
    else (let closed = close_lock (asked_to_exit sig g) in
        (
          closed.0 ++ Call.restore_default sig ∷ Call.raise sig ∷ [],
          record closed.1 { cleanup_needed = true },
        ))
