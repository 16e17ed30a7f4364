-- ===== src/Main/Run/Endings.antt =====
-- How the program ends when it has got the lock in locking mode.
use waitlock.Base.{ℕ, ◌≡◌, refl, ap, ◌∙◌, false, List, [], ◌∷◌, some, arith}
use waitlock.Base.Int.{ℤ, is_pos}
use waitlock.Directory.{Dir}
use waitlock.Globals.{GlobalState, e_success}
use waitlock.Lock.Acquire.{Round, acquire_lock, returned}
use waitlock.Lock.Acquire.Held.{acquire_lock-keeps_globals}
use waitlock.Lock.Claim.{Host}
use waitlock.Main.Run.{
  Ending, killed, pausing, fatal_signal, handled, wait_for_signal, lock_and_wait,
}
use waitlock.Signals.{signal_handler, close_lock}
use waitlock.Text.{Str}

-- Without a child, the calls of `signal_handler` end the program by the signal it handles.
signal_handler_fatal :
    (sig : ℕ) (g : GlobalState)
    → is_pos g.child_pid ≡ false
    → fatal_signal handled (signal_handler sig g).0 ≡ some sig
unfolding signal_handler close_lock fatal_signal
signal_handler_fatal sig g alone = ground arith

-- What the program comes to with the lock held: it waits while there is no signal, and the first one
-- ends it.
abbrev pub held_until_killed : Dir → GlobalState → List ℕ → Ending
held_until_killed dir g [] = pausing dir g
held_until_killed dir g (sig ∷ sigs) = killed sig dir

waits_for_signal :
    (lock_dir : Str) (sigs : List ℕ) (dir : Dir) (g : GlobalState)
    → is_pos g.child_pid ≡ false
    → g.should_exit ≡ false
    → wait_for_signal lock_dir sigs dir g ≡ held_until_killed dir g sigs
unfolding wait_for_signal
waits_for_signal lock_dir [] dir g alone stay = rw stay refl
waits_for_signal lock_dir (sig ∷ sigs) dir g alone stay =
    rw (signal_handler_fatal sig g alone, stay) refl

-- If the program starts `acquire_lock` without a child and not asked to exit, and `acquire_lock`
-- returns success, then the program waits until the first signal and is ended by that signal; the
-- lock directory stays as `acquire_lock` left it, and the `release_lock` of `main` is never reached.
pub lock_and_wait-acquire_lock :
    (lock_dir : Str) (host : Host) (d : Str) (max_holders : ℕ) (timeout : ℤ) (start : ℕ)
    (rs : List Round) (dir dir' : Dir) (g g' : GlobalState) (sigs : List ℕ)
    → is_pos g.child_pid ≡ false
    → g.should_exit ≡ false
    → acquire_lock (some lock_dir) host d max_holders timeout start rs dir g
      ≡ returned e_success dir' g'
    → lock_and_wait lock_dir sigs
        (acquire_lock (some lock_dir) host d max_holders timeout start rs dir g)
      ≡ held_until_killed dir' g' sigs
unfolding lock_and_wait
lock_and_wait-acquire_lock lock_dir host d max_holders timeout start rs dir dir' g g' sigs alone
      stay got =
    let same =
      acquire_lock-keeps_globals lock_dir host d max_holders timeout start rs dir dir' g g' got in
    rw got (waits_for_signal lock_dir sigs dir' g' (ap is_pos same.0 ∙ alone) (same.1 ∙ stay))
