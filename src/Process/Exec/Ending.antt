-- ===== src/Process/Exec/Ending.antt =====
-- However the child ends, the lock is released.
use waitlock.Base.{ℕ, true, ◌≡◌, refl, sym, ap, ◌∙◌, [], some, some_eq, arith}
use waitlock.Base.Int.{ℤ, pos, is_pos, is_neg}
use waitlock.Directory.{Dir}
use waitlock.Globals.{GlobalState, e_success}
use waitlock.Lock.Acquire.{returned}
use waitlock.Lock.Release.{release_lock, close_lock_fd, unlink_lock_path}
use waitlock.Process.Exec.{
  Ended, ChildWait, ends, interrupted, wait_loop, exit_code, Finished, finish, exec_parent,
  exec_fork, exec_with_lock,
}
use waitlock.Signals.{signal_handler}
use waitlock.Text.{Str}

-- The parts of the state that the lock is in, and the child.
abbrev SameLock : GlobalState → GlobalState → Type 0
SameLock g h = (h.lock_fd ≡ g.lock_fd) × (h.lock_path ≡ g.lock_path) × (h.child_pid ≡ g.child_pid)

signal_handler-SameLock :
    (sig : ℕ) (g : GlobalState) → is_pos g.child_pid ≡ true → SameLock g (signal_handler sig g).1
unfolding signal_handler
signal_handler-SameLock sig g h = ground arith

wait_loop-SameLock :
    (w : ChildWait) (pid : ℤ) (g : GlobalState)
    → is_pos g.child_pid ≡ true
    → SameLock g (wait_loop w pid g).2
unfolding wait_loop
wait_loop-SameLock (ends e) pid g h = (refl, refl, refl)
wait_loop-SameLock (interrupted sig b a w) pid g h =
    let one = signal_handler-SameLock sig g h in
    let rest = wait_loop-SameLock w pid (signal_handler sig g).1 (ap is_pos one.2 ∙ h) in
    (rest.0 ∙ one.0, rest.1 ∙ one.1, rest.2 ∙ one.2)

-- Releasing reads of the state the path alone, and leaves no path and no descriptor.
pub release_lock-parts :
    (lock_dir : Str) (dir : Dir) (g h : GlobalState)
    → h.lock_path ≡ g.lock_path
    → ((release_lock lock_dir dir h).0 ≡ (release_lock lock_dir dir g).0)
      × ((release_lock lock_dir dir h).1.lock_path ≡ [])
      × (is_neg (release_lock lock_dir dir h).1.lock_fd ≡ true)
      × ((release_lock lock_dir dir h).1.child_pid ≡ h.child_pid)
unfolding release_lock unlink_lock_path close_lock_fd
release_lock-parts lock_dir dir g h e = ground arith

-- The last event of the child.
unfoldable pub last_event : ChildWait → Ended
last_event (ends e) = e
last_event (interrupted sig b a w) = last_event w

wait_loop-last_event :
    (w : ChildWait) (pid : ℤ) (g : GlobalState) → (wait_loop w pid g).0 ≡ last_event w
unfolding wait_loop last_event
wait_loop-last_event (ends e) pid g = refl
wait_loop-last_event (interrupted sig b a w) pid g = wait_loop-last_event w pid _

-- If the lock was acquired and `fork` gave a child, then however often signals interrupt the wait and
-- however the child ends, `exec_with_lock` removes the lock's file as `release_lock` does, forgets
-- path, descriptor and child, and its code is that of the last event: the child's exit status, 128
-- more than the signal that ended it, or E_SYSTEM.
pub exec_with_lock_releases :
    (lock_dir : Str) (others : Dir → Dir) (pid : ℤ) (w : ChildWait) (dir : Dir) (g : GlobalState)
    (f : Finished)
    → is_pos pid ≡ true
    → exec_with_lock lock_dir others (some pid) w (returned e_success dir g) ≡ some f
    → (f.entries ≡ (release_lock lock_dir (others dir) g).0)
      × (f.state.lock_path ≡ [])
      × (is_neg f.state.lock_fd ≡ true)
      × (f.state.child_pid ≡ pos 0)
      × (f.code ≡ exit_code (last_event w))
unfolding exec_with_lock exec_fork exec_parent finish
exec_with_lock_releases lock_dir others pid w dir g f h e =
    let waited = wait_loop w pid (record g { child_pid = pid }) in
    let same = wait_loop-SameLock w pid (record g { child_pid = pid }) h in
    let parts =
      release_lock-parts lock_dir (others dir) g (record waited.2 { child_pid = pos 0 }) same.1 in
    let last = wait_loop-last_event w pid (record g { child_pid = pid }) in
    let f_is = sym (some_eq e) in
    (
      ap (λ (x : Finished). x.entries) f_is ∙ parts.0,
      ap (λ (x : Finished). x.state.lock_path) f_is ∙ parts.1,
      ap (λ (x : Finished). is_neg x.state.lock_fd) f_is ∙ parts.2,
      ap (λ (x : Finished). x.state.child_pid) f_is ∙ parts.3,
      ap (λ (x : Finished). x.code) f_is ∙ ap exit_code last,
    )
