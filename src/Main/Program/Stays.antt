-- ===== src/Main/Program/Stays.antt =====
-- A file that stays, whatever signals come while the lock is held.
use waitlock.Base.{
  ℕ, ◌<◌, ◌≡◌, ap, ◌∙◌, Bool, true, false, List, [], ◌∷◌, ◌++◌, Option, none, some, length, All,
  arith, if◌then◌else◌,
}
use waitlock.Args.{Settings}
use waitlock.Base.Int.{ℤ, pos_part, is_pos}
use waitlock.Directory.{Dir, lookup, slot_name}
use waitlock.Directory.Search.{path_max}
use waitlock.Globals.{GlobalState, e_success}
use waitlock.Lock.Acquire.Keeping.{LetsBe}
use waitlock.Lock.Release.{release_lock}
use waitlock.Lock.{Holder, holder_of}
use waitlock.LockFile.{File}
use waitlock.Main.Program.{Outside, Ended, ended, null_descriptor, directory}
use waitlock.Main.Run.{
  Ending, exited, killed, pausing, acquiring, wait_for_signal, fatal_signal, handled,
}
use waitlock.Process.Exec.Ending.{release_lock-parts}
use waitlock.Signals.{signal_handler, close_lock}
use waitlock.Text.{Str}

-- The entries that an ending leaves; with a null pointer the program has not touched them.
abbrev pub left : Dir → Ended → Dir
left dir null_descriptor = dir
left dir (ended (exited code d)) = d
left dir (ended (killed sig d)) = d
left dir (ended (pausing d g)) = d
left dir (ended (acquiring d)) = d

-- The file is the lock of a process that lives all the while, and nobody else removes it.
pub record IsUntouched (o : Outside) (name : Str) (file : File) : Type 0 where
  pub rounds : All (LetsBe name file) o.rounds
  pub holder : holder_of o.probe file ≡ Holder.active
  pub others : (dir : Dir) → lookup name dir ≡ some file → lookup name (o.others dir) ≡ some file
  pub forked : (pid : ℤ) → o.forked ≡ some pid → is_pos pid ≡ true

-- The paths of the slots fit `g_state.lock_path`.
abbrev pub PathsFit : Outside → Settings → Type 0
PathsFit o s =
    (lock_dir d : Str)
    → directory o s ≡ some lock_dir
    → s.descriptor ≡ some d
    → (slot : ℕ) → slot < pos_part s.max_holders
    → length (lock_dir ++ b'/' ∷ slot_name d slot) < path_max

-- What the handlers of signals leave of the lock's path.
signal_handler-path : (sig : ℕ) (g : GlobalState) → (signal_handler sig g).1.lock_path ≡ g.lock_path
unfolding signal_handler close_lock
signal_handler-path sig g = ground arith

release_lock-path :
    (lock_dir : Str) (dir : Dir) (g h : GlobalState)
    → h.lock_path ≡ g.lock_path
    → (release_lock lock_dir dir h).0 ≡ (release_lock lock_dir dir g).0
release_lock-path lock_dir dir g h e = (release_lock-parts lock_dir dir g h e).0

-- The file is in what an ending leaves.
abbrev pub Stays : Str → File → Dir → Ended → Type 0
Stays name file dir e = lookup name (left dir e) ≡ some file

Stays-if :
    (name : Str) (file : File) (dir : Dir) (b : Bool) (x y : Ending)
    → Stays name file dir (ended x)
    → Stays name file dir (ended y)
    → Stays name file dir (ended (if b then x else y))
Stays-if name file dir true x y hx hy = hx
Stays-if name file dir false x y hx hy = hy

module _ (lock_dir name : Str) (file : File) (dir : Dir) (found : lookup name dir ≡ some file) where
  killed-Stays :
      (o : Option ℕ) (x : Ending)
      → Stays name file dir (ended x)
      → Stays name file dir (ended (elim o [ none ↦ x | some sig ↦ killed sig dir ]))
  killed-Stays none x hx = hx
  killed-Stays (some sig) x hx = found

  -- Whatever signals come, the file stays if releasing the lock leaves it.
  pub wait-Stays :
      (sigs : List ℕ) (g : GlobalState)
      → lookup name (release_lock lock_dir dir g).0 ≡ some file
      → Stays name file dir (ended (wait_for_signal lock_dir sigs dir g))
  unfolding wait_for_signal
  wait-Stays [] g released =
      Stays-if name file dir g.should_exit (exited e_success (release_lock lock_dir dir g).0)
        (pausing dir g) released found
  wait-Stays (sig ∷ sigs) g released =
      let handler = signal_handler sig g in
      let same = release_lock-path lock_dir dir g handler.1 (signal_handler-path sig g) in
      Stays-if name file dir g.should_exit (exited e_success (release_lock lock_dir dir g).0) _
        released
        (killed-Stays (fatal_signal handled handler.0) _
          (wait-Stays sigs handler.1 (ap (λ (d : Dir). lookup name d) same ∙ released)))
