-- ===== src/Main/Program/Keeps.antt =====
-- What `main` leaves of the locks of others.
use waitlock.Base.{◌≡◌, ◌≢◌, refl, ap, ◌∙◌, Option, none, some, Bool-cases, inl, inr, ◌==◌, ==_iff}
use waitlock.Args.{Settings}
use waitlock.Base.Int.{ℤ, pos_part}
use waitlock.Directory.{Dir, lookup}
use waitlock.Globals.{GlobalState, e_success}
use waitlock.Lock.Acquire.{
  Request, Outcome, returned, waiting, request, acquire_lock, initial_wait_ms,
}
use waitlock.Lock.Acquire.Keeping.{OutcomeLeaves, acquire_loop-Leaves, lookup-release_lock}
use waitlock.Lock.Check.Keeping.{check_lock-keeps}
use waitlock.Lock.Release.{release_lock}
use waitlock.LockFile.{File}
use waitlock.Main.{Mode}
use waitlock.Main.Program.{
  Outside, ended, with_descriptor, directory, path_of, acquire, run_mode, after_exec,
}
use waitlock.Main.Program.Stays.{left, IsUntouched, PathsFit, Stays, wait-Stays}
use waitlock.Main.Run.{Ending, lock_and_wait}
use waitlock.Process.Exec.{exec_with_lock, exec_fork, finish}
use waitlock.Process.Exec.Ending.{exec_with_lock_releases}
use waitlock.Text.{Str}

module _ (o : Outside) (s : Settings) (name : Str) (file : File) (is : IsUntouched o name file)
    (dir : Dir) (found : lookup name dir ≡ some file) (fits : PathsFit o s) where
  acquire-Leaves :
      (lock_dir d : Str)
      → OutcomeLeaves
          (request lock_dir o.host d (pos_part s.max_holders) s.timeout o.start)
          name
          file
          (acquire_lock
            (some lock_dir)
            o.host
            d
            (pos_part s.max_holders)
            s.timeout
            o.start
            o.rounds
            dir
            s.globals)
  unfolding acquire_lock
  acquire-Leaves lock_dir d =
      acquire_loop-Leaves (request lock_dir o.host d (pos_part s.max_holders) s.timeout o.start)
        o.rounds initial_wait_ms dir s.globals name file is.rounds found

  lock-Stays :
      (lock_dir d : Str) (outcome : Outcome)
      → OutcomeLeaves
          (request lock_dir o.host d (pos_part s.max_holders) s.timeout o.start)
          name
          file
          outcome
      → directory o s ≡ some lock_dir
      → s.descriptor ≡ some d
      → Stays name file dir (ended (lock_and_wait lock_dir o.caught outcome))
  unfolding lock_and_wait request
  lock-Stays lock_dir d (waiting wait_ms d') kept a b = kept
  lock-Stays lock_dir d (returned code d' g) kept a b = elim (Bool-cases (code == e_success)) [
    | inr failed ↦ rw failed kept.found
    | inl got ↦
        let q = request lock_dir o.host d (pos_part s.max_holders) s.timeout o.start in
        let other = kept.path ((==_iff code e_success).0 got) in
        let released = lookup-release_lock q name d' g other (fits lock_dir d a b) ∙ kept.found in
        rw got (wait-Stays lock_dir name file d' kept.found o.caught g released)
  ]

  -- With the lock held, the command runs and the lock is released.
  command-Stays :
      (q : Request) (d' : Dir) (g : GlobalState) (fork : Option ℤ)
      → o.forked ≡ fork
      → lookup name d' ≡ some file
      → ((d : Dir) → lookup name (release_lock q.lock_dir d g).0 ≡ lookup name d)
      → lookup name (exec_fork q.lock_dir o.others fork o.child d' g).entries ≡ some file
  command-Stays q d' g none e kept released = unfold exec_fork finish in released d' ∙ kept
  command-Stays q d' g (some pid) e kept released =
      let ends =
        exec_with_lock_releases q.lock_dir o.others pid o.child d' g
          (exec_fork q.lock_dir o.others (some pid) o.child d' g) (is.forked pid e)
          (unfold exec_with_lock in refl) in
      ap (λ (d : Dir). lookup name d) ends.0 ∙ (released (o.others d') ∙ is.others d' kept)

  exec-Stays :
      (lock_dir d : Str) (outcome : Outcome)
      → OutcomeLeaves
          (request lock_dir o.host d (pos_part s.max_holders) s.timeout o.start)
          name
          file
          outcome
      → directory o s ≡ some lock_dir
      → s.descriptor ≡ some d
      → Stays name file dir
          (ended (after_exec outcome (exec_with_lock lock_dir o.others o.forked o.child outcome)))
  unfolding exec_with_lock request
  exec-Stays lock_dir d (waiting wait_ms d') kept a b = kept
  exec-Stays lock_dir d (returned code d' g) kept a b = elim (Bool-cases (code == e_success)) [
    | inr failed ↦ rw failed kept.found
    | inl got ↦
        let q = request lock_dir o.host d (pos_part s.max_holders) s.timeout o.start in
        let other = kept.path ((==_iff code e_success).0 got) in
        rw got (
          command-Stays q d' g o.forked refl kept.found
            (λ x. lookup-release_lock q name x g other (fits lock_dir d a b)))
  ]

  -- The modes that take the lock, with the directory that was looked for.
  locking-Stays :
      (d : Str) (l : Option Str)
      → directory o s ≡ l
      → s.descriptor ≡ some d
      → Stays name file dir (
          ended (
            lock_and_wait (path_of l) o.caught (
              acquire_lock l o.host d
                (pos_part s.max_holders)
                s.timeout
                o.start
                o.rounds
                dir
                s.globals)))
  locking-Stays d none a b = unfold acquire_lock lock_and_wait in found
  locking-Stays d (some lock_dir) a b = lock-Stays lock_dir d _ (acquire-Leaves lock_dir d) a b

  abbrev ending : Option Str → Outcome → Ending
  ending l outcome =
      after_exec outcome (exec_with_lock (path_of l) o.others o.forked o.child outcome)

  executing-Stays :
      (d : Str) (l : Option Str)
      → directory o s ≡ l
      → s.descriptor ≡ some d
      → Stays name file dir (
          ended (
            ending l (
              acquire_lock l o.host d
                (pos_part s.max_holders)
                s.timeout
                o.start
                o.rounds
                dir
                s.globals)))
  executing-Stays d none a b = unfold acquire_lock exec_with_lock in found
  executing-Stays d (some lock_dir) a b = exec-Stays lock_dir d _ (acquire-Leaves lock_dir d) a b

-- A descriptor is there, or nothing happens.
with_descriptor-Stays :
    (name : Str) (file : File) (dir : Dir) (f : Str → Ending) (d : Option Str)
    → lookup name dir ≡ some file
    → ((c : Str) → d ≡ some c → Stays name file dir (ended (f c)))
    → Stays name file dir (with_descriptor f d)
with_descriptor-Stays name file dir f none found h = found
with_descriptor-Stays name file dir f (some c) found h = h c refl

-- In every mode but the end of locks and the unit tests, if the paths of the lock's slots fit their
-- buffer, the program leaves the lock file of another process that lives all the while where it is
-- and as it is, also when it cannot get its own lock, is ended by a signal, or is still waiting; what
-- is assumed of the others is that they do not remove the file.
pub run_mode-keeps :
    (o : Outside) (s : Settings) (name : Str) (file : File) (dir : Dir) (m : Mode)
    → IsUntouched o name file
    → PathsFit o s
    → m ≢ Mode.tests
    → m ≢ Mode.ending
    → lookup name dir ≡ some file
    → lookup name (left dir (run_mode o s dir m)) ≡ some file
unfolding run_mode acquire
run_mode-keeps o s name file dir Mode.tests is fits t e found = absurd (t refl)
run_mode-keeps o s name file dir Mode.ending is fits t e found = absurd (e refl)
run_mode-keeps o s name file dir Mode.listing is fits t e found = found
run_mode-keeps o s name file dir Mode.checking is fits t e found =
    with_descriptor-Stays name file dir _ s.descriptor found
      (λ d named. check_lock-keeps (directory o s) o.opened o.probe d name file dir found is.holder)
run_mode-keeps o s name file dir Mode.executing is fits t e found =
    with_descriptor-Stays name file dir _ s.descriptor found
      (λ d named. executing-Stays o s name file is dir found fits d (directory o s) refl named)
run_mode-keeps o s name file dir Mode.locking is fits t e found =
    with_descriptor-Stays name file dir _ s.descriptor found
      (λ d named. locking-Stays o s name file is dir found fits d (directory o s) refl named)
