-- ===== src/Lock/Acquire/Keeping.antt =====
-- The whole of `acquire_lock` keeps the locks of others, and so does the `release_lock` after it.
use waitlock.Base.{
  ℕ, ◌<◌, ◌≡◌, ◌≢◌, refl, ap, ◌∙◌, false, List, [], ◌∷◌, some, ◌++◌, length, All, Bool-cases, inl,
  inr, arith,
}
use waitlock.Directory.{Dir, lookup, remove, slot_name}
use waitlock.Directory.Entries.{lookup-remove}
use waitlock.Directory.Search.{path_max}
use waitlock.Globals.{GlobalState, e_success}
use waitlock.Lock.Acquire.{
  Request, Round, Pass, return, again, Outcome, returned, waiting, next_wait, slot_path,
  acquire_pass, acquire_loop, held, cleaned,
}
use waitlock.Lock.Acquire.Safety.{Keeps, acquire_pass-Keeps, acquire_pass-Success, lookup-cleaned}
use waitlock.Lock.Release.{release_lock, unlink_path, close_lock_fd}
use waitlock.Lock.Release.AfterAcquire.{slot_path_whole, entry_of-path, unlink_lock_path-path}
use waitlock.Lock.{Holder, holder_of}
use waitlock.LockFile.{File}
use waitlock.Text.{Str, str_eq}
use waitlock.Text.Laws.{str_eq_sound}

-- While a pass runs, the holder of the file does not look dead, and what others do between two passes
-- leaves the file.
pub record LetsBe (name : Str) (file : File) (r : Round) : Type 0 where
  pub holder : holder_of r.probe file ≢ Holder.stale
  pub others : (dir : Dir) → lookup name dir ≡ some file → lookup name (r.others dir) ≡ some file

-- A lock was acquired whose path is that of another file.
pub record OtherPath (q : Request) (name : Str) (g : GlobalState) : Type 0 where
  pub slot : ℕ
  pub in_range : slot < q.max_holders
  pub path : g.lock_path ≡ slot_path q.lock_dir q.descriptor slot
  pub differs : str_eq (slot_name q.descriptor slot) name ≡ false

pub record Leaves (q : Request) (name : Str) (file : File) (code : ℕ) (dir : Dir) (g : GlobalState)
    : Type 0 where
  pub found : lookup name dir ≡ some file
  pub path : code ≡ e_success → OtherPath q name g

abbrev pub OutcomeLeaves : Request → Str → File → Outcome → Type 0
OutcomeLeaves q name file (waiting wait_ms dir) = lookup name dir ≡ some file
OutcomeLeaves q name file (returned code dir g) = Leaves q name file code dir g

pass-OtherPath :
    (q : Request) (r : Round) (dir dir' : Dir) (g g' : GlobalState) (name : Str) (file : File)
    → lookup name dir ≡ some file
    → holder_of r.probe file ≢ Holder.stale
    → acquire_pass q r dir g ≡ return e_success dir' g'
    → OtherPath q name g'
pass-OtherPath q r dir dir' g g' name file found alive e =
    let s = acquire_pass-Success q r dir g e in
    let kept = lookup-cleaned q r dir name file found alive in
    record {
      slot = s.slot;
      in_range = s.in_range;
      path = ap (λ (x : GlobalState). x.lock_path) s.state ∙ (unfold held in refl);
      differs = elim (Bool-cases (str_eq (slot_name q.descriptor s.slot) name)) [
        | inr other ↦ other
        | inl hit ↦
            let same = str_eq_sound (slot_name q.descriptor s.slot) name hit in
            let there = ap (λ (z : Str). lookup z (cleaned q r dir).1) same ∙ kept in
            let absent = s.absent in absurd (ground arith)
      ];
    }

pub acquire_loop-Leaves :
    (q : Request) (rs : List Round) (wait_ms : ℕ) (dir : Dir) (g : GlobalState) (name : Str)
    (file : File)
    → All (LetsBe name file) rs
    → lookup name dir ≡ some file
    → OutcomeLeaves q name file (acquire_loop q rs wait_ms dir g)
unfolding acquire_loop
acquire_loop-Leaves q [] wait_ms dir g name file be found = found
acquire_loop-Leaves q (r ∷ rs) wait_ms dir g name file be found =
    go (acquire_pass q r dir g) refl (acquire_pass-Keeps q r dir g name file found be.0.holder)
      λ d here. acquire_loop-Leaves q rs _ d g name file be.1 here
  where
    go :
        (p : Pass)
        → acquire_pass q r dir g ≡ p
        → Keeps r name file p
        → ((d : Dir)
            → lookup name d ≡ some file
            → OutcomeLeaves q name file (acquire_loop q rs (next_wait r.random wait_ms) d g))
        → OutcomeLeaves q name file (acquire_loop q (r ∷ rs) wait_ms dir g)
    go (return code d g') e kept rest =
        rw (e, acquire_loop)
          (record {
            found = kept;
            path = λ success.
                pass-OtherPath q r dir d g g' name file found be.0.holder
                  (e ∙ ap (λ (c : ℕ). return c d g') success);
          })
    go (again d) e (before, here, by_others) rest =
        rw (e, acquire_loop) (rest d (rw by_others (be.0.others before here)))

unlink_path-named :
    (lock_dir path name : Str) (dir : Dir)
    → path ≡ lock_dir ++ b'/' ∷ name
    → unlink_path lock_dir path dir ≡ remove name dir
unfolding unlink_path
unlink_path-named lock_dir path name dir h = rw (h, entry_of-path lock_dir name, unlink_path) refl

-- Releasing a lock leaves the files of other names.
pub lookup-release_lock :
    (q : Request) (name : Str) (dir : Dir) (g : GlobalState)
    → OtherPath q name g
    → ((slot : ℕ)
        → slot < q.max_holders
        → length (q.lock_dir ++ b'/' ∷ slot_name q.descriptor slot) < path_max)
    → lookup name (release_lock q.lock_dir dir g).0 ≡ lookup name dir
unfolding release_lock
lookup-release_lock q name dir g other fits =
    let own = slot_name q.descriptor other.slot in
    let path : g.lock_path ≡ q.lock_dir ++ b'/' ∷ own =
      other.path
      ∙ slot_path_whole q.lock_dir q.descriptor other.slot (fits other.slot other.in_range) in
    ap (λ (x : Dir × GlobalState). lookup name x.0)
      (unlink_lock_path-path q.lock_dir (close_lock_fd g) g.lock_path q.lock_dir own dir path)
    ∙ (ap (λ (d : Dir). lookup name d) (unlink_path-named q.lock_dir g.lock_path own dir path)
        ∙ (lookup-remove own name dir ∙ rw (other.differs) refl))
