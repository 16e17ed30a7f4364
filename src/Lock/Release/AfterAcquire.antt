-- ===== src/Lock/Release/AfterAcquire.antt =====
-- `release_lock` undoes `acquire_lock`.
use mathlib.Core.List.{append_assoc}
use waitlock.Base.{
  ℕ, ◌-◌, ◌<◌, ◌≡◌, refl, ap, ◌∙◌, true, false, [], ◌∷◌, ◌++◌, Option, none, some, arith, length,
  take_all, drop-append,
}
use waitlock.Base.Int.{is_neg}
use waitlock.Directory.{Dir, lookup, remove, exists_in, slot_name}
use waitlock.Directory.Entries.{remove_absent}
use waitlock.Directory.Search.{path_max}
use waitlock.Globals.{GlobalState, e_success}
use waitlock.Lock.Acquire.{Request, Round, return, acquire_pass, cleaned, held, slot_path}
use waitlock.Lock.Acquire.Safety.{acquire_pass-Success}
use waitlock.Lock.Release.{entry_of, unlink_path, unlink_lock_path, close_lock_fd, release_lock}
use waitlock.LockFile.{File}
use waitlock.Text.{Str, truncate}
use waitlock.Text.Laws.{starts_with-append, str_eq_refl}

-- The path of an entry names it.
pub entry_of-path : (lock_dir name : Str) → entry_of lock_dir (lock_dir ++ b'/' ∷ name) ≡ some name
unfolding entry_of
entry_of-path lock_dir name =
    rw (← append_assoc lock_dir (b'/' ∷ []) name, starts_with-append (lock_dir ++ b'/' ∷ []) name)
      (ap some (drop-append _ (lock_dir ++ b'/' ∷ []) name refl))

pub unlink_lock_path-path :
    (lock_dir : Str) (g : GlobalState) (path a b : Str) (dir : Dir)
    → path ≡ a ++ b'/' ∷ b
    → unlink_lock_path lock_dir g path dir
      ≡ (unlink_path lock_dir path dir, record g { lock_path = [] })
unfolding unlink_lock_path
unlink_lock_path-path lock_dir g [] [] b dir h = cc
unlink_lock_path-path lock_dir g [] (c ∷ a) b dir h = cc
unlink_lock_path-path lock_dir g (c ∷ path) a b dir h = refl

remove-cons :
    (name : Str) (file : File) (dir : Dir)
    → exists_in name dir ≡ false
    → remove name ((name, file) ∷ dir) ≡ dir
unfolding remove
remove-cons name file dir h =
    rw (str_eq_refl name) (remove_absent name dir (absent (lookup name dir) refl))
  where
    absent : (o : Option File) → lookup name dir ≡ o → lookup name dir ≡ none
    absent none e = e
    absent (some f) e = cc (rw (e, exists_in) at h)

close_lock_fd_closes : (g : GlobalState) → is_neg (close_lock_fd g).lock_fd ≡ true
unfolding close_lock_fd
close_lock_fd_closes g = ground arith

-- Releasing the lock whose file was just added.
release_added :
    (lock_dir name : Str) (file : File) (dir : Dir) (g : GlobalState)
    → g.lock_path ≡ lock_dir ++ b'/' ∷ name
    → exists_in name dir ≡ false
    → release_lock lock_dir ((name, file) ∷ dir) g
      ≡ (dir, record (close_lock_fd g) { lock_path = [] })
unfolding release_lock
release_added lock_dir name file dir g path absent =
    unlink_lock_path-path lock_dir (close_lock_fd g) g.lock_path lock_dir name _ path
    ∙ ap (λ (x : Dir). (x, record (close_lock_fd g) { lock_path = [] })) unlinked
  where
    unlinked : unlink_path lock_dir g.lock_path ((name, file) ∷ dir) ≡ dir
    unlinked =
        unfold unlink_path in
        rw (path, entry_of-path lock_dir name, unlink_path) (remove-cons name file dir absent)

pub slot_path_whole :
    (lock_dir d : Str) (slot : ℕ)
    → length (lock_dir ++ b'/' ∷ slot_name d slot) < path_max
    → slot_path lock_dir d slot ≡ lock_dir ++ b'/' ∷ slot_name d slot
unfolding slot_path truncate
slot_path_whole lock_dir d slot h = take_all (path_max - 1) _ (omega arith)

-- If the paths of the slots' files fit their buffer, then releasing what a pass acquired gives back
-- the entries that the scan had left, and `g_state` with no lock path and no open descriptor.
pub release_lock-acquire_pass :
    (q : Request) (r : Round) (dir dir' : Dir) (g g' : GlobalState)
    → acquire_pass q r dir g ≡ return e_success dir' g'
    → ((slot : ℕ)
        → slot < q.max_holders
        → length (q.lock_dir ++ b'/' ∷ slot_name q.descriptor slot) < path_max)
    → ((release_lock q.lock_dir dir' g').0 ≡ (cleaned q r dir).1)
      × ((release_lock q.lock_dir dir' g').1.lock_path ≡ [])
      × (is_neg (release_lock q.lock_dir dir' g').1.lock_fd ≡ true)
release_lock-acquire_pass q r dir dir' g g' h fits =
    let s = acquire_pass-Success q r dir g h in
    let path : g'.lock_path ≡ q.lock_dir ++ b'/' ∷ slot_name q.descriptor s.slot =
      ap (λ (x : GlobalState). x.lock_path) s.state
      ∙ (unfold held in slot_path_whole q.lock_dir q.descriptor s.slot (fits s.slot s.in_range)) in
    let done : release_lock q.lock_dir dir' g'
        ≡ ((cleaned q r dir).1, record (close_lock_fd g') { lock_path = [] }) =
      ap (λ (x : Dir). release_lock q.lock_dir x g') s.entries
      ∙ release_added q.lock_dir (slot_name q.descriptor s.slot) _ (cleaned q r dir).1 g' path
          s.absent in
    rw done (refl, refl, close_lock_fd_closes g')
