-- ===== src/System/Exclusion.antt =====
-- No two processes hold a slot, as long as no lock of a dead process is in the directory.
use mathlib.Core.Path.{subst}
use waitlock.Base.{ℕ, suc, ◌<◌, ◌≡◌, refl, ap, ◌∙◌, true, [], some, arith}
use waitlock.Directory.{Dir, lookup, slot_name}
use waitlock.Lock.{Holder, holder_of}
use waitlock.Lock.Claim.{slot_file}
use waitlock.Lock.Claim.Laws.{holder_of-slot_file}
use waitlock.LockFile.{File}
use waitlock.System.{
  Setup, Point, scanning, claiming, created, undoing, holding, clock, Move, State, put, slot_of,
  pick, Reach, here, next, start,
}
use waitlock.System.Calls.{look-scanning, still, removed, made, wrote}
use waitlock.System.Safe.{IsSetup, IsClean, Owned, IsSafe, is_unlinking, moved-IsSafe}

module _ (u : Setup) (setup : IsSetup u) (s : State) (safe : IsSafe u s) (i : ℕ) where
  -- Every call keeps the invariant.
  Move-IsSafe :
      {p p' : Point} {dir' : Dir}
      → s.at i ≡ p
      → Move u i s.dir p dir' p'
      → IsSafe u (record { dir = dir'; at = put s.at i p' })
  Move-IsSafe e (Move.open_dir names) = still u s safe i (scanning names 0) tt refl refl
  Move-IsSafe e Move.no_dir = still u s safe i (scanning [] 0) tt refl refl
  Move-IsSafe e (Move.look_at {name} {names} {n}) =
      let f = look-scanning u s.dir name names n safe.clean in
      rw (f.1) (still u s safe i (scanning names f.0) tt refl refl)
  Move-IsSafe e (Move.unlink_stale {name} {names} {n}) =
      let q = safe.no_unlink i in
      let b : is_unlinking (s.at i) ≡ true = ap is_unlinking e in absurd (ground arith)
  Move-IsSafe e (Move.full h) = still u s safe i Point.idle tt refl refl
  Move-IsSafe e (Move.room h) = still u s safe i (claiming 0) tt refl refl
  Move-IsSafe e (Move.taken {slot} h) = still u s safe i (claiming (suc slot)) tt refl refl
  Move-IsSafe e (Move.create {slot} lt absent) = made u s safe i slot lt absent
  Move-IsSafe e (Move.no_slot h) = still u s safe i Point.idle tt refl refl
  Move-IsSafe e (Move.write {slot} t fits old) =
      let own : Owned u s.dir (created slot) = subst (Owned u s.dir) e (safe.owned i) in
      wrote u s safe i slot (slot_file (clock t) (u.info i) slot) (ap slot_of e) own.0 old (
        holder_of-slot_file u.probe (clock t) (u.info i) slot (setup.valid i) (setup.marked i) fits
          (setup.lives i))
  Move-IsSafe e (Move.no_write {slot}) =
      let own : Owned u s.dir (created slot) = subst (Owned u s.dir) e (safe.owned i) in
      moved-IsSafe u s safe i s.dir (undoing slot) (λ j y ne h. refl)
        (λ j x ne h g. let ij = safe.unique i j x (ap slot_of e ∙ h) g in absurd (ground arith)) own
        safe.clean refl
  Move-IsSafe e (Move.undo {slot}) =
      removed u s safe i slot (claiming (suc slot)) (ap slot_of e) tt refl refl
  Move-IsSafe e (Move.release {slot}) =
      removed u s safe i slot Point.idle (ap slot_of e) tt refl refl

start-IsSafe : (u : Setup) (dir : Dir) → IsClean u dir → IsSafe u (start dir)
start-IsSafe u dir clean = record {
  owned = λ i. tt;
  unique = λ i j x h g. absurd (ground arith);
  clean = clean;
  no_unlink = λ i. refl;
}

pub Reach-IsSafe :
    {u : Setup} {dir : Dir} {s : State}
    → IsSetup u
    → IsClean u dir
    → Reach u (start dir) s
    → IsSafe u s
Reach-IsSafe {u} {dir} setup clean here = start-IsSafe u dir clean
Reach-IsSafe {u} setup clean (next {t} r (pick i mv)) =
    Move-IsSafe u setup t (Reach-IsSafe setup clean r) i refl mv

-- If all processes live and their structs fit the C types and carry the magic number, then in every
-- order of the calls of any number of them, from a directory with no lock of a dead process, two
-- processes never hold the same slot; a held slot is below `max_holders`, and its file is in the
-- directory and is an active lock for all.
pub slot_exclusion :
    {u : Setup} {dir : Dir} {s : State}
    → IsSetup u
    → IsClean u dir
    → Reach u (start dir) s
    → (i x : ℕ) → s.at i ≡ holding x
    → (x < u.max_holders)
      × ((f : File) × (lookup (slot_name u.descriptor x) s.dir ≡ some f)
          × (holder_of u.probe f ≡ Holder.active))
      × ((j : ℕ) → s.at j ≡ holding x → i ≡ j)
slot_exclusion {u} {dir} {s} setup clean r i x e =
    let safe = Reach-IsSafe setup clean r in
    let own : Owned u s.dir (holding x) = subst (Owned u s.dir) e (safe.owned i) in
    (own.0, own.1, λ j g. safe.unique i j x (ap slot_of e) (ap slot_of g))
