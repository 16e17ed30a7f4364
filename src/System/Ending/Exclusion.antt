-- ===== src/System/Ending/Exclusion.antt =====
-- Exclusion where processes end: only an `unlink` that comes too late can break it.
use mathlib.Core.Path.{subst}
use waitlock.Base.{ℕ, suc, ◌<◌, ◌≡◌, refl, ap, ◌∙◌, false, [], some, arith}
use waitlock.Directory.{Dir, lookup, slot_name}
use waitlock.Lock.{Holder, holder_of}
use waitlock.LockFile.{File}
use waitlock.System.{Point, scanning, claiming, created, undoing, holding, put, slot_of, Move, look}
use waitlock.System.Ending.{
  World, IsWorld, State, Timely, now, Step, call, quit, Reach, here, next, start,
}
use waitlock.System.Ending.Calls.{look-idle, apart, still, removed, stale-apart, made, wrote}
use waitlock.System.Ending.Kept.{Mine, IsKept, holding-active, moved-IsKept, quit-IsKept}

module _ (w : World) (is : IsWorld w) (s : State) (kept : IsKept w s) (i : ℕ) (r : i < w.count)
    (runs : s.gone i ≡ false) where
  Move-IsKept :
      {p p' : Point} {dir' : Dir}
      → s.at i ≡ p
      → Timely (now w s.gone) s.dir p
      → Move (now w s.gone) i s.dir p dir' p'
      → IsKept w (record { dir = dir'; at = put s.at i p'; gone = s.gone })
  Move-IsKept e tm (Move.open_dir names) = still w is s kept i r runs (scanning names 0) tt refl
  Move-IsKept e tm Move.no_dir = still w is s kept i r runs (scanning [] 0) tt refl
  Move-IsKept e tm (Move.look_at {name} {names} {n}) =
      let f = look-idle w (now w s.gone) s.dir s.dir i name names n in
      still w is s kept i r runs (look (now w s.gone) s.dir name names n) f.0 f.1
  Move-IsKept e tm (Move.unlink_stale {name} {names} {n}) =
      removed w is s kept i r runs name (scanning names n)
        (λ j y ne live h. stale-apart w is s kept i r runs name tm j y live h) tt refl
  Move-IsKept e tm (Move.full h) = still w is s kept i r runs Point.idle tt refl
  Move-IsKept e tm (Move.room h) = still w is s kept i r runs (claiming 0) tt refl
  Move-IsKept e tm (Move.taken {slot} h) = still w is s kept i r runs (claiming (suc slot)) tt refl
  Move-IsKept e tm (Move.create {slot} lt absent) = made w is s kept i r runs slot lt absent
  Move-IsKept e tm (Move.no_slot h) = still w is s kept i r runs Point.idle tt refl
  Move-IsKept e tm (Move.write {slot} t fits old) =
      let own : Mine w s.dir i (created slot) = subst (Mine w s.dir i) e (kept.mine i runs) in
      wrote w is s kept i r runs slot t fits (ap slot_of e) own.1 old
  Move-IsKept e tm (Move.no_write {slot}) =
      let own : Mine w s.dir i (created slot) = subst (Mine w s.dir i) e (kept.mine i runs) in
      moved-IsKept w s kept i s.dir (undoing slot) (λ j y ne live h. refl)
        (λ j x ne live h g.
          let ij = kept.unique i j x runs live (ap slot_of e ∙ h) g in absurd (ground arith))
        own
  Move-IsKept e tm (Move.undo {slot}) =
      removed w is s kept i r runs (slot_name w.setup.descriptor slot) (claiming (suc slot))
        (λ j y ne live h. apart w is s kept i r runs j slot y ne live (ap slot_of e) h) tt refl
  Move-IsKept e tm (Move.release {slot}) =
      removed w is s kept i r runs (slot_name w.setup.descriptor slot) Point.idle
        (λ j y ne live h. apart w is s kept i r runs j slot y ne live (ap slot_of e) h) tt refl

pub start-IsKept : (w : World) (dir : Dir) → IsKept w (start dir)
start-IsKept w dir = record { mine = λ i runs. tt; unique = λ i j x a b h g. absurd (ground arith) }

pub Step-IsKept : {w : World} {s t : State} → IsWorld w → IsKept w s → Step w s t → IsKept w t
Step-IsKept {w} {s} is kept (call i r runs tm mv) = Move-IsKept w is s kept i r runs refl tm mv
Step-IsKept {w} {s} is kept (quit i r runs) = quit-IsKept w s i kept

Reach-IsKept : {w : World} {dir : Dir} {s : State} → IsWorld w → Reach w (start dir) s → IsKept w s
Reach-IsKept {w} {dir} is here = start-IsKept w dir
Reach-IsKept is (next before step) = Step-IsKept is (Reach-IsKept is before) step

-- What the invariant says of a slot that is held.
pub kept-exclusion :
    {w : World} {s : State}
    → IsWorld w
    → IsKept w s
    → (i x : ℕ) → s.gone i ≡ false
    → s.at i ≡ holding x
    → (x < w.setup.max_holders)
      × ((f : File) × (lookup (slot_name w.setup.descriptor x) s.dir ≡ some f)
          × (holder_of (w.answers s.gone) f ≡ Holder.active))
      × ((j : ℕ) → s.gone j ≡ false → s.at j ≡ holding x → i ≡ j)
kept-exclusion {w} {s} is kept i x runs e =
    let own : Mine w s.dir i (holding x) = subst (Mine w s.dir i) e (kept.mine i runs) in
    (
      own.1,
      (_, own.2.2, holding-active w s.gone i x own.2.0 is own.0 runs own.2.1),
      λ j live g. kept.unique i j x runs live (ap slot_of e) (ap slot_of g),
    )

-- If the processes' structs fit the C types and carry the magic number, and exactly the processes that
-- have not ended exist, then from any directory, in every order of the calls of the processes, each of
-- which may end between any two of its calls, as long as every file that is unlinked as stale is
-- still stale at that moment: two running processes never hold the same slot, and a slot that a
-- running process holds is below `max_holders` and its file is in the directory and is an active lock.
pub timely_exclusion :
    {w : World} {dir : Dir} {s : State}
    → IsWorld w
    → Reach w (start dir) s
    → (i x : ℕ) → s.gone i ≡ false
    → s.at i ≡ holding x
    → (x < w.setup.max_holders)
      × ((f : File) × (lookup (slot_name w.setup.descriptor x) s.dir ≡ some f)
          × (holder_of (w.answers s.gone) f ≡ Holder.active))
      × ((j : ℕ) → s.gone j ≡ false → s.at j ≡ holding x → i ≡ j)
timely_exclusion is reach i x runs e = kept-exclusion is (Reach-IsKept is reach) i x runs e
