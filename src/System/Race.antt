-- ===== src/System/Race.antt =====
-- A stale lock and two processes that remove it: the check of the file and its `unlink` are two calls.
use mathlib.Core.Path.{subst}
use waitlock.Base.{ℕ, ◌<◌, ◌≡◌, refl, sym, ◌∙◌, false, [], ◌∷◌, none, some, ◌==◌, ==_refl, arith}
use waitlock.Base.Int.{pos}
use waitlock.Directory.{Dir, lookup, exists_in, remove, slot_name}
use waitlock.Directory.Entries.{lookup-remove}
use waitlock.Lock.{Holder, holder_of}
use waitlock.Lock.Claim.Laws.{claims-slot_name}
use waitlock.LockFile.{File}
use waitlock.System.{
  Setup, Point, idle, scanning, unlinking, claiming, created, holding, seen, after_look, look, Move,
  State, put, pick, Reach, here, next, start,
}
use waitlock.Text.{Str}
use waitlock.Text.Laws.{str_eq_refl}

put_same : (f : ℕ → Point) (i : ℕ) (p : Point) → put f i p i ≡ p
put_same f i p = rw (==_refl i) refl

-- One call of a process whose point is known.
call :
    {u : Setup} {a s : State} {p p' : Point} {dir' : Dir}
    → Reach u a s
    → (i : ℕ) → s.at i ≡ p
    → Move u i s.dir p dir' p'
    → Reach u a (record { dir = dir'; at = put s.at i p' })
call {u} {a} {s} {p} {p'} {dir'} r i e mv =
    next r (pick i (subst (λ (q : Point). Move u i s.dir q dir' p') (sym e) mv))

-- A process that has scanned, and found the first slot free, gets it.
record Got (u : Setup) (a s : State) (i : ℕ) : Type 0 where
  last : State
  reach : Reach u a last
  mine : last.at i ≡ holding 0
  others : (j : ℕ) → (i == j) ≡ false → last.at j ≡ s.at j

abbrev first : Setup → Str
first u = slot_name u.descriptor 0

gets :
    {u : Setup} {a s : State}
    → 0 < u.max_holders
    → Reach u a s
    → (i : ℕ) → s.at i ≡ scanning [] 0
    → exists_in (first u) s.dir ≡ false
    → Got u a s i
unfolding lookup
gets {u} {a} {s} lt r i e absent = record {
  last = _;
  reach =
      call
        (call (call r i e (Move.room lt)) i (put_same s.at i (claiming 0)) (Move.create lt absent))
        i (put_same (put s.at i (claiming 0)) i (created 0))
        (Move.write {slot = 0} (pos 0) (omega arith) (rw (str_eq_refl (first u)) refl));
  mine = put_same (put (put s.at i (claiming 0)) i (created 0)) i (holding 0);
  others = λ j h. rw (h) refl;
}

-- The first slot's name, whose file is stale, is looked at.
pub look-unlinking :
    (u : Setup) (file : File) (dir : Dir)
    → lookup (first u) dir ≡ some file
    → holder_of u.probe file ≡ Holder.stale
    → look u dir (first u) [] 0 ≡ unlinking (first u) [] 0
unfolding look seen after_look
look-unlinking u file dir found stale = rw (claims-slot_name u.descriptor 0, found, stale) refl

pub absent-remove : (name : Str) (dir : Dir) → exists_in name (remove name dir) ≡ false
absent-remove name dir =
    let gone : lookup name (remove name dir) ≡ none =
      lookup-remove name name dir ∙ rw (str_eq_refl name) refl in
    ground arith

looks :
    {u : Setup} {a s : State} (file : File)
    → Reach u a s
    → lookup (first u) s.dir ≡ some file
    → holder_of u.probe file ≡ Holder.stale
    → (i : ℕ) → s.at i ≡ idle
    → Reach u a (record {
      dir = s.dir;
      at = put (put s.at i (scanning (first u ∷ []) 0)) i (unlinking (first u) [] 0);
    })
looks {u} {a} {s} file r found stale i e =
    call (call r i e (Move.open_dir (first u ∷ []))) i (put_same s.at i (scanning (first u ∷ []) 0))
      (subst (λ (q : Point). Move u i s.dir (scanning (first u ∷ []) 0) s.dir q)
        (look-unlinking u file s.dir found stale) Move.look_at)

-- For every descriptor and limit, from a directory with the file of a stale lock in the first slot,
-- calls of two processes lead to a state in which both hold that slot: the first has seen the stale
-- file, the second removes it and writes its own, and the first then removes that one.
pub both_hold :
    (u : Setup) (file : File)
    → 0 < u.max_holders
    → holder_of u.probe file ≡ Holder.stale
    → (s : State) × Reach u (start ((slot_name u.descriptor 0, file) ∷ [])) s
      × (s.at 0 ≡ holding 0)
      × (s.at 1 ≡ holding 0)
unfolding lookup
both_hold u file lt stale =
    let found : lookup (first u) ((first u, file) ∷ []) ≡ some file =
      rw (str_eq_refl (first u)) refl in
    let both = looks file (looks file here found stale 0 refl) found stale 1 refl in
    let second = gets lt (call both 1 refl Move.unlink_stale) 1 refl (absent-remove (first u) _) in
    let first_one =
      gets lt (call second.reach 0 (second.others 0 refl) Move.unlink_stale) 0 refl
        (absent-remove (first u) _) in
    (first_one.last, first_one.reach, first_one.mine, first_one.others 1 refl ∙ second.mine)
