-- ===== src/System/Semaphore.antt =====
-- The abstract semaphore that the processes implement: slots that are taken and given back.
use waitlock.Base.{
  ℕ, ◌<◌, ◌≡◌, ◌≢◌, refl, sym, ap, ◌∙◌, Bool, true, false, Option, none, some, Bool-cases, inl, inr,
  ◌==◌, ==_iff, if◌then◌else◌, arith,
}
use waitlock.Directory.{Dir}
use waitlock.System.{Setup, Point, created, Move, State, put, slot_of, Step, pick, Reach, start}
use waitlock.System.Calls.{Owned-there, look-scanning}
use waitlock.System.Exclusion.{Reach-IsSafe}
use waitlock.System.Safe.{IsSetup, IsClean, IsSafe}

-- Which slot each process has, of the `limit` there are.
abbrev pub Holders : Type 0
Holders = ℕ → Option ℕ

-- Nothing changes; a process takes a slot that nobody has; a process gives its slot back.
pub data Permits (limit : ℕ) (h h' : Holders) : Type 0 where
  stay : ((j : ℕ) → h' j ≡ h j) → Permits limit h h'
  take :
      (i x : ℕ)
      → h i ≡ none
      → x < limit
      → ((j : ℕ) → h j ≢ some x)
      → ((j : ℕ) → h' j ≡ (if i == j then some x else h j))
      → Permits limit h h'
  give :
      (i x : ℕ)
      → h i ≡ some x
      → ((j : ℕ) → h' j ≡ (if i == j then none else h j))
      → Permits limit h h'

-- What the semaphore sees of a state.
abbrev pub holders : State → Holders
holders s j = slot_of (s.at j)

slot_of-if :
    (b : Bool) (p q : Point) → slot_of (if b then p else q) ≡ (if b then slot_of p else slot_of q)
slot_of-if true p q = refl
slot_of-if false p q = refl

-- A process whose slot does not change.
same_slot :
    (s : State) (i : ℕ) (p : Point)
    → slot_of p ≡ slot_of (s.at i)
    → (j : ℕ) → slot_of (put s.at i p j) ≡ slot_of (s.at j)
same_slot s i p h j = elim (Bool-cases (i == j)) [
  | inl e ↦ let ij = (==_iff i j).0 e in rw (e, sym ij) h
  | inr e ↦ rw (e) refl
]

module _ (u : Setup) (s : State) (safe : IsSafe u s) (i : ℕ) where
  Move-Permits :
      {p p' : Point} {dir' : Dir}
      → s.at i ≡ p
      → Move u i s.dir p dir' p'
      → Permits u.max_holders (holders s) (holders (record { dir = dir'; at = put s.at i p' }))
  Move-Permits e (Move.open_dir names) = stay (same_slot s i _ (sym (ap slot_of e)))
  Move-Permits e Move.no_dir = stay (same_slot s i _ (sym (ap slot_of e)))
  Move-Permits e (Move.look_at {name} {names} {n}) =
      let f = look-scanning u s.dir name names n safe.clean in
      stay (same_slot s i _ (ap slot_of f.1 ∙ sym (ap slot_of e)))
  Move-Permits e Move.unlink_stale = stay (same_slot s i _ (sym (ap slot_of e)))
  Move-Permits e (Move.full h) = stay (same_slot s i _ (sym (ap slot_of e)))
  Move-Permits e (Move.room h) = stay (same_slot s i _ (sym (ap slot_of e)))
  Move-Permits e (Move.taken h) = stay (same_slot s i _ (sym (ap slot_of e)))
  Move-Permits e (Move.create {slot} lt absent) =
      take i slot (ap slot_of e) lt
        (λ j h.
          let there = Owned-there u s.dir (s.at j) slot (safe.owned j) h in absurd (ground arith))
        (λ j. slot_of-if (i == j) (created slot) (s.at j))
  Move-Permits e (Move.no_slot h) = stay (same_slot s i _ (sym (ap slot_of e)))
  Move-Permits e (Move.write {slot} t fits old) = stay (same_slot s i _ (sym (ap slot_of e)))
  Move-Permits e Move.no_write = stay (same_slot s i _ (sym (ap slot_of e)))
  Move-Permits e (Move.undo {slot}) =
      give i slot (ap slot_of e) (λ j. slot_of-if (i == j) _ (s.at j))
  Move-Permits e (Move.release {slot}) =
      give i slot (ap slot_of e) (λ j. slot_of-if (i == j) _ (s.at j))

-- If all processes live and their structs fit the C types and carry the magic number, then every call
-- of every process, in any state that calls lead to from a directory with no lock of a dead process,
-- is a step of the abstract semaphore of `max_holders` slots: the processes' slots do not change, or a
-- process takes a slot that no other has, or it gives its slot back.
pub Step-Permits :
    {u : Setup} {dir : Dir} {s t : State}
    → IsSetup u
    → IsClean u dir
    → Reach u (start dir) s
    → Step u s t
    → Permits u.max_holders (holders s) (holders t)
Step-Permits {u} {dir} {s} setup clean r (pick i mv) =
    Move-Permits u s (Reach-IsSafe setup clean r) i refl mv
