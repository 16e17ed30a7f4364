-- ===== src/System/Ending/Calls.antt =====
-- What the kinds of calls of a running process leave to the others that run.
use waitlock.Base.{
  ℕ, ◌<◌, ◌≡◌, refl, ap, ◌∙◌, true, false, List, ◌∷◌, none, some, some_eq, Bool-cases, inl, inr,
  ◌==◌, arith,
}
use waitlock.Base.Int.{ℤ}
use waitlock.Directory.{Dir, lookup, exists_in, remove, slot_name}
use waitlock.Directory.Entries.{lookup-remove}
use waitlock.Lock.{Holder, holder_of, claims}
use waitlock.Lock.Claim.{slot_file}
use waitlock.LockFile.{File}
use waitlock.LockFile.Empty.{empty_file}
use waitlock.System.{
  Setup, Point, created, holding, store, clock, put, slot_of, look, after_look, seen,
}
use waitlock.System.Ending.{World, IsWorld, State}
use waitlock.System.Ending.Kept.{Mine, IsKept, Mine-there, moved-IsKept}
use waitlock.System.Names.{str_eq-slot_name, lookup-store}
use waitlock.Text.{Str, str_eq}
use waitlock.Text.Decimal.{IsInt64}
use waitlock.Text.Laws.{str_eq_refl, str_eq_sound}

-- A look at an entry takes no slot.
pub look-idle :
    (w : World) (u : Setup) (dir dir' : Dir) (i : ℕ) (name : Str) (names : List Str) (n : ℕ)
    → Mine w dir' i (look u dir name names n) × (slot_of (look u dir name names n) ≡ none)
unfolding look
look-idle w u dir dir' i name names n = elim (Bool-cases (claims u.descriptor name)) [
  | inr e ↦ rw e (tt, refl)
  | inl e ↦ rw e (after (seen u.probe (lookup name dir)))
]
  where
    after :
        (h : Holder)
        → Mine w dir' i (after_look name names n h) × (slot_of (after_look name names n h) ≡ none)
    after Holder.active = unfold after_look in (tt, refl)
    after Holder.unknown = unfold after_look in (tt, refl)
    after Holder.stale = unfold after_look in (tt, refl)

module _ (w : World) (is : IsWorld w) (s : State) (kept : IsKept w s) (i : ℕ) (r : i < w.count)
    (runs : s.gone i ≡ false) where
  pub apart :
      (j x y : ℕ)
      → (i == j) ≡ false
      → s.gone j ≡ false
      → slot_of (s.at i) ≡ some x
      → slot_of (s.at j) ≡ some y
      → str_eq (slot_name w.setup.descriptor x) (slot_name w.setup.descriptor y) ≡ false
  apart j x y ne live hi hj =
      elim (Bool-cases (str_eq (slot_name w.setup.descriptor x) (slot_name w.setup.descriptor y))) [
        | inr e ↦ e
        | inl e ↦
            let same = str_eq-slot_name w.setup.descriptor x y e in
            let ij = kept.unique i j y runs live (hi ∙ ap some same) hj in absurd (ground arith)
      ]

  -- Only the point changes, and no slot is taken.
  pub still :
      (p : Point)
      → Mine w s.dir i p
      → slot_of p ≡ none
      → IsKept w (record { dir = s.dir; at = put s.at i p; gone = s.gone })
  still p own no_slot =
      moved-IsKept w s kept i s.dir p (λ j y ne live h. refl)
        (λ j x ne live h g. absurd (ground arith)) own

  -- A name is removed that no other running process has taken.
  pub removed :
      (name : Str) (p : Point)
      → ((j y : ℕ)
          → (i == j) ≡ false
          → s.gone j ≡ false
          → slot_of (s.at j) ≡ some y
          → str_eq name (slot_name w.setup.descriptor y) ≡ false)
      → Mine w (remove name s.dir) i p
      → slot_of p ≡ none
      → IsKept w (record { dir = remove name s.dir; at = put s.at i p; gone = s.gone })
  removed name p other own no_slot =
      moved-IsKept w s kept i (remove name s.dir) p
        (λ j y ne live h.
          rw (lookup-remove name (slot_name w.setup.descriptor y) s.dir, other j y ne live h) refl)
        (λ j x ne live h g. absurd (ground arith)) own

  -- A file that is still stale belongs to no running process.
  pub stale-apart :
      (name : Str)
      → ((f : File) → lookup name s.dir ≡ some f → holder_of (w.answers s.gone) f ≡ Holder.stale)
      → (j y : ℕ) → s.gone j ≡ false
      → slot_of (s.at j) ≡ some y
      → str_eq name (slot_name w.setup.descriptor y) ≡ false
  stale-apart name stale j y live h =
      elim (Bool-cases (str_eq name (slot_name w.setup.descriptor y))) [
        | inr e ↦ e
        | inl e ↦
            let there = Mine-there w s.dir s.gone j (s.at j) y is live (kept.mine j live) h in
            let same = str_eq_sound name _ e in
            absurd (there.2 (stale there.0 (ap (λ (z : Str). lookup z s.dir) same ∙ there.1)))
      ]

  pub made :
      (x : ℕ)
      → x < w.setup.max_holders
      → exists_in (slot_name w.setup.descriptor x) s.dir ≡ false
      → IsKept w (record {
        dir = (slot_name w.setup.descriptor x, empty_file) ∷ s.dir;
        at = put s.at i (created x);
        gone = s.gone;
      })
  unfolding lookup
  made x lt absent =
      moved-IsKept w s kept i ((slot_name w.setup.descriptor x, empty_file) ∷ s.dir) (created x)
        (λ j y ne live h. rw (off j y live h) refl)
        (λ j y ne live h g.
          let same = some_eq h in
          let t = off j y live g in
          let u : str_eq (slot_name w.setup.descriptor x) (slot_name w.setup.descriptor y) ≡ true =
            rw (same) (str_eq_refl (slot_name w.setup.descriptor y)) in
          absurd (ground arith))
        (r, lt, rw (str_eq_refl (slot_name w.setup.descriptor x)) refl)
    where
      off :
          (j y : ℕ)
          → s.gone j ≡ false
          → slot_of (s.at j) ≡ some y
          → str_eq (slot_name w.setup.descriptor x) (slot_name w.setup.descriptor y) ≡ false
      off j y live h =
          elim (Bool-cases
            (str_eq (slot_name w.setup.descriptor x) (slot_name w.setup.descriptor y))) [
              | inr e ↦ e
              | inl e ↦
                  let there = Mine-there w s.dir s.gone j (s.at j) y is live (kept.mine j live) h in
                  let found =
                    ap (λ (z : Str). lookup z s.dir)
                      (str_eq_sound (slot_name w.setup.descriptor x) _ e)
                    ∙ there.1 in
                  absurd (ground arith)
            ]

  pub wrote :
      (x : ℕ) (t : ℤ)
      → IsInt64 t
      → slot_of (s.at i) ≡ some x
      → x < w.setup.max_holders
      → lookup (slot_name w.setup.descriptor x) s.dir ≡ some empty_file
      → IsKept w (record {
        dir = store (slot_name w.setup.descriptor x) (slot_file (clock t) (w.setup.info i) x) s.dir;
        at = put s.at i (holding x);
        gone = s.gone;
      })
  wrote x t fits hi lt old =
      let name = slot_name w.setup.descriptor x in
      let file = slot_file (clock t) (w.setup.info i) x in
      let stored = λ (other : Str). lookup-store name other file empty_file s.dir old in
      moved-IsKept w s kept i (store name file s.dir) (holding x)
        (λ j y ne live h.
          rw (stored (slot_name w.setup.descriptor y), apart j x y ne live hi h) refl)
        (λ j y ne live h g.
          let ij = kept.unique i j y runs live (hi ∙ ap some (some_eq h)) g in
          absurd (ground arith))
        (r, lt, (t, fits, rw (stored name, str_eq_refl name) refl))
