-- ===== src/System/Calls.antt =====
-- What the kinds of calls do to the invariant: nothing changes but the point, a file is made, written
-- or removed.
use waitlock.Base.{
  ℕ, suc, ◌<◌, ◌≡◌, ◌≢◌, refl, ap, ◌∙◌, true, false, List, ◌∷◌, Option, none, some, some_eq,
  Bool-cases, inl, inr, ◌==◌, arith,
}
use waitlock.Directory.{Dir, lookup, exists_in, remove, slot_name}
use waitlock.Directory.Entries.{lookup-remove}
use waitlock.Lock.{Holder, holder_of, claims}
use waitlock.LockFile.{File}
use waitlock.LockFile.Empty.{empty_file, holder_of-empty_file}
use waitlock.System.{
  Setup, Point, scanning, unlinking, claiming, created, undoing, holding, store, seen, after_look,
  look, State, put, slot_of,
}
use waitlock.System.Names.{str_eq-slot_name, lookup-store}
use waitlock.System.Safe.{IsClean, Owned, IsSafe, is_unlinking, moved-IsSafe}
use waitlock.Text.{Str, str_eq}
use waitlock.Text.Laws.{str_eq_refl, str_eq_sound}

-- In a clean directory the scan finds nothing to unlink.
pub look-scanning :
    (u : Setup) (dir : Dir) (name : Str) (names : List Str) (n : ℕ)
    → IsClean u dir
    → (m : ℕ) × (look u dir name names n ≡ scanning names m)
unfolding look after_look seen
look-scanning u dir name names n clean = elim (Bool-cases (claims u.descriptor name)) [
  | inr e ↦ (n, rw (e) refl)
  | inl e ↦
      let f = after (seen u.probe (lookup name dir)) (not_stale (lookup name dir) refl) in
      (f.0, rw (e) f.1)
]
  where
    not_stale : (o : Option File) → lookup name dir ≡ o → seen u.probe o ≢ Holder.stale
    not_stale none e h = ground arith
    not_stale (some f) e h = clean name f e h

    after :
        (h : Holder) → h ≢ Holder.stale → (m : ℕ) × (after_look name names n h ≡ scanning names m)
    after Holder.active g = (suc n, refl)
    after Holder.unknown g = (n, refl)
    after Holder.stale g = absurd (g refl)

pub Owned-there :
    (u : Setup) (dir : Dir) (p : Point) (y : ℕ)
    → Owned u dir p
    → slot_of p ≡ some y
    → exists_in (slot_name u.descriptor y) dir ≡ true
Owned-there u dir Point.idle y o h = absurd (ground arith)
Owned-there u dir (scanning names n) y o h = absurd (ground arith)
Owned-there u dir (unlinking name names n) y o h = absurd (ground arith)
Owned-there u dir (claiming x) y o h = absurd (ground arith)
Owned-there u dir (created x) y (lt, e) h = let s = some_eq h in ground arith
Owned-there u dir (undoing x) y (lt, e) h = let s = some_eq h in ground arith
Owned-there u dir (holding x) y (lt, (f, e, a)) h = let s = some_eq h in ground arith

exists-same :
    (a b : Str) (dir : Dir) → str_eq a b ≡ true → exists_in b dir ≡ true → exists_in a dir ≡ true
exists-same a b dir e h = rw (str_eq_sound a b e) h

module _ (u : Setup) (s : State) (safe : IsSafe u s) (i : ℕ) where
  -- The names of two owners' slots are different.
  apart :
      (j x y : ℕ)
      → (i == j) ≡ false
      → slot_of (s.at i) ≡ some x
      → slot_of (s.at j) ≡ some y
      → str_eq (slot_name u.descriptor x) (slot_name u.descriptor y) ≡ false
  apart j x y ne hi hj =
      elim (Bool-cases (str_eq (slot_name u.descriptor x) (slot_name u.descriptor y))) [
        | inr e ↦ e
        | inl e ↦
            let same = str_eq-slot_name u.descriptor x y e in
            let ij = safe.unique i j y (hi ∙ ap some same) hj in absurd (ground arith)
      ]

  -- Nothing but the point changes, and no slot is owned.
  pub still :
      (p : Point)
      → Owned u s.dir p
      → slot_of p ≡ none
      → is_unlinking p ≡ false
      → IsSafe u (record { dir = s.dir; at = put s.at i p })
  still p own no_slot quiet =
      moved-IsSafe u s safe i s.dir p (λ j y ne h. refl) (λ j x ne h g. absurd (ground arith)) own
        safe.clean quiet

  -- The process removes its own file.
  pub removed :
      (x : ℕ) (p : Point)
      → slot_of (s.at i) ≡ some x
      → Owned u (remove (slot_name u.descriptor x) s.dir) p
      → slot_of p ≡ none
      → is_unlinking p ≡ false
      → IsSafe u (record { dir = remove (slot_name u.descriptor x) s.dir; at = put s.at i p })
  removed x p hi own no_slot quiet =
      moved-IsSafe u s safe i (remove (slot_name u.descriptor x) s.dir) p
        (λ j y ne h.
          rw
            (
              lookup-remove (slot_name u.descriptor x) (slot_name u.descriptor y) s.dir,
              apart j x y ne hi h,
            )
            refl)
        (λ j y ne h g. absurd (ground arith)) own
        (λ name f e.
          safe.clean name f (ground (arith, lookup-remove (slot_name u.descriptor x) name s.dir)))
        quiet

  pub made :
      (x : ℕ)
      → x < u.max_holders
      → exists_in (slot_name u.descriptor x) s.dir ≡ false
      → IsSafe u (record {
        dir = (slot_name u.descriptor x, empty_file) ∷ s.dir;
        at = put s.at i (created x);
      })
  unfolding lookup
  made x lt absent =
      moved-IsSafe u s safe i ((slot_name u.descriptor x, empty_file) ∷ s.dir) (created x)
        (λ j y ne h.
          let there = Owned-there u s.dir (s.at j) y (safe.owned j) h in
          elim (Bool-cases (str_eq (slot_name u.descriptor x) (slot_name u.descriptor y))) [
            | inl e ↦
                let t =
                  exists-same (slot_name u.descriptor x) (slot_name u.descriptor y) s.dir e there in
                absurd (ground arith)
            | inr e ↦ rw (e) refl
          ])
        (λ j y ne h g.
          let there = Owned-there u s.dir (s.at j) y (safe.owned j) g in
          let same : x ≡ y = some_eq h in absurd (ground arith))
        (lt, rw (str_eq_refl (slot_name u.descriptor x)) refl)
        (λ name f e. elim (Bool-cases (str_eq (slot_name u.descriptor x) name)) [
          | inl h ↦
              let empty : empty_file ≡ f = some_eq (rw h at e) in
              λ stale. let unknown = holder_of-empty_file u.probe in absurd (ground arith)
          | inr h ↦ safe.clean name f (rw h at e)
        ])
        refl

  pub wrote :
      (x : ℕ) (file : File)
      → slot_of (s.at i) ≡ some x
      → x < u.max_holders
      → lookup (slot_name u.descriptor x) s.dir ≡ some empty_file
      → holder_of u.probe file ≡ Holder.active
      → IsSafe u (record {
        dir = store (slot_name u.descriptor x) file s.dir;
        at = put s.at i (holding x);
      })
  wrote x file hi lt old active =
      let stored =
        λ (other : Str). lookup-store (slot_name u.descriptor x) other file empty_file s.dir old in
      moved-IsSafe u s safe i (store (slot_name u.descriptor x) file s.dir) (holding x)
        (λ j y ne h. rw (stored (slot_name u.descriptor y), apart j x y ne hi h) refl)
        (λ j y ne h g.
          let same = some_eq h in
          let ij = safe.unique i j y (hi ∙ ap some same) g in absurd (ground arith))
        (
          lt,
          (
            file,
            rw (stored (slot_name u.descriptor x), str_eq_refl (slot_name u.descriptor x)) refl,
            active,
          ),
        )
        (λ name f e. elim (Bool-cases (str_eq (slot_name u.descriptor x) name)) [
          | inl h ↦
              let is_file : file ≡ f = some_eq (rw (stored name, h) at e) in
              λ stale. absurd (ground arith)
          | inr h ↦ safe.clean name f (rw (stored name, h) at e)
        ])
        refl
