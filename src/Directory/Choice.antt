-- ===== src/Directory/Choice.antt =====
-- Which directory `find_lock_directory` chooses.
use mathlib.Core.Path.{subst}
use waitlock.Base.{
  ◌≡◌, refl, ap, ◌∙◌, Bool, true, false, List, [], ◌∷◌, ◌++◌, codes, Option, none, some, Bool-cases,
  inl, inr, All, if◌then◌else◌,
}
use waitlock.Directory.Search.{
  Paths, usable, first_usable, candidates, home_directory, or_next, find_lock_directory,
}
use waitlock.Text.{Str}

-- A directory of the list is usable and none before it is; or none is.
abbrev pub Chosen : Paths → List Str → Option Str → Type 0
Chosen p cs none = All (λ c. usable p c ≡ false) cs
Chosen p cs (some d) =
    (before : List Str) × (after : List Str) × (cs ≡ before ++ d ∷ after)
    × (usable p d ≡ true)
    × All (λ c. usable p c ≡ false) before

first_usable-Chosen : (p : Paths) (cs : List Str) → Chosen p cs (first_usable p cs)
unfolding first_usable
first_usable-Chosen p [] = tt
first_usable-Chosen p (c ∷ cs) = go (usable p c) refl (first_usable p cs) (first_usable-Chosen p cs)
  where
    go :
        (b : Bool)
        → usable p c ≡ b
        → (o : Option Str) → Chosen p cs o
        → Chosen p (c ∷ cs) (if b then some c else o)
    go true e o h = ([], cs, refl, e, tt)
    go false e none h = (e, h)
    go false e (some d) (before, after, split, ok, bad) =
        (c ∷ before, after, ap (λ (l : List Str). c ∷ l) split, ok, (e, bad))

first_usable-append :
    (p : Paths) (cs ds : List Str)
    → first_usable p (cs ++ ds) ≡ or_next (first_usable p cs) (first_usable p ds)
unfolding first_usable
first_usable-append p [] ds = refl
first_usable-append p (c ∷ cs) ds = elim (Bool-cases (usable p c)) [
  | inl e ↦ rw (e) refl
  | inr e ↦ rw (e) (first_usable-append p cs ds)
]

-- All places, in the order of preference.
abbrev pub places : Option Str → List Str
places home = candidates ++ (home_directory home ++ codes "./waitlock" ∷ [])

-- Without `--lock-dir`, `find_lock_directory` gives the first usable place of the four standard ones,
-- the home directory's and ./waitlock, and fails exactly if none of them is usable.
pub find_lock_directory-Chosen :
    (p : Paths) (home : Option Str) → Chosen p (places home) (find_lock_directory p none home)
unfolding find_lock_directory
find_lock_directory-Chosen p home =
    let tail = codes "./waitlock" ∷ [] in
    let whole = first_usable-append p candidates (home_directory home ++ tail) in
    let rest = first_usable-append p (home_directory home) tail in
    subst (Chosen p (places home)) (whole ∙ ap (or_next (first_usable p candidates)) rest)
      (first_usable-Chosen p (places home))
