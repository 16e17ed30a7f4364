-- ===== src/Directory/Entries.antt =====
-- Looking up and removing entries; the names of slot files.
use waitlock.Base.{
  ℕ, ◌≡◌, refl, inl, inr, true, [], ◌∷◌, ◌++◌, codes, none, arith, Bool-cases, if◌then◌else◌,
}
use waitlock.Directory.{Dir, lookup, remove, slot_name}
use waitlock.Text.{Str, str_eq, starts_with, contains}
use waitlock.Text.Decimal.{print_nat}
use waitlock.Text.Laws.{str_eq_refl, str_eq_sound, starts_with-append, contains-append}
use mathlib.Core.List.{append_assoc, append-nil}
use mathlib.Core.Path.{subst}

-- The file of a slot carries the descriptor in front and `.lock` in its name.
pub starts_with-slot_name : (d : Str) (slot : ℕ) → starts_with d (slot_name d slot) ≡ true
unfolding slot_name
starts_with-slot_name d slot = starts_with-append d _

pub contains-slot_name : (d : Str) (slot : ℕ) → contains (codes ".lock") (slot_name d slot) ≡ true
unfolding slot_name
contains-slot_name d slot =
    subst (λ s. contains (codes ".lock") s ≡ true) regroup
      (contains-append (d ++ (codes ".slot" ++ print_nat slot)) (codes ".lock") [])
  where
    regroup :
        (d ++ (codes ".slot" ++ print_nat slot)) ++ (codes ".lock" ++ [])
        ≡ d ++ (codes ".slot" ++ (print_nat slot ++ codes ".lock"))
    regroup = simp (append_assoc, append-nil)

-- A removed name is gone, and the others stay.
pub lookup-remove :
    (name other : Str) (dir : Dir)
    → lookup other (remove name dir) ≡ (if str_eq name other then none else lookup other dir)
unfolding lookup remove
lookup-remove name other [] = ground arith
lookup-remove name other (e ∷ dir) = elim (Bool-cases (str_eq e.0 name)) [
  | inl hit ↦
      let same : e.0 ≡ name = str_eq_sound e.0 name hit in
      rw (hit, lookup-remove name other dir, same) (ground arith)
  | inr miss ↦ rw miss (
      ground (
        arith,
        lookup-remove name other dir,
        str_eq_sound name other,
        str_eq_sound e.0 other,
        str_eq_refl name,
        str_eq_refl other,
      ))
]

-- Removing a name that is not there changes nothing.
pub remove_absent : (name : Str) (dir : Dir) → lookup name dir ≡ none → remove name dir ≡ dir
unfolding lookup remove
remove_absent name [] h = refl
remove_absent name (e ∷ dir) h = ground (arith, remove_absent name dir)
