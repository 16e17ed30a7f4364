-- ===== src/System/Names.antt =====
-- The names of slots are different, and what the calls of `System` do to an entry.
use waitlock.Base.{
  ℕ, ◌≡◌, refl, sym, ap, ◌∙◌, true, false, [], ◌∷◌, ◌++◌, codes, some, Bool-cases, inl, inr,
  if◌then◌else◌, arith,
}
use waitlock.Directory.{Dir, lookup, slot_name}
use waitlock.LockFile.{File}
use waitlock.System.{store}
use waitlock.Text.{Str, str_eq}
use waitlock.Text.Decimal.{leading_digits}
use waitlock.Text.Laws.{str_eq_sound, str_eq_refl, print_nat-value}

cancel : (a b c : Str) → a ++ b ≡ a ++ c → b ≡ c
cancel [] b c h = h
cancel (x ∷ a) b c h = cancel a b c (cc)

-- Two slots of a descriptor have the same name only if they are the same.
pub slot_name_injective : (d : Str) (x y : ℕ) → slot_name d x ≡ slot_name d y → x ≡ y
unfolding slot_name
slot_name_injective d x y h =
    let rest = cancel (codes ".slot") _ _ (cancel d _ _ h) in
    sym (print_nat-value x (codes ".lock") refl)
    ∙ (ap (leading_digits 0) rest ∙ print_nat-value y (codes ".lock") refl)

pub str_eq-slot_name : (d : Str) (x y : ℕ) → str_eq (slot_name d x) (slot_name d y) ≡ true → x ≡ y
str_eq-slot_name d x y h = slot_name_injective d x y (str_eq_sound _ _ h)

other_name :
    (a name other : Str) → str_eq a other ≡ true → str_eq a name ≡ false → str_eq name other ≡ false
other_name a name other here differ = elim (Bool-cases (str_eq name other)) [
  | inl e ↦
      let same : a ≡ name = str_eq_sound a other here ∙ sym (str_eq_sound name other e) in
      let t : str_eq a name ≡ true = rw (same) (str_eq_refl name) in absurd (ground arith)
  | inr e ↦ e
]

pub lookup-store :
    (name other : Str) (file old : File) (dir : Dir)
    → lookup name dir ≡ some old
    → lookup other (store name file dir)
      ≡ (if str_eq name other then some file else lookup other dir)
unfolding lookup store
lookup-store name other file old [] h = ground arith
lookup-store name other file old (e ∷ dir) h = elim (Bool-cases (str_eq e.0 name)) [
  | inl same ↦
      let n = str_eq_sound e.0 name same in ground (arith, ap (λ (t : Str). str_eq t other) n)
  | inr differ ↦
      let rest = lookup-store name other file old dir (rw differ at h) in
      elim (Bool-cases (str_eq e.0 other)) [
        | inl here ↦
            let off : str_eq name other ≡ false = other_name e.0 name other here differ in
            rw (differ, here, off) refl
        | inr there ↦ rw (differ, there) rest
      ]
]
