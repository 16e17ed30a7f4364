-- ===== src/Directory.antt =====
-- The lock directory as a list of entries in the order of `readdir`, and lock/lock.c's search for
-- the directory itself.
pub mod Search
pub mod Choice
pub mod Entries
use waitlock.Base.{
  ℕ, Bool, true, false, not, List, [], ◌∷◌, ◌++◌, codes, Option, none, some, if◌then◌else◌,
}
use waitlock.LockFile.{File}
use waitlock.Text.{Str, str_eq}
use waitlock.Text.Decimal.{print_nat}

abbrev pub Dir : Type 0
Dir = List (Str × File)

-- `open(path, ...)` finds the name.
unfoldable pub lookup : Str → Dir → Option File
lookup name [] = none
lookup name (e ∷ dir) = if str_eq e.0 name then some e.1 else lookup name dir

abbrev pub exists_in : Str → Dir → Bool
exists_in name dir = elim (lookup name dir) [ none ↦ false | some f ↦ true ]

-- `unlink`
unfoldable pub remove : Str → Dir → Dir
remove name [] = []
remove name (e ∷ dir) = if str_eq e.0 name then remove name dir else e ∷ remove name dir

-- `"%s.slot%d.lock"`, the name of a slot's file
unfoldable pub slot_name : Str → ℕ → Str
slot_name descriptor slot = descriptor ++ (codes ".slot" ++ (print_nat slot ++ codes ".lock"))
