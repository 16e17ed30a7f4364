-- ===== src/Text.antt =====
-- C strings as lists of character codes, and what the program uses of the C library on them:
-- strcmp, strncmp, strchr, strstr, strncpy and snprintf with `%s`. The terminating NUL is not stored;
-- `c_string` reads an array that may hold one.
pub mod Decimal
pub mod Laws
pub mod Digits
pub mod Strings
use waitlock.Base.{
  ℕ, zero, suc, ◌-◌, Bool, true, false, ◌&&◌, ◌||◌, List, [], ◌∷◌, ◌++◌, Option, none, some, ◌==◌,
  length, take, drop, replicate, if◌then◌else◌,
}

abbrev pub Str : Type 0
Str = List ℕ

-- The characters of an array up to its first NUL.
unfoldable pub c_string : List ℕ → Str
c_string [] = []
c_string (c ∷ s) = if c == 0 then [] else c ∷ c_string s

-- `strcmp(s, t) == 0`
unfoldable pub str_eq : Str → Str → Bool
str_eq [] [] = true
str_eq [] (d ∷ t) = false
str_eq (c ∷ s) [] = false
str_eq (c ∷ s) (d ∷ t) = c == d && str_eq s t

-- `strncmp(s, prefix, strlen(prefix)) == 0`
unfoldable pub starts_with : Str → Str → Bool
starts_with [] s = true
starts_with (c ∷ p) [] = false
starts_with (c ∷ p) (d ∷ s) = c == d && starts_with p s

-- `strstr(s, pattern) != NULL`
unfoldable pub contains : Str → Str → Bool
contains p [] = starts_with p []
contains p (c ∷ s) = starts_with p (c ∷ s) || contains p s

-- What stands behind the first occurrence of `pattern`: `strstr(s, pattern) + strlen(pattern)`.
unfoldable pub after_first : Str → Str → Option Str
after_first p [] = none
after_first p (c ∷ s) =
    if starts_with p (c ∷ s) then some (drop (length p) (c ∷ s)) else after_first p s

-- `strchr(s, mark)`: the characters before the first `mark` and those behind it.
unfoldable pub split_at : ℕ → Str → Option (Str × Str)
split_at mark [] = none
split_at mark (c ∷ s) =
    if c == mark
    then some ([], s)
    else elim (split_at mark s) [ none ↦ none | some p ↦ some (c ∷ p.0, p.1) ]

-- `memset` to 0, then `strncpy(array, s, size - 1)`.
unfoldable pub store_string : ℕ → Str → List ℕ
store_string size s = take (size - 1) s ++ replicate (size - length (take (size - 1) s)) 0

-- What `snprintf(buf, size, "%s", s)` leaves in `buf`.
unfoldable pub truncate : ℕ → Str → Str
truncate size s = take (size - 1) s
