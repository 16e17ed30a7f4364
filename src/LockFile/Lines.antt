-- ===== src/LockFile/Lines.antt =====
-- The text format as a list of keys and values: what `read_lines` makes of the lines.
use waitlock.Base.{
  ℕ, zero, suc, ◌+◌, ◌≤◌, ◌<◌, ◌≡◌, refl, ap, ◌∙◌, false, List, [], ◌∷◌, ◌++◌, ◌==◌, length,
  length-append, All, All-append, arith,
}
use mathlib.Core.List.{append_assoc}
use waitlock.LockFile.{text_line, fgets, strip_newline, read_line, read_lines, set_field}
use waitlock.LockInfo.{LockInfo}
use waitlock.Text.Strings.{c_string-Lacks}
use waitlock.Text.{Str}
use waitlock.Text.Laws.{Lacks, split_at-append}

unfoldable pub lines_of : List (Str × Str) → List ℕ
lines_of [] = []
lines_of (l ∷ ls) = text_line l.0 l.1 ++ lines_of ls

unfoldable pub set_fields : List (Str × Str) → LockInfo → LockInfo
set_fields [] i = i
set_fields (l ∷ ls) i = set_fields ls (set_field l.0 l.1 i)

-- A text that a line may hold.
pub record IsPlain (s : Str) : Type 0 where
  pub no_nul : Lacks 0 s
  pub no_newline : Lacks b'\n' s

-- A line that fits the buffer of `read_text_lock_file`, and whose key has no equals sign.
pub record IsLine (l : Str × Str) : Type 0 where
  pub key : IsPlain l.0
  pub no_equals : Lacks b'=' l.0
  pub value : IsPlain l.1
  pub fits : length l.0 + length l.1 < 1022

fgets-append :
    (n : ℕ) (s rest : List ℕ)
    → Lacks b'\n' s
    → length s < n
    → fgets n (s ++ b'\n' ∷ rest) ≡ (s ++ b'\n' ∷ [], rest)
unfolding fgets length
fgets-append zero s rest l h = absurd (omega arith)
fgets-append (suc n) [] rest l h = refl
fgets-append (suc n) (c ∷ s) rest l h = rw (l.0, fgets-append n s rest l.1 (omega arith)) refl

strip_newline-append : (s : Str) → strip_newline (s ++ b'\n' ∷ []) ≡ s
unfolding strip_newline
strip_newline-append [] = refl
strip_newline-append (c ∷ []) = refl
strip_newline-append (c ∷ (d ∷ s)) = ap (λ (t : Str). c ∷ t) (strip_newline-append (d ∷ s))

-- The line without its newline.
abbrev entry : Str × Str → Str
entry l = l.0 ++ b'=' ∷ l.1

entry-Lacks :
    (mark : ℕ) (l : Str × Str)
    → (b'=' == mark) ≡ false
    → Lacks mark l.0
    → Lacks mark l.1
    → Lacks mark (entry l)
entry-Lacks mark l e k v = All-append (λ c. (c == mark) ≡ false) l.0 (b'=' ∷ l.1) k (e, v)

read_line-entry :
    (l : Str × Str) (i : LockInfo)
    → IsLine l
    → read_line (entry l ++ b'\n' ∷ []) i ≡ set_field l.0 l.1 i
unfolding read_line
read_line-entry l i is =
    let plain =
      All-append (λ c. (c == 0) ≡ false) (entry l) (b'\n' ∷ [])
        (entry-Lacks 0 l refl is.key.no_nul is.value.no_nul) (refl, tt) in
    rw
      (
        c_string-Lacks (entry l ++ b'\n' ∷ []) plain,
        strip_newline-append (entry l),
        split_at-append b'=' l.0 l.1 is.no_equals,
        read_line,
      )
      refl

-- Where there is a line, the loop reads it.
read_lines-next :
    (f : ℕ) (s rest : List ℕ) (i : LockInfo)
    → read_lines (suc f) (s ++ b'\n' ∷ rest) i
      ≡ read_lines f
          (fgets 1023 (s ++ b'\n' ∷ rest)).1
          (read_line (fgets 1023 (s ++ b'\n' ∷ rest)).0 i)
unfolding read_lines
read_lines-next f [] rest i = refl
read_lines-next f (c ∷ s) rest i = refl

read_lines-line :
    (f : ℕ) (l : Str × Str) (rest : List ℕ) (i : LockInfo)
    → IsLine l
    → read_lines (suc f) (entry l ++ b'\n' ∷ rest) i ≡ read_lines f rest (set_field l.0 l.1 i)
unfolding length
read_lines-line f l rest i is =
    let short : length (entry l) < 1023 = omega (arith, length-append l.0 (b'=' ∷ l.1), is.fits) in
    let split =
      fgets-append 1023 (entry l) rest
        (entry-Lacks b'\n' l refl is.key.no_newline is.value.no_newline) short in
    read_lines-next f (entry l) rest i ∙ rw (split, read_line-entry l i is) refl

text_line-append :
    (l : Str × Str) (rest : List ℕ) → text_line l.0 l.1 ++ rest ≡ entry l ++ b'\n' ∷ rest
unfolding text_line
text_line-append l rest = simp (append_assoc)

-- Reading the lines of a list of keys and values sets the fields in turn.
pub read_lines-lines_of :
    (f : ℕ) (ls : List (Str × Str)) (i : LockInfo)
    → All IsLine ls
    → length ls ≤ f
    → read_lines f (lines_of ls) i ≡ set_fields ls i
unfolding lines_of set_fields length
read_lines-lines_of zero [] i is h = unfold read_lines in refl
read_lines-lines_of (suc f) [] i is h = unfold read_lines in refl
read_lines-lines_of zero (l ∷ ls) i is h = absurd (omega arith)
read_lines-lines_of (suc f) (l ∷ ls) i is h = rw (text_line-append l (lines_of ls)) (
    read_lines-line f l (lines_of ls) i is.0
    ∙ read_lines-lines_of f ls (set_field l.0 l.1 i) is.1 (omega arith))

pub length-lines_of : (ls : List (Str × Str)) → length ls ≤ length (lines_of ls)
unfolding lines_of length
length-lines_of [] = omega arith
length-lines_of (l ∷ ls) =
    rw (text_line-append l (lines_of ls))
      (omega (arith, length-append (entry l) (b'\n' ∷ lines_of ls), length-lines_of ls))
