-- ===== src/Messages/Shown.antt =====
-- core/core.c: the options that the usage message shows, in the list under `Options:` and in the
-- synopsis above it, read from its lines, beside those that `parse_args` takes.
use waitlock.Args.Options.{Kind, flag, valued}
use waitlock.Base.{
  ℕ, Bool, true, false, not, ◌&&◌, ◌||◌, List, [], ◌∷◌, ◌++◌, codes, Option, none, some, ◌==◌, drop,
  if◌then◌else◌,
}
use waitlock.Text.{Str, str_eq, starts_with}
use waitlock.Messages.{usage_lines}

-- A line up to its first two spaces, which end the spellings of an option.
unfoldable pub up_to_gap : Str → Str
up_to_gap [] = []
up_to_gap (c ∷ []) = c ∷ []
up_to_gap (c ∷ (d ∷ s)) =
    let rest = up_to_gap (d ∷ s) in if c == b' ' && d == b' ' then [] else c ∷ rest

abbrev flush : Str → List Str → List Str
flush [] ws = ws
flush (c ∷ word) ws = (c ∷ word) ∷ ws

-- The words between separators, behind the word that is being read.
unfoldable pub words : (ℕ → Bool) → Str → Str → List Str
words separates word [] = flush word []
words separates word (c ∷ s) = elim (separates c) [
  | true ↦ flush word (words separates [] s)
  | false ↦ words separates (word ++ c ∷ []) s
]

abbrev is_gap : ℕ → Bool
is_gap c = c == b' ' || c == b','

abbrev is_mark : ℕ → Bool
is_mark c = c == b' ' || (c == b'[' || (c == b']' || c == b'|'))

abbrev pub is_spelling : Str → Bool
is_spelling [] = false
is_spelling (c ∷ s) = c == b'-'

unfoldable pub has_value : List Str → Bool
has_value [] = false
has_value (w ∷ ws) = not (is_spelling w) || has_value ws

unfoldable pub spellings_of : Bool → List Str → List (Str × Bool)
spellings_of value [] = []
spellings_of value (w ∷ ws) =
    let rest = spellings_of value ws in if is_spelling w then (w, value) ∷ rest else rest

-- The spellings that a line shows, and whether it shows a value behind them.
unfoldable pub shown_in : Str → List (Str × Bool)
shown_in line =
    if starts_with (codes "  -") line
    then (let ws = words is_gap [] (up_to_gap (drop 2 line)) in spellings_of (has_value ws) ws)
    else []

unfoldable pub shown_on : List Str → List (Str × Bool)
shown_on [] = []
shown_on (l ∷ ls) = shown_in l ++ shown_on ls

unfoldable pub find : Str → List (Str × Bool) → Option Bool
find a [] = none
find a (e ∷ es) = let rest = find a es in if str_eq a e.0 then some e.1 else rest

-- What the list of options shows of an argument: whether it is an option, and whether one with a value.
abbrev pub shown : Str → Option Bool
shown a = find a (shown_on usage_lines)

-- The words of the synopsis, the lines above the first empty one, that begin with a dash.
unfoldable pub keep_spellings : List Str → List Str
keep_spellings [] = []
keep_spellings (w ∷ ws) = let rest = keep_spellings ws in if is_spelling w then w ∷ rest else rest

unfoldable pub synopsis_of : List Str → List Str
synopsis_of [] = []
synopsis_of ([] ∷ ls) = []
synopsis_of ((c ∷ l) ∷ ls) = keep_spellings (words is_mark [] (c ∷ l)) ++ synopsis_of ls

abbrev pub synopsis : List Str
synopsis = synopsis_of usage_lines

-- The same of what `parse_args` takes it for.
abbrev pub taken : Kind → Option Bool
taken Kind.help = some false
taken Kind.exec = some true
taken Kind.unknown = none
taken Kind.word = none
taken (flag f) = some false
taken (valued o) = some true
