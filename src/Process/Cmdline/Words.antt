-- ===== src/Process/Cmdline/Words.antt =====
-- The command line as a text of words.
use waitlock.Base.{
  ℕ, ◌-◌, ◌<◌, ◌≡◌, refl, ap, ◌∙◌, List, [], ◌∷◌, ◌++◌, some, take_all, length, All, arith,
}
use waitlock.LockInfo.{max_cmdline}
use waitlock.Process.Cmdline.{replace_nulls, cmdline_of, get_process_cmdline}
use waitlock.Text.{Str, c_string}
use waitlock.Text.Laws.{Lacks}
use mathlib.Core.List.{append-nil}

-- What the kernel writes: each argument with a NUL behind it.
unfoldable pub null_ended : List Str → List ℕ
null_ended [] = []
null_ended (w ∷ ws) = w ++ 0 ∷ null_ended ws

-- The arguments with spaces between them.
unfoldable pub spaced : Str → List Str → Str
spaced w [] = w
spaced w (v ∷ ws) = w ++ b' ' ∷ spaced v ws

-- A word stands as it is in front of its NUL.
keeps_word :
    (w : Str) (rest : List ℕ)
    → Lacks 0 w
    → c_string (replace_nulls (w ++ 0 ∷ rest)) ≡ w ++ c_string (replace_nulls (0 ∷ rest))
unfolding c_string replace_nulls
keeps_word [] rest l = refl
keeps_word (c ∷ []) rest l = rw (l.0, l.0) refl
keeps_word (c ∷ (d ∷ w)) rest l = rw (l.0, l.0) (ap (λ t. c ∷ t) (keeps_word (d ∷ w) rest l.1))

-- A NUL that is not the last character becomes a space.
null_becomes_space :
    (v : Str) (rest : List ℕ)
    → c_string (replace_nulls (0 ∷ (v ++ 0 ∷ rest)))
      ≡ b' ' ∷ c_string (replace_nulls (v ++ 0 ∷ rest))
unfolding c_string replace_nulls
null_becomes_space [] rest = refl
null_becomes_space (c ∷ v) rest = refl

joins :
    (w : Str) (ws : List Str)
    → Lacks 0 w
    → All (Lacks 0) ws
    → c_string (replace_nulls (null_ended (w ∷ ws))) ≡ spaced w ws
unfolding null_ended spaced
joins w [] lw lws = keeps_word w [] lw ∙ (unfold c_string replace_nulls in append-nil w)
joins w (v ∷ ws) lw lws =
    keeps_word w (null_ended (v ∷ ws)) lw
    ∙ ap (λ t. w ++ t)
        (null_becomes_space v (null_ended ws) ∙ ap (λ t. b' ' ∷ t) (joins v ws lws.0 lws.1))

cmdline_of-null_ended :
    (w : Str) (ws : List Str)
    → cmdline_of (null_ended (w ∷ ws)) ≡ some (c_string (replace_nulls (null_ended (w ∷ ws))))
unfolding cmdline_of null_ended
cmdline_of-null_ended [] ws = refl
cmdline_of-null_ended (c ∷ w) ws = refl

-- If no argument holds a NUL and the arguments with their NULs fit the buffer, then
-- `get_process_cmdline` gives the arguments with single spaces between them.
pub get_process_cmdline-null_ended :
    (w : Str) (ws : List Str)
    → Lacks 0 w
    → All (Lacks 0) ws
    → length (null_ended (w ∷ ws)) < max_cmdline
    → get_process_cmdline (some (null_ended (w ∷ ws))) ≡ some (spaced w ws)
unfolding get_process_cmdline
get_process_cmdline-null_ended w ws lw lws fits =
    rw (take_all (max_cmdline - 1) (null_ended (w ∷ ws)) (omega arith))
      (cmdline_of-null_ended w ws ∙ ap some (joins w ws lw lws))
