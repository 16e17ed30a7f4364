-- ===== src/Messages/Documented.antt =====
-- core/core.c: `parse_args` takes the options that `usage` lists.
use mathlib.Core.List.{Mem, mem-cons_of_mem, mem-cons_self}
use waitlock.Args.{Settings, Environment, usage, parse_environment}
use waitlock.Args.Options.{
  Kind, classify, spelled, spellings, parse_args, parse_loop, after_loop, starts_with_dash,
  bad_usage, after_environment,
}
use waitlock.Base.{
  codes, ◌≡◌, ◌≢◌, refl, sym, ap, ◌∙◌, Bool, true, List, [], ◌∷◌, Option, none, some, drop, All,
  ◌⊎◌, inl, inr, Bool-cases, Option-cases, arith,
}
use waitlock.Base.Int.{ℤ}
use waitlock.Text.{Str, str_eq, starts_with}
use waitlock.Text.Laws.{str_eq_sound}
use waitlock.Messages.{usage_lines}
use waitlock.Messages.Shown.{
  up_to_gap, words, has_value, spellings_of, shown_in, shown_on, find, shown, taken, synopsis,
  synopsis_of, keep_spellings,
}

-- What holds of every entry holds of the one that is found.
find-entry :
    (f : Str → Option Bool) (a : Str) (v : Bool) (es : List (Str × Bool))
    → All (λ e. f e.0 ≡ some e.1) es
    → find a es ≡ some v
    → f a ≡ some v
unfolding find
find-entry f a v [] all h = absurd (ground arith)
find-entry f a v (e ∷ es) all h = elim (Bool-cases (str_eq a e.0)) [
  | inl hit ↦ ap f (str_eq_sound a e.0 hit) ∙ all.0 ∙ (rw hit at h)
  | inr miss ↦ find-entry f a v es all.1 (rw miss at h)
]

-- An argument is one of the spellings, or is told by its first character.
spelled-entry :
    (a : Str) (ss : List (Str × Kind))
    → All (λ e. shown e.0 ≡ taken e.1) ss
    → (shown a ≡ taken (spelled ss a)) ⊎ (spelled ss a ≡ spelled [] a)
unfolding spelled
spelled-entry a [] all = inr refl
spelled-entry a (s ∷ ss) all = elim (Bool-cases (str_eq a s.0)) [
  | inl hit ↦ inl (ap shown (str_eq_sound a s.0 hit) ∙ all.0 ∙ rw hit refl)
  | inr miss ↦ rw miss (spelled-entry a ss all.1)
]

spellings-shown : All (λ e. shown e.0 ≡ taken e.1) spellings
unfolding find shown_on shown_in spellings_of has_value words up_to_gap str_eq starts_with drop
spellings-shown = ground arith

shown-taken : All (λ e. taken (classify e.0) ≡ some e.1) (shown_on usage_lines)
unfolding find shown_on shown_in spellings_of has_value words up_to_gap str_eq starts_with drop
    classify spelled
shown-taken = ground arith

not_spelled : (a : Str) → taken (spelled [] a) ≡ none
unfolding spelled
not_spelled a = ground arith

listed-classify : (a : Str) → shown a ≡ taken (classify a)
unfolding classify
listed-classify a = elim (spelled-entry a spellings spellings-shown) [
  | inl h ↦ h
  | inr end ↦ elim (Option-cases (shown a)) [
    | inl h ↦ h ∙ sym (ap taken end ∙ not_spelled a)
    | inr (v, h) ↦
        h ∙ sym (find-entry (λ b. taken (classify b)) a v (shown_on usage_lines) shown-taken h)
  ]
]

-- What the synopsis shows of a format.
abbrev pub format_word : Str
format_word = codes "--format=<fmt>"

synopsis-taken : All (λ w. (taken (classify w) ≢ none) ⊎ (w ≡ format_word)) synopsis
unfolding synopsis_of keep_spellings words classify spelled str_eq
synopsis-taken = ground arith

abbrev synopsis_rest : List Str
synopsis_rest = codes "--all" ∷ codes "--stale-only" ∷ codes "--check" ∷ codes "--done" ∷ []

synopsis_lem : synopsis ≡ codes "--list" ∷ format_word ∷ synopsis_rest
unfolding synopsis_of keep_spellings words
synopsis_lem = refl

format_shown : Mem format_word synopsis
format_shown =
    rw synopsis_lem (mem-cons_of_mem (codes "--list") (mem-cons_self {l = synopsis_rest}))

-- An argument is an option of `parse_args`, without or with a value, exactly if the list under
-- `Options:` in the usage message shows it so; and of the words that begin with a dash in the synopsis
-- above that list all are options of `parse_args` but `--format=<fmt>`, which it does not know.
pub shown-classify :
    (a : Str)
    → (shown a ≡ taken (classify a))
      × All (λ w. (taken (classify w) ≢ none) ⊎ (w ≡ format_word)) synopsis
      × Mem format_word synopsis
      × (classify format_word ≡ Kind.unknown)
unfolding classify spelled str_eq
shown-classify a = (listed-classify a, synopsis-taken, format_shown, refl)

spellings-taken : All (λ e. taken e.1 ≢ none) spellings
spellings-taken = ground arith

-- What is no option is told by its first character.
spelled-none :
    (a : Str) (ss : List (Str × Kind))
    → All (λ e. taken e.1 ≢ none) ss
    → taken (spelled ss a) ≡ none
    → spelled ss a ≡ spelled [] a
unfolding spelled
spelled-none a [] all h = refl
spelled-none a (s ∷ ss) all h = elim (Bool-cases (str_eq a s.0)) [
  | inl hit ↦ absurd (all.0 (rw hit at h))
  | inr miss ↦ rw miss (spelled-none a ss all.1 (rw miss at h))
]

dash-unknown : (a : Str) → starts_with_dash a ≡ true → spelled [] a ≡ Kind.unknown
unfolding spelled
dash-unknown a dash = rw dash refl

classify-unknown :
    (a : Str) → starts_with_dash a ≡ true → shown a ≡ none → classify a ≡ Kind.unknown
unfolding classify
classify-unknown a dash h =
    spelled-none a spellings spellings-taken (sym (listed-classify a) ∙ h) ∙ dash-unknown a dash

parse_loop-unknown :
    (atof : Str → ℤ) (a : Str) (args : List Str) (s : Settings)
    → classify a ≡ Kind.unknown
    → parse_loop atof none (a ∷ args) s ≡ bad_usage
unfolding parse_loop
parse_loop-unknown atof a args s h = rw (h, parse_loop) refl

-- Whatever the environment and the other arguments are, `parse_args` refuses as a usage error a
-- command line that begins with an argument that starts with a dash and is not in the list of
-- options of the usage message.
pub parse_args_undocumented :
    (env : Environment) (a : Str) (args : List Str) (s : Settings)
    → starts_with_dash a ≡ true
    → shown a ≡ none
    → parse_args env (a ∷ args) s ≡ usage
unfolding parse_args after_environment after_loop
parse_args_undocumented env a args s dash h = elim (Option-cases (parse_environment env s)) [
  | inl e ↦ rw e refl
  | inr (t, e) ↦ rw (e, parse_loop-unknown env.atof a args t (classify-unknown a dash h)) refl
]
