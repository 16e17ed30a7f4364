-- ===== src/Args/Checked.antt =====
-- What `parse_args` promises when it succeeds.
use waitlock.Args.{
  Settings, Environment, parsed, parse_environment, limit_holders, read_descriptor, check_settings,
  descriptor_ok, slot_ok, valid_descriptor,
}
use waitlock.Args.Options.{
  Flag, Valued, Kind, Looped, set_flag, set_value, parse_loop, parse_args, after_loop,
  after_environment, classify, run_command,
}
use waitlock.Base.{
  true, ◌≡◌, refl, sym, ap, ◌∙◌, ◌||◌, List, [], ◌∷◌, Option, none, some, Option-cases, inl, inr,
  arith,
}
use waitlock.Base.Int.{ℤ, is_pos, is_neg, ltb_ℤ}
use waitlock.Text.{Str}

abbrev Allows : Settings → Type 0
Allows s = is_pos s.max_holders ≡ true

abbrev AllowsLooped : Looped → Type 0
AllowsLooped Looped.bad_usage = Unit {0}
AllowsLooped Looped.shown = Unit {0}
AllowsLooped (Looped.settings s) = Allows s

set_flag-Allows : (f : Flag) (s : Settings) → Allows s → Allows (set_flag f s)
unfolding set_flag
set_flag-Allows f s h = ground arith

set_value-Allows :
    (atof : Str → ℤ) (o : Valued) (v : Str) (s t : Settings)
    → Allows s
    → set_value atof o v s ≡ some t
    → Allows t
unfolding set_value
set_value-Allows atof o v s t h e = ground arith

run_command-Allows : (args : List Str) (s : Settings) → Allows s → AllowsLooped (run_command args s)
run_command-Allows [] s h = tt
run_command-Allows (c ∷ cs) s h = h

parse_loop-Allows :
    (atof : Str → ℤ) (o : Option Valued) (args : List Str) (s : Settings)
    → Allows s
    → AllowsLooped (parse_loop atof o args s)
unfolding parse_loop
parse_loop-Allows atof none [] s h = h
parse_loop-Allows atof (some o) [] s h = tt
parse_loop-Allows atof (some o) (v ∷ args) s h = elim (Option-cases (set_value atof o v s)) [
  | inl e ↦ rw (AllowsLooped, e) tt
  | inr (t, e) ↦
      rw (AllowsLooped, e) (parse_loop-Allows atof none args t (set_value-Allows atof o v s t h e))
]
parse_loop-Allows atof none (a ∷ args) s h =
    go (classify a) refl λ o t g. parse_loop-Allows atof o args t g
  where
    go :
        (k : Kind)
        → classify a ≡ k
        → ((o : Option Valued) (t : Settings) → Allows t → AllowsLooped (parse_loop atof o args t))
        → AllowsLooped (parse_loop atof none (a ∷ args) s)
    go Kind.help e rest = rw (AllowsLooped, e) tt
    go Kind.exec e rest = rw (AllowsLooped, e) (run_command-Allows args s h)
    go Kind.unknown e rest = rw (AllowsLooped, e) tt
    go Kind.word e rest = elim (Option-cases s.descriptor) [
      | inl d ↦ rw (AllowsLooped, e, d) (rest none _ h)
      | inr (x, d) ↦ rw (AllowsLooped, e, d) tt
    ]
    go (Kind.flag f) e rest = rw (AllowsLooped, e) (rest none _ (set_flag-Allows f s h))
    go (Kind.valued o) e rest = rw (AllowsLooped, e) (rest (some o) s h)

environment-Allows :
    (env : Environment) (s t : Settings) → Allows s → parse_environment env s ≡ some t → Allows t
unfolding parse_environment
environment-Allows env s t h e = ground arith

-- What main may rely on.
pub record IsReady (s : Settings) : Type 0 where
  pub holders : is_pos s.max_holders ≡ true
  pub named : (s.list_mode || s.test_mode || valid_descriptor s.descriptor) ≡ true
  pub slot : is_neg s.preferred_slot || ltb_ℤ s.preferred_slot s.max_holders ≡ true

finish-IsReady :
    (env : Environment) (u t : Settings)
    → Allows u
    → check_settings (read_descriptor env (limit_holders env u)) ≡ parsed t
    → IsReady t
unfolding check_settings read_descriptor limit_holders descriptor_ok slot_ok
finish-IsReady env u t h e = record {
  holders = ground arith;
  named = ground arith;
  slot = ground arith;
}

after_loop-IsReady :
    (env : Environment) (l : Looped) (t : Settings)
    → AllowsLooped l
    → after_loop env l ≡ parsed t
    → IsReady t
unfolding after_loop
after_loop-IsReady env Looped.bad_usage t h e = absurd (ground arith)
after_loop-IsReady env Looped.shown t h e = absurd (ground arith)
after_loop-IsReady env (Looped.settings s) t h e = finish-IsReady env s t h e

-- If `parse_args` succeeds on options that allow a holder, as those of waitlock.c do, then at least one
-- holder is allowed, the preferred slot is none or below that number, and unless locks are listed or
-- tests are run there is a descriptor of at most 255 letters, digits, `_`, `-` and `.`.
pub parse_args-IsReady :
    (env : Environment) (args : List Str) (s t : Settings)
    → is_pos s.max_holders ≡ true
    → parse_args env args s ≡ parsed t
    → IsReady t
unfolding parse_args after_environment
parse_args-IsReady env args s t h e = elim (Option-cases (parse_environment env s)) [
  | inl none_left ↦ absurd (ground arith)
  | inr (u, found) ↦
      after_loop-IsReady env (parse_loop env.atof none args u) t
        (parse_loop-Allows env.atof none args u (environment-Allows env s u h found))
        (sym (ap (after_environment env args) found) ∙ e)
]
