-- ===== src/Args/Documented.antt =====
-- Command lines that the usage message shows.
use waitlock.Args.{Settings, Environment, usage}
use waitlock.Args.Options.{classify, spelled, parse_loop, parse_args, after_loop, after_environment}
use waitlock.Base.{◌≡◌, refl, List, ◌∷◌, ◌++◌, codes, Option-cases, inl, inr}
use waitlock.Args.{parse_environment}
use waitlock.Text.{Str, str_eq}

-- Whatever the format, the environment and the other arguments are, `parse_args` refuses the command
-- line `--list --format=<format>` as a usage error.
pub parse_args_format :
    (env : Environment) (v : Str) (args : List Str) (s : Settings)
    → parse_args env (codes "--list" ∷ ((codes "--format=" ++ v) ∷ args)) s ≡ usage
unfolding parse_args after_environment after_loop parse_loop classify spelled str_eq
parse_args_format env v args s = elim (Option-cases (parse_environment env s)) [
  | inl e ↦ rw e refl
  | inr (t, e) ↦ rw e refl
]
