-- ===== src/Main/Modes.antt =====
-- What the modes of `main` may rely on.
use waitlock.Args.{Environment, Settings, parsed, valid_chars, valid_descriptor}
use waitlock.Args.Checked.{parse_args-IsReady}
use waitlock.Args.Options.{parse_args}
use waitlock.Base.{◌≡◌, refl, ◌≤◌, ◌≢◌, length, true, List, Option, none, some, arith}
use waitlock.Base.Int.{is_pos}
use waitlock.Globals.{GlobalState}
use waitlock.LockInfo.{max_desc_len}
use waitlock.Main.{Mode, mode_of, initial_settings}
use waitlock.Text.{Str}

-- The descriptor that the operations get.
abbrev pub HasDescriptor : Option Str → Type 0
HasDescriptor none = ⊥
HasDescriptor (some d) = (valid_chars d ≡ true) × (length d ≤ max_desc_len)

valid-HasDescriptor : (d : Option Str) → valid_descriptor d ≡ true → HasDescriptor d
valid-HasDescriptor none h = ground arith
valid-HasDescriptor (some d) h = (ground arith, ground arith)

-- When `main` starts from the initial options and `parse_args` succeeds, every mode but the list and
-- the tests has a descriptor of at most 255 allowed characters, which fits a `lock_info`, and at least
-- one holder is allowed.
pub mode_of-HasDescriptor :
    (env : Environment) (args : List Str) (g : GlobalState) (s : Settings)
    → parse_args env args (initial_settings g) ≡ parsed s
    → mode_of s ≢ Mode.tests
    → mode_of s ≢ Mode.listing
    → HasDescriptor s.descriptor × (is_pos s.max_holders ≡ true)
unfolding mode_of initial_settings
mode_of-HasDescriptor env args g s e no_tests no_list =
    let r = parse_args-IsReady env args (initial_settings g) s refl e in
    (valid-HasDescriptor s.descriptor (ground (arith, r.named)), r.holders)
