-- ===== src/Main/Program/Descriptor.antt =====
-- `main` never hands a null pointer on as the descriptor.
use waitlock.Args.{Settings, Parsed, usage, quits, parsed}
use waitlock.Args.Options.{parse_args}
use waitlock.Base.{◌≡◌, ◌≢◌, refl, List, Option, none, some}
use waitlock.Directory.{Dir}
use waitlock.Globals.{GlobalState}
use waitlock.Main.{Mode, mode_of, initial_settings, with_debug}
use waitlock.Main.Modes.{HasDescriptor, mode_of-HasDescriptor}
use waitlock.Main.Program.{
  Outside, ended, null_descriptor, with_descriptor, run_mode, after_parse, main,
}
use waitlock.Main.Run.{Ending}
use waitlock.Text.{Str}

ended-not_null : (e : Ending) → ended e ≢ null_descriptor
ended-not_null e h = cc

given-not_null :
    (f : Str → Ending) (d : Option Str) → HasDescriptor d → with_descriptor f d ≢ null_descriptor
given-not_null f none h = absurd h
given-not_null f (some d) h = ended-not_null (f d)

mode-not_null :
    (o : Outside) (s : Settings) (dir : Dir) (m : Mode)
    → (m ≢ Mode.tests → m ≢ Mode.listing → HasDescriptor s.descriptor)
    → run_mode o s dir m ≢ null_descriptor
unfolding run_mode
mode-not_null o s dir Mode.tests h = ended-not_null _
mode-not_null o s dir Mode.listing h = ended-not_null _
mode-not_null o s dir Mode.checking h = given-not_null _ s.descriptor (h (λ e. cc) (λ e. cc))
mode-not_null o s dir Mode.ending h = given-not_null _ s.descriptor (h (λ e. cc) (λ e. cc))
mode-not_null o s dir Mode.executing h = given-not_null _ s.descriptor (h (λ e. cc) (λ e. cc))
mode-not_null o s dir Mode.locking h = given-not_null _ s.descriptor (h (λ e. cc) (λ e. cc))

-- Whatever the arguments, the environment and the answers of the system are, no operation of the
-- program gets a null pointer for its descriptor.
pub main-not_null :
    (o : Outside) (args : List Str) (dir : Dir) (g : GlobalState)
    → main o args dir g ≢ null_descriptor
unfolding main after_parse
main-not_null o args dir g =
    go (parse_args o.environment args (initial_settings (with_debug o.debug g))) refl
  where
    go :
        (p : Parsed)
        → parse_args o.environment args (initial_settings (with_debug o.debug g)) ≡ p
        → after_parse o dir p ≢ null_descriptor
    go usage e = ended-not_null _
    go quits e = ended-not_null _
    go (parsed s) e =
        mode-not_null o s dir (mode_of s)
          λ t l. (mode_of-HasDescriptor o.environment args (with_debug o.debug g) s e t l).0
