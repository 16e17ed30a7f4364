-- ===== src/Examples/Orders.antt =====
-- Runs on a directory in two orders, and on options beside the usage message.
use mathlib.Core.List.{Mem}
use waitlock.Base.{
  none, ◌≢◌, ◌⊎◌, ◌%◌, ◌^◌, ℕ, ◌≡◌, refl, sym, true, [], ◌∷◌, codes, some, arith, All, ◌&&◌, ◌==◌,
  ==_refl, length,
}
use waitlock.Base.Int.{pos}
use mathlib.Core.List.Permᴰ
use waitlock.Args.Options.{Kind, classify}
use waitlock.Directory.{slot_name}
use waitlock.Examples.{app, lock_dir, host, everyone_lives, slots, quiet_round}
use waitlock.Examples.Locks.{host_fits}
use waitlock.Globals.{initial_state, e_success, e_busy}
use waitlock.Lock.Acquire.{acquire_lock}
use waitlock.Lock.Acquire.Order.{acquire_lock-order, seen, IsUnordered}
use waitlock.Lock.Check.{check_lock, is_lock_of}
use waitlock.Lock.Check.Order.{check_lock_order, IsHeld}
use waitlock.Lock.Claim.{slot_file, slot_info, prepare_info}
use waitlock.Lock.Claim.Laws.{prepare_info-IsValid, read-slot_file}
use waitlock.LockFile.{File}
use waitlock.Messages.Documented.{format_word, shown-classify}
use waitlock.Messages.Shown.{shown, taken, synopsis}
use waitlock.LockInfo.Corruption.{validate-sealed}
use waitlock.LockInfo.{lock_magic, validate_lock_checksum}
use waitlock.LockFile.{fgets, strip_newline}
use waitlock.Process.Platforms.{Platform, other, platform_cmdline, ps_cmdline, ps_line}
use waitlock.Process.Platforms.Stored.{prepare_info-cmdline}
use waitlock.Process.{process_exists}
use waitlock.Text.Decimal.{print_nat, digits_of}
use waitlock.Text.{c_string, Str, str_eq, split_at, contains, starts_with}

-- The lock of a slot, of a semaphore for so many.
abbrev file_for : ℕ → ℕ → File
file_for m slot = slot_file slots (prepare_info host app m) slot

abbrev first : Str × File
first = (slot_name app 0, file_for 2 0)

abbrev second : Str × File
second = (slot_name app 1, file_for 3 1)

quiet-IsUnordered : All IsUnordered (quiet_round ∷ [])
quiet-IsUnordered = ((λ x y h. h), tt)

acquire_lock-order_example :
    seen (
      acquire_lock
        (some lock_dir)
        host
        app
        3
        (pos 1000000)
        0
        (quiet_round ∷ [])
        (first ∷ second ∷ [])
        initial_state)
    ≡ seen (
        acquire_lock
          (some lock_dir)
          host
          app
          3
          (pos 1000000)
          0
          (quiet_round ∷ [])
          (second ∷ first ∷ [])
          initial_state)
acquire_lock-order_example =
    acquire_lock-order (some lock_dir) host app 3 (pos 1000000) 0 (quiet_round ∷ [])
      (first ∷ second ∷ []) (second ∷ first ∷ []) initial_state quiet-IsUnordered
      (Permᴰ.swap refl refl)

accepted_for :
    (m slot : ℕ)
    → ((slot_info slots (prepare_info host app m) slot).magic == lock_magic
        && validate_lock_checksum (some (slot_info slots (prepare_info host app m) slot))
        && process_exists everyone_lives (slot_info slots (prepare_info host app m) slot).pid)
      ≡ true
unfolding slot_info prepare_info process_exists
accepted_for m slot = ground (
  arith,
  validate-sealed
      (record (prepare_info host app m) { slot = slot % 2 ^ 16; acquired_at = pos 1700000000 }),
  ==_refl lock_magic,
)

file_for-IsHeld :
    (m slot : ℕ)
    → is_lock_of app (slot_name app slot) ≡ true
    → IsHeld everyone_lives app
        (slot_name app slot, file_for m slot)
        (slot_info slots (prepare_info host app m) slot)
unfolding prepare_info
file_for-IsHeld m slot named = record {
  named = named;
  read =
      read-slot_file slots (prepare_info host app m) slot
        (prepare_info-IsValid host app m host_fits) refl (omega arith);
  accepted = accepted_for m slot;
}

check_lock_order_example :
    ((check_lock (some lock_dir) true everyone_lives app (first ∷ second ∷ [])).0 ≡ e_success)
    × ((check_lock (some lock_dir) true everyone_lives app (second ∷ first ∷ [])).0 ≡ e_busy)
unfolding is_lock_of slot_name print_nat digits_of split_at str_eq contains starts_with slot_info
    prepare_info length
check_lock_order_example =
    check_lock_order lock_dir everyone_lives app first second _ _ (file_for-IsHeld 2 0 refl)
      (file_for-IsHeld 3 1 refl) (omega arith) (omega arith)

shown-classify_example :
    (shown (codes "--lock-dir") ≡ taken (classify (codes "--lock-dir")))
    × All (λ w. (taken (classify w) ≢ none) ⊎ (w ≡ format_word)) synopsis
    × Mem format_word synopsis
    × (classify format_word ≡ Kind.unknown)
shown-classify_example = shown-classify (codes "--lock-dir")

-- `ps` gives a line.
abbrev ps_answer : Platform
ps_answer = other (some (codes "sh\n"))

ps_read : platform_cmdline ps_answer ≡ some (codes "sh")
unfolding platform_cmdline ps_cmdline ps_line fgets strip_newline c_string
ps_read = refl

prepare_info-cmdline_example : c_string (prepare_info host app 1).cmdline ≡ codes "sh"
prepare_info-cmdline_example =
    prepare_info-cmdline host ps_answer app 1 (codes "sh") (sym ps_read) ps_read
