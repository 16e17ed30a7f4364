-- ===== src/Lock/Check/Window.antt =====
-- `check_lock` on the file of a slot that `acquire_lock` has opened and not written yet.
use waitlock.Base.{ℕ, [], ◌≡◌, refl, true, ◌∷◌, ◌++◌, some, codes, length, ==_refl, arith}
use waitlock.Directory.{slot_name}
use waitlock.Directory.Entries.{contains-slot_name}
use waitlock.Lock.Check.{is_lock_of}
use waitlock.Lock.Check.Answers.{corrupt_lock}
use waitlock.LockFile.Empty.{empty_file, read-empty_file, validate-blank}
use waitlock.Text.{Str, starts_with, split_at}
use waitlock.Text.Decimal.{print_nat}
use waitlock.Text.Laws.{Lacks, split_at-append}

starts_with_self : (d : Str) → starts_with d d ≡ true
unfolding starts_with
starts_with_self [] = refl
starts_with_self (c ∷ d) = ground (arith, starts_with_self d)

split_at-slot_name :
    (d : Str) (slot : ℕ)
    → Lacks b'.' d
    → split_at b'.' (slot_name d slot) ≡ some (d, codes "slot" ++ (print_nat slot ++ codes ".lock"))
unfolding slot_name
split_at-slot_name d slot lacks = split_at-append b'.' d _ lacks

is_lock_of-slot_name : (d : Str) (slot : ℕ) → Lacks b'.' d → is_lock_of d (slot_name d slot) ≡ true
unfolding is_lock_of
is_lock_of-slot_name d slot lacks =
    rw
      (
        split_at-slot_name d slot lacks,
        is_lock_of,
        starts_with_self d,
        ==_refl (length d),
        contains-slot_name d slot,
      )
      refl

-- The empty file of a slot counts as a corrupted lock.
pub corrupt_lock-empty_file :
    (d : Str) (slot : ℕ) → Lacks b'.' d → corrupt_lock d (slot_name d slot, empty_file) ≡ true
corrupt_lock-empty_file d slot lacks =
    rw (is_lock_of-slot_name d slot lacks, read-empty_file, validate-blank) refl
