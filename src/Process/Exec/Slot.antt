-- ===== src/Process/Exec/Slot.antt =====
-- The number of the slot that the child of `exec_with_lock` finds in its environment.
use waitlock.Base.{
  ℕ, ◌^◌, ◌<◌, ◌≡◌, refl, ◌∙◌, true, [], ◌∷◌, ◌++◌, codes, some, length, drop, ltb, arith,
}
use waitlock.Base.Int.{pos}
use waitlock.Directory.{slot_name}
use waitlock.Directory.Search.{path_max}
use waitlock.Lock.Acquire.{slot_path}
use waitlock.Lock.Release.AfterAcquire.{slot_path_whole}
use waitlock.Process.Exec.{slot_variable}
use waitlock.Text.{Str, after_first, starts_with}
use waitlock.Text.Decimal.{print_nat, print_int, atoi}
use waitlock.Text.Laws.{Lacks, atoi-print_int}
use mathlib.Core.List.{append_assoc}

-- Without a dot in front, the first `.slot` is the one that follows.
after_first-slot :
    (p s : Str) → Lacks b'.' p → after_first (codes ".slot") (p ++ (codes ".slot" ++ s)) ≡ some s
unfolding after_first starts_with drop length
after_first-slot [] s l = refl
after_first-slot (c ∷ p) s l = ground (arith, l.0, after_first-slot p s l.1)

slot_path_parts :
    (lock_dir d : Str) (slot : ℕ)
    → length (lock_dir ++ b'/' ∷ slot_name d slot) < path_max
    → slot_path lock_dir d slot
      ≡ (lock_dir ++ b'/' ∷ d) ++ (codes ".slot" ++ (print_nat slot ++ codes ".lock"))
unfolding slot_name
slot_path_parts lock_dir d slot fits = slot_path_whole lock_dir d slot fits ∙ simp (append_assoc)

-- If more than one holder is allowed, the slot fits an `int`, neither the lock directory nor the
-- descriptor has a dot, and the path fits its buffer, then WAITLOCK_SLOT is the decimal number of the
-- slot whose file `g_state.lock_path` names.
pub slot_variable-slot_path :
    (max_holders slot : ℕ) (lock_dir d : Str)
    → 1 < max_holders
    → slot < 2 ^ 31
    → Lacks b'.' (lock_dir ++ b'/' ∷ d)
    → length (lock_dir ++ b'/' ∷ slot_name d slot) < path_max
    → slot_variable max_holders (slot_path lock_dir d slot) ≡ some (print_nat slot)
unfolding slot_variable print_int
slot_variable-slot_path max_holders slot lock_dir d many small lacks fits =
    let more : ltb 1 max_holders ≡ true = ground arith in
    rw
      (
        more,
        slot_path_parts lock_dir d slot fits,
        after_first-slot (lock_dir ++ b'/' ∷ d) (print_nat slot ++ codes ".lock") lacks,
        number,
      )
      refl
  where
    number : atoi (print_nat slot ++ codes ".lock") ≡ pos slot
    number = unfold print_int in atoi-print_int (pos slot) (codes ".lock") small refl
