-- ===== src/LockFile/Fields.antt =====
-- The lines of a lock_info in the text format, and when each of them is read whole.
use waitlock.Base.{
  ℕ, ◌+◌, ◌^◌, ◌<◌, ◌≡◌, refl, true, List, [], ◌∷◌, codes, ◌==◌, length, Bool, not, ◌&&◌,
  Bool-cases, inl, inr, All, arith, if◌then◌else◌,
}
use mathlib.Core.List.{append-nil}
use waitlock.Base.Int.{ℤ, pos}
use waitlock.LockFile.{write_text_lock_file}
use waitlock.LockFile.Lines.{lines_of, IsPlain, IsLine}
use waitlock.LockInfo.{LockInfo, IsValid}
use waitlock.Text.Strings.{c_string-Lacks_nul, length-c_string}
use waitlock.Text.{Str, c_string}
use waitlock.Text.Decimal.{print_nat, print_int, to_int32, IsInt64, to_int32-IsInt32}
use waitlock.Text.Digits.{print_int-Lacks, length-print_int}
use waitlock.Text.Laws.{IsInt32-IsInt64, Lacks}

-- The lines of a struct, in their order.
abbrev pub type_name : ℕ → Str
type_name t = if t == 0 then codes "mutex" else codes "semaphore"

abbrev pub numbers : LockInfo → List (Str × Str) → List (Str × Str)
numbers i more =
    (codes "VERSION", print_nat i.version)
    ∷ (codes "PID", print_int i.pid)
    ∷ (codes "PPID", print_int i.ppid)
    ∷ (codes "UID", print_int (to_int32 i.uid))
    ∷ (codes "ACQUIRED", print_int i.acquired_at)
    ∷ (codes "TYPE", type_name i.lock_type)
    ∷ (codes "MAX_HOLDERS", print_nat i.max_holders)
    ∷ (codes "SLOT", print_nat i.slot)
    ∷ more

abbrev pub texts : LockInfo → List (Str × Str)
texts i =
    (codes "HOSTNAME", c_string i.hostname)
    ∷ (codes "DESCRIPTOR", c_string i.descriptor)
    ∷ (codes "COMMAND", c_string i.cmdline)
    ∷ []

pub write-lines_of : (i : LockInfo) → write_text_lock_file i ≡ lines_of (numbers i (texts i))
unfolding write_text_lock_file lines_of
write-lines_of i = simp (append-nil)

-- No text in the struct has a newline, and the command fits a line.
pub record HasLines (i : LockInfo) : Type 0 where
  pub hostname_line : Lacks b'\n' (c_string i.hostname)
  pub descriptor_line : Lacks b'\n' (c_string i.descriptor)
  pub cmdline_line : Lacks b'\n' (c_string i.cmdline)
  pub cmdline_short : length (c_string i.cmdline) < 1015

-- A key that a line may start with.
is_key : Str → Bool
is_key [] = true
is_key (c ∷ s) = not (c == 0) && not (c == b'\n') && not (c == b'=') && is_key s

record IsKey (key : Str) : Type 0 where
  plain : IsPlain key
  no_equals : Lacks b'=' key

is_key-IsKey : (s : Str) → is_key s ≡ true → IsKey s
unfolding is_key
is_key-IsKey [] h = record { plain = record { no_nul = tt; no_newline = tt }; no_equals = tt }
is_key-IsKey (c ∷ s) h =
    let rest = is_key-IsKey s (ground arith) in
    record {
      plain = record {
        no_nul = (ground arith, rest.plain.no_nul);
        no_newline = (ground arith, rest.plain.no_newline);
      };
      no_equals = (ground arith, rest.no_equals);
    }

number-IsLine :
    (key : Str) (z : ℤ)
    → is_key key ≡ true
    → length key < 1000
    → IsInt64 z
    → IsLine (key, print_int z)
number-IsLine key z is short fits = record {
  key = (is_key-IsKey key is).plain;
  no_equals = (is_key-IsKey key is).no_equals;
  value = record {
    no_nul = print_int-Lacks 0 z refl (λ d h. ground arith);
    no_newline = print_int-Lacks b'\n' z refl (λ d h. ground arith);
  };
  fits = omega (arith, length-print_int z fits);
}

text-IsLine :
    (key : Str) (s : List ℕ)
    → is_key key ≡ true
    → Lacks b'\n' (c_string s)
    → length key + length (c_string s) < 1022
    → IsLine (key, c_string s)
text-IsLine key s is line fits = record {
  key = (is_key-IsKey key is).plain;
  no_equals = (is_key-IsKey key is).no_equals;
  value = record { no_nul = c_string-Lacks_nul s; no_newline = line };
  fits = fits;
}

type-IsLine : (t : ℕ) → IsLine (codes "TYPE", type_name t)
unfolding is_key length
type-IsLine t = elim (Bool-cases (t == 0)) [
  | inl mutex ↦ rw mutex (literal (codes "mutex") refl (omega arith))
  | inr semaphore ↦ rw semaphore (literal (codes "semaphore") refl (omega arith))
]
  where
    literal : (s : Str) → is_key s ≡ true → length s < 1000 → IsLine (codes "TYPE", s)
    literal s is short = record {
      key = (is_key-IsKey (codes "TYPE") refl).plain;
      no_equals = (is_key-IsKey (codes "TYPE") refl).no_equals;
      value = (is_key-IsKey s is).plain;
      fits = omega arith;
    }

nat-IsLine :
    (key : Str) (n : ℕ)
    → is_key key ≡ true
    → length key < 1000
    → n < 2 ^ 32
    → IsLine (key, print_nat n)
unfolding print_int
nat-IsLine key n is short fits = number-IsLine key (pos n) is short (omega arith)

pub lines-IsLine : (i : LockInfo) → IsValid i → HasLines i → All IsLine (numbers i (texts i))
unfolding is_key length
lines-IsLine i v h =
    let host = length-c_string i.hostname in
    let desc = length-c_string i.descriptor in
    (
      nat-IsLine (codes "VERSION") i.version refl (omega arith) v.version_fits,
      (
        number-IsLine (codes "PID") i.pid refl (omega arith) (IsInt32-IsInt64 i.pid v.pid_fits),
        (
          number-IsLine (codes "PPID") i.ppid refl (omega arith)
              (IsInt32-IsInt64 i.ppid v.ppid_fits),
          (
            number-IsLine (codes "UID") (to_int32 i.uid) refl (omega arith)
                (IsInt32-IsInt64 (to_int32 i.uid) (to_int32-IsInt32 i.uid v.uid_fits)),
            (
              number-IsLine (codes "ACQUIRED") i.acquired_at refl (omega arith) v.acquired_at_fits,
              (
                type-IsLine i.lock_type,
                (
                  nat-IsLine (codes "MAX_HOLDERS") i.max_holders refl (omega arith) (omega arith),
                  (
                    nat-IsLine (codes "SLOT") i.slot refl (omega arith) (omega arith),
                    (
                      text-IsLine (codes "HOSTNAME") i.hostname refl h.hostname_line
                          (omega (arith, host, v.hostname_fits)),
                      (
                        text-IsLine (codes "DESCRIPTOR") i.descriptor refl h.descriptor_line
                            (omega (arith, desc, v.descriptor_fits)),
                        (
                          text-IsLine (codes "COMMAND") i.cmdline refl h.cmdline_line
                              (omega (arith, h.cmdline_short)),
                          tt,
                        ),
                      ),
                    ),
                  ),
                ),
              ),
            ),
          ),
        ),
      ),
    )
