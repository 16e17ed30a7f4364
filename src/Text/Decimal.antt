-- ===== src/Text/Decimal.antt =====
-- `%d`, `%u`, `%ld`, and the C library's atoi and atol (glibc's: a value outside `long` is clamped,
-- and atoi keeps the low 32 bits).
use waitlock.Base.{
  ℕ, zero, suc, ◌+◌, ◌-◌, ◌*◌, ◌/◌, ◌%◌, ◌^◌, ◌<◌, ◌≡◌, Bool, ◌&&◌, ◌||◌, [], ◌∷◌, ◌++◌, arith, ltb,
  leb, ◌==◌, if◌then◌else◌,
}
use waitlock.Base.Int.{ℤ, pos, negsuc}
use waitlock.Text.{Str}

-- Decimal digits, the highest first; the fuel bounds their number.
unfoldable pub digits_of : ℕ → ℕ → Str
digits_of zero n = []
digits_of (suc f) n =
    let rest = digits_of f (n / 10) in
    if ltb n 10 then (b'0' + n) ∷ [] else rest ++ (b'0' + n % 10) ∷ []

unfoldable pub print_nat : ℕ → Str
unfolding digits_of
print_nat n = digits_of (suc n) n

unfoldable pub print_int : ℤ → Str
unfolding print_nat
print_int (pos n) = print_nat n
print_int (negsuc n) = b'-' ∷ print_nat (suc n)

abbrev pub is_digit : ℕ → Bool
is_digit c = leb b'0' c && leb c b'9'

-- space, and the control characters from tab to carriage return
abbrev pub is_space : ℕ → Bool
is_space c = c == 32 || leb 9 c && leb c 13

-- The value of the leading digits, on top of those read already.
unfoldable pub leading_digits : ℕ → Str → ℕ
leading_digits acc [] = acc
leading_digits acc (c ∷ s) =
    let rest = leading_digits (acc * 10 + (c - b'0')) s in if is_digit c then rest else acc

negate : ℕ → ℤ
negate zero = pos 0
negate (suc n) = negsuc n

-- The text behind the blanks, with its sign.
unfoldable pub signed_digits : Str → ℤ
unfolding leading_digits negate
signed_digits [] = pos 0
signed_digits (c ∷ s) =
    if c == b'-'
    then negate (leading_digits 0 s)
    else if c == b'+'
    then pos (leading_digits 0 s)
    else pos (leading_digits 0 (c ∷ s))

unfoldable pub skip_space : Str → Str
skip_space [] = []
skip_space (c ∷ s) = let rest = skip_space s in if is_space c then rest else c ∷ s

-- `long` has 64 bits.
unfoldable pub clamp_long : ℤ → ℤ
clamp_long (pos n) = if ltb n (2 ^ 63) then pos n else pos (2 ^ 63 - 1)
clamp_long (negsuc n) = if ltb n (2 ^ 63) then negsuc n else negsuc (2 ^ 63 - 1)

unfoldable pub atol : Str → ℤ
unfolding signed_digits skip_space clamp_long
atol s = clamp_long (signed_digits (skip_space s))

-- The low 32 bits of an integer, and the `int` that 32 bits stand for.
unfoldable pub to_uint32 : ℤ → ℕ
to_uint32 (pos n) = n % 2 ^ 32
to_uint32 (negsuc n) = 2 ^ 32 - 1 - n % 2 ^ 32

unfoldable pub to_int32 : ℕ → ℤ
to_int32 w = if ltb w (2 ^ 31) then pos w else negsuc (2 ^ 32 - 1 - w)

unfoldable pub to_uint64 : ℤ → ℕ
to_uint64 (pos n) = n % 2 ^ 64
to_uint64 (negsuc n) = 2 ^ 64 - 1 - n % 2 ^ 64

unfoldable pub to_int64 : ℕ → ℤ
to_int64 w = if ltb w (2 ^ 63) then pos w else negsuc (2 ^ 64 - 1 - w)

unfoldable pub atoi : Str → ℤ
unfolding atol to_int32 to_uint32
atoi s = to_int32 (to_uint32 (atol s))

-- The ranges of `int` and `long`.
abbrev pub IsInt32 : ℤ → Type 0
IsInt32 (pos n) = n < 2 ^ 31
IsInt32 (negsuc n) = n < 2 ^ 31

abbrev pub IsInt64 : ℤ → Type 0
IsInt64 (pos n) = n < 2 ^ 63
IsInt64 (negsuc n) = n < 2 ^ 63

pub to_int32-to_uint32 : (z : ℤ) → IsInt32 z → to_int32 (to_uint32 z) ≡ z
unfolding to_int32 to_uint32
to_int32-to_uint32 (pos n) h = ground arith
to_int32-to_uint32 (negsuc n) h = ground arith

pub to_int64-to_uint64 : (z : ℤ) → IsInt64 z → to_int64 (to_uint64 z) ≡ z
unfolding to_int64 to_uint64
to_int64-to_uint64 (pos n) h = ground arith
to_int64-to_uint64 (negsuc n) h = ground arith

pub to_uint32-to_int32 : (w : ℕ) → w < 2 ^ 32 → to_uint32 (to_int32 w) ≡ w
unfolding to_int32 to_uint32
to_uint32-to_int32 w h = ground arith

pub to_uint64-to_int64 : (w : ℕ) → w < 2 ^ 64 → to_uint64 (to_int64 w) ≡ w
unfolding to_int64 to_uint64
to_uint64-to_int64 w h = ground arith

pub to_int32-IsInt32 : (w : ℕ) → w < 2 ^ 32 → IsInt32 (to_int32 w)
unfolding to_int32
to_int32-IsInt32 w h = ground arith

pub to_uint32-lt : (z : ℤ) → to_uint32 z < 2 ^ 32
unfolding to_uint32
to_uint32-lt (pos n) = omega arith
to_uint32-lt (negsuc n) = omega arith

pub to_uint64-lt : (z : ℤ) → to_uint64 z < 2 ^ 64
unfolding to_uint64
to_uint64-lt (pos n) = omega arith
to_uint64-lt (negsuc n) = omega arith

pub atoi-IsInt32 : (s : Str) → IsInt32 (atoi s)
unfolding atoi
atoi-IsInt32 s = to_int32-IsInt32 _ (to_uint32-lt _)
