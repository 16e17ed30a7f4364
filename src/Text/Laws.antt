-- ===== src/Text/Laws.antt =====
-- Laws of the string functions: comparison is equality, a prefix is found, a printed number is
-- read back.
use mathlib.Core.List.{append_assoc}
use waitlock.Base.{
  ℕ, zero, suc, ◌+◌, ◌-◌, ◌*◌, ◌/◌, ◌%◌, ◌^◌, ◌<◌, ◌≡◌, refl, ap, ◌∙◌, sym, inl, inr, true, false,
  [], ◌∷◌, ◌++◌, arith, ltb, ◌==◌, Option, none, some, length, drop, Bool-cases, some_eq, All,
  All-append, length-append, length-replicate, length-take-le, take, replicate,
}
use waitlock.Base.Int.{ℤ, pos, negsuc}
use waitlock.Text.{Str, str_eq, starts_with, contains, split_at, store_string}
use waitlock.Text.Decimal.{
  digits_of, print_nat, print_int, leading_digits, is_digit, signed_digits, skip_space, clamp_long,
  atol, atoi, to_uint32, to_int32, IsInt32, IsInt64, to_int32-to_uint32,
}

pub str_eq_refl : (s : Str) → str_eq s s ≡ true
unfolding str_eq
str_eq_refl [] = refl
str_eq_refl (c ∷ s) = ground (arith, str_eq_refl s)

pub str_eq_sound : (s t : Str) → str_eq s t ≡ true → s ≡ t
unfolding str_eq
str_eq_sound [] [] h = refl
str_eq_sound [] (d ∷ t) h = cc
str_eq_sound (c ∷ s) [] h = cc
str_eq_sound (c ∷ s) (d ∷ t) h = ground (arith, str_eq_sound s t)

pub starts_with-append : (p s : Str) → starts_with p (p ++ s) ≡ true
unfolding starts_with
starts_with-append [] s = refl
starts_with-append (c ∷ p) s = ground (arith, starts_with-append p s)

pub starts_with_sound : (p s : Str) → starts_with p s ≡ true → p ++ drop (length p) s ≡ s
unfolding starts_with drop length
starts_with_sound [] s h = refl
starts_with_sound (c ∷ p) [] h = cc
starts_with_sound (c ∷ p) (d ∷ s) h = ground (arith, starts_with_sound p s)

pub contains-append : (a p s : Str) → contains p (a ++ (p ++ s)) ≡ true
unfolding contains starts_with
contains-append [] [] [] = refl
contains-append [] [] (d ∷ s) = refl
contains-append [] (c ∷ p) s = ground (arith, starts_with-append (c ∷ p) s)
contains-append (c ∷ a) p s = ground (arith, contains-append a p s)

-- No character of the string is `mark`.
abbrev pub Lacks : ℕ → Str → Type 0
Lacks mark = All (λ c. (c == mark) ≡ false)

pub split_at-append :
    (mark : ℕ) (s t : Str) → Lacks mark s → split_at mark (s ++ mark ∷ t) ≡ some (s, t)
unfolding split_at
split_at-append mark [] t h = ground arith
split_at-append mark (c ∷ s) t h = rw (h.0, split_at-append mark s t h.1)

-- Printing and reading numbers.
last_digit :
    (f n : ℕ) (s : Str) → leading_digits (n / 10) ((b'0' + n % 10) ∷ s) ≡ leading_digits n s
unfolding leading_digits
last_digit f n s =
    let whole : n / 10 * 10 + (b'0' + n % 10 - b'0') ≡ n = omega arith in
    let digit : is_digit (b'0' + n % 10) ≡ true = ground arith in rw (digit, whole)

digits_of-value :
    (f n : ℕ) (s : Str) → n < f → leading_digits 0 (digits_of f n ++ s) ≡ leading_digits n s
unfolding digits_of leading_digits
digits_of-value zero n s h = absurd (omega arith)
digits_of-value (suc f) n s h = elim (Bool-cases (ltb n 10)) [
  | inl small ↦ rw small (ground arith)
  | inr large ↦
      rw
        (
          large,
          append_assoc (digits_of f (n / 10)) ((b'0' + n % 10) ∷ []) s,
          digits_of-value f (n / 10) ((b'0' + n % 10) ∷ s) (ground arith),
        )
        (last_digit f n s)
]

-- A printed number starts with a digit.
abbrev StartsWithDigit : Str → Type 0
StartsWithDigit s = (c : ℕ) × (t : Str) × (s ≡ c ∷ t) × (is_digit c ≡ true)

StartsWithDigit-append : (s t : Str) → StartsWithDigit s → StartsWithDigit (s ++ t)
StartsWithDigit-append s t (c, r, e, d) = (c, r ++ t, rw e, d)

digits_of-StartsWithDigit : (f n : ℕ) → n < f → StartsWithDigit (digits_of f n)
unfolding digits_of
digits_of-StartsWithDigit zero n h = absurd (omega arith)
digits_of-StartsWithDigit (suc f) n h = elim (Bool-cases (ltb n 10)) [
  | inl small ↦ rw small (b'0' + n, [], refl, ground arith)
  | inr large ↦
      rw large (StartsWithDigit-append _ _ (digits_of-StartsWithDigit f (n / 10) (ground arith)))
]

-- What may stand behind a number: nothing, or a character that is no digit.
abbrev pub EndsNumber : Str → Type 0
EndsNumber [] = Unit
EndsNumber (c ∷ s) = is_digit c ≡ false

leading_digits_stop : (n : ℕ) (s : Str) → EndsNumber s → leading_digits n s ≡ n
unfolding leading_digits
leading_digits_stop n [] h = refl
leading_digits_stop n (c ∷ s) h = rw h

pub print_nat-value : (n : ℕ) (s : Str) → EndsNumber s → leading_digits 0 (print_nat n ++ s) ≡ n
unfolding print_nat
print_nat-value n s h = digits_of-value (suc n) n s (omega arith) ∙ leading_digits_stop n s h

skip_space_digit : (c : ℕ) (s : Str) → is_digit c ≡ true → skip_space (c ∷ s) ≡ c ∷ s
unfolding skip_space
skip_space_digit c s h = ground arith

signed_digits_digit :
    (c : ℕ) (s : Str) → is_digit c ≡ true → signed_digits (c ∷ s) ≡ pos (leading_digits 0 (c ∷ s))
unfolding signed_digits
signed_digits_digit c s h =
    let minus : (c == b'-') ≡ false = ground arith in
    let plus : (c == b'+') ≡ false = ground arith in rw (minus, plus)

signed_digits_nat :
    (t : Str) → StartsWithDigit t → signed_digits (skip_space t) ≡ pos (leading_digits 0 t)
signed_digits_nat t (c, r, e, d) = rw (e, skip_space_digit c r d) (signed_digits_digit c r d)

print_nat-StartsWithDigit : (n : ℕ) → StartsWithDigit (print_nat n)
unfolding print_nat
print_nat-StartsWithDigit n = digits_of-StartsWithDigit (suc n) n (omega arith)

negative :
    (n : ℕ) (s : Str)
    → EndsNumber s
    → signed_digits (skip_space (b'-' ∷ (print_nat (suc n) ++ s))) ≡ negsuc n
unfolding signed_digits skip_space
negative n s h = rw (print_nat-value (suc n) s h)

signed_digits-print_int :
    (z : ℤ) (s : Str) → EndsNumber s → signed_digits (skip_space (print_int z ++ s)) ≡ z
unfolding print_int
signed_digits-print_int (pos n) s h =
    signed_digits_nat _ (StartsWithDigit-append _ s (print_nat-StartsWithDigit n))
    ∙ ap pos (print_nat-value n s h)
signed_digits-print_int (negsuc n) s h = negative n s h

-- A `long` that was printed is read back by atol, and an `int` by atoi, whatever follows that does
-- not go on with a digit.
pub atol-print_int : (z : ℤ) (s : Str) → IsInt64 z → EndsNumber s → atol (print_int z ++ s) ≡ z
unfolding atol clamp_long
atol-print_int (pos n) s h e = rw (signed_digits-print_int (pos n) s e) (ground arith)
atol-print_int (negsuc n) s h e = rw (signed_digits-print_int (negsuc n) s e) (ground arith)

pub IsInt32-IsInt64 : (z : ℤ) → IsInt32 z → IsInt64 z
IsInt32-IsInt64 (pos n) h = omega arith
IsInt32-IsInt64 (negsuc n) h = omega arith

pub atoi-print_int : (z : ℤ) (s : Str) → IsInt32 z → EndsNumber s → atoi (print_int z ++ s) ≡ z
unfolding atoi
atoi-print_int z s h e = rw (atol-print_int z s (IsInt32-IsInt64 z h) e) (to_int32-to_uint32 z h)

-- A `uint32_t` printed by `%u` survives its way through `int`.
pub atoi-print_nat :
    (w : ℕ) (s : Str) → w < 2 ^ 32 → EndsNumber s → to_uint32 (atoi (print_nat w ++ s)) ≡ w
unfolding atoi print_int to_uint32 to_int32
atoi-print_nat w s h e = rw (atol-print_int (pos w) s (omega arith) e) (ground arith)

-- A stored string fills its array.
pub length-store_string : (size : ℕ) (s : Str) → 0 < size → length (store_string size s) ≡ size
unfolding store_string
length-store_string size s h = omega (
  arith,
  length-append (take (size - 1) s) (replicate (size - length (take (size - 1) s)) 0),
  length-replicate {A = ℕ} (size - length (take (size - 1) s)) 0,
  length-take-le (size - 1) s,
)

All-take {κ} : (P : ℕ → Type κ) (n : ℕ) (s : Str) → All P s → All P (take n s)
unfolding take
All-take P zero s h = tt
All-take P (suc n) [] h = tt
All-take P (suc n) (c ∷ s) h = (h.0, All-take P n s h.1)

All-replicate {κ} : (P : ℕ → Type κ) (n c : ℕ) → P c → All P (replicate n c)
unfolding replicate
All-replicate P zero c h = tt
All-replicate P (suc n) c h = (h, All-replicate P n c h)

pub All-store_string {κ} :
    (P : ℕ → Type κ) (size : ℕ) (s : Str) → P 0 → All P s → All P (store_string size s)
unfolding store_string
All-store_string P size s z h =
    All-append P (take (size - 1) s) _ (All-take P (size - 1) s h) (All-replicate P _ 0 z)

split_more :
    (mark c : ℕ) (s : Str) (p : Str × Str) (o : Option (Str × Str))
    → (c == mark) ≡ false
    → split_at mark s ≡ o
    → split_at mark (c ∷ s) ≡ some p
    → (r : Str × Str) × (split_at mark s ≡ some r) × (p.0 ≡ c ∷ r.0)
unfolding split_at
split_more mark c s p none miss e h = cc (rw (miss, e) at h)
split_more mark c s p (some r) miss e h =
    let same : p ≡ (c ∷ r.0, r.1) = sym (some_eq (rw (miss, e) at h)) in
    (r, e, ap (λ (x : Str × Str). x.0) same)

-- The text before the first mark has no mark.
pub split_at-Lacks :
    (mark : ℕ) (s : Str) (p : Str × Str) → split_at mark s ≡ some p → Lacks mark p.0
unfolding split_at
split_at-Lacks mark [] p h = cc
split_at-Lacks mark (c ∷ s) p h = elim (Bool-cases (c == mark)) [
  | inl hit ↦ let same : p ≡ ([], s) = sym (some_eq (rw hit at h)) in rw same tt
  | inr miss ↦
      let (r, e, first) = split_more mark c s p (split_at mark s) miss refl h in
      rw first (miss, split_at-Lacks mark s r e)
]

-- A prefix of the same length is the whole.
pub starts_with_whole : (a d : Str) → starts_with a d ≡ true → length a ≡ length d → a ≡ d
unfolding starts_with length
starts_with_whole [] [] h l = refl
starts_with_whole [] (c ∷ d) h l = absurd (omega arith)
starts_with_whole (c ∷ a) [] h l = cc
starts_with_whole (c ∷ a) (e ∷ d) h l = ground (arith, starts_with_whole a d)
