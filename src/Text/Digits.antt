-- ===== src/Text/Digits.antt =====
-- The characters and the length of a printed number.
use waitlock.Base.{
  ℕ, zero, suc, ◌+◌, ◌*◌, ◌/◌, ◌%◌, ◌^◌, ◌≤◌, ◌<◌, ◌≡◌, inl, inr, true, false, [], ◌∷◌, arith, ltb,
  ◌==◌, length, length-append, All-append, Bool-cases,
}
use waitlock.Base.Int.{ℤ, pos, negsuc}
use waitlock.Text.Decimal.{digits_of, print_nat, print_int, IsInt64}
use waitlock.Text.Laws.{Lacks}

digits_of-Lacks :
    (mark f n : ℕ) → ((d : ℕ) → d < 10 → ((b'0' + d) == mark) ≡ false) → Lacks mark (digits_of f n)
unfolding digits_of
digits_of-Lacks mark zero n h = tt
digits_of-Lacks mark (suc f) n h = elim (Bool-cases (ltb n 10)) [
  | inl small ↦ rw small (h n (ground arith), tt)
  | inr large ↦ rw large (
      All-append (λ c. (c == mark) ≡ false) (digits_of f (n / 10)) ((b'0' + n % 10) ∷ [])
        (digits_of-Lacks mark f (n / 10) h) (h (n % 10) (omega arith), tt))
]

-- A printed number has neither a NUL nor a newline.
pub print_int-Lacks :
    (mark : ℕ) (z : ℤ)
    → (b'-' == mark) ≡ false
    → ((d : ℕ) → d < 10 → ((b'0' + d) == mark) ≡ false)
    → Lacks mark (print_int z)
unfolding print_int print_nat
print_int-Lacks mark (pos n) m h = digits_of-Lacks mark (suc n) n h
print_int-Lacks mark (negsuc n) m h = (m, digits_of-Lacks mark (suc (suc n)) (suc n) h)

ten_times : (k : ℕ) → 10 ^ suc k ≡ 10 * 10 ^ k
ten_times k = omega arith

length-digits_of : (k f n : ℕ) → n < 10 ^ suc k → length (digits_of f n) ≤ suc k
unfolding digits_of length
length-digits_of k zero n h = omega arith
length-digits_of zero (suc f) n h =
    let small : ltb n 10 ≡ true = ground arith in rw small (omega arith)
length-digits_of (suc k) (suc f) n h = elim (Bool-cases (ltb n 10)) [
  | inl small ↦ rw small (omega arith)
  | inr large ↦
      let fewer : n / 10 < 10 ^ suc k = omega (arith, ten_times (suc k)) in
      rw large (
        omega (
          arith,
          length-append (digits_of f (n / 10)) ((b'0' + n % 10) ∷ []),
          length-digits_of k f (n / 10) fewer,
        ))
]

-- A number of 64 bits is printed in 20 characters at most.
pub length-print_int : (z : ℤ) → IsInt64 z → length (print_int z) ≤ 20
unfolding print_int print_nat length
length-print_int (pos n) h = omega (arith, length-digits_of 18 (suc n) n (omega arith))
length-print_int (negsuc n) h =
    omega (arith, length-digits_of 18 (suc (suc n)) (suc n) (omega arith))
