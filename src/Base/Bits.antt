-- ===== src/Base/Bits.antt =====
-- Laws of the native exclusive or, by its binary digits; and `& 0xff` as a remainder.
use Prim.Native.Nat.{
  ℕ, zero, suc, ◌+◌, ◌*◌, ◌/◌, ◌%◌, ◌^◌, ◌≤◌, ◌<◌, digits, differ, bitwise, bit_xor,
  bit_xor-bitwise, bit_and, min, bit_and-bitwise,
}
use mathlib.Core.Path.{◌≡◌, refl, ap, sym, ◌∙◌}
use native.Mathlib.Nat.{pow-suc}
use native.Mathlib.Omega.{arith}

module _ (z : ℕ → ℕ) (f : ℕ → ℕ → ℕ) where
  -- The fuel of `digits` does not matter once it bounds the first number.
  enough_digits : (n m a b : ℕ) → a ≤ n → a ≤ m → digits z f n a b ≡ digits z f m a b
  enough_digits zero zero a b p q = refl
  enough_digits zero (suc m) zero b p q = refl
  enough_digits zero (suc m) (suc a) b p q = absurd (omega arith)
  enough_digits (suc n) zero zero b p q = refl
  enough_digits (suc n) zero (suc a) b p q = absurd (omega arith)
  enough_digits (suc n) (suc m) zero b p q = refl
  enough_digits (suc n) (suc m) (suc a) b p q =
      rw (enough_digits n m (suc a / 2) (b / 2) (omega arith) (omega arith))

  step_suc :
      (a b : ℕ)
      → bitwise z f (suc a) b ≡ bitwise z f (suc a / 2) (b / 2) * 2 + f (suc a % 2) (b % 2)
  step_suc a b = rw (enough_digits a (suc a / 2) (suc a / 2) (b / 2) (omega arith) (omega arith))

differ-bits : (x y : ℕ) → x < 2 → y < 2 → differ x y ≡ (x + y) % 2
differ-bits zero y p q = omega arith
differ-bits (suc zero) zero p q = refl
differ-bits (suc zero) (suc y) p q = let e : y ≡ 0 = omega arith in rw e
differ-bits (suc (suc x)) y p q = absurd (omega arith)

differ-mod : (a b : ℕ) → differ (a % 2) (b % 2) ≡ (a + b) % 2
differ-mod a b = omega (arith, differ-bits (a % 2) (b % 2) (omega arith) (omega arith))

-- The lowest digit of an exclusive or, and the rest.
pub bit_xor_step : (a b : ℕ) → bit_xor a b ≡ bit_xor (a / 2) (b / 2) * 2 + (a + b) % 2
bit_xor_step zero b = simp bit_xor-bitwise (omega arith)
bit_xor_step (suc a) b =
    simp bit_xor-bitwise (step_suc (λ y. y) differ a b)
    ∙ ap (λ (t : ℕ). bit_xor (suc a / 2) (b / 2) * 2 + t) (differ-mod (suc a) b)

pub bit_xor-half : (a b : ℕ) → bit_xor a b / 2 ≡ bit_xor (a / 2) (b / 2)
bit_xor-half a b = omega (arith, bit_xor_step a b)

pub bit_xor-parity : (a b : ℕ) → bit_xor a b % 2 ≡ (a + b) % 2
bit_xor-parity a b = omega (arith, bit_xor_step a b)

module _ where
  below_self : (n a : ℕ) → a ≤ n → bit_xor a a ≡ 0
  below_self zero a h = let e : a ≡ 0 = omega arith in rw e
  below_self (suc n) a h = omega (arith, bit_xor_step a a, below_self n (a / 2) (omega arith))

  below_zero : (n a : ℕ) → a ≤ n → bit_xor a 0 ≡ a
  below_zero zero a h = let e : a ≡ 0 = omega arith in rw e
  below_zero (suc n) a h = omega (arith, bit_xor_step a 0, below_zero n (a / 2) (omega arith))

  below_comm : (n a b : ℕ) → a ≤ n → b ≤ n → bit_xor a b ≡ bit_xor b a
  below_comm zero a b h k =
      let e : a ≡ 0 = omega arith in let e' : b ≡ 0 = omega arith in rw (e, e')
  below_comm (suc n) a b h k = omega (
    arith,
    bit_xor_step a b,
    bit_xor_step b a,
    below_comm n (a / 2) (b / 2) (omega arith) (omega arith),
  )

  below_assoc :
      (n a b c : ℕ) → a ≤ n → b ≤ n → c ≤ n → bit_xor (bit_xor a b) c ≡ bit_xor a (bit_xor b c)
  below_assoc zero a b c h k l =
      let e : a ≡ 0 = omega arith in
      let e' : b ≡ 0 = omega arith in let e'' : c ≡ 0 = omega arith in rw (e, e', e'')
  below_assoc (suc n) a b c h k l =
      let halves : bit_xor (bit_xor a b / 2) (c / 2) ≡ bit_xor (a / 2) (bit_xor b c / 2) =
        rw (bit_xor-half a b, bit_xor-half b c)
          (below_assoc n (a / 2) (b / 2) (c / 2) (omega arith) (omega arith) (omega arith)) in
      omega (
        arith,
        bit_xor_step (bit_xor a b) c,
        bit_xor_step a (bit_xor b c),
        bit_xor-parity a b,
        bit_xor-parity b c,
        halves,
      )

pub bit_xor_self : (a : ℕ) → bit_xor a a ≡ 0
bit_xor_self a = below_self a a (omega arith)

pub bit_xor-zero : (a : ℕ) → bit_xor a 0 ≡ a
bit_xor-zero a = below_zero a a (omega arith)

pub bit_xor_comm : (a b : ℕ) → bit_xor a b ≡ bit_xor b a
bit_xor_comm a b = below_comm (a + b) a b (omega arith) (omega arith)

pub bit_xor_assoc : (a b c : ℕ) → bit_xor (bit_xor a b) c ≡ bit_xor a (bit_xor b c)
bit_xor_assoc a b c = below_assoc (a + b + c) a b c (omega arith) (omega arith) (omega arith)

-- What was mixed in twice is gone.
pub bit_xor_undo : (a b : ℕ) → bit_xor (bit_xor a b) b ≡ a
bit_xor_undo a b = rw (bit_xor_assoc a b b, bit_xor_self b) (bit_xor-zero a)

pub bit_xor_cancel : (a b c : ℕ) → bit_xor a c ≡ bit_xor b c → a ≡ b
bit_xor_cancel a b c h = sym (bit_xor_undo a c) ∙ ap (λ (t : ℕ). bit_xor t c) h ∙ bit_xor_undo b c

pub bit_xor_cancel_left : (a b c : ℕ) → bit_xor c a ≡ bit_xor c b → a ≡ b
bit_xor_cancel_left a b c h = bit_xor_cancel a b c (bit_xor_comm a c ∙ h ∙ bit_xor_comm c b)

-- An exclusive or has no more digits than its two arguments.
pub bit_xor-lt : (k a b : ℕ) → a < 2 ^ k → b < 2 ^ k → bit_xor a b < 2 ^ k
bit_xor-lt zero a b h k =
    let e : a ≡ 0 = omega arith in let e' : b ≡ 0 = omega arith in rw (e, e') (omega arith)
bit_xor-lt (suc k) a b h l = omega (
  arith,
  pow-suc 2 k,
  bit_xor_step a b,
  bit_xor-lt k (a / 2) (b / 2) (omega (arith, pow-suc 2 k)) (omega (arith, pow-suc 2 k)),
)

zero-bit_xor : (b : ℕ) → bit_xor 0 b ≡ b
zero-bit_xor b = bit_xor-bitwise 0 b

-- Numbers with no digit in common: the exclusive or is the sum.
pub bit_xor_fields : (k h l : ℕ) → l < 2 ^ k → bit_xor l (h * 2 ^ k) ≡ l + h * 2 ^ k
bit_xor_fields zero h l p =
    let e : l ≡ 0 = omega arith in rw e (omega (arith, zero-bit_xor (h * 2 ^ 0)))
bit_xor_fields (suc k) h l p =
    let shifted : h * 2 ^ suc k ≡ 2 * (h * 2 ^ k) =
      omega (arith, ap (λ (t : ℕ). h * t) (pow-suc 2 k)) in
    let halved : h * 2 ^ suc k / 2 ≡ h * 2 ^ k = omega (arith, shifted) in
    let rest : bit_xor (l / 2) (h * 2 ^ suc k / 2) ≡ l / 2 + h * 2 ^ k =
      rw halved (bit_xor_fields k h (l / 2) (omega (arith, pow-suc 2 k))) in
    omega (arith, bit_xor_step l (h * 2 ^ suc k), shifted, rest)

-- `x & 0xff`, by its digits.
zero-bit_and : (b : ℕ) → bit_and 0 b ≡ 0
zero-bit_and b = bit_and-bitwise 0 b

bit_and-digits : (x y : ℕ) → bit_and x y ≡ min (x % 2) (y % 2) + 2 * bit_and (x / 2) (y / 2)
bit_and-digits zero y = simp bit_and-bitwise (omega arith)
bit_and-digits (suc x) y =
    let e : bit_and (suc x) y ≡ bit_and (suc x / 2) (y / 2) * 2 + min (suc x % 2) (y % 2) =
      simp bit_and-bitwise (step_suc (λ d. 0) min x y) in
    omega arith

bit_and-zero : (n a : ℕ) → a ≤ n → bit_and a 0 ≡ 0
bit_and-zero zero a h = let e : a ≡ 0 = omega arith in rw e
bit_and-zero (suc n) a h = omega (arith, bit_and-digits a 0, bit_and-zero n (a / 2) (omega arith))

-- A mask that ends in a one keeps the lowest digit.
bit_and_odd : (a b c : ℕ) → b ≡ 2 * c + 1 → bit_and a b ≡ bit_and (a / 2) c * 2 + a % 2
bit_and_odd a b c h =
    let half : b / 2 ≡ c = omega arith in
    let low : min (a % 2) (b % 2) ≡ a % 2 = omega arith in
    bit_and-digits a b ∙ rw (half, low) (omega arith)

bit_and-one : (a : ℕ) → bit_and a 1 ≡ a % 2
bit_and-one a =
    omega (arith, bit_and_odd a 1 0 (omega arith), bit_and-zero (a / 2) (a / 2) (omega arith))

bit_and_three : (a : ℕ) → bit_and a 3 ≡ a % 4
bit_and_three a = omega (arith, bit_and_odd a 3 1 (omega arith), bit_and-one (a / 2))

bit_and_nibble : (a : ℕ) → bit_and a 15 ≡ a % 16
bit_and_nibble a = omega (
  arith,
  bit_and_odd a 15 7 (omega arith),
  bit_and_odd (a / 2) 7 3 (omega arith),
  bit_and_three (a / 2 / 2),
)

pub bit_and_byte : (a : ℕ) → bit_and a 0xff ≡ a % 256
bit_and_byte a = omega (
  arith,
  bit_and_odd a 0xff 0x7f (omega arith),
  bit_and_odd (a / 2) 0x7f 0x3f (omega arith),
  bit_and_odd (a / 2 / 2) 0x3f 0x1f (omega arith),
  bit_and_odd (a / 2 / 2 / 2) 0x1f 0xf (omega arith),
  bit_and_nibble (a / 2 / 2 / 2 / 2),
)
