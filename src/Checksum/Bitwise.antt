-- ===== src/Checksum/Bitwise.antt =====
-- The division by the reflected polynomial 0xedb88320, a bit at a time, and its agreement with the
-- table of checksum/checksum.c.
use waitlock.Base.{
  ℕ, ◌*◌, ◌/◌, ◌%◌, ◌^◌, ◌<◌, ◌≡◌, refl, sym, ap, ◌∙◌, true, List, [], ◌∷◌, arith, bit_xor, get_or,
  ◌==◌, ==_iff, if◌then◌else◌, all_below, all_below-true, All,
}
use waitlock.Base.Bits.{
  bit_xor_assoc, bit_xor_comm, bit_xor_self, bit_xor-zero, bit_xor-half, bit_xor-parity,
  bit_xor_fields, bit_and_byte,
}
use waitlock.Checksum.{crc32_table, crc32_round, crc32_loop, calculate_crc32}

abbrev pub polynomial : ℕ
polynomial = 0xedb88320

-- One bit of the division.
unfoldable pub shift_bit : ℕ → ℕ
shift_bit x = if x % 2 == 1 then bit_xor (x / 2) polynomial else x / 2

unfoldable pub shift_byte : ℕ → ℕ
shift_byte x =
    shift_bit (shift_bit (shift_bit (shift_bit (shift_bit (shift_bit (shift_bit (shift_bit x)))))))

shift_table : all_below 256 (λ i. get_or crc32_table i 0 == shift_byte i) ≡ true
unfolding all_below get_or crc32_table shift_byte shift_bit
shift_table = refl

-- Every entry of the table is its index, divided for eight bits.
pub crc32_table-shift_byte : (i : ℕ) → i < 256 → get_or crc32_table i 0 ≡ shift_byte i
crc32_table-shift_byte i h = (==_iff _ _).0 (all_below-true _ i 256 h shift_table)

xor_swap : (u v p : ℕ) → bit_xor (bit_xor u v) p ≡ bit_xor (bit_xor u p) v
xor_swap u v p = rw (bit_xor_assoc u v p, bit_xor_comm v p, bit_xor_assoc u p v)

xor_pair : (u v p : ℕ) → bit_xor (bit_xor u p) (bit_xor v p) ≡ bit_xor u v
xor_pair u v p =
    rw (bit_xor_comm v p, bit_xor_assoc u p (bit_xor p v), ← bit_xor_assoc p p v, bit_xor_self p)
      (ap (bit_xor u) (bit_xor_comm 0 v ∙ bit_xor-zero v))

-- The division is linear over exclusive or: a bit at a time, and a byte at a time.
shift_bit-xor : (a b : ℕ) → shift_bit (bit_xor a b) ≡ bit_xor (shift_bit a) (shift_bit b)
unfolding shift_bit
shift_bit-xor a b = ground (
  arith,
  bit_xor-parity a b,
  bit_xor-half a b,
  xor_swap (a / 2) (b / 2) polynomial,
  bit_xor_assoc (a / 2) (b / 2) polynomial,
  xor_pair (a / 2) (b / 2) polynomial,
)

shift_byte-xor : (a b : ℕ) → shift_byte (bit_xor a b) ≡ bit_xor (shift_byte a) (shift_byte b)
unfolding shift_byte
shift_byte-xor a b = simp shift_bit-xor

shift_bit_even : (x q : ℕ) → x ≡ q * 2 → shift_bit x ≡ q
unfolding shift_bit
shift_bit_even x q h = ground arith

-- Eight steps on a number with eight low zeros only shift it.
shift_byte_high : (q : ℕ) → shift_byte (q * 256) ≡ q
unfolding shift_byte
shift_byte_high q =
    rw
      (
        shift_bit_even (q * 256) (q * 128) (omega arith),
        shift_bit_even (q * 128) (q * 64) (omega arith),
        shift_bit_even (q * 64) (q * 32) (omega arith),
        shift_bit_even (q * 32) (q * 16) (omega arith),
        shift_bit_even (q * 16) (q * 8) (omega arith),
        shift_bit_even (q * 8) (q * 4) (omega arith),
        shift_bit_even (q * 4) (q * 2) (omega arith),
        shift_bit_even (q * 2) q (omega arith),
      )
      refl

-- A number by its low byte and the rest.
shift_byte_split : (x : ℕ) → bit_xor (shift_byte (x % 256)) (x / 256) ≡ shift_byte x
shift_byte_split x =
    let whole : bit_xor (x % 256) (x / 256 * 2 ^ 8) ≡ x =
      bit_xor_fields 8 (x / 256) (x % 256) (omega arith) ∙ omega arith in
    ap (bit_xor (shift_byte (x % 256))) (sym (shift_byte_high (x / 256)))
    ∙ sym (shift_byte-xor (x % 256) (x / 256 * 2 ^ 8))
    ∙ ap shift_byte whole

-- A byte does not reach the digits above it.
bit_xor_above : (c b : ℕ) → b < 256 → bit_xor c b / 256 ≡ c / 256
bit_xor_above c b h =
    let none_left : b / 2 / 2 / 2 / 2 / 2 / 2 / 2 / 2 ≡ 0 = omega arith in
    let top : bit_xor (c / 2 / 2 / 2 / 2 / 2 / 2 / 2 / 2) (b / 2 / 2 / 2 / 2 / 2 / 2 / 2 / 2)
        ≡ c / 2 / 2 / 2 / 2 / 2 / 2 / 2 / 2 =
      rw none_left (bit_xor-zero _) in
    omega (
      arith,
      bit_xor-half c b,
      bit_xor-half (c / 2) (b / 2),
      bit_xor-half (c / 2 / 2) (b / 2 / 2),
      bit_xor-half (c / 2 / 2 / 2) (b / 2 / 2 / 2),
      bit_xor-half (c / 2 / 2 / 2 / 2) (b / 2 / 2 / 2 / 2),
      bit_xor-half (c / 2 / 2 / 2 / 2 / 2) (b / 2 / 2 / 2 / 2 / 2),
      bit_xor-half (c / 2 / 2 / 2 / 2 / 2 / 2) (b / 2 / 2 / 2 / 2 / 2 / 2),
      bit_xor-half (c / 2 / 2 / 2 / 2 / 2 / 2 / 2) (b / 2 / 2 / 2 / 2 / 2 / 2 / 2),
      top,
    )

-- One round of the table loop is the division of the next eight bits.
pub crc32_round-shift_byte :
    (crc byte : ℕ) → byte < 256 → crc32_round crc byte ≡ shift_byte (bit_xor crc byte)
unfolding crc32_round
crc32_round-shift_byte crc byte h =
    rw
      (
        bit_and_byte (bit_xor crc byte),
        crc32_table-shift_byte (bit_xor crc byte % 256) (omega arith),
        ← bit_xor_above crc byte h,
      )
      (shift_byte_split (bit_xor crc byte))

-- CRC-32 without a table: mix in a byte, divide for eight bits.
unfoldable pub crc32_bits : ℕ → List ℕ → ℕ
crc32_bits crc [] = crc
crc32_bits crc (b ∷ bs) = crc32_bits (shift_byte (bit_xor crc b)) bs

abbrev pub IsByte : ℕ → Type 0
IsByte b = b < 256

loop-bits :
    (crc : ℕ) (bytes : List ℕ) → All IsByte bytes → crc32_loop crc bytes ≡ crc32_bits crc bytes
unfolding crc32_loop crc32_bits
loop-bits crc [] h = refl
loop-bits crc (b ∷ bs) h =
    rw (crc32_round-shift_byte crc b h.0) (loop-bits (shift_byte (bit_xor crc b)) bs h.1)

-- On every sequence of bytes, `calculate_crc32` with its table is the division by the reflected
-- polynomial 0xedb88320 a bit at a time, started from and finished with 0xffffffff.
pub calculate_crc32-bitwise :
    (bytes : List ℕ)
    → All IsByte bytes
    → calculate_crc32 bytes ≡ bit_xor (crc32_bits 0xffffffff bytes) 0xffffffff
unfolding calculate_crc32
calculate_crc32-bitwise bytes h = rw (loop-bits 0xffffffff bytes h)
