-- ===== src/Checksum/Detect.antt =====
-- What the CRC-32 of checksum/checksum.c tells apart: the division is one to one on 32-bit words,
-- so two files that differ in one byte have different checksums.
use waitlock.Base.{
  ℕ, zero, suc, ◌+◌, ◌/◌, ◌^◌, ◌<◌, ◌≡◌, sym, ◌∙◌, ◌≢◌, List, [], ◌∷◌, ◌++◌, arith, bit_xor, All,
}
use waitlock.Base.Bits.{
  bit_xor_assoc, bit_xor_cancel, bit_xor_cancel_left, bit_xor-lt, bit_xor_fields,
}
use waitlock.Checksum.{crc32_loop, crc32_round, calculate_crc32}
use waitlock.Checksum.Bitwise.{polynomial, shift_bit, shift_byte, crc32_round-shift_byte, IsByte}

abbrev pub IsWord : ℕ → Type 0
IsWord x = x < 2 ^ 32

-- An odd number leaves its mark in the highest digit.
mark : (l : ℕ) → l < 2 ^ 31 → bit_xor l polynomial ≡ bit_xor l 0x6db88320 + 2 ^ 31
mark l h =
    sym (bit_xor_assoc l 0x6db88320 (2 ^ 31))
    ∙ bit_xor_fields 31 1 (bit_xor l 0x6db88320) (bit_xor-lt 31 l 0x6db88320 h (omega arith))

shift_bit-IsWord : (x : ℕ) → IsWord x → IsWord (shift_bit x)
unfolding shift_bit
shift_bit-IsWord x h = ground (arith, bit_xor-lt 32 (x / 2) polynomial (omega arith) (omega arith))

shift_bit_injective : (a b : ℕ) → IsWord a → IsWord b → shift_bit a ≡ shift_bit b → a ≡ b
unfolding shift_bit
shift_bit_injective a b ha hb e = ground (
  arith,
  mark (a / 2) (omega arith),
  mark (b / 2) (omega arith),
  bit_xor_cancel (a / 2) (b / 2) polynomial,
)

iterate : ℕ → ℕ → ℕ
iterate zero x = x
iterate (suc k) x = iterate k (shift_bit x)

shift_byte-IsWord : (x : ℕ) → IsWord x → IsWord (shift_byte x)
unfolding shift_byte
shift_byte-IsWord x h = keep _ (keep _ (keep _ (keep _ (keep _ (keep _ (keep _ (keep x h)))))))
  where
    keep : (y : ℕ) → IsWord y → IsWord (shift_bit y)
    keep = shift_bit-IsWord

shift_bits_injective : (k a b : ℕ) → IsWord a → IsWord b → iterate k a ≡ iterate k b → a ≡ b
unfolding iterate
shift_bits_injective zero a b ha hb e = e
shift_bits_injective (suc k) a b ha hb e = shift_bit_injective a b ha hb (
    shift_bits_injective k (shift_bit a) (shift_bit b) (shift_bit-IsWord a ha)
      (shift_bit-IsWord b hb) e)

shift_byte_injective : (a b : ℕ) → IsWord a → IsWord b → shift_byte a ≡ shift_byte b → a ≡ b
unfolding shift_byte iterate
shift_byte_injective a b ha hb e = shift_bits_injective 8 a b ha hb e

mix-IsWord : (crc byte : ℕ) → IsWord crc → IsByte byte → IsWord (bit_xor crc byte)
mix-IsWord crc byte h b = bit_xor-lt 32 crc byte h (omega arith)

crc32_round-IsWord : (crc byte : ℕ) → IsWord crc → IsByte byte → IsWord (crc32_round crc byte)
crc32_round-IsWord crc byte h b =
    rw (crc32_round-shift_byte crc byte b) (shift_byte-IsWord _ (mix-IsWord crc byte h b))

loop-IsWord :
    (crc : ℕ) (bytes : List ℕ) → IsWord crc → All IsByte bytes → IsWord (crc32_loop crc bytes)
unfolding crc32_loop
loop-IsWord crc [] h all = h
loop-IsWord crc (b ∷ bs) h all =
    loop-IsWord (crc32_round crc b) bs (crc32_round-IsWord crc b h all.0) all.1

-- The checksum of any bytes is a 32-bit word.
pub calculate_crc32-IsWord : (bytes : List ℕ) → All IsByte bytes → IsWord (calculate_crc32 bytes)
unfolding calculate_crc32
calculate_crc32-IsWord bytes h =
    bit_xor-lt 32 _ 0xffffffff (loop-IsWord 0xffffffff bytes (omega arith) h) (omega arith)

-- A round loses nothing: neither the checksum so far nor the byte.
round_injective :
    (c d byte : ℕ)
    → IsWord c
    → IsWord d
    → IsByte byte
    → crc32_round c byte ≡ crc32_round d byte
    → c ≡ d
round_injective c d byte hc hd b e = bit_xor_cancel c d byte (
    shift_byte_injective _ _ (mix-IsWord c byte hc b) (mix-IsWord d byte hd b)
      (sym (crc32_round-shift_byte c byte b) ∙ e ∙ crc32_round-shift_byte d byte b))

byte_injective :
    (crc a b : ℕ) → IsWord crc → IsByte a → IsByte b → crc32_round crc a ≡ crc32_round crc b → a ≡ b
byte_injective crc a b h ha hb e = bit_xor_cancel_left a b crc (
    shift_byte_injective _ _ (mix-IsWord crc a h ha) (mix-IsWord crc b h hb)
      (sym (crc32_round-shift_byte crc a ha) ∙ e ∙ crc32_round-shift_byte crc b hb))

loop_injective :
    (c d : ℕ) (bytes : List ℕ)
    → IsWord c
    → IsWord d
    → All IsByte bytes
    → crc32_loop c bytes ≡ crc32_loop d bytes
    → c ≡ d
unfolding crc32_loop
loop_injective c d [] hc hd all e = e
loop_injective c d (b ∷ bs) hc hd all e = round_injective c d b hc hd all.0 (
    loop_injective (crc32_round c b) (crc32_round d b) bs (crc32_round-IsWord c b hc all.0)
      (crc32_round-IsWord d b hd all.0) all.1 e)

loop_differ :
    (crc : ℕ) (before after : List ℕ) (a b : ℕ)
    → IsWord crc
    → All IsByte before
    → All IsByte after
    → IsByte a
    → IsByte b
    → crc32_loop crc (before ++ a ∷ after) ≡ crc32_loop crc (before ++ b ∷ after)
    → a ≡ b
unfolding crc32_loop
loop_differ crc [] after a b h all all' ha hb e = byte_injective crc a b h ha hb (
    loop_injective _ _ after (crc32_round-IsWord crc a h ha) (crc32_round-IsWord crc b h hb) all' e)
loop_differ crc (x ∷ before) after a b h all all' ha hb e =
    loop_differ (crc32_round crc x) before after a b (crc32_round-IsWord crc x h all.0) all.1 all'
      ha hb e

-- Two byte sequences that differ in exactly one byte, at any position, have different checksums.
pub calculate_crc32_detects :
    (before after : List ℕ) (a b : ℕ)
    → All IsByte before
    → All IsByte after
    → IsByte a
    → IsByte b
    → a ≢ b
    → calculate_crc32 (before ++ a ∷ after) ≢ calculate_crc32 (before ++ b ∷ after)
unfolding calculate_crc32
calculate_crc32_detects before after a b all all' ha hb differ e = differ (
    loop_differ 0xffffffff before after a b (omega arith) all all' ha hb
      (bit_xor_cancel _ _ 0xffffffff e))
