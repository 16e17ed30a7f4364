-- ===== src/LockFile/Empty.antt =====
-- An empty lock file: what `acquire_lock` leaves between creating a file and writing it.
use waitlock.Base.{
  All, arith, length, zero, suc, some, replicate, ◌≡◌, refl, ℕ, true, false, [], bit_xor,
}
use waitlock.Checksum.Bitwise.{calculate_crc32-bitwise, crc32_bits, shift_byte, shift_bit}
use waitlock.LockFile.{File, zeroed, read_lock_file_any_format, read_text_lock_file, read_lines}
use waitlock.LockInfo.{
  LockInfo, lock_magic, IsValid, checksummed_bytes, calculate_lock_checksum, validate_lock_checksum,
  le_bytes,
}
use waitlock.Checksum.Bitwise.{IsByte}
use waitlock.LockInfo.Layout.{checksummed_bytes-IsByte}
use waitlock.Lock.{Holder, holder_of, holder_of_info}
use waitlock.Process.{Probe}
use waitlock.Text.Decimal.{to_uint32, to_uint64}

abbrev pub blank : LockInfo
blank = record zeroed { magic = lock_magic }

IsByte-replicate : (n : ℕ) → All IsByte (replicate n 0)
unfolding replicate
IsByte-replicate zero = tt
IsByte-replicate (suc n) = (omega arith, IsByte-replicate n)

blank-IsValid : IsValid blank
unfolding zeroed replicate length
blank-IsValid = record {
  magic_fits = omega arith;
  version_fits = omega arith;
  pid_fits = omega arith;
  ppid_fits = omega arith;
  uid_fits = omega arith;
  padding_fits = omega arith;
  acquired_at_fits = omega arith;
  lock_type_fits = omega arith;
  max_holders_fits = omega arith;
  slot_fits = omega arith;
  reserved_fits = omega arith;
  hostname_fits = refl;
  descriptor_fits = refl;
  cmdline_fits = refl;
  hostname_bytes = IsByte-replicate 256;
  descriptor_bytes = IsByte-replicate 256;
  cmdline_bytes = IsByte-replicate 4096;
  checksum_fits = omega arith;
  tail_padding_fits = omega arith;
}

blank_bits : bit_xor (crc32_bits 0xffffffff (checksummed_bytes blank)) 0xffffffff ≡ 91297517
unfolding replicate crc32_bits shift_byte shift_bit checksummed_bytes zeroed le_bytes to_uint32
    to_uint64
blank_bits = refl

-- The checksum field of a blank struct is 0, its checksum is not.
pub validate-blank : validate_lock_checksum (some blank) ≡ false
unfolding validate_lock_checksum calculate_lock_checksum
validate-blank =
    let crc =
      calculate_crc32-bitwise (checksummed_bytes blank)
        (checksummed_bytes-IsByte blank blank-IsValid) in
    rw (crc, blank_bits) (unfold zeroed in refl)

abbrev pub empty_file : File
empty_file = record { bytes = []; readable = true }

pub read-empty_file : read_lock_file_any_format empty_file ≡ some blank
unfolding read_lock_file_any_format read_text_lock_file read_lines length
read-empty_file = refl

-- An empty file is read as a struct with the magic number and a wrong checksum, so it is accepted by
-- nobody.
pub holder_of-empty_file : (probe : Probe) → holder_of probe empty_file ≡ Holder.unknown
unfolding holder_of holder_of_info read_lock_file_any_format length read_text_lock_file read_lines
holder_of-empty_file probe = rw (validate-blank) refl
