-- ===== src/Examples/Files.antt =====
-- Runs of the checksum, of the layout of a lock_info, and of reading lock files.
use waitlock.Base.{ℕ, get_or, ◌≡◌, refl, false, List, ◌∷◌, ◌++◌, codes, some, arith, All, bit_xor}
use waitlock.Base.Int.{pos}
use waitlock.Checksum.{crc32_table, crc32_round, crc32_loop, calculate_crc32}
use waitlock.Checksum.Bitwise.{IsByte, crc32_bits, calculate_crc32-bitwise}
use waitlock.Examples.{app, host}
use waitlock.Examples.Locks.{host_fits}
use waitlock.Lock.Claim.{prepare_info}
use waitlock.Lock.Claim.Laws.{prepare_info-IsValid}
use waitlock.LockInfo.{
  LockInfo, IsValid, lock_magic, le_bytes, checksummed_bytes, validate_lock_checksum,
}
use waitlock.LockInfo.Corruption.{sealed, validate-sealed, sealed-IsValid, validate-one_byte}
use waitlock.Text.Decimal.{to_uint64, to_uint32}

digits_are_bytes : All IsByte (codes "123456789")
digits_are_bytes = ground arith

calculate_crc32-bitwise_example :
    calculate_crc32 (codes "123456789")
    ≡ bit_xor (crc32_bits 0xffffffff (codes "123456789")) 0xffffffff
calculate_crc32-bitwise_example = calculate_crc32-bitwise (codes "123456789") digits_are_bytes

-- The check value of CRC-32.
crc32_test : calculate_crc32 (codes "123456789") ≡ 0xcbf43926
unfolding calculate_crc32 crc32_loop crc32_round crc32_table get_or
crc32_test = refl

abbrev pub prepared : LockInfo
prepared = prepare_info host app 1

pub prepared-IsValid : IsValid prepared
prepared-IsValid = prepare_info-IsValid host app 1 host_fits

-- The struct as it is written, and with one bit of the process number changed.
abbrev good : LockInfo
good = sealed prepared

abbrev bad : LockInfo
bad = record good { pid = pos 101 }

bad-IsValid : IsValid bad
bad-IsValid = record {
  magic_fits = (sealed-IsValid prepared prepared-IsValid).magic_fits;
  version_fits = (sealed-IsValid prepared prepared-IsValid).version_fits;
  pid_fits = omega arith;
  ppid_fits = (sealed-IsValid prepared prepared-IsValid).ppid_fits;
  uid_fits = (sealed-IsValid prepared prepared-IsValid).uid_fits;
  padding_fits = (sealed-IsValid prepared prepared-IsValid).padding_fits;
  acquired_at_fits = (sealed-IsValid prepared prepared-IsValid).acquired_at_fits;
  lock_type_fits = (sealed-IsValid prepared prepared-IsValid).lock_type_fits;
  max_holders_fits = (sealed-IsValid prepared prepared-IsValid).max_holders_fits;
  slot_fits = (sealed-IsValid prepared prepared-IsValid).slot_fits;
  reserved_fits = (sealed-IsValid prepared prepared-IsValid).reserved_fits;
  hostname_fits = (sealed-IsValid prepared prepared-IsValid).hostname_fits;
  descriptor_fits = (sealed-IsValid prepared prepared-IsValid).descriptor_fits;
  cmdline_fits = (sealed-IsValid prepared prepared-IsValid).cmdline_fits;
  hostname_bytes = (sealed-IsValid prepared prepared-IsValid).hostname_bytes;
  descriptor_bytes = (sealed-IsValid prepared prepared-IsValid).descriptor_bytes;
  cmdline_bytes = (sealed-IsValid prepared prepared-IsValid).cmdline_bytes;
  checksum_fits = (sealed-IsValid prepared prepared-IsValid).checksum_fits;
  tail_padding_fits = (sealed-IsValid prepared prepared-IsValid).tail_padding_fits;
}

abbrev before_pid : List ℕ
before_pid = le_bytes 4 lock_magic ++ le_bytes 4 1

abbrev after_pid : List ℕ
after_pid =
    0
    ∷ 0
    ∷ 0
    ∷ (le_bytes 4 (to_uint32 prepared.ppid)
        ++ (le_bytes 4 prepared.uid
            ++ (le_bytes 4 prepared.padding
                ++ (le_bytes 8 (to_uint64 prepared.acquired_at)
                    ++ (le_bytes 2 prepared.lock_type
                        ++ (le_bytes 2 prepared.max_holders
                            ++ (le_bytes 2 prepared.slot
                                ++ (le_bytes 2 prepared.reserved
                                    ++ (prepared.hostname
                                        ++ (prepared.descriptor ++ prepared.cmdline))))))))))

good_split : checksummed_bytes good ≡ before_pid ++ 100 ∷ after_pid
unfolding checksummed_bytes le_bytes to_uint32 prepare_info
good_split = refl

bad_split : checksummed_bytes bad ≡ before_pid ++ 101 ∷ after_pid
unfolding checksummed_bytes le_bytes to_uint32 prepare_info
bad_split = refl

validate-one_byte_example : validate_lock_checksum (some bad) ≡ false
validate-one_byte_example =
    validate-one_byte good bad before_pid after_pid 100 101
      (sealed-IsValid prepared prepared-IsValid) bad-IsValid (validate-sealed prepared) good_split
      bad_split (λ e. omega arith) refl
