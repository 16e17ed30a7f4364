-- ===== src/LockInfo.antt =====
-- waitlock.h: `struct lock_info` and the constants; checksum/checksum.c on a lock_info.
-- The struct has the layout of the LP64 ABI, little-endian: 4-byte ints, an 8-byte time_t that is
-- aligned to 8, so four bytes of padding behind `uid` and four behind `checksum`. The padding is
-- kept as two fields, since the checksum is taken over it and a lock file holds it.
pub mod Layout
pub mod Corruption
use waitlock.Base.{
  ℕ, zero, suc, ◌+◌, ◌*◌, ◌/◌, ◌%◌, ◌^◌, ◌<◌, ◌≡◌, Bool, false, List, [], ◌∷◌, ◌++◌, Option, none,
  some, ◌==◌, length, take, drop, All,
}
use waitlock.Base.Int.{ℤ}
use waitlock.Checksum.{calculate_crc32}
use waitlock.Checksum.Bitwise.{IsByte}
use waitlock.Text.Decimal.{to_uint32, to_int32, to_uint64, to_int64, IsInt32, IsInt64}

abbrev pub max_desc_len : ℕ
max_desc_len = 255

abbrev pub max_hostname : ℕ
max_hostname = 256

abbrev pub max_cmdline : ℕ
max_cmdline = 4096

abbrev pub lock_magic : ℕ
lock_magic = 0x57414c4b

pub record LockInfo : Type 0 where
  pub magic : ℕ
  pub version : ℕ
  pub pid : ℤ
  pub ppid : ℤ
  pub uid : ℕ
  pub padding : ℕ
  pub acquired_at : ℤ
  pub lock_type : ℕ
  pub max_holders : ℕ
  pub slot : ℕ
  pub reserved : ℕ
  pub hostname : List ℕ
  pub descriptor : List ℕ
  pub cmdline : List ℕ
  pub checksum : ℕ
  pub tail_padding : ℕ

-- The ranges of the C types.
pub record IsValid (info : LockInfo) : Type 0 where
  pub magic_fits : info.magic < 2 ^ 32
  pub version_fits : info.version < 2 ^ 32
  pub pid_fits : IsInt32 info.pid
  pub ppid_fits : IsInt32 info.ppid
  pub uid_fits : info.uid < 2 ^ 32
  pub padding_fits : info.padding < 2 ^ 32
  pub acquired_at_fits : IsInt64 info.acquired_at
  pub lock_type_fits : info.lock_type < 2 ^ 16
  pub max_holders_fits : info.max_holders < 2 ^ 16
  pub slot_fits : info.slot < 2 ^ 16
  pub reserved_fits : info.reserved < 2 ^ 16
  pub hostname_fits : length info.hostname ≡ max_hostname
  pub descriptor_fits : length info.descriptor ≡ max_desc_len + 1
  pub cmdline_fits : length info.cmdline ≡ max_cmdline
  pub hostname_bytes : All IsByte info.hostname
  pub descriptor_bytes : All IsByte info.descriptor
  pub cmdline_bytes : All IsByte info.cmdline
  pub checksum_fits : info.checksum < 2 ^ 32
  pub tail_padding_fits : info.tail_padding < 2 ^ 32

-- A number of `k` bytes, the lowest first.
unfoldable pub le_bytes : ℕ → ℕ → List ℕ
le_bytes zero n = []
le_bytes (suc k) n = n % 256 ∷ le_bytes k (n / 256)

unfoldable pub le_value : List ℕ → ℕ
le_value [] = 0
le_value (b ∷ bs) = b + 256 * le_value bs

-- The bytes before `checksum`: `offsetof(struct lock_info, checksum)` of them.
unfoldable pub checksummed_bytes : LockInfo → List ℕ
checksummed_bytes i =
    le_bytes 4 i.magic
    ++ (le_bytes 4 i.version
        ++ (le_bytes 4 (to_uint32 i.pid)
            ++ (le_bytes 4 (to_uint32 i.ppid)
                ++ (le_bytes 4 i.uid
                    ++ (le_bytes 4 i.padding
                        ++ (le_bytes 8 (to_uint64 i.acquired_at)
                            ++ (le_bytes 2 i.lock_type
                                ++ (le_bytes 2 i.max_holders
                                    ++ (le_bytes 2 i.slot
                                        ++ (le_bytes 2 i.reserved
                                            ++ (i.hostname ++ (i.descriptor ++ i.cmdline))))))))))))

-- The whole struct in memory, as `write` puts it into a lock file.
unfoldable pub struct_bytes : LockInfo → List ℕ
struct_bytes i = checksummed_bytes i ++ (le_bytes 4 i.checksum ++ le_bytes 4 i.tail_padding)

abbrev pub struct_size : ℕ
struct_size = 4656

-- `calculate_lock_checksum`; a null pointer is `none`.
unfoldable pub calculate_lock_checksum : Option LockInfo → ℕ
calculate_lock_checksum none = 0
calculate_lock_checksum (some info) = calculate_crc32 (checksummed_bytes info)

unfoldable pub validate_lock_checksum : Option LockInfo → Bool
validate_lock_checksum none = false
validate_lock_checksum (some info) = info.checksum == calculate_lock_checksum (some info)

-- A number of `k` bytes off the front, and the rest.
unfoldable pub read_number : ℕ → List ℕ → ℕ × List ℕ
read_number k bytes = (le_value (take k bytes), drop k bytes)

-- `read(fd, info, sizeof(*info))`: the struct whose memory image these bytes are.
unfoldable pub struct_of_bytes : List ℕ → LockInfo
struct_of_bytes bytes =
    let (magic, r1) = read_number 4 bytes in
    let (version, r2) = read_number 4 r1 in
    let (pid, r3) = read_number 4 r2 in
    let (ppid, r4) = read_number 4 r3 in
    let (uid, r5) = read_number 4 r4 in
    let (padding, r6) = read_number 4 r5 in
    let (acquired_at, r7) = read_number 8 r6 in
    let (lock_type, r8) = read_number 2 r7 in
    let (max_holders, r9) = read_number 2 r8 in
    let (slot, r10) = read_number 2 r9 in
    let (reserved, r11) = read_number 2 r10 in
    let hostname = take max_hostname r11 in
    let r12 = drop max_hostname r11 in
    let descriptor = take (max_desc_len + 1) r12 in
    let r13 = drop (max_desc_len + 1) r12 in
    let cmdline = take max_cmdline r13 in
    let r14 = drop max_cmdline r13 in
    let (checksum, r15) = read_number 4 r14 in
    let (tail_padding, _) = read_number 4 r15 in
    record {
      magic = magic;
      version = version;
      pid = to_int32 pid;
      ppid = to_int32 ppid;
      uid = uid;
      padding = padding;
      acquired_at = to_int64 acquired_at;
      lock_type = lock_type;
      max_holders = max_holders;
      slot = slot;
      reserved = reserved;
      hostname = hostname;
      descriptor = descriptor;
      cmdline = cmdline;
      checksum = checksum;
      tail_padding = tail_padding;
    }
