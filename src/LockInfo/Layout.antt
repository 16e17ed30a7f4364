-- ===== src/LockInfo/Layout.antt =====
-- The memory image of a lock_info: its size, and that reading it back gives the struct.
use mathlib.Core.List.{append-nil, append_assoc}
use waitlock.Base.{
  ℕ, zero, suc, ◌+◌, ◌/◌, ◌^◌, ◌<◌, ◌≡◌, refl, ap, List, [], ◌++◌, arith, length, All, take-append,
  drop-append, length-append, All-append,
}
use waitlock.Checksum.Bitwise.{IsByte}
use waitlock.LockInfo.{
  LockInfo, IsValid, le_bytes, le_value, read_number, checksummed_bytes, struct_bytes,
  struct_of_bytes, struct_size, max_hostname, max_desc_len, max_cmdline,
}
use waitlock.Text.Decimal.{
  to_uint32, to_uint64, to_uint32-lt, to_uint64-lt, to_int32-to_uint32, to_int64-to_uint64,
}
use native.Mathlib.Nat.{pow-suc}

pub length-le_bytes : (k n : ℕ) → length (le_bytes k n) ≡ k
unfolding le_bytes length
length-le_bytes zero n = refl
length-le_bytes (suc k) n = ap suc (length-le_bytes k (n / 256))

le_value-le_bytes : (k n : ℕ) → n < 256 ^ k → le_value (le_bytes k n) ≡ n
unfolding le_value le_bytes
le_value-le_bytes zero n h = omega arith
le_value-le_bytes (suc k) n h =
    omega (arith, le_value-le_bytes k (n / 256) (omega (arith, pow-suc 256 k)))

read_number-append :
    (k n : ℕ) (rest : List ℕ) → n < 256 ^ k → read_number k (le_bytes k n ++ rest) ≡ (n, rest)
unfolding read_number
read_number-append k n rest h = rw (
  take-append k (le_bytes k n) rest (length-le_bytes k n),
  drop-append k (le_bytes k n) rest (length-le_bytes k n),
  le_value-le_bytes k n h,
)

le_bytes-All : (k n : ℕ) → All (λ b. b < 256) (le_bytes k n)
unfolding le_bytes
le_bytes-All zero n = tt
le_bytes-All (suc k) n = (omega arith, le_bytes-All k (n / 256))

-- The image with its parts in one row, bracketed to the right.
struct_bytes_flat :
    (i : LockInfo)
    → struct_bytes i
      ≡ le_bytes 4 i.magic
        ++ (le_bytes 4 i.version
            ++ (le_bytes 4 (to_uint32 i.pid)
                ++ (le_bytes 4 (to_uint32 i.ppid)
                    ++ (le_bytes 4 i.uid
                        ++ (le_bytes 4 i.padding
                            ++ (le_bytes 8 (to_uint64 i.acquired_at)
                                ++ (le_bytes 2 i.lock_type
                                    ++ (le_bytes 2 i.max_holders
                                        ++ (le_bytes 2 i.slot
                                            ++ (le_bytes 2 i.reserved
                                                ++ (i.hostname
                                                    ++ (i.descriptor
                                                        ++ (i.cmdline
                                                            ++ (le_bytes 4 i.checksum
                                                            ++ (le_bytes 4 i.tail_padding
                                                            ++ [])))))))))))))))
unfolding struct_bytes checksummed_bytes
struct_bytes_flat i = simp (append_assoc, append-nil)

-- Reading back the memory image of a struct whose fields are in the range of their types gives the
-- struct.
pub struct_of_bytes-struct_bytes :
    (info : LockInfo) → IsValid info → struct_of_bytes (struct_bytes info) ≡ info
unfolding struct_of_bytes
struct_of_bytes-struct_bytes i v =
    rw
      (
        struct_bytes_flat i,
        read_number-append 4 i.magic _ v.magic_fits,
        read_number-append 4 i.version _ v.version_fits,
        read_number-append 4 (to_uint32 i.pid) _ (to_uint32-lt i.pid),
        read_number-append 4 (to_uint32 i.ppid) _ (to_uint32-lt i.ppid),
        read_number-append 4 i.uid _ v.uid_fits,
        read_number-append 4 i.padding _ v.padding_fits,
        read_number-append 8 (to_uint64 i.acquired_at) _ (to_uint64-lt i.acquired_at),
        read_number-append 2 i.lock_type _ v.lock_type_fits,
        read_number-append 2 i.max_holders _ v.max_holders_fits,
        read_number-append 2 i.slot _ v.slot_fits,
        read_number-append 2 i.reserved _ v.reserved_fits,
        take-append max_hostname i.hostname _ v.hostname_fits,
        drop-append max_hostname i.hostname _ v.hostname_fits,
        take-append (max_desc_len + 1) i.descriptor _ v.descriptor_fits,
        drop-append (max_desc_len + 1) i.descriptor _ v.descriptor_fits,
        take-append max_cmdline i.cmdline _ v.cmdline_fits,
        drop-append max_cmdline i.cmdline _ v.cmdline_fits,
        read_number-append 4 i.checksum _ v.checksum_fits,
        read_number-append 4 i.tail_padding [] v.tail_padding_fits,
        to_int32-to_uint32 i.pid v.pid_fits,
        to_int32-to_uint32 i.ppid v.ppid_fits,
        to_int64-to_uint64 i.acquired_at v.acquired_at_fits,
      )
      refl

-- The image of a struct has `sizeof(struct lock_info)` bytes.
pub length-struct_bytes :
    (info : LockInfo) → IsValid info → length (struct_bytes info) ≡ struct_size
length-struct_bytes i v = rw (struct_bytes_flat i) (
    simp (length-append, length-le_bytes, v.hostname_fits, v.descriptor_fits, v.cmdline_fits)
      (unfold length in refl))

-- All of the checksummed part is bytes.
pub checksummed_bytes-IsByte :
    (info : LockInfo) → IsValid info → All IsByte (checksummed_bytes info)
unfolding checksummed_bytes
checksummed_bytes-IsByte i v = number 4 i.magic _ (
    number 4 i.version _ (
      number 4 (to_uint32 i.pid) _ (
        number 4 (to_uint32 i.ppid) _ (
          number 4 i.uid _ (
            number 4 i.padding _ (
              number 8 (to_uint64 i.acquired_at) _ (
                number 2 i.lock_type _ (
                  number 2 i.max_holders _
                    (number 2 i.slot _ (number 2 i.reserved _ arrays))))))))))
  where
    number : (k n : ℕ) (rest : List ℕ) → All IsByte rest → All IsByte (le_bytes k n ++ rest)
    number k n rest h = All-append IsByte (le_bytes k n) rest (le_bytes-All k n) h

    arrays : All IsByte (i.hostname ++ (i.descriptor ++ i.cmdline))
    arrays =
        All-append IsByte i.hostname _ v.hostname_bytes
          (All-append IsByte i.descriptor _ v.descriptor_bytes v.cmdline_bytes)
