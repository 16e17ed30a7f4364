-- ===== src/LockInfo/Corruption.antt =====
-- What `validate_lock_checksum` catches.
use waitlock.Base.{
  ℕ, ◌≡◌, sym, ap, ◌∙◌, ◌≢◌, inl, inr, List, ◌∷◌, ◌++◌, true, false, some, All-split, ◌==◌, ==_iff,
  ==_refl, Bool-cases,
}
use waitlock.Checksum.{calculate_crc32}
use waitlock.Checksum.Bitwise.{IsByte}
use waitlock.Checksum.Detect.{calculate_crc32_detects, calculate_crc32-IsWord}
use waitlock.LockInfo.{
  LockInfo, IsValid, checksummed_bytes, calculate_lock_checksum, validate_lock_checksum,
}
use waitlock.LockInfo.Layout.{checksummed_bytes-IsByte}

-- `info` with the checksum that the program stores before it writes the struct.
abbrev pub sealed : LockInfo → LockInfo
sealed info = record info { checksum = calculate_lock_checksum (some info) }

-- Sealing a struct makes it valid, and keeps it in the range of its types.
pub validate-sealed : (info : LockInfo) → validate_lock_checksum (some (sealed info)) ≡ true
unfolding validate_lock_checksum calculate_lock_checksum checksummed_bytes
validate-sealed info = ==_refl _

pub sealed-IsValid : (info : LockInfo) → IsValid info → IsValid (sealed info)
unfolding calculate_lock_checksum
sealed-IsValid info v = record {
  magic_fits = v.magic_fits;
  version_fits = v.version_fits;
  pid_fits = v.pid_fits;
  ppid_fits = v.ppid_fits;
  uid_fits = v.uid_fits;
  padding_fits = v.padding_fits;
  acquired_at_fits = v.acquired_at_fits;
  lock_type_fits = v.lock_type_fits;
  max_holders_fits = v.max_holders_fits;
  slot_fits = v.slot_fits;
  reserved_fits = v.reserved_fits;
  hostname_fits = v.hostname_fits;
  descriptor_fits = v.descriptor_fits;
  cmdline_fits = v.cmdline_fits;
  hostname_bytes = v.hostname_bytes;
  descriptor_bytes = v.descriptor_bytes;
  cmdline_bytes = v.cmdline_bytes;
  checksum_fits = calculate_crc32-IsWord (checksummed_bytes info) (checksummed_bytes-IsByte info v);
  tail_padding_fits = v.tail_padding_fits;
}

-- A struct in the range of its types that differs from one that `validate_lock_checksum` accepts in
-- exactly one byte of its memory before the checksum field, and has the same checksum field, is not
-- valid.
pub validate-one_byte :
    (good bad : LockInfo) (before after : List ℕ) (a b : ℕ)
    → IsValid good
    → IsValid bad
    → validate_lock_checksum (some good) ≡ true
    → checksummed_bytes good ≡ before ++ a ∷ after
    → checksummed_bytes bad ≡ before ++ b ∷ after
    → a ≢ b
    → bad.checksum ≡ good.checksum
    → validate_lock_checksum (some bad) ≡ false
unfolding validate_lock_checksum calculate_lock_checksum
validate-one_byte good bad before after a b v w ok eg eb differ same =
    elim (Bool-cases (bad.checksum == calculate_crc32 (checksummed_bytes bad))) [
      | inr refused ↦ refused
      | inl passed ↦ absurd (clash ((==_iff _ _).0 ok) ((==_iff _ _).0 passed))
    ]
  where
    clash :
        good.checksum ≡ calculate_crc32 (checksummed_bytes good)
        → bad.checksum ≡ calculate_crc32 (checksummed_bytes bad)
        → ⊥
    clash h k =
        let g = All-split IsByte before a after (rw eg at (checksummed_bytes-IsByte good v)) in
        let r = All-split IsByte before b after (rw eb at (checksummed_bytes-IsByte bad w)) in
        calculate_crc32_detects before after a b g.0 g.2 g.1 r.1 differ
          (ap calculate_crc32 (sym eg) ∙ sym h ∙ sym same ∙ k ∙ ap calculate_crc32 eb)
