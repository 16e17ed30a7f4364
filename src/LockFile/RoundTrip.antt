-- ===== src/LockFile/RoundTrip.antt =====
-- A lock_info written in the text format and read back.
use waitlock.Base.{
  ℕ, ◌+◌, ◌%◌, ◌^◌, ◌<◌, ◌≡◌, refl, sym, ap, ◌∙◌, true, List, [], codes, some, ◌==◌, length, take,
  Bool-cases, inl, inr, arith, if◌then◌else◌,
}
use mathlib.Core.List.{append-nil}
use waitlock.Base.Int.{ℤ}
use waitlock.LockFile.{zeroed, write_text_lock_file, set_field, read_text_lock_file}
use waitlock.LockFile.Lines.{lines_of, set_fields, read_lines-lines_of, length-lines_of}
use waitlock.LockFile.Fields.{type_name, numbers, texts, write-lines_of, HasLines, lines-IsLine}
use waitlock.LockInfo.{LockInfo, IsValid, lock_magic, max_hostname, max_desc_len, max_cmdline}
use waitlock.Text.{Str, c_string, str_eq, store_string, truncate}
use waitlock.Text.Decimal.{
  print_nat, print_int, atoi, atol, to_uint32, to_int32, IsInt32, IsInt64, to_uint32-to_int32,
  to_int32-IsInt32,
}
use waitlock.Text.Laws.{atoi-print_int, atoi-print_nat, atol-print_int}

-- The struct without what the text format leaves out: the checksum, the reserved field and the
-- padding; a lock type other than 0 counts as 1, and a string is followed by zeros.
abbrev pub kept_as_text : LockInfo → LockInfo
kept_as_text i = record zeroed {
  magic = lock_magic;
  version = i.version;
  pid = i.pid;
  ppid = i.ppid;
  uid = i.uid;
  acquired_at = i.acquired_at;
  lock_type = if i.lock_type == 0 then 0 else 1;
  max_holders = i.max_holders;
  slot = i.slot;
  hostname = store_string max_hostname (c_string i.hostname);
  descriptor = store_string (max_desc_len + 1) (c_string i.descriptor);
  cmdline = store_string max_cmdline (c_string i.cmdline);
}

-- Numbers that were printed alone.
atoi_nat : (w : ℕ) → w < 2 ^ 32 → to_uint32 (atoi (print_nat w)) ≡ w
atoi_nat w h =
    ap (λ (t : Str). to_uint32 (atoi t)) (sym (append-nil (print_nat w))) ∙ atoi-print_nat w [] h tt

atoi_int : (z : ℤ) → IsInt32 z → atoi (print_int z) ≡ z
atoi_int z h = ap atoi (sym (append-nil (print_int z))) ∙ atoi-print_int z [] h tt

atol_int : (z : ℤ) → IsInt64 z → atol (print_int z) ≡ z
atol_int z h = ap atol (sym (append-nil (print_int z))) ∙ atol-print_int z [] h tt

small : (n : ℕ) → n < 2 ^ 16 → n % 2 ^ 16 ≡ n
small n h = omega arith

type_back :
    (t : ℕ)
    → ◌≡◌ {A = ℕ}
        (if str_eq (truncate 32 (type_name t)) (codes "semaphore") then 1 else 0)
        (if t == 0 then 0 else 1)
unfolding str_eq truncate take
type_back t = elim (Bool-cases (t == 0)) [
  | inl mutex ↦ rw mutex refl
  | inr semaphore ↦ rw semaphore refl
]

-- The numbers as they are parsed, and as they were.
abbrev parsed_numbers : LockInfo → LockInfo → LockInfo
parsed_numbers i j = record j {
  version = to_uint32 (atoi (print_nat i.version));
  pid = atoi (print_int i.pid);
  ppid = atoi (print_int i.ppid);
  uid = to_uint32 (atoi (print_int (to_int32 i.uid)));
  acquired_at = atol (print_int i.acquired_at);
  lock_type = if str_eq (truncate 32 (type_name i.lock_type)) (codes "semaphore") then 1 else 0;
  max_holders = to_uint32 (atoi (print_nat i.max_holders)) % 2 ^ 16;
  slot = to_uint32 (atoi (print_nat i.slot)) % 2 ^ 16;
}

abbrev same_numbers : LockInfo → LockInfo → LockInfo
same_numbers i j = record j {
  version = i.version;
  pid = i.pid;
  ppid = i.ppid;
  uid = i.uid;
  acquired_at = i.acquired_at;
  lock_type = if i.lock_type == 0 then 0 else 1;
  max_holders = i.max_holders;
  slot = i.slot;
}

numbers_back : (i j : LockInfo) → IsValid i → parsed_numbers i j ≡ same_numbers i j
numbers_back i j v =
    rw
      (
        atoi_nat i.version v.version_fits,
        atoi_int i.pid v.pid_fits,
        atoi_int i.ppid v.ppid_fits,
        atoi_int (to_int32 i.uid) (to_int32-IsInt32 i.uid v.uid_fits),
        to_uint32-to_int32 i.uid v.uid_fits,
        atol_int i.acquired_at v.acquired_at_fits,
        type_back i.lock_type,
        atoi_nat i.max_holders (omega arith),
        atoi_nat i.slot (omega arith),
        small i.max_holders v.max_holders_fits,
        small i.slot v.slot_fits,
      )
      refl

set_numbers :
    (i j : LockInfo) (more : List (Str × Str))
    → set_fields (numbers i more) j ≡ set_fields more (parsed_numbers i j)
unfolding set_fields set_field str_eq
set_numbers i j more = refl

set_texts :
    (i j : LockInfo)
    → set_fields (texts i) j ≡ record j {
      hostname = store_string max_hostname (c_string i.hostname);
      descriptor = store_string (max_desc_len + 1) (c_string i.descriptor);
      cmdline = store_string max_cmdline (c_string i.cmdline);
    }
unfolding set_fields set_field str_eq
set_texts i j = refl

-- If a struct has the ranges of its C types, no text in it has a newline, and its command line has
-- less than 1015 characters, then the file that `write_text_lock_file` writes is read back as the
-- struct without its checksum, its reserved field and its padding; a lock type other than 0 is read
-- as 1.
pub read_text-write_text :
    (i : LockInfo)
    → IsValid i
    → HasLines i
    → read_text_lock_file (record { bytes = write_text_lock_file i; readable = true })
      ≡ some (kept_as_text i)
unfolding read_text_lock_file
read_text-write_text i v h =
    let start = record zeroed { magic = lock_magic } in
    let enough = length-lines_of (numbers i (texts i)) in
    rw (write-lines_of i) (
      ap some (
        read_lines-lines_of (length (lines_of (numbers i (texts i)))) (numbers i (texts i)) start
          (lines-IsLine i v h) enough
        ∙ (set_numbers i start (texts i)
            ∙ (ap (set_fields (texts i)) (numbers_back i start v)
                ∙ set_texts i (same_numbers i start)))))
