-- ===== src/LockFile/Reading.antt =====
-- What `read_lock_file_any_format` gives back.
use waitlock.Base.{
  ℕ, zero, suc, ◌≡◌, refl, ◌∙◌, inl, inr, true, List, [], ◌∷◌, some, arith, ◌==◌, length, take, leb,
  take_all, Option-cases,
}
use waitlock.LockInfo.{LockInfo, IsValid, lock_magic, struct_bytes, struct_size}
use waitlock.LockInfo.Layout.{struct_of_bytes-struct_bytes, length-struct_bytes}
use waitlock.LockFile.{
  File, zeroed, set_field, read_line, read_lines, fgets, read_text_lock_file,
  read_lock_file_any_format,
}
use waitlock.Text.{Str, split_at, c_string}
use waitlock.LockFile.{strip_newline}

-- The fields that the text format does not have.
abbrev pub SameMarks : LockInfo → LockInfo → Type 0
SameMarks i j = (i.magic ≡ j.magic) × (i.checksum ≡ j.checksum)

set_field-SameMarks : (key value : Str) (i : LockInfo) → SameMarks (set_field key value i) i
unfolding set_field
set_field-SameMarks key value i = ground arith

read_line-SameMarks : (line : List ℕ) (i : LockInfo) → SameMarks (read_line line i) i
unfolding read_line
read_line-SameMarks line i = elim (Option-cases (split_at b'=' (strip_newline (c_string line)))) [
  | inl e ↦ rw (e, read_line) (refl, refl)
  | inr (p, e) ↦ rw (e, read_line) (set_field-SameMarks p.0 p.1 i)
]

read_lines-SameMarks : (f : ℕ) (bytes : List ℕ) (i : LockInfo) → SameMarks (read_lines f bytes i) i
unfolding read_lines
read_lines-SameMarks zero bytes i = (refl, refl)
read_lines-SameMarks (suc f) [] i = (refl, refl)
read_lines-SameMarks (suc f) (c ∷ bytes) i =
    let next = fgets 1023 (c ∷ bytes) in
    let here = read_line-SameMarks next.0 i in
    let rest = read_lines-SameMarks f next.1 (read_line next.0 i) in
    (rest.0 ∙ here.0, rest.1 ∙ here.1)

read_text-marks :
    (file : File) (i : LockInfo)
    → read_text_lock_file file ≡ some i
    → (i.magic ≡ lock_magic) × (i.checksum ≡ 0)
unfolding read_text_lock_file zeroed
read_text-marks file i h = ground (
  arith,
  read_lines-SameMarks (length file.bytes) file.bytes (record zeroed { magic = lock_magic }),
)

-- Whatever is read has the magic number, also where the file has no such number.
pub read-magic :
    (file : File) (i : LockInfo) → read_lock_file_any_format file ≡ some i → i.magic ≡ lock_magic
unfolding read_lock_file_any_format
read-magic file i h = ground (arith, read_text-marks file i)

-- A binary file is read back: the struct that was written, if it has the magic number.
pub read-struct_bytes :
    (info : LockInfo)
    → IsValid info
    → info.magic ≡ lock_magic
    → read_lock_file_any_format (record { bytes = struct_bytes info; readable = true }) ≡ some info
unfolding read_lock_file_any_format
read-struct_bytes info v m =
    let size = length-struct_bytes info v in
    let fits : leb struct_size (length (struct_bytes info)) ≡ true = rw size refl in
    let whole : take struct_size (struct_bytes info) ≡ struct_bytes info =
      take_all struct_size (struct_bytes info) (omega arith) in
    let marked : (info.magic == lock_magic) ≡ true = rw m refl in
    rw (fits, whole, struct_of_bytes-struct_bytes info v, marked)
