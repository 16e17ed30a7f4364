-- ===== src/LockFile.antt =====
-- lock/lock.c: the files of the lock directory, and writing and reading them in both formats.
-- A file is its bytes, with whether this process may open it for reading.
pub mod Reading
pub mod Empty
pub mod Lines
pub mod Fields
pub mod RoundTrip
use waitlock.Base.{
  ℕ, zero, suc, ◌+◌, ◌-◌, ◌%◌, ◌^◌, Bool, ◌&&◌, List, [], ◌∷◌, ◌++◌, Option, none, some, ◌==◌,
  length, take, replicate, codes, leb, if◌then◌else◌,
}
use waitlock.Base.Int.{pos}
use waitlock.LockInfo.{
  LockInfo, struct_size, struct_of_bytes, lock_magic, max_hostname, max_desc_len, max_cmdline,
}
use waitlock.Text.{Str, c_string, str_eq, split_at, store_string, truncate}
use waitlock.Text.Decimal.{print_nat, print_int, atoi, atol, to_uint32, to_int32}

pub record File : Type 0 where
  pub bytes : List ℕ
  pub readable : Bool

-- A `lock_info` after `memset(info, 0, sizeof(*info))`.
unfoldable pub zeroed : LockInfo
zeroed = record {
  magic = 0;
  version = 0;
  pid = pos 0;
  ppid = pos 0;
  uid = 0;
  padding = 0;
  acquired_at = pos 0;
  lock_type = 0;
  max_holders = 0;
  slot = 0;
  reserved = 0;
  hostname = replicate max_hostname 0;
  descriptor = replicate (max_desc_len + 1) 0;
  cmdline = replicate max_cmdline 0;
  checksum = 0;
  tail_padding = 0;
}

-- `KEY=value\n`
unfoldable pub text_line : Str → Str → List ℕ
text_line key value = key ++ b'=' ∷ (value ++ b'\n' ∷ [])

-- `write_text_lock_file`, into a file that could be opened.
unfoldable pub write_text_lock_file : LockInfo → List ℕ
write_text_lock_file i =
    text_line (codes "VERSION") (print_nat i.version)
    ++ (text_line (codes "PID") (print_int i.pid)
        ++ (text_line (codes "PPID") (print_int i.ppid)
            ++ (text_line (codes "UID") (print_int (to_int32 i.uid))
                ++ (text_line (codes "ACQUIRED") (print_int i.acquired_at)
                    ++ (text_line (codes "TYPE")
                          (if i.lock_type == 0 then codes "mutex" else codes "semaphore")
                        ++ (text_line (codes "MAX_HOLDERS") (print_nat i.max_holders)
                            ++ (text_line (codes "SLOT") (print_nat i.slot)
                                ++ (text_line (codes "HOSTNAME") (c_string i.hostname)
                                    ++ (text_line (codes "DESCRIPTOR") (c_string i.descriptor)
                                        ++ text_line (codes "COMMAND") (c_string i.cmdline))))))))))

-- The chain of comparisons of a line's key.
unfoldable pub set_field : Str → Str → LockInfo → LockInfo
set_field key value i =
    if str_eq key (codes "VERSION")
    then record i { version = to_uint32 (atoi value) }
    else if str_eq key (codes "PID")
    then record i { pid = atoi value }
    else if str_eq key (codes "PPID")
    then record i { ppid = atoi value }
    else if str_eq key (codes "UID")
    then record i { uid = to_uint32 (atoi value) }
    else if str_eq key (codes "ACQUIRED")
    then record i { acquired_at = atol value }
    else if str_eq key (codes "TYPE")
    then record i { lock_type = if str_eq (truncate 32 value) (codes "semaphore") then 1 else 0 }
    else if str_eq key (codes "MAX_HOLDERS")
    then record i { max_holders = to_uint32 (atoi value) % 2 ^ 16 }
    else if str_eq key (codes "SLOT")
    then record i { slot = to_uint32 (atoi value) % 2 ^ 16 }
    else if str_eq key (codes "HOSTNAME")
    then record i { hostname = store_string max_hostname value }
    else if str_eq key (codes "DESCRIPTOR")
    then record i { descriptor = store_string (max_desc_len + 1) value }
    else if str_eq key (codes "COMMAND")
    then record i { cmdline = store_string max_cmdline value }
    else i

-- `fgets` with room for `n` characters: the line read, and the rest of the file.
unfoldable pub fgets : ℕ → List ℕ → List ℕ × List ℕ
fgets zero bytes = ([], bytes)
fgets (suc n) [] = ([], [])
fgets (suc n) (c ∷ bytes) =
    let rest = fgets n bytes in if c == b'\n' then (c ∷ [], bytes) else (c ∷ rest.0, rest.1)

-- `if (len > 0 && line[len-1] == '\n') line[len-1] = '\0'`
unfoldable pub strip_newline : Str → Str
strip_newline [] = []
strip_newline (c ∷ []) = if c == b'\n' then [] else c ∷ []
strip_newline (c ∷ d ∷ s) = c ∷ strip_newline (d ∷ s)

-- The body of the loop over the lines.
unfoldable pub read_line : List ℕ → LockInfo → LockInfo
read_line line info = elim (split_at b'=' (strip_newline (c_string line))) [
  | none ↦ info
  | some p ↦ set_field p.0 p.1 info
]

-- `while (fgets(line, sizeof(line), fp))`, with `char line[1024]`. Each line has a character at
-- least, so the number of bytes is fuel enough.
unfoldable pub read_lines : ℕ → List ℕ → LockInfo → LockInfo
read_lines zero bytes info = info
read_lines (suc f) [] info = info
read_lines (suc f) (c ∷ bytes) info =
    let next = fgets 1023 (c ∷ bytes) in read_lines f next.1 (read_line next.0 info)

-- `read_text_lock_file`
unfoldable pub read_text_lock_file : File → Option LockInfo
read_text_lock_file file =
    if file.readable
    then some (read_lines (length file.bytes) file.bytes (record zeroed { magic = lock_magic }))
    else none

-- A struct was read whole: it counts if the magic number is right, or else the text format is tried.
unfoldable pub accept_binary : File → LockInfo → Option LockInfo
accept_binary file info = if info.magic == lock_magic then some info else read_text_lock_file file

-- `read_lock_file_any_format`: the binary struct, or else the text format.
unfoldable pub read_lock_file_any_format : File → Option LockInfo
unfolding accept_binary
read_lock_file_any_format file =
    if file.readable && leb struct_size (length file.bytes)
    then accept_binary file (struct_of_bytes (take struct_size file.bytes))
    else read_text_lock_file file
