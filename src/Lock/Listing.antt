-- ===== src/Lock/Listing.antt =====
-- lock/lock.c: `list_locks`. What is printed is a list of lines, as bytes.
pub mod Rows
use waitlock.Base.{
  ℕ, zero, suc, ◌-◌, Bool, true, false, ◌&&◌, not, List, [], ◌∷◌, ◌++◌, codes, Option, none, some,
  ◌==◌, length, replicate, if◌then◌else◌,
}
use waitlock.Base.Int.{ℤ}
use waitlock.Directory.{Dir}
use waitlock.Globals.{e_success, e_system, e_nodir}
use waitlock.LockFile.{File, read_lock_file_any_format}
use waitlock.LockInfo.{LockInfo, lock_magic, validate_lock_checksum}
use waitlock.Process.{Probe, process_exists}
use waitlock.Text.{Str, contains, c_string}
use waitlock.Text.Decimal.{print_nat, print_int}

-- `output_format_t`
pub data OutputFormat : Type 0 where
  human csv null : OutputFormat

-- `getpwuid` and `localtime` with `strftime`.
pub record Names : Type 0 where
  pub user : ℕ → Option Str
  pub time : ℤ → Str

-- `%-<width>s`
unfoldable pub pad_right : ℕ → Str → Str
pad_right width s = s ++ replicate (width - length s) 32

abbrev user_name : Option Str → Str
user_name none = codes "unknown"
user_name (some name) = name

abbrev status : Bool → Str
status true = codes "stale"
status false = codes "active"

abbrev pub or_text : Str → Str → Str
or_text [] t = t
or_text (c ∷ s) t = c ∷ s

unfoldable pub human_row : Names → LockInfo → Bool → Str
unfolding pad_right
human_row n info is_stale =
    if is_stale
    then codes "  [STALE]          ("
      ++ (pad_right 4 (print_int info.pid)
          ++ (codes ") "
              ++ (pad_right 4 (if info.lock_type == 1 then codes "n/a" else codes "-")
                  ++ (32
                      ∷ (pad_right 8 (user_name (n.user info.uid))
                          ++ (32
                              ∷ (pad_right 19 (n.time info.acquired_at)
                                  ++ (32
                                      ∷ (or_text (c_string info.cmdline)
                                            (codes "Process no longer exists")
                                          ++ b'\n' ∷ [])))))))))
    else pad_right 18 (c_string info.descriptor)
      ++ (32
          ∷ (pad_right 6 (print_int info.pid)
              ++ (32
                  ∷ (pad_right 4 (if info.lock_type == 1 then print_nat info.slot else codes "-")
                      ++ (32
                          ∷ (pad_right 8 (user_name (n.user info.uid))
                              ++ (32
                                  ∷ (pad_right 19 (n.time info.acquired_at)
                                      ++ (32 ∷ (c_string info.cmdline ++ b'\n' ∷ []))))))))))

-- The fields of the CSV and the null formats, each with what ends it.
unfoldable pub fields_row : Names → LockInfo → Bool → ℕ → Str → Str
fields_row n info is_stale separator end =
    c_string info.descriptor
    ++ (separator
        ∷ (print_int info.pid
            ++ (separator
                ∷ (print_nat info.slot
                    ++ (separator
                        ∷ (user_name (n.user info.uid)
                            ++ (separator
                                ∷ (print_int info.acquired_at
                                    ++ (separator
                                        ∷ (status is_stale
                                            ++ (separator
                                                ∷ (c_string info.cmdline ++ end))))))))))))

unfoldable pub row : Names → OutputFormat → LockInfo → Bool → Str
unfolding human_row fields_row
row n OutputFormat.human info is_stale = human_row n info is_stale
row n OutputFormat.csv info is_stale = fields_row n info is_stale b',' (b'\n' ∷ [])
row n OutputFormat.null info is_stale = fields_row n info is_stale 0 (0 ∷ 0 ∷ [])

-- What decides whether the lock of an entry is printed: a lock file that is accepted, and the
-- options. The result is its struct and whether it is stale.
unfoldable pub list_info : Probe → Bool → Bool → LockInfo → Option (LockInfo × Bool)
list_info probe show_all stale_only info =
    if not (info.magic == lock_magic)
    then none
    else if not (validate_lock_checksum (some info))
    then none
    else if stale_only && process_exists probe info.pid
    then none
    else if not show_all && not (process_exists probe info.pid)
    then none
    else some (info, not (process_exists probe info.pid))

unfoldable pub list_entry : Probe → Bool → Bool → Str × File → Option (LockInfo × Bool)
list_entry probe show_all stale_only e =
    if contains (codes ".lock") e.0
    then (elim (read_lock_file_any_format e.1) [
      | none ↦ none
      | some info ↦ list_info probe show_all stale_only info
    ])
    else none

unfoldable pub print_one :
    Option (LockInfo × Bool) → List (LockInfo × Bool) → List (LockInfo × Bool)
print_one none rows = rows
print_one (some r) rows = r ∷ rows

unfoldable pub list_entries : Probe → Bool → Bool → Dir → List (LockInfo × Bool)
list_entries probe show_all stale_only [] = []
list_entries probe show_all stale_only (e ∷ dir) =
    print_one (list_entry probe show_all stale_only e) (list_entries probe show_all stale_only dir)

unfoldable pub header : OutputFormat → Bool → List Str
unfolding pad_right
header OutputFormat.human false =
    (pad_right 18 (codes "DESCRIPTOR")
      ++ (32
          ∷ (pad_right 6 (codes "PID")
              ++ (32
                  ∷ (pad_right 4 (codes "SLOT")
                      ++ (32
                          ∷ (pad_right 8 (codes "USER")
                              ++ (32
                                  ∷ (pad_right 19 (codes "ACQUIRED")
                                      ++ (32 ∷ codes "COMMAND\n"))))))))))
    ∷ []
header OutputFormat.csv false = codes "descriptor,pid,slot,user,acquired,status,command\n" ∷ []
header _ _ = []

abbrev pub map_rows : Names → OutputFormat → List (LockInfo × Bool) → List Str
map_rows n format [] = []
map_rows n format (r ∷ rs) = row n format r.0 r.1 ∷ map_rows n format rs

-- `list_locks`, with what `find_lock_directory` found and whether `opendir` succeeds: the exit code
-- and the lines printed. It changes no entry.
unfoldable pub list_locks :
    Option Str → Bool → Probe → Names → Bool → OutputFormat → Bool → Bool → Dir → ℕ × List Str
list_locks none opened probe n quiet format show_all stale_only dir = (e_nodir, [])
list_locks (some lock_dir) opened probe n quiet format show_all stale_only dir =
    if opened
    then (
      e_success,
      header format quiet ++ map_rows n format (list_entries probe show_all stale_only dir),
    )
    else (e_system, [])
