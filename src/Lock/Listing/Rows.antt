-- ===== src/Lock/Listing/Rows.antt =====
-- Which locks `list_locks` prints.
use mathlib.Core.List.{append-nil}
use waitlock.Base.{
  ◌≡◌, refl, inl, inr, Bool, true, false, ◌++◌, ap, ◌&&◌, not, List, [], ◌∷◌, Option, none, some,
  arith, codes, Bool-cases, Option-cases, if◌then◌else◌,
}
use waitlock.Directory.{Dir}
use waitlock.Globals.{e_success}
use waitlock.Lock.Listing.{
  Names, OutputFormat, list_info, list_entry, print_one, list_entries, header, map_rows, list_locks,
}
use waitlock.Lock.Scanning.{is_stale, keep_if}
use waitlock.Lock.{Holder, holder_of, holder_of_info}
use waitlock.LockFile.{File, read_lock_file_any_format}
use waitlock.LockInfo.{LockInfo}
use waitlock.Process.{Probe}
use waitlock.Text.{Str, contains}

-- The accepted lock files that the options select.
abbrev pub shown : Bool → Bool → Holder → Bool
shown show_all stale_only Holder.active = not stale_only
shown show_all stale_only Holder.stale = show_all
shown show_all stale_only Holder.unknown = false

abbrev pub is_shown : Probe → Bool → Bool → Str × File → Bool
is_shown probe show_all stale_only e =
    contains (codes ".lock") e.0 && shown show_all stale_only (holder_of probe e.1)

-- What a line is printed from.
abbrev with_status : Holder → Option LockInfo → Option (LockInfo × Bool)
with_status h none = none
with_status h (some info) = some (info, is_stale h)

pub rows_of : Probe → Dir → List (LockInfo × Bool)
rows_of probe [] = []
rows_of probe (e ∷ dir) =
    print_one (with_status (holder_of probe e.1) (read_lock_file_any_format e.1))
      (rows_of probe dir)

list_entry_lem :
    (probe : Probe) (show_all stale_only : Bool) (e : Str × File)
    → list_entry probe show_all stale_only e ≡ (
        if is_shown probe show_all stale_only e
        then with_status (holder_of probe e.1) (read_lock_file_any_format e.1)
        else none)
unfolding list_entry list_info holder_of holder_of_info
list_entry_lem probe show_all stale_only e = elim (Option-cases (read_lock_file_any_format e.1)) [
  | inl r ↦ rw (r, list_entry, holder_of) (ground arith)
  | inr (info, r) ↦ rw (r, list_entry, holder_of) (ground arith)
]

-- The rows are those of the files that the options select, in the order of the directory.
pub list_entries_lem :
    (probe : Probe) (show_all stale_only : Bool) (dir : Dir)
    → list_entries probe show_all stale_only dir
      ≡ rows_of probe (keep_if (is_shown probe show_all stale_only) dir)
unfolding list_entries rows_of keep_if print_one
list_entries_lem probe show_all stale_only [] = refl
list_entries_lem probe show_all stale_only (e ∷ dir) =
    elim (Bool-cases (is_shown probe show_all stale_only e)) [
      | inl hit ↦
          rw
            (
              hit,
              list_entries,
              list_entry_lem probe show_all stale_only e,
              hit,
              list_entries_lem probe show_all stale_only dir,
            )
            refl
      | inr miss ↦
          rw (miss, list_entries, list_entry_lem probe show_all stale_only e, miss)
            (list_entries_lem probe show_all stale_only dir)
    ]

-- `--stale-only` without `--all` selects no file.
nothing_shown :
    (probe : Probe) (dir : Dir) → rows_of probe (keep_if (is_shown probe false true) dir) ≡ []
unfolding rows_of keep_if
nothing_shown probe [] = refl
nothing_shown probe (e ∷ dir) = rw (not_shown probe e, keep_if) (nothing_shown probe dir)
  where
    not_shown : (probe : Probe) (e : Str × File) → is_shown probe false true e ≡ false
    not_shown probe e = ground arith

-- On a directory that was found and can be read, `list_locks` succeeds, and prints its header and then
-- a row for each lock file that the options select, in the order of the directory, from the struct
-- that the file reads as and whether its holder is gone; with `--stale-only` and without `--all` it
-- prints its header only, whatever the directory holds.
pub list_locks_lem :
    (lock_dir : Str) (probe : Probe) (n : Names) (quiet : Bool) (format : OutputFormat)
    (show_all stale_only : Bool) (dir : Dir)
    → (list_locks (some lock_dir) true probe n quiet format show_all stale_only dir ≡ (
      e_success,
      header format quiet
          ++ map_rows n format (rows_of probe (keep_if (is_shown probe show_all stale_only) dir)),
    ))
      × (list_locks (some lock_dir) true probe n quiet format false true dir
          ≡ (e_success, header format quiet))
unfolding list_locks
list_locks_lem lock_dir probe n quiet format show_all stale_only dir = (
  rw (list_entries_lem probe show_all stale_only dir) refl,
  rw (list_entries_lem probe false true dir, nothing_shown probe dir)
      (ap (λ l. (e_success, l)) (append-nil (header format quiet))),
)
