-- ===== src/Lock/Check/Keeping.antt =====
-- `check_lock` keeps the locks of processes that live.
use waitlock.Base.{
  ◌≡◌, ap, Bool, true, false, not, [], ◌∷◌, Option, none, some, some_eq, Bool-cases, Option-cases,
  inl, inr, arith,
}
use waitlock.Directory.{Dir, lookup}
use waitlock.Lock.Check.{check_lock}
use waitlock.Lock.Check.Answers.{corrupt_lock, check_lock_removes}
use waitlock.Lock.Scanning.{keep_if}
use waitlock.Lock.{Holder, holder_of, holder_of_info}
use waitlock.LockFile.{File, read_lock_file_any_format}
use waitlock.Process.{Probe}
use waitlock.Text.{Str, str_eq}
use waitlock.Text.Laws.{str_eq_sound}

lookup-keep_if :
    (p : Str × File → Bool) (name : Str) (file : File) (dir : Dir)
    → lookup name dir ≡ some file
    → p (name, file) ≡ true
    → lookup name (keep_if p dir) ≡ some file
unfolding lookup keep_if
lookup-keep_if p name file [] h k = cc
lookup-keep_if p name file ((n, f) ∷ dir) h k = elim (Bool-cases (str_eq n name)) [
  | inl hit ↦
      let same : n ≡ name = str_eq_sound n name hit in
      let it : f ≡ file = some_eq (rw hit at h) in
      let kept : p (n, f) ≡ true = rw (same, it) k in rw (kept, hit) (ap some it)
  | inr miss ↦
      let rest = lookup-keep_if p name file dir (rw miss at h) k in
      elim (Bool-cases (p (n, f))) [
        | inl kept ↦ rw (kept, miss) rest
        | inr dropped ↦ rw dropped rest
      ]
]

pub active-not_corrupt :
    (probe : Probe) (d name : Str) (file : File)
    → holder_of probe file ≡ Holder.active
    → corrupt_lock d (name, file) ≡ false
unfolding holder_of holder_of_info
active-not_corrupt probe d name file h = elim (Option-cases (read_lock_file_any_format file)) [
  | inl e ↦ rw e (ground arith)
  | inr (info, e) ↦ let here = rw (e, holder_of) at h in rw e (ground arith)
]

-- A lock file that is accepted, of a process that exists, is still there after `check_lock`.
pub check_lock-keeps :
    (lock_dir : Option Str) (opened : Bool) (probe : Probe) (d name : Str) (file : File) (dir : Dir)
    → lookup name dir ≡ some file
    → holder_of probe file ≡ Holder.active
    → lookup name (check_lock lock_dir opened probe d dir).1 ≡ some file
unfolding check_lock
check_lock-keeps none opened probe d name file dir found active = found
check_lock-keeps (some lock_dir) false probe d name file dir found active = found
check_lock-keeps (some lock_dir) true probe d name file dir found active =
    rw (check_lock_removes lock_dir probe d dir) (
      lookup-keep_if (λ e. not (corrupt_lock d e)) name file dir found
        (ap not (active-not_corrupt probe d name file active)))
