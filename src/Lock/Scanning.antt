-- ===== src/Lock/Scanning.antt =====
-- The scan of `acquire_lock` against its description: it counts the active locks of the descriptor
-- and leaves all but its stale ones.
use waitlock.Base.{
  ℕ, suc, ◌+◌, ◌≤◌, ◌≡◌, refl, ap, ◌∙◌, ◌≢◌, inl, inr, Bool, true, false, ◌&&◌, not, [], ◌∷◌, some,
  arith, Bool-cases, if◌then◌else◌,
}
use waitlock.Directory.{Dir, lookup}
use waitlock.Lock.{Holder, claims, holder_of, scan, scan_entry}
use waitlock.LockFile.{File}
use waitlock.Process.{Probe}
use waitlock.Text.{Str, str_eq}

abbrev pub is_active : Holder → Bool
is_active Holder.active = true
is_active Holder.stale = false
is_active Holder.unknown = false

abbrev pub is_stale : Holder → Bool
is_stale Holder.active = false
is_stale Holder.stale = true
is_stale Holder.unknown = false

-- An active lock of the descriptor, and a stale one, as `acquire_lock` sees them.
abbrev pub active_claim : Probe → Str → Str × File → Bool
active_claim probe d e = claims d e.0 && is_active (holder_of probe e.1)

abbrev pub stale_claim : Probe → Str → Str × File → Bool
stale_claim probe d e = claims d e.0 && is_stale (holder_of probe e.1)

unfoldable pub count_if : (Str × File → Bool) → Dir → ℕ
count_if p [] = 0
count_if p (e ∷ dir) = if p e then suc (count_if p dir) else count_if p dir

unfoldable pub keep_if : (Str × File → Bool) → Dir → Dir
keep_if p [] = []
keep_if p (e ∷ dir) = if p e then e ∷ keep_if p dir else keep_if p dir

scan_entry_lem :
    (probe : Probe) (d : Str) (e : Str × File) (rest : ℕ × Dir)
    → scan_entry probe d e rest ≡ (
      (if active_claim probe d e then suc rest.0 else rest.0),
      (if not (stale_claim probe d e) then e ∷ rest.1 else rest.1),
    )
unfolding scan_entry
scan_entry_lem probe d e rest = ground arith

-- The scan of `acquire_lock` counts the active locks whose names begin with the descriptor, and leaves
-- all entries but the stale locks of such names, in their order.
pub scan_lem :
    (probe : Probe) (d : Str) (dir : Dir)
    → scan probe d dir
      ≡ (count_if (active_claim probe d) dir, keep_if (λ e. not (stale_claim probe d e)) dir)
unfolding scan count_if keep_if
scan_lem probe d [] = refl
scan_lem probe d (e ∷ dir) = scan_entry_lem probe d e (scan probe d dir) ∙ rw (scan_lem probe d dir)

count_if-keep_if :
    (p q : Str × File → Bool) (dir : Dir)
    → ((e : Str × File) → p e ≡ true → q e ≡ true)
    → count_if p (keep_if q dir) ≡ count_if p dir
unfolding count_if keep_if
count_if-keep_if p q [] h = refl
count_if-keep_if p q (e ∷ dir) h = elim (Bool-cases (q e)) [
  | inl kept ↦ rw (kept, count_if, count_if-keep_if p q dir h) refl
  | inr dropped ↦ elim (Bool-cases (p e)) [
    | inl counted ↦ cc (h e counted)
    | inr other ↦ rw (dropped, other) (count_if-keep_if p q dir h)
  ]
]

-- An active lock is not a stale one.
active_not_stale :
    (probe : Probe) (d : Str) (e : Str × File)
    → active_claim probe d e ≡ true
    → not (stale_claim probe d e) ≡ true
active_not_stale probe d e h = ground arith

-- A second scan counts the same locks.
pub scan_twice :
    (probe : Probe) (d : Str) (dir : Dir)
    → (scan probe d (scan probe d dir).1).0 ≡ (scan probe d dir).0
scan_twice probe d dir =
    rw (scan_lem probe d (scan probe d dir).1, scan_lem probe d dir)
      (count_if-keep_if (active_claim probe d) _ dir (active_not_stale probe d))

-- One more entry raises the count by one at most, and by one if it is an active lock.
pub scan-cons-le :
    (probe : Probe) (d : Str) (e : Str × File) (dir : Dir)
    → (scan probe d (e ∷ dir)).0 ≤ (scan probe d dir).0 + 1
scan-cons-le probe d e dir =
    rw (scan_lem probe d (e ∷ dir), scan_lem probe d dir) (unfold count_if in ground arith)

pub scan-cons-active :
    (probe : Probe) (d : Str) (e : Str × File) (dir : Dir)
    → claims d e.0 ≡ true
    → holder_of probe e.1 ≡ Holder.active
    → (scan probe d (e ∷ dir)).0 ≡ (scan probe d dir).0 + 1
scan-cons-active probe d e dir c a =
    rw (scan_lem probe d (e ∷ dir), scan_lem probe d dir) (unfold count_if in ground arith)

lookup-keep_if :
    (p : Str × File → Bool) (name : Str) (file : File) (dir : Dir)
    → ((other : Str) → p (other, file) ≡ true)
    → lookup name dir ≡ some file
    → lookup name (keep_if p dir) ≡ some file
unfolding lookup keep_if
lookup-keep_if p name file [] h e = e
lookup-keep_if p name file ((n, f) ∷ dir) h e = elim (Bool-cases (str_eq n name)) [
  | inl hit ↦
      let same : f ≡ file = ground arith in
      let kept : p (n, f) ≡ true = rw same (h n) in rw (kept, lookup, hit) (ap some same)
  | inr miss ↦ elim (Bool-cases (p (n, f))) [
    | inl kept ↦ rw (kept, lookup, miss) (lookup-keep_if p name file dir h (ground arith))
    | inr dropped ↦ rw dropped (lookup-keep_if p name file dir h (ground arith))
  ]
]

-- The scan removes no file but those of stale locks.
pub lookup-scan :
    (probe : Probe) (d name : Str) (file : File) (dir : Dir)
    → lookup name dir ≡ some file
    → holder_of probe file ≢ Holder.stale
    → lookup name (scan probe d dir).1 ≡ some file
lookup-scan probe d name file dir found alive =
    rw (scan_lem probe d dir) (
      lookup-keep_if (λ e. not (stale_claim probe d e)) name file dir (λ other. ground arith) found)
