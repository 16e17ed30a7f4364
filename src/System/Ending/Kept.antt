-- ===== src/System/Ending/Kept.antt =====
-- What a running process may rely on while others run and end, and that every timely step keeps it.
use waitlock.Base.{
  ℕ, ◌<◌, ◌≡◌, ◌≢◌, refl, sym, ap, ◌∙◌, Bool, true, false, some, some_eq, ◌==◌, ==_iff, not,
  if◌then◌else◌, arith,
}
use waitlock.Base.Int.{ℤ}
use waitlock.Directory.{Dir, lookup, slot_name}
use waitlock.Lock.{Holder, holder_of}
use waitlock.Lock.Claim.{slot_file}
use waitlock.Lock.Claim.Laws.{holder_of-slot_file}
use waitlock.LockFile.{File}
use waitlock.LockFile.Empty.{empty_file, holder_of-empty_file}
use waitlock.System.{
  Point, scanning, unlinking, claiming, created, undoing, holding, clock, put, slot_of,
}
use waitlock.System.Ending.{World, IsWorld, State, Gone}
use waitlock.Text.Decimal.{IsInt64}

-- The file of the slot that a process has taken: empty before the write, its struct after it.
abbrev pub Mine : World → Dir → ℕ → Point → Type 0
Mine w dir i (created x) =
    (i < w.count)
    × (x < w.setup.max_holders)
    × (lookup (slot_name w.setup.descriptor x) dir ≡ some empty_file)
Mine w dir i (undoing x) =
    (i < w.count)
    × (x < w.setup.max_holders)
    × (lookup (slot_name w.setup.descriptor x) dir ≡ some empty_file)
Mine w dir i (holding x) =
    (i < w.count)
    × (x < w.setup.max_holders)
    × ((t : ℤ) × IsInt64 t
        × (lookup (slot_name w.setup.descriptor x) dir
            ≡ some (slot_file (clock t) (w.setup.info i) x)))
Mine w dir i _ = Unit {0}

pub record IsKept (w : World) (s : State) : Type 0 where
  pub mine : (i : ℕ) → s.gone i ≡ false → Mine w s.dir i (s.at i)
  pub unique :
      (i j x : ℕ)
      → s.gone i ≡ false
      → s.gone j ≡ false
      → slot_of (s.at i) ≡ some x
      → slot_of (s.at j) ≡ some x
      → i ≡ j

pub Mine-same :
    (w : World) (dir dir' : Dir) (i : ℕ) (p : Point)
    → ((x : ℕ)
        → slot_of p ≡ some x
        → lookup (slot_name w.setup.descriptor x) dir'
          ≡ lookup (slot_name w.setup.descriptor x) dir)
    → Mine w dir i p
    → Mine w dir' i p
Mine-same w dir dir' i Point.idle same o = tt
Mine-same w dir dir' i (scanning names n) same o = tt
Mine-same w dir dir' i (unlinking name names n) same o = tt
Mine-same w dir dir' i (claiming x) same o = tt
Mine-same w dir dir' i (created x) same (r, lt, e) = (r, lt, same x refl ∙ e)
Mine-same w dir dir' i (undoing x) same (r, lt, e) = (r, lt, same x refl ∙ e)
Mine-same w dir dir' i (holding x) same (r, lt, (t, fits, e)) = (r, lt, (t, fits, same x refl ∙ e))

-- The file of a lock that is held is an active lock.
pub holding-active :
    (w : World) (gone : Gone) (i x : ℕ) (t : ℤ)
    → IsWorld w
    → i < w.count
    → gone i ≡ false
    → IsInt64 t
    → holder_of (w.answers gone) (slot_file (clock t) (w.setup.info i) x) ≡ Holder.active
holding-active w gone i x t is r runs fits =
    holder_of-slot_file (w.answers gone) (clock t) (w.setup.info i) x (is.valid i r) (is.marked i r)
      fits (is.exists i gone r ∙ ap not runs)

empty_not_stale : (w : World) (gone : Gone) → holder_of (w.answers gone) empty_file ≢ Holder.stale
empty_not_stale w gone stale = let unknown = holder_of-empty_file (w.answers gone) in ground arith

-- The file of a slot that a running process has taken is there, and is not stale.
pub Mine-there :
    (w : World) (dir : Dir) (gone : Gone) (i : ℕ) (p : Point) (y : ℕ)
    → IsWorld w
    → gone i ≡ false
    → Mine w dir i p
    → slot_of p ≡ some y
    → (f : File) × (lookup (slot_name w.setup.descriptor y) dir ≡ some f)
      × (holder_of (w.answers gone) f ≢ Holder.stale)
Mine-there w dir gone i Point.idle y is runs o h = absurd (ground arith)
Mine-there w dir gone i (scanning names n) y is runs o h = absurd (ground arith)
Mine-there w dir gone i (unlinking name names n) y is runs o h = absurd (ground arith)
Mine-there w dir gone i (claiming x) y is runs o h = absurd (ground arith)
Mine-there w dir gone i (created x) y is runs (r, lt, e) h = (
  empty_file,
  ap (λ (z : ℕ). lookup (slot_name w.setup.descriptor z) dir) (sym (some_eq h)) ∙ e,
  empty_not_stale w gone,
)
Mine-there w dir gone i (undoing x) y is runs (r, lt, e) h = (
  empty_file,
  ap (λ (z : ℕ). lookup (slot_name w.setup.descriptor z) dir) (sym (some_eq h)) ∙ e,
  empty_not_stale w gone,
)
Mine-there w dir gone i (holding x) y is runs (r, lt, (t, fits, e)) h = (
  slot_file (clock t) (w.setup.info i) x,
  ap (λ (z : ℕ). lookup (slot_name w.setup.descriptor z) dir) (sym (some_eq h)) ∙ e,
  λ stale. let active = holding-active w gone i x t is r runs fits in absurd (ground arith),
)

-- A running process moves, and no entry that another running process owns changes.
module _ (w : World) (s : State) (kept : IsKept w s) (i : ℕ) (dir' : Dir) (p' : Point)
    (others : (j y : ℕ)
      → (i == j) ≡ false
      → s.gone j ≡ false
      → slot_of (s.at j) ≡ some y
      → lookup (slot_name w.setup.descriptor y) dir'
        ≡ lookup (slot_name w.setup.descriptor y) s.dir)
    (alone : (j x : ℕ)
      → (i == j) ≡ false
      → s.gone j ≡ false
      → slot_of p' ≡ some x
      → slot_of (s.at j) ≢ some x)
    (own : Mine w dir' i p') where
  put-Mine :
      (j : ℕ) (b : Bool)
      → (i == j) ≡ b
      → s.gone j ≡ false
      → Mine w dir' j (if b then p' else s.at j)
  put-Mine j true e runs = let ij = (==_iff i j).0 e in rw (sym ij) own
  put-Mine j false e runs =
      Mine-same w s.dir dir' j (s.at j) (λ x h. others j x e runs h) (kept.mine j runs)

  put_apart :
      (j k x : ℕ) (b c : Bool)
      → (i == j) ≡ b
      → (i == k) ≡ c
      → s.gone j ≡ false
      → s.gone k ≡ false
      → slot_of (if b then p' else s.at j) ≡ some x
      → slot_of (if c then p' else s.at k) ≡ some x
      → j ≡ k
  put_apart j k x true true e f a b g h = ground arith
  put_apart j k x true false e f a b g h = absurd (alone k x f b g h)
  put_apart j k x false true e f a b g h = absurd (alone j x e a h g)
  put_apart j k x false false e f a b g h = kept.unique j k x a b g h

  pub moved-IsKept : IsKept w (record { dir = dir'; at = put s.at i p'; gone = s.gone })
  moved-IsKept = record {
    mine = λ j runs. put-Mine j (i == j) refl runs;
    unique = λ j k x a b g h. put_apart j k x (i == j) (i == k) refl refl a b g h;
  }

-- A process that ends takes nothing from the others.
pub quit-IsKept :
    (w : World) (s : State) (i : ℕ)
    → IsKept w s
    → IsKept w (record { dir = s.dir; at = s.at; gone = λ j. if i == j then true else s.gone j })
quit-IsKept w s i kept = record {
  mine = λ j runs. kept.mine j (ran j runs);
  unique = λ j k x a b g h. kept.unique j k x (ran j a) (ran k b) g h;
}
  where
    ran : (j : ℕ) → (if i == j then true else s.gone j) ≡ false → s.gone j ≡ false
    ran j h = ground arith
