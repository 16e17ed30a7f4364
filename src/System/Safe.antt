-- ===== src/System/Safe.antt =====
-- The invariant of `System` where no lock of a dead process is in the directory, and that every call
-- keeps it.
use waitlock.Base.{ℕ, ◌<◌, ◌≡◌, ◌≢◌, refl, ◌∙◌, Bool, true, false, some, ◌==◌, if◌then◌else◌, arith}
use waitlock.Directory.{Dir, lookup, slot_name}
use waitlock.Lock.{Holder, holder_of}
use waitlock.LockFile.{File}
use waitlock.LockFile.Empty.{empty_file}
use waitlock.LockInfo.{IsValid, lock_magic}
use waitlock.Process.{process_exists}
use waitlock.System.{
  Setup, Point, scanning, unlinking, claiming, created, undoing, holding, State, put, slot_of,
}
use waitlock.Text.{Str}

-- The processes live, and their structs are in the range of the C types.
pub record IsSetup (u : Setup) : Type 0 where
  pub valid : (i : ℕ) → IsValid (u.info i)
  pub marked : (i : ℕ) → (u.info i).magic ≡ lock_magic
  pub lives : (i : ℕ) → process_exists u.probe (u.info i).pid ≡ true

-- No file of the directory is the lock of a dead process.
abbrev pub IsClean : Setup → Dir → Type 0
IsClean u dir =
    (name : Str) (file : File) → lookup name dir ≡ some file → holder_of u.probe file ≢ Holder.stale

-- What a process that made a file may rely on: the slot is in range and the file is there, empty
-- before the write and an active lock after it.
abbrev pub Owned : Setup → Dir → Point → Type 0
Owned u dir (created x) =
    (x < u.max_holders) × (lookup (slot_name u.descriptor x) dir ≡ some empty_file)
Owned u dir (undoing x) =
    (x < u.max_holders) × (lookup (slot_name u.descriptor x) dir ≡ some empty_file)
Owned u dir (holding x) =
    (x < u.max_holders)
    × ((f : File) × (lookup (slot_name u.descriptor x) dir ≡ some f)
        × (holder_of u.probe f ≡ Holder.active))
Owned u dir _ = Unit {0}

abbrev pub is_unlinking : Point → Bool
is_unlinking (unlinking name names n) = true
is_unlinking _ = false

pub record IsSafe (u : Setup) (s : State) : Type 0 where
  pub owned : (i : ℕ) → Owned u s.dir (s.at i)
  pub unique : (i j x : ℕ) → slot_of (s.at i) ≡ some x → slot_of (s.at j) ≡ some x → i ≡ j
  pub clean : IsClean u s.dir
  pub no_unlink : (i : ℕ) → is_unlinking (s.at i) ≡ false

-- A process keeps its file if the entry is as it was.
Owned-same :
    (u : Setup) (dir dir' : Dir) (p : Point)
    → ((x : ℕ)
        → slot_of p ≡ some x
        → lookup (slot_name u.descriptor x) dir' ≡ lookup (slot_name u.descriptor x) dir)
    → Owned u dir p
    → Owned u dir' p
Owned-same u dir dir' Point.idle same o = tt
Owned-same u dir dir' (scanning names n) same o = tt
Owned-same u dir dir' (unlinking name names n) same o = tt
Owned-same u dir dir' (claiming x) same o = tt
Owned-same u dir dir' (created x) same (lt, e) = (lt, same x refl ∙ e)
Owned-same u dir dir' (undoing x) same (lt, e) = (lt, same x refl ∙ e)
Owned-same u dir dir' (holding x) same (lt, (f, e, a)) = (lt, (f, same x refl ∙ e, a))

-- One process moves, and no entry that another process owns changes.
module _ (u : Setup) (s : State) (safe : IsSafe u s) (i : ℕ) (dir' : Dir) (p' : Point)
    (others : (j y : ℕ)
      → (i == j) ≡ false
      → slot_of (s.at j) ≡ some y
      → lookup (slot_name u.descriptor y) dir' ≡ lookup (slot_name u.descriptor y) s.dir)
    (alone : (j x : ℕ) → (i == j) ≡ false → slot_of p' ≡ some x → slot_of (s.at j) ≢ some x)
    (mine : Owned u dir' p') (clean' : IsClean u dir') (quiet : is_unlinking p' ≡ false) where
  put-Owned : (j : ℕ) (b : Bool) → (i == j) ≡ b → Owned u dir' (if b then p' else s.at j)
  put-Owned j true e = mine
  put-Owned j false e = Owned-same u s.dir dir' (s.at j) (λ x h. others j x e h) (safe.owned j)

  put_unique :
      (j k x : ℕ) (b c : Bool)
      → (i == j) ≡ b
      → (i == k) ≡ c
      → slot_of (if b then p' else s.at j) ≡ some x
      → slot_of (if c then p' else s.at k) ≡ some x
      → j ≡ k
  put_unique j k x true true e f g h = ground arith
  put_unique j k x true false e f g h = absurd (alone k x f g h)
  put_unique j k x false true e f g h = absurd (alone j x e h g)
  put_unique j k x false false e f g h = safe.unique j k x g h

  put_quiet : (j : ℕ) (b : Bool) → (i == j) ≡ b → is_unlinking (if b then p' else s.at j) ≡ false
  put_quiet j true e = quiet
  put_quiet j false e = safe.no_unlink j

  pub moved-IsSafe : IsSafe u (record { dir = dir'; at = put s.at i p' })
  moved-IsSafe = record {
    owned = λ j. put-Owned j (i == j) refl;
    unique = λ j k x g h. put_unique j k x (i == j) (i == k) refl refl g h;
    clean = clean';
    no_unlink = λ j. put_quiet j (i == j) refl;
  }
