-- ===== src/Lock/Claim/Laws.antt =====
-- What a claimed slot is, and what its file says.
use waitlock.Base.{
  ℕ, zero, suc, ◌+◌, ◌%◌, ◌^◌, ◌≤◌, ◌<◌, ◌≡◌, refl, ◌∙◌, if◌then◌else◌, inl, inr, ◌⊎◌, true, false,
  not, ◌||◌, [], ◌∷◌, codes, Option, none, some, arith, Bool-cases, ==_refl, All,
}
use waitlock.Checksum.Bitwise.{IsByte}
use waitlock.Directory.{Dir, exists_in, slot_name}
use waitlock.Directory.Entries.{starts_with-slot_name, contains-slot_name}
use waitlock.Lock.Claim.{or_else, Host, Slots, prepare_info, slot_info, slot_file, claim_slot}
use waitlock.Lock.{Holder, holder_of, holder_of_info, claims}
use waitlock.LockFile.{read_lock_file_any_format}
use waitlock.Text.Laws.{length-store_string, All-store_string}
use waitlock.LockFile.Reading.{read-struct_bytes}
use waitlock.LockInfo.{LockInfo, IsValid, lock_magic}
use waitlock.LockInfo.Corruption.{sealed-IsValid, validate-sealed}
use waitlock.Process.{Probe, process_exists}
use waitlock.Text.{Str}
use waitlock.Text.Decimal.{IsInt32, IsInt64}

-- What a claim may give back: a slot and its file, or the entries as they were.
abbrev pub Claimed : Slots → Str → LockInfo → ℕ → ℕ → Dir → Option ℕ × Dir → Type 0
Claimed env d info n slot dir r =
    ((r.0 ≡ none) × (r.1 ≡ dir))
    ⊎ ((s : ℕ) × (r.0 ≡ some s)
        × (slot ≤ s)
        × (s < slot + n)
        × (exists_in (slot_name d s) dir ≡ false)
        × (r.1 ≡ (slot_name d s, slot_file env info s) ∷ dir))

-- `acquire_lock`'s loop over `n` slots from `slot` on takes a slot in that range whose file was not
-- there, and adds that file; or it takes none and leaves the entries as they were.
pub claim_slot-Claimed :
    (env : Slots) (d : Str) (info : LockInfo) (n slot : ℕ) (dir : Dir)
    → Claimed env d info n slot dir (claim_slot env d info n slot dir)
unfolding claim_slot
claim_slot-Claimed env d info zero slot dir = inl (refl, refl)
claim_slot-Claimed env d info (suc n) slot dir =
    pick (claim_slot-Claimed env d info n (slot + 1) dir)
  where
    widen :
        (r : Option ℕ × Dir)
        → Claimed env d info n (slot + 1) dir r
        → Claimed env d info (suc n) slot dir r
    widen r (inl e) = inl e
    widen r (inr (s, a, lo, hi, absent, b)) = inr (s, a, omega arith, omega arith, absent, b)

    pick :
        Claimed env d info n (slot + 1) dir (claim_slot env d info n (slot + 1) dir)
        → Claimed env d info (suc n) slot dir (claim_slot env d info (suc n) slot dir)
    pick c = elim (Bool-cases (exists_in (slot_name d slot) dir || not (env.can_create slot))) [
      | inl taken ↦ rw taken (widen _ c)
      | inr free ↦ elim (Bool-cases (env.written slot)) [
        | inl done ↦
            rw (free, done) (inr (slot, refl, omega arith, omega arith, ground arith, refl))
        | inr short ↦ rw (free, short) (widen _ c)
      ]
    ]

-- What the system says about the process is in the range of the C types.
pub record IsHost (host : Host) (descriptor : Str) : Type 0 where
  pub pid_fits : IsInt32 host.pid
  pub ppid_fits : IsInt32 host.ppid
  pub uid_fits : host.uid < 2 ^ 32
  pub hostname_bytes : All IsByte (or_else host.hostname (codes "unknown"))
  pub descriptor_bytes : All IsByte descriptor
  pub cmdline_bytes : All IsByte (or_else host.cmdline [])

-- The prepared struct is in the range of its types.
pub prepare_info-IsValid :
    (host : Host) (d : Str) (max_holders : ℕ)
    → IsHost host d
    → IsValid (prepare_info host d max_holders)
unfolding prepare_info
prepare_info-IsValid host d max_holders h = record {
  magic_fits = omega arith;
  version_fits = omega arith;
  pid_fits = h.pid_fits;
  ppid_fits = h.ppid_fits;
  uid_fits = h.uid_fits;
  padding_fits = omega arith;
  acquired_at_fits = omega arith;
  lock_type_fits = ground arith;
  max_holders_fits = omega arith;
  slot_fits = omega arith;
  reserved_fits = omega arith;
  hostname_fits = length-store_string 256 _ (omega arith);
  descriptor_fits = length-store_string 256 _ (omega arith);
  cmdline_fits = length-store_string 4096 _ (omega arith);
  hostname_bytes = All-store_string IsByte 256 _ (omega arith) h.hostname_bytes;
  descriptor_bytes = All-store_string IsByte 256 _ (omega arith) h.descriptor_bytes;
  cmdline_bytes = All-store_string IsByte 4096 _ (omega arith) h.cmdline_bytes;
  checksum_fits = omega arith;
  tail_padding_fits = omega arith;
}

stamped-IsValid :
    (env : Slots) (info : LockInfo) (slot : ℕ)
    → IsValid info
    → IsInt64 (env.time slot)
    → IsValid (record info { slot = slot % 2 ^ 16; acquired_at = env.time slot })
stamped-IsValid env info slot v t = record {
  magic_fits = v.magic_fits;
  version_fits = v.version_fits;
  pid_fits = v.pid_fits;
  ppid_fits = v.ppid_fits;
  uid_fits = v.uid_fits;
  padding_fits = v.padding_fits;
  acquired_at_fits = t;
  lock_type_fits = v.lock_type_fits;
  max_holders_fits = v.max_holders_fits;
  slot_fits = omega arith;
  reserved_fits = v.reserved_fits;
  hostname_fits = v.hostname_fits;
  descriptor_fits = v.descriptor_fits;
  cmdline_fits = v.cmdline_fits;
  hostname_bytes = v.hostname_bytes;
  descriptor_bytes = v.descriptor_bytes;
  cmdline_bytes = v.cmdline_bytes;
  checksum_fits = v.checksum_fits;
  tail_padding_fits = v.tail_padding_fits;
}

-- The file of a claimed slot is read back as the struct that was written, if the prepared struct has
-- the magic number and is in the range of its types.
pub read-slot_file :
    (env : Slots) (info : LockInfo) (slot : ℕ)
    → IsValid info
    → info.magic ≡ lock_magic
    → IsInt64 (env.time slot)
    → read_lock_file_any_format (slot_file env info slot) ≡ some (slot_info env info slot)
unfolding slot_file slot_info
read-slot_file env info slot v m t =
    read-struct_bytes _ (sealed-IsValid _ (stamped-IsValid env info slot v t)) m

-- The file of a claimed slot counts as an active lock while the process that wrote it exists, and as
-- a stale one after that.
pub holder_of-slot_file_either :
    (probe : Probe) (env : Slots) (info : LockInfo) (slot : ℕ)
    → IsValid info
    → info.magic ≡ lock_magic
    → IsInt64 (env.time slot)
    → holder_of probe (slot_file env info slot)
      ≡ (if process_exists probe info.pid then Holder.active else Holder.stale)
unfolding holder_of holder_of_info
holder_of-slot_file_either probe env info slot v m t =
    rw (read-slot_file env info slot v m t, holder_of) (ready slot)
  where
    ready :
        (s : ℕ)
        → holder_of_info probe (slot_info env info s)
          ≡ (if process_exists probe info.pid then Holder.active else Holder.stale)
    ready s =
        unfold slot_info in
        ground (
          arith,
          validate-sealed (record info { slot = s % 2 ^ 16; acquired_at = env.time s }),
          ==_refl lock_magic,
        )

-- The file of a claimed slot counts as an active lock while the process that wrote it exists, if the
-- prepared struct has the magic number and is in the range of its types.
pub holder_of-slot_file :
    (probe : Probe) (env : Slots) (info : LockInfo) (slot : ℕ)
    → IsValid info
    → info.magic ≡ lock_magic
    → IsInt64 (env.time slot)
    → process_exists probe info.pid ≡ true
    → holder_of probe (slot_file env info slot) ≡ Holder.active
holder_of-slot_file probe env info slot v m t alive =
    holder_of-slot_file_either probe env info slot v m t ∙ rw alive refl

pub claims-slot_name : (d : Str) (slot : ℕ) → claims d (slot_name d slot) ≡ true
unfolding claims
claims-slot_name d slot = rw (starts_with-slot_name d slot) (contains-slot_name d slot)
