-- ===== src/Simplefs/Transfer/Refused.antt =====
-- `simplefs_write` that is refused.
use operating_systems_labwor.Base.{
  ℕ, ◌+◌, ◌*◌, ◌^◌, ◌<◌, ◌≡◌, refl, ◌⊎◌, inl, inr, List, arith, true, ltb, ==-ne, lt→ltb,
  Bool-cases, pos, minus_one,
}
use operating_systems_labwor.Simplefs.State.{Handle, State, done}
use operating_systems_labwor.Simplefs.Disk.Views.{inode_at}
use operating_systems_labwor.Simplefs.Disk.Calls.{read_inode-done}
use operating_systems_labwor.Simplefs.Files.Handles.{get_or-AllHandles}
use operating_systems_labwor.Simplefs.Files.Seek.{here, handle_at-done}
use operating_systems_labwor.Simplefs.Consistent.{IsConsistent, IsOpenHandle}
use operating_systems_labwor.Simplefs.Transfer.{is_free, write_nonzero, write_file}

-- The handle is closed, or the bytes reach past the largest size of a file.
abbrev pub IsRefused : Handle → ℕ → Type 0
IsRefused x n = (x.inode_number ≡ minus_one) ⊎ ((256 < x.offset + n) × (x.offset + n < 2 ^ 31))

write_nonzero-refused :
    (s : State) (x : Handle) (buf : List ℕ) (n : ℕ)
    → IsConsistent s
    → IsOpenHandle x
    → IsRefused x n
    → write_nonzero x buf (pos n) s ≡ done minus_one s
unfolding write_nonzero
write_nonzero-refused s x buf n c o (inl closed) = rw closed refl
write_nonzero-refused s x buf n c o (inr (long, small)) = elim o.1 [
  | inl closed ↦ rw closed refl
  | inr (i, file, l) ↦ elim (Bool-cases (is_free (inode_at s i))) [
    | inl free ↦ rw (file, read_inode-done s c.tables i l, free) refl
    | inr used ↦
        let past : ltb (4 * 64 + 0) (n + x.offset) ≡ true = ground (arith, long) in
        rw (file, read_inode-done s c.tables i l, used, lt→ltb (x.offset + n) (2 ^ 31) small, past)
          refl
  ]
]

-- `simplefs_write` of a positive number of bytes through a handle that is closed, or to a place past
-- the largest size of a file, returns -1 and changes nothing, whether or not the file still exists. The
-- sum of the offset and the number must not overflow an `int`. The state satisfies the invariant.
pub write_file-refused :
    (s : State) (c : IsConsistent s) (h n : ℕ) (buf : List ℕ) (l : h < 20)
    → 0 < n
    → IsRefused (here s c h l) n
    → write_file (pos h) buf (pos n) s ≡ done minus_one s
unfolding write_file
write_file-refused s c h n buf l positive refused =
    let valid =
      get_or-AllHandles IsOpenHandle s.handles h c.handles (omega (arith, c.handle_count)) in
    rw (==-ne n 0 (omega arith), handle_at-done s c h l)
      (write_nonzero-refused s (here s c h l) buf n c valid refused)
