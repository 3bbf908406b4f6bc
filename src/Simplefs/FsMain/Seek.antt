-- ===== src/Simplefs/FsMain/Seek.antt =====
-- labs/fs-main/simplefs-ops.c: seek, which stops at the ends of the file.
use operating_systems_labwor.Base.{
  ℕ, ◌+◌, ◌^◌, ◌<◌, ◌≤◌, ◌≡◌, refl, ap, ◌⊎◌, inl, inr, arith, ltb, Bool-cases, lt→ltb, set, ℤ, pos,
  negsuc, pos_part, neg_part,
}
use operating_systems_labwor.Simplefs.State.{State, Returns, Returns-bind, and_then}
use operating_systems_labwor.Simplefs.Disk.Views.{inode_at}
use operating_systems_labwor.Simplefs.Disk.Calls.{read_inode-done}
use operating_systems_labwor.Simplefs.Files.Handles.{with_handles}
use operating_systems_labwor.Simplefs.Files.Seek.{here, handle_at-done, IsMoved}
use operating_systems_labwor.Simplefs.Transfer.Read.{used-not_free}
use operating_systems_labwor.Simplefs.Consistent.{IsConsistent, IsUsed}
use operating_systems_labwor.Simplefs.FsMain.{seek_target, seek_within}

-- `to` is the place from 0 to `size` that is nearest to `from` moved by `by`.
abbrev pub IsNearest : ℕ → ℤ → ℕ → ℕ → Type 0
IsNearest from by size to =
    (to ≤ size)
    × (IsMoved from by to
        ⊎ ((to ≡ 0) × (from + pos_part by < neg_part by))
        ⊎ ((to ≡ size) × (size + neg_part by < from + pos_part by)))

seek_target_lem :
    (from size : ℕ) (by : ℤ) (s : State)
    → from ≤ size
    → from + pos_part by < 2 ^ 31
    → Returns (λ to t. (t ≡ s) × IsNearest from by size to) (seek_target from by (pos size) s)
unfolding seek_target
seek_target_lem from size (pos n) s le small = elim (Bool-cases (ltb (from + n) size)) [
  | inl inside ↦
      rw (lt→ltb (from + n) (2 ^ 31) small, inside) (refl, (ground arith, inl (omega arith)))
  | inr past ↦
      rw (lt→ltb (from + n) (2 ^ 31) small, past)
        (
          refl,
          (
            omega arith,
            elim (Bool-cases (ltb size (from + n))) [
              | inl out ↦ inr (inr (refl, ground arith))
              | inr in_file ↦ inl (ground arith)
            ],
          ),
        )
]
seek_target_lem from size (negsuc k) s le small = (
  refl,
  (
    omega arith,
    elim (Bool-cases (ltb from (k + 1))) [
      | inl below ↦ inr (inl (ground arith, ground arith))
      | inr above ↦ inl (ground arith)
    ],
  ),
)

-- The seek of the earlier course, on an open file whose offset is not past its end, returns 0 and
-- moves the offset to the place in the file that is nearest to its target: the target, or 0 if that
-- is negative, or the size if it is past the end. The sum must not overflow an `int`.
-- The state satisfies the invariant.
pub seek_within_lem :
    (s : State) (c : IsConsistent s) (h : ℕ) (l : h < 20) (by : ℤ) (i size : ℕ)
    → (here s c h l).inode_number ≡ pos i
    → i < 8
    → IsUsed s i
    → (inode_at s i).file_size ≡ pos size
    → (here s c h l).offset ≤ size
    → (here s c h l).offset + pos_part by < 2 ^ 31
    → Returns
        (λ r t.
          (r ≡ pos 0)
          × ((to : ℕ) × IsNearest (here s c h l).offset by size to
              × (t ≡ with_handles s (set s.handles h (record (here s c h l) { offset = to })))))
        (seek_within (pos h) by s)
unfolding seek_within
seek_within_lem s c h l by i size file li used sized le small =
    rw
      (
        handle_at-done s c h l,
        and_then,
        file,
        read_inode-done s c.tables i li,
        used-not_free (inode_at s i) used.0,
        sized,
      )
      (Returns-bind _ (seek_target (here s c h l).offset by (pos size) s) _
        (seek_target_lem (here s c h l).offset size by s le small)
        λ to t (same, near). rw same (
          refl,
          (
            to,
            near,
            ap
                (λ (z : ℤ).
                  with_handles s (set s.handles h (record { offset = to; inode_number = z })))
                file,
          ),
        ))
