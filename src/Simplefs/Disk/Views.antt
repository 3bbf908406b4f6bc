-- ===== src/Simplefs/Disk/Views.antt =====
-- What the disk file holds: the superblock, the inodes and the data blocks, each in its own range
-- of bytes, and what a write to one of them does to the others.
use operating_systems_labwor.Base.{
  ℕ, ◌+◌, ◌*◌, ◌≤◌, ◌<◌, ◌≡◌, ◌≢◌, sym, ap, ◌∙◌, inl, inr, List, ◌++◌, arith, dec_lt, length,
  length-append, max,
}
use operating_systems_labwor.Simplefs.Image.{
  slice, patch, size-patch, length-slice, slice-patch_self, slice-patch_apart,
}
use operating_systems_labwor.Simplefs.Codec.{
  Superblock, Inode, inode_bytes, inode_of, superblock_bytes, superblock_of,
}
use operating_systems_labwor.Simplefs.Codec.Roundtrip.{
  IsInode, IsSuperblock, length-inode_bytes, inode_of-inode_bytes, length-superblock_bytes,
  superblock_of-superblock_bytes,
}
use operating_systems_labwor.Simplefs.State.{State}
use operating_systems_labwor.Simplefs.Disk.{inode_offset}

unfoldable pub superblock_at : State → Superblock
superblock_at s = superblock_of (slice s.disk 0 64)

unfoldable pub inode_at : State → ℕ → Inode
inode_at s i = inode_of (slice s.disk (inode_offset i) 32)

abbrev pub block_start : ℕ → ℕ
block_start b = 64 * (5 + b)

unfoldable pub block_at : State → ℕ → List ℕ
block_at s b = slice s.disk (block_start b) 64

-- The state after the superblock, an inode or a data block is written.
unfoldable pub put_superblock : Superblock → State → State
put_superblock b s = record s { disk = patch s.disk 0 (superblock_bytes b ++ slice s.junk 46 18) }

unfoldable pub put_inode : ℕ → Inode → State → State
put_inode i x s = record s { disk = patch s.disk (inode_offset i) (inode_bytes x) }

unfoldable pub put_block : ℕ → List ℕ → State → State
put_block b bs s = record s { disk = patch s.disk (block_start b) bs }

-- The superblock and all the inodes lie in the file.
abbrev pub HasTables : State → Type 0
HasTables s = 320 ≤ s.disk.size

-- Data block `b` lies in the file.
abbrev pub HasBlock : State → ℕ → Type 0
HasBlock s b = block_start b + 64 ≤ s.disk.size

length-superblock_block :
    (b : Superblock) (s : State)
    → IsSuperblock b
    → length (superblock_bytes b ++ slice s.junk 46 18) ≡ 64
length-superblock_block b s h = omega (
  arith,
  length-append (superblock_bytes b) (slice s.junk 46 18),
  length-superblock_bytes b h,
  length-slice s.junk 46 18,
)

module _ (s : State) (b : Superblock) (h : IsSuperblock b) where
  pub superblock_at-put_superblock : superblock_at (put_superblock b s) ≡ b
  unfolding superblock_at put_superblock
  superblock_at-put_superblock =
      let bs = superblock_bytes b ++ slice s.junk 46 18 in
      ap (λ (n : ℕ). superblock_of (slice (patch s.disk 0 bs) 0 n))
        (sym (length-superblock_block b s h))
      ∙ ap superblock_of (slice-patch_self s.disk 0 bs)
      ∙ superblock_of-superblock_bytes b (slice s.junk 46 18) h

  pub inode_at-put_superblock :
      (i : ℕ) → i < 8 → HasTables s → inode_at (put_superblock b s) i ≡ inode_at s i
  unfolding inode_at put_superblock inode_offset
  inode_at-put_superblock i l t =
      let bs = superblock_bytes b ++ slice s.junk 46 18 in
      ap inode_of (
        slice-patch_apart s.disk 0 bs (64 + i * 32) 32 (omega arith)
          (omega (arith, length-superblock_block b s h)))

  pub block_at-put_superblock :
      (k : ℕ) → HasBlock s k → block_at (put_superblock b s) k ≡ block_at s k
  unfolding block_at put_superblock
  block_at-put_superblock k t =
      let bs = superblock_bytes b ++ slice s.junk 46 18 in
      slice-patch_apart s.disk 0 bs (block_start k) 64 (omega arith)
        (omega (arith, length-superblock_block b s h))

  pub size-put_superblock : HasTables s → (put_superblock b s).disk.size ≡ s.disk.size
  unfolding put_superblock
  size-put_superblock t =
      let bs = superblock_bytes b ++ slice s.junk 46 18 in
      omega (arith, size-patch s.disk 0 bs, length-superblock_block b s h)

module _ (s : State) (j : ℕ) (x : Inode) (l : j < 8) (h : IsInode x) (t : HasTables s) where
  pub superblock_at-put_inode : superblock_at (put_inode j x s) ≡ superblock_at s
  unfolding superblock_at put_inode inode_offset
  superblock_at-put_inode =
      ap superblock_of
        (slice-patch_apart s.disk (64 + j * 32) (inode_bytes x) 0 64 (omega arith) (omega arith))

  pub inode_at-put_inode_self : inode_at (put_inode j x s) j ≡ x
  unfolding inode_at put_inode
  inode_at-put_inode_self =
      ap
        (λ (n : ℕ).
          inode_of (slice (patch s.disk (inode_offset j) (inode_bytes x)) (inode_offset j) n))
        (sym (length-inode_bytes x h))
      ∙ ap inode_of (slice-patch_self s.disk (inode_offset j) (inode_bytes x))
      ∙ inode_of-inode_bytes x h

  pub inode_at-put_inode_ne : (i : ℕ) → i < 8 → j ≢ i → inode_at (put_inode j x s) i ≡ inode_at s i
  unfolding inode_at put_inode inode_offset
  inode_at-put_inode_ne i k ne = ap inode_of (
      slice-patch_apart s.disk (64 + j * 32) (inode_bytes x) (64 + i * 32) 32 (omega arith)
        (elim (dec_lt i j) [
          | yes below ↦ inl (omega arith)
          | no above ↦ inr (omega (arith, length-inode_bytes x h))
        ]))

  pub block_at-put_inode : (k : ℕ) → HasBlock s k → block_at (put_inode j x s) k ≡ block_at s k
  unfolding block_at put_inode inode_offset
  block_at-put_inode k b =
      slice-patch_apart s.disk (64 + j * 32) (inode_bytes x) (block_start k) 64 (omega arith)
        (inr (omega (arith, length-inode_bytes x h)))

  pub size-put_inode : (put_inode j x s).disk.size ≡ s.disk.size
  unfolding put_inode inode_offset
  size-put_inode =
      omega (arith, size-patch s.disk (64 + j * 32) (inode_bytes x), length-inode_bytes x h)

module _ (s : State) (b : ℕ) (bs : List ℕ) (h : length bs ≡ 64) where
  pub superblock_at-put_block : HasTables s → superblock_at (put_block b bs s) ≡ superblock_at s
  unfolding superblock_at put_block
  superblock_at-put_block t =
      ap superblock_of
        (slice-patch_apart s.disk (block_start b) bs 0 64 (omega arith) (inl (omega arith)))

  pub inode_at-put_block :
      (i : ℕ) → i < 8 → HasTables s → inode_at (put_block b bs s) i ≡ inode_at s i
  unfolding inode_at put_block inode_offset
  inode_at-put_block i l t = ap inode_of (
      slice-patch_apart s.disk (block_start b) bs (64 + i * 32) 32 (omega arith)
        (inl (omega arith)))

  pub block_at-put_block_self : block_at (put_block b bs s) b ≡ bs
  unfolding block_at put_block
  block_at-put_block_self =
      ap (slice (patch s.disk (block_start b) bs) (block_start b)) (sym h)
      ∙ slice-patch_self s.disk (block_start b) bs

  pub block_at-put_block_ne :
      (k : ℕ) → b ≢ k → HasBlock s k → block_at (put_block b bs s) k ≡ block_at s k
  unfolding block_at put_block
  block_at-put_block_ne k ne t =
      slice-patch_apart s.disk (block_start b) bs (block_start k) 64 (omega arith)
        (elim (dec_lt k b) [ yes below ↦ inl (omega arith) | no above ↦ inr (omega arith) ])

  pub size-put_block : (put_block b bs s).disk.size ≡ max s.disk.size (block_start b + 64)
  unfolding put_block
  size-put_block = omega (arith, size-patch s.disk (block_start b) bs)
