-- ===== src/Simplefs/Disk/Store.antt =====
-- What is written to the disk is read back, and what lies beside it stays.
use operating_systems_labwor.Base.{ℕ, ◌<◌, ◌≤◌, ◌≡◌, ◌≢◌, ap, ◌∙◌, List, arith, length, pos}
use operating_systems_labwor.Simplefs.Codec.{Inode}
use operating_systems_labwor.Simplefs.Codec.Roundtrip.{IsInode}
use operating_systems_labwor.Simplefs.State.{State, done, Returns}
use operating_systems_labwor.Simplefs.Disk.{
  read_inode, write_inode, read_data_block, write_data_block,
}
use operating_systems_labwor.Simplefs.Disk.Views.{
  superblock_at, inode_at, block_at, put_inode, put_block, HasTables, HasBlock,
  superblock_at-put_inode, inode_at-put_inode_self, inode_at-put_inode_ne, block_at-put_inode,
  size-put_inode, superblock_at-put_block, inode_at-put_block, block_at-put_block_self,
  block_at-put_block_ne, size-put_block,
}
use operating_systems_labwor.Simplefs.Disk.Calls.{
  read_inode-done, write_inode-done, read_data_block-done, write_data_block-done,
}

-- `simplefs_writeInode` puts the inode where `simplefs_readInode` finds it, and changes no other
-- inode, not the superblock, no data block and not the size of the disk file.
-- The superblock and the inodes lie in the disk file.
pub write_inode_lem :
    (s : State) (i : ℕ) (x : Inode)
    → HasTables s
    → i < 8
    → IsInode x
    → Returns
        (λ _ t.
          (read_inode i t ≡ done x t)
          × ((j : ℕ) → j < 8 → i ≢ j → inode_at t j ≡ inode_at s j)
          × (superblock_at t ≡ superblock_at s)
          × ((k : ℕ) → HasBlock s k → block_at t k ≡ block_at s k)
          × (t.disk.size ≡ s.disk.size))
        (write_inode i x s)
write_inode_lem s i x h l ok =
    let t = put_inode i x s in
    let size = size-put_inode s i x l ok h in
    rw (write_inode-done i x s l) (
      read_inode-done t (omega arith) i l
          ∙ ap (λ y. done y t) (inode_at-put_inode_self s i x l ok h),
      inode_at-put_inode_ne s i x l ok h,
      superblock_at-put_inode s i x l ok h,
      block_at-put_inode s i x l ok h,
      size,
    )

-- `simplefs_writeDataBlock` of 64 bytes puts them where `simplefs_readDataBlock` finds them, extends
-- the disk file if the block lay beyond its end, and changes no other block, no inode and not the
-- superblock. The superblock and the inodes lie in the disk file.
pub write_data_block_lem :
    (s : State) (b : ℕ) (bs : List ℕ)
    → HasTables s
    → b < 30
    → length bs ≡ 64
    → Returns
        (λ _ t.
          (read_data_block (pos b) t ≡ done bs t)
          × ((k : ℕ) → b ≢ k → HasBlock s k → block_at t k ≡ block_at s k)
          × ((j : ℕ) → j < 8 → inode_at t j ≡ inode_at s j)
          × (superblock_at t ≡ superblock_at s)
          × (s.disk.size ≤ t.disk.size))
        (write_data_block (pos b) bs s)
write_data_block_lem s b bs h l size =
    let t = put_block b bs s in
    let grown = size-put_block s b bs size in
    rw (write_data_block-done b bs s l) (
      read_data_block-done b t l (omega arith)
          ∙ ap (λ y. done y t) (block_at-put_block_self s b bs size),
      block_at-put_block_ne s b bs size,
      λ j k. inode_at-put_block s b bs size j k h,
      superblock_at-put_block s b bs size h,
      omega arith,
    )
