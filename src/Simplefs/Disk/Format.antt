-- ===== src/Simplefs/Disk/Format.antt =====
-- The disk after `simplefs_formatDisk`.
use operating_systems_labwor.Base.{ℕ, zero, suc, ◌<◌, ◌≡◌, refl, arith, pos, minus_one, replicate}
use operating_systems_labwor.Simplefs.Image
use operating_systems_labwor.Simplefs.Image.{slice, patch}
use operating_systems_labwor.Simplefs.Codec.{
  Inode, pattern_of, signed, int_bytes, int_of, ints_bytes, ints_of, inode_bytes, inode_of,
  superblock_bytes, superblock_of,
}
use operating_systems_labwor.Simplefs.State.{State, done, Returns}
use operating_systems_labwor.Simplefs.Disk.{
  closed, disk_name, free_mark, inode_free, format_disk, write_inodes, write_inode, inode_offset,
  write_superblock,
}
use operating_systems_labwor.Simplefs.Disk.Views.{superblock_at, inode_at}

-- An empty disk: every inode and every data block is free, and no file is open.
pub record IsEmptyDisk (s : State) : Type 0 where
  pub size : s.disk.size ≡ 320
  pub superblock : superblock_at s ≡ record {
    name = disk_name;
    inode_freelist = replicate 8 free_mark;
    datablock_freelist = replicate 30 free_mark;
  }
  pub inodes :
      (i : ℕ)
      → i < 8
      → ((inode_at s i).status ≡ inode_free)
        × ((inode_at s i).file_size ≡ pos 0)
        × ((inode_at s i).direct_blocks ≡ replicate 4 minus_one)
  pub handles : s.handles ≡ replicate 20 closed

-- The formatted state, whatever the state before.
formatted : State → State
unfolding format_disk write_inodes write_inode inode_offset write_superblock patch inode_bytes
    superblock_bytes int_bytes ints_bytes pattern_of slice
formatted s = elim (format_disk s) [ done _ u ↦ u | _ ↦ s ]

format_disk-done : (s : State) → format_disk s ≡ done tt (formatted s)
unfolding formatted
format_disk-done s = refl

formatted-superblock :
    (s : State)
    → superblock_at (formatted s) ≡ record {
      name = disk_name;
      inode_freelist = replicate 8 free_mark;
      datablock_freelist = replicate 30 free_mark;
    }
unfolding formatted superblock_at superblock_of Image.patched
formatted-superblock s = refl

formatted-size : (s : State) → (formatted s).disk.size ≡ 320
unfolding formatted
formatted-size s = refl

formatted-handles : (s : State) → (formatted s).handles ≡ replicate 20 closed
unfolding formatted
formatted-handles s = refl

abbrev Blank : Inode → Type 0
Blank x =
    (x.status ≡ inode_free) × (x.file_size ≡ pos 0) × (x.direct_blocks ≡ replicate 4 minus_one)

-- Each inode by evaluation.
formatted-inode : (s : State) (i : ℕ) → i < 8 → Blank (inode_at (formatted s) i)
unfolding formatted inode_at inode_of Image.patched int_of ints_of signed
formatted-inode s zero l = (refl, refl, refl)
formatted-inode s (suc zero) l = (refl, refl, refl)
formatted-inode s (suc (suc zero)) l = (refl, refl, refl)
formatted-inode s (suc (suc (suc zero))) l = (refl, refl, refl)
formatted-inode s (suc (suc (suc (suc zero)))) l = (refl, refl, refl)
formatted-inode s (suc (suc (suc (suc (suc zero))))) l = (refl, refl, refl)
formatted-inode s (suc (suc (suc (suc (suc (suc zero)))))) l = (refl, refl, refl)
formatted-inode s (suc (suc (suc (suc (suc (suc (suc zero))))))) l = (refl, refl, refl)
formatted-inode s (suc (suc (suc (suc (suc (suc (suc (suc i)))))))) l = absurd (omega arith)

-- `simplefs_formatDisk` succeeds in every state, and leaves a disk of 320 bytes with the name
-- "simplefs" on which every inode and data block is free, and no open file.
pub format_disk_lem : (s : State) → Returns (λ _ u. IsEmptyDisk u) (format_disk s)
format_disk_lem s = rw (format_disk-done s) record {
  size = formatted-size s;
  superblock = formatted-superblock s;
  inodes = formatted-inode s;
  handles = formatted-handles s;
}
