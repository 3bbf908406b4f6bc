-- ===== src/Simplefs/Disk.antt =====
-- CS236-Spring-2025-Labs/file-system/simplefs-disk.c: the disk layer.
pub mod Alloc
pub mod Calls
pub mod Format
pub mod Store
pub mod Views
use operating_systems_labwor.Base.{
  ℕ, zero, suc, ◌+◌, ◌-◌, ◌*◌, Bool, true, Option, none, some, List, [], ◌∷◌, ◌++◌, ltb, ◌==◌,
  if◌then◌else◌, get_elem?, set, replicate, ℤ, pos, negsuc, minus_one,
}
use operating_systems_labwor.Simplefs.Image.{Image, slice}
use operating_systems_labwor.Simplefs.Codec.{
  Superblock, Inode, inode_bytes, inode_of, superblock_bytes, superblock_of,
}
use operating_systems_labwor.Simplefs.State.{
  Handle, State, Cmd, ◌>>=◌, ◌>>◌, pure, get, put, undefined, check, need, read_at, write_at,
}

abbrev pub block_size : ℕ
block_size = 64

abbrev pub num_inodes : ℕ
num_inodes = 8

abbrev pub num_data_blocks : ℕ
num_data_blocks = 30

abbrev pub max_file_size : ℕ
max_file_size = 4

abbrev pub max_open_files : ℕ
max_open_files = 20

-- 'x' and '1', for inodes and for data blocks alike.
abbrev pub free_mark : ℕ
free_mark = b'x'

abbrev pub used_mark : ℕ
used_mark = b'1'

abbrev pub inode_free : ℤ
inode_free = pos b'x'

abbrev pub inode_in_use : ℤ
inode_in_use = pos b'1'

unfoldable pub read_superblock : Cmd Superblock
unfolding read_at
read_superblock = do bs ← read_at 0 block_size; pure (superblock_of bs)

-- The 18 bytes of the block behind the structure are those of an uninitialised buffer.
unfoldable pub write_superblock : Superblock → Cmd (Unit {0})
unfolding write_at
write_superblock b = do s ← get; write_at 0 (superblock_bytes b ++ slice s.junk 46 18)

unfoldable pub inode_offset : ℕ → ℕ
inode_offset i = block_size + i * 32

unfoldable pub read_inode : ℕ → Cmd Inode
unfolding read_at
read_inode i = do check (ltb i num_inodes); bs ← read_at (inode_offset i) 32; pure (inode_of bs)

unfoldable pub write_inode : ℕ → Inode → Cmd (Unit {0})
unfolding write_at
write_inode i x = do check (ltb i num_inodes); write_at (inode_offset i) (inode_bytes x)

-- `lseek` to block `5 + blocknum`. A small negative number passes the assertion and hits the blocks
-- before the data; `lseek` refuses a negative offset, and what is read or written then is undefined.
unfoldable pub block_offset : ℤ → Option ℕ
block_offset (pos b) = some (block_size * (5 + b))
block_offset (negsuc k) = if ltb k 5 then some (block_size * (4 - k)) else none

unfoldable pub is_block : ℤ → Bool
is_block (pos b) = ltb b num_data_blocks
is_block (negsuc k) = true

unfoldable pub read_data_block : ℤ → Cmd (List ℕ)
unfolding read_at
read_data_block b = do check (is_block b); off ← need (block_offset b); read_at off block_size

unfoldable pub write_data_block : ℤ → List ℕ → Cmd (Unit {0})
unfolding write_at
write_data_block b bs = do check (is_block b); off ← need (block_offset b); write_at off bs

-- The loop of both allocators: the first free entry of a free list.
unfoldable pub first_free : List ℕ → Option ℕ
first_free [] = none
first_free (c ∷ cs) =
    if c == free_mark then some 0 else elim (first_free cs) [ none ↦ none | some i ↦ some (suc i) ]

unfoldable pub alloc_inode : Cmd ℤ
alloc_inode = do
  b ← read_superblock
  elim (first_free b.inode_freelist) [
    | none ↦ pure minus_one
    | some i ↦ do
      write_superblock (record b { inode_freelist = set b.inode_freelist i used_mark })
      pure (pos i)
  ]

unfoldable pub free_inode : ℕ → Cmd (Unit {0})
free_inode i = do
  check (ltb i num_inodes)
  b ← read_superblock
  x ← read_inode i
  c ← need (get_elem? b.inode_freelist i)
  check (c == used_mark)
  write_superblock (record b { inode_freelist = set b.inode_freelist i free_mark })
  write_inode i (record x {
    status = inode_free;
    file_size = pos 0;
    direct_blocks = replicate max_file_size minus_one;
  })

unfoldable pub alloc_data_block : Cmd ℤ
alloc_data_block = do
  b ← read_superblock
  elim (first_free b.datablock_freelist) [
    | none ↦ pure minus_one
    | some i ↦ do
      write_superblock (record b { datablock_freelist = set b.datablock_freelist i used_mark })
      pure (pos i)
  ]

-- `datablock_freelist[blocknum]` out of the array is undefined.
unfoldable pub free_data_block : ℤ → Cmd (Unit {0})
free_data_block (negsuc k) = do _ ← read_superblock; undefined
free_data_block (pos i) = do
  b ← read_superblock
  c ← need (get_elem? b.datablock_freelist i)
  check (c == used_mark)
  write_superblock (record b { datablock_freelist = set b.datablock_freelist i free_mark })

-- "simplefs"
abbrev pub disk_name : List ℕ
disk_name = b's' ∷ b'i' ∷ b'm' ∷ b'p' ∷ b'l' ∷ b'e' ∷ b'f' ∷ b's' ∷ []

abbrev pub empty_image : Image
empty_image = record { size = 0; byte = λ _. 0 }

-- `for(i = first; n > 0; i++, n--) simplefs_writeInode(i, inode);`
unfoldable pub write_inodes : ℕ → ℕ → Inode → Cmd (Unit {0})
write_inodes zero i x = pure tt
write_inodes (suc n) i x = do write_inode i x; write_inodes n (i + 1) x

abbrev pub closed : Handle
closed = record { offset = 0; inode_number = minus_one }

-- `fopen` with "w+" empties the file. The name of the first inode keeps the uninitialised bytes
-- behind its first.
unfoldable pub format_disk : Cmd (Unit {0})
format_disk = do
  s ← get
  put (record s { disk = empty_image })
  write_superblock (record {
    name = disk_name;
    inode_freelist = replicate num_inodes free_mark;
    datablock_freelist = replicate num_data_blocks free_mark;
  })
  write_inodes num_inodes 0 (record {
    status = inode_free;
    name = 0 ∷ slice s.junk 5 7;
    file_size = pos 0;
    direct_blocks = replicate max_file_size minus_one;
  })
  t ← get
  put (record t { handles = replicate max_open_files closed })
