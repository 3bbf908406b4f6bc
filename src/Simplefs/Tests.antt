-- ===== src/Simplefs/Tests.antt =====
-- Runs of the simple file system on small inputs, and its theorems at states that it reaches.
use operating_systems_labwor.Base.{
  ℕ, zero, suc, ◌≡◌, ◌<◌, ◌≤◌, ◌≢◌, refl, List, [], ◌∷◌, ℤ, pos, negsuc, minus_one, replicate,
  get_or, arith,
}
use operating_systems_labwor.Simplefs.Image
use operating_systems_labwor.Simplefs.Image.{slice, patch}
use operating_systems_labwor.Simplefs.Codec.{
  Inode, int_bytes, int_of, ints_bytes, ints_of, signed, pattern_of, inode_bytes, inode_of,
  superblock_bytes, superblock_of,
}
use operating_systems_labwor.Simplefs.Codec.Roundtrip.{IsInode}
use operating_systems_labwor.Simplefs.State.{
  pure, State, Out, done, aborted, fault, Cmd, ◌>>=◌, ◌>>◌, Returns, read_at, write_at,
}
use operating_systems_labwor.Simplefs.Disk.{
  empty_image, closed, used_mark, format_disk, first_free, alloc_inode, alloc_data_block,
  free_inode, free_data_block, read_data_block, write_data_block, block_offset, is_block,
  inode_offset, read_inode, write_inode, read_superblock, write_superblock, write_inodes,
}
use operating_systems_labwor.Simplefs.Disk.Views.{superblock_at, inode_at, block_at, HasBlock}
use operating_systems_labwor.Simplefs.Disk.Alloc.{
  TakesDataBlock, TakesInode, alloc_data_block_lem, alloc_inode_lem, inodes,
}
use operating_systems_labwor.Simplefs.Transfer.Read.{Reads, read_file_lem}
use operating_systems_labwor.Simplefs.Disk.Store.{write_inode_lem, write_data_block_lem}
use operating_systems_labwor.Simplefs.Disk.Format.{IsEmptyDisk, format_disk_lem}
use operating_systems_labwor.Simplefs.Files.{
  in_use, strcmp_eq, strcpy, names, find_file, fill_inode, create, free_blocks, delete,
  first_closed, open_found, open_file, handle_at, close_file, seek_to, seek,
}
use operating_systems_labwor.Simplefs.Transfer.{
  is_free, read_loop, read_positive, read_file, count_blocks, at_new_block, set_block, extend,
  give_back, alloc_blocks, clear_blocks, attach, splice, chunk, write_loop, blocks_required,
  subtraction_fits, write_extended, write_nonzero, write_file,
}
use operating_systems_labwor.Simplefs.Files.Create.{Creates, create_lem}
use operating_systems_labwor.Simplefs.Files.CreateKeeps.{create-IsConsistent}
use operating_systems_labwor.Simplefs.Files.Delete.{Deletes, delete_lem}
use operating_systems_labwor.Simplefs.Files.DeleteKeeps.{delete-IsConsistent}
use operating_systems_labwor.Simplefs.Files.Fresh.{format_disk-IsConsistent}
use operating_systems_labwor.Simplefs.Files.Handles.{Opens, open_file_lem, open_file-IsConsistent}
use operating_systems_labwor.Simplefs.Files.Seek.{Seeks, seek_lem}
use operating_systems_labwor.Simplefs.Consistent.{IsUsed, IsConsistent}

-- Before `simplefs_formatDisk`, with memory that holds 7 everywhere.
abbrev pub fresh : State
fresh = record { disk = empty_image; handles = []; junk = record { size = 64; byte = λ _. 7 } }

-- What a call leaves.
unfoldable pub state_after : {A : Type 0} → Out A → State
state_after (done _ s) = s
state_after _ = fresh

unfoldable pub value_of : {A : Type 0} → A → Out A → A
value_of a (done b _) = b
value_of a _ = a

state_after-Returns :
    {A : Type 0} (P : State → Type 0) (o : Out A) → Returns (λ _ t. P t) o → P (state_after o)
unfolding state_after
state_after-Returns P (done _ s) h = h
state_after-Returns P aborted h = absurd h
state_after-Returns P fault h = absurd h

-- All that a run of the file system computes with.
unfoldable pub file_system : ℕ
unfolding Image.patched slice patch int_bytes int_of ints_bytes ints_of signed pattern_of
    inode_bytes inode_of superblock_bytes superblock_of read_at write_at format_disk first_free
    alloc_inode alloc_data_block free_inode free_data_block read_data_block write_data_block
    block_offset is_block inode_offset read_inode write_inode read_superblock write_superblock
    write_inodes in_use strcmp_eq strcpy names find_file fill_inode create free_blocks delete
    first_closed open_found open_file handle_at close_file seek_to seek is_free read_loop
    read_positive read_file count_blocks at_new_block set_block extend give_back alloc_blocks
    clear_blocks attach splice chunk write_loop blocks_required subtraction_fits write_extended
    write_nonzero write_file superblock_at inode_at block_at state_after value_of
file_system = 0

-- The name of a file.
abbrev pub name_a : List ℕ
name_a = b'a' ∷ []

-- Text of more than one block.
abbrev long_text : List ℕ
long_text = replicate 70 b'q'

transfer : Cmd (ℤ × List ℕ)
transfer = do
  format_disk
  _ ← create name_a
  h ← open_file name_a
  _ ← write_file h long_text (pos 70)
  _ ← seek h (pos 62)
  read_file h (pos 5)

-- Five bytes across the border of two blocks are read back.
transfer_result : value_of (minus_one, []) (transfer fresh) ≡ (pos 0, replicate 5 b'q')
unfolding file_system transfer
transfer_result = refl

-- All blocks but one are taken.
take_blocks : ℕ → Cmd (Unit {0})
take_blocks zero = pure tt
take_blocks (suc n) = do _ ← alloc_data_block; take_blocks n

-- A write of two blocks to an empty file, with one block free.
full_disk : Cmd ℤ
full_disk = do
  format_disk
  _ ← create name_a
  h ← open_file name_a
  take_blocks 29
  write_file h long_text (pos 70)

-- The write fails,
full_disk_result : value_of (pos 0) (full_disk fresh) ≡ minus_one
unfolding file_system full_disk take_blocks
full_disk_result = refl

-- the file has no block,
full_disk_blocks :
    (inode_at (state_after (full_disk fresh)) 0).direct_blocks ≡ replicate 4 minus_one
unfolding file_system full_disk take_blocks
full_disk_blocks = refl

-- and yet the last block stays marked as used.
full_disk_freelist :
    (superblock_at (state_after (full_disk fresh))).datablock_freelist ≡ replicate 30 used_mark
unfolding file_system full_disk take_blocks
full_disk_freelist = refl

unfoldable pub empty : State
empty = state_after (format_disk fresh)

unfoldable pub one_file : State
one_file = state_after (create name_a empty)

unfoldable pub opened : State
opened = state_after (open_file name_a one_file)

empty-IsConsistent : IsConsistent empty
unfolding empty
empty-IsConsistent =
    state_after-Returns IsConsistent (format_disk fresh) (format_disk-IsConsistent fresh)

pub one_file-IsConsistent : IsConsistent one_file
unfolding one_file
one_file-IsConsistent =
    state_after-Returns IsConsistent (create name_a empty)
      (create-IsConsistent empty name_a empty-IsConsistent (omega arith) (omega arith))

pub opened-IsConsistent : IsConsistent opened
unfolding opened
opened-IsConsistent =
    state_after-Returns IsConsistent (open_file name_a one_file)
      (open_file-IsConsistent one_file name_a one_file-IsConsistent (omega arith))

pub opened-handle : (get_or opened.handles 0 closed).inode_number ≡ pos 0
unfolding opened one_file empty file_system
opened-handle = refl

pub opened-offset : (get_or opened.handles 0 closed).offset ≡ 0
unfolding opened one_file empty file_system
opened-offset = refl

pub opened-size : (inode_at opened 0).file_size ≡ pos 0
unfolding opened one_file empty file_system
opened-size = refl

one_file-mark : get_or (inodes one_file) 0 0 ≡ used_mark
unfolding one_file empty file_system
one_file-mark = refl

create_lem_example : Returns (Creates one_file name_a) (create name_a one_file)
create_lem_example = create_lem one_file one_file-IsConsistent name_a (omega arith) (omega arith)

delete_lem_example : Returns (λ _ t. Deletes one_file name_a t) (delete name_a one_file)
delete_lem_example = delete_lem one_file one_file-IsConsistent name_a (omega arith)

open_file_lem_example : Returns (Opens one_file name_a) (open_file name_a one_file)
open_file_lem_example = open_file_lem one_file one_file-IsConsistent name_a (omega arith)

seek_lem_example :
    Returns
      (Seeks opened 0 (get_or opened.handles 0 closed) 0 (negsuc 4))
      (seek (pos 0) (negsuc 4) opened)
seek_lem_example =
    seek_lem opened opened-IsConsistent 0 (omega arith) (negsuc 4) 0 0 opened-handle (omega arith)
      opened-size (omega (arith, opened-offset))

create-IsConsistent_example : Returns (λ _ t. IsConsistent t) (create name_a empty)
create-IsConsistent_example =
    create-IsConsistent empty name_a empty-IsConsistent (omega arith) (omega arith)

delete-IsConsistent_example : Returns (λ _ t. IsConsistent t) (delete name_a one_file)
delete-IsConsistent_example =
    delete-IsConsistent one_file name_a one_file-IsConsistent (omega arith)

format_disk-IsConsistent_example : Returns (λ _ t. IsConsistent t) (format_disk fresh)
format_disk-IsConsistent_example = format_disk-IsConsistent fresh

format_disk_lem_example : Returns (λ _ t. IsEmptyDisk t) (format_disk fresh)
format_disk_lem_example = format_disk_lem fresh

alloc_data_block_lem_example : Returns (TakesDataBlock empty) (alloc_data_block empty)
alloc_data_block_lem_example = alloc_data_block_lem empty empty-IsConsistent.tables

alloc_inode_lem_example : Returns (TakesInode empty) (alloc_inode empty)
alloc_inode_lem_example = alloc_inode_lem empty empty-IsConsistent.tables

-- An inode with a negative entry.
abbrev sample : Inode
sample = record {
  status = pos b'1';
  name = b'a' ∷ replicate 7 0;
  file_size = pos 70;
  direct_blocks = pos 3 ∷ pos 7 ∷ minus_one ∷ minus_one ∷ [];
}

sample-IsInode : IsInode sample
sample-IsInode = record {
  name_size = refl;
  blocks_size = refl;
  status_range = omega arith;
  size_range = omega arith;
  blocks_range = omega arith;
}

write_inode_lem_example :
    Returns
      (λ _ t.
        (read_inode 2 t ≡ done sample t)
        × ((j : ℕ) → j < 8 → 2 ≢ j → inode_at t j ≡ inode_at empty j)
        × (superblock_at t ≡ superblock_at empty)
        × ((k : ℕ) → HasBlock empty k → block_at t k ≡ block_at empty k)
        × (t.disk.size ≡ empty.disk.size))
      (write_inode 2 sample empty)
write_inode_lem_example =
    write_inode_lem empty 2 sample empty-IsConsistent.tables (omega arith) sample-IsInode

write_data_block_lem_example :
    Returns
      (λ _ t.
        (read_data_block (pos 4) t ≡ done (replicate 64 b'z') t)
        × ((k : ℕ) → 4 ≢ k → HasBlock empty k → block_at t k ≡ block_at empty k)
        × ((j : ℕ) → j < 8 → inode_at t j ≡ inode_at empty j)
        × (superblock_at t ≡ superblock_at empty)
        × (empty.disk.size ≤ t.disk.size))
      (write_data_block (pos 4) (replicate 64 b'z') empty)
write_data_block_lem_example =
    write_data_block_lem empty 4 (replicate 64 b'z') empty-IsConsistent.tables (omega arith) refl

pub opened-IsUsed : IsUsed opened 0
unfolding opened one_file empty file_system
opened-IsUsed = (refl, refl)

read_file_lem_example :
    Returns
      (Reads opened 0 0 (get_or opened.handles 0 closed).offset 1)
      (read_file (pos 0) (pos 1) opened)
read_file_lem_example =
    read_file_lem opened opened-IsConsistent 0 0 0 1 (omega arith) (omega arith) opened-handle
      opened-IsUsed opened-size (omega arith) (omega (arith, opened-offset))

-- create copies a name of eight characters over the end of the array.
long_name_result : create (replicate 8 b'n') empty ≡ fault
unfolding file_system empty
long_name_result = refl

-- seek negates the smallest `int`.
smallest_seek : seek (pos 0) (negsuc 2147483647) opened ≡ fault
unfolding file_system opened one_file empty
smallest_seek = refl
