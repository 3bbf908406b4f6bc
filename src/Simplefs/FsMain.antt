-- ===== src/Simplefs/FsMain.antt =====
-- labs/fs-main/simplefs-ops.c: the solution of the earlier course, over the same disk layer
-- (labs/fs-main/simplefs-disk.c has the same functions). Local inodes take the place of the one that
-- the later solution allocates.
pub mod Same
pub mod Reads
pub mod Seek
mod Tests
use operating_systems_labwor.Base.{
  ℕ, zero, suc, ◌+◌, ◌-◌, ◌*◌, ◌/◌, ◌%◌, ◌^◌, Bool, true, false, Option, none, some, List, [], ◌∷◌,
  ◌++◌, ltb, ◌==◌, if◌then◌else◌, length, set, take, drop, replicate, ℤ, pos, negsuc, minus_one,
  is_minus_one, pos_part, neg_part,
}
use operating_systems_labwor.Simplefs.State.{Handle, Cmd, ◌>>=◌, ◌>>◌, pure, get, put, undefined}
use operating_systems_labwor.Simplefs.Disk.{
  num_inodes, block_size, inode_in_use, closed, read_inode, write_inode, alloc_inode, free_inode,
  read_data_block,
}
use operating_systems_labwor.Simplefs.Files.{names, free_blocks, handle_at}
use operating_systems_labwor.Simplefs.Transfer.{is_free, count_blocks, failed, write_nonzero}

-- The search loop of create, delete and open: `n` inodes are left, the next is number `i`.
unfoldable pub find_index : List ℕ → ℕ → ℕ → Cmd (Option ℕ)
find_index filename zero i = pure none
find_index filename (suc n) i = do
  y ← read_inode i
  hit ← names filename y
  if hit then pure (some i) else find_index filename n (i + 1)

-- `memset(name, 0, MAX_NAME_STRLEN)`, and `strncpy(name, filename, MAX_NAME_STRLEN - 1)`.
unfoldable pub short_name : List ℕ → List ℕ
short_name filename = take 7 filename ++ replicate (8 - length (take 7 filename)) 0

-- The rest of create, after the search.
unfoldable pub fill_new : List ℕ → Cmd ℤ
fill_new filename = do
  i ← alloc_inode
  elim i [
    | negsuc _ ↦ pure minus_one
    | pos n ↦ do
      x ← read_inode n
      write_inode n
          (record x { file_size = pos 0; status = inode_in_use; name = short_name filename })
      pure (pos n)
  ]

unfoldable pub create_file : List ℕ → Cmd ℤ
create_file filename = do
  found ← find_index filename num_inodes 0
  elim found [ some _ ↦ pure minus_one | none ↦ fill_new filename ]

unfoldable pub delete_file : List ℕ → Cmd (Unit {0})
delete_file filename = do
  found ← find_index filename num_inodes 0
  elim found [
    | none ↦ pure tt
    | some i ↦ do x ← read_inode i; free_blocks x.direct_blocks; free_inode i
  ]

unfoldable pub is_negative : ℤ → Bool
is_negative (pos n) = false
is_negative (negsuc k) = true

-- The loop over `file_handle_array` in open.
unfoldable pub first_negative : List Handle → Option ℕ
first_negative [] = none
first_negative (h ∷ hs) =
    if is_negative h.inode_number
    then some 0
    else elim (first_negative hs) [ none ↦ none | some i ↦ some (suc i) ]

unfoldable pub open_first : List ℕ → Cmd ℤ
open_first filename = do
  found ← find_index filename num_inodes 0
  elim found [
    | none ↦ pure minus_one
    | some i ↦ do
      s ← get
      elim (first_negative s.handles) [
        | none ↦ pure minus_one
        | some h ↦ do
          put (record s { handles = set s.handles h (record { inode_number = pos i; offset = 0 }) })
          pure (pos h)
      ]
  ]

-- A handle outside the array is undefined.
unfoldable pub close_handle : ℤ → Cmd (Unit {0})
close_handle (negsuc k) = undefined
close_handle (pos h) = do
  _ ← handle_at (pos h)
  s ← get
  put (record s { handles = set s.handles h closed })

-- The loop of read: `m` is `num_blks - blk`, `blocks` are the entries of `direct_blocks` from `blk`
-- on, `left` is `bytes_left_to_read` and `out` what has been copied to the caller's buffer.
unfoldable pub read_blocks : ℕ → List ℤ → ℕ → ℕ → List ℕ → Cmd (List ℕ)
read_blocks zero blocks off left out = pure out
read_blocks (suc m) [] off left out = if left == 0 then pure out else undefined
read_blocks (suc m) (b ∷ bs) off left out = if left == 0 then pure out else do
  blk_data ← read_data_block b
  if ltb block_size (off + left)
      then read_blocks m bs 0 (left - (block_size - off)) (out ++ drop off blk_data)
      else pure (out ++ take left (drop off blk_data))

-- Read through a handle; only the sum of the offset and a positive number can overflow. Where it
-- does not, `nbytes <= 0` gives -1 whatever the size is.
unfoldable pub read_through : Handle → ℤ → Cmd (ℤ × List ℕ)
read_through h nbytes = elim h.inode_number [
  | negsuc _ ↦ pure failed
  | pos i ↦ do
    x ← read_inode i
    if is_free x
        then pure failed
        else if ltb (h.offset + pos_part nbytes) (2 ^ 31)
        then (if ltb (pos_part x.file_size + neg_part nbytes)
              (h.offset + pos_part nbytes + neg_part x.file_size)
            then pure failed
            else if pos_part nbytes == 0
            then pure failed
            else do
              out ←
                  read_blocks (count_blocks x.direct_blocks - h.offset / block_size)
                    (drop (h.offset / block_size) x.direct_blocks) (h.offset % block_size)
                    (pos_part nbytes) []
              pure (pos 0, out))
        else undefined
]

unfoldable pub read_bytes : ℤ → ℤ → Cmd (ℤ × List ℕ)
read_bytes file_handle nbytes = do h ← handle_at file_handle; read_through h nbytes

-- Behind its handle the code of write is that of the later solution, but here it also runs when
-- `nbytes` is 0.
unfoldable pub write_bytes : ℤ → List ℕ → ℤ → Cmd ℤ
write_bytes file_handle buf nbytes = do h ← handle_at file_handle; write_nonzero h buf nbytes

-- The offset that seek stores, if no sum overflows; a negative one, which a negative size would
-- give, counts as undefined.
unfoldable pub seek_target : ℕ → ℤ → ℤ → Cmd ℕ
seek_target offset (negsuc k) size = pure (offset - (k + 1))
seek_target offset (pos n) (negsuc k) = undefined
seek_target offset (pos n) (pos size) =
    if ltb (offset + n) (2 ^ 31)
    then pure (if ltb (offset + n) size then offset + n else size)
    else undefined

unfoldable pub seek_within : ℤ → ℤ → Cmd ℤ
seek_within file_handle nseek = do
  h ← handle_at file_handle
  elim h.inode_number [
    | negsuc _ ↦ pure minus_one
    | pos i ↦ do
      x ← read_inode i
      if is_free x then pure minus_one else do
        to ← seek_target h.offset nseek x.file_size
        s ← get
        put (record s { handles = set s.handles (pos_part file_handle) (record h { offset = to }) })
        pure (pos 0)
  ]
