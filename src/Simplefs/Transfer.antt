-- ===== src/Simplefs/Transfer.antt =====
-- CS236-Spring-2025-Labs/file-system/simplefs-ops.c: read and write.
pub mod Content
pub mod Read
pub mod Splice
pub mod Write
mod Tests
pub mod Overwrite
pub mod InPlace
pub mod Refused
pub mod ReadBack
use operating_systems_labwor.Base.{
  ℕ, zero, suc, ◌+◌, ◌-◌, ◌*◌, ◌/◌, ◌%◌, ◌^◌, Bool, false, ◌&&◌, Option, none, some, List, [], ◌∷◌,
  ◌++◌, ltb, leb, ◌==◌, if◌then◌else◌, length, get_elem?, set, take, drop, replicate, ℤ, pos,
  negsuc, minus_one, is_minus_one, pos_part, neg_part,
}
use operating_systems_labwor.Simplefs.Codec.{Inode}
use operating_systems_labwor.Simplefs.State.{Handle, Cmd, ◌>>=◌, ◌>>◌, pure, undefined, need, check}
use operating_systems_labwor.Simplefs.Disk.{
  block_size, max_file_size, read_inode, write_inode, alloc_data_block, free_data_block,
  read_data_block, write_data_block,
}
use operating_systems_labwor.Simplefs.Files.{handle_at}

-- `inode->status == INODE_FREE`.
unfoldable pub is_free : Inode → Bool
is_free x = elim x.status [ pos n ↦ n == b'x' | negsuc n ↦ false ]

-- The loop of read: `blocks` are the entries of `direct_blocks` from `blk` on, `left` is
-- `bytes_left_to_read` and `out` what has been copied to the caller's buffer. To read an entry past
-- the array is undefined.
unfoldable pub read_loop : List ℤ → ℕ → ℕ → List ℕ → Cmd (List ℕ)
read_loop [] off left out = if left == 0 then pure out else undefined
read_loop (b ∷ bs) off left out = if left == 0 then pure out else do
  blk_data ← read_data_block b
  if ltb block_size (off + left)
      then read_loop bs 0 (left - (block_size - off)) (out ++ drop off blk_data)
      else pure (out ++ take left (drop off blk_data))

abbrev pub failed : ℤ × List ℕ
failed = (minus_one, [])

-- Read returns its result and what it has put into the buffer.
unfoldable pub read_positive : Handle → ℕ → Cmd (ℤ × List ℕ)
read_positive h nbytes = elim h.inode_number [
  | negsuc _ ↦ pure failed
  | pos i ↦ do
    x ← read_inode i
    if is_free x
        then pure failed
        else if ltb (h.offset + nbytes) (2 ^ 31)
        then (if ltb (pos_part x.file_size) (h.offset + nbytes + neg_part x.file_size)
            then pure failed
            else do
              out ←
                  read_loop (drop (h.offset / block_size) x.direct_blocks) (h.offset % block_size)
                    nbytes []
              pure (pos 0, out))
        else undefined
]

unfoldable pub read_file : ℤ → ℤ → Cmd (ℤ × List ℕ)
read_file file_handle (negsuc _) = pure failed
read_file file_handle (pos n) =
    if n == 0 then pure failed else do h ← handle_at file_handle; read_positive h n

-- `num_blks`
unfoldable pub count_blocks : List ℤ → ℕ
count_blocks [] = 0
count_blocks (b ∷ bs) = (if is_minus_one b then 0 else 1) + count_blocks bs

abbrev pub null_data : List ℕ
null_data = replicate block_size 0

-- Does the offset stand at the end of the file, at the start of a block that is not there?
unfoldable pub at_new_block : ℕ → Inode → Bool
at_new_block offset x =
    (offset % block_size == 0)
    && (ltb (offset / block_size) max_file_size
        && ((pos_part x.file_size == offset)
            && ((neg_part x.file_size == 0)
                && elim (get_elem? x.direct_blocks (offset / block_size)) [
                  | none ↦ false
                  | some b ↦ is_minus_one b
                ])))

-- `inode->direct_blocks[i] = b`; outside the array it is undefined.
unfoldable pub set_block : Inode → ℕ → ℤ → Cmd Inode
set_block x i b = do
  _ ← need (get_elem? x.direct_blocks i)
  pure (record x { direct_blocks = set x.direct_blocks i b })

-- The edge case of write: `none` if no block could be allocated, else the inode and `num_blks`.
unfoldable pub extend : ℕ → Inode → Cmd (Option (Inode × ℕ))
extend offset x =
    if at_new_block offset x
    then (do
      b ← alloc_data_block
      y ← set_block x (count_blocks x.direct_blocks) b
      if is_minus_one b
          then pure none
          else do write_data_block b null_data; pure (some (y, count_blocks x.direct_blocks + 1)))
    else pure (some (x, count_blocks x.direct_blocks))

-- The blocks of `new_blocks` that have been allocated are given back.
unfoldable pub give_back : List ℤ → Cmd (Unit {0})
give_back [] = pure tt
give_back (b ∷ bs) = do free_data_block b; give_back bs

-- The allocation loop: `n` blocks are to come, `got` are those so far.
unfoldable pub alloc_blocks : ℕ → List ℤ → Cmd (Option (List ℤ))
alloc_blocks zero got = pure (some got)
alloc_blocks (suc n) got = do
  b ← alloc_data_block
  if is_minus_one b then give_back got >> pure none else alloc_blocks n (got ++ (b ∷ []))

unfoldable pub clear_blocks : List ℤ → Cmd (Unit {0})
clear_blocks [] = pure tt
clear_blocks (b ∷ bs) = do write_data_block b null_data; clear_blocks bs

-- `direct_blocks[i] = new_blocks[i - num_blks]` for each new block.
unfoldable pub attach : List ℤ → ℕ → List ℤ → List ℤ
attach blocks i [] = blocks
attach blocks i (b ∷ bs) = attach (set blocks i b) (i + 1) bs

-- `memcpy(blk_data + off, bs, length bs)`.
unfoldable pub splice : List ℕ → ℕ → List ℕ → List ℕ
splice old off bs = take off old ++ (bs ++ drop (off + length bs) old)

-- `k` bytes of the caller's buffer; it is undefined to read past its end.
unfoldable pub chunk : ℕ → List ℕ → Cmd (List ℕ)
chunk k buf = if leb k (length buf) then pure (take k buf) else undefined

-- The loop of write: `buf` is what is left of the caller's buffer.
unfoldable pub write_loop : List ℤ → ℕ → ℕ → List ℕ → Cmd (Unit {0})
write_loop [] off left buf = pure tt
write_loop (b ∷ bs) off left buf = if left == 0 then pure tt else do
  blk_data ← read_data_block b
  if ltb block_size (off + left)
      then (do
        part ← chunk (block_size - off) buf
        write_data_block b (splice blk_data off part)
        write_loop bs 0 (left - (block_size - off)) (drop (block_size - off) buf))
      else do part ← chunk left buf; write_data_block b (splice blk_data off part)

-- `nblocks_req`, from `num_blks`, the offset and `nbytes`.
unfoldable pub blocks_required : ℕ → ℕ → ℤ → ℕ
blocks_required num_blks offset nbytes =
    let blk = offset / block_size in
    let off_in_blk = offset % block_size in
    let req =
      pos_part nbytes
      + ((blk + 1) * block_size + off_in_blk)
      - (neg_part nbytes + (num_blks * block_size + block_size)) in
    req / block_size + (if req % block_size == 0 then 0 else 1)

-- `nbytes - nbytes_avail` is a value of `int`.
unfoldable pub subtraction_fits : ℕ → ℕ → ℤ → Bool
subtraction_fits num_blks offset nbytes =
    leb (neg_part nbytes + (num_blks * block_size + block_size))
      (2 ^ 31 + ((offset / block_size + 1) * block_size + offset % block_size))

-- Write, once the inode `x` of number `i` and its `num_blks` blocks are ready.
unfoldable pub write_extended : ℕ → ℕ → ℕ → Inode → List ℕ → ℤ → Cmd ℤ
write_extended i offset num_blks x buf nbytes = do
  _ ← need (if subtraction_fits num_blks offset nbytes then some tt else none)
  new ← alloc_blocks (blocks_required num_blks offset nbytes) []
  elim new [
    | none ↦ pure minus_one
    | some new_blocks ↦ do
      clear_blocks new_blocks
      check (leb (length new_blocks + num_blks) max_file_size)
      let blocks = attach x.direct_blocks num_blks new_blocks
      write_loop (drop (offset / block_size) blocks) (offset % block_size) (pos_part nbytes) buf
      write_inode i (record x {
        direct_blocks = blocks;
        file_size =
            if ltb (pos_part x.file_size + neg_part nbytes)
              (offset + pos_part nbytes + neg_part x.file_size)
            then pos (offset + pos_part nbytes - neg_part nbytes)
            else x.file_size;
      })
      pure (pos 0)
  ]

-- Write through a handle, for `nbytes` that is not 0.
unfoldable pub write_nonzero : Handle → List ℕ → ℤ → Cmd ℤ
write_nonzero h buf nbytes = elim h.inode_number [
  | negsuc _ ↦ pure minus_one
  | pos i ↦ do
    x ← read_inode i
    if is_free x
        then pure minus_one
        else if ltb (h.offset + pos_part nbytes) (2 ^ 31)
        then (if ltb (max_file_size * block_size + neg_part nbytes) (pos_part nbytes + h.offset)
            then pure minus_one
            else do
              ready ← extend h.offset x
              elim ready [
                | none ↦ pure minus_one
                | some (y, num_blks) ↦ write_extended i h.offset num_blks y buf nbytes
              ])
        else undefined
]

unfoldable pub write_file : ℤ → List ℕ → ℤ → Cmd ℤ
write_file file_handle buf nbytes =
    if (pos_part nbytes == 0) && (neg_part nbytes == 0)
    then pure (pos 0)
    else do h ← handle_at file_handle; write_nonzero h buf nbytes
