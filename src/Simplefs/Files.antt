-- ===== src/Simplefs/Files.antt =====
-- CS236-Spring-2025-Labs/file-system/simplefs-ops.c: create, delete, open, close and seek.
-- A file name is the list of its characters, without the zero that ends it.
pub mod Create
pub mod CreateKeeps
pub mod Delete
pub mod DeleteKeeps
pub mod Fresh
pub mod Find
pub mod FreeBlocks
pub mod Handles
pub mod Names
pub mod Seek
use operating_systems_labwor.Base.{
  ℕ, zero, suc, ◌+◌, ◌-◌, ◌^◌, Bool, false, Option, none, some, List, [], ◌∷◌, ◌++◌, ltb, ◌==◌,
  if◌then◌else◌, length, get_elem?, set, drop, replicate, ℤ, pos, negsuc, minus_one, is_minus_one,
  pos_part, neg_part,
}
use operating_systems_labwor.Simplefs.Codec.{Inode}
use operating_systems_labwor.Simplefs.State.{
  Handle, Cmd, ◌>>=◌, ◌>>◌, pure, get, put, undefined, need,
}
use operating_systems_labwor.Simplefs.Disk.{
  num_inodes, max_file_size, inode_in_use, read_inode, write_inode, alloc_inode, free_inode,
  free_data_block, closed,
}

-- `strcmp(array, s) == 0`; `none` if it runs off the end of the array.
unfoldable pub strcmp_eq : List ℕ → List ℕ → Option Bool
strcmp_eq [] s = none
strcmp_eq (b ∷ bs) [] = some (b == 0)
strcmp_eq (b ∷ bs) (c ∷ cs) = if b == c then strcmp_eq bs cs else some false

-- `strcpy(array, s)`; `none` if the array is too small. The bytes behind the zero stay.
unfoldable pub strcpy : List ℕ → List ℕ → Option (List ℕ)
strcpy array s =
    if ltb (length s) (length array) then some (s ++ (0 ∷ drop (length s + 1) array)) else none

unfoldable pub in_use : Inode → Bool
in_use x = elim x.status [ pos n ↦ n == b'1' | negsuc n ↦ false ]

-- `inode->status == INODE_IN_USE && strcmp(inode->name, filename) == 0`.
unfoldable pub names : List ℕ → Inode → Cmd Bool
names filename x = if in_use x then need (strcmp_eq x.name filename) else pure false

-- The search loop of create, delete and open: `n` inodes are left, the next is number `i`, and `x`
-- is what the buffer `inode` holds. The result is the number of the file, and the buffer at the end.
unfoldable pub find_file : List ℕ → ℕ → ℕ → Inode → Cmd (Option ℕ × Inode)
find_file filename zero i x = pure (none, x)
find_file filename (suc n) i x = do
  y ← read_inode i
  hit ← names filename y
  if hit then pure (some i, y) else find_file filename n (i + 1) y

-- What `malloc` returns is overwritten before it is read.
abbrev pub blank : Inode
blank = record { status = pos 0; name = []; file_size = pos 0; direct_blocks = [] }

-- The rest of create after the search: `x` is the last inode that the search has read.
unfoldable pub fill_inode : List ℕ → Inode → Cmd ℤ
fill_inode filename x = do
  i ← alloc_inode
  elim i [
    | negsuc _ ↦ pure minus_one
    | pos n ↦ do
      name ← need (strcpy x.name filename)
      write_inode n (record {
        status = inode_in_use;
        name = name;
        file_size = pos 0;
        direct_blocks = replicate max_file_size minus_one;
      })
      pure (pos n)
  ]

unfoldable pub create : List ℕ → Cmd ℤ
create filename = do
  (found, x) ← find_file filename num_inodes 0 blank
  elim found [ some _ ↦ pure minus_one | none ↦ fill_inode filename x ]

-- The loop of delete over `direct_blocks`.
unfoldable pub free_blocks : List ℤ → Cmd (Unit {0})
free_blocks [] = pure tt
free_blocks (b ∷ bs) =
    if is_minus_one b then free_blocks bs else do free_data_block b; free_blocks bs

unfoldable pub delete : List ℕ → Cmd (Unit {0})
delete filename = do
  (found, x) ← find_file filename num_inodes 0 blank
  elim found [ none ↦ pure tt | some i ↦ do free_blocks x.direct_blocks; free_inode i ]

-- The loop over `file_handle_array` in open.
unfoldable pub first_closed : List Handle → Option ℕ
first_closed [] = none
first_closed (h ∷ hs) =
    if is_minus_one h.inode_number
    then some 0
    else elim (first_closed hs) [ none ↦ none | some i ↦ some (suc i) ]

-- The two results of the searches, and the entry that open fills in.
unfoldable pub open_found : Option ℕ → Option ℕ → Cmd ℤ
open_found none _ = pure minus_one
open_found (some i) none = pure minus_one
open_found (some i) (some h) = do
  s ← get
  put (record s { handles = set s.handles h (record { offset = 0; inode_number = pos i }) })
  pure (pos h)

unfoldable pub open_file : List ℕ → Cmd ℤ
open_file filename = do
  (found, x) ← find_file filename num_inodes 0 blank
  s ← get
  open_found found (first_closed s.handles)

-- `file_handle_array[file_handle]`; an index outside the array is undefined.
unfoldable pub handle_at : ℤ → Cmd Handle
handle_at (negsuc k) = undefined
handle_at (pos h) = do s ← get; need (get_elem? s.handles h)

unfoldable pub close_file : ℤ → Cmd (Unit {0})
close_file (negsuc k) = undefined
close_file (pos h) = do
  _ ← handle_at (pos h)
  s ← get
  put (record s { handles = set s.handles h closed })

-- `present_offset < -nseek || present_offset + nseek > file_size`, and the new offset where neither
-- holds; `undefined` where the negation or the sum overflows.
unfoldable pub seek_to : ℕ → ℤ → ℤ → Cmd (Option ℕ)
seek_to present (pos n) size =
    if ltb (present + n) (2 ^ 31)
    then pure
        (if ltb (pos_part size) (present + n + neg_part size) then none else some (present + n))
    else undefined
seek_to present (negsuc k) size =
    if ltb (k + 1) (2 ^ 31)
    then pure (
        if ltb present (k + 1)
        then none
        else if ltb (pos_part size) (present - (k + 1) + neg_part size)
        then none
        else some (present - (k + 1)))
    else undefined

-- Only -1 and numbers of inodes are ever stored in a handle.
unfoldable pub seek : ℤ → ℤ → Cmd ℤ
seek file_handle nseek = do
  h ← handle_at file_handle
  elim h.inode_number [
    | negsuc k ↦ if k == 0 then pure minus_one else undefined
    | pos i ↦ do
      x ← read_inode i
      to ← seek_to h.offset nseek x.file_size
      elim to [
        | none ↦ pure minus_one
        | some offset ↦ do
          s ← get
          put (record s {
            handles = set s.handles (pos_part file_handle) (record h { offset = offset });
          })
          pure (pos 0)
      ]
  ]
