-- ===== src/Simplefs/Disk/Alloc.antt =====
-- The allocators and the two calls that free: what each does to the free lists, and that it leaves
-- all else alone.
use operating_systems_labwor.Base.{
  ℕ, ◌<◌, ◌≡◌, ◌≢◌, refl, ◌∙◌, ◌⊎◌, inl, inr, none, some, List, arith, lt→ltb, length, get_or, set,
  replicate, ℤ, pos, minus_one, length-set, get_elem?-eq-get_or, length-take, length-drop, drop,
}
use operating_systems_labwor.Simplefs.Codec.{Superblock, Inode, inode_of, ints_of}
use operating_systems_labwor.Simplefs.Image.{slice, length-slice}
use operating_systems_labwor.Simplefs.Codec.Roundtrip.{IsInode, IsSuperblock}
use operating_systems_labwor.Simplefs.State.{State, done, aborted, Returns, and_then}
use operating_systems_labwor.Simplefs.Disk.{
  free_mark, used_mark, inode_free, inode_offset, first_free, alloc_inode, free_inode,
  alloc_data_block, free_data_block,
}
use operating_systems_labwor.Simplefs.Disk.Views.{
  superblock_at, inode_at, block_at, put_superblock, put_inode, HasTables, HasBlock,
  superblock_at-put_superblock, inode_at-put_superblock, block_at-put_superblock,
  size-put_superblock, superblock_at-put_inode, inode_at-put_inode_self, inode_at-put_inode_ne,
  block_at-put_inode, size-put_inode,
}
use operating_systems_labwor.Simplefs.Disk.Calls.{
  superblock_at-IsSuperblock, read_superblock-done, write_superblock-done, read_inode-done,
  write_inode-done, FirstFree, NoneFree, first_free_lem,
}

abbrev pub inodes : State → List ℕ
inodes s = (superblock_at s).inode_freelist

abbrev pub data_blocks : State → List ℕ
data_blocks s = (superblock_at s).datablock_freelist

abbrev pub with_inodes : State → List ℕ → Superblock
with_inodes s l = record (superblock_at s) { inode_freelist = l }

abbrev pub with_data_blocks : State → List ℕ → Superblock
with_data_blocks s l = record (superblock_at s) { datablock_freelist = l }

-- The same data, open files and size of the disk.
pub record SameData (s t : State) : Type 0 where
  pub blocks : (k : ℕ) → HasBlock s k → block_at t k ≡ block_at s k
  pub handles : t.handles ≡ s.handles
  pub size : t.disk.size ≡ s.disk.size

-- The same inodes beside.
pub record SameFiles (s t : State) : Type 0 where
  pub inodes : (i : ℕ) → i < 8 → inode_at t i ≡ inode_at s i
  pub data_same : SameData s t

pub with_inodes-IsSuperblock :
    (s : State) (i m : ℕ) → IsSuperblock (with_inodes s (set (inodes s) i m))
with_inodes-IsSuperblock s i m =
    let h = superblock_at-IsSuperblock s in
    record {
      name_size = h.name_size;
      inodes_size = length-set (inodes s) i m ∙ h.inodes_size;
      datablocks_size = h.datablocks_size;
    }

pub with_data_blocks-IsSuperblock :
    (s : State) (i m : ℕ) → IsSuperblock (with_data_blocks s (set (data_blocks s) i m))
with_data_blocks-IsSuperblock s i m =
    let h = superblock_at-IsSuperblock s in
    record {
      name_size = h.name_size;
      inodes_size = h.inodes_size;
      datablocks_size = length-set (data_blocks s) i m ∙ h.datablocks_size;
    }

pub handles-put_superblock : (b : Superblock) (s : State) → (put_superblock b s).handles ≡ s.handles
unfolding put_superblock
handles-put_superblock b s = refl

pub handles-put_inode : (i : ℕ) (x : Inode) (s : State) → (put_inode i x s).handles ≡ s.handles
unfolding put_inode
handles-put_inode i x s = refl

pub put_superblock-SameFiles :
    (s : State) (b : Superblock) → IsSuperblock b → HasTables s → SameFiles s (put_superblock b s)
put_superblock-SameFiles s b h t = record {
  inodes = λ i l. inode_at-put_superblock s b h i l t;
  data_same = record {
    blocks = λ k f. block_at-put_superblock s b h k f;
    handles = handles-put_superblock b s;
    size = size-put_superblock s b h t;
  };
}

-- What `simplefs_allocDataBlock` may do: refuse, if no block is free, and change nothing; or take
-- the first free block.
abbrev pub TakesDataBlock : State → ℤ → State → Type 0
TakesDataBlock s r t =
    ((r ≡ minus_one) × (t ≡ s) × NoneFree (data_blocks s))
    ⊎ ((i : ℕ) × (r ≡ pos i)
        × FirstFree (data_blocks s) i
        × (superblock_at t ≡ with_data_blocks s (set (data_blocks s) i used_mark))
        × SameFiles s t)

abbrev pub TakesInode : State → ℤ → State → Type 0
TakesInode s r t =
    ((r ≡ minus_one) × (t ≡ s) × NoneFree (inodes s))
    ⊎ ((i : ℕ) × (r ≡ pos i)
        × FirstFree (inodes s) i
        × (superblock_at t ≡ with_inodes s (set (inodes s) i used_mark))
        × SameFiles s t)

module _ (s : State) (t : HasTables s) where
  pub alloc_data_block-none :
      first_free (data_blocks s) ≡ none → alloc_data_block s ≡ done minus_one s
  unfolding alloc_data_block
  alloc_data_block-none e = rw (read_superblock-done s t, e, and_then)

  pub alloc_data_block-some :
      (i : ℕ)
      → first_free (data_blocks s) ≡ some i
      → alloc_data_block s
        ≡ done (pos i) (put_superblock (with_data_blocks s (set (data_blocks s) i used_mark)) s)
  unfolding alloc_data_block
  alloc_data_block-some i e = rw (read_superblock-done s t, e, and_then, write_superblock-done)

  pub alloc_inode-none : first_free (inodes s) ≡ none → alloc_inode s ≡ done minus_one s
  unfolding alloc_inode
  alloc_inode-none e = rw (read_superblock-done s t, e, and_then)

  pub alloc_inode-some :
      (i : ℕ)
      → first_free (inodes s) ≡ some i
      → alloc_inode s ≡ done (pos i) (put_superblock (with_inodes s (set (inodes s) i used_mark)) s)
  unfolding alloc_inode
  alloc_inode-some i e = rw (read_superblock-done s t, e, and_then, write_superblock-done)

  -- `simplefs_allocDataBlock` returns the first free data block and marks only it as used, or
  -- returns -1 and changes nothing where none is free.
  -- The superblock and the inodes lie in the disk file.
  pub alloc_data_block_lem : Returns (TakesDataBlock s) (alloc_data_block s)
  alloc_data_block_lem = elim (first_free_lem (data_blocks s)) [
    | inl (e, all) ↦ rw (alloc_data_block-none e) (inl (refl, refl, all))
    | inr (i, e, f) ↦
        let b = with_data_blocks s (set (data_blocks s) i used_mark) in
        let h = with_data_blocks-IsSuperblock s i used_mark in
        rw (alloc_data_block-some i e)
          (inr (i, refl, f, superblock_at-put_superblock s b h, put_superblock-SameFiles s b h t))
  ]

  -- `simplefs_allocInode` returns the first free inode and marks only it as used, or returns -1 and
  -- changes nothing where none is free. The superblock and the inodes lie in the disk file.
  pub alloc_inode_lem : Returns (TakesInode s) (alloc_inode s)
  alloc_inode_lem = elim (first_free_lem (inodes s)) [
    | inl (e, all) ↦ rw (alloc_inode-none e) (inl (refl, refl, all))
    | inr (i, e, f) ↦
        let b = with_inodes s (set (inodes s) i used_mark) in
        let h = with_inodes-IsSuperblock s i used_mark in
        rw (alloc_inode-some i e)
          (inr (i, refl, f, superblock_at-put_superblock s b h, put_superblock-SameFiles s b h t))
  ]

  -- `simplefs_freeDataBlock` of a used block marks it as free, and no other.
  pub free_data_block-used :
      (i : ℕ)
      → i < 30
      → get_or (data_blocks s) i 0 ≡ used_mark
      → Returns
          (λ _ u.
            (superblock_at u ≡ with_data_blocks s (set (data_blocks s) i free_mark))
            × SameFiles s u)
          (free_data_block (pos i) s)
  unfolding free_data_block
  free_data_block-used i l used =
      let size = (superblock_at-IsSuperblock s).datablocks_size in
      let b = with_data_blocks s (set (data_blocks s) i free_mark) in
      let h = with_data_blocks-IsSuperblock s i free_mark in
      rw
        (
          read_superblock-done s t,
          get_elem?-eq-get_or (data_blocks s) i 0 (omega arith),
          used,
          write_superblock-done b s,
        )
        (superblock_at-put_superblock s b h, put_superblock-SameFiles s b h t)

  -- A second `simplefs_freeDataBlock` of a block fails the assertion, and a number that is no
  -- block's is outside the array.
  pub free_data_block-free :
      (i : ℕ)
      → i < 30
      → get_or (data_blocks s) i 0 ≡ free_mark
      → free_data_block (pos i) s ≡ aborted
  unfolding free_data_block
  free_data_block-free i l free =
      let size = (superblock_at-IsSuperblock s).datablocks_size in
      rw (read_superblock-done s t, get_elem?-eq-get_or (data_blocks s) i 0 (omega arith), free)

-- The name of an inode on the disk has eight characters, whatever the bytes.
pub length-name : (s : State) (i : ℕ) → length (inode_at s i).name ≡ 8
unfolding inode_at inode_of
length-name s i =
    let bs = slice s.disk (inode_offset i) 32 in
    omega
      (arith, length-take 8 (drop 4 bs), length-drop 4 bs, length-slice s.disk (inode_offset i) 32)

pub length-direct_blocks : (s : State) (i : ℕ) → length (inode_at s i).direct_blocks ≡ 4
unfolding inode_at inode_of ints_of
length-direct_blocks s i = refl

-- What `simplefs_freeInode` makes of an inode: only the name stays.
abbrev pub cleared : Inode → Inode
cleared x = record x {
  status = inode_free;
  file_size = pos 0;
  direct_blocks = replicate 4 minus_one;
}

cleared-IsInode : (s : State) (i : ℕ) → IsInode (cleared (inode_at s i))
cleared-IsInode s i = record {
  name_size = length-name s i;
  blocks_size = refl;
  status_range = omega arith;
  size_range = omega arith;
  blocks_range = omega arith;
}

-- `simplefs_freeInode` of a used inode marks it as free and clears it, and changes no other.
pub free_inode-used :
    (s : State) (i : ℕ)
    → HasTables s
    → i < 8
    → get_or (inodes s) i 0 ≡ used_mark
    → Returns
        (λ _ u.
          (superblock_at u ≡ with_inodes s (set (inodes s) i free_mark))
          × (inode_at u i ≡ cleared (inode_at s i))
          × ((j : ℕ) → j < 8 → i ≢ j → inode_at u j ≡ inode_at s j)
          × SameData s u)
        (free_inode i s)
unfolding free_inode
free_inode-used s i t l used =
    let size = (superblock_at-IsSuperblock s).inodes_size in
    let b = with_inodes s (set (inodes s) i free_mark) in
    let h = with_inodes-IsSuperblock s i free_mark in
    let s' = put_superblock b s in
    let x = cleared (inode_at s i) in
    let hx = cleared-IsInode s i in
    let t' : HasTables s' = omega (arith, size-put_superblock s b h t) in
    rw
      (
        lt→ltb i 8 l,
        read_superblock-done s t,
        read_inode-done s t i l,
        get_elem?-eq-get_or (inodes s) i 0 (omega arith),
        used,
        write_superblock-done b s,
        write_inode-done i x s' l,
      )
      (
        superblock_at-put_inode s' i x l hx t' ∙ superblock_at-put_superblock s b h,
        inode_at-put_inode_self s' i x l hx t',
        λ j k ne. inode_at-put_inode_ne s' i x l hx t' j k ne ∙ inode_at-put_superblock s b h j k t,
        record {
          blocks = λ k f.
              block_at-put_inode s' i x l hx t' k (omega (arith, size-put_superblock s b h t))
              ∙ block_at-put_superblock s b h k f;
          handles = handles-put_inode i x s' ∙ handles-put_superblock b s;
          size = size-put_inode s' i x l hx t' ∙ size-put_superblock s b h t;
        },
      )
