-- ===== src/Simplefs/Disk/Calls.antt =====
-- Each call of the disk layer, by what it does to the views.
use operating_systems_labwor.Base.{
  ℕ, zero, suc, ◌+◌, ◌*◌, ◌<◌, ◌≡◌, ◌≢◌, refl, ◌⊎◌, inl, inr, false, none, some, List, [], ◌∷◌,
  arith, ◌==◌, Bool-cases, lt→ltb, le→leb, length, get_or, drop, pos, length-take, length-drop,
}
use operating_systems_labwor.Simplefs.Image.{slice, length-slice}
use operating_systems_labwor.Simplefs.Codec.{Superblock, Inode, superblock_of}
use operating_systems_labwor.Simplefs.Codec.Roundtrip.{IsSuperblock}
use operating_systems_labwor.Simplefs.State.{State, done}
use operating_systems_labwor.Simplefs.Disk.{
  free_mark, read_superblock, write_superblock, inode_offset, read_inode, write_inode, block_offset,
  is_block, read_data_block, write_data_block, first_free,
}
use operating_systems_labwor.Simplefs.Disk.Views.{
  superblock_at, inode_at, block_at, block_start, put_superblock, put_inode, put_block, HasTables,
  HasBlock,
}

-- What lies in the file is a superblock, whatever its bytes.
pub superblock_at-IsSuperblock : (s : State) → IsSuperblock (superblock_at s)
unfolding superblock_at superblock_of
superblock_at-IsSuperblock s =
    let bs = slice s.disk 0 64 in
    record {
      name_size = omega (arith, length-take 8 bs, length-slice s.disk 0 64);
      inodes_size =
          omega (arith, length-take 8 (drop 8 bs), length-drop 8 bs, length-slice s.disk 0 64);
      datablocks_size =
          omega (arith, length-take 30 (drop 16 bs), length-drop 16 bs, length-slice s.disk 0 64);
    }

module _ (s : State) (t : HasTables s) where
  pub read_superblock-done : read_superblock s ≡ done (superblock_at s) s
  unfolding read_superblock superblock_at
  read_superblock-done = rw (le→leb (0 + 64) s.disk.size (omega arith))

  pub read_inode-done : (i : ℕ) → i < 8 → read_inode i s ≡ done (inode_at s i) s
  unfolding read_inode inode_at inode_offset
  read_inode-done i l = rw (lt→ltb i 8 l, le→leb (64 + i * 32 + 32) s.disk.size (omega arith))

pub write_superblock-done :
    (b : Superblock) (s : State) → write_superblock b s ≡ done tt (put_superblock b s)
unfolding write_superblock put_superblock
write_superblock-done b s = refl

pub write_inode-done :
    (i : ℕ) (x : Inode) (s : State) → i < 8 → write_inode i x s ≡ done tt (put_inode i x s)
unfolding write_inode put_inode
write_inode-done i x s l = rw (lt→ltb i 8 l)

pub read_data_block-done :
    (b : ℕ) (s : State) → b < 30 → HasBlock s b → read_data_block (pos b) s ≡ done (block_at s b) s
unfolding read_data_block block_at block_offset is_block
read_data_block-done b s l h = rw (lt→ltb b 30 l, le→leb (block_start b + 64) s.disk.size h)

pub write_data_block-done :
    (b : ℕ) (bs : List ℕ) (s : State)
    → b < 30
    → write_data_block (pos b) bs s ≡ done tt (put_block b bs s)
unfolding write_data_block put_block block_offset is_block
write_data_block-done b bs s l = rw (lt→ltb b 30 l)

-- Entry `i` is the first free one of a free list.
abbrev pub FirstFree : List ℕ → ℕ → Type 0
FirstFree l i =
    (i < length l) × (get_or l i 0 ≡ free_mark) × ((j : ℕ) → j < i → get_or l j 0 ≢ free_mark)

abbrev pub NoneFree : List ℕ → Type 0
NoneFree l = (j : ℕ) → j < length l → get_or l j 0 ≢ free_mark

-- The search of the allocators finds the first free entry, or tells that there is none.
pub first_free_lem :
    (l : List ℕ)
    → ((first_free l ≡ none) × NoneFree l) ⊎ ((i : ℕ) × (first_free l ≡ some i) × FirstFree l i)
unfolding first_free
first_free_lem [] = inl (refl, λ j h. elim h [ ])
first_free_lem (c ∷ cs) = elim (Bool-cases (c == free_mark)) [
  | inl hit ↦ inr (0, rw hit, (omega arith, ground arith, λ j h. elim h [ ]))
  | inr miss ↦ elim (first_free_lem cs) [
    | inl (e, all) ↦ inl (rw (miss, e), none_cons miss all)
    | inr (i, e, f) ↦ inr (suc i, rw (miss, e), (omega arith, f.1, before_cons miss f.2))
  ]
]
  where
    none_cons : (c == free_mark) ≡ false → NoneFree cs → NoneFree (c ∷ cs)
    none_cons miss all zero h = ground arith
    none_cons miss all (suc j) h = all j (omega arith)

    before_cons :
        {i : ℕ}
        → (c == free_mark) ≡ false
        → ((j : ℕ) → j < i → get_or cs j 0 ≢ free_mark)
        → (j : ℕ) → j < suc i
        → get_or (c ∷ cs) j 0 ≢ free_mark
    before_cons miss all zero h = ground arith
    before_cons miss all (suc j) h = all j (omega arith)
