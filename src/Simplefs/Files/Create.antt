-- ===== src/Simplefs/Files/Create.antt =====
-- `simplefs_create`: its three outcomes, and that it keeps the invariant.
use operating_systems_labwor.Base.{
  ℕ, ◌<◌, ◌≡◌, ◌≢◌, refl, ap, ◌∙◌, ◌⊎◌, inl, inr, none, some, List, arith, length, get_or, set,
  replicate, ℤ, pos, minus_one, get_or-set_self,
}
use operating_systems_labwor.Simplefs.Codec.{Superblock, Inode}
use operating_systems_labwor.Simplefs.Codec.Roundtrip.{IsInode, IsSuperblock}
use operating_systems_labwor.Simplefs.State.{State, Returns}
use operating_systems_labwor.Simplefs.Disk.{used_mark, inode_in_use, first_free}
use operating_systems_labwor.Simplefs.Disk.Views.{
  superblock_at, inode_at, put_superblock, put_inode, HasTables, superblock_at-put_superblock,
  inode_at-put_superblock, block_at-put_superblock, size-put_superblock, superblock_at-put_inode,
  inode_at-put_inode_self, inode_at-put_inode_ne, block_at-put_inode, size-put_inode,
}
use operating_systems_labwor.Simplefs.Disk.Calls.{
  superblock_at-IsSuperblock, write_inode-done, FirstFree, NoneFree, first_free_lem,
}
use operating_systems_labwor.Simplefs.Disk.Alloc.{
  inodes, with_inodes, with_inodes-IsSuperblock, SameData, length-name, alloc_inode-none,
  alloc_inode-some, handles-put_superblock, handles-put_inode,
}
use operating_systems_labwor.Simplefs.Files.{fill_inode, create}
use operating_systems_labwor.Simplefs.Files.Names.{Holds, IsText, strcpy_lem}
use operating_systems_labwor.Simplefs.Files.Find.{find_file_lem}
use operating_systems_labwor.Simplefs.Consistent.{IsConsistent, IsFile, NoFile}

-- The inode that create writes for a name.
abbrev new_inode : List ℕ → Inode
new_inode name = record {
  status = inode_in_use;
  name = name;
  file_size = pos 0;
  direct_blocks = replicate 4 minus_one;
}

-- In `t` inode `i` is a new and empty file named `f`, and all else is as in `s`.
pub record IsCreated (s : State) (f : List ℕ) (i : ℕ) (t : State) : Type 0 where
  pub file : IsFile t f i
  pub empty : (inode_at t i).file_size ≡ pos 0
  pub no_blocks : (inode_at t i).direct_blocks ≡ replicate 4 minus_one
  pub others : (j : ℕ) → j < 8 → i ≢ j → inode_at t j ≡ inode_at s j
  pub lists : superblock_at t ≡ with_inodes s (set (inodes s) i used_mark)
  pub data_same : SameData s t

-- The outcomes of create: the name is taken, or no inode is free, or the first free inode is made
-- the file's.
abbrev pub Creates : State → List ℕ → ℤ → State → Type 0
Creates s f r t =
    ((r ≡ minus_one) × (t ≡ s) × ((j : ℕ) × IsFile s f j))
    ⊎ (((r ≡ minus_one) × (t ≡ s) × NoFile s f × NoneFree (inodes s))
        ⊎ ((i : ℕ) × (r ≡ pos i) × NoFile s f × FirstFree (inodes s) i × IsCreated s f i t))

module _ (s : State) (tab : HasTables s) (i : ℕ) (l : i < 8) (f name : List ℕ) (h : Holds name f)
    (size : length name ≡ 8) where
  abbrev b : Superblock
  b = with_inodes s (set (inodes s) i used_mark)

  hb : IsSuperblock b
  hb = with_inodes-IsSuperblock s i used_mark

  abbrev middle : State
  middle = put_superblock b s

  abbrev x : Inode
  x = new_inode name

  hx : IsInode x
  hx = record {
    name_size = size;
    blocks_size = refl;
    status_range = omega arith;
    size_range = omega arith;
    blocks_range = omega arith;
  }

  abbrev after : State
  after = put_inode i x middle

  same_size : middle.disk.size ≡ s.disk.size
  same_size = size-put_superblock s b hb tab

  middle-tables : HasTables middle
  middle-tables = omega (arith, same_size)

  new : inode_at after i ≡ x
  new = inode_at-put_inode_self middle i x l hx middle-tables

  lists : superblock_at after ≡ b
  lists =
      superblock_at-put_inode middle i x l hx middle-tables ∙ superblock_at-put_superblock s b hb

  marked : get_or (inodes after) i 0 ≡ used_mark
  marked =
      let count = (superblock_at-IsSuperblock s).inodes_size in
      ap (λ c. get_or c.inode_freelist i 0) lists
      ∙ get_or-set_self (inodes s) i used_mark 0 (omega arith)

  after-IsCreated : IsCreated s f i after
  after-IsCreated = record {
    file = record {
      index = l;
      used = (ap (λ y. y.status) new, marked);
      name = (h.0, ap (λ y. y.name) new ∙ h.1);
    };
    empty = ap (λ y. y.file_size) new;
    no_blocks = ap (λ y. y.direct_blocks) new;
    others = λ j k ne.
        inode_at-put_inode_ne middle i x l hx middle-tables j k ne
        ∙ inode_at-put_superblock s b hb j k tab;
    lists = lists;
    data_same = record {
      blocks = λ k w.
          block_at-put_inode middle i x l hx middle-tables k (omega (arith, same_size))
          ∙ block_at-put_superblock s b hb k w;
      handles = handles-put_inode i x middle ∙ handles-put_superblock b s;
      size = size-put_inode middle i x l hx middle-tables ∙ same_size;
    };
  }

module _ (s : State) (c : IsConsistent s) (f : List ℕ) (text : IsText f)
    (short : length f < 8) where
  -- Create once the search has found no file: `x` is the buffer that `strcpy` writes to.
  fill_inode_lem :
      NoFile s f
      → (i : ℕ) → first_free (inodes s) ≡ some i
      → FirstFree (inodes s) i
      → Returns (Creates s f) (fill_inode f (inode_at s 7) s)
  unfolding fill_inode
  fill_inode_lem absent i e ff =
      let l : i < 8 = omega (arith, ff.0, (superblock_at-IsSuperblock s).inodes_size) in
      let (name, copied, holds, size) =
        strcpy_lem (inode_at s 7).name f (omega (arith, length-name s 7)) in
      rw
        (
          alloc_inode-some s c.tables i e,
          copied,
          write_inode-done i (new_inode name)
              (middle s c.tables i l f name holds (size ∙ length-name s 7)) l,
        )
        (inr (
          inr (
            i,
            refl,
            absent,
            ff,
            after-IsCreated s c.tables i l f name holds (size ∙ length-name s 7),
          )))

  fill_inode_full :
      NoFile s f
      → first_free (inodes s) ≡ none
      → NoneFree (inodes s)
      → Returns (Creates s f) (fill_inode f (inode_at s 7) s)
  unfolding fill_inode
  fill_inode_full absent e all =
      rw (alloc_inode-none s c.tables e) (inr (inl (refl, refl, absent, all)))

  -- `simplefs_create` of a name that fits returns -1 and changes nothing if a file has the name
  -- already or no inode is free; else it makes the first free inode an empty file of that name,
  -- returns its number, and changes nothing else. The state satisfies the invariant.
  pub create_lem : Returns (Creates s f) (create f s)
  unfolding create
  create_lem = elim (find_file_lem s c f text) [
    | inl (j, run, hit) ↦ rw run (inl (refl, refl, (j, hit)))
    | inr (run, absent) ↦ rw run (elim (first_free_lem (inodes s)) [
      | inl (e, all) ↦ fill_inode_full absent e all
      | inr (i, e, ff) ↦ fill_inode_lem absent i e ff
    ])
  ]
