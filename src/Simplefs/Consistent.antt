-- ===== src/Simplefs/Consistent.antt =====
-- The invariant of the simple file system: the free lists agree with the inodes, names end, no two
-- files share a name or a data block, and every open file is an inode's.
use operating_systems_labwor.Base.{
  ℕ, zero, suc, ◌*◌, ◌<◌, ◌≤◌, ◌≡◌, ◌≢◌, refl, ◌⊎◌, List, [], ◌∷◌, length, get_or, replicate, ℤ,
  pos, minus_one,
}
use operating_systems_labwor.Simplefs.State.{Handle, State}
use operating_systems_labwor.Simplefs.Disk.{free_mark, used_mark, inode_free, inode_in_use}
use operating_systems_labwor.Simplefs.Disk.Views.{inode_at, HasTables, HasBlock}
use operating_systems_labwor.Simplefs.Disk.Alloc.{inodes, data_blocks}
use operating_systems_labwor.Simplefs.Files.Names.{Holds, IsText, IsTerminated}

-- Entry `j` of `direct_blocks` of inode `i`.
abbrev pub entry : State → ℕ → ℕ → ℤ
entry s i j = get_or (inode_at s i).direct_blocks j minus_one

-- An inode without blocks.
pub none_at : (k : ℕ) → get_or (replicate 4 minus_one) k minus_one ≡ minus_one
none_at zero = refl
none_at (suc zero) = refl
none_at (suc (suc zero)) = refl
none_at (suc (suc (suc zero))) = refl
none_at (suc (suc (suc (suc k)))) = refl

-- Inode `i` is a file's, by its status and by the free list.
abbrev pub IsUsed : State → ℕ → Type 0
IsUsed s i = ((inode_at s i).status ≡ inode_in_use) × (get_or (inodes s) i 0 ≡ used_mark)

abbrev pub IsUnused : State → ℕ → Type 0
IsUnused s i = ((inode_at s i).status ≡ inode_free) × (get_or (inodes s) i 0 ≡ free_mark)

-- An entry that is a data block's: marked as used, and inside the disk file.
abbrev pub IsOwned : State → ℕ → Type 0
IsOwned s b = (b < 30) × (get_or (data_blocks s) b 0 ≡ used_mark) × HasBlock s b

abbrev pub IsOpenHandle : Handle → Type 0
IsOpenHandle h =
    (h.offset ≤ 256)
    × ((h.inode_number ≡ minus_one) ⊎ ((i : ℕ) × (h.inode_number ≡ pos i) × (i < 8)))

abbrev pub AllHandles : (Handle → Type 0) → List Handle → Type 0
AllHandles P [] = Unit
AllHandles P (h ∷ hs) = P h × AllHandles P hs

pub record IsConsistent (s : State) : Type 0 where
  pub tables : HasTables s
  pub marks : (i : ℕ) → i < 8 → IsUsed s i ⊎ IsUnused s i
  pub names : (i : ℕ) → i < 8 → IsUsed s i → IsTerminated (inode_at s i).name
  pub unique :
      (i j : ℕ) (f : List ℕ)
      → i < 8
      → j < 8
      → IsText f
      → IsUsed s i
      → IsUsed s j
      → Holds (inode_at s i).name f
      → Holds (inode_at s j).name f
      → i ≡ j
  pub sizes : (i : ℕ) → i < 8 → (n : ℕ) × ((inode_at s i).file_size ≡ pos n) × (n ≤ 256)
  pub blocks :
      (i j : ℕ)
      → i < 8
      → j < 4
      → (entry s i j ≡ minus_one) ⊎ ((b : ℕ) × (entry s i j ≡ pos b) × IsOwned s b)
  pub separate :
      (i j k l b : ℕ)
      → i < 8
      → j < 4
      → k < 8
      → l < 4
      → entry s i j ≡ pos b
      → entry s k l ≡ pos b
      → (i ≡ k) × (j ≡ l)
  -- The blocks that the size needs are there, and the blocks come first in `direct_blocks`.
  pub covered :
      (i j n : ℕ)
      → i < 8
      → j < 4
      → (inode_at s i).file_size ≡ pos n
      → j * 64 < n
      → entry s i j ≢ minus_one
  pub dense :
      (i j k : ℕ) → i < 8 → j < k → k < 4 → entry s i j ≡ minus_one → entry s i k ≡ minus_one
  pub handle_count : length s.handles ≡ 20
  pub handles : AllHandles IsOpenHandle s.handles

-- Inode `i` is the file with this name.
pub record IsFile (s : State) (f : List ℕ) (i : ℕ) : Type 0 where
  pub index : i < 8
  pub used : IsUsed s i
  pub name : Holds (inode_at s i).name f

-- No file has this name.
abbrev pub NoFile : State → List ℕ → Type 0
NoFile s f = (i : ℕ) → ¬ IsFile s f i
