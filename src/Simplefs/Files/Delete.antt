-- ===== src/Simplefs/Files/Delete.antt =====
-- `simplefs_delete`: its outcomes, and that it keeps the invariant.
use operating_systems_labwor.Base.{
  ℕ, ◌<◌, ◌≡◌, ◌≢◌, refl, ap, ◌∙◌, ◌⊎◌, inl, inr, List, arith, get_or, set, pos,
}
use operating_systems_labwor.Simplefs.State.{State, Returns, Returns-mono, Returns-bind, and_then}
use operating_systems_labwor.Simplefs.Disk.{free_mark, free_inode}
use operating_systems_labwor.Simplefs.Disk.Views.{inode_at}
use operating_systems_labwor.Simplefs.Disk.Calls.{superblock_at-IsSuperblock}
use operating_systems_labwor.Simplefs.Disk.Alloc.{
  inodes, data_blocks, SameData, cleared, free_inode-used, length-direct_blocks,
}
use operating_systems_labwor.Simplefs.Files.{free_blocks, delete}
use operating_systems_labwor.Simplefs.Files.Names.{IsText}
use operating_systems_labwor.Simplefs.Files.Find.{find_file_lem}
use operating_systems_labwor.Simplefs.Files.FreeBlocks.{
  freed, Freeable, free_blocks_lem, Freeable_lem, freed-other, freed_self,
}
use operating_systems_labwor.Simplefs.Consistent.{IsConsistent, IsUsed, IsFile, NoFile, entry}

-- In `t` the inode `i` of `s` is free, and so are its data blocks; all else is as in `s`.
pub record IsDeleted (s : State) (i : ℕ) (t : State) : Type 0 where
  pub inode : inode_at t i ≡ cleared (inode_at s i)
  pub inode_marks : inodes t ≡ set (inodes s) i free_mark
  pub others : (j : ℕ) → j < 8 → i ≢ j → inode_at t j ≡ inode_at s j
  pub freed_marks :
      (j b : ℕ) → j < 4 → b < 30 → entry s i j ≡ pos b → get_or (data_blocks t) b 0 ≡ free_mark
  pub kept_marks :
      (b : ℕ)
      → ((j : ℕ) → j < 4 → entry s i j ≢ pos b)
      → get_or (data_blocks t) b 0 ≡ get_or (data_blocks s) b 0
  pub data_same : SameData s t

-- The outcomes of delete.
abbrev pub Deletes : State → List ℕ → State → Type 0
Deletes s f t = ((t ≡ s) × NoFile s f) ⊎ ((i : ℕ) × IsFile s f i × IsDeleted s i t)

module _ (s : State) (c : IsConsistent s) where
  -- The blocks of a file can be freed one after the other.
  blocks-Freeable : (i : ℕ) → i < 8 → Freeable (inode_at s i).direct_blocks (data_blocks s)
  blocks-Freeable i l =
      let size = length-direct_blocks s i in
      Freeable_lem (inode_at s i).direct_blocks (data_blocks s)
        (λ j k. elim (c.blocks i j l (omega arith)) [
          | inl e ↦ inl e
          | inr (b, e, o) ↦ inr (b, e, o.0, o.1)
        ])
        (λ j k b p q e d. (c.separate i j i k b l (omega arith) l (omega arith) e d).1)

  remove_lem :
      (i : ℕ)
      → i < 8
      → IsUsed s i
      → Returns
          (λ _ t. IsDeleted s i t)
          (and_then (free_blocks (inode_at s i).direct_blocks s) (λ _. free_inode i))
  remove_lem i l used =
      let blocks = (inode_at s i).direct_blocks in
      let size = length-direct_blocks s i in
      let count = (superblock_at-IsSuperblock s).datablocks_size in
      Returns-bind _ (free_blocks blocks s) (λ _. free_inode i)
        (free_blocks_lem blocks s c.tables (blocks-Freeable i l))
        λ _ u (sb, same).
          Returns-mono (free_inode i u)
            (free_inode-used u i (omega (arith, same.data_same.size, c.tables)) l
              (ap (λ b. get_or b.inode_freelist i 0) sb ∙ used.1))
            λ _ t (sb', gone, others, data_same).
              let list : data_blocks t ≡ freed blocks (data_blocks s) =
                ap (λ b. b.datablock_freelist) sb' ∙ ap (λ b. b.datablock_freelist) sb in
              record {
                inode = gone ∙ ap cleared (same.inodes i l);
                inode_marks =
                    ap (λ b. b.inode_freelist) sb' ∙ ap (λ b. set b.inode_freelist i free_mark) sb;
                others = λ j k ne. others j k ne ∙ same.inodes j k;
                freed_marks = λ j b k m e.
                    ap (λ d. get_or d b 0) list
                    ∙ freed_self blocks (data_blocks s) j b (omega arith) (omega arith) e;
                kept_marks = λ b apart.
                    ap (λ d. get_or d b 0) list
                    ∙ freed-other blocks (data_blocks s) b (λ j k. apart j (omega arith));
                data_same = record {
                  blocks = λ k h.
                      data_same.blocks k (omega (arith, same.data_same.size))
                      ∙ same.data_same.blocks k h;
                  handles = data_same.handles ∙ same.data_same.handles;
                  size = data_same.size ∙ same.data_same.size;
                };
              }

  -- `simplefs_delete` changes nothing if no file has the name; else it frees the inode of the file
  -- and all of its data blocks, and changes nothing else. No assertion fails.
  -- The state satisfies the invariant.
  pub delete_lem : (f : List ℕ) → IsText f → Returns (λ _ t. Deletes s f t) (delete f s)
  unfolding delete
  delete_lem f text = elim (find_file_lem s c f text) [
    | inr (run, absent) ↦ rw run (inl (refl, absent))
    | inl (i, run, hit) ↦ rw run (
        Returns-mono (and_then (free_blocks (inode_at s i).direct_blocks s) (λ _. free_inode i))
          (remove_lem i hit.index hit.used) (λ _ t gone. inr (i, hit, gone)))
  ]
