-- ===== src/Simplefs/Files/DeleteKeeps.antt =====
-- `simplefs_delete` keeps the invariant.
use operating_systems_labwor.Base.{
  ℕ, ◌<◌, ◌*◌, ◌≤◌, ◌≡◌, ◌≢◌, sym, ap, ◌∙◌, ◌⊎◌, inl, inr, List, arith, subst, length, get_or, pos,
  minus_one, ℕ_discrete, get_or-set_ne, get_or-set_self,
}
use operating_systems_labwor.Simplefs.State.{State, Returns, Returns-mono}
use operating_systems_labwor.Simplefs.Disk.{free_mark}
use operating_systems_labwor.Simplefs.Disk.Views.{inode_at}
use operating_systems_labwor.Simplefs.Disk.Calls.{superblock_at-IsSuperblock}
use operating_systems_labwor.Simplefs.Disk.Alloc.{inodes}
use operating_systems_labwor.Simplefs.Files.{delete}
use operating_systems_labwor.Simplefs.Files.Names.{Holds, IsText, IsTerminated}
use operating_systems_labwor.Simplefs.Files.Find.{free≢in_use}
use operating_systems_labwor.Simplefs.Files.Delete.{IsDeleted, delete_lem}
use operating_systems_labwor.Simplefs.Consistent.{
  none_at, IsConsistent, IsUsed, IsUnused, IsOwned, entry,
}

module _ (s t : State) (c : IsConsistent s) (i : ℕ) (li : i < 8) (gone : IsDeleted s i t) where
  open gone use {inode, inode_marks, others, freed_marks, kept_marks, data_same}

  mark_ne : (j : ℕ) → i ≢ j → get_or (inodes t) j 0 ≡ get_or (inodes s) j 0
  mark_ne j ne = ap (λ l. get_or l j 0) inode_marks ∙ get_or-set_ne (inodes s) i j free_mark 0 ne

  unused : IsUnused t i
  unused =
      let count = (superblock_at-IsSuperblock s).inodes_size in
      (
        ap (λ x. x.status) inode,
        ap (λ l. get_or l i 0) inode_marks ∙ get_or-set_self (inodes s) i free_mark 0 (omega arith),
      )

  -- A used inode is another, and was used before.
  other : (j : ℕ) → IsUsed t j → i ≢ j
  other j u e = free≢in_use (sym (subst (IsUnused t) e unused).0 ∙ u.0)

  back : (j : ℕ) → j < 8 → IsUsed t j → IsUsed s j
  back j l u =
      let ne = other j u in
      (ap (λ x. x.status) (sym (others j l ne)) ∙ u.0, sym (mark_ne j ne) ∙ u.1)

  marks : (j : ℕ) → j < 8 → IsUsed t j ⊎ IsUnused t j
  marks j l = elim (ℕ_discrete i j) [
    | yes e ↦ inr (subst (IsUnused t) e unused)
    | no ne ↦ rw (others j l ne, mark_ne j ne) (c.marks j l)
  ]

  same_name :
      (j : ℕ) (f : List ℕ)
      → j < 8
      → IsUsed t j
      → Holds (inode_at t j).name f
      → Holds (inode_at s j).name f
  same_name j f l u h = subst (λ x. Holds x.name f) (others j l (other j u)) h

  sizes : (j : ℕ) → j < 8 → (n : ℕ) × ((inode_at t j).file_size ≡ pos n) × (n ≤ 256)
  sizes j l = elim (ℕ_discrete i j) [
    | yes e ↦
        (0, ap (λ k. (inode_at t k).file_size) (sym e) ∙ ap (λ x. x.file_size) inode, omega arith)
    | no ne ↦ rw (others j l ne) (c.sizes j l)
  ]

  -- The entries of the freed inode are gone; those of another are as they were.
  entry_gone : (k : ℕ) → entry t i k ≡ minus_one
  entry_gone k = ap (λ x. get_or x.direct_blocks k minus_one) inode ∙ none_at k

  entry_same : (j k : ℕ) → j < 8 → i ≢ j → entry t j k ≡ entry s j k
  entry_same j k l ne = ap (λ x. get_or x.direct_blocks k minus_one) (others j l ne)

  owned : (j k b : ℕ) → j < 8 → k < 4 → i ≢ j → entry s j k ≡ pos b → IsOwned s b → IsOwned t b
  owned j k b l m ne at o = (
    o.0,
    kept_marks b (λ n p e. ne (c.separate i n j k b li p l m e at).0) ∙ o.1,
    omega (arith, data_same.size, o.2),
  )

  blocks :
      (j k : ℕ)
      → j < 8
      → k < 4
      → (entry t j k ≡ minus_one) ⊎ ((b : ℕ) × (entry t j k ≡ pos b) × IsOwned t b)
  blocks j k l m = elim (ℕ_discrete i j) [
    | yes e ↦ inl (subst (λ n. entry t n k ≡ minus_one) e (entry_gone k))
    | no ne ↦ elim (c.blocks j k l m) [
      | inl n ↦ inl (entry_same j k l ne ∙ n)
      | inr (b, at, o) ↦ inr (b, entry_same j k l ne ∙ at, owned j k b l m ne at o)
    ]
  ]

  kept_entry : (j k b : ℕ) → j < 8 → entry t j k ≡ pos b → entry s j k ≡ pos b
  kept_entry j k b l e = elim (ℕ_discrete i j) [
    | yes same ↦ cc (subst (λ n. entry t n k ≡ minus_one) same (entry_gone k), e)
    | no ne ↦ sym (entry_same j k l ne) ∙ e
  ]

  covered :
      (j k n : ℕ)
      → j < 8
      → k < 4
      → (inode_at t j).file_size ≡ pos n
      → k * 64 < n
      → entry t j k ≢ minus_one
  covered j k n l m size lt = elim (ℕ_discrete i j) [
    | yes e ↦
        let zero_size : (inode_at t j).file_size ≡ pos 0 =
          ap (λ a. (inode_at t a).file_size) (sym e) ∙ ap (λ x. x.file_size) inode in
        absurd (ground arith)
    | no ne ↦ rw (others j l ne) (c.covered j k n l m (rw (others j l ne) at size) lt)
  ]

  dense : (j k m : ℕ) → j < 8 → k < m → m < 4 → entry t j k ≡ minus_one → entry t j m ≡ minus_one
  dense j k m l lt lm none = elim (ℕ_discrete i j) [
    | yes e ↦ subst (λ a. entry t a m ≡ minus_one) e (entry_gone m)
    | no ne ↦ rw (others j l ne) (c.dense j k m l lt lm (rw (others j l ne) at none))
  ]

  pub IsDeleted-IsConsistent : IsConsistent t
  IsDeleted-IsConsistent = record {
    tables = omega (arith, data_same.size, c.tables);
    marks = marks;
    names = λ j l u.
        subst (λ x. IsTerminated x.name) (sym (others j l (other j u))) (c.names j l (back j l u));
    unique = λ j k g lj lk tg uj uk hj hk.
        c.unique j k g lj lk tg (back j lj uj) (back k lk uk) (same_name j g lj uj hj)
          (same_name k g lk uk hk);
    sizes = sizes;
    blocks = blocks;
    separate = λ j k m n b lj lk lm ln e d.
        c.separate j k m n b lj lk lm ln (kept_entry j k b lj e) (kept_entry m n b lm d);
    covered = covered;
    dense = dense;
    handle_count = ap length data_same.handles ∙ c.handle_count;
    handles = rw data_same.handles c.handles;
  }

-- `simplefs_delete` keeps the invariant.
pub delete-IsConsistent :
    (s : State) (f : List ℕ)
    → IsConsistent s
    → IsText f
    → Returns (λ _ t. IsConsistent t) (delete f s)
delete-IsConsistent s f c text = Returns-mono (delete f s) (delete_lem s c f text) λ _ t. elim [
  | inl (same, absent) ↦ rw same c
  | inr (i, file, gone) ↦ IsDeleted-IsConsistent s t c i file.index gone
]
