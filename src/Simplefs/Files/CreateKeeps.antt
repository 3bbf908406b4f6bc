-- ===== src/Simplefs/Files/CreateKeeps.antt =====
-- `simplefs_create` keeps the invariant.
use operating_systems_labwor.Base.{
  ℕ, ◌<◌, ◌*◌, ◌≤◌, ◌≡◌, ◌≢◌, sym, ap, ◌∙◌, ◌⊎◌, inl, inr, List, arith, subst, length, get_or, pos,
  minus_one, ℕ_discrete, get_or-set_ne,
}
use operating_systems_labwor.Simplefs.State.{State, Returns, Returns-mono}
use operating_systems_labwor.Simplefs.Disk.{used_mark}
use operating_systems_labwor.Simplefs.Disk.Views.{inode_at}
use operating_systems_labwor.Simplefs.Disk.Alloc.{inodes, data_blocks}
use operating_systems_labwor.Simplefs.Files.{create}
use operating_systems_labwor.Simplefs.Files.Names.{
  Holds, IsText, IsTerminated, Holds-IsTerminated, Holds-unique,
}
use operating_systems_labwor.Simplefs.Files.Create.{IsCreated, create_lem}
use operating_systems_labwor.Simplefs.Consistent.{
  none_at, IsConsistent, IsUsed, IsUnused, NoFile, IsOwned, entry,
}

module _ (s t : State) (c : IsConsistent s) (f : List ℕ) (text : IsText f) (i : ℕ)
    (absent : NoFile s f) (made : IsCreated s f i t) where
  open made use {file, others, lists, data_same}

  mark_ne : (j : ℕ) → i ≢ j → get_or (inodes t) j 0 ≡ get_or (inodes s) j 0
  mark_ne j ne =
      ap (λ b. get_or b.inode_freelist j 0) lists ∙ get_or-set_ne (inodes s) i j used_mark 0 ne

  data_blocks_same : data_blocks t ≡ data_blocks s
  data_blocks_same = ap (λ b. b.datablock_freelist) lists

  back : (j : ℕ) → j < 8 → i ≢ j → IsUsed t j → IsUsed s j
  back j l ne u = (ap (λ x. x.status) (sym (others j l ne)) ∙ u.0, sym (mark_ne j ne) ∙ u.1)

  marks : (j : ℕ) → j < 8 → IsUsed t j ⊎ IsUnused t j
  marks j l = elim (ℕ_discrete i j) [
    | yes e ↦ inl (subst (IsUsed t) e file.used)
    | no ne ↦ rw (others j l ne, mark_ne j ne) (c.marks j l)
  ]

  names : (j : ℕ) → j < 8 → IsUsed t j → IsTerminated (inode_at t j).name
  names j l u = elim (ℕ_discrete i j) [
    | yes e ↦
        Holds-IsTerminated (inode_at t j).name f
          (subst (λ k. Holds (inode_at t k).name f) e file.name)
    | no ne ↦ rw (others j l ne) (c.names j l (back j l ne u))
  ]

  -- No other inode holds the new name.
  only :
      (j : ℕ) (g : List ℕ)
      → j < 8
      → i ≢ j
      → IsText g
      → IsUsed t j
      → Holds (inode_at t i).name g
      → Holds (inode_at t j).name g
      → ⊥
  only j g l ne tg u h k =
      let e : g ≡ f = Holds-unique (inode_at t i).name g f tg text h file.name in
      absent j (record {
        index = l;
        used = back j l ne u;
        name = subst (Holds (inode_at s j).name) e (subst (λ x. Holds x.name g) (others j l ne) k);
      })

  unique :
      (j k : ℕ) (g : List ℕ)
      → j < 8
      → k < 8
      → IsText g
      → IsUsed t j
      → IsUsed t k
      → Holds (inode_at t j).name g
      → Holds (inode_at t k).name g
      → j ≡ k
  unique j k g lj lk tg uj uk hj hk = elim (ℕ_discrete i j) [
    | yes ej ↦ elim (ℕ_discrete i k) [
      | yes ek ↦ sym ej ∙ ek
      | no nk ↦
          absurd (only k g lk nk tg uk (subst (λ n. Holds (inode_at t n).name g) (sym ej) hj) hk)
    ]
    | no nj ↦ elim (ℕ_discrete i k) [
      | yes ek ↦
          absurd (only j g lj nj tg uj (subst (λ n. Holds (inode_at t n).name g) (sym ek) hk) hj)
      | no nk ↦
          c.unique j k g lj lk tg (back j lj nj uj) (back k lk nk uk)
            (subst (λ x. Holds x.name g) (others j lj nj) hj)
            (subst (λ x. Holds x.name g) (others k lk nk) hk)
    ]
  ]

  sizes : (j : ℕ) → j < 8 → (n : ℕ) × ((inode_at t j).file_size ≡ pos n) × (n ≤ 256)
  sizes j l = elim (ℕ_discrete i j) [
    | yes e ↦ (0, subst (λ k. (inode_at t k).file_size ≡ pos 0) e made.empty, omega arith)
    | no ne ↦ rw (others j l ne) (c.sizes j l)
  ]

  new_entry : (k : ℕ) → entry t i k ≡ minus_one
  new_entry k = rw made.no_blocks (none_at k)

  -- The new file has no block, and the entries of the others are as they were.
  entry_same : (j k : ℕ) → j < 8 → (entry t j k ≡ minus_one) ⊎ (entry t j k ≡ entry s j k)
  entry_same j k l = elim (ℕ_discrete i j) [
    | yes e ↦ inl (subst (λ a. entry t a k ≡ minus_one) e (new_entry k))
    | no ne ↦ inr (rw (others j l ne))
  ]

  owned : (b : ℕ) → IsOwned s b → IsOwned t b
  owned b o =
      (o.0, ap (λ l. get_or l b 0) data_blocks_same ∙ o.1, omega (arith, data_same.size, o.2))

  blocks :
      (j k : ℕ)
      → j < 8
      → k < 4
      → (entry t j k ≡ minus_one) ⊎ ((b : ℕ) × (entry t j k ≡ pos b) × IsOwned t b)
  blocks j k l m = elim (entry_same j k l) [
    | inl e ↦ inl e
    | inr e ↦ elim (c.blocks j k l m) [
      | inl n ↦ inl (e ∙ n)
      | inr (b, at, o) ↦ inr (b, e ∙ at, owned b o)
    ]
  ]

  kept_entry : (j k b : ℕ) → j < 8 → entry t j k ≡ pos b → entry s j k ≡ pos b
  kept_entry j k b l e = elim (entry_same j k l) [ inl n ↦ cc (n, e) | inr same ↦ sym same ∙ e ]

  covered :
      (j k n : ℕ)
      → j < 8
      → k < 4
      → (inode_at t j).file_size ≡ pos n
      → k * 64 < n
      → entry t j k ≢ minus_one
  covered j k n l m size lt = elim (ℕ_discrete i j) [
    | yes e ↦
        let zero_size : (inode_at t j).file_size ≡ pos 0 =
          subst (λ a. (inode_at t a).file_size ≡ pos 0) e made.empty in
        absurd (ground arith)
    | no ne ↦ rw (others j l ne) (c.covered j k n l m (rw (others j l ne) at size) lt)
  ]

  dense : (j k m : ℕ) → j < 8 → k < m → m < 4 → entry t j k ≡ minus_one → entry t j m ≡ minus_one
  dense j k m l lt lm none = elim (ℕ_discrete i j) [
    | yes e ↦ subst (λ a. entry t a m ≡ minus_one) e (new_entry m)
    | no ne ↦ rw (others j l ne) (c.dense j k m l lt lm (rw (others j l ne) at none))
  ]

  pub IsCreated-IsConsistent : IsConsistent t
  IsCreated-IsConsistent = record {
    tables = omega (arith, data_same.size, c.tables);
    marks = marks;
    names = names;
    unique = unique;
    sizes = sizes;
    blocks = blocks;
    separate = λ j k m n b lj lk lm ln e d.
        c.separate j k m n b lj lk lm ln (kept_entry j k b lj e) (kept_entry m n b lm d);
    covered = covered;
    dense = dense;
    handle_count = ap length data_same.handles ∙ c.handle_count;
    handles = rw data_same.handles c.handles;
  }

-- `simplefs_create` of a name of at most 7 characters keeps the invariant, whether it creates the file
-- or returns -1.
pub create-IsConsistent :
    (s : State) (f : List ℕ)
    → IsConsistent s
    → IsText f
    → length f < 8
    → Returns (λ _ t. IsConsistent t) (create f s)
create-IsConsistent s f c text short =
    Returns-mono (create f s) (create_lem s c f text short) λ r t. elim [
      | inl (e, same, hit) ↦ rw same c
      | inr (inl (e, same, absent, all)) ↦ rw same c
      | inr (inr (i, e, absent, ff, made)) ↦ IsCreated-IsConsistent s t c f text i absent made
    ]
