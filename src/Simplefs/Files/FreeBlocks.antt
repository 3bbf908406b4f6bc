-- ===== src/Simplefs/Files/FreeBlocks.antt =====
-- The loop of `simplefs_delete` that frees the data blocks of a file.
use operating_systems_labwor.Base.{
  ℕ, zero, suc, ◌<◌, ◌≡◌, ◌≢◌, refl, sym, ap, ◌∙◌, ◌⊎◌, inl, inr, List, [], ◌∷◌, arith, length,
  get_or, set, ℤ, pos, negsuc, minus_one, length-set, ℕ_discrete, subst, get_or-set_self,
  get_or-set_ne,
}
use operating_systems_labwor.Simplefs.Codec.{Superblock}
use operating_systems_labwor.Simplefs.State.{State, Returns, Returns-mono, Returns-bind}
use operating_systems_labwor.Simplefs.Disk.{free_mark, used_mark, free_data_block}
use operating_systems_labwor.Simplefs.Disk.Views.{superblock_at, HasTables}
use operating_systems_labwor.Simplefs.Disk.Alloc.{
  data_blocks, with_data_blocks, SameFiles, free_data_block-used,
}
use operating_systems_labwor.Simplefs.Files.{free_blocks}

-- The free list when the blocks of an inode have been freed.
unfoldable pub freed : List ℤ → List ℕ → List ℕ
freed [] l = l
freed (pos i ∷ bs) l = freed bs (set l i free_mark)
freed (negsuc _ ∷ bs) l = freed bs l

-- Each block of the list is used when its turn comes.
abbrev pub Freeable : List ℤ → List ℕ → Type 0
Freeable [] l = Unit
Freeable (b ∷ bs) l =
    ((b ≡ minus_one) × Freeable bs l)
    ⊎ ((i : ℕ) × (b ≡ pos i)
        × (i < 30)
        × (get_or l i 0 ≡ used_mark)
        × Freeable bs (set l i free_mark))

pub SameFiles-trans : (s t u : State) → SameFiles s t → SameFiles t u → SameFiles s u
SameFiles-trans s t u a b = record {
  inodes = λ i l. b.inodes i l ∙ a.inodes i l;
  data_same = record {
    blocks = λ k h. b.data_same.blocks k (omega (arith, a.data_same.size)) ∙ a.data_same.blocks k h;
    handles = b.data_same.handles ∙ a.data_same.handles;
    size = b.data_same.size ∙ a.data_same.size;
  };
}

pub SameFiles-refl : (s : State) → SameFiles s s
SameFiles-refl s = record {
  inodes = λ i l. refl;
  data_same = record { blocks = λ k h. refl; handles = refl; size = refl };
}

-- The loop frees every block of the list, and stops at no assertion.
pub free_blocks_lem :
    (bs : List ℤ) (s : State)
    → HasTables s
    → Freeable bs (data_blocks s)
    → Returns
        (λ _ t. (superblock_at t ≡ with_data_blocks s (freed bs (data_blocks s))) × SameFiles s t)
        (free_blocks bs s)
unfolding free_blocks freed
free_blocks_lem [] s t f = (refl, SameFiles-refl s)
free_blocks_lem (b ∷ bs) s t (inl (e, f)) = rw e (free_blocks_lem bs s t f)
free_blocks_lem (b ∷ bs) s t (inr (i, e, l, used, f)) = rw e (
    Returns-bind _ (free_data_block (pos i) s) (λ _. free_blocks bs)
      (free_data_block-used s t i l used)
      λ _ u (sb, same).
        let list : data_blocks u ≡ set (data_blocks s) i free_mark =
          ap (λ x. x.datablock_freelist) sb in
        Returns-mono (free_blocks bs u)
          (free_blocks_lem bs u (omega (arith, same.data_same.size))
            (subst (Freeable bs) (sym list) f))
          λ _ v (sb', same'). (
            sb'
                ∙ ap {A = Superblock} {B = Superblock}
                    (λ x. record x { datablock_freelist = freed bs x.datablock_freelist }) sb,
            SameFiles-trans s u v same same',
          ))

-- A block that is not in the list keeps its mark.
pub freed-other :
    (bs : List ℤ) (l : List ℕ) (b : ℕ)
    → ((j : ℕ) → j < length bs → get_or bs j minus_one ≢ pos b)
    → get_or (freed bs l) b 0 ≡ get_or l b 0
unfolding freed
freed-other [] l b h = refl
freed-other (negsuc k ∷ bs) l b h = freed-other bs l b (λ j k. h (suc j) (omega arith))
freed-other (pos i ∷ bs) l b h =
    freed-other bs (set l i free_mark) b (λ j k. h (suc j) (omega arith))
    ∙ get_or-set_ne l i b free_mark 0 (λ e. h 0 (omega arith) (ap pos e))

-- A free mark stays, whatever else is freed.
freed-free :
    (bs : List ℤ) (l : List ℕ) (b : ℕ)
    → b < length l
    → get_or l b 0 ≡ free_mark
    → get_or (freed bs l) b 0 ≡ free_mark
unfolding freed
freed-free [] l b k h = h
freed-free (negsuc _ ∷ bs) l b k h = freed-free bs l b k h
freed-free (pos i ∷ bs) l b k h =
    freed-free bs (set l i free_mark) b (omega (arith, length-set l i free_mark))
      (elim (ℕ_discrete i b) [
        | yes e ↦ rw e (get_or-set_self l b free_mark 0 k)
        | no ne ↦ get_or-set_ne l i b free_mark 0 ne ∙ h
      ])

-- Each block of the list is marked as free.
pub freed_self :
    (bs : List ℤ) (l : List ℕ) (j b : ℕ)
    → b < length l
    → j < length bs
    → get_or bs j minus_one ≡ pos b
    → get_or (freed bs l) b 0 ≡ free_mark
unfolding freed
freed_self [] l j b k m h = absurd (omega arith)
freed_self (z ∷ bs) l zero b k m h = rw h (
    freed-free bs (set l b free_mark) b (omega (arith, length-set l b free_mark))
      (get_or-set_self l b free_mark 0 k))
freed_self (negsuc _ ∷ bs) l (suc j) b k m h = freed_self bs l j b k (omega arith) h
freed_self (pos i ∷ bs) l (suc j) b k m h =
    freed_self bs (set l i free_mark) j b (omega (arith, length-set l i free_mark)) (omega arith) h

-- A list of distinct used blocks can be freed.
pub Freeable_lem :
    (bs : List ℤ) (l : List ℕ)
    → ((j : ℕ)
        → j < length bs
        → (get_or bs j minus_one ≡ minus_one)
          ⊎ ((b : ℕ) × (get_or bs j minus_one ≡ pos b) × (b < 30) × (get_or l b 0 ≡ used_mark)))
    → ((j k b : ℕ)
        → j < length bs
        → k < length bs
        → get_or bs j minus_one ≡ pos b
        → get_or bs k minus_one ≡ pos b
        → j ≡ k)
    → Freeable bs l
Freeable_lem [] l own apart = tt
Freeable_lem (z ∷ bs) l own apart = elim (own 0 (omega arith)) [
  | inl e ↦ inl (
    e,
    Freeable_lem bs l (λ j k. own (suc j) (omega arith)) (λ j k b p q e d. rest j k b p q e d),
  )
  | inr (b, e, small, used) ↦
      inr (b, e, small, used, Freeable_lem bs (set l b free_mark) (own_rest b e) rest)
]
  where
    rest :
        (j k b : ℕ)
        → j < length bs
        → k < length bs
        → get_or bs j minus_one ≡ pos b
        → get_or bs k minus_one ≡ pos b
        → j ≡ k
    rest j k b p q e d = omega (arith, apart (suc j) (suc k) b (omega arith) (omega arith) e d)

    own_rest :
        (b : ℕ)
        → z ≡ pos b
        → (j : ℕ) → j < length bs
        → (get_or bs j minus_one ≡ minus_one)
          ⊎ ((c : ℕ) × (get_or bs j minus_one ≡ pos c)
              × (c < 30)
              × (get_or (set l b free_mark) c 0 ≡ used_mark))
    own_rest b e j k = elim (own (suc j) (omega arith)) [
      | inl n ↦ inl n
      | inr (c, at, small, used) ↦ inr (
        c,
        at,
        small,
        get_or-set_ne l b c free_mark 0 (λ same. absurd (
              omega
                (arith, apart 0 (suc j) b (omega arith) (omega arith) e (at ∙ ap pos (sym same)))))
            ∙ used,
      )
    ]
