-- ===== src/Simplefs/Transfer/Content.antt =====
-- The contents of files: the bytes of their data blocks in order.
use operating_systems_labwor.Base.{
  ℕ, zero, suc, ◌+◌, ◌*◌, ◌<◌, ◌≤◌, ◌≡◌, refl, sym, ap, subst, ◌∙◌, inl, inr, List, [], ◌∷◌, ◌++◌,
  arith, length, get_or, take, drop, ℤ, pos, negsuc, pos_part, minus_one, drop-append_ge,
  Bool-cases, is_minus_one,
}
use operating_systems_labwor.Simplefs.Image.{length-slice}
use operating_systems_labwor.Simplefs.State.{State}
use operating_systems_labwor.Simplefs.Disk.Views.{inode_at, block_at, block_start, HasBlock}
use operating_systems_labwor.Simplefs.Disk.Alloc.{length-direct_blocks}
use operating_systems_labwor.Simplefs.Consistent.{IsConsistent}
use operating_systems_labwor.Simplefs.Transfer.{count_blocks}

-- The bytes of the blocks up to the first entry that is none.
unfoldable pub data_of : State → List ℤ → List ℕ
data_of s [] = []
data_of s (pos b ∷ bs) = block_at s b ++ data_of s bs
data_of s (negsuc _ ∷ bs) = []

-- The contents of the file of inode `i`.
unfoldable pub contents : State → ℕ → List ℕ
contents s i = take (pos_part (inode_at s i).file_size) (data_of s (inode_at s i).direct_blocks)

pub length-block_at : (s : State) (b : ℕ) → length (block_at s b) ≡ 64
unfolding block_at
length-block_at s b = length-slice s.disk (block_start b) 64

-- The first `k` entries are blocks in the disk file.
abbrev pub Ready : State → ℕ → List ℤ → Type 0
Ready s zero bs = Unit
Ready s (suc k) [] = ⊥
Ready s (suc k) (b ∷ bs) = ((i : ℕ) × (b ≡ pos i) × (i < 30) × HasBlock s i) × Ready s k bs

pub Ready_lem :
    (s : State) (k : ℕ) (bs : List ℤ)
    → k ≤ length bs
    → ((j : ℕ) → j < k → (i : ℕ) × (get_or bs j minus_one ≡ pos i) × (i < 30) × HasBlock s i)
    → Ready s k bs
Ready_lem s zero bs l h = tt
Ready_lem s (suc k) [] l h = elim l [ ]
Ready_lem s (suc k) (b ∷ bs) l h =
    (h 0 (omega arith), Ready_lem s k bs (omega arith) (λ j m. h (suc j) (omega arith)))

pub Ready-drop :
    (s : State) (m n k : ℕ) (bs : List ℤ) → n ≡ m + k → Ready s n bs → Ready s k (drop m bs)
Ready-drop s zero n k bs e r = subst (λ (a : ℕ). Ready s a bs) (omega arith) r
Ready-drop s (suc m) zero k bs e r = absurd (omega arith)
Ready-drop s (suc m) (suc n) k [] e r = absurd r
Ready-drop s (suc m) (suc n) k (b ∷ bs) e r = Ready-drop s m n k bs (omega arith) r.1

pub data_of-drop :
    (s : State) (m n k : ℕ) (bs : List ℤ)
    → n ≡ m + k
    → Ready s n bs
    → data_of s (drop m bs) ≡ drop (64 * m) (data_of s bs)
unfolding data_of
data_of-drop s zero n k bs e r = refl
data_of-drop s (suc m) zero k bs e r = absurd (omega arith)
data_of-drop s (suc m) (suc n) k [] e r = absurd r
data_of-drop s (suc m) (suc n) k (b ∷ bs) e ((i, at, small, here), r) =
    let size = length-block_at s i in
    rw at (
      data_of-drop s m n k bs (omega arith) r
      ∙ sym (
          drop-append_ge (64 * suc m) (block_at s i) (data_of s bs) (omega arith)
          ∙ ap (λ (a : ℕ). drop a (data_of s bs)) (omega arith)))

-- The blocks that the size of a file needs are there.
pub needed-Ready :
    (s : State) (c : IsConsistent s) (i n k : ℕ)
    → i < 8
    → (inode_at s i).file_size ≡ pos n
    → k ≤ 4
    → 64 * k < n + 64
    → Ready s k (inode_at s i).direct_blocks
needed-Ready s c i n k l size le small =
    Ready_lem s k (inode_at s i).direct_blocks (omega (arith, length-direct_blocks s i)) λ j m.
      elim (c.blocks i j l (omega arith)) [
        | inl e ↦ absurd (c.covered i j n l (omega arith) size (omega arith) e)
        | inr (b, e, o) ↦ (b, e, o.0, o.2)
      ]

pub count_blocks-le : (bs : List ℤ) → count_blocks bs ≤ length bs
unfolding count_blocks
count_blocks-le [] = omega arith
count_blocks-le (b ∷ bs) = elim (Bool-cases (is_minus_one b)) [
  | inl e ↦ rw e (omega (arith, count_blocks-le bs))
  | inr e ↦ rw e (omega (arith, count_blocks-le bs))
]

pub count_blocks-Ready : (s : State) (k : ℕ) (bs : List ℤ) → Ready s k bs → k ≤ count_blocks bs
unfolding count_blocks
count_blocks-Ready s zero bs r = omega arith
count_blocks-Ready s (suc k) [] r = absurd r
count_blocks-Ready s (suc k) (b ∷ bs) ((i, e, _, _), r) =
    rw e (omega (arith, count_blocks-Ready s k bs r))
