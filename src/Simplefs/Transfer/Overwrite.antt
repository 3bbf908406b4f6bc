-- ===== src/Simplefs/Transfer/Overwrite.antt =====
-- `simplefs_write` inside a file: no block is added, and the size stays.
use operating_systems_labwor.Base.{
  ℕ, zero, suc, ◌+◌, ◌*◌, ◌<◌, ◌≤◌, ◌≡◌, ◌≢◌, refl, sym, ap, ap₂, subst, ◌∙◌, List, [], ◌∷◌, ◌++◌,
  arith, length, get_or, take, drop, ℤ, pos, negsuc, minus_one, length-append, append_assoc,
  take-append_le, ℕ_discrete,
}
use operating_systems_labwor.Simplefs.State.{State}
use operating_systems_labwor.Simplefs.Disk.Views.{
  superblock_at, inode_at, block_at, put_inode, HasTables, HasBlock, superblock_at-put_inode,
  inode_at-put_inode_self, inode_at-put_inode_ne, block_at-put_inode, size-put_inode,
}
use operating_systems_labwor.Simplefs.Codec.{Inode}
use operating_systems_labwor.Simplefs.Codec.Roundtrip.{IsInode}
use operating_systems_labwor.Simplefs.Transfer.{splice}
use operating_systems_labwor.Simplefs.Transfer.Content.{Ready, length-block_at, data_of, contents}
use operating_systems_labwor.Simplefs.Transfer.Splice.{splice-append_behind, take-splice}
use operating_systems_labwor.Simplefs.Transfer.Write.{bytes_of, Distinct, IsWritten, Ready-grown}
use operating_systems_labwor.Simplefs.Consistent.{entry}

pub Distinct_lem :
    (k : ℕ) (bs : List ℤ)
    → ((i j b : ℕ)
        → i < k
        → j < k
        → get_or bs i minus_one ≡ pos b
        → get_or bs j minus_one ≡ pos b
        → i ≡ j)
    → Distinct k bs
Distinct_lem zero bs h = tt
Distinct_lem (suc k) [] h = tt
Distinct_lem (suc k) (pos b ∷ bs) h = (
  λ j l e. absurd (omega (arith, h 0 (suc j) b (omega arith) (omega arith) refl e)),
  Distinct_lem k bs
      (λ i j c l m e d. omega (arith, h (suc i) (suc j) c (omega arith) (omega arith) e d)),
)
Distinct_lem (suc k) (negsuc _ ∷ bs) h = tt

pub Distinct-drop :
    (s : State) (m n k : ℕ) (bs : List ℤ)
    → n ≡ m + k
    → Ready s n bs
    → Distinct n bs
    → Distinct k (drop m bs)
Distinct-drop s zero n k bs e r d = subst (λ (a : ℕ). Distinct a bs) (omega arith) d
Distinct-drop s (suc m) zero k bs e r d = absurd (omega arith)
Distinct-drop s (suc m) (suc n) k [] e r d = absurd r
Distinct-drop s (suc m) (suc n) k (pos b ∷ bs) e r d =
    Distinct-drop s m n k bs (omega arith) r.1 d.1
Distinct-drop s (suc m) (suc n) k (negsuc b ∷ bs) e ((i, f, _, _), r) d = absurd (ground arith)

-- What is written to later blocks, seen from the first.
pub IsWritten-drop :
    (s : State) (m n k : ℕ) (bs : List ℤ) (off : ℕ) (new : List ℕ) (t : State)
    → n ≡ m + k
    → Ready s n bs
    → Distinct n bs
    → IsWritten s k (drop m bs) off new t
    → IsWritten s n bs (64 * m + off) new t
unfolding bytes_of
IsWritten-drop s zero n k bs off new t e r d w =
    subst (λ (a : ℕ). IsWritten s a bs (64 * zero + off) new t) (omega arith)
      (subst (λ (a : ℕ). IsWritten s k bs a new t) (omega arith) w)
IsWritten-drop s (suc m) zero k bs off new t e r d w = absurd (omega arith)
IsWritten-drop s (suc m) (suc n) k [] off new t e r d w = absurd r
IsWritten-drop s (suc m) (suc n) k (negsuc b ∷ bs) off new t e ((i, f, _, _), r) d w =
    absurd (ground arith)
IsWritten-drop s (suc m) (suc n) k (pos b ∷ bs) off new t e ((i, f, small, here), r) (none, d) w =
    let v = IsWritten-drop s m n k bs off new t (omega arith) r d w in
    let at : i ≡ b = ground (arith, f) in
    let place : length (block_at s b) + (64 * m + off) ≡ 64 * suc m + off =
      omega (arith, length-block_at s b) in
    record {
      bytes =
          ap₂ (λ x y. x ++ y) (v.others b (omega (arith, here, at)) none) v.bytes
          ∙ sym (splice-append_behind (block_at s b) (bytes_of s n bs) new (64 * m + off))
          ∙ ap (λ (a : ℕ). splice (block_at s b ++ bytes_of s n bs) a new) place;
      others = λ c h a. v.others c h (λ j l. a (suc j) (omega arith));
      inodes = v.inodes;
      superblock = v.superblock;
      grown = v.grown;
      handles = v.handles;
    }

pub data_of-bytes_of :
    (s : State) (k : ℕ) (bs : List ℤ)
    → Ready s k bs
    → (length (bytes_of s k bs) ≡ 64 * k)
      × (data_of s bs ≡ bytes_of s k bs ++ data_of s (drop k bs))
unfolding bytes_of data_of
data_of-bytes_of s zero bs r = (refl, refl)
data_of-bytes_of s (suc k) [] r = absurd r
data_of-bytes_of s (suc k) (pos b ∷ bs) (at, r) =
    let (size, e) = data_of-bytes_of s k bs r in
    (
      omega (arith, length-append (block_at s b) (bytes_of s k bs), length-block_at s b, size),
      ap (λ x. block_at s b ++ x) e
          ∙ sym (append_assoc (block_at s b) (bytes_of s k bs) (data_of s (drop k bs))),
    )
data_of-bytes_of s (suc k) (negsuc b ∷ bs) ((i, f, _, _), r) = absurd (ground arith)

-- The contents of a file lie in its first blocks.
pub contents-bytes_of :
    (s : State) (i k size : ℕ)
    → Ready s k (inode_at s i).direct_blocks
    → (inode_at s i).file_size ≡ pos size
    → size ≤ 64 * k
    → contents s i ≡ take size (bytes_of s k (inode_at s i).direct_blocks)
unfolding contents
contents-bytes_of s i k size r sized l =
    let bs = (inode_at s i).direct_blocks in
    let (len, e) = data_of-bytes_of s k bs r in
    rw sized (
      ap (take size) e
      ∙ take-append_le size (bytes_of s k bs) (data_of s (drop k bs)) (omega (arith, len)))

-- To write an inode leaves the bytes of the blocks.
bytes_of-put_inode :
    (s : State) (i : ℕ) (x : Inode) (k : ℕ) (bs : List ℤ)
    → i < 8
    → IsInode x
    → HasTables s
    → Ready s k bs
    → bytes_of (put_inode i x s) k bs ≡ bytes_of s k bs
unfolding bytes_of
bytes_of-put_inode s i x zero bs l h tables r = refl
bytes_of-put_inode s i x (suc k) [] l h tables r = refl
bytes_of-put_inode s i x (suc k) (b ∷ bs) l h tables ((j, e, small, here), r) = rw e (
    ap₂ (λ y z. y ++ z) (block_at-put_inode s i x l h tables j here)
      (bytes_of-put_inode s i x k bs l h tables r))

-- From `s` to `t` the bytes `new` are written over those of file `i` from `off` on, and nothing else
-- changes.
pub record IsOverwritten (s : State) (i off : ℕ) (new : List ℕ) (t : State) : Type 0 where
  pub file : contents t i ≡ splice (contents s i) off new
  pub others :
      (b : ℕ) → HasBlock s b → ((j : ℕ) → j < 4 → entry s i j ≢ pos b) → block_at t b ≡ block_at s b
  pub inodes : (j : ℕ) → j < 8 → inode_at t j ≡ inode_at s j
  pub superblock : superblock_at t ≡ superblock_at s
  pub handles : t.handles ≡ s.handles
  pub grown : s.disk.size ≤ t.disk.size

-- The inode is written back as it was.
pub overwritten :
    (s u : State) (i k size off : ℕ) (new : List ℕ)
    → HasTables s
    → i < 8
    → IsInode (inode_at s i)
    → Ready s k (inode_at s i).direct_blocks
    → k ≤ 4
    → (inode_at s i).file_size ≡ pos size
    → size ≤ 64 * k
    → off + length new ≤ size
    → IsWritten s k (inode_at s i).direct_blocks off new u
    → IsOverwritten s i off new (put_inode i (inode_at s i) u)
unfolding put_inode
overwritten s u i k size off new tables l h r four sized fits inside w =
    let x = inode_at s i in
    let bs = (inode_at s i).direct_blocks in
    let t = put_inode i x u in
    let tables_u : HasTables u = omega (arith, w.grown) in
    let grown = size-put_inode u i x l h tables_u in
    let ready_u = Ready-grown s u k bs w.grown r in
    let ready_t = Ready-grown u t k bs (omega (arith, grown)) ready_u in
    let same_inode = inode_at-put_inode_self u i x l h tables_u in
    let len = (data_of-bytes_of s k bs r).0 in
    record {
      file =
          contents-bytes_of t i k size
            (subst (λ y. Ready t k y.direct_blocks) (sym same_inode) ready_t)
            (ap (λ y. y.file_size) same_inode ∙ sized) fits
          ∙ ap (λ y. take size (bytes_of t k y.direct_blocks)) same_inode
          ∙ ap (take size) (bytes_of-put_inode u i x k bs l h tables_u ready_u ∙ w.bytes)
          ∙ take-splice size off (bytes_of s k bs) new inside (omega (arith, len))
          ∙ ap (λ y. splice y off new) (sym (contents-bytes_of s i k size r sized fits));
      others = λ b here none.
          block_at-put_inode u i x l h tables_u b (omega (arith, w.grown))
          ∙ w.others b here (λ j m. none j (omega arith));
      inodes = λ j m. elim (ℕ_discrete i j) [
        | yes e ↦ subst (λ (a : ℕ). inode_at t a ≡ inode_at s a) e same_inode
        | no ne ↦ inode_at-put_inode_ne u i x l h tables_u j m ne ∙ w.inodes j m
      ];
      superblock = superblock_at-put_inode u i x l h tables_u ∙ w.superblock;
      handles = w.handles;
      grown = omega (arith, w.grown, grown);
    }
