-- ===== src/Simplefs/Codec/Roundtrip.antt =====
-- What is written of a structure is read back as it was.
use operating_systems_labwor.Base.{
  ℕ, ◌+◌, ◌*◌, ◌/◌, ◌%◌, ◌≡◌, refl, ap, ap₂, ◌∙◌, sym, List, [], ◌∷◌, ◌++◌, append_assoc, arith,
  length, take, drop, take-append, drop-append, length-append, ℤ, pos, negsuc, InInt,
}
use operating_systems_labwor.Simplefs.Codec.{
  Superblock, Inode, pattern_of, signed, int_bytes, int_of, ints_bytes, ints_of, inode_bytes,
  inode_of, superblock_bytes, superblock_of,
}

pub length-int_bytes : (z : ℤ) → length (int_bytes z) ≡ 4
unfolding int_bytes
length-int_bytes z = refl

signed-pattern : (z : ℤ) → InInt z → signed (pattern_of z) ≡ z
unfolding signed pattern_of
signed-pattern (pos n) h = ground arith
signed-pattern (negsuc n) h = ground arith

regroup_bytes :
    (p : ℕ)
    → p % 256 + 256 * (p / 256 % 256) + 65536 * (p / 65536 % 256) + 16777216 * (p / 16777216) ≡ p
regroup_bytes p = omega arith

-- An `int` is read back from its four bytes, whatever follows them.
pub int_of-int_bytes : (z : ℤ) (r : List ℕ) → InInt z → int_of (int_bytes z ++ r) ≡ z
unfolding int_of int_bytes
int_of-int_bytes z r h = ap signed (regroup_bytes (pattern_of z)) ∙ signed-pattern z h

drop-int_bytes : (z : ℤ) (r : List ℕ) → drop 4 (int_bytes z ++ r) ≡ r
drop-int_bytes z r = drop-append 4 (int_bytes z) r (length-int_bytes z)

-- Every value of a list of `int`s is in range.
abbrev pub AllInt : List ℤ → Type 0
AllInt [] = Unit
AllInt (z ∷ zs) = InInt z × AllInt zs

pub length-ints_bytes :
    (zs : List ℤ) → length (ints_bytes zs) ≡ length zs + (length zs + (length zs + length zs))
unfolding ints_bytes
length-ints_bytes [] = refl
length-ints_bytes (z ∷ zs) =
    omega
      (arith, length-append (int_bytes z) (ints_bytes zs), length-int_bytes z, length-ints_bytes zs)

ints_of-ints_bytes : (zs : List ℤ) → AllInt zs → ints_of (length zs) (ints_bytes zs) ≡ zs
unfolding ints_of ints_bytes
ints_of-ints_bytes [] h = refl
ints_of-ints_bytes (z ∷ zs) h =
    ap₂ ◌∷◌ (int_of-int_bytes z (ints_bytes zs) h.0)
      (ap (ints_of (length zs)) (drop-int_bytes z (ints_bytes zs)) ∙ ints_of-ints_bytes zs h.1)

-- The shape of an `inode_t` that the C type gives: array lengths and the range of `int`.
pub record IsInode (x : Inode) : Type 0 where
  pub name_size : length x.name ≡ 8
  pub blocks_size : length x.direct_blocks ≡ 4
  pub status_range : InInt x.status
  pub size_range : InInt x.file_size
  pub blocks_range : AllInt x.direct_blocks

pub record IsSuperblock (b : Superblock) : Type 0 where
  pub name_size : length b.name ≡ 8
  pub inodes_size : length b.inode_freelist ≡ 8
  pub datablocks_size : length b.datablock_freelist ≡ 30

pub length-inode_bytes : (x : Inode) → IsInode x → length (inode_bytes x) ≡ 32
unfolding inode_bytes
length-inode_bytes x h =
    let tail = int_bytes x.file_size ++ ints_bytes x.direct_blocks in
    omega (
      arith,
      length-append (int_bytes x.status) (x.name ++ tail),
      length-append x.name tail,
      length-append (int_bytes x.file_size) (ints_bytes x.direct_blocks),
      length-int_bytes x.status,
      length-int_bytes x.file_size,
      length-ints_bytes x.direct_blocks,
    )

-- Behind two or three pieces of known length.
drop-append₂ :
    (n : ℕ) (xs ys zs : List ℕ) → length xs + length ys ≡ n → drop n (xs ++ (ys ++ zs)) ≡ zs
drop-append₂ n xs ys zs h =
    ap (drop n) (sym (append_assoc xs ys zs))
    ∙ drop-append n (xs ++ ys) zs (omega (arith, length-append xs ys))

drop-append₃ :
    (n : ℕ) (ws xs ys zs : List ℕ)
    → length ws + length xs + length ys ≡ n
    → drop n (ws ++ (xs ++ (ys ++ zs))) ≡ zs
drop-append₃ n ws xs ys zs h =
    ap (λ t. drop n (ws ++ t)) (sym (append_assoc xs ys zs))
    ∙ drop-append₂ n ws (xs ++ ys) zs (omega (arith, length-append xs ys))

-- An inode survives being written to the disk and read back.
pub inode_of-inode_bytes : (x : Inode) → IsInode x → inode_of (inode_bytes x) ≡ x
unfolding inode_of inode_bytes
inode_of-inode_bytes x h = λ i. record {
  status = status i;
  name = name i;
  file_size = file_size i;
  direct_blocks = direct_blocks i;
}
  where
    bs : List ℕ
    bs = inode_bytes x

    rest : List ℕ
    rest = int_bytes x.file_size ++ ints_bytes x.direct_blocks

    status : int_of bs ≡ x.status
    status = int_of-int_bytes x.status (x.name ++ rest) h.status_range

    name : take 8 (drop 4 bs) ≡ x.name
    name =
        ap (take 8) (drop-int_bytes x.status (x.name ++ rest))
        ∙ take-append 8 x.name rest h.name_size

    file_size : int_of (drop 12 bs) ≡ x.file_size
    file_size =
        ap int_of (
          drop-append₂ 12 (int_bytes x.status) x.name rest
            (omega (arith, h.name_size, length-int_bytes x.status)))
        ∙ int_of-int_bytes x.file_size (ints_bytes x.direct_blocks) h.size_range

    direct_blocks : ints_of 4 (drop 16 bs) ≡ x.direct_blocks
    direct_blocks =
        ap (ints_of 4) (
          drop-append₃ 16 (int_bytes x.status) x.name (int_bytes x.file_size)
            (ints_bytes x.direct_blocks)
            (omega (arith, h.name_size, length-int_bytes x.status, length-int_bytes x.file_size)))
        ∙ rw (← h.blocks_size) (ints_of-ints_bytes x.direct_blocks h.blocks_range)

pub length-superblock_bytes : (b : Superblock) → IsSuperblock b → length (superblock_bytes b) ≡ 46
unfolding superblock_bytes
length-superblock_bytes b h = omega (
  arith,
  length-append b.name (b.inode_freelist ++ b.datablock_freelist),
  length-append b.inode_freelist b.datablock_freelist,
)

pub superblock_of-superblock_bytes :
    (b : Superblock) (r : List ℕ) → IsSuperblock b → superblock_of (superblock_bytes b ++ r) ≡ b
unfolding superblock_of superblock_bytes
superblock_of-superblock_bytes b r h = λ i. record {
  name = name i;
  inode_freelist = inode_freelist i;
  datablock_freelist = datablock_freelist i;
}
  where
    inner : List ℕ
    inner = b.inode_freelist ++ (b.datablock_freelist ++ r)

    bs : List ℕ
    bs = superblock_bytes b ++ r

    flat : bs ≡ b.name ++ inner
    flat =
        append_assoc b.name (b.inode_freelist ++ b.datablock_freelist) r
        ∙ ap (λ t. b.name ++ t) (append_assoc b.inode_freelist b.datablock_freelist r)

    name : take 8 bs ≡ b.name
    name = ap (take 8) flat ∙ take-append 8 b.name inner h.name_size

    inode_freelist : take 8 (drop 8 bs) ≡ b.inode_freelist
    inode_freelist =
        ap (λ t. take 8 (drop 8 t)) flat
        ∙ ap (take 8) (drop-append 8 b.name inner h.name_size)
        ∙ take-append 8 b.inode_freelist (b.datablock_freelist ++ r) h.inodes_size

    datablock_freelist : take 30 (drop 16 bs) ≡ b.datablock_freelist
    datablock_freelist =
        ap (λ t. take 30 (drop 16 t)) flat
        ∙ ap (take 30) (
            drop-append₂ 16 b.name b.inode_freelist (b.datablock_freelist ++ r)
              (omega (arith, h.name_size, h.inodes_size)))
        ∙ take-append 30 b.datablock_freelist r h.datablocks_size
