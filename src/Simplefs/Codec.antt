-- ===== src/Simplefs/Codec.antt =====
-- The structures of simplefs-disk.h and their bytes on a little-endian machine with 4-byte `int`:
-- `memcpy` moves a structure to and from such bytes. No structure has padding.
pub mod Roundtrip
use operating_systems_labwor.Base.{
  ℕ, zero, suc, ◌+◌, ◌-◌, ◌*◌, ◌/◌, ◌%◌, ◌^◌, ◌<◌, ◌≡◌, refl, ap, ap₂, List, [], ◌∷◌, ◌++◌, arith,
  ltb, if◌then◌else◌, length, take, drop, take-append, drop-append, length-append, ℤ, pos, negsuc,
  InInt, take-length,
}

-- `struct superblock_t`; a character is its code.
pub record Superblock : Type 0 where
  pub name : List ℕ
  pub inode_freelist : List ℕ
  pub datablock_freelist : List ℕ

-- `struct inode_t`.
pub record Inode : Type 0 where
  pub status : ℤ
  pub name : List ℕ
  pub file_size : ℤ
  pub direct_blocks : List ℤ

-- The bit pattern of an `int`.
unfoldable pub pattern_of : ℤ → ℕ
pattern_of (pos n) = n % 2 ^ 32
pattern_of (negsuc n) = 2 ^ 32 - 1 - n % 2 ^ 32

unfoldable pub int_bytes : ℤ → List ℕ
int_bytes z =
    let p = pattern_of z in (p % 256) ∷ (p / 256 % 256) ∷ (p / 65536 % 256) ∷ (p / 16777216) ∷ []

-- The `int` of a bit pattern.
unfoldable pub signed : ℕ → ℤ
signed p = if ltb p (2 ^ 31) then pos p else negsuc (2 ^ 32 - 1 - p)

-- The `int` at the head of some bytes.
unfoldable pub int_of : List ℕ → ℤ
int_of (a ∷ b ∷ c ∷ d ∷ r) = signed (a + 256 * b + 65536 * c + 16777216 * d)
int_of _ = pos 0

unfoldable pub ints_bytes : List ℤ → List ℕ
ints_bytes [] = []
ints_bytes (z ∷ zs) = int_bytes z ++ ints_bytes zs

unfoldable pub ints_of : ℕ → List ℕ → List ℤ
ints_of zero bs = []
ints_of (suc n) bs = int_of bs ∷ ints_of n (drop 4 bs)

-- `memcpy(tempBuf, inodeptr, sizeof(struct inode_t))`.
unfoldable pub inode_bytes : Inode → List ℕ
inode_bytes x =
    int_bytes x.status ++ (x.name ++ (int_bytes x.file_size ++ ints_bytes x.direct_blocks))

-- `memcpy(inodeptr, tempBuf, sizeof(struct inode_t))`.
unfoldable pub inode_of : List ℕ → Inode
inode_of bs = record {
  status = int_of bs;
  name = take 8 (drop 4 bs);
  file_size = int_of (drop 12 bs);
  direct_blocks = ints_of 4 (drop 16 bs);
}

-- `memcpy(tempBuf, superblock, sizeof(struct superblock_t))`.
unfoldable pub superblock_bytes : Superblock → List ℕ
superblock_bytes b = b.name ++ (b.inode_freelist ++ b.datablock_freelist)

unfoldable pub superblock_of : List ℕ → Superblock
superblock_of bs = record {
  name = take 8 bs;
  inode_freelist = take 8 (drop 8 bs);
  datablock_freelist = take 30 (drop 16 bs);
}
