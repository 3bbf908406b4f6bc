-- ===== src/Simplefs/Transfer/Write.antt =====
-- The loop of `simplefs_write` changes the bytes of the file's blocks, and nothing else.
use operating_systems_labwor.Base.{
  ℕ, zero, suc, ◌+◌, ◌-◌, ◌*◌, ◌<◌, ◌≤◌, ◌≡◌, ◌≢◌, refl, sym, ap, ap₂, ◌∙◌, inl, inr, List, [], ◌∷◌,
  ◌++◌, arith, ltb, ==-ne, le→leb, Bool-cases, length, get_or, take, drop, ℤ, pos, negsuc,
  minus_one, length-take, length-drop,
}
use operating_systems_labwor.Simplefs.State.{State, Returns, Returns-mono}
use operating_systems_labwor.Simplefs.Disk.Views.{
  superblock_at, inode_at, block_at, put_block, HasTables, HasBlock, superblock_at-put_block,
  inode_at-put_block, block_at-put_block_self, block_at-put_block_ne, size-put_block,
}
use operating_systems_labwor.Simplefs.Disk.Calls.{read_data_block-done, write_data_block-done}
use operating_systems_labwor.Simplefs.Transfer.{splice, chunk, write_loop}
use operating_systems_labwor.Simplefs.Transfer.Content.{Ready, length-block_at}
use operating_systems_labwor.Simplefs.Transfer.Splice.{
  length-splice, splice-append_inside, splice-append_across,
}

-- The bytes of the first `k` entries, which are blocks.
unfoldable pub bytes_of : State → ℕ → List ℤ → List ℕ
bytes_of s zero bs = []
bytes_of s (suc k) [] = []
bytes_of s (suc k) (pos b ∷ bs) = block_at s b ++ bytes_of s k bs
bytes_of s (suc k) (negsuc _ ∷ bs) = []

-- Block `b` is none of the first `k` entries.
abbrev pub Absent : ℕ → ℕ → List ℤ → Type 0
Absent b k bs = (j : ℕ) → j < k → get_or bs j minus_one ≢ pos b

-- No block is there twice.
abbrev pub Distinct : ℕ → List ℤ → Type 0
Distinct zero bs = Unit
Distinct (suc k) [] = Unit
Distinct (suc k) (pos b ∷ bs) = Absent b k bs × Distinct k bs
Distinct (suc k) (negsuc _ ∷ bs) = Unit

-- From `s` to `t` the bytes of the first `k` blocks are overwritten from `off` on, and nothing else.
pub record IsWritten (s : State) (k : ℕ) (bs : List ℤ) (off : ℕ) (new : List ℕ) (t : State)
    : Type 0 where
  pub bytes : bytes_of t k bs ≡ splice (bytes_of s k bs) off new
  pub others : (b : ℕ) → HasBlock s b → Absent b k bs → block_at t b ≡ block_at s b
  pub inodes : (j : ℕ) → j < 8 → inode_at t j ≡ inode_at s j
  pub superblock : superblock_at t ≡ superblock_at s
  pub grown : s.disk.size ≤ t.disk.size
  pub handles : t.handles ≡ s.handles

pub Ready-grown :
    (s t : State) (k : ℕ) (bs : List ℤ) → s.disk.size ≤ t.disk.size → Ready s k bs → Ready t k bs
Ready-grown s t zero bs l r = tt
Ready-grown s t (suc k) [] l r = r
Ready-grown s t (suc k) (b ∷ bs) l ((i, e, small, here), r) =
    ((i, e, small, omega arith), Ready-grown s t k bs l r)

-- To write a block that is not there leaves the bytes.
bytes_of-put_block :
    (s : State) (k i : ℕ) (bs : List ℤ) (new : List ℕ)
    → length new ≡ 64
    → Absent i k bs
    → Ready s k bs
    → bytes_of (put_block i new s) k bs ≡ bytes_of s k bs
unfolding bytes_of
bytes_of-put_block s zero i bs new size none r = refl
bytes_of-put_block s (suc k) i [] new size none r = refl
bytes_of-put_block s (suc k) i (b ∷ bs) new size none ((j, e, small, here), r) = rw e (
    ap₂ (λ x y. x ++ y)
      (block_at-put_block_ne s i new size j (λ d. none 0 (omega arith) (e ∙ ap pos (sym d))) here)
      (bytes_of-put_block s k i bs new size (λ m l. none (suc m) (omega arith)) r))

splice-nothing : (xs : List ℕ) → splice xs 0 [] ≡ xs
unfolding splice
splice-nothing xs = refl

-- Nothing is written.
unwritten : (s : State) (k : ℕ) (bs : List ℤ) → IsWritten s k bs 0 [] s
unwritten s k bs = record {
  bytes = sym (splice-nothing (bytes_of s k bs));
  others = λ b h a. refl;
  inodes = λ j l. refl;
  superblock = refl;
  grown = omega arith;
  handles = refl;
}

module _ (s : State) (tables : HasTables s) (i k : ℕ) (bs : List ℤ) (block : List ℕ)
    (size : length block ≡ 64) (here : HasBlock s i) (r : Ready s k bs) (none : Absent i k bs) where
  -- One block is written, and then those behind it.
  IsWritten-cons :
      (off : ℕ) (new more : List ℕ) (t : State)
      → splice (block_at s i ++ bytes_of s k bs) off new ≡ block ++ splice (bytes_of s k bs) 0 more
      → IsWritten (put_block i block s) k bs 0 more t
      → IsWritten s (suc k) (pos i ∷ bs) off new t
  unfolding bytes_of put_block
  IsWritten-cons off new more t e w =
      let grown = size-put_block s i block size in
      record {
        bytes =
            ap₂ (λ x y. x ++ y)
              (w.others i (omega (arith, here)) none ∙ block_at-put_block_self s i block size)
              (w.bytes ∙ ap (λ x. splice x 0 more) (bytes_of-put_block s k i bs block size none r))
            ∙ sym e;
        others = λ b h a.
            w.others b (omega arith) (λ j l. a (suc j) (omega arith))
            ∙ block_at-put_block_ne s i block size b (λ d. a 0 (omega arith) (ap pos d)) h;
        inodes = λ j l. w.inodes j l ∙ inode_at-put_block s i block size j l tables;
        superblock = w.superblock ∙ superblock_at-put_block s i block size tables;
        grown = omega (arith, w.grown);
        handles = w.handles;
      }

-- From `off` in the first block on, the loop overwrites `left` bytes with the first of the buffer.
pub write_loop_lem :
    (k : ℕ) (s : State) (bs : List ℤ) (off left : ℕ) (buf : List ℕ)
    → HasTables s
    → Ready s k bs
    → Distinct k bs
    → off < 64
    → 0 < left
    → off + left ≤ 64 * k
    → left ≤ length buf
    → Returns (λ _ t. IsWritten s k bs off (take left buf) t) (write_loop bs off left buf s)
unfolding write_loop chunk
write_loop_lem zero s bs off left buf tables r d o p fits have = absurd (omega arith)
write_loop_lem (suc k) s [] off left buf tables r d o p fits have = absurd r
write_loop_lem (suc k) s (negsuc n ∷ bs) off left buf tables ((i, e, _, _), r) d o p fits have =
    absurd (ground arith)
write_loop_lem (suc k) s (pos i ∷ bs) off left buf tables ((j, e, small, at), r) (none, d) o p fits
      have =
    elim (Bool-cases (ltb 64 (off + left))) [
      | inl more ↦
          let a : ℕ = 64 - off in
          let rest : ℕ = left - (64 - off) in
          let block = splice old off (take (64 - off) buf) in
          let t = put_block i block s in
          let size : length block ≡ 64 = fill (64 - off) (ground arith) (ground arith) in
          let grown = size-put_block s i block size in
          rw
            (
              ==-ne left 0 (omega arith),
              read_data_block-done i s l here,
              more,
              le→leb (64 - off) (length buf) (ground arith),
              write_data_block-done i block s l,
            )
            (Returns-mono (write_loop bs 0 rest (drop (64 - off) buf) t)
              (write_loop_lem k t bs 0 rest (drop (64 - off) buf) (omega (arith, grown))
                (Ready-grown s t k bs (omega (arith, grown)) r) d (omega arith) (ground arith)
                (ground arith) (ground (arith, length-drop (64 - off) buf)))
              λ _ u w.
                IsWritten-cons s tables i k bs block size here r none off (take left buf)
                  (take rest (drop (64 - off) buf)) u (across (ground arith)) w)
      | inr last ↦
          let block = splice old off (take left buf) in
          let size : length block ≡ 64 = fill left (ground arith) have in
          rw
            (
              ==-ne left 0 (omega arith),
              read_data_block-done i s l here,
              last,
              le→leb left (length buf) have,
              write_data_block-done i block s l,
            )
            (IsWritten-cons s tables i k bs block size here r none off (take left buf) []
              (put_block i block s) (inside (ground arith)) (unwritten (put_block i block s) k bs))
    ]
  where
    same : j ≡ i
    same = ground (arith, e)

    l : i < 30
    l = omega (arith, same)

    here : HasBlock s i
    here = omega (arith, same)

    old : List ℕ
    old = block_at s i

    rest_bytes : List ℕ
    rest_bytes = bytes_of s k bs

    fill : (n : ℕ) → off + n ≤ 64 → n ≤ length buf → length (splice old off (take n buf)) ≡ 64
    fill n inside enough =
        length-splice old (take n buf) off (omega (arith, length-take n buf, length-block_at s i))
        ∙ length-block_at s i

    inside :
        off + left ≤ 64
        → splice (old ++ rest_bytes) off (take left buf)
          ≡ splice old off (take left buf) ++ splice rest_bytes 0 []
    inside last =
        splice-append_inside old rest_bytes (take left buf) off
          (omega (arith, length-take left buf, length-block_at s i))
        ∙ ap (λ x. splice old off (take left buf) ++ x) (sym (splice-nothing rest_bytes))

    across :
        64 < off + left
        → splice (old ++ rest_bytes) off (take left buf)
          ≡ splice old off (take (64 - off) buf)
            ++ splice rest_bytes 0 (take (left - (64 - off)) (drop (64 - off) buf))
    across more =
        ap (λ (n : ℕ). splice (old ++ rest_bytes) off (take n buf)) (omega arith)
        ∙ splice-append_across old rest_bytes buf off (64 - off) (left - (64 - off))
            (omega (arith, length-block_at s i)) (omega arith)
