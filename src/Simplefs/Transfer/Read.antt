-- ===== src/Simplefs/Transfer/Read.antt =====
-- `simplefs_read` returns the bytes of the file from the offset on.
use operating_systems_labwor.Base.{
  ℕ, zero, suc, ◌+◌, ◌-◌, ◌*◌, ◌/◌, ◌%◌, ◌^◌, ◌<◌, ◌≤◌, ◌≡◌, refl, sym, ap, ◌∙◌, ◌⊎◌, inl, inr,
  List, [], ◌∷◌, ◌++◌, arith, append_assoc, false, ltb, ==-ne, lt→ltb, Bool-cases, length, take,
  drop, ℤ, pos, length-drop, drop-append_le, take-append_ge, take-append_le, drop-drop,
  take-drop-take,
}
use operating_systems_labwor.Simplefs.State.{Handle, State, done, Returns}
use operating_systems_labwor.Simplefs.Disk.{inode_in_use}
use operating_systems_labwor.Simplefs.Disk.Views.{inode_at, block_at}
use operating_systems_labwor.Simplefs.Disk.Calls.{read_inode-done, read_data_block-done}
use operating_systems_labwor.Simplefs.Codec.{Inode}
use operating_systems_labwor.Simplefs.Files.Seek.{here, handle_at-done}
use operating_systems_labwor.Simplefs.Consistent.{IsConsistent, IsUsed}
use operating_systems_labwor.Simplefs.Transfer.{
  is_free, read_loop, read_positive, read_file, failed,
}
use operating_systems_labwor.Simplefs.Transfer.Content.{
  data_of, contents, length-block_at, Ready, Ready-drop, data_of-drop, needed-Ready,
}

-- From `off` in the first block on, the loop copies `left` bytes of the blocks.
read_loop_lem :
    (s : State) (k : ℕ) (bs : List ℤ) (off left : ℕ) (out : List ℕ)
    → Ready s k bs
    → off < 64
    → 0 < left
    → off + left ≤ 64 * k
    → read_loop bs off left out s ≡ done (out ++ take left (drop off (data_of s bs))) s
unfolding read_loop data_of
read_loop_lem s zero bs off left out r o p fits = absurd (omega arith)
read_loop_lem s (suc k) [] off left out r o p fits = absurd r
read_loop_lem s (suc k) (b ∷ bs) off left out ((i, at, small, here), r) o p fits =
    elim (Bool-cases (ltb 64 (off + left))) [
      | inl more ↦
          rw (at, ==-ne left 0 (omega arith), read_data_block-done i s small here, more)
            (read_loop_lem s k bs 0 (left - (64 - off)) (out ++ drop off (block_at s i)) r
                (omega arith) (ground arith) (omega arith)
              ∙ ap (λ a. done a s) (sym (joined (ground arith))))
      | inr last ↦
          rw (at, ==-ne left 0 (omega arith), read_data_block-done i s small here, last)
            (ap (λ a. done (out ++ a) s) (sym (cut (ground arith))))
    ]
  where
    old : List ℕ
    old = block_at s i

    rest : List ℕ
    rest = data_of s bs

    size : length (drop off old) ≡ 64 - off
    size = omega (arith, length-drop off old, length-block_at s i)

    joined :
        64 < off + left
        → out ++ take left (drop off (old ++ rest))
          ≡ (out ++ drop off old) ++ take (left - (64 - off)) rest
    joined more =
        ap (λ a. out ++ take left a)
          (drop-append_le off old rest (omega (arith, length-block_at s i)))
        ∙ ap (λ a. out ++ a) (take-append_ge left (drop off old) rest (omega (arith, size)))
        ∙ ap (λ (n : ℕ). out ++ (drop off old ++ take (left - n) rest)) size
        ∙ sym (append_assoc out (drop off old) (take (left - (64 - off)) rest))

    cut : off + left ≤ 64 → take left (drop off (old ++ rest)) ≡ take left (drop off old)
    cut last =
        ap (take left) (drop-append_le off old rest (omega (arith, length-block_at s i)))
        ∙ take-append_le left (drop off old) rest (omega (arith, size))

pub used-not_free : (x : Inode) → x.status ≡ inode_in_use → is_free x ≡ false
unfolding is_free
used-not_free x e = rw e

-- The outcomes of read on a file: past its end nothing is read, else the bytes from the offset on.
-- Neither changes the state.
abbrev pub Reads : State → ℕ → ℕ → ℕ → ℕ → ℤ × List ℕ → State → Type 0
Reads s i size offset n r t =
    (t ≡ s)
    × (((size < offset + n) × (r ≡ failed))
        ⊎ ((offset + n ≤ size) × (r ≡ (pos 0, take n (drop offset (contents s i))))))

module _ (s : State) (c : IsConsistent s) (i size o n : ℕ) (li : i < 8) (used : IsUsed s i)
    (sized : (inode_at s i).file_size ≡ pos size) (positive : 0 < n) where
  in_contents :
      o + n ≤ size
      → take n (drop o (contents s i)) ≡ take n (drop o (data_of s (inode_at s i).direct_blocks))
  unfolding contents
  in_contents fits =
      rw sized (take-drop-take n o size (data_of s (inode_at s i).direct_blocks) fits)

  loop_reads :
      o + n ≤ size
      → read_loop (drop (o / 64) (inode_at s i).direct_blocks) (o % 64) n [] s
        ≡ done (take n (drop o (contents s i))) s
  loop_reads fits =
      let (m, bound, le) = c.sizes i li in
      let same : m ≡ size = ground (arith, bound, sized) in
      let k : ℕ = (o + n + 63) / 64 in
      let bs = (inode_at s i).direct_blocks in
      let r = needed-Ready s c i size k li sized (omega arith) (omega arith) in
      let whole : 64 * (o / 64) + o % 64 ≡ o = omega arith in
      read_loop_lem s (k - o / 64) (drop (o / 64) bs) (o % 64) n []
        (Ready-drop s (o / 64) k (k - o / 64) bs (omega arith) r) (omega arith) positive
        (omega arith)
      ∙ ap (λ a. done (take n (drop (o % 64) a)) s)
          (data_of-drop s (o / 64) k (k - o / 64) bs (omega arith) r)
      ∙ ap (λ a. done (take n a) s) (drop-drop (64 * (o / 64)) (o % 64) (data_of s bs))
      ∙ ap (λ (a : ℕ). done (take n (drop a (data_of s bs))) s) whole
      ∙ ap (λ a. done a s) (sym (in_contents fits))

  read_positive_lem :
      (x : Handle)
      → x.offset ≡ o
      → x.inode_number ≡ pos i
      → o + n < 2 ^ 31
      → Returns (Reads s i size o n) (read_positive x n s)
  unfolding read_positive
  read_positive_lem x at file small = elim (Bool-cases (ltb size (o + n + 0))) [
    | inl past ↦
        rw
          (
            file,
            read_inode-done s c.tables i li,
            used-not_free (inode_at s i) used.0,
            at,
            lt→ltb (o + n) (2 ^ 31) small,
            sized,
            past,
          )
          (refl, inl (ground arith, refl))
    | inr inside ↦
        rw
          (
            file,
            read_inode-done s c.tables i li,
            used-not_free (inode_at s i) used.0,
            at,
            lt→ltb (o + n) (2 ^ 31) small,
            sized,
            inside,
            loop_reads (ground arith),
          )
          (refl, inr (ground arith, refl))
  ]

-- `simplefs_read` of a positive number of bytes through an open handle returns -1 if they reach past
-- the end of the file, and else the bytes of the file from the offset on; it changes nothing. The
-- sum of the offset and the number must not overflow an `int`. The state satisfies the invariant.
pub read_file_lem :
    (s : State) (c : IsConsistent s) (h i size n : ℕ) (l : h < 20)
    → i < 8
    → (here s c h l).inode_number ≡ pos i
    → IsUsed s i
    → (inode_at s i).file_size ≡ pos size
    → 0 < n
    → (here s c h l).offset + n < 2 ^ 31
    → Returns (Reads s i size (here s c h l).offset n) (read_file (pos h) (pos n) s)
unfolding read_file
read_file_lem s c h i size n l li file used sized positive small =
    let x = here s c h l in
    rw (==-ne n 0 (omega arith), handle_at-done s c h l)
      (read_positive_lem s c i size x.offset n li used sized positive x refl file small)
