-- ===== src/Simplefs/FsMain/Reads.antt =====
-- labs/fs-main/simplefs-ops.c against CS236-Spring-2025-Labs/file-system/simplefs-ops.c: read.
use operating_systems_labwor.Base.{
  ℕ, zero, suc, ◌+◌, ◌-◌, ◌*◌, ◌/◌, ◌%◌, ◌^◌, ◌<◌, ◌≤◌, ◌≡◌, refl, ◌⊎◌, inl, inr, false, List, [],
  ◌∷◌, arith, ◌++◌, ltb, ◌==◌, ==-ne, lt→ltb, Bool-cases, length, length-drop, drop, ℤ, pos, negsuc,
  pos_part, neg_part,
}
use operating_systems_labwor.Simplefs.State.{Handle, State, Out, done, aborted, fault}
use operating_systems_labwor.Simplefs.Disk.{read_data_block}
use operating_systems_labwor.Simplefs.Disk.Views.{inode_at}
use operating_systems_labwor.Simplefs.Disk.Calls.{read_inode-done}
use operating_systems_labwor.Simplefs.Files.Handles.{get_or-AllHandles}
use operating_systems_labwor.Simplefs.Files.Seek.{here, handle_at-done}
use operating_systems_labwor.Simplefs.Consistent.{IsConsistent, IsOpenHandle}
use operating_systems_labwor.Simplefs.Transfer.{
  is_free, count_blocks, read_loop, read_positive, read_file, failed,
}
use operating_systems_labwor.Simplefs.Transfer.Content.{
  needed-Ready, count_blocks-le, count_blocks-Ready,
}
use operating_systems_labwor.Simplefs.FsMain.{read_blocks, read_through, read_bytes}

Out-cases :
    {A : Type 0} (o : Out A)
    → ((a : A) × (t : State) × (o ≡ done a t)) ⊎ (o ≡ aborted) ⊎ (o ≡ fault)
Out-cases (done a t) = inl (a, t, refl)
Out-cases aborted = inr (inl refl)
Out-cases fault = inr (inr refl)

-- The loops agree if the bytes that are left lie in the blocks that are counted.
read_blocks-read_loop :
    (m : ℕ) (bs : List ℤ) (off left : ℕ) (out : List ℕ) (s : State)
    → off < 64
    → off + left ≤ 64 * m
    → m ≤ length bs
    → read_blocks m bs off left out s ≡ read_loop bs off left out s
unfolding read_blocks read_loop
read_blocks-read_loop zero [] off left out s o fits le =
    let e : left ≡ 0 = ground arith in rw e refl
read_blocks-read_loop zero (b ∷ bs) off left out s o fits le =
    let e : left ≡ 0 = ground arith in rw e refl
read_blocks-read_loop (suc m) [] off left out s o fits le = absurd (omega arith)
read_blocks-read_loop (suc m) (b ∷ bs) off left out s o fits le = elim (Bool-cases (left == 0)) [
  | inl end ↦ rw end refl
  | inr on ↦ elim (Bool-cases (ltb 64 (off + left))) [
    | inr last ↦ rw (on, last) refl
    | inl more ↦ elim (Out-cases (read_data_block b s)) [
      | inr (inl e) ↦ rw (on, e) refl
      | inr (inr e) ↦ rw (on, e) refl
      | inl (a, t, e) ↦
          rw (on, e, more)
            (read_blocks-read_loop m bs 0 (left - (64 - off)) (out ++ drop off a) t (omega arith)
              (ground arith) (omega arith))
    ]
  ]
]

module _ (s : State) (c : IsConsistent s) (x : Handle) (o : IsOpenHandle x) where
  -- In the bounds of the file both loops read the same.
  loops-same :
      (i n size : ℕ)
      → i < 8
      → (inode_at s i).file_size ≡ pos size
      → x.offset + n ≤ size
      → (let bs = (inode_at s i).direct_blocks in
          read_blocks
            (count_blocks bs - x.offset / 64)
            (drop (x.offset / 64) bs)
            (x.offset % 64)
            n
            []
            s
          ≡ read_loop (drop (x.offset / 64) bs) (x.offset % 64) n [] s)
  loops-same i n size l e inside =
      let bs = (inode_at s i).direct_blocks in
      let (other, f, small) = c.sizes i l in
      let same : other ≡ size = ground (arith, f, e) in
      let k : ℕ = (size + 63) / 64 in
      let have =
        count_blocks-Ready s k bs (needed-Ready s c i size k l e (omega arith) (omega arith)) in
      read_blocks-read_loop (count_blocks bs - x.offset / 64) (drop (x.offset / 64) bs)
        (x.offset % 64) n [] s (omega arith) (omega (arith, have))
        (omega (arith, count_blocks-le bs, length-drop (x.offset / 64) bs))

  module _ (i : ℕ) (file : x.inode_number ≡ pos i) (l : i < 8)
      (used : is_free (inode_at s i) ≡ false) where
    same_bytes : (n : ℕ) → 0 < n → read_through x (pos n) s ≡ read_positive x n s
    unfolding read_through read_positive
    same_bytes n p =
        let (size, e, small) = c.sizes i l in
        let no_more : size + 0 ≡ size = omega arith in
        let reads = read_inode-done s c.tables i l in
        elim (Bool-cases (ltb (x.offset + n) (2 ^ 31))) [
          | inr over ↦ rw (file, reads, used, over) refl
          | inl fits ↦ elim (Bool-cases (ltb size (x.offset + n + 0))) [
            | inl past ↦ rw (file, reads, used, fits, e, no_more, past) refl
            | inr inside ↦
                rw
                  (
                    file,
                    reads,
                    used,
                    fits,
                    e,
                    no_more,
                    inside,
                    ==-ne n 0 (omega arith),
                    loops-same i n size l e (ground arith),
                  )
                  refl
          ]
        ]

    no_bytes : (z : ℤ) → pos_part z ≡ 0 → read_through x z s ≡ done failed s
    unfolding read_through
    no_bytes z none_read =
        let (size, e, small) = c.sizes i l in
        let near = lt→ltb (x.offset + 0) (2 ^ 31) (omega (arith, o.0)) in
        elim (Bool-cases (ltb (size + neg_part z) (x.offset + 0 + 0))) [
          | inl past ↦
              rw (file, read_inode-done s c.tables i l, used, none_read, near, e, past) refl
          | inr inside ↦
              rw (file, read_inode-done s c.tables i l, used, none_read, near, e, inside) refl
        ]

  read_through-read_positive : (n : ℕ) → 0 < n → read_through x (pos n) s ≡ read_positive x n s
  unfolding read_through read_positive
  read_through-read_positive n p = elim o.1 [
    | inl e ↦ rw e refl
    | inr (i, e, l) ↦ elim (Bool-cases (is_free (inode_at s i))) [
      | inl free ↦ rw (e, read_inode-done s c.tables i l, free) refl
      | inr used ↦ same_bytes i e l used n p
    ]
  ]

  read_through-failed : (z : ℤ) → pos_part z ≡ 0 → read_through x z s ≡ done failed s
  unfolding read_through
  read_through-failed z none_read = elim o.1 [
    | inl e ↦ rw e refl
    | inr (i, e, l) ↦ elim (Bool-cases (is_free (inode_at s i))) [
      | inl free ↦ rw (e, read_inode-done s c.tables i l, free) refl
      | inr used ↦ no_bytes i e l used z none_read
    ]
  ]

here-IsOpenHandle :
    (s : State) (c : IsConsistent s) (h : ℕ) (l : h < 20) → IsOpenHandle (here s c h l)
here-IsOpenHandle s c h l =
    get_or-AllHandles IsOpenHandle s.handles h c.handles (omega (arith, c.handle_count))

-- While the invariant holds, the read of the earlier course does what that of the later one does,
-- for every handle inside the array and every number of bytes.
pub read_bytes-read_file :
    (s : State) (h : ℕ) (nbytes : ℤ)
    → IsConsistent s
    → h < 20
    → read_bytes (pos h) nbytes s ≡ read_file (pos h) nbytes s
unfolding read_bytes read_file
read_bytes-read_file s h (negsuc k) c l =
    let valid = here-IsOpenHandle s c h l in
    rw (handle_at-done s c h l) (read_through-failed s c (here s c h l) valid (negsuc k) refl)
read_bytes-read_file s h (pos n) c l =
    let valid = here-IsOpenHandle s c h l in
    elim (Bool-cases (n == 0)) [
      | inl end ↦
          rw (end, handle_at-done s c h l)
            (read_through-failed s c (here s c h l) valid (pos n) (ground arith))
      | inr on ↦
          rw (on, handle_at-done s c h l)
            (read_through-read_positive s c (here s c h l) valid n (ground arith))
    ]
