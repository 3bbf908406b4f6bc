-- ===== src/Simplefs/Transfer/ReadBack.antt =====
-- What `simplefs_write` has written inside a file `simplefs_read` reads back.
use operating_systems_labwor.Base.{
  ℕ, ◌+◌, ◌/◌, ◌<◌, ◌≤◌, ◌≡◌, refl, sym, ap, subst, ◌∙◌, inl, inr, List, ◌++◌, arith, length,
  get_or, take, drop, pos, minus_one, length-take, drop-append, take-append,
}
use operating_systems_labwor.Simplefs.State.{
  State, Out, done, aborted, fault, Returns, Returns-mono,
}
use operating_systems_labwor.Simplefs.Disk.{closed}
use operating_systems_labwor.Simplefs.Disk.Views.{superblock_at, inode_at}
use operating_systems_labwor.Simplefs.Disk.Alloc.{inodes}
use operating_systems_labwor.Simplefs.Files.Names.{Holds, IsTerminated}
use operating_systems_labwor.Simplefs.Files.Seek.{here}
use operating_systems_labwor.Simplefs.Consistent.{
  IsConsistent, IsUsed, IsOpenHandle, AllHandles, entry,
}
use operating_systems_labwor.Simplefs.Transfer.{splice, read_file, write_file}
use operating_systems_labwor.Simplefs.Transfer.Content.{contents, needed-Ready}
use operating_systems_labwor.Simplefs.Transfer.Overwrite.{
  data_of-bytes_of, contents-bytes_of, IsOverwritten,
}
use operating_systems_labwor.Simplefs.Transfer.Write.{bytes_of}
use operating_systems_labwor.Simplefs.Transfer.InPlace.{write_file_lem}
use operating_systems_labwor.Simplefs.Transfer.Read.{read_file_lem}

-- The bytes that were put in.
take-drop-splice :
    (old new : List ℕ) (off n : ℕ)
    → off ≤ length old
    → length new ≡ n
    → take n (drop off (splice old off new)) ≡ new
unfolding splice
take-drop-splice old new off n l size =
    let behind = new ++ drop (off + length new) old in
    ap (take n) (drop-append off (take off old) behind (omega (arith, length-take off old)))
    ∙ take-append n new (drop (off + length new) old) size

length-contents :
    (s : State) (c : IsConsistent s) (i size : ℕ)
    → i < 8
    → (inode_at s i).file_size ≡ pos size
    → length (contents s i) ≡ size
length-contents s c i size l sized =
    let (other, e, small) = c.sizes i l in
    let same : other ≡ size = ground (arith, e, sized) in
    let k : ℕ = (size + 63) / 64 in
    let r = needed-Ready s c i size k l sized (omega arith) (omega arith) in
    let bytes = bytes_of s k (inode_at s i).direct_blocks in
    ap length (contents-bytes_of s i k size r sized (omega arith))
    ∙ omega (arith, length-take size bytes, (data_of-bytes_of s k (inode_at s i).direct_blocks r).0)

-- The invariant speaks of the superblock, the inodes, the handles and the size of the disk file only.
module _ (s t : State) (c : IsConsistent s) (super : superblock_at t ≡ superblock_at s)
    (inode : (i : ℕ) → i < 8 → inode_at t i ≡ inode_at s i) (open_files : t.handles ≡ s.handles)
    (grown : s.disk.size ≤ t.disk.size) where
  IsUsed-before : (i : ℕ) → i < 8 → IsUsed t i → IsUsed s i
  IsUsed-before i l (status, mark) = (
    ap (λ x. x.status) (sym (inode i l)) ∙ status,
    ap (λ b. get_or b.inode_freelist i 0) (sym super) ∙ mark,
  )

  status_after : (i : ℕ) → i < 8 → (inode_at t i).status ≡ (inode_at s i).status
  status_after i l = ap (λ x. x.status) (inode i l)

  mark_after : (i : ℕ) → get_or (inodes t) i 0 ≡ get_or (inodes s) i 0
  mark_after i = ap (λ b. get_or b.inode_freelist i 0) super

  same_entry : (i j : ℕ) → i < 8 → entry s i j ≡ entry t i j
  same_entry i j l = ap (λ x. get_or x.direct_blocks j minus_one) (sym (inode i l))

  unchanged-IsConsistent : IsConsistent t
  unchanged-IsConsistent = record {
    tables = omega (arith, c.tables);
    marks = λ i l. elim (c.marks i l) [
      | inl (status, mark) ↦ inl (status_after i l ∙ status, mark_after i ∙ mark)
      | inr (status, mark) ↦ inr (status_after i l ∙ status, mark_after i ∙ mark)
    ];
    names = λ i l used.
        subst (λ x. IsTerminated x.name) (sym (inode i l)) (c.names i l (IsUsed-before i l used));
    unique = λ i j f l m text u v h k.
        c.unique i j f l m text (IsUsed-before i l u) (IsUsed-before j m v)
          (subst (λ x. Holds x.name f) (inode i l) h) (subst (λ x. Holds x.name f) (inode j m) k);
    sizes = λ i l. let (n, e, le) = c.sizes i l in (n, ap (λ x. x.file_size) (inode i l) ∙ e, le);
    blocks = λ i j l m. elim (c.blocks i j l m) [
      | inl e ↦ inl (sym (same_entry i j l) ∙ e)
      | inr (b, e, (small, mark, there)) ↦ inr (
        b,
        sym (same_entry i j l) ∙ e,
        (small, ap (λ x. get_or x.datablock_freelist b 0) super ∙ mark, omega arith),
      )
    ];
    separate = λ i j k n b li lj lk ln e d.
        c.separate i j k n b li lj lk ln (same_entry i j li ∙ e) (same_entry k n lk ∙ d);
    covered = λ i j n l m e p none.
        c.covered i j n l m (ap (λ x. x.file_size) (sym (inode i l)) ∙ e) p
          (same_entry i j l ∙ none);
    dense = λ i j k l m n e. sym (same_entry i k l) ∙ c.dense i j k l m n (same_entry i j l ∙ e);
    handle_count = ap length open_files ∙ c.handle_count;
    handles = subst (AllHandles IsOpenHandle) (sym open_files) c.handles;
  }

Returns-done :
    {A : Type 0} (x : A) (s : State) (o : Out A)
    → Returns (λ a t. (t ≡ s) × (a ≡ x)) o
    → o ≡ done x s
Returns-done x s (done a t) (e, d) = rw (e, d) refl
Returns-done x s aborted h = absurd h
Returns-done x s fault h = absurd h

-- After `simplefs_write` of `nbytes` bytes, more than none, inside an open file the invariant holds, and
-- `simplefs_read` of as many bytes through the same handle returns 0 and the bytes that were written,
-- and changes nothing. The buffer has that many bytes. The state satisfies the invariant.
pub read_file-write_file :
    (s : State) (c : IsConsistent s) (h i size n : ℕ) (buf : List ℕ) (l : h < 20)
    → i < 8
    → (here s c h l).inode_number ≡ pos i
    → IsUsed s i
    → (inode_at s i).file_size ≡ pos size
    → 0 < n
    → (here s c h l).offset + n ≤ size
    → n ≤ length buf
    → Returns
        (λ _ t. IsConsistent t × (read_file (pos h) (pos n) t ≡ done (pos 0, take n buf) t))
        (write_file (pos h) buf (pos n) s)
read_file-write_file s c h i size n buf l li file used sized positive inside enough =
    Returns-mono (write_file (pos h) buf (pos n) s)
      (write_file_lem s c h i size n buf l li file used sized positive inside enough)
      λ r t (_, w). (consistent t w, reads t w)
  where
    o : ℕ
    o = (here s c h l).offset

    consistent : (t : State) → IsOverwritten s i o (take n buf) t → IsConsistent t
    consistent t w = unchanged-IsConsistent s t c w.superblock w.inodes w.handles w.grown

    small : size ≤ 256
    small = let (other, e, le) = c.sizes i li in ground (arith, e, sized)

    reads :
        (t : State)
        → IsOverwritten s i o (take n buf) t
        → read_file (pos h) (pos n) t ≡ done (pos 0, take n buf) t
    reads t w =
        let ct = consistent t w in
        let off : (here t ct h l).offset ≡ o = ap (λ hs. (get_or hs h closed).offset) w.handles in
        Returns-done (pos 0, take n buf) t (read_file (pos h) (pos n) t)
          (Returns-mono (read_file (pos h) (pos n) t)
            (read_file_lem t ct h i size n l li
              (ap (λ hs. (get_or hs h closed).inode_number) w.handles ∙ file)
              (
                ap (λ x. x.status) (w.inodes i li) ∙ used.0,
                ap (λ b. get_or b.inode_freelist i 0) w.superblock ∙ used.1,
              )
              (ap (λ x. x.file_size) (w.inodes i li) ∙ sized) positive (omega (arith, off, small)))
            λ r u (same, result). elim result [
              | inl (past, _) ↦ absurd (omega (arith, off))
              | inr (_, e) ↦ (
                same,
                e
                    ∙ ap (λ bs. (pos 0, bs))
                        (ap (λ (a : ℕ). take n (drop a (contents t i))) off
                          ∙ ap (λ x. take n (drop o x)) w.file
                          ∙ take-drop-splice (contents s i) (take n buf) o n
                              (omega (arith, length-contents s c i size li sized))
                              (omega (arith, length-take n buf))),
              )
            ])
