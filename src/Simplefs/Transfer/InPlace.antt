-- ===== src/Simplefs/Transfer/InPlace.antt =====
-- `simplefs_write` of bytes that lie inside the file.
use operating_systems_labwor.Base.{
  ℕ, suc, ◌+◌, ◌-◌, ◌*◌, ◌/◌, ◌%◌, ◌^◌, ◌<◌, ◌≤◌, ◌≡◌, refl, sym, subst, inl, inr, some, List, [],
  ◌∷◌, arith, Bool, true, false, ◌&&◌, ltb, ◌==◌, ==-ne, lt→ltb, le→leb, length, get_or, take, drop,
  ℤ, pos, minus_one, InInt, pos_part, neg_part, length-take,
}
use operating_systems_labwor.Simplefs.Codec.Roundtrip.{IsInode, AllInt}
use operating_systems_labwor.Simplefs.State.{
  Handle, State, done, Returns, Returns-mono, Returns-bind,
}
use operating_systems_labwor.Simplefs.Disk.Views.{inode_at}
use operating_systems_labwor.Simplefs.Disk.Calls.{read_inode-done, write_inode-done}
use operating_systems_labwor.Simplefs.Disk.Alloc.{length-direct_blocks, length-name}
use operating_systems_labwor.Simplefs.Files.Seek.{here, handle_at-done}
use operating_systems_labwor.Simplefs.Consistent.{IsConsistent, IsUsed}
use operating_systems_labwor.Simplefs.Transfer.{
  count_blocks, at_new_block, extend, alloc_blocks, clear_blocks, attach, write_loop,
  blocks_required, subtraction_fits, write_extended, write_nonzero, write_file,
}
use operating_systems_labwor.Simplefs.Transfer.Content.{
  Ready, Ready-drop, needed-Ready, count_blocks-Ready, count_blocks-le,
}
use operating_systems_labwor.Simplefs.Transfer.Read.{used-not_free}
use operating_systems_labwor.Simplefs.Transfer.Write.{Distinct, IsWritten, write_loop_lem}
use operating_systems_labwor.Simplefs.Transfer.Overwrite.{
  Distinct_lem, Distinct-drop, IsWritten-drop, IsOverwritten, overwritten,
}

AllInt_lem : (zs : List ℤ) → ((j : ℕ) → j < length zs → InInt (get_or zs j minus_one)) → AllInt zs
AllInt_lem [] h = tt
AllInt_lem (z ∷ zs) h = (h 0 (omega arith), AllInt_lem zs (λ j l. h (suc j) (omega arith)))

used-IsInode : (s : State) (i : ℕ) → IsConsistent s → i < 8 → IsUsed s i → IsInode (inode_at s i)
used-IsInode s i c l used = record {
  name_size = length-name s i;
  blocks_size = length-direct_blocks s i;
  status_range = subst InInt (sym used.0) (omega arith);
  size_range = (let (n, e, small) = c.sizes i l in subst InInt (sym e) (omega arith));
  blocks_range = AllInt_lem (inode_at s i).direct_blocks λ j m.
      elim (c.blocks i j l (omega (arith, length-direct_blocks s i))) [
        | inl e ↦ subst InInt (sym e) (omega arith)
        | inr (b, e, o) ↦ subst InInt (sym e) (omega (arith, o.0))
      ];
}

and_false : (b : Bool) → (b && false) ≡ false
and_false true = refl
and_false false = refl

module _ (s : State) (c : IsConsistent s) (i size o n : ℕ) (buf : List ℕ) (l : i < 8)
    (used : IsUsed s i) (sized : (inode_at s i).file_size ≡ pos size) (positive : 0 < n)
    (inside : o + n ≤ size) (enough : n ≤ length buf) where
  abbrev blocks : List ℤ
  blocks = (inode_at s i).direct_blocks

  abbrev k : ℕ
  k = (size + 63) / 64

  bound : size ≤ 256
  bound = let (m, e, le) = c.sizes i l in ground (arith, e, sized)

  ready : Ready s k blocks
  ready = needed-Ready s c i size k l sized (omega (arith, bound)) (omega arith)

  distinct : Distinct k blocks
  distinct = Distinct_lem k blocks λ x y b p q e d.
      (c.separate i x i y b l (omega (arith, bound)) l (omega (arith, bound)) e d).1

  extend_none : extend o (inode_at s i) s ≡ done (some (inode_at s i, count_blocks blocks)) s
  unfolding extend at_new_block
  extend_none =
      rw (sized, ==-ne size o (omega arith), and_false (ltb (o / 64) 4), and_false (o % 64 == 0))
        refl

  none_required : blocks_required (count_blocks blocks) o (pos n) ≡ 0
  unfolding blocks_required
  none_required =
      let have = count_blocks-Ready s k blocks ready in
      let none : n + ((o / 64 + 1) * 64 + o % 64) - (0 + (count_blocks blocks * 64 + 64)) ≡ 0 =
        omega (arith, have) in
      rw none refl

  loop_writes :
      Returns
        (λ _ u. IsWritten s k blocks o (take n buf) u)
        (write_loop (drop (o / 64) blocks) (o % 64) n buf s)
  loop_writes =
      let split : k ≡ o / 64 + (k - o / 64) = omega arith in
      let whole : 64 * (o / 64) + o % 64 ≡ o = omega arith in
      Returns-mono (write_loop (drop (o / 64) blocks) (o % 64) n buf s)
        (write_loop_lem (k - o / 64) s (drop (o / 64) blocks) (o % 64) n buf c.tables
          (Ready-drop s (o / 64) k (k - o / 64) blocks split ready)
          (Distinct-drop s (o / 64) k (k - o / 64) blocks split ready distinct) (omega arith)
          positive (omega arith) enough)
        λ _ u w.
          subst (λ (a : ℕ). IsWritten s k blocks a (take n buf) u) whole
            (IsWritten-drop s (o / 64) k (k - o / 64) blocks (o % 64) (take n buf) u split ready
              distinct w)

  -- The size of the file stays.
  stays :
      ltb (pos_part (inode_at s i).file_size + 0) (o + n + neg_part (inode_at s i).file_size)
      ≡ false
  stays = rw sized (ground arith)

  write_extended_lem :
      Returns
        (λ r t. (r ≡ pos 0) × IsOverwritten s i o (take n buf) t)
        (write_extended i o (count_blocks blocks) (inode_at s i) buf (pos n) s)
  unfolding write_extended subtraction_fits alloc_blocks clear_blocks attach
  write_extended_lem =
      let few = count_blocks-le blocks in
      let fits : 0 + (count_blocks blocks * 64 + 64) ≤ 2 ^ 31 + ((o / 64 + 1) * 64 + o % 64) =
        omega (arith, few, length-direct_blocks s i) in
      rw
        (
          le→leb (0 + (count_blocks blocks * 64 + 64)) (2 ^ 31 + ((o / 64 + 1) * 64 + o % 64)) fits,
          none_required,
          le→leb (0 + count_blocks blocks) 4 (omega (arith, few, length-direct_blocks s i)),
        )
        (Returns-bind _ (write_loop (drop (o / 64) blocks) (o % 64) n buf s) _ loop_writes λ _ u w.
          rw (stays, write_inode-done i (inode_at s i) u l)
            (
              refl,
              overwritten s u i k size o (take n buf) c.tables l (used-IsInode s i c l used) ready
                  (omega (arith, bound)) sized (omega arith) (omega (arith, length-take n buf)) w,
            ))

  write_nonzero_lem :
      (x : Handle)
      → x.offset ≡ o
      → x.inode_number ≡ pos i
      → Returns
          (λ r t. (r ≡ pos 0) × IsOverwritten s i o (take n buf) t)
          (write_nonzero x buf (pos n) s)
  unfolding write_nonzero
  write_nonzero_lem x at file =
      let fits : ltb (4 * 64 + 0) (n + o) ≡ false = ground (arith, inside, bound) in
      rw
        (
          file,
          read_inode-done s c.tables i l,
          used-not_free (inode_at s i) used.0,
          at,
          lt→ltb (o + n) (2 ^ 31) (omega (arith, bound)),
          fits,
          extend_none,
          at,
        )
        write_extended_lem

-- `simplefs_write` of `nbytes` bytes, more than none, that lie inside an open file returns 0: the bytes
-- of the file from the offset on are those of the buffer, and all else on the disk and every handle
-- stay as they were. The buffer has that many bytes. The state satisfies the invariant.
pub write_file_lem :
    (s : State) (c : IsConsistent s) (h i size n : ℕ) (buf : List ℕ) (l : h < 20)
    → i < 8
    → (here s c h l).inode_number ≡ pos i
    → IsUsed s i
    → (inode_at s i).file_size ≡ pos size
    → 0 < n
    → (here s c h l).offset + n ≤ size
    → n ≤ length buf
    → Returns
        (λ r t. (r ≡ pos 0) × IsOverwritten s i (here s c h l).offset (take n buf) t)
        (write_file (pos h) buf (pos n) s)
unfolding write_file
write_file_lem s c h i size n buf l li file used sized positive inside enough =
    let x = here s c h l in
    rw (==-ne n 0 (omega arith), handle_at-done s c h l)
      (write_nonzero_lem s c i size x.offset n buf li used sized positive inside enough x refl file)
