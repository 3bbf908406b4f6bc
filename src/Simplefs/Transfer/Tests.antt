-- ===== src/Simplefs/Transfer/Tests.antt =====
-- A file of ten bytes, and the theorem on write at it.
use operating_systems_labwor.Base.{
  ℕ, zero, suc, ◌*◌, ◌<◌, ◌≤◌, ◌≡◌, ◌≢◌, refl, sym, ap, subst, ◌∙◌, ◌⊎◌, inl, inr, List, ◌∷◌, pos,
  minus_one, replicate, get_or, arith, take, length,
}
use operating_systems_labwor.Simplefs.State.{State, done, Returns}
use operating_systems_labwor.Simplefs.Disk.{closed}
use operating_systems_labwor.Simplefs.Disk.Views.{inode_at, HasTables}
use operating_systems_labwor.Simplefs.Files.Find.{free≢in_use}
use operating_systems_labwor.Simplefs.Files.Names.{IsTerminated}
use operating_systems_labwor.Simplefs.Consistent.{
  IsConsistent, IsUsed, IsUnused, IsOwned, IsOpenHandle, AllHandles, entry, none_at,
}
use operating_systems_labwor.Simplefs.Transfer.{read_file, write_file}
use operating_systems_labwor.Simplefs.Transfer.Overwrite.{IsOverwritten}
use operating_systems_labwor.Simplefs.Transfer.InPlace.{write_file_lem}
use operating_systems_labwor.Simplefs.Transfer.ReadBack.{read_file-write_file}
use operating_systems_labwor.Simplefs.Transfer.Refused.{write_file-refused}
use operating_systems_labwor.Simplefs.Tests.{
  state_after, file_system, empty, one_file, opened, opened-IsConsistent,
}

abbrev text : List ℕ
text = replicate 10 b'q'

with_text : State
with_text = state_after (write_file (pos 0) text (pos 10) opened)

-- Inode 0 has one block.
first_inode :
    IsUsed with_text 0
    × ((inode_at with_text 0).file_size ≡ pos 10)
    × ((inode_at with_text 0).direct_blocks ≡ pos 0 ∷ replicate 3 minus_one)
    × IsTerminated (inode_at with_text 0).name
unfolding with_text opened one_file empty file_system
first_inode = ((refl, refl), refl, refl, inr (inl refl))

first_block : IsOwned with_text 0
unfolding with_text opened one_file empty file_system
first_block = (omega arith, refl, omega arith)

IsEmpty : ℕ → Type 0
IsEmpty i =
    IsUnused with_text i
    × ((inode_at with_text i).file_size ≡ pos 0)
    × ((inode_at with_text i).direct_blocks ≡ replicate 4 minus_one)

other_inodes : (i : ℕ) → i < 7 → IsEmpty (suc i)
unfolding with_text opened one_file empty file_system IsEmpty
other_inodes zero l = ((refl, refl), refl, refl)
other_inodes (suc zero) l = ((refl, refl), refl, refl)
other_inodes (suc (suc zero)) l = ((refl, refl), refl, refl)
other_inodes (suc (suc (suc zero))) l = ((refl, refl), refl, refl)
other_inodes (suc (suc (suc (suc zero)))) l = ((refl, refl), refl, refl)
other_inodes (suc (suc (suc (suc (suc zero))))) l = ((refl, refl), refl, refl)
other_inodes (suc (suc (suc (suc (suc (suc zero)))))) l = ((refl, refl), refl, refl)
other_inodes (suc (suc (suc (suc (suc (suc (suc n))))))) l = absurd (omega arith)

same_handles : with_text.handles ≡ opened.handles
unfolding with_text opened one_file empty file_system
same_handles = refl

first_handle :
    ((get_or with_text.handles 0 closed).offset ≡ 0)
    × ((get_or with_text.handles 0 closed).inode_number ≡ pos 0)
unfolding with_text opened one_file empty file_system
first_handle = (refl, refl)

has_tables : HasTables with_text
unfolding with_text opened one_file empty file_system
has_tables = omega arith

only_first : (i : ℕ) → i < 8 → IsUsed with_text i → i ≡ 0
unfolding IsEmpty
only_first zero l used = refl
only_first (suc i) l used = absurd (free≢in_use (sym (other_inodes i (omega arith)).0.0 ∙ used.0))

first_entry : entry with_text 0 0 ≡ pos 0
first_entry = rw first_inode.2 refl

-- The first entry of inode 0 is the only block.
entry_lem :
    (i j : ℕ)
    → i < 8
    → ((i ≡ 0) × (j ≡ 0) × (entry with_text i j ≡ pos 0)) ⊎ (entry with_text i j ≡ minus_one)
unfolding IsEmpty
entry_lem zero zero l = inl (refl, refl, first_entry)
entry_lem zero (suc j) l = inr (rw first_inode.2 (none_at (suc j)))
entry_lem (suc i) j l = inr (rw (other_inodes i (omega arith)).2 (none_at j))

with_text-IsConsistent : IsConsistent with_text
unfolding IsEmpty
with_text-IsConsistent = record {
  tables = has_tables;
  marks = marks_of;
  names = λ i l used.
      subst (λ (a : ℕ). IsTerminated (inode_at with_text a).name) (sym (only_first i l used))
        first_inode.3;
  unique = λ i j f l m t u v h k. only_first i l u ∙ sym (only_first j m v);
  sizes = sizes_of;
  blocks =
      λ i j l m. elim (entry_lem i j l) [ inl (_, _, e) ↦ inr (0, e, first_block) | inr e ↦ inl e ];
  separate = λ i j k n b li lj lk ln e d. elim (entry_lem i j li) [
    | inr none ↦ absurd (ground (arith, none, e))
    | inl (i0, j0, _) ↦ elim (entry_lem k n lk) [
      | inr none ↦ absurd (ground (arith, none, d))
      | inl (k0, n0, _) ↦ (omega arith, omega arith)
    ]
  ];
  covered = covered_of;
  dense = λ i j k l m n e. elim (entry_lem i k l) [
    | inl (_, k0, _) ↦ absurd (omega arith)
    | inr none ↦ none
  ];
  handle_count = ap length same_handles ∙ opened-IsConsistent.handle_count;
  handles = subst (AllHandles IsOpenHandle) (sym same_handles) opened-IsConsistent.handles;
}
  where
    marks_of : (i : ℕ) → i < 8 → IsUsed with_text i ⊎ IsUnused with_text i
    marks_of zero l = inl first_inode.0
    marks_of (suc i) l = inr (other_inodes i (omega arith)).0

    sizes_of : (i : ℕ) → i < 8 → (n : ℕ) × ((inode_at with_text i).file_size ≡ pos n) × (n ≤ 256)
    sizes_of zero l = (10, first_inode.1, omega arith)
    sizes_of (suc i) l = (0, (other_inodes i (omega arith)).1, omega arith)

    covered_of :
        (i j n : ℕ)
        → i < 8
        → j < 4
        → (inode_at with_text i).file_size ≡ pos n
        → j * 64 < n
        → entry with_text i j ≢ minus_one
    covered_of zero zero n l m e p none = absurd (ground (arith, none, first_entry))
    covered_of zero (suc j) n l m e p none = absurd (ground (arith, first_inode.1, e))
    covered_of (suc i) j n l m e p none =
        absurd (ground (arith, (other_inodes i (omega arith)).1, e))

write_file_lem_example :
    Returns
      (λ r t.
        (r ≡ pos 0)
        × IsOverwritten with_text 0
            (get_or with_text.handles 0 closed).offset
            (take 3 (replicate 3 b'z'))
            t)
      (write_file (pos 0) (replicate 3 b'z') (pos 3) with_text)
write_file_lem_example =
    write_file_lem with_text with_text-IsConsistent 0 0 10 3 (replicate 3 b'z') (omega arith)
      (omega arith) first_handle.1 first_inode.0 first_inode.1 (omega arith)
      (omega (arith, first_handle.0)) (omega arith)

write_file-refused_example : write_file (pos 0) text (pos 257) with_text ≡ done minus_one with_text
write_file-refused_example =
    write_file-refused with_text with_text-IsConsistent 0 257 text (omega arith) (omega arith)
      (inr (omega (arith, first_handle.0), omega (arith, first_handle.0)))

read_file-write_file_example :
    Returns
      (λ _ t.
        IsConsistent t × (read_file (pos 0) (pos 3) t ≡ done (pos 0, take 3 (replicate 3 b'z')) t))
      (write_file (pos 0) (replicate 3 b'z') (pos 3) with_text)
read_file-write_file_example =
    read_file-write_file with_text with_text-IsConsistent 0 0 10 3 (replicate 3 b'z') (omega arith)
      (omega arith) first_handle.1 first_inode.0 first_inode.1 (omega arith)
      (omega (arith, first_handle.0)) (omega arith)
