-- ===== src/Simplefs/Files/Fresh.antt =====
-- A formatted disk satisfies the invariant.
use operating_systems_labwor.Base.{
  ℕ, zero, suc, ◌<◌, ◌≡◌, refl, sym, ap, ◌∙◌, inl, inr, arith, length, get_or, replicate, minus_one,
}
use operating_systems_labwor.Simplefs.State.{State, Returns, Returns-mono}
use operating_systems_labwor.Simplefs.Disk.{free_mark, format_disk, closed}
use operating_systems_labwor.Simplefs.Disk.Format.{IsEmptyDisk, format_disk_lem}
use operating_systems_labwor.Simplefs.Files.Find.{free≢in_use}
use operating_systems_labwor.Simplefs.Consistent.{
  none_at, IsConsistent, IsUsed, IsUnused, entry, AllHandles, IsOpenHandle,
}

get_or-replicate : (n i m : ℕ) → i < n → get_or (replicate n m) i 0 ≡ m
get_or-replicate zero i m l = elim l [ ]
get_or-replicate (suc n) zero m l = refl
get_or-replicate (suc n) (suc i) m l = get_or-replicate n i m (omega arith)

closed-AllHandles : (n : ℕ) → AllHandles IsOpenHandle (replicate n closed)
closed-AllHandles zero = tt
closed-AllHandles (suc n) = ((omega arith, inl refl), closed-AllHandles n)

module _ (s : State) (e : IsEmptyDisk s) where
  unused : (i : ℕ) → i < 8 → IsUnused s i
  unused i l = (
    (e.inodes i l).0,
    ap (λ b. get_or b.inode_freelist i 0) e.superblock ∙ get_or-replicate 8 i free_mark l,
  )

  not-IsUsed : (i : ℕ) → i < 8 → ¬ IsUsed s i
  not-IsUsed i l u = free≢in_use (sym (unused i l).0 ∙ u.0)

  no_entry : (i j : ℕ) → i < 8 → entry s i j ≡ minus_one
  no_entry i j l = ap (λ bs. get_or bs j minus_one) (e.inodes i l).2 ∙ none_at j

  pub IsEmptyDisk-IsConsistent : IsConsistent s
  IsEmptyDisk-IsConsistent = record {
    tables = omega (arith, e.size);
    marks = λ i l. inr (unused i l);
    names = λ i l u. absurd (not-IsUsed i l u);
    unique = λ i j f li lj t ui uj hi hj. absurd (not-IsUsed i li ui);
    sizes = λ i l. (0, (e.inodes i l).1, omega arith);
    blocks = λ i j l m. inl (no_entry i j l);
    separate = λ i j k l b li lj lk ll at at'. cc (no_entry i j li, at);
    covered = λ i j n l m size lt. absurd (ground (arith, (e.inodes i l).1));
    dense = λ i j k l lt m none. no_entry i k l;
    handle_count = ap length e.handles;
    handles = rw e.handles (closed-AllHandles 20);
  }

-- The invariant holds after `simplefs_formatDisk`, in whatever state it is called.
pub format_disk-IsConsistent : (s : State) → Returns (λ _ t. IsConsistent t) (format_disk s)
format_disk-IsConsistent s =
    Returns-mono (format_disk s) (format_disk_lem s) λ _ t e. IsEmptyDisk-IsConsistent t e
