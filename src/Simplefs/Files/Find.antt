-- ===== src/Simplefs/Files/Find.antt =====
-- The search for a name that create, delete and open share.
use operating_systems_labwor.Base.{
  ℕ, zero, suc, ◌+◌, ◌<◌, ◌≤◌, ◌≡◌, ◌≢◌, refl, sym, ◌∙◌, ◌⊎◌, inl, inr, Bool, true, false, none,
  some, List, arith, Option-cases, ℕ_discrete,
}
use operating_systems_labwor.Simplefs.Codec.{Inode}
use operating_systems_labwor.Simplefs.State.{State, done}
use operating_systems_labwor.Simplefs.Disk.{inode_free, inode_in_use}
use operating_systems_labwor.Simplefs.Disk.Views.{inode_at}
use operating_systems_labwor.Simplefs.Disk.Calls.{read_inode-done}
use operating_systems_labwor.Simplefs.Files.{in_use, strcmp_eq, names, find_file, blank}
use operating_systems_labwor.Simplefs.Files.Names.{
  IsText, strcmp_eq-stops, strcmp_eq-Holds, Holds-strcmp_eq,
}
use operating_systems_labwor.Simplefs.Consistent.{IsConsistent, IsUsed, IsFile, NoFile}

names-free :
    (f : List ℕ) (x : Inode) (s : State) → x.status ≡ inode_free → names f x s ≡ done false s
unfolding names in_use
names-free f x s e = rw e

names-used :
    (f : List ℕ) (x : Inode) (s : State) (hit : Bool)
    → x.status ≡ inode_in_use
    → strcmp_eq x.name f ≡ some hit
    → names f x s ≡ done hit s
unfolding names in_use
names-used f x s hit e m = rw (e, m)

pub free≢in_use : inode_free ≢ inode_in_use
free≢in_use e = absurd (ground arith)

module _ (s : State) (c : IsConsistent s) (f : List ℕ) (text : IsText f) where
  names_used_lem :
      (i : ℕ)
      → i < 8
      → IsUsed s i
      → (hit : Bool) → strcmp_eq (inode_at s i).name f ≡ some hit
      → ((names f (inode_at s i) s ≡ done true s) × IsFile s f i)
        ⊎ ((names f (inode_at s i) s ≡ done false s) × (¬ IsFile s f i))
  names_used_lem i l used true e = inl (
    names-used f (inode_at s i) s true used.0 e,
    record { index = l; used = used; name = strcmp_eq-Holds (inode_at s i).name f e },
  )
  names_used_lem i l used false e = inr (
    names-used f (inode_at s i) s false used.0 e,
    λ h. cc (e, Holds-strcmp_eq (inode_at s i).name f h.name),
  )

  -- The test of the loop at inode `i`.
  names_lem :
      (i : ℕ)
      → i < 8
      → ((names f (inode_at s i) s ≡ done true s) × IsFile s f i)
        ⊎ ((names f (inode_at s i) s ≡ done false s) × (¬ IsFile s f i))
  names_lem i l = elim (c.marks i l) [
    | inr free ↦
        inr (names-free f (inode_at s i) s free.0, λ h. free≢in_use (sym free.0 ∙ h.used.0))
    | inl used ↦ elim (Option-cases (strcmp_eq (inode_at s i).name f)) [
      | inl off ↦ absurd (strcmp_eq-stops (inode_at s i).name f (c.names i l used) text off)
      | inr (hit, e) ↦ names_used_lem i l used hit e
    ]
  ]

  -- The inode in the buffer when the loop ends without a hit.
  last_inode : ℕ → ℕ → Inode → Inode
  last_inode zero i x = x
  last_inode (suc n) i x = last_inode n (i + 1) (inode_at s i)

  find_file_from :
      (n i : ℕ) (x : Inode)
      → i + n ≡ 8
      → ((j : ℕ) × (find_file f n i x s ≡ done (some j, inode_at s j) s) × IsFile s f j)
        ⊎ ((find_file f n i x s ≡ done (none, last_inode n i x) s)
            × ((j : ℕ) → i ≤ j → ¬ IsFile s f j))
  unfolding find_file last_inode
  find_file_from zero i x e = inr (refl, λ j l h. absurd (omega (arith, h.index)))
  find_file_from (suc n) i x e = elim (names_lem i (omega arith)) [
    | inl (hit, h) ↦ inl (i, rw (read_inode-done s c.tables i (omega arith), hit), h)
    | inr (miss, h) ↦ elim (find_file_from n (i + 1) (inode_at s i) (omega arith)) [
      | inl (j, run, k) ↦ inl (j, rw (read_inode-done s c.tables i (omega arith), miss) run, k)
      | inr (run, k) ↦ inr (
        rw (read_inode-done s c.tables i (omega arith), miss) run,
        λ j l. elim (ℕ_discrete i j) [ yes here ↦ rw (← here) h | no on ↦ k j (omega arith) ],
      )
    ]
  ]

  -- The search finds the file with the name, or reads all eight inodes and finds that there is none.
  pub find_file_lem :
      ((j : ℕ) × (find_file f 8 0 blank s ≡ done (some j, inode_at s j) s) × IsFile s f j)
      ⊎ ((find_file f 8 0 blank s ≡ done (none, inode_at s 7) s) × NoFile s f)
  unfolding last_inode
  find_file_lem = elim (find_file_from 8 0 blank refl) [
    | inl hit ↦ inl hit
    | inr (run, k) ↦ inr (run, λ j. k j (omega arith))
  ]
