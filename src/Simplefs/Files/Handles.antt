-- ===== src/Simplefs/Files/Handles.antt =====
-- `simplefs_open`, `simplefs_close` and `simplefs_seek`.
use operating_systems_labwor.Base.{
  ℕ, zero, suc, ◌<◌, ◌≤◌, ◌≡◌, ◌≢◌, refl, ap, ◌∙◌, ◌⊎◌, inl, inr, true, false, none, some, List, [],
  ◌∷◌, arith, Bool-cases, length, get_or, set, ℤ, pos, negsuc, minus_one, is_minus_one, length-set,
  get_elem?-eq-get_or, get_elem?-none,
}
use operating_systems_labwor.Simplefs.State.{Handle, State, done, fault, Returns, Returns-mono}
use operating_systems_labwor.Simplefs.Disk.{closed}
use operating_systems_labwor.Simplefs.Disk.Views.{inode_at, superblock_at}
use operating_systems_labwor.Simplefs.Files.{
  first_closed, open_found, open_file, handle_at, close_file,
}
use operating_systems_labwor.Simplefs.Files.Names.{IsText}
use operating_systems_labwor.Simplefs.Files.Find.{find_file_lem}
use operating_systems_labwor.Simplefs.Consistent.{
  IsConsistent, IsFile, NoFile, AllHandles, IsOpenHandle,
}

-- The state with other open files.
abbrev pub with_handles : State → List Handle → State
with_handles s hs = record s { handles = hs }

-- A handle for the start of inode `i`.
abbrev pub at_start : ℕ → Handle
at_start i = record { offset = 0; inode_number = pos i }

-- The invariant says of the open files only what is said of each, and their number.
pub with_handles-IsConsistent :
    (s : State) (hs : List Handle)
    → IsConsistent s
    → length hs ≡ 20
    → AllHandles IsOpenHandle hs
    → IsConsistent (with_handles s hs)
unfolding inode_at superblock_at
with_handles-IsConsistent s hs c n h = record {
  tables = c.tables;
  marks = c.marks;
  names = c.names;
  unique = c.unique;
  sizes = c.sizes;
  blocks = c.blocks;
  separate = c.separate;
  covered = c.covered;
  dense = c.dense;
  handle_count = n;
  handles = h;
}

-- Entry `h` is the first closed one.
abbrev pub FirstClosed : List Handle → ℕ → Type 0
FirstClosed hs h =
    (h < length hs)
    × ((get_or hs h closed).inode_number ≡ minus_one)
    × ((j : ℕ) → j < h → (get_or hs j closed).inode_number ≢ minus_one)

abbrev pub AllOpen : List Handle → Type 0
AllOpen hs = (j : ℕ) → j < length hs → (get_or hs j closed).inode_number ≢ minus_one

is_minus_one-eq : (z : ℤ) → is_minus_one z ≡ true → z ≡ minus_one
is_minus_one-eq (pos n) e = cc
is_minus_one-eq (negsuc n) e = ground arith

is_minus_one-ne : (z : ℤ) → is_minus_one z ≡ false → z ≢ minus_one
is_minus_one-ne z e h = absurd (ground (arith, ap is_minus_one h))

first_closed_lem :
    (hs : List Handle)
    → ((first_closed hs ≡ none) × AllOpen hs)
      ⊎ ((h : ℕ) × (first_closed hs ≡ some h) × FirstClosed hs h)
unfolding first_closed
first_closed_lem [] = inl (refl, λ j l. elim l [ ])
first_closed_lem (x ∷ hs) = elim (Bool-cases (is_minus_one x.inode_number)) [
  | inl hit ↦ inr (0, rw hit, (omega arith, is_minus_one-eq x.inode_number hit, λ j l. elim l [ ]))
  | inr miss ↦ elim (first_closed_lem hs) [
    | inl (e, all) ↦ inl (rw (miss, e), open_cons miss all)
    | inr (h, e, f) ↦ inr (suc h, rw (miss, e), (omega arith, f.1, before_cons miss f.2))
  ]
]
  where
    open_cons : is_minus_one x.inode_number ≡ false → AllOpen hs → AllOpen (x ∷ hs)
    open_cons miss all zero l = is_minus_one-ne x.inode_number miss
    open_cons miss all (suc j) l = all j (omega arith)

    before_cons :
        {h : ℕ}
        → is_minus_one x.inode_number ≡ false
        → ((j : ℕ) → j < h → (get_or hs j closed).inode_number ≢ minus_one)
        → (j : ℕ) → j < suc h
        → (get_or (x ∷ hs) j closed).inode_number ≢ minus_one
    before_cons miss all zero l = is_minus_one-ne x.inode_number miss
    before_cons miss all (suc j) l = all j (omega arith)

-- The outcomes of open: no such file, or no closed entry, or the first closed entry is opened at
-- the start of the file.
abbrev pub Opens : State → List ℕ → ℤ → State → Type 0
Opens s f r t =
    ((r ≡ minus_one) × (t ≡ s) × (NoFile s f ⊎ AllOpen s.handles))
    ⊎ ((i h : ℕ) × IsFile s f i
        × (r ≡ pos h)
        × FirstClosed s.handles h
        × (t ≡ with_handles s (set s.handles h (at_start i))))

module _ (s : State) (c : IsConsistent s) (f : List ℕ) (text : IsText f) where
  -- `simplefs_open` returns -1 and changes nothing if no file has the name or every entry is open;
  -- else it opens the first closed entry at offset 0 of the file, returns its index, and changes
  -- nothing else. The state satisfies the invariant.
  pub open_file_lem : Returns (Opens s f) (open_file f s)
  unfolding open_file open_found
  open_file_lem = elim (find_file_lem s c f text) [
    | inr (run, absent) ↦ rw run (inl (refl, refl, inl absent))
    | inl (i, run, hit) ↦ rw run (elim (first_closed_lem s.handles) [
      | inl (e, all) ↦ rw e (inl (refl, refl, inr all))
      | inr (h, e, first) ↦ rw e (inr (i, h, hit, refl, first, refl))
    ])
  ]

set-AllHandles :
    (P : Handle → Type 0) (hs : List Handle) (h : ℕ) (x : Handle)
    → AllHandles P hs
    → P x
    → AllHandles P (set hs h x)
set-AllHandles P [] h x all p = tt
set-AllHandles P (y ∷ hs) zero x all p = (p, all.1)
set-AllHandles P (y ∷ hs) (suc h) x all p = (all.0, set-AllHandles P hs h x all.1 p)

pub get_or-AllHandles :
    (P : Handle → Type 0) (hs : List Handle) (h : ℕ)
    → AllHandles P hs
    → h < length hs
    → P (get_or hs h closed)
get_or-AllHandles P [] h all l = elim l [ ]
get_or-AllHandles P (y ∷ hs) zero all l = all.0
get_or-AllHandles P (y ∷ hs) (suc h) all l = get_or-AllHandles P hs h all.1 (omega arith)

pub set_handle-IsConsistent :
    (s : State) (h : ℕ) (x : Handle)
    → IsConsistent s
    → IsOpenHandle x
    → IsConsistent (with_handles s (set s.handles h x))
set_handle-IsConsistent s h x c p =
    with_handles-IsConsistent s (set s.handles h x) c (length-set s.handles h x ∙ c.handle_count)
      (set-AllHandles IsOpenHandle s.handles h x c.handles p)

-- `simplefs_open` keeps the invariant.
pub open_file-IsConsistent :
    (s : State) (f : List ℕ)
    → IsConsistent s
    → IsText f
    → Returns (λ _ t. IsConsistent t) (open_file f s)
open_file-IsConsistent s f c text = Returns-mono (open_file f s) (open_file_lem s c f text) λ r t.
    elim [
      | inl (e, same, why) ↦ rw same c
      | inr (i, h, file, e, first, same) ↦
          rw same
            (set_handle-IsConsistent s h (at_start i) c (omega arith, inr (i, refl, file.index)))
    ]

-- `simplefs_close` of an index inside the array closes that entry and changes nothing else.
pub close_file_lem :
    (s : State) (h : ℕ)
    → h < length s.handles
    → close_file (pos h) s ≡ done tt (with_handles s (set s.handles h closed))
unfolding close_file handle_at
close_file_lem s h l = rw (get_elem?-eq-get_or s.handles h closed l)

-- An index outside the array is undefined.
pub close_file-fault : (s : State) (h : ℕ) → length s.handles ≤ h → close_file (pos h) s ≡ fault
unfolding close_file handle_at
close_file-fault s h l = rw (get_elem?-none s.handles h l)

-- `simplefs_close` keeps the invariant.
pub close_file-IsConsistent :
    (s : State) (h : ℕ)
    → IsConsistent s
    → h < 20
    → Returns (λ _ t. IsConsistent t) (close_file (pos h) s)
close_file-IsConsistent s h c l =
    rw (close_file_lem s h (omega (arith, c.handle_count)))
      (set_handle-IsConsistent s h closed c (omega arith, inl refl))
