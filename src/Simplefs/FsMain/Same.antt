-- ===== src/Simplefs/FsMain/Same.antt =====
-- labs/fs-main/simplefs-ops.c against CS236-Spring-2025-Labs/file-system/simplefs-ops.c: delete and
-- open.
use operating_systems_labwor.Base.{
  ℕ, zero, suc, ◌+◌, ◌≡◌, refl, ◌∙◌, ◌⊎◌, inl, inr, Bool, true, false, none, some, List, [], ◌∷◌,
  ltb, leb, Bool-cases, Option-cases, is_minus_one,
}
use operating_systems_labwor.Simplefs.Codec.{Inode, inode_of}
use operating_systems_labwor.Simplefs.Image.{slice}
use operating_systems_labwor.Simplefs.State.{Handle, State, done, aborted, fault, and_then, read_at}
use operating_systems_labwor.Simplefs.Disk.{inode_offset, read_inode}
use operating_systems_labwor.Simplefs.Files.{
  in_use, strcmp_eq, names, find_file, blank, delete, first_closed, open_found, open_file,
}
use operating_systems_labwor.Simplefs.FsMain.{
  find_index, delete_file, is_negative, first_negative, open_first,
}
use operating_systems_labwor.Simplefs.Consistent.{IsConsistent, AllHandles, IsOpenHandle}

-- To read an inode leaves the state, if it succeeds.
read_inode-outcome :
    (i : ℕ) (s : State) → ((y : Inode) × (read_inode i s ≡ done y s)) ⊎ (read_inode i s ≡ aborted)
unfolding read_inode read_at
read_inode-outcome i s = elim (Bool-cases (ltb i 8)) [
  | inr out ↦ inr (rw out)
  | inl here ↦ elim (Bool-cases (leb (inode_offset i + 32) s.disk.size)) [
    | inl all ↦ inl (inode_of (slice s.disk (inode_offset i) 32), rw (here, all))
    | inr short ↦ inr (rw (here, short))
  ]
]

names-outcome :
    (f : List ℕ) (y : Inode) (s : State)
    → ((hit : Bool) × (names f y s ≡ done hit s)) ⊎ (names f y s ≡ fault)
unfolding names
names-outcome f y s = elim (Bool-cases (in_use y)) [
  | inr free ↦ inl (false, rw free)
  | inl used ↦ elim (Option-cases (strcmp_eq y.name f)) [
    | inl off ↦ inr (rw (used, off))
    | inr (hit, e) ↦ inl (hit, rw (used, e))
  ]
]

-- Both searches end alike, and the buffer of the one holds the inode that the other has found.
abbrev SameSearch : List ℕ → ℕ → ℕ → Inode → State → Type 0
SameSearch f n i x s =
    ((j : ℕ) × (y : Inode) × (find_file f n i x s ≡ done (some j, y) s)
      × (find_index f n i s ≡ done (some j) s)
      × (read_inode j s ≡ done y s))
    ⊎ ((y : Inode) × (find_file f n i x s ≡ done (none, y) s) × (find_index f n i s ≡ done none s))
    ⊎ ((find_file f n i x s ≡ aborted) × (find_index f n i s ≡ aborted))
    ⊎ ((find_file f n i x s ≡ fault) × (find_index f n i s ≡ fault))

find_index-find_file : (f : List ℕ) (n i : ℕ) (x : Inode) (s : State) → SameSearch f n i x s
unfolding find_file find_index
find_index-find_file f zero i x s = inr (inl (x, refl, refl))
find_index-find_file f (suc n) i x s = elim (read_inode-outcome i s) [
  | inr e ↦ inr (inr (inl (rw e, rw e)))
  | inl (y, e) ↦ elim (names-outcome f y s) [
    | inr bad ↦ inr (inr (inr (rw (e, bad), rw (e, bad))))
    | inl (true, hit) ↦ inl (i, y, rw (e, hit), rw (e, hit), e)
    | inl (false, hit) ↦ elim (find_index-find_file f n (i + 1) y s) [
      | inl (j, z, a, b, r) ↦ inl (j, z, rw (e, hit) a, rw (e, hit) b, r)
      | inr (inl (z, a, b)) ↦ inr (inl (z, rw (e, hit) a, rw (e, hit) b))
      | inr (inr (inl (a, b))) ↦ inr (inr (inl (rw (e, hit) a, rw (e, hit) b)))
      | inr (inr (inr (a, b))) ↦ inr (inr (inr (rw (e, hit) a, rw (e, hit) b)))
    ]
  ]
]

-- The delete of the earlier course does what that of the later one does, on every disk: with the
-- same result, or the same failed assertion or undefined behaviour.
pub delete_file-delete : (f : List ℕ) (s : State) → delete_file f s ≡ delete f s
unfolding delete_file delete
delete_file-delete f s = elim (find_index-find_file f 8 0 blank s) [
  | inl (j, y, a, b, r) ↦ rw (a, b, r) refl
  | inr (inl (y, a, b)) ↦ rw (a, b) refl
  | inr (inr (inl (a, b))) ↦ rw (a, b) refl
  | inr (inr (inr (a, b))) ↦ rw (a, b) refl
]

is_negative-is_minus_one :
    (h : Handle) → IsOpenHandle h → is_negative h.inode_number ≡ is_minus_one h.inode_number
unfolding is_negative
is_negative-is_minus_one h (o, inl e) = rw e refl
is_negative-is_minus_one h (o, inr (i, e, l)) = rw e refl

first_negative-first_closed :
    (hs : List Handle) → AllHandles IsOpenHandle hs → first_negative hs ≡ first_closed hs
unfolding first_negative first_closed
first_negative-first_closed [] all = refl
first_negative-first_closed (h ∷ hs) (o, all) =
    rw (is_negative-is_minus_one h o, first_negative-first_closed hs all) refl

-- While the invariant holds, the open of the earlier course does what that of the later one does.
pub open_first-open_file :
    (f : List ℕ) (s : State) → IsConsistent s → open_first f s ≡ open_file f s
unfolding open_first open_file open_found
open_first-open_file f s c = elim (find_index-find_file f 8 0 blank s) [
  | inl (j, y, a, b, r) ↦
      rw (a, b)
        (elim (Option-cases (first_closed s.handles)) [
          | inl full ↦
              rw (and_then, first_negative-first_closed s.handles c.handles ∙ full, full) refl
          | inr (h, e) ↦ rw (and_then, first_negative-first_closed s.handles c.handles ∙ e, e) refl
        ])
  | inr (inl (y, a, b)) ↦ rw (a, b) refl
  | inr (inr (inl (a, b))) ↦ rw (a, b) refl
  | inr (inr (inr (a, b))) ↦ rw (a, b) refl
]
