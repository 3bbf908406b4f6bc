-- ===== src/Simplefs/Files/Seek.antt =====
-- `simplefs_seek`: the offset moves by `nseek` exactly if it stays inside the file.
use operating_systems_labwor.Base.{
  ℕ, ◌+◌, ◌-◌, ◌^◌, ◌<◌, ◌≤◌, ◌≡◌, refl, ◌⊎◌, inl, inr, none, some, arith, ltb, Bool-cases, lt→ltb,
  get_or, set, ℤ, pos, negsuc, pos_part, neg_part, minus_one, get_elem?-eq-get_or,
}
use operating_systems_labwor.Simplefs.State.{Handle, State, done, Returns, Returns-mono, and_then}
use operating_systems_labwor.Simplefs.Disk.{closed}
use operating_systems_labwor.Simplefs.Disk.Views.{inode_at}
use operating_systems_labwor.Simplefs.Disk.Calls.{read_inode-done}
use operating_systems_labwor.Simplefs.Files.{handle_at, seek_to, seek}
use operating_systems_labwor.Simplefs.Files.Handles.{
  with_handles, set_handle-IsConsistent, get_or-AllHandles,
}
use operating_systems_labwor.Simplefs.Consistent.{IsConsistent, IsOpenHandle}

-- `to` is `from` moved by `by`.
abbrev pub IsMoved : ℕ → ℤ → ℕ → Type 0
IsMoved from by to = to + neg_part by ≡ from + pos_part by

-- The negation of `nseek` and its sum with the offset are values of `int`.
abbrev pub NoOverflow : ℕ → ℤ → Type 0
NoOverflow from by = (from + pos_part by < 2 ^ 31) × (neg_part by < 2 ^ 31)

seek_to_lem :
    (from : ℕ) (by : ℤ) (n : ℕ) (s : State)
    → NoOverflow from by
    → ((seek_to from by (pos n) s ≡ done none s) × ((to : ℕ) → IsMoved from by to → n < to))
      ⊎ ((to : ℕ) × (seek_to from by (pos n) s ≡ done (some to) s) × IsMoved from by to × (to ≤ n))
unfolding seek_to
seek_to_lem from (pos k) n s small = elim (Bool-cases (ltb n (from + k + 0))) [
  | inl out ↦ inl (rw (lt→ltb (from + k) (2 ^ 31) small.0, out), λ to m. ground arith)
  | inr in_file ↦
      inr (from + k, rw (lt→ltb (from + k) (2 ^ 31) small.0, in_file), omega arith, ground arith)
]
seek_to_lem from (negsuc k) n s small = elim (Bool-cases (ltb from (k + 1))) [
  | inl below ↦
      inl (rw (lt→ltb (k + 1) (2 ^ 31) (omega arith), below), λ to m. absurd (ground arith))
  | inr above ↦ elim (Bool-cases (ltb n (from - (k + 1) + 0))) [
    | inl out ↦ inl (rw (lt→ltb (k + 1) (2 ^ 31) (omega arith), above, out), λ to m. ground arith)
    | inr in_file ↦ inr (
      from - (k + 1),
      rw (lt→ltb (k + 1) (2 ^ 31) (omega arith), above, in_file),
      ground arith,
      ground arith,
    )
  ]
]

-- The outcomes of seek on the handle `x` of index `h`, open on a file of `n` bytes: the target is
-- outside the file and nothing changes, or the offset of that handle moves to the target.
abbrev pub Seeks : State → ℕ → Handle → ℕ → ℤ → ℤ → State → Type 0
Seeks s h x n by r t =
    ((r ≡ minus_one) × (t ≡ s) × ((to : ℕ) → IsMoved x.offset by to → n < to))
    ⊎ ((to : ℕ) × (r ≡ pos 0)
        × (t ≡ with_handles s (set s.handles h (record x { offset = to })))
        × IsMoved x.offset by to
        × (to ≤ n))

module _ (s : State) (c : IsConsistent s) (h : ℕ) (l : h < 20) where
  abbrev pub here : Handle
  here = get_or s.handles h closed

  pub handle_at-done : handle_at (pos h) s ≡ done here s
  unfolding handle_at
  handle_at-done = rw (get_elem?-eq-get_or s.handles h closed (omega (arith, c.handle_count)))

  -- `simplefs_seek` on a closed entry returns -1 and changes nothing.
  pub seek-closed : (by : ℤ) → here.inode_number ≡ minus_one → seek (pos h) by s ≡ done minus_one s
  unfolding seek
  seek-closed by e = rw (handle_at-done, and_then, e)

  -- `simplefs_seek` on an open file moves the offset by `nseek` if the target is from 0 to the size
  -- of the file; else it returns -1 and changes nothing. Neither `-nseek` nor the sum
  -- of the offset and `nseek` may overflow an `int`. The state satisfies the invariant.
  pub seek_lem :
      (by : ℤ) (i n : ℕ)
      → here.inode_number ≡ pos i
      → i < 8
      → (inode_at s i).file_size ≡ pos n
      → NoOverflow here.offset by
      → Returns (Seeks s h here n by) (seek (pos h) by s)
  unfolding seek
  seek_lem by i n e li size small = elim (seek_to_lem here.offset by n s small) [
    | inl (run, out) ↦
        rw (handle_at-done, and_then, e, read_inode-done s c.tables i li, size, run)
          (inl (refl, refl, out))
    | inr (to, run, moved, le) ↦
        rw (handle_at-done, and_then, e, read_inode-done s c.tables i li, size, run)
          (inr (to, refl, refl, moved, le))
  ]

-- `simplefs_seek` keeps the invariant, whatever its outcome.
pub seek-IsConsistent :
    (s : State) (h : ℕ) (by : ℤ)
    → IsConsistent s
    → h < 20
    → NoOverflow (get_or s.handles h closed).offset by
    → Returns (λ _ t. IsConsistent t) (seek (pos h) by s)
seek-IsConsistent s h by c l small =
    elim (get_or-AllHandles IsOpenHandle s.handles h c.handles (omega (arith, c.handle_count))).1 [
      | inl e ↦ rw (seek-closed s c h l by e) c
      | inr (i, e, li) ↦
          let (n, size, le) = c.sizes i li in
          Returns-mono (seek (pos h) by s) (seek_lem s c h l by i n e li size small) λ r t. elim [
            | inl (_, same, out) ↦ rw same c
            | inr (to, _, same, moved, fits) ↦ rw same (
                set_handle-IsConsistent s h (record (get_or s.handles h closed) { offset = to }) c
                  (omega arith, inr (i, e, li)))
          ]
    ]
