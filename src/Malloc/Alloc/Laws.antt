-- ===== src/Malloc/Alloc/Laws.antt =====
-- The allocator of alloc.c: allocations are free chunks that no other allocation has, a failure means
-- that there is no room, and `dealloc` undoes `alloc`.
use operating_systems_labwor.Base.{
  ℕ, ◌+◌, ◌-◌, ◌*◌, ◌/◌, ◌%◌, ◌<◌, ◌≤◌, ◌≡◌, ◌≢◌, ◌⊎◌, inl, inr, refl, sym, ap, ◌∙◌, false,
  Bool-cases, Option, none, some, ◌==◌, ==-ne, ltb, leb, arith, get_or-set_self, dec_lt, pos,
}
use operating_systems_labwor.Malloc.Runs.{at, take_run, free_run}
use operating_systems_labwor.Malloc.Runs.Search.{FreeRun, NoRun, search_run_lem}
use operating_systems_labwor.Malloc.Runs.Valid.{
  IsValid, take_run-IsValid, free_run-IsValid, empty-IsValid,
}
use operating_systems_labwor.Malloc.Runs.Undo.{SameTable, free-take_run}
use operating_systems_labwor.Malloc.Alloc.{Allocator, page_size, chunks, init_alloc, alloc, dealloc}

abbrev pub IsValidAllocator : Allocator → Type 0
IsValidAllocator a = IsValid chunks a.table

-- `alloc` finds room for `k` chunks at chunk `j`, the first such place.
pub record IsRoom (a : Allocator) (k j : ℕ) : Type 0 where
  pub fits : j + k ≤ chunks
  pub free : (m : ℕ) → j ≤ m → m < j + k → at a.table.bit m ≡ 0
  pub first : (i : ℕ) → i < j → (m : ℕ) × (i ≤ m) × (m < i + k) × (at a.table.bit m ≢ 0)

-- No `k` chunks in a row are free.
abbrev pub IsFull : Allocator → ℕ → Type 0
IsFull a k = (i : ℕ) → i + k ≤ chunks → (m : ℕ) × (i ≤ m) × (m < i + k) × (at a.table.bit m ≢ 0)

-- What `alloc` of `k` chunks may do: refuse and change nothing, if no `k` chunks in a row are free;
-- or take the first room and return its address.
abbrev pub Allocates : Allocator → ℕ → Option ℕ × Allocator → Type 0
Allocates a k (r, a') =
    ((r ≡ none) × (a' ≡ a) × IsFull a k)
    ⊎ ((j : ℕ) × IsRoom a k j
        × (r ≡ some (a.buf + j * 8))
        × (a' ≡ record a { table = take_run a.table j k }))

module _ (a : Allocator) (k : ℕ) (positive : 0 < k) where
  at_zero : (m : ℕ) → at a.table.bit (m + 0) ≡ at a.table.bit m
  at_zero m = ap (λ (i : ℕ). at a.table.bit i) (omega arith)

  found :
      (e : ℕ)
      → e < chunks
      → k ≤ e + 1
      → FreeRun a.table.bit 0 k (e + 1 - k)
      → NoRun a.table.bit 0 k e
      → IsRoom a k (e + 1 - k)
  found e l fits free none_before = record {
    fits = omega arith;
    free = λ m p q. sym (at_zero m) ∙ free m p q;
    first = λ i below.
        let (m, p, q, used) = none_before i (omega arith) in (m, p, q, λ z. used (at_zero m ∙ z));
  }

  -- `alloc` of a positive multiple of 8 bytes takes the first run of free chunks that is long enough
  -- and returns its address, or returns NULL and changes nothing where there is none.
  pub alloc_lem : Allocates a k (alloc (pos (k * 8)) a)
  unfolding alloc
  alloc_lem =
      let whole : k * 8 % 8 ≡ 0 = omega arith in
      let number : k * 8 / 8 ≡ k = omega arith in
      rw (whole, number, ==-ne k 0 (omega arith))
        (elim (search_run_lem a.table.bit 0 k chunks positive) [
          | inl (e, all) ↦ rw e (
              inl (
                refl,
                refl,
                λ i l. let (m, p, q, used) = all i l in (m, p, q, λ z. used (at_zero m ∙ z)),
              ))
          | inr (e, run, l, fits, free, before) ↦
              rw (run, number) (inr (e + 1 - k, found e l fits free before, refl, refl))
        ])

  -- `alloc` of a positive multiple of 8 bytes keeps the invariant.
  pub alloc-IsValidAllocator : IsValidAllocator a → IsValidAllocator (alloc (pos (k * 8)) a).1
  alloc-IsValidAllocator v = elim alloc_lem [
    | inl (e, same, full) ↦ rw same v
    | inr (j, room, e, same) ↦
        rw same (take_run-IsValid chunks a.table v j k positive room.fits room.free)
  ]

-- After `init_alloc` the allocator is valid, whatever it was before and whether `mmap` fails or not.
pub init_alloc-IsValidAllocator :
    (mapped : ℕ) (a : Allocator) → IsValidAllocator (init_alloc mapped a).1
unfolding init_alloc
init_alloc-IsValidAllocator mapped a = empty-IsValid chunks

-- `dealloc` keeps the invariant, whatever the pointer.
pub dealloc-IsValidAllocator :
    (a : Allocator) (p : ℕ) → IsValidAllocator a → IsValidAllocator (dealloc p a)
unfolding dealloc
dealloc-IsValidAllocator a p v = elim (Bool-cases (ltb p a.buf)) [
  | inl below ↦ rw below v
  | inr above ↦ elim (Bool-cases (leb page_size (p - a.buf))) [
    | inl past ↦ rw (above, past) v
    | inr inside ↦ elim (Bool-cases ((p - a.buf) % 8 == 0)) [
      | inr odd ↦ rw (above, inside, odd) v
      | inl even ↦ elim (Bool-cases (at a.table.chunk_size ((p - a.buf) / 8) == 0)) [
        | inl unused ↦ rw (above, inside, even, unused) v
        | inr used ↦
            rw (above, inside, even, used)
              (free_run-IsValid chunks a.table v ((p - a.buf) / 8) (ground arith))
      ]
    ]
  ]
]

returned : {p q : ℕ} → some p ≡ some q → p ≡ q
returned e = cc e

-- In a valid allocator the bytes of a new allocation of a positive number of chunks belong to no allocation that was made before.
pub alloc_separate :
    (a : Allocator) (k p i : ℕ)
    → 0 < k
    → IsValidAllocator a
    → (alloc (pos (k * 8)) a).0 ≡ some p
    → 0 < at a.table.chunk_size i
    → (p + k * 8 ≤ a.buf + i * 8) ⊎ (a.buf + i * 8 + at a.table.chunk_size i * 8 ≤ p)
alloc_separate a k p i positive v got live = elim (alloc_lem a k positive) [
  | inl (e, same, full) ↦ cc (e, got)
  | inr (j, room, e, same) ↦
      let at_p : p ≡ a.buf + j * 8 = returned (sym got ∙ e) in
      elim (dec_lt i (j + k)) [
        | no above ↦ inl (omega (arith, at_p))
        | yes below ↦ elim (dec_lt j (i + at a.table.chunk_size i)) [
          | no before ↦ inr (omega (arith, at_p))
          | yes meets ↦ elim (dec_lt i j) [
            | yes left ↦
                absurd (v.marked i j (omega arith, meets) (room.free j (omega arith) (omega arith)))
            | no right ↦
                absurd (v.marked i i (omega arith, omega arith) (room.free i (omega arith) below))
          ]
        ]
      ]
]

dealloc_room :
    (a : Allocator) (j k : ℕ)
    → IsValidAllocator a
    → 0 < k
    → IsRoom a k j
    → dealloc (a.buf + j * 8) (record a { table = take_run a.table j k })
      ≡ record a { table = free_run (take_run a.table j k) j }
unfolding dealloc take_run
dealloc_room a j k v positive room =
    let offset : a.buf + j * 8 - a.buf ≡ j * 8 = omega arith in
    let chunk : j * 8 / 8 ≡ j = omega arith in
    let whole : j * 8 % 8 ≡ 0 = omega arith in
    let low : ltb (a.buf + j * 8) a.buf ≡ false = ground arith in
    let high : leb page_size (j * 8) ≡ false = ground (arith, room.fits) in
    rw (
      low,
      offset,
      high,
      whole,
      chunk,
      get_or-set_self a.table.chunk_size j k 0 (omega (arith, v.sizes, room.fits)),
      ==-ne k 0 (omega arith),
    )

-- In a valid allocator, to `dealloc` what `alloc` has returned for a positive number of chunks gives every chunk the mark and the size that it had before.
pub dealloc-alloc :
    (a : Allocator) (k p : ℕ)
    → 0 < k
    → IsValidAllocator a
    → (alloc (pos (k * 8)) a).0 ≡ some p
    → SameTable a.table (dealloc p (alloc (pos (k * 8)) a).1).table
dealloc-alloc a k p positive v got = elim (alloc_lem a k positive) [
  | inl (e, same, full) ↦ cc (e, got)
  | inr (j, room, e, same) ↦
      let at_p : p ≡ a.buf + j * 8 = returned (sym got ∙ e) in
      rw (same, at_p, dealloc_room a j k v positive room)
        (free-take_run chunks a.table j k v positive room.fits room.free)
]
