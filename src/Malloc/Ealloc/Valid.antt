-- ===== src/Malloc/Ealloc/Valid.antt =====
-- The invariant of ealloc.c: the runs are valid, and none crosses the border of two pages.
use operating_systems_labwor.Base.{
  ℕ, ◌+◌, ◌-◌, ◌*◌, ◌%◌, ◌<◌, ◌≤◌, ◌≡◌, inl, inr, ap, ◌∙◌, Bool-cases, Option-cases, ◌==◌, arith,
  set, get_or-set_self, get_or-set_ne, ℕ_discrete, pos, zero, suc, ◌/◌, refl, sym, ==-ne, replicate,
}
use operating_systems_labwor.Malloc.Runs.{Table, at, search_run, take_run, free_run}
use operating_systems_labwor.Malloc.Runs.Valid.{
  IsValid, take_run-IsValid, free_run-IsValid, empty-IsValid, at-replicate,
}
use operating_systems_labwor.Malloc.Ealloc.{
  Allocator, init_alloc, map_page, take_chunks, alloc_pages, alloc, chunk_of, free_chunk, dealloc,
}
use operating_systems_labwor.Malloc.Ealloc.Laws.{IsRoom, map_page-table, pages_lem}

pub record IsPaged (t : Table) : Type 0 where
  pub valid : IsValid 64 t
  pub inside : (j : ℕ) → 0 < at t.chunk_size j → j % 16 + at t.chunk_size j ≤ 16

-- The free chunks of page `p`, as chunks of the table.
pub room_free :
    (t : Table) (p k x : ℕ)
    → IsRoom t p k x
    → (m : ℕ) → 16 * p + x ≤ m
    → m < 16 * p + x + k
    → at t.bit m ≡ 0
room_free t p k x room m l l' =
    ap (λ (i : ℕ). at t.bit i) (omega arith) ∙ room.free (m - 16 * p) (omega arith) (omega arith)

take_run-IsPaged :
    (t : Table) (p k x : ℕ)
    → 0 < k
    → p < 4
    → IsRoom t p k x
    → IsPaged t
    → IsPaged (take_run t (16 * p + x) k)
unfolding take_run
take_run-IsPaged t p k x positive l room paged = record {
  valid =
      take_run-IsValid 64 t paged.valid (16 * p + x) k positive (omega (arith, room.fits))
        (room_free t p k x room);
  inside = λ j live. elim (ℕ_discrete (16 * p + x) j) [
    | yes e ↦ omega (
      arith,
      room.fits,
      e,
      ap (λ (i : ℕ). at (set t.chunk_size (16 * p + x) k) i) e,
      get_or-set_self t.chunk_size (16 * p + x) k 0 (omega (arith, room.fits, paged.valid.sizes)),
    )
    | no ne ↦
        let same = get_or-set_ne t.chunk_size (16 * p + x) j k 0 ne in
        omega (arith, same, paged.inside j (omega (arith, same)))
  ];
}

free_run-IsPaged :
    (t : Table) (start : ℕ) → 0 < at t.chunk_size start → IsPaged t → IsPaged (free_run t start)
unfolding free_run
free_run-IsPaged t start live paged = record {
  valid = free_run-IsValid 64 t paged.valid start low;
  inside = λ j still. elim (ℕ_discrete start j) [
    | yes e ↦ absurd (gone j e still)
    | no ne ↦
        let same = get_or-set_ne t.chunk_size start j 0 0 ne in
        omega (arith, same, paged.inside j (omega (arith, same)))
  ];
}
  where
    low : start < 64
    low = elim (paged.valid.inside start) [ inl l ↦ omega arith | inr e ↦ omega arith ]

    gone : (j : ℕ) → start ≡ j → 0 < at (set t.chunk_size start 0) j → ⊥
    gone j e still = omega (
      arith,
      get_or-set_self t.chunk_size start 0 0 (omega (arith, low, paged.valid.sizes)),
      ap (λ (i : ℕ). at (set t.chunk_size start 0) i) e,
    )

-- After `init_alloc` the table is valid, and no run crosses the border of two pages.
pub init_alloc-IsPaged : (a : Allocator) → IsPaged (init_alloc a).table
unfolding init_alloc
init_alloc-IsPaged a = record {
  valid = empty-IsValid 64;
  inside = λ j live. absurd (omega (arith, at-replicate 64 j));
}

module _ (mapped : ℕ → ℕ) (k : ℕ) where
  -- The search looks only at the table, not at the pages.
  alloc_pages-table :
      (rounds m : ℕ) (a b : Allocator)
      → a.table ≡ b.table
      → (alloc_pages mapped k rounds m a).1.table ≡ (alloc_pages mapped k rounds m b).1.table
  unfolding alloc_pages take_chunks
  alloc_pages-table zero m a b e = e
  alloc_pages-table (suc rounds) m a b e =
      let e' = map_page-table mapped m a ∙ e ∙ sym (map_page-table mapped m b) in
      let bits : (map_page mapped m a).table.bit ≡ (map_page mapped m b).table.bit =
        ap (λ t. t.bit) e' in
      elim (Option-cases (search_run (map_page mapped m b).table.bit (16 * m) k 16 0 0)) [
        | inl full ↦
            rw (alloc_pages, bits, full)
              (alloc_pages-table rounds (m + 1) (map_page mapped m a) (map_page mapped m b) e')
        | inr (i, found) ↦
            rw (alloc_pages, bits, found) (ap (λ t. take_run t (16 * m + (i + 1 - k)) k) e')
      ]

-- `alloc` of a positive multiple of 256 bytes keeps every run valid and within one page.
pub alloc-IsPaged :
    (mapped : ℕ → ℕ) (a : Allocator) (k : ℕ)
    → 0 < k
    → IsPaged a.table
    → IsPaged (alloc mapped (pos (k * 256)) a).1.table
unfolding alloc
alloc-IsPaged mapped a k positive paged =
    let b = record a { bufs = replicate 4 0 } in
    let whole : k * 256 % 256 ≡ 0 = omega arith in
    let number : k * 256 / 256 ≡ k = omega arith in
    rw (whole, number, ==-ne k 0 (omega arith), alloc_pages-table mapped k 4 0 a b refl)
      (elim (pages_lem mapped k positive 4 0 b refl refl) [
        | inl (_, same, _, _) ↦ rw same paged
        | inr (p, x, _, l, _, room, _, same, _) ↦
            rw same (take_run-IsPaged a.table p k x positive l room paged)
      ])

-- `dealloc` keeps every run valid and within one page, whatever the pointer.
pub dealloc-IsPaged : (a : Allocator) (p : ℕ) → IsPaged a.table → IsPaged (dealloc p a).table
unfolding dealloc free_chunk
dealloc-IsPaged a p paged = elim (Option-cases (chunk_of p 0 a.bufs)) [
  | inl e ↦ rw (dealloc, e) paged
  | inr (start, e) ↦ elim (Bool-cases (at a.table.chunk_size start == 0)) [
    | inl unused ↦ rw (dealloc, e, unused) paged
    | inr live ↦ rw (dealloc, e, live) (free_run-IsPaged a.table start (ground arith) paged)
  ]
]
