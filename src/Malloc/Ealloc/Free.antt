-- ===== src/Malloc/Ealloc/Free.antt =====
-- How `dealloc` of ealloc.c finds the chunk of an address, and that it undoes `alloc`.
use operating_systems_labwor.Base.{
  ℕ, zero, suc, ◌+◌, ◌-◌, ◌*◌, ◌/◌, ◌<◌, ◌≤◌, ◌≡◌, ◌⊎◌, inl, inr, sym, ap, ◌∙◌, true, false, ltb,
  leb, lt→ltb, le→leb, ◌&&◌, some, ==-ne, arith, List, [], ◌∷◌, length, get_or-set_self, pos, subst,
}
use operating_systems_labwor.Malloc.Runs.{Table, at, take_run}
use operating_systems_labwor.Malloc.Runs.Undo.{SameTable, free-take_run}
use operating_systems_labwor.Malloc.Ealloc.{
  Allocator, page_size, alloc, chunk_of, free_chunk, dealloc,
}
use operating_systems_labwor.Malloc.Ealloc.Laws.{IsRoom, page_at, alloc-Allocates}
use operating_systems_labwor.Malloc.Ealloc.Valid.{IsPaged, room_free}

-- Pages at `b` and `c` share no byte.
abbrev pub Apart : ℕ → ℕ → Type 0
Apart b c = (b + page_size ≤ c) ⊎ (c + page_size ≤ b)

-- Page `p` shares no byte with the pages before it.
abbrev pub IsApart : List ℕ → ℕ → Type 0
IsApart bufs p = (q : ℕ) → q < p → Apart (at bufs q) (at bufs p)

outside :
    (b c y : ℕ) → y < page_size → Apart b c → (leb b (c + y) && ltb (c + y - b) page_size) ≡ false
outside b c y l (inl after) = ground arith
outside b c y l (inr before) = ground arith

-- The address `y` bytes into page `p`, a page that shares no byte with those before it, belongs to
-- chunk `y / 256` of the page, wherever in the chunk it points.
pub chunk_of_lem :
    (bufs : List ℕ) (offset p y : ℕ)
    → p < length bufs
    → y < page_size
    → IsApart bufs p
    → chunk_of (at bufs p + y) offset bufs ≡ some (y / 256 + (offset + 16 * p))
unfolding chunk_of
chunk_of_lem [] offset p y l small apart = absurd (omega arith)
chunk_of_lem (b ∷ bufs) offset zero y l small apart =
    let low : leb b (b + y) ≡ true = le→leb b (b + y) (omega arith) in
    let back : b + y - b ≡ y = omega arith in
    rw (low, back, lt→ltb y page_size small) (ap some (omega arith))
chunk_of_lem (b ∷ bufs) offset (suc p) y l small apart =
    rw (outside b (at bufs p) y small (apart 0 (omega arith))) (
      chunk_of_lem bufs (offset + 16) p y (omega arith) small (λ q h. apart (suc q) (omega arith))
      ∙ ap some (omega arith))

module _ (t : Table) (b : Allocator) (k p x : ℕ) where
  -- The run that was taken at chunk `x` of page `p` is given back.
  undo :
      0 < k
      → IsPaged t
      → length b.bufs ≡ 4
      → IsApart b.bufs p
      → p < 4
      → IsRoom t p k x
      → b.table ≡ take_run t (16 * p + x) k
      → SameTable t (dealloc (at b.bufs p + x * 256) b).table
  unfolding dealloc free_chunk take_run
  undo positive paged four apart l room same =
      let chunk : chunk_of (at b.bufs p + x * 256) 0 b.bufs ≡ some (16 * p + x) =
        chunk_of_lem b.bufs 0 p (x * 256) (omega (arith, four)) (omega (arith, room.fits)) apart
        ∙ ap some (omega arith) in
      let size : at b.table.chunk_size (16 * p + x) ≡ k =
        ap (λ u. at u.chunk_size (16 * p + x)) same
        ∙ get_or-set_self t.chunk_size (16 * p + x) k 0
            (omega (arith, room.fits, paged.valid.sizes)) in
      rw (dealloc, chunk, size, ==-ne k 0 (omega arith), same)
        (free-take_run 64 t (16 * p + x) k paged.valid positive (omega (arith, room.fits))
          (room_free t p k x room))

-- Where the pages are, or will be when they are mapped, no two share a byte.
abbrev pub PagesApart : (ℕ → ℕ) → List ℕ → Type 0
PagesApart mapped bufs =
    (p q : ℕ) → p < 4 → q < p → Apart (page_at mapped bufs q) (page_at mapped bufs p)

-- If every run is valid and within one page, to `dealloc` what `alloc` has returned for a positive
-- number of chunks gives every chunk the mark and the size that it had before. There are four entries
-- for pages, and no page that is mapped or that `mmap` returns shares a byte with another; pages may
-- still be unmapped before and after.
pub dealloc-returned :
    (mapped : ℕ → ℕ) (a : Allocator) (k address : ℕ)
    → 0 < k
    → IsPaged a.table
    → length a.bufs ≡ 4
    → PagesApart mapped a.bufs
    → (alloc mapped (pos (k * 256)) a).0 ≡ some address
    → SameTable a.table (dealloc address (alloc mapped (pos (k * 256)) a).1).table
dealloc-returned mapped a k address positive paged four apart got =
    elim (alloc-Allocates mapped k positive a four) [
      | inl (refused, _, _, _) ↦ cc (refused, got)
      | inr (p, x, _, l, _, room, at_p, same, maps) ↦
          let b = (alloc mapped (pos (k * 256)) a).1 in
          let there : at b.bufs p ≡ page_at mapped a.bufs p =
            maps.pages p (omega arith) (omega arith) in
          let here : address ≡ at b.bufs p + x * 256 =
            returned (sym got ∙ at_p) ∙ ap (λ (i : ℕ). i + x * 256) (sym there) in
          let in_b : IsApart b.bufs p = λ q h.
            subst (λ (i : ℕ). Apart (at b.bufs q) i) (sym there)
              (subst (λ (i : ℕ). Apart i (page_at mapped a.bufs p))
                (sym (maps.pages q (omega arith) (omega arith))) (apart p q l h)) in
          rw here (undo a.table b k p x positive paged (maps.count ∙ four) in_b l room same)
    ]
  where
    returned : {i j : ℕ} → some i ≡ some j → i ≡ j
    returned e = cc e
