-- ===== src/Malloc/Ealloc/Tests.antt =====
-- Tests of labs/malloc-code/ealloc.c, with pages that are mapped at 8192, 16384, 24576 and 32768.
use operating_systems_labwor.Base.{
  ap, ℕ, zero, suc, ◌+◌, ◌*◌, ◌≡◌, inl, refl, Option, none, some, arith, pos, negsuc, replicate, [],
  ◌∷◌, length,
}
use operating_systems_labwor.Malloc.Runs.{search_run, next_current, fill, take_run}
use operating_systems_labwor.Malloc.Runs.Undo.{SameTable}
use operating_systems_labwor.Malloc.Ealloc.{
  Allocator, empty_table, init_alloc, map_page, take_chunks, alloc_pages, alloc, dealloc,
}
use operating_systems_labwor.Malloc.Ealloc.Laws.{page_at, Allocates, alloc-Allocates}
use operating_systems_labwor.Malloc.Ealloc.Valid.{
  IsPaged, init_alloc-IsPaged, alloc-IsPaged, dealloc-IsPaged,
}
use operating_systems_labwor.Malloc.Ealloc.Free.{PagesApart, dealloc-returned}

abbrev mapped : ℕ → ℕ
mapped m = (m + 1) * 8192

abbrev start : Allocator
start = record { bufs = replicate 4 0; table = empty_table }

-- After an allocation of ten chunks of the first page.
abbrev ten_chunks : Allocator
ten_chunks = (alloc mapped (pos 2560) start).1

-- After one more, of ten chunks of the second page.
abbrev both : Option ℕ × Allocator
both = alloc mapped (pos 2560) ten_chunks

start-IsPaged : IsPaged start.table
unfolding init_alloc
start-IsPaged = init_alloc-IsPaged start

ten_chunks-IsPaged : IsPaged ten_chunks.table
ten_chunks-IsPaged = alloc-IsPaged mapped start 10 (omega arith) start-IsPaged

second_page : both.0 ≡ some 16384
unfolding alloc alloc_pages map_page take_chunks search_run next_current take_run fill
second_page = refl

second_bufs : both.1.bufs ≡ 8192 ∷ 16384 ∷ 0 ∷ 0 ∷ []
unfolding alloc alloc_pages map_page take_chunks search_run next_current take_run fill
second_bufs = refl

-- A negative number of chunks is refused, after all pages are mapped.
negative : (alloc mapped (negsuc 255) start).1.bufs ≡ 8192 ∷ 16384 ∷ 24576 ∷ 32768 ∷ []
unfolding alloc map_page
negative = refl

too_long : (alloc mapped (pos 4352) start).0 ≡ none
unfolding alloc alloc_pages map_page take_chunks search_run next_current take_run fill
too_long = refl

ten_chunks-bufs : ten_chunks.bufs ≡ 8192 ∷ 0 ∷ 0 ∷ 0 ∷ []
unfolding alloc alloc_pages map_page take_chunks search_run next_current take_run fill
ten_chunks-bufs = refl

alloc-Allocates_example : Allocates mapped ten_chunks 10 0 both
alloc-Allocates_example =
    alloc-Allocates mapped 10 (omega arith) ten_chunks (ap length ten_chunks-bufs)

alloc-IsPaged_example : IsPaged both.1.table
alloc-IsPaged_example = alloc-IsPaged mapped ten_chunks 10 (omega arith) ten_chunks-IsPaged

dealloc-IsPaged_example : IsPaged (dealloc 8192 ten_chunks).table
dealloc-IsPaged_example = dealloc-IsPaged ten_chunks 8192 ten_chunks-IsPaged

page_at-mapped : (p : ℕ) → page_at mapped (8192 ∷ 0 ∷ 0 ∷ 0 ∷ []) p ≡ (p + 1) * 8192
page_at-mapped zero = refl
page_at-mapped (suc zero) = refl
page_at-mapped (suc (suc zero)) = refl
page_at-mapped (suc (suc (suc zero))) = refl
page_at-mapped (suc (suc (suc (suc p)))) = refl

-- One page is mapped, and the others will be apart from it.
pages-PagesApart : PagesApart mapped ten_chunks.bufs
pages-PagesApart p q l h =
    rw ten_chunks-bufs (inl (omega (arith, page_at-mapped p, page_at-mapped q)))

dealloc-returned_example :
    SameTable ten_chunks.table (dealloc 16384 (alloc mapped (pos (10 * 256)) ten_chunks).1).table
dealloc-returned_example =
    dealloc-returned mapped ten_chunks 10 16384 (omega arith) ten_chunks-IsPaged
      (ap length ten_chunks-bufs) pages-PagesApart second_page
