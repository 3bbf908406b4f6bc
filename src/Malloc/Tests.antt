-- ===== src/Malloc/Tests.antt =====
-- Tests of labs/malloc-code/alloc.c, with a page that is mapped at address 4096.
use operating_systems_labwor.Base.{◌+◌, ◌*◌, ◌≡◌, ◌≤◌, ◌⊎◌, refl, none, some, arith, pos}
use operating_systems_labwor.Malloc.Runs.{at, search_run, next_current, fill, take_run}
use operating_systems_labwor.Malloc.Runs.Undo.{SameTable}
use operating_systems_labwor.Malloc.Alloc.{
  Allocator, empty_table, init_alloc, alloc, dealloc, map_failed,
}
use operating_systems_labwor.Malloc.Alloc.Laws.{
  IsValidAllocator, Allocates, alloc_lem, alloc-IsValidAllocator, alloc_separate, dealloc-alloc,
  dealloc-IsValidAllocator, init_alloc-IsValidAllocator,
}

abbrev start : Allocator
start = record { buf = 4096; table = empty_table }

-- After an allocation of 16 bytes.
abbrev two_chunks : Allocator
two_chunks = (alloc (pos 16) start).1

start-IsValid : IsValidAllocator start
unfolding init_alloc
start-IsValid = init_alloc-IsValidAllocator 4096 start

two_chunks-IsValid : IsValidAllocator two_chunks
two_chunks-IsValid = alloc-IsValidAllocator start 2 (omega arith) start-IsValid

second_alloc : (alloc (pos 24) two_chunks).0 ≡ some 4112
unfolding alloc search_run next_current take_run fill
second_alloc = refl

odd_size : (alloc (pos 12) start).0 ≡ none
unfolding alloc
odd_size = refl

mmap_failure : (init_alloc map_failed start).0 ≡ 1
unfolding init_alloc
mmap_failure = refl

first_live : at two_chunks.table.chunk_size 0 ≡ 2
unfolding alloc search_run next_current take_run fill
first_live = refl

alloc_lem_example : Allocates two_chunks 3 (alloc (pos 24) two_chunks)
alloc_lem_example = alloc_lem two_chunks 3 (omega arith)

alloc-IsValidAllocator_example : IsValidAllocator (alloc (pos 24) two_chunks).1
alloc-IsValidAllocator_example =
    alloc-IsValidAllocator two_chunks 3 (omega arith) two_chunks-IsValid

dealloc-IsValidAllocator_example : IsValidAllocator (dealloc 4096 two_chunks)
dealloc-IsValidAllocator_example = dealloc-IsValidAllocator two_chunks 4096 two_chunks-IsValid

alloc_separate_example :
    (4112 + 3 * 8 ≤ two_chunks.buf + 0 * 8)
    ⊎ (two_chunks.buf + 0 * 8 + at two_chunks.table.chunk_size 0 * 8 ≤ 4112)
alloc_separate_example =
    alloc_separate two_chunks 3 4112 0 (omega arith) two_chunks-IsValid second_alloc
      (omega (arith, first_live))

dealloc-alloc_example :
    SameTable two_chunks.table (dealloc 4112 (alloc (pos 24) two_chunks).1).table
dealloc-alloc_example =
    dealloc-alloc two_chunks 3 4112 (omega arith) two_chunks-IsValid second_alloc
