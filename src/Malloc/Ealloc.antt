-- ===== src/Malloc/Ealloc.antt =====
-- labs/malloc-code/ealloc.c: four pages of 16 chunks of 256 bytes, each mapped when it is first
-- needed. A pointer is an address, NULL is 0; `bufs` holds buf1 to buf4.
pub mod Free
pub mod Laws
pub mod Valid
mod Tests
use operating_systems_labwor.Base.{
  ℕ, zero, suc, ◌+◌, ◌-◌, ◌*◌, ◌/◌, ◌%◌, Bool, ◌&&◌, not, true, false, Option, none, some, ◌==◌,
  ltb, leb, if◌then◌else◌, replicate, ℤ, pos, negsuc, List, [], ◌∷◌, set,
}
use operating_systems_labwor.Malloc.Runs.{Table, at, search_run, take_run, free_run}

abbrev pub page_size : ℕ
page_size = 4096

abbrev pub chunks : ℕ
chunks = page_size / 256 * 4

pub record Allocator : Type 0 where
  pub bufs : List ℕ
  pub table : Table

abbrev pub empty_table : Table
empty_table = record { bit = replicate chunks 0; chunk_size = replicate chunks 0 }

-- The pages stay as they are.
unfoldable pub init_alloc : Allocator → Allocator
init_alloc a = record a { table = empty_table }

-- `mapped m` is what `mmap` returns for page `m`.
module _ (mapped : ℕ → ℕ) where
  unfoldable pub map_page : ℕ → Allocator → Allocator
  map_page m a = if at a.bufs m == 0 then record a { bufs = set a.bufs m (mapped m) } else a

  -- The run that ends with chunk `i` of page `m` is taken.
  unfoldable pub take_chunks : ℕ → ℕ → ℕ → Allocator → Option ℕ × Allocator
  take_chunks num_chunks m i a = (
    some (at a.bufs m + (i + 1 - num_chunks) * 256),
    record a { table = take_run a.table (16 * m + (i + 1 - num_chunks)) num_chunks },
  )

  -- The loop over the pages: `rounds` are left, from page `m` on.
  unfoldable pub alloc_pages : ℕ → ℕ → ℕ → Allocator → Option ℕ × Allocator
  alloc_pages num_chunks zero m a = (none, a)
  alloc_pages num_chunks (suc rounds) m a =
      elim (search_run (map_page m a).table.bit (16 * m) num_chunks 16 0 0) [
        | some i ↦ take_chunks num_chunks m i (map_page m a)
        | none ↦ alloc_pages num_chunks rounds (m + 1) (map_page m a)
      ]

  -- A negative number of chunks is one that `current` never reaches, but the pages are mapped.
  unfoldable pub alloc : ℤ → Allocator → Option ℕ × Allocator
  alloc (negsuc n) a =
      if not ((n + 1) % 256 == 0)
      then (none, a)
      else (none, map_page 3 (map_page 2 (map_page 1 (map_page 0 a))))
  alloc (pos size) a =
      if not (size % 256 == 0)
      then (none, a)
      else if size / 256 == 0
      then (none, a)
      else alloc_pages (size / 256) 4 0 a

-- The chunk of the first of the pages that has the address; `offset` is 16 times the number of pages
-- before.
unfoldable pub chunk_of : ℕ → ℕ → List ℕ → Option ℕ
chunk_of to_be_freed offset [] = none
chunk_of to_be_freed offset (buf ∷ bufs) =
    if leb buf to_be_freed && ltb (to_be_freed - buf) page_size
    then some ((to_be_freed - buf) / 256 + offset)
    else chunk_of to_be_freed (offset + 16) bufs

unfoldable pub free_chunk : ℕ → Allocator → Allocator
free_chunk start a =
    if at a.table.chunk_size start == 0 then a else record a { table = free_run a.table start }

unfoldable pub dealloc : ℕ → Allocator → Allocator
dealloc to_be_freed a = elim (chunk_of to_be_freed 0 a.bufs) [
  | none ↦ a
  | some start ↦ free_chunk start a
]
