-- ===== src/Malloc/Alloc.antt =====
-- labs/malloc-code/alloc.c: one page of 512 chunks of 8 bytes. A pointer is an address; `buf` is what
-- `mmap` returned.
pub mod Laws
use operating_systems_labwor.Base.{
  ℕ, zero, suc, ◌+◌, ◌-◌, ◌*◌, ◌/◌, ◌%◌, ◌^◌, Bool, ◌||◌, not, true, false, Option, none, some,
  ◌==◌, ltb, leb, if◌then◌else◌, replicate, ℤ, pos, negsuc,
}
use operating_systems_labwor.Malloc.Runs.{Table, at, search_run, take_run, free_run}

abbrev pub page_size : ℕ
page_size = 4096

abbrev pub chunks : ℕ
chunks = page_size / 8

pub record Allocator : Type 0 where
  pub buf : ℕ
  pub table : Table

abbrev pub empty_table : Table
empty_table = record { bit = replicate chunks 0; chunk_size = replicate chunks 0 }

-- MAP_FAILED, `(void *) -1`.
abbrev pub map_failed : ℕ
map_failed = 2 ^ 64 - 1

-- `mapped` is what `mmap` returns.
unfoldable pub init_alloc : ℕ → Allocator → ℕ × Allocator
init_alloc mapped a =
    (if mapped == map_failed then 1 else 0, record { buf = mapped; table = empty_table })

-- A size below 0 is no multiple of 8, or a number of chunks that `current` never reaches.
unfoldable pub alloc : ℤ → Allocator → Option ℕ × Allocator
alloc (negsuc _) a = (none, a)
alloc (pos size) a =
    if not (size % 8 == 0)
    then (none, a)
    else if size / 8 == 0
    then (none, a)
    else elim (search_run a.table.bit 0 (size / 8) chunks 0 0) [
      | none ↦ (none, a)
      | some i ↦ (
        some (a.buf + (i + 1 - size / 8) * 8),
        record a { table = take_run a.table (i + 1 - size / 8) (size / 8) },
      )
    ]

unfoldable pub dealloc : ℕ → Allocator → Allocator
dealloc to_be_freed a =
    if ltb to_be_freed a.buf
      || (leb page_size (to_be_freed - a.buf) || not ((to_be_freed - a.buf) % 8 == 0))
    then a
    else if at a.table.chunk_size ((to_be_freed - a.buf) / 8) == 0
    then a
    else record a { table = free_run a.table ((to_be_freed - a.buf) / 8) }
