-- ===== src/Malloc/Runs.antt =====
-- The arrays `bit` and `chunk_size` that alloc.c and ealloc.c share in shape, the search for a run of
-- free chunks and the loops that mark one.
pub mod Search
pub mod Undo
pub mod Valid
use operating_systems_labwor.Base.{
  ℕ, zero, suc, ◌+◌, ◌-◌, ◌≢◌, ◌≡◌, ◌<◌, ◌≤◌, Bool, true, false, Option, none, some, List, ◌==◌,
  if◌then◌else◌, length, get_or, set,
}

pub record Table : Type 0 where
  pub bit : List ℕ
  pub chunk_size : List ℕ

-- Entry `i` of an array.
abbrev pub at : List ℕ → ℕ → ℕ
at l i = get_or l i 0

-- `if (bit[i+offset]) current = 0; else current++;`
unfoldable pub next_current : List ℕ → ℕ → ℕ → ℕ → ℕ
next_current bit offset i current = if at bit (i + offset) == 0 then current + 1 else 0

-- The loop over the chunks of a page: `rounds` are left, and the result is the index at which
-- `current` has reached `num_chunks`.
unfoldable pub search_run : List ℕ → ℕ → ℕ → ℕ → ℕ → ℕ → Option ℕ
search_run bit offset num_chunks zero i current = none
search_run bit offset num_chunks (suc rounds) i current =
    elim (next_current bit offset i current == num_chunks) [
      | true ↦ some i
      | false ↦ search_run bit offset num_chunks rounds (i + 1) (next_current bit offset i current)
    ]

-- `for (l = j; l < j+count; l++) bit[l] = value;`
unfoldable pub fill : List ℕ → ℕ → ℕ → ℕ → List ℕ
fill bit j zero value = bit
fill bit j (suc count) value = fill (set bit j value) (j + 1) count value

-- The two loops that take a run: `bit` is set from `j` on, and `chunk_size[j] = num_chunks`.
unfoldable pub take_run : Table → ℕ → ℕ → Table
take_run t j num_chunks = record {
  bit = fill t.bit j num_chunks 1;
  chunk_size = set t.chunk_size j num_chunks;
}

-- The end of both `dealloc`s: the run at `start` is given back.
unfoldable pub free_run : Table → ℕ → Table
free_run t start = record {
  bit = fill t.bit start (at t.chunk_size start) 0;
  chunk_size = set t.chunk_size start 0;
}
