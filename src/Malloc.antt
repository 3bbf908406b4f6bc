-- ===== src/Malloc.antt =====
-- labs/malloc-code: two allocators of chunks of mapped pages.
pub mod Alloc
pub mod Ealloc
pub mod Runs
mod Tests
