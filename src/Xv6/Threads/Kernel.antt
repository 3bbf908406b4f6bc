-- ===== src/Xv6/Threads/Kernel.antt =====
-- What proc.c calls in the rest of the kernel: memory, page tables, files.
use operating_systems_labwor.Base.{ℕ}

-- Addresses, page tables, files and inodes are numbers, a null pointer is 0. What a call does to the
-- rest of the kernel is left open.
pub record Kernel : Type 1 where
  pub World : Type 0
  pub kalloc : World → ℕ × World
  pub kfree : ℕ → World → World
  pub copyuvm : ℕ → ℕ → World → ℕ × World
  pub freevm : ℕ → World → World
  pub allocuvm : ℕ → ℕ → ℕ → World → ℕ × World
  pub deallocuvm : ℕ → ℕ → ℕ → World → ℕ × World
  pub create_thread_stack : ℕ → World → ℕ × World
  pub store_word : ℕ → ℕ → World → World
  pub filedup : ℕ → World → World
  pub fileclose : ℕ → World → World
  pub idup : ℕ → World → World
  pub iput : ℕ → World → World
