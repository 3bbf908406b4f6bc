-- ===== src/Pthreads.antt =====
-- CS236-Spring-2025-Labs/pthreads: programs of several threads.
pub mod MasterWorker
pub mod Zemaphore
