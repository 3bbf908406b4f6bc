-- ===== src/Xv6/Threads.antt =====
-- CS236-Spring-2025-Labs/xv6-threads/proc.c: the table of processes and threads.
pub mod Collects
pub mod Kernel
pub mod Kept
pub mod Table
pub mod Numbers
pub mod Proc
pub mod System
pub mod Wait
pub mod Wakeups
mod Tests
