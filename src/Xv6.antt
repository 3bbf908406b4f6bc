-- ===== src/Xv6.antt =====
-- Changes of the kernel xv6. What a file of xv6 calls in others is a parameter.
pub mod Barrier
pub mod Sync
pub mod Threads
