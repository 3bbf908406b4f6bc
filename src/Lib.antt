-- ===== src/Lib.antt =====
-- A model of the programs of the operating systems labs, with what is proved of it.
--
-- Simplefs: CS236-Spring-2025-Labs/file-system, a file system of 8 inodes and 30 data blocks of 64
-- bytes in one disk file. simplefs-ops.c (the operations on files) calls simplefs-disk.c (the disk
-- layer), and both share `file_handle_array`.
--   Simplefs/Image: the disk file as `lseek`, `read` and `write` see it, byte for byte.
--   Simplefs/Codec: the bytes of `struct superblock_t` and `struct inode_t` (4-byte little-endian
--     `int`, no padding).
--   Simplefs/State: the state (disk file, `file_handle_array`, uninitialised memory), and commands
--     on it. A command returns a value, stops at a failed `assert`, or is undefined in C.
--   Simplefs/Disk: simplefs-disk.c, one definition for each function. Its children hold the views
--     of the disk (Views), each call by what it does to them (Calls, Store, Alloc) and formatting.
--   Simplefs/Files: create, delete, open, close and seek of simplefs-ops.c; Simplefs/Transfer: read
--     and write. The children of Files hold the theorems.
--   Simplefs/Consistent: the invariant that ties the free lists, the inodes and the open files.
-- A loop over an array of fixed size is a recursion on the list, or on the number of rounds left;
-- the loops of read and write recur on the entries of `direct_blocks` that are left, so no loop
-- takes fuel. An `int` is an integer; where a sum of a caller's argument could leave the range of
-- `int` the model says that the call is undefined. A `char` is its code, a file name the list of its
-- characters without the final zero. `malloc` is assumed to succeed, and `write` to write all of its
-- bytes. simplefs_dump, which only prints, is not modelled.
-- The children of Transfer hold the contents of files, what read returns, and write inside a file
-- (InPlace, ReadBack) and refused.
--   Simplefs/FsMain: labs/fs-main/simplefs-ops.c, the solution of the earlier course, over the same
-- disk layer. Its children compare it with the later one. What its write does behind the handle is
-- the same code, and is defined once, in Simplefs/Transfer.
--
-- Malloc: labs/malloc-code, allocators of chunks of mapped pages.
--   Malloc/Runs: the arrays `bit` and `chunk_size`, the search for a run of free chunks and the loops
--     that mark one; Runs/Search and Runs/Valid prove what they do and the invariant that they keep.
--   Malloc/Alloc: alloc.c, one page of 512 chunks of 8 bytes. What `mmap` returns is an argument of
--     init_alloc, and an address is a natural number. The search recurs on the number of chunks that
--     are left.
--   Malloc/Ealloc: ealloc.c, four pages of 16 chunks of 256 bytes over the same table and search. A page
--     is mapped when it is first searched; what `mmap` returns for it is an argument of alloc.
-- `cleanup` of both files, which only calls `munmap`, is not modelled.
--
-- Pthreads/MasterWorker: CS236-Spring-2025-Labs/pthreads/pthreads-sync-code/master-worker/
-- master-worker.c, masters and workers that share a buffer under one lock. generate_requests and
-- consume_requests are what a thread of generate_requests_loop or consume_requests_loop does between
-- two acquisitions of the lock; Step interleaves them in any order, with broadcasts that wake all who
-- wait and with waits that end by themselves. Invariant states what holds in every state, Keeps
-- proves it of each step, Progress draws what a run comes to. The two counters and the arguments of
-- the program are natural numbers; `main` after the threads are started is not modelled.
--
-- Pthreads/Zemaphore: zemaphore.c in the same folder, a semaphore. A state counts the threads that wait
-- and those that have passed zem_down; run_calls runs the critical sections of all threads in the order
-- in which they have the lock. As POSIX allows, a wait may also end by itself, and a signal may let more
-- threads go on than one; since zem_down waits under an `if`, such a thread passes without a permit (the
-- test early_end). The counter does not overflow.
--
-- Xv6/Threads: CS236-Spring-2025-Labs/xv6-threads/proc.c, the kernel's table of processes and threads.
--   Threads/Kernel: what proc.c calls in the rest of the kernel (pages, page tables, files), a
--     parameter of all that follows; Threads/Table: struct proc and the loops over the table.
--   Threads/Proc, Threads/Wait: one definition for each function, named as in the source (yield_cpu for
--     yield, sleep_chan for sleepChan and so on). A call returns, switches to the scheduler, or panics.
--   Threads/System: any running process makes any call, and the scheduler picks any that is runnable,
--     which goes on where it has stopped (the field `context`).
-- What a call does under `ptable.lock` up to the next switch is one step, and so are the parts of exit,
-- growproc, fork and thread_create that run without the lock, and the scan of sigOneChan. getChannel
-- takes no lock: its step is the store of `nextpid`, with values that it has read at any time before, and
-- Undisturbed says of a run that each was still the value at the store (the tests channel_taken and
-- numbers_again show what happens else). A thread
-- whose entry is freed while it runs takes no more steps, though a real one would go on. A pointer to
-- an entry is its index; the counter of numbers does not overflow. Kept says what the loops do to each
-- entry, Numbers and Wakeups hold the invariants and their proofs call by call, Collects the outcome
-- of wait. procdump, which only prints, forkret, mycpu and the checks of sched are not modelled.
--
-- Xv6/Barrier: barrier.c in the same folder; Xv6/Sync: the locks, condition variables and semaphores that
-- ulib.c adds. Threads are counted by where they are: between the lock and the sleep, asleep, woken and
-- waiting for the lock, or done. Run takes a condition that holds whenever semUp is called, since condWait
-- releases the lock before the thread sleeps (the test lost_wakeup shows what may come between). The
-- barrier is modelled with its reuse, where it fails (the test passes_alone). The counters do not overflow.
pub mod Base
pub mod Malloc
pub mod Pthreads
pub mod Simplefs
pub mod Xv6
