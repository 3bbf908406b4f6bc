-- ===== src/Pthreads/MasterWorker.antt =====
-- CS236-Spring-2025-Labs/pthreads/pthreads-sync-code/master-worker/master-worker.c: masters put items
-- into a buffer from which workers take them. A thread holds `lock` from one acquisition to the next
-- release or wait, so a step is all that one thread does in between.
pub mod Invariant
pub mod Keeps
pub mod Progress
mod Tests
use operating_systems_labwor.Base.{
  ℕ, zero, suc, ◌+◌, ◌-◌, ◌<◌, ◌≡◌, Bool, true, false, ◌==◌, leb, if◌then◌else◌, List, [], ◌∷◌,
  get_or, set, replicate,
}

-- A thread that waits does so on `cond_p`, if it is a master, or `cond_c`, if it is a worker. One that
-- runs is about to acquire the lock, also after a wait.
pub data Thread : Type 0 where
  running waiting returned : Thread

-- `produced` and `consumed` are the items that have been printed, the last one first.
pub record State : Type 0 where
  pub item_to_produce : ℕ
  pub curr_buf_size : ℕ
  pub buffer : List ℕ
  pub produced : List ℕ
  pub consumed : List ℕ
  pub masters : List Thread
  pub workers : List Thread

abbrev pub thread : List Thread → ℕ → Thread
thread l i = get_or l i returned

-- `pthread_cond_broadcast`
unfoldable pub wake_one : Thread → Thread
wake_one running = running
wake_one waiting = running
wake_one returned = returned

unfoldable pub wake : List Thread → List Thread
wake [] = []
wake (x ∷ xs) = wake_one x ∷ wake xs

module _ (total_items max_buf_size : ℕ) where
  unfoldable pub produce_item : State → State
  produce_item s = record s {
    buffer = set s.buffer s.curr_buf_size s.item_to_produce;
    curr_buf_size = s.curr_buf_size + 1;
    item_to_produce = s.item_to_produce + 1;
    produced = s.item_to_produce ∷ s.produced;
    workers = wake s.workers;
  }

  -- What master `i` does while it holds the lock.
  unfoldable pub generate_requests : ℕ → State → State
  generate_requests i s =
      if leb max_buf_size s.curr_buf_size
      then record s { masters = set s.masters i waiting }
      else if leb total_items s.item_to_produce
      then record s { masters = set (wake s.masters) i returned }
      else produce_item s

  unfoldable pub consume_item : State → State
  consume_item s = record s {
    curr_buf_size = s.curr_buf_size - 1;
    consumed = get_or s.buffer (s.curr_buf_size - 1) 0 ∷ s.consumed;
    masters = wake s.masters;
  }

  -- What worker `i` does while it holds the lock.
  unfoldable pub consume_requests : ℕ → State → State
  consume_requests i s =
      if s.curr_buf_size == 0
      then (if leb total_items s.item_to_produce
          then record s { workers = set (wake s.workers) i returned }
          else record s { workers = set s.workers i waiting })
      else consume_item s

  -- A wait may also end without a broadcast.
  pub data Step (s : State) : State → Type 0 where
    master : (i : ℕ) → thread s.masters i ≡ running → Step s (generate_requests i s)
    worker : (i : ℕ) → thread s.workers i ≡ running → Step s (consume_requests i s)
    master_wakes :
        (i : ℕ)
        → thread s.masters i ≡ waiting
        → Step s (record s { masters = set s.masters i running })
    worker_wakes :
        (i : ℕ)
        → thread s.workers i ≡ waiting
        → Step s (record s { workers = set s.workers i running })

-- What `main` has made when the threads are started; `memory` is what `malloc` returns. A thread that
-- is not created yet has not moved.
unfoldable pub start_threads : List ℕ → ℕ → ℕ → State
start_threads memory num_masters num_workers = record {
  item_to_produce = 0;
  curr_buf_size = 0;
  buffer = memory;
  produced = [];
  consumed = [];
  masters = replicate num_masters running;
  workers = replicate num_workers running;
}

pub data Reach (total_items max_buf_size num_masters num_workers : ℕ) (memory : List ℕ)
    : State → Type 0 where
  start :
      Reach total_items max_buf_size num_masters num_workers memory
        (start_threads memory num_masters num_workers)
  later :
      {s t : State}
      → Reach total_items max_buf_size num_masters num_workers memory s
      → Step total_items max_buf_size s t
      → Reach total_items max_buf_size num_masters num_workers memory t
