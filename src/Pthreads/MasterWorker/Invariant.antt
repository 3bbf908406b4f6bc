-- ===== src/Pthreads/MasterWorker/Invariant.antt =====
-- The invariant of the buffer and of the threads, and what it says of the items.
use operating_systems_labwor.Base.{
  ℕ, zero, suc, ◌+◌, ◌<◌, ◌≤◌, ◌≡◌, ◌≢◌, refl, ap, ◌⊎◌, inl, inr, ◌==◌, ltb, if◌then◌else◌, arith,
  List, [], ◌∷◌, length, get_or, set, get_or-set_ne, replicate,
}
use operating_systems_labwor.Pthreads.MasterWorker.{
  Thread, running, waiting, returned, State, thread, wake_one, wake, start_threads,
}

-- How often `v` occurs.
unfoldable pub count : ℕ → List ℕ → ℕ
count v [] = 0
count v (x ∷ xs) = (if v == x then 1 else 0) + count v xs

-- How often `v` occurs among the first `n` entries.
unfoldable pub count_first : ℕ → ℕ → List ℕ → ℕ
count_first v zero l = 0
count_first v (suc n) l = count_first v n l + (if v == get_or l n 0 then 1 else 0)

module _ (total_items max_buf_size : ℕ) where
  pub record IsSafe (s : State) : Type 0 where
    pub capacity : length s.buffer ≡ max_buf_size
    pub fits : s.curr_buf_size ≤ max_buf_size
    pub made : s.item_to_produce ≤ total_items
    pub once :
        (v : ℕ)
        → count v s.consumed + count_first v s.curr_buf_size s.buffer
          ≡ (if ltb v s.item_to_produce then 1 else 0)
    pub master_waits : (i : ℕ) → thread s.masters i ≡ waiting → s.curr_buf_size ≡ max_buf_size
    pub worker_waits :
        (i : ℕ)
        → thread s.workers i ≡ waiting
        → (s.curr_buf_size ≡ 0) × (s.item_to_produce < total_items)
    pub master_done :
        (i : ℕ)
        → i < length s.masters
        → thread s.masters i ≡ returned
        → s.item_to_produce ≡ total_items
    pub worker_done :
        (i : ℕ)
        → i < length s.workers
        → thread s.workers i ≡ returned
        → (s.curr_buf_size ≡ 0) × (s.item_to_produce ≡ total_items)

-- Nobody waits after a broadcast, and nobody returns by it.
pub thread-wake : (l : List Thread) (i : ℕ) → thread (wake l) i ≢ waiting
unfolding wake wake_one
thread-wake [] i e = cc e
thread-wake (running ∷ l) zero e = cc e
thread-wake (waiting ∷ l) zero e = cc e
thread-wake (returned ∷ l) zero e = cc e
thread-wake (x ∷ l) (suc i) e = thread-wake l i e

pub wake-returned : (l : List Thread) (i : ℕ) → thread (wake l) i ≡ returned → thread l i ≡ returned
unfolding wake wake_one
wake-returned [] i e = e
wake-returned (running ∷ l) zero e = e
wake-returned (waiting ∷ l) zero e = cc e
wake-returned (returned ∷ l) zero e = e
wake-returned (x ∷ l) (suc i) e = wake-returned l i e

pub length-wake : (l : List Thread) → length (wake l) ≡ length l
unfolding wake
length-wake [] = refl
length-wake (x ∷ l) = ap suc (length-wake l)

pub count_first-next :
    (v n : ℕ) (l : List ℕ)
    → count_first v (n + 1) l ≡ count_first v n l + (if v == get_or l n 0 then 1 else 0)
unfolding count_first
count_first-next v n l =
    let next : n + 1 ≡ suc n = omega arith in ap (λ (m : ℕ). count_first v m l) next

-- Writing an entry at or after the first `n` changes none of them.
pub count_first-set :
    (v n : ℕ) (l : List ℕ) (i x : ℕ) → n ≤ i → count_first v n (set l i x) ≡ count_first v n l
unfolding count_first
count_first-set v zero l i x h = refl
count_first-set v (suc n) l i x h = rw (get_or-set_ne l i n x 0 (omega arith)) (
    ap (λ (c : ℕ). c + (if v == get_or l n 0 then 1 else 0))
      (count_first-set v n l i x (omega arith)))

-- Thread `j`, after thread `i` has been set.
pub set_cases :
    (l : List Thread) (i j : ℕ) (x : Thread)
    → (thread (set l i x) j ≡ x) ⊎ (thread (set l i x) j ≡ thread l j)
set_cases [] i j x = inr refl
set_cases (y ∷ l) zero zero x = inl refl
set_cases (y ∷ l) zero (suc j) x = inr refl
set_cases (y ∷ l) (suc i) zero x = inr refl
set_cases (y ∷ l) (suc i) (suc j) x = set_cases l i j x

pub start-IsSafe :
    (total_items max_buf_size num_masters num_workers : ℕ) (memory : List ℕ)
    → length memory ≡ max_buf_size
    → IsSafe total_items max_buf_size (start_threads memory num_masters num_workers)
unfolding start_threads count count_first
start-IsSafe total max masters workers memory h = record {
  capacity = h;
  fits = omega arith;
  made = omega arith;
  once = λ v. ground arith;
  master_waits = λ i e. absurd (never masters i e);
  worker_waits = λ i e. absurd (never workers i e);
  master_done = λ i l e. absurd (runs masters i l e);
  worker_done = λ i l e. absurd (runs workers i l e);
}
  where
    never : (n i : ℕ) → thread (replicate n running) i ≡ waiting → ⊥
    never zero i e = cc e
    never (suc n) zero e = cc e
    never (suc n) (suc i) e = never n i e

    runs :
        (n i : ℕ) → i < length (replicate n running) → thread (replicate n running) i ≡ returned → ⊥
    runs zero i l e = absurd (omega arith)
    runs (suc n) zero l e = cc e
    runs (suc n) (suc i) l e = runs n i (omega arith) e
