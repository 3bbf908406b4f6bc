-- ===== src/Pthreads/MasterWorker/Keeps.antt =====
-- Every step keeps the invariant.
use operating_systems_labwor.Base.{
  ℕ, ◌+◌, ◌-◌, ◌<◌, ◌≤◌, ◌≡◌, ◌≢◌, inl, inr, sym, ap, ◌∙◌, Bool-cases, ◌==◌, ltb, leb,
  if◌then◌else◌, arith, List, length, get_or, set, length-set, get_or-set_self,
}
use operating_systems_labwor.Pthreads.MasterWorker.{
  Thread, running, waiting, returned, State, wake, produce_item, generate_requests, consume_item,
  consume_requests, Step, master, worker, master_wakes, worker_wakes, Reach, start, later,
}
use operating_systems_labwor.Pthreads.MasterWorker.Invariant.{
  count, count_first, IsSafe, thread-wake, wake-returned, length-wake, count_first-next,
  count_first-set, set_cases, start-IsSafe,
}

module _ (total max : ℕ) (s : State) (c : IsSafe total max s) where
  -- Master `i` waits, or runs again.
  set_master :
      (i : ℕ) (x : Thread)
      → x ≢ returned
      → (x ≡ waiting → s.curr_buf_size ≡ max)
      → IsSafe total max (record s { masters = set s.masters i x })
  set_master i x alive full = record {
    capacity = c.capacity;
    fits = c.fits;
    made = c.made;
    once = c.once;
    master_waits = λ j e. elim (set_cases s.masters i j x) [
      | inl new ↦ full (sym new ∙ e)
      | inr old ↦ c.master_waits j (sym old ∙ e)
    ];
    worker_waits = c.worker_waits;
    master_done = λ j l e. elim (set_cases s.masters i j x) [
      | inl new ↦ absurd (alive (sym new ∙ e))
      | inr old ↦ c.master_done j (omega (arith, length-set s.masters i x)) (sym old ∙ e)
    ];
    worker_done = c.worker_done;
  }

  -- Worker `i` waits, or runs again.
  set_worker :
      (i : ℕ) (x : Thread)
      → x ≢ returned
      → (x ≡ waiting → (s.curr_buf_size ≡ 0) × (s.item_to_produce < total))
      → IsSafe total max (record s { workers = set s.workers i x })
  set_worker i x alive empty = record {
    capacity = c.capacity;
    fits = c.fits;
    made = c.made;
    once = c.once;
    master_waits = c.master_waits;
    worker_waits = λ j e. elim (set_cases s.workers i j x) [
      | inl new ↦ empty (sym new ∙ e)
      | inr old ↦ c.worker_waits j (sym old ∙ e)
    ];
    master_done = c.master_done;
    worker_done = λ j l e. elim (set_cases s.workers i j x) [
      | inl new ↦ absurd (alive (sym new ∙ e))
      | inr old ↦ c.worker_done j (omega (arith, length-set s.workers i x)) (sym old ∙ e)
    ];
  }

  master_returns :
      (i : ℕ)
      → total ≤ s.item_to_produce
      → IsSafe total max (record s { masters = set (wake s.masters) i returned })
  master_returns i enough = record {
    capacity = c.capacity;
    fits = c.fits;
    made = c.made;
    once = c.once;
    master_waits = λ j e. elim (set_cases (wake s.masters) i j returned) [
      | inl new ↦ cc (new, e)
      | inr old ↦ absurd (thread-wake s.masters j (sym old ∙ e))
    ];
    worker_waits = c.worker_waits;
    master_done = λ j l e. omega (arith, c.made);
    worker_done = c.worker_done;
  }

  worker_returns :
      (i : ℕ)
      → s.curr_buf_size ≡ 0
      → total ≤ s.item_to_produce
      → IsSafe total max (record s { workers = set (wake s.workers) i returned })
  worker_returns i empty enough = record {
    capacity = c.capacity;
    fits = c.fits;
    made = c.made;
    once = c.once;
    master_waits = c.master_waits;
    worker_waits = λ j e. elim (set_cases (wake s.workers) i j returned) [
      | inl new ↦ cc (new, e)
      | inr old ↦ absurd (thread-wake s.workers j (sym old ∙ e))
    ];
    master_done = c.master_done;
    worker_done = λ j l e. (empty, omega (arith, c.made));
  }

  produce-IsSafe :
      s.curr_buf_size < max
      → s.item_to_produce < total
      → IsSafe total max (produce_item total max s)
  unfolding produce_item count count_first
  produce-IsSafe room more = record {
    capacity = length-set s.buffer s.curr_buf_size s.item_to_produce ∙ c.capacity;
    fits = omega arith;
    made = omega arith;
    once = λ v. put v;
    master_waits = λ j e. absurd (omega (arith, c.master_waits j e));
    worker_waits = λ j e. absurd (thread-wake s.workers j e);
    master_done = λ j l e. absurd (omega (arith, c.master_done j l e));
    worker_done = λ j l e. absurd (
        omega (
          arith,
          c.worker_done j (omega (arith, length-wake s.workers)) (wake-returned s.workers j e),
        ));
  }
    where
      put :
          (v : ℕ)
          → count v s.consumed
              + count_first v (s.curr_buf_size + 1) (set s.buffer s.curr_buf_size s.item_to_produce)
            ≡ (if ltb v (s.item_to_produce + 1) then 1 else 0)
      put v =
          rw
            (
              count_first-next v s.curr_buf_size (set s.buffer s.curr_buf_size s.item_to_produce),
              count_first-set v s.curr_buf_size s.buffer s.curr_buf_size s.item_to_produce
                  (omega arith),
              get_or-set_self s.buffer s.curr_buf_size s.item_to_produce 0
                  (omega (arith, c.capacity)),
            )
            (ground (arith, c.once v))

  consume-IsSafe : 0 < s.curr_buf_size → IsSafe total max (consume_item total max s)
  unfolding consume_item count count_first
  consume-IsSafe full = record {
    capacity = c.capacity;
    fits = omega (arith, c.fits);
    made = c.made;
    once = λ v. got v;
    master_waits = λ j e. absurd (thread-wake s.masters j e);
    worker_waits = λ j e. absurd (omega (arith, c.worker_waits j e));
    master_done = λ j l e.
        c.master_done j (omega (arith, length-wake s.masters)) (wake-returned s.masters j e);
    worker_done = λ j l e. absurd (omega (arith, c.worker_done j l e));
  }
    where
      got :
          (v : ℕ)
          → (if v == get_or s.buffer (s.curr_buf_size - 1) 0 then 1 else 0)
              + count v s.consumed
              + count_first v (s.curr_buf_size - 1) s.buffer
            ≡ (if ltb v s.item_to_produce then 1 else 0)
      got v =
          let at_last : s.curr_buf_size ≡ s.curr_buf_size - 1 + 1 = omega arith in
          let last =
            ap (λ (m : ℕ). count_first v m s.buffer) at_last
            ∙ count_first-next v (s.curr_buf_size - 1) s.buffer in
          omega (arith, c.once v, last)

  -- What a master does with the lock keeps the invariant.
  generate-IsSafe : (i : ℕ) → IsSafe total max (generate_requests total max i s)
  unfolding generate_requests
  generate-IsSafe i = elim (Bool-cases (leb max s.curr_buf_size)) [
    | inl full ↦ rw full (set_master i waiting (λ e. cc e) (λ _. ground (arith, c.fits)))
    | inr room ↦ elim (Bool-cases (leb total s.item_to_produce)) [
      | inl enough ↦ rw (room, enough) (master_returns i (ground arith))
      | inr more ↦ rw (room, more) (produce-IsSafe (ground arith) (ground arith))
    ]
  ]

  -- What a worker does with the lock keeps the invariant.
  consume_requests-IsSafe : (i : ℕ) → IsSafe total max (consume_requests total max i s)
  unfolding consume_requests
  consume_requests-IsSafe i = elim (Bool-cases (s.curr_buf_size == 0)) [
    | inr full ↦ rw full (consume-IsSafe (ground arith))
    | inl empty ↦ elim (Bool-cases (leb total s.item_to_produce)) [
      | inl enough ↦ rw (empty, enough) (worker_returns i (ground arith) (ground arith))
      | inr more ↦
          rw (empty, more) (set_worker i waiting (λ e. cc e) (λ _. (ground arith, ground arith)))
    ]
  ]

-- Every step of a thread keeps the invariant: the buffer does not overflow, each item that is made is
-- in the buffer once or has been consumed once, a master waits only while the buffer is full and a
-- worker only while it is empty and items are left to make, and a thread returns only when all are
-- made, a worker only when the buffer is empty, too.
pub Step-IsSafe :
    (total max : ℕ) (s t : State) → IsSafe total max s → Step total max s t → IsSafe total max t
Step-IsSafe total max s t c (master i _) = generate-IsSafe total max s c i
Step-IsSafe total max s t c (worker i _) = consume_requests-IsSafe total max s c i
Step-IsSafe total max s t c (master_wakes i _) =
    set_master total max s c i running (λ e. cc e) (λ e. cc e)
Step-IsSafe total max s t c (worker_wakes i _) =
    set_worker total max s c i running (λ e. cc e) (λ e. cc e)

pub reach-IsSafe :
    (total max masters workers : ℕ) (memory : List ℕ) (s : State)
    → length memory ≡ max
    → Reach total max masters workers memory s
    → IsSafe total max s
reach-IsSafe total max masters workers memory s h start =
    start-IsSafe total max masters workers memory h
reach-IsSafe total max masters workers memory t h (later {s} r step) =
    Step-IsSafe total max s t (reach-IsSafe total max masters workers memory s h r) step
