-- ===== src/Pthreads/MasterWorker/Progress.antt =====
-- What a run of masters and workers comes to: it cannot get stuck, and when a worker has returned
-- every item has been consumed.
use operating_systems_labwor.Base.{
  ℕ, zero, suc, ◌<◌, ◌≡◌, ◌⊎◌, inl, inr, refl, ap, ◌∙◌, Bool, Bool-cases, ◌==◌, ltb, leb,
  if◌then◌else◌, arith, List, [], ◌∷◌, length, length-set, length-replicate,
}
use operating_systems_labwor.Pthreads.MasterWorker.{
  Thread, running, waiting, returned, State, thread, wake, produce_item, generate_requests,
  consume_item, consume_requests, Step, master, worker, master_wakes, worker_wakes, start_threads,
  Reach, start, later,
}
use operating_systems_labwor.Pthreads.MasterWorker.Invariant.{
  count, count_first, IsSafe, length-wake,
}
use operating_systems_labwor.Pthreads.MasterWorker.Keeps.{reach-IsSafe}

-- All threads have returned.
abbrev pub HasEnded : State → Type 0
HasEnded s =
    ((i : ℕ) → i < length s.masters → thread s.masters i ≡ returned)
    × ((i : ℕ) → i < length s.workers → thread s.workers i ≡ returned)

-- Some thread is about to acquire the lock.
abbrev pub CanMove : State → Type 0
CanMove s = ((i : ℕ) × (thread s.masters i ≡ running)) ⊎ ((i : ℕ) × (thread s.workers i ≡ running))

thread_cases : (x : Thread) → (x ≡ running) ⊎ (x ≡ waiting) ⊎ (x ≡ returned)
thread_cases running = inl refl
thread_cases waiting = inr (inl refl)
thread_cases returned = inr (inr refl)

-- One of the threads runs, or else one waits, or else all have returned.
survey :
    (l : List Thread)
    → ((i : ℕ) × (thread l i ≡ running))
      ⊎ ((i : ℕ) × (thread l i ≡ waiting))
      ⊎ ((i : ℕ) → i < length l → thread l i ≡ returned)
survey [] = inr (inr (λ i l. refl))
survey (running ∷ l) = inl (0, refl)
survey (waiting ∷ l) = elim (survey l) [ inl (i, e) ↦ inl (suc i, e) | inr _ ↦ inr (inl (0, refl)) ]
survey (returned ∷ l) = elim (survey l) [
  | inl (i, e) ↦ inl (suc i, e)
  | inr (inl (i, e)) ↦ inr (inl (suc i, e))
  | inr (inr all) ↦ inr (inr (ended l all))
]
  where
    ended :
        (l : List Thread)
        → ((i : ℕ) → i < length l → thread l i ≡ returned)
        → (i : ℕ) → i < suc (length l)
        → thread (returned ∷ l) i ≡ returned
    ended l all zero h = refl
    ended l all (suc i) h = all i (omega arith)

-- No step starts or loses a thread.
module _ (total max : ℕ) where
  SameThreads : State → State → Type 0
  SameThreads s t = (length t.masters ≡ length s.masters) × (length t.workers ≡ length s.workers)

  Step-threads : (s t : State) → Step total max s t → SameThreads s t
  unfolding generate_requests consume_requests produce_item consume_item SameThreads
  Step-threads s t (master i _) = elim (Bool-cases (leb max s.curr_buf_size)) [
    | inl full ↦ rw full (length-set s.masters i waiting, refl)
    | inr room ↦ elim (Bool-cases (leb total s.item_to_produce)) [
      | inl enough ↦
          rw (room, enough) (length-set (wake s.masters) i returned ∙ length-wake s.masters, refl)
      | inr more ↦ rw (room, more) (refl, length-wake s.workers)
    ]
  ]
  Step-threads s t (worker i _) = elim (Bool-cases (s.curr_buf_size == 0)) [
    | inr full ↦ rw full (length-wake s.masters, refl)
    | inl empty ↦ elim (Bool-cases (leb total s.item_to_produce)) [
      | inl enough ↦
          rw (empty, enough) (refl, length-set (wake s.workers) i returned ∙ length-wake s.workers)
      | inr more ↦ rw (empty, more) (refl, length-set s.workers i waiting)
    ]
  ]
  Step-threads s t (master_wakes i _) = (length-set s.masters i running, refl)
  Step-threads s t (worker_wakes i _) = (refl, length-set s.workers i running)

  module _ (masters workers : ℕ) (memory : List ℕ) where
    reach_threads :
        (s : State)
        → Reach total max masters workers memory s
        → (length s.masters ≡ masters) × (length s.workers ≡ workers)
    unfolding start_threads SameThreads
    reach_threads s start = (length-replicate masters running, length-replicate workers running)
    reach_threads t (later {s} r step) =
        let (m, w) = reach_threads s r in let (m', w') = Step-threads s t step in (m' ∙ m, w' ∙ w)

    module _ (sized : length memory ≡ max) (s : State)
        (r : Reach total max masters workers memory s) where
      safe : IsSafe total max s
      safe = reach-IsSafe total max masters workers memory s sized r

      -- With at least one master, one worker and a buffer of `max_buf_size` entries, at least one, there
      -- is no deadlock: in each
      -- state that is reached all threads have returned, or one of them is about to acquire the lock.
      pub reach_progress : 0 < max → 0 < masters → 0 < workers → HasEnded s ⊎ CanMove s
      reach_progress room some_master some_worker = elim (survey s.masters) [
        | inl m ↦ inr (inl m)
        | inr masters_rest ↦ elim (survey s.workers) [
          | inl w ↦ inr (inr w)
          | inr workers_rest ↦ inl (both masters_rest workers_rest)
        ]
      ]
        where
          both :
              ((i : ℕ) × (thread s.masters i ≡ waiting))
                ⊎ ((i : ℕ) → i < length s.masters → thread s.masters i ≡ returned)
              → ((i : ℕ) × (thread s.workers i ≡ waiting))
                ⊎ ((i : ℕ) → i < length s.workers → thread s.workers i ≡ returned)
              → HasEnded s
          both (inr m) (inr w) = (m, w)
          both (inl (i, e)) (inl (j, d)) =
              absurd (omega (arith, safe.master_waits i e, safe.worker_waits j d))
          both (inl (i, e)) (inr w) =
              let l : 0 < length s.workers = omega (arith, reach_threads s r) in
              absurd (omega (arith, safe.master_waits i e, safe.worker_done 0 l (w 0 l)))
          both (inr m) (inl (j, d)) =
              let l : 0 < length s.masters = omega (arith, reach_threads s r) in
              absurd (omega (arith, safe.worker_waits j d, safe.master_done 0 l (m 0 l)))

      -- With a buffer of `max_buf_size` entries, when one of the workers has returned, each of the items from 0 to `total_items` - 1 has been
      -- consumed exactly once, and nothing else has been.
      pub all_consumed :
          (i : ℕ)
          → i < workers
          → thread s.workers i ≡ returned
          → (v : ℕ) → count v s.consumed ≡ (if ltb v total then 1 else 0)
      unfolding count_first
      all_consumed i l e v =
          let (empty, all) = safe.worker_done i (omega (arith, reach_threads s r)) e in
          let none_left = ap (λ (n : ℕ). count_first v n s.buffer) empty in
          let one : Bool → ℕ = λ b. if b then 1 else 0 in
          let every = ap (λ (n : ℕ). one (ltb v n)) all in
          omega (arith, safe.once v, none_left, every)
