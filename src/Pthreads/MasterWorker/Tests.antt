-- ===== src/Pthreads/MasterWorker/Tests.antt =====
-- A run of one master and one worker that hand over two items through a buffer of one entry.
use operating_systems_labwor.Base.{ℕ, ◌≡◌, ◌⊎◌, refl, ltb, if◌then◌else◌, arith, List, [], ◌∷◌}
use operating_systems_labwor.Pthreads.MasterWorker.{
  waiting, returned, State, thread, wake_one, wake, produce_item, generate_requests, consume_item,
  consume_requests, Step, master, worker, start_threads, Reach, start, later,
}
use operating_systems_labwor.Pthreads.MasterWorker.Invariant.{count, IsSafe}
use operating_systems_labwor.Pthreads.MasterWorker.Keeps.{Step-IsSafe, reach-IsSafe}
use operating_systems_labwor.Pthreads.MasterWorker.Progress.{
  HasEnded, CanMove, reach_progress, all_consumed,
}

-- All that a run computes with.
machine : ℕ
unfolding generate_requests consume_requests produce_item consume_item wake wake_one start_threads
    count
machine = 0

abbrev memory : List ℕ
memory = 9 ∷ []

abbrev made_first : State
made_first = generate_requests 2 1 0 (start_threads memory 1 1)

abbrev master_waits : State
master_waits = generate_requests 2 1 0 made_first

abbrev took_first : State
took_first = consume_requests 2 1 0 master_waits

abbrev made_second : State
made_second = generate_requests 2 1 0 took_first

abbrev took_second : State
took_second = consume_requests 2 1 0 made_second

abbrev worker_ended : State
worker_ended = consume_requests 2 1 0 took_second

waits_when_full : master_waits.masters ≡ waiting ∷ []
unfolding machine
waits_when_full = refl

items : worker_ended.consumed ≡ 1 ∷ 0 ∷ []
unfolding machine
items = refl

reach_first : Reach 2 1 1 1 memory made_first
unfolding machine
reach_first = later start (master 0 refl)

reach_full : Reach 2 1 1 1 memory master_waits
unfolding machine
reach_full = later reach_first (master 0 refl)

reach_end : Reach 2 1 1 1 memory worker_ended
unfolding machine
reach_end =
    later (later (later (later reach_full (worker 0 refl)) (master 0 refl)) (worker 0 refl))
      (worker 0 refl)

worker_returned : thread worker_ended.workers 0 ≡ returned
unfolding machine
worker_returned = refl

reach_progress_example : HasEnded master_waits ⊎ CanMove master_waits
reach_progress_example =
    reach_progress 2 1 1 1 memory refl master_waits reach_full (omega arith) (omega arith)
      (omega arith)

all_consumed_example : count 1 worker_ended.consumed ≡ (if ltb 1 2 then 1 else 0)
all_consumed_example =
    all_consumed 2 1 1 1 memory refl worker_ended reach_end 0 (omega arith) worker_returned 1

reach-IsSafe_example : IsSafe 2 1 master_waits
reach-IsSafe_example = reach-IsSafe 2 1 1 1 memory master_waits refl reach_full

waiting-Step : Step 2 1 made_first master_waits
unfolding machine
waiting-Step = master 0 refl

first-IsSafe : IsSafe 2 1 made_first
first-IsSafe = reach-IsSafe 2 1 1 1 memory made_first refl reach_first

Step-IsSafe_example : IsSafe 2 1 master_waits
Step-IsSafe_example = Step-IsSafe 2 1 made_first master_waits first-IsSafe waiting-Step
