-- ===== src/Xv6/Sync/Tests.antt =====
-- Runs of a semaphore of user programs, and its theorems at states that it reaches.
use operating_systems_labwor.Base.{ℕ, ◌+◌, ◌-◌, ◌≤◌, ◌≡◌, refl, min, arith, true, ℤ, pos, negsuc}
use operating_systems_labwor.Pthreads.Zemaphore.{decrement, increment, is_negative}
use operating_systems_labwor.Xv6.Sync.{
  Semaphore, initiate_lock, acquire_lock, release_lock, initiate_cond_var, sem_init, sig_one,
  signal_one, sem_up, end_down, cond_wait, sem_down, fall_asleep, finish_wait, broadcast_all, Run,
  starts, downs, ups, sleeps, goes_on,
}
use operating_systems_labwor.Xv6.Sync.Laws.{Run-permits}
use operating_systems_labwor.Xv6.Sync.Laws.Exact.{NoneLeaves, Run-exact}

-- All that a run computes with.
synchronization : ℕ
unfolding decrement increment is_negative initiate_lock acquire_lock release_lock initiate_cond_var
    sem_init sig_one signal_one sem_up end_down cond_wait sem_down fall_asleep finish_wait
    broadcast_all
synchronization = 0

-- The counter and the threads of a semaphore on channel 5.
abbrev at_state : ℤ → ℕ → ℕ → ℕ → ℕ → Semaphore
at_state ctr leaving asleep woken passed = record {
  ctr = ctr;
  l = record { lockvar = 0; is_initiated = true };
  cv = record { var = 5; is_initiated = true };
  is_initiated = true;
  leaving = leaving;
  asleep = asleep;
  woken = woken;
  passed = passed;
}

abbrev Any : Semaphore → Type 0
Any s = Unit

-- A thread calls semDown on a semaphore of 0 and releases the lock; another calls semUp, which wakes
-- nobody; then the first falls asleep, with the counter at 0 and nobody to wake it.
lost_wakeup : Run Any 0 5 1 1 (at_state (pos 0) 0 1 0 0)
unfolding synchronization
lost_wakeup =
    sleeps {s = at_state (pos 0) 1 0 0 0}
      (ups {s = at_state (negsuc 0) 1 0 0 0} (downs {s = at_state (pos 0) 0 0 0 0} starts refl) tt
        refl)
      (omega arith)

-- Here the thread is asleep when semUp is called, and passes.
woken_up : Run NoneLeaves 0 5 1 1 (at_state (pos 0) 0 0 0 1)
unfolding synchronization
woken_up =
    goes_on {s = at_state (pos 0) 0 0 1 0}
      (ups {s = at_state (negsuc 0) 0 1 0 0}
        (sleeps {s = at_state (negsuc 0) 1 0 0 0} (downs {s = at_state (pos 0) 0 0 0 0} starts refl)
          (omega arith))
        refl refl)
      (omega arith) refl

broadcast_result : broadcast_all (at_state (negsuc 1) 0 2 0 0) ≡ at_state (negsuc 1) 0 0 2 0
unfolding synchronization
broadcast_result = refl

Run-permits_example :
    ((at_state (pos 0) 0 1 0 0).passed + (at_state (pos 0) 0 1 0 0).woken ≤ 0 + 1)
    × ((at_state (pos 0) 0 1 0 0).l ≡ initiate_lock)
Run-permits_example =
    Run-permits {P = Any} {v = 0} {channel = 5} 1 1 (at_state (pos 0) 0 1 0 0) lost_wakeup

Run-exact_example :
    ((at_state (pos 0) 0 0 0 1).passed + (at_state (pos 0) 0 0 0 1).woken ≡ min 1 (0 + 1))
    × ((at_state (pos 0) 0 0 0 1).leaving + (at_state (pos 0) 0 0 0 1).asleep ≡ 1 - (0 + 1))
Run-exact_example = Run-exact {v = 0} {channel = 5} 1 1 (at_state (pos 0) 0 0 0 1) woken_up
