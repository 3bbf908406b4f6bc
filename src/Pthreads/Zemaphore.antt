-- ===== src/Pthreads/Zemaphore.antt =====
-- CS236-Spring-2025-Labs/pthreads/pthreads-sync-code/zemaphore/zemaphore.c: a semaphore of a counter,
-- a lock and a condition variable. What a thread does between two acquisitions of the lock is one call.
pub mod Laws
mod Tests
use operating_systems_labwor.Base.{
  ℕ, zero, suc, ◌+◌, ◌-◌, min, Bool, true, false, if◌then◌else◌, List, [], ◌∷◌, ℤ, pos, negsuc,
}

-- `waiting` counts the threads that wait on `cond`, `passed` those whose `zem_down` has nothing left to
-- do but to release the lock.
pub record Zem : Type 0 where
  pub value : ℤ
  pub waiting : ℕ
  pub passed : ℕ

unfoldable pub zem_init : ℤ → Zem
zem_init value = record { value = value; waiting = 0; passed = 0 }

unfoldable pub decrement : ℤ → ℤ
decrement (pos zero) = negsuc 0
decrement (pos (suc n)) = pos n
decrement (negsuc n) = negsuc (n + 1)

unfoldable pub increment : ℤ → ℤ
increment (pos n) = pos (n + 1)
increment (negsuc zero) = pos 0
increment (negsuc (suc n)) = negsuc n

unfoldable pub is_negative : ℤ → Bool
is_negative (pos n) = false
is_negative (negsuc n) = true

unfoldable pub zem_down : Zem → Zem
zem_down s =
    if is_negative (decrement s.value)
    then record s { value = decrement s.value; waiting = s.waiting + 1 }
    else record s { value = decrement s.value; passed = s.passed + 1 }

-- `n` of the threads that wait go on, or all if there are fewer.
unfoldable pub let_go : ℕ → Zem → Zem
let_go n s = record s { waiting = s.waiting - n; passed = s.passed + min n s.waiting }

-- `pthread_cond_signal` lets at least one of the threads that wait go on; `extra` is the number of
-- others that go on too.
unfoldable pub signal : ℕ → Zem → Zem
signal extra s = let_go (extra + 1) s

unfoldable pub zem_up : ℕ → Zem → Zem
zem_up extra s = signal extra (record s { value = increment s.value })

-- What happens to a semaphore: `zem_down` and `zem_up` of any thread, and a wait that ends by itself,
-- as POSIX allows.
pub data Call : Type 0 where
  down : Call
  up : ℕ → Call
  wait_ends : Call

unfoldable pub run_call : Call → Zem → Zem
run_call down s = zem_down s
run_call (up extra) s = zem_up extra s
run_call wait_ends s = let_go 1 s

-- The calls of all threads, in the order in which they have the lock.
unfoldable pub run_calls : List Call → Zem → Zem
run_calls [] s = s
run_calls (c ∷ cs) s = run_calls cs (run_call c s)
