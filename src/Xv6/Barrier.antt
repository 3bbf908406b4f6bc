-- ===== src/Xv6/Barrier.antt =====
-- CS236-Spring-2025-Labs/xv6-threads/barrier.c: the barrier of the kernel. All of barrier_check runs
-- under `lock`, which sleep gives up while the thread sleeps, so what a thread does between two
-- acquisitions of the lock is one step. barrier_init is called before the threads start.
pub mod Laws
mod Tests
use operating_systems_labwor.Base.{ℕ, zero, suc, ◌+◌, ◌-◌, ◌<◌, ◌≡◌, if◌then◌else◌, ltb}

-- `asleep` counts the threads that sleep on `glbl`, `woken` those that have been woken and wait for the
-- lock, and `passed` those that have returned from barrier_check.
pub record Barrier : Type 0 where
  pub cur_num : ℕ
  pub tot_num : ℕ
  pub asleep : ℕ
  pub woken : ℕ
  pub passed : ℕ

unfoldable pub barrier_init : ℕ → Barrier
barrier_init n = record { cur_num = 0; tot_num = n; asleep = 0; woken = 0; passed = 0 }

-- `wakeup(&glbl)` wakes all.
unfoldable pub wakeup_glbl : Barrier → Barrier
wakeup_glbl s = record s { asleep = 0; woken = s.woken + s.asleep }

-- The end of barrier_check: `cur_num--`.
unfoldable pub finish : Barrier → Barrier
finish s = record s { cur_num = s.cur_num - 1; passed = s.passed + 1 }

-- barrier_check, up to its end or to the sleep.
unfoldable pub barrier_check : Barrier → Barrier
barrier_check s =
    let t = record s { cur_num = s.cur_num + 1 } in
    if ltb t.cur_num t.tot_num then record t { asleep = t.asleep + 1 } else finish (wakeup_glbl t)

-- What barrier_check does after the sleep.
unfoldable pub go_on : Barrier → Barrier
go_on s = finish (record s { woken = s.woken - 1 })

-- The states of a barrier for `n` threads after `k` calls of barrier_check.
pub data Reach (n : ℕ) : ℕ → Barrier → Type 0 where
  init : Reach n 0 (barrier_init n)
  checks : {k : ℕ} {s : Barrier} → Reach n k s → Reach n (suc k) (barrier_check s)
  goes_on : {k : ℕ} {s : Barrier} → Reach n k s → 0 < s.woken → Reach n k (go_on s)
