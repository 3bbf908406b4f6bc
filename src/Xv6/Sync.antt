-- ===== src/Xv6/Sync.antt =====
-- CS236-Spring-2025-Labs/xv6-threads/ulib.c and user.h: locks, condition variables and semaphores of
-- user programs, over the channels of the kernel. What a thread does while it holds the lock of a
-- semaphore is one step; `__sync_synchronize` and what is printed do nothing to the state.
pub mod Laws
mod Tests
use operating_systems_labwor.Base.{
  ℕ, zero, suc, ◌+◌, ◌-◌, ◌<◌, ◌≡◌, Bool, true, false, Option, none, some, if◌then◌else◌, ◌==◌, ℤ,
  pos,
}
use operating_systems_labwor.Pthreads.Zemaphore.{decrement, increment, is_negative}

pub record Lock : Type 0 where
  pub lockvar : ℕ
  pub is_initiated : Bool

pub record CondVar : Type 0 where
  pub var : ℕ
  pub is_initiated : Bool

unfoldable pub initiate_lock : Lock
initiate_lock = record { lockvar = 0; is_initiated = true }

-- `none` while the loop over `xchg` goes on: `lockvar` then is not 0 and may as well be set to 1.
unfoldable pub acquire_lock : Lock → Option Lock
acquire_lock l =
    if l.is_initiated
    then (if l.lockvar == 0 then some (record l { lockvar = 1 }) else none)
    else some l

unfoldable pub release_lock : Lock → Lock
release_lock l =
    if l.is_initiated then (if l.lockvar == 1 then record l { lockvar = 0 } else l) else l

-- `channel` is what getChannel returns.
unfoldable pub initiate_cond_var : ℕ → CondVar
initiate_cond_var channel = record { var = channel; is_initiated = true }

-- A semaphore, and the threads in its calls: `leaving` have released the lock in condWait and are not
-- asleep yet, `asleep` sleep on its channel, `woken` are to acquire the lock again, and `passed` have
-- returned from semDown.
pub record Semaphore : Type 0 where
  pub ctr : ℤ
  pub l : Lock
  pub cv : CondVar
  pub is_initiated : Bool
  pub leaving : ℕ
  pub asleep : ℕ
  pub woken : ℕ
  pub passed : ℕ

unfoldable pub sem_init : ℤ → ℕ → Semaphore
sem_init init_val channel = record {
  ctr = init_val;
  l = initiate_lock;
  cv = initiate_cond_var channel;
  is_initiated = true;
  leaving = 0;
  asleep = 0;
  woken = 0;
  passed = 0;
}

-- sigOneChan wakes one of the threads that sleep on the channel, if there is one.
unfoldable pub sig_one : Semaphore → Semaphore
sig_one s = if s.asleep == 0 then s else record s { asleep = s.asleep - 1; woken = s.woken + 1 }

unfoldable pub signal_one : Semaphore → Semaphore
signal_one s = if s.cv.is_initiated then sig_one s else s

-- sigChan wakes all threads that sleep on the channel.
unfoldable pub broadcast_all : Semaphore → Semaphore
broadcast_all s =
    if s.cv.is_initiated then record s { asleep = 0; woken = s.woken + s.asleep } else s

unfoldable pub sem_up : Semaphore → Option Semaphore
sem_up s = elim (acquire_lock s.l) [
  | none ↦ none
  | some l ↦
      let t = signal_one (record s { ctr = increment s.ctr; l = l }) in
      some (record t { l = release_lock t.l })
]

-- The end of semDown, with the lock.
unfoldable pub end_down : Semaphore → Semaphore
end_down s = record s { l = release_lock s.l; passed = s.passed + 1 }

-- condWait up to sleepChan; it returns at once if the lock or the condition variable is not initiated,
-- and semDown ends.
unfoldable pub cond_wait : Semaphore → Semaphore
cond_wait s =
    if s.l.is_initiated
    then (if s.cv.is_initiated
        then record s { l = release_lock s.l; leaving = s.leaving + 1 }
        else end_down s)
    else end_down s

-- semDown, up to its end or to sleepChan.
unfoldable pub sem_down : Semaphore → Option Semaphore
sem_down s = elim (acquire_lock s.l) [
  | none ↦ none
  | some l ↦
      let t = record s { ctr = decrement s.ctr; l = l } in
      some (if is_negative t.ctr then cond_wait t else end_down t)
]

-- sleepChan, in a thread that has released the lock.
unfoldable pub fall_asleep : Semaphore → Semaphore
fall_asleep s = record s { leaving = s.leaving - 1; asleep = s.asleep + 1 }

-- What a woken thread does: acquireLock in condWait, and the end of semDown.
unfoldable pub finish_wait : Semaphore → Option Semaphore
finish_wait s = elim (acquire_lock s.l) [
  | none ↦ none
  | some l ↦ some (end_down (record s { l = l; woken = s.woken - 1 }))
]

-- The states of a semaphore after `downs` calls of semDown and `ups` of semUp, where semUp is only
-- called in states that satisfy `P`.
pub data Run (P : Semaphore → Type 0) (init_val channel : ℕ) : ℕ → ℕ → Semaphore → Type 0 where
  starts : Run P init_val channel 0 0 (sem_init (pos init_val) channel)
  downs :
      {d u : ℕ} {s t : Semaphore}
      → Run P init_val channel d u s
      → sem_down s ≡ some t
      → Run P init_val channel (suc d) u t
  ups :
      {d u : ℕ} {s t : Semaphore}
      → Run P init_val channel d u s
      → P s
      → sem_up s ≡ some t
      → Run P init_val channel d (suc u) t
  sleeps :
      {d u : ℕ} {s : Semaphore}
      → Run P init_val channel d u s
      → 0 < s.leaving
      → Run P init_val channel d u (fall_asleep s)
  goes_on :
      {d u : ℕ} {s t : Semaphore}
      → Run P init_val channel d u s
      → 0 < s.woken
      → finish_wait s ≡ some t
      → Run P init_val channel d u t
