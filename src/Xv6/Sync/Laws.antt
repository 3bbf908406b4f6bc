-- ===== src/Xv6/Sync/Laws.antt =====
-- The semaphore of user programs: the permits it gives out, and the threads that wait.
pub mod Exact
use operating_systems_labwor.Base.{
  ℕ, zero, suc, ◌+◌, ◌-◌, ◌<◌, ◌≤◌, ◌≡◌, refl, sym, ap, ◌∙◌, subst, ◌⊎◌, inl, inr, min, arith, Bool,
  true, false, Option, none, some, ◌==◌, ==-ne, Bool-cases, if◌then◌else◌, ℤ, pos, negsuc, pos_part,
  neg_part,
}
use mathlib.Core.Option.{some-injective}
use operating_systems_labwor.Pthreads.Zemaphore.{decrement, increment, is_negative}
use operating_systems_labwor.Pthreads.Zemaphore.Laws.{decrement_lem, increment_lem}
use operating_systems_labwor.Xv6.Sync.{
  Lock, CondVar, Semaphore, initiate_lock, acquire_lock, release_lock, initiate_cond_var, sem_init,
  sig_one, signal_one, sem_up, end_down, cond_wait, sem_down, fall_asleep, finish_wait, Run, starts,
  downs, ups, sleeps, goes_on,
}

-- Between the steps the lock is free, and both are initiated.
record IsReady (s : Semaphore) : Type 0 where
  lock : s.l ≡ initiate_lock
  condition : s.cv.is_initiated ≡ true

-- What semDown leaves.
after_down : Semaphore → Bool → Semaphore
after_down s true = record s { ctr = decrement s.ctr; l = initiate_lock; leaving = s.leaving + 1 }
after_down s false = record s { ctr = decrement s.ctr; l = initiate_lock; passed = s.passed + 1 }

after_up : Semaphore → Semaphore
after_up s = sig_one (record s { ctr = increment s.ctr; l = initiate_lock })

after_wait : Semaphore → Semaphore
after_wait s = record s { l = initiate_lock; woken = s.woken - 1; passed = s.passed + 1 }

module _ (s : Semaphore) (r : IsReady s) where
  sem_down_lem : sem_down s ≡ some (after_down s (is_negative (decrement s.ctr)))
  unfolding sem_down acquire_lock release_lock cond_wait end_down initiate_lock after_down
  sem_down_lem = elim (Bool-cases (is_negative (decrement s.ctr))) [
    | inl e ↦ rw (r.lock, e, r.condition) refl
    | inr e ↦ rw (r.lock, e) refl
  ]

  sem_up_lem : sem_up s ≡ some (after_up s)
  unfolding sem_up acquire_lock release_lock signal_one sig_one initiate_lock after_up
  sem_up_lem = elim (Bool-cases (s.asleep == 0)) [
    | inl e ↦ rw (r.lock, r.condition, e) refl
    | inr e ↦ rw (r.lock, r.condition, e) refl
  ]

  finish_wait_lem : finish_wait s ≡ some (after_wait s)
  unfolding finish_wait acquire_lock release_lock end_down initiate_lock after_wait
  finish_wait_lem = rw r.lock refl

-- After `d` calls of semDown and with `p` permits given so far; `neg_part ctr` is what the counter is
-- below zero.
record IsCounting (p d : ℕ) (s : Semaphore) : Type 0 where
  ready : IsReady s
  balance : pos_part s.ctr + d ≡ neg_part s.ctr + p
  threads : s.passed + s.woken + (s.leaving + s.asleep) ≡ d
  enough : neg_part s.ctr ≤ s.leaving + s.asleep

after_down-IsReady : (s : Semaphore) → IsReady s → (b : Bool) → IsReady (after_down s b)
unfolding after_down
after_down-IsReady s r true = record { lock = refl; condition = r.condition }
after_down-IsReady s r false = record { lock = refl; condition = r.condition }

down-IsCounting :
    (p d : ℕ) (s : Semaphore)
    → IsCounting p d s
    → IsCounting p (suc d) (after_down s (is_negative (decrement s.ctr)))
unfolding after_down
down-IsCounting p d s c = elim (decrement_lem s.ctr) [
  | inl (none_left, below, zero_left, e) ↦ rw e (record {
    ready = after_down-IsReady s c.ready true;
    balance = omega (arith, c.balance);
    threads = omega (arith, c.threads);
    enough = omega (arith, c.enough);
  })
  | inr (left, not_below, still, e) ↦ rw e (record {
    ready = after_down-IsReady s c.ready false;
    balance = omega (arith, c.balance);
    threads = omega (arith, c.threads);
    enough = omega (arith, still);
  })
]

up-IsCounting : (p d : ℕ) (s : Semaphore) → IsCounting p d s → IsCounting (suc p) d (after_up s)
unfolding after_up sig_one
up-IsCounting p d s c = elim (Bool-cases (s.asleep == 0)) [
  | inl e ↦ rw e (record {
    ready = record { lock = refl; condition = c.ready.condition };
    balance = omega (arith, c.balance, increment_lem s.ctr);
    threads = c.threads;
    enough = omega (arith, c.enough, increment_lem s.ctr);
  })
  | inr e ↦ rw e (record {
    ready = record { lock = refl; condition = c.ready.condition };
    balance = omega (arith, c.balance, increment_lem s.ctr);
    threads = ground (arith, c.threads, e);
    enough = ground (arith, c.enough, increment_lem s.ctr, e);
  })
]

sleep-IsCounting :
    (p d : ℕ) (s : Semaphore) → 0 < s.leaving → IsCounting p d s → IsCounting p d (fall_asleep s)
unfolding fall_asleep
sleep-IsCounting p d s l c = record {
  ready = record { lock = c.ready.lock; condition = c.ready.condition };
  balance = c.balance;
  threads = omega (arith, c.threads);
  enough = omega (arith, c.enough);
}

wait-IsCounting :
    (p d : ℕ) (s : Semaphore) → 0 < s.woken → IsCounting p d s → IsCounting p d (after_wait s)
unfolding after_wait
wait-IsCounting p d s l c = record {
  ready = record { lock = refl; condition = c.ready.condition };
  balance = c.balance;
  threads = omega (arith, c.threads);
  enough = c.enough;
}

start-IsCounting : (v channel : ℕ) → IsCounting v 0 (sem_init (pos v) channel)
unfolding sem_init initiate_cond_var
start-IsCounting v channel = record {
  ready = record { lock = refl; condition = refl };
  balance = omega arith;
  threads = refl;
  enough = omega arith;
}

-- A result that is known, against the one that a step has.
stepped : {a b : Semaphore} {o : Option Semaphore} → o ≡ some a → o ≡ some b → a ≡ b
stepped {a = a} {b = b} e f = some-injective a b (sym e ∙ f)

module _ {P : Semaphore → Type 0} {v channel : ℕ} where
  Run-IsCounting : (d u : ℕ) (s : Semaphore) → Run P v channel d u s → IsCounting (v + u) d s
  Run-IsCounting d u s starts =
      subst (λ (n : ℕ). IsCounting n 0 s) (omega arith) (start-IsCounting v channel)
  Run-IsCounting d u s (downs {d = e} {u = w} {s = t} r step) =
      let c = Run-IsCounting e w t r in
      subst (IsCounting (v + w) (suc e)) (stepped (sem_down_lem t c.ready) step)
        (down-IsCounting (v + w) e t c)
  Run-IsCounting d u s (ups {d = e} {u = w} {s = t} r q step) =
      let c = Run-IsCounting e w t r in
      subst (λ (n : ℕ). IsCounting n e s) (omega arith)
        (subst (IsCounting (suc (v + w)) e) (stepped (sem_up_lem t c.ready) step)
          (up-IsCounting (v + w) e t c))
  Run-IsCounting d u s (sleeps {d = e} {u = w} {s = t} r l) =
      sleep-IsCounting (v + w) e t l (Run-IsCounting e w t r)
  Run-IsCounting d u s (goes_on {d = e} {u = w} {s = t} r l step) =
      let c = Run-IsCounting e w t r in
      subst (IsCounting (v + w) e) (stepped (finish_wait_lem t c.ready) step)
        (wait-IsCounting (v + w) e t l c)

  -- However the threads interleave, no more have passed semDown or have been woken than there have been
  -- permits, and between the steps the lock is free.
  pub Run-permits :
      (d u : ℕ) (s : Semaphore)
      → Run P v channel d u s
      → (s.passed + s.woken ≤ v + u) × (s.l ≡ initiate_lock)
  Run-permits d u s r =
      let c = Run-IsCounting d u s r in
      (omega (arith, c.balance, c.threads, c.enough), c.ready.lock)
