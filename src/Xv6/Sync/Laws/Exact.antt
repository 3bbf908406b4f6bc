-- ===== src/Xv6/Sync/Laws/Exact.antt =====
-- The semaphore of user programs, while no thread is between condWait and its sleep when another calls
-- semUp.
use operating_systems_labwor.Base.{
  ℕ, ◌+◌, ◌-◌, ◌≡◌, refl, subst, ◌⊎◌, inl, inr, min, arith, Bool-cases, ◌==◌, pos_part, neg_part,
}
use operating_systems_labwor.Pthreads.Zemaphore.{decrement, is_negative}
use operating_systems_labwor.Pthreads.Zemaphore.Laws.{decrement_lem, increment_lem}
use operating_systems_labwor.Xv6.Sync.{
  Semaphore, sem_init, sig_one, fall_asleep, Run, starts, downs, ups, sleeps, goes_on,
}
use operating_systems_labwor.Xv6.Sync.Laws.{
  after_down, after_up, after_wait, sem_down_lem, sem_up_lem, finish_wait_lem, stepped,
  Run-IsCounting,
}

-- As many threads wait as the counter is below zero.
abbrev IsExact : Semaphore → Type 0
IsExact s = (s.leaving + s.asleep ≡ neg_part s.ctr) × ((pos_part s.ctr ≡ 0) ⊎ (neg_part s.ctr ≡ 0))

down-IsExact : (s : Semaphore) → IsExact s → IsExact (after_down s (is_negative (decrement s.ctr)))
unfolding after_down
down-IsExact s (w, z) = elim (decrement_lem s.ctr) [
  | inl (none_left, below, zero_left, e) ↦ rw e (omega arith, inl zero_left)
  | inr (left, not_below, still, e) ↦ rw e (omega arith, inr still)
]

up-IsExact : (s : Semaphore) → s.leaving ≡ 0 → IsExact s → IsExact (after_up s)
unfolding after_up sig_one
up-IsExact s l (w, z) = elim (Bool-cases (s.asleep == 0)) [
  | inl e ↦ rw e (elim (increment_lem s.ctr) [
    | inl (zero_neg, _, still) ↦ (omega arith, inr still)
    | inr (neg, _, still) ↦ absurd (ground arith)
  ])
  | inr e ↦ rw e (elim (increment_lem s.ctr) [
    | inl (zero_neg, _, still) ↦ absurd (ground arith)
    | inr (neg, _, still) ↦ (ground arith, inl still)
  ])
]

-- No thread is between condWait and its sleep.
abbrev pub NoneLeaves : Semaphore → Type 0
NoneLeaves s = s.leaving ≡ 0

module _ {v channel : ℕ} where
  Run-IsExact : (d u : ℕ) (s : Semaphore) → Run NoneLeaves v channel d u s → IsExact s
  unfolding sem_init fall_asleep after_wait
  Run-IsExact d u s starts = (refl, inr refl)
  Run-IsExact d u s (downs {d = e} {u = w} {s = t} r step) =
      subst IsExact (stepped (sem_down_lem t (Run-IsCounting e w t r).ready) step)
        (down-IsExact t (Run-IsExact e w t r))
  Run-IsExact d u s (ups {d = e} {u = w} {s = t} r q step) =
      subst IsExact (stepped (sem_up_lem t (Run-IsCounting e w t r).ready) step)
        (up-IsExact t q (Run-IsExact e w t r))
  Run-IsExact d u s (sleeps {d = e} {u = w} {s = t} r l) =
      let (n, z) = Run-IsExact e w t r in (omega arith, z)
  Run-IsExact d u s (goes_on {d = e} {u = w} {s = t} r l step) =
      subst IsExact (stepped (finish_wait_lem t (Run-IsCounting e w t r).ready) step)
        (Run-IsExact e w t r)

  -- If semUp is only called when no thread is between condWait and its sleep, as many threads have
  -- passed semDown or have been woken as have called it, or as there have been permits, if those are
  -- fewer, and the others wait: none waits while there is a permit.
  pub Run-exact :
      (d u : ℕ) (s : Semaphore)
      → Run NoneLeaves v channel d u s
      → (s.passed + s.woken ≡ min d (v + u)) × (s.leaving + s.asleep ≡ d - (v + u))
  Run-exact d u s r =
      let c = Run-IsCounting d u s r in
      let (w, z) = Run-IsExact d u s r in
      (omega (arith, c.balance, c.threads), omega (arith, c.balance, c.threads))
