-- ===== src/Pthreads/Zemaphore/Laws.antt =====
-- The semaphore lets through as many threads as it has been given permits for, and those whose wait ends
-- without one.
use operating_systems_labwor.Base.{
  ℕ, zero, suc, ◌+◌, ◌≤◌, ◌≡◌, refl, min, arith, ◌⊎◌, inl, inr, true, false, List, [], ◌∷◌, ℤ, pos,
  negsuc, pos_part, neg_part,
}
use operating_systems_labwor.Pthreads.Zemaphore.{
  Zem, zem_init, decrement, increment, is_negative, zem_down, let_go, signal, zem_up, Call, down,
  up, wait_ends, run_call, run_calls,
}

unfoldable pub count_downs : List Call → ℕ
count_downs [] = 0
count_downs (down ∷ cs) = count_downs cs + 1
count_downs (up _ ∷ cs) = count_downs cs
count_downs (wait_ends ∷ cs) = count_downs cs

unfoldable pub count_ups : List Call → ℕ
count_ups [] = 0
count_ups (down ∷ cs) = count_ups cs
count_ups (up _ ∷ cs) = count_ups cs + 1
count_ups (wait_ends ∷ cs) = count_ups cs

-- The waits that may have ended without a permit: by themselves, or by the signal for another.
unfoldable pub count_early : List Call → ℕ
count_early [] = 0
count_early (down ∷ cs) = count_early cs
count_early (up extra ∷ cs) = count_early cs + extra
count_early (wait_ends ∷ cs) = count_early cs + 1

-- After `d` calls of `zem_down`, with `p` permits given and at most `e` waits ended early.
record IsCounting (p d e : ℕ) (s : Zem) : Type 0 where
  balance : pos_part s.value + d ≡ neg_part s.value + p
  threads : s.passed + s.waiting ≡ d
  signs : (pos_part s.value ≡ 0) ⊎ (neg_part s.value ≡ 0)
  none_idle : s.waiting ≤ neg_part s.value
  few_early : neg_part s.value ≤ s.waiting + e

pub decrement_lem :
    (z : ℤ)
    → ((pos_part z ≡ 0)
        × (neg_part (decrement z) ≡ neg_part z + 1)
        × (pos_part (decrement z) ≡ 0)
        × (is_negative (decrement z) ≡ true))
      ⊎ ((pos_part z ≡ pos_part (decrement z) + 1)
          × (neg_part z ≡ 0)
          × (neg_part (decrement z) ≡ 0)
          × (is_negative (decrement z) ≡ false))
unfolding decrement is_negative
decrement_lem (pos zero) = inl (refl, refl, refl, refl)
decrement_lem (pos (suc n)) = inr (omega arith, refl, refl, refl)
decrement_lem (negsuc n) = inl (refl, omega arith, refl, refl)

pub increment_lem :
    (z : ℤ)
    → ((neg_part z ≡ 0) × (pos_part (increment z) ≡ pos_part z + 1) × (neg_part (increment z) ≡ 0))
      ⊎ ((neg_part z ≡ neg_part (increment z) + 1)
          × (pos_part z ≡ 0)
          × (pos_part (increment z) ≡ 0))
unfolding increment
increment_lem (pos n) = inl (refl, omega arith, refl)
increment_lem (negsuc zero) = inr (omega arith, refl, refl)
increment_lem (negsuc (suc n)) = inr (omega arith, refl, refl)

module _ (p d e : ℕ) (s : Zem) (c : IsCounting p d e s) where
  down-IsCounting : IsCounting p (d + 1) e (zem_down s)
  unfolding zem_down
  down-IsCounting = elim (decrement_lem s.value) [
    | inl (none_left, below, no_more, neg) ↦ rw neg (record {
      balance = omega (arith, c.balance);
      threads = omega (arith, c.threads);
      signs = inl no_more;
      none_idle = omega (arith, c.none_idle);
      few_early = omega (arith, c.few_early);
    })
    | inr (left, not_below, still, plain) ↦ rw plain (record {
      balance = omega (arith, c.balance);
      threads = omega (arith, c.threads);
      signs = inr still;
      none_idle = omega (arith, c.none_idle);
      few_early = omega (arith, still);
    })
  ]

  up-IsCounting : (extra : ℕ) → IsCounting (p + 1) d (e + extra) (zem_up extra s)
  unfolding zem_up signal let_go
  up-IsCounting extra = record {
    balance = omega (arith, c.balance, increment_lem s.value);
    threads = omega (arith, c.threads);
    signs = omega (arith, increment_lem s.value);
    none_idle = omega (arith, c.none_idle, increment_lem s.value);
    few_early = omega (arith, c.few_early, increment_lem s.value);
  }

  wait_ends-IsCounting : IsCounting p d (e + 1) (let_go 1 s)
  unfolding let_go
  wait_ends-IsCounting = record {
    balance = c.balance;
    threads = omega (arith, c.threads);
    signs = c.signs;
    none_idle = omega (arith, c.none_idle);
    few_early = omega (arith, c.few_early);
  }

recount :
    (s : Zem) (p d e p' d' e' : ℕ)
    → p ≡ p'
    → d ≡ d'
    → e ≡ e'
    → IsCounting p d e s
    → IsCounting p' d' e' s
recount s p d e p' d' e' h k l c = record {
  balance = omega (arith, c.balance);
  threads = omega (arith, c.threads);
  signs = c.signs;
  none_idle = c.none_idle;
  few_early = omega (arith, c.few_early);
}

-- Any calls of any threads.
run_calls-IsCounting :
    (cs : List Call) (p d e : ℕ) (s : Zem)
    → IsCounting p d e s
    → IsCounting (p + count_ups cs) (d + count_downs cs) (e + count_early cs) (run_calls cs s)
unfolding run_calls run_call count_ups count_downs count_early
run_calls-IsCounting [] p d e s c =
    recount s p d e (p + 0) (d + 0) (e + 0) (omega arith) (omega arith) (omega arith) c
run_calls-IsCounting (down ∷ cs) p d e s c =
    recount (run_calls cs (zem_down s)) (p + count_ups cs) (d + 1 + count_downs cs)
      (e + count_early cs) (p + count_ups cs) (d + (count_downs cs + 1)) (e + count_early cs) refl
      (omega arith) refl
      (run_calls-IsCounting cs p (d + 1) e (zem_down s) (down-IsCounting p d e s c))
run_calls-IsCounting (up extra ∷ cs) p d e s c =
    recount (run_calls cs (zem_up extra s)) (p + 1 + count_ups cs) (d + count_downs cs)
      (e + extra + count_early cs) (p + (count_ups cs + 1)) (d + count_downs cs)
      (e + (count_early cs + extra)) (omega arith) refl (omega arith)
      (run_calls-IsCounting cs (p + 1) d (e + extra) (zem_up extra s)
        (up-IsCounting p d e s c extra))
run_calls-IsCounting (wait_ends ∷ cs) p d e s c =
    recount (run_calls cs (let_go 1 s)) (p + count_ups cs) (d + count_downs cs)
      (e + 1 + count_early cs) (p + count_ups cs) (d + count_downs cs) (e + (count_early cs + 1))
      refl refl (omega arith)
      (run_calls-IsCounting cs p d (e + 1) (let_go 1 s) (wait_ends-IsCounting p d e s c))

-- Of `d` callers with `permits` given and `early` waits ended early, in the state `t`.
abbrev pub LetsThrough : ℕ → ℕ → ℕ → Zem → Type 0
LetsThrough permits d early t =
    (t.passed + t.waiting ≡ d) × (min d permits ≤ t.passed) × (t.passed ≤ min d permits + early)

-- After any calls on a semaphore that starts with `value` permits: all who have called `zem_down` have
-- passed or wait; at least as many have passed as have called, or as there have been permits, if those
-- are fewer, so that none waits while there is a permit; and no more than that have passed, but for one
-- at most for each wait that has ended by itself, or by a signal that let more than one go on.
pub run_calls_lem :
    (value : ℕ) (cs : List Call)
    → LetsThrough
        (value + count_ups cs)
        (count_downs cs)
        (count_early cs)
        (run_calls cs (zem_init (pos value)))
unfolding zem_init
run_calls_lem value cs =
    let c = run_calls-IsCounting cs value 0 0 (zem_init (pos value)) (record {
      balance = omega arith;
      threads = refl;
      signs = inr refl;
      none_idle = omega arith;
      few_early = omega arith;
    }) in
    (
      omega (arith, c.threads),
      omega (arith, c.balance, c.threads, c.signs, c.none_idle),
      omega (arith, c.balance, c.threads, c.signs, c.few_early),
    )
