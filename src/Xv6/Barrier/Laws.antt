-- ===== src/Xv6/Barrier/Laws.antt =====
-- The first round of the barrier.
use operating_systems_labwor.Base.{
  ℕ, suc, ◌+◌, ◌<◌, ◌≤◌, ◌≡◌, refl, arith, ltb, Bool-cases, ◌⊎◌, inl, inr,
}
use operating_systems_labwor.Xv6.Barrier.{
  Barrier, barrier_init, wakeup_glbl, finish, barrier_check, go_on, Reach, init, checks, goes_on,
}

-- `cur_num` counts the threads inside.
record IsCounting (n k : ℕ) (s : Barrier) : Type 0 where
  size : s.tot_num ≡ n
  inside : s.cur_num ≡ s.asleep + s.woken
  calls : s.cur_num + s.passed ≡ k
  early : k < n → (s.passed ≡ 0) × (s.woken ≡ 0)
  full : k ≡ n → s.asleep ≡ 0

barrier_check-IsCounting :
    (n k : ℕ) (s : Barrier)
    → 0 < n
    → k < n
    → IsCounting n k s
    → IsCounting n (suc k) (barrier_check s)
unfolding barrier_check wakeup_glbl finish
barrier_check-IsCounting n k s p l c = elim (Bool-cases (ltb (s.cur_num + 1) s.tot_num)) [
  | inl more ↦ rw more (record {
    size = c.size;
    inside = omega (arith, c.inside);
    calls = omega (arith, c.calls);
    early = λ m. c.early l;
    full = λ e. absurd (ground (arith, c.early l, c.calls, more, c.size));
  })
  | inr last ↦ rw last (record {
    size = c.size;
    inside = omega (arith, c.inside);
    calls = omega (arith, c.calls);
    early = λ m. absurd (ground (arith, c.calls, last, c.size, c.early l));
    full = λ e. refl;
  })
]

go_on-IsCounting :
    (n k : ℕ) (s : Barrier) → 0 < s.woken → IsCounting n k s → IsCounting n k (go_on s)
unfolding go_on finish
go_on-IsCounting n k s w c = record {
  size = c.size;
  inside = omega (arith, c.inside);
  calls = omega (arith, c.inside, c.calls);
  early = λ m. absurd (omega (arith, c.early m));
  full = c.full;
}

Reach-IsCounting : (n k : ℕ) (s : Barrier) → 0 < n → k ≤ n → Reach n k s → IsCounting n k s
unfolding barrier_init
Reach-IsCounting n k s p l init = record {
  size = refl;
  inside = refl;
  calls = refl;
  early = λ m. (refl, refl);
  full = λ e. refl;
}
Reach-IsCounting n k s p l (checks {k = j} {s = t} r) =
    barrier_check-IsCounting n j t p (omega arith) (Reach-IsCounting n j t p (omega arith) r)
Reach-IsCounting n k s p l (goes_on {k = j} {s = t} r w) =
    go_on-IsCounting n j t w (Reach-IsCounting n j t p l r)

-- What a barrier for `n` threads looks like after `k` calls of its first round.
abbrev pub FirstRound : ℕ → ℕ → Barrier → Type 0
FirstRound n k s =
    ((k < n) × (s.passed ≡ 0) × (s.woken ≡ 0) × (s.asleep ≡ k))
    ⊎ ((k ≡ n) × (s.asleep ≡ 0) × (s.passed + s.woken ≡ n))

-- In the first round of a barrier for `n` threads, with `n` positive: as long as fewer than `n` threads
-- have called barrier_check, none has passed and all who called sleep; once `n` have called, none sleeps,
-- and each has passed or is woken and passes when it has the lock.
pub Reach-FirstRound : (n k : ℕ) (s : Barrier) → 0 < n → k ≤ n → Reach n k s → FirstRound n k s
Reach-FirstRound n k s p l r =
    let c = Reach-IsCounting n k s p l r in
    elim (Bool-cases (ltb k n)) [
      | inl less ↦
          let m : k < n = ground (arith, less) in
          let (a, b) = c.early m in inl (m, a, b, omega (arith, c.inside, c.calls))
      | inr all ↦
          let e : k ≡ n = ground (arith, all) in
          let a = c.full e in inr (e, a, omega (arith, c.inside, c.calls))
    ]
