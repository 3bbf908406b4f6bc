-- ===== src/Xv6/Threads/Wakeups.antt =====
-- No wakeup is lost: who sleeps in wait or thread_join has no zombie to collect.
pub mod Calls
pub mod Collect
pub mod Init
pub mod Leave
pub mod Steps
use operating_systems_labwor.Base.{
  ℕ, zero, suc, ◌+◌, ◌≡◌, ◌≢◌, ◌⊎◌, inl, inr, refl, sym, ap, subst, ◌∙◌, Bool, true, false,
  Bool-cases, not, ◌&&◌, Option, none, some, List, [], ◌∷◌, ◌==◌, if◌then◌else◌, set, arith,
}
use operating_systems_labwor.Xv6.Threads.Table.{
  ProcState, unused, embryo, sleeping, runnable, running, zombie, is_sleeping, is_zombie, Context,
  in_forkret, in_wait, in_yield, in_sleep, in_thread_join, in_waitpid, Proc, blank, at, points_to,
  sleeps_on, wake_one, wakeup1, wakeup1_one, kill_one, pass_child, pass_children, scan,
}
use operating_systems_labwor.Xv6.Threads.Kept.{at-set, at-wakeup1}
use operating_systems_labwor.Xv6.Threads.Wait.{is_child, is_thread}

-- Which entries a process waits for, by where it goes on.
abbrev pub meant : Context → ℕ → ℕ → Proc → Bool
meant in_forkret i j p = false
meant in_wait i j p = is_child i j p
meant in_yield i j p = false
meant in_sleep i j p = false
meant (in_thread_join thread) i j p = is_thread i thread j p
meant (in_waitpid _) i j p = false

abbrev pub is_watching : Context → Bool
is_watching in_forkret = false
is_watching in_wait = true
is_watching in_yield = false
is_watching in_sleep = false
is_watching (in_thread_join thread) = true
is_watching (in_waitpid _) = false

module _ (address : ℕ → ℕ) (init : Option ℕ) where
  -- A process but init that sleeps in wait or thread_join sleeps on its own address, and nothing that
  -- it waits for is a zombie.
  abbrev pub IsWatched : List Proc → ℕ → Type 0
  IsWatched t i =
      ((at t i).chan ≡ address i)
      × ((j : ℕ) → is_zombie (at t j).state ≡ true → meant (at t i).context i j (at t j) ≡ false)

  abbrev pub NoneMissed : List Proc → Type 0
  NoneMissed t =
      (i : ℕ)
      → points_to init i ≡ false
      → is_sleeping (at t i).state ≡ true
      → is_watching (at t i).context ≡ true
      → IsWatched t i

-- A change after which nobody has more to wait for: who sleeps in wait or thread_join has slept there
-- before, and a zombie has been one before, with the same parent unless it has gone to init.
abbrev pub Calm : Option ℕ → Proc → Proc → Type 0
Calm init p q =
    (is_sleeping q.state ≡ true
      → is_watching q.context ≡ true
      → (is_sleeping p.state ≡ true) × (q.context ≡ p.context) × (q.chan ≡ p.chan))
    × (is_zombie q.state ≡ true
        → (is_zombie p.state ≡ true)
          × (q.mainthread ≡ p.mainthread)
          × (q.pid ≡ p.pid)
          × ((q.parent ≡ p.parent) ⊎ (q.parent ≡ init)))

abbrev pub CalmAll : Option ℕ → List Proc → List Proc → Type 0
CalmAll init t u = (i : ℕ) → Calm init (at t i) (at u i)

module _ (init : Option ℕ) where
  pub Calm-refl : (p : Proc) → Calm init p p
  Calm-refl p = (λ s w. (s, refl, refl), λ z. (z, refl, refl, inl refl))

  pub Calm-trans : (p q r : Proc) → Calm init p q → Calm init q r → Calm init p r
  Calm-trans p q r (h, z) (h', z') = (sleeps, dead)
    where
      sleeps :
          is_sleeping r.state ≡ true
          → is_watching r.context ≡ true
          → (is_sleeping p.state ≡ true) × (r.context ≡ p.context) × (r.chan ≡ p.chan)
      sleeps s w =
          let (s', c', n') = h' s w in
          let (s'', c'', n'') = h s' (ap is_watching (sym c') ∙ w) in (s'', c' ∙ c'', n' ∙ n'')

      dead :
          is_zombie r.state ≡ true
          → (is_zombie p.state ≡ true)
            × (r.mainthread ≡ p.mainthread)
            × (r.pid ≡ p.pid)
            × ((r.parent ≡ p.parent) ⊎ (r.parent ≡ init))
      dead d =
          let (d', m', n', e') = z' d in
          let (d'', m'', n'', e'') = z d' in
          (
            d'',
            m' ∙ m'',
            n' ∙ n'',
            elim e' [
              | inr gone ↦ inr gone
              | inl same ↦ elim e'' [
                | inl same' ↦ inl (same ∙ same')
                | inr gone ↦ inr (same ∙ gone)
              ]
            ],
          )

  pub CalmAll-trans : (t u v : List Proc) → CalmAll init t u → CalmAll init u v → CalmAll init t v
  CalmAll-trans t u v h k i = Calm-trans (at t i) (at u i) (at v i) (h i) (k i)

  pub CalmAll-set :
      (t : List Proc) (i : ℕ) (p : Proc) → Calm init (at t i) p → CalmAll init t (set t i p)
  CalmAll-set t i p h j = elim (at-set t i j p) [
    | inl (e, now) ↦ rw now (subst (λ (n : ℕ). Calm init (at t n) p) e h)
    | inr same ↦ rw same (Calm-refl (at t j))
  ]

  wake_one-Calm : (chan : ℕ) (p : Proc) → Calm init p (wake_one chan p)
  unfolding wake_one
  wake_one-Calm chan p = elim (Bool-cases (sleeps_on chan p)) [
    | inl here ↦ rw here (λ s w. cc s, λ z. cc z)
    | inr other ↦ rw other (Calm-refl p)
  ]

  pub CalmAll-wakeup1 : (chan : ℕ) (t : List Proc) → CalmAll init t (wakeup1 chan t)
  CalmAll-wakeup1 chan t i = rw (at-wakeup1 chan t i) (wake_one-Calm chan (at t i))

  pub CalmAll-wakeup1_one : (chan : ℕ) (t : List Proc) → CalmAll init t (wakeup1_one chan t)
  unfolding wakeup1_one
  CalmAll-wakeup1_one chan [] i = Calm-refl blank
  CalmAll-wakeup1_one chan (p ∷ t) zero = elim (Bool-cases (sleeps_on chan p)) [
    | inl here ↦ rw here (λ s w. cc s, λ z. cc z)
    | inr other ↦ rw other (Calm-refl p)
  ]
  CalmAll-wakeup1_one chan (p ∷ t) (suc i) = elim (Bool-cases (sleeps_on chan p)) [
    | inl here ↦ rw here (Calm-refl (at t i))
    | inr other ↦ rw other (CalmAll-wakeup1_one chan t i)
  ]

  module _ (address : ℕ → ℕ) (t u : List Proc) (calm : CalmAll init t u) where
    still_not_meant :
        (i j : ℕ) (context : Context)
        → points_to init i ≡ false
        → is_zombie (at u j).state ≡ true
        → meant context i j (at t j) ≡ false
        → meant context i j (at u j) ≡ false
    still_not_meant i j in_forkret other dead before = refl
    still_not_meant i j in_yield other dead before = refl
    still_not_meant i j in_sleep other dead before = refl
    still_not_meant i j (in_waitpid _) other dead before = refl
    still_not_meant i j (in_thread_join thread) other dead before =
        let (_, m, n, _) = (calm j).1 dead in rw (m, n) before
    still_not_meant i j in_wait other dead before =
        let (_, m, _, e) = (calm j).1 dead in
        elim e [ inl same ↦ rw (same, m) before | inr gone ↦ rw (gone, other) refl ]

    pub CalmAll-NoneMissed : NoneMissed address init t → NoneMissed address init u
    CalmAll-NoneMissed h i other s w =
        let (s', c, n) = (calm i).0 s w in
        let (on, none_dead) = h i other s' (ap is_watching (sym c) ∙ w) in
        (
          n ∙ on,
          λ j dead.
              subst (λ (context : Context). meant context i j (at u j) ≡ false) (sym c)
                (still_not_meant i j (at t i).context other dead (none_dead j ((calm j).1 dead).0)),
        )
