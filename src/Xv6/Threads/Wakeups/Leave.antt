-- ===== src/Xv6/Threads/Wakeups/Leave.antt =====
-- exit and thread_exit wake whoever waits for the process.
use operating_systems_labwor.Base.{
  ℕ, zero, suc, ◌+◌, ◌≡◌, ◌≢◌, ◌⊎◌, inl, inr, refl, sym, ap, subst, ◌∙◌, true, false, Bool-cases,
  Option, none, some, List, ◌==◌, set, length, arith, map,
}
use operating_systems_labwor.Xv6.Threads.Kernel.{Kernel}
use operating_systems_labwor.Xv6.Threads.Table.{
  is_sleeping, sleeps_on, wake_one, pass_child, zombie, is_zombie, Context, in_forkret, in_wait,
  in_yield, in_sleep, in_thread_join, in_waitpid, Proc, at, points_to, wakeup1, pass_children,
}
use operating_systems_labwor.Xv6.Threads.Kept.{at-set}
use operating_systems_labwor.Xv6.Threads.Proc.{State, put_proc, pointer, leave}
use operating_systems_labwor.Xv6.Threads.Kept.{at-wakeup1}
use operating_systems_labwor.Xv6.Threads.Wakeups.{
  meant, is_watching, NoneMissed, CalmAll, Calm-refl, CalmAll-trans, CalmAll-set, CalmAll-wakeup1,
  CalmAll-NoneMissed,
}
use operating_systems_labwor.Xv6.Threads.Wakeups.Calls.{LeavesTable}

-- Who has the same main thread, the same number and the same parent, unless it has gone to init.
abbrev SameFamily : Option ℕ → Proc → Proc → Type 0
SameFamily init p q = (q.mainthread ≡ p.mainthread) × ((q.parent ≡ p.parent) ⊎ (q.parent ≡ init))

SameFamily-trans :
    (init : Option ℕ) (p q r : Proc)
    → SameFamily init p q
    → SameFamily init q r
    → SameFamily init p r
SameFamily-trans init p q r (m, e) (m', inr gone) = (m' ∙ m, inr gone)
SameFamily-trans init p q r (m, inl same) (m', inl same') = (m' ∙ m, inl (same' ∙ same))
SameFamily-trans init p q r (m, inr gone) (m', inl same') = (m' ∙ m, inr (same' ∙ gone))

module _ (init : Option ℕ) where
  set_family :
      (t : List Proc) (i : ℕ) (p : Proc) (j : ℕ)
      → SameFamily init (at t i) p
      → SameFamily init (at t j) (at (set t i p) j)
  set_family t i p j h = elim (at-set t i j p) [
    | inl (e, now) ↦ rw now (subst (λ (n : ℕ). SameFamily init (at t n) p) e h)
    | inr same ↦ rw same (refl, inl refl)
  ]

  wake_family :
      (chan : ℕ) (t : List Proc) (j : ℕ) → SameFamily init (at t j) (at (wakeup1 chan t) j)
  unfolding wake_one
  wake_family chan t j = rw (at-wakeup1 chan t j) (elim (Bool-cases (sleeps_on chan (at t j))) [
    | inl here_now ↦ rw here_now (refl, inl refl)
    | inr other ↦ rw other (refl, inl refl)
  ])

  -- Nobody sleeps on a channel that was just woken.
  none_sleeps :
      (chan : ℕ) (t : List Proc) (i : ℕ)
      → is_sleeping (at (wakeup1 chan t) i).state ≡ true
      → (at (wakeup1 chan t) i).chan ≢ chan
  unfolding wake_one
  none_sleeps chan t i asleep on =
      woken (at t i) (ap (λ (q : Proc). is_sleeping q.state) (sym (at-wakeup1 chan t i)) ∙ asleep)
        (ap (λ (q : Proc). q.chan) (sym (at-wakeup1 chan t i)) ∙ on)
    where
      woken :
          (p : Proc) → is_sleeping (wake_one chan p).state ≡ true → (wake_one chan p).chan ≢ chan
      woken p asleep on = ground arith

  module _ (c init_address : ℕ) where
    pass_child_lem :
        (i : ℕ) (t : List Proc)
        → CalmAll init t (pass_child c init init_address i t)
          × ((j : ℕ) → SameFamily init (at t j) (at (pass_child c init init_address i t) j))
    unfolding pass_child
    pass_child_lem i t =
        let p = record (at t i) { parent = init } in
        let u = set t i p in
        let calm =
          CalmAll-set init t i p (λ s w. (s, refl, refl), λ z. (z, refl, refl, inr refl)) in
        let family = λ (j : ℕ). set_family t i p j (refl, inr refl) in
        elim (Bool-cases (points_to (at t i).parent c)) [
          | inr other ↦ rw other (λ j. Calm-refl init (at t j), λ j. (refl, inl refl))
          | inl child ↦ elim (Bool-cases (is_zombie (at t i).state)) [
            | inr alive ↦ rw (child, alive) (calm, family)
            | inl dead ↦
                rw (child, dead)
                  (
                    CalmAll-trans init t u (wakeup1 init_address u) calm
                        (CalmAll-wakeup1 init init_address u),
                    λ j.
                        SameFamily-trans init (at t j) (at u j) (at (wakeup1 init_address u) j)
                          (family j) (wake_family init_address u j),
                  )
          ]
        ]

    pass_children_lem :
        (rounds i : ℕ) (t : List Proc)
        → CalmAll init t (pass_children c init init_address rounds i t)
          × ((j : ℕ)
              → SameFamily init (at t j) (at (pass_children c init init_address rounds i t) j))
    unfolding pass_children
    pass_children_lem zero i t = (λ j. Calm-refl init (at t j), λ j. (refl, inl refl))
    pass_children_lem (suc rounds) i t =
        let u = pass_child c init init_address i t in
        let v = pass_children c init init_address rounds (i + 1) u in
        let (calm, family) = pass_child_lem i t in
        let (calm', family') = pass_children_lem rounds (i + 1) u in
        (
          CalmAll-trans init t u v calm calm',
          λ j. SameFamily-trans init (at t j) (at u j) (at v j) (family j) (family' j),
        )

-- Process `c` becomes a zombie, and nobody who sleeps waits for it.
become_zombie :
    (address : ℕ → ℕ) (init : Option ℕ) (c : ℕ) (t : List Proc)
    → NoneMissed address init t
    → ((i : ℕ)
        → points_to init i ≡ false
        → is_sleeping (at t i).state ≡ true
        → is_watching (at t i).context ≡ true
        → meant (at t i).context i c (at t c) ≡ false)
    → NoneMissed address init (set t c (record (at t c) { state = zombie }))
become_zombie address init c t h free i other asleep watching = elim (at-set t c i last) [
  | inl (_, now) ↦ cc (asleep, ap (λ (q : Proc). is_sleeping q.state) now)
  | inr same ↦
      let asleep' = ap (λ (q : Proc). is_sleeping q.state) (sym same) ∙ asleep in
      let watching' = ap (λ (q : Proc). is_watching q.context) (sym same) ∙ watching in
      let (on, none_dead) = h i other asleep' watching' in
      (
        ap (λ (q : Proc). q.chan) same ∙ on,
        λ j z.
            subst (λ (q : Proc). meant q.context i j (at (set t c last) j) ≡ false) (sym same)
              (elim (at-set t c j last) [
                | inr same_j ↦
                    subst (λ (q : Proc). meant (at t i).context i j q ≡ false) (sym same_j)
                      (none_dead j (ap (λ (q : Proc). is_zombie q.state) (sym same_j) ∙ z))
                | inl (e, now) ↦
                    subst (λ (q : Proc). meant (at t i).context i j q ≡ false) (sym now)
                      (subst (λ (n : ℕ). meant (at t i).context i n last ≡ false) e
                        (dead_too (at t i).context i (at t c) (free i other asleep' watching')))
              ]),
      )
]
  where
    last : Proc
    last = record (at t c) { state = zombie }

    dead_too :
        (context : Context) (i : ℕ) (p : Proc)
        → meant context i c p ≡ false
        → meant context i c (record p { state = zombie }) ≡ false
    dead_too in_forkret i p e = e
    dead_too in_wait i p e = e
    dead_too in_yield i p e = e
    dead_too in_sleep i p e = e
    dead_too (in_thread_join thread) i p e = e
    dead_too (in_waitpid j) i p e = e

-- Whom exit and thread_exit wake: the parent of a main thread, the main thread of another.
abbrev Wakes : ℕ → Option ℕ → Proc → Type 0
Wakes c to_wake p =
    ((points_to p.mainthread c ≡ true) × (to_wake ≡ p.parent))
    ⊎ ((points_to p.mainthread c ≡ false) × (to_wake ≡ p.mainthread))

module _ (k : Kernel) (address : ℕ → ℕ) where
  pointer_lem : (p : Option ℕ) (i : ℕ) → points_to p i ≡ true → pointer k address p ≡ address i
  unfolding pointer
  pointer_lem none i e = cc e
  pointer_lem (some j) i e = let same : j ≡ i = ground arith in ap address same

  module _ (init to_wake : Option ℕ) (c : ℕ) (p q : Proc) (family : SameFamily init p q)
      (wakes : Wakes c to_wake p) where
    -- Nobody waits for the process but who has been woken.
    not_meant :
        (i : ℕ) (context : Context)
        → points_to init i ≡ false
        → address i ≢ pointer k address to_wake
        → meant context i c q ≡ false
    not_meant i in_forkret other ne = refl
    not_meant i in_yield other ne = refl
    not_meant i in_sleep other ne = refl
    not_meant i (in_waitpid _) other ne = refl
    not_meant i in_wait other ne = elim wakes [
      | inr (no_main, e) ↦ elim (Bool-cases (points_to q.parent i)) [
        | inl child ↦ rw (child, family.0, no_main) refl
        | inr stranger ↦ rw stranger refl
      ]
      | inl (main, e) ↦ elim (Bool-cases (points_to q.parent i)) [
        | inr stranger ↦ rw stranger refl
        | inl child ↦ elim family.1 [
          | inr gone ↦ cc (other, child, ap (λ (r : Option ℕ). points_to r i) gone)
          | inl same ↦ absurd (
              ne (
                sym (
                  pointer_lem to_wake i
                    (ap (λ (r : Option ℕ). points_to r i) (e ∙ sym same) ∙ child))))
        ]
      ]
    ]
    not_meant i (in_thread_join thread) other ne = elim (Bool-cases (points_to q.mainthread i)) [
      | inr stranger ↦ rw stranger refl
      | inl mine ↦ elim wakes [
        | inl (main, e) ↦ elim (Bool-cases (q.pid == thread)) [
          | inl number ↦ rw (mine, number, family.0, main) refl
          | inr number ↦ rw (mine, number) refl
        ]
        | inr (no_main, e) ↦ absurd (
            ne (
              sym (
                pointer_lem to_wake i
                  (ap (λ (r : Option ℕ). points_to r i) (e ∙ sym family.0) ∙ mine))))
      ]
    ]

  module _ (c : ℕ) (to_wake : Option ℕ) (s : State k) (plain : points_to s.initproc c ≡ false)
      (wakes : Wakes c to_wake (at s.proc c)) where
    bare : Proc
    bare = record (at s.proc c) { ofile = map (λ _. 0) (at s.proc c).ofile; cwd = 0 }

    woken : List Proc
    woken = wakeup1 (pointer k address to_wake) (set s.proc c bare)

    passed : List Proc
    passed = pass_children c s.initproc (pointer k address s.initproc) (length s.proc) 0 woken

    passed_calm : CalmAll s.initproc s.proc passed
    unfolding bare woken passed
    passed_calm =
        CalmAll-trans s.initproc s.proc woken passed
          (CalmAll-trans s.initproc s.proc (set s.proc c bare) woken
            (CalmAll-set s.initproc s.proc c bare (Calm-refl s.initproc (at s.proc c)))
            (CalmAll-wakeup1 s.initproc (pointer k address to_wake) (set s.proc c bare)))
          (pass_children_lem s.initproc c (pointer k address s.initproc) (length s.proc) 0 woken).0

    passed_family : SameFamily s.initproc (at s.proc c) (at passed c)
    unfolding bare woken passed
    passed_family =
        SameFamily-trans s.initproc (at s.proc c) (at woken c) (at passed c)
          (SameFamily-trans s.initproc (at s.proc c) (at (set s.proc c bare) c) (at woken c)
            (set_family s.initproc s.proc c bare c (refl, inl refl))
            (wake_family s.initproc (pointer k address to_wake) (set s.proc c bare) c))
          ((pass_children_lem s.initproc c (pointer k address s.initproc) (length s.proc) 0 woken).1
            c)

    passed_awake :
        (i : ℕ)
        → is_sleeping (at passed i).state ≡ true
        → is_watching (at passed i).context ≡ true
        → (at passed i).chan ≢ pointer k address to_wake
    unfolding bare woken passed
    passed_awake i asleep watching on =
        let (calm, _) =
          pass_children_lem s.initproc c (pointer k address s.initproc) (length s.proc) 0 woken in
        let (asleep', _, same) = (calm i).0 asleep watching in
        none_sleeps s.initproc (pointer k address to_wake) (set s.proc c bare) i asleep'
          (sym same ∙ on)

    pub leave_keeps :
        NoneMissed address s.initproc s.proc
        → LeavesTable k (NoneMissed address s.initproc) (leave k address c to_wake s)
    unfolding leave put_proc bare woken passed
    leave_keeps h =
        let kept = CalmAll-NoneMissed s.initproc address s.proc passed passed_calm h in
        become_zombie address s.initproc c passed kept (λ i other asleep watching.
          not_meant s.initproc to_wake c (at s.proc c) (at passed c) passed_family wakes i
            (at passed i).context other
            (λ e. passed_awake i asleep watching ((kept i other asleep watching).0 ∙ e)))
