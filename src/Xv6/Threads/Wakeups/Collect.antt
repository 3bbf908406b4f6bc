-- ===== src/Xv6/Threads/Wakeups/Collect.antt =====
-- wait, thread_join and waitpid: whoever goes to sleep has looked at all entries.
use operating_systems_labwor.Base.{
  ℕ, zero, suc, ◌+◌, ◌≡◌, ◌⊎◌, inl, inr, refl, sym, ap, subst, ◌∙◌, Bool, true, false, Bool-cases,
  Option, none, some, List, [], ◌∷◌, ◌==◌, set, arith, pos, not, ◌&&◌, ◌||◌,
}
use operating_systems_labwor.Xv6.Threads.Kernel.{Kernel}
use operating_systems_labwor.Xv6.Threads.Table.{
  is_sleeping, ProcState, unused, embryo, sleeping, runnable, running, zombie, is_unused, is_zombie,
  Context, in_wait, in_thread_join, in_waitpid, Proc, blank, at, points_to, scan,
}
use operating_systems_labwor.Xv6.Threads.Kept.{at-set, first_lem}
use operating_systems_labwor.Xv6.Threads.Proc.{
  State, Out, returned, switched, panicked, put_proc, sleep,
}
use operating_systems_labwor.Xv6.Threads.Wait.{
  is_left, is_child, is_thread, collected, forgotten, clear_threads, collect, collect_thread,
  collect_pid, end_wait, wait, end_join, thread_join, waitpid_at, waitpid,
}
use operating_systems_labwor.Xv6.Threads.Wakeups.{
  meant, is_watching, NoneMissed, CalmAll, Calm-refl, CalmAll-trans, CalmAll-set,
  CalmAll-NoneMissed,
}
use operating_systems_labwor.Xv6.Threads.Numbers.Calls.{free_again}
use operating_systems_labwor.Xv6.Threads.Wakeups.Calls.{
  LeavesTable, IsCalm, all_same, awake, write_calm,
}

CalmAll-clear_threads :
    (init : Option ℕ) (j i : ℕ) (t : List Proc) → CalmAll init t (clear_threads j i t)
unfolding clear_threads
CalmAll-clear_threads init j i [] m = Calm-refl init blank
CalmAll-clear_threads init j i (p ∷ t) zero = elim (Bool-cases (is_left j i p)) [
  | inl left ↦ rw left (λ s w. cc s, λ z. cc z)
  | inr other ↦ rw other (Calm-refl init p)
]
CalmAll-clear_threads init j i (p ∷ t) (suc m) = CalmAll-clear_threads init j (i + 1) t m

unused_cases :
    (s : ProcState) → is_unused s ≡ true → (is_sleeping s ≡ false) × (is_zombie s ≡ false)
unused_cases unused e = (refl, refl)
unused_cases embryo e = cc e
unused_cases sleeping e = cc e
unused_cases runnable e = cc e
unused_cases running e = cc e
unused_cases zombie e = cc e

-- A scan that finds nothing has met no zombie that is meant.
scan-none :
    (match : ℕ → Proc → Bool) (i : ℕ) (t : List Proc) (have b : Bool)
    → scan match i t have ≡ (none, b)
    → (j : ℕ) → is_zombie (at t j).state ≡ true
    → match (i + j) (at t j) ≡ false
unfolding scan
scan-none match i [] have b e j z = cc z
scan-none match i (p ∷ t) have b e j z = elim (Bool-cases (match i p)) [
  | inr other ↦
      next match i p t j z (inl other) (scan-none match (i + 1) t have b (rw (scan, other) at e))
  | inl hit ↦ elim (Bool-cases (is_zombie p.state)) [
    | inl dead ↦ cc (rw (scan, hit, dead) at e)
    | inr alive ↦
        next match i p t j z (inr alive)
          (scan-none match (i + 1) t true b (rw (scan, hit, alive) at e))
  ]
]
  where
    next :
        (match : ℕ → Proc → Bool) (i : ℕ) (p : Proc) (t : List Proc) (j : ℕ)
        → is_zombie (at (p ∷ t) j).state ≡ true
        → (match i p ≡ false) ⊎ (is_zombie p.state ≡ false)
        → ((m : ℕ) → is_zombie (at t m).state ≡ true → match (i + 1 + m) (at t m) ≡ false)
        → match (i + j) (at (p ∷ t) j) ≡ false
    next match i p t zero z (inl other) rest =
        subst (λ (n : ℕ). match n p ≡ false) (omega arith) other
    next match i p t zero z (inr alive) rest = cc (z, alive)
    next match i p t (suc j) z first_entry rest =
        subst (λ (n : ℕ). match n (at t j) ≡ false) (omega arith) (rest j z)

scan_all :
    (match : ℕ → Proc → Bool) (t : List Proc) (have b : Bool)
    → scan match 0 t have ≡ (none, b)
    → (j : ℕ) → is_zombie (at t j).state ≡ true
    → match j (at t j) ≡ false
scan_all match t have b e j z =
    subst (λ (n : ℕ). match n (at t j) ≡ false) (omega arith) (scan-none match 0 t have b e j z)

module _ (address : ℕ → ℕ) (init : Option ℕ) where
  -- A new entry at `c`, which has nothing to wait for if it waits at all.
  set_sleeper :
      (t : List Proc) (c : ℕ) (p : Proc)
      → is_zombie p.state ≡ false
      → ((is_watching p.context ≡ true)
          → (p.chan ≡ address c)
            × ((j : ℕ) → is_zombie (at t j).state ≡ true → meant p.context c j (at t j) ≡ false))
      → NoneMissed address init t
      → NoneMissed address init (set t c p)
  set_sleeper t c p alive looked h i other asleep watching = elim (at-set t c i p) [
    | inl (e, now) ↦
        let (on, none_dead) =
          looked (ap (λ (q : Proc). is_watching q.context) (sym now) ∙ watching) in
        (
          ap (λ (q : Proc). q.chan) now ∙ on ∙ ap address e,
          λ j z. moved i j (at u i).context p.context (ap (λ (q : Proc). q.context) now) z (
              subst (λ (n : ℕ). meant p.context n j (at t j) ≡ false) e (none_dead j (before j z))),
        )
    | inr same ↦
        let (on, none_dead) =
          h i other (ap (λ (q : Proc). is_sleeping q.state) (sym same) ∙ asleep)
            (ap (λ (q : Proc). is_watching q.context) (sym same) ∙ watching) in
        (
          ap (λ (q : Proc). q.chan) same ∙ on,
          λ j z.
              moved i j (at u i).context (at t i).context (ap (λ (q : Proc). q.context) same) z
                (none_dead j (before j z)),
        )
  ]
    where
      u : List Proc
      u = set t c p

      old : (j : ℕ) → is_zombie (at u j).state ≡ true → at u j ≡ at t j
      old j z = elim (at-set t c j p) [
        | inl (_, now) ↦ cc (alive, z, ap (λ (q : Proc). is_zombie q.state) now)
        | inr same ↦ same
      ]

      before : (j : ℕ) → is_zombie (at u j).state ≡ true → is_zombie (at t j).state ≡ true
      before j z = ap (λ (q : Proc). is_zombie q.state) (sym (old j z)) ∙ z

      moved :
          (i j : ℕ) (context context' : Context)
          → context ≡ context'
          → is_zombie (at u j).state ≡ true
          → meant context' i j (at t j) ≡ false
          → meant context i j (at u j) ≡ false
      moved i j context context' e z m =
          subst (λ (q : Proc). meant context i j q ≡ false) (sym (old j z))
            (subst (λ (x : Context). meant x i j (at t j) ≡ false) (sym e) m)

module _ (k : Kernel) (init : Option ℕ) where
  pub collect_calm : (j : ℕ) (s : State k) → CalmAll init s.proc (collect k j s).proc
  unfolding collect
  collect_calm j s =
      let p = collected (at s.proc j) in
      let t = set s.proc j p in
      let u = clear_threads j 0 t in
      let (asleep, dead) = unused_cases (at u j).state (free_again k j s) in
      write_calm k init s u j (forgotten (at u j))
        (CalmAll-trans init s.proc t u
          (CalmAll-set init s.proc j p (awake k init (at s.proc j) p refl refl))
          (CalmAll-clear_threads init j 0 t))
        asleep dead

  pub collect_thread_calm : (j : ℕ) (s : State k) → CalmAll init s.proc (collect_thread k j s).proc
  unfolding collect_thread put_proc
  collect_thread_calm j s = write_calm k init s s.proc j _ (all_same k init s.proc) refl refl

  pub collect_pid_calm : (j : ℕ) (s : State k) → CalmAll init s.proc (collect_pid k j s).proc
  unfolding collect_pid put_proc
  collect_pid_calm j s = write_calm k init s s.proc j _ (all_same k init s.proc) refl refl

  module _ (address : ℕ → ℕ) where
    abbrev pub KeepsNoneMissed : State k → Out k → Type 0
    KeepsNoneMissed s o = NoneMissed address init s.proc → LeavesTable k (NoneMissed address init) o

    -- Process `c` goes to sleep, and nothing that it waits for is a zombie.
    pub sleep_keeps :
        (c chan : ℕ) (context : Context) (s : State k)
        → ((is_watching context ≡ true)
            → (chan ≡ address c)
              × ((j : ℕ)
                  → is_zombie (at s.proc j).state ≡ true
                  → meant context c j (at s.proc j) ≡ false))
        → KeepsNoneMissed s (sleep k address c chan context s)
    unfolding sleep put_proc
    sleep_keeps c chan context s looked h =
        let p = record (at s.proc c) { chan = chan; state = sleeping; context = context } in
        set_sleeper address init s.proc c p refl looked h

    pub calm_keeps : (s : State k) (o : Out k) → IsCalm k init s o → KeepsNoneMissed s o
    calm_keeps s (returned _ t) calm h = CalmAll-NoneMissed init address s.proc t.proc calm h
    calm_keeps s (switched t) calm h = CalmAll-NoneMissed init address s.proc t.proc calm h
    calm_keeps s panicked calm h = tt

    pub wait_keeps : (c : ℕ) (s : State k) → KeepsNoneMissed s (wait k address c s)
    unfolding wait end_wait
    wait_keeps c s = at_end (scan (is_child c) 0 s.proc false) refl
      where
        at_end :
            (r : Option ℕ × Bool)
            → scan (is_child c) 0 s.proc false ≡ r
            → KeepsNoneMissed s (end_wait k address c r s)
        at_end (some j, have) e =
            calm_keeps s (end_wait k address c (some j, have) s) (collect_calm j s)
        at_end (none, have) e = elim (Bool-cases (not have || (at s.proc c).killed)) [
          | inl stop ↦ rw stop (λ h. h)
          | inr stay ↦ rw stay (
              sleep_keeps c (address c) in_wait s
                (λ _. (refl, λ j z. scan_all (is_child c) s.proc false have e j z)))
        ]

    pub thread_join_keeps :
        (c thread : ℕ) (s : State k) → KeepsNoneMissed s (thread_join k address c thread s)
    unfolding thread_join end_join
    thread_join_keeps c thread s = at_end (scan (is_thread c thread) 0 s.proc false) refl
      where
        at_end :
            (r : Option ℕ × Bool)
            → scan (is_thread c thread) 0 s.proc false ≡ r
            → KeepsNoneMissed s (end_join k address c thread r s)
        at_end (some j, have) e =
            calm_keeps s (end_join k address c thread (some j, have) s) (collect_thread_calm j s)
        at_end (none, have) e = elim (Bool-cases (not have || (at s.proc c).killed)) [
          | inl stop ↦ rw stop (λ h. h)
          | inr stay ↦ rw stay (
              sleep_keeps c (address c) (in_thread_join thread) s
                (λ _. (refl, λ j z. scan_all (is_thread c thread) s.proc false have e j z)))
        ]

    pub waitpid_at_keeps : (c j : ℕ) (s : State k) → KeepsNoneMissed s (waitpid_at k address c j s)
    unfolding waitpid_at
    waitpid_at_keeps c j s = elim (Bool-cases (is_zombie (at s.proc j).state)) [
      | inl dead ↦ rw dead (
          calm_keeps s (returned (pos (at s.proc j).pid) (collect_pid k j s))
            (collect_pid_calm j s))
      | inr alive ↦ rw alive (sleep_keeps c (address c) (in_waitpid j) s (λ e. cc e))
    ]

    pub waitpid_keeps : (c pid : ℕ) (s : State k) → KeepsNoneMissed s (waitpid k address c pid s)
    unfolding waitpid
    waitpid_keeps c pid s = elim (first_lem (λ p. points_to p.parent c && p.pid == pid) s.proc) [
      | inl (e, _) ↦ rw (waitpid, e) (λ h. h)
      | inr (j, e, _, _, _) ↦ rw (waitpid, e) (waitpid_at_keeps c j s)
    ]
