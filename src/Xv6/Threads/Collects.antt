-- ===== src/Xv6/Threads/Collects.antt =====
-- What wait returns, and what it does to the table.
use operating_systems_labwor.Base.{
  ℕ, zero, suc, ◌+◌, ◌<◌, ◌≡◌, ◌≢◌, ◌⊎◌, inl, inr, refl, ap, subst, ◌∙◌, Bool, true, false,
  Bool-cases, Option, none, some, List, [], ◌∷◌, if◌then◌else◌, set, length, length-set,
  get_or-set_self, get_or-set_ne, ==-refl, arith, pos, minus_one,
}
use operating_systems_labwor.Xv6.Threads.Kernel.{Kernel}
use operating_systems_labwor.Xv6.Threads.Table.{is_zombie, in_wait, Proc, blank, at, scan}
use operating_systems_labwor.Xv6.Threads.Proc.{State, Out, returned, sleep}
use operating_systems_labwor.Xv6.Threads.Wait.{
  is_left, is_child, collected, forgotten, clear_threads, collect, end_wait, wait,
}

-- The outcome of a scan from entry `i` on: the first zombie that is meant, or none, and whether any
-- entry is meant.
abbrev Scanned : (ℕ → Proc → Bool) → ℕ → List Proc → Bool → Option ℕ × Bool → Type 0
Scanned match i t have r =
    ((j : ℕ) × (r ≡ (some (i + j), true))
      × (j < length t)
      × (match (i + j) (at t j) ≡ true)
      × (is_zombie (at t j).state ≡ true)
      × ((m : ℕ) → m < j → match (i + m) (at t m) ≡ true → is_zombie (at t m).state ≡ false))
    ⊎ ((b : Bool) × (r ≡ (none, b))
        × ((m : ℕ)
            → m < length t
            → match (i + m) (at t m) ≡ true
            → is_zombie (at t m).state ≡ false)
        × (((b ≡ have) × ((m : ℕ) → m < length t → match (i + m) (at t m) ≡ false))
            ⊎ ((b ≡ true) × ((m : ℕ) × (m < length t) × (match (i + m) (at t m) ≡ true)))))

module _ (match : ℕ → Proc → Bool) where
  -- Entry `i`, and the entries after it.
  at_first :
      (P : ℕ → Proc → Type 0) (i : ℕ) (p : Proc) (t : List Proc) (n : ℕ)
      → P i p
      → ((m : ℕ) → m < n → P (i + 1 + m) (at t m))
      → (m : ℕ) → m < suc n
      → P (i + m) (at (p ∷ t) m)
  at_first P i p t n here_now rest zero l = subst (λ (x : ℕ). P x p) (omega arith) here_now
  at_first P i p t n here_now rest (suc m) l =
      subst (λ (x : ℕ). P x (at t m)) (omega arith) (rest m (omega arith))

  abbrev NoZombie : ℕ → Proc → Type 0
  NoZombie m p = match m p ≡ true → is_zombie p.state ≡ false

  later_on :
      (i : ℕ) (p : Proc) (t : List Proc) (have have' : Bool) (r : Option ℕ × Bool)
      → NoZombie i p
      → ((have' ≡ have) × (match i p ≡ false)) ⊎ ((have' ≡ true) × (match i p ≡ true))
      → Scanned match (i + 1) t have' r
      → Scanned match i (p ∷ t) have r
  later_on i p t have have' r fine seen (inl (j, e, l, hit, dead, before)) = inl (
    suc j,
    e ∙ ap (λ (x : ℕ). (some x, true)) (omega arith),
    omega arith,
    subst (λ (x : ℕ). match x (at t j) ≡ true) (omega arith) hit,
    dead,
    at_first NoZombie i p t j fine before,
  )
  later_on i p t have have' r fine (inl (same, other)) (inr (b, e, none_dead, inl (kept, all))) =
      inr (
        b,
        e,
        at_first NoZombie i p t (length t) fine none_dead,
        inl (kept ∙ same, at_first (λ m q. match m q ≡ false) i p t (length t) other all),
      )
  later_on i p t have have' r fine (inr (now, hit)) (inr (b, e, none_dead, inl (kept, all))) = inr (
    b,
    e,
    at_first NoZombie i p t (length t) fine none_dead,
    inr (kept ∙ now, (0, omega arith, subst (λ (x : ℕ). match x p ≡ true) (omega arith) hit)),
  )
  later_on i p t have have' r fine seen (inr (b, e, none_dead, inr (now, (m, l, hit)))) = inr (
    b,
    e,
    at_first NoZombie i p t (length t) fine none_dead,
    inr (now, (suc m, omega arith, subst (λ (x : ℕ). match x (at t m) ≡ true) (omega arith) hit)),
  )

  scan_lem : (i : ℕ) (t : List Proc) (have : Bool) → Scanned match i t have (scan match i t have)
  unfolding scan
  scan_lem i [] have =
      inr (have, refl, λ m l. absurd (omega arith), inl (refl, λ m l. absurd (omega arith)))
  scan_lem i (p ∷ t) have = elim (Bool-cases (match i p)) [
    | inr other ↦
        rw (scan, other)
          (later_on i p t have have (scan match (i + 1) t have) (λ h. cc (h, other))
            (inl (refl, other)) (scan_lem (i + 1) t have))
    | inl hit ↦ elim (Bool-cases (is_zombie p.state)) [
      | inr alive ↦
          rw (scan, hit, alive)
            (later_on i p t have true (scan match (i + 1) t true) (λ _. alive) (inr (refl, hit))
              (scan_lem (i + 1) t true))
      | inl dead ↦
          rw (scan, hit, dead)
            (inl (
              0,
              ap (λ (x : ℕ). (some x, true)) (omega arith),
              omega arith,
              subst (λ (x : ℕ). match x p ≡ true) (omega arith) hit,
              dead,
              λ m l. absurd (omega arith),
            ))
    ]
  ]

at-clear_threads :
    (j m : ℕ) (t : List Proc) (i : ℕ)
    → at (clear_threads j m t) i
      ≡ (if is_left j (m + i) (at t i) then forgotten (collected (at t i)) else at t i)
unfolding clear_threads
at-clear_threads j m [] i = elim (Bool-cases (is_left j (m + i) blank)) [
  | inl left ↦ ground arith
  | inr other ↦ rw other refl
]
at-clear_threads j m (p ∷ t) zero =
    ap (λ (x : ℕ). if is_left j x p then forgotten (collected p) else p) (omega arith)
at-clear_threads j m (p ∷ t) (suc i) =
    at-clear_threads j (m + 1) t i
    ∙ ap (λ (x : ℕ). if is_left j x (at t i) then forgotten (collected (at t i)) else at t i)
        (omega arith)

length-clear_threads : (j m : ℕ) (t : List Proc) → length (clear_threads j m t) ≡ length t
unfolding clear_threads
length-clear_threads j m [] = refl
length-clear_threads j m (p ∷ t) = ap suc (length-clear_threads j (m + 1) t)

module _ (k : Kernel) where
  -- Entry `j` is free, and so is every entry that another thread of `j` had in use; the other entries
  -- are as they were.
  abbrev pub Collects : ℕ → State k → State k → Type 0
  Collects j s t =
      (at t.proc j ≡ forgotten (collected (at s.proc j)))
      × ((i : ℕ)
          → j ≢ i
          → at t.proc i ≡ (
              if is_left j i (at s.proc i)
              then forgotten (collected (at s.proc i))
              else at s.proc i))

  collect-Collects : (j : ℕ) (s : State k) → j < length s.proc → Collects j s (collect k j s)
  unfolding collect
  collect-Collects j s l = (own, others)
    where
      t : List Proc
      t = set s.proc j (collected (at s.proc j))

      u : List Proc
      u = clear_threads j 0 t

      kept : (q : Proc) → (if is_left j (0 + j) q then forgotten (collected q) else q) ≡ q
      kept q = let same : j ≡ 0 + j = omega arith in rw (← same, ==-refl j) refl

      own_cleared : at u j ≡ collected (at s.proc j)
      own_cleared =
          at-clear_threads j 0 t j
          ∙ kept (at t j)
          ∙ get_or-set_self s.proc j (collected (at s.proc j)) blank l

      own : at (set u j (forgotten (at u j))) j ≡ forgotten (collected (at s.proc j))
      own =
          get_or-set_self u j (forgotten (at u j)) blank (
            omega
              (arith, l, length-clear_threads j 0 t, length-set s.proc j (collected (at s.proc j))))
          ∙ ap (λ (p : Proc). forgotten p) own_cleared

      others :
          (i : ℕ)
          → j ≢ i
          → at (set u j (forgotten (at u j))) i ≡ (
              if is_left j i (at s.proc i)
              then forgotten (collected (at s.proc i))
              else at s.proc i)
      others i ne =
          get_or-set_ne u j i (forgotten (at u j)) blank ne
          ∙ at-clear_threads j 0 t i
          ∙ ap (λ (p : Proc). if is_left j (0 + i) p then forgotten (collected p) else p)
              (get_or-set_ne s.proc j i (collected (at s.proc j)) blank ne)
          ∙ ap
              (λ (x : ℕ).
                if is_left j x (at s.proc i)
                then forgotten (collected (at s.proc i))
                else at s.proc i)
              (omega arith)

  module _ (address : ℕ → ℕ) where
    -- No child that is a main thread is a zombie.
    abbrev pub Sleeps : ℕ → State k → Out k → Type 0
    Sleeps c s o =
        ((o ≡ returned minus_one s)
          × (((m : ℕ) → m < length s.proc → is_child c m (at s.proc m) ≡ false)
              ⊎ ((at s.proc c).killed ≡ true)))
        ⊎ ((o ≡ sleep k address c (address c) in_wait s)
            × ((at s.proc c).killed ≡ false)
            × ((m : ℕ) × (m < length s.proc) × (is_child c m (at s.proc m) ≡ true)))

    -- The outcome o of wait when the entry c of the table calls it in the state s.
    abbrev pub Waits : ℕ → State k → Out k → Type 0
    Waits c s o =
        ((j : ℕ) × (t : State k) × (o ≡ returned (pos (at s.proc j).pid) t)
          × (is_child c j (at s.proc j) ≡ true)
          × (is_zombie (at s.proc j).state ≡ true)
          × ((m : ℕ)
              → m < j
              → is_child c m (at s.proc m) ≡ true
              → is_zombie (at s.proc m).state ≡ false)
          × Collects j s t)
        ⊎ (((m : ℕ)
              → m < length s.proc
              → is_child c m (at s.proc m) ≡ true
              → is_zombie (at s.proc m).state ≡ false)
            × Sleeps c s o)

    -- wait collects the first entry of the process table that is a main thread
    -- of the calling process's children and a zombie, and returns its number;
    -- when there is none it returns -1 and changes nothing if there is no such
    -- child at all or the process was killed, and else it goes to sleep on its
    -- own address.
    pub wait-Waits : (c : ℕ) (s : State k) → Waits c s (wait k address c s)
    unfolding wait end_wait
    wait-Waits c s = elim (scan_lem (is_child c) 0 s.proc false) [
      | inl (j, e, l, hit, dead, before) ↦
          let at_j : 0 + j ≡ j = omega arith in
          rw (e, at_j)
            (inl (
              j,
              collect k j s,
              refl,
              subst (λ (x : ℕ). is_child c x (at s.proc j) ≡ true) at_j hit,
              dead,
              λ m below. from_zero m (before m below),
              collect-Collects j s l,
            ))
      | inr (b, e, none_dead, seen) ↦
          rw e (inr (λ m below. from_zero m (none_dead m below), sleeps_or_not b seen))
    ]
      where
        from_zero :
            (m : ℕ)
            → (is_child c (0 + m) (at s.proc m) ≡ true → is_zombie (at s.proc m).state ≡ false)
            → is_child c m (at s.proc m) ≡ true
            → is_zombie (at s.proc m).state ≡ false
        from_zero m h =
            subst
              (λ (x : ℕ). is_child c x (at s.proc m) ≡ true → is_zombie (at s.proc m).state ≡ false)
              (omega arith) h

        sleeps_or_not :
            (b : Bool)
            → ((b ≡ false)
                × ((m : ℕ) → m < length s.proc → is_child c (0 + m) (at s.proc m) ≡ false))
              ⊎ ((b ≡ true)
                  × ((m : ℕ) × (m < length s.proc) × (is_child c (0 + m) (at s.proc m) ≡ true)))
            → Sleeps c s (end_wait k address c (none, b) s)
        sleeps_or_not b (inl (none_there, all)) = rw none_there (
            inl (
              refl,
              inl (λ m below.
                  subst (λ (x : ℕ). is_child c x (at s.proc m) ≡ false) (omega arith)
                    (all m below)),
            ))
        sleeps_or_not b (inr (some_there, (m, below, hit))) =
            elim (Bool-cases (at s.proc c).killed) [
              | inl dead ↦ rw (some_there, dead) (inl (refl, inr refl))
              | inr alive ↦
                  rw (some_there, alive)
                    (inr (
                      refl,
                      refl,
                      (
                        m,
                        below,
                        subst (λ (x : ℕ). is_child c x (at s.proc m) ≡ true) (omega arith) hit,
                      ),
                    ))
            ]
