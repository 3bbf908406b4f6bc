-- ===== src/Xv6/Threads/Kept.antt =====
-- What the loops of proc.c do to the entries of the table, entry by entry.
use operating_systems_labwor.Base.{
  ℕ, zero, suc, ◌+◌, ◌≡◌, ◌<◌, ◌≢◌, ◌⊎◌, inl, inr, refl, ap, subst, ◌∙◌, Bool, true, false,
  Bool-cases, Option, none, some, List, [], ◌∷◌, ==-ne, set, length, arith,
}
use operating_systems_labwor.Xv6.Threads.Table.{
  is_unused, is_zombie, Proc, blank, at, points_to, first, sleeps_on, wake_one, wakeup1,
  wakeup1_one, names_process, pass_child, pass_children,
}
use operating_systems_labwor.Xv6.Threads.Wait.{is_left, clear_threads}

-- Entry `j`, after entry `i` has been written.
pub at-set :
    (t : List Proc) (i j : ℕ) (p : Proc)
    → ((i ≡ j) × (at (set t i p) j ≡ p)) ⊎ (at (set t i p) j ≡ at t j)
at-set [] i j p = inr refl
at-set (q ∷ t) zero zero p = inl (refl, refl)
at-set (q ∷ t) zero (suc j) p = inr refl
at-set (q ∷ t) (suc i) zero p = inr refl
at-set (q ∷ t) (suc i) (suc j) p = elim (at-set t i j p) [
  | inl (e, h) ↦ inl (ap suc e, h)
  | inr h ↦ inr h
]

-- A write outside of the table is lost.
pub at-set_self :
    (t : List Proc) (i : ℕ) (p : Proc) → (at (set t i p) i ≡ p) ⊎ (at (set t i p) i ≡ blank)
at-set_self [] i p = inr refl
at-set_self (q ∷ t) zero p = inl refl
at-set_self (q ∷ t) (suc i) p = at-set_self t i p

pub at-wakeup1 : (chan : ℕ) (t : List Proc) (i : ℕ) → at (wakeup1 chan t) i ≡ wake_one chan (at t i)
unfolding wakeup1 wake_one
at-wakeup1 chan [] i = refl
at-wakeup1 chan (p ∷ t) zero = refl
at-wakeup1 chan (p ∷ t) (suc i) = at-wakeup1 chan t i

-- The number of an entry, and whether it is in use.
abbrev pub SameUse : Proc → Proc → Type 0
SameUse p q = (q.pid ≡ p.pid) × (is_unused q.state ≡ is_unused p.state)

abbrev pub SameUses : List Proc → List Proc → Type 0
SameUses t u = (i : ℕ) → SameUse (at t i) (at u i)

-- The entry is free now, or was in use by the same process before.
abbrev pub Kept : Proc → Proc → Type 0
Kept p q = (is_unused q.state ≡ true) ⊎ ((is_unused p.state ≡ false) × (q.pid ≡ p.pid))

abbrev pub KeptAll : List Proc → List Proc → Type 0
KeptAll t u = (i : ℕ) → Kept (at t i) (at u i)

pub SameUse-Kept : (p q : Proc) → SameUse p q → Kept p q
SameUse-Kept p q (e, h) = elim (Bool-cases (is_unused p.state)) [
  | inl free ↦ inl (h ∙ free)
  | inr used ↦ inr (used, e)
]

pub Kept-trans : (p q r : Proc) → Kept p q → Kept q r → Kept p r
Kept-trans p q r h (inl free) = inl free
Kept-trans p q r (inl free) (inr (used, e)) = cc (free, used)
Kept-trans p q r (inr (used, e)) (inr (_, e')) = inr (used, e' ∙ e)

pub KeptAll-set : (t : List Proc) (i : ℕ) (p : Proc) → Kept (at t i) p → KeptAll t (set t i p)
KeptAll-set t i p h j = elim (at-set t i j p) [
  | inl (e, now) ↦ rw now (subst (λ (n : ℕ). Kept (at t n) p) e h)
  | inr same ↦ rw same (SameUse-Kept (at t j) (at t j) (refl, refl))
]

pub SameUses-set : (t : List Proc) (i : ℕ) (p : Proc) → SameUse (at t i) p → SameUses t (set t i p)
SameUses-set t i p h j = elim (at-set t i j p) [
  | inl (e, now) ↦ rw now (subst (λ (n : ℕ). SameUse (at t n) p) e h)
  | inr same ↦ rw same (refl, refl)
]

wake_one_use : (chan : ℕ) (p : Proc) → SameUse p (wake_one chan p)
unfolding wake_one
wake_one_use chan p = ground arith

pub SameUses-trans : (t u v : List Proc) → SameUses t u → SameUses u v → SameUses t v
SameUses-trans t u v h k i = ((k i).0 ∙ (h i).0, (k i).1 ∙ (h i).1)

pub SameUses-wakeup1 : (chan : ℕ) (t : List Proc) → SameUses t (wakeup1 chan t)
SameUses-wakeup1 chan t i = rw (at-wakeup1 chan t i) (wake_one_use chan (at t i))

pub SameUses-wakeup1_one : (chan : ℕ) (t : List Proc) → SameUses t (wakeup1_one chan t)
unfolding wakeup1_one
SameUses-wakeup1_one chan [] i = (refl, refl)
SameUses-wakeup1_one chan (p ∷ t) zero = ground arith
SameUses-wakeup1_one chan (p ∷ t) (suc i) = elim (Bool-cases (sleeps_on chan p)) [
  | inl here ↦ rw here (refl, refl)
  | inr other ↦ rw other (SameUses-wakeup1_one chan t i)
]

module _ (c : ℕ) (initproc : Option ℕ) (init_address : ℕ) where
  SameUses-pass_child :
      (i : ℕ) (t : List Proc) → SameUses t (pass_child c initproc init_address i t)
  unfolding pass_child
  SameUses-pass_child i t = elim (Bool-cases (points_to (at t i).parent c)) [
    | inr other ↦ rw other (λ j. (refl, refl))
    | inl child ↦
        let moved = set t i (record (at t i) { parent = initproc }) in
        let same = SameUses-set t i (record (at t i) { parent = initproc }) (refl, refl) in
        elim (Bool-cases (is_zombie (at t i).state)) [
          | inl dead ↦
              rw (child, dead)
                (SameUses-trans t moved (wakeup1 init_address moved) same
                  (SameUses-wakeup1 init_address moved))
          | inr alive ↦ rw (child, alive) same
        ]
  ]

  pub SameUses-pass_children :
      (rounds i : ℕ) (t : List Proc) → SameUses t (pass_children c initproc init_address rounds i t)
  unfolding pass_children
  SameUses-pass_children zero i t = λ j. (refl, refl)
  SameUses-pass_children (suc rounds) i t =
      let u = pass_child c initproc init_address i t in
      SameUses-trans t u (pass_children c initproc init_address rounds (i + 1) u)
        (SameUses-pass_child i t) (SameUses-pass_children rounds (i + 1) u)

pub KeptAll-clear_threads : (j i : ℕ) (t : List Proc) → KeptAll t (clear_threads j i t)
unfolding clear_threads
KeptAll-clear_threads j i [] m = inl refl
KeptAll-clear_threads j i (p ∷ t) zero = elim (Bool-cases (is_left j i p)) [
  | inl left ↦ rw left (inl refl)
  | inr other ↦ rw other (SameUse-Kept p p (refl, refl))
]
KeptAll-clear_threads j i (p ∷ t) (suc m) = KeptAll-clear_threads j (i + 1) t m

-- A number that no process has.
pub not-names_process :
    (channel : ℕ) (t : List Proc)
    → ((i : ℕ) → is_unused (at t i).state ≡ false → (at t i).pid ≢ channel)
    → names_process channel t ≡ false
unfolding names_process
not-names_process channel [] h = refl
not-names_process channel (p ∷ t) h =
    let rest = not-names_process channel t (λ i. h (suc i)) in
    elim (Bool-cases (is_unused p.state)) [
      | inl free ↦ rw (free, rest) refl
      | inr used ↦ rw (used, ==-ne p.pid channel (h 0 used), rest) refl
    ]

-- What `first` finds.
abbrev pub Finds : (Proc → Bool) → List Proc → Option ℕ → Type 0
Finds test t r =
    ((r ≡ none) × ((i : ℕ) → i < length t → test (at t i) ≡ false))
    ⊎ ((i : ℕ) × (r ≡ some i)
        × (i < length t)
        × (test (at t i) ≡ true)
        × ((j : ℕ) → j < i → test (at t j) ≡ false))

pub first_lem : (test : Proc → Bool) (t : List Proc) → Finds test t (first test t)
unfolding first
first_lem test [] = inl (refl, λ i l. absurd (omega arith))
first_lem test (p ∷ t) = elim (Bool-cases (test p)) [
  | inl yes_p ↦ rw (first, yes_p) (inr (0, refl, omega arith, yes_p, λ j l. absurd (omega arith)))
  | inr no_p ↦ elim (first_lem test t) [
    | inl (e, all) ↦ rw (first, no_p, e) (inl (refl, below (length t) no_p all))
    | inr (i, e, l, hit, before) ↦
        rw (first, no_p, e) (inr (suc i, refl, omega arith, hit, below i no_p before))
  ]
]
  where
    below :
        (n : ℕ)
        → test p ≡ false
        → ((j : ℕ) → j < n → test (at t j) ≡ false)
        → (j : ℕ) → j < suc n
        → test (at (p ∷ t) j) ≡ false
    below n h k zero l = h
    below n h k (suc j) l = k j (omega arith)
