-- ===== src/Malloc/Runs/Search.antt =====
-- The search finds the first run that is long enough, if there is one.
use operating_systems_labwor.Base.{
  ℕ, zero, suc, ◌+◌, ◌-◌, ◌≢◌, ◌≡◌, ◌<◌, ◌≤◌, ◌⊎◌, inl, inr, refl, Option, none, some, List,
  ==-refl, ==-ne, subst, length, set, arith, ℕ_discrete, dec_lt, length-set, get_or-set_self,
  get_or-set_ne, ◌∙◌,
}
use operating_systems_labwor.Malloc.Runs.{at, next_current, search_run, fill}

module _ (bit : List ℕ) (offset n : ℕ) where
  -- The `n` chunks from `j` on are free.
  abbrev pub FreeRun : ℕ → Type 0
  FreeRun j = (k : ℕ) → j ≤ k → k < j + n → at bit (k + offset) ≡ 0

  -- Of the runs of `n` chunks below `i` each has a chunk in use.
  abbrev pub NoRun : ℕ → Type 0
  NoRun i = (j : ℕ) → j + n ≤ i → (k : ℕ) × (j ≤ k) × (k < j + n) × (at bit (k + offset) ≢ 0)

  -- `current` counts the free chunks just below `i`.
  record IsCurrent (i current : ℕ) : Type 0 where
    below : current ≤ i
    short : current < n
    free : (k : ℕ) → k < i → i ≤ k + current → at bit (k + offset) ≡ 0
    stop : (current ≡ i) ⊎ ((k : ℕ) × (k + current + 1 ≡ i) × (at bit (k + offset) ≢ 0))
    before : NoRun i

  -- The outcome of the search of `i` chunks: no run, or the first one, by its last chunk.
  abbrev pub Found : ℕ → Option ℕ → Type 0
  Found i r =
      ((r ≡ none) × NoRun i)
      ⊎ ((e : ℕ) × (r ≡ some e) × (e < i) × (n ≤ e + 1) × FreeRun (e + 1 - n) × NoRun e)

  step_used : (i current : ℕ) → IsCurrent i current → at bit (i + offset) ≢ 0 → IsCurrent (i + 1) 0
  step_used i current c used = record {
    below = omega arith;
    short = omega (arith, c.short);
    free = λ k l m. absurd (omega arith);
    stop = inr (i, omega arith, used);
    before = λ j l. elim (dec_lt i (j + n)) [
      | yes last ↦ (i, omega (arith, c.short), last, used)
      | no inside ↦ c.before j (omega arith)
    ];
  }

  step_free :
      (i current : ℕ)
      → IsCurrent i current
      → at bit (i + offset) ≡ 0
      → current + 1 < n
      → IsCurrent (i + 1) (current + 1)
  step_free i current c free more = record {
    below = omega (arith, c.below);
    short = more;
    free = λ k l m. elim (ℕ_discrete k i) [
      | yes e ↦ rw e free
      | no ne ↦ c.free k (omega arith) (omega arith)
    ];
    stop = elim c.stop [
      | inl e ↦ inl (omega arith)
      | inr (k, e, used) ↦ inr (k, omega arith, used)
    ];
    before = λ j l. elim (dec_lt i (j + n)) [
      | yes last ↦ elim c.stop [
        | inl e ↦ absurd (omega arith)
        | inr (k, e, used) ↦ (k, omega arith, omega arith, used)
      ]
      | no inside ↦ c.before j (omega arith)
    ];
  }

  current-free :
      (i current : ℕ) → at bit (i + offset) ≡ 0 → next_current bit offset i current ≡ current + 1
  unfolding next_current
  current-free i current e = rw e

  current-used : (i current : ℕ) → at bit (i + offset) ≢ 0 → next_current bit offset i current ≡ 0
  unfolding next_current
  current-used i current e = rw (==-ne (at bit (i + offset)) 0 e)

  search-hit :
      (rounds i current : ℕ)
      → next_current bit offset i current ≡ n
      → search_run bit offset n (suc rounds) i current ≡ some i
  unfolding search_run
  search-hit rounds i current e = rw (e, search_run, ==-refl n)

  search-miss :
      (rounds i current c : ℕ)
      → next_current bit offset i current ≡ c
      → c ≢ n
      → search_run bit offset n (suc rounds) i current ≡ search_run bit offset n rounds (i + 1) c
  unfolding search_run
  search-miss rounds i current c e ne = rw (e, search_run, ==-ne c n ne) (rw e refl)

  search_from :
      (rounds i current : ℕ)
      → IsCurrent i current
      → Found (i + rounds) (search_run bit offset n rounds i current)
  unfolding search_run
  search_from zero i current c = inl (refl, λ j l. c.before j (omega arith))
  search_from (suc rounds) i current c = elim (ℕ_discrete (at bit (i + offset)) 0) [
    | yes free ↦ elim (ℕ_discrete (current + 1) n) [
      | yes full ↦
          rw (search-hit rounds i current (current-free i current free ∙ full))
            (inr (i, refl, omega arith, omega (arith, c.below), run free full, c.before))
      | no more ↦
          let small : current + 1 < n = omega (arith, c.short) in
          rw (search-miss rounds i current (current + 1) (current-free i current free) more)
            (later (search_from rounds (i + 1) (current + 1) (step_free i current c free small)))
    ]
    | no used ↦
        let small : 0 ≢ n = omega (arith, c.short) in
        rw (search-miss rounds i current 0 (current-used i current used) small)
          (later (search_from rounds (i + 1) 0 (step_used i current c used)))
  ]
    where
      later : {r : Option ℕ} → Found (i + 1 + rounds) r → Found (i + suc rounds) r
      later {r} f =
          let e : i + 1 + rounds ≡ i + suc rounds = omega arith in subst (λ (m : ℕ). Found m r) e f

      run : at bit (i + offset) ≡ 0 → current + 1 ≡ n → FreeRun (i + 1 - n)
      run free full k l m = elim (ℕ_discrete k i) [
        | yes e ↦ rw e free
        | no ne ↦ c.free k (omega (arith, c.below)) (omega (arith, c.below))
      ]

  -- The search of the first `rounds` chunks.
  pub search_run_lem : (rounds : ℕ) → 0 < n → Found rounds (search_run bit offset n rounds 0 0)
  search_run_lem rounds positive =
      subst (λ (m : ℕ). Found m (search_run bit offset n rounds 0 0)) (omega arith)
        (search_from rounds 0 0 record {
          below = omega arith;
          short = positive;
          free = λ k l m. absurd (omega arith);
          stop = inl refl;
          before = λ j l. absurd (omega arith);
        })

-- What `fill` writes.
pub length-fill : (bit : List ℕ) (j count value : ℕ) → length (fill bit j count value) ≡ length bit
unfolding fill
length-fill bit j zero value = refl
length-fill bit j (suc count) value =
    length-fill (set bit j value) (j + 1) count value ∙ length-set bit j value

pub at-fill_outside :
    (bit : List ℕ) (j count value k : ℕ)
    → (k < j) ⊎ (j + count ≤ k)
    → at (fill bit j count value) k ≡ at bit k
unfolding fill
at-fill_outside bit j zero value k h = refl
at-fill_outside bit j (suc count) value k h =
    at-fill_outside (set bit j value) (j + 1) count value k (omega arith)
    ∙ get_or-set_ne bit j k value 0 (omega arith)

pub at-fill_inside :
    (bit : List ℕ) (j count value k : ℕ)
    → j ≤ k
    → k < j + count
    → k < length bit
    → at (fill bit j count value) k ≡ value
unfolding fill
at-fill_inside bit j zero value k a b l = absurd (omega arith)
at-fill_inside bit j (suc count) value k a b l = elim (ℕ_discrete j k) [
  | yes e ↦
      at-fill_outside (set bit j value) (j + 1) count value k (inl (omega arith))
      ∙ rw e (get_or-set_self bit k value 0 l)
  | no ne ↦
      at-fill_inside (set bit j value) (j + 1) count value k (omega arith) (omega arith)
        (omega (arith, length-set bit j value))
]
