-- ===== src/Malloc/Runs/Valid.antt =====
-- The invariant of `bit` and `chunk_size`: the runs in use lie in the array, do not overlap, and
-- cover exactly the chunks that are marked.
use operating_systems_labwor.Base.{
  ℕ, zero, suc, ◌+◌, ◌≢◌, ◌≡◌, ◌<◌, ◌≤◌, ◌⊎◌, inl, inr, refl, sym, ap, length, arith, ℕ_discrete,
  dec_lt, length-set, get_or-set_self, get_or-set_ne, ◌∙◌, replicate, length-replicate,
}
use operating_systems_labwor.Malloc.Runs.{Table, at, take_run, free_run}
use operating_systems_labwor.Malloc.Runs.Search.{length-fill, at-fill_outside, at-fill_inside}

-- Chunk `k` belongs to the run that starts at `j`.
abbrev pub InRun : Table → ℕ → ℕ → Type 0
InRun t j k = (j ≤ k) × (k < j + at t.chunk_size j)

pub record IsValid (n : ℕ) (t : Table) : Type 0 where
  pub bits : length t.bit ≡ n
  pub sizes : length t.chunk_size ≡ n
  pub inside : (j : ℕ) → j + at t.chunk_size j ≤ n ⊎ (at t.chunk_size j ≡ 0)
  pub marked : (j k : ℕ) → InRun t j k → at t.bit k ≢ 0
  pub apart : (j k m : ℕ) → InRun t j m → InRun t k m → j ≡ k
  pub owned : (k : ℕ) → k < n → at t.bit k ≢ 0 → (j : ℕ) × InRun t j k

module _ (n : ℕ) (t : Table) (v : IsValid n t) where
  module _ (j count : ℕ) (positive : 0 < count) (fits : j + count ≤ n)
      (free : (k : ℕ) → j ≤ k → k < j + count → at t.bit k ≡ 0) where
    abbrev taken : Table
    taken = take_run t j count

    size_self : at taken.chunk_size j ≡ count
    unfolding take_run
    size_self = get_or-set_self t.chunk_size j count 0 (omega (arith, v.sizes))

    size_other : (k : ℕ) → j ≢ k → at taken.chunk_size k ≡ at t.chunk_size k
    unfolding take_run
    size_other k ne = get_or-set_ne t.chunk_size j k count 0 ne

    bit_inside : (k : ℕ) → j ≤ k → k < j + count → at taken.bit k ≡ 1
    unfolding take_run
    bit_inside k a b = at-fill_inside t.bit j count 1 k a b (omega (arith, v.bits))

    bit_outside : (k : ℕ) → (k < j) ⊎ (j + count ≤ k) → at taken.bit k ≡ at t.bit k
    unfolding take_run
    bit_outside k h = at-fill_outside t.bit j count 1 k h

    -- A run of the new table is the new one, or an old one.
    runs :
        (k m : ℕ)
        → InRun taken k m
        → ((k ≡ j) × (j ≤ m) × (m < j + count)) ⊎ ((j ≢ k) × InRun t k m)
    runs k m (a, b) = elim (ℕ_discrete j k) [
      | yes e ↦
          inl (
            sym e,
            omega (arith, e),
            omega (arith, e, size_self, ap (λ i. at taken.chunk_size i) e),
          )
      | no ne ↦ inr (ne, (a, omega (arith, size_other k ne)))
    ]

    -- An old run and the new one share no chunk.
    disjoint : (k m : ℕ) → InRun t k m → j ≤ m → m < j + count → ⊥
    disjoint k m r a b = v.marked k m r (free m a b)

    inside : (k : ℕ) → k + at taken.chunk_size k ≤ n ⊎ (at taken.chunk_size k ≡ 0)
    inside k = elim (ℕ_discrete j k) [
      | yes e ↦ inl (omega (arith, e, size_self, ap (λ i. at taken.chunk_size i) e))
      | no ne ↦ rw (size_other k ne) (v.inside k)
    ]

    marked : (k m : ℕ) → InRun taken k m → at taken.bit m ≢ 0
    marked k m r = elim (runs k m r) [
      | inl (e, a, b) ↦ omega (arith, bit_inside m a b)
      | inr (ne, old) ↦ elim (dec_lt m j) [
        | yes below ↦ rw (bit_outside m (inl below)) (v.marked k m old)
        | no above ↦ elim (dec_lt m (j + count)) [
          | yes b ↦ absurd (disjoint k m old (omega arith) b)
          | no beyond ↦ rw (bit_outside m (inr (omega arith))) (v.marked k m old)
        ]
      ]
    ]

    apart : (k l m : ℕ) → InRun taken k m → InRun taken l m → k ≡ l
    apart k l m r q = elim (runs k m r) [
      | inl (e, a, b) ↦ elim (runs l m q) [
        | inl (d, _, _) ↦ e ∙ sym d
        | inr (ne, old) ↦ absurd (disjoint l m old a b)
      ]
      | inr (ne, old) ↦ elim (runs l m q) [
        | inl (d, a, b) ↦ absurd (disjoint k m old a b)
        | inr (nd, old') ↦ v.apart k l m old old'
      ]
    ]

    kept_run : (k m : ℕ) → InRun t k m → InRun taken k m
    kept_run k m (a, b) = elim (ℕ_discrete j k) [
      | yes e ↦ absurd (disjoint k k (omega arith) (omega arith) (omega arith))
      | no ne ↦ (a, omega (arith, size_other k ne))
    ]

    owned : (k : ℕ) → k < n → at taken.bit k ≢ 0 → (i : ℕ) × InRun taken i k
    owned k l used = elim (dec_lt k j) [
      | yes below ↦
          let (i, r) = v.owned k l (rw (bit_outside k (inl below)) at used) in (i, kept_run i k r)
      | no above ↦ elim (dec_lt k (j + count)) [
        | yes b ↦ (j, (omega arith, omega (arith, size_self)))
        | no beyond ↦
            let (i, r) = v.owned k l (rw (bit_outside k (inr (omega arith))) at used) in
            (i, kept_run i k r)
      ]
    ]

    -- To take a run of free chunks keeps the invariant.
    pub take_run-IsValid : IsValid n taken
    unfolding take_run
    take_run-IsValid = record {
      bits = length-fill t.bit j count 1 ∙ v.bits;
      sizes = length-set t.chunk_size j count ∙ v.sizes;
      inside = inside;
      marked = marked;
      apart = apart;
      owned = owned;
    }

  module _ (start : ℕ) (l : start < n) where
    abbrev freed : Table
    freed = free_run t start

    abbrev count : ℕ
    count = at t.chunk_size start

    gone : at freed.chunk_size start ≡ 0
    unfolding free_run
    gone = get_or-set_self t.chunk_size start 0 0 (omega (arith, v.sizes))

    stays : (k : ℕ) → start ≢ k → at freed.chunk_size k ≡ at t.chunk_size k
    unfolding free_run
    stays k ne = get_or-set_ne t.chunk_size start k 0 0 ne

    in_bounds : start + count ≤ n
    in_bounds = elim (v.inside start) [ inl h ↦ h | inr e ↦ omega (arith, e) ]

    cleared : (k : ℕ) → start ≤ k → k < start + count → at freed.bit k ≡ 0
    unfolding free_run
    cleared k a b = at-fill_inside t.bit start count 0 k a b (omega (arith, v.bits, in_bounds))

    untouched : (k : ℕ) → (k < start) ⊎ (start + count ≤ k) → at freed.bit k ≡ at t.bit k
    unfolding free_run
    untouched k h = at-fill_outside t.bit start count 0 k h

    -- A run that is left is an old one with another start.
    old_run : (k m : ℕ) → InRun freed k m → (start ≢ k) × InRun t k m
    old_run k m (a, b) = elim (ℕ_discrete start k) [
      | yes e ↦ absurd (omega (arith, gone, ap (λ i. at freed.chunk_size i) e))
      | no ne ↦ (ne, (a, omega (arith, stays k ne)))
    ]

    outside : (k m : ℕ) → start ≢ k → InRun t k m → (m < start) ⊎ (start + count ≤ m)
    outside k m ne r = elim (dec_lt m start) [
      | yes below ↦ inl below
      | no above ↦ elim (dec_lt m (start + count)) [
        | yes b ↦ absurd (ne (v.apart start k m (omega arith, b) r))
        | no beyond ↦ inr (omega arith)
      ]
    ]

    kept : (k m : ℕ) → start ≢ k → InRun t k m → InRun freed k m
    kept k m ne (a, b) = (a, omega (arith, stays k ne))

    free_owned :
        (k : ℕ)
        → k < n
        → (k < start) ⊎ (start + count ≤ k)
        → at freed.bit k ≢ 0
        → (i : ℕ) × InRun freed i k
    free_owned k m out used =
        let (i, r) = v.owned k m (rw (untouched k out) at used) in
        (
          i,
          elim (ℕ_discrete start i) [
            | yes e ↦ absurd (omega (arith, r.0, r.1, out, ap (λ a. at t.chunk_size a) e, e))
            | no ne ↦ kept i k ne r
          ],
        )

    -- To give back a run keeps the invariant.
    pub free_run-IsValid : IsValid n freed
    unfolding free_run
    free_run-IsValid = record {
      bits = length-fill t.bit start count 0 ∙ v.bits;
      sizes = length-set t.chunk_size start 0 ∙ v.sizes;
      inside = λ k. elim (ℕ_discrete start k) [
        | yes e ↦ inr (ap (λ i. at freed.chunk_size i) (sym e) ∙ gone)
        | no ne ↦ rw (stays k ne) (v.inside k)
      ];
      marked = λ k m r.
          let (ne, old) = old_run k m r in rw (untouched m (outside k m ne old)) (v.marked k m old);
      apart = λ j k m r q. v.apart j k m (old_run j m r).1 (old_run k m q).1;
      owned = λ k m used. elim (dec_lt k start) [
        | yes below ↦ free_owned k m (inl below) used
        | no above ↦ elim (dec_lt k (start + count)) [
          | yes b ↦ absurd (used (cleared k (omega arith) b))
          | no beyond ↦ free_owned k m (inr (omega arith)) used
        ]
      ];
    }

-- An array of zeros.
pub at-replicate : (n k : ℕ) → at (replicate n 0) k ≡ 0
at-replicate zero k = refl
at-replicate (suc n) zero = refl
at-replicate (suc n) (suc k) = at-replicate n k

-- No chunk is in use at the start.
pub empty-IsValid : (n : ℕ) → IsValid n (record { bit = replicate n 0; chunk_size = replicate n 0 })
empty-IsValid n = record {
  bits = length-replicate n 0;
  sizes = length-replicate n 0;
  inside = λ j. inr (at-replicate n j);
  marked = λ j k r. absurd (omega (arith, r.0, r.1, at-replicate n j));
  apart = λ j k m r q. absurd (omega (arith, r.0, r.1, at-replicate n j));
  owned = λ k l used. absurd (used (at-replicate n k));
}
