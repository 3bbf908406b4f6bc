-- ===== src/Malloc/Runs/Undo.antt =====
-- Taking a run and giving it back.
use operating_systems_labwor.Base.{
  ℕ, ◌+◌, ◌<◌, ◌≤◌, ◌≡◌, inl, inr, sym, ap, ◌∙◌, List, arith, set, length-set, get_or-set_self,
  get_or-set_ne, ℕ_discrete, dec_lt,
}
use operating_systems_labwor.Malloc.Runs.{Table, at, fill, take_run, free_run}
use operating_systems_labwor.Malloc.Runs.Search.{length-fill, at-fill_inside, at-fill_outside}
use operating_systems_labwor.Malloc.Runs.Valid.{IsValid}

-- Chunk by chunk the two tables are the same.
abbrev pub SameTable : Table → Table → Type 0
SameTable t u =
    ((m : ℕ) → at u.bit m ≡ at t.bit m) × ((m : ℕ) → at u.chunk_size m ≡ at t.chunk_size m)

-- To give back a run that was just taken gives every chunk the mark and the size that it had.
pub free-take_run :
    (n : ℕ) (t : Table) (j k : ℕ)
    → IsValid n t
    → 0 < k
    → j + k ≤ n
    → ((m : ℕ) → j ≤ m → m < j + k → at t.bit m ≡ 0)
    → SameTable t (free_run (take_run t j k) j)
unfolding free_run take_run
free-take_run n t j k v positive fits free = (bits, sizes)
  where
    marked : List ℕ
    marked = fill t.bit j k 1

    size : at (set t.chunk_size j k) j ≡ k
    size = get_or-set_self t.chunk_size j k 0 (omega (arith, v.sizes))

    bits : (m : ℕ) → at (fill marked j (at (set t.chunk_size j k) j) 0) m ≡ at t.bit m
    bits m = rw size (elim (dec_lt m j) [
      | yes below ↦
          at-fill_outside marked j k 0 m (inl below) ∙ at-fill_outside t.bit j k 1 m (inl below)
      | no above ↦ elim (dec_lt m (j + k)) [
        | yes inside ↦
            at-fill_inside marked j k 0 m (omega arith) inside
              (omega (arith, length-fill t.bit j k 1, v.bits))
            ∙ sym (free m (omega arith) inside)
        | no beyond ↦
            at-fill_outside marked j k 0 m (inr (omega arith))
            ∙ at-fill_outside t.bit j k 1 m (inr (omega arith))
      ]
    ])

    unused : at t.chunk_size j ≡ 0
    unused = elim (ℕ_discrete (at t.chunk_size j) 0) [
      | yes e ↦ e
      | no ne ↦
          absurd (v.marked j j (omega arith, omega arith) (free j (omega arith) (omega arith)))
    ]

    sizes : (m : ℕ) → at (set (set t.chunk_size j k) j 0) m ≡ at t.chunk_size m
    sizes m = elim (ℕ_discrete j m) [
      | yes e ↦
          ap (λ i. at (set (set t.chunk_size j k) j 0) i) (sym e)
          ∙ get_or-set_self (set t.chunk_size j k) j 0 0
              (omega (arith, length-set t.chunk_size j k, v.sizes))
          ∙ sym unused
          ∙ ap (λ i. at t.chunk_size i) e
      | no ne ↦
          get_or-set_ne (set t.chunk_size j k) j m 0 0 ne ∙ get_or-set_ne t.chunk_size j m k 0 ne
    ]
