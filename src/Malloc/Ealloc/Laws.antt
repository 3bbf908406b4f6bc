-- ===== src/Malloc/Ealloc/Laws.antt =====
-- The allocator of ealloc.c: what `alloc` takes lies in one page and in no other allocation.
use operating_systems_labwor.Base.{
  ℕ, zero, suc, ◌+◌, ◌-◌, ◌*◌, ◌/◌, ◌%◌, ◌<◌, ◌≤◌, ◌≡◌, ◌≢◌, ◌⊎◌, inl, inr, refl, ap, subst,
  Bool-cases, Option, none, some, ◌==◌, ==-ne, arith, ℕ_discrete, pos, ◌∙◌, List, length,
  length-set, get_or-set_self, get_or-set_ne, if◌then◌else◌,
}
use operating_systems_labwor.Malloc.Runs.{Table, at, take_run}
use operating_systems_labwor.Malloc.Runs.Search.{FreeRun, NoRun, search_run_lem}
use operating_systems_labwor.Malloc.Ealloc.{Allocator, map_page, take_chunks, alloc_pages, alloc}

-- Chunk `x` of page `m` is the first with `k` free chunks from there on, in the page.
pub record IsRoom (t : Table) (m k x : ℕ) : Type 0 where
  pub fits : x + k ≤ 16
  pub free : FreeRun t.bit (16 * m) k x
  pub first : (y : ℕ) → y < x → (i : ℕ) × (y ≤ i) × (i < y + k) × (at t.bit (i + 16 * m) ≢ 0)

-- Page `m` has no `k` free chunks in a row.
abbrev pub IsFull : Table → ℕ → ℕ → Type 0
IsFull t m k = NoRun t.bit (16 * m) k 16

-- Where page `q` is once it is mapped: the page that is there, or else what `mmap` returns.
abbrev pub page_at : (ℕ → ℕ) → List ℕ → ℕ → ℕ
page_at mapped bufs q = if at bufs q == 0 then mapped q else at bufs q

-- The pages from `m` on and below `n` are mapped, each only if it was not, and the others stay.
pub record Maps (mapped : ℕ → ℕ) (m n : ℕ) (old new : List ℕ) : Type 0 where
  pub pages : (q : ℕ) → m ≤ q → q < n → at new q ≡ page_at mapped old q
  pub others : (q : ℕ) → (q < m) ⊎ (n ≤ q) → at new q ≡ at old q
  pub count : length new ≡ length old

-- What `alloc` of `k` chunks may do: map all pages and refuse, if none of the pages from `m` on
-- and below 4 has room; or take the first room of the first page that has any, map the pages up to
-- that one, and return the address of the run in that page.
abbrev pub Allocates : (ℕ → ℕ) → Allocator → ℕ → ℕ → Option ℕ × Allocator → Type 0
Allocates mapped a k m (r, b) =
    ((r ≡ none)
      × (b.table ≡ a.table)
      × ((q : ℕ) → m ≤ q → q < 4 → IsFull a.table q k)
      × Maps mapped m 4 a.bufs b.bufs)
    ⊎ ((p x : ℕ) × (m ≤ p)
        × (p < 4)
        × ((q : ℕ) → m ≤ q → q < p → IsFull a.table q k)
        × IsRoom a.table p k x
        × (r ≡ some (page_at mapped a.bufs p + x * 256))
        × (b.table ≡ take_run a.table (16 * p + x) k)
        × Maps mapped m (p + 1) a.bufs b.bufs)

module _ (mapped : ℕ → ℕ) where
  pub map_page-table : (m : ℕ) (a : Allocator) → (map_page mapped m a).table ≡ a.table
  unfolding map_page
  map_page-table m a = elim (Bool-cases (at a.bufs m == 0)) [
    | inl e ↦ rw e refl
    | inr e ↦ rw e refl
  ]

  map_page-Maps :
      (m : ℕ) (a : Allocator)
      → m < length a.bufs
      → Maps mapped m (m + 1) a.bufs (map_page mapped m a).bufs
  unfolding map_page
  map_page-Maps m a l = elim (Bool-cases (at a.bufs m == 0)) [
    | inl e ↦ rw e (record {
      pages = λ q below above.
          let here : m ≡ q = omega arith in
          rw (← here) (rw e (get_or-set_self a.bufs m (mapped m) 0 l));
      others = λ q out. get_or-set_ne a.bufs m q (mapped m) 0 (omega arith);
      count = length-set a.bufs m (mapped m);
    })
    | inr e ↦ rw e (record {
      pages = λ q below above. let here : m ≡ q = omega arith in rw (← here) (rw e refl);
      others = λ q out. refl;
      count = refl;
    })
  ]

  -- First page `m`, and then those behind it.
  Maps-cons :
      (m n : ℕ) (old mid new : List ℕ)
      → m < n
      → Maps mapped m (m + 1) old mid
      → Maps mapped (m + 1) n mid new
      → Maps mapped m n old new
  Maps-cons m n old mid new l f g = record {
    pages = λ q below above. elim (ℕ_discrete m q) [
      | yes e ↦ g.others q (inl (omega arith)) ∙ f.pages q below (omega arith)
      | no ne ↦
          g.pages q (omega arith) above
          ∙ ap (λ (b : ℕ). if b == 0 then mapped q else b) (f.others q (inr (omega arith)))
    ];
    others = λ q out. g.others q (omega arith) ∙ f.others q (omega arith);
    count = g.count ∙ f.count;
  }

  module _ (k : ℕ) (positive : 0 < k) where
    room :
        (t : Table) (m e : ℕ)
        → e < 16
        → k ≤ e + 1
        → FreeRun t.bit (16 * m) k (e + 1 - k)
        → NoRun t.bit (16 * m) k e
        → IsRoom t m k (e + 1 - k)
    room t m e l fits free none_before = record {
      fits = omega arith;
      free = free;
      first = λ y below. none_before y (omega arith);
    }

    from :
        (t : Table) (m n : ℕ)
        → IsFull t m k
        → ((q : ℕ) → m + 1 ≤ q → q < n → IsFull t q k)
        → (q : ℕ) → m ≤ q
        → q < n
        → IsFull t q k
    from t m n full rest q l l' = elim (ℕ_discrete m q) [
      | yes e ↦ subst (λ (i : ℕ). IsFull t i k) e full
      | no ne ↦ rest q (omega arith) l'
    ]

    -- A full page is passed over.
    pass_over :
        (a b : Allocator) (m : ℕ) (r : Option ℕ × Allocator)
        → m < 4
        → b.table ≡ a.table
        → Maps mapped m (m + 1) a.bufs b.bufs
        → IsFull a.table m k
        → Allocates mapped b k (m + 1) r
        → Allocates mapped a k m r
    pass_over a b m r small same maps full (inl (none_left, e, rest, more)) = inl (
      none_left,
      e ∙ same,
      from a.table m 4 full (λ q l l'. subst (λ t. IsFull t q k) same (rest q l l')),
      Maps-cons m 4 a.bufs b.bufs r.1.bufs small maps more,
    )
    pass_over a b m r small same maps full (inr (p, x, l, l', rest, found, at_p, taken, more)) =
        inr (
          p,
          x,
          omega arith,
          l',
          from a.table m p full (λ q i i'. subst (λ t. IsFull t q k) same (rest q i i')),
          subst (λ t. IsRoom t p k x) same found,
          at_p
              ∙ ap (λ (c : ℕ). some ((if c == 0 then mapped p else c) + x * 256))
                  (maps.others p (inr l)),
          taken ∙ ap (λ t. take_run t (16 * p + x) k) same,
          Maps-cons m (p + 1) a.bufs b.bufs r.1.bufs (omega arith) maps more,
        )

    -- The loop over the pages from page `m` on.
    pub pages_lem :
        (rounds m : ℕ) (a : Allocator)
        → m + rounds ≡ 4
        → length a.bufs ≡ 4
        → Allocates mapped a k m (alloc_pages mapped k rounds m a)
    unfolding alloc_pages take_chunks
    pages_lem zero m a h four = inl (
      refl,
      refl,
      λ q l l'. absurd (omega arith),
      record { pages = λ q l l'. absurd (omega arith); others = λ q out. refl; count = refl },
    )
    pages_lem (suc rounds) m a h four =
        let b = map_page mapped m a in
        let same : b.table ≡ a.table = map_page-table m a in
        let maps = map_page-Maps m a (omega arith) in
        elim (search_run_lem b.table.bit (16 * m) k 16 positive) [
          | inl (e, full) ↦
              rw (alloc_pages, e)
                (pass_over a b m (alloc_pages mapped k rounds (m + 1) b) (omega arith) same maps
                  (subst (λ t. IsFull t m k) same full)
                  (pages_lem rounds (m + 1) b (omega arith) (maps.count ∙ four)))
          | inr (e, run, l, fits, free, before) ↦
              rw (alloc_pages, run)
                (inr (
                  m,
                  e + 1 - k,
                  omega arith,
                  omega arith,
                  λ q l l'. absurd (omega arith),
                  subst (λ t. IsRoom t m k (e + 1 - k)) same (room b.table m e l fits free before),
                  ap (λ (c : ℕ). some (c + (e + 1 - k) * 256))
                      (maps.pages m (omega arith) (omega arith)),
                  ap (λ t. take_run t (16 * m + (e + 1 - k)) k) same,
                  maps,
                ))
        ]

    -- `alloc` of a positive multiple of 256 bytes takes the first run of free chunks that is long
    -- enough and lies in one page, and returns its address in that page, or returns NULL and leaves
    -- the table as it is where no page has one. It maps each page that it looks at and that is not
    -- mapped, once, and changes no other page. There are four entries for pages.
    pub alloc-Allocates :
        (a : Allocator)
        → length a.bufs ≡ 4
        → Allocates mapped a k 0 (alloc mapped (pos (k * 256)) a)
    unfolding alloc
    alloc-Allocates a four =
        let whole : k * 256 % 256 ≡ 0 = omega arith in
        let number : k * 256 / 256 ≡ k = omega arith in
        rw (whole, number, ==-ne k 0 (omega arith)) (pages_lem 4 0 a (omega arith) four)
