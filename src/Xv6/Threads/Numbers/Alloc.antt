-- ===== src/Xv6/Threads/Numbers/Alloc.antt =====
-- Numbers that allocproc gives out, in fork and thread_create.
use operating_systems_labwor.Base.{
  ℕ, zero, suc, ◌+◌, ◌<◌, ◌≡◌, inl, inr, refl, sym, ap, ◌∙◌, false, Option, none, some, set, length,
  length-set, get_or-set_self, arith,
}
use operating_systems_labwor.Xv6.Threads.Kernel.{Kernel}
use operating_systems_labwor.Xv6.Threads.Table.{
  unused, embryo, is_unused, in_forkret, Proc, blank, at,
}
use operating_systems_labwor.Xv6.Threads.Kept.{
  at-set, SameUse-Kept, KeptAll-set, SameUses-set, first_lem,
}
use operating_systems_labwor.Xv6.Threads.Proc.{
  State, put_proc, alloc_stack, allocproc, fork_child, fork_at, fork, page_size, thread_child,
  thread_at, thread_create,
}
use operating_systems_labwor.Xv6.Threads.Numbers.{Renumbers, kept_after, Renumbers-refl, Renumbered}

module _ (k : Kernel) where
  new_entry :
      (i : ℕ) (p : Proc) (s : State k) (w : k.World)
      → p.pid ≡ s.nextpid
      → Renumbers k i s (record {
        proc = set s.proc i p;
        nextpid = s.nextpid + 1;
        initproc = s.initproc;
        world = w;
      })
  new_entry i p s w number = record {
    counts = omega arith;
    each = λ j. elim (at-set s.proc i j p) [
      | inl (e, now) ↦ inr (sym e, ap (λ (q : Proc). q.pid) now ∙ number, omega arith)
      | inr same ↦ inl (rw same (SameUse-Kept (at s.proc j) (at s.proc j) (refl, refl)))
    ];
  }

  -- What allocproc may do: fail, or give entry `i` the next number.
  abbrev pub Allocates : State k → Option ℕ × State k → Type 0
  Allocates s (none, t) = (n : ℕ) × Renumbers k n s t
  Allocates s (some i, t) = Renumbers k i s t × (is_unused (at t.proc i).state ≡ false)

  alloc_stack_lem :
      (i : ℕ) (r : ℕ × k.World) (s t : State k)
      → i < length t.proc
      → Renumbers k i s t
      → is_unused (at t.proc i).state ≡ false
      → Allocates s (alloc_stack k i r t)
  unfolding alloc_stack put_proc
  alloc_stack_lem i (zero, w) s t l r used = (
    i,
    kept_after k i s t (set t.proc i (record (at t.proc i) { state = unused; kstack = 0 })) w
        t.initproc r
        (KeptAll-set t.proc i (record (at t.proc i) { state = unused; kstack = 0 }) (inl refl)),
  )
  alloc_stack_lem i (suc m, w) s t l r used =
      let p = record (at t.proc i) { kstack = suc m; context = in_forkret } in
      (
        kept_after k i s t (set t.proc i p) w t.initproc r
            (KeptAll-set t.proc i p (inr (used, refl))),
        rw (get_or-set_self t.proc i p blank l) used,
      )

  pub allocproc_lem : (s : State k) → Allocates s (allocproc k s)
  unfolding allocproc put_proc
  allocproc_lem s = elim (first_lem (λ p. is_unused p.state) s.proc) [
    | inl (e, _) ↦ rw (allocproc, e) (0, Renumbers-refl k s)
    | inr (i, e, l, _, _) ↦
        let p = record (at s.proc i) { state = embryo; pid = s.nextpid; mainthread = some i } in
        let t = put_proc k i p (record s { nextpid = s.nextpid + 1 }) in
        rw (allocproc, e)
          (alloc_stack_lem i (k.kalloc s.world) s t (omega (arith, l, length-set s.proc i p))
            (new_entry i p s s.world refl) (rw (get_or-set_self s.proc i p blank l) refl))
  ]

  fork_child_lem :
      (c n : ℕ) (r : ℕ × k.World) (s t : State k)
      → Renumbers k n s t
      → is_unused (at t.proc n).state ≡ false
      → Renumbered k s (fork_child k c n r t)
  unfolding fork_child put_proc
  fork_child_lem c n (zero, w) s t r used = (
    n,
    kept_after k n s t
        (set t.proc n (record (at t.proc n) { kstack = 0; state = unused; pgdir = 0 }))
        (k.kfree (at t.proc n).kstack w) t.initproc r (KeptAll-set t.proc n _ (inl refl)),
  )
  fork_child_lem c n (suc m, w) s t r used =
      (n, kept_after k n s t _ _ t.initproc r (KeptAll-set t.proc n _ (inr (used, refl))))

  pub fork_lem : (c : ℕ) (s : State k) → Renumbered k s (fork k c s)
  unfolding fork fork_at
  fork_lem c s = at_entry (allocproc k s) (allocproc_lem s)
    where
      at_entry : (r : Option ℕ × State k) → Allocates s r → Renumbered k s (fork_at k c r)
      at_entry (none, t) h = h
      at_entry (some n, t) (r, used) =
          fork_child_lem c n (k.copyuvm (at t.proc c).pgdir (at t.proc c).sz t.world) s t r used

  thread_child_lem :
      (c thread start_routine arg n : ℕ) (r : ℕ × k.World) (s t : State k)
      → Renumbers k n s t
      → is_unused (at t.proc n).state ≡ false
      → Renumbered k s (thread_child k c thread start_routine arg n r t)
  unfolding thread_child put_proc
  thread_child_lem c thread start_routine arg n (stack, w) s t r used =
      let grown = record (at t.proc c) { sz = (at t.proc c).sz + page_size } in
      let kept = SameUses-set t.proc c grown (refl, refl) in
      (
        n,
        kept_after k n s (put_proc k c grown t) _ _ t.initproc
            (kept_after k n s t (set t.proc c grown) t.world t.initproc r
              (λ i. SameUse-Kept (at t.proc i) (at (set t.proc c grown) i) (kept i)))
            (KeptAll-set (set t.proc c grown) n _ (inr ((kept n).1 ∙ used, sym (kept n).0))),
      )

  pub thread_create_lem :
      (c thread start_routine arg : ℕ) (s : State k)
      → Renumbered k s (thread_create k c thread start_routine arg s)
  unfolding thread_create thread_at
  thread_create_lem c thread start_routine arg s = at_entry (allocproc k s) (allocproc_lem s)
    where
      at_entry :
          (r : Option ℕ × State k)
          → Allocates s r
          → Renumbered k s (thread_at k c thread start_routine arg r)
      at_entry (none, t) h = h
      at_entry (some n, t) (r, used) =
          thread_child_lem c thread start_routine arg n
            (k.create_thread_stack (at t.proc c).pgdir t.world) s t r used
