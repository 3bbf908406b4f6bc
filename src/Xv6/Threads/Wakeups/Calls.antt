-- ===== src/Xv6/Threads/Wakeups/Calls.antt =====
-- The calls that leave nobody with more to wait for.
use operating_systems_labwor.Base.{
  ℕ, zero, suc, ◌+◌, ◌≡◌, inl, inr, refl, ap, false, Option, none, some, List, set, get_or-set_self,
}
use operating_systems_labwor.Xv6.Threads.Kernel.{Kernel}
use operating_systems_labwor.Xv6.Threads.Table.{
  is_sleeping, unused, embryo, is_unused, is_zombie, in_forkret, Proc, blank, at,
}
use operating_systems_labwor.Xv6.Threads.Kept.{first_lem}
use operating_systems_labwor.Xv6.Threads.Proc.{
  State, Out, returned, switched, panicked, put_proc, alloc_stack, allocproc, fork_child, fork_at,
  fork, page_size, thread_child, thread_at, thread_create,
}
use operating_systems_labwor.Xv6.Threads.Wakeups.{
  Calm, CalmAll, Calm-refl, CalmAll-trans, CalmAll-set,
}

module _ (k : Kernel) where
  -- The state in which a call leaves the table, for what is said of the table.
  abbrev pub LeavesTable : (List Proc → Type 0) → Out k → Type 0
  LeavesTable P (returned _ t) = P t.proc
  LeavesTable P (switched t) = P t.proc
  LeavesTable P panicked = Unit {0}

  module _ (init : Option ℕ) where
    abbrev pub IsCalm : State k → Out k → Type 0
    IsCalm s o = LeavesTable (CalmAll init s.proc) o

    pub all_same : (t : List Proc) → CalmAll init t t
    all_same t i = Calm-refl init (at t i)

    -- An entry that neither sleeps nor is a zombie.
    pub awake :
        (p q : Proc) → is_sleeping q.state ≡ false → is_zombie q.state ≡ false → Calm init p q
    awake p q s z = (λ s' w. cc (s, s'), λ z'. cc (z, z'))

    abbrev AllocCalm : State k → Option ℕ × State k → Type 0
    AllocCalm s (_, t) = CalmAll init s.proc t.proc

    alloc_stack_calm :
        (i : ℕ) (r : ℕ × k.World) (s t : State k)
        → is_sleeping (at t.proc i).state ≡ false
        → is_zombie (at t.proc i).state ≡ false
        → CalmAll init s.proc t.proc
        → AllocCalm s (alloc_stack k i r t)
    unfolding alloc_stack put_proc
    alloc_stack_calm i (zero, w) s t asleep dead calm =
        let p = record (at t.proc i) { state = unused; kstack = 0 } in
        CalmAll-trans init s.proc t.proc (set t.proc i p) calm
          (CalmAll-set init t.proc i p (awake (at t.proc i) p refl refl))
    alloc_stack_calm i (suc m, w) s t asleep dead calm =
        let p = record (at t.proc i) { kstack = suc m; context = in_forkret } in
        CalmAll-trans init s.proc t.proc (set t.proc i p) calm
          (CalmAll-set init t.proc i p (awake (at t.proc i) p asleep dead))

    pub allocproc_calm : (s : State k) → AllocCalm s (allocproc k s)
    unfolding allocproc put_proc
    allocproc_calm s = elim (first_lem (λ p. is_unused p.state) s.proc) [
      | inl (e, _) ↦ rw (allocproc, e) (all_same s.proc)
      | inr (i, e, l, _, _) ↦
          let p = record (at s.proc i) { state = embryo; pid = s.nextpid; mainthread = some i } in
          let t = put_proc k i p (record s { nextpid = s.nextpid + 1 }) in
          let here : at t.proc i ≡ p = get_or-set_self s.proc i p blank l in
          rw (allocproc, e)
            (alloc_stack_calm i (k.kalloc s.world) s t (ap (λ (q : Proc). is_sleeping q.state) here)
              (ap (λ (q : Proc). is_zombie q.state) here)
              (CalmAll-set init s.proc i p (awake (at s.proc i) p refl refl)))
    ]

    -- A write of an entry that neither sleeps nor is a zombie.
    pub write_calm :
        (s : State k) (t : List Proc) (i : ℕ) (p : Proc)
        → CalmAll init s.proc t
        → is_sleeping p.state ≡ false
        → is_zombie p.state ≡ false
        → CalmAll init s.proc (set t i p)
    write_calm s t i p calm asleep dead =
        CalmAll-trans init s.proc t (set t i p) calm
          (CalmAll-set init t i p (awake (at t i) p asleep dead))

    pub fork-IsCalm : (c : ℕ) (s : State k) → IsCalm s (fork k c s)
    unfolding fork fork_at fork_child put_proc
    fork-IsCalm c s = at_entry (allocproc k s) (allocproc_calm s)
      where
        child :
            (n : ℕ) (r : ℕ × k.World) (t : State k)
            → CalmAll init s.proc t.proc
            → IsCalm s (fork_child k c n r t)
        child n (zero, w) t calm = write_calm s t.proc n _ calm refl refl
        child n (suc pgdir, w) t calm = write_calm s t.proc n _ calm refl refl

        at_entry : (r : Option ℕ × State k) → AllocCalm s r → IsCalm s (fork_at k c r)
        at_entry (none, t) h = h
        at_entry (some n, t) h =
            child n (k.copyuvm (at t.proc c).pgdir (at t.proc c).sz t.world) t h

    pub thread_create-IsCalm :
        (c thread start_routine arg : ℕ) (s : State k)
        → IsCalm s (thread_create k c thread start_routine arg s)
    unfolding thread_create thread_at thread_child put_proc
    thread_create-IsCalm c thread start_routine arg s = at_entry (allocproc k s) (allocproc_calm s)
      where
        at_entry :
            (r : Option ℕ × State k)
            → AllocCalm s r
            → IsCalm s (thread_at k c thread start_routine arg r)
        at_entry (none, t) h = h
        at_entry (some n, t) h =
            let grown = record (at t.proc c) { sz = (at t.proc c).sz + page_size } in
            write_calm s (set t.proc c grown) n _
              (CalmAll-trans init s.proc t.proc (set t.proc c grown) h
                (CalmAll-set init t.proc c grown (Calm-refl init (at t.proc c))))
              refl refl
