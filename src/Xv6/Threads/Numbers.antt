-- ===== src/Xv6/Threads/Numbers.antt =====
-- The numbers of processes and of channels come from one counter; no two are the same unless another
-- process changes the counter while getChannel, which holds no lock, increments it.
pub mod Alloc
pub mod Calls
pub mod Steps
use operating_systems_labwor.Base.{
  ℕ, zero, suc, ◌+◌, ◌-◌, ◌<◌, ◌≤◌, ◌≡◌, ◌≢◌, ◌⊎◌, inl, inr, refl, sym, ap, subst, ◌∙◌, Bool, true,
  false, Bool-cases, Option, none, some, Option-cases, List, [], ◌∷◌, ◌==◌, if◌then◌else◌, set,
  length, length-set, get_or-set_self, arith, ℤ, pos, negsuc, not, ◌&&◌, ◌||◌, map,
}
use operating_systems_labwor.Xv6.Threads.Kernel.{Kernel}
use operating_systems_labwor.Xv6.Threads.Table.{
  ProcState, unused, embryo, sleeping, runnable, running, zombie, is_unused, is_zombie, Context,
  in_forkret, in_wait, in_yield, in_sleep, in_thread_join, in_waitpid, Proc, blank, at, points_to,
  first, wakeup1, wakeup1_one, names_process, kill_one, pass_children, scan,
}
use operating_systems_labwor.Xv6.Threads.Kept.{
  at-set, SameUse, SameUses, Kept, KeptAll, SameUse-Kept, Kept-trans, KeptAll-set, SameUses-set,
  SameUses-trans, SameUses-wakeup1, SameUses-wakeup1_one, SameUses-pass_children,
  KeptAll-clear_threads, not-names_process, Finds, first_lem,
}
use operating_systems_labwor.Xv6.Threads.Proc.{
  State, Out, returned, switched, panicked, put_proc, alloc_stack, allocproc, growproc, fork_child,
  fork_at, fork, thread_child, thread_at, thread_create, kill, get_channel, leave, thread_exit,
  exit, sleep, sleep_chan, wakeup, wakeup_one, sig_chan, sig_one_chan, yield_cpu,
}
use operating_systems_labwor.Xv6.Threads.Wait.{
  clear_threads, collect, collect_thread, collect_pid, end_wait, wait, end_join, thread_join,
  waitpid_at, waitpid,
}

module _ (k : Kernel) where
  -- The entries that are in use have different numbers, all of which have been given out.
  pub record IsNumbered (s : State k) : Type 0 where
    pub started : 0 < s.nextpid
    pub given :
        (i : ℕ)
        → is_unused (at s.proc i).state ≡ false
        → (0 < (at s.proc i).pid) × ((at s.proc i).pid < s.nextpid)
    pub apart :
        (i j : ℕ)
        → is_unused (at s.proc i).state ≡ false
        → is_unused (at s.proc j).state ≡ false
        → (at s.proc i).pid ≡ (at s.proc j).pid
        → i ≡ j

  -- A number that has been given out, and that no process has.
  pub record IsChannel (c : ℕ) (s : State k) : Type 0 where
    pub given : c < s.nextpid
    pub no_process : (i : ℕ) → is_unused (at s.proc i).state ≡ false → (at s.proc i).pid ≢ c

  -- Entries may become free, and entry `n` may get the next number.
  pub record Renumbers (n : ℕ) (s t : State k) : Type 0 where
    pub counts : s.nextpid ≤ t.nextpid
    pub each :
        (i : ℕ)
        → Kept (at s.proc i) (at t.proc i)
          ⊎ ((i ≡ n) × ((at t.proc i).pid ≡ s.nextpid) × (s.nextpid < t.nextpid))

  module _ (n : ℕ) (s t : State k) (r : Renumbers n s t) where
    used_before :
        (i : ℕ)
        → is_unused (at t.proc i).state ≡ false
        → ((is_unused (at s.proc i).state ≡ false) × ((at t.proc i).pid ≡ (at s.proc i).pid))
          ⊎ ((i ≡ n) × ((at t.proc i).pid ≡ s.nextpid) × (s.nextpid < t.nextpid))
    used_before i used = elim (r.each i) [
      | inl (inl free) ↦ cc (used, free)
      | inl (inr old) ↦ inl old
      | inr new ↦ inr new
    ]

    pub Renumbers-IsNumbered : IsNumbered s → IsNumbered t
    Renumbers-IsNumbered c = record {
      started = omega (arith, c.started, r.counts);
      given = λ i used. elim (used_before i used) [
        | inl (before, e) ↦ omega (arith, c.given i before, e, r.counts)
        | inr (_, e, l) ↦ omega (arith, e, l, c.started)
      ];
      apart = λ i j used used' same. elim (used_before i used) [
        | inl (before, e) ↦ elim (used_before j used') [
          | inl (before', e') ↦ c.apart i j before before' (sym e ∙ same ∙ e')
          | inr (_, e', _) ↦ absurd (omega (arith, c.given i before, e, e', same))
        ]
        | inr (at_n, e, _) ↦ elim (used_before j used') [
          | inl (before', e') ↦ absurd (omega (arith, c.given j before', e, e', same))
          | inr (at_n', _, _) ↦ at_n ∙ sym at_n'
        ]
      ];
    }

    pub Renumbers-IsChannel : (c : ℕ) → IsChannel c s → IsChannel c t
    Renumbers-IsChannel c h = record {
      given = omega (arith, h.given, r.counts);
      no_process = λ i used e. elim (used_before i used) [
        | inl (before, old) ↦ h.no_process i before (sym old ∙ e)
        | inr (_, new, _) ↦ omega (arith, h.given, new, e)
      ];
    }

  -- A change of the table alone, after the counter has moved.
  pub kept_after :
      (n : ℕ) (s t : State k) (table : List Proc) (w : k.World) (init : Option ℕ)
      → Renumbers n s t
      → KeptAll t.proc table
      → Renumbers n s (record { proc = table; nextpid = t.nextpid; initproc = init; world = w })
  kept_after n s t table w init r kept = record {
    counts = r.counts;
    each = λ i. elim (kept i) [
      | inl free ↦ inl (inl free)
      | inr (used, e) ↦ elim (r.each i) [
        | inl (inl free) ↦ cc (used, free)
        | inl (inr (before, e')) ↦ inl (inr (before, e ∙ e'))
        | inr (at_n, e', l) ↦ inr (at_n, e ∙ e', l)
      ]
    ];
  }

  pub Renumbers-refl : (s : State k) → Renumbers 0 s s
  Renumbers-refl s = record {
    counts = omega arith;
    each = λ i. inl (SameUse-Kept (at s.proc i) (at s.proc i) (refl, refl));
  }

  -- The state in which a call leaves the table.
  abbrev pub Leaves : (State k → Type 0) → Out k → Type 0
  Leaves P (returned _ t) = P t
  Leaves P (switched t) = P t
  Leaves P panicked = Unit {0}

  abbrev pub Renumbered : State k → Out k → Type 0
  Renumbered s o = Leaves (λ t. (n : ℕ) × Renumbers n s t) o

  -- A call that leaves the counter alone.
  pub kept_call :
      (s : State k) (table : List Proc) (w : k.World)
      → KeptAll s.proc table
      → (n : ℕ) × Renumbers n s (record s { proc = table; world = w })
  kept_call s table w kept = (0, kept_after 0 s s table w s.initproc (Renumbers-refl s) kept)
