-- ===== src/Xv6/Threads/Numbers/Calls.antt =====
-- Every call, and every switch to a process, keeps the numbers apart.
use operating_systems_labwor.Base.{
  ℕ, zero, suc, ◌≡◌, inl, inr, refl, ap, Bool, true, false, Bool-cases, Option, none, some, ◌==◌,
  set, arith, ℤ, pos, negsuc, not, ◌&&◌, ◌||◌,
}
use operating_systems_labwor.Xv6.Threads.Kernel.{Kernel}
use operating_systems_labwor.Xv6.Threads.Table.{
  is_unused, is_zombie, Context, in_wait, in_thread_join, in_waitpid, Proc, at, points_to, kill_one,
  scan,
}
use operating_systems_labwor.Xv6.Threads.Kept.{
  at-set_self, Kept, SameUse-Kept, Kept-trans, KeptAll-set, KeptAll-clear_threads, first_lem,
}
use operating_systems_labwor.Xv6.Threads.Proc.{
  State, put_proc, resize, growproc, kill, get_channel, sleep,
}
use operating_systems_labwor.Xv6.Threads.Wait.{
  is_child, is_thread, collected, forgotten, clear_threads, collect, collect_thread, collect_pid,
  end_wait, wait, end_join, thread_join, waitpid_at, waitpid,
}
use operating_systems_labwor.Xv6.Threads.Numbers.{Renumbers, kept_call, Renumbers-refl, Renumbered}

module _ (k : Kernel) where
  -- A write to one entry that keeps its number and its use.
  pub write_entry :
      (i : ℕ) (p : Proc) (s : State k) (w : k.World)
      → Kept (at s.proc i) p
      → (n : ℕ) × Renumbers k n s (record s { proc = set s.proc i p; world = w })
  write_entry i p s w kept = kept_call k s (set s.proc i p) w (KeptAll-set s.proc i p kept)

  pub same_entry : (p q : Proc) → q.pid ≡ p.pid → is_unused q.state ≡ is_unused p.state → Kept p q
  same_entry p q e h = SameUse-Kept p q (e, h)

  resize_lem : (c : ℕ) (r : ℕ × k.World) (s : State k) → Renumbered k s (resize k c r s)
  unfolding resize put_proc
  resize_lem c (zero, w) s =
      kept_call k s s.proc w (λ i. same_entry (at s.proc i) (at s.proc i) refl refl)
  resize_lem c (suc m, w) s =
      let p = record (at s.proc c) { sz = suc m } in
      write_entry c p s w (same_entry (at s.proc c) p refl refl)

  pub growproc_lem : (c : ℕ) (n : ℤ) (s : State k) → Renumbered k s (growproc k c n s)
  unfolding growproc
  growproc_lem c (pos zero) s = (0, Renumbers-refl k s)
  growproc_lem c (pos (suc m)) s = resize_lem c _ s
  growproc_lem c (negsuc m) s = resize_lem c _ s

  pub kill_lem : (pid : ℕ) (s : State k) → Renumbered k s (kill k pid s)
  unfolding kill put_proc kill_one
  kill_lem pid s = elim (first_lem (λ p. p.pid == pid) s.proc) [
    | inl (e, _) ↦ rw (kill, e) (0, Renumbers-refl k s)
    | inr (i, e, _, _, _) ↦
        rw (kill, e)
          (write_entry i (kill_one (at s.proc i)) s s.world
            (same_entry (at s.proc i) (kill_one (at s.proc i)) refl (ground arith)))
  ]

  pub get_channel_lem : (tmp : ℕ) (s : State k) → Renumbered k s (get_channel k tmp s.nextpid s)
  unfolding get_channel
  get_channel_lem tmp s = (
    0,
    record {
      counts = omega arith;
      each = λ i. inl (same_entry (at s.proc i) (at s.proc i) refl refl);
    },
  )

  -- The main thread is free after the loop over its threads.
  pub free_again :
      (j : ℕ) (s : State k)
      → is_unused (at (clear_threads j 0 (set s.proc j (collected (at s.proc j)))) j).state ≡ true
  free_again j s =
      let t = set s.proc j (collected (at s.proc j)) in
      elim (KeptAll-clear_threads j 0 t j) [
        | inl free ↦ free
        | inr (used, _) ↦ elim (at-set_self s.proc j (collected (at s.proc j))) [
          | inl e ↦ cc (used, ap (λ (p : Proc). is_unused p.state) e)
          | inr e ↦ cc (used, ap (λ (p : Proc). is_unused p.state) e)
        ]
      ]

  collect_lem : (j : ℕ) (s : State k) → (n : ℕ) × Renumbers k n s (collect k j s)
  unfolding collect
  collect_lem j s =
      let t = set s.proc j (collected (at s.proc j)) in
      let u = clear_threads j 0 t in
      kept_call k s (set u j (forgotten (at u j))) _ (λ i.
        Kept-trans (at s.proc i) (at u i) (at (set u j (forgotten (at u j))) i)
          (Kept-trans (at s.proc i) (at t i) (at u i)
            (KeptAll-set s.proc j (collected (at s.proc j)) (inl refl) i)
            (KeptAll-clear_threads j 0 t i))
          (KeptAll-set u j (forgotten (at u j)) (inl (free_again j s)) i))

  collect_thread_lem : (j : ℕ) (s : State k) → (n : ℕ) × Renumbers k n s (collect_thread k j s)
  unfolding collect_thread put_proc
  collect_thread_lem j s = write_entry j _ s _ (inl refl)

  collect_pid_lem : (j : ℕ) (s : State k) → (n : ℕ) × Renumbers k n s (collect_pid k j s)
  unfolding collect_pid put_proc
  collect_pid_lem j s = write_entry j _ s _ (inl refl)

  module _ (address : ℕ → ℕ) where
    pub sleep_lem :
        (c chan : ℕ) (context : Context) (s : State k)
        → is_unused (at s.proc c).state ≡ false
        → Renumbered k s (sleep k address c chan context s)
    unfolding sleep put_proc
    sleep_lem c chan context s used = write_entry c _ s s.world (inr (used, refl))

    pub wait_lem :
        (c : ℕ) (s : State k)
        → is_unused (at s.proc c).state ≡ false
        → Renumbered k s (wait k address c s)
    unfolding wait end_wait
    wait_lem c s used = at_end (scan (is_child c) 0 s.proc false)
      where
        at_end : (r : Option ℕ × Bool) → Renumbered k s (end_wait k address c r s)
        at_end (some j, have) = collect_lem j s
        at_end (none, have) = elim (Bool-cases (not have || (at s.proc c).killed)) [
          | inl stop ↦ rw (end_wait, stop) (0, Renumbers-refl k s)
          | inr stay ↦ rw (end_wait, stay) (sleep_lem c (address c) in_wait s used)
        ]

    pub thread_join_lem :
        (c thread : ℕ) (s : State k)
        → is_unused (at s.proc c).state ≡ false
        → Renumbered k s (thread_join k address c thread s)
    unfolding thread_join end_join
    thread_join_lem c thread s used = at_end (scan (is_thread c thread) 0 s.proc false)
      where
        at_end : (r : Option ℕ × Bool) → Renumbered k s (end_join k address c thread r s)
        at_end (some j, have) = collect_thread_lem j s
        at_end (none, have) = elim (Bool-cases (not have || (at s.proc c).killed)) [
          | inl stop ↦ rw (end_join, stop) (0, Renumbers-refl k s)
          | inr stay ↦ rw (end_join, stay) (sleep_lem c (address c) (in_thread_join thread) s used)
        ]

    pub waitpid_at_lem :
        (c j : ℕ) (s : State k)
        → is_unused (at s.proc c).state ≡ false
        → Renumbered k s (waitpid_at k address c j s)
    unfolding waitpid_at
    waitpid_at_lem c j s used = elim (Bool-cases (is_zombie (at s.proc j).state)) [
      | inl dead ↦ rw dead (collect_pid_lem j s)
      | inr alive ↦ rw alive (sleep_lem c (address c) (in_waitpid j) s used)
    ]

    pub waitpid_lem :
        (c pid : ℕ) (s : State k)
        → is_unused (at s.proc c).state ≡ false
        → Renumbered k s (waitpid k address c pid s)
    unfolding waitpid
    waitpid_lem c pid s used = elim (first_lem (λ p. points_to p.parent c && p.pid == pid) s.proc) [
      | inl (e, _) ↦ rw (waitpid, e) (0, Renumbers-refl k s)
      | inr (j, e, _, _, _) ↦ rw (waitpid, e) (waitpid_at_lem c j s used)
    ]
