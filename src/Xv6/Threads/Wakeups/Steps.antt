-- ===== src/Xv6/Threads/Wakeups/Steps.antt =====
-- In every state that is reached no wakeup has been missed.
use operating_systems_labwor.Base.{
  replicate, ℕ, zero, suc, ◌≡◌, inl, inr, refl, sym, ap, subst, ◌∙◌, false, Bool-cases, Option,
  none, some, List, ◌==◌, if◌then◌else◌, set, ℤ, pos, negsuc,
}
use operating_systems_labwor.Xv6.Threads.Kernel.{Kernel}
use operating_systems_labwor.Xv6.Threads.Table.{
  is_sleeping, runnable, running, Context, in_forkret, in_wait, in_yield, in_sleep, in_thread_join,
  in_waitpid, Proc, blank, at, points_to, wakeup1, wakeup1_one, names_process, kill_one,
}
use operating_systems_labwor.Xv6.Threads.Kept.{at-set_self, first_lem}
use operating_systems_labwor.Xv6.Threads.Proc.{
  State, Out, returned, switched, panicked, put_proc, allocproc, resize, growproc, fork,
  thread_create, kill, get_channel, thread_exit, exit, sleep_chan, wakeup, wakeup_one, sig_chan,
  sig_one_chan, yield_cpu,
}
use operating_systems_labwor.Xv6.Threads.System.{
  Call, forks, exits, waits, yields, gets_channel, exits_thread, grows, kills, waits_pid,
  sleeps_chan, signals, signals_one, joins, sleeps, wakes, wakes_one, creates, do_call, go_on,
  schedule, Leads, Step, calls, picks, Steps, here, then_step, start_state, userinit, no_process,
}
use operating_systems_labwor.Xv6.Threads.Wakeups.{
  NoneMissed, Calm, CalmAll, Calm-refl, CalmAll-set, CalmAll-wakeup1, CalmAll-wakeup1_one,
  CalmAll-NoneMissed,
}
use operating_systems_labwor.Xv6.Threads.Wakeups.Calls.{
  LeavesTable, IsCalm, all_same, awake, write_calm, fork-IsCalm, thread_create-IsCalm,
  allocproc_calm,
}
use operating_systems_labwor.Xv6.Threads.Wakeups.Collect.{
  KeepsNoneMissed, calm_keeps, sleep_keeps, wait_keeps, thread_join_keeps, waitpid_at_keeps,
  waitpid_keeps,
}
use operating_systems_labwor.Xv6.Threads.Wakeups.Leave.{leave_keeps}
use operating_systems_labwor.Xv6.Threads.Wakeups.Init.{SameInit, do_call_init, go_on_init}

module _ (k : Kernel) (address : ℕ → ℕ) where
  exit_thread_keeps :
      (c : ℕ) (s : State k) → KeepsNoneMissed k s.initproc address s (thread_exit k address c s)
  unfolding thread_exit
  exit_thread_keeps c s = elim (Bool-cases (points_to (at s.proc c).mainthread c)) [
    | inl main ↦ rw main (λ h. h)
    | inr other ↦ elim (Bool-cases (points_to s.initproc c)) [
      | inl init ↦ rw (other, init) (λ h. tt)
      | inr plain ↦
          rw (other, plain)
            (leave_keeps k address c (at s.proc c).mainthread s plain (inr (other, refl)))
    ]
  ]

  exit_keeps : (c : ℕ) (s : State k) → KeepsNoneMissed k s.initproc address s (exit k address c s)
  unfolding exit
  exit_keeps c s = elim (Bool-cases (points_to (at s.proc c).mainthread c)) [
    | inr other ↦ rw other (exit_thread_keeps c s)
    | inl main ↦ elim (Bool-cases (points_to s.initproc c)) [
      | inl init ↦ rw (main, init) (λ h. tt)
      | inr plain ↦
          rw (main, plain) (leave_keeps k address c (at s.proc c).parent s plain (inl (main, refl)))
    ]
  ]

  module _ (init : Option ℕ) where
    table_keeps : (s : State k) (o : Out k) → IsCalm k init s o → KeepsNoneMissed k init address s o
    table_keeps s o calm = calm_keeps k init address s o calm

    kill_one-Calm : (p : Proc) → Calm init p (kill_one p)
    unfolding kill_one
    kill_one-Calm p = elim (Bool-cases (is_sleeping p.state)) [
      | inl asleep ↦ rw asleep (λ s w. cc s, λ z. cc z)
      | inr other ↦ rw other (λ s w. cc s, λ z. (z, refl, refl, inl refl))
    ]

    kill_keeps : (pid : ℕ) (s : State k) → KeepsNoneMissed k init address s (kill k pid s)
    unfolding kill put_proc
    kill_keeps pid s = table_keeps s (kill k pid s) (elim (first_lem (λ p. p.pid == pid) s.proc) [
      | inl (e, _) ↦ rw (kill, e) (all_same k init s.proc)
      | inr (i, e, _, _, _) ↦
          rw (kill, e)
            (CalmAll-set init s.proc i (kill_one (at s.proc i)) (kill_one-Calm (at s.proc i)))
    ])

    resize_keeps :
        (c : ℕ) (r : ℕ × k.World) (s : State k) → KeepsNoneMissed k init address s (resize k c r s)
    unfolding resize put_proc
    resize_keeps c (zero, w) s = λ h. h
    resize_keeps c (suc m, w) s =
        let p = record (at s.proc c) { sz = suc m } in
        CalmAll-NoneMissed init address s.proc (set s.proc c p)
          (CalmAll-set init s.proc c p (Calm-refl init (at s.proc c)))

    growproc_keeps :
        (c : ℕ) (n : ℤ) (s : State k) → KeepsNoneMissed k init address s (growproc k c n s)
    unfolding growproc
    growproc_keeps c (pos zero) s = λ h. h
    growproc_keeps c (pos (suc m)) s = resize_keeps c _ s
    growproc_keeps c (negsuc m) s = resize_keeps c _ s

    channel_keeps :
        (channel : ℕ) (s : State k) (o : Out k)
        → KeepsNoneMissed k init address s o
        → KeepsNoneMissed k init address s (if names_process channel s.proc then panicked else o)
    channel_keeps channel s o h = elim (Bool-cases (names_process channel s.proc)) [
      | inl bad ↦ rw bad (λ _. tt)
      | inr good ↦ rw good h
    ]

  do_call_keeps :
      (c : ℕ) (call : Call) (s : State k)
      → KeepsNoneMissed k s.initproc address s (do_call k address c call s)
  unfolding do_call get_channel sleep_chan sig_chan sig_one_chan wakeup wakeup_one yield_cpu
      put_proc
  do_call_keeps c forks s = table_keeps s.initproc s (fork k c s) (fork-IsCalm k s.initproc c s)
  do_call_keeps c exits s = exit_keeps c s
  do_call_keeps c waits s = wait_keeps k s.initproc address c s
  do_call_keeps c yields s =
      let p = record (at s.proc c) { state = runnable; context = in_yield } in
      CalmAll-NoneMissed s.initproc address s.proc (set s.proc c p)
        (CalmAll-set s.initproc s.proc c p (awake k s.initproc (at s.proc c) p refl refl))
  do_call_keeps c (gets_channel tmp loaded) s = λ h. h
  do_call_keeps c exits_thread s = exit_thread_keeps c s
  do_call_keeps c (grows n) s = growproc_keeps s.initproc c n s
  do_call_keeps c (kills pid) s = kill_keeps s.initproc pid s
  do_call_keeps c (waits_pid pid) s = waitpid_keeps k s.initproc address c pid s
  do_call_keeps c (sleeps_chan channel) s =
      channel_keeps s.initproc channel s _
        (sleep_keeps k s.initproc address c channel in_sleep s (λ e. cc e))
  do_call_keeps c (signals channel) s = channel_keeps s.initproc channel s _ (
      CalmAll-NoneMissed s.initproc address s.proc (wakeup1 channel s.proc)
        (CalmAll-wakeup1 s.initproc channel s.proc))
  do_call_keeps c (signals_one channel) s = channel_keeps s.initproc channel s _ (
      CalmAll-NoneMissed s.initproc address s.proc (wakeup1_one channel s.proc)
        (CalmAll-wakeup1_one s.initproc channel s.proc))
  do_call_keeps c (joins thread) s = thread_join_keeps k s.initproc address c thread s
  do_call_keeps c (sleeps chan) s = sleep_keeps k s.initproc address c chan in_sleep s (λ e. cc e)
  do_call_keeps c (wakes chan) s =
      CalmAll-NoneMissed s.initproc address s.proc (wakeup1 chan s.proc)
        (CalmAll-wakeup1 s.initproc chan s.proc)
  do_call_keeps c (wakes_one chan) s =
      CalmAll-NoneMissed s.initproc address s.proc (wakeup1_one chan s.proc)
        (CalmAll-wakeup1_one s.initproc chan s.proc)
  do_call_keeps c (creates thread start_routine arg) s =
      table_keeps s.initproc s (thread_create k c thread start_routine arg s)
        (thread_create-IsCalm k s.initproc c thread start_routine arg s)

  -- The process that goes on is awake.
  clear_calm :
      (c : ℕ) (s : State k)
      → is_sleeping (at s.proc c).state ≡ false
      → NoneMissed address s.initproc s.proc
      → NoneMissed address s.initproc (put_proc k c (record (at s.proc c) { chan = 0 }) s).proc
  unfolding put_proc
  clear_calm c s up =
      let p = record (at s.proc c) { chan = 0 } in
      CalmAll-NoneMissed s.initproc address s.proc (set s.proc c p) (
        CalmAll-set s.initproc s.proc c p
          (λ asleep w. cc (asleep, up), λ z. (z, refl, refl, inl refl)))

  go_on_keeps :
      (c : ℕ) (context : Context) (s : State k)
      → is_sleeping (at s.proc c).state ≡ false
      → KeepsNoneMissed k s.initproc address s (go_on k address c context s)
  unfolding go_on put_proc
  go_on_keeps c in_forkret s up h = h
  go_on_keeps c in_yield s up h = h
  go_on_keeps c in_sleep s up h = clear_calm c s up h
  go_on_keeps c in_wait s up h =
      wait_keeps k s.initproc address c (put_proc k c (record (at s.proc c) { chan = 0 }) s)
        (clear_calm c s up h)
  go_on_keeps c (in_thread_join thread) s up h =
      thread_join_keeps k s.initproc address c thread
        (put_proc k c (record (at s.proc c) { chan = 0 }) s) (clear_calm c s up h)
  go_on_keeps c (in_waitpid j) s up h =
      waitpid_at_keeps k s.initproc address c j (put_proc k c (record (at s.proc c) { chan = 0 }) s)
        (clear_calm c s up h)

  -- In state `s` no process but init has missed a wakeup.
  abbrev pub HasNoneMissed : State k → Type 0
  HasNoneMissed s = NoneMissed address s.initproc s.proc

  led :
      (init : Option ℕ) (o : Out k) (t : State k)
      → Leads k address o t
      → LeavesTable k (NoneMissed address init) o
      → ((u : State k) → Leads k address o u → u.initproc ≡ init)
      → HasNoneMissed t
  led init (returned _ u) t l h same =
      subst HasNoneMissed l
        (subst (λ (r : Option ℕ). NoneMissed address r u.proc) (sym (same u refl)) h)
  led init (switched u) t l h same =
      subst HasNoneMissed l
        (subst (λ (r : Option ℕ). NoneMissed address r u.proc) (sym (same u refl)) h)
  led init panicked t l h same = absurd l

  same_init :
      (s : State k) (o : Out k)
      → SameInit k address s o
      → (u : State k) → Leads k address o u
      → u.initproc ≡ s.initproc
  same_init s (returned _ t) e u l = ap (λ (v : State k). v.initproc) (sym l) ∙ e
  same_init s (switched t) e u l = ap (λ (v : State k). v.initproc) (sym l) ∙ e
  same_init s panicked e u l = absurd l

  -- Every call and every switch keeps it so that no process but init sleeps in wait or thread_join
  -- while a zombie is there that it waits for.
  pub Step-NoneMissed : (s t : State k) → Step k address s t → HasNoneMissed s → HasNoneMissed t
  unfolding schedule put_proc
  Step-NoneMissed s t (calls c call run l) h =
      let o = do_call k address c call s in
      led s.initproc o t l (do_call_keeps c call s h)
        (same_init s o (do_call_init k address c call s))
  Step-NoneMissed s t (picks c ready l) h =
      let p = record (at s.proc c) { state = running } in
      let u = put_proc k c p s in
      let o = go_on k address c (at s.proc c).context u in
      led s.initproc o t l
        (go_on_keeps c (at s.proc c).context u
          (elim (at-set_self s.proc c p) [
            | inl e ↦ ap (λ (q : Proc). is_sleeping q.state) e
            | inr e ↦ ap (λ (q : Proc). is_sleeping q.state) e
          ])
          (CalmAll-NoneMissed s.initproc address s.proc (set s.proc c p)
            (CalmAll-set s.initproc s.proc c p (awake k s.initproc (at s.proc c) p refl refl)) h))
        (same_init u o (go_on_init k address c (at s.proc c).context u))

  none_sleep :
      (n i : ℕ)
      → is_sleeping (at (replicate n (record blank { ofile = replicate 16 0 })) i).state ≡ false
  none_sleep zero i = refl
  none_sleep (suc n) zero = refl
  none_sleep (suc n) (suc i) = none_sleep n i

  start-NoneMissed :
      (pgdir cwd segments : ℕ) (w : k.World)
      → HasNoneMissed (start_state k address pgdir cwd segments w)
  unfolding start_state userinit put_proc
  start-NoneMissed pgdir cwd segments w = at_entry (allocproc k s) (λ init. allocproc_calm k init s)
    where
      s : State k
      s = no_process k address w

      from : (init : Option ℕ) (t : List Proc) → CalmAll init s.proc t → NoneMissed address init t
      from init t calm =
          CalmAll-NoneMissed init address s.proc t calm
            (λ i other asleep watching. cc (asleep, none_sleep 64 i))

      at_entry :
          (r : Option ℕ × State k)
          → ((init : Option ℕ) → CalmAll init s.proc r.1.proc)
          → HasNoneMissed (userinit k address pgdir cwd segments r)
      at_entry (none, t) calm = from t.initproc t.proc (calm t.initproc)
      at_entry (some i, t) calm =
          from (some i) (userinit k address pgdir cwd segments (some i, t)).proc
            (write_calm k (some i) s t.proc i _ (calm (some i)) refl refl)

  module _ (pgdir cwd segments : ℕ) (w : k.World) where
    -- In every state that comes after userinit, no process but init sleeps in wait while a child of
    -- it that is a main thread is a zombie, or in thread_join while the thread is a zombie: no wakeup
    -- is lost.
    pub Steps-NoneMissed :
        (t : State k)
        → Steps k address (start_state k address pgdir cwd segments w) t
        → HasNoneMissed t
    Steps-NoneMissed t here = start-NoneMissed pgdir cwd segments w
    Steps-NoneMissed t (then_step {t = u} r step) = Step-NoneMissed u t step (Steps-NoneMissed u r)
