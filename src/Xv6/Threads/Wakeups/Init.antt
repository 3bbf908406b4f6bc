-- ===== src/Xv6/Threads/Wakeups/Init.antt =====
-- No call changes which process is init.
use operating_systems_labwor.Base.{ℕ, ◌≡◌, inl, inr, refl, ◌==◌, arith, ℤ, ◌&&◌}
use operating_systems_labwor.Xv6.Threads.Kernel.{Kernel}
use operating_systems_labwor.Xv6.Threads.Table.{
  Context, in_forkret, in_wait, in_yield, in_sleep, in_thread_join, in_waitpid, at, points_to,
}
use operating_systems_labwor.Xv6.Threads.Kept.{first_lem}
use operating_systems_labwor.Xv6.Threads.Proc.{
  State, Out, returned, switched, panicked, put_proc, alloc_stack, allocproc, resize, growproc,
  fork_child, fork_at, fork, thread_child, thread_at, thread_create, kill, get_channel, leave,
  thread_exit, exit, sleep, sleep_chan, wakeup, wakeup_one, sig_chan, sig_one_chan, yield_cpu,
}
use operating_systems_labwor.Xv6.Threads.Wait.{
  collect, collect_thread, collect_pid, end_wait, wait, end_join, thread_join, waitpid_at, waitpid,
}
use operating_systems_labwor.Xv6.Threads.System.{
  Call, forks, exits, waits, yields, gets_channel, exits_thread, grows, kills, waits_pid,
  sleeps_chan, signals, signals_one, joins, sleeps, wakes, wakes_one, creates, do_call, go_on,
}

module _ (k : Kernel) (address : ℕ → ℕ) where
  abbrev pub SameInit : State k → Out k → Type 0
  SameInit s (returned _ t) = t.initproc ≡ s.initproc
  SameInit s (switched t) = t.initproc ≡ s.initproc
  SameInit s panicked = Unit {0}

  allocproc_init : (s : State k) → (allocproc k s).1.initproc ≡ s.initproc
  unfolding allocproc alloc_stack put_proc
  allocproc_init s = ground arith

  fork_init : (c : ℕ) (s : State k) → SameInit s (fork k c s)
  unfolding fork fork_at fork_child put_proc
  fork_init c s = ground (arith, allocproc_init s)

  thread_create_init :
      (c thread start_routine arg : ℕ) (s : State k)
      → SameInit s (thread_create k c thread start_routine arg s)
  unfolding thread_create thread_at thread_child put_proc
  thread_create_init c thread start_routine arg s = ground (arith, allocproc_init s)

  kill_init : (pid : ℕ) (s : State k) → SameInit s (kill k pid s)
  unfolding kill put_proc
  kill_init pid s = ground arith

  growproc_init : (c : ℕ) (n : ℤ) (s : State k) → SameInit s (growproc k c n s)
  unfolding growproc resize put_proc
  growproc_init c n s = ground arith

  thread_exit_init : (c : ℕ) (s : State k) → SameInit s (thread_exit k address c s)
  unfolding thread_exit leave put_proc
  thread_exit_init c s = ground arith

  exit_init : (c : ℕ) (s : State k) → SameInit s (exit k address c s)
  unfolding exit leave put_proc
  exit_init c s = ground (arith, thread_exit_init c s)

  wait_init : (c : ℕ) (s : State k) → SameInit s (wait k address c s)
  unfolding wait end_wait collect sleep put_proc
  wait_init c s = ground arith

  thread_join_init : (c thread : ℕ) (s : State k) → SameInit s (thread_join k address c thread s)
  unfolding thread_join end_join collect_thread sleep put_proc
  thread_join_init c thread s = ground arith

  waitpid_at_init : (c j : ℕ) (s : State k) → SameInit s (waitpid_at k address c j s)
  unfolding waitpid_at collect_pid sleep put_proc
  waitpid_at_init c j s = ground arith

  waitpid_init : (c pid : ℕ) (s : State k) → SameInit s (waitpid k address c pid s)
  unfolding waitpid
  waitpid_init c pid s = elim (first_lem (λ p. points_to p.parent c && p.pid == pid) s.proc) [
    | inl (e, _) ↦ rw (waitpid, e) refl
    | inr (j, e, _, _, _) ↦ rw (waitpid, e) (waitpid_at_init c j s)
  ]

  pub do_call_init : (c : ℕ) (call : Call) (s : State k) → SameInit s (do_call k address c call s)
  unfolding do_call get_channel sleep_chan sig_chan sig_one_chan wakeup wakeup_one yield_cpu sleep
      put_proc
  do_call_init c forks s = fork_init c s
  do_call_init c exits s = exit_init c s
  do_call_init c waits s = wait_init c s
  do_call_init c yields s = refl
  do_call_init c (gets_channel tmp loaded) s = refl
  do_call_init c exits_thread s = thread_exit_init c s
  do_call_init c (grows n) s = growproc_init c n s
  do_call_init c (kills pid) s = kill_init pid s
  do_call_init c (waits_pid pid) s = waitpid_init c pid s
  do_call_init c (sleeps_chan channel) s = ground arith
  do_call_init c (signals channel) s = ground arith
  do_call_init c (signals_one channel) s = ground arith
  do_call_init c (joins thread) s = thread_join_init c thread s
  do_call_init c (sleeps chan) s = refl
  do_call_init c (wakes chan) s = refl
  do_call_init c (wakes_one chan) s = refl
  do_call_init c (creates thread start_routine arg) s =
      thread_create_init c thread start_routine arg s

  pub go_on_init :
      (c : ℕ) (context : Context) (s : State k) → SameInit s (go_on k address c context s)
  unfolding go_on put_proc
  go_on_init c in_forkret s = refl
  go_on_init c in_yield s = refl
  go_on_init c in_sleep s = refl
  go_on_init c in_wait s = wait_init c (put_proc k c (record (at s.proc c) { chan = 0 }) s)
  go_on_init c (in_thread_join thread) s =
      thread_join_init c thread (put_proc k c (record (at s.proc c) { chan = 0 }) s)
  go_on_init c (in_waitpid j) s =
      waitpid_at_init c j (put_proc k c (record (at s.proc c) { chan = 0 }) s)
