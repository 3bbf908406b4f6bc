-- ===== src/Xv6/Threads/System.antt =====
-- The processes as they run: any running process makes a call, and the scheduler picks any that is
-- runnable, which goes on where it has stopped.
use operating_systems_labwor.Base.{ℕ, ◌≡◌, Option, none, some, List, [], ◌∷◌, ℤ, pos, replicate}
use operating_systems_labwor.Xv6.Threads.Kernel.{Kernel}
use operating_systems_labwor.Xv6.Threads.Table.{
  runnable, running, Context, in_forkret, in_wait, in_yield, in_sleep, in_thread_join, in_waitpid,
  Proc, blank, at,
}
use operating_systems_labwor.Xv6.Threads.Proc.{
  page_size, State, Out, returned, switched, panicked, put_proc, growproc, fork, thread_create,
  kill, get_channel, thread_exit, exit, sleep, sleep_chan, wakeup, wakeup_one, sig_chan,
  sig_one_chan, yield_cpu, allocproc,
}
use operating_systems_labwor.Xv6.Threads.Wait.{wait, thread_join, waitpid, waitpid_at}

-- `sleeps` and `wakes` are the calls of other parts of the kernel, each with its channel.
pub data Call : Type 0 where
  forks exits waits yields exits_thread : Call
  grows : ℤ → Call
  kills waits_pid sleeps_chan signals signals_one joins sleeps wakes wakes_one : ℕ → Call
  creates : ℕ → ℕ → ℕ → Call
  -- With the two values of `nextpid` that getChannel has read, at any time before.
  gets_channel : ℕ → ℕ → Call

abbrev pub nproc : ℕ
nproc = 64

module _ (k : Kernel) (address : ℕ → ℕ) where
  unfoldable pub do_call : ℕ → Call → State k → Out k
  do_call c forks s = fork k c s
  do_call c exits s = exit k address c s
  do_call c waits s = wait k address c s
  do_call c yields s = yield_cpu k address c s
  do_call c (gets_channel tmp loaded) s = get_channel k tmp loaded s
  do_call c exits_thread s = thread_exit k address c s
  do_call c (grows n) s = growproc k c n s
  do_call c (kills pid) s = kill k pid s
  do_call c (waits_pid pid) s = waitpid k address c pid s
  do_call c (sleeps_chan channel) s = sleep_chan k address c channel s
  do_call c (signals channel) s = sig_chan k address channel s
  do_call c (signals_one channel) s = sig_one_chan k address channel s
  do_call c (joins thread) s = thread_join k address c thread s
  do_call c (sleeps chan) s = sleep k address c chan in_sleep s
  do_call c (wakes chan) s = wakeup k address chan s
  do_call c (wakes_one chan) s = wakeup_one k address chan s
  do_call c (creates thread start_routine arg) s = thread_create k c thread start_routine arg s

  -- What follows the switch to `c`: a process that slept clears its channel.
  unfoldable pub go_on : ℕ → Context → State k → Out k
  go_on c in_forkret s = returned (pos 0) s
  go_on c in_yield s = returned (pos 0) s
  go_on c in_sleep s = returned (pos 1) (put_proc k c (record (at s.proc c) { chan = 0 }) s)
  go_on c in_wait s = wait k address c (put_proc k c (record (at s.proc c) { chan = 0 }) s)
  go_on c (in_thread_join thread) s =
      thread_join k address c thread (put_proc k c (record (at s.proc c) { chan = 0 }) s)
  go_on c (in_waitpid j) s =
      waitpid_at k address c j (put_proc k c (record (at s.proc c) { chan = 0 }) s)

  -- The scheduler picks `c`.
  unfoldable pub schedule : ℕ → State k → Out k
  schedule c s =
      go_on c (at s.proc c).context (put_proc k c (record (at s.proc c) { state = running }) s)

  -- The state after a call; a panic stops the machine.
  abbrev pub Leads : Out k → State k → Type 0
  Leads (returned _ t) u = t ≡ u
  Leads (switched t) u = t ≡ u
  Leads panicked u = ⊥

  pub data Step (s t : State k) : Type 0 where
    calls :
        (c : ℕ) (call : Call)
        → (at s.proc c).state ≡ running
        → Leads (do_call c call s) t
        → Step s t
    picks : (c : ℕ) → (at s.proc c).state ≡ runnable → Leads (schedule c s) t → Step s t

  -- userinit: the first process, when `setupkvm` has returned `pgdir` and `namei` has returned `cwd`;
  -- `segments` stands for the registers that are the same for every user process.
  unfoldable pub userinit : ℕ → ℕ → ℕ → Option ℕ × State k → State k
  userinit pgdir cwd segments (none, t) = t
  userinit pgdir cwd segments (some i, t) =
      put_proc k i
        (record (at t.proc i) {
          pgdir = pgdir;
          sz = page_size;
          tf = record { eax = 0; eip = 0; esp = page_size; others = segments };
          name = b'i' ∷ b'n' ∷ b'i' ∷ b't' ∷ b'c' ∷ b'o' ∷ b'd' ∷ b'e' ∷ [];
          cwd = cwd;
          state = runnable;
        })
        (record t { initproc = some i })

  -- The empty table, with the files of each entry closed.
  abbrev pub empty_table : List Proc
  empty_table = replicate nproc (record blank { ofile = replicate 16 0 })

  abbrev pub no_process : k.World → State k
  no_process w = record { proc = empty_table; nextpid = 1; initproc = none; world = w }

  unfoldable pub start_state : ℕ → ℕ → ℕ → k.World → State k
  start_state pgdir cwd segments w = userinit pgdir cwd segments (allocproc k (no_process w))

  -- The states that come after `s`.
  pub data Steps (s : State k) : State k → Type 0 where
    here : Steps s s
    then_step : {t u : State k} → Steps s t → Step t u → Steps s u

  -- getChannel reads `nextpid` as it is when it stores the increment: no other process has changed it
  -- in between.
  abbrev pub IsAlone : Call → State k → Type 0
  IsAlone (gets_channel tmp loaded) s = (tmp ≡ s.nextpid) × (loaded ≡ s.nextpid)
  IsAlone other s = Unit

  abbrev pub IsAloneStep : {s t : State k} → Step s t → Type 0
  IsAloneStep {s = s} (calls c call run l) = IsAlone call s
  IsAloneStep (picks c ready l) = Unit

  -- Every getChannel of the run reads `nextpid` as it is at its store.
  abbrev pub Undisturbed : {s t : State k} → Steps s t → Type 0
  Undisturbed here = Unit
  Undisturbed (then_step r step) = Undisturbed r × IsAloneStep step
