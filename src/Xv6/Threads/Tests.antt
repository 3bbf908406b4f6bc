-- ===== src/Xv6/Threads/Tests.antt =====
-- Runs of the process table, in a kernel that counts its pages.
use operating_systems_labwor.Base.{
  ℕ, ◌+◌, ◌*◌, ◌≡◌, refl, sym, subst, Bool, true, false, List, [], ◌∷◌, ℤ, pos, negsuc,
}
use operating_systems_labwor.Xv6.Threads.Kernel.{Kernel}
use operating_systems_labwor.Xv6.Threads.Table.{
  sleeping, runnable, running, at, first, wake_one, wakeup1, wakeup1_one, names_process, kill_one,
  pass_child, pass_children, scan,
}
use operating_systems_labwor.Xv6.Threads.Proc.{
  State, Out, returned, switched, panicked, put_proc, alloc_stack, allocproc, dup_files, copy_files,
  close_files, resize, growproc, fork_child, fork_at, fork, thread_child, thread_at, thread_create,
  kill, get_channel, pointer, leave, thread_exit, exit, sleep, sleep_chan, wakeup, wakeup_one,
  sig_chan, sig_one_chan, yield_cpu,
}
use operating_systems_labwor.Xv6.Threads.Wait.{
  clear_threads, free_stacks, collect, collect_thread, collect_pid, end_wait, wait, end_join,
  thread_join, waitpid_at, waitpid,
}
use operating_systems_labwor.Xv6.Threads.System.{
  Call, forks, exits, waits, kills, waits_pid, creates, gets_channel, Undisturbed, Leads, do_call,
  go_on, schedule, Steps, here, then_step, calls, picks, start_state, userinit,
}
use operating_systems_labwor.Xv6.Threads.Numbers.{IsNumbered}
use operating_systems_labwor.Xv6.Threads.Numbers.Steps.{Steps-IsNumbered}
use operating_systems_labwor.Xv6.Threads.Wakeups.Steps.{HasNoneMissed, Steps-NoneMissed}
use operating_systems_labwor.Xv6.Threads.Collects.{Waits, wait-Waits}

-- A page is a number that was not used before; the freed pages are kept.
record Pages : Type 0 where
  next : ℕ
  freed : List ℕ

abbrev take_page : Pages → ℕ × Pages
take_page w = (w.next, record w { next = w.next + 1 })

abbrev pages : Kernel
pages = record {
  World = Pages;
  kalloc = take_page;
  kfree = λ p w. record w { freed = p ∷ w.freed };
  copyuvm = λ _ _. take_page;
  freevm = λ p w. record w { freed = p ∷ w.freed };
  allocuvm = λ _ _ sz w. (sz, w);
  deallocuvm = λ _ _ sz w. (sz, w);
  create_thread_stack = λ _. take_page;
  store_word = λ _ _ w. w;
  filedup = λ _ w. w;
  fileclose = λ _ w. w;
  idup = λ _ w. w;
  iput = λ _ w. w;
}

abbrev address : ℕ → ℕ
address i = 1000 + i * 200

abbrev fresh : Pages
fresh = record { next = 1; freed = [] }

-- All that a run computes with.
machine : ℕ
unfolding first wake_one wakeup1 wakeup1_one names_process kill_one pass_child pass_children scan
    put_proc alloc_stack allocproc dup_files copy_files close_files resize growproc fork_child
    fork_at fork thread_child thread_at thread_create kill get_channel pointer leave thread_exit
    exit sleep sleep_chan wakeup wakeup_one sig_chan sig_one_chan yield_cpu clear_threads
    free_stacks collect collect_thread collect_pid end_wait wait end_join thread_join waitpid_at
    waitpid do_call go_on schedule start_state userinit
machine = 0

abbrev booted : State pages
booted = start_state pages address 7 3 0 fresh

state_after : Out pages → State pages
state_after (returned _ t) = t
state_after (switched t) = t
state_after panicked = booted

value_of : Out pages → ℤ
value_of (returned v _) = v
value_of (switched _) = negsuc 7
value_of panicked = negsuc 8

-- Process 0 runs, makes a child, and waits for it.
init_runs : State pages
init_runs = state_after (schedule pages address 0 booted)

forked : State pages
forked = state_after (do_call pages address 0 forks init_runs)

waiting : State pages
waiting = state_after (do_call pages address 0 waits forked)

-- The child runs and exits, which wakes process 0.
child_runs : State pages
child_runs = state_after (schedule pages address 1 waiting)

child_gone : State pages
child_gone = state_after (do_call pages address 1 exits child_runs)

waiting_states : ((at waiting.proc 0).state ≡ sleeping) × ((at child_gone.proc 0).state ≡ runnable)
unfolding machine state_after init_runs forked waiting child_runs child_gone
waiting_states = (refl, refl)

-- The wait that goes on returns the number of the child.
collected_pid : value_of (schedule pages address 0 child_gone) ≡ pos 2
unfolding machine state_after value_of init_runs forked waiting child_runs child_gone
collected_pid = refl

panics : Out pages → Bool
panics (returned _ t) = false
panics (switched t) = false
panics panicked = true

Leads-state_after : (o : Out pages) → panics o ≡ false → Leads pages address o (state_after o)
unfolding panics state_after
Leads-state_after (returned v t) h = refl
Leads-state_after (switched t) h = refl
Leads-state_after panicked h = cc h

-- The next state after a call, or after a switch.
module _ (s : State pages) (c : ℕ) where
  by_call :
      (call : Call)
      → (at s.proc c).state ≡ running
      → panics (do_call pages address c call s) ≡ false
      → Steps pages address booted s
      → Steps pages address booted (state_after (do_call pages address c call s))
  by_call call up fine r =
      then_step r (calls c call up (Leads-state_after (do_call pages address c call s) fine))

  by_switch :
      (at s.proc c).state ≡ runnable
      → panics (schedule pages address c s) ≡ false
      → Steps pages address booted s
      → Steps pages address booted (state_after (schedule pages address c s))
  by_switch up fine r =
      then_step r (picks c up (Leads-state_after (schedule pages address c s) fine))

ready_0 : ((at booted.proc 0).state ≡ runnable) × (panics (schedule pages address 0 booted) ≡ false)
unfolding machine panics
ready_0 = (refl, refl)

forks_0 :
    ((at init_runs.proc 0).state ≡ running)
    × (panics (do_call pages address 0 forks init_runs) ≡ false)
unfolding machine panics state_after init_runs
forks_0 = (refl, refl)

waits_0 :
    ((at forked.proc 0).state ≡ running) × (panics (do_call pages address 0 waits forked) ≡ false)
unfolding machine panics state_after init_runs forked
waits_0 = (refl, refl)

ready_1 :
    ((at waiting.proc 1).state ≡ runnable) × (panics (schedule pages address 1 waiting) ≡ false)
unfolding machine panics state_after init_runs forked waiting
ready_1 = (refl, refl)

exits_1 :
    ((at child_runs.proc 1).state ≡ running)
    × (panics (do_call pages address 1 exits child_runs) ≡ false)
unfolding machine panics state_after init_runs forked waiting child_runs
exits_1 = (refl, refl)

steps_to_waiting : Steps pages address booted waiting
unfolding init_runs forked waiting
steps_to_waiting =
    by_call forked 0 waits waits_0.0 waits_0.1
      (by_call init_runs 0 forks forks_0.0 forks_0.1 (by_switch booted 0 ready_0.0 ready_0.1 here))

steps_to_gone : Steps pages address booted child_gone
unfolding child_runs child_gone
steps_to_gone =
    by_call child_runs 1 exits exits_1.0 exits_1.1
      (by_switch waiting 1 ready_1.0 ready_1.1 steps_to_waiting)

Steps-NoneMissed_example : HasNoneMissed pages address child_gone
Steps-NoneMissed_example = Steps-NoneMissed pages address 7 3 0 fresh child_gone steps_to_gone

wait-Waits_example : Waits pages address 0 child_gone (wait pages address 0 child_gone)
wait-Waits_example = wait-Waits pages address 0 child_gone

-- Process 0 gets a channel, and then makes a child.
with_channel : State pages
with_channel = state_after (do_call pages address 0 (gets_channel 2 2) init_runs)

forked_later : State pages
forked_later = state_after (do_call pages address 0 forks with_channel)

forks_later :
    ((at with_channel.proc 0).state ≡ running)
    × (do_call pages address 0 forks with_channel ≡ returned (pos 3) forked_later)
unfolding machine state_after init_runs with_channel forked_later
forks_later = (refl, refl)

later : Steps pages address with_channel forked_later
later = then_step here (
    calls 0 forks forks_later.0
      (subst (λ o. Leads pages address o forked_later) (sym forks_later.1) refl))

steps_to_channel : Steps pages address booted with_channel
unfolding machine state_after init_runs with_channel
steps_to_channel =
    then_step (then_step here (picks 0 ready_0.0 refl)) (calls 0 (gets_channel 2 2) refl refl)

alone_to_channel : Undisturbed pages address steps_to_channel
unfolding machine state_after init_runs with_channel steps_to_channel
alone_to_channel = ((tt, tt), (refl, refl))

Steps-IsNumbered_example : IsNumbered pages with_channel
Steps-IsNumbered_example =
    Steps-IsNumbered pages address 7 3 0 fresh with_channel steps_to_channel alone_to_channel

steps_to_init_runs : Steps pages address booted init_runs
unfolding machine state_after init_runs
steps_to_init_runs = then_step here (picks 0 ready_0.0 refl)

-- Processes 0 and 1 run. Between the reads of a getChannel of process 1, of the value 3, and its store
-- process 0 makes two children.
both_run : State pages
both_run = state_after (schedule pages address 1 forked)

two_more : State pages
two_more =
    state_after
      (do_call pages address 0 forks (state_after (do_call pages address 0 forks both_run)))

disturbed : State pages
disturbed = state_after (do_call pages address 1 (gets_channel 3 3) two_more)

value_read : both_run.nextpid ≡ 3
unfolding machine state_after init_runs forked both_run
value_read = refl

-- Its result is the number of a process.
channel_taken : names_process 3 disturbed.proc ≡ true
unfolding machine state_after init_runs forked both_run two_more disturbed
channel_taken = refl

-- The next process gets the number of one that is there.
same_number : State pages
same_number = state_after (do_call pages address 0 forks disturbed)

numbers_again : ((at same_number.proc 3).pid ≡ 4) × ((at same_number.proc 4).pid ≡ 4)
unfolding machine state_after init_runs forked both_run two_more disturbed same_number
numbers_again = (refl, refl)

-- kill(0) marks an entry that is not in use, and the next process starts with the mark.
killed_at_birth : State pages
killed_at_birth =
    state_after
      (do_call pages address 0 forks (state_after (do_call pages address 0 (kills 0) init_runs)))

starts_killed :
    ((at killed_at_birth.proc 1).state ≡ runnable) × ((at killed_at_birth.proc 1).killed ≡ true)
unfolding machine state_after init_runs killed_at_birth
starts_killed = (refl, refl)

-- A child (entry 1, page table 3) with a thread (entry 2, stack 4), which has returned from fork.
with_thread : State pages
with_thread = state_after (
    schedule pages address 2 (
      state_after
        (do_call pages address 1 (creates 0 0 0) (state_after (schedule pages address 1 forked)))))

-- The parent collects the thread by waitpid: the page table of the running child is freed.
thread_collected : State pages
thread_collected = state_after (
    do_call pages address 0 (waits_pid 3) (state_after (do_call pages address 2 exits with_thread)))

page_table_gone :
    ((at thread_collected.proc 1).state ≡ running)
    × ((at thread_collected.proc 1).pgdir ≡ 3)
    × (thread_collected.world.freed ≡ 3 ∷ 4 ∷ [])
unfolding machine state_after init_runs forked with_thread thread_collected
page_table_gone = (refl, refl, refl)

-- The parent collects the child while its thread runs: the kernel stack of the thread is freed.
thread_cut_off : State pages
thread_cut_off =
    state_after
      (do_call pages address 0 waits (state_after (do_call pages address 1 exits with_thread)))

stack_gone :
    ((at with_thread.proc 2).state ≡ running)
    × ((at with_thread.proc 2).kstack ≡ 4)
    × (thread_cut_off.world.freed ≡ 4 ∷ 3 ∷ 2 ∷ [])
unfolding machine state_after init_runs forked with_thread thread_cut_off
stack_gone = (refl, refl, refl)
