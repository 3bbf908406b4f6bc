-- ===== src/Xv6/Threads/Numbers/Steps.antt =====
-- No call gives two processes the same number, or a process the number of a channel, as long as no
-- getChannel is disturbed.
use operating_systems_labwor.Base.{
  ℕ, zero, suc, ◌≡◌, inl, inr, refl, sym, ap, subst, ◌∙◌, true, false, Bool-cases, Option, none,
  some, List, if◌then◌else◌, set, replicate, length, arith, pos, negsuc, map,
}
use operating_systems_labwor.Xv6.Threads.Kernel.{Kernel}
use operating_systems_labwor.Xv6.Threads.Table.{
  runnable, running, zombie, is_unused, Context, in_forkret, in_wait, in_yield, in_sleep,
  in_thread_join, in_waitpid, Proc, blank, at, points_to, wakeup1, wakeup1_one, names_process,
  pass_children,
}
use operating_systems_labwor.Xv6.Threads.Kept.{
  SameUses, Kept, SameUse-Kept, Kept-trans, KeptAll-set, SameUses-set, SameUses-trans,
  SameUses-wakeup1, SameUses-wakeup1_one, SameUses-pass_children,
}
use operating_systems_labwor.Xv6.Threads.Proc.{
  State, Out, returned, switched, panicked, put_proc, allocproc, pointer, leave, thread_exit, exit,
  sleep_chan, wakeup, wakeup_one, sig_chan, sig_one_chan, yield_cpu,
}
use operating_systems_labwor.Xv6.Threads.Wait.{wait, thread_join, waitpid_at}
use operating_systems_labwor.Xv6.Threads.Numbers.{
  IsNumbered, IsChannel, Renumbers, kept_after, kept_call, Renumbers-refl, Renumbers-IsNumbered,
  Renumbers-IsChannel, Renumbered,
}
use operating_systems_labwor.Xv6.Threads.Numbers.Alloc.{fork_lem, thread_create_lem}
use operating_systems_labwor.Xv6.Threads.System.{
  Call, forks, exits, waits, yields, gets_channel, exits_thread, grows, kills, waits_pid,
  sleeps_chan, signals, signals_one, joins, sleeps, wakes, wakes_one, creates, do_call, go_on,
  schedule, Leads, Step, calls, picks, Steps, here, then_step, start_state, userinit, no_process,
  IsAlone, IsAloneStep, Undisturbed,
}
use operating_systems_labwor.Xv6.Threads.Numbers.Calls.{
  write_entry, same_entry, growproc_lem, kill_lem, get_channel_lem, sleep_lem, wait_lem,
  thread_join_lem, waitpid_at_lem, waitpid_lem,
}
use operating_systems_labwor.Xv6.Threads.Numbers.Alloc.{Allocates, allocproc_lem}

module _ (k : Kernel) (address : ℕ → ℕ) where
  leave_lem :
      (c : ℕ) (to_wake : Option ℕ) (s : State k)
      → is_unused (at s.proc c).state ≡ false
      → Renumbered k s (leave k address c to_wake s)
  unfolding leave put_proc
  leave_lem c to_wake s used =
      let bare = record (at s.proc c) { ofile = map (λ _. 0) (at s.proc c).ofile; cwd = 0 } in
      let t = set s.proc c bare in
      let u = wakeup1 (pointer k address to_wake) t in
      let init = pointer k address s.initproc in
      let v = pass_children c s.initproc init (length s.proc) 0 u in
      let same =
        SameUses-trans s.proc u v
          (SameUses-trans s.proc t u (SameUses-set s.proc c bare (refl, refl))
            (SameUses-wakeup1 (pointer k address to_wake) t))
          (SameUses-pass_children c s.initproc init (length s.proc) 0 u) in
      let last = record (at v c) { state = zombie } in
      kept_call k s (set v c last) _ (λ i.
        Kept-trans (at s.proc i) (at v i) (at (set v c last) i)
          (SameUse-Kept (at s.proc i) (at v i) (same i))
          (KeptAll-set v c last (inr ((same c).1 ∙ used, refl)) i))

  exit_thread_lem :
      (c : ℕ) (s : State k)
      → is_unused (at s.proc c).state ≡ false
      → Renumbered k s (thread_exit k address c s)
  unfolding thread_exit
  exit_thread_lem c s used = elim (Bool-cases (points_to (at s.proc c).mainthread c)) [
    | inl main ↦ rw main (0, Renumbers-refl k s)
    | inr other ↦ elim (Bool-cases (points_to s.initproc c)) [
      | inl init ↦ rw (other, init) tt
      | inr plain ↦ rw (other, plain) (leave_lem c (at s.proc c).mainthread s used)
    ]
  ]

  exit_lem :
      (c : ℕ) (s : State k)
      → is_unused (at s.proc c).state ≡ false
      → Renumbered k s (exit k address c s)
  unfolding exit
  exit_lem c s used = elim (Bool-cases (points_to (at s.proc c).mainthread c)) [
    | inr other ↦ rw other (exit_thread_lem c s used)
    | inl main ↦ elim (Bool-cases (points_to s.initproc c)) [
      | inl init ↦ rw (main, init) tt
      | inr plain ↦ rw (main, plain) (leave_lem c (at s.proc c).parent s used)
    ]
  ]

  woken_lem :
      (table : List Proc) (s : State k)
      → SameUses s.proc table
      → (n : ℕ) × Renumbers k n s (record s { proc = table })
  woken_lem table s same =
      kept_call k s table s.world (λ i. SameUse-Kept (at s.proc i) (at table i) (same i))

  channel_lem :
      (channel : ℕ) (s : State k) (o : Out k)
      → Renumbered k s o
      → Renumbered k s (if names_process channel s.proc then panicked else o)
  channel_lem channel s o h = elim (Bool-cases (names_process channel s.proc)) [
    | inl bad ↦ rw bad tt
    | inr good ↦ rw good h
  ]

  do_call_lem :
      (c : ℕ) (call : Call) (s : State k)
      → is_unused (at s.proc c).state ≡ false
      → IsAlone k address call s
      → Renumbered k s (do_call k address c call s)
  unfolding do_call sleep_chan sig_chan sig_one_chan wakeup wakeup_one yield_cpu put_proc
  do_call_lem c forks s used alone = fork_lem k c s
  do_call_lem c exits s used alone = exit_lem c s used
  do_call_lem c waits s used alone = wait_lem k address c s used
  do_call_lem c yields s used alone =
      let p = record (at s.proc c) { state = runnable; context = in_yield } in
      write_entry k c p s s.world (inr (used, refl))
  do_call_lem c exits_thread s used alone = exit_thread_lem c s used
  do_call_lem c (grows n) s used alone = growproc_lem k c n s
  do_call_lem c (kills pid) s used alone = kill_lem k pid s
  do_call_lem c (waits_pid pid) s used alone = waitpid_lem k address c pid s used
  do_call_lem c (sleeps_chan channel) s used alone =
      channel_lem channel s _ (sleep_lem k address c channel in_sleep s used)
  do_call_lem c (signals channel) s used alone =
      channel_lem channel s _
        (woken_lem (wakeup1 channel s.proc) s (SameUses-wakeup1 channel s.proc))
  do_call_lem c (signals_one channel) s used alone =
      channel_lem channel s _
        (woken_lem (wakeup1_one channel s.proc) s (SameUses-wakeup1_one channel s.proc))
  do_call_lem c (joins thread) s used alone = thread_join_lem k address c thread s used
  do_call_lem c (sleeps chan) s used alone = sleep_lem k address c chan in_sleep s used
  do_call_lem c (wakes chan) s used alone =
      woken_lem (wakeup1 chan s.proc) s (SameUses-wakeup1 chan s.proc)
  do_call_lem c (wakes_one chan) s used alone =
      woken_lem (wakeup1_one chan s.proc) s (SameUses-wakeup1_one chan s.proc)
  do_call_lem c (creates thread start_routine arg) s used alone =
      thread_create_lem k c thread start_routine arg s
  do_call_lem c (gets_channel tmp loaded) s used (read, same) = rw same (get_channel_lem k tmp s)

  -- The numbers are apart, and those of the channels too, whatever a call renumbers.
  abbrev Fine : (ℕ → Type 0) → State k → Type 0
  Fine channels s = IsNumbered k s × ((c : ℕ) → channels c → IsChannel k c s)

  Renumbered-Fine :
      (channels : ℕ → Type 0) (s t : State k) (o : Out k)
      → Renumbered k s o
      → Leads k address o t
      → Fine channels s
      → Fine channels t
  Renumbered-Fine channels s t (returned _ u) (n, r) e (h, all) =
      subst (Fine channels) e
        (Renumbers-IsNumbered k n s u r h, λ c l. Renumbers-IsChannel k n s u r c (all c l))
  Renumbered-Fine channels s t (switched u) (n, r) e (h, all) =
      subst (Fine channels) e
        (Renumbers-IsNumbered k n s u r h, λ c l. Renumbers-IsChannel k n s u r c (all c l))
  Renumbered-Fine channels s t panicked r e h = absurd e

  module _ (channels : ℕ → Type 0) where
    -- A process whose entry is written goes on.
    written :
        (c : ℕ) (p : Proc) (s t : State k) (o : Out k)
        → Kept (at s.proc c) p
        → Renumbered k (put_proc k c p s) o
        → Leads k address o t
        → Fine channels s
        → Fine channels t
    unfolding put_proc
    written c p s t o kept r l h = Renumbered-Fine channels (put_proc k c p s) t o r l (
        Renumbered-Fine channels s (put_proc k c p s) (switched (put_proc k c p s))
          (write_entry k c p s s.world kept) refl h)

    clear_chan : (p : Proc) → Kept p (record p { chan = 0 })
    clear_chan p = same_entry k p (record p { chan = 0 }) refl refl

    go_on_lem :
        (c : ℕ) (context : Context) (s t : State k)
        → is_unused (at (put_proc k c (record (at s.proc c) { chan = 0 }) s).proc c).state ≡ false
        → Leads k address (go_on k address c context s) t
        → Fine channels s
        → Fine channels t
    unfolding go_on
    go_on_lem c in_forkret s t used l h =
        Renumbered-Fine channels s t (returned (pos 0) s) (0, Renumbers-refl k s) l h
    go_on_lem c in_yield s t used l h =
        Renumbered-Fine channels s t (returned (pos 0) s) (0, Renumbers-refl k s) l h
    go_on_lem c in_sleep s t used l h =
        let p = record (at s.proc c) { chan = 0 } in
        written c p s t (returned (pos 1) (put_proc k c p s)) (clear_chan (at s.proc c))
          (0, Renumbers-refl k (put_proc k c p s)) l h
    go_on_lem c in_wait s t used l h =
        let p = record (at s.proc c) { chan = 0 } in
        let u = put_proc k c p s in
        written c p s t (wait k address c u) (clear_chan (at s.proc c))
          (wait_lem k address c u used) l h
    go_on_lem c (in_thread_join thread) s t used l h =
        let p = record (at s.proc c) { chan = 0 } in
        let u = put_proc k c p s in
        written c p s t (thread_join k address c thread u) (clear_chan (at s.proc c))
          (thread_join_lem k address c thread u used) l h
    go_on_lem c (in_waitpid j) s t used l h =
        let p = record (at s.proc c) { chan = 0 } in
        let u = put_proc k c p s in
        written c p s t (waitpid_at k address c j u) (clear_chan (at s.proc c))
          (waitpid_at_lem k address c j u used) l h

    Step-Fine :
        (s t : State k) (step : Step k address s t)
        → IsAloneStep k address step
        → Fine channels s
        → Fine channels t
    unfolding schedule put_proc
    Step-Fine s t (calls c call run l) alone h =
        Renumbered-Fine channels s t (do_call k address c call s)
          (do_call_lem c call s (ap is_unused run) alone) l h
    Step-Fine s t (picks c ready l) alone h =
        let p = record (at s.proc c) { state = running } in
        let u = put_proc k c p s in
        let p' = record (at u.proc c) { chan = 0 } in
        let used =
          (SameUses-set u.proc c p' (refl, refl) c).1
          ∙ (SameUses-set s.proc c p (refl, ap is_unused (sym ready)) c).1
          ∙ ap is_unused ready in
        go_on_lem c (at s.proc c).context u t used l (
          Renumbered-Fine channels s u (switched u)
            (write_entry k c p s s.world (inr (ap is_unused ready, refl))) refl h)

    Steps-Fine :
        (s t : State k) (r : Steps k address s t)
        → Undisturbed k address r
        → Fine channels s
        → Fine channels t
    Steps-Fine s t here alone h = h
    Steps-Fine s t (then_step {t = u} r step) (before, alone) h =
        Step-Fine u t step alone (Steps-Fine s u r before h)

  -- The table before the first process has no entry in use.
  none_used :
      (n i : ℕ)
      → is_unused (at (replicate n (record blank { ofile = replicate 16 0 })) i).state ≡ true
  none_used zero i = refl
  none_used (suc n) zero = refl
  none_used (suc n) (suc i) = none_used n i

  no_process-IsNumbered : (w : k.World) → IsNumbered k (no_process k address w)
  no_process-IsNumbered w = record {
    started = omega arith;
    given = λ i used. cc (used, none_used 64 i);
    apart = λ i j used used' e. cc (used, none_used 64 i);
  }

  start-IsNumbered :
      (pgdir cwd segments : ℕ) (w : k.World)
      → IsNumbered k (start_state k address pgdir cwd segments w)
  unfolding start_state userinit put_proc
  start-IsNumbered pgdir cwd segments w = at_entry (allocproc k s) (allocproc_lem k s)
    where
      s : State k
      s = no_process k address w

      at_entry :
          (r : Option ℕ × State k)
          → Allocates k s r
          → IsNumbered k (userinit k address pgdir cwd segments r)
      at_entry (none, t) (n, r) = Renumbers-IsNumbered k n s t r (no_process-IsNumbered w)
      at_entry (some i, t) (r, used) =
          let u = userinit k address pgdir cwd segments (some i, t) in
          Renumbers-IsNumbered k i s u
            (kept_after k i s t u.proc t.world (some i) r
              (KeptAll-set t.proc i _ (inr (used, refl))))
            (no_process-IsNumbered w)

  -- In every state that comes after userinit the entries of the table that are in use have different
  -- numbers, all of them positive and below `nextpid`, if every getChannel, which holds no
  -- lock, reads `nextpid` as it is when it stores the increment.
  pub Steps-IsNumbered :
      (pgdir cwd segments : ℕ) (w : k.World) (t : State k)
      (r : Steps k address (start_state k address pgdir cwd segments w) t)
      → Undisturbed k address r
      → IsNumbered k t
  Steps-IsNumbered pgdir cwd segments w t r alone =
      (Steps-Fine (λ _. ⊥) (start_state k address pgdir cwd segments w) t r alone
        (start-IsNumbered pgdir cwd segments w, λ c l. absurd l)).0

  -- What getChannel returns is a number that no process has.
  abbrev GivesChannel : Out k → Type 0
  GivesChannel (returned (pos channel) u) = Fine (λ c. c ≡ channel) u
  GivesChannel (returned (negsuc _) u) = Unit
  GivesChannel (switched u) = Unit
  GivesChannel panicked = Unit
