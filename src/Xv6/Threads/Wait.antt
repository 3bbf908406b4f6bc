-- ===== src/Xv6/Threads/Wait.antt =====
-- wait, thread_join and waitpid of proc.c. A pass over the table returns, or sleeps; when the process
-- runs again it makes the next pass.
use operating_systems_labwor.Base.{
  ℕ, ◌+◌, Bool, false, ◌&&◌, ◌||◌, not, Option, none, some, List, [], ◌∷◌, ◌==◌, if◌then◌else◌, set,
  pos, minus_one,
}
use operating_systems_labwor.Xv6.Threads.Kernel.{Kernel}
use operating_systems_labwor.Xv6.Threads.Table.{
  unused, is_unused, is_zombie, in_wait, in_thread_join, in_waitpid, Proc, at, points_to, first,
  scan,
}
use operating_systems_labwor.Xv6.Threads.Proc.{State, Out, returned, put_proc, sleep}

-- Entry `i` is a main thread whose parent is `c`.
abbrev pub is_child : ℕ → ℕ → Proc → Bool
is_child c i p = points_to p.parent c && points_to p.mainthread i

-- Entry `i` is the thread with number `thread` of the main thread `c`, and not `c` itself.
abbrev pub is_thread : ℕ → ℕ → ℕ → Proc → Bool
is_thread c thread i p =
    points_to p.mainthread c && (p.pid == thread && not (points_to p.mainthread i))

-- What is left of a main thread and of the other threads when they are collected.
abbrev pub collected : Proc → Proc
collected p = record p { kstack = 0; parent = none; name = []; killed = false; state = unused }

abbrev pub forgotten : Proc → Proc
forgotten p = record p { pid = 0; mainthread = none }

-- Entry `i` is in use by another thread of the main thread `j`.
abbrev pub is_left : ℕ → ℕ → Proc → Bool
is_left j i p = not (i == j) && (points_to p.mainthread j && not (is_unused p.state))

unfoldable pub clear_threads : ℕ → ℕ → List Proc → List Proc
clear_threads j i [] = []
clear_threads j i (p ∷ ps) =
    (if is_left j i p then forgotten (collected p) else p) ∷ clear_threads j (i + 1) ps

module _ (k : Kernel) where
  open k use {World, kfree, freevm}

  unfoldable pub free_stacks : ℕ → ℕ → List Proc → World → World
  free_stacks j i [] w = w
  free_stacks j i (p ∷ ps) w =
      free_stacks j (i + 1) ps (if is_left j i p then kfree p.kstack w else w)

  -- The main thread `j`, a zombie, is collected with all of its threads.
  unfoldable pub collect : ℕ → State k → State k
  collect j s =
      let t = set s.proc j (collected (at s.proc j)) in
      let cleared = clear_threads j 0 t in
      record s {
        proc = set cleared j (forgotten (at cleared j));
        world = free_stacks j 0 t (freevm (at s.proc j).pgdir (kfree (at s.proc j).kstack s.world));
      }

  -- The thread `j`, a zombie, is collected; its page table belongs to its main thread.
  unfoldable pub collect_thread : ℕ → State k → State k
  collect_thread j s =
      put_proc k j (forgotten (collected (at s.proc j)))
        (record s { world = kfree (at s.proc j).kstack s.world })

  -- What waitpid does with a zombie; `mainthread` stays.
  unfoldable pub collect_pid : ℕ → State k → State k
  collect_pid j s =
      put_proc k j (record (collected (at s.proc j)) { pid = 0 })
        (record s { world = freevm (at s.proc j).pgdir (kfree (at s.proc j).kstack s.world) })

  module _ (address : ℕ → ℕ) where
    -- The end of a pass of wait.
    unfoldable pub end_wait : ℕ → Option ℕ × Bool → State k → Out k
    end_wait c (some j, have) s = returned (pos (at s.proc j).pid) (collect j s)
    end_wait c (none, have) s =
        if not have || (at s.proc c).killed
        then returned minus_one s
        else sleep k address c (address c) in_wait s

    unfoldable pub wait : ℕ → State k → Out k
    wait c s = end_wait c (scan (is_child c) 0 s.proc false) s

    unfoldable pub end_join : ℕ → ℕ → Option ℕ × Bool → State k → Out k
    end_join c thread (some j, have) s = returned (pos (at s.proc j).pid) (collect_thread j s)
    end_join c thread (none, have) s =
        if not have || (at s.proc c).killed
        then returned minus_one s
        else sleep k address c (address c) (in_thread_join thread) s

    unfoldable pub thread_join : ℕ → ℕ → State k → Out k
    thread_join c thread s = end_join c thread (scan (is_thread c thread) 0 s.proc false) s

    -- waitpid, once it has found entry `j`: it looks at nothing but the state of the entry.
    unfoldable pub waitpid_at : ℕ → ℕ → State k → Out k
    waitpid_at c j s =
        if is_zombie (at s.proc j).state
        then returned (pos (at s.proc j).pid) (collect_pid j s)
        else sleep k address c (address c) (in_waitpid j) s

    unfoldable pub waitpid : ℕ → ℕ → State k → Out k
    waitpid c pid s = elim (first (λ p. points_to p.parent c && p.pid == pid) s.proc) [
      | none ↦ returned minus_one s
      | some j ↦ waitpid_at c j s
    ]
