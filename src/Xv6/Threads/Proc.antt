-- ===== src/Xv6/Threads/Proc.antt =====
-- The calls of proc.c, as the process `c`, that is `myproc()`, makes them, up to the next switch to the
-- scheduler. Most hold `ptable.lock`; getChannel never does.
use operating_systems_labwor.Base.{
  ℕ, zero, suc, ◌+◌, ◌-◌, not, Option, none, some, List, [], ◌∷◌, ◌==◌, if◌then◌else◌, set, length,
  ℤ, pos, negsuc, minus_one, map,
}
use operating_systems_labwor.Xv6.Threads.Kernel.{Kernel}
use operating_systems_labwor.Xv6.Threads.Table.{
  unused, embryo, sleeping, runnable, zombie, is_unused, Context, in_forkret, in_yield, in_sleep,
  Proc, at, points_to, first, wakeup1, wakeup1_one, names_process, kill_one, pass_children,
}

abbrev pub page_size : ℕ
page_size = 4096

module _ (k : Kernel) where
  open k use {
    World, kalloc, kfree, copyuvm, allocuvm, deallocuvm, create_thread_stack, store_word, filedup,
    fileclose, idup, iput,
  }

  pub record State : Type 0 where
    pub proc : List Proc
    pub nextpid : ℕ
    pub initproc : Option ℕ
    pub world : World

  -- A call returns to its caller, switches to the scheduler, or panics.
  pub data Out : Type 0 where
    returned : ℤ → State → Out
    switched : State → Out
    panicked : Out

  unfoldable pub put_proc : ℕ → Proc → State → State
  put_proc i p s = record s { proc = set s.proc i p }

  -- The entry that was found gets its number, and then its kernel stack.
  unfoldable pub alloc_stack : ℕ → ℕ × World → State → Option ℕ × State
  alloc_stack i (zero, w) s = (
    none,
    put_proc i (record (at s.proc i) { state = unused; kstack = 0 }) (record s { world = w }),
  )
  alloc_stack i (suc stack, w) s = (
    some i,
    put_proc i (record (at s.proc i) { kstack = suc stack; context = in_forkret })
        (record s { world = w }),
  )

  unfoldable pub allocproc : State → Option ℕ × State
  allocproc s = elim (first (λ p. is_unused p.state) s.proc) [
    | none ↦ (none, s)
    | some i ↦ alloc_stack i (kalloc s.world) (
        put_proc i (record (at s.proc i) { state = embryo; pid = s.nextpid; mainthread = some i })
          (record s { nextpid = s.nextpid + 1 }))
  ]

  unfoldable pub dup_files : List ℕ → World → World
  dup_files [] w = w
  dup_files (f ∷ fs) w = dup_files fs (if f == 0 then w else filedup f w)

  -- The open files of the child: an entry that is open in the parent is copied.
  unfoldable pub copy_files : List ℕ → List ℕ → List ℕ
  copy_files [] old = old
  copy_files (f ∷ fs) [] = f ∷ copy_files fs []
  copy_files (f ∷ fs) (g ∷ gs) = (if f == 0 then g else f) ∷ copy_files fs gs

  unfoldable pub close_files : List ℕ → World → World
  close_files [] w = w
  close_files (f ∷ fs) w = close_files fs (if f == 0 then w else fileclose f w)

  -- growproc, when the memory has been resized.
  unfoldable pub resize : ℕ → ℕ × World → State → Out
  resize c (zero, w) s = returned minus_one (record s { world = w })
  resize c (suc sz, w) s =
      returned (pos 0) (put_proc c (record (at s.proc c) { sz = suc sz }) (record s { world = w }))

  unfoldable pub growproc : ℕ → ℤ → State → Out
  growproc c (pos zero) s = returned (pos 0) s
  growproc c (pos (suc m)) s =
      resize c (allocuvm (at s.proc c).pgdir (at s.proc c).sz ((at s.proc c).sz + suc m) s.world) s
  growproc c (negsuc m) s =
      resize c (deallocuvm (at s.proc c).pgdir (at s.proc c).sz ((at s.proc c).sz - suc m) s.world)
        s

  -- fork, when the entry `n` has been allocated and `copyuvm` has returned.
  unfoldable pub fork_child : ℕ → ℕ → ℕ × World → State → Out
  fork_child c n (zero, w) s = returned minus_one (
      put_proc n (record (at s.proc n) { kstack = 0; state = unused; pgdir = 0 })
        (record s { world = kfree (at s.proc n).kstack w }))
  fork_child c n (suc pgdir, w) s =
      let p = at s.proc c in
      returned (pos (at s.proc n).pid) (
        put_proc n
          (record (at s.proc n) {
            pgdir = suc pgdir;
            sz = p.sz;
            parent = some c;
            tf = record p.tf { eax = 0 };
            ofile = copy_files p.ofile (at s.proc n).ofile;
            cwd = p.cwd;
            name = p.name;
            state = runnable;
          })
          (record s { world = idup p.cwd (dup_files p.ofile w) }))

  unfoldable pub fork_at : ℕ → Option ℕ × State → Out
  fork_at c (none, s) = returned minus_one s
  fork_at c (some n, s) = fork_child c n (copyuvm (at s.proc c).pgdir (at s.proc c).sz s.world) s

  unfoldable pub fork : ℕ → State → Out
  fork c s = fork_at c (allocproc s)

  -- thread_create, when the entry `n` has been allocated and the stack has been made.
  unfoldable pub thread_child : ℕ → ℕ → ℕ → ℕ → ℕ → ℕ × World → State → Out
  thread_child c thread start_routine arg n (new_stack, w) s =
      let p = at s.proc c in
      let sz = p.sz + page_size in
      returned (pos (at s.proc n).pid) (
        put_proc n
          (record (at s.proc n) {
            mainthread = p.mainthread;
            pgdir = p.pgdir;
            sz = sz;
            parent = p.parent;
            tf = record p.tf { eip = start_routine; esp = new_stack + page_size - 4 - 4 };
            ofile = copy_files p.ofile (at s.proc n).ofile;
            cwd = p.cwd;
            name = p.name;
            state = runnable;
          })
          (put_proc c (record p { sz = sz })
            (record s {
              world =
                  store_word thread (at s.proc n).pid
                    (idup p.cwd (dup_files p.ofile (store_word (new_stack + page_size - 4) arg w)));
            })))

  unfoldable pub thread_at : ℕ → ℕ → ℕ → ℕ → Option ℕ × State → Out
  thread_at c thread start_routine arg (none, s) = returned minus_one s
  thread_at c thread start_routine arg (some n, s) =
      thread_child c thread start_routine arg n (create_thread_stack (at s.proc c).pgdir s.world) s

  unfoldable pub thread_create : ℕ → ℕ → ℕ → ℕ → State → Out
  thread_create c thread start_routine arg s = thread_at c thread start_routine arg (allocproc s)

  unfoldable pub kill : ℕ → State → Out
  kill pid s = elim (first (λ p. p.pid == pid) s.proc) [
    | none ↦ returned minus_one s
    | some i ↦ returned (pos 0) (put_proc i (kill_one (at s.proc i)) s)
  ]

  -- getChannel holds no lock. This is its store: before, it has read `nextpid` into `tmp`, and again as
  -- `loaded` for the increment, and other processes may have run since.
  unfoldable pub get_channel : ℕ → ℕ → State → Out
  get_channel tmp loaded s = returned (pos tmp) (record s { nextpid = loaded + 1 })

  -- `address i` is the address of entry `i`.
  module _ (address : ℕ → ℕ) where
    unfoldable pub pointer : Option ℕ → ℕ
    pointer none = 0
    pointer (some i) = address i

    -- What exit and thread_exit have in common: files and directory are closed, `to_wake` is woken,
    -- the children go to init, and the process becomes a zombie.
    unfoldable pub leave : ℕ → Option ℕ → State → Out
    leave c to_wake s =
        let p = at s.proc c in
        let bare = record p { ofile = map (λ _. 0) p.ofile; cwd = 0 } in
        let woken = wakeup1 (pointer to_wake) (set s.proc c bare) in
        let passed = pass_children c s.initproc (pointer s.initproc) (length s.proc) 0 woken in
        switched (
          put_proc c (record (at passed c) { state = zombie })
            (record s { proc = passed; world = iput p.cwd (close_files p.ofile s.world) }))

    unfoldable pub thread_exit : ℕ → State → Out
    thread_exit c s =
        if points_to (at s.proc c).mainthread c
        then returned (pos 0) s
        else if points_to s.initproc c
        then panicked
        else leave c (at s.proc c).mainthread s

    unfoldable pub exit : ℕ → State → Out
    exit c s =
        if not (points_to (at s.proc c).mainthread c)
        then thread_exit c s
        else if points_to s.initproc c
        then panicked
        else leave c (at s.proc c).parent s

    -- `sleep`, up to the switch; `context` is where the caller goes on.
    unfoldable pub sleep : ℕ → ℕ → Context → State → Out
    sleep c chan context s =
        switched
          (put_proc c (record (at s.proc c) { chan = chan; state = sleeping; context = context }) s)

    unfoldable pub sleep_chan : ℕ → ℕ → State → Out
    sleep_chan c channel s =
        if names_process channel s.proc then panicked else sleep c channel in_sleep s

    unfoldable pub wakeup : ℕ → State → Out
    wakeup chan s = returned (pos 0) (record s { proc = wakeup1 chan s.proc })

    unfoldable pub wakeup_one : ℕ → State → Out
    wakeup_one chan s = returned (pos 0) (record s { proc = wakeup1_one chan s.proc })

    unfoldable pub sig_chan : ℕ → State → Out
    sig_chan channel s =
        if names_process channel s.proc
        then panicked
        else returned (pos 1) (record s { proc = wakeup1 channel s.proc })

    unfoldable pub sig_one_chan : ℕ → State → Out
    sig_one_chan channel s =
        if names_process channel s.proc
        then panicked
        else returned (pos 1) (record s { proc = wakeup1_one channel s.proc })

    unfoldable pub yield_cpu : ℕ → State → Out
    yield_cpu c s =
        switched (put_proc c (record (at s.proc c) { state = runnable; context = in_yield }) s)
