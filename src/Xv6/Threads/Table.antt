-- ===== src/Xv6/Threads/Table.antt =====
-- `struct proc` and the loops over `ptable` of proc.c that need nothing but the table. A pointer to a
-- process is its index in the table.
use operating_systems_labwor.Base.{
  ℕ, zero, suc, ◌+◌, Bool, true, false, ◌&&◌, not, Option, none, some, List, [], ◌∷◌, ◌==◌,
  if◌then◌else◌, get_or, set,
}

pub data ProcState : Type 0 where
  unused embryo sleeping runnable running zombie : ProcState

abbrev pub is_unused : ProcState → Bool
is_unused unused = true
is_unused _ = false

abbrev pub is_sleeping : ProcState → Bool
is_sleeping sleeping = true
is_sleeping _ = false

abbrev pub is_zombie : ProcState → Bool
is_zombie zombie = true
is_zombie _ = false

-- The registers that proc.c writes, and the others.
pub record Trapframe : Type 0 where
  pub eax : ℕ
  pub eip : ℕ
  pub esp : ℕ
  pub others : ℕ

-- Where a process goes on when the scheduler switches to it.
pub data Context : Type 0 where
  in_forkret in_wait in_yield in_sleep : Context
  in_thread_join : ℕ → Context
  in_waitpid : ℕ → Context

pub record Proc : Type 0 where
  pub sz : ℕ
  pub pgdir : ℕ
  pub kstack : ℕ
  pub state : ProcState
  pub pid : ℕ
  pub parent : Option ℕ
  pub tf : Trapframe
  pub context : Context
  pub chan : ℕ
  pub killed : Bool
  pub ofile : List ℕ
  pub cwd : ℕ
  pub name : List ℕ
  pub mainthread : Option ℕ

-- An entry that was never used.
abbrev pub blank : Proc
blank = record {
  sz = 0;
  pgdir = 0;
  kstack = 0;
  state = unused;
  pid = 0;
  parent = none;
  tf = record { eax = 0; eip = 0; esp = 0; others = 0 };
  context = in_forkret;
  chan = 0;
  killed = false;
  ofile = [];
  cwd = 0;
  name = [];
  mainthread = none;
}

abbrev pub at : List Proc → ℕ → Proc
at t i = get_or t i blank

abbrev pub points_to : Option ℕ → ℕ → Bool
points_to none i = false
points_to (some j) i = j == i

-- The first entry with a property.
unfoldable pub first : (Proc → Bool) → List Proc → Option ℕ
first test [] = none
first test (p ∷ ps) = elim (test p) [
  | true ↦ some 0
  | false ↦ elim (first test ps) [ none ↦ none | some i ↦ some (suc i) ]
]

abbrev pub sleeps_on : ℕ → Proc → Bool
sleeps_on chan p = is_sleeping p.state && p.chan == chan

unfoldable pub wake_one : ℕ → Proc → Proc
wake_one chan p = if sleeps_on chan p then record p { state = runnable } else p

unfoldable pub wakeup1 : ℕ → List Proc → List Proc
wakeup1 chan [] = []
wakeup1 chan (p ∷ ps) = wake_one chan p ∷ wakeup1 chan ps

unfoldable pub wakeup1_one : ℕ → List Proc → List Proc
wakeup1_one chan [] = []
wakeup1_one chan (p ∷ ps) =
    if sleeps_on chan p then record p { state = runnable } ∷ ps else p ∷ wakeup1_one chan ps

-- The loop of sleepChan, sigChan and sigOneChan that looks for a process with that number.
unfoldable pub names_process : ℕ → List Proc → Bool
names_process channel [] = false
names_process channel (p ∷ ps) =
    if not (is_unused p.state) && p.pid == channel then true else names_process channel ps

unfoldable pub kill_one : Proc → Proc
kill_one p = record p { killed = true; state = if is_sleeping p.state then runnable else p.state }

-- The loop of exit and thread_exit that passes the children of `curproc` to `initproc`, whose address
-- is `init_address`: `rounds` are left, from entry `i` on.
unfoldable pub pass_child : ℕ → Option ℕ → ℕ → ℕ → List Proc → List Proc
pass_child curproc initproc init_address i t =
    if points_to (at t i).parent curproc
    then (if is_zombie (at t i).state
        then wakeup1 init_address (set t i (record (at t i) { parent = initproc }))
        else set t i (record (at t i) { parent = initproc }))
    else t

unfoldable pub pass_children : ℕ → Option ℕ → ℕ → ℕ → ℕ → List Proc → List Proc
pass_children curproc initproc init_address zero i t = t
pass_children curproc initproc init_address (suc rounds) i t =
    pass_children curproc initproc init_address rounds (i + 1)
      (pass_child curproc initproc init_address i t)

-- The loop of wait and thread_join over the table, from entry `i` on: the first entry that is meant
-- and a zombie, or whether any entry is meant.
unfoldable pub scan : (ℕ → Proc → Bool) → ℕ → List Proc → Bool → Option ℕ × Bool
scan meant i [] have = (none, have)
scan meant i (p ∷ ps) have = elim (meant i p) [
  | true ↦ elim (is_zombie p.state) [ true ↦ (some i, true) | false ↦ scan meant (i + 1) ps true ]
  | false ↦ scan meant (i + 1) ps have
]
