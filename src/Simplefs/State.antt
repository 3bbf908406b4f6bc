-- ===== src/Simplefs/State.antt =====
-- The state of the simple file system, and commands on it.
use operating_systems_labwor.Base.{ℕ, ◌+◌, Bool, true, false, Option, none, some, List, ℤ, leb}
use operating_systems_labwor.Simplefs.Image.{Image, slice, patch}

-- `struct filehandle_t`; an offset is never negative.
pub record Handle : Type 0 where
  pub offset : ℕ
  pub inode_number : ℤ

-- The file behind DISK_FD, `file_handle_array`, and what uninitialised memory happens to hold.
pub record State : Type 0 where
  pub disk : Image
  pub handles : List Handle
  pub junk : Image

-- A call returns, stops at a failed `assert`, or runs into undefined behaviour.
pub data Out (A : Type 0) : Type 0 where
  done : A → State → Out A
  aborted : Out A
  fault : Out A

abbrev pub Cmd : Type 0 → Type 0
Cmd A = State → Out A

abbrev pub and_then : {A B : Type 0} → Out A → (A → Cmd B) → Out B
and_then (done a s) k = k a s
and_then aborted k = aborted
and_then fault k = fault

infixl 5 ◌>>=◌ ◌>>◌
abbrev pub ◌>>=◌ : {A B : Type 0} → Cmd A → (A → Cmd B) → Cmd B
◌>>=◌ m k s = and_then (m s) k

abbrev pub ◌>>◌ : {B : Type 0} → Cmd (Unit {0}) → Cmd B → Cmd B
m >> k = m >>= λ _. k

abbrev pub pure : {A : Type 0} → A → Cmd A
pure a s = done a s

abbrev pub get : Cmd State
get s = done s s

abbrev pub put : State → Cmd (Unit {0})
put t s = done tt t

abbrev pub undefined : {A : Type 0} → Cmd A
undefined s = fault

-- `assert`
abbrev pub check : Bool → Cmd (Unit {0})
check true s = done tt s
check false s = aborted

-- A value that the C program may use only if it is there.
abbrev pub need : {A : Type 0} → Option A → Cmd A
need none s = fault
need (some a) s = done a s

-- `lseek`, `read` of `n` bytes, and the assertion that all of them were read.
unfoldable pub read_at : ℕ → ℕ → Cmd (List ℕ)
read_at off n = do s ← get; check (leb (off + n) s.disk.size); pure (slice s.disk off n)

-- `lseek`, and a `write` that writes all of its bytes.
unfoldable pub write_at : ℕ → List ℕ → Cmd (Unit {0})
write_at off bs = do s ← get; put (record s { disk = patch s.disk off bs })

-- The call returns, and what it returns and the state that it leaves satisfy `P`.
abbrev pub Returns : {A : Type 0} → (A → State → Type 0) → Out A → Type 0
Returns P (done a s) = P a s
Returns P aborted = ⊥
Returns P fault = ⊥

pub Returns-mono :
    {A : Type 0} {P Q : A → State → Type 0} (o : Out A)
    → Returns P o
    → ((a : A) (s : State) → P a s → Q a s)
    → Returns Q o
Returns-mono (done a s) h k = k a s h
Returns-mono aborted h k = h
Returns-mono fault h k = h

pub Returns-bind :
    {A B : Type 0} {P : A → State → Type 0} (Q : B → State → Type 0) (o : Out A) (k : A → Cmd B)
    → Returns P o
    → ((a : A) (s : State) → P a s → Returns Q (k a s))
    → Returns Q (and_then o k)
Returns-bind Q (done a s) k h next = next a s h
Returns-bind Q aborted k h next = h
Returns-bind Q fault k h next = h
