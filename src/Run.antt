-- ===== src/Run.antt =====
-- The state of the process, V8's and the program's, and the commands that internal/gv8.cc is
-- written in. `fault` is undefined behaviour of the program; `abort` is V8 ending the process, as
-- `ToLocalChecked` does on an empty handle.
pub mod Keeps
use gv.Prelude.{ℕ, Option, none, some, List, [], ◌∷◌}
use gv.Memory.{Memory, Mem}

-- `E` is the state of V8, which the program does not see.
pub record World (E : Type 0) : Type 0 where
  pub engine : E
  pub mem : Memory

pub data Run (E A : Type 0) : Type 0 where
  ok : A → World E → Run E A
  fault : Run E A
  abort : Run E A

abbrev pub Cmd : Type 0 → Type 0 → Type 0
Cmd E A = World E → Run E A

-- A call of V8 or of the Go side that can run user code, which can call back into the program.
abbrev pub Call : Type 0 → Type 0 → Type 0
Call E A = World E → A × World E

module _ {E A : Type 0} where
  pub pure : A → Cmd E A
  pure a w = ok a w

  -- A read through a null pointer or a dangling one.
  pub fail : Cmd E A
  fail w = fault

  pub asks : (E → A) → Cmd E A
  asks f w = ok (f w.engine) w

  pub engine : (E → A × E) → Cmd E A
  engine f w = let (a, e) = f w.engine in ok a (record w { engine = e })

  pub enter : Call E A → Cmd E A
  enter f w = let (a, w') = f w in ok a w'

  abbrev pub or_fault : Option (A × Memory) → E → Run E A
  or_fault none e = fault
  or_fault (some (a, m)) e = ok a (record { engine = e; mem = m })

  pub memory : Mem A → Cmd E A
  memory c w = or_fault (c w.mem) w.engine

  -- The process ends.
  pub stop : Cmd E A
  stop w = abort

  -- `ToLocalChecked()`
  pub to_local_checked : Option A → Cmd E A
  to_local_checked none w = abort
  to_local_checked (some a) w = ok a w

  -- `ptr.Get(iso)`, where the code goes on to use the handle.
  pub get : Option A → Cmd E A
  get none w = fault
  get (some a) w = ok a w

module _ {E A B : Type 0} where
  abbrev pub continue : Run E A → (A → Cmd E B) → Run E B
  continue (ok a w) f = f a w
  continue fault f = fault
  continue abort f = abort

  infixl 5 ◌>>=◌ ◌>>◌
  -- opening this opens the ways to build a command too
  unfoldable pub ◌>>=◌ : Cmd E A → (A → Cmd E B) → Cmd E B
  unfolding pure fail stop asks engine enter memory to_local_checked get
  ◌>>=◌ m f w = continue (m w) f

  abbrev pub ◌>>◌ : Cmd E A → Cmd E B → Cmd E B
  m >> k = m >>= λ _. k
