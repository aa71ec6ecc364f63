-- ===== src/Go/Objects.antt =====
-- The functions of the Go side that neither call C nor the user: how they are put together, and how
-- they read and write objects.
use gv.Prelude.{Option, none, some, suc, ◌-◌, update}
use gv.Memory.{Ptr}
use gv.Go.{
  GoError, Isolate, Context, Value, Module, UnboundScript, SnapshotBuilder, GlobalValue, Heap,
  Attempt, done, panics, Alter, nil_dereference,
}

module _ {A : Type 0} where
  abbrev pub pure : A → Alter A
  pure a g = (done a, g)

  abbrev pub panic : GoError → Alter A
  panic e g = (panics e, g)

module _ {A B : Type 0} where
  abbrev pub then_do : Attempt A × Heap → (A → Alter B) → Attempt B × Heap
  then_do (done a, g) f = f a g
  then_do (panics e, g) f = (panics e, g)

  infixl 5 ◌>>=◌ ◌>>◌
  abbrev pub ◌>>=◌ : Alter A → (A → Alter B) → Alter B
  ◌>>=◌ m f g = then_do (m g) f

  abbrev pub ◌>>◌ : Alter A → Alter B → Alter B
  m >> k = m >>= λ _. k

-- `*p`, which panics on a nil pointer.
abbrev pub or_nil : {A : Type 0} → Option A → Alter A
or_nil none g = (panics nil_dereference, g)
or_nil (some a) g = (done a, g)

abbrev pub isolate_at : Ptr → Alter Isolate
isolate_at p g = or_nil (g.isolates p) g

abbrev pub context_at : Ptr → Alter Context
context_at p g = or_nil (g.contexts p) g

abbrev pub value_at : Ptr → Alter Value
value_at p g = or_nil (g.values p) g

abbrev pub module_at : Ptr → Alter Module
module_at p g = or_nil (g.modules p) g

abbrev pub script_at : Ptr → Alter UnboundScript
script_at p g = or_nil (g.scripts p) g

abbrev pub builder_at : Ptr → Alter SnapshotBuilder
builder_at p g = or_nil (g.builders p) g

abbrev pub global_at : Ptr → Alter GlobalValue
global_at p g = or_nil (g.globals p) g

abbrev pub write_module : Ptr → Module → Alter (Unit {0})
write_module p x g = (done tt, record g { modules = update g.modules p (some x) })

abbrev pub write_script : Ptr → UnboundScript → Alter (Unit {0})
write_script p x g = (done tt, record g { scripts = update g.scripts p (some x) })

abbrev pub write_builder : Ptr → SnapshotBuilder → Alter (Unit {0})
write_builder p x g = (done tt, record g { builders = update g.builders p (some x) })

abbrev pub write_global : Ptr → GlobalValue → Alter (Unit {0})
write_global p x g = (done tt, record g { globals = update g.globals p (some x) })

abbrev pub write_isolate : Ptr → Isolate → Alter (Unit {0})
write_isolate p i g = (done tt, record g { isolates = update g.isolates p (some i) })

abbrev pub write_context : Ptr → Context → Alter (Unit {0})
write_context p c g = (done tt, record g { contexts = update g.contexts p (some c) })

abbrev pub write_value : Ptr → Value → Alter (Unit {0})
write_value p v g = (done tt, record g { values = update g.values p (some v) })

-- The address of a new object.
abbrev pub allocate : Alter Ptr
allocate g = (done g.next, record g { next = suc g.next })

-- runtime.LockOSThread and UnlockOSThread
abbrev pub lock_os_thread : Alter (Unit {0})
lock_os_thread g = (done tt, record g { locks = suc g.locks })

abbrev pub unlock_os_thread : Alter (Unit {0})
unlock_os_thread g = (done tt, record g { locks = g.locks - 1 })
