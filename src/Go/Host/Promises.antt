-- ===== src/Go/Host/Promises.antt =====
-- What gv8FunctionCallback and a host function expect of each other.
use gv.Prelude.{ℕ, ◌≤◌, ◌≡◌, ◌≢◌, true, false, none, some, List, ◌∷◌, ◌⊎◌}
use gv.Memory.{Ptr, Gv8Value}
use gv.Run.{World, Run, ok}
use gv.Go.{Context, Isolate, Value, Native, Attempt, done}
use gv.Go.Access.{Gate}
use gv.Go.Enter.Lent.{Admits}
use gv.Go.Values.{has}
use gv.Go.Lifecycle.Release.{owned}
use gv.Go.Lifecycle.Linked.{IsLinked}
use gv.Go.Guards.{Fallible}
use gv.Go.Host.{HostCalls, HostUser, FunctionCallbackInfo}
use gv.Go.Host.Lent.{AreLent}
use gv.Go.Host.Handoff.{IsRetained, IsHandedOff}

-- The world that the host function is called in: the lent values are new, one for each wrapper, which it
-- borrows and does not own, all else is as it was, and the thread may enter the isolate.
pub record IsLent {E : Type 0} (ctx : Ptr) (y : Context) (pointers : List Ptr)
    (w : World (Native E)) (lent : List Ptr) (info : FunctionCallbackInfo) (w1 : World (Native E))
    : Type 0 where
  pub context : info.ctx ≡ ctx
  pub this : Ptr
  pub all : lent ≡ this ∷ info.args
  pub borrowed : AreLent ctx pointers lent w1.engine.go.values
  pub object : (info.this ≡ this) ⊎ (info.this ≡ 0)
  pub others : (u : Ptr) → has u lent ≡ false → w1.engine.go.values u ≡ w.engine.go.values u
  pub fresh : (u : Ptr) → has u lent ≡ true → w.engine.go.next ≤ u
  pub contexts : w1.engine.go.contexts ≡ w.engine.go.contexts
  pub mem : w1.mem ≡ w.mem
  pub linked : IsLinked w1.engine.go w1.mem
  pub entry : (j : Isolate) × (gate : Gate) × Admits w1.engine.go y.iso j gate

-- A host function that returned an owned value of an open context, of an isolate that the thread may
-- enter, and under which no Go value has gone; the wrapper of the value holds a handle, and C can
-- retain it.
pub record Returns {E : Type 0} (calls : HostCalls (Native E)) (w1 : World (Native E))
    (o : Run (Native E) (Attempt Fallible)) : Type 0 where
  pub value : Ptr
  pub ptr : Ptr
  pub home : Ptr
  pub owner : Context
  pub isolate : Isolate
  pub gate : Gate
  pub wrapper : Gv8Value
  pub handle : ℕ
  pub after : World (Native E)
  pub ends : o ≡ ok (done (value, none)) after
  pub linked : IsLinked after.engine.go after.mem
  pub here : after.engine.go.values value ≡ some (owned ptr home)
  pub ptr_ne_null : ptr ≢ 0
  pub home_ne_null : home ≢ 0
  pub at_home : after.engine.go.contexts home ≡ some owner
  pub admits : Admits after.engine.go owner.iso isolate gate
  pub live : after.mem.values ptr ≡ some wrapper
  pub holds : wrapper.ptr ≡ some handle
  pub retained : IsRetained calls ptr wrapper handle after
  pub stays : (u : Ptr) → w1.engine.go.values u ≢ none → after.engine.go.values u ≢ none

-- The host function returns such a value, whatever it is lent.
pub record Respects {E : Type 0} (calls : HostCalls (Native E)) (hosts : HostUser E) (fn ctx : Ptr)
    (y : Context) (pointers : List Ptr) (w : World (Native E)) : Type 0 where
  pub answer :
      (lent : List Ptr) (info : FunctionCallbackInfo) (w1 : World (Native E))
      → IsLent ctx y pointers w lent info w1
      → Returns calls w1 (hosts.host_function fn info w1)

-- What the callback leaves: the host function was called with the borrowed values, its value was
-- handed off, and every value that was lent is nil.
pub record IsReturned {E : Type 0} (calls : HostCalls (Native E)) (hosts : HostUser E)
    (fn ctx : Ptr) (y : Context) (pointers : List Ptr) (q : Ptr) (w w' : World (Native E))
    : Type 0 where
  pub lent : List Ptr
  pub info : FunctionCallbackInfo
  pub before : World (Native E)
  pub is_lent : IsLent ctx y pointers w lent info before
  pub returns : Returns calls before (hosts.host_function fn info before)
  pub handed_off : IsHandedOff returns.value q returns.wrapper returns.after w'
  pub nil : (u : Ptr) (x : Value) → has u lent ≡ true → w'.engine.go.values u ≡ some x → x.ptr ≡ 0
