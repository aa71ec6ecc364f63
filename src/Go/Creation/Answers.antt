-- ===== src/Go/Creation/Answers.antt =====
-- What C promises of a call that makes a value, and what a Go function gives back of it.
use gv.Prelude.{
  ℕ, ◌≡◌, ◌≢◌, ◌≤◌, refl, sym, ◌∙◌, ap, List, Option, none, some, arith, ==_refl, Option-cases, inl,
  inr,
}
use gv.Memory.{Ptr, Memory, Gv8Value}
use gv.Memory.Values as MemValues
use gv.Memory.Wrap.{wrap_lem, tracked}
use gv.Memory.Invariant.{IsConsistent}
use gv.Run.{World, Run, ok}
use gv.Results.{RtnValue}
use gv.Go.{Context, Isolate, Native, GoError}
use gv.Go.Values.Made.{owned}
use gv.Go.Lifecycle.Linked.{IsLinked}
use gv.Go.Lifecycle.Linked.Sessions.{some_end}
use gv.Go.Guards.{Fallible}

-- What C promises of a call that makes a value in the C context `p`: it wraps what V8 made, or it gives
-- no value and leaves the wrappers and contexts as they were; the Go side has not changed.
pub data IsWrapped {E : Type 0} (p : Ptr) (w : World (Native E))
    : Run (Native E) RtnValue → Type 0 where
  wrapped :
      (rtn : RtnValue) (iso : Ptr) (h : ℕ) (w' : World (Native E))
      → MemValues.wrap_value p iso h w.mem ≡ some (rtn.value, w'.mem)
      → w'.engine.go ≡ w.engine.go
      → IsWrapped p w (ok rtn w')
  failed :
      (rtn : RtnValue) (w' : World (Native E))
      → rtn.value ≡ 0
      → w'.mem.ctxs ≡ w.mem.ctxs
      → w'.mem.values ≡ w.mem.values
      → IsConsistent w'.mem
      → w'.engine.go ≡ w.engine.go
      → IsWrapped p w (ok rtn w')

-- The new wrapper of wrapValue, in a live context.
pub wrap_value-holds :
    (m m' : Memory) (p iso h q : Ptr)
    → m.ctxs p ≢ none
    → MemValues.wrap_value p iso h m ≡ some (q, m')
    → (a : Gv8Value) × (m'.values m.next ≡ some a)
      × (a.ptr ≡ some h)
      × ((r : Ptr) → r ≢ m.next → m'.values r ≡ m.values r)
wrap_value-holds m m' p iso h q n e = elim (Option-cases (m.ctxs p)) [
  | inl z ↦ absurd (n z)
  | inr (c, z) ↦
      let (_, same) = some_end (wrap_lem m p iso h c z) e in
      (
        tracked c p iso h,
        ap (λ (x : Memory). x.values m.next) (sym same) ∙ ground (arith, ==_refl m.next),
        refl,
        (λ r k. ap (λ (x : Memory). x.values r) (sym same) ∙ ground arith),
      )
]

-- What such a function returns: a new owned value with the new wrapper of C, which holds a handle, or
-- nil, with the error of C if that has a message.
pub data Answer {E : Type 0} (ctx : Ptr) (w w' : World (Native E)) : Fallible → Type 0 where
  made :
      (wrapper : Gv8Value) (h : ℕ)
      → w'.engine.go.values w.engine.go.next ≡ some (owned ctx w.mem.next)
      → w'.mem.values w.mem.next ≡ some wrapper
      → wrapper.ptr ≡ some h
      → Answer ctx w w' (w.engine.go.next, none)
  refused :
      (err : Option GoError)
      → w'.engine.go.values ≡ w.engine.go.values
      → w'.mem.values ≡ w.mem.values
      → Answer ctx w w' (0, err)

-- The two sides are linked, the isolate is in use as it was, the thread is locked as often, the context
-- is still open, no value and no wrapper but the new ones has changed, and no value stands at an address
-- to come; the memory of C is what the call left, which ended.
pub record IsLeft {E : Type 0} (ctx : Ptr) (y : Context) (i : Isolate) (w w' : World (Native E))
    (o : Run (Native E) RtnValue) : Type 0 where
  pub called : (rtn : RtnValue) × (a : World (Native E)) × (o ≡ ok rtn a) × (w'.mem ≡ a.mem)
  pub linked : IsLinked w'.engine.go w'.mem
  pub isolate : Isolate
  pub free : w'.engine.go.isolates y.iso ≡ some isolate
  pub depth : isolate.gate.depth ≡ i.gate.depth
  pub thread : i.gate.depth ≢ 0 → isolate.gate.owner_thread ≡ i.gate.owner_thread
  pub same_ptr : isolate.ptr ≡ i.ptr
  pub same_hook : isolate.exception_hook ≡ i.exception_hook
  pub here : w'.engine.go.thread ≡ w.engine.go.thread
  pub unlocked : w'.engine.go.locks ≡ w.engine.go.locks
  pub table : List Ptr
  pub owner : w'.engine.go.contexts ctx ≡ some (record y { live_values = some table })
  pub beside : (x : Ptr) → x ≢ w.engine.go.next → w'.engine.go.values x ≡ w.engine.go.values x
  pub others : (q : Ptr) → q ≢ w.mem.next → w'.mem.values q ≡ w.mem.values q
  pub fresh :
      ((x : Ptr) → w.engine.go.next ≤ x → w.engine.go.values x ≡ none)
      → (x : Ptr) → w'.engine.go.next ≤ x
      → w'.engine.go.values x ≡ none
