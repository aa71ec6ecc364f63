-- ===== src/Go/Isolates.antt =====
-- isolate.go: NewIsolateWithOptions, Dispose, the control of execution and memory; cgo.go:
-- initialize. The functions of gv8.h are parameters.
pub mod Disposed
pub mod Handlers
use gv.Prelude.{
  ℕ, ◌+◌, ◌%◌, ◌^◌, Bool, true, false, ◌&&◌, ◌||◌, Option, none, some, List, [], ◌∷◌, length,
  if◌then◌else◌, ◌==◌,
}
use gv.Prelude.Int.{ℤ, int_of}
use gv.Prelude.Bytes.{bytes}
use gv.Memory.{Ptr, null}
use gv.Run.{Cmd}
use gv.V8.{V8, Text, RtnError, HeapStatistics}
use gv.Isolate as CIsolate
use gv.Control as Control
use gv.Go.{
  JsError, GoError, js, plain, context_error, Isolate, Heap, done, Alter, Native, Go, pure, panic,
  calls, heap, ◌>>=◌, ◌>>◌,
}
use gv.Go.Access.{open_gate}
use gv.Go.Objects as Objects
use gv.Go.Objects.{isolate_at, write_isolate, allocate}
use gv.Go.Refs.{next_isolate_ref, set_isolate_ref, delete_isolate_ref, get_isolate_ref}
use gv.Go.Results.{new_js_error}
use gv.Go.Guards.{entered}

-- IsolateOptions; a heap size of 0 is none.
pub record IsolateOptions : Type 0 where
  pub initial_heap_size_bytes : ℕ
  pub max_heap_size_bytes : ℕ
  pub snapshot : Text

pub record IsolateCalls (N : Type 0) : Type 0 where
  pub init : Cmd N (Unit {0})
  pub new_isolate : Cmd N Ptr
  pub new_isolate_with_heap_limit : ℕ → ℕ → Cmd N Ptr
  pub new_isolate_with_snapshot : Text → ℤ → ℕ → ℕ → Cmd N Ptr
  pub isolate_set_observer_ref : Ptr → ℤ → Cmd N (Unit {0})
  pub isolate_dispose : Ptr → Cmd N (Unit {0})
  pub isolate_terminate_execution : Ptr → Cmd N (Unit {0})
  pub isolate_cancel_terminate_execution : Ptr → Cmd N (Unit {0})
  pub isolate_low_memory_notification : Ptr → Cmd N (Unit {0})
  pub isolate_memory_pressure_notification : Ptr → ℤ → Cmd N (Unit {0})
  pub isolate_get_heap_statistics : Ptr → Cmd N HeapStatistics

-- The object that NewIsolateWithOptions makes.
abbrev pub fresh_isolate : ℕ → Ptr → Isolate
fresh_isolate ref p = record {
  ptr = p;
  ref = ref;
  gate = open_gate;
  terminating = false;
  unhandled_promise_rejection_hook = none;
  exception_hook = none;
  module_resolution_failure_hook = none;
  unhandled_promise_rejections = 0;
  exceptions = 0;
  module_resolution_failures = 0;
}

abbrev new_object : Isolate → Alter Ptr
new_object i = Objects.◌>>=◌ allocate (λ iso. Objects.◌>>◌ (write_isolate iso i) (Objects.pure iso))

-- `i == nil || i.ptr == nil`
unfoldable pub is_disposed : Ptr → Alter Bool
is_disposed iso =
    if iso == null
    then Objects.pure true
    else Objects.◌>>=◌ (isolate_at iso) (λ i. Objects.pure (i.ptr == null))

module _ {E : Type 0} (v : IsolateCalls (Native E)) where
  abbrev init_once : Bool → Go E (Unit {0})
  init_once true = pure tt
  init_once false = do calls v.init; heap (λ g. (done tt, record g { initialized = true }))

  -- initialize
  unfoldable pub initialize : Go E (Unit {0})
  initialize = do once ← heap (λ g. (done g.initialized, g)); init_once once

  -- The isolate of C, by the options.
  abbrev make_isolate : IsolateOptions → Go E Ptr
  make_isolate o = elim o.snapshot [
    | [] ↦
        if (o.initial_heap_size_bytes == 0) && (o.max_heap_size_bytes == 0)
        then calls v.new_isolate
        else calls (v.new_isolate_with_heap_limit o.initial_heap_size_bytes o.max_heap_size_bytes)
    | b ∷ t ↦ do
      p ← calls (
          v.new_isolate_with_snapshot (b ∷ t) (int_of (length (b ∷ t))) o.initial_heap_size_bytes
            o.max_heap_size_bytes)
      if p == null then panic (plain (bytes "gv8: invalid snapshot data")) else pure p
  ]

  -- NewIsolateWithOptions
  unfoldable pub new_isolate_with_options : IsolateOptions → Go E Ptr
  unfolding initialize
  new_isolate_with_options o = do
    initialize
    ref ← heap next_isolate_ref
    p ← make_isolate o
    iso ← heap (new_object (fresh_isolate ref p))
    heap (set_isolate_ref iso)
    calls (v.isolate_set_observer_ref p (int_of ref))
    pure iso

  -- NewIsolate
  pub new_isolate : Go E Ptr
  new_isolate =
      new_isolate_with_options
        (record { initial_heap_size_bytes = 0; max_heap_size_bytes = 0; snapshot = [] })

  -- Dispose
  unfoldable pub dispose : Ptr → Go E (Unit {0})
  dispose iso = do
    gone ← heap (is_disposed iso)
    if gone then pure tt else do
      i ← heap (isolate_at iso)
      entered iso (do
        heap (delete_isolate_ref i.ref)
        calls (v.isolate_dispose i.ptr)
        y ← heap (isolate_at iso)
        heap (write_isolate iso (record y { ptr = null })))

  -- A call of C that needs no entry.
  abbrev if_made : {A : Type 0} → Ptr → A → (Isolate → Go E A) → Go E A
  if_made iso otherwise body = do
    gone ← heap (is_disposed iso)
    if gone then pure otherwise else do i ← heap (isolate_at iso); body i

  -- TerminateExecution, CancelTerminateExecution
  unfoldable pub terminate_execution : Ptr → Go E (Unit {0})
  terminate_execution iso = if_made iso tt λ i. do
    heap (write_isolate iso (record i { terminating = true }))
    calls (v.isolate_terminate_execution i.ptr)

  unfoldable pub cancel_terminate_execution : Ptr → Go E (Unit {0})
  cancel_terminate_execution iso = if_made iso tt λ i. do
    heap (write_isolate iso (record i { terminating = false }))
    calls (v.isolate_cancel_terminate_execution i.ptr)

  -- LowMemoryNotification, MemoryPressureNotification and HeapStatistics
  unfoldable pub low_memory_notification : Ptr → Go E (Unit {0})
  low_memory_notification iso = if_made iso tt λ i. calls (v.isolate_low_memory_notification i.ptr)

  unfoldable pub memory_pressure_notification : Ptr → ℤ → Go E (Unit {0})
  memory_pressure_notification iso level =
      if_made iso tt λ i. calls (v.isolate_memory_pressure_notification i.ptr level)

  unfoldable pub heap_statistics : Ptr → Go E HeapStatistics
  heap_statistics iso =
      if_made iso Control.no_statistics λ i. calls (v.isolate_get_heap_statistics i.ptr)
