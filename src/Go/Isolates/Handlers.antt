-- ===== src/Go/Isolates/Handlers.antt =====
-- isolate.go: ObservabilitySnapshot, the handlers that are set, noteUnhandledPromiseRejection and
-- gv8PromiseRejectCallback. The handlers are parameters.
use gv.Prelude.{ℕ, ◌+◌, ◌%◌, ◌^◌, Option, none, some, if◌then◌else◌, ◌==◌}
use gv.Prelude.Int.{ℤ}
use gv.Memory.{Ptr, null}
use gv.V8.{RtnError}
use gv.Go.{JsError, GoError, js, plain, context_error, Isolate, Alter, Go, pure, heap, ◌>>=◌, ◌>>◌}
use gv.Go.Objects as Objects
use gv.Go.Objects.{isolate_at, write_isolate, allocate}
use gv.Go.Refs.{get_isolate_ref}
use gv.Go.Results.{new_js_error}

-- What the handler of rejected promises does, by its identity: PromiseRejectInfo is the event and the
-- error, if any.
pub record RejectionUser (E : Type 0) : Type 0 where
  pub unhandled_promise_rejection_handler : ℕ → ℤ → Option JsError → Go E (Unit {0})

-- ObservabilitySnapshot
pub record ObservabilitySnapshot : Type 0 where
  pub unhandled_promise_rejections : ℕ
  pub exceptions : ℕ
  pub module_resolution_failures : ℕ

-- The counter, an atomic.Uint64.
abbrev pub rejection_counted : Isolate → Isolate
rejection_counted i = record i {
  unhandled_promise_rejections = (i.unhandled_promise_rejections + 1) % 2 ^ 64;
}

-- `jsErr, _ = err.(*JSError)`
abbrev pub as_js : Option GoError → Option JsError
as_js none = none
as_js (some (js e)) = some e
as_js (some (plain t)) = none
as_js (some (context_error t)) = none

-- ObservabilitySnapshot
unfoldable pub observability_snapshot : Ptr → Alter ObservabilitySnapshot
observability_snapshot iso =
    if iso == null
    then Objects.pure (record {
      unhandled_promise_rejections = 0;
      exceptions = 0;
      module_resolution_failures = 0;
    })
    else Objects.◌>>=◌ (isolate_at iso) (λ i. Objects.pure (record {
      unhandled_promise_rejections = i.unhandled_promise_rejections;
      exceptions = i.exceptions;
      module_resolution_failures = i.module_resolution_failures;
    }))

abbrev change_isolate : Ptr → (Isolate → Isolate) → Alter (Unit {0})
change_isolate iso f =
    if iso == null
    then Objects.pure tt
    else Objects.◌>>=◌ (isolate_at iso) (λ i. write_isolate iso (f i))

-- SetUnhandledPromiseRejectionHandler, SetExceptionHandler, SetModuleResolutionFailureHandler
unfoldable pub set_unhandled_promise_rejection_handler : Ptr → Option ℕ → Alter (Unit {0})
set_unhandled_promise_rejection_handler iso handler =
    change_isolate iso (λ i. record i { unhandled_promise_rejection_hook = handler })

unfoldable pub set_exception_handler : Ptr → Option ℕ → Alter (Unit {0})
set_exception_handler iso handler = change_isolate iso (λ i. record i { exception_hook = handler })

unfoldable pub set_module_resolution_failure_handler : Ptr → Option ℕ → Alter (Unit {0})
set_module_resolution_failure_handler iso handler =
    change_isolate iso (λ i. record i { module_resolution_failure_hook = handler })

module _ {E : Type 0} (u : RejectionUser E) where
  abbrev call_handler : Option ℕ → ℤ → Option JsError → Go E (Unit {0})
  call_handler none event err = pure tt
  call_handler (some hook) event err = u.unhandled_promise_rejection_handler hook event err

  -- noteUnhandledPromiseRejection
  unfoldable pub note_rejection : Ptr → ℤ → Option JsError → Go E (Unit {0})
  note_rejection iso event err = if iso == null then pure tt else do
    i ← heap (isolate_at iso)
    heap (write_isolate iso (rejection_counted i))
    call_handler i.unhandled_promise_rejection_hook event err

  -- gv8PromiseRejectCallback
  unfoldable pub promise_reject_callback : ℤ → ℤ → RtnError → Go E (Unit {0})
  unfolding note_rejection
  promise_reject_callback isolate_ref event error_info = do
    iso ← heap (get_isolate_ref isolate_ref)
    if iso == null then pure tt else note_rejection iso event (as_js (new_js_error error_info))
