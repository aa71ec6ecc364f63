-- ===== src/Go/Results.antt =====
-- result.go: newJSError, observeJSError, valueResult; isolate.go: noteException; errors.go: Error.
-- The texts of C are copied; that they are freed is not modelled.
pub mod Errors
use gv.Prelude.{ℕ, ◌+◌, ◌%◌, ◌^◌, Option, none, some, List, [], ◌∷◌, ◌++◌, if◌then◌else◌, ◌==◌}
use gv.Memory.{Ptr, null}
use gv.V8.{Text, CString, RtnError}
use gv.Results.{RtnValue}
use gv.Go.{
  JsError, GoError, js, plain, context_error, Isolate, Context, Heap, done, Alter, Native, Go, pure,
  heap, ◌>>=◌, ◌>>◌,
}
use gv.Go.Objects as Objects
use gv.Go.Objects.{isolate_at, context_at, write_isolate}
use gv.Go.Values.{new_value}

-- What the handlers of the user do, by their identities.
pub record User (E : Type 0) : Type 0 where
  pub exception_handler : ℕ → JsError → Go E (Unit {0})

abbrev pub or_empty : CString → Text
or_empty none = []
or_empty (some t) = t

-- newJSError
unfoldable pub new_js_error : RtnError → Option GoError
new_js_error rtn = elim rtn.msg [
  | none ↦ none
  | some msg ↦
      some (
        js (record { message = msg; location = or_empty rtn.location; stack = or_empty rtn.stack }))
]

-- Error of a JSError: `message (location)`
pub js_error_text : JsError → Text
js_error_text e = elim e.location [
  | [] ↦ e.message
  | c ∷ l ↦ e.message ++ b' ' ∷ b'(' ∷ (c ∷ l) ++ b')' ∷ []
]

-- The counter of noteException, an atomic.Uint64.
abbrev pub counted : Isolate → Isolate
counted i = record i { exceptions = (i.exceptions + 1) % 2 ^ 64 }

module _ {E : Type 0} (user : User E) where
  abbrev pub call_handler : Option ℕ → JsError → Go E (Unit {0})
  call_handler none err = pure tt
  call_handler (some hook) err = user.exception_handler hook err

  -- noteException
  unfoldable pub note_exception : Ptr → JsError → Go E (Unit {0})
  unfolding ◌>>=◌
  note_exception iso err = if iso == null then pure tt else do
    i ← heap (isolate_at iso)
    heap (write_isolate iso (counted i))
    call_handler i.exception_hook err

  -- observeJSError, without the error that it passes on
  unfoldable pub observe_js_error : Ptr → Option GoError → Go E (Unit {0})
  unfolding note_exception
  observe_js_error iso none = pure tt
  observe_js_error iso (some (js err)) = note_exception iso err
  observe_js_error iso (some (plain t)) = pure tt
  observe_js_error iso (some (context_error t)) = pure tt

  abbrev observe_for : Ptr → Option GoError → Go E (Unit {0})
  observe_for ctx err =
      if ctx == null then pure tt else do c ← heap (context_at ctx); observe_js_error c.iso err

  -- valueResult
  unfoldable pub value_result : Ptr → RtnValue → Go E (Ptr × Option GoError)
  unfolding ◌>>=◌
  value_result ctx rtn =
      if rtn.value == null
      then (do observe_for ctx (new_js_error rtn.error); pure (null, new_js_error rtn.error))
      else (do v ← heap (new_value ctx rtn.value); pure (v, none))
