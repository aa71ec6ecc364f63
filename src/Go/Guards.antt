-- ===== src/Go/Guards.antt =====
-- How the functions of the Go side stand around a call of C: they check the context or the value, enter
-- the isolate, call, and leave. The shapes that NewStringValue (primitives.go), Get (value.go),
-- IsObject (value.go) and their kin are written in.
pub mod Valid
use gv.Prelude.{ℕ, Bool, true, false, not, Option, none, some, [], if◌then◌else◌}
use gv.Prelude.Bytes.{bytes}
use gv.Memory.{Ptr, null}
use gv.Run.{Cmd}
use gv.V8.{Text}
use gv.Results.{RtnValue}
use gv.Go.{
  GoError, js, plain, context_error, Value, Context, Native, Go, pure, calls, heap, deferring,
  ◌>>=◌, ◌>>◌,
}
use gv.Go.Objects.{context_at, value_at}
use gv.Go.Enter.{enter, must_enter, leave}
use gv.Go.Values.{valid}
use gv.Go.Results.{User, value_result, js_error_text}
use gv.Go.Functions.{ensure_open}

-- invalidValueError, invalidModuleError, invalidSnapshotBuilderError
abbrev pub js_message : Text → GoError
js_message t = js (record { message = t; location = []; stack = [] })

abbrev pub invalid_value : GoError
invalid_value = js_message (bytes "gv8: value is no longer valid")

abbrev pub invalid_module : GoError
invalid_module = js_message (bytes "gv8: module is no longer valid")

-- `err.Error()`; the text of another package's error is taken to be the one that it was made of.
abbrev pub error_text : GoError → Text
error_text (js e) = js_error_text e
error_text (plain t) = t
error_text (context_error t) = t

-- A result with an error, which is nil where there is an error.
abbrev pub Fallible : Type 0
Fallible = Ptr × Option GoError

abbrev pub refused : {E : Type 0} → GoError → Go E Fallible
refused err = pure (null, some err)

module _ {E A : Type 0} where
  -- `if err != nil { return fail }`
  abbrev pub unless_error : Option GoError → (GoError → Go E A) → Go E A → Go E A
  unless_error none fail body = body
  unless_error (some err) fail body = fail err

  -- `release, err := iso.enter(); if err != nil { return fail }; defer release()`
  unfoldable pub entering : Ptr → (GoError → Go E A) → Go E A → Go E A
  entering iso fail body = do
    err ← heap (enter iso)
    unless_error err fail (deferring (heap (leave iso)) body)

  -- `release := iso.mustEnter(); defer release()`
  unfoldable pub entered : Ptr → Go E A → Go E A
  entered iso body = do heap (must_enter iso); deferring (heap (leave iso)) body

  -- `if !v.valid() { return otherwise }`, and what follows in the value's isolate.
  unfoldable pub if_valid : Ptr → A → (Value → Context → Go E A) → Go E A
  if_valid p otherwise body = do
    ok ← heap (valid p)
    if not ok
        then pure otherwise
        else do x ← heap (value_at p); c ← heap (context_at x.ctx); entered c.iso (body x c)

  -- `if !v.valid() { return fail }; release, err := v.ctx.iso.enter(); ...; defer release()`
  unfoldable pub on_valid : Ptr → (GoError → Go E A) → (Value → Go E A) → Go E A
  unfolding entering
  on_valid p fail body = do
    ok ← heap (valid p)
    if not ok
        then fail invalid_value
        else do x ← heap (value_at p); c ← heap (context_at x.ctx); entering c.iso fail (body x)

  -- `if err := ctx.ensureOpen(); err != nil { return fail }`, and the same of the context's isolate
  unfoldable pub on_open : Ptr → (GoError → Go E A) → (Context → Go E A) → Go E A
  unfolding entering
  on_open ctx fail body = do
    err ← heap (ensure_open ctx)
    unless_error err fail
        (do c ← heap (context_at ctx); entering c.iso fail (do y ← heap (context_at ctx); body y))

module _ {E : Type 0} (user : User E) where
  -- `rtn := call(ctx.ptr); return valueResult(ctx, rtn)`
  abbrev pub called : Ptr → (Ptr → Cmd (Native E) RtnValue) → Go E Fallible
  called ctx call = do
    c ← heap (context_at ctx)
    rtn ← calls (call c.ptr)
    value_result user ctx rtn

  -- A function that checks the context, enters its isolate, and returns the value of one call.
  unfoldable pub valued : Ptr → (Ptr → Cmd (Native E) RtnValue) → Go E Fallible
  unfolding entering
  valued ctx call = do
    err ← heap (ensure_open ctx)
    unless_error err refused
        (do c ← heap (context_at ctx); entering c.iso refused (called ctx call))

  -- The same for an operation on a value, from `if !o.valid()` on.
  unfoldable pub valued_of : Ptr → (Ptr → Cmd (Native E) RtnValue) → Go E Fallible
  unfolding on_valid
  valued_of p call =
      on_valid p refused (λ x. do rtn ← calls (call x.ptr); value_result user x.ctx rtn)
