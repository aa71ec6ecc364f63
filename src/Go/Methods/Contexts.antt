-- ===== src/Go/Methods/Contexts.antt =====
-- context.go: Global, NewObject, NewArray, RunScript; value.go: JSONStringify and JSONParse; promise.go: the
-- resolvers.
use gv.Prelude.{ℕ, not, Option, none, some, if◌then◌else◌, length}
use gv.Prelude.Int.{pos}
use gv.Memory.{Ptr, null}
use gv.Run.{Cmd}
use gv.V8.{Text, RtnError}
use gv.Go.{GoError, Native, Go, pure, calls, heap, ◌>>=◌}
use gv.Go.Objects.{context_at, value_at}
use gv.Go.Values.{valid, is_closed, new_value}
use gv.Go.Results.{User, new_js_error, value_result}
use gv.Go.Guards.{
  Fallible, refused, invalid_value, unless_error, entered, entering, if_valid, on_open, valued,
}
use gv.Go.Creation.{c_len}
use gv.Go.Host.{HostCalls, object_of}
use gv.Go.Functions.{ensure_open}
use gv.Go.Methods.{MethodCalls, TextOrError, no_text, go_bytes, data_result}

module _ {E : Type 0} (user : User E) (h : HostCalls (Native E)) (m : MethodCalls (Native E)) where
  -- JSONStringify
  unfoldable pub json_stringify : Ptr → Ptr → Go E TextOrError
  json_stringify ctx p = do
    err ← heap (ensure_open ctx)
    unless_error err (λ e. pure (no_text e))
        (do
          ok ← heap (valid p)
          if not ok then pure (no_text invalid_value) else do
            c ← heap (context_at ctx)
            entering c.iso (λ e. pure (no_text e))
                (do
                  y ← heap (context_at ctx)
                  x ← heap (value_at p)
                  rtn ← calls (m.json_stringify y.ptr x.ptr)
                  data_result (λ r. go_bytes r.bytes r.length) rtn))

  -- JSONParse
  unfoldable pub json_parse : Ptr → Text → Go E Fallible
  json_parse ctx t = valued user ctx (λ p. m.json_parse p t (c_len t))

  -- Global, as the value in the Object
  unfoldable pub global : Ptr → Go E Ptr
  global ctx = do
    shut ← heap (is_closed ctx)
    if shut then pure null else do
      c ← heap (context_at ctx)
      entered c.iso (do p ← calls (m.context_global c.ptr); heap (new_value ctx p))

  abbrev as_object : Fallible → Go E Fallible
  as_object (p, some err) = refused err
  as_object (p, none) = do o ← object_of h p; pure (o, none)

  -- NewObject, NewArray
  unfoldable pub new_object : Ptr → Go E Fallible
  new_object ctx =
      on_open ctx refused
        λ c. do rtn ← calls (m.context_new_object c.ptr); r ← value_result user ctx rtn; as_object r

  unfoldable pub new_array : Ptr → ℕ → Go E Fallible
  new_array ctx length = on_open ctx refused λ c. do
    rtn ← calls (m.context_new_array c.ptr length)
    r ← value_result user ctx rtn
    as_object r

  -- RunScript
  unfoldable pub run_script : Ptr → Text → Text → Go E Fallible
  run_script ctx source origin =
      valued user ctx (λ p. m.context_run_script p source origin (pos 0) (pos 0))

  -- NewPromiseResolver, as the value in the PromiseResolver
  unfoldable pub new_promise_resolver : Ptr → Go E Fallible
  new_promise_resolver ctx = valued user ctx m.context_new_promise_resolver

  -- Promise of a resolver, as the value in the Promise
  unfoldable pub promise : Ptr → Go E Ptr
  promise r =
      if_valid r null
        λ x c. do p ← calls (m.promise_resolver_get_promise x.ptr); heap (new_value x.ctx p)

  abbrev settling : Ptr → Ptr → (Ptr → Ptr → Cmd (Native E) RtnError) → Go E (Option GoError)
  settling r p call = do
    ok ← heap (valid r)
    if not ok then pure (some invalid_value) else do
      known ← heap (valid p)
      if not known then pure (some invalid_value) else do
        x ← heap (value_at r)
        c ← heap (context_at x.ctx)
        entering c.iso (λ err. pure (some err))
            (do y ← heap (value_at p); rtn ← calls (call x.ptr y.ptr); pure (new_js_error rtn))

  -- Resolve and Reject
  unfoldable pub resolve : Ptr → Ptr → Go E (Option GoError)
  resolve r p = settling r p m.promise_resolver_resolve

  unfoldable pub reject : Ptr → Ptr → Go E (Option GoError)
  reject r p = settling r p m.promise_resolver_reject
