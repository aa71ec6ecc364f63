-- ===== src/Callback.antt =====
-- internal/gv8.cc: ResolveModuleCallback, DynamicImportCallback, HostFunctionCallback and
-- OnPromiseReject, which V8 calls and which call the Go side.
pub mod Args
pub mod Function
pub mod Keeps
pub mod Reject
pub mod Resolve
use gv.Prelude.{
  ℕ, Bool, true, false, Option, none, some, List, [], ◌∷◌, if◌then◌else◌, ◌==◌, length,
}
use gv.Prelude.Int.{ℤ, pos, ◌==ℤ◌}
use gv.Memory.{Ptr, null, load_ctx, load_value}
use gv.Memory.Values.{wrap_borrowed_value, value_release}
use gv.Memory.Objects.{new_module, leave_module, embedder_ctx}
use gv.Run.{Cmd, pure, asks, engine, enter, memory, get, ◌>>=◌, ◌>>◌}
use gv.V8.{V8, Host, Text, Local, Try, returned, threw, RtnError, HostResult}
use gv.Errors.{utf8_value, error_from_message}
use gv.Scope.{load_isolate, handle_of}
use gv.Script.{module_of}
use gv.Isolate.{tell}

module _ {E : Type 0} where
  pub wrap_args : Ptr → Ptr → List Local → Cmd E (List Ptr)
  wrap_args ctx iso [] = pure []
  wrap_args ctx iso (h ∷ args) = do
    p ← memory (wrap_borrowed_value ctx iso h)
    rest ← wrap_args ctx iso args
    pure (p ∷ rest)

  pub release_args : List Ptr → Cmd E (Unit {0})
  release_args [] = pure tt
  release_args (p ∷ argv) = memory (value_release p) >> release_args argv

  -- `p->ptr.Get(iso)` if the pointer is not null.
  pub handle_if : Ptr → Cmd E (Option Local)
  handle_if p = if p == null then pure none else do v ← memory (load_value p); pure v.ptr

  pub hand_value : Ptr → Option Local → Cmd E (Option Local)
  hand_value p none = pure none
  hand_value p (some h) = do memory (value_release p); pure (some h)

  pub found_module : Ptr → Cmd E (Option Local)
  found_module p = if p == null then pure none else do h ← module_of p; pure (some h)

  pub found_promise : Ptr → Cmd E (Option Local)
  found_promise p = if p == null then pure none else do h ← handle_of p; pure (some h)

module _ {E : Type 0} (v : V8 E) where
  -- `iso->ThrowException(p->ptr.Get(iso))`, and an empty result.
  pub throw_value : Ptr → Ptr → Cmd E (Option Local)
  throw_value iso p = do h ← handle_of p; tell (v.throw_exception iso h); pure none

  -- The end of HostFunctionCallback: an error is thrown, a value is returned.
  pub hand_back : Ptr → HostResult → Option Local → Option Local → Cmd E (Option Local)
  unfolding hand_value
  hand_back iso result error_value return_value =
      if result.error_value == null then hand_value result.found return_value else (do
        memory (value_release result.error_value)
        h ← get error_value
        tell (v.throw_exception iso h)
        pure none)

module _ {E : Type 0} (v : V8 E) (host : Host E) where
  -- ResolveModuleCallback; `ref` is on the stack, and its end is written out.
  pub resolve_module_callback : Local → Local → Local → Cmd E (Option Local)
  unfolding throw_value found_module
  resolve_module_callback context specifier referrer = do
    iso ← asks v.current_isolate
    spec ← utf8_value v iso (some specifier)
    ctx ← memory (embedder_ctx context)
    ref ← memory (new_module iso referrer)
    c ← memory (load_ctx ctx)
    resolved ← enter (host.resolve_module c.ref spec ref)
    result ←
        if resolved.error_value == null
        then found_module resolved.found
        else throw_value v iso resolved.error_value
    memory (leave_module ref)
    pure result

  -- DynamicImportCallback
  pub dynamic_import_callback : Local → Local → Local → Cmd E (Option Local)
  unfolding throw_value found_promise
  dynamic_import_callback context resource_name specifier = do
    iso ← asks v.current_isolate
    spec ← utf8_value v iso (some specifier)
    resource ← utf8_value v iso (some resource_name)
    ctx ← memory (embedder_ctx context)
    c ← memory (load_ctx ctx)
    resolved ← enter (host.resolve_dynamic_import c.ref spec resource)
    if resolved.error_value == null
        then found_promise resolved.found
        else throw_value v iso resolved.error_value

  -- HostFunctionCallback; the result is what `GetReturnValue().Set` is given, if anything.
  pub host_function_callback : Ptr → Local → List Local → ℤ → Cmd E (Option Local)
  unfolding hand_back
  host_function_callback iso this args callback_id = do
    context ← asks (v.current_context iso)
    ctx ← memory (embedder_ctx context)
    recv ← memory (wrap_borrowed_value ctx iso this)
    argv ← wrap_args ctx iso args
    c ← memory (load_ctx ctx)
    result ← enter (host.function_callback c.ref callback_id recv (pos (length args)) argv)
    error_value ← handle_if result.error_value
    return_value ← if result.error_value == null then handle_if result.found else pure none
    memory (value_release recv)
    release_args argv
    hand_back v iso result error_value return_value

  -- OnPromiseReject
  pub on_promise_reject : Local → ℤ → Cmd E (Unit {0})
  on_promise_reject value event = do
    iso ← asks v.current_isolate
    s ← memory (load_isolate iso)
    if s.data1 ==ℤ pos 0 then pure tt else do
      ctx ← asks (v.entered_context iso)
      msg ← engine (v.create_message iso value)
      error ← error_from_message v iso ctx (some msg) (some value)
      enter (host.promise_reject s.data1 event error)
