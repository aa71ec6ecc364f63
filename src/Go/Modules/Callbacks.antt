-- ===== src/Go/Modules/Callbacks.antt =====
-- module.go: gv8ResolveModuleCallback and gv8ResolveDynamicImportCallback; isolate.go:
-- noteModuleResolutionFailure.
use gv.Prelude.{ℕ, ◌+◌, ◌%◌, ◌^◌, Option, none, some, [], ◌++◌, if◌then◌else◌, ◌==◌}
use gv.Prelude.Int.{ℤ}
use gv.Prelude.Bytes.{bytes}
use gv.Memory.{Ptr, null}
use gv.V8.{Text, CString, HostResult}
use gv.Go.{GoError, Isolate, Native, Go, pure, heap, ◌>>=◌, ◌>>◌}
use gv.Go.Objects.{isolate_at, context_at, value_at, module_at, write_isolate}
use gv.Go.Refs.{get_context}
use gv.Go.Resolvers.{module_resolver_for_script, module_resolver_for_resource}
use gv.Go.Results.{User, or_empty}
use gv.Go.Guards.{Fallible, js_message, error_text}
use gv.Go.Creation.{CreationCalls, new_error_value}
use gv.Go.Modules.{ModuleCalls, new_module, script_id, bind_resolver}
use gv.Go.Host.{no_result, found_value, failed_with}

-- What the user's resolvers and handlers do, by their identities; a resolver without dynamic imports has
-- none.
pub record ModuleUser (E : Type 0) : Type 0 where
  pub resolve_module : ℕ → Ptr → Text → Ptr → Go E Fallible
  pub resolve_dynamic_import : ℕ → Option (Ptr → Text → Text → Go E Fallible)
  pub module_failure_handler : ℕ → Text → Text → GoError → Go E (Unit {0})

-- The counter, an atomic.Uint64.
abbrev pub failure_counted : Isolate → Isolate
failure_counted i = record i {
  module_resolution_failures = (i.module_resolution_failures + 1) % 2 ^ 64;
}

abbrev pub no_resolver : Text
no_resolver = bytes "gv8: no module resolver configured"

abbrev pub no_import_resolver : Text
no_import_resolver = bytes "gv8: no dynamic import resolver configured"

abbrev pub no_imports : Text
no_imports = bytes "gv8: module resolver does not support dynamic imports"

module _ {E : Type 0} (u : ModuleUser E) where
  abbrev call_handler : Option ℕ → Text → Text → GoError → Go E (Unit {0})
  call_handler none specifier referrer err = pure tt
  call_handler (some hook) specifier referrer err =
      u.module_failure_handler hook specifier referrer err

  -- noteModuleResolutionFailure
  unfoldable pub note_failure : Ptr → Text → Text → GoError → Go E (Unit {0})
  unfolding ◌>>=◌
  note_failure iso specifier referrer err = if iso == null then pure tt else do
    i ← heap (isolate_at iso)
    heap (write_isolate iso (failure_counted i))
    call_handler i.module_resolution_failure_hook specifier referrer err

module _ {E : Type 0} (user : User E) (u : ModuleUser E) (n : CreationCalls (Native E))
    (v : ModuleCalls (Native E)) where
  -- `msg, _ := newErrorValue(ctx, text); if msg != nil { ... }`
  abbrev pub error_if_made : Ptr → Text → Go E HostResult
  error_if_made ctx text = do
    (p, err) ← new_error_value user n ctx text
    if p == null then pure no_result else do x ← heap (value_at p); pure (failed_with x.ptr)

  abbrev made_error : Fallible → Go E HostResult
  made_error (p, some msgErr) = pure no_result
  made_error (p, none) = do x ← heap (value_at p); pure (failed_with x.ptr)

  -- `msg, msgErr := newErrorValue(ctx, text); if msgErr != nil { ... }`
  abbrev pub error_made : Ptr → Text → Go E HostResult
  error_made ctx text = do r ← new_error_value user n ctx text; made_error r

  -- There is no resolver for the request, or it cannot do what is asked.
  abbrev pub unresolved : Ptr → Ptr → Text → Text → Text → Go E HostResult
  unresolved ctx iso specifier referrer text = do
    note_failure u iso specifier referrer (js_message text)
    error_if_made ctx text

  -- The resolver failed.
  abbrev pub unresolvable : Ptr → Ptr → Text → Text → Text → GoError → Go E HostResult
  unresolvable ctx iso specifier referrer prefix err = do
    note_failure u iso specifier referrer err
    error_made ctx (prefix ++ error_text err)

  abbrev pub resolved : Ptr → Ptr → Text → Text → ℕ → Fallible → Go E HostResult
  resolved ctx iso specifier referrer r (m, none) = do
    bind_resolver user v ctx m (some r)
    x ← heap (module_at m)
    pure (found_value x.ptr)
  resolved ctx iso specifier referrer r (m, some err) =
      unresolvable ctx iso specifier referrer (bytes "cannot resolve module: ") err

  abbrev resolve_with : Ptr → Ptr → Text → Ptr → Option ℕ → Go E HostResult
  resolve_with ctx iso specifier referrer none = do
    x ← heap (module_at referrer)
    unresolved ctx iso specifier x.resource_name no_resolver
  resolve_with ctx iso specifier referrer (some r) = do
    answer ← u.resolve_module r ctx specifier referrer
    x ← heap (module_at referrer)
    resolved ctx iso specifier x.resource_name r answer

  -- gv8ResolveModuleCallback
  unfoldable pub resolve_module_callback : ℤ → CString → Ptr → Go E HostResult
  resolve_module_callback ctx_ref spec referrer = do
    ctx ← heap (get_context ctx_ref)
    if ctx == null then pure no_result else do
      c ← heap (context_at ctx)
      m ← heap (new_module (record { ptr = referrer; iso = c.iso; resource_name = [] }))
      id ← script_id user v m
      resolver ← heap (module_resolver_for_script ctx id)
      resolve_with ctx c.iso (or_empty spec) m resolver

  abbrev nil_promise : GoError
  nil_promise = js_message (bytes "dynamic import resolver returned nil promise")

  abbrev not_imported : Ptr → Ptr → Text → Text → GoError → Go E HostResult
  not_imported ctx iso specifier resource err =
      unresolvable ctx iso specifier resource (bytes "cannot resolve dynamic import: ") err

  abbrev imported : Ptr → Ptr → Text → Text → Fallible → Go E HostResult
  imported ctx iso specifier resource (p, some err) = not_imported ctx iso specifier resource err
  imported ctx iso specifier resource (p, none) =
      if p == null
      then not_imported ctx iso specifier resource nil_promise
      else do x ← heap (value_at p); pure (found_value x.ptr)

  abbrev import_by :
      Ptr → Ptr → Text → Text → Option (Ptr → Text → Text → Go E Fallible) → Go E HostResult
  import_by ctx iso specifier resource none = unresolved ctx iso specifier resource no_imports
  import_by ctx iso specifier resource (some resolve) = do
    answer ← resolve ctx specifier resource
    imported ctx iso specifier resource answer

  abbrev import_with : Ptr → Ptr → Text → Text → Option ℕ → Go E HostResult
  import_with ctx iso specifier resource none =
      unresolved ctx iso specifier resource no_import_resolver
  import_with ctx iso specifier resource (some r) =
      import_by ctx iso specifier resource (u.resolve_dynamic_import r)

  -- gv8ResolveDynamicImportCallback; a Promise is the value in it.
  unfoldable pub resolve_dynamic_import_callback : ℤ → CString → CString → Go E HostResult
  resolve_dynamic_import_callback ctx_ref spec resource_name = do
    ctx ← heap (get_context ctx_ref)
    if ctx == null then pure no_result else do
      c ← heap (context_at ctx)
      resolver ← heap (module_resolver_for_resource ctx (or_empty resource_name))
      import_with ctx c.iso (or_empty spec) (or_empty resource_name) resolver
