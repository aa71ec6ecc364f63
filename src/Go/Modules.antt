-- ===== src/Go/Modules.antt =====
-- module.go: compileModule, Release, Instantiate, Evaluate, Namespace, Status, ScriptID, and the callbacks
-- for module resolution; isolate.go: noteModuleResolutionFailure; context.go: the checks of
-- bindModuleResolver. The functions of gv8.h, the resolvers and the handlers are parameters.
pub mod Callbacks
pub mod Inherited
use gv.Prelude.{
  ℕ, ◌+◌, ◌%◌, ◌^◌, Bool, true, false, ◌||◌, Option, none, some, List, [], ◌∷◌, ◌++◌, if◌then◌else◌,
  ◌==◌,
}
use gv.Prelude.Int.{ℤ, pos}
use gv.Prelude.Bytes.{bytes}
use gv.Memory.{Ptr, null}
use gv.Run.{Cmd}
use gv.V8.{V8, Text, CString, RtnError}
use gv.Results.{RtnValue, RtnPtr}
use gv.Script as Script
use gv.Go.{GoError, Isolate, Module, Alter, Native, Go, pure, calls, heap, deferring, ◌>>=◌, ◌>>◌}
use gv.Go.Objects as Objects
use gv.Go.Objects.{isolate_at, context_at, module_at, write_module, write_isolate, allocate}
use gv.Go.Values.{is_closed, new_value}
use gv.Go.Resolvers.{bind_module_resolver}
use gv.Go.Results.{User, new_js_error, observe_js_error, value_result}
use gv.Go.Functions.{ensure_open}
use gv.Go.Guards.{Fallible, refused, invalid_module, unless_error, entered, entering}

-- ScriptOrigin
pub record ScriptOrigin : Type 0 where
  pub resource_name : Text
  pub line_offset : ℤ
  pub column_offset : ℤ

pub record ModuleCalls (N : Type 0) : Type 0 where
  pub compile_module : Ptr → Text → Text → ℤ → ℤ → Cmd N RtnPtr
  pub module_release : Ptr → Cmd N (Unit {0})
  pub module_instantiate : Ptr → Ptr → Cmd N RtnError
  pub module_evaluate : Ptr → Ptr → Cmd N RtnValue
  pub module_get_namespace : Ptr → Ptr → Cmd N Ptr
  pub module_get_status : Ptr → Cmd N ℤ
  pub module_get_script_id : Ptr → Cmd N ℤ

pub module_calls : {N : Type 0} → V8 N → ModuleCalls N
module_calls v = record {
  compile_module = Script.compile_module v;
  module_release = Script.module_release;
  module_instantiate = Script.module_instantiate v;
  module_evaluate = Script.module_evaluate v;
  module_get_namespace = Script.module_get_namespace v;
  module_get_status = Script.module_get_status v;
  module_get_script_id = Script.module_get_script_id v;
}

abbrev pub new_module : Module → Alter Ptr
new_module x = Objects.◌>>=◌ allocate (λ p. Objects.◌>>◌ (write_module p x) (Objects.pure p))

-- `m == nil || m.ptr == nil`
unfoldable pub is_invalid : Ptr → Alter Bool
is_invalid m =
    if m == null
    then Objects.pure true
    else Objects.◌>>=◌ (module_at m) (λ x. Objects.pure (x.ptr == null))

module _ {E : Type 0} (user : User E) (v : ModuleCalls (Native E)) where
  -- compileModule
  unfoldable pub compile_module : Ptr → Text → ScriptOrigin → Go E Fallible
  compile_module iso source origin = entering iso refused (do
    i ← heap (isolate_at iso)
    rtn ←
        calls (
          v.compile_module i.ptr source origin.resource_name origin.line_offset
            origin.column_offset)
    if rtn.ptr == null
        then (do
          observe_js_error user iso (new_js_error rtn.error)
          pure (null, new_js_error rtn.error))
        else (do
          p ← heap (
              new_module
                (record { ptr = rtn.ptr; iso = iso; resource_name = origin.resource_name }))
          pure (p, none)))

  -- Release
  unfoldable pub release_module : Ptr → Go E (Unit {0})
  release_module m = do
    bad ← heap (is_invalid m)
    if bad then pure tt else do
      x ← heap (module_at m)
      entered x.iso
          (do calls (v.module_release x.ptr); heap (write_module m (record x { ptr = null })))

  -- ScriptID and Status
  unfoldable pub script_id : Ptr → Go E ℤ
  script_id m = do
    bad ← heap (is_invalid m)
    if bad
        then pure (pos 0)
        else do x ← heap (module_at m); entered x.iso (calls (v.module_get_script_id x.ptr))

  unfoldable pub status : Ptr → Go E ℤ
  status m = do
    bad ← heap (is_invalid m)
    if bad
        then pure (pos 0)
        else do x ← heap (module_at m); entered x.iso (calls (v.module_get_status x.ptr))

  -- bindModuleResolver
  unfoldable pub bind_resolver : Ptr → Ptr → Option ℕ → Go E (Unit {0})
  bind_resolver ctx m none = pure tt
  bind_resolver ctx m (some r) = if (ctx == null) || (m == null) then pure tt else do
    id ← script_id m
    x ← heap (module_at m)
    heap (bind_module_resolver ctx id x.resource_name r)

  -- Instantiate
  unfoldable pub instantiate : Ptr → Ptr → Option ℕ → Go E (Option GoError)
  instantiate m ctx resolver = do
    bad ← heap (is_invalid m)
    if bad then pure (some invalid_module) else do
      err ← heap (ensure_open ctx)
      unless_error err (λ e. pure (some e))
          (do
            c ← heap (context_at ctx)
            entering c.iso (λ e. pure (some e))
                (do
                  bind_resolver ctx m resolver
                  y ← heap (context_at ctx)
                  x ← heap (module_at m)
                  rtn ← calls (v.module_instantiate y.ptr x.ptr)
                  observe_js_error user y.iso (new_js_error rtn)
                  pure (new_js_error rtn)))

  -- Evaluate
  unfoldable pub evaluate : Ptr → Ptr → Go E Fallible
  evaluate m ctx = do
    bad ← heap (is_invalid m)
    if bad then refused invalid_module else do
      err ← heap (ensure_open ctx)
      unless_error err refused (do
        c ← heap (context_at ctx)
        entering c.iso refused (do
          y ← heap (context_at ctx)
          x ← heap (module_at m)
          rtn ← calls (v.module_evaluate y.ptr x.ptr)
          value_result user ctx rtn))

  -- Namespace, as the value in the Object
  unfoldable pub namespace : Ptr → Ptr → Go E Ptr
  namespace m ctx = do
    bad ← heap (is_invalid m)
    if bad then pure null else do
      shut ← heap (is_closed ctx)
      if shut then pure null else do
        c ← heap (context_at ctx)
        x ← heap (module_at m)
        entered c.iso (do p ← calls (v.module_get_namespace c.ptr x.ptr); heap (new_value ctx p))
