-- ===== src/Script.antt =====
-- internal/gv8.cc: GV8ContextRunScript, and GV8CompileUnboundScript to GV8ModuleGetScriptID.
pub mod Keeps
use gv.Prelude.{ℕ, Bool, true, false, Option, none, some, if◌then◌else◌, ◌==◌}
use gv.Prelude.Int.{ℤ}
use gv.Memory.{Ptr, null}
use gv.Memory.Values.{wrap_value}
use gv.Memory.Objects.{new_script, delete_script, new_module, delete_module}
use gv.Run.{Cmd, pure, asks, engine, enter, memory, get, ◌>>=◌, ◌>>◌}
use gv.V8.{V8, Text, Local, Try, returned, threw, RtnError}
use gv.Errors.{empty_error, exception_error, string_checked, make_origin}
use gv.Scope.{Scope, iso_scope, ctx_scope, load_script, load_module}
use gv.Results.{RtnValue, rtn_value, RtnPtr, rtn_ptr, rtn_ptr_error, wrap_result, error_result}
use gv.Isolate.{internal_compile_context}

-- `module_ptr->iso` and ISO_SCOPE, and `module_ptr->ptr.Get(iso)`.
pub module_of : {E : Type 0} → Ptr → Cmd E Local
module_of module_ptr = do m ← memory (load_module module_ptr); get m.ptr

pub module_scope : {E : Type 0} → Ptr → Cmd E (Unit {0})
module_scope module_ptr = do m ← memory (load_module module_ptr); iso_scope m.iso

-- GV8UnboundScriptRelease
pub unbound_script_release : {E : Type 0} → Ptr → Cmd E (Unit {0})
unbound_script_release script_ptr =
    if script_ptr == null then pure tt else memory (delete_script script_ptr)

-- GV8ModuleRelease
pub module_release : {E : Type 0} → Ptr → Cmd E (Unit {0})
module_release module_ptr =
    if module_ptr == null then pure tt else memory (delete_module module_ptr)

module _ {E : Type 0} (v : V8 E) where
  -- `script->Run(local_ctx)`, where the script was compiled.
  pub run_compiled : Ptr → Scope → Try Local → Cmd E RtnValue
  run_compiled ctx_ptr s (threw c) = wrap_result v ctx_ptr s (threw c)
  run_compiled ctx_ptr s (returned script) = do
    result ← enter (v.script_run s.local_ctx script)
    wrap_result v ctx_ptr s result

  -- GV8ContextRunScript
  pub context_run_script : Ptr → Text → Text → ℤ → ℤ → Cmd E RtnValue
  unfolding run_compiled
  context_run_script ctx_ptr source resource_name line_offset column_offset = do
    s ← ctx_scope ctx_ptr
    src ← string_checked v s.iso source
    origin ← make_origin v s.iso resource_name line_offset column_offset false
    script ← engine (v.compile s.local_ctx src origin)
    run_compiled ctx_ptr s script

  pub script_result : Ptr → Local → Try Local → Cmd E RtnPtr
  script_result iso local_ctx (threw c) = do
    e ← exception_error v iso local_ctx c
    pure (rtn_ptr_error e)
  script_result iso local_ctx (returned script) = do
    wrap ← memory (new_script iso script)
    pure (rtn_ptr wrap)

  -- GV8CompileUnboundScript
  pub compile_unbound_script : Ptr → Text → Text → ℤ → ℤ → Cmd E RtnPtr
  unfolding script_result
  compile_unbound_script iso source resource_name line_offset column_offset = do
    iso_scope iso
    local_ctx ← internal_compile_context v iso
    src ← string_checked v iso source
    origin ← make_origin v iso resource_name line_offset column_offset false
    script ← engine (v.compile_unbound_script iso src origin)
    script_result iso local_ctx script

  -- GV8UnboundScriptRun
  pub unbound_script_run : Ptr → Ptr → Cmd E RtnValue
  unbound_script_run ctx_ptr script_ptr = do
    s ← ctx_scope ctx_ptr
    u ← memory (load_script script_ptr)
    script ← get u.ptr
    bound ← engine (v.bind_to_current_context s.local_ctx script)
    result ← enter (v.script_run s.local_ctx bound)
    wrap_result v ctx_ptr s result

  pub module_result : Ptr → Local → Try Local → Cmd E RtnPtr
  module_result iso local_ctx (threw c) = do
    e ← exception_error v iso local_ctx c
    pure (rtn_ptr_error e)
  module_result iso local_ctx (returned module_handle) = do
    wrap ← memory (new_module iso module_handle)
    pure (rtn_ptr wrap)

  -- GV8CompileModule
  pub compile_module : Ptr → Text → Text → ℤ → ℤ → Cmd E RtnPtr
  unfolding module_result
  compile_module iso source resource_name line_offset column_offset = do
    iso_scope iso
    local_ctx ← internal_compile_context v iso
    src ← string_checked v iso source
    origin ← make_origin v iso resource_name line_offset column_offset true
    module_handle ← engine (v.compile_module iso src origin)
    module_result iso local_ctx module_handle

  -- GV8ModuleInstantiate
  pub module_instantiate : Ptr → Ptr → Cmd E RtnError
  module_instantiate ctx_ptr module_ptr = do
    s ← ctx_scope ctx_ptr
    module_handle ← module_of module_ptr
    done ← enter (v.instantiate_module s.local_ctx module_handle)
    error_result v s done

  -- GV8ModuleEvaluate
  pub module_evaluate : Ptr → Ptr → Cmd E RtnValue
  module_evaluate ctx_ptr module_ptr = do
    s ← ctx_scope ctx_ptr
    module_handle ← module_of module_ptr
    result ← enter (v.module_evaluate s.local_ctx module_handle)
    wrap_result v ctx_ptr s result

  -- GV8ModuleGetNamespace
  pub module_get_namespace : Ptr → Ptr → Cmd E Ptr
  module_get_namespace ctx_ptr module_ptr = do
    s ← ctx_scope ctx_ptr
    module_handle ← module_of module_ptr
    result ← asks (v.module_namespace module_handle)
    memory (wrap_value ctx_ptr s.iso result)

  -- GV8ModuleGetStatus
  pub module_get_status : Ptr → Cmd E ℤ
  module_get_status module_ptr = do
    module_scope module_ptr
    module_handle ← module_of module_ptr
    asks (v.module_status module_handle)

  -- GV8ModuleGetScriptID
  pub module_get_script_id : Ptr → Cmd E ℤ
  module_get_script_id module_ptr = do
    module_scope module_ptr
    module_handle ← module_of module_ptr
    asks (v.script_id module_handle)
