-- ===== src/Api.antt =====
-- gv8.h: the interface as a whole. A call by the Go side is a `Request`, a call by V8 an `Entry`,
-- and a session is any sequence of these.
pub mod Safety
use gv.Prelude.{ℕ, Option, none, some, List, [], ◌∷◌}
use gv.Prelude.Int.{ℤ}
use gv.Memory.{Ptr}
use gv.Memory.Values as MemValues
use gv.Run.{World, Run, ok, fault, abort, Cmd, pure, memory, ◌>>=◌, ◌>>◌}
use gv.V8.{V8, Host, Text, CString, Local, Kind}
use gv.Isolate
use gv.Control
use gv.Creation
use gv.Script
use gv.Values
use gv.Object
use gv.Promise
use gv.Snapshot
use gv.Callback

-- The functions that gv8.h declares, with their arguments; the `GV8ValueIs…` are one.
pub data Request : Type 0 where
  init : CString → Request
  new_isolate : Request
  new_isolate_with_heap_limit : ℕ → ℕ → Request
  new_isolate_with_snapshot : CString → ℤ → ℕ → ℕ → Request
  isolate_set_observer_ref : Ptr → ℤ → Request
  isolate_dispose : Ptr → Request
  isolate_perform_microtask_checkpoint : Ptr → Request
  isolate_terminate_execution : Ptr → Request
  isolate_is_execution_terminating : Ptr → Request
  isolate_cancel_terminate_execution : Ptr → Request
  isolate_low_memory_notification : Ptr → Request
  isolate_memory_pressure_notification : Ptr → ℤ → Request
  isolate_get_heap_statistics : Ptr → Request
  new_context : Ptr → ℤ → Request
  context_dispose : Ptr → Request
  context_global : Ptr → Request
  context_new_object : Ptr → Request
  context_new_array : Ptr → ℕ → Request
  context_new_function : Ptr → ℤ → Request
  context_new_promise_resolver : Ptr → Request
  context_run_script : Ptr → Text → Text → ℤ → ℤ → Request
  compile_unbound_script : Ptr → Text → Text → ℤ → ℤ → Request
  unbound_script_release : Ptr → Request
  unbound_script_run : Ptr → Ptr → Request
  compile_module : Ptr → Text → Text → ℤ → ℤ → Request
  module_release : Ptr → Request
  module_instantiate : Ptr → Ptr → Request
  module_evaluate : Ptr → Ptr → Request
  module_get_namespace : Ptr → Ptr → Request
  module_get_status : Ptr → Request
  module_get_script_id : Ptr → Request
  new_string : Ptr → Text → ℤ → Request
  new_boolean : Ptr → ℤ → Request
  new_integer : Ptr → ℤ → Request
  new_number : Ptr → ℕ → Request
  new_null : Ptr → Request
  new_undefined : Ptr → Request
  new_error_value : Ptr → Text → ℤ → Request
  new_array_buffer_copy : Ptr → CString → ℤ → Request
  new_uint8_array_copy : Ptr → CString → ℤ → Request
  value_release : Ptr → Request
  value_retain : Ptr → Request
  value_to_string : Ptr → Request
  value_to_integer : Ptr → Request
  value_to_boolean : Ptr → Request
  value_is : Kind → Ptr → Request
  value_bytes : Ptr → Request
  value_len : Ptr → Request
  object_get : Ptr → Text → Request
  object_get_idx : Ptr → ℕ → Request
  object_has : Ptr → Text → Request
  object_set : Ptr → Text → Ptr → Request
  object_set_idx : Ptr → ℕ → Ptr → Request
  value_call : Ptr → Ptr → ℤ → List Ptr → Request
  object_call_method : Ptr → Text → ℤ → List Ptr → Request
  promise_state : Ptr → Request
  promise_result : Ptr → Request
  promise_resolver_get_promise : Ptr → Request
  promise_resolver_resolve : Ptr → Ptr → Request
  promise_resolver_reject : Ptr → Ptr → Request
  json_stringify : Ptr → Ptr → Request
  json_parse : Ptr → Text → ℤ → Request
  new_snapshot_builder : Request
  snapshot_builder_release : Ptr → Request
  snapshot_builder_run_script : Ptr → Text → Text → ℤ → ℤ → Request
  snapshot_builder_build : Ptr → Request

-- The callbacks that the program gives to V8.
pub data Entry : Type 0 where
  resolve_module_callback : Local → Local → Local → Entry
  dynamic_import_callback : Local → Local → Local → Entry
  host_function_callback : Ptr → Local → List Local → ℤ → Entry
  on_promise_reject : Local → ℤ → Entry

-- A command whose result goes to its caller.
abbrev run_only : {E A : Type 0} → Cmd E A → Cmd E (Unit {0})
run_only c = do _ ← c; pure tt

module _ {E : Type 0} (v : V8 E) where
  pub request : Request → Cmd E (Unit {0})
  request (init a0) = run_only (Isolate.init v a0)
  request new_isolate = run_only (Isolate.new_isolate v)
  request (new_isolate_with_heap_limit a0 a1) =
      run_only (Isolate.new_isolate_with_heap_limit v a0 a1)
  request (new_isolate_with_snapshot a0 a1 a2 a3) =
      run_only (Isolate.new_isolate_with_snapshot v a0 a1 a2 a3)
  request (isolate_set_observer_ref a0 a1) = run_only (Isolate.isolate_set_observer_ref a0 a1)
  request (isolate_dispose a0) = run_only (Isolate.isolate_dispose v a0)
  request (isolate_perform_microtask_checkpoint a0) =
      run_only (Control.isolate_perform_microtask_checkpoint v a0)
  request (isolate_terminate_execution a0) = run_only (Control.isolate_terminate_execution v a0)
  request (isolate_is_execution_terminating a0) =
      run_only (Control.isolate_is_execution_terminating v a0)
  request (isolate_cancel_terminate_execution a0) =
      run_only (Control.isolate_cancel_terminate_execution v a0)
  request (isolate_low_memory_notification a0) =
      run_only (Control.isolate_low_memory_notification v a0)
  request (isolate_memory_pressure_notification a0 a1) =
      run_only (Control.isolate_memory_pressure_notification v a0 a1)
  request (isolate_get_heap_statistics a0) = run_only (Control.isolate_get_heap_statistics v a0)
  request (new_context a0 a1) = run_only (Isolate.new_context v a0 a1)
  request (context_dispose a0) = run_only (memory (MemValues.context_dispose a0))
  request (context_global a0) = run_only (Creation.context_global v a0)
  request (context_new_object a0) = run_only (Creation.context_new_object v a0)
  request (context_new_array a0 a1) = run_only (Creation.context_new_array v a0 a1)
  request (context_new_function a0 a1) = run_only (Creation.context_new_function v a0 a1)
  request (context_new_promise_resolver a0) = run_only (Creation.context_new_promise_resolver v a0)
  request (context_run_script a0 a1 a2 a3 a4) =
      run_only (Script.context_run_script v a0 a1 a2 a3 a4)
  request (compile_unbound_script a0 a1 a2 a3 a4) =
      run_only (Script.compile_unbound_script v a0 a1 a2 a3 a4)
  request (unbound_script_release a0) = run_only (Script.unbound_script_release a0)
  request (unbound_script_run a0 a1) = run_only (Script.unbound_script_run v a0 a1)
  request (compile_module a0 a1 a2 a3 a4) = run_only (Script.compile_module v a0 a1 a2 a3 a4)
  request (module_release a0) = run_only (Script.module_release a0)
  request (module_instantiate a0 a1) = run_only (Script.module_instantiate v a0 a1)
  request (module_evaluate a0 a1) = run_only (Script.module_evaluate v a0 a1)
  request (module_get_namespace a0 a1) = run_only (Script.module_get_namespace v a0 a1)
  request (module_get_status a0) = run_only (Script.module_get_status v a0)
  request (module_get_script_id a0) = run_only (Script.module_get_script_id v a0)
  request (new_string a0 a1 a2) = run_only (Creation.new_string v a0 a1 a2)
  request (new_boolean a0 a1) = run_only (Creation.new_boolean v a0 a1)
  request (new_integer a0 a1) = run_only (Creation.new_integer v a0 a1)
  request (new_number a0 a1) = run_only (Creation.new_number v a0 a1)
  request (new_null a0) = run_only (Creation.new_null v a0)
  request (new_undefined a0) = run_only (Creation.new_undefined v a0)
  request (new_error_value a0 a1 a2) = run_only (Creation.new_error_value v a0 a1 a2)
  request (new_array_buffer_copy a0 a1 a2) = run_only (Creation.new_array_buffer_copy v a0 a1 a2)
  request (new_uint8_array_copy a0 a1 a2) = run_only (Creation.new_uint8_array_copy v a0 a1 a2)
  request (value_release a0) = run_only (memory (MemValues.value_release a0))
  request (value_retain a0) = run_only (Values.value_retain v a0)
  request (value_to_string a0) = run_only (Values.value_to_string v a0)
  request (value_to_integer a0) = run_only (Values.value_to_integer v a0)
  request (value_to_boolean a0) = run_only (Values.value_to_boolean v a0)
  request (value_is a0 a1) = run_only (Values.value_is v a0 a1)
  request (value_bytes a0) = run_only (Values.value_bytes v a0)
  request (value_len a0) = run_only (Values.value_len v a0)
  request (object_get a0 a1) = run_only (Object.object_get v a0 a1)
  request (object_get_idx a0 a1) = run_only (Object.object_get_idx v a0 a1)
  request (object_has a0 a1) = run_only (Object.object_has v a0 a1)
  request (object_set a0 a1 a2) = run_only (Object.object_set v a0 a1 a2)
  request (object_set_idx a0 a1 a2) = run_only (Object.object_set_idx v a0 a1 a2)
  request (value_call a0 a1 a2 a3) = run_only (Object.value_call v a0 a1 a2 a3)
  request (object_call_method a0 a1 a2 a3) = run_only (Object.object_call_method v a0 a1 a2 a3)
  request (promise_state a0) = run_only (Promise.promise_state v a0)
  request (promise_result a0) = run_only (Promise.promise_result v a0)
  request (promise_resolver_get_promise a0) = run_only (Promise.promise_resolver_get_promise v a0)
  request (promise_resolver_resolve a0 a1) = run_only (Promise.promise_resolver_resolve v a0 a1)
  request (promise_resolver_reject a0 a1) = run_only (Promise.promise_resolver_reject v a0 a1)
  request (json_stringify a0 a1) = run_only (Object.json_stringify v a0 a1)
  request (json_parse a0 a1 a2) = run_only (Object.json_parse v a0 a1 a2)
  request new_snapshot_builder = run_only (Snapshot.new_snapshot_builder v)
  request (snapshot_builder_release a0) = run_only (Snapshot.snapshot_builder_release v a0)
  request (snapshot_builder_run_script a0 a1 a2 a3 a4) =
      run_only (Snapshot.snapshot_builder_run_script v a0 a1 a2 a3 a4)
  request (snapshot_builder_build a0) = run_only (Snapshot.snapshot_builder_build v a0)

module _ {E : Type 0} (v : V8 E) (host : Host E) where
  pub entry : Entry → Cmd E (Unit {0})
  entry (resolve_module_callback a0 a1 a2) =
      run_only (Callback.resolve_module_callback v host a0 a1 a2)
  entry (dynamic_import_callback a0 a1 a2) =
      run_only (Callback.dynamic_import_callback v host a0 a1 a2)
  entry (host_function_callback a0 a1 a2 a3) =
      run_only (Callback.host_function_callback v host a0 a1 a2 a3)
  entry (on_promise_reject a0 a1) = run_only (Callback.on_promise_reject v host a0 a1)

pub data Event : Type 0 where
  go : Request → Event
  v8 : Entry → Event

module _ {E : Type 0} (v : V8 E) (host : Host E) where
  unfoldable pub event : Event → Cmd E (Unit {0})
  unfolding request entry
  event (go r) = request v r
  event (v8 e) = entry v host e

  unfoldable pub session : List Event → Cmd E (Unit {0})
  session [] = pure tt
  session (e ∷ rest) = event e >> session rest
