-- ===== src/Api/Safety.antt =====
-- Sessions: invariants of the memory over sequences of calls of gv8.h and of the callbacks.
use gv.Prelude.{◌≡◌, List, [], ◌∷◌, subst}
use gv.Memory.{Memory}
use gv.Memory.Steps.{Reach, here, next, Reach-IsConsistent}
use gv.Memory.Invariant.{IsConsistent}
use gv.Run.{World, Cmd, ok}
use gv.Run.Keeps.{Keeps, Keeps-bind, Keeps-pure, Keeps-memory, Ends}
use gv.V8.{V8, Host}
use gv.V8.Reentry.{V8Keeps, HostKeeps, Stable}
use gv.Scope.Keeps.{MemKeeps-value_release, MemKeeps-context_dispose}
use gv.Isolate.Keeps.{
  Keeps-init, Keeps-new_isolate, Keeps-new_isolate_with_heap_limit, Keeps-new_isolate_with_snapshot,
  Keeps-isolate_set_observer_ref, Keeps-isolate_dispose, Keeps-new_context,
}
use gv.Control.Keeps.{
  Keeps-isolate_perform_microtask_checkpoint, Keeps-isolate_terminate_execution,
  Keeps-isolate_is_execution_terminating, Keeps-isolate_cancel_terminate_execution,
  Keeps-isolate_low_memory_notification, Keeps-isolate_memory_pressure_notification,
  Keeps-isolate_get_heap_statistics,
}
use gv.Creation.Keeps.{
  Keeps-context_global, Keeps-context_new_object, Keeps-context_new_array,
  Keeps-context_new_function, Keeps-context_new_promise_resolver, Keeps-new_string,
  Keeps-new_boolean, Keeps-new_integer, Keeps-new_number, Keeps-new_null, Keeps-new_undefined,
  Keeps-new_error_value, Keeps-new_array_buffer_copy, Keeps-new_uint8_array_copy,
}
use gv.Script.Keeps.{
  Keeps-context_run_script, Keeps-compile_unbound_script, Keeps-unbound_script_release,
  Keeps-unbound_script_run, Keeps-compile_module, Keeps-module_release, Keeps-module_instantiate,
  Keeps-module_evaluate, Keeps-module_get_namespace, Keeps-module_get_status,
  Keeps-module_get_script_id,
}
use gv.Values.Keeps.{
  Keeps-value_retain, Keeps-value_to_string, Keeps-value_to_integer, Keeps-value_to_boolean,
  Keeps-value_is, Keeps-value_bytes, Keeps-value_len,
}
use gv.Object.Keeps.{
  Keeps-object_get, Keeps-object_get_idx, Keeps-object_has, Keeps-object_set, Keeps-object_set_idx,
  Keeps-value_call, Keeps-object_call_method, Keeps-json_stringify, Keeps-json_parse,
}
use gv.Promise.Keeps.{
  Keeps-promise_state, Keeps-promise_result, Keeps-promise_resolver_get_promise,
  Keeps-promise_resolver_resolve, Keeps-promise_resolver_reject,
}
use gv.Snapshot.Keeps.{
  Keeps-new_snapshot_builder, Keeps-snapshot_builder_release, Keeps-snapshot_builder_run_script,
  Keeps-snapshot_builder_build,
}
use gv.Callback.Keeps.{
  Keeps-resolve_module_callback, Keeps-dynamic_import_callback, Keeps-host_function_callback,
  Keeps-on_promise_reject,
}
use gv.Api.{Request, Entry, Event, go, v8, request, entry, event, session, run_only}

module _ {E A : Type 0} {P : Memory → Type 0} where
  Keeps-run_only : {c : Cmd E A} → Keeps P c → Keeps P (run_only c)
  Keeps-run_only {c} k = Keeps-bind c _ k (λ _. Keeps-pure tt)

module _ {E : Type 0} {v : V8 E} {P : Memory → Type 0} (stable : Stable P) (k : V8Keeps v P) where
  Keeps-request : (r : Request) → Keeps P (request v r)
  unfolding request
  Keeps-request (Request.init a0) = Keeps-run_only (Keeps-init v stable a0)
  Keeps-request Request.new_isolate = Keeps-run_only (Keeps-new_isolate v stable)
  Keeps-request (Request.new_isolate_with_heap_limit a0 a1) =
      Keeps-run_only (Keeps-new_isolate_with_heap_limit v stable a0 a1)
  Keeps-request (Request.new_isolate_with_snapshot a0 a1 a2 a3) =
      Keeps-run_only (Keeps-new_isolate_with_snapshot v stable a0 a1 a2 a3)
  Keeps-request (Request.isolate_set_observer_ref a0 a1) =
      Keeps-run_only (Keeps-isolate_set_observer_ref stable a0 a1)
  Keeps-request (Request.isolate_dispose a0) = Keeps-run_only (Keeps-isolate_dispose v stable a0)
  Keeps-request (Request.isolate_perform_microtask_checkpoint a0) =
      Keeps-run_only (Keeps-isolate_perform_microtask_checkpoint stable k a0)
  Keeps-request (Request.isolate_terminate_execution a0) =
      Keeps-run_only (Keeps-isolate_terminate_execution stable k a0)
  Keeps-request (Request.isolate_is_execution_terminating a0) =
      Keeps-run_only (Keeps-isolate_is_execution_terminating stable k a0)
  Keeps-request (Request.isolate_cancel_terminate_execution a0) =
      Keeps-run_only (Keeps-isolate_cancel_terminate_execution stable k a0)
  Keeps-request (Request.isolate_low_memory_notification a0) =
      Keeps-run_only (Keeps-isolate_low_memory_notification stable k a0)
  Keeps-request (Request.isolate_memory_pressure_notification a0 a1) =
      Keeps-run_only (Keeps-isolate_memory_pressure_notification stable k a0 a1)
  Keeps-request (Request.isolate_get_heap_statistics a0) =
      Keeps-run_only (Keeps-isolate_get_heap_statistics stable k a0)
  Keeps-request (Request.new_context a0 a1) = Keeps-run_only (Keeps-new_context v stable a0 a1)
  Keeps-request (Request.context_dispose a0) =
      Keeps-run_only (Keeps-memory _ (MemKeeps-context_dispose stable a0))
  Keeps-request (Request.context_global a0) = Keeps-run_only (Keeps-context_global stable k a0)
  Keeps-request (Request.context_new_object a0) =
      Keeps-run_only (Keeps-context_new_object stable k a0)
  Keeps-request (Request.context_new_array a0 a1) =
      Keeps-run_only (Keeps-context_new_array stable k a0 a1)
  Keeps-request (Request.context_new_function a0 a1) =
      Keeps-run_only (Keeps-context_new_function stable k a0 a1)
  Keeps-request (Request.context_new_promise_resolver a0) =
      Keeps-run_only (Keeps-context_new_promise_resolver stable k a0)
  Keeps-request (Request.context_run_script a0 a1 a2 a3 a4) =
      Keeps-run_only (Keeps-context_run_script stable k a0 a1 a2 a3 a4)
  Keeps-request (Request.compile_unbound_script a0 a1 a2 a3 a4) =
      Keeps-run_only (Keeps-compile_unbound_script stable k a0 a1 a2 a3 a4)
  Keeps-request (Request.unbound_script_release a0) =
      Keeps-run_only (Keeps-unbound_script_release stable a0)
  Keeps-request (Request.unbound_script_run a0 a1) =
      Keeps-run_only (Keeps-unbound_script_run stable k a0 a1)
  Keeps-request (Request.compile_module a0 a1 a2 a3 a4) =
      Keeps-run_only (Keeps-compile_module stable k a0 a1 a2 a3 a4)
  Keeps-request (Request.module_release a0) = Keeps-run_only (Keeps-module_release stable a0)
  Keeps-request (Request.module_instantiate a0 a1) =
      Keeps-run_only (Keeps-module_instantiate stable k a0 a1)
  Keeps-request (Request.module_evaluate a0 a1) =
      Keeps-run_only (Keeps-module_evaluate stable k a0 a1)
  Keeps-request (Request.module_get_namespace a0 a1) =
      Keeps-run_only (Keeps-module_get_namespace stable k a0 a1)
  Keeps-request (Request.module_get_status a0) =
      Keeps-run_only (Keeps-module_get_status stable k a0)
  Keeps-request (Request.module_get_script_id a0) =
      Keeps-run_only (Keeps-module_get_script_id stable k a0)
  Keeps-request (Request.new_string a0 a1 a2) = Keeps-run_only (Keeps-new_string stable k a0 a1 a2)
  Keeps-request (Request.new_boolean a0 a1) = Keeps-run_only (Keeps-new_boolean stable k a0 a1)
  Keeps-request (Request.new_integer a0 a1) = Keeps-run_only (Keeps-new_integer stable k a0 a1)
  Keeps-request (Request.new_number a0 a1) = Keeps-run_only (Keeps-new_number stable k a0 a1)
  Keeps-request (Request.new_null a0) = Keeps-run_only (Keeps-new_null stable k a0)
  Keeps-request (Request.new_undefined a0) = Keeps-run_only (Keeps-new_undefined stable k a0)
  Keeps-request (Request.new_error_value a0 a1 a2) =
      Keeps-run_only (Keeps-new_error_value stable k a0 a1 a2)
  Keeps-request (Request.new_array_buffer_copy a0 a1 a2) =
      Keeps-run_only (Keeps-new_array_buffer_copy stable k a0 a1 a2)
  Keeps-request (Request.new_uint8_array_copy a0 a1 a2) =
      Keeps-run_only (Keeps-new_uint8_array_copy stable k a0 a1 a2)
  Keeps-request (Request.value_release a0) =
      Keeps-run_only (Keeps-memory _ (MemKeeps-value_release stable a0))
  Keeps-request (Request.value_retain a0) = Keeps-run_only (Keeps-value_retain stable k a0)
  Keeps-request (Request.value_to_string a0) = Keeps-run_only (Keeps-value_to_string stable k a0)
  Keeps-request (Request.value_to_integer a0) = Keeps-run_only (Keeps-value_to_integer stable k a0)
  Keeps-request (Request.value_to_boolean a0) = Keeps-run_only (Keeps-value_to_boolean stable k a0)
  Keeps-request (Request.value_is a0 a1) = Keeps-run_only (Keeps-value_is stable k a0 a1)
  Keeps-request (Request.value_bytes a0) = Keeps-run_only (Keeps-value_bytes stable k a0)
  Keeps-request (Request.value_len a0) = Keeps-run_only (Keeps-value_len stable k a0)
  Keeps-request (Request.object_get a0 a1) = Keeps-run_only (Keeps-object_get stable k a0 a1)
  Keeps-request (Request.object_get_idx a0 a1) =
      Keeps-run_only (Keeps-object_get_idx stable k a0 a1)
  Keeps-request (Request.object_has a0 a1) = Keeps-run_only (Keeps-object_has stable k a0 a1)
  Keeps-request (Request.object_set a0 a1 a2) = Keeps-run_only (Keeps-object_set stable k a0 a1 a2)
  Keeps-request (Request.object_set_idx a0 a1 a2) =
      Keeps-run_only (Keeps-object_set_idx stable k a0 a1 a2)
  Keeps-request (Request.value_call a0 a1 a2 a3) =
      Keeps-run_only (Keeps-value_call stable k a0 a1 a2 a3)
  Keeps-request (Request.object_call_method a0 a1 a2 a3) =
      Keeps-run_only (Keeps-object_call_method stable k a0 a1 a2 a3)
  Keeps-request (Request.promise_state a0) = Keeps-run_only (Keeps-promise_state stable k a0)
  Keeps-request (Request.promise_result a0) = Keeps-run_only (Keeps-promise_result stable k a0)
  Keeps-request (Request.promise_resolver_get_promise a0) =
      Keeps-run_only (Keeps-promise_resolver_get_promise stable k a0)
  Keeps-request (Request.promise_resolver_resolve a0 a1) =
      Keeps-run_only (Keeps-promise_resolver_resolve stable k a0 a1)
  Keeps-request (Request.promise_resolver_reject a0 a1) =
      Keeps-run_only (Keeps-promise_resolver_reject stable k a0 a1)
  Keeps-request (Request.json_stringify a0 a1) =
      Keeps-run_only (Keeps-json_stringify stable k a0 a1)
  Keeps-request (Request.json_parse a0 a1 a2) = Keeps-run_only (Keeps-json_parse stable k a0 a1 a2)
  Keeps-request Request.new_snapshot_builder = Keeps-run_only (Keeps-new_snapshot_builder v stable)
  Keeps-request (Request.snapshot_builder_release a0) =
      Keeps-run_only (Keeps-snapshot_builder_release v stable a0)
  Keeps-request (Request.snapshot_builder_run_script a0 a1 a2 a3 a4) =
      Keeps-run_only (Keeps-snapshot_builder_run_script stable k a0 a1 a2 a3 a4)
  Keeps-request (Request.snapshot_builder_build a0) =
      Keeps-run_only (Keeps-snapshot_builder_build v stable a0)

module _ {E : Type 0} {v : V8 E} {host : Host E} {P : Memory → Type 0} (stable : Stable P)
    (k : V8Keeps v P) (g : HostKeeps host P) where
  Keeps-entry : (e : Entry) → Keeps P (entry v host e)
  unfolding entry
  Keeps-entry (Entry.resolve_module_callback a0 a1 a2) =
      Keeps-run_only (Keeps-resolve_module_callback stable k g a0 a1 a2)
  Keeps-entry (Entry.dynamic_import_callback a0 a1 a2) =
      Keeps-run_only (Keeps-dynamic_import_callback stable k g a0 a1 a2)
  Keeps-entry (Entry.host_function_callback a0 a1 a2 a3) =
      Keeps-run_only (Keeps-host_function_callback stable k g a0 a1 a2 a3)
  Keeps-entry (Entry.on_promise_reject a0 a1) =
      Keeps-run_only (Keeps-on_promise_reject stable k g a0 a1)

  Keeps-event : (e : Event) → Keeps P (event v host e)
  unfolding event
  Keeps-event (go r) = Keeps-request stable k r
  Keeps-event (v8 e) = Keeps-entry e

  Keeps-session : (l : List Event) → Keeps P (session v host l)
  unfolding session
  Keeps-session [] = Keeps-pure tt
  Keeps-session (e ∷ l) = Keeps-bind _ _ (Keeps-event e) (λ _. Keeps-session l)

pub Reach-Stable : (m : Memory) → Stable (Reach m)
Reach-Stable m = record { step = λ a b s r. next r s }

-- What is assumed of V8 and of the host: a call that runs user code changes the memory by the
-- program's steps, since user code has no other way to it.
abbrev pub V8Reaches : {E : Type 0} → V8 E → Type 0
V8Reaches v = (m : Memory) → V8Keeps v (Reach m)

abbrev pub HostReaches : {E : Type 0} → Host E → Type 0
HostReaches host = (m : Memory) → HostKeeps host (Reach m)

module _ {E : Type 0} (v : V8 E) (host : Host E) (k : V8Reaches v) (g : HostReaches host) where
  -- Where V8's calls and the host's change the memory by steps of the program only: any sequence of
  -- calls of the functions of gv8.h and of the callbacks that ends without undefined behaviour changes
  -- the memory by a sequence of steps, each of which wraps a value, borrows one, releases one, disposes
  -- of a context, makes one, edits one but for its table, or touches no context and no value.
  session-Reach :
      (l : List Event) (w w' : World E) → session v host l w ≡ ok tt w' → Reach w.mem w'.mem
  session-Reach l w w' e =
      subst (Ends (Reach w.mem)) e
        ((Keeps-session (Reach-Stable w.mem) (k w.mem) (g w.mem) l).at w here)

  -- Where V8's calls and the host's change the memory by steps of the program only: after any
  -- sequence of calls of the functions of gv8.h and of the callbacks, with any arguments, that ends
  -- without undefined behaviour, a memory that was consistent is consistent: the id tables of the live
  -- contexts and the live tracked wrappers agree.
  pub session-IsConsistent :
      (l : List Event) (w w' : World E)
      → IsConsistent w.mem
      → session v host l w ≡ ok tt w'
      → IsConsistent w'.mem
  session-IsConsistent l w w' i e = Reach-IsConsistent i (session-Reach l w w' e)
