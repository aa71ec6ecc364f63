-- ===== src/Tests/Lifted.antt =====
-- The small engine beside the Go side, which it leaves alone.
use gv.Prelude.{refl}
use gv.V8.{V8}
use gv.Run.{Call}
use gv.Go.{Native}
use gv.Go.Arguments.Lawful.{IsQuiet}
use gv.Tests.Engine.{Toy, toy}

abbrev steps : (Toy → Toy) → Native Toy → Native Toy
steps f e = record e { v8 = f e.v8 }

abbrev makes : {A : Type 0} → (Toy → A × Toy) → Native Toy → A × Native Toy
makes f e = ((f e.v8).0, record e { v8 = (f e.v8).1 })

abbrev reads : {A : Type 0} → (Toy → A) → Native Toy → A
reads f e = f e.v8

abbrev calls : {A : Type 0} → Call Toy A → Call (Native Toy) A
calls f w =
    let r = f (record { engine = w.engine.v8; mem = w.mem }) in
    (r.0, record { engine = record w.engine { v8 = r.1.engine }; mem = r.1.mem })

abbrev pub lifted : V8 (Native Toy)
lifted = record {
  initialize_icu = λ a. steps (toy.initialize_icu a);
  initialize_platform = steps (toy.initialize_platform);
  initialize = steps (toy.initialize);
  new_default_allocator = makes (toy.new_default_allocator);
  isolate_new = λ a. makes (toy.isolate_new a);
  isolate_dispose = λ a. steps (toy.isolate_dispose a);
  current_isolate = reads (toy.current_isolate);
  perform_microtask_checkpoint = λ a. calls (toy.perform_microtask_checkpoint a);
  terminate_execution = λ a. steps (toy.terminate_execution a);
  is_execution_terminating = λ a. reads (toy.is_execution_terminating a);
  cancel_terminate_execution = λ a. steps (toy.cancel_terminate_execution a);
  low_memory_notification = λ a. steps (toy.low_memory_notification a);
  memory_pressure_notification = λ a b. steps (toy.memory_pressure_notification a b);
  get_heap_statistics = λ a. reads (toy.get_heap_statistics a);
  throw_exception = λ a b. steps (toy.throw_exception a b);
  context_new = λ a. makes (toy.context_new a);
  entered_context = λ a. reads (toy.entered_context a);
  current_context = λ a. reads (toy.current_context a);
  global = λ a. reads (toy.global a);
  string_new_from_utf8 = λ a b c. makes (toy.string_new_from_utf8 a b c);
  utf8_value = λ a b. calls (toy.utf8_value a b);
  exception_error = λ a. makes (toy.exception_error a);
  create_message = λ a b. makes (toy.create_message a b);
  stack_trace = λ a b. calls (toy.stack_trace a b);
  object_new = λ a. makes (toy.object_new a);
  array_new = λ a b. makes (toy.array_new a b);
  function_new = λ a b. makes (toy.function_new a b);
  resolver_new = λ a. makes (toy.resolver_new a);
  boolean_new = λ a b. reads (toy.boolean_new a b);
  number_new = λ a b. makes (toy.number_new a b);
  double_of_int64 = toy.double_of_int64;
  null_value = λ a. reads (toy.null_value a);
  undefined_value = λ a. reads (toy.undefined_value a);
  array_buffer_new = λ a b. makes (toy.array_buffer_new a b);
  uint8_array_new = λ a b c. makes (toy.uint8_array_new a b c);
  is = λ a b. reads (toy.is a b);
  boolean_value = λ a. reads (toy.boolean_value a);
  integer_value = λ a b. calls (toy.integer_value a b);
  uint32_value = λ a b. calls (toy.uint32_value a b);
  array_length = λ a. reads (toy.array_length a);
  string_length = λ a. reads (toy.string_length a);
  buffer_byte_length = λ a. reads (toy.buffer_byte_length a);
  view_byte_length = λ a. reads (toy.view_byte_length a);
  view_byte_offset = λ a. reads (toy.view_byte_offset a);
  view_buffer = λ a. reads (toy.view_buffer a);
  backing_store = λ a. reads (toy.backing_store a);
  object_get = λ a b c. calls (toy.object_get a b c);
  object_get_idx = λ a b c. calls (toy.object_get_idx a b c);
  object_has = λ a b c. calls (toy.object_has a b c);
  object_set = λ a b c d. calls (toy.object_set a b c d);
  object_set_idx = λ a b c d. calls (toy.object_set_idx a b c d);
  function_call = λ a b c d. calls (toy.function_call a b c d);
  promise_state = λ a. reads (toy.promise_state a);
  promise_result = λ a. reads (toy.promise_result a);
  resolver_promise = λ a. reads (toy.resolver_promise a);
  resolver_resolve = λ a b c. calls (toy.resolver_resolve a b c);
  resolver_reject = λ a b c. calls (toy.resolver_reject a b c);
  json_stringify = λ a b. calls (toy.json_stringify a b);
  json_parse = λ a b. calls (toy.json_parse a b);
  compile = λ a b c. makes (toy.compile a b c);
  compile_unbound_script = λ a b c. makes (toy.compile_unbound_script a b c);
  compile_module = λ a b c. makes (toy.compile_module a b c);
  bind_to_current_context = λ a b. makes (toy.bind_to_current_context a b);
  script_run = λ a b. calls (toy.script_run a b);
  instantiate_module = λ a b. calls (toy.instantiate_module a b);
  module_evaluate = λ a b. calls (toy.module_evaluate a b);
  module_namespace = λ a. reads (toy.module_namespace a);
  module_status = λ a. reads (toy.module_status a);
  script_id = λ a. reads (toy.script_id a);
  creator_new = λ a. makes (toy.creator_new a);
  creator_isolate = λ a. reads (toy.creator_isolate a);
  set_default_context = λ a b. steps (toy.set_default_context a b);
  create_blob = λ a. makes (toy.create_blob a);
  creator_delete = λ a. steps (toy.creator_delete a);
  startup_is_valid = toy.startup_is_valid;
}

pub lifted-IsQuiet : IsQuiet lifted
lifted-IsQuiet = record {
  number = λ iso d e. refl;
  buffer = λ iso b e. refl;
  view = λ b from n e. refl;
  string = λ iso t n e. refl;
  thrown = λ iso t n e c z. absurd (cc z);
}
