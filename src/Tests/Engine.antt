-- ===== src/Tests/Engine.antt =====
-- A small engine in V8's place, and a process to start from. Its values are texts, numbers and byte
-- buffers; a script's value is its source, and a script whose source is empty throws an empty text.
use gv.Prelude.{ℕ, suc, refl, true, false, none, some, List, [], ◌∷◌, arith, ◌==◌, length, update}
use gv.Prelude.Int.{pos, negsuc}
use gv.Memory.{null, Memory}
use gv.Memory.Invariant.{IsConsistent}
use gv.Run.{World, Call}
use gv.V8.{
  V8, Host, Local, Caught, Try, returned, threw, Kind, object, string, boolean, undefined,
  null_kind, promise, function, array, array_buffer, array_buffer_view, uint8_array, int8_array,
  uint8_clamped_array,
}
use gv.Control.{no_statistics}
use gv.Api.Safety.{V8Reaches, HostReaches}

pub record Toy : Type 0 where
  pub next : Local
  pub kinds : Local → ℕ
  pub bytes : Local → List ℕ

abbrev number_of : Kind → ℕ
number_of object = 1
number_of string = 2
number_of boolean = 3
number_of undefined = 4
number_of null_kind = 5
number_of promise = 6
number_of function = 7
number_of array = 8
number_of array_buffer = 9
number_of array_buffer_view = 10
number_of uint8_array = 11
number_of int8_array = 12
number_of uint8_clamped_array = 13

abbrev pub make : Kind → List ℕ → Toy → Local × Toy
make kind bytes e = (
  e.next,
  record {
    next = suc e.next;
    kinds = update e.kinds e.next (number_of kind);
    bytes = update e.bytes e.next bytes;
  },
)

-- The exception is a new text; nothing else is known of it.
abbrev throws : Local → Caught
throws h = record { exception = some h; message = none }

abbrev quiet : {A : Type 0} → (Toy → A) → Call Toy A
quiet f w = (f w.engine, w)

abbrev stirs : {A : Type 0} → (Toy → A × Toy) → Call Toy A
stirs f w = let (a, e) = f w.engine in (a, record w { engine = e })

abbrev some_of : Local × Toy → Try Local × Toy
some_of (h, e) = (returned h, e)

-- Value 1 is `undefined`, value 2 an exception with an empty text.
abbrev run_bytes : List ℕ → Try Local
run_bytes [] = threw (throws 2)
run_bytes (c ∷ t) = returned 1

abbrev pub toy : V8 Toy
toy = record {
  initialize_icu = λ t e. e;
  initialize_platform = λ e. e;
  initialize = λ e. e;
  new_default_allocator = λ e. (7, e);
  isolate_new = λ p e. (true, e);
  isolate_dispose = λ i e. e;
  current_isolate = λ e. 1;
  perform_microtask_checkpoint = λ i. quiet (λ e. tt);
  terminate_execution = λ i e. e;
  is_execution_terminating = λ i e. false;
  cancel_terminate_execution = λ i e. e;
  low_memory_notification = λ i e. e;
  memory_pressure_notification = λ i l e. e;
  get_heap_statistics = λ i e. no_statistics;
  throw_exception = λ i h e. e;
  context_new = λ i e. make object [] e;
  entered_context = λ i e. 3;
  current_context = λ i e. 3;
  global = λ c e. c;
  string_new_from_utf8 = λ i t n e. some_of (make string t e);
  utf8_value = λ i h. quiet (λ e. returned (e.bytes h));
  exception_error = λ t e. make object (e.bytes t) e;
  create_message = λ i h e.
      (record { resource_name = none; line_number = none; start_column = none; text = h }, e);
  stack_trace = λ c t. quiet (λ e. none);
  object_new = λ i e. make object [] e;
  array_new = λ i n e. make array [] e;
  function_new = λ c n e. some_of (make function [] e);
  resolver_new = λ c e. some_of (make promise [] e);
  boolean_new = λ i b e. 1;
  number_new = λ i d e. make object (d ∷ []) e;
  double_of_int64 = λ i. elim i [ pos n ↦ n | negsuc n ↦ n ];
  null_value = λ i e. 1;
  undefined_value = λ i e. 1;
  array_buffer_new = λ i b e. make array_buffer b e;
  uint8_array_new = λ b o n e. make array_buffer_view (e.bytes b) e;
  is = λ k h e. e.kinds h == number_of k;
  boolean_value = λ h e. true;
  integer_value = λ c h. quiet (λ e. none);
  uint32_value = λ c h. quiet (λ e. none);
  array_length = λ h e. 0;
  string_length = λ h e. length (e.bytes h);
  buffer_byte_length = λ h e. length (e.bytes h);
  view_byte_length = λ h e. length (e.bytes h);
  view_byte_offset = λ h e. 0;
  view_buffer = λ h e. h;
  backing_store = λ h e. e.bytes h;
  object_get = λ c o k. stirs (λ e. some_of (make function [] e));
  object_get_idx = λ c o i. stirs (λ e. some_of (make object [] e));
  object_has = λ c o k. quiet (λ e. some true);
  object_set = λ c o k h. quiet (λ e. threw (throws 2));
  object_set_idx = λ c o i h. quiet (λ e. returned true);
  function_call = λ c f r l. quiet (λ e. returned 1);
  promise_state = λ h e. pos 0;
  promise_result = λ h e. 1;
  resolver_promise = λ h e. h;
  resolver_resolve = λ c r h. quiet (λ e. returned true);
  resolver_reject = λ c r h. quiet (λ e. returned true);
  json_stringify = λ c h. quiet (λ e. returned h);
  json_parse = λ c h. quiet (λ e. returned h);
  compile = λ c s o e. (returned s, e);
  compile_unbound_script = λ i s o e. (returned s, e);
  compile_module = λ i s o e. (returned s, e);
  bind_to_current_context = λ c s e. (s, e);
  script_run = λ c s. quiet (λ e. run_bytes (e.bytes s));
  instantiate_module = λ c m. quiet (λ e. returned true);
  module_evaluate = λ c m. quiet (λ e. returned 1);
  module_namespace = λ m e. m;
  module_status = λ m e. pos 0;
  script_id = λ m e. pos 0;
  creator_new = λ p e. (9, e);
  creator_isolate = λ c e. 1;
  set_default_context = λ c h e. e;
  create_blob =
      λ c e. (record { bytes = some (0 ∷ 0 ∷ 0 ∷ 0 ∷ 1 ∷ 0 ∷ 0 ∷ 0 ∷ []); raw_size = pos 8 }, e);
  creator_delete = λ c e. e;
  startup_is_valid = λ t n. true;
}

-- A host that finds nothing.
abbrev pub mute : Host Toy
mute = record {
  resolve_module = λ r s m. quiet (λ e. record { found = null; error_value = null });
  resolve_dynamic_import = λ r s n. quiet (λ e. record { found = null; error_value = null });
  function_callback = λ r i t n l. quiet (λ e. record { found = null; error_value = null });
  promise_reject = λ r i e. quiet (λ e. tt);
}

abbrev pub start_memory : Memory
start_memory = record {
  next = 1;
  default_allocator = 0;
  made = 0;
  freed = 0;
  isolates = λ p. none;
  ctxs = λ p. none;
  values = λ p. none;
  scripts = λ p. none;
  modules = λ p. none;
  builders = λ p. none;
  startups = λ p. none;
  buffers = λ p. none;
  embedder = λ p. none;
}

abbrev pub start : World Toy
start = record { engine = record { next = 3; kinds = λ h. 0; bytes = λ h. [] }; mem = start_memory }

pub start-IsConsistent : IsConsistent start_memory
start-IsConsistent = record {
  distinct = λ p c e. cc;
  in_range = λ p c k q e l. cc;
  owned = λ p c k q e l. cc;
  listed = λ q v e n. cc;
  unused_ctx = λ p a. refl;
  unused_value = λ p a. refl;
  null_ctx = refl;
  null_value = refl;
  next_ne_null = omega arith;
}

pub toy-V8Reaches : V8Reaches toy
toy-V8Reaches m = record {
  microtasks = λ i. record { at = λ w h. h };
  utf8 = λ i a. record { at = λ w h. h };
  stack = λ c t. record { at = λ w h. h };
  integer = λ c a. record { at = λ w h. h };
  uint32 = λ c a. record { at = λ w h. h };
  get = λ c o k. record { at = λ w h. h };
  get_idx = λ c o i. record { at = λ w h. h };
  has = λ c o k. record { at = λ w h. h };
  set = λ c o k a. record { at = λ w h. h };
  set_idx = λ c o i a. record { at = λ w h. h };
  call = λ c f r l. record { at = λ w h. h };
  resolve = λ c r a. record { at = λ w h. h };
  reject = λ c r a. record { at = λ w h. h };
  stringify = λ c a. record { at = λ w h. h };
  parse = λ c a. record { at = λ w h. h };
  run = λ c s. record { at = λ w h. h };
  instantiate = λ c a. record { at = λ w h. h };
  evaluate = λ c a. record { at = λ w h. h };
}

pub mute-HostReaches : HostReaches mute
mute-HostReaches m = record {
  resolve_module = λ r s p. record { at = λ w h. h };
  resolve_dynamic_import = λ r s n. record { at = λ w h. h };
  function_callback = λ r i t n l. record { at = λ w h. h };
  promise_reject = λ r i e. record { at = λ w h. h };
}
