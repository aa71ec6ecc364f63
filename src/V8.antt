-- ===== src/V8.antt =====
-- What internal/gv8.cc takes from V8 and from the Go side: their calls, as parameters.
pub mod Reentry
use gv.Prelude.{ℕ, Bool, Option, none, some, List}
use gv.Prelude.Int.{ℤ}
use gv.Memory.{Ptr}
use gv.Run.{World, Call}

-- The bytes of a C string, and a `const char*`, which may be null.
abbrev pub Text : Type 0
Text = List ℕ

abbrev pub CString : Type 0
CString = Option Text

-- A `v8::Local`: the identity of an object of V8's heap.
abbrev pub Local : Type 0
Local = ℕ

-- `v8::ScriptOrigin`, the parts that the program sets.
pub record Origin : Type 0 where
  pub resource_name : Local
  pub line_offset : ℤ
  pub column_offset : ℤ
  pub is_module : Bool

-- `v8::Message`
pub record Message : Type 0 where
  pub resource_name : Option Local
  pub line_number : Option ℤ
  pub start_column : Option ℤ
  pub text : Local

-- What a `v8::TryCatch` has caught; it can be nothing, also after a call that failed.
pub record Caught : Type 0 where
  pub exception : Option Local
  pub message : Option Message

-- A call that gives a value, or fails and leaves this in the TryCatch around it.
pub data Try (A : Type 0) : Type 0 where
  returned : A → Try A
  threw : Caught → Try A

-- `ToLocal(&h)`
abbrev pub value_of : {A : Type 0} → Try A → Option A
value_of (returned a) = some a
value_of (threw c) = none

-- `v8::Isolate::CreateParams`; the heap sizes are set by `ConfigureDefaultsFromHeapSize`.
pub record CreateParams : Type 0 where
  pub array_buffer_allocator : Ptr
  pub heap_size : Option (ℕ × ℕ)
  pub snapshot_blob : Ptr

-- What `GetHeapStatistics` fills in.
pub record HeapStatistics : Type 0 where
  pub total_heap_size : ℕ
  pub total_heap_size_executable : ℕ
  pub total_physical_size : ℕ
  pub total_available_size : ℕ
  pub total_global_handles_size : ℕ
  pub used_global_handles_size : ℕ
  pub used_heap_size : ℕ
  pub heap_size_limit : ℕ
  pub malloced_memory : ℕ
  pub external_memory : ℕ
  pub peak_malloced_memory : ℕ
  pub number_of_native_contexts : ℕ
  pub number_of_detached_contexts : ℕ
  pub total_allocated_bytes : ℕ

pub data MemoryPressureLevel : Type 0 where
  none_level moderate critical : MemoryPressureLevel

-- The questions `Is…()` that the program asks of a value.
pub data Kind : Type 0 where
  object string boolean undefined null_kind promise function : Kind
  array array_buffer array_buffer_view uint8_array int8_array uint8_clamped_array : Kind

-- What `CreateBlob` returns.
pub record Blob : Type 0 where
  pub bytes : CString
  pub raw_size : ℤ

-- V8. A double is its bit pattern. Calls that only read V8's state are functions of `E`; calls that
-- can run JavaScript, and through it the host's callbacks, are of type `Call`.
pub record V8 (E : Type 0) : Type 0 where
  pub initialize_icu : Text → E → E
  pub initialize_platform : E → E
  pub initialize : E → E
  pub new_default_allocator : E → Ptr × E
  pub isolate_new : CreateParams → E → Bool × E
  pub isolate_dispose : Ptr → E → E
  pub current_isolate : E → Ptr
  pub perform_microtask_checkpoint : Ptr → Call E (Unit {0})
  pub terminate_execution : Ptr → E → E
  pub is_execution_terminating : Ptr → E → Bool
  pub cancel_terminate_execution : Ptr → E → E
  pub low_memory_notification : Ptr → E → E
  pub memory_pressure_notification : Ptr → MemoryPressureLevel → E → E
  pub get_heap_statistics : Ptr → E → HeapStatistics
  pub throw_exception : Ptr → Local → E → E
  pub context_new : Ptr → E → Local × E
  pub entered_context : Ptr → E → Local
  pub current_context : Ptr → E → Local
  pub global : Local → E → Local
  pub string_new_from_utf8 : Ptr → Text → ℤ → E → Try Local × E
  pub utf8_value : Ptr → Local → Call E (Try Text)
  pub exception_error : Local → E → Local × E
  pub create_message : Ptr → Local → E → Message × E
  pub stack_trace : Local → Caught → Call E (Option Local)
  pub object_new : Ptr → E → Local × E
  pub array_new : Ptr → ℤ → E → Local × E
  pub function_new : Local → ℤ → E → Try Local × E
  pub resolver_new : Local → E → Try Local × E
  pub boolean_new : Ptr → Bool → E → Local
  pub number_new : Ptr → ℕ → E → Local × E
  pub double_of_int64 : ℤ → ℕ
  pub null_value : Ptr → E → Local
  pub undefined_value : Ptr → E → Local
  pub array_buffer_new : Ptr → List ℕ → E → Local × E
  pub uint8_array_new : Local → ℕ → ℕ → E → Local × E
  pub is : Kind → Local → E → Bool
  pub boolean_value : Local → E → Bool
  pub integer_value : Local → Local → Call E (Option ℤ)
  pub uint32_value : Local → Local → Call E (Option ℕ)
  pub array_length : Local → E → ℕ
  pub string_length : Local → E → ℕ
  pub buffer_byte_length : Local → E → ℕ
  pub view_byte_length : Local → E → ℕ
  pub view_byte_offset : Local → E → ℕ
  pub view_buffer : Local → E → Local
  pub backing_store : Local → E → List ℕ
  pub object_get : Local → Local → Local → Call E (Try Local)
  pub object_get_idx : Local → Local → ℕ → Call E (Try Local)
  pub object_has : Local → Local → Local → Call E (Option Bool)
  pub object_set : Local → Local → Local → Local → Call E (Try Bool)
  pub object_set_idx : Local → Local → ℕ → Local → Call E (Try Bool)
  pub function_call : Local → Local → Local → List Local → Call E (Try Local)
  pub promise_state : Local → E → ℤ
  pub promise_result : Local → E → Local
  pub resolver_promise : Local → E → Local
  pub resolver_resolve : Local → Local → Local → Call E (Try Bool)
  pub resolver_reject : Local → Local → Local → Call E (Try Bool)
  pub json_stringify : Local → Local → Call E (Try Local)
  pub json_parse : Local → Local → Call E (Try Local)
  pub compile : Local → Local → Origin → E → Try Local × E
  pub compile_unbound_script : Ptr → Local → Origin → E → Try Local × E
  pub compile_module : Ptr → Local → Origin → E → Try Local × E
  pub bind_to_current_context : Local → Local → E → Local × E
  pub script_run : Local → Local → Call E (Try Local)
  pub instantiate_module : Local → Local → Call E (Try Bool)
  pub module_evaluate : Local → Local → Call E (Try Local)
  pub module_namespace : Local → E → Local
  pub module_status : Local → E → ℤ
  pub script_id : Local → E → ℤ
  pub creator_new : CreateParams → E → ℕ × E
  pub creator_isolate : ℕ → E → Ptr
  pub set_default_context : ℕ → Local → E → E
  pub create_blob : ℕ → E → Blob × E
  pub creator_delete : ℕ → E → E
  pub startup_is_valid : Text → ℤ → Bool

-- `GV8RtnError` of gv8.h
pub record RtnError : Type 0 where
  pub msg : CString
  pub location : CString
  pub stack : CString

-- The results of the three resolving callbacks: a pointer to what was found, and to an error value.
pub record HostResult : Type 0 where
  pub found : Ptr
  pub error_value : Ptr

-- The callbacks of the Go side. A `char*` argument may be null.
pub record Host (E : Type 0) : Type 0 where
  pub resolve_module : ℤ → CString → Ptr → Call E HostResult
  pub resolve_dynamic_import : ℤ → CString → CString → Call E HostResult
  pub function_callback : ℤ → ℤ → Ptr → ℤ → List Ptr → Call E HostResult
  pub promise_reject : ℤ → ℤ → RtnError → Call E (Unit {0})
