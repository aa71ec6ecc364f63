-- ===== src/V8/Reentry.antt =====
-- What is assumed of user code: it reaches the program's memory through the program's own steps only.
use gv.Prelude.{ℕ, List}
use gv.Prelude.Int.{ℤ}
use gv.Memory.{Ptr, Memory}
use gv.Memory.Steps.{Step}
use gv.Run.Keeps.{CallKeeps}
use gv.V8.{V8, Host, Local, Caught, CString, RtnError}

-- A property of the memory that no step of the program breaks.
pub record Stable (P : Memory → Type 0) : Type 0 where
  pub step : (m m' : Memory) → Step m m' → P m → P m'

-- Each call that can run user code keeps what the program's steps keep.
pub record V8Keeps {E : Type 0} (v : V8 E) (P : Memory → Type 0) : Type 0 where
  pub microtasks : (iso : Ptr) → CallKeeps P (v.perform_microtask_checkpoint iso)
  pub utf8 : (iso : Ptr) (h : Local) → CallKeeps P (v.utf8_value iso h)
  pub stack : (ctx : Local) (c : Caught) → CallKeeps P (v.stack_trace ctx c)
  pub integer : (ctx h : Local) → CallKeeps P (v.integer_value ctx h)
  pub uint32 : (ctx h : Local) → CallKeeps P (v.uint32_value ctx h)
  pub get : (ctx o k : Local) → CallKeeps P (v.object_get ctx o k)
  pub get_idx : (ctx o : Local) (i : ℕ) → CallKeeps P (v.object_get_idx ctx o i)
  pub has : (ctx o k : Local) → CallKeeps P (v.object_has ctx o k)
  pub set : (ctx o k h : Local) → CallKeeps P (v.object_set ctx o k h)
  pub set_idx : (ctx o : Local) (i : ℕ) (h : Local) → CallKeeps P (v.object_set_idx ctx o i h)
  pub call : (ctx f r : Local) (args : List Local) → CallKeeps P (v.function_call ctx f r args)
  pub resolve : (ctx r h : Local) → CallKeeps P (v.resolver_resolve ctx r h)
  pub reject : (ctx r h : Local) → CallKeeps P (v.resolver_reject ctx r h)
  pub stringify : (ctx h : Local) → CallKeeps P (v.json_stringify ctx h)
  pub parse : (ctx h : Local) → CallKeeps P (v.json_parse ctx h)
  pub run : (ctx s : Local) → CallKeeps P (v.script_run ctx s)
  pub instantiate : (ctx h : Local) → CallKeeps P (v.instantiate_module ctx h)
  pub evaluate : (ctx h : Local) → CallKeeps P (v.module_evaluate ctx h)

pub record HostKeeps {E : Type 0} (h : Host E) (P : Memory → Type 0) : Type 0 where
  pub resolve_module :
      (ref : ℤ) (spec : CString) (r : Ptr) → CallKeeps P (h.resolve_module ref spec r)
  pub resolve_dynamic_import :
      (ref : ℤ) (spec name : CString) → CallKeeps P (h.resolve_dynamic_import ref spec name)
  pub function_callback :
      (ref id : ℤ) (recv : Ptr) (argc : ℤ) (argv : List Ptr)
      → CallKeeps P (h.function_callback ref id recv argc argv)
  pub promise_reject : (ref event : ℤ) (e : RtnError) → CallKeeps P (h.promise_reject ref event e)
