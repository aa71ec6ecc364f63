-- ===== src/Control/Keeps.antt =====
-- Rules for invariants of the memory: the calls on a running isolate.
use gv.Prelude.Int.{ℤ}
use gv.Memory.{Ptr, Memory}
use gv.Run.Keeps.{Keeps}
use gv.V8.{V8}
use gv.V8.Reentry.{V8Keeps, Stable}
use gv.Scope.Keeps.{scope_rules}
use gv.Control.{
  isolate_perform_microtask_checkpoint, isolate_terminate_execution,
  isolate_is_execution_terminating, isolate_cancel_terminate_execution,
  isolate_low_memory_notification, isolate_memory_pressure_notification,
  isolate_get_heap_statistics,
}

module _ {E : Type 0} {v : V8 E} {P : Memory → Type 0} (stable : Stable P) (k : V8Keeps v P) where
  pub Keeps-isolate_perform_microtask_checkpoint :
      (iso : Ptr) → Keeps P (isolate_perform_microtask_checkpoint v iso)
  unfolding isolate_perform_microtask_checkpoint
  Keeps-isolate_perform_microtask_checkpoint iso = search (scope_rules, k.microtasks) depth 12

  pub Keeps-isolate_terminate_execution : (iso : Ptr) → Keeps P (isolate_terminate_execution v iso)
  unfolding isolate_terminate_execution
  Keeps-isolate_terminate_execution iso = search (scope_rules) depth 12

  pub Keeps-isolate_is_execution_terminating :
      (iso : Ptr) → Keeps P (isolate_is_execution_terminating v iso)
  unfolding isolate_is_execution_terminating
  Keeps-isolate_is_execution_terminating iso = search (scope_rules) depth 12

  pub Keeps-isolate_cancel_terminate_execution :
      (iso : Ptr) → Keeps P (isolate_cancel_terminate_execution v iso)
  unfolding isolate_cancel_terminate_execution
  Keeps-isolate_cancel_terminate_execution iso = search (scope_rules) depth 12

  pub Keeps-isolate_low_memory_notification :
      (iso : Ptr) → Keeps P (isolate_low_memory_notification v iso)
  unfolding isolate_low_memory_notification
  Keeps-isolate_low_memory_notification iso = search (scope_rules) depth 12

  pub Keeps-isolate_memory_pressure_notification :
      (iso : Ptr) (level : ℤ) → Keeps P (isolate_memory_pressure_notification v iso level)
  unfolding isolate_memory_pressure_notification
  Keeps-isolate_memory_pressure_notification iso level = search (scope_rules) depth 12

  pub Keeps-isolate_get_heap_statistics : (iso : Ptr) → Keeps P (isolate_get_heap_statistics v iso)
  unfolding isolate_get_heap_statistics
  Keeps-isolate_get_heap_statistics iso = search (scope_rules) depth 12
