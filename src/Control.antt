-- ===== src/Control.antt =====
-- internal/gv8.cc: GV8IsolatePerformMicrotaskCheckpoint to GV8IsolateGetHeapStatistics, the calls on
-- a running isolate.
pub mod Keeps
use gv.Prelude.{ℕ, Bool, true, false, if◌then◌else◌, ◌==◌}
use gv.Prelude.Int.{ℤ, pos, negsuc}
use gv.Memory.{Ptr, null}
use gv.Run.{Cmd, pure, asks, engine, enter, memory, ◌>>=◌, ◌>>◌}
use gv.V8.{V8, HeapStatistics, MemoryPressureLevel, none_level, moderate, critical}
use gv.Scope.{iso_scope, load_isolate}
use gv.Results.{flag}
use gv.Isolate.{tell}

abbrev pub no_statistics : HeapStatistics
no_statistics = record {
  total_heap_size = 0;
  total_heap_size_executable = 0;
  total_physical_size = 0;
  total_available_size = 0;
  total_global_handles_size = 0;
  used_global_handles_size = 0;
  used_heap_size = 0;
  heap_size_limit = 0;
  malloced_memory = 0;
  external_memory = 0;
  peak_malloced_memory = 0;
  number_of_native_contexts = 0;
  number_of_detached_contexts = 0;
  total_allocated_bytes = 0;
}

-- The copy, field by field.
abbrev copy_statistics : HeapStatistics → HeapStatistics
copy_statistics stats = record {
  total_heap_size = stats.total_heap_size;
  total_heap_size_executable = stats.total_heap_size_executable;
  total_physical_size = stats.total_physical_size;
  total_available_size = stats.total_available_size;
  total_global_handles_size = stats.total_global_handles_size;
  used_global_handles_size = stats.used_global_handles_size;
  used_heap_size = stats.used_heap_size;
  heap_size_limit = stats.heap_size_limit;
  malloced_memory = stats.malloced_memory;
  external_memory = stats.external_memory;
  peak_malloced_memory = stats.peak_malloced_memory;
  number_of_native_contexts = stats.number_of_native_contexts;
  number_of_detached_contexts = stats.number_of_detached_contexts;
  total_allocated_bytes = stats.total_allocated_bytes;
}

-- The `switch` of GV8IsolateMemoryPressureNotification.
abbrev pressure_of : ℤ → MemoryPressureLevel
pressure_of (pos n) = if n == 1 then moderate else (if n == 2 then critical else none_level)
pressure_of (negsuc n) = none_level

module _ {E : Type 0} (v : V8 E) where
  -- GV8IsolatePerformMicrotaskCheckpoint
  pub isolate_perform_microtask_checkpoint : Ptr → Cmd E (Unit {0})
  isolate_perform_microtask_checkpoint iso = do
    iso_scope iso
    enter (v.perform_microtask_checkpoint iso)

  -- GV8IsolateTerminateExecution, …IsExecutionTerminating and …CancelTerminateExecution
  pub isolate_terminate_execution : Ptr → Cmd E (Unit {0})
  isolate_terminate_execution iso =
      if iso == null
      then pure tt
      else do _ ← memory (load_isolate iso); tell (v.terminate_execution iso)

  pub isolate_is_execution_terminating : Ptr → Cmd E ℤ
  isolate_is_execution_terminating iso = if iso == null then pure (pos 0) else do
    _ ← memory (load_isolate iso)
    b ← asks (v.is_execution_terminating iso)
    pure (flag b)

  pub isolate_cancel_terminate_execution : Ptr → Cmd E (Unit {0})
  isolate_cancel_terminate_execution iso =
      if iso == null
      then pure tt
      else do _ ← memory (load_isolate iso); tell (v.cancel_terminate_execution iso)

  -- GV8IsolateLowMemoryNotification
  pub isolate_low_memory_notification : Ptr → Cmd E (Unit {0})
  isolate_low_memory_notification iso =
      if iso == null then pure tt else do iso_scope iso; tell (v.low_memory_notification iso)

  -- GV8IsolateMemoryPressureNotification
  pub isolate_memory_pressure_notification : Ptr → ℤ → Cmd E (Unit {0})
  isolate_memory_pressure_notification iso level =
      if iso == null
      then pure tt
      else do iso_scope iso; tell (v.memory_pressure_notification iso (pressure_of level))

  -- GV8IsolateGetHeapStatistics
  pub isolate_get_heap_statistics : Ptr → Cmd E HeapStatistics
  isolate_get_heap_statistics iso =
      if iso == null
      then pure no_statistics
      else do iso_scope iso; stats ← asks (v.get_heap_statistics iso); pure (copy_statistics stats)
