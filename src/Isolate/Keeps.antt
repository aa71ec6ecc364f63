-- ===== src/Isolate/Keeps.antt =====
-- Rules for invariants of the memory: the life of isolates and contexts.
use gv.Prelude.{ℕ, Bool, none, some}
use gv.Prelude.Int.{ℤ}
use gv.Memory.{Ptr, Memory}
use gv.Run.Keeps.{Keeps}
use gv.V8.{V8, Text, CString, CreateParams}
use gv.V8.Reentry.{Stable}
use gv.Scope.Keeps.{scope_rules}
use gv.Scope.Objects.{object_rules}
use gv.Isolate.{
  init, create_context, initialize_gv8_isolate, internal_context, internal_compile_context,
  isolate_new, default_params, new_isolate, new_isolate_with_heap_limit, start_isolate,
  start_from_snapshot, start_with_data, new_isolate_with_snapshot, isolate_set_observer_ref,
  isolate_dispose, new_context,
}

module _ {E : Type 0} {P : Memory → Type 0} (stable : Stable P) where
  Keeps-internal_context : (iso : Ptr) → Keeps {E = E} P (internal_context iso)
  unfolding internal_context
  Keeps-internal_context iso = search (scope_rules) depth 24

  pub Keeps-default_params : Keeps {E = E} P default_params
  unfolding default_params
  Keeps-default_params = search (scope_rules, object_rules) depth 24

  pub Keeps-isolate_set_observer_ref :
      (iso : Ptr) (ref : ℤ) → Keeps {E = E} P (isolate_set_observer_ref iso ref)
  unfolding isolate_set_observer_ref
  Keeps-isolate_set_observer_ref iso ref = search (scope_rules, object_rules) depth 24

module _ {E : Type 0} (v : V8 E) {P : Memory → Type 0} (stable : Stable P) where
  pub Keeps-init : (t : CString) → Keeps P (init v t)
  unfolding init
  Keeps-init t = search (scope_rules, object_rules) depth 24

  Keeps-create_context : (iso ctx : Ptr) → Keeps P (create_context v iso ctx)
  unfolding create_context
  Keeps-create_context iso ctx = search (scope_rules, object_rules) depth 24

  Keeps-initialize_gv8_isolate : (iso : Ptr) (b : Bool) → Keeps P (initialize_gv8_isolate v iso b)
  unfolding initialize_gv8_isolate
  Keeps-initialize_gv8_isolate iso b =
      search (scope_rules, object_rules, Keeps-create_context) depth 24

  pub Keeps-internal_compile_context : (iso : Ptr) → Keeps P (internal_compile_context v iso)
  unfolding internal_compile_context
  Keeps-internal_compile_context iso =
      search (scope_rules, Keeps-internal_context, Keeps-create_context) depth 24

  Keeps-isolate_new : (c : CreateParams) → Keeps P (isolate_new v c)
  unfolding isolate_new
  Keeps-isolate_new c = search (scope_rules, object_rules) depth 24

  pub Keeps-new_isolate : Keeps P (new_isolate v)
  unfolding new_isolate
  Keeps-new_isolate =
      search (scope_rules, Keeps-default_params, Keeps-isolate_new, Keeps-initialize_gv8_isolate)
        depth 24

  pub Keeps-new_isolate_with_heap_limit : (i m : ℕ) → Keeps P (new_isolate_with_heap_limit v i m)
  unfolding new_isolate_with_heap_limit
  Keeps-new_isolate_with_heap_limit i m =
      search (scope_rules, Keeps-default_params, Keeps-isolate_new, Keeps-initialize_gv8_isolate)
        depth 24

  Keeps-start_isolate : (c : CreateParams) (s d : Ptr) → Keeps P (start_isolate v c s d)
  unfolding start_isolate
  Keeps-start_isolate c s d =
      search
        (
          scope_rules, object_rules, Keeps-isolate_new, Keeps-initialize_gv8_isolate,
          Keeps-internal_context,
        )
        depth 24

  Keeps-start_from_snapshot :
      (c : CreateParams) (t : Text) (n : ℤ) → Keeps P (start_from_snapshot v c t n)
  unfolding start_from_snapshot
  Keeps-start_from_snapshot c t n = search (scope_rules, object_rules, Keeps-start_isolate) depth 24

  Keeps-start_with_data :
      (c : CreateParams) (o : CString) (n : ℤ) → Keeps P (start_with_data v c o n)
  unfolding start_with_data
  Keeps-start_with_data c none n = search (scope_rules, Keeps-start_isolate) depth 8
  Keeps-start_with_data c (some t) n =
      search (scope_rules, Keeps-start_isolate, Keeps-start_from_snapshot) depth 8

  pub Keeps-new_isolate_with_snapshot :
      (o : CString) (n : ℤ) (i m : ℕ) → Keeps P (new_isolate_with_snapshot v o n i m)
  unfolding new_isolate_with_snapshot
  Keeps-new_isolate_with_snapshot o n i m =
      search (scope_rules, Keeps-default_params, Keeps-start_with_data) depth 24

  pub Keeps-isolate_dispose : (iso : Ptr) → Keeps P (isolate_dispose v iso)
  unfolding isolate_dispose
  Keeps-isolate_dispose iso = search (scope_rules, object_rules, Keeps-internal_context) depth 24

  pub Keeps-new_context : (iso : Ptr) (ref : ℤ) → Keeps P (new_context v iso ref)
  unfolding new_context
  Keeps-new_context iso ref = search (scope_rules, object_rules) depth 24
