-- ===== src/Script/Keeps.antt =====
-- Rules for invariants of the memory: scripts and modules.
use gv.Prelude.Int.{ℤ}
use gv.Memory.{Ptr, Memory}
use gv.Run.Keeps.{Keeps}
use gv.V8.{V8, Text, Local, Try, returned, threw}
use gv.V8.Reentry.{V8Keeps, Stable}
use gv.Scope.{Scope}
use gv.Scope.Keeps.{scope_rules}
use gv.Scope.Objects.{object_rules}
use gv.Results.Keeps.{result_rules}
use gv.Isolate.Keeps.{Keeps-internal_compile_context}
use gv.Script.{
  module_of, module_scope, unbound_script_release, module_release, run_compiled, context_run_script,
  script_result, compile_unbound_script, unbound_script_run, module_result, compile_module,
  module_instantiate, module_evaluate, module_get_namespace, module_get_status,
  module_get_script_id,
}

module _ {E : Type 0} {P : Memory → Type 0} where
  pub Keeps-module_of : (p : Ptr) → Keeps {E = E} P (module_of p)
  unfolding module_of
  Keeps-module_of p = search (scope_rules) depth 24

  Keeps-module_scope : (p : Ptr) → Keeps {E = E} P (module_scope p)
  unfolding module_scope
  Keeps-module_scope p = search (scope_rules) depth 24

module _ {E : Type 0} {P : Memory → Type 0} (stable : Stable P) where
  pub Keeps-unbound_script_release : (p : Ptr) → Keeps {E = E} P (unbound_script_release p)
  unfolding unbound_script_release
  Keeps-unbound_script_release p = search (scope_rules, object_rules) depth 24

  pub Keeps-module_release : (p : Ptr) → Keeps {E = E} P (module_release p)
  unfolding module_release
  Keeps-module_release p = search (scope_rules, object_rules) depth 24

module _ {E : Type 0} {v : V8 E} {P : Memory → Type 0} (stable : Stable P) (k : V8Keeps v P) where
  Keeps-run_compiled : (p : Ptr) (s : Scope) (t : Try Local) → Keeps P (run_compiled v p s t)
  unfolding run_compiled
  Keeps-run_compiled p s (threw c) = search (result_rules) depth 24
  Keeps-run_compiled p s (returned h) = search (result_rules, k.run) depth 24

  pub Keeps-context_run_script :
      (p : Ptr) (t n : Text) (l c : ℤ) → Keeps P (context_run_script v p t n l c)
  unfolding context_run_script
  Keeps-context_run_script p t n l c = search (result_rules, Keeps-run_compiled) depth 24

  Keeps-script_result :
      (iso : Ptr) (ctx : Local) (t : Try Local) → Keeps P (script_result v iso ctx t)
  unfolding script_result
  Keeps-script_result iso ctx (threw c) = search (result_rules) depth 24
  Keeps-script_result iso ctx (returned h) = search (result_rules, object_rules) depth 24

  pub Keeps-compile_unbound_script :
      (iso : Ptr) (t n : Text) (l c : ℤ) → Keeps P (compile_unbound_script v iso t n l c)
  unfolding compile_unbound_script
  Keeps-compile_unbound_script iso t n l c =
      search (result_rules, Keeps-internal_compile_context, Keeps-script_result) depth 24

  pub Keeps-unbound_script_run : (p q : Ptr) → Keeps P (unbound_script_run v p q)
  unfolding unbound_script_run
  Keeps-unbound_script_run p q = search (result_rules, k.run) depth 24

  Keeps-module_result :
      (iso : Ptr) (ctx : Local) (t : Try Local) → Keeps P (module_result v iso ctx t)
  unfolding module_result
  Keeps-module_result iso ctx (threw c) = search (result_rules) depth 24
  Keeps-module_result iso ctx (returned h) = search (result_rules, object_rules) depth 24

  pub Keeps-compile_module :
      (iso : Ptr) (t n : Text) (l c : ℤ) → Keeps P (compile_module v iso t n l c)
  unfolding compile_module
  Keeps-compile_module iso t n l c =
      search (result_rules, Keeps-internal_compile_context, Keeps-module_result) depth 24

  pub Keeps-module_instantiate : (p q : Ptr) → Keeps P (module_instantiate v p q)
  unfolding module_instantiate
  Keeps-module_instantiate p q = search (result_rules, Keeps-module_of, k.instantiate) depth 24

  pub Keeps-module_evaluate : (p q : Ptr) → Keeps P (module_evaluate v p q)
  unfolding module_evaluate
  Keeps-module_evaluate p q = search (result_rules, Keeps-module_of, k.evaluate) depth 24

  pub Keeps-module_get_namespace : (p q : Ptr) → Keeps P (module_get_namespace v p q)
  unfolding module_get_namespace
  Keeps-module_get_namespace p q = search (result_rules, Keeps-module_of) depth 24

  pub Keeps-module_get_status : (p : Ptr) → Keeps P (module_get_status v p)
  unfolding module_get_status
  Keeps-module_get_status p = search (result_rules, Keeps-module_of, Keeps-module_scope) depth 24

  pub Keeps-module_get_script_id : (p : Ptr) → Keeps P (module_get_script_id v p)
  unfolding module_get_script_id
  Keeps-module_get_script_id p = search (result_rules, Keeps-module_of, Keeps-module_scope) depth 24
