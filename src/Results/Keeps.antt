-- ===== src/Results/Keeps.antt =====
-- Rules for the making of results.
use gv.Prelude.{Bool}
use gv.Memory.{Ptr, Memory}
use gv.Run.Keeps.{Keeps}
use gv.V8.{V8, Local, Try, returned, threw}
use gv.V8.Reentry.{V8Keeps, Stable}
use gv.Scope.{Scope}
use gv.Scope.Keeps.{scope_rules}
use gv.Errors.Keeps.{error_rules}
use gv.Results.{wrap_result, wrap_result_beside, error_result}

module _ {E : Type 0} {v : V8 E} {P : Memory → Type 0} (stable : Stable P) (k : V8Keeps v P) where
  pub Keeps-wrap_result : (p : Ptr) (s : Scope) (t : Try Local) → Keeps P (wrap_result v p s t)
  unfolding wrap_result
  Keeps-wrap_result p s (returned h) = search (scope_rules, error_rules) depth 12
  Keeps-wrap_result p s (threw c) = search (scope_rules, error_rules) depth 12

  pub Keeps-wrap_result_beside :
      (p : Ptr) (s : Scope) (t : Try Local) → Keeps P (wrap_result_beside v p s t)
  unfolding wrap_result_beside
  Keeps-wrap_result_beside p s (returned h) = search (scope_rules, error_rules) depth 12
  Keeps-wrap_result_beside p s (threw c) = search (scope_rules, error_rules) depth 12

module _ {E : Type 0} {v : V8 E} {P : Memory → Type 0} (k : V8Keeps v P) where
  pub Keeps-error_result : (s : Scope) (t : Try Bool) → Keeps P (error_result v s t)
  unfolding error_result
  Keeps-error_result s (returned b) = search scope_rules
  Keeps-error_result s (threw c) = search (scope_rules, error_rules) depth 12

pub ruleset result_rules =
    (scope_rules, error_rules, Keeps-wrap_result, Keeps-wrap_result_beside, Keeps-error_result)
