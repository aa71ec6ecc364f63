-- ===== src/Promise/Keeps.antt =====
-- Rules for invariants of the memory: the operations on promises.
use gv.Memory.{Ptr, Memory}
use gv.Run.Keeps.{Keeps}
use gv.V8.{V8}
use gv.V8.Reentry.{V8Keeps, Stable}
use gv.Results.Keeps.{result_rules}
use gv.Promise.{
  promise_state, promise_result, promise_resolver_get_promise, promise_resolver_resolve,
  promise_resolver_reject,
}

module _ {E : Type 0} {v : V8 E} {P : Memory → Type 0} (stable : Stable P) (k : V8Keeps v P) where
  pub Keeps-promise_state : (p : Ptr) → Keeps P (promise_state v p)
  unfolding promise_state
  Keeps-promise_state p = search result_rules depth 24

  pub Keeps-promise_result : (p : Ptr) → Keeps P (promise_result v p)
  unfolding promise_result
  Keeps-promise_result p = search result_rules depth 24

  pub Keeps-promise_resolver_get_promise : (p : Ptr) → Keeps P (promise_resolver_get_promise v p)
  unfolding promise_resolver_get_promise
  Keeps-promise_resolver_get_promise p = search result_rules depth 24

  pub Keeps-promise_resolver_resolve : (p q : Ptr) → Keeps P (promise_resolver_resolve v p q)
  unfolding promise_resolver_resolve
  Keeps-promise_resolver_resolve p q = search (result_rules, k.resolve) depth 24

  pub Keeps-promise_resolver_reject : (p q : Ptr) → Keeps P (promise_resolver_reject v p q)
  unfolding promise_resolver_reject
  Keeps-promise_resolver_reject p q = search (result_rules, k.reject) depth 24
