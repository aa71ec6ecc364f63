-- ===== src/Callback/Keeps.antt =====
-- Rules for invariants of the memory: the callbacks.
use gv.Prelude.{Option, none, some, List, [], ◌∷◌}
use gv.Prelude.Int.{ℤ}
use gv.Memory.{Ptr, Memory}
use gv.Run.Keeps.{Keeps, Keeps-bind, Keeps-pure, Keeps-memory}
use gv.V8.{V8, Host, Local, HostResult}
use gv.V8.Reentry.{V8Keeps, HostKeeps, Stable}
use gv.Scope.Keeps.{MemKeeps-wrap_borrowed_value, MemKeeps-value_release, scope_rules}
use gv.Scope.Objects.{object_rules}
use gv.Results.Keeps.{result_rules}
use gv.Script.Keeps.{Keeps-module_of}
use gv.Callback.{
  wrap_args, release_args, handle_if, found_module, found_promise, hand_value, throw_value,
  hand_back, resolve_module_callback, dynamic_import_callback, host_function_callback,
  on_promise_reject,
}

module _ {E : Type 0} {P : Memory → Type 0} (stable : Stable P) where
  Keeps-wrap_args : (ctx iso : Ptr) (args : List Local) → Keeps {E = E} P (wrap_args ctx iso args)
  unfolding wrap_args
  Keeps-wrap_args ctx iso [] = search scope_rules
  Keeps-wrap_args ctx iso (h ∷ args) =
      Keeps-bind _ _ (Keeps-memory _ (MemKeeps-wrap_borrowed_value stable ctx iso h))
        λ p. Keeps-bind _ _ (Keeps-wrap_args ctx iso args) λ rest. Keeps-pure (p ∷ rest)

  Keeps-release_args : (argv : List Ptr) → Keeps {E = E} P (release_args argv)
  unfolding release_args
  Keeps-release_args [] = search scope_rules
  Keeps-release_args (p ∷ argv) =
      Keeps-bind _ _ (Keeps-memory _ (MemKeeps-value_release stable p)) λ _. Keeps-release_args argv

  Keeps-handle_if : (p : Ptr) → Keeps {E = E} P (handle_if p)
  unfolding handle_if
  Keeps-handle_if p = search (scope_rules) depth 24

  Keeps-found_module : (p : Ptr) → Keeps {E = E} P (found_module p)
  unfolding found_module
  Keeps-found_module p = search (scope_rules, Keeps-module_of) depth 24

  Keeps-found_promise : (p : Ptr) → Keeps {E = E} P (found_promise p)
  unfolding found_promise
  Keeps-found_promise p = search (scope_rules) depth 24

  Keeps-hand_value : (p : Ptr) (h : Option Local) → Keeps {E = E} P (hand_value p h)
  unfolding hand_value
  Keeps-hand_value p none = search scope_rules
  Keeps-hand_value p (some h) = search scope_rules depth 12

module _ {E : Type 0} {P : Memory → Type 0} (v : V8 E) (stable : Stable P) where
  Keeps-throw_value : (iso p : Ptr) → Keeps P (throw_value v iso p)
  unfolding throw_value
  Keeps-throw_value iso p = search (scope_rules) depth 24

  Keeps-hand_back :
      (iso : Ptr) (r : HostResult) (e h : Option Local) → Keeps P (hand_back v iso r e h)
  unfolding hand_back
  Keeps-hand_back iso r e h = search (scope_rules, Keeps-hand_value) depth 24

module _ {E : Type 0} {v : V8 E} {host : Host E} {P : Memory → Type 0} (stable : Stable P)
    (k : V8Keeps v P) (g : HostKeeps host P) where
  pub Keeps-resolve_module_callback :
      (c s r : Local) → Keeps P (resolve_module_callback v host c s r)
  unfolding resolve_module_callback
  Keeps-resolve_module_callback c s r =
      search (result_rules, object_rules, Keeps-found_module, Keeps-throw_value, g.resolve_module)
        depth 32

  pub Keeps-dynamic_import_callback :
      (c n s : Local) → Keeps P (dynamic_import_callback v host c n s)
  unfolding dynamic_import_callback
  Keeps-dynamic_import_callback c n s =
      search
        (
          result_rules, object_rules, Keeps-found_promise, Keeps-throw_value,
          g.resolve_dynamic_import,
        )
        depth 32

  pub Keeps-host_function_callback :
      (iso : Ptr) (this : Local) (args : List Local) (id : ℤ)
      → Keeps P (host_function_callback v host iso this args id)
  unfolding host_function_callback
  Keeps-host_function_callback iso this args id =
      search
        (
          result_rules, object_rules, Keeps-wrap_args, Keeps-release_args, Keeps-handle_if,
          Keeps-hand_back, g.function_callback,
        )
        depth 40

  pub Keeps-on_promise_reject : (h : Local) (event : ℤ) → Keeps P (on_promise_reject v host h event)
  unfolding on_promise_reject
  Keeps-on_promise_reject h event = search (result_rules, g.promise_reject) depth 32
