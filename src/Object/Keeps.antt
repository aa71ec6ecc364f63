-- ===== src/Object/Keeps.antt =====
-- Rules for invariants of the memory: the operations on objects.
use gv.Prelude.{ℕ, zero, suc, List, [], ◌∷◌}
use gv.Prelude.Int.{ℤ, pos, negsuc}
use gv.Memory.{Ptr, Memory}
use gv.Run.Keeps.{Keeps, Keeps-bind, Keeps-pure}
use gv.V8.{V8, Text, Local, Try, returned, threw}
use gv.V8.Reentry.{V8Keeps, Stable}
use gv.Scope.{Scope}
use gv.Scope.Keeps.{Keeps-handle_of, scope_rules}
use gv.Results.Keeps.{result_rules}
use gv.Object.{
  read_args, reserve, object_get, object_get_idx, object_has, object_set, object_set_idx,
  value_call, object_call_method, stringify_result, json_stringify, parse_text, json_parse,
}

module _ {E : Type 0} {P : Memory → Type 0} where
  Keeps-read_args : (n : ℕ) (argv : List Ptr) → Keeps {E = E} P (read_args n argv)
  unfolding read_args
  Keeps-read_args zero argv = search scope_rules
  Keeps-read_args (suc n) [] = search scope_rules
  Keeps-read_args (suc n) (p ∷ argv) =
      Keeps-bind _ _ (Keeps-handle_of p)
        λ h. Keeps-bind _ _ (Keeps-read_args n argv) λ rest. Keeps-pure (h ∷ rest)

  Keeps-reserve : (n : ℤ) → Keeps {E = E} P (reserve n)
  unfolding reserve
  Keeps-reserve (pos n) = search scope_rules
  Keeps-reserve (negsuc n) = search scope_rules

module _ {E : Type 0} {v : V8 E} {P : Memory → Type 0} (stable : Stable P) (k : V8Keeps v P) where
  pub Keeps-object_get : (p : Ptr) (t : Text) → Keeps P (object_get v p t)
  unfolding object_get
  Keeps-object_get p t = search (result_rules, k.get) depth 24

  pub Keeps-object_get_idx : (p : Ptr) (i : ℕ) → Keeps P (object_get_idx v p i)
  unfolding object_get_idx
  Keeps-object_get_idx p i = search (result_rules, k.get_idx) depth 24

  pub Keeps-object_has : (p : Ptr) (t : Text) → Keeps P (object_has v p t)
  unfolding object_has
  Keeps-object_has p t = search (result_rules, k.has) depth 24

  pub Keeps-object_set : (p : Ptr) (t : Text) (q : Ptr) → Keeps P (object_set v p t q)
  unfolding object_set
  Keeps-object_set p t q = search (result_rules, k.set) depth 24

  pub Keeps-object_set_idx : (p : Ptr) (i : ℕ) (q : Ptr) → Keeps P (object_set_idx v p i q)
  unfolding object_set_idx
  Keeps-object_set_idx p i q = search (result_rules, k.set_idx) depth 24

  pub Keeps-value_call : (p r : Ptr) (n : ℤ) (argv : List Ptr) → Keeps P (value_call v p r n argv)
  unfolding value_call
  Keeps-value_call p r n argv =
      search (result_rules, k.call, Keeps-read_args, Keeps-reserve) depth 24

  pub Keeps-object_call_method :
      (p : Ptr) (t : Text) (n : ℤ) (argv : List Ptr) → Keeps P (object_call_method v p t n argv)
  unfolding object_call_method
  Keeps-object_call_method p t n argv =
      search (result_rules, Keeps-object_get, Keeps-value_call) depth 24

  Keeps-stringify_result : (s : Scope) (t : Try Local) → Keeps P (stringify_result v s t)
  unfolding stringify_result
  Keeps-stringify_result s (returned h) = search result_rules depth 12
  Keeps-stringify_result s (threw c) = search result_rules depth 12

  pub Keeps-json_stringify : (p q : Ptr) → Keeps P (json_stringify v p q)
  unfolding json_stringify
  Keeps-json_stringify p q = search (result_rules, k.stringify, Keeps-stringify_result) depth 24

  Keeps-parse_text : (p : Ptr) (s : Scope) (t : Try Local) → Keeps P (parse_text v p s t)
  unfolding parse_text
  Keeps-parse_text p s (threw c) = search result_rules depth 12
  Keeps-parse_text p s (returned h) = search (result_rules, k.parse) depth 12

  pub Keeps-json_parse : (p : Ptr) (t : Text) (n : ℤ) → Keeps P (json_parse v p t n)
  unfolding json_parse
  Keeps-json_parse p t n = search (result_rules, Keeps-parse_text) depth 24
