-- ===== src/Values/Keeps.antt =====
-- Rules for invariants of the memory: the operations that read a value.
use gv.Prelude.{Option, none, some}
use gv.Memory.{Ptr, Memory}
use gv.Run.Keeps.{Keeps}
use gv.V8.{V8, Text, Local, Try, returned, threw, Kind}
use gv.V8.Reentry.{V8Keeps, Stable}
use gv.Scope.{Scope}
use gv.Scope.Keeps.{scope_rules}
use gv.Results.Keeps.{result_rules}
use gv.Values.{
  Window, copy_window, value_retain, string_result, value_to_string, value_to_integer,
  value_to_boolean, value_is, buffer_window, view_window, window_of, value_bytes,
  length_of_property, object_length, length_of, value_len,
}

module _ {E : Type 0} {P : Memory → Type 0} where
  Keeps-copy_window : (o : Option Window) → Keeps {E = E} P (copy_window o)
  unfolding copy_window
  Keeps-copy_window none = search scope_rules
  Keeps-copy_window (some w) = search scope_rules depth 12

module _ {E : Type 0} {v : V8 E} {P : Memory → Type 0} (stable : Stable P) (k : V8Keeps v P) where
  pub Keeps-value_retain : (p : Ptr) → Keeps P (value_retain v p)
  unfolding value_retain
  Keeps-value_retain p = search result_rules depth 24

  Keeps-string_result : (s : Scope) (t : Try Text) → Keeps P (string_result v s t)
  unfolding string_result
  Keeps-string_result s (returned h) = search result_rules depth 12
  Keeps-string_result s (threw c) = search result_rules depth 12

  pub Keeps-value_to_string : (p : Ptr) → Keeps P (value_to_string v p)
  unfolding value_to_string
  Keeps-value_to_string p = search (result_rules, k.utf8, Keeps-string_result) depth 24

  pub Keeps-value_to_integer : (p : Ptr) → Keeps P (value_to_integer v p)
  unfolding value_to_integer
  Keeps-value_to_integer p = search (result_rules, k.integer) depth 24

  pub Keeps-value_to_boolean : (p : Ptr) → Keeps P (value_to_boolean v p)
  unfolding value_to_boolean
  Keeps-value_to_boolean p = search result_rules depth 24

  pub Keeps-value_is : (i : Kind) (p : Ptr) → Keeps P (value_is v i p)
  unfolding value_is
  Keeps-value_is i p = search result_rules depth 24

  pub Keeps-value_bytes : (p : Ptr) → Keeps P (value_bytes v p)
  unfolding value_bytes window_of buffer_window view_window
  Keeps-value_bytes p = search (result_rules, Keeps-copy_window) depth 40

  Keeps-length_of_property : (s : Scope) (t : Try Local) → Keeps P (length_of_property v s t)
  unfolding length_of_property
  Keeps-length_of_property s (returned h) = search (result_rules, k.uint32) depth 12
  Keeps-length_of_property s (threw c) = search result_rules depth 12

  Keeps-object_length : (s : Scope) (h : Local) → Keeps P (object_length v s h)
  unfolding object_length
  Keeps-object_length s h = search (result_rules, k.get, Keeps-length_of_property) depth 24

  Keeps-length_of : (s : Scope) (h : Local) → Keeps P (length_of v s h)
  unfolding length_of
  Keeps-length_of s h = search (result_rules, Keeps-object_length) depth 40

  pub Keeps-value_len : (p : Ptr) → Keeps P (value_len v p)
  unfolding value_len
  Keeps-value_len p = search (result_rules, Keeps-length_of) depth 24
