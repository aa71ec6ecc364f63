-- ===== src/Creation/Keeps.antt =====
-- Rules for invariants of the memory: the making of values.
use gv.Prelude.{ℕ}
use gv.Prelude.Int.{ℤ}
use gv.Memory.{Ptr, Memory}
use gv.Run.Keeps.{Keeps}
use gv.V8.{V8, Text, CString}
use gv.V8.Reentry.{V8Keeps, Stable}
use gv.Results.Keeps.{result_rules}
use gv.Creation.{
  context_global, context_new_object, context_new_array, context_new_function,
  context_new_promise_resolver, new_string, new_boolean, new_number, new_integer, new_null,
  new_undefined, new_error_value, new_array_buffer_copy, new_uint8_array_copy,
}

module _ {E : Type 0} {v : V8 E} {P : Memory → Type 0} (stable : Stable P) (k : V8Keeps v P) where
  pub Keeps-context_global : (p : Ptr) → Keeps P (context_global v p)
  unfolding context_global
  Keeps-context_global p = search (result_rules) depth 24

  pub Keeps-context_new_object : (p : Ptr) → Keeps P (context_new_object v p)
  unfolding context_new_object
  Keeps-context_new_object p = search (result_rules) depth 24

  pub Keeps-context_new_array : (p : Ptr) (n : ℕ) → Keeps P (context_new_array v p n)
  unfolding context_new_array
  Keeps-context_new_array p n = search (result_rules) depth 24

  pub Keeps-context_new_function : (p : Ptr) (id : ℤ) → Keeps P (context_new_function v p id)
  unfolding context_new_function
  Keeps-context_new_function p id = search (result_rules) depth 24

  pub Keeps-context_new_promise_resolver : (p : Ptr) → Keeps P (context_new_promise_resolver v p)
  unfolding context_new_promise_resolver
  Keeps-context_new_promise_resolver p = search (result_rules) depth 24

  pub Keeps-new_string : (p : Ptr) (t : Text) (n : ℤ) → Keeps P (new_string v p t n)
  unfolding new_string
  Keeps-new_string p t n = search (result_rules) depth 24

  pub Keeps-new_boolean : (p : Ptr) (b : ℤ) → Keeps P (new_boolean v p b)
  unfolding new_boolean
  Keeps-new_boolean p b = search (result_rules) depth 24

  pub Keeps-new_number : (p : Ptr) (d : ℕ) → Keeps P (new_number v p d)
  unfolding new_number
  Keeps-new_number p d = search (result_rules) depth 24

  pub Keeps-new_integer : (p : Ptr) (i : ℤ) → Keeps P (new_integer v p i)
  unfolding new_integer
  Keeps-new_integer p i = search (result_rules) depth 24

  pub Keeps-new_null : (p : Ptr) → Keeps P (new_null v p)
  unfolding new_null
  Keeps-new_null p = search (result_rules) depth 24

  pub Keeps-new_undefined : (p : Ptr) → Keeps P (new_undefined v p)
  unfolding new_undefined
  Keeps-new_undefined p = search (result_rules) depth 24

  pub Keeps-new_error_value : (p : Ptr) (t : Text) (n : ℤ) → Keeps P (new_error_value v p t n)
  unfolding new_error_value
  Keeps-new_error_value p t n = search (result_rules) depth 24

  pub Keeps-new_array_buffer_copy :
      (p : Ptr) (t : CString) (n : ℤ) → Keeps P (new_array_buffer_copy v p t n)
  unfolding new_array_buffer_copy
  Keeps-new_array_buffer_copy p t n = search (result_rules) depth 24

  pub Keeps-new_uint8_array_copy :
      (p : Ptr) (t : CString) (n : ℤ) → Keeps P (new_uint8_array_copy v p t n)
  unfolding new_uint8_array_copy
  Keeps-new_uint8_array_copy p t n = search (result_rules) depth 24
