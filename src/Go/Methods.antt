-- ===== src/Go/Methods.antt =====
-- value.go: Integer, Boolean, the Is methods, Len and Bytes, and what the methods of objects, functions and
-- contexts share. The functions of gv8.h that they call are parameters.
pub mod Contexts
pub mod Objects
use gv.Prelude.{
  ℕ, Bool, true, false, not, ◌||◌, Option, none, some, List, [], ◌∷◌, take, if◌then◌else◌, ◌==◌,
  zero, suc, length,
}
use gv.Prelude.Int.{ℤ, pos, negsuc, int_of, ◌==ℤ◌}
use gv.Memory.{Ptr, null}
use gv.Run.{Cmd}
use gv.V8.{V8, Text, CString, Kind, RtnError, promise}
use gv.Results.{RtnValue, RtnData}
use gv.Object as Object
use gv.Script as Script
use gv.Creation as Creation
use gv.Promise as Promise
use gv.Values as Values
use gv.Go.{
  GoError, plain, Value, Context, Native, Go, pure, panic, calls, heap, deferring, ◌>>=◌, ◌>>◌,
}
use gv.Go.Objects.{context_at, value_at}
use gv.Go.Values.{valid, is_closed, new_value}
use gv.Go.Results.{User, new_js_error}
use gv.Go.Guards.{
  Fallible, refused, invalid_value, unless_error, entered, if_valid, on_valid, on_open, valued,
  valued_of,
}
use gv.Go.Creation.{CreationCalls, c_len}
use gv.Go.Arguments.{Any, materialize_value, materialize_args, release_all, c_argv}
use gv.Go.Host.{HostCalls, object_of}

pub record MethodCalls (N : Type 0) : Type 0 where
  pub value_to_integer : Ptr → Cmd N ℤ
  pub value_to_boolean : Ptr → Cmd N ℤ
  pub value_is : Kind → Ptr → Cmd N ℤ
  pub value_bytes : Ptr → Cmd N RtnData
  pub value_len : Ptr → Cmd N ℕ
  pub object_get : Ptr → Text → Cmd N RtnValue
  pub object_get_idx : Ptr → ℕ → Cmd N RtnValue
  pub object_has : Ptr → Text → Cmd N ℤ
  pub object_set : Ptr → Text → Ptr → Cmd N RtnError
  pub object_set_idx : Ptr → ℕ → Ptr → Cmd N RtnError
  pub value_call : Ptr → Ptr → ℤ → List Ptr → Cmd N RtnValue
  pub object_call_method : Ptr → Text → ℤ → List Ptr → Cmd N RtnValue
  pub json_stringify : Ptr → Ptr → Cmd N RtnData
  pub json_parse : Ptr → Text → ℤ → Cmd N RtnValue
  pub context_global : Ptr → Cmd N Ptr
  pub context_new_object : Ptr → Cmd N RtnValue
  pub context_new_array : Ptr → ℕ → Cmd N RtnValue
  pub context_run_script : Ptr → Text → Text → ℤ → ℤ → Cmd N RtnValue
  pub context_new_promise_resolver : Ptr → Cmd N RtnValue
  pub promise_resolver_get_promise : Ptr → Cmd N Ptr
  pub promise_resolver_resolve : Ptr → Ptr → Cmd N RtnError
  pub promise_resolver_reject : Ptr → Ptr → Cmd N RtnError

pub method_calls : {N : Type 0} → V8 N → MethodCalls N
method_calls v = record {
  value_to_integer = Values.value_to_integer v;
  value_to_boolean = Values.value_to_boolean v;
  value_is = Values.value_is v;
  value_bytes = Values.value_bytes v;
  value_len = Values.value_len v;
  object_get = Object.object_get v;
  object_get_idx = Object.object_get_idx v;
  object_has = Object.object_has v;
  object_set = Object.object_set v;
  object_set_idx = Object.object_set_idx v;
  value_call = Object.value_call v;
  object_call_method = Object.object_call_method v;
  json_stringify = Object.json_stringify v;
  json_parse = Object.json_parse v;
  context_global = Creation.context_global v;
  context_new_object = Creation.context_new_object v;
  context_new_array = Creation.context_new_array v;
  context_run_script = Script.context_run_script v;
  context_new_promise_resolver = Creation.context_new_promise_resolver v;
  promise_resolver_get_promise = Promise.promise_resolver_get_promise v;
  promise_resolver_resolve = Promise.promise_resolver_resolve v;
  promise_resolver_reject = Promise.promise_resolver_reject v;
}

-- A text or bytes with an error, which are empty where there is an error.
abbrev pub TextOrError : Type 0
TextOrError = Text × Option GoError

abbrev pub no_text : GoError → TextOrError
no_text err = ([], some err)

-- C.GoStringN and C.GoBytes, which panics on a negative length
abbrev c_text : CString → Text
c_text none = []
c_text (some t) = t

abbrev out_of_range : GoError
out_of_range = plain []

abbrev pub go_bytes : {E : Type 0} → CString → ℤ → Go E TextOrError
go_bytes t (pos n) = pure (take n (c_text t), none)
go_bytes t (negsuc n) = panic out_of_range

-- The result of Bytes and Build where C reports no error: nothing where there is no data.
abbrev pub bytes_of : {E : Type 0} → RtnData → Go E TextOrError
bytes_of rtn = elim rtn.bytes [
  | none ↦ pure ([], none)
  | some t ↦ if rtn.length ==ℤ pos 0 then pure ([], none) else go_bytes (some t) rtn.length
]

-- What is made of data that C returns, as the last argument says where there is no error.
abbrev pub data_result : {E : Type 0} → (RtnData → Go E TextOrError) → RtnData → Go E TextOrError
data_result f rtn = elim rtn.error.msg [ none ↦ f rtn | some t ↦ pure ([], new_js_error rtn.error) ]

module _ {E : Type 0} (m : MethodCalls (Native E)) where
  -- Integer, Boolean, the Is methods, and Len
  unfoldable pub integer : Ptr → Go E ℤ
  integer p = if_valid p (pos 0) λ x c. calls (m.value_to_integer x.ptr)

  unfoldable pub boolean : Ptr → Go E Bool
  boolean p =
      if_valid p false λ x c. do r ← calls (m.value_to_boolean x.ptr); pure (not (r ==ℤ pos 0))

  unfoldable pub is_kind : Kind → Ptr → Go E Bool
  is_kind kind p =
      if_valid p false λ x c. do r ← calls (m.value_is kind x.ptr); pure (not (r ==ℤ pos 0))

  unfoldable pub len : Ptr → Go E ℕ
  len p = if_valid p 0 λ x c. calls (m.value_len x.ptr)

  -- Bytes
  unfoldable pub bytes : Ptr → Go E TextOrError
  bytes p =
      on_valid p (λ err. pure (no_text err))
        λ x. do rtn ← calls (m.value_bytes x.ptr); data_result bytes_of rtn

  -- Promise of a value, as the value in the Promise
  unfoldable pub promise_of : Ptr → Go E Ptr
  unfolding is_kind
  promise_of p =
      if p == null then pure null else do b ← is_kind promise p; pure (if b then p else null)

  -- Len of an Object
  unfoldable pub object_len : Ptr → Go E ℕ
  unfolding len
  object_len o = do ok ← heap (valid o); if not ok then pure 0 else len o
