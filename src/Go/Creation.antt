-- ===== src/Go/Creation.antt =====
-- primitives.go: NewStringValue to NewUint8ArrayCopy, newErrorValue; context.go: NewObject, NewArray,
-- RunScript; promise.go: NewPromiseResolver; value.go: IsObject, Object and JSONParse. The functions of
-- gv8.h that they call are parameters. A copied text is the text; that the copy is freed is not modelled.
pub mod Answers
pub mod Grown
pub mod Linked
pub mod Wrapped
use gv.Prelude.{
  ℕ, Bool, true, false, not, Option, none, some, List, [], ◌∷◌, length, if◌then◌else◌, ◌==◌,
}
use gv.Prelude.Int.{ℤ, pos, int_of, ◌==ℤ◌}
use gv.Memory.{Ptr, null}
use gv.Run
use gv.Run.{Cmd}
use gv.V8.{V8, Text, CString, Kind}
use gv.Results.{RtnValue, flag}
use gv.Creation as Creation
use gv.Object as Object
use gv.Script as Script
use gv.Values as Values
use gv.Go.{GoError, Native, Go, pure, calls, heap, ◌>>=◌, ◌>>◌}
use gv.Go.Objects.{context_at}
use gv.Go.Results.{User}
use gv.Go.Guards.{Fallible, refused, unless_error, entering, if_valid, called, valued}

pub record CreationCalls (N : Type 0) : Type 0 where
  pub new_string : Ptr → Text → ℤ → Cmd N RtnValue
  pub new_boolean : Ptr → ℤ → Cmd N RtnValue
  pub new_integer : Ptr → ℤ → Cmd N RtnValue
  pub new_number : Ptr → ℕ → Cmd N RtnValue
  pub new_null : Ptr → Cmd N RtnValue
  pub new_undefined : Ptr → Cmd N RtnValue
  pub new_array_buffer_copy : Ptr → CString → ℤ → Cmd N RtnValue
  pub new_uint8_array_copy : Ptr → CString → ℤ → Cmd N RtnValue
  pub new_error_value : Ptr → Text → ℤ → Cmd N RtnValue

unfoldable pub creation_calls : {N : Type 0} → V8 N → CreationCalls N
creation_calls v = record {
  new_string = Creation.new_string v;
  new_boolean = Creation.new_boolean v;
  new_integer = Creation.new_integer v;
  new_number = Creation.new_number v;
  new_null = Creation.new_null v;
  new_undefined = Creation.new_undefined v;
  new_array_buffer_copy = Creation.new_array_buffer_copy v;
  new_uint8_array_copy = Creation.new_uint8_array_copy v;
  new_error_value = Creation.new_error_value v;
}

-- `C.int(len(value))`
abbrev pub c_len : Text → ℤ
c_len t = int_of (length t)

-- bytesPtr
abbrev pub bytes_ptr : Text → CString
bytes_ptr [] = none
bytes_ptr (b ∷ t) = some (b ∷ t)

module _ {E : Type 0} (user : User E) (v : CreationCalls (Native E)) where
  -- NewStringValue
  unfoldable pub new_string_value : Ptr → Text → Go E Fallible
  new_string_value ctx value = valued user ctx (λ p. v.new_string p value (c_len value))

  -- NewBooleanValue
  unfoldable pub new_boolean_value : Ptr → Bool → Go E Fallible
  new_boolean_value ctx value = valued user ctx (λ p. v.new_boolean p (flag value))

  -- NewIntegerValue
  unfoldable pub new_integer_value : Ptr → ℤ → Go E Fallible
  new_integer_value ctx value = valued user ctx (λ p. v.new_integer p value)

  -- NewNumberValue; a float64 is its bit pattern.
  unfoldable pub new_number_value : Ptr → ℕ → Go E Fallible
  new_number_value ctx value = valued user ctx (λ p. v.new_number p value)

  -- NewNullValue
  unfoldable pub new_null_value : Ptr → Go E Fallible
  new_null_value ctx = valued user ctx v.new_null

  -- NewUndefinedValue
  unfoldable pub new_undefined_value : Ptr → Go E Fallible
  new_undefined_value ctx = valued user ctx v.new_undefined

  -- NewArrayBufferCopy
  unfoldable pub new_array_buffer_copy : Ptr → Text → Go E Fallible
  new_array_buffer_copy ctx b =
      valued user ctx (λ p. v.new_array_buffer_copy p (bytes_ptr b) (c_len b))

  -- NewUint8ArrayCopy
  unfoldable pub new_uint8_array_copy : Ptr → Text → Go E Fallible
  new_uint8_array_copy ctx b =
      valued user ctx (λ p. v.new_uint8_array_copy p (bytes_ptr b) (c_len b))

  -- newErrorValue, which does not ask whether the context is open
  unfoldable pub new_error_value : Ptr → Text → Go E Fallible
  unfolding entering
  new_error_value ctx value = if ctx == null then pure (null, none) else do
    c ← heap (context_at ctx)
    entering c.iso refused (called user ctx (λ p. v.new_error_value p value (c_len value)))
