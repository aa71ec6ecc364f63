-- ===== src/Values.antt =====
-- internal/gv8.cc: GV8ValueRelease to GV8ValueLen, the operations that read a value.
pub mod Bytes
pub mod Keeps
pub mod Views
use gv.Prelude
use gv.Prelude.{
  ℕ, zero, suc, ◌%◌, ◌^◌, Bool, true, false, Option, none, some, List, [], ◌∷◌, if◌then◌else◌, leb,
  length, take, drop, ◌==◌,
}
use gv.Prelude.Int.{ℤ, pos, int_of}
use gv.Memory.{Ptr, null}
use gv.Memory.Values.{value_release}
use gv.Run.{Cmd, pure, asks, engine, enter, memory, get, ◌>>=◌}
use gv.V8.{
  V8, Text, CString, Local, Try, returned, threw, value_of, RtnError, Kind, object, string, array,
  array_buffer, array_buffer_view,
}
use gv.Text.{copy_string, copy_utf8, utf8_length, codes}
use gv.Errors.{empty_error, exception_error, string_checked}
use gv.Scope.{Scope, value_iso_scope, value_scope, handle_of, wrap_beside}
use gv.Results.{RtnData, empty_data, rtn_data_error, flag}
use gv.Creation.{copy_bytes}

-- `FromMaybe(d)`
abbrev pub from_maybe : {A : Type 0} → A → Option A → A
from_maybe d none = d
from_maybe d (some a) = a

-- "gv8: value is not an ArrayBuffer or ArrayBufferView"
abbrev not_a_buffer : Text
not_a_buffer = codes "gv8: value is not an ArrayBuffer or ArrayBufferView"

-- `"length"`
abbrev length_key : Text
length_key = codes "length"

abbrev u32 : ℕ → ℕ
u32 n = n % 2 ^ 32

-- A backing store, and the offset and length of the bytes that are wanted.
pub record Window : Type 0 where
  pub store : Text
  pub offset : ℕ
  pub length : ℕ

abbrev pub string_data : Option Text → RtnData
string_data utf8 = record {
  bytes = copy_utf8 utf8;
  length = int_of (utf8_length utf8);
  error = empty_error;
}

-- `malloc(length)`, and `memcpy(copy, data + offset, length)`
pub copy_window : {E : Type 0} → Option Window → Cmd E RtnData
copy_window none = pure (rtn_data_error (record empty_error { msg = copy_string not_a_buffer }))
copy_window (some w) = do
  copy ← get (copy_bytes (drop w.offset w.store) w.length)
  pure (record { bytes = some copy; length = int_of w.length; error = empty_error })

module _ {E : Type 0} (v : V8 E) where
  -- GV8ValueRetain
  unfoldable pub value_retain : Ptr → Cmd E Ptr
  value_retain value =
      if value == null
      then pure null
      else do s ← value_scope value; h ← handle_of value; wrap_beside value s.iso h

  pub string_result : Scope → Try Text → Cmd E RtnData
  string_result s (returned utf8) = pure (string_data (some utf8))
  string_result s (threw c) = do e ← exception_error v s.iso s.local_ctx c; pure (rtn_data_error e)

  -- GV8ValueToString
  pub value_to_string : Ptr → Cmd E RtnData
  unfolding string_result
  value_to_string value_ptr = if value_ptr == null then pure empty_data else do
    s ← value_scope value_ptr
    h ← handle_of value_ptr
    utf8 ← enter (v.utf8_value s.iso h)
    string_result s utf8

  -- GV8ValueToInteger
  pub value_to_integer : Ptr → Cmd E ℤ
  value_to_integer value_ptr = do
    s ← value_scope value_ptr
    h ← handle_of value_ptr
    n ← enter (v.integer_value s.local_ctx h)
    pure (from_maybe (pos 0) n)

  -- GV8ValueToBoolean
  pub value_to_boolean : Ptr → Cmd E ℤ
  value_to_boolean value_ptr = do
    s ← value_scope value_ptr
    h ← handle_of value_ptr
    b ← asks (v.boolean_value h)
    pure (flag b)

  -- GV8ValueIsObject to GV8ValueIsUint8ClampedArray, which differ in the question.
  pub value_is : Kind → Ptr → Cmd E ℤ
  value_is kind value_ptr = do
    _ ← value_iso_scope value_ptr
    h ← handle_of value_ptr
    b ← asks (v.is kind h)
    pure (flag b)

  pub buffer_window : Local → Cmd E (Option Window)
  buffer_window value = do
    store ← asks (v.backing_store value)
    pure (some (record { store = store; offset = 0; length = Prelude.length store }))

  pub view_window : Local → Cmd E (Option Window)
  view_window value = do
    buffer ← asks (v.view_buffer value)
    store ← asks (v.backing_store buffer)
    offset ← asks (v.view_byte_offset value)
    length ← asks (v.view_byte_length value)
    pure (some (record { store = store; offset = offset; length = length }))

  pub window_of : Local → Cmd E (Option Window)
  unfolding buffer_window view_window
  window_of value = do
    is_buffer ← asks (v.is array_buffer value)
    is_view ← asks (v.is array_buffer_view value)
    if is_buffer then buffer_window value else (if is_view then view_window value else pure none)

  -- GV8ValueBytes
  pub value_bytes : Ptr → Cmd E RtnData
  unfolding window_of copy_window
  value_bytes value_ptr = do
    s ← value_scope value_ptr
    value ← handle_of value_ptr
    w ← window_of value
    copy_window w

  pub length_of_property : Scope → Try Local → Cmd E ℕ
  length_of_property s (returned value) = do
    n ← enter (v.uint32_value s.local_ctx value)
    pure (from_maybe 0 n)
  length_of_property s (threw c) = pure 0

  pub object_length : Scope → Local → Cmd E ℕ
  unfolding length_of_property
  object_length s value = do
    key ← string_checked v s.iso length_key
    length_value ← enter (v.object_get s.local_ctx value key)
    length_of_property s length_value

  -- The tests of GV8ValueLen, in their order.
  pub length_of : Scope → Local → Cmd E ℕ
  unfolding object_length
  length_of s value = do
    is_array ← asks (v.is array value)
    is_buffer ← asks (v.is array_buffer value)
    is_view ← asks (v.is array_buffer_view value)
    is_string ← asks (v.is string value)
    is_object ← asks (v.is object value)
    if is_array
        then asks (v.array_length value)
        else (if is_buffer
            then asks (λ e. u32 (v.buffer_byte_length value e))
            else (if is_view
                then asks (λ e. u32 (v.view_byte_length value e))
                else (if is_string
                    then asks (λ e. u32 (v.string_length value e))
                    else (if is_object then object_length s value else pure 0))))

  -- GV8ValueLen
  pub value_len : Ptr → Cmd E ℕ
  unfolding length_of
  value_len value_ptr =
      if value_ptr == null
      then pure 0
      else do s ← value_scope value_ptr; value ← handle_of value_ptr; length_of s value
