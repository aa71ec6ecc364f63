-- ===== src/Errors.antt =====
-- internal/gv8.cc: EmptyError, NewError, ExceptionError, ErrorFromMessage, MakeOrigin.
pub mod Keeps
pub mod Texts
use gv.Prelude.{ℕ, Bool, true, false, Option, none, some, List, [], ◌∷◌, if◌then◌else◌}
use gv.Prelude.Int.{ℤ, pos, negsuc, suc_ℤ}
use gv.Memory.{Ptr}
use gv.Run.{Cmd, pure, asks, engine, enter, to_local_checked, get, ◌>>=◌}
use gv.V8.{
  V8, Text, CString, Local, Origin, Message, Caught, Try, returned, threw, value_of, object,
  RtnError,
}
use gv.Text.{Stream, put, put_int, copy_string, copy_utf8}

abbrev pub empty_error : RtnError
empty_error = record { msg = none; location = none; stack = none }

abbrev put_line : Option ℤ → Stream → Stream
put_line none s = s
put_line (some n) s = put_int n (put (b':' ∷ []) s)

abbrev put_column : Option ℤ → Stream → Stream
put_column none s = s
put_column (some n) s = put_int (suc_ℤ n) (put (b':' ∷ []) s)

-- `origin:line:column`, with what the message knows of them.
pub format_location : Text → Message → Text
format_location origin msg = put_column msg.start_column (put_line msg.line_number (put origin []))

-- The bytes of `"stack"`, and the length -1 that stands for a null-terminated text.
abbrev stack_key : Text
stack_key = b's' ∷ b't' ∷ b'a' ∷ b'c' ∷ b'k' ∷ []

abbrev pub whole : ℤ
whole = negsuc 0

module _ {E : Type 0} (v : V8 E) where
  -- `String::Utf8Value utf8(iso, value)`
  unfoldable pub utf8_value : Ptr → Option Local → Cmd E (Option Text)
  utf8_value iso none = pure none
  utf8_value iso (some h) = do utf8 ← enter (v.utf8_value iso h); pure (value_of utf8)

  -- `String::NewFromUtf8(iso, text, NewStringType::kNormal).ToLocalChecked()`
  unfoldable pub string_checked : Ptr → Text → Cmd E Local
  string_checked iso text = do
    str ← engine (v.string_new_from_utf8 iso text whole)
    to_local_checked (value_of str)

  -- The location of a message, where `sb << *origin` reads through null if the origin has no text.
  pub copy_location : Ptr → Option Message → Cmd E CString
  unfolding utf8_value
  copy_location iso none = pure none
  copy_location iso (some msg) = do
    utf8 ← utf8_value iso msg.resource_name
    origin ← get utf8
    pure (copy_string (format_location origin msg))

  -- `CopyString` of a value that may be missing.
  pub copy_value : Ptr → Option Local → Cmd E CString
  unfolding utf8_value
  copy_value iso none = pure none
  copy_value iso (some h) = do utf8 ← utf8_value iso (some h); pure (copy_utf8 utf8)

  -- ExceptionError
  unfoldable pub exception_error : Ptr → Local → Caught → Cmd E RtnError
  unfolding copy_location copy_value
  exception_error iso ctx try_catch = do
    exception ← utf8_value iso try_catch.exception
    location ← copy_location iso try_catch.message
    stack ← enter (v.stack_trace ctx try_catch)
    stack_text ← copy_value iso stack
    pure (record { msg = copy_utf8 exception; location = location; stack = stack_text })

  -- `stack` of an error object
  pub read_stack : Ptr → Local → Local → Cmd E CString
  unfolding string_checked copy_value
  read_stack iso ctx value = do
    key ← string_checked iso stack_key
    stack ← enter (v.object_get ctx value key)
    copy_value iso (value_of stack)

  pub error_of_value : Ptr → Local → Option Local → Cmd E RtnError
  unfolding read_stack
  error_of_value iso ctx none = pure empty_error
  error_of_value iso ctx (some value) = do
    exception ← utf8_value iso (some value)
    is_object ← asks (v.is object value)
    stack ← if is_object then read_stack iso ctx value else pure none
    pure (record { msg = copy_utf8 exception; location = none; stack = stack })

  -- The message's own text, where the value gave none.
  pub message_text : Ptr → Message → CString → Cmd E CString
  unfolding utf8_value
  message_text iso msg (some t) = pure (some t)
  message_text iso msg none = do text ← utf8_value iso (some msg.text); pure (copy_utf8 text)

  pub add_message : Ptr → Option Message → RtnError → Cmd E RtnError
  unfolding copy_location message_text
  add_message iso none rtn = pure rtn
  add_message iso (some msg) rtn = do
    location ← copy_location iso (some msg)
    text ← message_text iso msg rtn.msg
    pure (record rtn { msg = text; location = location })

  -- ErrorFromMessage
  pub error_from_message : Ptr → Local → Option Message → Option Local → Cmd E RtnError
  unfolding error_of_value add_message
  error_from_message iso ctx msg value = do
    rtn ← error_of_value iso ctx value
    add_message iso msg rtn

  -- NewError
  pub new_error : Ptr → Text → Cmd E Local
  unfolding string_checked
  new_error iso msg = do text ← string_checked iso msg; engine (v.exception_error text)

  -- MakeOrigin
  pub make_origin : Ptr → Text → ℤ → ℤ → Bool → Cmd E Origin
  unfolding string_checked
  make_origin iso resource_name line_offset column_offset is_module = do
    name ← string_checked iso resource_name
    pure (record {
      resource_name = name;
      line_offset = line_offset;
      column_offset = column_offset;
      is_module = is_module;
    })
