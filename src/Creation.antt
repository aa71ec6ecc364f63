-- ===== src/Creation.antt =====
-- internal/gv8.cc: the operations that make a value in a context, from GV8ContextGlobal to
-- GV8ContextNewPromiseResolver and from GV8NewString to GV8NewUint8ArrayCopy.
pub mod Arrays
pub mod Keeps
use gv.Prelude.{
  ℕ, zero, suc, Bool, true, false, not, Option, none, some, List, [], ◌∷◌, if◌then◌else◌, leb,
  length, take, replicate,
}
use gv.Prelude.Int
use gv.Prelude.Int.{ℤ, pos, pos_part, ◌==ℤ◌}
use gv.Memory.{Ptr}
use gv.Memory.Values.{wrap_value}
use gv.Run.{Cmd, pure, asks, engine, memory, get, ◌>>=◌}
use gv.V8.{V8, Text, CString, Local, returned}
use gv.Errors.{new_error}
use gv.Scope.{ctx_scope, Scope}
use gv.Results.{RtnValue, rtn_value, wrap_result}

-- The bytes that `memcpy(to, data, size)` reads; `none` where it reads beyond the data.
abbrev pub copy_bytes : Text → ℕ → Option Text
copy_bytes t size = if leb size (length t) then some (take size t) else none

-- `length > 0 ? static_cast<size_t>(length) : 0`
abbrev size_of : ℤ → ℕ
size_of length = pos_part length

-- A new backing store, all zero, and the copy into it.
abbrev store_bytes : CString → ℕ → Option Text
store_bytes none size = some (replicate size 0)
store_bytes (some t) size = copy_bytes t size

-- `std::string msg(value, length)`
abbrev string_of : Text → ℤ → Option Text
string_of t length = copy_bytes t (size_of length)

module _ {E : Type 0} (v : V8 E) where
  -- `rtn.value = wrapValue(ctx_ptr, iso, h); return rtn;`
  unfoldable pub wrap_new : Ptr → Scope → Local → Cmd E RtnValue
  wrap_new ctx_ptr s h = wrap_result v ctx_ptr s (returned h)

  -- GV8ContextGlobal
  pub context_global : Ptr → Cmd E Ptr
  context_global ctx_ptr = do
    s ← ctx_scope ctx_ptr
    h ← asks (v.global s.local_ctx)
    memory (wrap_value ctx_ptr s.iso h)

  -- GV8ContextNewObject
  unfoldable pub context_new_object : Ptr → Cmd E RtnValue
  unfolding wrap_new
  context_new_object ctx_ptr = do
    s ← ctx_scope ctx_ptr
    h ← engine (v.object_new s.iso)
    wrap_new ctx_ptr s h

  -- GV8ContextNewArray; `length` is a uint32_t, cast to `int`.
  pub context_new_array : Ptr → ℕ → Cmd E RtnValue
  unfolding wrap_new
  context_new_array ctx_ptr length = do
    s ← ctx_scope ctx_ptr
    h ← engine (v.array_new s.iso (Int.int_of length))
    wrap_new ctx_ptr s h

  -- GV8ContextNewFunction
  pub context_new_function : Ptr → ℤ → Cmd E RtnValue
  context_new_function ctx_ptr callback_id = do
    s ← ctx_scope ctx_ptr
    fn ← engine (v.function_new s.local_ctx callback_id)
    wrap_result v ctx_ptr s fn

  -- GV8ContextNewPromiseResolver
  pub context_new_promise_resolver : Ptr → Cmd E RtnValue
  context_new_promise_resolver ctx_ptr = do
    s ← ctx_scope ctx_ptr
    resolver ← engine (v.resolver_new s.local_ctx)
    wrap_result v ctx_ptr s resolver

  -- GV8NewString
  unfoldable pub new_string : Ptr → Text → ℤ → Cmd E RtnValue
  new_string ctx_ptr value length = do
    s ← ctx_scope ctx_ptr
    str ← engine (v.string_new_from_utf8 s.iso value length)
    wrap_result v ctx_ptr s str

  -- GV8NewBoolean
  unfoldable pub new_boolean : Ptr → ℤ → Cmd E RtnValue
  unfolding wrap_new
  new_boolean ctx_ptr value = do
    s ← ctx_scope ctx_ptr
    h ← asks (v.boolean_new s.iso (not (value ==ℤ pos 0)))
    wrap_new ctx_ptr s h

  -- GV8NewInteger and GV8NewNumber
  unfoldable pub new_number : Ptr → ℕ → Cmd E RtnValue
  unfolding wrap_new
  new_number ctx_ptr value = do
    s ← ctx_scope ctx_ptr
    h ← engine (v.number_new s.iso value)
    wrap_new ctx_ptr s h

  unfoldable pub new_integer : Ptr → ℤ → Cmd E RtnValue
  unfolding wrap_new
  new_integer ctx_ptr value = do
    s ← ctx_scope ctx_ptr
    h ← engine (v.number_new s.iso (v.double_of_int64 value))
    wrap_new ctx_ptr s h

  -- GV8NewNull and GV8NewUndefined
  unfoldable pub new_null : Ptr → Cmd E RtnValue
  unfolding wrap_new
  new_null ctx_ptr = do s ← ctx_scope ctx_ptr; h ← asks (v.null_value s.iso); wrap_new ctx_ptr s h

  unfoldable pub new_undefined : Ptr → Cmd E RtnValue
  unfolding wrap_new
  new_undefined ctx_ptr = do
    s ← ctx_scope ctx_ptr
    h ← asks (v.undefined_value s.iso)
    wrap_new ctx_ptr s h

  -- GV8NewError
  pub new_error_value : Ptr → Text → ℤ → Cmd E RtnValue
  unfolding wrap_new
  new_error_value ctx_ptr value length = do
    s ← ctx_scope ctx_ptr
    msg ← get (string_of value length)
    h ← new_error v s.iso msg
    wrap_new ctx_ptr s h

  -- GV8NewArrayBufferCopy
  unfoldable pub new_array_buffer_copy : Ptr → CString → ℤ → Cmd E RtnValue
  unfolding wrap_new
  new_array_buffer_copy ctx_ptr bytes length = do
    s ← ctx_scope ctx_ptr
    store ← get (store_bytes bytes (size_of length))
    buffer ← engine (v.array_buffer_new s.iso store)
    wrap_new ctx_ptr s buffer

  -- GV8NewUint8ArrayCopy
  unfoldable pub new_uint8_array_copy : Ptr → CString → ℤ → Cmd E RtnValue
  unfolding wrap_new
  new_uint8_array_copy ctx_ptr bytes length = do
    s ← ctx_scope ctx_ptr
    store ← get (store_bytes bytes (size_of length))
    buffer ← engine (v.array_buffer_new s.iso store)
    view ← engine (v.uint8_array_new buffer 0 (size_of length))
    wrap_new ctx_ptr s view
