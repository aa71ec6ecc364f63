-- ===== src/Object.antt =====
-- internal/gv8.cc: GV8ObjectGet to GV8ObjectCallMethod, and the JSON functions.
pub mod Calls
pub mod Keeps
pub mod Methods
use gv.Prelude
use gv.Prelude.{ℕ, zero, suc, Bool, Option, none, some, List, [], ◌∷◌, if◌then◌else◌, ◌==◌}
use gv.Prelude.Int.{ℤ, pos, negsuc, int_of, pos_part}
use gv.Memory.{Ptr, null}
use gv.Run.{Cmd, pure, fail, stop, asks, engine, enter, memory, ◌>>=◌, ◌>>◌}
use gv.V8.{V8, Text, Local, Try, returned, threw, RtnError}
use gv.Text.{copy_utf8, utf8_length}
use gv.Errors.{empty_error, exception_error, string_checked, utf8_value}
use gv.Scope.{Scope, ctx_scope, value_scope, handle_of}
use gv.Results.{
  RtnValue, RtnData, rtn_data_error, flag, wrap_result, wrap_result_beside, error_result,
}
use gv.Values.{from_maybe, string_data}

-- The loop over `argv`; a count above the number of pointers reads beyond the array.
unfoldable pub read_args : {E : Type 0} → ℕ → List Ptr → Cmd E (List Local)
read_args zero argv = pure []
read_args (suc argc) [] = fail
read_args (suc argc) (p ∷ argv) = do h ← handle_of p; rest ← read_args argc argv; pure (h ∷ rest)

-- `args.reserve(argc)`: a negative count is a huge size, for which std::vector throws.
pub reserve : {E : Type 0} → ℤ → Cmd E (Unit {0})
reserve (pos n) = pure tt
reserve (negsuc n) = stop

module _ {E : Type 0} (v : V8 E) where
  -- GV8ObjectGet
  pub object_get : Ptr → Text → Cmd E RtnValue
  object_get value_ptr key = do
    s ← value_scope value_ptr
    object ← handle_of value_ptr
    prop ← string_checked v s.iso key
    result ← enter (v.object_get s.local_ctx object prop)
    wrap_result_beside v value_ptr s result

  -- GV8ObjectGetIdx
  pub object_get_idx : Ptr → ℕ → Cmd E RtnValue
  object_get_idx value_ptr index = do
    s ← value_scope value_ptr
    object ← handle_of value_ptr
    result ← enter (v.object_get_idx s.local_ctx object index)
    wrap_result_beside v value_ptr s result

  -- GV8ObjectHas
  pub object_has : Ptr → Text → Cmd E ℤ
  object_has value_ptr key = do
    s ← value_scope value_ptr
    object ← handle_of value_ptr
    prop ← string_checked v s.iso key
    b ← enter (v.object_has s.local_ctx object prop)
    pure (flag (from_maybe Prelude.false b))

  -- GV8ObjectSet
  pub object_set : Ptr → Text → Ptr → Cmd E RtnError
  object_set value_ptr key prop_ptr = do
    s ← value_scope value_ptr
    object ← handle_of value_ptr
    prop ← string_checked v s.iso key
    value ← handle_of prop_ptr
    done ← enter (v.object_set s.local_ctx object prop value)
    error_result v s done

  -- GV8ObjectSetIdx
  pub object_set_idx : Ptr → ℕ → Ptr → Cmd E RtnError
  object_set_idx value_ptr index prop_ptr = do
    s ← value_scope value_ptr
    object ← handle_of value_ptr
    value ← handle_of prop_ptr
    done ← enter (v.object_set_idx s.local_ctx object index value)
    error_result v s done

  -- GV8ValueCall
  pub value_call : Ptr → Ptr → ℤ → List Ptr → Cmd E RtnValue
  unfolding read_args reserve
  value_call value_ptr recv_ptr argc argv = do
    s ← value_scope value_ptr
    fn ← handle_of value_ptr
    reserve argc
    args ← read_args (pos_part argc) argv
    recv ← handle_of recv_ptr
    result ← enter (v.function_call s.local_ctx fn recv args)
    wrap_result_beside v value_ptr s result

  -- GV8ObjectCallMethod
  pub object_call_method : Ptr → Text → ℤ → List Ptr → Cmd E RtnValue
  object_call_method value_ptr key argc argv = do
    method_rtn ← object_get value_ptr key
    if method_rtn.value == null
        then pure method_rtn
        else value_call method_rtn.value value_ptr argc argv

  pub stringify_result : Scope → Try Local → Cmd E RtnData
  stringify_result s (returned h) = do utf8 ← utf8_value v s.iso (some h); pure (string_data utf8)
  stringify_result s (threw c) = do
    e ← exception_error v s.iso s.local_ctx c
    pure (rtn_data_error e)

  -- GV8JSONStringify
  pub json_stringify : Ptr → Ptr → Cmd E RtnData
  unfolding stringify_result
  json_stringify ctx_ptr value_ptr = do
    s ← ctx_scope ctx_ptr
    h ← handle_of value_ptr
    result ← enter (v.json_stringify s.local_ctx h)
    stringify_result s result

  pub parse_text : Ptr → Scope → Try Local → Cmd E RtnValue
  parse_text ctx_ptr s (threw c) = wrap_result v ctx_ptr s (threw c)
  parse_text ctx_ptr s (returned json) = do
    result ← enter (v.json_parse s.local_ctx json)
    wrap_result v ctx_ptr s result

  -- GV8JSONParse
  pub json_parse : Ptr → Text → ℤ → Cmd E RtnValue
  unfolding parse_text
  json_parse ctx_ptr value length = do
    s ← ctx_scope ctx_ptr
    json ← engine (v.string_new_from_utf8 s.iso value length)
    parse_text ctx_ptr s json
