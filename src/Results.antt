-- ===== src/Results.antt =====
-- gv8.h: what the functions of the interface return; and how a call of V8 becomes such a result.
pub mod Keeps
use gv.Prelude.{ℕ, zero, suc, Bool, true, false, Option, none, some, List, [], ◌∷◌, if◌then◌else◌}
use gv.Prelude.Int.{ℤ, pos}
use gv.Memory.{Ptr, null}
use gv.Memory.Values.{wrap_value}
use gv.Run.{Cmd, pure, memory, ◌>>=◌}
use gv.V8.{V8, CString, Local, Try, returned, threw, RtnError}
use gv.Errors.{empty_error, exception_error}
use gv.Scope.{Scope, wrap_beside}

pub record RtnValue : Type 0 where
  pub value : Ptr
  pub error : RtnError

-- GV8RtnUnboundScript and GV8RtnModule
pub record RtnPtr : Type 0 where
  pub ptr : Ptr
  pub error : RtnError

-- GV8RtnString and GV8RtnBytes
pub record RtnData : Type 0 where
  pub bytes : CString
  pub length : ℤ
  pub error : RtnError

abbrev pub rtn_value : Ptr → RtnValue
rtn_value p = record { value = p; error = empty_error }

-- EmptyValueResult, and the result that an error is put in.
abbrev empty_value_result : RtnValue
empty_value_result = rtn_value null

abbrev pub rtn_error : RtnError → RtnValue
rtn_error e = record { value = null; error = e }

abbrev pub rtn_ptr : Ptr → RtnPtr
rtn_ptr p = record { ptr = p; error = empty_error }

abbrev pub rtn_ptr_error : RtnError → RtnPtr
rtn_ptr_error e = record { ptr = null; error = e }

abbrev pub empty_data : RtnData
empty_data = record { bytes = none; length = pos 0; error = empty_error }

abbrev pub rtn_data_error : RtnError → RtnData
rtn_data_error e = record { bytes = none; length = pos 0; error = e }

-- A C `int` that stands for a truth value.
abbrev pub flag : Bool → ℤ
flag true = pos 1
flag false = pos 0

module _ {E : Type 0} (v : V8 E) where
  -- `if (!call.ToLocal(&h)) { rtn.error = ExceptionError(…); return rtn; }`
  -- `rtn.value = wrapValue(ctx_ptr, iso, h); return rtn;`
  unfoldable pub wrap_result : Ptr → Scope → Try Local → Cmd E RtnValue
  wrap_result ctx_ptr s (returned h) = do
    p ← memory (wrap_value ctx_ptr s.iso h)
    pure (rtn_value p)
  wrap_result ctx_ptr s (threw c) = do e ← exception_error v s.iso s.local_ctx c; pure (rtn_error e)

  -- The same where the wrapper goes to the context of another: `wrapValue(value_ptr->ctx, iso, h)`.
  unfoldable pub wrap_result_beside : Ptr → Scope → Try Local → Cmd E RtnValue
  wrap_result_beside value_ptr s (returned h) = do
    p ← wrap_beside value_ptr s.iso h
    pure (rtn_value p)
  wrap_result_beside value_ptr s (threw c) = do
    e ← exception_error v s.iso s.local_ctx c
    pure (rtn_error e)

  -- `if (call.IsNothing()) return ExceptionError(…); return EmptyError();`
  unfoldable pub error_result : Scope → Try Bool → Cmd E RtnError
  error_result s (returned b) = pure empty_error
  error_result s (threw c) = exception_error v s.iso s.local_ctx c
