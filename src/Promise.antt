-- ===== src/Promise.antt =====
-- internal/gv8.cc: GV8PromiseState to GV8PromiseResolverReject.
pub mod Keeps
use gv.Prelude.{ℕ, Bool}
use gv.Prelude.Int.{ℤ}
use gv.Memory.{Ptr}
use gv.Run.{Cmd, pure, asks, enter, ◌>>=◌}
use gv.V8.{V8, Local, Try, RtnError}
use gv.Scope.{value_iso_scope, value_scope, handle_of, wrap_beside}
use gv.Results.{error_result}

module _ {E : Type 0} (v : V8 E) where
  -- GV8PromiseState
  pub promise_state : Ptr → Cmd E ℤ
  promise_state value_ptr = do
    _ ← value_iso_scope value_ptr
    promise ← handle_of value_ptr
    asks (v.promise_state promise)

  -- GV8PromiseResult
  pub promise_result : Ptr → Cmd E Ptr
  promise_result value_ptr = do
    s ← value_scope value_ptr
    promise ← handle_of value_ptr
    result ← asks (v.promise_result promise)
    wrap_beside value_ptr s.iso result

  -- GV8PromiseResolverGetPromise
  pub promise_resolver_get_promise : Ptr → Cmd E Ptr
  promise_resolver_get_promise value_ptr = do
    s ← value_scope value_ptr
    resolver ← handle_of value_ptr
    promise ← asks (v.resolver_promise resolver)
    wrap_beside value_ptr s.iso promise

  -- GV8PromiseResolverResolve
  pub promise_resolver_resolve : Ptr → Ptr → Cmd E RtnError
  promise_resolver_resolve value_ptr result_ptr = do
    s ← value_scope value_ptr
    resolver ← handle_of value_ptr
    result ← handle_of result_ptr
    done ← enter (v.resolver_resolve s.local_ctx resolver result)
    error_result v s done

  -- GV8PromiseResolverReject
  pub promise_resolver_reject : Ptr → Ptr → Cmd E RtnError
  promise_resolver_reject value_ptr result_ptr = do
    s ← value_scope value_ptr
    resolver ← handle_of value_ptr
    result ← handle_of result_ptr
    done ← enter (v.resolver_reject s.local_ctx resolver result)
    error_result v s done
