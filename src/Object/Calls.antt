-- ===== src/Object/Calls.antt =====
-- GV8ValueCall: what becomes of the callee's wrapper while the function runs.
use gv.Prelude.{ℕ, ◌≡◌, none, some, List, refl}
use gv.Prelude.Int.{pos}
use gv.Memory.{Ptr, Gv8Ctx, Gv8Value}
use gv.Memory.Wrap.{wrap_at}
use gv.Run.{World, ok, fault, ◌>>=◌}
use gv.V8.{V8, Local, Try, returned}
use gv.Scope.{Scope, wrap_beside}
use gv.Scope.Live.{IsLive, value_scope_run, handle_of_run, wrap_beside_run}
use gv.Results.{rtn_value, wrap_result_beside}
use gv.Object.{value_call, read_args, reserve}

-- A live callee, live arguments and receiver, and the result of the call itself.
pub record IsCall {E : Type 0} (v : V8 E) (w : World E) (callee recv : Ptr) (argc : ℕ)
    (argv : List Ptr) (s : Scope) (result : Try Local) (w' : World E) : Type 0 where
  pub function_handle : Local
  pub recv_handle : Local
  pub recv_scope : Scope
  pub args : List Local
  pub callee_live : IsLive w.mem callee s function_handle
  pub recv_live : IsLive w.mem recv recv_scope recv_handle
  pub args_read : read_args argc argv w ≡ ok args w
  pub call : v.function_call s.local_ctx function_handle recv_handle args w ≡ (result, w')

module _ {E : Type 0} (v : V8 E) (w : World E) (callee recv : Ptr) (argc : ℕ) (argv : List Ptr)
    (s : Scope) where
  value_call_run :
      (result : Try Local) (w' : World E)
      → IsCall v w callee recv argc argv s result w'
      → value_call v callee recv (pos argc) argv w ≡ wrap_result_beside v callee s result w'
  unfolding value_call reserve ◌>>=◌
  value_call_run result w' c =
      rw
        (
          value_scope_run w callee s c.function_handle c.callee_live,
          handle_of_run w callee s c.function_handle c.callee_live,
          c.args_read,
          handle_of_run w recv c.recv_scope c.recv_handle c.recv_live,
          c.call,
        )
        refl

  -- A call on a live callee with a live receiver and live arguments. If the function returns and the
  -- callee's wrapper is still live, in a live context, the result is a new wrapper of what it
  -- returned, in that context. If the wrapper was released while the function ran, what follows is
  -- undefined behaviour: the wrapper is read after the call.
  pub value_call-IsCall :
      (result : Local) (w' : World E)
      → IsCall v w callee recv argc argv s (returned result) w'
      → ((x : Gv8Value) (c : Gv8Ctx)
          → w'.mem.values callee ≡ some x
          → w'.mem.ctxs x.ctx ≡ some c
          → value_call v callee recv (pos argc) argv w
            ≡ ok (rtn_value w'.mem.next) (record w' { mem = wrap_at w'.mem x.ctx c s.iso result }))
        × (w'.mem.values callee ≡ none → value_call v callee recv (pos argc) argv w ≡ fault)
  unfolding wrap_result_beside wrap_beside ◌>>=◌
  value_call-IsCall result w' c = (
    λ x d e f.
        rw (value_call_run (returned result) w' c, wrap_beside_run w' callee s.iso result x d e f)
          refl,
    λ e. rw (value_call_run (returned result) w' c, e) refl,
  )
