-- ===== src/Object/Methods.antt =====
-- GV8ObjectCallMethod: the wrapper of the method.
use gv.Prelude.{ℕ, ◌≡◌, ◌≢◌, some, List, refl, arith, ne→==}
use gv.Prelude.Int.{pos}
use gv.Memory.{Ptr, Gv8Ctx, Gv8Value}
use gv.Memory.Wrap.{wrap_at, tracked}
use gv.Run.{World, ok, ◌>>=◌}
use gv.V8.{V8, Text, Local, returned}
use gv.Errors.{string_checked}
use gv.Scope.{Scope}
use gv.Scope.Live.{IsLive, value_scope_run, handle_of_run, wrap_beside_run}
use gv.Results.{rtn_value, wrap_result_beside}
use gv.Object.Calls.{IsCall, value_call-IsCall}
use gv.Object.{object_get, object_call_method}

module _ {E : Type 0} (v : V8 E) (object : Ptr) (key : Text) (s : Scope) (h prop method : Local)
    (w w1 : World E) (e : E) (l : IsLive w.mem object s h)
    (start : string_checked v s.iso key w ≡ ok prop w1)
    (get : v.object_get s.local_ctx h prop w1 ≡ (returned method, record w { engine = e })) where
  abbrev pub method_wrapper : Gv8Value
  method_wrapper = tracked l.ctx l.value.ctx s.iso method

  -- The world in which the method has its wrapper.
  abbrev pub found : World E
  found = record { engine = e; mem = wrap_at w.mem l.value.ctx l.ctx s.iso method }

  object_get_run : object_get v object key w ≡ ok (rtn_value w.mem.next) found
  unfolding object_get wrap_result_beside ◌>>=◌
  object_get_run =
      rw
        (
          value_scope_run w object s h l,
          handle_of_run w object s h l,
          start,
          get,
          wrap_beside_run (record w { engine = e }) object s.iso method l.value l.ctx l.found
              l.found_ctx,
        )
        refl

  -- On a live object, of which V8 returns the method without a change of the memory, with a live
  -- receiver and live arguments for a call that returns and leaves the method's wrapper and its
  -- context live: GV8ObjectCallMethod returns a new wrapper of the result, and the wrapper that it
  -- made for the method is still there.
  pub object_call_method-method_wrapper :
      (argc : ℕ) (argv : List Ptr) (result : Local) (w' : World E) (c : Gv8Ctx)
      → w.mem.next ≢ 0
      → IsCall v found w.mem.next object argc argv s (returned result) w'
      → w'.mem.values w.mem.next ≡ some method_wrapper
      → w'.mem.ctxs l.value.ctx ≡ some c
      → w'.mem.next ≢ w.mem.next
      → (w'' : World E) × (object_call_method v object key (pos argc) argv w
          ≡ ok (rtn_value w'.mem.next) w'')
        × (w''.mem.values w.mem.next ≡ some method_wrapper)
        × (w''.mem.values w'.mem.next ≡ some (tracked c l.value.ctx s.iso result))
  unfolding object_call_method ◌>>=◌
  object_call_method-method_wrapper argc argv result w' c n call kept live other = (
    record w' { mem = wrap_at w'.mem l.value.ctx c s.iso result },
    rw (object_get_run, ne→== w.mem.next 0 n)
        ((value_call-IsCall v found w.mem.next object argc argv s result w' call).0 method_wrapper c
          kept live),
    ground arith,
    ground arith,
  )
