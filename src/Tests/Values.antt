-- ===== src/Tests/Values.antt =====
-- Wrappers that come and go, bytes, and a call.
use gv.Prelude.{ℕ, ◌-◌, ◌^◌, ◌<◌, ◌≤◌, ◌≡◌, refl, none, some, [], ◌∷◌, arith, ==_refl}
use gv.Prelude.Int.{ℤ, pos, negsuc}
use gv.Memory.{Memory, Gv8Value, Gv8Ctx}
use gv.Memory.Values.{wrap_value, value_release, context_dispose}
use gv.Memory.Wrap.{wrap_at, tracked}
use gv.Memory.Release.{Released, value_release-live}
use gv.Memory.Roundtrip.{entry, Restored, value_release-wrap_value}
use gv.Memory.Dispose.{Disposed, context_dispose-Disposed}
use gv.Run.{World, ok, fault, ◌>>=◌}
use gv.V8.{returned}
use gv.Scope.{handle_of}
use gv.Creation.{new_array_buffer_copy, context_new_array}
use gv.Creation.Arrays.{array_of, context_new_array-array_of}
use gv.Results.{rtn_value}
use gv.Values.{value_bytes}
use gv.Values.Bytes.{HoldsBuffers, data_of, value_bytes-new_array_buffer_copy, value_bytes-int_of}
use gv.Object.{value_call, read_args}
use gv.Object.Calls.{IsCall, value_call-IsCall}
use gv.Tests.Engine.{Toy, toy}
use gv.Tests.Ready.{
  page, ready_memory, ready, page_scope, page-IsLiveCtx, answer-IsLive, ready-IsConsistent,
}

value_release-live_example :
    (m' : Memory) × (value_release 4 ready_memory ≡ some (tt, m')) × Released ready_memory 4 m'
value_release-live_example = value_release-live ready-IsConsistent 4 refl

value_release-wrap_value_example :
    (m' : Memory) × (m'' : Memory) × (wrap_value 3 1 8 ready_memory ≡ some (9, m'))
    × (m'.values 9 ≡ some (tracked page 3 1 8))
    × (entry 2 (m'.ctxs 3) ≡ some 9)
    × (value_release 9 m' ≡ some (tt, m''))
    × Restored ready_memory m''
value_release-wrap_value_example = value_release-wrap_value ready-IsConsistent 3 1 8 refl

context_dispose-Disposed_example :
    (m' : Memory) × (context_dispose 3 ready_memory ≡ some (tt, m'))
    × Disposed 3 page ready_memory m'
context_dispose-Disposed_example = context_dispose-Disposed ready-IsConsistent 3 refl

toy-HoldsBuffers : HoldsBuffers toy
toy-HoldsBuffers = record {
  is_buffer = λ iso t e. rw (==_refl e.next) refl;
  store = λ iso t e. rw (==_refl e.next) refl;
}

value_bytes-new_array_buffer_copy_example :
    (p : ℕ) × (w' : World Toy) × (new_array_buffer_copy toy 3 (some (7 ∷ 8 ∷ [])) (pos 2) ready
      ≡ ok (rtn_value p) w')
    × (value_bytes toy p w' ≡ ok (data_of (7 ∷ 8 ∷ []) (pos 2)) w')
value_bytes-new_array_buffer_copy_example =
    value_bytes-new_array_buffer_copy toy toy-HoldsBuffers 3 page page_scope (7 ∷ 8 ∷ []) ready
      page-IsLiveCtx (omega arith)

-- The value 4 is an ArrayBuffer of three bytes.
abbrev with_buffer : World Toy
with_buffer = record {
  engine = record { next = 5; kinds = λ h. 9; bytes = λ h. 1 ∷ 2 ∷ 3 ∷ [] };
  mem = ready_memory;
}

value_bytes-int_of_example :
    (n : ℤ) × (value_bytes toy 4 with_buffer ≡ ok (data_of (1 ∷ 2 ∷ 3 ∷ []) n) with_buffer)
    × (3 < 2 ^ 31 → n ≡ pos 3)
    × (2 ^ 31 ≤ 3 → 3 < 2 ^ 32 → n ≡ negsuc (2 ^ 32 - 3 - 1))
value_bytes-int_of_example = value_bytes-int_of toy 4 page_scope 4 with_buffer answer-IsLive refl

one_arg : read_args 1 (4 ∷ []) ready ≡ ok (4 ∷ []) ready
unfolding read_args handle_of ◌>>=◌
one_arg = refl

-- The function 4, called on itself.
self-IsCall : IsCall toy ready 4 4 1 (4 ∷ []) page_scope (returned 1) ready
self-IsCall = record {
  function_handle = 4;
  recv_handle = 4;
  recv_scope = page_scope;
  args = 4 ∷ [];
  callee_live = answer-IsLive;
  recv_live = answer-IsLive;
  args_read = one_arg;
  call = refl;
}

value_call-IsCall_example :
    ((x : Gv8Value) (c : Gv8Ctx)
      → ready_memory.values 4 ≡ some x
      → ready_memory.ctxs x.ctx ≡ some c
      → value_call toy 4 4 (pos 1) (4 ∷ []) ready
        ≡ ok (rtn_value 9) (record ready { mem = wrap_at ready_memory x.ctx c 1 1 }))
    × (ready_memory.values 4 ≡ none → value_call toy 4 4 (pos 1) (4 ∷ []) ready ≡ fault)
value_call-IsCall_example =
    value_call-IsCall toy ready 4 4 1 (4 ∷ []) page_scope 1 ready self-IsCall

context_new_array-array_of_example :
    (3 < 2 ^ 31
      → context_new_array toy 3 3 ready
        ≡ array_of toy 3 page page_scope ready page-IsLiveCtx (pos 3))
    × (2 ^ 31 ≤ 3
        → 3 < 2 ^ 32
        → context_new_array toy 3 3 ready
          ≡ array_of toy 3 page page_scope ready page-IsLiveCtx (negsuc (2 ^ 32 - 3 - 1)))
context_new_array-array_of_example =
    context_new_array-array_of toy 3 page page_scope ready page-IsLiveCtx 3
