-- ===== src/Tests/Refusals.antt =====
-- NewFunction while another thread is in the isolate.
use gv.Prelude.{ℕ, ◌≡◌, refl, some, [], arith, update}
use gv.Prelude.Int.{pos}
use gv.Run.{World, ok}
use gv.Results.{rtn_value}
use gv.Go.{Isolate, Native, done, pure}
use gv.Go.Access.{enter_gate}
use gv.Go.Enter.{in_use}
use gv.Go.Refs.{get_ref}
use gv.Go.Results.{User}
use gv.Go.Functions.{FunctionCalls, new_function}
use gv.Go.Functions.Refused.{new_function-register_host_function}
use gv.Tests.Engine.{Toy}
use gv.Tests.Lives.{world, context, isolate, empty-IsFresh}

-- Thread 6 is in isolate 1, and thread 5 calls.
abbrev taken : Isolate
taken = record isolate { gate = record { owner_thread = 6; depth = 1 } }

abbrev busy : World (Native Toy)
busy = record world {
  engine = record world.engine {
    go = record world.engine.go { isolates = update world.engine.go.isolates 1 (some taken) };
  };
}

abbrev user : User Toy
user = record { exception_handler = λ h e. pure tt }

abbrev calls : FunctionCalls (Native Toy)
calls = record {
  context_new_function = λ c id w. ok (rtn_value 8) w;
  value_is_function = λ q w. ok (pos 1) w;
}

new_function-register_host_function_example :
    (w' : World (Native Toy)) × (new_function user calls 2 30 busy ≡ ok (done (0, some in_use)) w')
    × ((j : ℕ) → get_ref j w'.engine.go.host_fn_refs ≡ get_ref j busy.engine.go.host_fn_refs)
    × (w'.engine.go.values ≡ busy.engine.go.values)
    × (w'.engine.go.locks ≡ busy.engine.go.locks)
unfolding enter_gate
new_function-register_host_function_example =
    new_function-register_host_function user calls 2 30 context taken [] busy empty-IsFresh
      (λ e. ground arith) (λ e. ground arith) refl refl (λ e. ground arith) refl (λ e. ground arith)
      refl (λ e. ground arith) refl
