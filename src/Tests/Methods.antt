-- ===== src/Tests/Methods.antt =====
-- A method that is called on an object.
use gv.Prelude.{◌≡◌, refl, some, [], ◌∷◌, arith}
use gv.Prelude.Int.{pos}
use gv.Memory.Wrap.{wrap_at, tracked, enlist}
use gv.Run.{World, ok, ◌>>=◌}
use gv.V8.{Text, returned, string, function}
use gv.Errors.{string_checked}
use gv.Scope.{handle_of}
use gv.Results.{rtn_value}
use gv.Object.{object_call_method, read_args}
use gv.Object.Calls.{IsCall}
use gv.Object.Methods.{object_call_method-method_wrapper}
use gv.Tests.Engine.{Toy, toy, make}
use gv.Tests.Ready.{page, answer, slots, ready_memory, ready, page_scope, answer-IsLive}

abbrev key : Text
key = b'f' ∷ []

-- The worlds after the key was made, and after the method was found.
abbrev keyed : World Toy
keyed = record ready { engine = (make string key ready.engine).1 }

abbrev called : World Toy
called = record {
  engine = (make function [] keyed.engine).1;
  mem = wrap_at ready_memory 3 page 1 6;
}

key_made : string_checked toy 1 key ready ≡ ok 5 keyed
unfolding string_checked ◌>>=◌
key_made = refl

argument_read : read_args 1 (4 ∷ []) called ≡ ok (4 ∷ []) called
unfolding read_args handle_of ◌>>=◌
argument_read = refl

method-IsCall : IsCall toy called 9 4 1 (4 ∷ []) page_scope (returned 1) called
method-IsCall = record {
  function_handle = 6;
  recv_handle = 4;
  recv_scope = page_scope;
  args = 4 ∷ [];
  callee_live = record {
    value = tracked page 3 1 6;
    ctx = enlist page 9;
    slots = slots;
    found = refl;
    found_ctx = refl;
    found_iso = refl;
    iso = refl;
    local_ctx = refl;
    handle = refl;
  };
  recv_live = record {
    value = answer;
    ctx = enlist page 9;
    slots = slots;
    found = refl;
    found_ctx = refl;
    found_iso = refl;
    iso = refl;
    local_ctx = refl;
    handle = refl;
  };
  args_read = argument_read;
  call = refl;
}

object_call_method-method_wrapper_example :
    (w'' : World Toy) × (object_call_method toy 4 key (pos 1) (4 ∷ []) ready
      ≡ ok (rtn_value 10) w'')
    × (w''.mem.values 9 ≡ some (tracked page 3 1 6))
    × (w''.mem.values 10 ≡ some (tracked (enlist page 9) 3 1 1))
object_call_method-method_wrapper_example =
    object_call_method-method_wrapper toy 4 key page_scope 4 5 6 ready keyed called.engine
      answer-IsLive key_made refl 1 (4 ∷ []) 1 called (enlist page 9) (omega arith) method-IsCall
      refl refl (omega arith)
