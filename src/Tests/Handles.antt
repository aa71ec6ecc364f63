-- ===== src/Tests/Handles.antt =====
-- A session: an isolate, a context, two values, a release, and the end of the context.
use gv.Prelude.{◌≡◌, refl, List, [], ◌∷◌}
use gv.Prelude.Int.{pos}
use gv.Memory.Invariant.{IsConsistent}
use gv.Memory.Values
use gv.Memory.Objects.{
  new_isolate_slots, set_data0, set_import_hook, set_reject_hook, set_embedder_ref,
  set_embedder_ctx, set_ctx_ptr, get_default_allocator,
}
use gv.Isolate.{new_isolate, new_context, initialize_gv8_isolate}
use gv.Creation.{context_new_object, new_string, wrap_new}
use gv.Results.{wrap_result}
use gv.Errors.{exception_error}
use gv.Scope.{iso_scope, ctx_scope}
use gv.Run.{World, Run, ok, fault, abort, ◌>>=◌}
use gv.Api.{Event, Request, go, session, event}
use gv.Api.Safety.{session-IsConsistent}
use gv.Tests.Engine.{Toy, toy, mute, start, start-IsConsistent, toy-V8Reaches, mute-HostReaches}

abbrev script : List Event
script =
    go Request.new_isolate
    ∷ go (Request.new_context 1 (pos 5))
    ∷ go (Request.context_new_object 3)
    ∷ go (Request.new_string 3 (65 ∷ []) (pos 1))
    ∷ go (Request.value_release 4)
    ∷ go (Request.context_dispose 3)
    ∷ []

abbrev world_of : Run Toy (Unit {0}) → World Toy
world_of (ok a w) = w
world_of fault = start
world_of abort = start

-- The world at the end of the session.
after : World Toy
after = world_of (session toy mute script start)

runs : session toy mute script start ≡ ok tt after
unfolding after session event ◌>>=◌ new_isolate new_context context_new_object new_string
    Values.value_release Values.context_dispose ctx_scope wrap_result exception_error wrap_new
    initialize_gv8_isolate iso_scope Values.wrap_value Values.new_ctx new_isolate_slots set_data0
    set_import_hook set_reject_hook set_embedder_ref set_embedder_ctx set_ctx_ptr
    get_default_allocator
runs = refl

session-IsConsistent_example : IsConsistent after.mem
session-IsConsistent_example =
    session-IsConsistent toy mute toy-V8Reaches mute-HostReaches script start after
      start-IsConsistent runs
