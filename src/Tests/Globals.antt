-- ===== src/Tests/Globals.antt =====
-- A value that is kept, and an isolate that is disposed of.
use gv.Prelude.{ℕ, ◌≡◌, ◌≢◌, ◌≤◌, refl, none, [], ◌∷◌, arith}
use gv.Memory.{Ptr}
use gv.Run.{World, ok}
use gv.Control as Control
use gv.Go.{Native, done}
use gv.Go.Access.{Gate}
use gv.Go.Lifecycle.{release}
use gv.Go.Host.{host_calls}
use gv.Scope.Live.{IsLiveCtx}
use gv.Go.Globals.{new_global_value, value}
use gv.Go.Globals.Kept.{Ready, Owns}
use gv.Go.Globals.Outlives.{value-new_global_value}
use gv.Go.Isolates.{IsolateCalls, dispose}
use gv.Go.Isolates.Disposed.{IsGone, dispose-IsGone}
use gv.Tests.Engine.{Toy}
use gv.Tests.Lifted.{lifted}
use gv.Tests.Lives.{
  slots, c_context, world, context, isolate, wrapper, world-IsLinked, isolate-Admits, empty-IsFresh,
}

pub two_ne_zero : ◌≢◌ {A = ℕ} 2 0
two_ne_zero e = ground arith

abbrev entering : Gate
entering = record { owner_thread = 5; depth = 1 }

pub world_usable :
    IsLiveCtx world.mem 7 (c_context ((1, 8) ∷ [])) (record { iso = 6; local_ctx = 21 })
world_usable = record {
  slots = slots;
  found = refl;
  found_iso = refl;
  iso = refl;
  local_ctx = refl;
}

pub world_fresh : (x : Ptr) → 5 ≤ x → world.engine.go.values x ≡ none
world_fresh x e = ground arith

abbrev pub world_ready : Ready 2 world
world_ready = record {
  linked = world-IsLinked;
  owner = context;
  here = refl;
  opened = refl;
  table = 3 ∷ [];
  lists = refl;
  isolate = isolate;
  gate = entering;
  admits = isolate-Admits;
  fresh = world_fresh;
  usable = (c_context ((1, 8) ∷ []), record { iso = 6; local_ctx = 21 }, world_usable);
}

pub eight_ne_null : ◌≢◌ {A = ℕ} 8 0
eight_ne_null e = ground arith

abbrev three_owns : Owns 2 3 20 world
three_owns = record {
  ptr = 8;
  wrapper = wrapper 1 7;
  here = refl;
  ptr_ne_null = eight_ne_null;
  live = refl;
  holds = refl;
}

value-new_global_value_example :
    (w1 : World (Native Toy)) × (w2 : World (Native Toy)) × (w3 : World (Native Toy)) × (g : Ptr)
    × (u : Ptr) × (new_global_value (host_calls lifted) 3 world ≡ ok (done (g, none)) w1)
    × (release 3 w1 ≡ ok (done tt) w2)
    × (value (host_calls lifted) g 2 w2 ≡ ok (done (u, none)) w3)
    × (u ≢ 3)
    × Owns 2 u 20 w3
    × Ready 2 w3
value-new_global_value_example =
    value-new_global_value lifted 2 3 20 world two_ne_zero world_ready three_owns (slots, refl)

abbrev isolate_calls : IsolateCalls (Native Toy)
isolate_calls = record {
  init = ok tt;
  new_isolate = ok 1;
  new_isolate_with_heap_limit = λ a b. ok 1;
  new_isolate_with_snapshot = λ t n a b. ok 1;
  isolate_set_observer_ref = λ p n. ok tt;
  isolate_dispose = λ p. ok tt;
  isolate_terminate_execution = λ p. ok tt;
  isolate_cancel_terminate_execution = λ p. ok tt;
  isolate_low_memory_notification = λ p. ok tt;
  isolate_memory_pressure_notification = λ p n. ok tt;
  isolate_get_heap_statistics = λ p. ok Control.no_statistics;
}

dispose-IsGone_example :
    (w' : World (Native Toy)) × (dispose isolate_calls 1 world ≡ ok (done tt) w')
    × IsGone isolate_calls 1 isolate world w'
dispose-IsGone_example =
    dispose-IsGone isolate_calls 1 isolate entering world world.engine.v8 world.mem empty-IsFresh
      isolate-Admits refl
