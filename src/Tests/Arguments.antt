-- ===== src/Tests/Arguments.antt =====
-- The arguments of a call, against a C side that wraps one handle.
use gv.Prelude.{◌≡◌, refl, true, List, [], ◌∷◌}
use gv.Run.{World, ok}
use gv.Go.{Native, done}
use gv.Go.Arguments.{Any, value, boolean, unsupported, Arguments, materialize_args}
use gv.Go.Arguments.Gathered.{Working}
use gv.Go.Arguments.Cleaned.{Materializes, materialize_args-Materializes}
use gv.Go.Creation.{creation_calls}
use gv.Tests.Lifted.{lifted, lifted-IsQuiet}
use gv.Tests.Engine.{Toy}
use gv.Tests.Lives.{world}
use gv.Tests.Hosts.{user}
use gv.Tests.Globals.{two_ne_zero, world_ready}

world-Working : Working 2 world
world-Working = record { ready = world_ready; quiet = refl }

-- A value of Go's own, one that is given, and one that is refused.
abbrev three_values : List Any
three_values = boolean true ∷ value 3 ∷ unsupported [] ∷ []

materialize_args-Materializes_example :
    (w' : World (Native Toy)) × (r : Arguments) × (materialize_args user
        (creation_calls lifted)
        2
        three_values
        world
      ≡ ok (done r) w')
    × Materializes 2 three_values world w' r
materialize_args-Materializes_example =
    materialize_args-Materializes user lifted 2 three_values world two_ne_zero lifted-IsQuiet
      (tt, (tt, (tt, tt))) world-Working
