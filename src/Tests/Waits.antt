-- ===== src/Tests/Waits.antt =====
-- A failed call of C.
use gv.Prelude.{◌≡◌, refl, Option, none, some, [], ◌∷◌, arith}
use gv.Run.{World, ok}
use gv.Results.{rtn_error}
use gv.Go.{Native, done, pure, GoError}
use gv.Go.Results.{User, value_result}
use gv.Go.Results.Errors.{IsReported, value_result-IsReported}
use gv.Tests.Engine.{Toy}
use gv.Tests.Lives.{world, context, isolate}

abbrev no_handler : User Toy
no_handler = record { exception_handler = λ h e. pure tt }

value_result-IsReported_example :
    (w' : World (Native Toy)) × (err : Option GoError) × (value_result no_handler 2
        (rtn_error (record { msg = some (65 ∷ []); location = none; stack = none }))
        world
      ≡ ok (done (0, err)) w')
    × IsReported world.engine.go w'.engine.go 1 isolate
        (record { msg = some (65 ∷ []); location = none; stack = none })
        err
    × (w'.mem ≡ world.mem)
value_result-IsReported_example =
    value_result-IsReported no_handler 2 context isolate world (λ e. ground arith) refl
      (λ e. ground arith) refl refl
      (rtn_error (record { msg = some (65 ∷ []); location = none; stack = none })) refl
