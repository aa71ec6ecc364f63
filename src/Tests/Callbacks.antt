-- ===== src/Tests/Callbacks.antt =====
-- The callbacks, with a host that finds nothing.
use gv.Prelude.{ℕ, ◌≡◌, refl, none, [], ◌∷◌, arith, if◌then◌else◌}
use gv.Prelude.Int.{pos, ◌==ℤ◌}
use gv.Run.{World, ok}
use gv.V8.{returned}
use gv.Isolate.{isolate_set_observer_ref}
use gv.Callback.{host_function_callback, resolve_module_callback, on_promise_reject}
use gv.Callback.Function.{Silent, Returned, host_function_callback-Returned}
use gv.Callback.Reject.{notify, on_promise_reject-isolate_set_observer_ref}
use gv.Callback.Resolve.{resolve_module_callback-made}
use gv.Tests.Engine.{Toy, toy, mute}
use gv.Tests.Ready.{slots, page, ready_memory, ready}

mute-Silent : Silent mute
mute-Silent = record { answer = λ ref id argc recv argv w. (w.engine, refl) }

host_function_callback-Returned_example :
    (w' : World Toy) × (host_function_callback toy mute 1 3 (4 ∷ 4 ∷ []) (pos 2) ready ≡ ok none w')
    × Returned 3 ready_memory w'.mem
host_function_callback-Returned_example =
    host_function_callback-Returned toy mute mute-Silent 1 3 (4 ∷ 4 ∷ []) (pos 2) ready
      (record { slot1 = pos 5; slot2 = 3 }) page refl refl (omega arith) (λ q a. ground arith)

on_promise_reject-isolate_set_observer_ref_example :
    (w' : World Toy) × (isolate_set_observer_ref 1 (pos 7) ready ≡ ok tt w')
    × (on_promise_reject toy mute 4 (pos 0) w'
        ≡ (if pos 7 ==ℤ pos 0 then ok tt w' else notify toy mute 1 4 (pos 0) (pos 7) w'))
on_promise_reject-isolate_set_observer_ref_example =
    on_promise_reject-isolate_set_observer_ref toy mute 4 (pos 0) (pos 7) ready slots (omega arith)
      refl

resolve_module_callback-made_example :
    (w' : World Toy) × (resolve_module_callback toy mute 3 4 4 ready ≡ ok none w')
    × (w'.mem.made ≡ 1)
    × (w'.mem.freed ≡ 0)
    × ((q : ℕ) → w'.mem.modules q ≡ none)
resolve_module_callback-made_example =
    resolve_module_callback-made toy mute 3 4 4 ready (record { slot1 = pos 5; slot2 = 3 }) page
      (returned []) ready.engine refl refl refl refl (λ t p w. (w.engine, refl))
