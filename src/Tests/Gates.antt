-- ===== src/Tests/Gates.antt =====
-- Threads at the gate of an isolate.
use gv.Prelude.{ℕ, ◌≡◌, refl, true, false, List, [], ◌∷◌, arith, if◌then◌else◌, ◌==◌}
use gv.Go.Access.{open_gate, enter_gate, leave_gate}
use gv.Go.Access.Threads.{Action, enters, leaves, act, run, IsRefined, run-IsRefined, run-leaves}

-- Thread 5 comes in twice, thread 6 is refused, and 5 goes.
abbrev traffic : List Action
traffic = enters 5 ∷ enters 6 ∷ enters 5 ∷ leaves 6 ∷ leaves 5 ∷ leaves 5 ∷ enters 6 ∷ []

traffic_end : run traffic open_gate ≡ (
  (enters 5, true)
      ∷ (enters 6, false)
      ∷ (enters 5, true)
      ∷ (leaves 6, false)
      ∷ (leaves 5, true)
      ∷ (leaves 5, true)
      ∷ (enters 6, true)
      ∷ [],
  record { owner_thread = 6; depth = 1 },
)
unfolding run act enter_gate leave_gate
traffic_end = refl

run-IsRefined_example : IsRefined (λ t. 0) (run traffic open_gate)
run-IsRefined_example = run-IsRefined traffic open_gate (λ t. 0) (λ u. none_inside u)
  where
    none_inside : (u : ℕ) → 0 ≡ (if (open_gate.owner_thread == u) then open_gate.depth else 0)
    none_inside u = ground arith

run-leaves_example :
    run (leaves 5 ∷ leaves 5 ∷ enters 6 ∷ []) (record { owner_thread = 5; depth = 2 }) ≡ (
      (leaves 5, true) ∷ (leaves 5, true) ∷ (enters 6, true) ∷ [],
      record { owner_thread = 6; depth = 1 },
    )
run-leaves_example = run-leaves 1 5 6
