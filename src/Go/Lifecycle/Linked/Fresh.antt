-- ===== src/Go/Lifecycle/Linked/Fresh.antt =====
-- GV8NewContext as NewContext uses it.
use gv.Prelude.{ℕ, ◌≡◌, refl, ◌∙◌, subst, ap, some, arith}
use gv.Prelude.Int.{ℤ}
use gv.Memory.{Ptr, IsolateSlots}
use gv.Memory.Invariant.{IsConsistent}
use gv.Run.{World, ok}
use gv.Memory.Steps.{Reach, here, Reach-IsConsistent}
use gv.Run.Keeps.{Ends}
use gv.V8.{V8}
use gv.Isolate as Isolate
use gv.Isolate.Contexts.{new_context-embedder_ctx}
use gv.Isolate.Keeps.{Keeps-new_context}
use gv.Api.Safety.{Reach-Stable}
use gv.Go.{Native}
use gv.Go.Lifecycle.Linked.Opening.{IsNew}

-- GV8NewContext gives NewContext what it needs, in a live isolate and a consistent memory, where V8's
-- creation of a context does not change the Go side.
pub new_context-IsNew :
    {E : Type 0} (v : V8 (Native E)) (iso : Ptr) (ref : ℤ) (w : World (Native E)) (s : IsolateSlots)
    → IsConsistent w.mem
    → w.mem.isolates iso ≡ some s
    → ((e : Native E) → (v.context_new iso e).1.go ≡ e.go)
    → (a : World (Native E)) × (Isolate.new_context v iso ref w ≡ ok w.mem.next a)
      × IsNew w.mem.next w a
new_context-IsNew {E} v iso ref w s i live quiet =
    let (h, a, run, e, there, _, _, ctxs, values) = new_context-embedder_ctx v iso ref w s live in
    (
      a,
      run,
      record {
        address = refl;
        there = λ n. ground (arith, there, n);
        ctxs = ctxs;
        values = values;
        consistent = Reach-IsConsistent i (
            subst (Ends (Reach w.mem)) run
              ((Keeps-new_context v (Reach-Stable w.mem) iso ref).at w here));
        go = ap (λ (r : ℕ × Native E). r.1.go) e ∙ quiet w.engine;
      },
    )
