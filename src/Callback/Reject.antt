-- ===== src/Callback/Reject.antt =====
-- OnPromiseReject and GV8IsolateSetObserverRef: who hears of a rejected promise.
use gv.Prelude.{◌≡◌, ◌≢◌, some, if◌then◌else◌, update, refl, ne→==, ==_refl, Bool-cases, inl, inr}
use gv.Prelude.Int.{ℤ, pos, ◌==ℤ◌}
use gv.Memory.{Ptr, IsolateSlots, Memory}
use gv.Memory.Objects.{set_data1}
use gv.Run.{World, ok, Cmd, engine, enter, asks, ◌>>=◌}
use gv.V8.{V8, Host, Local}
use gv.Errors.{error_from_message}
use gv.Isolate.{isolate_set_observer_ref}
use gv.Callback.{on_promise_reject}

abbrev observed : Memory → Ptr → IsolateSlots → Memory
observed m iso s = record m { isolates = update m.isolates iso (some s) }

module _ {E : Type 0} (v : V8 E) (host : Host E) where
  -- What an observer is told: the error that is made of the value and of its message.
  abbrev pub notify : Ptr → Local → ℤ → ℤ → Cmd E (Unit {0})
  notify iso value event ref = do
    ctx ← asks (v.entered_context iso)
    msg ← engine (v.create_message iso value)
    error ← error_from_message v iso ctx (some msg) (some value)
    enter (host.promise_reject ref event error)

  -- In the current isolate, which is live: after GV8IsolateSetObserverRef with a ref, a rejection
  -- notifies the Go side under that ref, and after the ref 0 it does nothing; the world that the
  -- notification starts from is the one that the setting of the ref left.
  pub on_promise_reject-isolate_set_observer_ref :
      (value : Local) (event ref : ℤ) (w : World E) (s : IsolateSlots)
      → v.current_isolate w.engine ≢ 0
      → w.mem.isolates (v.current_isolate w.engine) ≡ some s
      → (w' : World E) × (isolate_set_observer_ref (v.current_isolate w.engine) ref w ≡ ok tt w')
        × (on_promise_reject v host value event w' ≡ (
            if ref ==ℤ pos 0
            then ok tt w'
            else notify (v.current_isolate w.engine) value event ref w'))
  unfolding isolate_set_observer_ref on_promise_reject ◌>>=◌ set_data1
  on_promise_reject-isolate_set_observer_ref value event ref w s n live = (
    record w { mem = observed w.mem (v.current_isolate w.engine) (record s { data1 = ref }) },
    rw (ne→== (v.current_isolate w.engine) 0 n, live) refl,
    elim (Bool-cases (ref ==ℤ pos 0)) [
      | inl z ↦ rw (==_refl (v.current_isolate w.engine), z) refl
      | inr z ↦ rw (==_refl (v.current_isolate w.engine), z) refl
    ],
  )
