-- ===== src/Go/Globals/Runs.antt =====
-- The runs of NewGlobalValue and Value.
use gv.Prelude.{ℕ, suc, ◌-◌, ◌≡◌, ◌≢◌, refl, none, some, arith, update, Option, ne→==, ==_refl}
use gv.Memory.{Ptr}
use gv.Run.{World, ok}
use gv.Go.{GlobalValue, Native, done}
use gv.Go.Access.{Gate, leave_gate}
use gv.Go.Enter.Lent.{enter_lem, leave_lem}
use gv.Go.Functions.Refused.{ensure_lem}
use gv.Go.Lifecycle.Release.{owned}
use gv.Go.Guards.{on_valid, entering}
use gv.Go.Guards.Valid.{valid_lem}
use gv.Go.Host.{HostCalls}
use gv.Go.Globals.{new_global_value, value}
use gv.Go.Globals.Kept.{Ready, Owns, IsRooted, Retains, grown, retained, after, new_value-grown}

minus_one : (n : ℕ) → suc n - 1 ≡ n
minus_one n = omega arith

abbrev pub with_global : Ptr → GlobalValue
with_global p = record { value = p }

-- The new GlobalValue stands after its value.
abbrev pub globals_after : {E : Type 0} → World (Native E) → Ptr → Option GlobalValue
globals_after w =
    update w.engine.go.globals (suc w.engine.go.next) (some (with_global w.engine.go.next))

module _ {E : Type 0} {c : HostCalls (Native E)} {ctx v : Ptr} {h : ℕ} {w : World (Native E)}
    (s : Retains c ctx) (ctx_ne_null : ctx ≢ 0) (k : Ready ctx w) (o : Owns ctx v h w)
    (r : IsRooted w o) (v_ne_null : v ≢ 0) (free : Gate)
    (left : leave_gate w.engine.go.thread k.gate ≡ some free) where
  abbrev owner_ptr : k.owner.ptr ≢ 0
  owner_ptr = (k.linked.live ctx k.owner k.here k.opened).0

  pub new_global_value_run :
      new_global_value c v w
      ≡ ok
          (done (suc w.engine.go.next, none))
          (after s ctx_ne_null k o r free (suc (suc w.engine.go.next)) (globals_after w))
  unfolding new_global_value on_valid entering gv.Go.◌>>=◌ gv.Go.deferring
  new_global_value_run =
      rw
        (
          valid_lem v (owned o.ptr ctx) k.owner w.engine.go v_ne_null o.here o.ptr_ne_null
              ctx_ne_null k.here k.opened owner_ptr,
          o.here,
          k.here,
          enter_lem k.admits,
          (retained s ctx_ne_null k o r).run,
          ne→== w.mem.next 0 k.linked.consistent.next_ne_null,
          new_value-grown s ctx_ne_null k o r,
          leave_lem
              (record (grown s ctx_ne_null k o r) {
                next = suc (suc w.engine.go.next);
                globals = globals_after w;
              })
              k.owner.iso (record k.isolate { gate = k.gate }) free
              (ground (arith, ==_refl k.owner.iso)) left,
          minus_one w.engine.go.locks,
        )
        refl

  pub value_run :
      (g : Ptr)
      → g ≢ 0
      → w.engine.go.globals g ≡ some (with_global v)
      → value c g ctx w
        ≡ ok
            (done (w.engine.go.next, none))
            (after s ctx_ne_null k o r free (suc w.engine.go.next) w.engine.go.globals)
  unfolding value entering gv.Go.◌>>=◌ gv.Go.deferring
  value_run g n e =
      rw
        (
          ne→== g 0 n,
          e,
          valid_lem v (owned o.ptr ctx) k.owner w.engine.go v_ne_null o.here o.ptr_ne_null
              ctx_ne_null k.here k.opened owner_ptr,
          o.here,
          ne→== ctx 0 ctx_ne_null,
          ==_refl ctx,
          ensure_lem ctx k.owner w.engine.go ctx_ne_null k.here k.opened owner_ptr,
          k.here,
          enter_lem k.admits,
          o.here,
          (retained s ctx_ne_null k o r).run,
          ne→== w.mem.next 0 k.linked.consistent.next_ne_null,
          new_value-grown s ctx_ne_null k o r,
          leave_lem (grown s ctx_ne_null k o r) k.owner.iso (record k.isolate { gate = k.gate })
              free (ground (arith, ==_refl k.owner.iso)) left,
          minus_one w.engine.go.locks,
        )
        refl
