-- ===== src/Go/Globals/Outlives.antt =====
-- A GlobalValue and the value that it was made of.
use gv.Prelude.{ℕ, suc, ◌≤◌, ◌≡◌, ◌≢◌, ◌∙◌, refl, ap, subst, Option, none, some, arith, ==_refl}
use gv.Memory.{Ptr}
use gv.Memory.Release.{value_release-live}
use gv.Scope.Live.{IsUsable-kept}
use gv.V8.{V8}
use gv.Run.{World, ok}
use gv.Go.{GlobalValue, Native, done}
use gv.Go.Enter.Lent.{leave_gate-enter_gate, enter_gate_again}
use gv.Go.Values.{remove}
use gv.Go.Lifecycle.{release}
use gv.Go.Lifecycle.Release.{owned, final, release_lem, put_context-Admits}
use gv.Go.Lifecycle.Linked.{IsLinked}
use gv.Go.Lifecycle.Linked.Sessions.{same_world}
use gv.Go.Lifecycle.Linked.Releasing.{release-IsLinked}
use gv.Go.Host.{HostCalls, host_calls}
use gv.Go.Globals.{new_global_value, value}
use gv.Go.Globals.Kept.{Ready, Owns, IsRooted, Retains, after, after-Ready, after-Owns, after-kept}
use gv.Go.Globals.Retained.{host_calls-Retains}
use gv.Go.Globals.Runs.{globals_after, new_global_value_run, value_run}

-- The Go value owns nothing any more, and its wrapper is gone; the other Go values and wrappers are what
-- they were.
pub record IsReleased {E : Type 0} (ctx v p : Ptr) (w w' : World (Native E)) : Type 0 where
  pub nothing : w'.engine.go.values v ≡ some (owned 0 ctx)
  pub gone : w'.mem.values p ≡ none
  pub beside : (x : Ptr) → x ≢ v → w'.engine.go.values x ≡ w.engine.go.values x
  pub others : (q : Ptr) → q ≢ p → w'.mem.values q ≡ w.mem.values q

module _ {E : Type 0} {ctx v : Ptr} {h : ℕ} {w : World (Native E)} (ctx_ne_null : ctx ≢ 0)
    (v_ne_null : v ≢ 0) (k : Ready ctx w) (o : Owns ctx v h w) where
  abbrev pub Leaves : World (Native E) → Type 0
  Leaves w' =
      (release v w ≡ ok (done tt) w')
      × Ready ctx w'
      × ((x : Ptr) (h' : ℕ)
          → x ≢ v
          → (q : Owns ctx x h' w) → (q' : Owns ctx x h' w') × (IsRooted w q → IsRooted w' q'))
      × (w'.engine.go.globals ≡ w.engine.go.globals)
      × (w'.engine.go.next ≡ w.engine.go.next)
      × IsReleased ctx v o.ptr w w'

  -- Release leaves everything ready, and every other value what it was.
  pub release-Leaves : (w' : World (Native E)) × Leaves w'
  release-Leaves =
      let (free, f, depth, own) =
        leave_gate-enter_gate w.engine.go.thread k.isolate.gate k.gate k.admits.admitted in
      let (gate', again) =
        enter_gate_again w.engine.go.thread k.isolate.gate k.gate free k.admits.admitted depth
          own in
      let (m, run, freed) = value_release-live k.linked.consistent o.ptr o.live in
      let w' = final v o.ptr ctx k.owner k.table k.isolate k.gate free w m in
      let released =
        release_lem v o.ptr ctx k.owner k.table k.isolate k.gate free w m v_ne_null o.ptr_ne_null
          ctx_ne_null o.here k.here k.lists (put_context-Admits ctx _ k.admits) f run in
      let (_, run', _, linked) =
        release-IsLinked v o.ptr ctx k.owner k.isolate k.gate w k.linked o.here o.ptr_ne_null
          ctx_ne_null k.here k.admits in
      (
        w',
        (
          released,
          record {
            linked =
                subst (λ (x : World (Native E)). IsLinked x.engine.go x.mem)
                  (same_world run' released) linked;
            owner = record k.owner { live_values = some (remove v k.table) };
            here = ground (arith, ==_refl ctx);
            opened = k.opened;
            table = remove v k.table;
            lists = refl;
            isolate = record k.isolate { gate = free };
            gate = gate';
            admits = record {
              iso_ne_null = k.admits.iso_ne_null;
              here = ground (arith, ==_refl k.owner.iso);
              ptr_ne_null = k.admits.ptr_ne_null;
              admitted = again;
            };
            fresh = λ x q. ground (arith, k.fresh x q, k.fresh v, o.here);
            usable = IsUsable-kept k.usable freed.isolates (freed.ctxs k.owner.ptr);
          },
          (λ x h' n q. (
            record {
              ptr = q.ptr;
              wrapper = q.wrapper;
              here = ground (arith, q.here);
              ptr_ne_null = q.ptr_ne_null;
              live =
                  freed.others q.ptr (λ z. n (
                    k.linked.apart x v (owned q.ptr ctx) (owned o.ptr ctx) q.here o.here
                      (q.ptr_ne_null, refl, ctx_ne_null) (o.ptr_ne_null, refl, ctx_ne_null) z))
                  ∙ q.live;
              holds = q.holds;
            },
            (λ t. (t.0, ap (λ f. f q.wrapper.iso) freed.isolates ∙ t.1)),
          )),
          refl,
          refl,
          record {
            nothing = ground (arith, ==_refl v);
            gone = freed.gone;
            beside = λ x n. ground arith;
            others = freed.others;
          },
        ),
      )

-- The same for any functions of gv8.h that keep the promise.
outlives :
    {E : Type 0} (c : HostCalls (Native E)) (ctx v : Ptr) (h : ℕ) (w : World (Native E))
    → Retains c ctx
    → ctx ≢ 0
    → Ready ctx w
    → (o : Owns ctx v h w) → IsRooted w o
    → (w1 : World (Native E)) × (w2 : World (Native E)) × (w3 : World (Native E)) × (g : Ptr)
      × (u : Ptr) × (new_global_value c v w ≡ ok (done (g, none)) w1)
      × (release v w1 ≡ ok (done tt) w2)
      × (value c g ctx w2 ≡ ok (done (u, none)) w3)
      × (u ≢ v)
      × Owns ctx u h w3
      × Ready ctx w3
outlives c ctx v h w s n k o r =
    let v_ne_null : v ≢ 0 = λ z. ground (arith, k.linked.tracked.null_value, o.here) in
    let (free, f, depth, own) =
      leave_gate-enter_gate w.engine.go.thread k.isolate.gate k.gate k.admits.admitted in
    let next = w.engine.go.next in
    let v_lt : suc v ≤ next = ground (arith, k.fresh v, o.here) in
    let k1 =
      after-Ready s n k o r free (suc (suc next)) (globals_after w) f depth own (omega arith) in
    let (o1, r1) = after-Owns s n k o r free (suc (suc next)) (globals_after w) in
    let kept1 = after-kept s n k o r free (suc (suc next)) (globals_after w) o in
    let (w2, (released, k2, others, globals, next2, _)) = release-Leaves n v_ne_null k1 kept1 in
    let (o2, root) = others next h (omega (arith, v_lt)) o1 in
    let r2 = root r1 in
    let (free', f', depth', own') =
      leave_gate-enter_gate w2.engine.go.thread k2.isolate.gate k2.gate k2.admits.admitted in
    (
      after s n k o r free (suc (suc next)) (globals_after w),
      w2,
      after s n k2 o2 r2 free' (suc w2.engine.go.next) w2.engine.go.globals,
      suc next,
      w2.engine.go.next,
      new_global_value_run s n k o r v_ne_null free f,
      released,
      value_run s n k2 o2 r2 (k.linked.tracked.next_ne_null) free' f' (suc next) (omega arith) (
          ap (λ (t : Ptr → Option GlobalValue). t (suc next)) globals
          ∙ ground (arith, ==_refl next)),
      omega (arith, v_lt, next2),
      (after-Owns s n k2 o2 r2 free' (suc w2.engine.go.next) w2.engine.go.globals).0,
      after-Ready s n k2 o2 r2 free' (suc w2.engine.go.next) w2.engine.go.globals f' depth' own'
          (omega arith),
    )

-- NewGlobalValue of an owned value of an open context, then Release of that value, then Value of the
-- GlobalValue in the context, by a thread that may enter the isolate, where the Go side and C are linked,
-- no values stand at the addresses to come, C can work in the context, and the isolate of the value's
-- wrapper is live: all three, with GV8ValueRetain in any V8, end without an error, a panic or a fault, and
-- give a new owned value, other than the first, whose wrapper holds the handle that the first one's held;
-- the two sides are linked, and the context can be used on.
pub value-new_global_value :
    {E : Type 0} (v8 : V8 (Native E)) (ctx v : Ptr) (h : ℕ) (w : World (Native E))
    → ctx ≢ 0
    → Ready ctx w
    → (o : Owns ctx v h w) → IsRooted w o
    → (w1 : World (Native E)) × (w2 : World (Native E)) × (w3 : World (Native E)) × (g : Ptr)
      × (u : Ptr) × (new_global_value (host_calls v8) v w ≡ ok (done (g, none)) w1)
      × (release v w1 ≡ ok (done tt) w2)
      × (value (host_calls v8) g ctx w2 ≡ ok (done (u, none)) w3)
      × (u ≢ v)
      × Owns ctx u h w3
      × Ready ctx w3
value-new_global_value v8 ctx v h w n k o r =
    outlives (host_calls v8) ctx v h w (host_calls-Retains v8 n) n k o r
