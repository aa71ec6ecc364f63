-- ===== src/Go/Globals/Retained.antt =====
-- GV8ValueRetain of what the Go side owns, where C can work in the context.
use gv.Prelude.{◌≡◌, ◌≢◌, refl, ◌∙◌, ap, arith}
use gv.Memory.{Ptr, Memory}
use gv.Run.{World}
use gv.Scope.Live.{IsLive}
use gv.V8.{V8}
use gv.Go.{Native}
use gv.Go.Lifecycle.Release.{owned}
use gv.Go.Host.{host_calls}
use gv.Go.Host.Handoff.{value_retain-IsRetained}
use gv.Go.Globals.Kept.{Ready, Owns, IsRooted, Retains}

module _ {E : Type 0} {ctx v h : Ptr} {w : World (Native E)} (ctx_ne_null : ctx ≢ 0)
    (k : Ready ctx w) (o : Owns ctx v h w) (r : IsRooted w o) where
  wrapper_ctx : o.wrapper.ctx ≡ k.owner.ptr
  wrapper_ctx =
      let t =
        k.linked.wrapped v (owned o.ptr ctx) k.owner o.here (o.ptr_ne_null, refl, ctx_ne_null)
          k.here in
      ground (arith, t, o.live)

  abbrev live_value :
      {m : Memory}
      → m ≡ w.mem
      → IsLive m o.ptr (record { iso = o.wrapper.iso; local_ctx = k.usable.1.local_ctx }) h
  live_value e =
      let (c, s, l) = k.usable in
      record {
        value = o.wrapper;
        ctx = c;
        slots = r.0;
        found = ap (λ (m : Memory). m.values o.ptr) e ∙ o.live;
        found_ctx =
            ap (λ (m : Memory). m.ctxs o.wrapper.ctx) e ∙ ap w.mem.ctxs wrapper_ctx ∙ l.found;
        found_iso = ap (λ (m : Memory). m.isolates o.wrapper.iso) e ∙ r.1;
        iso = refl;
        local_ctx = l.local_ctx;
        handle = o.holds;
      }

-- The program's own function keeps the promise.
pub host_calls-Retains :
    {E : Type 0} {ctx : Ptr} (v : V8 (Native E)) → ctx ≢ 0 → Retains (host_calls v) ctx
host_calls-Retains v n = record {
  retain =
      λ x h w u k o r e. value_retain-IsRetained v o.ptr _ h u o.ptr_ne_null (live_value n k o r e);
}
