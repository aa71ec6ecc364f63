-- ===== src/Go/Host/Handoff.antt =====
-- handoffHostValue: an owned value of the Go side becomes a wrapper that C owns.
use gv.Prelude.{
  ℕ, ◌≡◌, ◌≢◌, refl, sym, ◌∙◌, subst, ap, false, none, some, arith, ne→==, Option-cases, ==_refl,
  inl, inr,
}
use native.Mathlib.Decide.{ℕ_discrete}
use gv.Memory.{Ptr, Memory, Gv8Ctx, Gv8Value}
use gv.Memory.Values as MemValues
use gv.Memory.Wrap.{wrap_at, wrap_lem, tracked}
use gv.Memory.Invariant.{wrap-IsConsistent}
use gv.Memory.Release.{Released, value_release-live}
use gv.Run
use gv.Run.{World, ok}
use gv.Scope.{Scope}
use gv.Scope.Live.{IsLive, value_scope_run, handle_of_run, wrap_beside_run}
use gv.V8.{V8}
use gv.Values as Values
use gv.Go.{Context, Isolate, Value, Heap, Native, done}
use gv.Go.Access.{Gate}
use gv.Go.Enter.Lent.{Admits}
use gv.Go.Lifecycle.{release}
use gv.Go.Lifecycle.Release.{owned}
use gv.Go.Lifecycle.Linked.{IsLinked, IsOwned, owner, same_end}
use gv.Go.Lifecycle.Linked.Sessions.{some_end}
use gv.Go.Lifecycle.Linked.Releasing.{release-IsLinked}
use gv.Go.Host.{HostCalls, host_calls, handoff_host_value}

-- What C promises of GV8ValueRetain: a new wrapper in the same context, with the same handle.
pub record IsRetained {E : Type 0} (c : HostCalls (Native E)) (p : Ptr) (a : Gv8Value) (h : ℕ)
    (w : World (Native E)) : Type 0 where
  pub after : World (Native E)
  pub run : c.value_retain p w ≡ ok w.mem.next after
  pub wrapped : MemValues.wrap_value a.ctx a.iso h w.mem ≡ some (w.mem.next, after.mem)
  pub go : after.engine.go ≡ w.engine.go

value_retain_run :
    {E : Type 0} (v : V8 E) (p : Ptr) (s : Scope) (h : ℕ) (w : World E)
    → p ≢ 0
    → (l : IsLive w.mem p s h)
    → Values.value_retain v p w
      ≡ ok w.mem.next (record w { mem = wrap_at w.mem l.value.ctx l.ctx s.iso h })
unfolding Values.value_retain Run.◌>>=◌
value_retain_run v p s h w n l =
    rw
      (
        ne→== p 0 n,
        value_scope_run w p s h l,
        handle_of_run w p s h l,
        wrap_beside_run w p s.iso h l.value l.ctx l.found l.found_ctx,
      )
      refl

-- GV8ValueRetain keeps the promise for a live wrapper.
pub value_retain-IsRetained :
    {E : Type 0} (v : V8 (Native E)) (p : Ptr) (s : Scope) (h : ℕ) (w : World (Native E))
    → p ≢ 0
    → (l : IsLive w.mem p s h) → IsRetained (host_calls v) p l.value h w
unfolding host_calls
value_retain-IsRetained v p s h w n l = record {
  after = record w { mem = wrap_at w.mem l.value.ctx l.ctx s.iso h };
  run = value_retain_run v p s h w n l;
  wrapped =
      subst
        (λ i.
          MemValues.wrap_value l.value.ctx i h w.mem
          ≡ some (w.mem.next, wrap_at w.mem l.value.ctx l.ctx s.iso h))
        (sym l.iso) (wrap_lem w.mem l.value.ctx s.iso h l.ctx l.found_ctx);
  go = refl;
}

module _ {g : Heap} {m : Memory} (l : IsLinked g m) where
  -- No Go value has the address that C gives out next.
  pub unowned : (u : Ptr) (x : Value) → g.values u ≡ some x → IsOwned x → x.ptr ≢ m.next
  unowned u x e o q =
      let (z, f, _) = owner u x l.tracked e o in
      let w = l.wrapped u x z e o f in
      ground (arith, w, q, l.consistent.unused_value m.next (omega arith))

  -- A wrapper that C alone has.
  pub wrap_at-IsLinked :
      (p iso : Ptr) (h : ℕ) (cc : Gv8Ctx) → m.ctxs p ≡ some cc → IsLinked g (wrap_at m p cc iso h)
  wrap_at-IsLinked p iso h cc e = record {
    tracked = l.tracked;
    stored = l.stored;
    consistent = wrap-IsConsistent l.consistent p iso h e;
    wrapped = λ u x y f o t. ground (arith, l.wrapped u x y f o t, unowned u x f o);
    apart = l.apart;
    live = λ q y f o. let (n, a) = l.live q y f o in (n, λ z. a (ground arith));
    contexts_apart = l.contexts_apart;
  }

module _ {E : Type 0} (c : HostCalls (Native E)) (v p : Ptr) (x : Value) (q : Ptr)
    (w a b : World (Native E)) where
  handoff_lem :
      v ≢ 0
      → w.engine.go.values v ≡ some x
      → x.ptr ≢ 0
      → x.borrowed ≡ false
      → c.value_retain x.ptr w ≡ ok q a
      → release v a ≡ ok (done tt) b
      → handoff_host_value c v w ≡ ok (done q) b
  unfolding handoff_host_value
  handoff_lem n e z o r f = rw (ne→== v 0 n, e, ne→== x.ptr 0 z, r, o, f) refl

-- What the callback gives to C: a live wrapper, in the same C context and with the same handle as the
-- value's, that no Go value owns; the value is nil, no value has gone, and the two sides are linked.
pub record IsHandedOff {E : Type 0} (v q : Ptr) (a : Gv8Value) (w w' : World (Native E))
    : Type 0 where
  pub not_null : q ≢ 0
  pub wrapper : (b : Gv8Value) × (w'.mem.values q ≡ some b) × (b.ctx ≡ a.ctx) × (b.ptr ≡ a.ptr)
  pub nil : (x : Value) → w'.engine.go.values v ≡ some x → x.ptr ≡ 0
  pub unowned : (u : Ptr) (x : Value) → w'.engine.go.values u ≡ some x → IsOwned x → x.ptr ≢ q
  pub linked : IsLinked w'.engine.go w'.mem
  pub stays : (u : Ptr) → w.engine.go.values u ≢ none → w'.engine.go.values u ≢ none

-- handoffHostValue of an owned value, where the Go side and C are linked, the thread may enter the isolate,
-- the wrapper holds a handle, and C keeps its promise: it ends without a panic or a fault, and hands off
-- the value.
pub handoff_host_value-IsHandedOff :
    {E : Type 0} (calls : HostCalls (Native E)) (v p d : Ptr) (c : Context) (i : Isolate)
    (gate : Gate) (a : Gv8Value) (h : ℕ) (w : World (Native E))
    → IsLinked w.engine.go w.mem
    → w.engine.go.values v ≡ some (owned p d)
    → p ≢ 0
    → d ≢ 0
    → w.engine.go.contexts d ≡ some c
    → Admits w.engine.go c.iso i gate
    → w.mem.values p ≡ some a
    → a.ptr ≡ some h
    → IsRetained calls p a h w
    → (w' : World (Native E)) × (q : Ptr) × (handoff_host_value calls v w ≡ ok (done q) w')
      × IsHandedOff v q a w w'
handoff_host_value-IsHandedOff calls v p d c i gate a h w l e n k f t live hold r =
    let v_ne_null : v ≢ 0 = λ z. ground (arith, l.tracked.null_value) in
    let (y, f', o) = owner v (owned p d) l.tracked e (n, refl, k) in
    let beside = l.wrapped v (owned p d) c e (n, refl, k) f in
    let (_, there) = l.live d c f (ground (arith, f, f', o)) in
    elim (Option-cases (w.mem.ctxs a.ctx)) [
      | inl z ↦ absurd (ground (arith, there, z, beside, live))
      | inr (cc, z) ↦
          let m = wrap_at w.mem a.ctx cc a.iso h in
          let q = w.mem.next in
          let fresh : p ≢ q = unowned l v (owned p d) e (n, refl, k) in
          let (_, same) = some_end (wrap_lem w.mem a.ctx a.iso h cc z) r.wrapped in
          let l' =
            subst (λ g. IsLinked g r.after.mem) (sym r.go)
              (subst (IsLinked w.engine.go) same (wrap_at-IsLinked l a.ctx a.iso h cc z)) in
          let (w', run, s, j) =
            release-IsLinked v p d c i gate r.after l'
              (subst (λ (g : Heap). g.values v ≡ some (owned p d)) (sym r.go) e) n k
              (subst (λ (g : Heap). g.contexts d ≡ some c) (sym r.go) f)
              (subst (λ g. Admits g c.iso i gate) (sym r.go) t) in
          let (_, run', gone) =
            value_release-live l'.consistent p
              (subst (λ (x : Memory). x.values p ≡ some a) same (ground (arith, live, fresh))) in
          let kept = subst (Released r.after.mem p) (same_end run' s.freed) gone in
          (
            w',
            q,
            handoff_lem calls v p (owned p d) q w r.after w' v_ne_null e n refl r.run run,
            record {
              not_null = l.consistent.next_ne_null;
              wrapper = (
                tracked cc a.ctx a.iso h,
                kept.others q (λ u. fresh (sym u))
                    ∙ sym (ap (λ (x : Memory). x.values q) same)
                    ∙ ground (arith, ==_refl q),
                refl,
                sym hold,
              );
              nil = s.nil;
              unowned = λ u x b (g : IsOwned x). elim (ℕ_discrete u v) [
                | yes u_v ↦ absurd (g.0 (s.nil x (ground (arith, u_v, b))))
                | no u_v ↦
                    unowned l u x
                      (ap (λ (z : Heap). z.values u) (sym r.go) ∙ sym (s.others u u_v) ∙ b) g
              ];
              linked = j;
              stays = λ u b. elim (ℕ_discrete u v) [
                | yes u_v ↦ λ z. s.stays (ap w'.engine.go.values (sym u_v) ∙ z)
                | no u_v ↦
                    λ z. b (ap (λ (z : Heap). z.values u) (sym r.go) ∙ sym (s.others u u_v) ∙ z)
              ];
            },
          )
    ]
