-- ===== src/Go/Globals/Kept.antt =====
-- GV8ValueRetain and newValue in an open context: what they add, and what they leave.
use gv.Prelude.{
  ℕ, suc, ◌≤◌, ◌≡◌, ◌≢◌, refl, sym, ◌∙◌, subst, ap, false, Option, none, some, List, arith, ==_refl,
  Option-cases, inl, inr,
}
use gv.Memory.{Ptr, Memory, Gv8Value, IsolateSlots}
use gv.Memory.Values as MemValues
use gv.Memory.Wrap.{wrap_lem, tracked}
use gv.Scope.Live.{IsUsable, IsUsable-wrap_value}
use gv.Run.{World}
use gv.Go.{Context, Isolate, Heap, Native, GlobalValue, done}
use gv.Go.Access.{Gate, leave_gate}
use gv.Go.Enter.Lent.{Admits, entered, put_gate, enter_gate_again}
use gv.Go.Values.{add, new_value}
use gv.Go.Values.Made.{tabled}
use gv.Go.Lifecycle.Release.{owned}
use gv.Go.Lifecycle.Linked.{IsLinked}
use gv.Go.Lifecycle.Linked.Sessions.{some_end}
use gv.Go.Creation.Grown.{tabled-IsLinked}
use gv.Go.Host.{HostCalls}
use gv.Go.Host.Handoff.{IsRetained}

-- The context is open and has its table, the thread may enter its isolate, the two sides are linked,
-- and there are no values at the addresses to come.
pub record Ready {E : Type 0} (ctx : Ptr) (w : World (Native E)) : Type 0 where
  pub linked : IsLinked w.engine.go w.mem
  pub owner : Context
  pub here : w.engine.go.contexts ctx ≡ some owner
  pub opened : owner.closed ≡ false
  pub table : List Ptr
  pub lists : owner.live_values ≡ some table
  pub isolate : Isolate
  pub gate : Gate
  pub admits : Admits w.engine.go owner.iso isolate gate
  pub fresh : (x : Ptr) → w.engine.go.next ≤ x → w.engine.go.values x ≡ none
  pub usable : IsUsable w.mem owner.ptr

-- The value is owned, of this context, and its wrapper holds this handle.
pub record Owns {E : Type 0} (ctx v : Ptr) (h : ℕ) (w : World (Native E)) : Type 0 where
  pub ptr : Ptr
  pub wrapper : Gv8Value
  pub here : w.engine.go.values v ≡ some (owned ptr ctx)
  pub ptr_ne_null : ptr ≢ 0
  pub live : w.mem.values ptr ≡ some wrapper
  pub holds : wrapper.ptr ≡ some h

-- The isolate of its wrapper is live.
abbrev pub IsRooted :
    {E : Type 0} {ctx v : Ptr} {h : ℕ} (w : World (Native E)) → Owns ctx v h w → Type 0
IsRooted w o = (slots : IsolateSlots) × (w.mem.isolates o.wrapper.iso ≡ some slots)

-- C can retain what is owned, also inside the isolate, where the memory of C is the same.
pub record Retains {E : Type 0} (c : HostCalls (Native E)) (ctx : Ptr) : Type 0 where
  pub retain :
      (v : Ptr) (h : ℕ) (w u : World (Native E))
      → Ready ctx w
      → (o : Owns ctx v h w) → IsRooted w o
      → u.mem ≡ w.mem
      → IsRetained c o.ptr o.wrapper h u

-- What does not touch values, contexts and C does not matter to the link.
aside :
    {g : Heap} {m : Memory} (isolates : Ptr → Option Isolate) (n : ℕ) (next : Ptr)
    (globals : Ptr → Option GlobalValue)
    → IsLinked g m
    → next ≢ 0
    → IsLinked (record g { isolates = isolates; locks = n; next = next; globals = globals }) m
aside isolates n next globals l z = record {
  tracked = record {
    tracked = l.tracked.tracked;
    null_value = l.tracked.null_value;
    next_ne_null = z;
  };
  stored = l.stored;
  consistent = l.consistent;
  wrapped = l.wrapped;
  apart = l.apart;
  live = l.live;
  contexts_apart = l.contexts_apart;
}

module _ {E : Type 0} {c : HostCalls (Native E)} {ctx v : Ptr} {h : ℕ} {w : World (Native E)}
    (s : Retains c ctx) (ctx_ne_null : ctx ≢ 0) (k : Ready ctx w) (o : Owns ctx v h w)
    (r : IsRooted w o) where
  abbrev pub inside : World (Native E)
  inside = record w {
    engine = record w.engine { go = entered w.engine.go k.owner.iso k.isolate k.gate };
  }

  abbrev pub retained : IsRetained c o.ptr o.wrapper h inside
  retained = s.retain v h w inside k o r refl

  beside : o.wrapper.ctx ≡ k.owner.ptr
  beside =
      let t =
        k.linked.wrapped v (owned o.ptr ctx) k.owner o.here (o.ptr_ne_null, refl, ctx_ne_null)
          k.here in
      ground (arith, t, o.live)

  -- The heap with the new value.
  abbrev pub grown : Heap
  grown = tabled inside.engine.go ctx w.mem.next k.owner k.table

  wrap_run :
      MemValues.wrap_value k.owner.ptr o.wrapper.iso h w.mem ≡ some (w.mem.next, retained.after.mem)
  wrap_run =
      subst
        (λ p. MemValues.wrap_value p o.wrapper.iso h w.mem ≡ some (w.mem.next, retained.after.mem))
        beside retained.wrapped

  grows :
      (new_value ctx w.mem.next inside.engine.go ≡ (done w.engine.go.next, grown))
      × IsLinked grown retained.after.mem
  grows =
      let (_, new, l) =
        tabled-IsLinked inside.engine.go w.mem retained.after.mem o.wrapper.iso h ctx w.mem.next
          k.owner k.table (aside _ _ _ _ k.linked k.linked.tracked.next_ne_null) ctx_ne_null k.here
          k.opened k.lists wrap_run in
      (new, l)

  pub new_value-grown :
      new_value ctx w.mem.next retained.after.engine.go ≡ (done w.engine.go.next, grown)
  new_value-grown =
      subst (λ g. new_value ctx w.mem.next g ≡ (done w.engine.go.next, grown)) (sym retained.go)
        grows.0

  module _ (free : Gate) (next : Ptr) (globals : Ptr → Option GlobalValue) where
    -- The world with the new value, once the isolate was left.
    abbrev pub after : World (Native E)
    after = record retained.after {
      engine = record retained.after.engine {
        go = record (put_gate grown k.owner.iso (record k.isolate { gate = k.gate }) free) {
          locks = w.engine.go.locks;
          next = next;
          globals = globals;
        };
      };
    }

    pub after-Ready :
        leave_gate w.engine.go.thread k.gate ≡ some free
        → free.depth ≡ k.isolate.gate.depth
        → (k.isolate.gate.depth ≢ 0 → free.owner_thread ≡ k.isolate.gate.owner_thread)
        → suc w.engine.go.next ≤ next
        → Ready ctx after
    after-Ready f d e b =
        let (gate', again) =
          enter_gate_again w.engine.go.thread k.isolate.gate k.gate free k.admits.admitted d e in
        record {
          linked = aside _ _ _ _ grows.1 (omega (arith, b));
          owner = record k.owner { live_values = some (add w.engine.go.next k.table) };
          here = ground (arith, ==_refl ctx);
          opened = k.opened;
          table = add w.engine.go.next k.table;
          lists = refl;
          isolate = record k.isolate { gate = free };
          gate = gate';
          admits = record {
            iso_ne_null = k.admits.iso_ne_null;
            here = ground (arith, ==_refl k.owner.iso);
            ptr_ne_null = k.admits.ptr_ne_null;
            admitted = again;
          };
          fresh = λ x q. ground (arith, k.fresh x, b);
          usable = IsUsable-wrap_value o.wrapper.iso h w.mem.next k.usable wrap_run;
        }

    -- The new value, with the same handle.
    pub after-Owns : (o' : Owns ctx w.engine.go.next h after) × IsRooted after o'
    after-Owns = elim (Option-cases (w.mem.ctxs k.owner.ptr)) [
      | inl z ↦ absurd ((k.linked.live ctx k.owner k.here k.opened).1 z)
      | inr (cc, z) ↦
          let (_, same) = some_end (wrap_lem w.mem k.owner.ptr o.wrapper.iso h cc z) wrap_run in
          (
            record {
              ptr = w.mem.next;
              wrapper = tracked cc k.owner.ptr o.wrapper.iso h;
              here = ground (arith, ==_refl w.engine.go.next);
              ptr_ne_null = k.linked.consistent.next_ne_null;
              live =
                  ap (λ (m : Memory). m.values w.mem.next) (sym same)
                  ∙ ground (arith, ==_refl w.mem.next);
              holds = refl;
            },
            (r.0, ap (λ (m : Memory). m.isolates o.wrapper.iso) (sym same) ∙ r.1),
          )
    ]

    -- The values that were owned before.
    pub after-kept : {x : Ptr} {h' : ℕ} → Owns ctx x h' w → Owns ctx x h' after
    after-kept {x} q = elim (Option-cases (w.mem.ctxs k.owner.ptr)) [
      | inl z ↦ absurd ((k.linked.live ctx k.owner k.here k.opened).1 z)
      | inr (cc, z) ↦
          let (_, same) = some_end (wrap_lem w.mem k.owner.ptr o.wrapper.iso h cc z) wrap_run in
          let old : q.ptr ≢ w.mem.next = λ n.
            ground (arith, q.live, n, k.linked.consistent.unused_value w.mem.next (omega arith)) in
          record {
            ptr = q.ptr;
            wrapper = q.wrapper;
            here = ground (arith, q.here, k.fresh x);
            ptr_ne_null = q.ptr_ne_null;
            live = ap (λ (m : Memory). m.values q.ptr) (sym same) ∙ ground (arith, q.live, old);
            holds = q.holds;
          }
    ]
