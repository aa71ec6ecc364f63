-- ===== src/Scope/Live.antt =====
-- What an operation reads of a live wrapper.
use gv.Prelude.{◌≡◌, Option, none, some, refl, sym, ◌∙◌, ap, subst, arith, ==_refl}
use gv.Memory.{Ptr, Memory, Gv8Ctx, Gv8Value, IsolateSlots}
use gv.Memory.Values.{wrap_value}
use gv.Memory.Wrap.{wrap_lem, wrap_at, enlist}
use gv.Run.{World, ok, ◌>>=◌}
use gv.V8.{Local}
use gv.Scope.{Scope, value_scope, value_iso_scope, iso_scope, handle_of, wrap_beside, ctx_scope}

-- The wrapper is live and holds `h`; its isolate is live, and so is its context, which holds the
-- scope's.
pub record IsLive (m : Memory) (p : Ptr) (s : Scope) (h : Local) : Type 0 where
  pub value : Gv8Value
  pub ctx : Gv8Ctx
  pub slots : IsolateSlots
  pub found : m.values p ≡ some value
  pub found_ctx : m.ctxs value.ctx ≡ some ctx
  pub found_iso : m.isolates value.iso ≡ some slots
  pub iso : value.iso ≡ s.iso
  pub local_ctx : ctx.ptr ≡ some s.local_ctx
  pub handle : value.ptr ≡ some h

-- The context is live, and its isolate.
pub record IsLiveCtx (m : Memory) (p : Ptr) (c : Gv8Ctx) (s : Scope) : Type 0 where
  pub slots : IsolateSlots
  pub found : m.ctxs p ≡ some c
  pub found_iso : m.isolates c.iso ≡ some slots
  pub iso : c.iso ≡ s.iso
  pub local_ctx : c.ptr ≡ some s.local_ctx

abbrev memory_of : Memory → Option (Ptr × Memory) → Memory
memory_of m none = m
memory_of m (some (q, m')) = m'

same_ctx : {o : Option Gv8Ctx} {c d : Gv8Ctx} → o ≡ some c → o ≡ some d → c ≡ d
same_ctx e f = ground (arith, e, f)

-- The context can be worked in.
abbrev pub IsUsable : Memory → Ptr → Type 0
IsUsable m p = (c : Gv8Ctx) × (s : Scope) × IsLiveCtx m p c s

-- It still can where the isolates are what they were, and the context is, but for its table.
pub IsUsable-kept :
    {m m' : Memory} {p : Ptr}
    → IsUsable m p
    → m'.isolates ≡ m.isolates
    → ((c : Gv8Ctx)
        → m.ctxs p ≡ some c
        → (c' : Gv8Ctx) × (m'.ctxs p ≡ some c') × (c'.iso ≡ c.iso) × (c'.ptr ≡ c.ptr))
    → IsUsable m' p
IsUsable-kept {m} (c, s, l) e f =
    let (c', here, iso, ptr) = f c l.found in
    (
      c',
      s,
      record {
        slots = l.slots;
        found = here;
        found_iso = ap (λ i. i c'.iso) e ∙ ap m.isolates iso ∙ l.found_iso;
        iso = iso ∙ l.iso;
        local_ctx = ptr ∙ l.local_ctx;
      },
    )

-- It still can after wrapValue.
pub IsUsable-wrap_value :
    {m m' : Memory} {p : Ptr} (iso h q : Ptr)
    → IsUsable m p
    → wrap_value p iso h m ≡ some (q, m')
    → IsUsable m' p
IsUsable-wrap_value {m} {m'} {p} iso h q (c, s, l) e =
    let same : wrap_at m p c iso h ≡ m' =
      ap (λ (o : Option (Ptr × Memory)). memory_of m o) (sym (wrap_lem m p iso h c l.found) ∙ e) in
    subst (λ x. IsUsable x p) same
      (IsUsable-kept (c, s, l) refl
        (λ d f. (
          enlist c m.next,
          ground (arith, ==_refl p),
          ap (λ (x : Gv8Ctx). x.iso) (same_ctx l.found f),
          ap (λ (x : Gv8Ctx). x.ptr) (same_ctx l.found f),
        )))

module _ {E : Type 0} (w : World E) (p : Ptr) where
  pub value_scope_run : (s : Scope) (h : Local) → IsLive w.mem p s h → value_scope p w ≡ ok s w
  unfolding value_scope value_iso_scope iso_scope ◌>>=◌
  value_scope_run s h l = rw (l.found, l.found_iso, l.found, l.found_ctx, l.local_ctx, l.iso) refl

  pub handle_of_run : (s : Scope) (h : Local) → IsLive w.mem p s h → handle_of p w ≡ ok h w
  unfolding handle_of ◌>>=◌
  handle_of_run s h l = rw (l.found, l.handle) refl

  pub ctx_scope_run : (c : Gv8Ctx) (s : Scope) → IsLiveCtx w.mem p c s → ctx_scope p w ≡ ok s w
  unfolding ctx_scope iso_scope ◌>>=◌
  ctx_scope_run c s l = rw (l.found, l.found_iso, l.local_ctx, l.iso) refl

  pub wrap_beside_run :
      (iso : Ptr) (h : Local) (v : Gv8Value) (c : Gv8Ctx)
      → w.mem.values p ≡ some v
      → w.mem.ctxs v.ctx ≡ some c
      → wrap_beside p iso h w ≡ ok w.mem.next (record w { mem = wrap_at w.mem v.ctx c iso h })
  unfolding wrap_beside ◌>>=◌
  wrap_beside_run iso h v c e f = rw (e, wrap_lem w.mem v.ctx iso h c f) refl
