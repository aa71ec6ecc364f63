-- ===== src/Memory/Invariant.antt =====
-- The invariant of the memory: the id tables of the contexts and the tracked wrappers agree.
use gv.Prelude.{ℕ, suc, ◌≤◌, ◌≡◌, ◌≢◌, none, some, Option, arith}
use gv.Memory.{Ptr, Gv8Ctx, Gv8Value, Memory, lookup}
use gv.Memory.Tables.{Distinct, lookup-insert, Distinct-insert}
use gv.Memory.Wrap.{borrow_at, wrap_at}

-- The wrapper is there, with this id and this context.
abbrev pub Owned : Option Gv8Value → ℕ → Ptr → Type 0
Owned none id p = ⊥
Owned (some v) id p = (v.id ≡ id) × (v.ctx ≡ p)

-- The context is there, and its table leads from the id to the wrapper.
abbrev pub Listed : Option Gv8Ctx → ℕ → Ptr → Type 0
Listed none id q = ⊥
Listed (some c) id q = lookup id c.values ≡ some q

pub record IsConsistent (m : Memory) : Type 0 where
  pub distinct : (p : Ptr) (c : Gv8Ctx) → m.ctxs p ≡ some c → Distinct c.values
  pub in_range :
      (p : Ptr) (c : Gv8Ctx) (k : ℕ) (q : Ptr)
      → m.ctxs p ≡ some c
      → lookup k c.values ≡ some q
      → (k ≢ 0) × (k ≤ c.next_value_id)
  pub owned :
      (p : Ptr) (c : Gv8Ctx) (k : ℕ) (q : Ptr)
      → m.ctxs p ≡ some c
      → lookup k c.values ≡ some q
      → Owned (m.values q) k p
  pub listed :
      (q : Ptr) (v : Gv8Value) → m.values q ≡ some v → v.id ≢ 0 → Listed (m.ctxs v.ctx) v.id q
  pub unused_ctx : (p : Ptr) → m.next ≤ p → m.ctxs p ≡ none
  pub unused_value : (p : Ptr) → m.next ≤ p → m.values p ≡ none
  pub null_ctx : m.ctxs 0 ≡ none
  pub null_value : m.values 0 ≡ none
  pub next_ne_null : m.next ≢ 0

module _ {m : Memory} (i : IsConsistent m) where
  pub borrow-IsConsistent : (ctx iso : Ptr) (h : ℕ) → IsConsistent (borrow_at m ctx iso h)
  borrow-IsConsistent ctx iso h = record {
    distinct = i.distinct;
    in_range = i.in_range;
    owned = λ p c k q e l. ground (arith, i.owned p c k q e l, i.unused_value q);
    listed = λ q v e n. ground (arith, i.listed q v);
    unused_ctx = λ p a. i.unused_ctx p (omega arith);
    unused_value = λ p a. ground (arith, i.unused_value p);
    null_ctx = i.null_ctx;
    null_value = ground (arith, i.null_value, i.next_ne_null);
    next_ne_null = omega arith;
  }

  module _ (ctx : Ptr) {c : Gv8Ctx} (iso : Ptr) (h : ℕ) (here : m.ctxs ctx ≡ some c) where
    fresh_id : (q : Ptr) → lookup (suc c.next_value_id) c.values ≢ some q
    fresh_id q e = ground (arith, i.in_range ctx c (suc c.next_value_id) q here e)

    ctx_old : ctx ≢ m.next
    ctx_old e = ground (arith, i.unused_ctx ctx)

    pub wrap-IsConsistent : IsConsistent (wrap_at m ctx c iso h)
    wrap-IsConsistent = record {
      distinct = λ p d e. ground (
        arith,
        i.distinct p d,
        i.distinct ctx c here,
        Distinct-insert (suc c.next_value_id) m.next c.values,
      );
      in_range = λ p d k q e l. ground (
        arith,
        i.in_range p d k q,
        i.in_range ctx c k q here,
        lookup-insert k (suc c.next_value_id) m.next c.values,
      );
      owned = λ p d k q e l. ground (
        arith,
        i.owned p d k q,
        i.owned ctx c k q here,
        i.unused_value q,
        lookup-insert k (suc c.next_value_id) m.next c.values,
      );
      listed = λ q v e n. ground (
        arith,
        i.listed q v,
        fresh_id q,
        lookup-insert v.id (suc c.next_value_id) m.next c.values,
      );
      unused_ctx = λ p a. ground (arith, i.unused_ctx p, i.unused_ctx ctx);
      unused_value = λ p a. ground (arith, i.unused_value p);
      null_ctx = ground (arith, i.null_ctx);
      null_value = ground (arith, i.null_value, i.next_ne_null);
      next_ne_null = omega arith;
    }
