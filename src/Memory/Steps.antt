-- ===== src/Memory/Steps.antt =====
-- The ways in which the program changes the memory, as a step relation.
use gv.Prelude.{
  ℕ, ◌≤◌, ◌≡◌, refl, some, Option, arith, ◌==◌, if◌then◌else◌, update, Option-cases, inl, inr, ap,
  sym, ◌∙◌, subst,
}
use native.Mathlib.Decide.{ℕ_discrete}
use gv.Prelude.Int.{ℤ}
use gv.Memory.{Ptr, Persistent, Gv8Ctx, Gv8Value, Memory}
use gv.Memory.Values.{wrap_value, wrap_borrowed_value, value_release, context_dispose, new_ctx}
use gv.Memory.Wrap.{wrap_lem, wrap_dangling, borrow_lem}
use gv.Memory.Release.{value_release-live, release_dangling}
use gv.Memory.Dispose.{context_dispose-Disposed, Disposed-IsConsistent}
use gv.Memory.Invariant.{IsConsistent, Owned, Listed, wrap-IsConsistent, borrow-IsConsistent}

-- A change that touches no context and no wrapper.
pub record Elsewhere (m m' : Memory) : Type 0 where
  pub ctxs : m'.ctxs ≡ m.ctxs
  pub values : m'.values ≡ m.values
  pub next : m.next ≤ m'.next

-- A change of one context that spares its table.
pub record Edited (p : Ptr) (c c' : Gv8Ctx) (m m' : Memory) : Type 0 where
  pub before : m.ctxs p ≡ some c
  pub table : c'.values ≡ c.values
  pub last_id : c'.next_value_id ≡ c.next_value_id
  pub ctxs : m'.ctxs ≡ update m.ctxs p (some c')
  pub values : m'.values ≡ m.values
  pub next : m.next ≤ m'.next

pub data Step (m m' : Memory) : Type 0 where
  wraps : (ctx iso : Ptr) (h : ℕ) (p : Ptr) → wrap_value ctx iso h m ≡ some (p, m') → Step m m'
  borrows :
      (ctx iso : Ptr) (h : ℕ) (p : Ptr) → wrap_borrowed_value ctx iso h m ≡ some (p, m') → Step m m'
  releases : (q : Ptr) → value_release q m ≡ some (tt, m') → Step m m'
  disposes : (p : Ptr) → context_dispose p m ≡ some (tt, m') → Step m m'
  creates :
      (iso : Ptr) (ref : ℤ) (context : Persistent) (p : Ptr)
      → new_ctx iso ref context m ≡ some (p, m')
      → Step m m'
  edits : (p : Ptr) (c c' : Gv8Ctx) → Edited p c c' m m' → Step m m'
  elsewhere : Elsewhere m m' → Step m m'

-- Any number of steps.
pub data Reach (m : Memory) : Memory → Type 0 where
  here : Reach m m
  next : {a b : Memory} → Reach m a → Step a b → Reach m b

same_end :
    {A : Type 0} {o : Option (A × Memory)} {a b : A} {m n : Memory}
    → o ≡ some (a, m)
    → o ≡ some (b, n)
    → m ≡ n
same_end p q = ground arith

module _ {m : Memory} (i : IsConsistent m) where
  Elsewhere-IsConsistent : {m' : Memory} → Elsewhere m m' → IsConsistent m'
  Elsewhere-IsConsistent {m'} e = record {
    distinct = λ p c h. i.distinct p c (at_ctx p ∙ h);
    in_range = λ p c k q h l. i.in_range p c k q (at_ctx p ∙ h) l;
    owned = λ p c k q h l. subst (λ o. Owned o k p) (at_value q) (i.owned p c k q (at_ctx p ∙ h) l);
    listed =
        λ q v h n. subst (λ o. Listed o v.id q) (at_ctx v.ctx) (i.listed q v (at_value q ∙ h) n);
    unused_ctx = λ p a. sym (at_ctx p) ∙ i.unused_ctx p (omega (arith, e.next));
    unused_value = λ p a. sym (at_value p) ∙ i.unused_value p (omega (arith, e.next));
    null_ctx = sym (at_ctx 0) ∙ i.null_ctx;
    null_value = sym (at_value 0) ∙ i.null_value;
    next_ne_null = omega (arith, e.next, i.next_ne_null);
  }
    where
      at_ctx : (p : Ptr) → m.ctxs p ≡ m'.ctxs p
      at_ctx p = ap (λ (t : Ptr → Option Gv8Ctx). t p) (sym e.ctxs)

      at_value : (p : Ptr) → m.values p ≡ m'.values p
      at_value p = ap (λ (t : Ptr → Option Gv8Value). t p) (sym e.values)

  Edited-IsConsistent :
      {m' : Memory} {p : Ptr} {c c' : Gv8Ctx} → Edited p c c' m m' → IsConsistent m'
  Edited-IsConsistent {m'} {p} {c} {c'} e = record {
    distinct = λ q b h. ground (arith, at_ctx q, i.distinct q b, i.distinct p c, e.table, e.before);
    in_range = λ q b k r h l.
        ground
          (arith, at_ctx q, i.in_range q b k r, i.in_range p c k r, e.table, e.last_id, e.before);
    owned = λ q b k r h l.
        ground (arith, at_ctx q, at_value r, i.owned q b k r, i.owned p c k r, e.table, e.before);
    listed = λ r v h n. ground (arith, at_ctx v.ctx, at_value r, i.listed r v, e.table, e.before);
    unused_ctx = λ q a. ground (arith, at_ctx q, i.unused_ctx q, e.next, e.before);
    unused_value = λ q a. ground (arith, at_value q, i.unused_value q, e.next);
    null_ctx = ground (arith, at_ctx 0, i.null_ctx, e.before);
    null_value = ground (arith, at_value 0, i.null_value);
    next_ne_null = omega (arith, e.next, i.next_ne_null);
  }
    where
      at_ctx : (q : Ptr) → m'.ctxs q ≡ (if p == q then some c' else m.ctxs q)
      at_ctx q = ap (λ (t : Ptr → Option Gv8Ctx). t q) e.ctxs

      at_value : (q : Ptr) → m'.values q ≡ m.values q
      at_value q = ap (λ (t : Ptr → Option Gv8Value). t q) e.values

  creates-IsConsistent :
      {m' : Memory} (iso : Ptr) (ref : ℤ) (context : Persistent) (p : Ptr)
      → new_ctx iso ref context m ≡ some (p, m')
      → IsConsistent m'
  unfolding new_ctx
  creates-IsConsistent {m'} iso ref context p e = subst IsConsistent (same_end refl e) record {
    distinct = λ q c h. ground (arith, i.distinct q c);
    in_range = λ q c k r h l. ground (arith, i.in_range q c k r);
    owned = λ q c k r h l. ground (arith, i.owned q c k r);
    listed = λ r v h n. ground (arith, i.listed r v, i.unused_ctx v.ctx);
    unused_ctx = λ q a. ground (arith, i.unused_ctx q);
    unused_value = λ q a. ground (arith, i.unused_value q);
    null_ctx = ground (arith, i.null_ctx, i.next_ne_null);
    null_value = i.null_value;
    next_ne_null = omega arith;
  }

  wraps-IsConsistent :
      {m' : Memory} (ctx iso : Ptr) (h : ℕ) (p : Ptr)
      → wrap_value ctx iso h m ≡ some (p, m')
      → IsConsistent m'
  wraps-IsConsistent ctx iso h p e = elim (Option-cases (m.ctxs ctx)) [
    | inl dead ↦ cc (wrap_dangling m ctx iso h dead)
    | inr (c, live) ↦
        subst IsConsistent (same_end (wrap_lem m ctx iso h c live) e)
          (wrap-IsConsistent i ctx iso h live)
  ]

  releases-IsConsistent :
      {m' : Memory} (q : Ptr) → value_release q m ≡ some (tt, m') → IsConsistent m'
  unfolding value_release
  releases-IsConsistent {m'} q e = elim (ℕ_discrete q 0) [
    | yes z ↦ subst IsConsistent (ground arith) i
    | no n ↦ elim (Option-cases (m.values q)) [
      | inl dead ↦ cc (release_dangling m q n dead)
      | inr (v, live) ↦
          let (m'', run, done) = value_release-live i q live in
          subst IsConsistent (same_end run e) done.consistent
    ]
  ]

  disposes-IsConsistent :
      {m' : Memory} (p : Ptr) → context_dispose p m ≡ some (tt, m') → IsConsistent m'
  unfolding context_dispose
  disposes-IsConsistent p e = elim (ℕ_discrete p 0) [
    | yes z ↦ subst IsConsistent (ground arith) i
    | no n ↦ elim (Option-cases (m.ctxs p)) [
      | inl dead ↦ ground arith
      | inr (c, live) ↦
          let (m'', run, done) = context_dispose-Disposed i p live in
          subst IsConsistent (same_end run e) (Disposed-IsConsistent i p live done)
    ]
  ]

  -- Every step keeps the memory consistent.
  Step-IsConsistent : {m' : Memory} → Step m m' → IsConsistent m'
  Step-IsConsistent (wraps ctx iso h p e) = wraps-IsConsistent ctx iso h p e
  Step-IsConsistent (borrows ctx iso h p e) =
      subst IsConsistent (same_end (borrow_lem m ctx iso h) e) (borrow-IsConsistent i ctx iso h)
  Step-IsConsistent (releases q e) = releases-IsConsistent q e
  Step-IsConsistent (disposes p e) = disposes-IsConsistent p e
  Step-IsConsistent (creates iso ref context p e) = creates-IsConsistent iso ref context p e
  Step-IsConsistent (edits p c c' e) = Edited-IsConsistent e
  Step-IsConsistent (elsewhere e) = Elsewhere-IsConsistent e

pub Reach-IsConsistent : {m m' : Memory} → IsConsistent m → Reach m m' → IsConsistent m'
Reach-IsConsistent i here = i
Reach-IsConsistent i (next r s) = Step-IsConsistent (Reach-IsConsistent i r) s
