-- ===== src/Go/Lifecycle/Linked/Making.antt =====
-- wrapValue in C and newValue in Go: a new value on both sides.
use gv.Prelude.{
  ℕ, ◌≡◌, ◌≢◌, refl, sym, ◌∙◌, subst, ap, false, Option, none, some, arith, Option-cases, inl, inr,
  ◌⊎◌, ==_refl,
}
use native.Mathlib.Decide.{ℕ_discrete}
use gv.Memory.{Ptr, Memory, Gv8Ctx, Gv8Value}
use gv.Memory.Values as MemValues
use gv.Memory.Wrap.{wrap_at, wrap_lem}
use gv.Memory.Invariant.{wrap-IsConsistent}
use gv.Go.{Context, Value, Heap, done}
use gv.Go.Values.{new_value}
use gv.Go.Values.Tracked.{IsTracked}
use gv.Go.Values.Made.{new_value-IsTracked, owned}
use gv.Go.Lifecycle.Linked.NewValue.{IsMade, IsNew, new_value-New}
use gv.Go.Lifecycle.Linked.{IsLinked, IsOwned, WrapperOf, AllStored, owner}

module _ {g g' : Heap} {m : Memory} (iso : Ptr) (h : ℕ) {c : Ptr} {y : Context} {cc : Gv8Ctx}
    (l : IsLinked g m) (here : g.contexts c ≡ some y) (open_now : y.closed ≡ false)
    (live : m.ctxs y.ptr ≡ some cc) (k : IsMade c m.next g g') (t : IsTracked g') where
  abbrev wrapped_memory : Memory
  wrapped_memory = wrap_at m y.ptr cc iso h

  old :
      (u : Ptr) (x : Value)
      → g'.values u ≡ some x
      → IsOwned x
      → (u ≡ g.next) × (x ≡ owned c m.next) ⊎ (u ≢ g.next) × (g.values u ≡ some x)
  old u x e o = elim (ℕ_discrete u g.next) [
    | yes q ↦ inl (q, k.new x (subst (λ a. g'.values a ≡ some x) q e) o)
    | no n ↦ inr (n, sym (k.values u n) ∙ e)
  ]

  -- The wrapper of an old value is not the new one.
  old_wrapper : (u : Ptr) (x : Value) → g.values u ≡ some x → IsOwned x → x.ptr ≢ m.next
  old_wrapper u x e o q =
      let (z, f, _) = owner u x l.tracked e o in
      let w = l.wrapped u x z e o f in
      ground (arith, w, q, l.consistent.unused_value m.next (omega arith))

  wrapped_after :
      (u : Ptr) (x : Value) (z : Context)
      → g'.values u ≡ some x
      → IsOwned x
      → g'.contexts x.ctx ≡ some z
      → WrapperOf (wrapped_memory.values x.ptr) z.ptr
  wrapped_after u x z e o f =
      let (b, j, same, _, _) = k.contexts x.ctx z f in
      elim (old u x e o) [
        | inl (q, r) ↦ ground (arith, r, j, here, same, ==_refl m.next)
        | inr (n, r) ↦ ground (arith, l.wrapped u x b r o j, old_wrapper u x r o, same)
      ]

  live_after :
      (q : Ptr) (z : Context)
      → g'.contexts q ≡ some z
      → z.closed ≡ false
      → (z.ptr ≢ 0) × (wrapped_memory.ctxs z.ptr ≢ none)
  live_after q z f o =
      let (b, j, same, closed, _) = k.contexts q z f in
      let (n, a) = l.live q b j (sym closed ∙ o) in
      (λ e. n (sym same ∙ e), λ e. a (ground (arith, same, e)))

  stored_after : AllStored g'
  stored_after q z f u e =
      let (b, j, _, _, more) = k.contexts q z f in
      elim (more u e) [
        | inl r ↦ (λ n. l.tracked.next_ne_null (sym r ∙ n), λ n. k.there (ground (arith, r, n)))
        | inr r ↦
            let (n, a) = l.stored q b j u r in
            (
              n,
              elim (ℕ_discrete u g.next) [
                | yes s ↦ λ w. k.there (ground (arith, s, w))
                | no s ↦ λ w. a (sym (k.values u s) ∙ w)
              ],
            )
      ]

  apart_after :
      (u v : Ptr) (x z : Value)
      → g'.values u ≡ some x
      → g'.values v ≡ some z
      → IsOwned x
      → IsOwned z
      → x.ptr ≡ z.ptr
      → u ≡ v
  apart_after u v x z e f o p q = elim (old u x e o) [
    | inl (a, b) ↦ elim (old v z f p) [
      | inl (d, i) ↦ a ∙ sym d
      | inr (d, i) ↦ absurd (old_wrapper v z i p (sym q ∙ ap (λ (s : Value). s.ptr) b))
    ]
    | inr (a, b) ↦ elim (old v z f p) [
      | inl (d, i) ↦ absurd (old_wrapper u x b o (q ∙ ap (λ (s : Value). s.ptr) i))
      | inr (d, i) ↦ l.apart u v x z b i o p q
    ]
  ]

  IsMade-IsLinked : IsLinked g' wrapped_memory
  IsMade-IsLinked = record {
    tracked = t;
    stored = stored_after;
    consistent = wrap-IsConsistent l.consistent y.ptr iso h live;
    wrapped = wrapped_after;
    apart = apart_after;
    live = live_after;
    contexts_apart = λ q r a b e f o s i.
        let (d, j, same, closed, _) = k.contexts q a e in
        let (d', j', same', closed', _) = k.contexts r b f in
        l.contexts_apart q r d d' j j' (sym closed ∙ o) (sym closed' ∙ s) (sym same ∙ i ∙ same');
  }

-- The new wrapper holds the handle.
abbrev pub Holds : Option Gv8Value → ℕ → Type 0
Holds none h = ⊥
Holds (some a) h = a.ptr ≡ some h

-- wrapValue for the C context of an open context, and newValue with the wrapper, where the Go side and
-- C are linked: both succeed. C has a new wrapper, which holds the handle. The Go value at the next address
-- is new, owns that wrapper and is in the table of its context, or is nil where the context has no table;
-- no other value and no other context has changed. The two sides are linked afterwards.
pub new_value-IsLinked :
    (g : Heap) (m : Memory) (iso : Ptr) (h : ℕ) (c : Ptr) (y : Context)
    → IsLinked g m
    → c ≢ 0
    → g.contexts c ≡ some y
    → y.closed ≡ false
    → (m' : Memory) × (g' : Heap) × (MemValues.wrap_value y.ptr iso h m ≡ some (m.next, m'))
      × (new_value c m.next g ≡ (done g.next, g'))
      × IsNew g c m.next y g'
      × Holds (m'.values m.next) h
      × IsLinked g' m'
new_value-IsLinked g m iso h c y l n e o =
    let (_, a) = l.live c y e o in
    elim (Option-cases (m.ctxs y.ptr)) [
      | inl z ↦ absurd (a z)
      | inr (cc, z) ↦
          let (g', r, new, k) =
            new_value-New c m.next g y l.tracked.next_ne_null l.consistent.next_ne_null n e o in
          let t =
            subst (λ q. IsTracked q.1) r (new_value-IsTracked c m.next l.tracked (inr (y, e))) in
          (
            wrap_at m y.ptr cc iso h,
            g',
            wrap_lem m y.ptr iso h cc z,
            r,
            new,
            rw (==_refl m.next) refl,
            IsMade-IsLinked iso h l e o z k t,
          )
    ]
