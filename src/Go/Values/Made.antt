-- ===== src/Go/Values/Made.antt =====
-- newValue, newBorrowedValue and trackValue: a new value and the table of its context.
use gv.Prelude.{
  ap, ◌∙◌, ==_refl, suc, ◌≡◌, ◌≢◌, refl, sym, subst, true, false, none, some, List, arith, ◌==◌,
  Bool-cases, Option-cases, inl, inr, ◌⊎◌, ne→==,
}
use native.Mathlib.Decide.{ℕ_discrete}
use gv.Memory.{Ptr}
use gv.Go.{Context, Value, Heap, Attempt, done, panics}
use gv.Go.Objects.{pure, then_do}
use gv.Go.Values.{add, invalidate, track_value, new_value, new_borrowed_value}
use gv.Go.Values.Tracked.{
  IsTracked, IsTrackedBut, after, after_run, put_value, put_context, put_nil, put_lists, spare_none,
  has-add, invalidate_here,
}

-- Nil, or the address of a context.
abbrev pub IsContext : Heap → Ptr → Type 0
IsContext g c = (c ≡ 0) ⊎ ((y : Context) × (g.contexts c ≡ some y))

pub track_lem :
    (c v : Ptr) (g : Heap) (y : Context)
    → c ≢ 0
    → v ≢ 0
    → g.contexts c ≡ some y
    → (track_value c v g ≡ invalidate v g)
      ⊎ ((l : List Ptr) × (y.closed ≡ false)
          × (y.live_values ≡ some l)
          × (track_value c v g
              ≡ (done tt, put_context g c (record y { live_values = some (add v l) }))))
unfolding track_value
track_lem c v g y m n h = elim (Bool-cases y.closed) [
  | inl o ↦ inl (ground (arith, o))
  | inr o ↦ elim (Option-cases y.live_values) [
    | inl e ↦ inl (ground (arith, o, e))
    | inr (l, e) ↦ inr (l, o, e, ground (arith, o, e))
  ]
]

pub track_value-IsTracked :
    {v : Ptr} {g : Heap} (x : Value) (y : Context)
    → IsTrackedBut v g
    → v ≢ 0
    → x.ctx ≢ 0
    → g.values v ≡ some x
    → g.contexts x.ctx ≡ some y
    → IsTracked (after (track_value x.ctx v) g)
track_value-IsTracked {v} {g} x y i n m e h = elim (track_lem x.ctx v g y m n h) [
  | inl r ↦ after_run r (
      after_run (invalidate_here v g n e) (
        spare_none (put_nil i v (record x { ptr = 0 }) n refl) (record x { ptr = 0 }) (ground arith)
          (inl refl)))
  | inr (l, o, t, r) ↦ after_run r (
      spare_none
        (put_lists i x.ctx y (record y { live_values = some (add v l) }) h
          (λ u k s. ground (arith, s, has-add u v l)))
        x e (inr (inr (ground (arith, has-add v v l)))))
]

-- The new object before it is tracked.
abbrev pub made : Heap → Value → Heap
made g x = put_value (record g { next = suc g.next }) g.next x

made-IsTrackedBut : {g : Heap} (x : Value) → IsTracked g → IsTrackedBut g.next (made g x)
made-IsTrackedBut {g} x i = record {
  tracked = λ u y o e p. ground (arith, i.tracked u y, i.null_value);
  null_value = ground (arith, i.null_value, i.next_ne_null);
  next_ne_null = omega arith;
}

then_pure : {A B : Type 0} (r : Attempt A × Heap) (b : B) → (then_do r (λ _. pure b)).1 ≡ r.1
then_pure (done a, g) b = refl
then_pure (panics e, g) b = refl

abbrev pub owned : Ptr → Ptr → Value
owned c p = record { ptr = p; ctx = c; borrowed = false }

new_value_nil : (p : Ptr) (g : Heap) → p ≢ 0 → new_value 0 p g ≡ (done g.next, made g (owned 0 p))
unfolding new_value
new_value_nil p g n = ground arith

pub new_value_some :
    (c p : Ptr) (g : Heap)
    → p ≢ 0
    → c ≢ 0
    → new_value c p g ≡ then_do (track_value c g.next (made g (owned c p))) (λ _. pure g.next)
unfolding new_value
new_value_some c p g n m = rw (ne→== p 0 n, ne→== c 0 m) refl

no_pointer : {g : Heap} (c : Ptr) → IsTracked g → IsTracked (after (new_value c 0) g)
unfolding new_value
no_pointer c i = i

made_nil : {g : Heap} (p : Ptr) → IsTracked g → IsTracked (made g (owned 0 p))
made_nil {g} p i = record {
  tracked = λ u y o e. ground (arith, i.tracked u y);
  null_value = ground (arith, i.null_value, i.next_ne_null);
  next_ne_null = omega arith;
}

made_some :
    {g : Heap} (c p : Ptr)
    → IsTracked g
    → p ≢ 0
    → c ≢ 0
    → IsContext g c
    → IsTracked (then_do (track_value c g.next (made g (owned c p))) (λ _. pure g.next)).1
made_some {g} c p i z d (inl e) = absurd (d e)
made_some {g} c p i z d (inr (y, h)) =
    subst IsTracked (sym (then_pure (track_value c g.next (made g (owned c p))) g.next)) (
      track_value-IsTracked (owned c p) y (made-IsTrackedBut (owned c p) i) i.next_ne_null d
        (ground arith) h)

-- newValue, for nil or a context, keeps every owned value in the table of its context.
pub new_value-IsTracked :
    {g : Heap} (c p : Ptr) → IsTracked g → IsContext g c → IsTracked (after (new_value c p) g)
new_value-IsTracked {g} c p i k = elim (ℕ_discrete p 0) [
  | yes z ↦ subst (λ q. IsTracked (after (new_value c q) g)) (sym z) (no_pointer c i)
  | no z ↦ elim (ℕ_discrete c 0) [
    | yes d ↦
        subst (λ q. IsTracked (after (new_value q p) g)) (sym d)
          (after_run (new_value_nil p g z) (made_nil p i))
    | no d ↦ after_run (new_value_some c p g z d) (made_some c p i z d k)
  ]
]

pub new_borrowed_value-IsTracked :
    {g : Heap} (c p : Ptr) → IsTracked g → IsTracked (after (new_borrowed_value c p) g)
unfolding new_borrowed_value
new_borrowed_value-IsTracked {g} c p i = elim (Bool-cases (p == 0)) [
  | inl z ↦ rw z i
  | inr z ↦ rw z (
      spare_none (made-IsTrackedBut (record { ptr = p; ctx = c; borrowed = true }) i)
        (record { ptr = p; ctx = c; borrowed = true }) (ground arith) (inr (inl refl)))
]

-- The two heaps that newValue can leave for an open context: that of a context without a table, and
-- that of one with it.
abbrev pub untabled : Heap → Ptr → Ptr → Heap
untabled g c p = put_value (made g (owned c p)) g.next (owned c 0)

abbrev pub tabled : Heap → Ptr → Ptr → Context → List Ptr → Heap
tabled g c p y l =
    put_context (made g (owned c p)) c (record y { live_values = some (add g.next l) })

pub new_value_lem :
    (c p : Ptr) (g : Heap) (y : Context)
    → g.next ≢ 0
    → p ≢ 0
    → c ≢ 0
    → g.contexts c ≡ some y
    → (new_value c p g ≡ (done g.next, untabled g c p))
      ⊎ ((l : List Ptr) × (y.live_values ≡ some l)
          × (new_value c p g ≡ (done g.next, tabled g c p y l)))
new_value_lem c p g y f n m h = elim (track_lem c g.next (made g (owned c p)) y m f h) [
  | inl r ↦ inl (
      new_value_some c p g n m
      ∙ ap (λ o. then_do o (λ _. pure g.next))
          (r
            ∙ invalidate_here g.next (made g (owned c p)) {x = owned c p} f
                (ground (arith, ==_refl g.next))))
  | inr (l, o, e, r) ↦
      inr (l, e, new_value_some c p g n m ∙ ap (λ o. then_do o (λ _. pure g.next)) r)
]

-- newValue for an open context that has its table.
pub new_value_open :
    (c p : Ptr) (g : Heap) (y : Context) (l : List Ptr)
    → g.next ≢ 0
    → p ≢ 0
    → c ≢ 0
    → g.contexts c ≡ some y
    → y.closed ≡ false
    → y.live_values ≡ some l
    → new_value c p g ≡ (done g.next, tabled g c p y l)
unfolding new_value track_value
new_value_open c p g y l f n m h o e =
    rw (new_value_some c p g n m, ne→== c 0 m, ne→== g.next 0 f, h, o, e) refl

-- newValue for an open context without a table: the value is nil at once.
pub new_value_bare :
    (c p : Ptr) (g : Heap) (y : Context)
    → g.next ≢ 0
    → p ≢ 0
    → c ≢ 0
    → g.contexts c ≡ some y
    → y.closed ≡ false
    → y.live_values ≡ none
    → new_value c p g ≡ (done g.next, untabled g c p)
unfolding track_value
new_value_bare c p g y f n m h o e =
    let r : track_value c g.next (made g (owned c p)) ≡ invalidate g.next (made g (owned c p)) =
      ground (arith, h, o, e) in
    new_value_some c p g n m
    ∙ ap (λ o. then_do o (λ _. pure g.next))
        (r
          ∙ invalidate_here g.next (made g (owned c p)) {x = owned c p} f
              (ground (arith, ==_refl g.next)))
