-- ===== src/Go/Host/GivenBack.antt =====
-- The end of gv8FunctionCallback: what was lent to the host function is given back.
use gv.Prelude.{
  ◌≡◌, ◌≢◌, refl, sym, ◌∙◌, Bool, true, Option, none, some, List, ◌∷◌, arith, if◌then◌else◌,
  ==_refl, Option-cases, inl, inr,
}
use native.Mathlib.Decide.{ℕ_discrete}
use gv.Memory.{Ptr, Memory, Gv8Value}
use gv.Run.{World, ok}
use gv.Go.{Context, Isolate, Value, Heap, Native, Attempt, done}
use gv.Go.Values.{has}
use gv.Go.Values.Tracked.{put_value, invalidate_here}
use gv.Go.Lifecycle.Wiped.{IsStored, IsWiped, wiped, invalidate_all-IsWiped, unwiped, stays_wiped}
use gv.Go.Lifecycle.Linked.{IsLinked}
use gv.Go.Host.{give_back}
use gv.Go.Host.Handoff.{IsHandedOff}

-- Values that are invalidated do not break the link.
pub wiped-IsLinked :
    {g : Heap} {m : Memory} (l : List Ptr) (values : Ptr → Option Value)
    → IsLinked g m
    → IsWiped g l values
    → IsLinked (record g { values = values }) m
wiped-IsLinked {g} l values i k = record {
  tracked = record {
    tracked = λ u y o e p b d. i.tracked.tracked u y o (was u y e p) p b d;
    null_value = ground (arith, k 0, i.tracked.null_value);
    next_ne_null = i.tracked.next_ne_null;
  };
  stored = λ c y e u h.
      let (n, a) = i.stored c y e u h in (n, stays_wiped (has u l) (g.values u) a (k u));
  consistent = i.consistent;
  wrapped = λ u x y e o h. i.wrapped u x y (was u x e o.0) o h;
  apart = λ u v x z e f o p q. i.apart u v x z (was u x e o.0) (was v z f p.0) o p q;
  live = i.live;
  contexts_apart = i.contexts_apart;
}
  where
    was : (u : Ptr) (x : Value) → values u ≡ some x → x.ptr ≢ 0 → g.values u ≡ some x
    was u x e n = unwiped (has u l) (g.values u) x (sym (k u) ∙ e) n

pub wiped-nil :
    (b : Bool) (o : Option Value) (x : Value)
    → b ≡ true
    → (if b then wiped o else o) ≡ some x
    → x.ptr ≡ 0
wiped-nil b none x h e = ground (arith, h)
wiped-nil b (some y) x h e = ground (arith, h)

pub wiped-IsHandedOff :
    {E : Type 0} {v q : Ptr} {a : Gv8Value} {w w3 : World (Native E)} (l : List Ptr)
    (values : Ptr → Option Value)
    → IsHandedOff v q a w w3
    → IsWiped w3.engine.go l values
    → IsHandedOff v q a w
        (record w3 { engine = record w3.engine { go = record w3.engine.go { values = values } } })
wiped-IsHandedOff {v} {w3} l values h k = record {
  not_null = h.not_null;
  wrapper = h.wrapper;
  nil = λ x e. elim (ℕ_discrete x.ptr 0) [ yes z ↦ z | no z ↦ h.nil x (was v x e z) ];
  unowned = λ u x e o. h.unowned u x (was u x e o.0) o;
  linked = wiped-IsLinked l values h.linked k;
  stays = λ u e. stays_wiped (has u l) (w3.engine.go.values u) (h.stays u e) (k u);
}
  where
    was : (u : Ptr) (x : Value) → values u ≡ some x → x.ptr ≢ 0 → w3.engine.go.values u ≡ some x
    was u x e n = unwiped (has u l) (w3.engine.go.values u) x (sym (k u) ∙ e) n

-- The receiver and the arguments are given back.
pub give_back_lem :
    {E : Type 0} (this : Ptr) (args : List Ptr) (w : World (Native E))
    → IsStored w.engine.go (this ∷ args)
    → (values : Ptr → Option Value) × (give_back this args w
        ≡ ok
            (done tt)
            (record w { engine = record w.engine { go = record w.engine.go { values = values } } }))
      × IsWiped w.engine.go (this ∷ args) values
unfolding gv.Go.◌>>=◌
give_back_lem this args w s = elim (Option-cases (w.engine.go.values this)) [
  | inl e ↦ absurd ((s this (ground (arith, ==_refl this))).1 e)
  | inr (x, e) ↦
      let h = put_value w.engine.go this (record x { ptr = 0 }) in
      let (values, r, k) = invalidate_all-IsWiped args h (λ u m. ground (arith, s u, m)) in
      (
        values,
        rw (invalidate_here this w.engine.go (s this (ground (arith, ==_refl this))).0 e, r) refl,
        λ u. ground (arith, k u, e),
      )
]
