-- ===== src/Go/Lifecycle/Linked/NewValue.antt =====
-- newValue in an open context: what it does to the heap.
use gv.Prelude.{
  suc, ◌≡◌, ◌≢◌, refl, ◌∙◌, ap, true, false, Option, none, some, List, arith, Option-cases, inl,
  inr, ◌⊎◌, ==_refl,
}
use native.Mathlib.Decide.{ℕ_discrete}
use mathlib.Core.Option
use gv.Memory.{Ptr}
use gv.Go.{Context, Value, Heap, done}
use gv.Go.Values.{has, add, new_value}
use gv.Go.Values.Tracked.{has-add}
use gv.Go.Values.Made.{new_value_open, new_value_bare, owned, untabled, tabled}
use gv.Go.Lifecycle.{keys}
use gv.Go.Lifecycle.Linked.{IsOwned}

-- A context of the heap before, whose table may have got the new value.
abbrev pub Grown : Heap → Ptr → Context → Type 0
Grown g q z =
    (y : Context) × (g.contexts q ≡ some y)
    × (z.ptr ≡ y.ptr)
    × (z.closed ≡ y.closed)
    × ((u : Ptr)
        → has u (keys z.live_values) ≡ true
        → (u ≡ g.next) ⊎ (has u (keys y.live_values) ≡ true))

-- What newValue does to the heap: at most the new address has a new owned value.
pub record IsMade (c p : Ptr) (g g' : Heap) : Type 0 where
  pub values : (u : Ptr) → u ≢ g.next → g'.values u ≡ g.values u
  pub new : (x : Value) → g'.values g.next ≡ some x → IsOwned x → x ≡ owned c p
  pub there : g'.values g.next ≢ none
  pub contexts : (q : Ptr) (z : Context) → g'.contexts q ≡ some z → Grown g q z

grown_key :
    (u n : Ptr) (l : List Ptr) (o : Option (List Ptr))
    → o ≡ some l
    → has u (add n l) ≡ true
    → (u ≡ n) ⊎ (has u (keys o) ≡ true)
grown_key u n l o e h = elim (ℕ_discrete u n) [
  | yes q ↦ inl q
  | no q ↦ inr (ground (arith, e, h, has-add u n l))
]

module _ (c p : Ptr) (g : Heap) where
  untabled-IsMade : IsMade c p g (untabled g c p)
  untabled-IsMade = record {
    values = λ u n. ground arith;
    new = λ x e o. ground (arith, ==_refl g.next, o.0);
    there = λ e. ground (arith, ==_refl g.next);
    contexts = λ q z e. (z, e, refl, refl, λ u h. inr h);
  }

  tabled-IsMade :
      (y : Context) (l : List Ptr)
      → g.contexts c ≡ some y
      → y.live_values ≡ some l
      → IsMade c p g (tabled g c p y l)
  tabled-IsMade y l h e = record {
    values = λ u n. ground arith;
    new = λ x f o. ground (arith, ==_refl g.next);
    there = λ f. ground (arith, ==_refl g.next);
    contexts = λ q z f. elim (ℕ_discrete c q) [
      | yes d ↦ (
        y,
        ground (arith, d),
        ground (arith, d),
        ground (arith, d),
        λ u r. grown_key u g.next l y.live_values e (ground (arith, d, r)),
      )
      | no n ↦ (z, ground arith, refl, refl, λ u r. inr r)
    ];
  }

-- The pointer of a new value of an open context: one without a table gives nil.
abbrev pub pointer_of : Option (List Ptr) → Ptr → Ptr
pointer_of none p = 0
pointer_of (some l) p = p

-- What newValue gives: an owned value at the next address, which is in the table of its context; no other
-- value and no other context has changed.
pub record IsNew (g : Heap) (c p : Ptr) (y : Context) (g' : Heap) : Type 0 where
  pub value : g'.values g.next ≡ some (owned c (pointer_of y.live_values p))
  pub others : (u : Ptr) → u ≢ g.next → g'.values u ≡ g.values u
  pub table :
      g'.contexts c ≡ some (record y { live_values = Option.map (add g.next) y.live_values })
  pub elsewhere : (q : Ptr) → q ≢ c → g'.contexts q ≡ g.contexts q
  pub next : g'.next ≡ suc g.next

module _ (c p : Ptr) (g : Heap) (y : Context) (n : g.next ≢ 0) (k : p ≢ 0) (m : c ≢ 0)
    (here : g.contexts c ≡ some y) (open_now : y.closed ≡ false) where
  abbrev pub New : Type 0
  New = (g' : Heap) × (new_value c p g ≡ (done g.next, g')) × IsNew g c p y g' × IsMade c p g g'

  pub new_value-New : New
  new_value-New = elim (Option-cases y.live_values) [
    | inl e ↦ (
      untabled g c p,
      new_value_bare c p g y n k m here open_now e,
      record {
        value = rw e (ground (arith, ==_refl g.next));
        others = λ u q. ground arith;
        table = rw e (here ∙ ap (λ t. some (record y { live_values = t })) e);
        elsewhere = λ q r. refl;
        next = refl;
      },
      untabled-IsMade c p g,
    )
    | inr (l, e) ↦ (
      tabled g c p y l,
      new_value_open c p g y l n k m here open_now e,
      record {
        value = rw e (ground (arith, ==_refl g.next));
        others = λ u q. ground arith;
        table = rw e (ground (arith, ==_refl c));
        elsewhere = λ q r. ground arith;
        next = refl;
      },
      tabled-IsMade c p g y l here e,
    )
  ]
