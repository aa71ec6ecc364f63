-- ===== src/Go/Host/Lent.antt =====
-- What gv8FunctionCallback lends to a host function: the receiver and the arguments, as borrowed values.
use gv.Prelude.{
  ◌≤◌, ◌≡◌, ◌≢◌, refl, true, false, ◌∙◌, Option, none, some, List, [], ◌∷◌, arith, ne→==, ==_refl,
  Bool-cases, inl, inr,
}
use gv.Memory.{Ptr, Memory}
use gv.Go.{Value, Heap, done}
use gv.Go.Values.{has, new_borrowed_value}
use gv.Go.Values.Made.{made}
use gv.Go.Lifecycle.Linked.{IsLinked}
use gv.Go.Host.{borrow_args}

abbrev pub lent_value : Ptr → Ptr → Value
lent_value ctx p = record { ptr = p; ctx = ctx; borrowed = true }

abbrev pub AllPointers : List Ptr → Type 0
AllPointers [] = Unit
AllPointers (p ∷ l) = (p ≢ 0) × AllPointers l

-- One value for each pointer, borrowed from it in the context.
abbrev pub AreLent : Ptr → List Ptr → List Ptr → (Ptr → Option Value) → Type 0
AreLent ctx [] [] values = Unit {0}
AreLent ctx [] (v ∷ lent) values = ⊥
AreLent ctx (p ∷ l) [] values = ⊥
AreLent ctx (p ∷ l) (v ∷ lent) values =
    (values v ≡ some (lent_value ctx p)) × AreLent ctx l lent values

-- The heap after values were borrowed: they are at new addresses, and the rest is as it was.
pub record Lends (g g' : Heap) (l : List Ptr) : Type 0 where
  pub others : (u : Ptr) → has u l ≡ false → g'.values u ≡ g.values u
  pub stored : (u : Ptr) → has u l ≡ true → g'.values u ≢ none
  pub fresh : (u : Ptr) → has u l ≡ true → g.next ≤ u
  pub kept : (u : Ptr) → g.values u ≢ none → g'.values u ≢ none
  pub next : g.next ≤ g'.next
  pub contexts : g'.contexts ≡ g.contexts
  pub isolates : g'.isolates ≡ g.isolates
  pub thread : g'.thread ≡ g.thread
  pub locks : g'.locks ≡ g.locks

pub borrow_one :
    (ctx p : Ptr) (g : Heap)
    → p ≢ 0
    → new_borrowed_value ctx p g ≡ (done g.next, made g (lent_value ctx p))
unfolding new_borrowed_value
borrow_one ctx p g n = rw (ne→== p 0 n) refl

pub made-IsLinked :
    {g : Heap} {m : Memory} (ctx p : Ptr) → IsLinked g m → IsLinked (made g (lent_value ctx p)) m
made-IsLinked {g} ctx p l = record {
  tracked = record {
    tracked = λ u y o e q b d. ground (arith, l.tracked.tracked u y o);
    null_value = ground (arith, l.tracked.null_value, l.tracked.next_ne_null);
    next_ne_null = omega arith;
  };
  stored = λ c y e u h. let (n, a) = l.stored c y e u h in (n, λ z. a (ground (arith, z)));
  consistent = l.consistent;
  wrapped = λ u x y e o h. ground (arith, l.wrapped u x y, o);
  apart = λ u v x z e f o q s. l.apart u v x z (ground (arith, o)) (ground (arith, q)) o q s;
  live = l.live;
  contexts_apart = l.contexts_apart;
}

pub made-Lends :
    (ctx p : Ptr) (g g' : Heap) (l : List Ptr)
    → Lends (made g (lent_value ctx p)) g' l
    → Lends g g' (g.next ∷ l)
made-Lends ctx p g g' l k = record {
  others = λ u e. ground (arith, k.others u, e);
  stored = λ u e. ground (arith, k.stored u, k.kept u, e);
  fresh = λ u e. ground (arith, k.fresh u, e);
  kept = λ u e. k.kept u (λ z. e (ground (arith, z)));
  next = omega (arith, k.next);
  contexts = k.contexts;
  isolates = k.isolates;
  thread = k.thread;
  locks = k.locks;
}

-- The first of the lent values is not among the others.
pub lent_first :
    (g : Heap) {g' : Heap} {args : List Ptr} (ctx recv : Ptr)
    → Lends (made g (lent_value ctx recv)) g' args
    → g'.values g.next ≡ some (lent_value ctx recv)
lent_first g {args} ctx recv k = elim (Bool-cases (has g.next args)) [
  | inl h ↦ absurd (ground (arith, k.fresh g.next h))
  | inr h ↦ k.others g.next h ∙ ground (arith, ==_refl g.next)
]

-- Pointers that are not null are borrowed: the link holds on.
pub borrow_args-Lends :
    (ctx : Ptr) (argv : List Ptr) (g : Heap) (m : Memory)
    → AllPointers argv
    → IsLinked g m
    → (g' : Heap) × (args : List Ptr) × (borrow_args ctx argv g ≡ (done args, g'))
      × Lends g g' args
      × AreLent ctx argv args g'.values
      × IsLinked g' m
borrow_args-Lends ctx [] g m n l = (
  g,
  [],
  refl,
  record {
    others = λ u e. refl;
    stored = λ u e. ground (arith, e);
    fresh = λ u e. ground (arith, e);
    kept = λ u e. e;
    next = omega arith;
    contexts = refl;
    isolates = refl;
    thread = refl;
    locks = refl;
  },
  tt,
  l,
)
borrow_args-Lends ctx (p ∷ argv) g m (n, rest) l =
    let (g', args, e, k, a, l') =
      borrow_args-Lends ctx argv (made g (lent_value ctx p)) m rest (made-IsLinked ctx p l) in
    (
      g',
      g.next ∷ args,
      rw (borrow_one ctx p g n, e) refl,
      made-Lends ctx p g g' args k,
      (lent_first g ctx p k, a),
      l',
    )
