-- ===== src/Go/Creation/Grown.antt =====
-- newValue in an open context that has its table, on both sides at once.
use gv.Prelude.{ℕ, ◌≡◌, ◌≢◌, subst, false, List, Option, some}
use gv.Memory.{Ptr, Memory}
use gv.Memory.Values as MemValues
use gv.Go.{Context, Isolate, Heap, done}
use gv.Go.Values.{new_value}
use gv.Go.Values.Made.{new_value_open, tabled}
use gv.Go.Lifecycle.Linked.{IsLinked}
use gv.Go.Lifecycle.Linked.Sessions.{some_end, go_end}
use gv.Go.Lifecycle.Linked.Making.{new_value-IsLinked}

-- The link is between the objects: who is in an isolate does not matter to it.
pub elsewhere :
    {g : Heap} {m : Memory} (isolates : Ptr → Option Isolate) (n : ℕ)
    → IsLinked g m
    → IsLinked (record g { isolates = isolates; locks = n }) m
elsewhere isolates n l = record {
  tracked = record {
    tracked = l.tracked.tracked;
    null_value = l.tracked.null_value;
    next_ne_null = l.tracked.next_ne_null;
  };
  stored = l.stored;
  consistent = l.consistent;
  wrapped = l.wrapped;
  apart = l.apart;
  live = l.live;
  contexts_apart = l.contexts_apart;
}

-- wrapValue in C and newValue in Go, for an open context that has its table.
pub tabled-IsLinked :
    (g : Heap) (m m' : Memory) (iso : Ptr) (h : ℕ) (c p : Ptr) (y : Context) (l : List Ptr)
    → IsLinked g m
    → c ≢ 0
    → g.contexts c ≡ some y
    → y.closed ≡ false
    → y.live_values ≡ some l
    → MemValues.wrap_value y.ptr iso h m ≡ some (p, m')
    → (m.next ≡ p)
      × (new_value c p g ≡ (done g.next, tabled g c m.next y l))
      × IsLinked (tabled g c m.next y l) m'
tabled-IsLinked g m m' iso h c p y l k n e o t r =
    let (m2, g2, run, new, _, _, j) = new_value-IsLinked g m iso h c y k n e o in
    let (at, mem) = some_end run r in
    let g' = tabled g c m.next y l in
    let new' =
      new_value_open c m.next g y l k.tracked.next_ne_null k.consistent.next_ne_null n e o t in
    (
      at,
      subst (λ x. new_value c x g ≡ (done g.next, g')) at new',
      subst (IsLinked g') mem (subst (λ x. IsLinked x m2) (go_end new new') j),
    )
