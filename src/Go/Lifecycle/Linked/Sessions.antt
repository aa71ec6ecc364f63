-- ===== src/Go/Lifecycle/Linked/Sessions.antt =====
-- The lives of contexts and values, from the first on: NewContext, values that C hands over, Release
-- and Close, in any order.
use gv.Prelude.{ℕ, suc, ◌≡◌, ◌≢◌, sym, subst, ap, ◌∙◌, false, Option, none, some, arith}
use gv.Prelude.Int.{ℤ, int_of}
use gv.Memory.{Ptr, Memory, Gv8Ctx, Gv8Value}
use gv.Memory.Values as MemValues
use gv.Memory.Invariant.{IsConsistent}
use gv.Run.{World, Run, ok, Cmd}
use gv.Go.{Context, Isolate, Heap, Native, Attempt, done}
use gv.Go.Access.{Gate}
use gv.Go.Enter.Lent.{Admits}
use gv.Go.Values.{new_value}
use gv.Go.Lifecycle.{new_context, close, release}
use gv.Go.Lifecycle.Release.{owned}
use gv.Go.Lifecycle.Linked.{IsLinked, WrapperOf}
use gv.Go.Lifecycle.Linked.Opening.{IsNew, numbered, new_context-IsLinked}
use gv.Go.Lifecycle.Linked.Making.{new_value-IsLinked}
use gv.Go.Lifecycle.Linked.Releasing.{release-IsLinked}
use gv.Go.Lifecycle.Linked.Closing.{close-IsLinked}

pub some_end :
    {o : Option (Ptr × Memory)} {p q : Ptr} {m n : Memory}
    → o ≡ some (p, m)
    → o ≡ some (q, n)
    → (p ≡ q) × (m ≡ n)
some_end e f = ground (arith, e, f)

pub go_end :
    {o : Attempt Ptr × Heap} {x y : Attempt Ptr} {g h : Heap} → o ≡ (x, g) → o ≡ (y, h) → g ≡ h
go_end e f = ap (λ (r : Attempt Ptr × Heap). r.1) (sym e ∙ f)

pub moved :
    {g : Heap} {m m' : Memory}
    → IsLinked g m
    → m'.ctxs ≡ m.ctxs
    → m'.values ≡ m.values
    → IsConsistent m'
    → IsLinked g m'
moved l c v i = record {
  tracked = l.tracked;
  stored = l.stored;
  consistent = i;
  wrapped = λ u x y e o h.
      subst (λ (f : Ptr → Option Gv8Value). WrapperOf (f x.ptr) y.ptr) (sym v)
        (l.wrapped u x y e o h);
  apart = l.apart;
  live = λ q y h o.
      subst (λ (f : Ptr → Option Gv8Ctx). (y.ptr ≢ 0) × (f y.ptr ≢ none)) (sym c) (l.live q y h o);
  contexts_apart = l.contexts_apart;
}

-- No contexts and no values yet.
pub record IsBare (g : Heap) : Type 0 where
  pub contexts : (c : Ptr) → g.contexts c ≡ none
  pub values : (v : Ptr) → g.values v ≡ none
  pub next_ne_null : g.next ≢ 0

pub bare-IsLinked : {g : Heap} {m : Memory} → IsBare g → IsConsistent m → IsLinked g m
bare-IsLinked f i = record {
  tracked = record {
    tracked = λ v x n e. ground (arith, f.values v, e);
    null_value = f.values 0;
    next_ne_null = f.next_ne_null;
  };
  stored = λ c y e. ground (arith, f.contexts c, e);
  consistent = i;
  wrapped = λ v x y e. ground (arith, f.values v, e);
  apart = λ v u x z e. ground (arith, f.values v, e);
  live = λ c y e. ground (arith, f.contexts c, e);
  contexts_apart = λ c d y z e. ground (arith, f.contexts c, e);
}

module _ {E : Type 0} where
  -- A world after which neither side's objects have changed, as after a call that only runs V8.
  pub record SameObjects (w w' : World (Native E)) : Type 0 where
    pub go : w'.engine.go ≡ w.engine.go
    pub ctxs : w'.mem.ctxs ≡ w.mem.ctxs
    pub values : w'.mem.values ≡ w.mem.values
    pub consistent : IsConsistent w'.mem

  pub data Step (w w' : World (Native E)) : Type 0 where
    opens :
        (make : Ptr → ℤ → Cmd (Native E) Ptr) (iso p c : Ptr) (i : Isolate) (a : World (Native E))
        → iso ≢ 0
        → w.engine.go.isolates iso ≡ some i
        → w.engine.go.contexts w.engine.go.next ≡ none
        → make i.ptr (int_of (suc w.engine.go.ctx_refs.seq)) (numbered w) ≡ ok p a
        → IsNew p (numbered w) a
        → new_context make iso w ≡ ok (done c) w'
        → Step w w'
    makes :
        (iso : Ptr) (h : ℕ) (c p v : Ptr) (y : Context)
        → c ≢ 0
        → w.engine.go.contexts c ≡ some y
        → y.closed ≡ false
        → MemValues.wrap_value y.ptr iso h w.mem ≡ some (p, w'.mem)
        → new_value c p w.engine.go ≡ (done v, w'.engine.go)
        → Step w w'
    releases :
        (v p d : Ptr) (c : Context) (i : Isolate) (gate : Gate)
        → w.engine.go.values v ≡ some (owned p d)
        → p ≢ 0
        → d ≢ 0
        → w.engine.go.contexts d ≡ some c
        → Admits w.engine.go c.iso i gate
        → release v w ≡ ok (done tt) w'
        → Step w w'
    closes :
        (c : Ptr) (y : Context)
        → c ≢ 0
        → w.engine.go.contexts c ≡ some y
        → y.closed ≡ false
        → close c w ≡ ok (done tt) w'
        → Step w w'
    elsewhere : SameObjects w w' → Step w w'

  pub same_world :
      {A : Type 0} {o : Run (Native E) (Attempt A)} {x y : A} {a b : World (Native E)}
      → o ≡ ok (done x) a
      → o ≡ ok (done y) b
      → a ≡ b
  same_world p q = ground (arith, p, q)

  abbrev Linked : World (Native E) → Type 0
  Linked w = IsLinked w.engine.go w.mem

  Step-IsLinked : {w w' : World (Native E)} → Linked w → Step w w' → Linked w'
  Step-IsLinked {w} l (opens make iso p c i a n h f m k r) =
      let (_, run, _, _, j) = new_context-IsLinked make iso p i w a l n h f m k in
      subst Linked (same_world run r) j
  Step-IsLinked {w} {w'} l (makes iso h c p v y n e o q r) =
      let (_, g', run, made, _, _, j) = new_value-IsLinked w.engine.go w.mem iso h c y l n e o in
      let (at, mem) = some_end run q in
      let go =
        go_end made (subst (λ b. new_value c b w.engine.go ≡ (done v, w'.engine.go)) (sym at) r) in
      subst (λ g. IsLinked g w'.mem) go (subst (IsLinked g') mem j)
  Step-IsLinked {w} l (releases v p d c i gate e n m h t r) =
      let (_, run, _, j) = release-IsLinked v p d c i gate w l e n m h t in
      subst Linked (same_world run r) j
  Step-IsLinked {w} l (closes c y n h o r) =
      let (_, run, _, j) = close-IsLinked c y w l n h o in subst Linked (same_world run r) j
  Step-IsLinked {w} {w'} l (elsewhere s) =
      subst (λ g. IsLinked g w'.mem) (sym s.go) (moved l s.ctxs s.values s.consistent)

  -- Any number of steps.
  pub data Reach (w : World (Native E)) : World (Native E) → Type 0 where
    here : Reach w w
    next : {a b : World (Native E)} → Reach w a → Step a b → Reach w b

  -- From a process without contexts and values on the Go side and with a consistent memory of C, after
  -- any sequence of NewContext, of wrappers of C that become values, of Release of owned values, of Close
  -- of open contexts, and of what leaves the objects alone: every value that has its pointer, is not
  -- borrowed and has a context, has a live wrapper, which belongs to the C context of its context and
  -- to no other value; every open context has a live C context, and no other context has that one.
  pub Reach-IsLinked :
      {w w' : World (Native E)}
      → IsBare w.engine.go
      → IsConsistent w.mem
      → Reach w w'
      → IsLinked w'.engine.go w'.mem
  Reach-IsLinked f i here = bare-IsLinked f i
  Reach-IsLinked f i (next r s) = Step-IsLinked (Reach-IsLinked f i r) s
