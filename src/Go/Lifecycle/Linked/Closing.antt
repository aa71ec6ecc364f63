-- ===== src/Go/Lifecycle/Linked/Closing.antt =====
-- Close on both sides at once.
use gv.Prelude.{
  ◌≡◌, ◌≢◌, sym, ◌∙◌, subst, true, false, none, some, arith, Option-cases, Bool-cases, inl, inr,
}
use native.Mathlib.Decide.{ℕ_discrete}
use gv.Memory.{Ptr, Memory, Gv8Ctx}
use gv.Memory.Dispose.{has, Disposed, key_of_has, context_dispose-Disposed, Disposed-IsConsistent}
use gv.Memory.Invariant.{IsConsistent}
use gv.Run.{World, ok}
use gv.Go.{Context, Value, Native, done}
use gv.Go.Lifecycle.{close}
use gv.Go.Lifecycle.Close.{IsClosed, close-IsClosed}
use gv.Go.Lifecycle.Linked.{IsLinked, IsOwned, WrapperOf, AllStored, owner, same_end}

-- A wrapper in the table of a C context belongs to that context.
listed_wrapper :
    {m : Memory} {p : Ptr} {cc : Gv8Ctx}
    → IsConsistent m
    → m.ctxs p ≡ some cc
    → (q r : Ptr) → has q cc.values ≡ true
    → WrapperOf (m.values q) r
    → r ≡ p
listed_wrapper {m} {p} {cc} i h q r e w =
    let (k, f) = key_of_has q cc.values (i.distinct p cc h) e in
    elim (Option-cases (m.values q)) [
      | inl z ↦ ground (arith, i.owned p cc k q h f, z, w)
      | inr (a, z) ↦ ground (arith, i.owned p cc k q h f, z, w)
    ]

module _ {E : Type 0} {w w' : World (Native E)} {c : Ptr} {y : Context} {cc : Gv8Ctx}
    (l : IsLinked w.engine.go w.mem) (here : w.engine.go.contexts c ≡ some y)
    (open_before : y.closed ≡ false) (live : w.mem.ctxs y.ptr ≡ some cc) (k : IsClosed c y w w')
    (d : Disposed y.ptr cc w.mem w'.mem) where
  -- A context that is open afterwards is another one, and was open before.
  other :
      (q : Ptr) (z : Context)
      → w'.engine.go.contexts q ≡ some z
      → z.closed ≡ false
      → (q ≢ c) × (w.engine.go.contexts q ≡ some z)
  other q z h o = elim (ℕ_discrete q c) [
    | yes e ↦ absurd (ground (arith, k.shut, e))
    | no n ↦ (n, sym (k.others q n) ∙ h)
  ]

  apart_ptr :
      (q : Ptr) (z : Context)
      → w.engine.go.contexts q ≡ some z
      → z.closed ≡ false
      → q ≢ c
      → z.ptr ≢ y.ptr
  apart_ptr q z h o n e = n (l.contexts_apart q c z y h here o open_before e)

  -- An owned value afterwards was one before, of another context.
  before :
      (v : Ptr) (x : Value)
      → w'.engine.go.values v ≡ some x
      → IsOwned x
      → (x.ctx ≢ c) × (w.engine.go.values v ≡ some x)
  before v x e (p, b, n) = (λ z. p (k.nil v x e z b), k.same v x e p)

  wrapped_after :
      (v : Ptr) (x : Value) (z : Context)
      → w'.engine.go.values v ≡ some x
      → IsOwned x
      → w'.engine.go.contexts x.ctx ≡ some z
      → WrapperOf (w'.mem.values x.ptr) z.ptr
  wrapped_after v x z e o h =
      let (n, e') = before v x e o in
      let (z', h', open_z) = owner v x l.tracked e' o in
      let was = sym (k.others x.ctx n) ∙ h in
      let u = l.wrapped v x z e' o was in
      elim (Bool-cases (has x.ptr cc.values)) [
        | inl f ↦ absurd (
            apart_ptr x.ctx z was (ground (arith, was, h', open_z)) n
              (listed_wrapper l.consistent live x.ptr z.ptr f u))
        | inr f ↦ subst (λ r. WrapperOf r z.ptr) (ground (arith, d.values x.ptr, f)) u
      ]

  live_after :
      (q : Ptr) (z : Context)
      → w'.engine.go.contexts q ≡ some z
      → z.closed ≡ false
      → (z.ptr ≢ 0) × (w'.mem.ctxs z.ptr ≢ none)
  live_after q z h o =
      let (n, h') = other q z h o in
      let (a, b) = l.live q z h' o in
      (a, λ e. b (ground (arith, d.ctxs z.ptr, apart_ptr q z h' o n, e)))

  stored_after : AllStored w'.engine.go
  stored_after q z h v e = elim (ℕ_discrete q c) [
    | yes f ↦ ground (arith, k.shut, f)
    | no n ↦ let (a, b) = l.stored q z (sym (k.others q n) ∙ h) v e in (a, k.stays v b)
  ]

  IsClosed-IsLinked : IsLinked w'.engine.go w'.mem
  IsClosed-IsLinked = record {
    tracked = k.kept;
    stored = stored_after;
    consistent = Disposed-IsConsistent l.consistent y.ptr live d;
    wrapped = wrapped_after;
    apart = λ v u x z e f o r q. l.apart v u x z (before v x e o).1 (before u z f r).1 o r q;
    live = live_after;
    contexts_apart =
        λ q r a b e f o i. l.contexts_apart q r a b (other q a e o).1 (other r b f i).1 o i;
  }

-- Close of an open context, where the Go side and C are linked: it ends without a panic or a fault,
-- closes the context as it promises, and leaves the two sides linked.
pub close-IsLinked :
    {E : Type 0} (c : Ptr) (y : Context) (w : World (Native E))
    → IsLinked w.engine.go w.mem
    → c ≢ 0
    → w.engine.go.contexts c ≡ some y
    → y.closed ≡ false
    → (w' : World (Native E)) × (close c w ≡ ok (done tt) w')
      × IsClosed c y w w'
      × IsLinked w'.engine.go w'.mem
close-IsLinked c y w l n h o =
    let (p, a) = l.live c y h o in
    elim (Option-cases (w.mem.ctxs y.ptr)) [
      | inl e ↦ absurd (a e)
      | inr (cc, e) ↦
          let (m, run, d) = context_dispose-Disposed l.consistent y.ptr e in
          let (w', r, k) = close-IsClosed c y w l.tracked (l.stored c y h) n h p o run in
          (
            w',
            r,
            k,
            IsClosed-IsLinked l h o e k
                (subst (Disposed y.ptr cc w.mem) (same_end run k.disposed) d),
          )
    ]
