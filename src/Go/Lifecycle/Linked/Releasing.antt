-- ===== src/Go/Lifecycle/Linked/Releasing.antt =====
-- Release on both sides at once.
use gv.Prelude.{◌≡◌, ◌≢◌, refl, sym, ◌∙◌, subst, false, none, some, arith, Option-cases, inl, inr}
use native.Mathlib.Decide.{ℕ_discrete}
use gv.Memory.{Ptr, Memory, Gv8Value}
use gv.Memory.Values as MemValues
use gv.Memory.Invariant.{IsConsistent}
use gv.Memory.Release.{Released, release_borrowed, release_tracked, value_release-live}
use gv.Run.{World, ok}
use gv.Go.{Context, Isolate, Value, Native, done}
use gv.Go.Access.{Gate}
use gv.Go.Enter.Lent.{Admits}
use gv.Go.Lifecycle.{release}
use gv.Go.Lifecycle.Release.{IsReleased, release-IsReleased, owned}
use gv.Go.Lifecycle.Linked.{IsLinked, IsOwned, WrapperOf, AllStored, same_end}

-- GV8ValueRelease takes no context away.
ctxs_stay :
    {m m' : Memory}
    → IsConsistent m
    → (q : Ptr) (a : Gv8Value) → m.values q ≡ some a
    → MemValues.value_release q m ≡ some (tt, m')
    → (p : Ptr) → m.ctxs p ≢ none
    → m'.ctxs p ≢ none
ctxs_stay {m} i q a h r p e = elim (ℕ_discrete a.id 0) [
  | yes z ↦
      let s = same_end r (release_borrowed m q h (ground (arith, i.null_value)) z) in
      ground (arith, s)
  | no z ↦ elim (Option-cases (m.ctxs a.ctx)) [
    | inl n ↦ absurd (ground (arith, i.listed q a h z, n))
    | inr (c, n) ↦
        let s = same_end r (
          release_tracked m q h c (ground (arith, i.null_value)) z (ground (arith, i.null_ctx))
            n) in
        ground (arith, s)
  ]
]

module _ {E : Type 0} {w w' : World (Native E)} {v p d iso : Ptr} {i : Isolate} {a : Gv8Value}
    (l : IsLinked w.engine.go w.mem) (here : w.engine.go.values v ≡ some (owned p d))
    (own : IsOwned (owned p d)) (live : w.mem.values p ≡ some a) (k : IsReleased v p iso i w w')
    (r : Released w.mem p w'.mem) where
  -- An owned value afterwards is another one, and was as it is.
  before :
      (u : Ptr) (x : Value)
      → w'.engine.go.values u ≡ some x
      → IsOwned x
      → (u ≢ v) × (w.engine.go.values u ≡ some x)
  before u x e o = elim (ℕ_discrete u v) [
    | yes q ↦ absurd (o.0 (k.nil x (ground (arith, q, e))))
    | no n ↦ (n, sym (k.others u n) ∙ e)
  ]

  wrapped_after :
      (u : Ptr) (x : Value) (z : Context)
      → w'.engine.go.values u ≡ some x
      → IsOwned x
      → w'.engine.go.contexts x.ctx ≡ some z
      → WrapperOf (w'.mem.values x.ptr) z.ptr
  wrapped_after u x z e o h =
      let (n, e') = before u x e o in
      let (y, h', same, _, _) = k.contexts x.ctx z h in
      let other : x.ptr ≢ p = λ q. n (l.apart u v x (owned p d) e' here o own q) in
      let t = l.wrapped u x y e' o h' in
      subst (WrapperOf (w'.mem.values x.ptr)) (sym same)
        (subst (λ b. WrapperOf b y.ptr) (sym (r.others x.ptr other)) t)

  live_after :
      (q : Ptr) (z : Context)
      → w'.engine.go.contexts q ≡ some z
      → z.closed ≡ false
      → (z.ptr ≢ 0) × (w'.mem.ctxs z.ptr ≢ none)
  live_after q z h o =
      let (y, h', same, closed, _) = k.contexts q z h in
      let (b, c) = l.live q y h' (sym closed ∙ o) in
      (
        λ e. b (sym same ∙ e),
        subst (λ s. w'.mem.ctxs s ≢ none) (sym same)
            (ctxs_stay l.consistent p a live k.freed y.ptr c),
      )

  stored_after : AllStored w'.engine.go
  stored_after q z h u e =
      let (y, h', _, _, less) = k.contexts q z h in
      let (b, c) = l.stored q y h' u (less u e) in
      (
        b,
        elim (ℕ_discrete u v) [
          | yes f ↦ λ n. k.stays (ground (arith, f, n))
          | no n ↦ λ f. c (sym (k.others u n) ∙ f)
        ],
      )

  IsReleased-IsLinked : IsLinked w'.engine.go w'.mem
  IsReleased-IsLinked = record {
    tracked = k.kept;
    stored = stored_after;
    consistent = r.consistent;
    wrapped = wrapped_after;
    apart = λ u t x z e f o s q. l.apart u t x z (before u x e o).1 (before t z f s).1 o s q;
    live = live_after;
    contexts_apart = λ q t x z e f o s g.
        let (y, h, same, closed, _) = k.contexts q x e in
        let (b, j, same', closed', _) = k.contexts t z f in
        l.contexts_apart q t y b h j (sym closed ∙ o) (sym closed' ∙ s) (sym same ∙ g ∙ same');
  }

-- Release of an owned value, where the Go side and C are linked and the thread may enter the isolate:
-- it ends without a panic or a fault, releases the value as it promises, and leaves the two sides linked.
pub release-IsLinked :
    {E : Type 0} (v p d : Ptr) (c : Context) (i : Isolate) (gate : Gate) (w : World (Native E))
    → IsLinked w.engine.go w.mem
    → w.engine.go.values v ≡ some (owned p d)
    → p ≢ 0
    → d ≢ 0
    → w.engine.go.contexts d ≡ some c
    → Admits w.engine.go c.iso i gate
    → (w' : World (Native E)) × (release v w ≡ ok (done tt) w')
      × IsReleased v p c.iso i w w'
      × IsLinked w'.engine.go w'.mem
release-IsLinked v p d c i gate w l e n m h t = elim (Option-cases (w.mem.values p)) [
  | inl q ↦ absurd (ground (arith, l.wrapped v (owned p d) c e (n, refl, m) h, q))
  | inr (a, q) ↦
      let (_, run, r) = value_release-live l.consistent p q in
      let (w', s, k) = release-IsReleased v p d c i gate w l.tracked e n m h t run in
      (
        w',
        s,
        k,
        IsReleased-IsLinked l e (n, refl, m) q k
            (subst (Released w.mem p) (same_end run k.freed) r),
      )
]
