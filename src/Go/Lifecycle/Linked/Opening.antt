-- ===== src/Go/Lifecycle/Linked/Opening.antt =====
-- NewContext on both sides at once.
use gv.Prelude.{
  ℕ, suc, ◌≡◌, ◌≢◌, refl, sym, ◌∙◌, subst, ap, false, Option, none, some, arith, inl, inr, ◌⊎◌,
  ==_refl, ne→==,
}
use gv.Prelude.Int.{ℤ, int_of}
use native.Mathlib.Decide.{ℕ_discrete}
use gv.Memory.{Ptr, Memory, Gv8Value}
use gv.Go.Refs.Fresh.{get-set}
use gv.Memory.Invariant.{IsConsistent}
use gv.Run.{World, ok, Cmd}
use gv.Go.{Context, Isolate, Value, Heap, Native, done}
use gv.Go.Refs.{get_ref, set_ref, next_ref, next_context_ref, set_context}
use gv.Go.Values.Tracked.{IsTracked, put_context}
use gv.Go.Lifecycle.{new_context, opened}
use gv.Go.Lifecycle.Linked.{IsLinked, IsOwned, WrapperOf, AllStored, owner}

-- What NewContext needs of GV8NewContext: a C context at a new address; nothing else of the tables of
-- C, and nothing of the Go side, has changed.
pub record IsNew {E : Type 0} (p : Ptr) (w w' : World (Native E)) : Type 0 where
  pub address : p ≡ w.mem.next
  pub there : w'.mem.ctxs p ≢ none
  pub ctxs : (q : Ptr) → q ≢ p → w'.mem.ctxs q ≡ w.mem.ctxs q
  pub values : w'.mem.values ≡ w.mem.values
  pub consistent : IsConsistent w'.mem
  pub go : w'.engine.go ≡ w.engine.go

-- The world after the number is given out, and the heap with the context.
abbrev pub numbered : {E : Type 0} → World (Native E) → World (Native E)
numbered w = record w {
  engine = record w.engine {
    go = record w.engine.go { ctx_refs = (next_ref w.engine.go.ctx_refs).1 };
  };
}

abbrev opened_heap : Heap → ℕ → Ptr → Ptr → Heap
opened_heap g ref iso p = record (put_context g g.next (opened ref iso p)) {
  next = suc g.next;
  ctx_refs = set_ref ref g.next g.ctx_refs;
}

module _ {E : Type 0} (make : Ptr → ℤ → Cmd (Native E) Ptr) (iso p : Ptr) (i : Isolate)
    (w a : World (Native E)) where
  abbrev final : World (Native E)
  final = record {
    engine = record {
      v8 = a.engine.v8;
      go = opened_heap a.engine.go (suc w.engine.go.ctx_refs.seq) iso p;
    };
    mem = a.mem;
  }

  new_context_lem :
      iso ≢ 0
      → w.engine.go.isolates iso ≡ some i
      → make i.ptr (int_of (suc w.engine.go.ctx_refs.seq)) (numbered w) ≡ ok p a
      → new_context make iso w ≡ ok (done a.engine.go.next) final
  unfolding new_context next_context_ref set_context next_ref
  new_context_lem n h m = rw (ne→== iso 0 n, h, m, ==_refl a.engine.go.next) refl

module _ {g : Heap} {m m' : Memory} (ref : ℕ) (iso p : Ptr) (l : IsLinked g m)
    (free : g.contexts g.next ≡ none) (address : p ≡ m.next) (there : m'.ctxs p ≢ none)
    (ctxs : (q : Ptr) → q ≢ p → m'.ctxs q ≡ m.ctxs q) (values : m'.values ≡ m.values)
    (consistent : IsConsistent m') where
  -- A context afterwards is the new one, or was one before.
  old :
      (q : Ptr) (z : Context)
      → (opened_heap g ref iso p).contexts q ≡ some z
      → (q ≡ g.next) × (z ≡ opened ref iso p) ⊎ (q ≢ g.next) × (g.contexts q ≡ some z)
  old q z h = elim (ℕ_discrete g.next q) [
    | yes e ↦ inl (sym e, ground (arith, e))
    | no n ↦ inr (λ e. n (sym e), ground arith)
  ]

  -- The C context of an open context is not the new one.
  old_ptr : (q : Ptr) (z : Context) → g.contexts q ≡ some z → z.closed ≡ false → z.ptr ≢ p
  old_ptr q z h o e =
      let (_, a) = l.live q z h o in a (l.consistent.unused_ctx z.ptr (ground (arith, e, address)))

  owned_before : (v : Ptr) (x : Value) → g.values v ≡ some x → IsOwned x → x.ctx ≢ g.next
  owned_before v x e o n = let (z, h, _) = owner v x l.tracked e o in ground (arith, free, h, n)

  tracked_after : IsTracked (opened_heap g ref iso p)
  tracked_after = record {
    tracked = λ v x n e a b c.
        ground (arith, l.tracked.tracked v x n e a b c, owned_before v x e (a, b, c));
    null_value = l.tracked.null_value;
    next_ne_null = omega arith;
  }

  wrapped_after :
      (v : Ptr) (x : Value) (z : Context)
      → g.values v ≡ some x
      → IsOwned x
      → (opened_heap g ref iso p).contexts x.ctx ≡ some z
      → WrapperOf (m'.values x.ptr) z.ptr
  wrapped_after v x z e o h = elim (old x.ctx z h) [
    | inl (n, _) ↦ absurd (owned_before v x e o n)
    | inr (_, r) ↦
        subst (λ (f : Ptr → Option Gv8Value). WrapperOf (f x.ptr) z.ptr) (sym values)
          (l.wrapped v x z e o r)
  ]

  live_after :
      (q : Ptr) (z : Context)
      → (opened_heap g ref iso p).contexts q ≡ some z
      → z.closed ≡ false
      → (z.ptr ≢ 0) × (m'.ctxs z.ptr ≢ none)
  live_after q z h o = elim (old q z h) [
    | inl (_, e) ↦
        (λ b. there (ground (arith, e, b, consistent.null_ctx)), λ b. there (ground (arith, e, b)))
    | inr (n, r) ↦
        let (b, c) = l.live q z r o in (b, λ f. c (sym (ctxs z.ptr (old_ptr q z r o)) ∙ f))
  ]

  stored_after : AllStored (opened_heap g ref iso p)
  stored_after q z h u e = elim (old q z h) [
    | inl (_, r) ↦ ground (arith, r, e)
    | inr (n, r) ↦ l.stored q z r u e
  ]

  apart_after :
      (q r : Ptr) (a b : Context)
      → (opened_heap g ref iso p).contexts q ≡ some a
      → (opened_heap g ref iso p).contexts r ≡ some b
      → a.closed ≡ false
      → b.closed ≡ false
      → a.ptr ≡ b.ptr
      → q ≡ r
  apart_after q r a b e f o s i = elim (old q a e) [
    | inl (c, d) ↦ elim (old r b f) [
      | inl (c', _) ↦ c ∙ sym c'
      | inr (_, j) ↦ absurd (old_ptr r b j s (sym i ∙ ap (λ (x : Context). x.ptr) d))
    ]
    | inr (_, j) ↦ elim (old r b f) [
      | inl (_, d) ↦ absurd (old_ptr q a j o (i ∙ ap (λ (x : Context). x.ptr) d))
      | inr (_, k) ↦ l.contexts_apart q r a b j k o s i
    ]
  ]

  opened-IsLinked : IsLinked (opened_heap g ref iso p) m'
  opened-IsLinked = record {
    tracked = tracked_after;
    stored = stored_after;
    consistent = consistent;
    wrapped = wrapped_after;
    apart = l.apart;
    live = live_after;
    contexts_apart = apart_after;
  }

numbered-IsLinked :
    {E : Type 0} (w : World (Native E))
    → IsLinked w.engine.go w.mem
    → IsLinked (numbered w).engine.go w.mem
numbered-IsLinked w l = record {
  tracked = record {
    tracked = l.tracked.tracked;
    null_value = l.tracked.null_value;
    next_ne_null = l.tracked.next_ne_null;
  };
  stored = l.stored;
  consistent = l.consistent;
  wrapped = l.wrapped;
  apart = l.apart;
  live = l.live;
  contexts_apart = l.contexts_apart;
}

-- NewContext for an isolate that is not nil, where the Go side and C are linked, the address of the new
-- object is free, and GV8NewContext gives a new C context: it returns an open context for this isolate
-- and this C context, with empty tables; its number, which GV8NewContext was given, leads to it; and
-- the two sides are linked.
pub new_context-IsLinked :
    {E : Type 0} (make : Ptr → ℤ → Cmd (Native E) Ptr) (iso p : Ptr) (i : Isolate)
    (w a : World (Native E))
    → IsLinked w.engine.go w.mem
    → iso ≢ 0
    → w.engine.go.isolates iso ≡ some i
    → w.engine.go.contexts w.engine.go.next ≡ none
    → make i.ptr (int_of (suc w.engine.go.ctx_refs.seq)) (numbered w) ≡ ok p a
    → IsNew p (numbered w) a
    → (w' : World (Native E)) × (new_context make iso w ≡ ok (done w.engine.go.next) w')
      × (w'.engine.go.contexts w.engine.go.next
          ≡ some (opened (suc w.engine.go.ctx_refs.seq) iso p))
      × (get_ref (suc w.engine.go.ctx_refs.seq) w'.engine.go.ctx_refs ≡ w.engine.go.next)
      × IsLinked w'.engine.go w'.mem
new_context-IsLinked make iso p i w a l n h f m k =
    let next = ap (λ (g : Heap). g.next) k.go in
    let linked = subst (λ g. IsLinked g w.mem) (sym k.go) (numbered-IsLinked w l) in
    let empty = subst (λ (g : Heap). g.contexts g.next ≡ none) (sym k.go) f in
    (
      final make iso p i w a,
      new_context_lem make iso p i w a n h m ∙ ap (λ q. ok (done q) (final make iso p i w a)) next,
      ground (arith, next),
      get-set (suc w.engine.go.ctx_refs.seq) a.engine.go.next a.engine.go.ctx_refs ∙ next,
      opened-IsLinked (suc w.engine.go.ctx_refs.seq) iso p linked empty k.address k.there k.ctxs
          k.values k.consistent,
    )
