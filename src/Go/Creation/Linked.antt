-- ===== src/Go/Creation/Linked.antt =====
-- The functions that make a value, on both sides at once: a Go function that enters the isolate of an
-- open context and returns what one call of C wraps.
use gv.Prelude.{
  ℕ, suc, ◌≡◌, ◌≢◌, ◌≤◌, refl, sym, ◌∙◌, subst, ap, false, ◌-◌, List, Option, none, some, arith,
  ne→==, ==_refl,
}
use gv.Memory.{Ptr, Memory}
use gv.Memory.Values as MemValues
use gv.Memory.Invariant.{IsConsistent}
use gv.Run.{World, Run, ok, Cmd}
use gv.Results.{RtnValue}
use gv.Go.{Context, Isolate, Heap, Native, Attempt, done, GoError}
use gv.Go.Access.{Gate, leave_gate}
use gv.Go.Enter.Lent.{Admits, entered, put_gate, enter_lem, leave_lem, leave_gate-enter_gate}
use gv.Go.Values.{add, new_value}
use gv.Go.Values.Made.{tabled}
use gv.Go.Results.{User, value_result}
use gv.Go.Results.Errors.{value_result-IsReported, reported_heap}
use gv.Go.Functions.Refused.{ensure_lem}
use gv.Go.Lifecycle.Linked.{IsLinked}
use gv.Go.Lifecycle.Linked.Sessions.{moved}
use gv.Go.Guards.{valued, Fallible}
use gv.Go.Creation.Answers.{
  IsWrapped, wrapped, failed, Answer, made, refused, IsLeft, wrap_value-holds,
}
use gv.Go.Creation.Grown.{elsewhere, tabled-IsLinked}

module _ {E : Type 0} (user : User E) (ctx : Ptr) (y : Context) (i : Isolate) (gate : Gate)
    (w : World (Native E)) where
  abbrev pub inside : World (Native E)
  inside = record w { engine = record w.engine { go = entered w.engine.go y.iso i gate } }

  -- After the isolate was left.
  abbrev pub left : World (Native E) → Isolate → Gate → World (Native E)
  left b j free = record b {
    engine = record b.engine {
      go = record (put_gate b.engine.go y.iso j free) { locks = b.engine.go.locks - 1 };
    };
  }

  valued_lem :
      (call : Ptr → Cmd (Native E) RtnValue) (rtn : RtnValue) (a b : World (Native E))
      (r : Fallible) (j : Isolate) (free : Gate)
      → ctx ≢ 0
      → w.engine.go.contexts ctx ≡ some y
      → y.closed ≡ false
      → y.ptr ≢ 0
      → Admits w.engine.go y.iso i gate
      → call y.ptr inside ≡ ok rtn a
      → value_result user ctx rtn a ≡ ok (done r) b
      → b.engine.go.isolates y.iso ≡ some j
      → leave_gate b.engine.go.thread j.gate ≡ some free
      → valued user ctx call w ≡ ok (done r) (left b j free)
  unfolding valued gv.Go.◌>>=◌ gv.Go.deferring
  valued_lem call rtn a b r j free n h o p t c v k f =
      rw
        (
          ensure_lem ctx y w.engine.go n h o p,
          h,
          enter_lem t,
          h,
          c,
          v,
          leave_lem b.engine.go y.iso j free k f,
        )
        refl

value_result_some :
    {E : Type 0} (user : User E) (ctx : Ptr) (rtn : RtnValue) (a : World (Native E)) {v : Ptr}
    {g : Heap}
    → rtn.value ≢ 0
    → new_value ctx rtn.value a.engine.go ≡ (done v, g)
    → value_result user ctx rtn a
      ≡ ok (done (v, none)) (record a { engine = record a.engine { go = g } })
unfolding value_result
value_result_some user ctx rtn a n e = rw (ne→== rtn.value 0 n, e) refl

minus_one : (n : ℕ) → suc n - 1 ≡ n
minus_one n = omega arith

module _ {E : Type 0} (user : User E) (ctx : Ptr) (y : Context) (i : Isolate) (gate : Gate)
    (table : List Ptr) (w : World (Native E)) (call : Ptr → Cmd (Native E) RtnValue)
    (l : IsLinked w.engine.go w.mem) (ctx_ne_null : ctx ≢ 0)
    (here : w.engine.go.contexts ctx ≡ some y) (open_now : y.closed ≡ false)
    (lists : y.live_values ≡ some table) (admits : Admits w.engine.go y.iso i gate) where
  abbrev Ends : World (Native E) → Fallible → Type 0
  Ends w' r =
      (valued user ctx call w ≡ ok (done r) w')
      × Answer ctx w w' r
      × IsLeft ctx y i w w' (call y.ptr (inside user ctx y i gate w))

  when_wrapped :
      (rtn : RtnValue) (iso : Ptr) (h : ℕ) (a : World (Native E))
      → call y.ptr (inside user ctx y i gate w) ≡ ok rtn a
      → MemValues.wrap_value y.ptr iso h w.mem ≡ some (rtn.value, a.mem)
      → a.engine.go ≡ entered w.engine.go y.iso i gate
      → (w' : World (Native E)) × (r : Fallible) × Ends w' r
  when_wrapped rtn iso h a c e q =
      let g = entered w.engine.go y.iso i gate in
      let (at, new, k) =
        tabled-IsLinked g w.mem a.mem iso h ctx rtn.value y table (elsewhere _ _ l) ctx_ne_null here
          open_now lists e in
      let (free, f, depth, own) =
        leave_gate-enter_gate w.engine.go.thread i.gate gate admits.admitted in
      let (wrapper, live, holds, others) =
        wrap_value-holds w.mem a.mem y.ptr iso h rtn.value (l.live ctx y here open_now).1 e in
      let g' = tabled g ctx w.mem.next y table in
      let b = record a { engine = record a.engine { go = g' } } in
      (
        left user ctx y i gate w b (record i { gate = gate }) free,
        (g.next, none),
        (
          valued_lem user ctx y i gate w call rtn a b (g.next, none) (record i { gate = gate }) free
              ctx_ne_null here open_now (l.live ctx y here open_now).0 admits c
              (value_result_some user ctx rtn a (λ z. l.consistent.next_ne_null (at ∙ z))
                (subst (λ x. new_value ctx rtn.value x ≡ (done g.next, g')) (sym q) new))
              (ground (arith, ==_refl y.iso)) f,
          made wrapper h (ground (arith, ==_refl w.engine.go.next)) live holds,
          record {
            called = (rtn, a, c, refl);
            linked = elsewhere _ _ k;
            isolate = record i { gate = free };
            free = ground (arith, ==_refl y.iso);
            depth = depth;
            thread = own;
            same_ptr = refl;
            same_hook = refl;
            here = refl;
            unlocked = omega arith;
            table = add w.engine.go.next table;
            owner = ground (arith, ==_refl ctx);
            beside = λ x n. ground arith;
            others = others;
            fresh = λ f x n. ground (arith, f x);
          },
        ),
      )

  -- The world after a report, as the isolate is left.
  when_refused :
      (rtn : RtnValue) (a b : World (Native E)) (err : Option GoError)
      (isolates : Ptr → Option Isolate) (j : Isolate)
      → call y.ptr (inside user ctx y i gate w) ≡ ok rtn a
      → value_result user ctx rtn a ≡ ok (done (0, err)) b
      → IsLinked w.engine.go b.mem
      → b.engine.go ≡ record (entered w.engine.go y.iso i gate) { isolates = isolates }
      → isolates y.iso ≡ some j
      → j.gate ≡ gate
      → j.ptr ≡ i.ptr
      → j.exception_hook ≡ i.exception_hook
      → b.mem.values ≡ w.mem.values
      → b.mem ≡ a.mem
      → (w' : World (Native E)) × (r : Fallible) × Ends w' r
  when_refused rtn a b err isolates j c run k e t same ptr hook values mem =
      let (free, f, depth, own) =
        leave_gate-enter_gate w.engine.go.thread i.gate gate admits.admitted in
      (
        left user ctx y i gate w b j free,
        (0, err),
        (
          valued_lem user ctx y i gate w call rtn a b (0, err) j free ctx_ne_null here open_now
              (l.live ctx y here open_now).0 admits c run
              (ap (λ (g : Heap). g.isolates y.iso) e ∙ t)
              (subst (λ (g : Heap). leave_gate g.thread j.gate ≡ some free) (sym e)
                (subst (λ (x : Gate). leave_gate w.engine.go.thread x ≡ some free) (sym same) f)),
          refused err (ap (λ (g : Heap). g.values) e) values,
          record {
            called = (rtn, a, c, mem);
            linked = elsewhere _ _ (subst (λ g. IsLinked g b.mem) (sym e) (elsewhere isolates _ k));
            isolate = record j { gate = free };
            free = ground (arith, ==_refl y.iso);
            depth = depth;
            thread = own;
            same_ptr = ptr;
            same_hook = hook;
            here = ap (λ (g : Heap). g.thread) e;
            unlocked = ap (λ (g : Heap). g.locks - 1) e ∙ minus_one w.engine.go.locks;
            table = table;
            owner =
                ap (λ (g : Heap). g.contexts ctx) e
                ∙ here
                ∙ ap (λ t. some (record y { live_values = t })) lists;
            beside = λ x n. ap (λ (g : Heap). g.values x) e;
            others = λ q n. ap (λ f. f q) values;
            fresh = λ f x n.
                ap (λ (g : Heap). g.values x) e
                ∙ f x (subst (λ y. y ≤ x) (ap (λ (g : Heap). g.next) e) n);
          },
        ),
      )

  when_failed :
      i.exception_hook ≡ none
      → (rtn : RtnValue) (a : World (Native E)) → call y.ptr (inside user ctx y i gate w) ≡ ok rtn a
      → rtn.value ≡ 0
      → a.mem.ctxs ≡ w.mem.ctxs
      → a.mem.values ≡ w.mem.values
      → IsConsistent a.mem
      → a.engine.go ≡ entered w.engine.go y.iso i gate
      → (w' : World (Native E)) × (r : Fallible) × Ends w' r
  when_failed quiet rtn a c z cs vs k q =
      let j = record i { gate = gate } in
      let t =
        subst (λ (x : Heap). x.isolates y.iso ≡ some j) (sym q) (ground (arith, ==_refl y.iso)) in
      let (b, err, run, report, mem) =
        value_result-IsReported user ctx y j a ctx_ne_null
          (subst (λ (x : Heap). x.contexts ctx ≡ some y) (sym q) here) admits.iso_ne_null t quiet
          rtn z in
      let (isolates, j', e, t', same, ptr, hook) = reported_heap report t in
      when_refused rtn a b err isolates j' c run
        (subst (IsLinked w.engine.go) (sym mem) (moved l cs vs k))
        (e ∙ ap (λ (g : Heap). record g { isolates = isolates }) q) t' same ptr (hook)
        (ap (λ (m : Memory). m.values) mem ∙ vs) mem

  by_end :
      i.exception_hook ≡ none
      → (o : Run (Native E) RtnValue) → call y.ptr (inside user ctx y i gate w) ≡ o
      → IsWrapped y.ptr (inside user ctx y i gate w) o
      → (w' : World (Native E)) × (r : Fallible) × Ends w' r
  by_end quiet o c (wrapped rtn iso h a e q) = when_wrapped rtn iso h a c e q
  by_end quiet o c (failed rtn a z cs vs k q) = when_failed quiet rtn a c z cs vs k q

  -- A function that makes a value with one call of C, such as NewIntegerValue, in an open context with
  -- its table, where the Go side and C are linked, the thread may enter the isolate, the isolate has no
  -- exception handler, and the call of C wraps a value or fails: the function ends without a panic or a
  -- fault. It returns a new Go value that owns the new wrapper, which holds a handle, or nil with the
  -- values and the wrappers as they were; no other value and no other wrapper has changed, the context is
  -- open, the two sides are linked, the isolate is as deep in use as before and the thread locked as often.
  pub valued-IsLinked :
      i.exception_hook ≡ none
      → IsWrapped y.ptr (inside user ctx y i gate w) (call y.ptr (inside user ctx y i gate w))
      → (w' : World (Native E)) × (r : Fallible) × (valued user ctx call w ≡ ok (done r) w')
        × Answer ctx w w' r
        × IsLeft ctx y i w w' (call y.ptr (inside user ctx y i gate w))
  valued-IsLinked quiet k =
      let (w', r, (e, a, f)) = by_end quiet (call y.ptr (inside user ctx y i gate w)) refl k in
      (w', r, e, a, f)
