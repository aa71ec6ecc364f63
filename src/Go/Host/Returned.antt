-- ===== src/Go/Host/Returned.antt =====
-- gv8FunctionCallback where the host function returns a value.
use gv.Prelude.{
  ◌≡◌, ◌≢◌, refl, sym, ◌∙◌, ap, false, not, none, some, List, ◌∷◌, arith, if◌then◌else◌, ne→==,
  ==_refl,
}
use gv.Prelude.Int.{ℤ, pos, ◌==ℤ◌}
use gv.Memory.{Ptr}
use gv.Run.{World, ok}
use gv.Go.{Context, Isolate, Heap, Native, done}
use gv.Go.Access.{Gate}
use gv.Go.Enter.Lent.{Admits, leave_gate-enter_gate, enter_gate_again}
use gv.Go.Refs.{get_int, get_context, lookup_host}
use gv.Go.Values.{has}
use gv.Go.Values.Made.{made}
use gv.Go.Lifecycle.Linked.{IsLinked}
use gv.Go.Results.{User}
use gv.Go.Guards.Valid.{inside, outside}
use gv.Go.Creation.{CreationCalls}
use gv.Go.Creation.Grown.{elsewhere}
use gv.Go.Host.{
  HostCalls, HostUser, FunctionCallbackInfo, function_callback, object_of, give_back, found_value,
  handoff_host_value, borrow_args,
}
use gv.Go.Host.Handoff.{handoff_host_value-IsHandedOff}
use gv.Go.Host.Lent.{
  Lends, AllPointers, lent_value, lent_first, borrow_one, borrow_args-Lends, made-Lends,
  made-IsLinked,
}
use gv.Go.Host.Promises.{IsLent, Respects, IsReturned}
use gv.Go.Host.GivenBack.{give_back_lem, wiped-IsHandedOff, wiped-nil}
use gv.Go.Host.Asked.{object_lem, Lends-Admits, one_of}

module _ {E : Type 0} (user : User E) (v : CreationCalls (Native E)) (calls : HostCalls (Native E))
    (hosts : HostUser E) (ctx_ref callback_id : ℤ) (ctx fn recv : Ptr) (argv : List Ptr)
    (w : World (Native E)) where
  abbrev with_heap : Heap → World (Native E)
  with_heap g = record w { engine = record w.engine { go = g } }

  function_callback_lem :
      (g : Heap) (args : List Ptr) (o p q : Ptr) (w1 w2 w3 w4 : World (Native E))
      → get_int ctx_ref w.engine.go.ctx_refs ≡ ctx
      → get_int callback_id w.engine.go.host_fn_refs ≡ fn
      → ctx ≢ 0
      → fn ≢ 0
      → recv ≢ 0
      → borrow_args ctx argv (made w.engine.go (lent_value ctx recv)) ≡ (done args, g)
      → object_of calls w.engine.go.next (with_heap g) ≡ ok (done o) w1
      → hosts.host_function fn (record { ctx = ctx; this = o; args = args }) w1
        ≡ ok (done (p, none)) w2
      → handoff_host_value calls p w2 ≡ ok (done q) w3
      → give_back w.engine.go.next args w3 ≡ ok (done tt) w4
      → function_callback user v calls hosts ctx_ref callback_id recv argv w
        ≡ ok (done (found_value q)) w4
  unfolding function_callback get_context lookup_host
  function_callback_lem g args o p q w1 w2 w3 w4 e f n m r b t h k s =
      rw (e, f, ne→== ctx 0 n, ne→== fn 0 m, borrow_one ctx recv w.engine.go r, b, t, h, k, s) refl

module _ {E : Type 0} (user : User E) (v : CreationCalls (Native E)) (calls : HostCalls (Native E))
    (hosts : HostUser E) (ctx_ref callback_id : ℤ) (ctx fn recv : Ptr) (argv : List Ptr)
    (y : Context) (i : Isolate) (gate : Gate) (w : World (Native E)) where
  abbrev Called : Ptr → World (Native E) → Type 0
  Called q w' =
      (function_callback user v calls hosts ctx_ref callback_id recv argv w
        ≡ ok (done (found_value q)) w')
      × IsReturned calls hosts fn ctx y (recv ∷ argv) q w w'

  -- What is left to do once the host function was called.
  handed_back :
      (g : Heap) (args : List Ptr) (o : Ptr) (w1 : World (Native E))
      → get_int ctx_ref w.engine.go.ctx_refs ≡ ctx
      → get_int callback_id w.engine.go.host_fn_refs ≡ fn
      → ctx ≢ 0
      → fn ≢ 0
      → recv ≢ 0
      → borrow_args ctx argv (made w.engine.go (lent_value ctx recv)) ≡ (done args, g)
      → Lends w.engine.go g (w.engine.go.next ∷ args)
      → w.engine.go.next ≢ 0
      → w1.engine.go.values ≡ g.values
      → object_of calls w.engine.go.next (record w { engine = record w.engine { go = g } })
        ≡ ok (done o) w1
      → IsLent ctx y
          (recv ∷ argv)
          w
          (w.engine.go.next ∷ args)
          (record { ctx = ctx; this = o; args = args })
          w1
      → Respects calls hosts fn ctx y (recv ∷ argv) w
      → (w' : World (Native E)) × (q : Ptr) × Called q w'
  handed_back g args o w1 e f n m r b k nn same t lent law =
      let this = w.engine.go.next in
      let info : FunctionCallbackInfo = record { ctx = ctx; this = o; args = args } in
      let s = law.answer (this ∷ args) info w1 lent in
      let (w3, q, run, h) =
        handoff_host_value-IsHandedOff calls s.value s.ptr s.home s.owner s.isolate s.gate s.wrapper
          s.handle s.after s.linked s.here s.ptr_ne_null s.home_ne_null s.at_home s.admits s.live
          s.holds s.retained in
      let (values, back, wipes) = give_back_lem this args w3 (λ u z. (
        λ u_z. nn (omega (arith, k.fresh u z)),
        h.stays u (s.stays u (λ x. k.stored u z (ap (λ c. c u) (sym same) ∙ x))),
      )) in
      (
        record w3 { engine = record w3.engine { go = record w3.engine.go { values = values } } },
        q,
        (
          function_callback_lem user v calls hosts ctx_ref callback_id ctx fn recv argv w g args o
              s.value q w1 s.after w3 _ e f n m r b t s.ends run back,
          record {
            lent = this ∷ args;
            info = info;
            before = w1;
            is_lent = lent;
            returns = s;
            handed_off = wiped-IsHandedOff (this ∷ args) values h wipes;
            nil = λ u x z c.
                wiped-nil (has u (this ∷ args)) (w3.engine.go.values u) x z (sym (wipes u) ∙ c);
          },
        ),
      )

  -- gv8FunctionCallback for a context that is found, open, and of an isolate that the thread may enter, a
  -- host function that is found, and a receiver and arguments that are not null, where the Go side and C
  -- are linked, C can tell whether the receiver is an object, and the host function keeps its promise: to
  -- return an owned value that C can retain, and to leave the two sides linked and every value in
  -- place. It ends without a panic or a fault. The host function was called with a new value for the
  -- receiver and one for each argument, in their order, which it borrows and does not own;
  -- C gets a live wrapper with the handle of the value that was returned, which no Go value owns; that
  -- value and all that was lent are nil, and the two sides are linked.
  pub function_callback-IsReturned :
      IsLinked w.engine.go w.mem
      → get_int ctx_ref w.engine.go.ctx_refs ≡ ctx
      → get_int callback_id w.engine.go.host_fn_refs ≡ fn
      → ctx ≢ 0
      → fn ≢ 0
      → recv ≢ 0
      → AllPointers argv
      → w.engine.go.contexts ctx ≡ some y
      → y.closed ≡ false
      → Admits w.engine.go y.iso i gate
      → ((u : World (Native E)) → u.mem ≡ w.mem → (r : ℤ) × (calls.value_is_object recv u ≡ ok r u))
      → Respects calls hosts fn ctx y (recv ∷ argv) w
      → (w' : World (Native E)) × (q : Ptr) × (function_callback user v calls hosts ctx_ref
            callback_id recv argv w
          ≡ ok (done (found_value q)) w')
        × IsReturned calls hosts fn ctx y (recv ∷ argv) q w w'
  function_callback-IsReturned l e f n m r pointers h o a reads law =
      let this = w.engine.go.next in
      let (g, args, run, k, borrowed, lg) =
        borrow_args-Lends ctx argv (made w.engine.go (lent_value ctx recv)) w.mem pointers
          (made-IsLinked ctx recv l) in
      let all = made-Lends ctx recv w.engine.go g args k in
      let a' = Lends-Admits all a in
      let (free, left, depth, own) = leave_gate-enter_gate g.thread i.gate gate a'.admitted in
      let (gate', again) = enter_gate_again g.thread i.gate gate free a'.admitted depth own in
      let w0 : World (Native E) = record w { engine = record w.engine { go = g } } in
      let (c, ask) = reads (inside w0 y.iso i gate) refl in
      let w1 = outside w0 y.iso i gate free in
      let (w', q, (s, t)) =
        handed_back g args (if not (c ==ℤ pos 0) then this else 0) w1 e f n m r run all
          l.tracked.next_ne_null refl
          (object_lem calls this (lent_value ctx recv) y i gate free c w0 l.tracked.next_ne_null
            (lent_first w.engine.go ctx recv k) r n (ap (λ z. z ctx) all.contexts ∙ h) o
            (l.live ctx y h o).0 a' left ask)
          (record {
            context = refl;
            this = this;
            all = refl;
            borrowed = (lent_first w.engine.go ctx recv k, borrowed);
            object = one_of (not (c ==ℤ pos 0)) this;
            others = all.others;
            fresh = all.fresh;
            contexts = all.contexts;
            mem = refl;
            linked = elsewhere _ _ lg;
            entry = (
              record i { gate = free },
              gate',
              record {
                iso_ne_null = a.iso_ne_null;
                here = ground (arith, ==_refl y.iso);
                ptr_ne_null = a.ptr_ne_null;
                admitted = again;
              },
            );
          })
          law in
      (w', q, s, t)
