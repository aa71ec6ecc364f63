-- ===== src/Go/Isolates/Disposed.antt =====
-- Dispose of an isolate: what is left of it.
use gv.Prelude.{
  ℕ, suc, ◌-◌, ◌≡◌, ◌≢◌, refl, some, arith, ◌==◌, if◌then◌else◌, update, ne→==, ==_refl,
}
use gv.Prelude.Int.{ℤ, pos}
use gv.Memory.{Ptr, Memory}
use gv.Run.{World, ok}
use gv.V8.{RtnError}
use gv.Go.{Isolate, Heap, Native, done}
use gv.Go.Access.{Gate, leave_gate}
use gv.Go.Enter.{enter, nil_isolate}
use gv.Go.Enter.Lent.{Admits, entered, put_gate, must_enter_lem, leave_lem, leave_gate-enter_gate}
use gv.Go.Refs.{get_ref, get_int, delete_ref, delete_isolate_ref, get_isolate_ref}
use gv.Go.Refs.Fresh.{IsFresh, get-delete}
use gv.Go.Guards as Guards
use gv.Go.Isolates.{IsolateCalls, is_disposed, dispose}
use gv.Go.Isolates.Handlers.{RejectionUser, promise_reject_callback}

module _ {E : Type 0} (iso : Ptr) (i : Isolate) (gate : Gate) (w : World (Native E)) (e : E)
    (m : Memory) where
  -- The Go side as GV8IsolateDispose is called.
  abbrev unlisted : Heap
  unlisted = record (entered w.engine.go iso i gate) {
    isolate_refs = delete_ref i.ref w.engine.go.isolate_refs;
  }

  abbrev pub calling : World (Native E)
  calling = record w { engine = record w.engine { go = unlisted } }

  abbrev pub called : World (Native E)
  called = record { engine = record { v8 = e; go = unlisted }; mem = m }

module _ {E : Type 0} (v : IsolateCalls (Native E)) (iso : Ptr) (i : Isolate) (gate free : Gate)
    (w : World (Native E)) (e : E) (m : Memory) where
  abbrev gone : Isolate
  gone = record i { ptr = 0; gate = gate }

  abbrev emptied : Heap
  emptied =
      let g = unlisted iso i gate w e m in record g { isolates = update g.isolates iso (some gone) }

  -- The world at the end.
  abbrev final : World (Native E)
  final = record {
    engine = record {
      v8 = e;
      go = record (put_gate emptied iso gone free) { locks = w.engine.go.locks };
    };
    mem = m;
  }

  dispose_lem :
      Admits w.engine.go iso i gate
      → leave_gate w.engine.go.thread gate ≡ some free
      → v.isolate_dispose i.ptr (calling iso i gate w e m) ≡ ok tt (called iso i gate w e m)
      → dispose v iso w ≡ ok (done tt) final
  unfolding dispose is_disposed delete_isolate_ref gv.Go.◌>>=◌ Guards.entered gv.Go.deferring
  dispose_lem a f c =
      rw
        (
          ne→== iso 0 a.iso_ne_null,
          a.here,
          ne→== i.ptr 0 a.ptr_ne_null,
          a.here,
          must_enter_lem a,
          c,
          ==_refl iso,
          leave_lem emptied iso gone free (ground (arith, ==_refl iso)) f,
          minus_one w.engine.go.locks,
        )
        refl
    where
      minus_one : (n : ℕ) → suc n - 1 ≡ n
      minus_one n = omega arith

-- The isolate has no pointer, is as deep in use as before, and its number leads to nothing: a rejected
-- promise of it is not heard of, no thread can enter it, and a second Dispose does nothing.
pub record IsGone {E : Type 0} (v : IsolateCalls (Native E)) (iso : Ptr) (i : Isolate)
    (w w' : World (Native E)) : Type 0 where
  pub nil :
      (j : Isolate) × (w'.engine.go.isolates iso ≡ some j)
      × (j.ptr ≡ 0)
      × (j.gate.depth ≡ i.gate.depth)
  pub unlisted :
      (k : ℕ)
      → get_ref k w'.engine.go.isolate_refs
        ≡ (if i.ref == k then 0 else get_ref k w.engine.go.isolate_refs)
  pub unheard :
      (u : RejectionUser E) (event : ℤ) (rtn : RtnError)
      → promise_reject_callback u (pos i.ref) event rtn w' ≡ ok (done tt) w'
  pub barred : enter iso w'.engine.go ≡ (done (some nil_isolate), w'.engine.go)
  pub again : dispose v iso w' ≡ ok (done tt) w'
  pub others : (q : Ptr) → q ≢ iso → w'.engine.go.isolates q ≡ w.engine.go.isolates q
  pub contexts : w'.engine.go.contexts ≡ w.engine.go.contexts
  pub values : w'.engine.go.values ≡ w.engine.go.values
  pub unlocked : w'.engine.go.locks ≡ w.engine.go.locks

unheard_lem :
    {E : Type 0} (u : RejectionUser E) (k : ℕ) (event : ℤ) (rtn : RtnError) (w : World (Native E))
    → get_ref k w.engine.go.isolate_refs ≡ 0
    → promise_reject_callback u (pos k) event rtn w ≡ ok (done tt) w
unfolding promise_reject_callback get_isolate_ref get_int gv.Go.◌>>=◌
unheard_lem u k event rtn w e = rw e refl

again_lem :
    {E : Type 0} (v : IsolateCalls (Native E)) (iso : Ptr) (i : Isolate) (w : World (Native E))
    → iso ≢ 0
    → w.engine.go.isolates iso ≡ some i
    → i.ptr ≡ 0
    → dispose v iso w ≡ ok (done tt) w
unfolding dispose is_disposed gv.Go.◌>>=◌
again_lem v iso i w n h z = rw (ne→== iso 0 n, h, z) refl

barred_lem :
    (iso : Ptr) (i : Isolate) (g : Heap)
    → iso ≢ 0
    → g.isolates iso ≡ some i
    → i.ptr ≡ 0
    → enter iso g ≡ (done (some nil_isolate), g)
unfolding enter
barred_lem iso i g n h z = rw (ne→== iso 0 n, h, z) refl

-- Dispose of an isolate that the thread may enter, whose number stands in a table where no number stands
-- twice, where GV8IsolateDispose ends and leaves the Go side alone: it ends without a panic or a fault,
-- after one call of GV8IsolateDispose. Afterwards the isolate has no pointer and is as deep in use as
-- before, its number leads to nothing and every other number leads where it did; a rejected promise that
-- is reported under its number changes nothing, no thread can enter it, a second Dispose changes nothing,
-- and other isolates, contexts and values are as they were.
pub dispose-IsGone :
    {E : Type 0} (v : IsolateCalls (Native E)) (iso : Ptr) (i : Isolate) (gate : Gate)
    (w : World (Native E)) (e : E) (m : Memory)
    → IsFresh w.engine.go.isolate_refs
    → Admits w.engine.go iso i gate
    → v.isolate_dispose i.ptr (calling iso i gate w e m) ≡ ok tt (called iso i gate w e m)
    → (w' : World (Native E)) × (dispose v iso w ≡ ok (done tt) w') × IsGone v iso i w w'
dispose-IsGone v iso i gate w e m fresh a c =
    let (free, f, depth, _) = leave_gate-enter_gate w.engine.go.thread i.gate gate a.admitted in
    let w' = final v iso i gate free w e m in
    let j = record i { ptr = 0; gate = free } in
    let here : w'.engine.go.isolates iso ≡ some j = ground (arith, ==_refl iso) in
    let unlisted = λ (k : ℕ). get-delete k i.ref w.engine.go.isolate_refs fresh in
    (
      w',
      dispose_lem v iso i gate free w e m a f c,
      record {
        nil = (j, here, refl, depth);
        unlisted = unlisted;
        unheard = λ u event rtn.
            unheard_lem u i.ref event rtn w' (ground (arith, unlisted i.ref, ==_refl i.ref));
        barred = barred_lem iso j w'.engine.go a.iso_ne_null here refl;
        again = again_lem v iso j w' a.iso_ne_null here refl;
        others = λ q n. ground arith;
        contexts = refl;
        values = refl;
        unlocked = refl;
      },
    )
