-- ===== src/Go/Functions/Refused.antt =====
-- NewFunction for an isolate that another thread is in.
use gv.Prelude.{
  ℕ, suc, ◌-◌, ◌≡◌, ◌≢◌, refl, false, none, some, List, [], ◌∷◌, arith, ne→==, ==_refl,
}
use gv.Memory.{Ptr}
use gv.Run.{World, ok}
use gv.Go.{Context, Isolate, Heap, Registry, Native, done}
use gv.Go.Access.{enter_gate}
use gv.Go.Enter.{in_use}
use gv.Go.Enter.Lent.{enter-refused}
use gv.Go.Refs.{
  get_ref, register_host_function, unregister_host_functions, register_host, unregister_hosts,
}
use gv.Go.Refs.Fresh.{IsFresh, register_host_function-IsRegistered, unregister_host_functions-get}
use gv.Go.Values.{add, is_closed, track_host_function}
use gv.Go.Values.Tracked.{put_context}
use gv.Go.Results.{User}
use gv.Go.Functions.{FunctionCalls, ensure_open, new_function}

pub ensure_lem :
    (ctx : Ptr) (c : Context) (g : Heap)
    → ctx ≢ 0
    → g.contexts ctx ≡ some c
    → c.closed ≡ false
    → c.ptr ≢ 0
    → ensure_open ctx g ≡ (done none, g)
unfolding ensure_open is_closed
ensure_lem ctx c g n h o p = ground (arith, o)

track_lem :
    (ctx : Ptr) (id : ℕ) (c : Context) (l : List ℕ) (g : Heap)
    → ctx ≢ 0
    → id ≢ 0
    → g.contexts ctx ≡ some c
    → c.closed ≡ false
    → c.host_fn_ids ≡ some l
    → track_host_function ctx id g
      ≡ (done tt, put_context g ctx (record c { host_fn_ids = some (add id l) }))
unfolding track_host_function
track_lem ctx id c l g n m h o e = ground arith

-- To register a function and unregister it leaves every number as it was.
unregister-register :
    (fn : Ptr) (r : Registry)
    → IsFresh r
    → (j : ℕ)
    → get_ref j (
        unregister_host_functions
          ((register_host_function fn r).0 ∷ [])
          (register_host_function fn r).1)
      ≡ get_ref j r
unregister-register fn r i j =
    let k = register_host_function-IsRegistered fn r i in
    let (_, l) =
      unregister_host_functions-get ((register_host_function fn r).0 ∷ [])
        (register_host_function fn r).1 k.kept in
    ground (arith, l j, k.others j, k.new)

module _ {E : Type 0} (user : User E) (v : FunctionCalls (Native E)) (ctx fn : Ptr) (c : Context)
    (i : Isolate) (l : List ℕ) (w : World (Native E)) where
  abbrev entry : ℕ × Registry
  entry = register_host_function fn w.engine.go.host_fn_refs

  -- The heap when NewFunction gives up: the number is still in the context's set.
  abbrev given_up : Heap
  given_up =
      record (put_context w.engine.go ctx (record c { host_fn_ids = some (add entry.0 l) })) {
        host_fn_refs = unregister_host_functions (entry.0 ∷ []) entry.1;
        locks = suc w.engine.go.locks - 1;
      }

  new_function_lem :
      ctx ≢ 0
      → fn ≢ 0
      → w.engine.go.contexts ctx ≡ some c
      → c.closed ≡ false
      → c.ptr ≢ 0
      → c.host_fn_ids ≡ some l
      → entry.0 ≢ 0
      → c.iso ≢ 0
      → w.engine.go.isolates c.iso ≡ some i
      → i.ptr ≢ 0
      → enter_gate w.engine.go.thread i.gate ≡ none
      → new_function user v ctx fn w
        ≡ ok (done (0, some in_use)) (record w { engine = record w.engine { go = given_up } })
  unfolding new_function register_host unregister_hosts
  new_function_lem n f h o p e z k s q t =
      rw
        (
          ensure_lem ctx c w.engine.go n h o p,
          ne→== fn 0 f,
          track_lem ctx entry.0 c l (record w.engine.go { host_fn_refs = entry.1 }) n z h o e,
          ==_refl ctx,
          enter-refused
              (put_context (record w.engine.go { host_fn_refs = entry.1 }) ctx
                (record c { host_fn_ids = some (add entry.0 l) }))
              c.iso i k s q t,
        )
        refl

-- NewFunction for a function that is not nil, in an open context whose isolate another thread is in: it
-- returns no function and the error of enter, every number leads to the host function that it led to
-- before, no value has changed and no lock of the thread is kept.
pub new_function-register_host_function :
    {E : Type 0} (user : User E) (v : FunctionCalls (Native E)) (ctx fn : Ptr) (c : Context)
    (i : Isolate) (l : List ℕ) (w : World (Native E))
    → IsFresh w.engine.go.host_fn_refs
    → ctx ≢ 0
    → fn ≢ 0
    → w.engine.go.contexts ctx ≡ some c
    → c.closed ≡ false
    → c.ptr ≢ 0
    → c.host_fn_ids ≡ some l
    → c.iso ≢ 0
    → w.engine.go.isolates c.iso ≡ some i
    → i.ptr ≢ 0
    → enter_gate w.engine.go.thread i.gate ≡ none
    → (w' : World (Native E)) × (new_function user v ctx fn w ≡ ok (done (0, some in_use)) w')
      × ((j : ℕ) → get_ref j w'.engine.go.host_fn_refs ≡ get_ref j w.engine.go.host_fn_refs)
      × (w'.engine.go.values ≡ w.engine.go.values)
      × (w'.engine.go.locks ≡ w.engine.go.locks)
new_function-register_host_function user v ctx fn c i l w r n f h o p e k s q t =
    let m = register_host_function-IsRegistered fn w.engine.go.host_fn_refs r in
    (
      record w { engine = record w.engine { go = given_up user v ctx fn c i l w } },
      new_function_lem user v ctx fn c i l w n f h o p e m.id_ne_zero k s q t,
      unregister-register fn w.engine.go.host_fn_refs r,
      refl,
      omega arith,
    )
