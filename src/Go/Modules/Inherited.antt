-- ===== src/Go/Modules/Inherited.antt =====
-- gv8ResolveModuleCallback where the resolver finds the module.
use gv.Prelude.{
  ℕ, suc, ◌-◌, ◌≡◌, ◌≢◌, refl, ap, ◌∙◌, false, Option, none, some, List, [], arith, update, ne→==,
  Option-cases, inl, inr, ==_refl,
}
use gv.Prelude.Int.{ℤ}
use gv.Memory.{Ptr}
use gv.Run.{World, ok}
use gv.V8.{Text, CString}
use gv.Go.{Context, Isolate, Module, Heap, Native, done}
use gv.Go.Access.{Gate, leave_gate}
use gv.Go.Enter.Lent.{Admits, entered, must_enter_lem, leave_lem, leave_gate-enter_gate}
use gv.Go.Refs.{get_int, get_context}
use gv.Go.Resolvers.{bind_module_resolver, module_resolver_for_script}
use gv.Go.Resolvers.Bound.{IsBound, bind_module_resolver-IsBound}
use gv.Go.Results.{User, or_empty}
use gv.Go.Creation.{CreationCalls}
use gv.Go.Guards as Guards
use gv.Go.Guards.Valid.{inside, outside}
use gv.Go.Host.{found_value}
use gv.Go.Modules.{ModuleCalls, is_invalid, script_id, bind_resolver}
use gv.Go.Modules.Callbacks.{ModuleUser, resolve_module_callback}

minus_one : (n : ℕ) → suc n - 1 ≡ n
minus_one n = omega arith

-- ScriptID of a valid module: C is asked once, inside the isolate, and the isolate is left again.
script_id_run :
    {E : Type 0} (user : User E) (v : ModuleCalls (Native E)) (m : Ptr) (x : Module) (i : Isolate)
    (gate free : Gate) (id : ℤ) (w : World (Native E))
    → m ≢ 0
    → w.engine.go.modules m ≡ some x
    → x.ptr ≢ 0
    → Admits w.engine.go x.iso i gate
    → leave_gate w.engine.go.thread gate ≡ some free
    → v.module_get_script_id x.ptr (inside w x.iso i gate) ≡ ok id (inside w x.iso i gate)
    → script_id user v m w ≡ ok (done id) (outside w x.iso i gate free)
unfolding script_id is_invalid Guards.entered gv.Go.◌>>=◌ gv.Go.deferring
script_id_run user v m x i gate free id w n h p a f c =
    rw
      (
        ne→== m 0 n,
        h,
        ne→== x.ptr 0 p,
        h,
        must_enter_lem a,
        c,
        leave_lem (entered w.engine.go x.iso i gate) x.iso (record i { gate = gate }) free
            (ground (arith, ==_refl x.iso)) f,
        minus_one w.engine.go.locks,
      )
      refl

-- The world with the object of the referrer.
abbrev pub with_referrer : {E : Type 0} → World (Native E) → Ptr → Ptr → World (Native E)
with_referrer w referrer iso = record w {
  engine = record w.engine {
    go = record w.engine.go {
      next = suc w.engine.go.next;
      modules =
          update w.engine.go.modules w.engine.go.next
            (some (record { ptr = referrer; iso = iso; resource_name = [] }));
    };
  };
}

module _ {E : Type 0} (user : User E) (u : ModuleUser E) (n : CreationCalls (Native E))
    (v : ModuleCalls (Native E)) (ctx_ref : ℤ) (ctx : Ptr) (c : Context) (spec : CString)
    (referrer : Ptr) (w : World (Native E)) where
  abbrev bound_world : World (Native E) → Heap → World (Native E)
  bound_world w2 g = record w2 { engine = record w2.engine { go = g } }

  resolve_run :
      (id id2 : ℤ) (r : ℕ) (m : Ptr) (x : Module) (w1 w2 w3 : World (Native E)) (g : Heap)
      → get_int ctx_ref w.engine.go.ctx_refs ≡ ctx
      → ctx ≢ 0
      → w.engine.go.contexts ctx ≡ some c
      → script_id user v w.engine.go.next (with_referrer w referrer c.iso) ≡ ok (done id) w1
      → module_resolver_for_script ctx id w1.engine.go ≡ (done (some r), w1.engine.go)
      → u.resolve_module r ctx (or_empty spec) w.engine.go.next w1 ≡ ok (done (m, none)) w2
      → (y : Module) → w2.engine.go.modules w.engine.go.next ≡ some y
      → m ≢ 0
      → script_id user v m w2 ≡ ok (done id2) w3
      → w3.engine.go.modules m ≡ some x
      → bind_module_resolver ctx id2 x.resource_name r w3.engine.go ≡ (done tt, g)
      → g.modules m ≡ some x
      → resolve_module_callback user u n v ctx_ref spec referrer w
        ≡ ok (done (found_value x.ptr)) (bound_world w3 g)
  unfolding resolve_module_callback get_context bind_resolver gv.Go.◌>>=◌
  resolve_run id id2 r m x w1 w2 w3 g e k h s t q y a b f d l o =
      rw (e, ne→== ctx 0 k, h, s, t, q, a, ne→== ctx 0 k, ne→== m 0 b, f, d, l, o) refl

-- Who is found for a number rests on the contexts alone.
same_resolver :
    (ctx : Ptr) (id : ℤ) (r : ℕ) (g h : Heap)
    → h.contexts ≡ g.contexts
    → (module_resolver_for_script ctx id g).0 ≡ done (some r)
    → module_resolver_for_script ctx id h ≡ (done (some r), h)
unfolding module_resolver_for_script
same_resolver ctx id r g h e f = elim (Option-cases (g.contexts ctx)) [
  | inl n ↦ ground (arith, f, n, ap (λ (c : Ptr → Option Context). c ctx) e)
  | inr (c, n) ↦ ground (arith, f, n, ap (λ (c : Ptr → Option Context). c ctx) e)
]

-- What the callback leaves: the module is bound to the resolver that found it.
pub record IsInherited {E : Type 0} (ctx : Ptr) (id : ℤ) (name : Text) (r : ℕ)
    (w w' : World (Native E)) : Type 0 where
  pub before : Heap
  pub same : before.contexts ≡ w.engine.go.contexts
  pub bound : IsBound ctx id name r before w'.engine.go
  pub mem : w'.mem ≡ w.mem

-- gv8ResolveModuleCallback for a context that is found, whose isolate the thread may enter, with a
-- resolver under the referrer's script number, which returns a valid module, in an isolate that the thread
-- may enter, and leaves the context open with its tables, where C gives the script numbers and changes
-- nothing: it ends without a panic or a fault and returns the C module. The module is then bound to the
-- same resolver, by its script number unless that is 0 and by its name unless that is empty, so that
-- what it imports in turn is resolved by it; other numbers and names lead where they did, and the memory of
-- C is as the resolver left it.
pub resolve_module_callback-IsInherited :
    {E : Type 0} (user : User E) (u : ModuleUser E) (n : CreationCalls (Native E))
    (v : ModuleCalls (Native E)) (ctx_ref : ℤ) (ctx : Ptr) (c c2 : Context) (spec : CString)
    (referrer : Ptr) (id id2 : ℤ) (r : ℕ) (i i2 : Isolate) (gate free gate2 : Gate) (m : Ptr)
    (x y : Module) (s : List (ℤ × ℕ)) (l : List (Text × ℕ)) (w w2 : World (Native E))
    → get_int ctx_ref w.engine.go.ctx_refs ≡ ctx
    → ctx ≢ 0
    → w.engine.go.contexts ctx ≡ some c
    → w.engine.go.next ≢ 0
    → referrer ≢ 0
    → Admits w.engine.go c.iso i gate
    → leave_gate w.engine.go.thread gate ≡ some free
    → v.module_get_script_id referrer (inside (with_referrer w referrer c.iso) c.iso i gate)
      ≡ ok id (inside (with_referrer w referrer c.iso) c.iso i gate)
    → (module_resolver_for_script ctx id w.engine.go).0 ≡ done (some r)
    → u.resolve_module r ctx
        (or_empty spec)
        w.engine.go.next
        (outside (with_referrer w referrer c.iso) c.iso i gate free)
      ≡ ok (done (m, none)) w2
    → w2.engine.go.modules w.engine.go.next ≡ some y
    → m ≢ 0
    → w2.engine.go.modules m ≡ some x
    → x.ptr ≢ 0
    → Admits w2.engine.go x.iso i2 gate2
    → v.module_get_script_id x.ptr (inside w2 x.iso i2 gate2) ≡ ok id2 (inside w2 x.iso i2 gate2)
    → w2.engine.go.contexts ctx ≡ some c2
    → c2.closed ≡ false
    → c2.module_resolvers_by_script ≡ some s
    → c2.module_resolvers_by_name ≡ some l
    → (w' : World (Native E)) × (resolve_module_callback user u n v ctx_ref spec referrer w
        ≡ ok (done (found_value x.ptr)) w')
      × IsInherited ctx id2 x.resource_name r w2 w'
resolve_module_callback-IsInherited user u n v ctx_ref ctx c c2 spec referrer id id2 r i i2 gate
      free gate2 m x y s l w w2 e k h z p a f q t asks there b d o a2 q2 h2 open_now e1 e2 =
    let (free2, f2, _, _) = leave_gate-enter_gate w2.engine.go.thread i2.gate gate2 a2.admitted in
    let w1 = outside (with_referrer w referrer c.iso) c.iso i gate free in
    let w3 = outside w2 x.iso i2 gate2 free2 in
    let (g, run, bound) =
      bind_module_resolver-IsBound ctx c2 id2 x.resource_name r w3.engine.go s l k h2 open_now e1
        e2 in
    (
      record w3 { engine = record w3.engine { go = g } },
      resolve_run user u n v ctx_ref ctx c spec referrer w id id2 r m x w1 w2 w3 g e k h
          (script_id_run user v w.engine.go.next
            (record { ptr = referrer; iso = c.iso; resource_name = [] }) i gate free id
            (with_referrer w referrer c.iso) z (ground (arith, ==_refl w.engine.go.next)) p
            (record {
              iso_ne_null = a.iso_ne_null;
              here = a.here;
              ptr_ne_null = a.ptr_ne_null;
              admitted = a.admitted;
            })
            f q)
          (same_resolver ctx id r w.engine.go w1.engine.go refl t) asks y there b
          (script_id_run user v m x i2 gate2 free2 id2 w2 b d o a2 f2 q2) d run
          (ap (λ (j : Ptr → Option Module). j m) bound.modules ∙ d),
      record { before = w3.engine.go; same = refl; bound = bound; mem = refl },
    )
