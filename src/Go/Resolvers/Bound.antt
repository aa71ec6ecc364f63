-- ===== src/Go/Resolvers/Bound.antt =====
-- Which resolver is found after bindModuleResolver.
use gv.Prelude.{ℕ, ◌≡◌, ◌≢◌, refl, false, some, List, [], ◌∷◌, arith, if◌then◌else◌, update}
use gv.Prelude.Int.{ℤ, pos, ◌==ℤ◌}
use gv.Memory.{Ptr}
use gv.V8.{Text}
use gv.Go.{Context, Heap, done}
use gv.Go.Resolvers.{
  ◌==T◌, bound, bind_module_resolver, module_resolver_for_script, module_resolver_for_resource,
}

-- What is found after the binding, for every number and name.
pub record IsBound (ctx : Ptr) (id : ℤ) (name : Text) (r : ℕ) (g g' : Heap) : Type 0 where
  pub by_script :
      (j : ℤ)
      → j ≢ pos 0
      → (module_resolver_for_script ctx j g').0
        ≡ (if id ==ℤ j then done (some r) else (module_resolver_for_script ctx j g).0)
  pub by_name :
      (n : Text)
      → n ≢ []
      → (module_resolver_for_resource ctx n g').0
        ≡ (if name ==T n then done (some r) else (module_resolver_for_resource ctx n g).0)
  pub values : g'.values ≡ g.values
  pub modules : g'.modules ≡ g.modules
  pub contexts : (d : Ptr) → d ≢ ctx → g'.contexts d ≡ g.contexts d

by_script_lem :
    (ctx : Ptr) (c : Context) (id : ℤ) (name : Text) (r : ℕ) (g : Heap) (l : List (ℤ × ℕ)) (j : ℤ)
    → ctx ≢ 0
    → g.contexts ctx ≡ some c
    → c.module_resolvers_by_script ≡ some l
    → j ≢ pos 0
    → (module_resolver_for_script ctx j
        (record g { contexts = update g.contexts ctx (some (bound c id name r)) })).0
      ≡ (if id ==ℤ j then done (some r) else (module_resolver_for_script ctx j g).0)
unfolding module_resolver_for_script
by_script_lem ctx c id name r g l j n h e o = ground arith

by_name_lem :
    (ctx : Ptr) (c : Context) (id : ℤ) (name : Text) (r : ℕ) (g : Heap) (l : List (Text × ℕ))
    (n : Text)
    → ctx ≢ 0
    → g.contexts ctx ≡ some c
    → c.module_resolvers_by_name ≡ some l
    → n ≢ []
    → (module_resolver_for_resource ctx n
        (record g { contexts = update g.contexts ctx (some (bound c id name r)) })).0
      ≡ (if name ==T n then done (some r) else (module_resolver_for_resource ctx n g).0)
unfolding module_resolver_for_resource
by_name_lem ctx c id [] r g l [] m h e o = absurd (o refl)
by_name_lem ctx c id [] r g l (b ∷ n) m h e o = ground arith
by_name_lem ctx c id (a ∷ name) r g l n m h e o = ground arith

bind_lem :
    (ctx : Ptr) (c : Context) (id : ℤ) (name : Text) (r : ℕ) (g : Heap)
    → ctx ≢ 0
    → g.contexts ctx ≡ some c
    → c.closed ≡ false
    → bind_module_resolver ctx id name r g
      ≡ (done tt, record g { contexts = update g.contexts ctx (some (bound c id name r)) })
unfolding bind_module_resolver
bind_lem ctx c id name r g n h o = ground arith

-- bindModuleResolver for a module and a resolver that are not nil, in an open context with its tables: the
-- resolver is found under the module's number, unless that is 0, and under its name, unless that is
-- empty; every other number and name leads where it did, and no other context, no value and no module has changed.
pub bind_module_resolver-IsBound :
    (ctx : Ptr) (c : Context) (id : ℤ) (name : Text) (r : ℕ) (g : Heap) (s : List (ℤ × ℕ))
    (l : List (Text × ℕ))
    → ctx ≢ 0
    → g.contexts ctx ≡ some c
    → c.closed ≡ false
    → c.module_resolvers_by_script ≡ some s
    → c.module_resolvers_by_name ≡ some l
    → (g' : Heap) × (bind_module_resolver ctx id name r g ≡ (done tt, g'))
      × IsBound ctx id name r g g'
bind_module_resolver-IsBound ctx c id name r g s l n h o e f = (
  record g { contexts = update g.contexts ctx (some (bound c id name r)) },
  bind_lem ctx c id name r g n h o,
  record {
    by_script = λ j z. by_script_lem ctx c id name r g s j n h e z;
    by_name = λ q z. by_name_lem ctx c id name r g l q n h f z;
    values = refl;
    modules = refl;
    contexts = λ d z. ground arith;
  },
)
