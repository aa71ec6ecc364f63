-- ===== src/Go/Refs.antt =====
-- The global tables that give numbers to objects, which C passes back: isolate.go nextIsolateRef,
-- setIsolateRef, deleteIsolateRef, getIsolateRef; context.go setContext, deleteContext, getContext;
-- host.go registerHostFunction, unregisterHostFunctions, lookupHostFunction. A host function is
-- stood for by a number other than 0.
pub mod Fresh
use gv.Prelude.{ℕ, suc, Option, none, some, List, [], ◌∷◌}
use gv.Prelude.Int.{ℤ, pos, negsuc}
use gv.Memory.{Ptr, null, lookup, insert, erase}
use gv.Go.{Registry, Heap, done, Alter}
use gv.Go.Objects.{◌>>=◌, isolate_at, context_at}

-- `m[k]`, which is nil where there is no entry.
abbrev or_null : Option Ptr → Ptr
or_null none = null
or_null (some p) = p

unfoldable pub next_ref : Registry → ℕ × Registry
next_ref r = (suc r.seq, record r { seq = suc r.seq })

pub set_ref : ℕ → Ptr → Registry → Registry
set_ref k p r = record r { refs = insert k p r.refs }

pub delete_ref : ℕ → Registry → Registry
delete_ref k r = record r { refs = erase k r.refs }

unfoldable pub get_ref : ℕ → Registry → Ptr
get_ref k r = or_null (lookup k r.refs)

-- `m[int(n)]` of a C `int`; no key is negative.
unfoldable pub get_int : ℤ → Registry → Ptr
unfolding get_ref
get_int (pos n) r = get_ref n r
get_int (negsuc n) r = null

-- registerHostFunction
unfoldable pub register_host_function : Ptr → Registry → ℕ × Registry
unfolding next_ref set_ref
register_host_function fn r = let (id, r') = next_ref r in (id, set_ref id fn r')

-- unregisterHostFunctions
pub unregister_host_functions : List ℕ → Registry → Registry
unregister_host_functions [] r = r
unregister_host_functions (id ∷ ids) r = unregister_host_functions ids (delete_ref id r)

-- The same on the tables of the process.
unfoldable pub next_isolate_ref : Alter ℕ
unfolding next_ref
next_isolate_ref g =
    let (ref, r) = next_ref g.isolate_refs in (done ref, record g { isolate_refs = r })

unfoldable pub set_isolate_ref : Ptr → Alter (Unit {0})
unfolding set_ref
set_isolate_ref iso = do
  i ← isolate_at iso
  λ g. (done tt, record g { isolate_refs = set_ref i.ref iso g.isolate_refs })

unfoldable pub delete_isolate_ref : ℕ → Alter (Unit {0})
unfolding delete_ref
delete_isolate_ref ref g = (done tt, record g { isolate_refs = delete_ref ref g.isolate_refs })

unfoldable pub get_isolate_ref : ℤ → Alter Ptr
unfolding get_int
get_isolate_ref ref g = (done (get_int ref g.isolate_refs), g)

unfoldable pub next_context_ref : Alter ℕ
unfolding next_ref
next_context_ref g = let (ref, r) = next_ref g.ctx_refs in (done ref, record g { ctx_refs = r })

unfoldable pub set_context : Ptr → Alter (Unit {0})
unfolding set_ref
set_context ctx = do
  c ← context_at ctx
  λ g. (done tt, record g { ctx_refs = set_ref c.ref ctx g.ctx_refs })

unfoldable pub delete_context : ℕ → Alter (Unit {0})
unfolding delete_ref
delete_context ref g = (done tt, record g { ctx_refs = delete_ref ref g.ctx_refs })

unfoldable pub get_context : ℤ → Alter Ptr
unfolding get_int
get_context ref g = (done (get_int ref g.ctx_refs), g)

unfoldable pub register_host : Ptr → Alter ℕ
unfolding register_host_function
register_host fn g =
    let (id, r) = register_host_function fn g.host_fn_refs in
    (done id, record g { host_fn_refs = r })

unfoldable pub unregister_hosts : List ℕ → Alter (Unit {0})
unfolding unregister_host_functions
unregister_hosts ids g =
    (done tt, record g { host_fn_refs = unregister_host_functions ids g.host_fn_refs })

unfoldable pub lookup_host : ℤ → Alter Ptr
unfolding get_int
lookup_host id g = (done (get_int id g.host_fn_refs), g)
