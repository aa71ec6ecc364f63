-- ===== src/Go/Globals.antt =====
-- global.go: GlobalValue and GlobalFunction. The functions of gv8.h that they call are parameters; a
-- GlobalFunction is the GlobalValue in it.
pub mod Kept
pub mod Outlives
pub mod Retained
pub mod Runs
use gv.Prelude.{ℕ, Bool, true, false, not, ◌||◌, Option, none, some, if◌then◌else◌, ◌==◌}
use gv.Prelude.Bytes.{bytes}
use gv.Memory.{Ptr, null}
use gv.Run
use gv.Go.{GoError, plain, GlobalValue, Alter, Native, Go, pure, calls, heap, ◌>>=◌, ◌>>◌}
use gv.Go.Objects as Objects
use gv.Go.Objects.{context_at, value_at, global_at, write_global, allocate}
use gv.Go.Values.{valid, new_value}
use gv.Go.Lifecycle.{release}
use gv.Go.Results.{User}
use gv.Go.Functions.{FunctionCalls, ensure_open, function_of}
use gv.Go.Guards.{Fallible, refused, invalid_value, unless_error, entering, on_valid}
use gv.Go.Host.{HostCalls}

abbrev another_context : GoError
another_context = plain (bytes "gv8: global value belongs to a different context")

abbrev not_a_function : GoError
not_a_function = plain (bytes "gv8: global value is not a function")

abbrev pub new_global : Ptr → Alter Ptr
new_global v =
    Objects.◌>>=◌ allocate
      (λ p. Objects.◌>>◌ (write_global p (record { value = v })) (Objects.pure p))

-- `g.value`, or nil where g is
abbrev pub value_of : Ptr → Alter Ptr
value_of g =
    if g == null then Objects.pure null else Objects.◌>>=◌ (global_at g) (λ x. Objects.pure x.value)

module _ {E : Type 0} (c : HostCalls (Native E)) where
  -- NewGlobalValue
  unfoldable pub new_global_value : Ptr → Go E Fallible
  new_global_value v = on_valid v refused λ x. do
    p ← calls (c.value_retain x.ptr)
    if p == null
        then refused invalid_value
        else do kept ← heap (new_value x.ctx p); g ← heap (new_global kept); pure (g, none)

  abbrev retained : Ptr → Ptr → Go E Fallible
  retained ctx v = do
    x ← heap (value_at v)
    p ← calls (c.value_retain x.ptr)
    if p == null then refused invalid_value else do u ← heap (new_value ctx p); pure (u, none)

  -- Value, in the context that the value belongs to
  unfoldable pub value : Ptr → Ptr → Go E Fallible
  value g ctx = do
    v ← heap (value_of g)
    ok ← heap (valid v)
    if not ok then refused invalid_value else do
      x ← heap (value_at v)
      if (ctx == null) || not (ctx == x.ctx) then refused another_context else do
        err ← heap (ensure_open ctx)
        unless_error err refused
            (do y ← heap (context_at ctx); entering y.iso refused (retained ctx v))

  -- Release of a GlobalValue
  unfoldable pub release_global : Ptr → Go E (Unit {0})
  release_global g = do
    v ← heap (value_of g)
    if v == null
        then pure tt
        else do release v; x ← heap (global_at g); heap (write_global g (record x { value = null }))

  -- NewGlobalFunction, of the value in the Function
  unfoldable pub new_global_function : Ptr → Go E Fallible
  new_global_function f = do
    ok ← heap (valid f)
    if not ok then refused invalid_value else new_global_value f

module _ {E : Type 0} (user : User E) (f : FunctionCalls (Native E))
    (c : HostCalls (Native E)) where
  abbrev as_function : Fallible → Go E Fallible
  as_function (v, some err) = refused err
  as_function (v, none) = do
    p ← function_of user f v
    if p == null then (do release v; refused not_a_function) else pure (p, none)

  -- Function of a GlobalFunction
  unfoldable pub function : Ptr → Ptr → Go E Fallible
  function g ctx = do r ← value c g ctx; as_function r
