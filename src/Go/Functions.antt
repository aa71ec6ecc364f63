-- ===== src/Go/Functions.antt =====
-- host.go: NewFunction; value.go: IsFunction and Function. The functions of gv8.h that they call are
-- parameters.
pub mod Refused
use gv.Prelude.{ℕ, Bool, true, false, not, Option, none, some, List, [], ◌∷◌, if◌then◌else◌, ◌==◌}
use gv.Prelude.Int.{ℤ, pos, int_of, ◌==ℤ◌}
use gv.Prelude.Bytes.{bytes}
use gv.Memory.{Ptr, null}
use gv.Run
use gv.Run.{Cmd}
use gv.Results.{RtnValue}
use gv.Go.{GoError, plain, Alter, Native, Go, pure, calls, heap, deferring, ◌>>=◌, ◌>>◌}
use gv.Go.Objects as Objects
use gv.Go.Objects.{context_at, value_at}
use gv.Go.Enter.{enter, must_enter, leave}
use gv.Go.Refs.{register_host, unregister_hosts}
use gv.Go.Values.{valid, is_closed, track_host_function}
use gv.Go.Results.{User, value_result}

-- ensureOpen
unfoldable pub ensure_open : Ptr → Alter (Option GoError)
unfolding is_closed
ensure_open ctx =
    if ctx == null
    then Objects.pure (some (plain (bytes "gv8: nil context")))
    else Objects.◌>>=◌ (is_closed ctx)
        (λ b. Objects.pure (if b then some (plain (bytes "gv8: context is closed")) else none))

-- GV8ContextNewFunction and GV8ValueIsFunction
pub record FunctionCalls (N : Type 0) : Type 0 where
  pub context_new_function : Ptr → ℤ → Cmd N RtnValue
  pub value_is_function : Ptr → Cmd N ℤ

module _ {E : Type 0} (user : User E) (v : FunctionCalls (Native E)) where
  -- IsFunction
  unfoldable pub is_function : Ptr → Go E Bool
  is_function p = do
    ok ← heap (valid p)
    if not ok then pure false else do
      x ← heap (value_at p)
      c ← heap (context_at x.ctx)
      heap (must_enter c.iso)
      deferring (heap (leave c.iso))
          (do r ← calls (v.value_is_function x.ptr); pure (not (r ==ℤ pos 0)))

  -- Function, as the value that it wraps, or nil
  unfoldable pub function_of : Ptr → Go E Ptr
  function_of p =
      if p == null then pure null else do b ← is_function p; pure (if b then p else null)

  -- What NewFunction does with the result of C.
  abbrev received : ℕ → Ptr × Option GoError → Go E (Ptr × Option GoError)
  received id (p, some err) = do heap (unregister_hosts (id ∷ [])); pure (null, some err)
  received id (p, none) = do f ← function_of p; pure (f, none)

  -- NewFunction, once the isolate was entered, or refused.
  abbrev inside : Ptr → Ptr → ℕ → Option GoError → Go E (Ptr × Option GoError)
  inside ctx iso id (some err) = do heap (unregister_hosts (id ∷ [])); pure (null, some err)
  inside ctx iso id none = deferring (heap (leave iso)) (do
    c ← heap (context_at ctx)
    rtn ← calls (v.context_new_function c.ptr (int_of id))
    r ← value_result user ctx rtn
    received id r)

  abbrev registered : Ptr → Ptr → Go E (Ptr × Option GoError)
  registered ctx fn =
      if fn == null then pure (null, some (plain (bytes "gv8: nil host function"))) else do
        id ← heap (register_host fn)
        heap (track_host_function ctx id)
        c ← heap (context_at ctx)
        err ← heap (enter c.iso)
        inside ctx c.iso id err

  abbrev if_open : Option GoError → Go E (Ptr × Option GoError) → Go E (Ptr × Option GoError)
  if_open none body = body
  if_open (some err) body = pure (null, some err)

  -- NewFunction
  unfoldable pub new_function : Ptr → Ptr → Go E (Ptr × Option GoError)
  unfolding ◌>>=◌ Run.◌>>=◌
  new_function ctx fn = do err ← heap (ensure_open ctx); if_open err (registered ctx fn)
