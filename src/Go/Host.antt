-- ===== src/Go/Host.antt =====
-- host.go: handoffHostValue and gv8FunctionCallback; value.go:
-- IsObject and Object. A function of the user's, and the functions of gv8.h, are parameters. An Object, a
-- Function and a Promise are the values that they wrap.
pub mod Asked
pub mod GivenBack
pub mod Handoff
pub mod Lent
pub mod Promises
pub mod Returned
use gv.Prelude.{
  ℕ, Bool, true, false, not, ◌||◌, Option, none, some, List, [], ◌∷◌, ◌++◌, if◌then◌else◌, ◌==◌,
}
use gv.Prelude.Int.{ℤ, pos, ◌==ℤ◌}
use gv.Prelude.Bytes.{bytes}
use gv.Memory.{Ptr, null}
use gv.Run
use gv.Run.{Cmd}
use gv.V8.{V8, Text, HostResult, object}
use gv.Values as Values
use gv.Go.{
  GoError, plain, Value, Context, nil_dereference, Alter, Native, Go, pure, panic, calls, heap,
  ◌>>=◌, ◌>>◌,
}
use gv.Go.Objects as Objects
use gv.Go.Objects.{value_at}
use gv.Go.Refs.{get_context, lookup_host}
use gv.Go.Values.{invalidate, invalidate_all, new_borrowed_value}
use gv.Go.Lifecycle.{release}
use gv.Go.Results.{User}
use gv.Go.Guards.{Fallible, error_text, if_valid}
use gv.Go.Creation.{
  CreationCalls, new_null_value, new_string_value, new_boolean_value, new_integer_value,
  new_number_value, new_uint8_array_copy, new_error_value,
}

-- FunctionCallbackInfo
pub record FunctionCallbackInfo : Type 0 where
  pub ctx : Ptr
  pub this : Ptr
  pub args : List Ptr

-- The host functions of the user, by their identities.
pub record HostUser (E : Type 0) : Type 0 where
  pub host_function : Ptr → FunctionCallbackInfo → Go E Fallible

-- GV8ValueRetain and GV8ValueIsObject
pub record HostCalls (N : Type 0) : Type 0 where
  pub value_retain : Ptr → Cmd N Ptr
  pub value_is_object : Ptr → Cmd N ℤ

pub host_calls : {N : Type 0} → V8 N → HostCalls N
host_calls v = record {
  value_retain = Values.value_retain v;
  value_is_object = Values.value_is v object;
}

abbrev pub no_result : HostResult
no_result = record { found = null; error_value = null }

abbrev pub found_value : Ptr → HostResult
found_value p = record { found = p; error_value = null }

abbrev pub failed_with : Ptr → HostResult
failed_with p = record { found = null; error_value = p }

-- The receiver and the arguments, made of their wrappers.
abbrev pub borrow_args : Ptr → List Ptr → Alter (List Ptr)
borrow_args ctx [] = Objects.pure []
borrow_args ctx (p ∷ argv) =
    Objects.◌>>=◌ (new_borrowed_value ctx p)
      (λ v. Objects.◌>>=◌ (borrow_args ctx argv) (λ args. Objects.pure (v ∷ args)))

module _ {E : Type 0} where
  -- `release` of gv8FunctionCallback
  abbrev pub give_back : Ptr → List Ptr → Go E (Unit {0})
  give_back this args = do heap (invalidate this); heap (invalidate_all args)

module _ {E : Type 0} (c : HostCalls (Native E)) where
  -- handoffHostValue
  unfoldable pub handoff_host_value : Ptr → Go E Ptr
  unfolding ◌>>=◌ Run.◌>>=◌
  handoff_host_value p = if p == null then pure null else do
    x ← heap (value_at p)
    if x.ptr == null then pure null else do
      retained ← calls (c.value_retain x.ptr)
      (if x.borrowed then heap (invalidate p) else release p)
      pure retained

  abbrev pub asks_object : Value → Context → Go E Bool
  asks_object x ctx = do r ← calls (c.value_is_object x.ptr); pure (not (r ==ℤ pos 0))

  -- IsObject
  unfoldable pub is_object : Ptr → Go E Bool
  is_object p = if_valid p false asks_object

  -- Object, as the value that it wraps, or nil
  unfoldable pub object_of : Ptr → Go E Ptr
  object_of p = if p == null then pure null else do b ← is_object p; pure (if b then p else null)

module _ {E : Type 0} (user : User E) (v : CreationCalls (Native E)) (c : HostCalls (Native E))
    (hosts : HostUser E) where
  -- The results where there is no context or no host function.
  abbrev not_found : Ptr → Go E HostResult
  not_found ctx = do
    (p, err) ← new_error_value user v ctx (bytes "gv8: host function callback not found")
    if p == null then pure no_result else do x ← heap (value_at p); pure (failed_with x.ptr)

  abbrev error_handed : Fallible → Go E HostResult
  error_handed (p, some valueErr) = pure no_result
  error_handed (p, none) =
      if p == null then pure no_result else do q ← handoff_host_value c p; pure (failed_with q)

  -- What follows the call of the host function.
  abbrev pub answered : Ptr → Ptr → List Ptr → Fallible → Go E HostResult
  answered ctx this args (p, some err) = do
    e ← new_error_value user v ctx (error_text err)
    give_back this args
    error_handed e
  answered ctx this args (p, none) = do
    q ← handoff_host_value c p
    give_back this args
    pure (found_value q)

  -- gv8FunctionCallback, of the argc pointers argv.
  unfoldable pub function_callback : ℤ → ℤ → Ptr → List Ptr → Go E HostResult
  unfolding ◌>>=◌ Run.◌>>=◌
  function_callback ctx_ref callback_id recv argv = do
    ctx ← heap (get_context ctx_ref)
    fn ← heap (lookup_host callback_id)
    if (ctx == null) || (fn == null) then not_found ctx else do
      this ← heap (new_borrowed_value ctx recv)
      args ← heap (borrow_args ctx argv)
      o ← object_of c this
      r ← hosts.host_function fn (record { ctx = ctx; this = o; args = args })
      answered ctx this args r
