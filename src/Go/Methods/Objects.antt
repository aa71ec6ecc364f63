-- ===== src/Go/Methods/Objects.antt =====
-- value.go: the methods of objects and functions.
use gv.Prelude.{ℕ, Bool, false, not, Option, none, some, List, [], ◌∷◌, length}
use gv.Prelude.Int.{ℤ, pos, int_of, ◌==ℤ◌}
use gv.Memory.{Ptr}
use gv.Run.{Cmd}
use gv.V8.{Text, RtnError}
use gv.Results.{RtnValue}
use gv.Go.{GoError, Native, Go, pure, calls, heap, deferring, ◌>>=◌}
use gv.Go.Objects.{value_at}
use gv.Go.Results.{User, new_js_error, value_result}
use gv.Go.Guards.{Fallible, refused, unless_error, if_valid, on_valid, valued_of}
use gv.Go.Creation.{CreationCalls}
use gv.Go.Arguments.{Any, materialize_value, materialize_args, release_all, c_argv}
use gv.Go.Methods.{MethodCalls}

module _ {E : Type 0} (user : User E) (v : CreationCalls (Native E))
    (m : MethodCalls (Native E)) where
  -- Get, GetIdx and Has
  unfoldable pub get : Ptr → Text → Go E Fallible
  get o name = valued_of user o (λ p. m.object_get p name)

  unfoldable pub get_idx : Ptr → ℕ → Go E Fallible
  get_idx o index = valued_of user o (λ p. m.object_get_idx p index)

  unfoldable pub has : Ptr → Text → Go E Bool
  has o name =
      if_valid o false λ x c. do r ← calls (m.object_has x.ptr name); pure (not (r ==ℤ pos 0))

  -- The end of Set and SetIdx, with the new value; the cleanup is deferred.
  abbrev setting : Ptr → Any → (Ptr → Cmd (Native E) RtnError) → Go E (Option GoError)
  setting ctx new call = do
    prop ← materialize_value user v ctx new
    deferring (elim prop.cleanup [ none ↦ pure tt | some q ↦ release_all (q ∷ []) ])
        (unless_error prop.err (λ err. pure (some err))
          (do y ← heap (value_at prop.next); rtn ← calls (call y.ptr); pure (new_js_error rtn)))

  -- Set and SetIdx
  unfoldable pub set : Ptr → Text → Any → Go E (Option GoError)
  set o name new =
      on_valid o (λ err. pure (some err)) λ x. setting x.ctx new (m.object_set x.ptr name)

  unfoldable pub set_idx : Ptr → ℕ → Any → Go E (Option GoError)
  set_idx o index new =
      on_valid o (λ err. pure (some err)) λ x. setting x.ctx new (m.object_set_idx x.ptr index)

  -- The arguments are made, used by one call, and cleaned up.
  abbrev with_args : Ptr → List Any → (ℤ → List Ptr → Go E RtnValue) → Go E Fallible
  with_args ctx args call = do
    a ← materialize_args user v ctx args
    deferring (release_all a.cleanups) (
        unless_error a.err refused (do
          argv ← heap (c_argv a.args)
          rtn ← call (int_of (length a.args)) argv
          value_result user ctx rtn))

  -- CallMethod
  unfoldable pub call_method : Ptr → Text → List Any → Go E Fallible
  call_method o name args =
      on_valid o refused
        λ x. with_args x.ctx args (λ argc argv. calls (m.object_call_method x.ptr name argc argv))

  -- Call of a Function
  unfoldable pub call : Ptr → Ptr → List Any → Go E Fallible
  call f recv args = on_valid f refused λ x.
      with_args x.ctx args
        (λ argc argv. do r ← heap (value_at recv); calls (m.value_call x.ptr r.ptr argc argv))
