-- ===== src/Go/Arguments.antt =====
-- host.go: materializeValue, materializeArgs and cArgv. An Object, a Function and a Promise are the values
-- that they wrap. The functions of gv8.h are parameters.
pub mod Cleaned
pub mod Gathered
pub mod Lawful
pub mod Promises
pub mod Released
pub mod Steps
use gv.Prelude.{ℕ, Bool, Option, none, some, List, [], ◌∷◌, ◌++◌}
use gv.Prelude.Int.{ℤ}
use gv.Memory.{Ptr, null}
use gv.V8.{Text}
use gv.Go.{GoError, plain, nil_dereference, Alter, Native, Go, pure, panic, ◌>>=◌, ◌>>◌}
use gv.Go.Objects as Objects
use gv.Go.Objects.{value_at}
use gv.Go.Lifecycle.{release}
use gv.Go.Results.{User}
use gv.Go.Guards.{Fallible}
use gv.Go.Creation.{
  CreationCalls, new_null_value, new_string_value, new_boolean_value, new_integer_value,
  new_number_value, new_uint8_array_copy,
}

-- What a Go value of type `any` can be for materializeValue. A wrapper is an Object, a Function or a
-- Promise, by the value in it; `none` is a nil pointer to one.
pub data Any : Type 0 where
  nil : Any
  value : Ptr → Any
  wrapper : Option Ptr → Any
  text : Text → Any
  boolean : Bool → Any
  integer : ℤ → Any
  number : ℕ → Any
  octets : Text → Any
  unsupported : Text → Any

-- Its results: the value, the value that the cleanup releases, where there is a cleanup, and the error.
pub record Materialized : Type 0 where
  pub next : Ptr
  pub cleanup : Option Ptr
  pub err : Option GoError

-- The first results, and those for a new value.
abbrev pub as_is : Ptr → Materialized
as_is p = record { next = p; cleanup = none; err = none }

abbrev pub temporary : Fallible → Materialized
temporary (p, err) = record { next = p; cleanup = some p; err = err }

abbrev no_value : GoError → Materialized
no_value err = record { next = null; cleanup = none; err = some err }

-- The results of materializeArgs: the values, those that the cleanup releases, and the error.
pub record Arguments : Type 0 where
  pub args : List Ptr
  pub cleanups : List Ptr
  pub err : Option GoError

abbrev pub no_arguments : Option GoError → Arguments
no_arguments err = record { args = []; cleanups = []; err = err }

abbrev cleanups_of : Option Ptr → List Ptr
cleanups_of none = []
cleanups_of (some p) = p ∷ []

module _ {E : Type 0} where
  -- The cleanups, in their order.
  unfoldable pub release_all : List Ptr → Go E (Unit {0})
  release_all [] = pure tt
  release_all (p ∷ l) = do release p; release_all l

module _ {E : Type 0} (user : User E) (v : CreationCalls (Native E)) where
  abbrev made : Go E Fallible → Go E Materialized
  made new = do r ← new; pure (temporary r)

  -- materializeValue
  unfoldable pub materialize_value : Ptr → Any → Go E Materialized
  materialize_value ctx nil = made (new_null_value user v ctx)
  materialize_value ctx (value p) = pure (as_is p)
  materialize_value ctx (wrapper none) = panic nil_dereference
  materialize_value ctx (wrapper (some p)) = pure (as_is p)
  materialize_value ctx (text t) = made (new_string_value user v ctx t)
  materialize_value ctx (boolean b) = made (new_boolean_value user v ctx b)
  materialize_value ctx (integer n) = made (new_integer_value user v ctx n)
  materialize_value ctx (number d) = made (new_number_value user v ctx d)
  materialize_value ctx (octets b) = made (new_uint8_array_copy user v ctx b)
  materialize_value ctx (unsupported t) = pure (no_value (plain t))

  abbrev pub unless_failed : Option GoError → Go E Arguments → Go E Arguments → Go E Arguments
  unless_failed none cleaned rest = rest
  unless_failed (some err) cleaned rest = cleaned

  abbrev cleaned : List Ptr → Option GoError → Go E Arguments
  cleaned cleanups err = do release_all cleanups; pure (no_arguments err)

  -- The loop of materializeArgs, with what it has gathered.
  unfoldable pub materialize_from : Ptr → List Ptr → List Ptr → List Any → Go E Arguments
  unfolding materialize_value
  materialize_from ctx args cleanups [] =
      pure (record { args = args; cleanups = cleanups; err = none })
  materialize_from ctx args cleanups (a ∷ values) = do
    m ← materialize_value ctx a
    unless_failed m.err (cleaned cleanups m.err)
        (materialize_from ctx (args ++ (m.next ∷ [])) (cleanups ++ cleanups_of m.cleanup) values)

  -- materializeArgs
  unfoldable pub materialize_args : Ptr → List Any → Go E Arguments
  unfolding materialize_from
  materialize_args ctx values = materialize_from ctx [] [] values

-- cArgv: the pointers, as they are stored; that the array is freed is not modelled.
unfoldable pub c_argv : List Ptr → Alter (List Ptr)
c_argv [] = Objects.pure []
c_argv (p ∷ args) =
    Objects.◌>>=◌ (value_at p)
      (λ x. Objects.◌>>=◌ (c_argv args) (λ argv. Objects.pure (x.ptr ∷ argv)))
