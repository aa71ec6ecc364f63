-- ===== src/Go.antt =====
-- The Go binding: isolate.go, context.go, value.go, errors.go. Its objects and registries, beside the
-- state of V8, and the commands that its functions are written in.
pub mod Access
pub mod Arguments
pub mod Objects
pub mod Refs
pub mod Enter
pub mod Values
pub mod Lifecycle
pub mod Functions
pub mod Guards
pub mod Host
pub mod Isolates
pub mod Methods
pub mod Modules
pub mod Scripts
pub mod Globals
pub mod Creation
pub mod Resolvers
pub mod Results
pub mod Await
use gv.Prelude
use gv.Prelude.{
  ℕ, suc, ◌+◌, Bool, true, false, Option, none, some, List, [], ◌∷◌, if◌then◌else◌, ◌==◌,
}
use gv.Prelude.Int.{ℤ}
use gv.Memory.{Ptr}
use gv.Run.{World, Run, ok, Cmd, continue}
use mathlib.Core.Option
use gv.V8.{Text}
use gv.Go.Access.{Gate}

-- errors.go: JSError
pub record JsError : Type 0 where
  pub message : Text
  pub location : Text
  pub stack : Text

-- An `error`: one of JavaScript, one of `fmt.Errorf` or `errors.New`, or that of a `context.Context`.
pub data GoError : Type 0 where
  js : JsError → GoError
  plain : Text → GoError
  context_error : Text → GoError

-- isolate.go: Isolate. A hook is the identity of a function of the user's.
pub record Isolate : Type 0 where
  pub ptr : Ptr
  pub ref : ℕ
  pub gate : Gate
  pub terminating : Bool
  pub unhandled_promise_rejection_hook : Option ℕ
  pub exception_hook : Option ℕ
  pub module_resolution_failure_hook : Option ℕ
  pub unhandled_promise_rejections : ℕ
  pub exceptions : ℕ
  pub module_resolution_failures : ℕ

-- context.go: Context. A table is `none` where it is nil; a resolver is the identity of the user's.
pub record Context : Type 0 where
  pub ref : ℕ
  pub ptr : Ptr
  pub iso : Ptr
  pub closed : Bool
  pub host_fn_ids : Option (List ℕ)
  pub live_values : Option (List Ptr)
  pub module_resolvers_by_script : Option (List (ℤ × ℕ))
  pub module_resolvers_by_name : Option (List (Text × ℕ))

-- value.go: Value
pub record Value : Type 0 where
  pub ptr : Ptr
  pub ctx : Ptr
  pub borrowed : Bool

-- module.go: Module; script.go: UnboundScript; snapshot.go: SnapshotBuilder; global.go: GlobalValue
pub record Module : Type 0 where
  pub ptr : Ptr
  pub iso : Ptr
  pub resource_name : Text

pub record UnboundScript : Type 0 where
  pub ptr : Ptr
  pub iso : Ptr

pub record SnapshotBuilder : Type 0 where
  pub ptr : Ptr

pub record GlobalValue : Type 0 where
  pub value : Ptr

-- A global table with the number that was given out last: isolateRefs, ctxRefs and hostFnRefs.
pub record Registry : Type 0 where
  pub seq : ℕ
  pub refs : List (ℕ × Ptr)

-- The objects of the Go side; a pointer is a number, and 0 is nil. `thread` is the operating system's
-- thread that the running goroutine is on, and `locks` counts its LockOSThread;
-- `initialized` is initOnce.
pub record Heap : Type 0 where
  pub next : Ptr
  pub isolates : Ptr → Option Isolate
  pub contexts : Ptr → Option Context
  pub values : Ptr → Option Value
  pub modules : Ptr → Option Module
  pub scripts : Ptr → Option UnboundScript
  pub builders : Ptr → Option SnapshotBuilder
  pub globals : Ptr → Option GlobalValue
  pub isolate_refs : Registry
  pub ctx_refs : Registry
  pub host_fn_refs : Registry
  pub thread : ℕ
  pub locks : ℕ
  pub initialized : Bool

-- The state of V8, and the Go side's.
pub record Native (E : Type 0) : Type 0 where
  pub v8 : E
  pub go : Heap

-- The end of a Go function: its results, or a panic.
pub data Attempt (A : Type 0) : Type 0 where
  done : A → Attempt A
  panics : GoError → Attempt A

abbrev pub Go : Type 0 → Type 0 → Type 0
Go E A = Cmd (Native E) (Attempt A)

-- What Go panics with where a nil pointer is read.
abbrev pub nil_dereference : GoError
nil_dereference = plain []

-- A function that neither calls C nor the user; a panic leaves what was written before it.
abbrev pub Alter : Type 0 → Type 0
Alter A = Heap → Attempt A × Heap

module _ {E A : Type 0} where
  unfoldable pub pure : A → Go E A
  pure a w = ok (done a) w

  unfoldable pub panic : GoError → Go E A
  panic e w = ok (panics e) w

  -- A call of a function of gv8.h, or of the user's.
  unfoldable pub calls : Cmd (Native E) A → Go E A
  calls c w = continue (c w) (λ a. ok (done a))

  -- A function of the Go side alone.
  unfoldable pub heap : Alter A → Go E A
  heap c w = let (r, g) = c w.engine.go in ok r (record w { engine = record w.engine { go = g } })

abbrev pub then_end : {A B : Type 0} → Attempt A → Attempt B → Attempt A
then_end r (done b) = r
then_end r (panics e) = panics e

module _ {E A B : Type 0} where
  abbrev pub then_go : Attempt A → (A → Go E B) → Go E B
  then_go (done a) f w = f a w
  then_go (panics e) f w = ok (panics e) w

  infixl 5 ◌>>=◌ ◌>>◌
  -- opening this opens the ways to build a command too
  unfoldable pub ◌>>=◌ : Go E A → (A → Go E B) → Go E B
  unfolding pure panic calls heap
  ◌>>=◌ m f w = continue (m w) (λ r. then_go r f)

  abbrev pub ◌>>◌ : Go E A → Go E B → Go E B
  m >> k = m >>= λ _. k

  -- `defer release()`, and what follows: the release is made at the end, also after a panic.
  unfoldable pub deferring : Go E B → Go E A → Go E A
  deferring release body w =
      continue (body w) (λ r w'. continue (release w') (λ s. ok (then_end r s)))
