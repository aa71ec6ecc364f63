-- ===== src/Tests/Lives.antt =====
-- The Go side: a context with values that is closed, and tables of host functions.
use gv.Prelude.{
  ℕ, ◌≡◌, refl, true, false, Option, none, some, List, [], ◌∷◌, arith, update, if◌then◌else◌,
}
use gv.Prelude.Int.{pos, int_of}
use gv.Memory.{Ptr, Memory, Gv8Ctx, Gv8Value, IsolateSlots}
use gv.Memory.Values as MemValues
use gv.Run.{World, ok}
use gv.Go.{Registry, Context, Isolate, Heap, Native, done}
use gv.Go.Access.{open_gate, enter_gate}
use gv.Go.Enter.Lent.{Admits}
use gv.Go.Refs.{get_ref, get_int, register_host_function}
use gv.Go.Refs.Fresh.{
  IsFresh, registers, unregisters, changes, reference, get-changes, get_int-register,
}
use gv.Go.Resolvers.{bind_module_resolver}
use gv.Go.Resolvers.Bound.{IsBound, bind_module_resolver-IsBound}
use gv.Go.Values.{new_value}
use gv.Go.Values.Tracked.{IsTracked}
use gv.Go.Lifecycle.{close, release}
use gv.Go.Lifecycle.Close.{IsClosed}
use gv.Go.Lifecycle.Release.{IsReleased}
use gv.Memory.Invariant.{IsConsistent}
use gv.Go.Lifecycle.Linked.{IsLinked}
use gv.Go.Lifecycle.Linked.Closing.{close-IsLinked}
use gv.Go.Lifecycle.Linked.Releasing.{release-IsLinked}
use gv.Go.Lifecycle.Linked.NewValue.{IsNew}
use gv.Go.Lifecycle.Linked.Making.{Holds, new_value-IsLinked}
use gv.Tests.Engine.{Toy, start}

abbrev empty : Registry
empty = record { seq = 0; refs = [] }

pub empty-IsFresh : IsFresh empty
empty-IsFresh = record { distinct = tt; unused = λ k a. refl }

get_int-register_example :
    let (id, r) = register_host_function 9 empty in get_int (int_of id) r ≡ (if true then 9 else 0)
unfolding register_host_function
get_int-register_example = get_int-register 9 empty empty-IsFresh (ground arith)

get-empty : (j : ℕ) → get_ref j empty ≡ 0
unfolding get_ref
get-empty j = refl

get-changes_example :
    get_ref 1 (changes (registers 9 ∷ registers 8 ∷ unregisters (2 ∷ []) ∷ []) empty)
    ≡ reference (registers 9 ∷ registers 8 ∷ unregisters (2 ∷ []) ∷ []) 0 (λ j. 0) 1
get-changes_example =
    get-changes (registers 9 ∷ registers 8 ∷ unregisters (2 ∷ []) ∷ []) empty (λ j. 0) empty-IsFresh
      get-empty 1

-- Isolate 1, context 2 with one owned value, 3, and a borrowed one, 4.
abbrev pub isolate : Isolate
isolate = record {
  ptr = 1;
  ref = 1;
  gate = open_gate;
  terminating = false;
  unhandled_promise_rejection_hook = none;
  exception_hook = none;
  module_resolution_failure_hook = none;
  unhandled_promise_rejections = 0;
  exceptions = 0;
  module_resolution_failures = 0;
}

abbrev pub context : Context
context = record {
  ref = 1;
  ptr = 7;
  iso = 1;
  closed = false;
  host_fn_ids = some [];
  live_values = some (3 ∷ []);
  module_resolvers_by_script = some [];
  module_resolvers_by_name = some [];
}

abbrev no_objects : {A : Type 0} → Ptr → Option A
no_objects p = none

abbrev pub objects : Heap
objects = record {
  next = 5;
  isolates = update no_objects 1 (some isolate);
  contexts = update no_objects 2 (some context);
  values =
      update (update no_objects 3 (some (record { ptr = 8; ctx = 2; borrowed = false }))) 4
        (some (record { ptr = 9; ctx = 2; borrowed = true }));
  modules = no_objects;
  scripts = no_objects;
  builders = no_objects;
  globals = no_objects;
  isolate_refs = empty;
  ctx_refs = empty;
  host_fn_refs = empty;
  thread = 5;
  locks = 0;
  initialized = true;
}

objects-IsTracked : IsTracked objects
objects-IsTracked = record {
  tracked = λ v x o e p b c. ground arith;
  null_value = refl;
  next_ne_null = λ z. ground arith;
}

-- The memory with the C context 7, of isolate 6, and its values 8 and 9, of which 8 is tracked.
abbrev pub wrapper : ℕ → Ptr → Gv8Value
wrapper k c = record { id = k; ctx = c; iso = 6; ptr = some 20 }

abbrev pub c_context : List (ℕ × Ptr) → Gv8Ctx
c_context table = record {
  iso = 6;
  ptr = some 21;
  ref = pos 1;
  values = table;
  next_value_id = 1;
  snapshot_blob = 0;
  snapshot_data = 0;
}

abbrev pub slots : IsolateSlots
slots = record { data0 = 7; data1 = pos 0; import_hook = true; reject_hook = true }

abbrev pub memory : Memory
memory = record start.mem {
  next = 10;
  isolates = update no_objects 6 (some slots);
  ctxs = update no_objects 7 (some (c_context ((1, 8) ∷ [])));
  values = update (update no_objects 8 (some (wrapper 1 7))) 9 (some (wrapper 0 7));
}

abbrev pub world : World (Native Toy)
world = record { engine = record { v8 = start.engine; go = objects }; mem = memory }

abbrev disposed : Memory
disposed = record memory {
  freed = 2;
  ctxs =
      update (update memory.ctxs 7 (some (record (c_context ((1, 8) ∷ [])) { ptr = none }))) 7 none;
  values = update memory.values 8 none;
}

dispose_7 : MemValues.context_dispose 7 memory ≡ some (tt, disposed)
unfolding MemValues.context_dispose MemValues.dispose_values
dispose_7 = refl

abbrev freed : Memory
freed = record memory {
  freed = 1;
  ctxs = update memory.ctxs 7 (some (c_context []));
  values = update memory.values 8 none;
}

release_8 : MemValues.value_release 8 memory ≡ some (tt, freed)
unfolding MemValues.value_release
release_8 = refl

pub isolate-Admits : Admits objects 1 isolate (record { owner_thread = 5; depth = 1 })
unfolding enter_gate
isolate-Admits = record {
  iso_ne_null = λ e. ground arith;
  here = refl;
  ptr_ne_null = λ e. ground arith;
  admitted = refl;
}

pub memory-IsConsistent : IsConsistent memory
memory-IsConsistent = record {
  distinct = λ p c e. ground arith;
  in_range = λ p c k q e l. ground arith;
  owned = λ p c k q e l. ground arith;
  listed = λ q v e n. ground arith;
  unused_ctx = λ p a. ground arith;
  unused_value = λ p a. ground arith;
  null_ctx = refl;
  null_value = refl;
  next_ne_null = λ e. ground arith;
}

pub world-IsLinked : IsLinked objects memory
world-IsLinked = record {
  tracked = objects-IsTracked;
  stored = λ c y e v h. ground arith;
  consistent = memory-IsConsistent;
  wrapped = λ v x y e o h. ground arith;
  apart = λ v u x z e f o p q. ground arith;
  live = λ c y e o. ground arith;
  contexts_apart = λ c d y z e f o p q. ground arith;
}

close-IsLinked_example :
    (w' : World (Native Toy)) × (close 2 world ≡ ok (done tt) w')
    × IsClosed 2 context world w'
    × IsLinked w'.engine.go w'.mem
close-IsLinked_example = close-IsLinked 2 context world world-IsLinked (λ e. ground arith) refl refl

release-IsLinked_example :
    (w' : World (Native Toy)) × (release 3 world ≡ ok (done tt) w')
    × IsReleased 3 8 1 isolate world w'
    × IsLinked w'.engine.go w'.mem
release-IsLinked_example =
    release-IsLinked 3 8 2 context isolate (record { owner_thread = 5; depth = 1 }) world
      world-IsLinked refl (λ e. ground arith) (λ e. ground arith) refl isolate-Admits

new_value-IsLinked_example :
    (m' : Memory) × (g' : Heap) × (MemValues.wrap_value 7 6 20 memory ≡ some (10, m'))
    × (new_value 2 10 objects ≡ (done 5, g'))
    × IsNew objects 2 10 context g'
    × Holds (m'.values 10) 20
    × IsLinked g' m'
new_value-IsLinked_example =
    new_value-IsLinked objects memory 6 20 2 context world-IsLinked (λ e. ground arith) refl refl

bind_module_resolver-IsBound_example :
    (g : Heap) × (bind_module_resolver 2 (pos 4) (97 ∷ []) 30 objects ≡ (done tt, g))
    × IsBound 2 (pos 4) (97 ∷ []) 30 objects g
bind_module_resolver-IsBound_example =
    bind_module_resolver-IsBound 2 context (pos 4) (97 ∷ []) 30 objects [] [] (λ e. ground arith)
      refl refl refl refl
