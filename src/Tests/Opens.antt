-- ===== src/Tests/Opens.antt =====
-- NewContext in a process that has a context already.
use gv.Prelude.{◌≡◌, refl, none, some, arith}
use gv.Prelude.Int.{ℤ, int_of}
use gv.Memory.{Ptr, Memory}
use gv.Memory.Values as MemValues
use gv.Memory.Steps.{here, next, creates, Reach-IsConsistent}
use gv.Run
use gv.Run.{World, Run, ok, Cmd, memory}
use gv.Go.{Native, done}
use gv.Go.Refs.{get_ref, next_ref}
use gv.Go.Lifecycle.{new_context, opened}
use gv.Go.Lifecycle.Linked.{IsLinked}
use gv.Go.Lifecycle.Linked.Opening.{IsNew, numbered, new_context-IsLinked}
use gv.Go.{Heap}
use gv.Go.Values.{new_value}
use gv.Go.Lifecycle.Linked.Making.{new_value-IsLinked}
use gv.Go.Lifecycle.Linked.Sessions as Sessions
use gv.Go.Lifecycle.Linked.Sessions.{IsBare, bare-IsLinked, opens, makes, Reach-IsLinked}
use gv.Tests.Engine.{Toy, start, start-IsConsistent}
use gv.Tests.Lives.{world, isolate, world-IsLinked, memory-IsConsistent}

make : Ptr → ℤ → Cmd (Native Toy) Ptr
make iso ref = memory (MemValues.new_ctx iso ref none)

made :
    (a : World (Native Toy)) × (make 1 (int_of 1) (numbered world) ≡ ok 10 a)
    × IsNew 10 (numbered world) a
unfolding make MemValues.new_ctx next_ref Run.◌>>=◌
made = (
  _,
  refl,
  record {
    address = refl;
    there = λ e. ground (arith, e);
    ctxs = λ q n. ground arith;
    values = refl;
    consistent =
        Reach-IsConsistent memory-IsConsistent (next here (creates 1 (int_of 1) none 10 refl));
    go = refl;
  },
)

new_context-IsLinked_example :
    (w' : World (Native Toy)) × (new_context make 1 world ≡ ok (done 5) w')
    × (w'.engine.go.contexts 5 ≡ some (opened 1 1 10))
    × (get_ref 1 w'.engine.go.ctx_refs ≡ 5)
    × IsLinked w'.engine.go w'.mem
new_context-IsLinked_example =
    new_context-IsLinked make 1 10 isolate world (made.0) world-IsLinked (λ e. ground arith) refl
      refl (made.1) (made.2)

-- A process with an isolate and nothing else: a context is made, and then a value.
abbrev blank : World (Native Toy)
blank = record {
  engine = record {
    v8 = start.engine;
    go = record world.engine.go { contexts = λ c. none; values = λ v. none };
  };
  mem = start.mem;
}

blank-IsBare : IsBare blank.engine.go
blank-IsBare = record { contexts = λ c. refl; values = λ v. refl; next_ne_null = λ e. ground arith }

first_context :
    (a : World (Native Toy)) × (make 1 (int_of 1) (numbered blank) ≡ ok 1 a)
    × IsNew 1 (numbered blank) a
unfolding make MemValues.new_ctx next_ref Run.◌>>=◌
first_context = (
  _,
  refl,
  record {
    address = refl;
    there = λ e. ground (arith, e);
    ctxs = λ q n. ground arith;
    values = refl;
    consistent =
        Reach-IsConsistent start-IsConsistent (next here (creates 1 (int_of 1) none 1 refl));
    go = refl;
  },
)

opened_world :
    (w : World (Native Toy)) × (new_context make 1 blank ≡ ok (done 5) w)
    × (w.engine.go.contexts 5 ≡ some (opened 1 1 1))
    × (get_ref 1 w.engine.go.ctx_refs ≡ 5)
    × IsLinked w.engine.go w.mem
opened_world =
    new_context-IsLinked make 1 1 isolate blank (first_context.0)
      (bare-IsLinked blank-IsBare start-IsConsistent) (λ e. ground arith) refl refl
      (first_context.1) (first_context.2)

with_value :
    (m : Memory) × (g : Heap) × (MemValues.wrap_value 1 1 20 ((opened_world.0).mem)
      ≡ some ((opened_world.0).mem.next, m))
    × (new_value 5 ((opened_world.0).mem.next) ((opened_world.0).engine.go)
        ≡ (done ((opened_world.0).engine.go.next), g))
    × IsLinked g m
with_value =
    let (m, g, wraps, gives, _, _, l) =
      new_value-IsLinked ((opened_world.0).engine.go) ((opened_world.0).mem) 1 20 5 (opened 1 1 1)
        (opened_world.4) (λ e. ground arith) (opened_world.2) refl in
    (m, g, wraps, gives, l)

abbrev session_end : World (Native Toy)
session_end = record {
  engine = record { v8 = (opened_world.0).engine.v8; go = with_value.1 };
  mem = with_value.0;
}

session : Sessions.Reach blank session_end
session =
    Sessions.next
      (Sessions.next Sessions.here (
        opens make 1 1 5 isolate (first_context.0) (λ e. ground arith) refl refl (first_context.1)
          (first_context.2) (opened_world.1)))
      (makes 1 20 5 _ _ (opened 1 1 1) (λ e. ground arith) (opened_world.2) refl (with_value.2)
        (with_value.3))

Reach-IsLinked_example : IsLinked session_end.engine.go session_end.mem
Reach-IsLinked_example = Reach-IsLinked blank-IsBare start-IsConsistent session
