-- ===== src/Tests/Hosts.antt =====
-- Values made, handed off and lent by the Go side.
use gv.Prelude.{◌≤◌, ◌≡◌, refl, ap, true, false, none, List, [], ◌∷◌, arith, Bool-cases, inl, inr}
use gv.Prelude.Int.{pos}
use gv.Memory.{Ptr, Memory}
use gv.Memory.Wrap.{wrap_lem, wrap_at}
use gv.Memory.Values as MemValues
use gv.Run
use gv.Run.{World, ok, memory, Cmd}
use gv.Scope.{wrap_beside}
use gv.Scope.Live.{wrap_beside_run}
use gv.Results.{RtnValue, rtn_value}
use gv.Go.{Heap, Registry, Native, done}
use gv.Go.Access.{Gate}
use gv.Go.Enter.Lent.{Admits}
use gv.Go.Refs.{get_int}
use gv.Go.Results.{User}
use gv.Go.Values.{has}
use gv.Go.Lifecycle.Linked.{IsLinked}
use gv.Go.Guards.{Fallible, valued}
use gv.Go.Creation.{CreationCalls}
use gv.Go.Creation.Answers.{Answer, IsLeft, IsWrapped, wrapped}
use gv.Go.Creation.Linked.{inside, valued-IsLinked}
use gv.Go.Host.{HostCalls, HostUser, handoff_host_value, function_callback, found_value}
use gv.Go.Host.Handoff.{IsRetained, IsHandedOff, handoff_host_value-IsHandedOff}
use gv.Go.Host.Promises.{Respects, IsReturned}
use gv.Go.Host.Returned.{function_callback-IsReturned}
use gv.Tests.Engine.{Toy}
use gv.Tests.Lives.{
  world, objects, context, isolate, wrapper, c_context, world-IsLinked, isolate-Admits,
}

abbrev pub user : User Toy
user = record { exception_handler = λ h e. gv.Go.pure tt }

-- A call of C that wraps the handle 20, of isolate 6.
abbrev pub call : Ptr → Cmd (Native Toy) RtnValue
call p = Run.◌>>=◌ (memory (MemValues.wrap_value p 6 20)) (λ q. Run.pure (rtn_value q))

abbrev entering : Gate
entering = record { owner_thread = 5; depth = 1 }

call-IsWrapped :
    IsWrapped 7
      (inside user 2 context isolate entering world)
      (call 7 (inside user 2 context isolate entering world))
unfolding MemValues.wrap_value Run.◌>>=◌
call-IsWrapped = wrapped (rtn_value 10) 6 20 _ refl refl

valued-IsLinked_example :
    (w' : World (Native Toy)) × (r : Fallible) × (valued user 2 call world ≡ ok (done r) w')
    × Answer 2 world w' r
    × IsLeft 2 context isolate world w' (call 7 (inside user 2 context isolate entering world))
valued-IsLinked_example =
    valued-IsLinked user 2 context isolate entering (3 ∷ []) world call world-IsLinked
      (λ e. ground arith) refl refl refl isolate-Admits refl call-IsWrapped

abbrev pub creation_calls : CreationCalls (Native Toy)
creation_calls = record {
  new_string = λ p t n. call p;
  new_boolean = λ p b. call p;
  new_integer = λ p n. call p;
  new_number = λ p d. call p;
  new_null = call;
  new_undefined = call;
  new_array_buffer_copy = λ p t n. call p;
  new_uint8_array_copy = λ p t n. call p;
  new_error_value = λ p t n. call p;
}

-- GV8ValueRetain of the wrapper 8, and GV8ValueIsObject.
abbrev host_calls : HostCalls (Native Toy)
host_calls = record {
  value_retain = λ p. wrap_beside p 6 20;
  value_is_object = λ p w. ok (pos 1) w;
}

retains : (w : World (Native Toy)) → w.mem ≡ world.mem → IsRetained host_calls 8 (wrapper 1 7) 20 w
retains w e = record {
  after = record w { mem = wrap_at w.mem 7 (c_context ((1, 8) ∷ [])) 6 20 };
  run =
      wrap_beside_run w 8 6 20 (wrapper 1 7) (c_context ((1, 8) ∷ []))
        (ap (λ (m : Memory). m.values 8) e) (ap (λ (m : Memory). m.ctxs 7) e);
  wrapped = wrap_lem w.mem 7 6 20 (c_context ((1, 8) ∷ [])) (ap (λ (m : Memory). m.ctxs 7) e);
  go = refl;
}

handoff_host_value-IsHandedOff_example :
    (w' : World (Native Toy)) × (q : Ptr) × (handoff_host_value host_calls 3 world ≡ ok (done q) w')
    × IsHandedOff 3 q (wrapper 1 7) world w'
handoff_host_value-IsHandedOff_example =
    handoff_host_value-IsHandedOff host_calls 3 8 2 context isolate entering (wrapper 1 7) 20 world
      world-IsLinked refl (λ e. ground arith) (λ e. ground arith) refl isolate-Admits refl refl
      (retains world refl)

-- Context 2 has the number 1, and so has the host function 30.
abbrev numbered : World (Native Toy)
numbered = record world {
  engine = record world.engine {
    go = record objects {
      ctx_refs = record { seq = 1; refs = (1, 2) ∷ [] };
      host_fn_refs = record { seq = 1; refs = (1, 30) ∷ [] };
    };
  };
}

numbered-IsLinked : IsLinked numbered.engine.go numbered.mem
numbered-IsLinked =
    let l = world-IsLinked in
    record {
      tracked = record {
        tracked = l.tracked.tracked;
        null_value = l.tracked.null_value;
        next_ne_null = l.tracked.next_ne_null;
      };
      stored = l.stored;
      consistent = l.consistent;
      wrapped = l.wrapped;
      apart = l.apart;
      live = l.live;
      contexts_apart = l.contexts_apart;
    }

numbered-Admits : Admits numbered.engine.go 1 isolate entering
numbered-Admits = record {
  iso_ne_null = isolate-Admits.iso_ne_null;
  here = refl;
  ptr_ne_null = isolate-Admits.ptr_ne_null;
  admitted = isolate-Admits.admitted;
}

-- The host function 30 returns the value 3.
abbrev hosts : HostUser Toy
hosts = record { host_function = λ fn info. gv.Go.pure (3, none) }

not_lent : (l : List Ptr) → ((u : Ptr) → has u l ≡ true → 5 ≤ u) → has 3 l ≡ false
not_lent l f = elim (Bool-cases (has 3 l)) [ inl h ↦ absurd (ground (arith, f 3 h)) | inr h ↦ h ]

hosts-Respects : Respects host_calls hosts 30 2 context (9 ∷ 9 ∷ []) numbered
unfolding gv.Go.pure
hosts-Respects = record {
  answer = λ lent info w1 l.
      let (i, gate, a) = l.entry in
      record {
        value = 3;
        ptr = 8;
        home = 2;
        owner = context;
        isolate = i;
        gate = gate;
        wrapper = wrapper 1 7;
        handle = 20;
        after = w1;
        ends = refl;
        linked = l.linked;
        here = l.others 3 (not_lent lent l.fresh);
        ptr_ne_null = λ e. ground arith;
        home_ne_null = λ e. ground arith;
        at_home = ap (λ f. f 2) l.contexts;
        admits = a;
        live = ap (λ (m : Memory). m.values 8) l.mem;
        holds = refl;
        retained = retains w1 l.mem;
        stays = λ u e. e;
      };
}

function_callback-IsReturned_example :
    (w' : World (Native Toy)) × (q : Ptr) × (function_callback user creation_calls host_calls hosts
        (pos 1)
        (pos 1)
        9
        (9 ∷ [])
        numbered
      ≡ ok (done (found_value q)) w')
    × IsReturned host_calls hosts 30 2 context (9 ∷ 9 ∷ []) q numbered w'
unfolding get_int
function_callback-IsReturned_example =
    function_callback-IsReturned user creation_calls host_calls hosts (pos 1) (pos 1) 2 30 9
      (9 ∷ []) context isolate entering numbered numbered-IsLinked refl refl (λ e. ground arith)
      (λ e. ground arith) (λ e. ground arith) ((λ e. ground arith), tt) refl refl numbered-Admits
      (λ u e. (pos 1, refl)) hosts-Respects
