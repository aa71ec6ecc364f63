-- ===== src/Tests/Modules.antt =====
-- A module that a resolver finds.
use gv.Prelude.{◌≡◌, refl, none, some, [], ◌∷◌, arith, update, if◌then◌else◌, ◌==◌}
use gv.Prelude.Int.{pos}
use gv.Run.{World, ok}
use gv.Results.{rtn_value, rtn_ptr}
use gv.Errors.{empty_error}
use gv.Go.{Context, Module, Native, done}
use gv.Go.Access.{Gate, open_gate, enter_gate, leave_gate}
use gv.Go.Enter.Lent.{Admits}
use gv.Go.Refs.{get_int}
use gv.Go.Resolvers.{module_resolver_for_script}
use gv.Go.Guards.Valid.{outside}
use gv.Go.Host.{found_value}
use gv.Go.Modules.{ModuleCalls}
use gv.Go.Modules.Callbacks.{ModuleUser, resolve_module_callback}
use gv.Go.Modules.Inherited.{IsInherited, with_referrer, resolve_module_callback-IsInherited}
use gv.Tests.Engine.{Toy}
use gv.Tests.Hosts.{user, creation_calls}
use gv.Tests.Lives.{world, context, isolate, isolate-Admits}

-- The script of number 4 is resolved by the resolver 40; the module 3 has the number 5.
abbrev bound_context : Context
bound_context = record context { module_resolvers_by_script = some ((pos 4, 40) ∷ []) }

abbrev found : Module
found = record { ptr = 60; iso = 1; resource_name = 97 ∷ [] }

abbrev importing : World (Native Toy)
importing = record world {
  engine = record world.engine {
    go = record world.engine.go {
      contexts = update world.engine.go.contexts 2 (some bound_context);
      modules = update world.engine.go.modules 3 (some found);
      ctx_refs = record { seq = 1; refs = (1, 2) ∷ [] };
    };
  };
}

abbrev module_calls : ModuleCalls (Native Toy)
module_calls = record {
  compile_module = λ i s o l c. ok (rtn_ptr 60);
  module_release = λ p. ok tt;
  module_instantiate = λ c p. ok empty_error;
  module_evaluate = λ c p. ok (rtn_value 0);
  module_get_namespace = λ c p. ok 0;
  module_get_status = λ p. ok (pos 0);
  module_get_script_id = λ p. ok (if p == 60 then pos 5 else pos 4);
}

abbrev module_user : ModuleUser Toy
module_user = record {
  resolve_module = λ r ctx specifier referrer. gv.Go.pure (3, none);
  resolve_dynamic_import = λ r. none;
  module_failure_handler = λ k s r e. gv.Go.pure tt;
}

abbrev entering : Gate
entering = record { owner_thread = 5; depth = 1 }

abbrev resolved : World (Native Toy)
resolved = outside (with_referrer importing 50 1) 1 isolate entering open_gate

importing-Admits : Admits importing.engine.go 1 isolate entering
importing-Admits = record {
  iso_ne_null = isolate-Admits.iso_ne_null;
  here = refl;
  ptr_ne_null = isolate-Admits.ptr_ne_null;
  admitted = isolate-Admits.admitted;
}

resolved-Admits : Admits resolved.engine.go 1 isolate entering
unfolding enter_gate
resolved-Admits = record {
  iso_ne_null = isolate-Admits.iso_ne_null;
  here = refl;
  ptr_ne_null = isolate-Admits.ptr_ne_null;
  admitted = refl;
}

resolve_module_callback-IsInherited_example :
    (w' : World (Native Toy)) × (resolve_module_callback user module_user creation_calls
        module_calls
        (pos 1)
        (some (98 ∷ []))
        50
        importing
      ≡ ok (done (found_value 60)) w')
    × IsInherited 2 (pos 5) (97 ∷ []) 40 resolved w'
unfolding get_int leave_gate module_resolver_for_script gv.Go.pure
resolve_module_callback-IsInherited_example =
    resolve_module_callback-IsInherited user module_user creation_calls module_calls (pos 1) 2
      bound_context bound_context (some (98 ∷ [])) 50 (pos 4) (pos 5) 40 isolate isolate entering
      open_gate entering 3 found (record { ptr = 50; iso = 1; resource_name = [] })
      ((pos 4, 40) ∷ []) [] importing resolved refl (λ e. ground arith) refl (λ e. ground arith)
      (λ e. ground arith) importing-Admits refl refl refl refl refl (λ e. ground arith) refl
      (λ e. ground arith) resolved-Admits refl refl refl refl refl
