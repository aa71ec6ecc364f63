-- ===== src/Go/Resolvers.antt =====
-- context.go: bindModuleResolver, moduleResolverForScript, moduleResolverForResource. A module is given
-- by its ScriptID and its ResourceName, a resolver by its identity; an entry of a map that is written
-- again stands before the old one.
pub mod Bound
use gv.Prelude.{
  ℕ, Bool, true, false, not, ◌&&◌, Option, none, some, List, [], ◌∷◌, if◌then◌else◌, ◌==◌,
}
use gv.Prelude.Int.{ℤ, pos, ◌==ℤ◌}
use gv.Memory.{Ptr, null}
use gv.V8.{Text}
use gv.Go.{Context, Alter}
use gv.Go.Objects.{pure, ◌>>=◌, context_at, write_context}

infix 50 ◌==T◌
abbrev pub ◌==T◌ : Text → Text → Bool
[] ==T [] = true
[] ==T (b ∷ u) = false
(a ∷ t) ==T [] = false
(a ∷ t) ==T (b ∷ u) = (a == b) && (t ==T u)

abbrev pub find_script : ℤ → List (ℤ × ℕ) → Option ℕ
find_script k [] = none
find_script k ((j, r) ∷ l) = if j ==ℤ k then some r else find_script k l

abbrev pub find_name : Text → List (Text × ℕ) → Option ℕ
find_name k [] = none
find_name k ((j, r) ∷ l) = if j ==T k then some r else find_name k l

abbrev put_script : ℤ → ℕ → Option (List (ℤ × ℕ)) → Option (List (ℤ × ℕ))
put_script id r none = none
put_script id r (some l) = if id ==ℤ pos 0 then some l else some ((id, r) ∷ l)

abbrev put_name : Text → ℕ → Option (List (Text × ℕ)) → Option (List (Text × ℕ))
put_name name r none = none
put_name name r (some l) = if name ==T [] then some l else some ((name, r) ∷ l)

abbrev pub bound : Context → ℤ → Text → ℕ → Context
bound c id name r = record c {
  module_resolvers_by_script = put_script id r c.module_resolvers_by_script;
  module_resolvers_by_name = put_name name r c.module_resolvers_by_name;
}

-- bindModuleResolver, for a module and a resolver that are not nil
unfoldable pub bind_module_resolver : Ptr → ℤ → Text → ℕ → Alter (Unit {0})
bind_module_resolver ctx id name r =
    if ctx == null
    then pure tt
    else do c ← context_at ctx; if c.closed then pure tt else write_context ctx (bound c id name r)

abbrev in_scripts : ℤ → Option (List (ℤ × ℕ)) → Option ℕ
in_scripts id none = none
in_scripts id (some l) = find_script id l

abbrev in_names : Text → Option (List (Text × ℕ)) → Option ℕ
in_names name none = none
in_names name (some l) = find_name name l

-- moduleResolverForScript
unfoldable pub module_resolver_for_script : Ptr → ℤ → Alter (Option ℕ)
module_resolver_for_script ctx id =
    if ctx == null
    then pure none
    else (if id ==ℤ pos 0
        then pure none
        else do c ← context_at ctx; pure (in_scripts id c.module_resolvers_by_script))

-- moduleResolverForResource
unfoldable pub module_resolver_for_resource : Ptr → Text → Alter (Option ℕ)
module_resolver_for_resource ctx name =
    if ctx == null
    then pure none
    else (if name ==T []
        then pure none
        else do c ← context_at ctx; pure (in_names name c.module_resolvers_by_name))
