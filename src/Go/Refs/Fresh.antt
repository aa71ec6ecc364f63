-- ===== src/Go/Refs/Fresh.antt =====
-- A table of host functions: what a number leads to.
use gv.Prelude.{
  ℕ, suc, ◌<◌, ◌≡◌, ◌≢◌, refl, ap, ◌∙◌, none, List, [], ◌∷◌, arith, ◌==◌, if◌then◌else◌, Bool-cases,
  inl, inr, ltb, update, ◌≤◌, ◌^◌, ◌⊎◌,
}
use gv.Prelude.Int.{int_of, int_of_small, int_of_large}
use gv.Memory.{Ptr, lookup}
use gv.Memory.Tables.{Distinct, lookup-insert, lookup-erase, Distinct-insert, Distinct-erase}
use gv.Go.{Registry}
use gv.Go.Values.{has}
use gv.Go.Refs.{
  get_ref, get_int, set_ref, delete_ref, register_host_function, unregister_host_functions,
}

-- No number stands twice, and those above the last one given out do not stand at all.
pub record IsFresh (r : Registry) : Type 0 where
  pub distinct : Distinct r.refs
  pub unused : (k : ℕ) → r.seq < k → lookup k r.refs ≡ none

pub get-set : (k : ℕ) (p : Ptr) (r : Registry) → get_ref k (set_ref k p r) ≡ p
unfolding get_ref set_ref
get-set k p r = ground (arith, lookup-insert k k p r.refs)

pub get-delete :
    (j k : ℕ) (r : Registry)
    → IsFresh r
    → get_ref j (delete_ref k r) ≡ (if k == j then 0 else get_ref j r)
unfolding get_ref delete_ref
get-delete j k r i = ground (arith, lookup-erase j k r.refs i.distinct)

delete-IsFresh : (k : ℕ) (r : Registry) → IsFresh r → IsFresh (delete_ref k r)
unfolding delete_ref
delete-IsFresh k r i = record {
  distinct = Distinct-erase k r.refs i.distinct;
  unused = λ j a. ground (arith, lookup-erase j k r.refs i.distinct, i.unused j a);
}

-- What a table of numbers promises after unregisterHostFunctions.
pub unregister_host_functions-get :
    (ids : List ℕ) (r : Registry)
    → IsFresh r
    → IsFresh (unregister_host_functions ids r)
      × ((j : ℕ)
          → get_ref j (unregister_host_functions ids r) ≡ (if has j ids then 0 else get_ref j r))
unfolding unregister_host_functions
unregister_host_functions-get [] r i = (i, λ j. refl)
unregister_host_functions-get (k ∷ ids) r i =
    let (f, l) = unregister_host_functions-get ids (delete_ref k r) (delete-IsFresh k r i) in
    (f, λ j. ground (arith, l j, get-delete j k r i))

-- registerHostFunction: the number is not 0 and led nowhere before; it now leads to the function, and
-- every other number leads where it did.
pub record IsRegistered (fn : Ptr) (r : Registry) (o : ℕ × Registry) : Type 0 where
  pub id_ne_zero : o.0 ≢ 0
  pub new : get_ref o.0 r ≡ 0
  pub found : get_ref o.0 o.1 ≡ fn
  pub others : (k : ℕ) → k ≢ o.0 → get_ref k o.1 ≡ get_ref k r
  pub kept : IsFresh o.1

pub register_host_function-IsRegistered :
    (fn : Ptr) (r : Registry) → IsFresh r → IsRegistered fn r (register_host_function fn r)
unfolding register_host_function get_ref
register_host_function-IsRegistered fn r i = record {
  id_ne_zero = omega arith;
  new = ground (arith, i.unused (suc r.seq));
  found = ground (arith, lookup-insert (suc r.seq) (suc r.seq) fn r.refs);
  others = λ k n. ground (arith, lookup-insert k (suc r.seq) fn r.refs);
  kept = record {
    distinct = Distinct-insert (suc r.seq) fn r.refs i.distinct;
    unused = λ k a. ground (arith, lookup-insert k (suc r.seq) fn r.refs, i.unused k);
  };
}

le_or_gt : (a b : ℕ) → (a ≤ b) ⊎ (b < a)
le_or_gt a b = elim (Bool-cases (ltb b a)) [
  | inl e ↦ inr (ground (arith, e))
  | inr e ↦ inl (ground (arith, e))
]

-- A function registered under a number below 2^31, passed to C as an `int` and back, is found; under a
-- number from 2^31 to below 2^32 the `int` is negative, and nothing is found.
pub get_int-register :
    (fn : Ptr) (r : Registry)
    → IsFresh r
    → suc r.seq < 2 ^ 32
    → let (id, r') = register_host_function fn r in
      get_int (int_of id) r' ≡ (if ltb id (2 ^ 31) then fn else 0)
unfolding get_int register_host_function get_ref
get_int-register fn r i a = elim (le_or_gt (2 ^ 31) (suc r.seq)) [
  | inl b ↦ rw (int_of_large (suc r.seq) b a) (ground arith)
  | inr b ↦
      rw (int_of_small (suc r.seq) b)
        (ground (arith, lookup-insert (suc r.seq) (suc r.seq) fn r.refs))
]

-- Calls of registerHostFunction and of unregisterHostFunctions.
pub data Change : Type 0 where
  registers : Ptr → Change
  unregisters : List ℕ → Change

pub changes : List Change → Registry → Registry
changes [] r = r
changes (registers fn ∷ l) r = changes l (register_host_function fn r).1
changes (unregisters ids ∷ l) r = changes l (unregister_host_functions ids r)

-- What each number leads to, told without a table: the n-th function registered has the number n.
pub reference : List Change → ℕ → (ℕ → Ptr) → ℕ → Ptr
reference [] n f = f
reference (registers fn ∷ l) n f = reference l (suc n) (update f (suc n) fn)
reference (unregisters ids ∷ l) n f = reference l n (λ j. if has j ids then 0 else f j)

unregister-seq : (ids : List ℕ) (r : Registry) → (unregister_host_functions ids r).seq ≡ r.seq
unfolding unregister_host_functions delete_ref
unregister-seq [] r = refl
unregister-seq (k ∷ ids) r = unregister-seq ids (delete_ref k r)

register-seq : (fn : Ptr) (r : Registry) → (register_host_function fn r).1.seq ≡ suc r.seq
unfolding register_host_function
register-seq fn r = refl

get-register :
    (fn : Ptr) (r : Registry) (j : ℕ)
    → get_ref j (register_host_function fn r).1 ≡ (if suc r.seq == j then fn else get_ref j r)
unfolding register_host_function get_ref
get-register fn r j = ground (arith, lookup-insert j (suc r.seq) fn r.refs)

-- After any calls of the two functions, each number leads where the n-th function registered has the
-- number n, until it is unregistered, and every other number to nil.
pub get-changes :
    (l : List Change) (r : Registry) (f : ℕ → Ptr)
    → IsFresh r
    → ((j : ℕ) → get_ref j r ≡ f j)
    → (j : ℕ) → get_ref j (changes l r) ≡ reference l r.seq f j
unfolding changes reference
get-changes [] r f i e j = e j
get-changes (registers fn ∷ l) r f i e j =
    let k = register_host_function-IsRegistered fn r i in
    get-changes l (register_host_function fn r).1 (update f (suc r.seq) fn) k.kept
      (λ j. get-register fn r j ∙ ap (λ a. if suc r.seq == j then fn else a) (e j)) j
    ∙ ap (λ n. reference l n (update f (suc r.seq) fn) j) (register-seq fn r)
get-changes (unregisters ids ∷ l) r f i e j =
    let (k, m) = unregister_host_functions-get ids r i in
    get-changes l (unregister_host_functions ids r) (λ j. if has j ids then 0 else f j) k
      (λ j. m j ∙ ap (λ a. if has j ids then 0 else a) (e j)) j
    ∙ ap (λ n. reference l n (λ j. if has j ids then 0 else f j) j) (unregister-seq ids r)
