-- ===== src/Go/Arguments/Promises.antt =====
-- What C promises of the calls that materializeValue makes.
use gv.Prelude.{ℕ, Bool, ◌≡◌, refl, sym, subst, ap, ◌∙◌}
use gv.Prelude.Int.{ℤ}
use gv.Memory.{Ptr, Memory}
use gv.Run.{World, Run, Cmd, ok, fault, abort}
use gv.Scope.Live.{IsUsable, IsUsable-kept, IsUsable-wrap_value}
use gv.V8.{Text}
use gv.Results.{RtnValue, flag}
use gv.Go.{Native}
use gv.Go.Results.{User}
use gv.Go.Creation.{CreationCalls, c_len, bytes_ptr}
use gv.Go.Creation.Answers.{IsWrapped, wrapped, failed}
use gv.Go.Creation.Linked.{inside}
use gv.Go.Globals.Kept.{Ready}

-- The isolates of C are what they were.
abbrev pub KeepsIsolates : {E : Type 0} → Memory → Run (Native E) RtnValue → Type 0
KeepsIsolates m (ok rtn a) = a.mem.isolates ≡ m.isolates
KeepsIsolates m fault = Unit {0}
KeepsIsolates m abort = Unit {0}

abbrev mem_of : {E : Type 0} → Memory → Run (Native E) RtnValue → Memory
mem_of m (ok rtn a) = a.mem
mem_of m fault = m
mem_of m abort = m

same_run :
    {E : Type 0} {rtn rtn' : RtnValue} {a a' : World (Native E)}
    → ok rtn a ≡ ok rtn' a'
    → a.mem ≡ a'.mem
same_run {a} e = ap (λ o. mem_of a.mem o) e

-- C can still work in the context after such a call.
pub IsWrapped-IsUsable :
    {E : Type 0} (p : Ptr) (w w' : World (Native E)) (o : Run (Native E) RtnValue) (rtn : RtnValue)
    (a : World (Native E))
    → IsWrapped p w o
    → KeepsIsolates w.mem o
    → o ≡ ok rtn a
    → w'.mem ≡ a.mem
    → IsUsable w.mem p
    → IsUsable w'.mem p
IsWrapped-IsUsable p w w' o rtn a (wrapped r iso h b e q) keeps run mem u =
    subst (λ m. IsUsable m p) (same_run run ∙ sym mem) (IsUsable-wrap_value iso h r.value u e)
IsWrapped-IsUsable p w w' o rtn a (failed r b z cs vs k q) keeps run mem u =
    subst (λ m. IsUsable m p) (same_run run ∙ sym mem)
      (IsUsable-kept u keeps (λ c f. (c, ap (λ t. t p) cs ∙ f, refl, refl)))

module _ {E : Type 0} (user : User E) (ctx : Ptr) where
  -- The call of C wraps a value or fails, wherever the Go side makes it from, and leaves the isolates.
  abbrev pub Wraps : (Ptr → Cmd (Native E) RtnValue) → Type 0
  Wraps call =
      (w : World (Native E)) (k : Ready ctx w)
      → IsWrapped k.owner.ptr (inside user ctx k.owner k.isolate k.gate w)
          (call k.owner.ptr (inside user ctx k.owner k.isolate k.gate w))
        × KeepsIsolates w.mem (call k.owner.ptr (inside user ctx k.owner k.isolate k.gate w))

  -- The same of the calls that materializeValue makes.
  pub record Creates (c : CreationCalls (Native E)) : Type 0 where
    pub null_wraps : Wraps c.new_null
    pub string_wraps : (t : Text) → Wraps (λ p. c.new_string p t (c_len t))
    pub boolean_wraps : (b : Bool) → Wraps (λ p. c.new_boolean p (flag b))
    pub integer_wraps : (n : ℤ) → Wraps (λ p. c.new_integer p n)
    pub number_wraps : (d : ℕ) → Wraps (λ p. c.new_number p d)
    pub octets_wraps : (b : Text) → Wraps (λ p. c.new_uint8_array_copy p (bytes_ptr b) (c_len b))
