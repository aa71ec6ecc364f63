-- ===== src/Go/Arguments/Lawful.antt =====
-- The functions of gv8.cc that materializeValue calls keep their promise, in a V8 that leaves the Go side
-- alone where it makes a value.
use gv.Prelude.{
  ℕ, ◌≡◌, ◌≤◌, inl, inr, refl, sym, subst, ap, ◌∙◌, [], ◌∷◌, arith, length, not, ltb, ◌%◌, ◌^◌,
  take, le→leb, Bool-cases,
}
use gv.Prelude.Int.{ℤ, pos, pos_part, int_of, ◌==ℤ◌}
use gv.Memory.{Ptr, Gv8Ctx}
use gv.Memory.Invariant.{IsConsistent}
use gv.Run
use gv.Run.{World, Run, ok}
use gv.Scope.{Scope}
use gv.Scope.Live.{IsLiveCtx, ctx_scope_run}
use gv.V8.{V8, Text, Local, Caught, Try, returned, threw, RtnError}
use gv.Errors.{exception_error}
use gv.Results.{RtnValue, wrap_result, rtn_error, flag}
use gv.Creation.{
  wrap_new, new_string, new_boolean, new_integer, new_number, new_null, new_uint8_array_copy,
}
use gv.Go.{Native}
use gv.Go.Results.{User}
use gv.Go.Creation.{creation_calls, c_len, bytes_ptr}
use gv.Go.Creation.Answers.{IsWrapped, failed}
use gv.Go.Creation.Wrapped.{wrap_new_lem, wrap_new-IsWrapped}
use gv.Go.Arguments.Promises.{Creates, KeepsIsolates}

module _ {E : Type 0} (v : V8 (Native E)) where
  -- The exception is made an error without a call back into the program.
  abbrev pub ThrowsQuietly : Caught → Type 0
  ThrowsQuietly c =
      (iso : Ptr) (ctx : Local) (w : World (Native E))
      → (e : RtnError) × (w' : World (Native E)) × (exception_error v iso ctx c w ≡ ok e w')
        × (w'.mem ≡ w.mem)
        × (w'.engine.go ≡ w.engine.go)

  -- V8 makes numbers, buffers and views without a call back into the program, and a string, or it throws
  -- where the text is too long.
  pub record IsQuiet : Type 0 where
    pub number : (iso : Ptr) (d : ℕ) (e : Native E) → (v.number_new iso d e).1.go ≡ e.go
    pub buffer : (iso : Ptr) (b : Text) (e : Native E) → (v.array_buffer_new iso b e).1.go ≡ e.go
    pub view : (b : Local) (from n : ℕ) (e : Native E) → (v.uint8_array_new b from n e).1.go ≡ e.go
    pub string :
        (iso : Ptr) (t : Text) (n : ℤ) (e : Native E)
        → (v.string_new_from_utf8 iso t n e).1.go ≡ e.go
    pub thrown :
        (iso : Ptr) (t : Text) (n : ℤ) (e : Native E) (c : Caught)
        → (v.string_new_from_utf8 iso t n e).0 ≡ threw c
        → ThrowsQuietly c

-- `static_cast<int>` of a length is no more than it, where it is positive.
int_of_le : (n : ℕ) → pos_part (int_of n) ≤ n
int_of_le n = elim (Bool-cases (ltb (n % 2 ^ 32) (2 ^ 31))) [
  | inl e ↦ rw e (omega arith)
  | inr e ↦ rw e (omega arith)
]

module _ {E : Type 0} (v : V8 (Native E)) (q : IsQuiet v) (p : Ptr) (c : Gv8Ctx) (s : Scope)
    (w : World (Native E)) (l : IsLiveCtx w.mem p c s) where
  abbrev Kept : Run (Native E) RtnValue → Type 0
  Kept o = IsWrapped p w o × KeepsIsolates w.mem o

  wrap_new-Kept :
      {o : Run (Native E) RtnValue} (h : Local) (e : Native E)
      → o ≡ wrap_new v p s h (record w { engine = e })
      → e.go ≡ w.engine.go
      → Kept o
  wrap_new-Kept h e same quiet = (
    wrap_new-IsWrapped v p c s w l h e same quiet,
    subst (KeepsIsolates w.mem) (sym (same ∙ wrap_new_lem v p c s w l h e)) refl,
  )

  wrap_result-Kept :
      {o : Run (Native E) RtnValue} (str : Try Local) (e : Native E)
      → IsConsistent w.mem
      → o ≡ wrap_result v p s str (record w { engine = e })
      → e.go ≡ w.engine.go
      → ((x : Caught) → str ≡ threw x → ThrowsQuietly v x)
      → Kept o
  unfolding wrap_new wrap_result Run.◌>>=◌
  wrap_result-Kept (returned h) e k same quiet thrown = wrap_new-Kept h e same quiet
  wrap_result-Kept (threw x) e k same quiet thrown =
      let (err, w', run, mem, go) = thrown x refl s.iso s.local_ctx (record w { engine = e }) in
      let ends = same ∙ rw run refl in
      subst Kept (sym ends) (
        failed (rtn_error err) w' refl (ap (λ m. m.ctxs) mem) (ap (λ m. m.values) mem)
            (subst IsConsistent (sym mem) k) (go ∙ quiet),
        ap (λ m. m.isolates) mem,
      )

  boolean-Kept : (b : ℤ) → Kept (new_boolean v p b w)
  unfolding new_boolean Run.◌>>=◌
  boolean-Kept b =
      wrap_new-Kept (v.boolean_new s.iso (not (b ==ℤ pos 0)) w.engine) w.engine
        (rw (ctx_scope_run w p c s l) refl) refl

  null-Kept : Kept (new_null v p w)
  unfolding new_null Run.◌>>=◌
  null-Kept =
      wrap_new-Kept (v.null_value s.iso w.engine) w.engine (rw (ctx_scope_run w p c s l) refl) refl

  number-Kept : (d : ℕ) → Kept (new_number v p d w)
  unfolding new_number Run.◌>>=◌
  number-Kept d =
      let (h, e) = v.number_new s.iso d w.engine in
      wrap_new-Kept h e (rw (ctx_scope_run w p c s l) refl) (q.number s.iso d w.engine)

  integer-Kept : (n : ℤ) → Kept (new_integer v p n w)
  unfolding new_integer Run.◌>>=◌
  integer-Kept n =
      let (h, e) = v.number_new s.iso (v.double_of_int64 n) w.engine in
      wrap_new-Kept h e (rw (ctx_scope_run w p c s l) refl)
        (q.number s.iso (v.double_of_int64 n) w.engine)

  string-Kept : IsConsistent w.mem → (t : Text) (n : ℤ) → Kept (new_string v p t n w)
  unfolding new_string Run.◌>>=◌
  string-Kept k t n =
      let (str, e) = v.string_new_from_utf8 s.iso t n w.engine in
      wrap_result-Kept str e k (rw (ctx_scope_run w p c s l) refl) (q.string s.iso t n w.engine)
        (q.thrown s.iso t n w.engine)

  octets-Kept : (b : Text) → Kept (new_uint8_array_copy v p (bytes_ptr b) (c_len b) w)
  unfolding new_uint8_array_copy Run.◌>>=◌
  octets-Kept [] =
      let (buffer, e) = v.array_buffer_new s.iso [] w.engine in
      let (view, f) = v.uint8_array_new buffer 0 0 e in
      wrap_new-Kept view f (rw (ctx_scope_run w p c s l) refl)
        (q.view buffer 0 0 e ∙ q.buffer s.iso [] w.engine)
  octets-Kept (x ∷ t) =
      let n = pos_part (c_len (x ∷ t)) in
      let fits = le→leb n (length (x ∷ t)) (int_of_le (length (x ∷ t))) in
      let (buffer, e) = v.array_buffer_new s.iso (take n (x ∷ t)) w.engine in
      let (view, f) = v.uint8_array_new buffer 0 n e in
      wrap_new-Kept view f (rw (ctx_scope_run w p c s l, fits) refl)
        (q.view buffer 0 n e ∙ q.buffer s.iso (take n (x ∷ t)) w.engine)

-- The program's own functions keep the promise.
pub creation_calls-Creates :
    {E : Type 0} (user : User E) (ctx : Ptr) (v : V8 (Native E))
    → IsQuiet v
    → Creates user ctx (creation_calls v)
unfolding creation_calls
creation_calls-Creates user ctx v q = record {
  null_wraps = λ w k. let (c, s, l) = k.usable in null-Kept v q k.owner.ptr c s _ l;
  string_wraps = λ t w k.
      let (c, s, l) = k.usable in
      string-Kept v q k.owner.ptr c s _ l k.linked.consistent t (c_len t);
  boolean_wraps =
      λ b w k. let (c, s, l) = k.usable in boolean-Kept v q k.owner.ptr c s _ l (flag b);
  integer_wraps = λ n w k. let (c, s, l) = k.usable in integer-Kept v q k.owner.ptr c s _ l n;
  number_wraps = λ d w k. let (c, s, l) = k.usable in number-Kept v q k.owner.ptr c s _ l d;
  octets_wraps = λ b w k. let (c, s, l) = k.usable in octets-Kept v q k.owner.ptr c s _ l b;
}
