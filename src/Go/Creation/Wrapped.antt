-- ===== src/Go/Creation/Wrapped.antt =====
-- The functions of gv8.h that make values, as the Go side uses them: in a live context they wrap what V8
-- makes, where V8's making of it does not change the Go side.
use gv.Prelude.{ℕ, not, ◌≡◌, ◌∙◌, refl, sym, subst}
use gv.Prelude.Int.{ℤ, pos, ◌==ℤ◌}
use gv.Memory.{Ptr, Gv8Ctx}
use gv.Memory.Wrap.{wrap_at, wrap_lem}
use gv.Run
use gv.Run.{World, Run, ok}
use gv.Scope.{Scope}
use gv.Scope.Live.{IsLiveCtx, ctx_scope_run}
use gv.V8.{V8, Local}
use gv.Results.{RtnValue, rtn_value, wrap_result}
use gv.Creation.{wrap_new, new_boolean, new_integer, new_number, new_null, new_undefined}
use gv.Go.{Native}
use gv.Go.Creation.Answers.{IsWrapped, wrapped}

module _ {E : Type 0} (v : V8 (Native E)) (p : Ptr) (c : Gv8Ctx) (s : Scope) (w : World (Native E))
    (l : IsLiveCtx w.mem p c s) where
  pub wrap_new_lem :
      (h : Local) (e : Native E)
      → wrap_new v p s h (record w { engine = e })
        ≡ ok (rtn_value w.mem.next) (record { engine = e; mem = wrap_at w.mem p c s.iso h })
  unfolding wrap_new wrap_result Run.◌>>=◌
  wrap_new_lem h e = rw (wrap_lem w.mem p s.iso h c l.found) refl

  pub wrap_new-IsWrapped :
      {o : Run (Native E) RtnValue} (h : Local) (e : Native E)
      → o ≡ wrap_new v p s h (record w { engine = e })
      → e.go ≡ w.engine.go
      → IsWrapped p w o
  wrap_new-IsWrapped h e same quiet = subst (IsWrapped p w) (sym (same ∙ wrap_new_lem h e)) (
      wrapped (rtn_value w.mem.next) s.iso h
        (record { engine = e; mem = wrap_at w.mem p c s.iso h })
        (wrap_lem w.mem p s.iso h c l.found) quiet)

  new_boolean-IsWrapped : (b : ℤ) → IsWrapped p w (new_boolean v p b w)
  unfolding new_boolean Run.◌>>=◌
  new_boolean-IsWrapped b =
      wrap_new-IsWrapped (v.boolean_new s.iso (not (b ==ℤ pos 0)) w.engine) w.engine
        (rw (ctx_scope_run w p c s l) refl) refl

  new_null-IsWrapped : IsWrapped p w (new_null v p w)
  unfolding new_null Run.◌>>=◌
  new_null-IsWrapped =
      wrap_new-IsWrapped (v.null_value s.iso w.engine) w.engine (rw (ctx_scope_run w p c s l) refl)
        refl

  new_undefined-IsWrapped : IsWrapped p w (new_undefined v p w)
  unfolding new_undefined Run.◌>>=◌
  new_undefined-IsWrapped =
      wrap_new-IsWrapped (v.undefined_value s.iso w.engine) w.engine
        (rw (ctx_scope_run w p c s l) refl) refl

  new_number-IsWrapped :
      (d : ℕ)
      → (v.number_new s.iso d w.engine).1.go ≡ w.engine.go
      → IsWrapped p w (new_number v p d w)
  unfolding new_number Run.◌>>=◌
  new_number-IsWrapped d quiet =
      let (h, e) = v.number_new s.iso d w.engine in
      wrap_new-IsWrapped h e (rw (ctx_scope_run w p c s l) refl) quiet

  new_integer-IsWrapped :
      (n : ℤ)
      → (v.number_new s.iso (v.double_of_int64 n) w.engine).1.go ≡ w.engine.go
      → IsWrapped p w (new_integer v p n w)
  unfolding new_integer Run.◌>>=◌
  new_integer-IsWrapped n quiet =
      let (h, e) = v.number_new s.iso (v.double_of_int64 n) w.engine in
      wrap_new-IsWrapped h e (rw (ctx_scope_run w p c s l) refl) quiet
