-- ===== src/Creation/Arrays.antt =====
-- GV8ContextNewArray: the length that reaches V8.
use gv.Prelude.{ℕ, ◌^◌, ◌-◌, ◌<◌, ◌≤◌, ◌≡◌, refl, some}
use gv.Prelude.Int.{ℤ, pos, negsuc, int_of_small, int_of_large}
use gv.Memory.{Ptr, Gv8Ctx}
use gv.Memory.Values.{wrap_value}
use gv.Memory.Wrap.{wrap_at, wrap_lem}
use gv.Run.{World, Run, ok, ◌>>=◌}
use gv.V8.{V8}
use gv.Scope.{Scope}
use gv.Scope.Live.{IsLiveCtx, ctx_scope_run}
use gv.Results.{RtnValue, rtn_value, wrap_result}
use gv.Creation.{context_new_array, wrap_new}

module _ {E : Type 0} (v : V8 E) (ctx_ptr : Ptr) (c : Gv8Ctx) (s : Scope) (w : World E)
    (l : IsLiveCtx w.mem ctx_ptr c s) where
  -- The end of a call that asks V8 for an array of this length, and wraps it.
  abbrev pub array_of : ℤ → Run E RtnValue
  array_of n = ok (rtn_value w.mem.next) (record {
    engine = (v.array_new s.iso n w.engine).1;
    mem = wrap_at w.mem ctx_ptr c s.iso (v.array_new s.iso n w.engine).0;
  })

  -- In a live context GV8ContextNewArray returns a new wrapper of the array that V8 makes. V8 is
  -- asked for the length that was given if that is below 2^31, and for a negative length, the given
  -- one less 2^32, if it is not.
  pub context_new_array-array_of :
      (length : ℕ)
      → (length < 2 ^ 31 → context_new_array v ctx_ptr length w ≡ array_of (pos length))
        × (2 ^ 31 ≤ length
            → length < 2 ^ 32
            → context_new_array v ctx_ptr length w ≡ array_of (negsuc (2 ^ 32 - length - 1)))
  unfolding context_new_array wrap_new wrap_result ◌>>=◌
  context_new_array-array_of length = (
    λ h. rw (ctx_scope_run w ctx_ptr c s l, int_of_small length h, wrapped (pos length)) refl,
    λ h k.
        rw
          (
            ctx_scope_run w ctx_ptr c s l,
            int_of_large length h k,
            wrapped (negsuc (2 ^ 32 - length - 1)),
          )
          refl,
  )
    where
      wrapped :
          (n : ℤ)
          → wrap_value ctx_ptr s.iso (v.array_new s.iso n w.engine).0 w.mem
            ≡ some (w.mem.next, wrap_at w.mem ctx_ptr c s.iso (v.array_new s.iso n w.engine).0)
      wrapped n = wrap_lem w.mem ctx_ptr s.iso (v.array_new s.iso n w.engine).0 c l.found
