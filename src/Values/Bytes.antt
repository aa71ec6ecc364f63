-- ===== src/Values/Bytes.antt =====
-- GV8NewArrayBufferCopy and GV8ValueBytes, and the length of what is read.
use gv.Prelude.{◌^◌, ◌<◌, ◌≤◌, ◌≡◌, true, some, arith, refl, length, take_all, ap, ◌∙◌, ◌-◌, le→leb}
use gv.Prelude.Int.{ℤ, pos, negsuc, int_of, int_of_small, int_of_large}
use gv.Memory.{Ptr, Gv8Ctx}
use gv.Memory.Wrap.{wrap_at, wrap_lem, tracked, enlist}
use gv.Run.{World, ok, ◌>>=◌}
use gv.V8.{V8, Text, Local, array_buffer}
use gv.Scope.{Scope}
use gv.Scope.Live.{IsLive, IsLiveCtx, ctx_scope_run, value_scope_run, handle_of_run}
use gv.Errors.{empty_error}
use gv.Results.{RtnData, rtn_value, wrap_result}
use gv.Creation.{new_array_buffer_copy, wrap_new}
use gv.Values.{value_bytes, window_of, buffer_window, copy_window}

-- What V8 says of `ArrayBuffer::New` with a backing store: the value is an ArrayBuffer over it.
pub record HoldsBuffers {E : Type 0} (v : V8 E) : Type 0 where
  pub is_buffer :
      (iso : Ptr) (t : Text) (e : E)
      → v.is array_buffer (v.array_buffer_new iso t e).0 (v.array_buffer_new iso t e).1 ≡ true
  pub store :
      (iso : Ptr) (t : Text) (e : E)
      → v.backing_store (v.array_buffer_new iso t e).0 (v.array_buffer_new iso t e).1 ≡ t

-- A copy of bytes, and the length that is said of it.
abbrev pub data_of : Text → ℤ → RtnData
data_of t n = record { bytes = some t; length = n; error = empty_error }

module _ {E : Type 0} (v : V8 E) where
  value_bytes_run :
      (p : Ptr) (s : Scope) (h : Local) (w : World E)
      → IsLive w.mem p s h
      → v.is array_buffer h w.engine ≡ true
      → value_bytes v p w
        ≡ ok (data_of (v.backing_store h w.engine) (int_of (length (v.backing_store h w.engine)))) w
  unfolding value_bytes window_of buffer_window copy_window ◌>>=◌
  value_bytes_run p s h w l b =
      rw
        (
          value_scope_run w p s h l,
          handle_of_run w p s h l,
          b,
          le→leb (length (v.backing_store h w.engine)) (length (v.backing_store h w.engine))
              (omega arith),
          take_all (v.backing_store h w.engine),
        )
        refl

  -- GV8ValueBytes of a live ArrayBuffer copies its whole backing store. The length that it returns
  -- is the store's below 2^31 bytes, and is negative from there to 2^32: the size less 2^32.
  pub value_bytes-int_of :
      (p : Ptr) (s : Scope) (h : Local) (w : World E)
      → IsLive w.mem p s h
      → v.is array_buffer h w.engine ≡ true
      → (n : ℤ) × (value_bytes v p w ≡ ok (data_of (v.backing_store h w.engine) n) w)
        × (length (v.backing_store h w.engine) < 2 ^ 31
            → n ≡ pos (length (v.backing_store h w.engine)))
        × (2 ^ 31 ≤ length (v.backing_store h w.engine)
            → length (v.backing_store h w.engine) < 2 ^ 32
            → n ≡ negsuc (2 ^ 32 - length (v.backing_store h w.engine) - 1))
  value_bytes-int_of p s h w l b = (
    int_of (length (v.backing_store h w.engine)),
    value_bytes_run p s h w l b,
    int_of_small (length (v.backing_store h w.engine)),
    int_of_large (length (v.backing_store h w.engine)),
  )

module _ {E : Type 0} (v : V8 E) (buffers : HoldsBuffers v) where
  abbrev filled : Ptr → Gv8Ctx → Scope → Text → World E → World E
  filled ctx_ptr c s t w = record {
    engine = (v.array_buffer_new s.iso t w.engine).1;
    mem = wrap_at w.mem ctx_ptr c s.iso (v.array_buffer_new s.iso t w.engine).0;
  }

  new_array_buffer_copy_run :
      (ctx_ptr : Ptr) (c : Gv8Ctx) (s : Scope) (t : Text) (w : World E)
      → IsLiveCtx w.mem ctx_ptr c s
      → new_array_buffer_copy v ctx_ptr (some t) (pos (length t)) w
        ≡ ok (rtn_value w.mem.next) (filled ctx_ptr c s t w)
  unfolding new_array_buffer_copy wrap_new wrap_result ◌>>=◌
  new_array_buffer_copy_run ctx_ptr c s t w l =
      rw
        (
          ctx_scope_run w ctx_ptr c s l,
          le→leb (length t) (length t) (omega arith),
          take_all t,
          wrap_lem w.mem ctx_ptr s.iso (v.array_buffer_new s.iso t w.engine).0 c l.found,
        )
        refl

  filled-IsLive :
      (ctx_ptr : Ptr) (c : Gv8Ctx) (s : Scope) (t : Text) (w : World E)
      → IsLiveCtx w.mem ctx_ptr c s
      → IsLive (filled ctx_ptr c s t w).mem w.mem.next s (v.array_buffer_new s.iso t w.engine).0
  filled-IsLive ctx_ptr c s t w l = record {
    value = tracked c ctx_ptr s.iso (v.array_buffer_new s.iso t w.engine).0;
    ctx = enlist c w.mem.next;
    slots = l.slots;
    found = ground arith;
    found_ctx = ground arith;
    found_iso = rw⁻¹ l.iso l.found_iso;
    iso = refl;
    local_ctx = l.local_ctx;
    handle = refl;
  }

  -- In a live context: GV8NewArrayBufferCopy of some bytes returns a value, and GV8ValueBytes of
  -- that value returns the same bytes and no error, without a change of the world; the length that
  -- it returns is the number of bytes if there are fewer than 2^31, as any `int` allows.
  pub value_bytes-new_array_buffer_copy :
      (ctx_ptr : Ptr) (c : Gv8Ctx) (s : Scope) (t : Text) (w : World E)
      → IsLiveCtx w.mem ctx_ptr c s
      → length t < 2 ^ 31
      → (p : Ptr) × (w' : World E) × (new_array_buffer_copy v ctx_ptr (some t) (pos (length t)) w
          ≡ ok (rtn_value p) w')
        × (value_bytes v p w' ≡ ok (data_of t (pos (length t))) w')
  value_bytes-new_array_buffer_copy ctx_ptr c s t w l small = (
    w.mem.next,
    filled ctx_ptr c s t w,
    new_array_buffer_copy_run ctx_ptr c s t w l,
    value_bytes_run v w.mem.next s (v.array_buffer_new s.iso t w.engine).0 (filled ctx_ptr c s t w)
          (filled-IsLive ctx_ptr c s t w l) (buffers.is_buffer s.iso t w.engine)
        ∙ ap (λ x. ok (data_of x (int_of (length x))) (filled ctx_ptr c s t w))
            (buffers.store s.iso t w.engine)
        ∙ ap (λ n. ok (data_of t n) (filled ctx_ptr c s t w)) (int_of_small (length t) small),
  )
