-- ===== src/Values/Views.antt =====
-- GV8NewUint8ArrayCopy and GV8ValueBytes, through a view.
use gv.Prelude.{◌^◌, ◌<◌, ◌≡◌, true, false, some, arith, refl, length, take_all, ap, ◌∙◌, le→leb}
use gv.Prelude.Int.{pos, int_of, int_of_small}
use gv.Memory.{Ptr, Gv8Ctx}
use gv.Memory.Wrap.{wrap_at, wrap_lem, tracked, enlist}
use gv.Run.{World, ok, ◌>>=◌}
use gv.V8.{V8, Text, Local, array_buffer, array_buffer_view}
use gv.Scope.{Scope}
use gv.Scope.Live.{IsLive, IsLiveCtx, ctx_scope_run, value_scope_run, handle_of_run}
use gv.Results.{rtn_value, wrap_result}
use gv.Creation.{new_uint8_array_copy, wrap_new}
use gv.Values.{value_bytes, window_of, view_window, copy_window}
use gv.Values.Bytes.{data_of}

-- A Uint8Array over a new ArrayBuffer of these bytes, from its first byte on.
abbrev pub view_of : {E : Type 0} → V8 E → Ptr → Text → E → Local × E
view_of v iso t e =
    v.uint8_array_new (v.array_buffer_new iso t e).0 0 (length t) (v.array_buffer_new iso t e).1

-- What V8 says of such a view.
pub record HoldsViews {E : Type 0} (v : V8 E) : Type 0 where
  pub is_no_buffer :
      (iso : Ptr) (t : Text) (e : E)
      → v.is array_buffer (view_of v iso t e).0 (view_of v iso t e).1 ≡ false
  pub is_view :
      (iso : Ptr) (t : Text) (e : E)
      → v.is array_buffer_view (view_of v iso t e).0 (view_of v iso t e).1 ≡ true
  pub store :
      (iso : Ptr) (t : Text) (e : E)
      → v.backing_store
          (v.view_buffer (view_of v iso t e).0 (view_of v iso t e).1)
          (view_of v iso t e).1
        ≡ t
  pub offset :
      (iso : Ptr) (t : Text) (e : E)
      → v.view_byte_offset (view_of v iso t e).0 (view_of v iso t e).1 ≡ 0
  pub size :
      (iso : Ptr) (t : Text) (e : E)
      → v.view_byte_length (view_of v iso t e).0 (view_of v iso t e).1 ≡ length t

module _ {E : Type 0} (v : V8 E) (views : HoldsViews v) (ctx_ptr : Ptr) (c : Gv8Ctx) (s : Scope)
    (t : Text) (w : World E) (l : IsLiveCtx w.mem ctx_ptr c s) where
  abbrev viewed : World E
  viewed = record {
    engine = (view_of v s.iso t w.engine).1;
    mem = wrap_at w.mem ctx_ptr c s.iso (view_of v s.iso t w.engine).0;
  }

  new_uint8_array_copy_run :
      new_uint8_array_copy v ctx_ptr (some t) (pos (length t)) w ≡ ok (rtn_value w.mem.next) viewed
  unfolding new_uint8_array_copy wrap_new wrap_result ◌>>=◌
  new_uint8_array_copy_run =
      rw
        (
          ctx_scope_run w ctx_ptr c s l,
          le→leb (length t) (length t) (omega arith),
          take_all t,
          wrap_lem w.mem ctx_ptr s.iso (view_of v s.iso t w.engine).0 c l.found,
        )
        refl

  viewed-IsLive : IsLive viewed.mem w.mem.next s (view_of v s.iso t w.engine).0
  viewed-IsLive = record {
    value = tracked c ctx_ptr s.iso (view_of v s.iso t w.engine).0;
    ctx = enlist c w.mem.next;
    slots = l.slots;
    found = ground arith;
    found_ctx = ground arith;
    found_iso = rw⁻¹ l.iso l.found_iso;
    iso = refl;
    local_ctx = l.local_ctx;
    handle = refl;
  }

  value_bytes_run : value_bytes v w.mem.next viewed ≡ ok (data_of t (int_of (length t))) viewed
  unfolding value_bytes window_of view_window copy_window ◌>>=◌
  value_bytes_run =
      rw
        (
          value_scope_run viewed w.mem.next s (view_of v s.iso t w.engine).0 viewed-IsLive,
          handle_of_run viewed w.mem.next s (view_of v s.iso t w.engine).0 viewed-IsLive,
          views.is_no_buffer s.iso t w.engine,
          views.is_view s.iso t w.engine,
          views.store s.iso t w.engine,
          views.offset s.iso t w.engine,
          views.size s.iso t w.engine,
          le→leb (length t) (length t) (omega arith),
          take_all t,
        )
        refl

  -- In a live context: GV8NewUint8ArrayCopy of fewer than 2^31 bytes returns a value, and
  -- GV8ValueBytes of that value returns the same bytes, their number and no error, without a change
  -- of the world.
  pub value_bytes-new_uint8_array_copy :
      length t < 2 ^ 31
      → (p : Ptr) × (w' : World E) × (new_uint8_array_copy v ctx_ptr (some t) (pos (length t)) w
          ≡ ok (rtn_value p) w')
        × (value_bytes v p w' ≡ ok (data_of t (pos (length t))) w')
  value_bytes-new_uint8_array_copy small = (
    w.mem.next,
    viewed,
    new_uint8_array_copy_run,
    value_bytes_run ∙ ap (λ n. ok (data_of t n) viewed) (int_of_small (length t) small),
  )
