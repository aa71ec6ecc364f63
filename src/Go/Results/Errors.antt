-- ===== src/Go/Results/Errors.antt =====
-- What valueResult makes of a failed call of C.
use gv.Prelude.{
  ℕ, ◌≡◌, ◌≢◌, refl, Option, none, some, arith, update, Option-cases, inl, inr, ne→==, ==_refl,
}
use gv.Memory.{Ptr}
use gv.V8.{RtnError, Text}
use gv.Results.{RtnValue}
use gv.Run.{World, ok}
use gv.Go.{Context, Isolate, Heap, Native, done, JsError, GoError, js}
use gv.Go.Results.{
  User, value_result, call_handler, or_empty, note_exception, observe_js_error, new_js_error,
  counted,
}

-- What the caller of a failed call sees: an error with the text, counted once, or no error at all.
pub data IsReported (g g' : Heap) (iso : Ptr) (i : Isolate) (rtn : RtnError)
    : Option GoError → Type 0 where
  reported :
      (e : JsError)
      → rtn.msg ≡ some e.message
      → g' ≡ record g { isolates = update g.isolates iso (some (counted i)) }
      → IsReported g g' iso i rtn (some (js e))
  silent : rtn.msg ≡ none → g' ≡ g → IsReported g g' iso i rtn none

-- All that a report changes on the Go side is the isolate's counter.
pub reported_heap :
    {g g' : Heap} {iso : Ptr} {i : Isolate} {rtn : RtnError} {err : Option GoError}
    → IsReported g g' iso i rtn err
    → g.isolates iso ≡ some i
    → (f : Ptr → Option Isolate) × (j : Isolate) × (g' ≡ record g { isolates = f })
      × (f iso ≡ some j)
      × (j.gate ≡ i.gate)
      × (j.ptr ≡ i.ptr)
      × (j.exception_hook ≡ i.exception_hook)
reported_heap {g} {iso} {i} (reported e m h) k = (
  update g.isolates iso (some (counted i)),
  counted i,
  h,
  ground (arith, ==_refl iso),
  refl,
  refl,
  refl,
)
reported_heap {g} {i} (silent m h) k = (g.isolates, i, h, k, refl, refl, refl)

abbrev thrown : RtnError → Text → JsError
thrown rtn t = record { message = t; location = or_empty rtn.location; stack = or_empty rtn.stack }

new_js_error-none : (rtn : RtnError) → rtn.msg ≡ none → new_js_error rtn ≡ none
unfolding new_js_error
new_js_error-none rtn e = rw e refl

new_js_error-some :
    (rtn : RtnError) (t : Text) → rtn.msg ≡ some t → new_js_error rtn ≡ some (js (thrown rtn t))
unfolding new_js_error
new_js_error-some rtn t e = rw e refl

call_none :
    {E : Type 0} (user : User E) (o : Option ℕ) (e : JsError) (w : World (Native E))
    → o ≡ none
    → call_handler user o e w ≡ ok (done tt) w
unfolding gv.Go.pure
call_none user none e w h = refl
call_none user (some hook) e w h = ground arith

module _ {E : Type 0} (user : User E) (ctx : Ptr) (c : Context) (i : Isolate) (w : World (Native E))
    (ctx_ne_null : ctx ≢ 0) (here : w.engine.go.contexts ctx ≡ some c) (iso_ne_null : c.iso ≢ 0)
    (isolate : w.engine.go.isolates c.iso ≡ some i) (no_hook : i.exception_hook ≡ none) where
  abbrev noted : World (Native E)
  noted = record w {
    engine = record w.engine {
      go = record w.engine.go { isolates = update w.engine.go.isolates c.iso (some (counted i)) };
    };
  }

  note_lem : (e : JsError) → note_exception user c.iso e w ≡ ok (done tt) noted
  unfolding note_exception
  note_lem e =
      rw (ne→== c.iso 0 iso_ne_null, isolate) (call_none user i.exception_hook e noted no_hook)

  observe_none : observe_js_error user c.iso none w ≡ ok (done tt) w
  unfolding observe_js_error
  observe_none = refl

  observe_some : (e : JsError) → observe_js_error user c.iso (some (js e)) w ≡ ok (done tt) noted
  unfolding observe_js_error
  observe_some e = note_lem e

  value_result_lem :
      (rtn : RtnValue) (w' : World (Native E)) (err : Option GoError)
      → rtn.value ≡ 0
      → new_js_error rtn.error ≡ err
      → observe_js_error user c.iso err w ≡ ok (done tt) w'
      → value_result user ctx rtn w ≡ ok (done (0, err)) w'
  unfolding value_result
  value_result_lem rtn w' err z e o = rw (z, ne→== ctx 0 ctx_ne_null, here, e, o) refl

  -- valueResult of a call of C that gave no value, for an isolate without an exception handler: it
  -- returns nil, and an error with the message of the C error, which is counted once; where the C error
  -- has no message it returns no error either, and nothing is counted; the
  -- memory of C is as it was.
  pub value_result-IsReported :
      (rtn : RtnValue)
      → rtn.value ≡ 0
      → (w' : World (Native E)) × (err : Option GoError) × (value_result user ctx rtn w
          ≡ ok (done (0, err)) w')
        × IsReported w.engine.go w'.engine.go c.iso i rtn.error err
        × (w'.mem ≡ w.mem)
  value_result-IsReported rtn z = elim (Option-cases rtn.error.msg) [
    | inl e ↦ (
      w,
      none,
      value_result_lem rtn w none z (new_js_error-none rtn.error e) observe_none,
      silent e refl,
      refl,
    )
    | inr (t, e) ↦
        let x = thrown rtn.error t in
        (
          noted,
          some (js x),
          value_result_lem rtn noted (some (js x)) z (new_js_error-some rtn.error t e)
              (observe_some x),
          reported x e refl,
          refl,
        )
  ]
