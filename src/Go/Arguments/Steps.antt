-- ===== src/Go/Arguments/Steps.antt =====
-- materializeValue: what each Go value becomes, on the side of Go and of C.
use gv.Prelude.{ℕ, ◌≡◌, ◌≢◌, refl, sym, subst, ◌∙◌, none, some, List, [], ◌∷◌, arith}
use gv.Memory.{Ptr}
use gv.Run.{World, Run, Cmd, ok}
use gv.Scope.Live.{IsUsable}
use gv.Results.{RtnValue, flag}
use gv.Go.{GoError, Native, Go, done}
use gv.Go.Access.{enter_gate}
use gv.Go.Enter.Lent.{enter_gate_again}
use gv.Go.Results.{User}
use gv.Go.Guards.{Fallible, valued}
use gv.Go.Creation.{CreationCalls, c_len, bytes_ptr}
use gv.Go.Creation.Answers.{IsLeft, Answer, made, refused}
use gv.Go.Creation.Linked.{inside, valued-IsLinked}
use gv.Go.Globals.Kept.{Owns}
use gv.Go.Arguments.{
  Any, nil, value, wrapper, text, boolean, integer, number, octets, unsupported, Materialized,
  as_is, temporary, materialize_value,
}
use gv.Go.Arguments.Promises.{Wraps, Creates, IsWrapped-IsUsable}
use gv.Go.Arguments.Gathered.{Working, Keeps, Makes, owned_ne_next}

module _ {E : Type 0} {ctx : Ptr} {w w' : World (Native E)} {o : Run (Native E) RtnValue}
    (k : Working ctx w) (e : IsLeft ctx k.ready.owner k.ready.isolate w w' o)
    (usable : IsUsable w'.mem k.ready.owner.ptr) where
  left_Working : Working ctx w'
  left_Working =
      let (gate', again) =
        enter_gate_again w.engine.go.thread k.ready.isolate.gate k.ready.gate e.isolate.gate
          k.ready.admits.admitted e.depth e.thread in
      record {
        ready = record {
          linked = e.linked;
          owner = record k.ready.owner { live_values = some e.table };
          here = e.owner;
          opened = k.ready.opened;
          table = e.table;
          lists = refl;
          isolate = e.isolate;
          gate = gate';
          admits = record {
            iso_ne_null = k.ready.admits.iso_ne_null;
            here = e.free;
            ptr_ne_null = λ z. k.ready.admits.ptr_ne_null (sym e.same_ptr ∙ z);
            admitted = subst (λ t. enter_gate t e.isolate.gate ≡ some gate') (sym e.here) again;
          };
          fresh = e.fresh k.ready.fresh;
          usable = usable;
        };
        quiet = e.same_hook ∙ k.quiet;
      }

  left_kept : (x : Ptr) (h : ℕ) → Owns ctx x h w → Owns ctx x h w'
  left_kept x h o = record {
    ptr = o.ptr;
    wrapper = o.wrapper;
    here = e.beside x (owned_ne_next k.ready o) ∙ o.here;
    ptr_ne_null = o.ptr_ne_null;
    live =
        e.others o.ptr (λ n.
          ground
            (arith, o.live, n, k.ready.linked.consistent.unused_value w.mem.next (omega arith)))
        ∙ o.live;
    holds = o.holds;
  }

  left_Keeps : Keeps ctx w w'
  left_Keeps = record { working = left_Working; kept = left_kept; beside = e.beside }

-- What a step of materializeArgs has done: nothing, made a value, made none without an error, or failed.
pub data Step {E : Type 0} (ctx : Ptr) (w w' : World (Native E)) : Materialized → Type 0 where
  stored : (p : Ptr) → Keeps ctx w w' → w'.mem.values ≡ w.mem.values → Step ctx w w' (as_is p)
  new : Makes ctx w w' → Step ctx w w' (temporary (w.engine.go.next, none))
  silent : Keeps ctx w w' → w'.mem.values ≡ w.mem.values → Step ctx w w' (temporary (0, none))
  failed :
      (m : Materialized) (err : GoError)
      → m.err ≡ some err
      → Keeps ctx w w'
      → w'.mem.values ≡ w.mem.values
      → Step ctx w w' m

module _ {E : Type 0} {ctx : Ptr} {w : World (Native E)} (k : Working ctx w) where
  answer_Step :
      {w' : World (Native E)} {o : Run (Native E) RtnValue} (r : Fallible)
      → IsLeft ctx k.ready.owner k.ready.isolate w w' o
      → IsUsable w'.mem k.ready.owner.ptr
      → Answer ctx w w' r
      → Step ctx w w' (temporary r)
  answer_Step r e u (made a h here live holds) = new (record {
    keeps = left_Keeps k e u;
    handle = h;
    owns = record {
      ptr = w.mem.next;
      wrapper = a;
      here = here;
      ptr_ne_null = k.ready.linked.consistent.next_ne_null;
      live = live;
      holds = holds;
    };
    here = here;
    others = e.others;
  })
  answer_Step r e u (refused none go mem) = silent (left_Keeps k e u) mem
  answer_Step r e u (refused (some err) go mem) =
      failed (temporary (0, some err)) err refl (left_Keeps k e u) mem

-- Not a nil pointer to an Object, a Function or a Promise.
abbrev pub IsSound : Any → Type 0
IsSound (wrapper none) = ⊥
IsSound a = Unit {0}

abbrev pub AreSound : List Any → Type 0
AreSound [] = Unit {0}
AreSound (a ∷ values) = IsSound a × AreSound values

-- A value stands for itself, and an Object, a Function or a Promise for its value.
abbrev pub IsFor : Any → Ptr → Type 0
IsFor (value p) x = x ≡ p
IsFor (wrapper (some p)) x = x ≡ p
IsFor a x = Unit {0}

abbrev pub AreFor : List Any → List Ptr → Type 0
AreFor [] [] = Unit {0}
AreFor [] (x ∷ args) = ⊥
AreFor (a ∷ values) [] = ⊥
AreFor (a ∷ values) (x ∷ args) = IsFor a x × AreFor values args

module _ {E : Type 0} (user : User E) (c : CreationCalls (Native E)) (ctx : Ptr)
    (ctx_ne_null : ctx ≢ 0) (s : Creates user ctx c) where
  valued-Step :
      (call : Ptr → Cmd (Native E) RtnValue)
      → Wraps user ctx call
      → (w : World (Native E)) → Working ctx w
      → (w' : World (Native E)) × (r : Fallible) × (valued user ctx call w ≡ ok (done r) w')
        × Step ctx w w' (temporary r)
  valued-Step call wraps w k =
      let (promise, keeps) = wraps w k.ready in
      let (w', r, run, a, e) =
        valued-IsLinked user ctx k.ready.owner k.ready.isolate k.ready.gate k.ready.table w call
          k.ready.linked ctx_ne_null k.ready.here k.ready.opened k.ready.lists k.ready.admits
          k.quiet promise in
      let (rtn, b, ends, mem) = e.called in
      let u =
        IsWrapped-IsUsable k.ready.owner.ptr
          (inside user ctx k.ready.owner k.ready.isolate k.ready.gate w) w' _ rtn b promise keeps
          ends mem k.ready.usable in
      (w', r, run, answer_Step k r e u a)

  abbrev Stepped : World (Native E) → Any → Type 0
  Stepped w a =
      (w' : World (Native E)) × (m : Materialized) × (materialize_value user c ctx a w
        ≡ ok (done m) w')
      × Step ctx w w' m
      × IsFor a m.next

  same_Keeps : {w : World (Native E)} → Working ctx w → Keeps ctx w w
  same_Keeps k = record { working = k; kept = λ x h o. o; beside = λ x n. refl }

  pub value-Step : (a : Any) → IsSound a → (w : World (Native E)) → Working ctx w → Stepped w a
  unfolding materialize_value gv.Go.Creation.new_null_value gv.Go.Creation.new_string_value
      gv.Go.Creation.new_boolean_value gv.Go.Creation.new_integer_value
      gv.Go.Creation.new_number_value gv.Go.Creation.new_uint8_array_copy gv.Go.◌>>=◌ gv.Go.pure
  value-Step nil i w k =
      let (w', r, run, e) = valued-Step c.new_null s.null_wraps w k in
      (w', temporary r, rw run refl, e, tt)
  value-Step (value p) i w k = (w, as_is p, refl, stored p (same_Keeps k) refl, refl)
  value-Step (wrapper none) i w k = elim i [ ]
  value-Step (wrapper (some p)) i w k = (w, as_is p, refl, stored p (same_Keeps k) refl, refl)
  value-Step (text t) i w k =
      let (w', r, run, e) = valued-Step (λ p. c.new_string p t (c_len t)) (s.string_wraps t) w k in
      (w', temporary r, rw run refl, e, tt)
  value-Step (boolean b) i w k =
      let (w', r, run, e) = valued-Step (λ p. c.new_boolean p (flag b)) (s.boolean_wraps b) w k in
      (w', temporary r, rw run refl, e, tt)
  value-Step (integer n) i w k =
      let (w', r, run, e) = valued-Step (λ p. c.new_integer p n) (s.integer_wraps n) w k in
      (w', temporary r, rw run refl, e, tt)
  value-Step (number d) i w k =
      let (w', r, run, e) = valued-Step (λ p. c.new_number p d) (s.number_wraps d) w k in
      (w', temporary r, rw run refl, e, tt)
  value-Step (octets b) i w k =
      let (w', r, run, e) =
        valued-Step (λ p. c.new_uint8_array_copy p (bytes_ptr b) (c_len b)) (s.octets_wraps b) w
          k in
      (w', temporary r, rw run refl, e, tt)
  value-Step (unsupported t) i w k = (w, _, refl, failed _ _ refl (same_Keeps k) refl, tt)
