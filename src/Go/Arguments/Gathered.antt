-- ===== src/Go/Arguments/Gathered.antt =====
-- materializeArgs: what it has gathered on its way, on the side of Go and of C.
use native.Mathlib.Decide.{ℕ_discrete}
use gv.Prelude.{
  ℕ, ◌≡◌, ◌≢◌, ◌⊎◌, inl, inr, refl, sym, subst, ap, ◌∙◌, none, some, List, [], ◌∷◌, ◌++◌, arith,
}
use gv.Memory.{Ptr}
use gv.Run.{World, ok}
use gv.Go.{Native, done}
use gv.Go.Lifecycle.Release.{owned}
use gv.Go.Globals.Kept.{Ready, Owns}
use gv.Go.Arguments.{release_all}
use gv.Go.Arguments.Released.{
  Outside, Temporary, Temporaries, Covered, Covered-beside, release_all-IsCleaned, same_ptr,
}

-- The context can be used, and its isolate has no exception handler.
pub record Working {E : Type 0} (ctx : Ptr) (w : World (Native E)) : Type 0 where
  pub ready : Ready ctx w
  pub quiet : ready.isolate.exception_hook ≡ none

-- A step that leaves what is owned, and changes no Go value but the next one.
pub record Keeps {E : Type 0} (ctx : Ptr) (w w' : World (Native E)) : Type 0 where
  pub working : Working ctx w'
  pub kept : (x : Ptr) (h : ℕ) → Owns ctx x h w → Owns ctx x h w'
  pub beside : (x : Ptr) → x ≢ w.engine.go.next → w'.engine.go.values x ≡ w.engine.go.values x

-- A step that makes an owned value with a new wrapper.
pub record Makes {E : Type 0} (ctx : Ptr) (w w' : World (Native E)) : Type 0 where
  pub keeps : Keeps ctx w w'
  pub handle : ℕ
  pub owns : Owns ctx w.engine.go.next handle w'
  pub here : w'.engine.go.values w.engine.go.next ≡ some (owned w.mem.next ctx)
  pub others : (q : Ptr) → q ≢ w.mem.next → w'.mem.values q ≡ w.mem.values q

-- The cleanup gathered since the first world: its temporaries own wrappers that C did not have then, no
-- other wrapper has changed, and what was owned then is, beside them.
pub record Gathered {E : Type 0} (ctx : Ptr) (first : World (Native E)) (l : List Ptr)
    (w : World (Native E)) : Type 0 where
  pub working : Working ctx w
  pub temporaries : Temporaries ctx w l
  pub apart : (q : Ptr) → Covered ctx q l w → first.mem.values q ≡ none
  pub rest : (q : Ptr) → (w.mem.values q ≡ first.mem.values q) ⊎ Covered ctx q l w
  pub kept : (x : Ptr) (h : ℕ) → Owns ctx x h first → Owns ctx x h w × Outside x l

-- The wrappers of C are what they were, what was owned is, and the context can be used on.
pub record IsRestored {E : Type 0} (ctx : Ptr) (w w' : World (Native E)) : Type 0 where
  pub ready : Ready ctx w'
  pub same : (q : Ptr) → w'.mem.values q ≡ w.mem.values q
  pub kept : (x : Ptr) (h : ℕ) → Owns ctx x h w → Owns ctx x h w'

module _ {E : Type 0} {ctx : Ptr} {w : World (Native E)} (k : Ready ctx w) where
  pub owned_ne_nil : {x : Ptr} {h : ℕ} → Owns ctx x h w → x ≢ 0
  owned_ne_nil o z = ground (arith, z, o.here, k.linked.tracked.null_value)

  pub owned_ne_next : {x : Ptr} {h : ℕ} → Owns ctx x h w → x ≢ w.engine.go.next
  owned_ne_next {x} o z = ground (arith, z, o.here, k.fresh x)

  next-Outside : (l : List Ptr) → Temporaries ctx w l → Outside w.engine.go.next l
  next-Outside [] t = tt
  next-Outside (x ∷ l) (inl z, t) = ((λ e. k.linked.tracked.next_ne_null (e ∙ z)), next-Outside l t)
  next-Outside (x ∷ l) (inr (n, (h, o), out), t) =
      ((λ e. owned_ne_next o (sym e)), next-Outside l t)

Outside-add : (x : Ptr) (l : List Ptr) (v : Ptr) → Outside x l → x ≢ v → Outside x (l ++ v ∷ [])
Outside-add x [] v out n = (n, tt)
Outside-add x (y ∷ l) v (m, out) n = (m, Outside-add x l v out n)

-- One more temporary.
module _ {E : Type 0} (ctx v : Ptr) (w : World (Native E)) where
  Temporary-tail : (x : Ptr) (l : List Ptr) → Temporary ctx w v (x ∷ l) → Temporary ctx w v l
  Temporary-tail x l (inl z) = inl z
  Temporary-tail x l (inr (n, o, out)) = inr (n, o, out.1)

  Temporary-apart : (x : Ptr) (l : List Ptr) → x ≢ 0 → Temporary ctx w v (x ∷ l) → x ≢ v
  Temporary-apart x l n (inl z) = λ e. n (e ∙ z)
  Temporary-apart x l n (inr (m, o, out)) = λ e. out.0 (sym e)

  Temporary-add :
      (x : Ptr) (l : List Ptr)
      → Temporary ctx w x l
      → Temporary ctx w v (x ∷ l)
      → Temporary ctx w x (l ++ v ∷ [])
  Temporary-add x l (inl z) t = inl z
  Temporary-add x l (inr (n, o, out)) t =
      inr (n, o, Outside-add x l v out (Temporary-apart x l n t))

  Temporaries-add :
      (l : List Ptr) → Temporaries ctx w l → Temporary ctx w v l → Temporaries ctx w (l ++ v ∷ [])
  Temporaries-add [] t i = (i, tt)
  Temporaries-add (x ∷ l) (i, t) j =
      (Temporary-add x l i j, Temporaries-add l t (Temporary-tail x l j))

  Covered-add : (q : Ptr) (l : List Ptr) → Covered ctx q l w → Covered ctx q (l ++ v ∷ []) w
  Covered-add q [] e = elim e [ ]
  Covered-add q (x ∷ l) (inl e) = inl e
  Covered-add q (x ∷ l) (inr e) = inr (Covered-add q l e)

  Covered-new :
      (q : Ptr) (l : List Ptr)
      → w.engine.go.values v ≡ some (owned q ctx)
      → Covered ctx q (l ++ v ∷ []) w
  Covered-new q [] e = inl e
  Covered-new q (x ∷ l) e = inr (Covered-new q l e)

  Covered-cases :
      (q : Ptr) (l : List Ptr)
      → Covered ctx q (l ++ v ∷ []) w
      → Covered ctx q l w ⊎ (w.engine.go.values v ≡ some (owned q ctx))
  Covered-cases q [] (inl e) = inr e
  Covered-cases q [] (inr e) = elim e [ ]
  Covered-cases q (x ∷ l) (inl e) = inl (inl e)
  Covered-cases q (x ∷ l) (inr e) = elim (Covered-cases q l e) [
    | inl k ↦ inl (inr k)
    | inr k ↦ inr k
  ]

Temporaries-kept :
    {E : Type 0} {ctx : Ptr} {w w' : World (Native E)}
    → Keeps ctx w w'
    → (l : List Ptr) → Temporaries ctx w l
    → Temporaries ctx w' l
Temporaries-kept s [] t = tt
Temporaries-kept s (x ∷ l) (inl z, t) = (inl z, Temporaries-kept s l t)
Temporaries-kept s (x ∷ l) (inr (n, (h, o), out), t) =
    (inr (n, (h, s.kept x h o), out), Temporaries-kept s l t)

module _ {E : Type 0} {ctx : Ptr} {w w' : World (Native E)} (k : Ready ctx w) (s : Keeps ctx w w')
    (l : List Ptr) where
  Covered-kept : (q : Ptr) → Temporaries ctx w l → Covered ctx q l w → Covered ctx q l w'
  Covered-kept q t = Covered-beside ctx w.engine.go.next w w' q l s.beside (next-Outside k l t)

  Covered-before : (q : Ptr) → Temporaries ctx w l → Covered ctx q l w' → Covered ctx q l w
  Covered-before q t =
      Covered-beside ctx w.engine.go.next w' w q l (λ x n. sym (s.beside x n)) (next-Outside k l t)

module _ {E : Type 0} {ctx : Ptr} {first w : World (Native E)} {l : List Ptr}
    (g : Gathered ctx first l w) where
  -- A step that makes no wrapper.
  pub Gathered-same :
      {w' : World (Native E)}
      → Keeps ctx w w'
      → w'.mem.values ≡ w.mem.values
      → Gathered ctx first l w'
  Gathered-same s e = record {
    working = s.working;
    temporaries = Temporaries-kept s l g.temporaries;
    apart = λ q c. g.apart q (Covered-before g.working.ready s l q g.temporaries c);
    rest = λ q. elim (g.rest q) [
      | inl z ↦ inl (ap (λ (f : Ptr → _). f q) e ∙ z)
      | inr c ↦ inr (Covered-kept g.working.ready s l q g.temporaries c)
    ];
    kept = λ x h o. (s.kept x h (g.kept x h o).0, (g.kept x h o).1);
  }

  -- A temporary that is nil.
  pub Gathered-nil : Gathered ctx first (l ++ 0 ∷ []) w
  Gathered-nil = record {
    working = g.working;
    temporaries = Temporaries-add ctx 0 w l g.temporaries (inl refl);
    apart = λ q c. elim (Covered-cases ctx 0 w q l c) [
      | inl z ↦ g.apart q z
      | inr z ↦ absurd (ground (arith, z, g.working.ready.linked.tracked.null_value))
    ];
    rest = λ q. elim (g.rest q) [ inl z ↦ inl z | inr c ↦ inr (Covered-add ctx 0 w q l c) ];
    kept = λ x h o.
        let (o', out) = g.kept x h o in
        (o', Outside-add x l 0 out (owned_ne_nil g.working.ready o'));
  }

  -- A new temporary.
  first_none : first.mem.values w.mem.next ≡ none
  first_none = elim (g.rest w.mem.next) [
    | inl z ↦ sym z ∙ g.working.ready.linked.consistent.unused_value w.mem.next (omega arith)
    | inr c ↦ g.apart w.mem.next c
  ]

  pub Gathered-new :
      {w' : World (Native E)} → Makes ctx w w' → Gathered ctx first (l ++ w.engine.go.next ∷ []) w'
  Gathered-new {w'} m =
      let k = g.working.ready in
      let v = w.engine.go.next in
      let s = m.keeps in
      let t = Temporaries-kept s l g.temporaries in
      let out = next-Outside k l g.temporaries in
      record {
        working = s.working;
        temporaries =
            Temporaries-add ctx v w' l t
              (inr (k.linked.tracked.next_ne_null, (m.handle, m.owns), out));
        apart = λ q c. elim (Covered-cases ctx v w' q l c) [
          | inl z ↦ g.apart q (Covered-before k s l q g.temporaries z)
          | inr z ↦ subst (λ x. first.mem.values x ≡ none) (sym (same_ptr m.here z)) first_none
        ];
        rest = λ q. elim (ℕ_discrete q w.mem.next) [
          | yes z ↦ inr (
              Covered-new ctx v w' q l
                (subst (λ x. w'.engine.go.values v ≡ some (owned x ctx)) (sym z) m.here))
          | no n ↦ elim (g.rest q) [
            | inl z ↦ inl (m.others q n ∙ z)
            | inr c ↦ inr (Covered-add ctx v w' q l (Covered-kept k s l q g.temporaries c))
          ]
        ];
        kept = λ x h o.
            let (o', out) = g.kept x h o in
            (s.kept x h o', Outside-add x l v out (owned_ne_next k o'));
      }

  -- The cleanup restores what there was.
  pub Gathered-IsRestored :
      ctx ≢ 0
      → (w' : World (Native E)) × (release_all l w ≡ ok (done tt) w') × IsRestored ctx first w'
  Gathered-IsRestored n =
      let (w', run, c) = release_all-IsCleaned n l g.working.ready g.temporaries in
      (
        w',
        run,
        record {
          ready = c.ready;
          same = λ q. elim (c.others q) [
            | inr z ↦ c.gone q z ∙ sym (g.apart q z)
            | inl z ↦ elim (g.rest q) [ inl e ↦ z ∙ e | inr e ↦ c.gone q e ∙ sym (g.apart q e) ]
          ];
          kept = λ x h o. let (o', out) = g.kept x h o in c.kept x h out o';
        },
      )

pub Gathered-first :
    {E : Type 0} {ctx : Ptr} {w : World (Native E)} → Working ctx w → Gathered ctx w [] w
Gathered-first k = record {
  working = k;
  temporaries = tt;
  apart = λ q e. elim e [ ];
  rest = λ q. inl refl;
  kept = λ x h o. (o, tt);
}
