-- ===== src/Go/Arguments/Released.antt =====
-- materializeArgs: the temporaries that its cleanup releases, on the side of Go and of C.
use native.Mathlib.Decide.{ℕ_discrete}
use gv.Prelude.{
  ℕ, ◌≡◌, ◌≢◌, ◌⊎◌, inl, inr, refl, sym, subst, ◌∙◌, Option, none, some, List, [], ◌∷◌, arith,
}
use gv.Memory.{Ptr}
use gv.Run.{World, ok}
use gv.Go as Go
use gv.Go.{Native, done}
use gv.Go.Lifecycle.{release}
use gv.Go.Lifecycle.Release.{owned}
use gv.Go.Globals.Kept.{Ready, Owns}
use gv.Go.Globals.Outlives.{IsReleased, release-Leaves}
use gv.Go.Arguments.{release_all}

-- The value is not in the list.
abbrev pub Outside : Ptr → List Ptr → Type 0
Outside v [] = Unit {0}
Outside v (x ∷ l) = (v ≢ x) × Outside v l

-- A value that a cleanup may release: nil, or one that is owned, by a wrapper with some handle, and that
-- is not in the list.
abbrev pub Temporary : {E : Type 0} → Ptr → World (Native E) → Ptr → List Ptr → Type 0
Temporary ctx w v l = (v ≡ 0) ⊎ ((v ≢ 0) × ((h : ℕ) × Owns ctx v h w) × Outside v l)

abbrev pub Temporaries : {E : Type 0} → Ptr → World (Native E) → List Ptr → Type 0
Temporaries ctx w [] = Unit {0}
Temporaries ctx w (v ∷ l) = Temporary ctx w v l × Temporaries ctx w l

-- A value of the list owns the wrapper.
abbrev pub Covered : {E : Type 0} → Ptr → Ptr → List Ptr → World (Native E) → Type 0
Covered ctx q [] w = ⊥
Covered ctx q (v ∷ l) w = (w.engine.go.values v ≡ some (owned q ctx)) ⊎ Covered ctx q l w

-- After the release of all: the context can be used on, what was owned beside them is, the wrappers that
-- they owned are gone, and every other wrapper is as it was.
pub record IsCleaned {E : Type 0} (ctx : Ptr) (l : List Ptr) (w w' : World (Native E))
    : Type 0 where
  pub ready : Ready ctx w'
  pub kept : (x : Ptr) (h : ℕ) → Outside x l → Owns ctx x h w → Owns ctx x h w'
  pub gone : (q : Ptr) → Covered ctx q l w → w'.mem.values q ≡ none
  pub others : (q : Ptr) → (w'.mem.values q ≡ w.mem.values q) ⊎ Covered ctx q l w

module _ {E : Type 0} (ctx v : Ptr) (w w' : World (Native E)) where
  carried :
      (l : List Ptr)
      → ((x : Ptr) (h : ℕ) → x ≢ v → Owns ctx x h w → Owns ctx x h w')
      → Outside v l
      → Temporaries ctx w l
      → Temporaries ctx w' l
  carried [] others n t = tt
  carried (x ∷ l) others (n, out) (inl z, t) = (inl z, carried l others out t)
  carried (x ∷ l) others (n, out) (inr (z, (h, o), apart), t) =
      (inr (z, (h, others x h (λ e. n (sym e)) o), apart), carried l others out t)

  pub Covered-beside :
      (q : Ptr) (l : List Ptr)
      → ((x : Ptr) → x ≢ v → w'.engine.go.values x ≡ w.engine.go.values x)
      → Outside v l
      → Covered ctx q l w
      → Covered ctx q l w'
  Covered-beside q [] beside n e = e
  Covered-beside q (x ∷ l) beside (n, out) (inl e) = inl (beside x (λ z. n (sym z)) ∙ e)
  Covered-beside q (x ∷ l) beside (n, out) (inr e) = inr (Covered-beside q l beside out e)

pub same_ptr :
    {ctx p q : Ptr} {o : Option Go.Value} → o ≡ some (owned p ctx) → o ≡ some (owned q ctx) → q ≡ p
same_ptr e f = ground (arith, e, f)

module _ {E : Type 0} {ctx v : Ptr} {w w1 w2 : World (Native E)} {p : Ptr} (l : List Ptr)
    (here : w.engine.go.values v ≡ some (owned p ctx)) (r : IsReleased ctx v p w w1)
    (out : Outside v l) (c : IsCleaned ctx l w1 w2) where
  step_gone : (q : Ptr) → Covered ctx q (v ∷ l) w → w2.mem.values q ≡ none
  step_gone q (inl e) =
      let z = subst (λ x. w1.mem.values x ≡ none) (sym (same_ptr here e)) r.gone in
      elim (c.others q) [ inl s ↦ s ∙ z | inr k ↦ c.gone q k ]
  step_gone q (inr e) = c.gone q (Covered-beside ctx v w w1 q l r.beside out e)

  step_others : (q : Ptr) → (w2.mem.values q ≡ w.mem.values q) ⊎ Covered ctx q (v ∷ l) w
  step_others q = elim (c.others q) [
    | inr k ↦ inr (inr (Covered-beside ctx v w1 w q l (λ x n. sym (r.beside x n)) out k))
    | inl s ↦ elim (ℕ_discrete q p) [
      | yes z ↦ inr (inl (subst (λ x. w.engine.go.values v ≡ some (owned x ctx)) (sym z) here))
      | no n ↦ inl (s ∙ r.others q n)
    ]
  ]

release_nil : {E : Type 0} (v : Ptr) (w : World (Native E)) → v ≡ 0 → release v w ≡ ok (done tt) w
unfolding release gv.Go.pure
release_nil v w z = rw z refl

module _ {E : Type 0} {ctx : Ptr} (ctx_ne_null : ctx ≢ 0) where
  nil_gone :
      {v : Ptr} {l : List Ptr} {w w' : World (Native E)} (q : Ptr)
      → v ≡ 0
      → Ready ctx w
      → IsCleaned ctx l w w'
      → Covered ctx q (v ∷ l) w
      → w'.mem.values q ≡ none
  nil_gone {w} q z k c (inl e) = absurd (ground (arith, z, e, k.linked.tracked.null_value))
  nil_gone q z k c (inr e) = c.gone q e

  nil_first :
      {v : Ptr} {l : List Ptr} {w w' : World (Native E)}
      → v ≡ 0
      → Ready ctx w
      → IsCleaned ctx l w w'
      → IsCleaned ctx (v ∷ l) w w'
  nil_first {v} {w} z k c = record {
    ready = c.ready;
    kept = λ x h n o. c.kept x h n.1 o;
    gone = λ q e. nil_gone q z k c e;
    others = λ q. elim (c.others q) [ inl e ↦ inl e | inr e ↦ inr (inr e) ];
  }

  -- The cleanup of materializeArgs.
  pub release_all-IsCleaned :
      (l : List Ptr) {w : World (Native E)}
      → Ready ctx w
      → Temporaries ctx w l
      → (w' : World (Native E)) × (release_all l w ≡ ok (done tt) w') × IsCleaned ctx l w w'
  unfolding release_all gv.Go.◌>>=◌
  release_all-IsCleaned [] {w} k t = (
    w,
    refl,
    record { ready = k; kept = λ x h n o. o; gone = λ q e. elim e [ ]; others = λ q. inl refl },
  )
  release_all-IsCleaned (v ∷ l) {w} k (inl z, t) =
      let (w', run, c) = release_all-IsCleaned l k t in
      (w', rw (release_nil v w z, run) refl, nil_first z k c)
  release_all-IsCleaned (v ∷ l) {w} k (inr (n, (h, o), out), t) =
      let (w1, (run, k1, others, _, _, r)) = release-Leaves ctx_ne_null n k o in
      let (w2, run', c) =
        release_all-IsCleaned l k1 (carried ctx v w w1 l (λ x h n o. (others x h n o).0) out t) in
      (
        w2,
        rw run run',
        record {
          ready = c.ready;
          kept = λ x h n o. c.kept x h n.1 (others x h n.0 o).0;
          gone = step_gone l o.here r out c;
          others = step_others l o.here r out c;
        },
      )
