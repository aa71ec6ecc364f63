-- ===== src/Go/Lifecycle/Wiped.antt =====
-- Lists of values that are invalidated, as Close does.
use gv.Prelude.{
  ◌≡◌, ◌≢◌, refl, Bool, true, false, Option, none, some, List, [], ◌∷◌, arith, if◌then◌else◌,
  Option-cases, inl, inr, subst, ap, sym, ◌∙◌, Bool-cases,
}
use native.Mathlib.Decide.{ℕ_discrete}
use gv.Memory.{Ptr}
use gv.Go.{Context, Value, Heap, done}
use gv.Go.Values.{has, invalidate_all}
use gv.Go.Values.Tracked.{IsTracked, Lists, InLive, put_value, invalidate_here}
use gv.Go.Lifecycle.{keys}

abbrev pub wiped : Option Value → Option Value
wiped none = none
wiped (some x) = some (record x { ptr = 0 })

-- Each key of a map is the address of a value.
abbrev pub IsStored : Heap → List Ptr → Type 0
IsStored g l = (v : Ptr) → has v l ≡ true → (v ≢ 0) × (g.values v ≢ none)

-- The values of the list are nil, and the others as they were.
abbrev pub IsWiped : Heap → List Ptr → (Ptr → Option Value) → Type 0
IsWiped g l values = (v : Ptr) → values v ≡ (if has v l then wiped (g.values v) else g.values v)

pub invalidate_all-IsWiped :
    (l : List Ptr) (g : Heap)
    → IsStored g l
    → (values : Ptr → Option Value) × (invalidate_all l g ≡ (done tt, record g { values = values }))
      × IsWiped g l values
unfolding invalidate_all
invalidate_all-IsWiped [] g s = (g.values, refl, λ v. refl)
invalidate_all-IsWiped (v ∷ l) g s = elim (Option-cases (g.values v)) [
  | inl e ↦ absurd (ground (arith, s v, e))
  | inr (x, e) ↦
      let h = put_value g v (record x { ptr = 0 }) in
      let (values, r, k) = invalidate_all-IsWiped l h (λ u m. ground (arith, s u, m)) in
      (values, rw (invalidate_here v g (ground (arith, s v)) e) r, λ u. ground (arith, k u, e))
]

InLive-keys : (v : Ptr) (o : Option (List Ptr)) → InLive v o → has v (keys o) ≡ true
InLive-keys v none e = elim e [ ]
InLive-keys v (some l) e = e

-- An owned value of the context is among the keys.
live_key :
    {g : Heap} {c : Ptr} {x : Context}
    → IsTracked g
    → g.contexts c ≡ some x
    → c ≢ 0
    → (v : Ptr) (y : Value) → g.values v ≡ some y
    → y.ptr ≢ 0
    → y.borrowed ≡ false
    → y.ctx ≡ c
    → has v (keys x.live_values) ≡ true
live_key {g} {x} i h n v y e p b t =
    InLive-keys v x.live_values
      (subst (Lists v) (ap g.contexts t ∙ h)
        (i.tracked v y (ground (arith, i.null_value)) e p b (ground arith))).1

pub wiped_nil :
    {g : Heap} {c : Ptr} {x : Context}
    → IsTracked g
    → g.contexts c ≡ some x
    → c ≢ 0
    → (v : Ptr) (y : Value)
    → (if has v (keys x.live_values) then wiped (g.values v) else g.values v) ≡ some y
    → y.ctx ≡ c
    → y.borrowed ≡ false
    → y.ptr ≡ 0
wiped_nil {g} {x} i h n v y e t b = elim (ℕ_discrete y.ptr 0) [
  | yes z ↦ z
  | no p ↦ elim (Bool-cases (has v (keys x.live_values))) [
    | inl l ↦ elim (Option-cases (g.values v)) [
      | inl q ↦ absurd (ground (arith, l, q))
      | inr (z, q) ↦ ground (arith, l, q)
    ]
    | inr l ↦ ground (arith, live_key i h n v y, l)
  ]
]

pub unwiped :
    (b : Bool) (o : Option Value) (y : Value)
    → (if b then wiped o else o) ≡ some y
    → y.ptr ≢ 0
    → o ≡ some y
unwiped true none y e p = ground arith
unwiped true (some x) y e p = absurd (p (ground arith))
unwiped false o y e p = e

pub stays_wiped :
    (b : Bool) (o : Option Value) {o' : Option Value}
    → o ≢ none
    → o' ≡ (if b then wiped o else o)
    → o' ≢ none
stays_wiped true none n e z = n refl
stays_wiped true (some x) n e z = ground (arith, e, z)
stays_wiped false o n e z = n (sym e ∙ z)
