-- ===== src/Go/Access/Threads.antt =====
-- The gate of an isolate against what its callers are promised: threads that come and go.
use gv.Prelude.{
  ℕ, zero, suc, ◌+◌, ◌-◌, ◌≡◌, ◌≢◌, refl, Bool, true, false, Option, none, some, List, [], ◌∷◌,
  arith, inl, inr, ap, ◌∙◌, ◌++◌, map, ==_refl, if◌then◌else◌, ◌==◌, update, replicate, Bool-cases,
}
use gv.Go.Access.{Gate, open_gate, enter_gate, leave_gate}

-- A call of `enter` or of `leave` by a thread.
pub data Action : Type 0 where
  enters leaves : ℕ → Action

-- The gate after the call, or `none` where the call is refused: `enter` returns an error, `leave` panics.
unfoldable pub act : Action → Gate → Option Gate
act (enters t) g = enter_gate t g
act (leaves t) g = leave_gate t g

-- A refused call leaves the gate as it is.
abbrev pub settle : Gate → Option Gate → Gate
settle g none = g
settle g (some g') = g'

abbrev pub is_some : Option Gate → Bool
is_some none = false
is_some (some g) = true

-- Calls in the order in which they take the mutex, each with whether it was accepted.
unfoldable pub run : List Action → Gate → List (Action × Bool) × Gate
run [] g = ([], g)
run (a ∷ l) g = let (rest, end) = run l (settle g (act a g)) in ((a, is_some (act a g)) ∷ rest, end)

-- The promise: `holds t` counts how often the thread is inside. A thread may enter if no other one
-- is inside, and leave if it is inside.
abbrev pub IsAllowed : (ℕ → ℕ) → Action → Type 0
IsAllowed holds (enters t) = (u : ℕ) → u ≢ t → holds u ≡ 0
IsAllowed holds (leaves t) = holds t ≢ 0

abbrev pub apply : Action → (ℕ → ℕ) → ℕ → ℕ
apply (enters t) holds = update holds t (holds t + 1)
apply (leaves t) holds = update holds t (holds t - 1)

-- A sequence of calls with answers, and what it does to the counts.
pub data Promised : (ℕ → ℕ) → List (Action × Bool) → (ℕ → ℕ) → Type 0 where
  finished : {holds : ℕ → ℕ} → Promised holds [] holds
  accepted :
      {holds end : ℕ → ℕ} {l : List (Action × Bool)} (a : Action)
      → IsAllowed holds a
      → Promised (apply a holds) l end
      → Promised holds ((a, true) ∷ l) end
  refused :
      {holds end : ℕ → ℕ} {l : List (Action × Bool)} (a : Action)
      → ¬ IsAllowed holds a
      → Promised holds l end
      → Promised holds ((a, false) ∷ l) end

-- The gate stands for the counts.
abbrev pub Matches : Gate → (ℕ → ℕ) → Type 0
Matches g holds = (u : ℕ) → holds u ≡ (if g.owner_thread == u then g.depth else 0)

-- What one call does, beside the promise.
abbrev IsStep : Gate → (ℕ → ℕ) → Action → Option Gate → Type 0
IsStep g holds a none = ¬ IsAllowed holds a
IsStep g holds a (some g') = IsAllowed holds a × Matches g' (apply a holds)

act-IsStep : (a : Action) (g : Gate) (holds : ℕ → ℕ) → Matches g holds → IsStep g holds a (act a g)
unfolding act enter_gate leave_gate
act-IsStep (enters t) g holds m = elim (Bool-cases (g.depth == 0)) [
  | inl free ↦ rw free ((λ u n. ground (arith, m u)), λ u. ground (arith, m u, m t))
  | inr taken ↦ elim (Bool-cases (g.owner_thread == t)) [
    | inl own ↦ rw (taken, own) ((λ u n. ground (arith, m u)), λ u. ground (arith, m u, m t))
    | inr other ↦ rw (taken, other) (λ k. ground (arith, m g.owner_thread, k g.owner_thread))
  ]
]
act-IsStep (leaves t) g holds m = elim (Bool-cases (g.depth == 0)) [
  | inl free ↦ rw free (λ k. ground (arith, m t))
  | inr taken ↦ elim (Bool-cases (g.owner_thread == t)) [
    | inl own ↦ rw (taken, own) ((λ z. ground (arith, m t)), λ u. ground (arith, m u, m t))
    | inr other ↦ rw (taken, other) (λ k. ground (arith, m t))
  ]
]

-- The counts at the end, with the promise kept and the gate still in step with them.
abbrev pub IsRefined : (ℕ → ℕ) → List (Action × Bool) × Gate → Type 0
IsRefined holds o = (end : ℕ → ℕ) × Promised holds o.0 end × Matches o.1 end

step-IsRefined :
    (a : Action) (g : Gate) (o : Option Gate) {holds : ℕ → ℕ} (r : List (Action × Bool) × Gate)
    → IsStep g holds a o
    → Matches g holds
    → ((h : ℕ → ℕ) → Matches (settle g o) h → IsRefined h r)
    → IsRefined holds ((a, is_some o) ∷ r.0, r.1)
step-IsRefined a g none r s m k = let (e, p, n) = k _ m in (e, refused a s p, n)
step-IsRefined a g (some g') r (allowed, m') m k =
    let (e, p, n) = k _ m' in (e, accepted a allowed p, n)

-- However threads call `enter` and `leave`, in whatever order, from a gate that stands for counts of
-- who is inside: a call of `enter` is accepted exactly when no other thread is inside, a call of `leave`
-- exactly when its thread is inside, accepted calls change that thread's count by one, a refused one
-- changes nothing, and the gate at the end stands for the counts at the end.
pub run-IsRefined :
    (l : List Action) (g : Gate) (holds : ℕ → ℕ) → Matches g holds → IsRefined holds (run l g)
unfolding run
run-IsRefined [] g holds m = (holds, finished, m)
run-IsRefined (a ∷ l) g holds m =
    step-IsRefined a g (act a g) (run l (settle g (act a g))) (act-IsStep a g holds m) m
      (λ h m'. run-IsRefined l (settle g (act a g)) h m')

-- A gate that a thread left behind, after `n` more of its calls.
leave-act :
    (t n : ℕ)
    → act (leaves t) (record { owner_thread = t; depth = suc (suc n) })
      ≡ some (record { owner_thread = t; depth = suc n })
unfolding act leave_gate
leave-act t n = ground (arith, ==_refl t)

last-act : (t : ℕ) → act (leaves t) (record { owner_thread = t; depth = 1 }) ≡ some open_gate
unfolding act leave_gate
last-act t = ground (arith, ==_refl t)

first-act : (t : ℕ) → act (enters t) open_gate ≡ some (record { owner_thread = t; depth = 1 })
unfolding act enter_gate
first-act t = refl

run-accept :
    (a : Action) (l : List Action) (g : Gate) {g' : Gate}
    → act a g ≡ some g'
    → run (a ∷ l) g ≡ ((a, true) ∷ (run l g').0, (run l g').1)
unfolding run
run-accept a l g e = rw e refl

-- A thread that is inside an isolate `suc n` times and leaves it as often is accepted each time, and
-- then any thread `u` may enter: it is the owner, once.
pub run-leaves :
    (n t u : ℕ)
    → run
        (replicate (suc n) (leaves t) ++ (enters u ∷ []))
        (record { owner_thread = t; depth = suc n })
      ≡ (
        map (λ a. (a, true)) (replicate (suc n) (leaves t) ++ (enters u ∷ [])),
        record { owner_thread = u; depth = 1 },
      )
unfolding run
run-leaves zero t u =
    run-accept (leaves t) (enters u ∷ []) _ (last-act t)
    ∙ ap (λ r. ((leaves t, true) ∷ r.0, r.1)) (run-accept (enters u) [] open_gate (first-act u))
run-leaves (suc n) t u =
    run-accept (leaves t) (replicate (suc n) (leaves t) ++ (enters u ∷ [])) _ (leave-act t n)
    ∙ ap (λ r. ((leaves t, true) ∷ r.0, r.1)) (run-leaves n t u)
