-- ===== src/Go/Enter/Lent.antt =====
-- enter and leave as a pair, where the isolate can be entered.
use gv.Prelude.{
  ℕ, suc, ◌+◌, ◌-◌, ◌≡◌, ◌≢◌, refl, none, some, arith, ◌==◌, update, Bool-cases, inl, inr, ne→==,
}
use gv.Memory.{Ptr}
use gv.Go.{Isolate, Heap, done}
use gv.Go.Access.{Gate, enter_gate, leave_gate}
use gv.Go.Enter.{in_use, enter, must_enter, leave}

-- The thread may enter the isolate, and its gate is then this.
pub record Admits (g : Heap) (iso : Ptr) (i : Isolate) (gate : Gate) : Type 0 where
  pub iso_ne_null : iso ≢ 0
  pub here : g.isolates iso ≡ some i
  pub ptr_ne_null : i.ptr ≢ 0
  pub admitted : enter_gate g.thread i.gate ≡ some gate

-- The gate after enter and leave: as deep as before, and of the same owner if it has one.
pub leave_gate-enter_gate :
    (t : ℕ) (g h : Gate)
    → enter_gate t g ≡ some h
    → (k : Gate) × (leave_gate t h ≡ some k)
      × (k.depth ≡ g.depth)
      × (g.depth ≢ 0 → k.owner_thread ≡ g.owner_thread)
unfolding enter_gate leave_gate
leave_gate-enter_gate t g h e = elim (Bool-cases (g.depth == 0)) [
  | inl z ↦ (
    record { owner_thread = 0; depth = 0 },
    ground (arith, z),
    ground (arith, z),
    λ n. absurd (ground (arith, z)),
  )
  | inr z ↦ elim (Bool-cases (g.owner_thread == t)) [
    | inl o ↦ (g, ground (arith, z, o), refl, λ n. refl)
    | inr o ↦ absurd (ground (arith, z, o))
  ]
]

-- The thread may enter again what it has entered and left.
pub enter_gate_again :
    (t : ℕ) (g h k : Gate)
    → enter_gate t g ≡ some h
    → k.depth ≡ g.depth
    → (g.depth ≢ 0 → k.owner_thread ≡ g.owner_thread)
    → (h' : Gate) × (enter_gate t k ≡ some h')
unfolding enter_gate
enter_gate_again t g h k e d o = elim (Bool-cases (g.depth == 0)) [
  | inl z ↦ (record { owner_thread = t; depth = 1 }, ground (arith, z, d))
  | inr z ↦ elim (Bool-cases (g.owner_thread == t)) [
    | inl s ↦ (record k { depth = k.depth + 1 }, ground (arith, z, s, d, o))
    | inr s ↦ absurd (ground (arith, z, s))
  ]
]

abbrev pub put_gate : Heap → Ptr → Isolate → Gate → Heap
put_gate g iso i gate = record g {
  isolates = update g.isolates iso (some (record i { gate = gate }));
}

abbrev pub entered : Heap → Ptr → Isolate → Gate → Heap
entered g iso i gate = record (put_gate g iso i gate) { locks = suc g.locks }

pub enter_lem :
    {g : Heap} {iso : Ptr} {i : Isolate} {gate : Gate}
    → Admits g iso i gate
    → enter iso g ≡ (done none, entered g iso i gate)
unfolding enter
enter_lem {g} {iso} {i} {gate} a =
    rw (ne→== iso 0 a.iso_ne_null, a.here, ne→== i.ptr 0 a.ptr_ne_null, a.admitted) refl

pub must_enter_lem :
    {g : Heap} {iso : Ptr} {i : Isolate} {gate : Gate}
    → Admits g iso i gate
    → must_enter iso g ≡ (done tt, entered g iso i gate)
unfolding must_enter
must_enter_lem a = rw (enter_lem a) refl

pub leave_lem :
    (g : Heap) (iso : Ptr) (i : Isolate) (gate : Gate)
    → g.isolates iso ≡ some i
    → leave_gate g.thread i.gate ≡ some gate
    → leave iso g ≡ (done tt, record (put_gate g iso i gate) { locks = g.locks - 1 })
unfolding leave
leave_lem g iso i gate h l = rw (h, l) refl

pub enter-refused :
    (g : Heap) (iso : Ptr) (i : Isolate)
    → iso ≢ 0
    → g.isolates iso ≡ some i
    → i.ptr ≢ 0
    → enter_gate g.thread i.gate ≡ none
    → enter iso g ≡ (done (some in_use), record g { locks = suc g.locks - 1 })
unfolding enter
enter-refused g iso i n h p r = rw (ne→== iso 0 n, h, ne→== i.ptr 0 p, r) refl
