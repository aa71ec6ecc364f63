-- ===== src/Memory.antt =====
-- The memory of internal/gv8.cc: its structs on an explicit heap. A pointer is a number, and no
-- address is given out twice, so that a use after `delete` is seen as such.
pub mod Dispose
pub mod Invariant
pub mod Objects
pub mod Release
pub mod Roundtrip
pub mod Steps
pub mod Tables
pub mod Values
pub mod Wrap
use gv.Prelude.{
  ℕ, suc, ◌+◌, Option, none, some, List, [], ◌∷◌, Bool, true, false, ◌&&◌, not, ◌==◌, if◌then◌else◌,
  update,
}
use gv.Prelude.Int.{ℤ, pos}
use mathlib.Core.Option

abbrev pub Ptr : Type 0
Ptr = ℕ

abbrev pub null : Ptr
null = 0

-- What a `v8::Persistent` holds: the identity of an object of V8's heap, or nothing.
abbrev pub Persistent : Type 0
Persistent = Option ℕ

abbrev pub holds : Persistent → ℕ
holds none = 0
holds (some h) = 1

pub record Gv8Ctx : Type 0 where
  pub iso : Ptr
  pub ptr : Persistent
  pub ref : ℤ
  pub values : List (ℕ × Ptr)
  pub next_value_id : ℕ
  pub snapshot_blob : Ptr
  pub snapshot_data : Ptr

pub record Gv8Value : Type 0 where
  pub id : ℕ
  pub ctx : Ptr
  pub iso : Ptr
  pub ptr : Persistent

pub record Gv8UnboundScript : Type 0 where
  pub iso : Ptr
  pub ptr : Persistent

pub record Gv8Module : Type 0 where
  pub iso : Ptr
  pub ptr : Persistent

pub record Gv8SnapshotBuilder : Type 0 where
  pub creator : ℕ
  pub iso : Ptr
  pub ctx : Persistent
  pub built : Bool

-- `v8::StartupData`
pub record StartupData : Type 0 where
  pub bytes : Ptr
  pub raw_size : ℤ

-- The slots of an isolate that the program writes: `SetData(0)`, `SetData(1)` and the two hooks.
pub record IsolateSlots : Type 0 where
  pub data0 : Ptr
  pub data1 : ℤ
  pub import_hook : Bool
  pub reject_hook : Bool

-- The embedder slots 1 and 2 of a V8 context.
pub record EmbedderSlots : Type 0 where
  pub slot1 : ℤ
  pub slot2 : Ptr

-- `made` and `freed` count the persistent handles that V8 was asked to create and to drop;
-- `default_allocator` is the global of that name.
pub record Memory : Type 0 where
  pub next : Ptr
  pub default_allocator : Ptr
  pub made : ℕ
  pub freed : ℕ
  pub isolates : Ptr → Option IsolateSlots
  pub ctxs : Ptr → Option Gv8Ctx
  pub values : Ptr → Option Gv8Value
  pub scripts : Ptr → Option Gv8UnboundScript
  pub modules : Ptr → Option Gv8Module
  pub builders : Ptr → Option Gv8SnapshotBuilder
  pub startups : Ptr → Option StartupData
  pub buffers : Ptr → Option (List ℕ)
  pub embedder : ℕ → Option EmbedderSlots

-- A command on the memory; `none` is undefined behaviour, such as a read through a dangling pointer.
abbrev pub Mem : Type 0 → Type 0
Mem A = Memory → Option (A × Memory)

abbrev pub pure : {A : Type 0} → A → Mem A
pure a m = some (a, m)

infixl 5 ◌>>=◌ ◌>>◌
abbrev pub ◌>>=◌ : {A B : Type 0} → Mem A → (A → Mem B) → Mem B
◌>>=◌ c f m = elim (c m) [ none ↦ none | some (a, m') ↦ f a m' ]

abbrev pub ◌>>◌ : {A B : Type 0} → Mem A → Mem B → Mem B
c >> k = c >>= λ _. k

-- `std::unordered_map<long, gv8_value*>`: `values[id] = p`, and `erase(id)`.
abbrev pub lookup : ℕ → List (ℕ × Ptr) → Option Ptr
lookup k [] = none
lookup k ((j, p) ∷ l) = if j == k then some p else lookup k l

abbrev pub insert : ℕ → Ptr → List (ℕ × Ptr) → List (ℕ × Ptr)
insert k p [] = (k, p) ∷ []
insert k p ((j, q) ∷ l) = if j == k then (k, p) ∷ l else (j, q) ∷ insert k p l

abbrev pub erase : ℕ → List (ℕ × Ptr) → List (ℕ × Ptr)
erase k [] = []
erase k ((j, q) ∷ l) = if j == k then l else (j, q) ∷ erase k l

-- The address of a new object.
abbrev pub allocate : Mem Ptr
allocate m = some (m.next, record m { next = suc m.next })

-- `ptr.Reset(iso, h)` over what was held, and `ptr.Reset()`.
abbrev persist : Persistent → Mem (Unit {0})
persist old m = some (tt, record m { made = m.made + 1; freed = m.freed + holds old })

abbrev pub reset : Persistent → Mem (Unit {0})
reset old m = some (tt, record m { freed = m.freed + holds old })

abbrev pub load_ctx : Ptr → Mem Gv8Ctx
load_ctx p m = Option.map (λ c. (c, m)) (m.ctxs p)

abbrev pub store_ctx : Ptr → Gv8Ctx → Mem (Unit {0})
store_ctx p c m = Option.map (λ _. (tt, record m { ctxs = update m.ctxs p (some c) })) (m.ctxs p)

abbrev pub load_value : Ptr → Mem Gv8Value
load_value p m = Option.map (λ v. (v, m)) (m.values p)

abbrev pub store_value : Ptr → Gv8Value → Mem (Unit {0})
store_value p v m =
    Option.map (λ _. (tt, record m { values = update m.values p (some v) })) (m.values p)

-- `new gv8_value` with its handle set, and `delete`.
abbrev pub new_value : Gv8Value → Mem Ptr
new_value v = do
  p ← allocate
  (λ m. some (tt, record m { values = update m.values p (some v) }))
  persist none
  pure p

abbrev pub delete_value : Ptr → Mem (Unit {0})
delete_value p m = Option.map (λ _. (tt, record m { values = update m.values p none })) (m.values p)

abbrev pub delete_ctx : Ptr → Mem (Unit {0})
delete_ctx p m = Option.map (λ _. (tt, record m { ctxs = update m.ctxs p none })) (m.ctxs p)
