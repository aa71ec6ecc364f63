-- ===== src/Run/Keeps.antt =====
-- Invariants of commands, one rule for each way to build a command.
use gv.Prelude.{◌≡◌, refl, Bool, true, false, Option, none, some, if◌then◌else◌}
use gv.Memory.{Memory, Mem}
use gv.Run.{
  World, Run, ok, fault, abort, Cmd, Call, pure, fail, stop, asks, engine, enter, memory, or_fault,
  to_local_checked, get, ◌>>=◌, continue,
}

-- What holds of the memory of a run that ended well.
abbrev pub Ends : {E A : Type 0} → (Memory → Type 0) → Run E A → Type 0
Ends P (ok a w) = P w.mem
Ends P fault = Unit {0}
Ends P abort = Unit {0}

pub record Keeps {E A : Type 0} (P : Memory → Type 0) (c : Cmd E A) : Type 0 where
  pub at : (w : World E) → P w.mem → Ends P (c w)

-- The same for a call that can run user code, and for a command on the memory.
pub record CallKeeps {E A : Type 0} (P : Memory → Type 0) (c : Call E A) : Type 0 where
  pub at : (w : World E) → P w.mem → P (c w).1.mem

pub record MemKeeps {A : Type 0} (P : Memory → Type 0) (c : Mem A) : Type 0 where
  pub at : (m m' : Memory) (a : A) → c m ≡ some (a, m') → P m → P m'

module _ {E A : Type 0} {P : Memory → Type 0} where
  pub Keeps-pure : (a : A) → Keeps {E = E} P (pure a)
  unfolding pure
  Keeps-pure a = record { at = λ w h. h }

  pub Keeps-fail : Keeps {E = E} {A = A} P fail
  unfolding fail
  Keeps-fail = record { at = λ w h. tt }

  pub Keeps-stop : Keeps {E = E} {A = A} P stop
  unfolding stop
  Keeps-stop = record { at = λ w h. tt }

  pub Keeps-asks : (f : E → A) → Keeps P (asks f)
  unfolding asks
  Keeps-asks f = record { at = λ w h. h }

  pub Keeps-engine : (f : E → A × E) → Keeps P (engine f)
  unfolding engine
  Keeps-engine f = record { at = λ w h. h }

  pub Keeps-enter : (f : Call E A) → CallKeeps P f → Keeps P (enter f)
  unfolding enter
  Keeps-enter f k = record { at = λ w h. k.at w h }

  Ends-or_fault :
      (o : Option (A × Memory)) (e : E)
      → ((m' : Memory) (a : A) → o ≡ some (a, m') → P m')
      → Ends P (or_fault o e)
  Ends-or_fault none e k = tt
  Ends-or_fault (some (a, m)) e k = k m a refl

  pub Keeps-memory : (c : Mem A) → MemKeeps P c → Keeps {E = E} P (memory c)
  unfolding memory
  Keeps-memory c k = record {
    at = λ w h. Ends-or_fault (c w.mem) w.engine (λ m' a e. k.at w.mem m' a e h);
  }

  pub Keeps-checked : (o : Option A) → Keeps {E = E} P (to_local_checked o)
  unfolding to_local_checked
  Keeps-checked none = record { at = λ w h. tt }
  Keeps-checked (some a) = record { at = λ w h. h }

  pub Keeps-get : (o : Option A) → Keeps {E = E} P (get o)
  unfolding get
  Keeps-get none = record { at = λ w h. tt }
  Keeps-get (some a) = record { at = λ w h. h }

  pub Keeps-if : (b : Bool) (c d : Cmd E A) → Keeps P c → Keeps P d → Keeps P (if b then c else d)
  Keeps-if true c d kc kd = kc
  Keeps-if false c d kc kd = kd

module _ {E A B : Type 0} {P : Memory → Type 0} where
  Ends-continue :
      (r : Run E A) (f : A → Cmd E B) → Ends P r → ((a : A) → Keeps P (f a)) → Ends P (continue r f)
  Ends-continue (ok a w) f h k = (k a).at w h
  Ends-continue fault f h k = tt
  Ends-continue abort f h k = tt

  pub Keeps-bind :
      (c : Cmd E A) (f : A → Cmd E B) → Keeps P c → ((a : A) → Keeps P (f a)) → Keeps P (c >>= f)
  unfolding ◌>>=◌
  Keeps-bind c f kc kf = record { at = λ w h. Ends-continue (c w) f (kc.at w h) kf }

pub ruleset keeps_rules = (
  Keeps-pure, Keeps-fail, Keeps-stop, Keeps-asks, Keeps-engine, Keeps-enter, Keeps-memory,
  Keeps-checked, Keeps-get, Keeps-if, Keeps-bind,
)
