-- ===== src/Go/Await/Rounds.antt =====
-- The turns of Await's loop, and the fuel that it takes.
use gv.Prelude.{ℕ, zero, suc, ◌<◌, ◌≡◌, ◌≢◌, refl, ap, ◌∙◌, Option, none, arith}
use gv.Memory.{Ptr}
use gv.Run.{World, ok, continue}
use gv.Go.{GoError, Native, done, Go, pure, then_go}
use gv.Go.Await.{PromiseCalls, Waiting, Turn, again, settled, returns, turn, loop, go_on}

module _ {E : Type 0} (v : PromiseCalls (Native E)) (waiting : Waiting E) (p : Ptr) where
  -- A number of turns in a row, after each of which the loop goes on.
  pub data Turns : ℕ → World (Native E) → World (Native E) → Type 0 where
    here : {w : World (Native E)} → Turns 0 w w
    more :
        {n : ℕ} {a b c : World (Native E)}
        → turn v waiting p a ≡ ok (done again) b
        → Turns n b c
        → Turns (suc n) a c

  loop-suc :
      (n : ℕ) (w : World (Native E))
      → loop v (suc n) waiting p w
        ≡ continue (turn v waiting p w) (λ t. then_go t (go_on v (loop v n waiting p)))
  unfolding loop
  loop-suc n w = refl

  stops :
      (rest : Go E (Option (Option GoError))) (t : Turn) (b : World (Native E))
      → t ≢ again
      → go_on v rest t b ≡ go_on v (pure none) t b
  stops rest again b s = absurd (s refl)
  stops rest settled b s = refl
  stops rest (returns x) b s = refl

  loop-turn :
      (n : ℕ) (t : Turn) (w b : World (Native E))
      → turn v waiting p w ≡ ok (done t) b
      → loop v (suc n) waiting p w ≡ go_on v (loop v n waiting p) t b
  loop-turn n t w b e =
      loop-suc n w ∙ ap (λ r. continue r (λ t. then_go t (go_on v (loop v n waiting p)))) e

  -- The fuel does not matter: after n turns after which the loop goes on, and one after which it does
  -- not, the loop on any fuel above n ends as that turn says.
  pub loop-Turns :
      (n m : ℕ) (w a b : World (Native E)) (t : Turn)
      → n < m
      → Turns n w a
      → t ≢ again
      → turn v waiting p a ≡ ok (done t) b
      → loop v m waiting p w ≡ go_on v (pure none) t b
  loop-Turns n zero w a b t l s d e = absurd (omega (arith, l))
  loop-Turns zero (suc m) w a b t l here d e =
      loop-turn m t w b e ∙ stops (loop v m waiting p) t b d
  loop-Turns (suc n) (suc m) w a b t l (more {b = c} q s) d e =
      loop-turn m again w c q ∙ loop-Turns n m c a b t (omega (arith, l)) s d e
