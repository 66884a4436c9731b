-- ===== src/Prelude/Loops.antt =====
-- Loops on fuel, with one rule for total correctness and one for loops that never end.
use Prim.Native.Nat.{ℕ, zero, suc, ◌<◌}
use mathlib.Core.Path.{◌≡◌, refl, sym}
use native.Mathlib.Omega.{arith}
use postgres_lsp.Prelude.Outcomes.{Outcome, ok, panic, out_of_fuel, Returns}

-- One round ends the loop by `break`, or goes on.
pub data Flow {ℓ} (S : Type ℓ) : Type ℓ where
  stop : S → Flow S
  continue : S → Flow S

unfoldable pub loop {ℓ} : {S : Type ℓ} → ℕ → (S → Outcome (Flow S)) → S → Outcome S
loop zero step s = out_of_fuel
loop (suc f) step s = elim (step s) [
  | ok next ↦ elim next [ stop t ↦ ok t | continue t ↦ loop f step t ]
  | panic ↦ panic
  | out_of_fuel ↦ out_of_fuel
]

-- A round that ends the loop does so in `Q`; one that goes on keeps `P` and lowers the measure.
abbrev pub Round {ℓ} : {S : Type ℓ} → (S → Type 0) → (S → ℕ) → (S → Type 0) → ℕ → Flow S → Type 0
Round P measure Q m (stop t) = Q t
Round P measure Q m (continue t) = P t × (measure t < m)

module _ {ℓ} {S : Type ℓ} (P : S → Type 0) (measure : S → ℕ) (Q : S → Type 0) where
  after-Round :
      (f : ℕ) (step : S → Outcome (Flow S)) (s : S) (m : ℕ) (r : Outcome (Flow S))
      → r ≡ step s
      → Returns (Round P measure Q m) r
      → ((t : S) → P t → measure t < m → Returns Q (loop f step t))
      → Returns Q (loop (suc f) step s)
  unfolding loop
  after-Round f step s m (ok (stop t)) e h rest = rw (sym e, loop) h
  after-Round f step s m (ok (continue t)) e h rest = rw (sym e, loop) (rest t h.0 h.1)
  after-Round f step s m panic e h rest = absurd h
  after-Round f step s m out_of_fuel e h rest = absurd h

  -- With a measure below the fuel the loop ends, without a panic and in `Q`.
  pub loop-Returns :
      (step : S → Outcome (Flow S))
      → ((s : S) → P s → Returns (Round P measure Q (measure s)) (step s))
      → (f : ℕ) (s : S) → P s
      → measure s < f
      → Returns Q (loop f step s)
  loop-Returns step round zero s p h = elim h [ ]
  loop-Returns step round (suc f) s p h =
      after-Round f step s (measure s) (step s) refl (round s p)
        λ t pt lt. loop-Returns step round f t pt (omega arith)

  -- A loop whose every round goes on has not ended after any number of rounds.
  pub loop_endless :
      (step : S → Outcome (Flow S))
      → ((s : S) → P s → (t : S) × (step s ≡ ok (continue t)) × P t)
      → (f : ℕ) (s : S) → P s
      → loop f step s ≡ out_of_fuel
  unfolding loop
  loop_endless step round zero s p = refl
  loop_endless step round (suc f) s p =
      let (t, e, q) = round s p in rw (e, loop) (loop_endless step round f t q)

-- A loop whose first round does not end does not end.
pub loop_stuck {ℓ} :
    {S : Type ℓ} (step : S → Outcome (Flow S)) (f : ℕ) (s : S)
    → step s ≡ out_of_fuel
    → loop f step s ≡ out_of_fuel
unfolding loop
loop_stuck step zero s e = refl
loop_stuck step (suc f) s e = rw (e, loop)
