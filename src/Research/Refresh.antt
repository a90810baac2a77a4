-- ===== src/Research/Refresh.antt =====
-- What `refresh_risk` leaves alone, what it can fail with, and the state of risk that it sets.
use bodkin.Prelude.{
  ◌+◌, ℕ, ◌≤◌, ◌<◌, ◌≡◌, refl, ◌⊎◌, inl, inr, Option-cases, Bool-cases, true, false, Option, none,
  some, List, [], ◌∷◌, arith, max, if◌then◌else◌, is_empty, leb,
}
use bodkin.Research.Profile.{
  Error, Result, ok, err, drawdown_bps, arithmetic_overflow, active, halted, liquidating,
  valuation_unknown,
}
use bodkin.Research.Portfolio.{Position, Portfolio, add_liquidation, known_equity, refresh_risk}

pub Result-cases {ℓ} :
    {A : Type ℓ} (r : Result A) → ((a : A) × (r ≡ ok a)) ⊎ ((e : Error) × (r ≡ err e))
Result-cases (ok a) = inl (a, refl)
Result-cases (err e) = inr (e, refl)

-- The fields that `refresh_risk` does not write.
pub record SameBook (p q : Portfolio) : Type 0 where
  pub profile : q.profile ≡ p.profile
  pub cash : q.cash_wei ≡ p.cash_wei
  pub reserved : q.reserved_exit_gas_wei ≡ p.reserved_exit_gas_wei
  pub gas : q.gas_spent_wei ≡ p.gas_spent_wei
  pub realized : q.realized_proceeds_wei ≡ p.realized_proceeds_wei
  pub positions : q.positions ≡ p.positions
  pub revision : q.revision ≡ p.revision

pub refresh_risk-SameBook : (p : Portfolio) → SameBook p (refresh_risk p).1
unfolding refresh_risk
refresh_risk-SameBook p = ground arith

drawdown_bps-err :
    (peak equity : ℕ) (e : Error) → drawdown_bps peak equity ≡ err e → e ≡ arithmetic_overflow
unfolding drawdown_bps
drawdown_bps-err peak equity e h = ground arith

add_liquidation-err :
    (sum : ℕ) (qs : List Position) (e : Error)
    → add_liquidation sum qs ≡ err e
    → e ≡ arithmetic_overflow
unfolding add_liquidation
add_liquidation-err sum [] e h = cc
add_liquidation-err sum (q ∷ qs) e h = elim (Option-cases q.conservative_liquidation_wei) [
  | inl unknown ↦ ground arith
  | inr (v, known) ↦ ground (arith, add_liquidation-err (sum + v) qs e)
]

pub known_equity-err :
    (p : Portfolio) (e : Error) → known_equity p ≡ err e → e ≡ arithmetic_overflow
unfolding known_equity
known_equity-err p e h = add_liquidation-err p.cash_wei p.positions e h

-- The only error of `refresh_risk` is an overflow.
pub refresh_risk-err :
    (p : Portfolio) (e : Error) → (refresh_risk p).0 ≡ err e → e ≡ arithmetic_overflow
unfolding refresh_risk
refresh_risk-err p e h = grind (arith, known_equity-err, drawdown_bps-err)

-- Whether and how the risk state follows from the latch, the positions and their marks.
abbrev pub RiskFollows : Portfolio → Type 0
RiskFollows q =
    ((q.drawdown_breached ≡ true)
      × (q.risk_state ≡ (if is_empty q.positions then halted else liquidating)))
    ⊎ ((q.drawdown_breached ≡ false)
        × (q.risk_state ≡ valuation_unknown)
        × (known_equity q ≡ ok none))
    ⊎ ((q.drawdown_breached ≡ false)
        × (q.risk_state ≡ active)
        × ((equity : ℕ) × (drawdown : ℕ) × (known_equity q ≡ ok (some equity))
            × (equity ≤ q.peak_equity_wei)
            × (drawdown_bps q.peak_equity_wei equity ≡ ok drawdown)
            × (drawdown < q.profile.max_drawdown_bps)))

-- Without a mark for some position there is a position.
known_equity-none : (p : Portfolio) → known_equity p ≡ ok none → is_empty p.positions ≡ false
unfolding known_equity add_liquidation
known_equity-none p h = ground arith

-- The equity is read from the cash and the positions alone.
known_equity-SameBook : (p q : Portfolio) → SameBook p q → known_equity q ≡ known_equity p
unfolding known_equity
known_equity-SameBook p q s = rw (s.cash, s.positions)

-- A portfolio that is latched and still holds something is being liquidated.
abbrev pub LatchReady : Portfolio → Type 0
LatchReady p =
    p.drawdown_breached ≡ true → is_empty p.positions ≡ false → p.risk_state ≡ liquidating

pub Equity-cases :
    (r : Result (Option ℕ))
    → ((e : Error) × (r ≡ err e)) ⊎ (r ≡ ok none) ⊎ ((equity : ℕ) × (r ≡ ok (some equity)))
Equity-cases (err e) = inl (e, refl)
Equity-cases (ok none) = inr (inl refl)
Equity-cases (ok (some equity)) = inr (inr (equity, refl))

refresh_risk_priced :
    (p : Portfolio) (equity d : ℕ)
    → known_equity p ≡ ok (some equity)
    → drawdown_bps (max p.peak_equity_wei equity) equity ≡ ok d
    → RiskFollows (refresh_risk p).1
unfolding refresh_risk
refresh_risk_priced p equity d k w = elim (Bool-cases p.drawdown_breached) [
  | inl old ↦ inl (ground arith)
  | inr fresh ↦ elim (Bool-cases (leb p.profile.max_drawdown_bps d)) [
    | inl over ↦ inl (ground arith)
    | inr under ↦ inr (
        inr (
          ground arith,
          ground arith,
          (equity, d, ground arith, ground arith, ground arith, ground arith),
        ))
  ]
]

pub refresh_risk-RiskFollows :
    (p : Portfolio) → LatchReady p → (refresh_risk p).0 ≡ ok tt → RiskFollows (refresh_risk p).1
unfolding refresh_risk
refresh_risk-RiskFollows p ready h = elim (Equity-cases (known_equity p)) [
  | inl (e, k) ↦ ground arith
  | inr (inl k) ↦ ground (arith, known_equity-none p k)
  | inr (inr (equity, k)) ↦
      elim (Result-cases (drawdown_bps (max p.peak_equity_wei equity) equity)) [
        | inl (d, w) ↦ refresh_risk_priced p equity d k w
        | inr (e, w) ↦ ground arith
      ]
]
