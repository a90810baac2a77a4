-- ===== src/Research/Portfolio.antt =====
-- research.rs: `ResearchPortfolio`. A method that takes `&mut self` returns its result and the
-- portfolio, also after an error: what was written before it stays written.
use bodkin.Prelude.{
  ℕ, max, Bool, true, false, not, ◌&&◌, Option, none, some, List, [], ◌∷◌, String, leb,
  if◌then◌else◌, is_empty, checked_add, u64_mod, wrapping_add,
}
use bodkin.Research.Profile.{
  Profile, RiskState, Error, Result, ok, err, drawdown_bps, validate, valuation_unknown,
  liquidating, halted, arithmetic_overflow,
}
use bodkin.Research.Profile.{active}

pub record Position : Type 0 where
  pub id : String
  pub token : ℕ
  pub tokens : ℕ
  pub entry_value_wei : ℕ
  pub entry_gas_wei : ℕ
  pub reserved_exit_gas_wei : ℕ
  pub conservative_liquidation_wei : Option ℕ

pub record EntrySettlement : Type 0 where
  pub id : String
  pub token : ℕ
  pub tokens : ℕ
  pub entry_value_wei : ℕ
  pub entry_gas_wei : ℕ
  pub conservative_liquidation_wei : Option ℕ

pub record Admission : Type 0 where
  pub revision : ℕ
  pub entry_value_wei : ℕ
  pub entry_gas_limit_wei : ℕ
  pub exit_gas_reserve_wei : ℕ
  pub commitment_wei : ℕ

pub record Portfolio : Type 0 where
  pub profile : Profile
  pub cash_wei : ℕ
  pub peak_equity_wei : ℕ
  pub drawdown : Option ℕ
  pub reserved_exit_gas_wei : ℕ
  pub gas_spent_wei : ℕ
  pub realized_proceeds_wei : ℕ
  pub positions : List Position
  pub risk_state : RiskState
  pub drawdown_breached : Bool
  pub revision : ℕ

-- A method on `&mut self`.
abbrev pub Action : Type 0 → Type 0
Action A = Portfolio → Result A × Portfolio

infixl 5 ◌>>=◌ ◌>>◌
abbrev pub ◌>>=◌ : {A B : Type 0} → Action A → (A → Action B) → Action B
◌>>=◌ m f p = elim ((m p).0) [ ok a ↦ f a (m p).1 | err e ↦ (err e, (m p).1) ]

abbrev pub ◌>>◌ : {A B : Type 0} → Action A → Action B → Action B
m >> k = m >>= λ _. k

-- `?` on a value that does not touch the portfolio.
abbrev pub try : {A : Type 0} → Result A → Action A
try r p = (r, p)

abbrev pub refuse : Bool → Error → Action (Unit {0})
refuse test e p = (if test then err e else ok tt, p)

abbrev pub gets : {A : Type 0} → (Portfolio → A) → Action A
gets f p = (ok (f p), p)

abbrev pub modify : (Portfolio → Portfolio) → Action (Unit {0})
modify f p = (ok tt, f p)

abbrev pub initial : Profile → Portfolio
initial profile = record {
  profile = profile;
  cash_wei = profile.starting_equity_wei;
  peak_equity_wei = profile.starting_equity_wei;
  drawdown = some 0;
  reserved_exit_gas_wei = 0;
  gas_spent_wei = 0;
  realized_proceeds_wei = 0;
  positions = [];
  risk_state = active;
  drawdown_breached = false;
  revision = 0;
}

-- `ResearchPortfolio::new`
unfoldable pub create : Profile → Result Portfolio
create profile = elim (validate profile) [ err e ↦ err e | ok _ ↦ ok (initial profile) ]

-- The loop of `known_equity`: the sum so far, over the positions left.
unfoldable pub add_liquidation : ℕ → List Position → Result (Option ℕ)
add_liquidation equity [] = ok (some equity)
add_liquidation equity (q ∷ qs) = elim q.conservative_liquidation_wei [
  | none ↦ ok none
  | some value ↦ elim (checked_add equity value) [
    | none ↦ err arithmetic_overflow
    | some sum ↦ add_liquidation sum qs
  ]
]

unfoldable pub known_equity : Portfolio → Result (Option ℕ)
known_equity p = add_liquidation p.cash_wei p.positions

-- `!=` on the derived `PartialEq`.
abbrev pub is_active : RiskState → Bool
is_active active = true
is_active _ = false

-- What `refresh_risk` does once the latch is decided.
abbrev pub classify : Portfolio → Portfolio
classify p = record p {
  risk_state =
      if p.drawdown_breached
      then (if is_empty p.positions then halted else liquidating)
      else active;
}

abbrev pub latch : ℕ → Portfolio → Portfolio
latch drawdown p =
    if not p.drawdown_breached && leb p.profile.max_drawdown_bps drawdown
    then record p { drawdown_breached = true }
    else p

unfoldable pub refresh_risk : Action (Unit {0})
unfolding known_equity add_liquidation
refresh_risk p = elim (known_equity p) [
  | err e ↦ (err e, p)
  | ok none ↦ (
    ok tt,
    if p.drawdown_breached then p else record p { risk_state = valuation_unknown; drawdown = none },
  )
  | ok (some equity) ↦
      let peak = max p.peak_equity_wei equity in
      elim (drawdown_bps peak equity) [
        | err e ↦ (err e, record p { peak_equity_wei = peak })
        | ok d ↦
            (ok tt, classify (latch d (record p { peak_equity_wei = peak; drawdown = some d })))
      ]
]

abbrev pub bump_revision : Portfolio → Portfolio
bump_revision p = record p { revision = wrapping_add u64_mod p.revision 1 }
