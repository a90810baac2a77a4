-- ===== src/Research/Profile.antt =====
-- research.rs: the profile of a research run, its validation, and the checked arithmetic that the
-- portfolio shares. Every error is a value of `Error`.
use bodkin.Prelude.{
  ℕ, Bool, ◌&&◌, ◌||◌, Option, none, some, String, leb, ◌==◌, if◌then◌else◌, checked_sub,
  checked_mul, checked_div, not,
}
use bodkin.Prelude.Text.{is_blank}
use Prim.Native.Nat.{◌^◌}

pub data RiskState : Type 0 where
  active valuation_unknown liquidating halted : RiskState

-- `ResearchError`, the variants that the profile, the portfolio and its book return.
pub data Error : Type 0 where
  invalid_profile : String → Error
  admissions_halted : RiskState → Error
  valuation_is_unknown : Error
  open_position_limit : Error
  zero_commitment : Error
  commitment_limit : ℕ → ℕ → Error
  insufficient_cash : ℕ → ℕ → Error
  arithmetic_overflow : Error
  admission_exceeded : Error
  stale_admission : Error
  duplicate_position : String → Error
  zero_inventory : Error
  position_not_found : String → Error
  invalid_exit_quantity : Error
  portfolio_io portfolio_encoding incompatible_portfolio_state : Error

pub data Result {ℓ} (A : Type ℓ) : Type ℓ where
  ok : A → Result A
  err : Error → Result A

infixl 5 ◌>>=◌
abbrev pub ◌>>=◌ {ℓ κ} : {A : Type ℓ} {B : Type κ} → Result A → (A → Result B) → Result B
ok a >>= f = f a
err e >>= f = err e

-- `ok_or(e)?`
abbrev pub ok_or {ℓ} : {A : Type ℓ} → Option A → Error → Result A
ok_or none e = err e
ok_or (some a) e = ok a

-- `if test { return Err(e) }`, then the rest.
abbrev pub refuse_if {ℓ} : {A : Type ℓ} → Bool → Error → Result A → Result A
refuse_if test e rest = if test then err e else rest

pub data GraduationPolicy : Type 0 where
  exit_before_graduation hold_through_graduation : GraduationPolicy

pub record Profile : Type 0 where
  pub name : String
  pub starting_equity_wei : ℕ
  pub max_commitment_bps : ℕ
  pub max_drawdown_bps : ℕ
  pub max_open_positions : ℕ
  pub entry_attempts : ℕ
  pub entry_gas_limit : ℕ
  pub exit_gas_limit : ℕ
  pub max_fee_multiplier_bps : ℕ
  pub min_taxed_buyers_s1 : ℕ
  pub inactivity_seconds : Option ℕ
  pub max_curve_hold_seconds : Option ℕ
  pub graduation_policy : GraduationPolicy

-- `ResearchProfile::default`
abbrev pub default_profile : Profile
default_profile = record {
  name = "risk-normalized-v1";
  starting_equity_wei = 50_000_000_000_000_000;
  max_commitment_bps = 200;
  max_drawdown_bps = 1_000;
  max_open_positions = 3;
  entry_attempts = 1;
  entry_gas_limit = 350_000;
  exit_gas_limit = 500_000;
  max_fee_multiplier_bps = 30_000;
  min_taxed_buyers_s1 = 0;
  inactivity_seconds = none;
  max_curve_hold_seconds = none;
  graduation_policy = exit_before_graduation;
}

abbrev in_bps_range : ℕ → Bool
in_bps_range bps = leb 1 bps && leb bps 10_000

unfoldable pub validate : Profile → Result (Unit {0})
validate p = refuse_if (is_blank p.name) (invalid_profile "profile name is empty") (
    refuse_if (p.starting_equity_wei == 0) (invalid_profile "starting equity must be positive") (
      refuse_if (not (in_bps_range p.max_commitment_bps))
        (invalid_profile "commitment bps must be 1..=10000")
        (refuse_if (not (in_bps_range p.max_drawdown_bps))
          (invalid_profile "drawdown bps must be 1..=10000")
          (refuse_if (p.max_open_positions == 0)
            (invalid_profile "max open positions must be positive")
            (refuse_if
              (not (
                p.entry_attempts == 1
                || p.entry_attempts == 2
                || p.entry_attempts == 4
                || p.entry_attempts == 8))
              (invalid_profile "entry attempts must be one of 1, 2, 4, or 8")
              (refuse_if
                (p.entry_gas_limit == 0 || p.exit_gas_limit == 0 || p.max_fee_multiplier_bps == 0)
                (invalid_profile "gas limits and fee multiplier must be positive") (ok tt)))))))

-- The chain of checked products ends in one overflow error.
unfoldable pub modeled_gas : ℕ → ℕ → ℕ → ℕ → Result ℕ
modeled_gas gas_limit attempts base_fee_wei fee_multiplier_bps = do
  gas ← ok_or (checked_mul gas_limit attempts) arithmetic_overflow
  priced ← ok_or (checked_mul gas base_fee_wei) arithmetic_overflow
  scaled ← ok_or (checked_mul priced fee_multiplier_bps) arithmetic_overflow
  ok_or (checked_div scaled 10_000) arithmetic_overflow

unfoldable pub bps_of : ℕ → ℕ → Result ℕ
bps_of value bps = do
  scaled ← ok_or (checked_mul value bps) arithmetic_overflow
  ok_or (checked_div scaled 10_000) arithmetic_overflow

-- The quotient must fit `u64`.
unfoldable pub drawdown_bps : ℕ → ℕ → Result ℕ
drawdown_bps peak equity = if peak == 0 || leb peak equity then ok 0 else (do
  loss ← ok_or (checked_sub peak equity) arithmetic_overflow
  weighted ← ok_or (checked_mul loss 10_000) arithmetic_overflow
  scaled ← ok_or (checked_div weighted peak) arithmetic_overflow
  refuse_if (leb (2 ^ 64) scaled) arithmetic_overflow (ok scaled))

unfoldable pub modeled_entry_gas : Profile → ℕ → Result ℕ
unfolding modeled_gas
modeled_entry_gas p base_fee_wei =
    modeled_gas p.entry_gas_limit p.entry_attempts base_fee_wei p.max_fee_multiplier_bps

unfoldable pub modeled_exit_gas : Profile → ℕ → Result ℕ
unfolding modeled_gas
modeled_exit_gas p base_fee_wei =
    modeled_gas p.exit_gas_limit 1 base_fee_wei p.max_fee_multiplier_bps

unfoldable pub entry_value_for_equity : Profile → ℕ → ℕ → Result (Option ℕ)
entry_value_for_equity p equity_wei base_fee_wei = do
  ceiling ← bps_of equity_wei p.max_commitment_bps
  gas ← modeled_entry_gas p base_fee_wei
  ok (checked_sub ceiling gas)
