-- ===== src/Decision/Rules.antt =====
-- engine.rs: `SnipeRules` and its validation.
use bodkin.Prelude.{
  ℕ, Bool, ◌||◌, Option, none, some, List, [], ◌∷◌, String, ltb, leb, ◌==◌, if◌then◌else◌,
}
use bodkin.Prelude.Int.{ℤ}
use bodkin.Curve.Quote.{bps}
use bodkin.Positions.Rules.{Floats, ExitRules, ExitLadder}

-- The keyword is a compiled regular expression: whether it matches a text.
pub record SnipeRules (fl : Floats) : Type 0 where
  pub eth_per_buy : ℕ
  pub slippage_bps : ℕ
  pub max_opening_tax_bps : ℕ
  pub min_score : ℤ
  pub max_dev_share_pct : fl.Float
  pub min_dev_share_pct : fl.Float
  pub max_creator_tax_bps : ℕ
  pub require_socials : Bool
  pub max_exempt_wallets : ℕ
  pub eth_pairs_only : Bool
  pub keyword : Option (String → Bool)
  pub deployers : List String
  pub max_open_positions : ℕ
  pub max_farm_twins : ℕ
  pub session_budget_wei : ℕ
  pub exits : ExitRules fl
  pub max_wait_ms : ℕ
  pub entry_second : ℕ
  pub min_taxed_buyers_s1 : ℕ
  pub max_exempt_buys_s0 : ℕ
  pub abort_if_insider_sold : Bool
  pub ladder : ExitLadder
  pub stale_sec : ℕ
  pub stale_min_progress : fl.Float

pub data Invalid : Type 0 where
  zero_entry : Invalid
  slippage_too_high opening_tax_too_high : ℕ → Invalid
  budget_below_entry zero_entry_second no_open_positions zero_stale_sec : Invalid
  bad_fraction : ℕ → Invalid

-- The loop over the rungs: the first fraction outside 1 to 100.
abbrev pub check_rungs : List (ℕ × ℤ) → Option Invalid
check_rungs [] = none
check_rungs ((frac, at) ∷ rungs) =
    if frac == 0 || ltb 100 frac then some (bad_fraction frac) else check_rungs rungs

-- `none` for `Ok`, else the first complaint.
unfoldable pub validate : (fl : Floats) → SnipeRules fl → Option Invalid
validate fl r =
    if r.eth_per_buy == 0
    then some zero_entry
    else if leb bps r.slippage_bps
    then some (slippage_too_high r.slippage_bps)
    else if ltb bps r.max_opening_tax_bps
    then some (opening_tax_too_high r.max_opening_tax_bps)
    else if ltb r.session_budget_wei r.eth_per_buy
    then some budget_below_entry
    else if r.entry_second == 0
    then some zero_entry_second
    else if r.max_open_positions == 0
    then some no_open_positions
    else if r.stale_sec == 0
    then some zero_stale_sec
    else check_rungs r.ladder.rungs
