-- ===== src/Positions/Rules.antt =====
-- The exit rules of trade/positions.rs: percentages, the ladder and `exit_reason`. Floats are the
-- platform's: the fields of `Floats`, `wei_to_f64` of fmt.rs among them.
use bodkin.Prelude.{
  ℕ, ◌-◌, ◌*◌, ◌%◌, ◌^◌, Bool, not, ◌&&◌, Option, none, some, List, [], ◌∷◌, String, any,
  if◌then◌else◌, ltb, ◌==◌,
}
use bodkin.Prelude.Int.{ℤ}
use Prim.Native.String.{◌++◌}
use text.Mathlib.Text.{starts_with}
use bodkin.Positions.Record.{Formats, Exit, Position, or_zero, or_else, basis}

pub record Floats : Type 1 where
  pub Float : Type 0
  pub wei_to_f64 : ℕ → Float
  pub of_u64 : ℕ → Float
  pub of_u128 : ℕ → Float
  pub of_i32 : ℤ → Float
  pub add : Float → Float → Float
  pub sub : Float → Float → Float
  pub mul : Float → Float → Float
  pub div : Float → Float → Float
  pub neg : Float → Float
  pub abs : Float → Float
  pub epsilon : Float
  -- a literal, by its text
  pub literal : String → Float
  pub ge : Float → Float → Bool
  pub lt : Float → Float → Bool
  -- `{}`, `{:.0}`, `{:.1}` and the decimal text of an `i32`
  pub show : Float → String
  pub show_whole : Float → String
  pub show_tenths : Float → String
  pub show_i32 : ℤ → String

pub record ExitRules (fl : Floats) : Type 0 where
  pub take_profit_pct : fl.Float
  pub stop_loss_pct : fl.Float
  pub trailing_pct : fl.Float
  pub max_hold_min : fl.Float

pub record ExitLadder : Type 0 where
  pub rungs : List (ℕ × ℤ)

pub record ExitAction : Type 0 where
  pub fraction_bps : ℕ
  pub reason : String

module _ (fl : Floats) where
  unfoldable pub pnl_pct : ℕ → ℕ → fl.Float
  pnl_pct value cost =
      if cost == 0
      then fl.of_u64 0
      else fl.mul (fl.div (fl.sub (fl.wei_to_f64 value) (fl.wei_to_f64 cost)) (fl.wei_to_f64 cost))
          (fl.of_u64 100)

  abbrev pub tag_of : ℤ → String
  tag_of at = "ladder +" ++ (fl.show_i32 at ++ "%")

  -- The rungs in their order; `u32` wraps.
  unfoldable pub first_rung : List Exit → fl.Float → List (ℕ × ℤ) → Option ExitAction
  first_rung exits gain [] = none
  first_rung exits gain ((frac, at) ∷ rungs) =
      let rest = first_rung exits gain rungs in
      if fl.ge gain (fl.of_i32 at) && not (any (λ e. starts_with e.reason (tag_of at)) exits)
      then some (record { fraction_bps = frac * 100 % 2 ^ 32; reason = tag_of at })
      else rest

  unfoldable pub hit : Formats → ExitLadder → Position → ℕ → Option ExitAction
  unfolding first_rung pnl_pct basis
  hit fmt ladder p value =
      if basis fmt p == 0
      then none
      else first_rung p.exits (pnl_pct value (basis fmt p)) ladder.rungs

  abbrev pub show_gain : fl.Float → String
  show_gain gain = fl.show_tenths gain ++ "%"

  abbrev pub hundred : fl.Float
  hundred = fl.of_u64 100

  -- `pct` of the source: 100 and the percentage.
  abbrev pub pct : ℕ → ℕ → fl.Float
  unfolding pnl_pct
  pct a b = fl.add hundred (pnl_pct a b)

  -- The trailing stop, below a peak above the entry.
  abbrev pub from_peak : ℕ → ℕ → fl.Float
  from_peak value peak = fl.sub hundred (pct value peak)

  abbrev pub trails : ExitRules fl → ℕ → ℕ → ℕ → Bool
  trails rules value peak entry = ltb entry peak && fl.ge (from_peak value peak) rules.trailing_pct

  abbrev pub peak_of : Formats → Position → ℕ → ℕ → ℕ
  peak_of fmt p entry value =
      let peak = or_zero (or_else (fmt.parse p.peak_eth) (some entry)) in
      if ltb value peak then peak else value

  abbrev pub held_long : ExitRules fl → Position → ℕ → Bool
  held_long rules p now =
      fl.ge (fl.of_u64 (now - p.opened_at)) (fl.mul rules.max_hold_min (fl.of_u64 60))

  unfoldable pub exit_reason : Formats → Position → ℕ → ExitRules fl → ℕ → Option String
  unfolding basis pnl_pct
  exit_reason fmt p value rules now =
      let entry = basis fmt p in
      let peak = peak_of fmt p entry value in
      let gain = fl.sub (pct value entry) hundred in
      if entry == 0
      then none
      else if fl.ge gain rules.take_profit_pct
      then some
          ("take profit " ++ (show_gain gain ++ (" ≥ " ++ (fl.show rules.take_profit_pct ++ "%"))))
      else if fl.ge (fl.neg rules.stop_loss_pct) gain
      then some
          ("stop loss " ++ (show_gain gain ++ (" ≤ -" ++ (fl.show rules.stop_loss_pct ++ "%"))))
      else if trails rules value peak entry
      then some (
          "trailing stop, "
          ++ (show_gain (from_peak value peak)
              ++ (" below peak (" ++ (show_gain (fl.sub (pct peak entry) hundred) ++ " high)"))))
      else if held_long rules p now
      then some
          ("max hold " ++ (fl.show rules.max_hold_min ++ (" min reached at " ++ show_gain gain)))
      else none
