-- ===== src/Decision/Exit.antt =====
-- engine.rs: `pick_exit`.
use bodkin.Prelude.{ℕ, ◌-◌, Bool, false, ◌&&◌, ◌||◌, Option, none, some, String, leb, if◌then◌else◌}
use Prim.Native.String.{◌++◌}
use bodkin.Flow.Tracker.{FlowSnapshot}
use bodkin.Positions.Record.{Formats, Position}
use bodkin.Positions.Rules.{Floats, ExitAction, hit, exit_reason}
use bodkin.Decision.Rules.{SnipeRules}

abbrev pub all_of : String → ExitAction
all_of reason = record { fraction_bps = 10_000; reason = reason }

abbrev pub insider_out : Option FlowSnapshot → Bool
insider_out none = false
insider_out (some f) = f.insider_sold

abbrev pub ready : Option FlowSnapshot → Bool
ready none = false
ready (some f) = f.ready_to_graduate

module _ (fl : Floats) (fmt : Formats) where
  abbrev pub is_stale : SnipeRules fl → Position → ℕ → fl.Float → Bool
  is_stale rules p now progress =
      leb rules.stale_sec (now - p.opened_at) && fl.lt progress rules.stale_min_progress

  abbrev pub percent : fl.Float → String
  percent x = fl.show_whole (fl.mul x (fl.of_u64 100)) ++ "%"

  abbrev pub stale_text : SnipeRules fl → String
  stale_text rules =
      "stale: <"
      ++ (percent rules.stale_min_progress
          ++ (" progress after " ++ (fmt.show rules.stale_sec ++ "s")))

  abbrev pub ready_text : fl.Float → String
  ready_text progress = "curve " ++ (percent progress ++ " / ready to graduate")

  -- On the curve, past the ladder.
  abbrev pub curve_exit :
      SnipeRules fl → Position → Option FlowSnapshot → ℕ → fl.Float → Option ExitAction
  curve_exit rules p flow now progress =
      if is_stale rules p now progress
      then some (all_of (stale_text rules))
      else if fl.ge progress (fl.literal "0.90") || ready flow
      then some (all_of (ready_text progress))
      else none

  unfoldable pub pick_exit :
      Position → ℕ → SnipeRules fl → Option FlowSnapshot → ℕ → Bool → fl.Float → Option ExitAction
  unfolding hit exit_reason
  pick_exit p value rules flow now graduated progress =
      if graduated
      then elim (exit_reason fl fmt p value rules.exits now) [
        | none ↦ none
        | some reason ↦ some (all_of reason)
      ]
      else if insider_out flow
      then some (all_of "insider sold")
      else elim (hit fl fmt rules.ladder p value) [
        | some action ↦ some action
        | none ↦ curve_exit rules p flow now progress
      ]
