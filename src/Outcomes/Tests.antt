-- ===== src/Outcomes/Tests.antt =====
-- outcomes.rs: concrete runs of `summarize`.
use bodkin.Prelude.{
  ◌+◌, ℕ, ◌≡◌, refl, Bool, true, false, Option, none, some, List, [], ◌∷◌, String, arith,
  if◌then◌else◌,
}
use bodkin.Prelude.Int.{pos, negsuc}
use text.Mathlib.Text.{◌==◌ as str_eq}
use bodkin.Positions.Whole.{whole}
use bodkin.Outcomes.Summary.{
  Json, kind_named, note_rule, exit_realizing, note_kind, note_events, is_simulated, summarize,
  to_eth,
}
use bodkin.Outcomes.Balance.{HasParts}
use bodkin.Outcomes.Kinds.{count, is_kind, summarize-counts}
use bodkin.Outcomes.Totals.{total_realized, is_measured, summarize-totals}

data Leaf : Type 0 where
  bool : Bool → Leaf
  words : String → Leaf
  number : ℕ → Leaf

data TestValue : Type 0 where
  leaf : Leaf → TestValue
  object : List (String × Leaf) → TestValue

abbrev field : String → List (String × Leaf) → Option TestValue
field key [] = none
field key ((name, l) ∷ fs) =
    let rest = field key fs in if str_eq name key then some (leaf l) else rest

abbrev json : Json
json = record {
  Value = TestValue;
  get = λ v key. elim v [ leaf l ↦ none | object fs ↦ field key fs ];
  as_bool = λ v. elim v [ leaf (bool b) ↦ some b | _ ↦ none ];
  as_str = λ v. elim v [ leaf (words t) ↦ some t | _ ↦ none ];
  as_u64 = λ v. elim v [ leaf (number n) ↦ some n | _ ↦ none ];
  parse_b256 = λ t. some 1;
  parse_i256 = λ t.
      if str_eq t "500" then some (pos 500) else if str_eq t "-3" then some (negsuc 2) else none;
  parse_u256 = λ t. some 7;
}

abbrev exit_with : Bool → String → TestValue
exit_with live wei = object (
    ("kind", words "exit")
    ∷ ("live", bool live)
    ∷ ("tx", words "0x01")
    ∷ ("realized_wei", words wei)
    ∷ ("gas_wei", words "7")
    ∷ ("rule", words "stop")
    ∷ [])

abbrev log : List TestValue
log =
    object (("kind", words "launch_seen") ∷ [])
    ∷ exit_with true "500"
    ∷ exit_with true "-3"
    ∷ exit_with false "500"
    ∷ exit_with true "x"
    ∷ []

summary_of_log :
    ((summarize json whole log).measured_exits ≡ 2)
    × ((summarize json whole log).hit ≡ 1)
    × ((summarize json whole log).simulated_exits ≡ 1)
    × ((summarize json whole log).unmeasured_exits ≡ 1)
unfolding summarize note_events note_kind kind_named exit_realizing note_rule
summary_of_log = (refl, refl, refl, refl)

total_of_log : total_realized json (is_measured json) log (pos 0) ≡ pos 497
unfolding kind_named
total_of_log = refl

summarize-counts_example :
    let s = summarize json whole log in
    let events_of = λ (name : String). count (is_kind json name) log in
    (s.launches ≡ events_of "launch_seen")
    × (s.holds ≡ events_of "hold")
    × (s.attempts ≡ events_of "attempt")
    × (s.simulated + s.fills + s.unknown_fires ≡ events_of "fire")
    × (s.exits ≡ events_of "exit")
    × (s.failed_exits ≡ events_of "exit_failed")
    × HasParts s
summarize-counts_example = summarize-counts json whole log (omega arith)

summarize-totals_example :
    ((summarize json whole log).pnl_eth ≡ (
      if (summarize json whole log).pnl_complete
      then to_eth whole (total_realized json (is_measured json) log (pos 0))
      else whole.literal "0"))
    × ((summarize json whole log).simulated_pnl_eth ≡ (
        if (summarize json whole log).simulated_pnl_complete
        then to_eth whole (total_realized json (is_simulated json) log (pos 0))
        else whole.literal "0"))
summarize-totals_example = summarize-totals json whole log
