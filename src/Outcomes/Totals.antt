-- ===== src/Outcomes/Totals.antt =====
-- outcomes.rs: the amounts of a summary are the sums of what the measured and the simulated exits realized.
use bodkin.Prelude.{
  ◌≡◌, refl, sym, ap, ◌∙◌, Bool, not, ◌&&◌, Option, none, some, List, [], ◌∷◌, arith, if◌then◌else◌,
}
use bodkin.Prelude.Int.{ℤ, pos, ◌+ℤ◌}
use bodkin.Positions.Rules.{Floats}
use bodkin.Outcomes.Summary.{
  Json, Tally, Kind, launch_seen, hold, attempt, fire, exit, exit_failed, other, kind, holds_some,
  text_at, is_simulated, is_live_exit, realized_of, exit_realizing, fire_event, attempt_event,
  note_kind, note_event, note_events, no_events, summarize, to_eth, add_to, eth_or_default,
}

-- The exits of a list for which the test holds, once they are priced: with their gas.
abbrev pub realized_if : (j : Json) → (j.Value → Bool) → Kind → j.Value → Option ℤ
realized_if j test exit e =
    if holds_some (text_at j e "gas_wei") && test e then realized_of j e else none
realized_if j test _ e = none

abbrev plus : ℤ → Option ℤ → ℤ
plus sum none = sum
plus sum (some r) = sum +ℤ r

-- What such exits realized, added up.
abbrev pub total_realized : (j : Json) → (j.Value → Bool) → List j.Value → ℤ → ℤ
total_realized j test [] sum = sum
total_realized j test (e ∷ es) sum =
    total_realized j test es (plus sum (realized_if j test (kind j e) e))

abbrev pub is_measured : (j : Json) → j.Value → Bool
is_measured j e = not (is_simulated j e) && is_live_exit j e

abbrev added : Option ℤ → Option ℤ → Option ℤ
added t none = t
added t (some r) = add_to t r

-- A total that there is after an addition was there before.
added-some :
    (t r : Option ℤ) (after : ℤ)
    → added t r ≡ some after
    → (before : ℤ) × ((t ≡ some before) × (after ≡ plus before r))
added-some t none after found = (after, (found, refl))
added-some (some before) (some r) after found = (before, (refl, ground arith))
added-some none (some r) after found = ground arith

module _ (j : Json) {fl : Floats} where
  exit_realizing-live :
      (e : j.Value) (t : Tally fl) (realized : Option ℤ)
      → (exit_realizing j e realized t).live_total
        ≡ added t.live_total
            (if holds_some (text_at j e "gas_wei") && is_measured j e then realized else none)
  unfolding exit_realizing
  exit_realizing-live e t none = ground arith
  exit_realizing-live e t (some r) = ground arith

  note_kind-live :
      (k : Kind) (e : j.Value) (t : Tally fl)
      → (note_kind j k e t).live_total ≡ added t.live_total (realized_if j (is_measured j) k e)
  unfolding note_kind fire_event attempt_event
  note_kind-live launch_seen e t = refl
  note_kind-live hold e t = refl
  note_kind-live attempt e t = refl
  note_kind-live fire e t = ground arith
  note_kind-live exit e t = exit_realizing-live e _ (realized_of j e)
  note_kind-live exit_failed e t = refl
  note_kind-live other e t = refl

  exit_realizing-simulated :
      (e : j.Value) (t : Tally fl) (realized : Option ℤ)
      → (exit_realizing j e realized t).simulated_total
        ≡ added t.simulated_total
            (if holds_some (text_at j e "gas_wei") && is_simulated j e then realized else none)
  unfolding exit_realizing
  exit_realizing-simulated e t none = ground arith
  exit_realizing-simulated e t (some r) = ground arith

  note_kind-simulated :
      (k : Kind) (e : j.Value) (t : Tally fl)
      → (note_kind j k e t).simulated_total
        ≡ added t.simulated_total (realized_if j (is_simulated j) k e)
  unfolding note_kind fire_event attempt_event
  note_kind-simulated launch_seen e t = refl
  note_kind-simulated hold e t = refl
  note_kind-simulated attempt e t = refl
  note_kind-simulated fire e t = ground arith
  note_kind-simulated exit e t = exit_realizing-simulated e _ (realized_of j e)
  note_kind-simulated exit_failed e t = refl
  note_kind-simulated other e t = refl

  -- A total that follows the additions is their sum.
  module _ (test : j.Value → Bool) (total : Tally fl → Option ℤ)
      (note : (k : Kind) (e : j.Value) (t : Tally fl)
        → total (note_kind j k e t) ≡ added (total t) (realized_if j test k e)) where
    note_events-total :
        (es : List j.Value) (t : Tally fl) (after : ℤ)
        → total (note_events j es t) ≡ some after
        → (before : ℤ) × ((total t ≡ some before) × (after ≡ total_realized j test es before))
    unfolding note_events
    note_events-total [] t after found = (after, (found, refl))
    note_events-total (e ∷ es) t after found =
        let (middle, (there, rest)) = note_events-total es (note_event j e t) after found in
        let (before, (here, step)) =
          added-some (total t) (realized_if j test (kind j e) e) middle
            (sym (note (kind j e) e t) ∙ there) in
        (before, (here, rest ∙ ap (total_realized j test es) step))

eth_of-total :
    (fl : Floats) (t : Option ℤ) (sum : ℤ)
    → ((after : ℤ) → t ≡ some after → after ≡ sum)
    → eth_or_default fl t ≡ (if holds_some t then to_eth fl sum else fl.literal "0")
eth_of-total fl (some after) sum same = ap (to_eth fl) (same after refl)
eth_of-total fl none sum same = refl

started : (a b : ℤ) → some a ≡ some b → a ≡ b
started a b e = ground arith

-- From a total of zero.
from_zero :
    (j : Json) (test : j.Value → Bool) (events : List j.Value) (after : ℤ)
    → (before : ℤ) × ((some (pos 0) ≡ some before) × (after ≡ total_realized j test events before))
    → after ≡ total_realized j test events (pos 0)
from_zero j test events after (before, (here, sum)) =
    sum ∙ ap (total_realized j test events) (sym (started (pos 0) before here))

-- The profit or loss of a summary is what the measured exits of the whole log realized, in ETH, or 0 where
-- the summary says that the sum is not complete; the simulated one is so for the simulated exits. Exits
-- without their gas are left out.
pub summarize-totals :
    (j : Json) (fl : Floats) (events : List j.Value)
    → ((summarize j fl events).pnl_eth ≡ (
        if (summarize j fl events).pnl_complete
        then to_eth fl (total_realized j (is_measured j) events (pos 0))
        else fl.literal "0"))
      × ((summarize j fl events).simulated_pnl_eth ≡ (
          if (summarize j fl events).simulated_pnl_complete
          then to_eth fl (total_realized j (is_simulated j) events (pos 0))
          else fl.literal "0"))
unfolding summarize
summarize-totals j fl events = (
  eth_of-total fl (note_events j events (no_events fl)).live_total _ (λ after found.
      from_zero j (is_measured j) events after (
        note_events-total j (is_measured j) (λ t. t.live_total) (note_kind-live j) events
          (no_events fl) after found)),
  eth_of-total fl (note_events j events (no_events fl)).simulated_total _ (λ after found.
      from_zero j (is_simulated j) events after (
        note_events-total j (is_simulated j) (λ t. t.simulated_total) (note_kind-simulated j) events
          (no_events fl) after found)),
)
