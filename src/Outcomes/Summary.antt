-- ===== src/Outcomes/Summary.antt =====
-- outcomes.rs: `summarize`. What a JSON value holds and what its texts parse to (serde_json, alloy), and
-- the floats, are parameters.
use bodkin.Prelude.{
  ◌>>=◌, ℕ, zero, suc, ◌+◌, ◌%◌, Bool, true, false, not, ◌&&◌, ◌||◌, Option, none, some, List, [],
  ◌∷◌, String, ltb, ◌==◌, if◌then◌else◌, u64_mod, checked_add,
}
use bodkin.Prelude.Int.{ℤ, pos, negsuc, ◌+ℤ◌}
use text.Mathlib.Text.{◌==◌ as str_eq}
use bodkin.Positions.Rules.{Floats}

pub record Json : Type 1 where
  pub Value : Type 0
  pub get : Value → String → Option Value
  pub as_bool : Value → Option Bool
  pub as_str : Value → Option String
  pub as_u64 : Value → Option ℕ
  pub parse_b256 : String → Option ℕ
  pub parse_i256 : String → Option ℤ
  pub parse_u256 : String → Option ℕ

-- The count and the hits of a rule.
pub record RuleCount : Type 0 where
  pub rule : String
  pub count : ℕ
  pub hits : ℕ

pub record OutcomeSummary (fl : Floats) : Type 0 where
  pub launches : ℕ
  pub holds : ℕ
  pub attempts : ℕ
  pub fills : ℕ
  pub simulated : ℕ
  pub exits : ℕ
  pub hit : ℕ
  pub pnl_eth : fl.Float
  pub first_block_plus2 : ℕ
  pub by_rule : List RuleCount
  pub unknown_fires : ℕ
  pub measured_exits : ℕ
  pub simulated_exits : ℕ
  pub unmeasured_exits : ℕ
  pub simulated_pnl_eth : fl.Float
  pub pnl_complete : Bool
  pub simulated_pnl_complete : Bool
  pub failed_exits : ℕ
  pub failed_exit_gas_eth : fl.Float
  pub failed_exit_gas_complete : Bool

-- `+= 1` on a `u64`
abbrev pub bump : ℕ → ℕ
bump n = (n + 1) % u64_mod

-- `u64::from`
abbrev pub bump_if : Bool → ℕ → ℕ
bump_if b n = if b then bump n else n

abbrev pub is_gain : ℤ → Bool
is_gain (pos zero) = false
is_gain (pos (suc n)) = true
is_gain (negsuc n) = false

abbrev fits_i256 : ℤ → Bool
fits_i256 (pos n) =
    ltb n 57896044618658097711785492504343953926634992332820282019728792003956564819968
fits_i256 (negsuc n) =
    ltb n 57896044618658097711785492504343953926634992332820282019728792003956564819968

-- `I256::checked_add`
abbrev pub checked_add_i256 : ℤ → ℤ → Option ℤ
checked_add_i256 a b = if fits_i256 (a +ℤ b) then some (a +ℤ b) else none

-- `and_then(|v| v.checked_add(realized))`
abbrev pub add_to : Option ℤ → ℤ → Option ℤ
add_to none r = none
add_to (some t) r = checked_add_i256 t r

abbrev pub holds_some : {A : Type 0} → Option A → Bool
holds_some none = false
holds_some (some a) = true

abbrev pub is_true : Option Bool → Bool
is_true (some b) = b
is_true none = false

abbrev pub is_false : Option Bool → Bool
is_false (some b) = not b
is_false none = false

abbrev is_number : ℕ → Option ℕ → Bool
is_number n none = false
is_number n (some m) = m == n

abbrev pub text_or_empty : Option String → String
text_or_empty none = ""
text_or_empty (some t) = t

-- The kinds that the `match` tells apart.
pub data Kind : Type 0 where
  launch_seen hold attempt fire exit exit_failed other : Kind

unfoldable pub kind_named : String → Kind
kind_named name =
    if str_eq name "launch_seen"
    then launch_seen
    else if str_eq name "hold"
    then hold
    else if str_eq name "attempt"
    then attempt
    else if str_eq name "fire"
    then fire
    else if str_eq name "exit"
    then exit
    else if str_eq name "exit_failed"
    then exit_failed
    else other

-- `entry(rule).or_insert((0, 0))`, and the two additions.
unfoldable pub note_rule : String → Bool → List RuleCount → List RuleCount
note_rule rule hit [] = record { rule = rule; count = bump 0; hits = bump_if hit 0 } ∷ []
note_rule rule hit (r ∷ rs) =
    let rest = note_rule rule hit rs in
    if str_eq r.rule rule
    then record r { count = bump r.count; hits = bump_if hit r.hits } ∷ rs
    else r ∷ rest

abbrev pub note_named : Option String → Bool → List RuleCount → List RuleCount
note_named none hit rs = rs
note_named (some rule) hit rs = note_rule rule hit rs

-- The summary and the three totals of the loop.
pub record Tally (fl : Floats) : Type 0 where
  pub s : OutcomeSummary fl
  pub live_total : Option ℤ
  pub simulated_total : Option ℤ
  pub failed_gas : Option ℕ

module _ (j : Json) where
  abbrev flag : j.Value → String → Option Bool
  flag e key = j.get e key >>= j.as_bool

  abbrev pub text_at : j.Value → String → Option String
  text_at e key = j.get e key >>= j.as_str

  abbrev pub tx : j.Value → Option ℕ
  tx e = text_at e "tx" >>= j.parse_b256

  abbrev pub is_simulated : j.Value → Bool
  is_simulated e =
      is_true (flag e "simulated") || is_false (flag e "live") || is_true (flag e "dryRun")

  abbrev pub kind : j.Value → Kind
  kind e = kind_named (text_or_empty (text_at e "kind"))

  abbrev pub realized_of : j.Value → Option ℤ
  realized_of e = text_at e "realized_wei" >>= j.parse_i256

  abbrev pub is_live_exit : j.Value → Bool
  is_live_exit e = is_true (flag e "live") && holds_some (tx e)

  -- `e.get("rule").or_else(|| e.get("reason")).and_then(|v| v.as_str())`
  abbrev pub rule_of : j.Value → Option String
  rule_of e = elim (j.get e "rule") [ some v ↦ j.as_str v | none ↦ text_at e "reason" ]

  abbrev pub is_fill : j.Value → Bool
  is_fill e = is_true (flag e "fill") && holds_some (tx e)

  abbrev is_first_block : j.Value → Bool
  is_first_block e =
      not (is_simulated e)
      && is_true (flag e "confirmed")
      && is_true (flag e "first_block")
      && is_number 2 (j.get e "entry_second" >>= j.as_u64)

  abbrev pub failed_gas_after : j.Value → Option ℕ → Option ℕ
  failed_gas_after e sum =
      if is_true (flag e "pending")
      then none
      else (do total ← sum; gas ← text_at e "gas_wei" >>= j.parse_u256; checked_add total gas)

  module _ {fl : Floats} where
    abbrev pub with_launch : Tally fl → Tally fl
    with_launch t = record t { s = record (t.s) { launches = bump t.s.launches } }

    abbrev pub with_hold : Tally fl → Tally fl
    with_hold t = record t { s = record (t.s) { holds = bump t.s.holds } }

    unfoldable pub attempt_event : j.Value → Tally fl → Tally fl
    attempt_event e t = record t {
      s = record (t.s) {
        attempts = bump t.s.attempts;
        first_block_plus2 = bump_if (is_first_block e) t.s.first_block_plus2;
      };
    }

    unfoldable pub fire_event : j.Value → Tally fl → Tally fl
    fire_event e t =
        if is_simulated e
        then record t { s = record (t.s) { simulated = bump t.s.simulated } }
        else if is_fill e
        then record t { s = record (t.s) { fills = bump t.s.fills } }
        else record t { s = record (t.s) { unknown_fires = bump t.s.unknown_fires } }

    abbrev pub unmeasured : Tally fl → Tally fl
    unmeasured t = record t { s = record (t.s) { unmeasured_exits = bump t.s.unmeasured_exits } }

    abbrev pub simulated_exit : ℤ → Tally fl → Tally fl
    simulated_exit realized t = record t {
      s = record (t.s) { simulated_exits = bump t.s.simulated_exits };
      simulated_total = add_to t.simulated_total realized;
    }

    abbrev pub measured_exit : Option String → ℤ → Tally fl → Tally fl
    measured_exit rule realized t = record t {
      s = record (t.s) {
        measured_exits = bump t.s.measured_exits;
        hit = bump_if (is_gain realized) t.s.hit;
        by_rule = note_named rule (is_gain realized) t.s.by_rule;
      };
      live_total = add_to t.live_total realized;
    }

    -- What follows once the realized amount is read.
    unfoldable pub exit_realizing : j.Value → Option ℤ → Tally fl → Tally fl
    unfolding note_rule
    exit_realizing e none t = unmeasured t
    exit_realizing e (some realized) t =
        if not (holds_some (text_at e "gas_wei"))
        then unmeasured t
        else if is_simulated e
        then simulated_exit realized t
        else if is_live_exit e
        then measured_exit (rule_of e) realized t
        else unmeasured t

    -- An exit, once it is counted.
    abbrev pub exit_leg : j.Value → Tally fl → Tally fl
    exit_leg e t = exit_realizing e (realized_of e) t

    abbrev pub with_exit : Tally fl → Tally fl
    with_exit t = record t { s = record (t.s) { exits = bump t.s.exits } }

    abbrev pub with_failed : j.Value → Tally fl → Tally fl
    with_failed e t = record t {
      s = record (t.s) { failed_exits = bump t.s.failed_exits };
      failed_gas = failed_gas_after e t.failed_gas;
    }

    unfoldable pub note_kind : Kind → j.Value → Tally fl → Tally fl
    unfolding attempt_event fire_event exit_realizing
    note_kind launch_seen e t = with_launch t
    note_kind hold e t = with_hold t
    note_kind attempt e t = attempt_event e t
    note_kind fire e t = fire_event e t
    note_kind exit e t = exit_leg e (with_exit t)
    note_kind exit_failed e t = with_failed e t
    note_kind other e t = t

    -- One event.
    abbrev pub note_event : j.Value → Tally fl → Tally fl
    note_event e t = note_kind (kind e) e t

    unfoldable pub note_events : List j.Value → Tally fl → Tally fl
    unfolding note_kind
    note_events [] t = t
    note_events (e ∷ es) t = note_events es (note_event e t)

-- `into_sign_and_abs`, over `wei_to_f64` of fmt.rs.
abbrev pub wei_to_eth : (fl : Floats) → ℕ → fl.Float
wei_to_eth fl n = fl.div (fl.wei_to_f64 n) (fl.literal "1e18")

abbrev pub to_eth : (fl : Floats) → ℤ → fl.Float
to_eth fl (pos n) = wei_to_eth fl n
to_eth fl (negsuc n) = fl.neg (wei_to_eth fl (n + 1))

abbrev pub or_default : (fl : Floats) → Option fl.Float → fl.Float
or_default fl none = fl.literal "0"
or_default fl (some x) = x

abbrev pub eth_or_default : (fl : Floats) → Option ℤ → fl.Float
eth_or_default fl none = fl.literal "0"
eth_or_default fl (some t) = to_eth fl t

abbrev gas_or_default : (fl : Floats) → Option ℕ → fl.Float
gas_or_default fl none = fl.literal "0"
gas_or_default fl (some t) = wei_to_eth fl t

-- `OutcomeSummary::default()` with the totals at zero.
abbrev pub no_events : (fl : Floats) → Tally fl
no_events fl = record {
  s = record {
    launches = 0;
    holds = 0;
    attempts = 0;
    fills = 0;
    simulated = 0;
    exits = 0;
    hit = 0;
    pnl_eth = fl.literal "0";
    first_block_plus2 = 0;
    by_rule = [];
    unknown_fires = 0;
    measured_exits = 0;
    simulated_exits = 0;
    unmeasured_exits = 0;
    simulated_pnl_eth = fl.literal "0";
    pnl_complete = false;
    simulated_pnl_complete = false;
    failed_exits = 0;
    failed_exit_gas_eth = fl.literal "0";
    failed_exit_gas_complete = false;
  };
  live_total = some (pos 0);
  simulated_total = some (pos 0);
  failed_gas = some 0;
}

-- What follows the loop.
abbrev pub closed : (fl : Floats) → Tally fl → OutcomeSummary fl
closed fl t = record (t.s) {
  pnl_complete = holds_some t.live_total;
  simulated_pnl_complete = holds_some t.simulated_total;
  pnl_eth = eth_or_default fl t.live_total;
  simulated_pnl_eth = eth_or_default fl t.simulated_total;
  failed_exit_gas_complete = holds_some t.failed_gas;
  failed_exit_gas_eth = gas_or_default fl t.failed_gas;
}

unfoldable pub summarize : (j : Json) (fl : Floats) → List j.Value → OutcomeSummary fl
unfolding note_events
summarize j fl events = closed fl (note_events j events (no_events fl))
