-- ===== src/Replay/Tests.antt =====
-- replay.rs: a concrete launch.
use bodkin.Prelude.{ℕ, ◌≡◌, refl, true, false, none, some, [], ◌∷◌, ◌++◌, arith}
use bodkin.Curve.Quote.{CurveState, default_state}
use bodkin.Flow.Keys.{key_lt}
use bodkin.Flow.Tracker.{FlowEvent, buy, sell, completed, FlowRecord}
use bodkin.Replay.Launches.{
  ReplayLaunch, apply_record, apply_records, state_at, state_before, sort_records,
}
use bodkin.Replay.Reserves.{SameVirtual, state_before-SameVirtual, state_before-late}

abbrev read_state : CurveState
read_state = record default_state {
  quote_reserve = 1_000;
  real_quote_reserve = 400;
  token_reserve = 5_000;
  sellable_tokens = 3_000;
  read_block = 7;
  read_chain_ts = 100;
}

abbrev at_block : ℕ → FlowEvent → FlowRecord
at_block n event = record {
  block_number = n;
  block_hash = n;
  transaction_index = 0;
  log_index = 0;
  transaction_hash = n;
  event = event;
}

-- Recorded out of order, and one record before the state was read.
abbrev launch : ReplayLaunch
launch = record {
  launched_at = 100;
  start_bps = 9_900;
  window = 3;
  taxed_buyers_s1 = 2;
  exempt_buys_s0 = 0;
  gate_observed = true;
  graduated = false;
  outcome_observed = false;
  provenance_complete = true;
  curve_state = some read_state;
  flow =
      at_block 9 (buy 1 110 50 10 0 101 9)
      ∷ at_block 8 (sell 2 2 20 30 1 1 101)
      ∷ at_block 7 (buy 1 500 50 0 0 100 7)
      ∷ [];
  intel = none;
}

abbrev moved : CurveState
moved = record read_state {
  quote_reserve = 1_068;
  real_quote_reserve = 468;
  token_reserve = 4_970;
  sellable_tokens = 2_970;
}

state_before_at_2 : state_before launch 2 ≡ some moved
unfolding state_before state_at apply_records apply_record sort_records key_lt
state_before_at_2 = refl

state_before-SameVirtual_example :
    (s : CurveState) × ((launch.curve_state ≡ some s) × SameVirtual s moved)
state_before-SameVirtual_example = state_before-SameVirtual launch 2 moved state_before_at_2

state_before-late_example :
    state_before (record launch { flow = launch.flow ++ at_block 10 (completed 102) ∷ [] }) 2
    ≡ state_before launch 2
state_before-late_example =
    state_before-late launch 2 (at_block 10 (completed 102) ∷ []) (omega arith, tt)
