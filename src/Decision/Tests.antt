-- ===== src/Decision/Tests.antt =====
-- Decisions on concrete launches.
use bodkin.Prelude.{
  ◌+◌, ◌≡◌, ◌≤◌, ◌<◌, refl, true, false, not, ◌||◌, leb, none, some, [], ◌∷◌, length, arith,
}
use bodkin.Prelude.Int.{pos}
use bodkin.Curve.Quote.{CurveState, default_state}
use bodkin.Reservation.Defs.{
  Shared, try_reserve, risk_cost, add_slot, release_slot, slot_taken, charge,
}
use bodkin.Positions.Record.{Position}
use bodkin.Positions.Rules.{ExitAction}
use bodkin.Positions.Store.{opened}
use bodkin.Positions.Decimal.{formats}
use bodkin.Positions.Whole.{whole}
use bodkin.Decision.Rules.{SnipeRules, validate}
use bodkin.Decision.Decide.{LaunchIntel, LaunchRecord, LaunchTx, low_score, session_budget, decide}
use bodkin.Decision.Gates.{limits_of, decide-gates, decide-reserves}
use bodkin.Decision.Exit.{pick_exit}

abbrev rules : SnipeRules whole
rules = record {
  eth_per_buy = 10;
  slippage_bps = 300;
  max_opening_tax_bps = 300;
  min_score = pos 60;
  max_dev_share_pct = 8;
  min_dev_share_pct = 0;
  max_creator_tax_bps = 300;
  require_socials = false;
  max_exempt_wallets = 2;
  eth_pairs_only = true;
  keyword = none;
  deployers = [];
  max_open_positions = 3;
  max_farm_twins = 1;
  session_budget_wei = 50;
  exits = record { take_profit_pct = 80; stop_loss_pct = 35; trailing_pct = 25; max_hold_min = 45 };
  max_wait_ms = 12_000;
  entry_second = 2;
  min_taxed_buyers_s1 = 0;
  max_exempt_buys_s0 = 32;
  abort_if_insider_sold = true;
  ladder = record { rungs = (34, pos 100) ∷ [] };
  stale_sec = 90;
  stale_min_progress = 1;
}

rules_valid : validate whole rules ≡ none
unfolding validate
rules_valid = refl

abbrev intel : LaunchIntel
intel = record {
  deployer = "0x03";
  pair_address = 0;
  meta = none;
  launch_record = some (record { creator_fee_recipient = 3; creator_tax_bps = 100; phase = 0 });
  tx = some (record {
    from = 3;
    dev_buy_wei = 0;
    dev_tokens = 0;
    exemptions = 4 ∷ [];
    recipient = 3;
    timestamp = 1;
  });
  curve = some default_state;
  errors = [];
}

fired : (decide whole intel (pos 70) rules 1 0 20).fire ≡ true
unfolding decide
fired = refl

-- Two rules fail, and both are named, in the order of the gates.
held_back :
    (decide whole intel (pos 50) rules 1 0 45).why ≡ session_budget 45 ∷ low_score (pos 50) ∷ []
unfolding decide
held_back = refl

decide-gates_example :
    ((r : LaunchRecord) × (intel.launch_record ≡ some r)
      × (r.creator_tax_bps ≤ rules.max_creator_tax_bps))
    × ((t : LaunchTx) × (intel.tx ≡ some t) × (length t.exemptions ≤ rules.max_exempt_wallets))
    × ((c : CurveState) × (intel.curve ≡ some c)
        × (c.graduated ≡ false)
        × (c.ready_to_graduate ≡ false))
    × (1 < rules.max_open_positions)
    × (0 ≤ rules.max_farm_twins)
    × (20 + rules.eth_per_buy ≤ rules.session_budget_wei)
decide-gates_example = decide-gates whole intel (pos 70) rules 1 0 20 (omega arith) fired

abbrev session : Shared
session = record { spent = 20; open_res = 0; open_positions = 1 }

decide-reserves_example :
    (try_reserve (limits_of whole rules) (risk_cost true 1 rules.eth_per_buy) session).0
    ≡ (not true || leb (session.spent + rules.eth_per_buy + 1) rules.session_budget_wei)
decide-reserves_example =
    decide-reserves whole intel (pos 70) rules 0 session true 1 refl (omega arith) (omega arith)
      (omega arith) fired

abbrev full_session : Shared
full_session = record { spent = 40; open_res = 0; open_positions = 1 }

-- The value alone is left of the budget: without the gas the entry is reserved, with it not.
reserved_dry : (try_reserve (limits_of whole rules) (risk_cost false 1 10) full_session).0 ≡ true
unfolding try_reserve add_slot release_slot slot_taken charge risk_cost
reserved_dry = refl

refused_live : (try_reserve (limits_of whole rules) (risk_cost true 1 10) full_session).0 ≡ false
unfolding try_reserve add_slot release_slot slot_taken charge risk_cost
refused_live = refl

abbrev position : Position
position = opened formats (record {
  token = 7;
  curve = 8;
  symbol = "TOK";
  name = "Token";
  opened_at = 100;
  entry_tx = none;
  dry_run = true;
  entry_eth = 600;
  entry_gas_wei = 30;
  tokens = 1000;
  chain_id = 4663;
  wallet = none;
})

abbrev rung : ExitAction
rung = record { fraction_bps = 3400; reason = "ladder +100%" }

rung_hit : pick_exit whole formats position 1200 rules none 110 false 50 ≡ some rung
unfolding pick_exit opened formats
rung_hit = refl
