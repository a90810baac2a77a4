-- ===== src/Flow/Snapshot.antt =====
-- pons/stream.rs: `FlowTracker::snapshot`, a fold over the events in the order of their keys.
use bodkin.Prelude.{
  ℕ, ◌-◌, ◌%◌, ◌^◌, true, false, not, ◌&&◌, ◌||◌, none, some, List, [], ◌∷◌, max, ◌==◌,
  if◌then◌else◌, length, saturating_add, u256_mod,
}
use mathlib.Core.Option
use bodkin.Deployer.Maps.{get}
use bodkin.Flow.Keys.{Events}
use bodkin.Flow.Tracker.{
  FlowSnapshot, FlowEvent, buy, sell, snipe_tax, completed, StoredEvent, CurveFlow, FlowTracker,
  has, add,
}

abbrev pub u32_mod : ℕ
u32_mod = 2 ^ 32

abbrev pub default_snapshot : FlowSnapshot
default_snapshot = record {
  taxed_buyers_s1 = 0;
  exempt_buys_s0 = 0;
  insider_sold = false;
  ready_to_graduate = false;
  buys = 0;
  sells = 0;
  unique_buyers = 0;
  quote_in = 0;
  quote_out = 0;
  last_non_insider_buy_at = none;
}

-- The transactions that paid the opening tax.
unfoldable pub taxed_of : Events StoredEvent → List ℕ
taxed_of [] = []
taxed_of ((key, stored) ∷ m) = elim (stored.event) [
  | snipe_tax hash recipient amount timestamp ↦ add hash (taxed_of m)
  | _ ↦ taxed_of m
]

-- The variables of the fold.
pub record Folded : Type 0 where
  pub snapshot : FlowSnapshot
  pub buyers : List ℕ
  pub taxed_s1 : List ℕ

abbrev pub counted : ℕ → ℕ
counted n = saturating_add u32_mod n 1

abbrev pub fold_buy : CurveFlow → List ℕ → ℕ → ℕ → ℕ → ℕ → Folded → Folded
fold_buy flow taxed recipient quote_in timestamp hash f =
    let s = f.snapshot in
    let elapsed = timestamp - flow.launched_at in
    record {
      snapshot = record s {
        buys = counted s.buys;
        quote_in = saturating_add u256_mod s.quote_in quote_in;
        last_non_insider_buy_at =
            if not (quote_in == 0) && not (has recipient flow.insiders)
            then some (max (Option.get_or s.last_non_insider_buy_at 0) timestamp)
            else s.last_non_insider_buy_at;
        exempt_buys_s0 =
            if elapsed == 0 && not (has hash taxed)
            then counted s.exempt_buys_s0
            else s.exempt_buys_s0;
      };
      buyers = add recipient f.buyers;
      taxed_s1 = if elapsed == 1 && has hash taxed then add recipient f.taxed_s1 else f.taxed_s1;
    }

abbrev pub fold_sell : CurveFlow → ℕ → ℕ → ℕ → Folded → Folded
fold_sell flow seller recipient quote_out f =
    let s = f.snapshot in
    record f {
      snapshot = record s {
        sells = counted s.sells;
        quote_out = saturating_add u256_mod s.quote_out quote_out;
        insider_sold = s.insider_sold || (has seller flow.insiders || has recipient flow.insiders);
      };
    }

abbrev pub fold_event : CurveFlow → List ℕ → FlowEvent → Folded → Folded
fold_event flow taxed (buy recipient quote_in tokens_out fee tax timestamp hash) f =
    fold_buy flow taxed recipient quote_in timestamp hash f
fold_event flow taxed (sell seller recipient tokens_in quote_out fee tax timestamp) f =
    fold_sell flow seller recipient quote_out f
fold_event flow taxed (completed timestamp) f = record f {
  snapshot = record (f.snapshot) { ready_to_graduate = true };
}
fold_event flow taxed (snipe_tax hash recipient amount timestamp) f = f

unfoldable pub fold_events : CurveFlow → List ℕ → Events StoredEvent → Folded → Folded
fold_events flow taxed [] f = f
fold_events flow taxed ((key, stored) ∷ m) f =
    fold_events flow taxed m (fold_event flow taxed stored.event f)

-- `as u32` keeps the low 32 bits.
unfoldable pub snapshot_of : CurveFlow → FlowSnapshot
unfolding taxed_of fold_events
snapshot_of flow =
    let f =
      fold_events flow (taxed_of flow.events) flow.events
        (record { snapshot = default_snapshot; buyers = []; taxed_s1 = [] }) in
    record (f.snapshot) {
      taxed_buyers_s1 = length f.taxed_s1 % u32_mod;
      unique_buyers = length f.buyers % u32_mod;
    }

unfoldable pub snapshot : ℕ → FlowTracker → FlowSnapshot
unfolding snapshot_of
snapshot curve t = elim (get curve t) [ none ↦ default_snapshot | some flow ↦ snapshot_of flow ]
