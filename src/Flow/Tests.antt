-- ===== src/Flow/Tests.antt =====
-- Logs and ranges on concrete numbers.
use bodkin.Prelude.{
  ℕ, ◌≡◌, ◌≤◌, refl, ◌⊎◌, false, Option, none, some, List, [], ◌∷◌, ◌==◌, if◌then◌else◌,
}
use bodkin.Flow.Keys.{key_lt}
use bodkin.Flow.Tracker.{CurveFlow, FlowSync, FlowTracker, default_flow, sync, watch}
use bodkin.Flow.Ingest.{
  CurveLog, Abi, ok, err, FlowError, gap, ingest_flow, ingest_all, apply_range,
}
use bodkin.Flow.Identities.{IsConsistent}
use bodkin.Flow.Order.{ingest_comm, ingest_twice}
use bodkin.Flow.Ranges.{view, view_after, view-ingest_all}
use bodkin.Flow.Streams.{
  AllConsistent, watches, applies, rewinds, unwatches, run, run-AllConsistent,
}
use bodkin.Flow.Sync.{moved, apply_range-sync}

-- Topics 1 to 4; a payload of five numbers is a buy.
abbrev decode_five : CurveLog → Option (ℕ × ℕ × ℕ × ℕ × ℕ)
decode_five log = elim (log.payload) [ a ∷ b ∷ c ∷ d ∷ e ∷ [] ↦ some (a, b, c, d, e) | _ ↦ none ]

abbrev abi : Abi
abi = record {
  buy_topic = 1;
  sell_topic = 2;
  tax_topic = 3;
  completed_topic = 4;
  decode_buy = decode_five;
  decode_sell = λ _. none;
  decode_tax = λ log. elim (log.payload) [ a ∷ b ∷ [] ↦ some (a, b) | _ ↦ none ];
}

abbrev log_of : ℕ → ℕ → List ℕ → CurveLog
log_of topic index payload = record {
  address = 70;
  topics = topic ∷ [];
  payload = payload;
  transaction_hash = some 500;
  log_index = some index;
  removed = false;
  block_number = some 11;
  transaction_index = some 2;
  block_hash = some 900;
}

abbrev buy_log : CurveLog
buy_log = log_of 1 4 (81 ∷ 1000 ∷ 20 ∷ 3 ∷ 0 ∷ [])

abbrev tax_log : CurveLog
tax_log = log_of 3 5 (81 ∷ 30 ∷ [])

abbrev watching : FlowTracker
watching = watch 70 100 10 (90 ∷ 0 ∷ []) []

abbrev logs : List (CurveLog × ℕ)
logs = (buy_log, 101) ∷ (tax_log, 101) ∷ []

abbrev flow_after : CurveLog → CurveFlow → CurveFlow
flow_after log f = elim (ingest_flow abi log 101 f) [ ok g ↦ g | err e ↦ f ]

default_flow-IsConsistent : IsConsistent default_flow
default_flow-IsConsistent = record { ordered = tt; indexed = tt; keyed = tt }

watching-AllConsistent : AllConsistent watching
unfolding watch run
watching-AllConsistent = run-AllConsistent abi (watches 70 100 10 (90 ∷ 0 ∷ []) ∷ []) [] tt

abbrev one_bought : CurveFlow
one_bought = flow_after buy_log default_flow

bought_ok : ingest_flow abi buy_log 101 default_flow ≡ ok one_bought
unfolding ingest_flow
bought_ok = refl

abbrev both_in : CurveFlow
both_in = flow_after tax_log one_bought

both_ok : ingest_flow abi tax_log 101 one_bought ≡ ok both_in
unfolding ingest_flow
both_ok = refl

-- The tax came after the buy, and is kept in the order of the log index.
both_events :
    (elim (both_in.events) [ (k, v) ∷ (j, w) ∷ [] ↦ k.log_index ∷ j.log_index ∷ [] | _ ↦ [] ])
    ≡ 4 ∷ 5 ∷ []
unfolding ingest_flow key_lt
both_events = refl

ingest_comm_example :
    (a : CurveFlow) × (b : CurveFlow) × (ingest_flow abi tax_log 101 default_flow ≡ ok a)
    × (ingest_flow abi buy_log 101 a ≡ ok b)
    × (b.events ≡ both_in.events)
ingest_comm_example =
    ingest_comm abi buy_log tax_log 101 101 500 4 500 5 default_flow one_bought both_in
      default_flow-IsConsistent refl refl refl refl refl bought_ok both_ok

ingest_twice_example :
    (b : CurveFlow) × (ingest_flow abi buy_log 101 one_bought ≡ ok b)
    × (b.events ≡ one_bought.events)
ingest_twice_example =
    ingest_twice abi buy_log 101 default_flow one_bought default_flow-IsConsistent bought_ok

logs_ok : (ingest_all abi logs watching).0 ≡ ok tt
unfolding ingest_all watch
logs_ok = refl

view-ingest_all_example :
    view 70 (500, 4) (ingest_all abi logs watching).1
    ≡ view_after abi 70 (500, 4) logs (view 70 (500, 4) watching)
view-ingest_all_example =
    view-ingest_all abi 70 (500, 4) logs watching watching-AllConsistent logs_ok

-- A range that starts past the expected block is refused, one that meets it is taken.
gap_refused : (apply_range abi 70 12 13 1 logs watching).0 ≡ err gap
unfolding apply_range watch
gap_refused = refl

range_taken :
    sync 70 (apply_range abi 70 10 13 1 logs watching).1
    ≡ some (record { origin_block = 10; from_block = 14; anchor = some (13, 1) })
unfolding apply_range watch sync
range_taken = refl

apply_range-sync_example :
    ((e : FlowError) × ((apply_range abi 70 10 13 1 logs watching).0 ≡ err e)
      × (sync 70 (apply_range abi 70 10 13 1 logs watching).1 ≡ sync 70 watching))
    ⊎ ((before : FlowSync) × (sync 70 watching ≡ some before)
        × ((apply_range abi 70 10 13 1 logs watching).0 ≡ ok tt)
        × (10 ≤ 13)
        × ((1 == 0) ≡ false)
        × (10 ≤ before.from_block)
        × (sync 70 (apply_range abi 70 10 13 1 logs watching).1
            ≡ (if 70 == 70 then some (moved 13 1 before) else sync 70 watching)))
apply_range-sync_example = apply_range-sync abi 70 10 13 1 70 logs watching

run-AllConsistent_example :
    AllConsistent (run abi (applies 70 10 13 1 logs ∷ rewinds 70 11 ∷ unwatches 71 ∷ []) watching)
run-AllConsistent_example =
    run-AllConsistent abi (applies 70 10 13 1 logs ∷ rewinds 70 11 ∷ unwatches 71 ∷ []) watching
      watching-AllConsistent
