-- ===== src/Flow/Ingest.antt =====
-- pons/stream.rs: what a log does to the flow of its curve, and a range of logs to the tracker. What
-- topics and data decode to is the ABI library's: the fields of `Abi`.
use bodkin.Prelude.{
  ℕ, ◌≡◌, refl, ◌⊎◌, inl, inr, Bool, not, Option, none, some, List, [], ◌∷◌, max, leb, ◌==◌,
  if◌then◌else◌, saturating_add, u64_mod,
}
use bodkin.Deployer.Maps.{get}
use bodkin.Flow.Keys.{EventKey, insert_event, remove_event}
use bodkin.Flow.Tracker.{
  FlowEvent, buy, sell, snipe_tax, completed, StoredEvent, Identity, CurveFlow, FlowTracker, key_of,
  set_key, drop_key, change_flow,
}

-- A log as the node sends it.
pub record CurveLog : Type 0 where
  pub address : ℕ
  pub topics : List ℕ
  pub payload : List ℕ
  pub transaction_hash : Option ℕ
  pub log_index : Option ℕ
  pub removed : Bool
  pub block_number : Option ℕ
  pub transaction_index : Option ℕ
  pub block_hash : Option ℕ

pub data FlowError : Type 0 where
  not_watched no_transaction_hash no_log_index no_block_number no_transaction_index : FlowError
  no_block_hash undecodable reversed no_canonical_hash gap : FlowError

pub data Result {ℓ} (A : Type ℓ) : Type ℓ where
  ok : A → Result A
  err : FlowError → Result A

-- What the four kinds of log decode to, the timestamp and the transaction being known already.
pub record Abi : Type 0 where
  pub buy_topic : ℕ
  pub sell_topic : ℕ
  pub tax_topic : ℕ
  pub completed_topic : ℕ
  pub decode_buy : CurveLog → Option (ℕ × ℕ × ℕ × ℕ × ℕ)
  pub decode_sell : CurveLog → Option (ℕ × ℕ × ℕ × ℕ × ℕ × ℕ)
  pub decode_tax : CurveLog → Option (ℕ × ℕ)

abbrev pub topic_of : List ℕ → ℕ
topic_of [] = 0
topic_of (t ∷ ts) = t

-- The event of a log: `none` for a log of another kind.
unfoldable pub event_of : Abi → CurveLog → ℕ → ℕ → Result (Option FlowEvent)
event_of abi log hash ts =
    let topic = topic_of log.topics in
    if topic == abi.buy_topic
    then elim (abi.decode_buy log) [
      | none ↦ err undecodable
      | some (recipient, quote_in, tokens_out, fee, tax) ↦
          ok (some (buy recipient quote_in tokens_out fee tax ts hash))
    ]
    else if topic == abi.sell_topic
    then elim (abi.decode_sell log) [
      | none ↦ err undecodable
      | some (seller, recipient, tokens_in, quote_out, fee, tax) ↦
          ok (some (sell seller recipient tokens_in quote_out fee tax ts))
    ]
    else if topic == abi.tax_topic
    then elim (abi.decode_tax log) [
      | none ↦ err undecodable
      | some (recipient, amount) ↦ ok (some (snipe_tax hash recipient amount ts))
    ]
    else if topic == abi.completed_topic
    then ok (some (completed ts))
    else ok none

-- `identities.insert` and `events.insert`, with what was under the identity taken out.
unfoldable pub store_event : EventKey → StoredEvent → CurveFlow → CurveFlow
unfolding key_of set_key insert_event remove_event
store_event key stored flow =
    let id : Identity = (key.transaction_hash, key.log_index) in
    record flow {
      identities = set_key id key flow.identities;
      events = insert_event key stored (elim (key_of id flow.identities) [
        | none ↦ flow.events
        | some previous ↦ remove_event previous flow.events
      ]);
    }

unfoldable pub unstore_event : Identity → CurveFlow → CurveFlow
unfolding key_of drop_key remove_event
unstore_event id flow = elim (key_of id flow.identities) [
  | none ↦ flow
  | some key ↦ record flow {
    identities = drop_key id flow.identities;
    events = remove_event key flow.events;
  }
]

pub Result-cases {ℓ} :
    {A : Type ℓ} (r : Result A) → ((e : FlowError) × (r ≡ err e)) ⊎ ((a : A) × (r ≡ ok a))
Result-cases (ok a) = inr (a, refl)
Result-cases (err e) = inl (e, refl)

infixl 5 ◌>>=◌
abbrev pub ◌>>=◌ {ℓ κ} : {A : Type ℓ} {B : Type κ} → Result A → (A → Result B) → Result B
ok a >>= f = f a
err e >>= f = err e

abbrev pub ok_or {ℓ} : {A : Type ℓ} → Option A → FlowError → Result A
ok_or none e = err e
ok_or (some a) e = ok a

abbrev pub ensure : Bool → FlowError → Result (Unit {0})
ensure test e = if test then ok tt else err e

-- `ingest` on the flow of the log's curve.
unfoldable pub ingest_flow : Abi → CurveLog → ℕ → CurveFlow → Result CurveFlow
unfolding event_of store_event unstore_event
ingest_flow abi log ts flow = do
  hash ← ok_or log.transaction_hash no_transaction_hash
  index ← ok_or log.log_index no_log_index
  (if log.removed then ok (unstore_event (hash, index) flow) else do
    block ← ok_or log.block_number no_block_number
    position ← ok_or log.transaction_index no_transaction_index
    block_hash ← ok_or log.block_hash no_block_hash
    event ← event_of abi log hash ts
    ok (elim event [
      | none ↦ flow
      | some e ↦
          store_event
            (record {
              block_number = block;
              transaction_index = position;
              log_index = index;
              transaction_hash = hash;
            })
            (record { block_hash = block_hash; event = e }) flow
    ]))

-- `ingest`: the tracker stays as it was where it fails.
unfoldable pub ingest : Abi → CurveLog → ℕ → FlowTracker → Result FlowTracker
unfolding ingest_flow change_flow
ingest abi log ts t = do
  flow ← ok_or (get log.address t) not_watched
  flow' ← ingest_flow abi log ts flow
  ok (change_flow log.address (λ _. flow') t)

-- The logs of a range, up to the first that fails: the tracker after them, and whether all went in.
unfoldable pub ingest_all :
    Abi → List (CurveLog × ℕ) → FlowTracker → Result (Unit {0}) × FlowTracker
unfolding ingest
ingest_all abi [] t = (ok tt, t)
ingest_all abi ((log, ts) ∷ logs) t = elim (ingest abi log ts t) [
  | err e ↦ (err e, t)
  | ok t' ↦ ingest_all abi logs t'
]

abbrev pub advanced : ℕ → ℕ → CurveFlow → CurveFlow
advanced to_block to_hash flow = record flow {
  next_block = max flow.next_block (saturating_add u64_mod to_block 1);
  anchor = some (to_block, to_hash);
}

-- The checks of `apply_range`, and the block that is expected next.
unfoldable pub check_range : ℕ → ℕ → ℕ → ℕ → FlowTracker → Result (Unit {0})
check_range curve from_block to_block to_hash t = do
  flow ← ok_or (get curve t) not_watched
  _ ← ensure (leb from_block to_block) reversed
  _ ← ensure (not (to_hash == 0)) no_canonical_hash
  ensure (leb from_block flow.next_block) gap

unfoldable pub apply_range :
    Abi → ℕ → ℕ → ℕ → ℕ → List (CurveLog × ℕ) → FlowTracker → Result (Unit {0}) × FlowTracker
unfolding check_range ingest_all change_flow
apply_range abi curve from_block to_block to_hash logs t =
    elim (check_range curve from_block to_block to_hash t) [
      | err e ↦ (err e, t)
      | ok _ ↦
          let after = ingest_all abi logs t in
          elim (after.0) [
            | err e ↦ after
            | ok _ ↦ (ok tt, change_flow curve (advanced to_block to_hash) after.1)
          ]
    ]
