-- ===== src/Flow/Replay.antt =====
-- What a log comes to, whatever the flow that it meets.
use bodkin.Prelude.{ℕ, ◌≡◌, refl, Option, none, some, if◌then◌else◌, arith}
use bodkin.Flow.Keys.{EventKey}
use bodkin.Flow.Tracker.{StoredEvent, Identity, same_identity, CurveFlow}
use bodkin.Flow.Ingest.{
  CurveLog, Abi, Result, ok, ◌>>=◌, ok_or, no_transaction_hash, no_log_index, no_block_number,
  no_transaction_index, no_block_hash, event_of, store_event, unstore_event, ingest_flow,
}
use bodkin.Flow.Identities.{identity_of, IsConsistent}
use bodkin.Flow.Consistent.{store_event-IsConsistent, unstore_event-IsConsistent}
use bodkin.Flow.Held.{held, held-store_event, held-unstore_event}

-- A log is of another kind, an event, or the removal of one.
pub data Effect : Type 0 where
  nothing : Effect
  stores : EventKey → StoredEvent → Effect
  unstores : Identity → Effect

abbrev pub effect : Effect → CurveFlow → CurveFlow
effect nothing f = f
effect (stores key stored) f = store_event key stored f
effect (unstores id) f = unstore_event id f

unfoldable pub effect_of : Abi → CurveLog → ℕ → Result Effect
effect_of abi log ts = do
  hash ← ok_or log.transaction_hash no_transaction_hash
  index ← ok_or log.log_index no_log_index
  (if log.removed then ok (unstores (hash, index)) else do
    block ← ok_or log.block_number no_block_number
    position ← ok_or log.transaction_index no_transaction_index
    block_hash ← ok_or log.block_hash no_block_hash
    event ← event_of abi log hash ts
    ok (elim event [
      | none ↦ nothing
      | some e ↦
          stores
            (record {
              block_number = block;
              transaction_index = position;
              log_index = index;
              transaction_hash = hash;
            })
            (record { block_hash = block_hash; event = e })
    ]))

-- What is under an identity, after the effect.
abbrev pub held_after :
    Effect → Identity → Option (EventKey × StoredEvent) → Option (EventKey × StoredEvent)
held_after nothing id before = before
held_after (stores key stored) id before =
    if same_identity (identity_of key) id then some (key, stored) else before
held_after (unstores i) id before = if same_identity i id then none else before

pub effect-IsConsistent : (d : Effect) (f : CurveFlow) → IsConsistent f → IsConsistent (effect d f)
effect-IsConsistent nothing f c = c
effect-IsConsistent (stores key stored) f c = store_event-IsConsistent key stored f c
effect-IsConsistent (unstores id) f c = unstore_event-IsConsistent id f c

pub held-effect :
    (d : Effect) (id : Identity) (f : CurveFlow)
    → IsConsistent f
    → held id (effect d f).events ≡ held_after d id (held id f.events)
held-effect nothing id f c = refl
held-effect (stores key stored) id f c = held-store_event id key stored f c
held-effect (unstores i) id f c = held-unstore_event i id f c

pub ingest_flow-effect :
    (abi : Abi) (log : CurveLog) (ts : ℕ) (f : CurveFlow)
    → ingest_flow abi log ts f ≡ (effect_of abi log ts >>= λ d. ok (effect d f))
unfolding ingest_flow effect_of
ingest_flow-effect abi log ts f = ground arith
