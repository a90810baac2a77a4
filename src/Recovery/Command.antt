-- ===== src/Recovery/Command.antt =====
-- trade/journal.rs: `recover_command`.
use bodkin.Prelude.{
  ℕ, Bool, ◌&&◌, Option, none, some, option_eq, List, [], ◌∷◌, ◌==◌, if◌then◌else◌, find, any,
}
use bodkin.Flow.Ingest.{CurveLog}
use bodkin.Journal.Record.{
  Operation, TxRecord, is_applied, operation_has_ambiguous, tx_has_effect, CommandEffect, receipt,
  required_log, runtime_code,
}
use bodkin.Recovery.World.{
  Env, Blockage, unresolved_command, missing_log, wrong_code, node_failed, malformed_hash, Result,
  ok, err, Action, ◌>>=◌, block, record_step,
}
use bodkin.Recovery.Receipts.{is_confirmed_tx}
use bodkin.Recovery.Settle.{try, settle_failed}

abbrev pub first_topic : List ℕ → Option ℕ
first_topic [] = none
first_topic (t ∷ ts) = some t

abbrev pub is_required : ℕ → ℕ → CurveLog → Bool
is_required address topic l = l.address == address && option_eq (first_topic l.topics) (some topic)

abbrev pub is_effective : TxRecord → Bool
is_effective tx = is_confirmed_tx tx.state && tx_has_effect tx

-- Whether the chain shows what the command was for, and what recovery blocks with if not. The first
-- effective transaction is there.
unfoldable pub effect_shown : Env → Operation → TxRecord → CommandEffect → Result (Option Blockage)
effect_shown env op tx receipt = ok none
effect_shown env op tx (required_log address topic) = elim (env.parse_hash tx.hash) [
  | none ↦ err malformed_hash
  | some hash ↦ elim (env.node.receipt hash) [
    | none ↦ err node_failed
    | some r ↦
        ok (if any (is_required address topic) r.logs then none else some (missing_log op.id))
  ]
]
effect_shown env op tx (runtime_code address code_hash) = elim (env.node.code_hash address) [
  | none ↦ err node_failed
  | some found ↦ ok (if option_eq found (some code_hash) then none else some (wrong_code op.id))
]

abbrev pub settle_effect : Env → Operation → Option Blockage → Action (Unit {0})
settle_effect env op (some why) = block why
settle_effect env op none = record_step env op.id is_applied

unfoldable pub recover_command : Env → CommandEffect → Operation → Action (Unit {0})
unfolding record_step effect_shown
recover_command env effect op =
    if operation_has_ambiguous op
    then block (unresolved_command op.id)
    else elim (find is_effective op.txs) [
      | none ↦ settle_failed env op
      | some tx ↦ try (effect_shown env op tx effect) >>= settle_effect env op
    ]
