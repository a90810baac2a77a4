-- ===== src/Recovery/Recover.antt =====
-- trade/journal.rs: `TxJournal::recover`, over the operations of a wallet.
use bodkin.Prelude.{ℕ, Bool, ◌&&◌, ◌||◌, none, some, List, [], ◌∷◌, if◌then◌else◌, any}
use bodkin.Journal.Record.{Operation, OperationSpec, entry, exit, command, is_pending}
use bodkin.Recovery.World.{
  Env, receipt_changed, RecoveryReport, World, node_failed, Result, ok, err, Action, ◌>>=◌, ◌>>◌,
  done, require, block,
}
use bodkin.Recovery.Receipts.{
  is_resolved, is_applied_state, is_recent, is_of, refresh_receipts, operation_step,
  resolved_receipts_changed,
}
use bodkin.Recovery.Settle.{filter}
use bodkin.Recovery.Entry.{recover_entry}
use bodkin.Recovery.Exit.{recover_exit}
use bodkin.Recovery.Command.{recover_command}

-- The filter of `recover`: pending, or applied on a receipt that is not yet deep.
abbrev pub is_due : Env → ℕ → ℕ → Operation → Bool
is_due env head wallet op =
    is_of env wallet op
    && (is_pending op.state
        || (is_applied_state op.state
            && any (λ tx. is_resolved tx.state && is_recent head tx.block_number) op.txs))

-- The `match` on what the operation is for.
unfoldable pub settle_operation : Env → ℕ → Operation → OperationSpec → Action (Unit {0})
unfolding recover_entry recover_exit recover_command
settle_operation env wallet op (entry token curve symbol name value) =
    recover_entry env token curve symbol name value wallet op
settle_operation env wallet op (exit position_id token curve reason) =
    recover_exit env position_id reason token curve wallet op
settle_operation env wallet op (command label effect) = recover_command env effect op

-- What follows the refresh: the operation as it was, and as it is now.
unfoldable pub recover_current : Env → ℕ → Operation → Operation → Action (Unit {0})
unfolding resolved_receipts_changed settle_operation
recover_current env wallet op current =
    if is_applied_state op.state
    then (if resolved_receipts_changed op current then block (receipt_changed op.id) else done)
    else settle_operation env wallet current current.spec

unfoldable pub recover_operation :
    Env → (wallet latest pending_nonce : ℕ) → Operation → Action (Unit {0})
unfolding refresh_receipts operation_step recover_current
recover_operation env wallet latest pending_nonce op = do
  refresh_receipts env op latest pending_nonce
  current ← operation_step op.id
  recover_current env wallet op current

unfoldable pub recover_operations :
    Env → (wallet latest pending_nonce : ℕ) → List Operation → Action (Unit {0})
unfolding recover_operation
recover_operations env wallet latest pending_nonce [] = done
recover_operations env wallet latest pending_nonce (op ∷ ops) =
    recover_operation env wallet latest pending_nonce op
    >> recover_operations env wallet latest pending_nonce ops

abbrev pub no_report : RecoveryReport
no_report = record { recovered_entries = 0; recovered_exits = 0; failed = 0; blocked = [] }

abbrev reported : Result (Unit {0}) × World → Result RecoveryReport × World
reported (ok _, w) = (ok w.report, w)
reported (err e, w) = (err e, w)

-- The loop, once something is due.
unfoldable pub recover_due : Env → ℕ → List Operation → Action (Unit {0})
unfolding recover_operations
recover_due env wallet [] = done
recover_due env wallet (op ∷ ops) = do
  latest ← require node_failed env.node.latest_nonce
  pending_nonce ← require node_failed env.node.pending_nonce
  recover_operations env wallet latest pending_nonce (op ∷ ops)

unfoldable pub recover : Env → ℕ → Action RecoveryReport
unfolding recover_due
recover env wallet w = elim (env.node.block_number) [
  | none ↦ (err node_failed, w)
  | some head ↦ reported (
      recover_due env wallet (filter (is_due env head wallet) w.operations)
        (record w { report = no_report }))
]
