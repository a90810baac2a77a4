-- ===== src/Recovery/Exit.antt =====
-- trade/journal.rs: `recover_exit`, with `net_pool_quote` of trade/pool.rs.
use bodkin.Prelude.{
  ℕ, ◌-◌, ◌/◌, Bool, false, ◌&&◌, ◌||◌, Option, none, some, List, [], ◌∷◌, String, ◌==◌,
  if◌then◌else◌, any,
}
use text.Mathlib.Text.{◌==◌ as str_eq}
use bodkin.Positions.Record.{Position, AppliedExit, charge_overhead_gas}
use bodkin.Positions.Exits.{Sell, apply_exit}
use bodkin.Positions.Store.{update_with, update}
use bodkin.Journal.Record.{Operation, TxRecord, is_applied, operation_requires_recovery}
use bodkin.Recovery.Fills.{parse_curve_sell_fill, pons_pool_key, parse_pool_sell_fill, bps_amount}
use bodkin.Recovery.World.{
  ReceiptView, Env, Blockage, multiple_exits, no_swap, no_fill, zero_movement, missing_position,
  not_applied, unresolved_exit, missing_gas_position, node_failed, malformed_hash, malformed_amount,
  panicked, Result, ok, err, Action, ◌>>=◌, ◌>>◌, require, block, record_step, flush_step,
}
use bodkin.Recovery.Receipts.{is_confirmed_tx, operation_gas}
use bodkin.Recovery.Settle.{is_tx_of, filter, count_exit, try, settle_failed}

-- The position has an exit of one of the operation's transactions.
abbrev pub has_exit_of : Operation → String → Position → Bool
has_exit_of op position_id p = str_eq p.id position_id && any (λ x. is_tx_of op.txs x.tx) p.exits

abbrev pub is_sale : TxRecord → Bool
is_sale tx = is_confirmed_tx tx.state && (str_eq tx.step "curve_sell" || str_eq tx.step "pool_sell")

-- `net_pool_quote`, `none` being a panic.
abbrev pub net_of : ℕ → Option ℕ → Option ℕ → Option ℕ
net_of gross (some fee) (some tax) = some (gross - fee - tax)
net_of gross _ _ = none

-- What a confirmed sale brought, or why recovery blocks.
pub data ExitFill : Type 0 where
  sold : (tokens out : ℕ) → ExitFill
  blocked : Blockage → ExitFill

unfoldable pub curve_fill : Env → (curve wallet : ℕ) → Operation → ReceiptView → ExitFill
curve_fill env curve wallet op r =
    let (tokens, out) = parse_curve_sell_fill env.abi curve wallet r.logs in
    if tokens == 0 || out == 0 then blocked (no_fill op.id) else sold tokens out

unfoldable pub pool_fill : Env → (token curve : ℕ) → Operation → ReceiptView → Result ExitFill
pool_fill env token curve op r = elim (env.node.launched_token token) [
  | none ↦ err node_failed
  | some launched ↦
      elim (parse_pool_sell_fill env.abi r.logs
        (pons_pool_key env.abi token launched.pair_token launched.tick_spacing)) [
          | none ↦ ok (blocked (no_swap op.id))
          | some (tokens, gross) ↦ elim (env.node.fee_bps curve) [
            | none ↦ err node_failed
            | some fee ↦
                elim (net_of gross (bps_amount gross fee)
                  (bps_amount gross launched.creator_tax_bps)) [
                    | none ↦ err panicked
                    | some net ↦ ok (
                        if tokens == 0 || net == 0
                        then blocked (zero_movement op.id)
                        else sold tokens net)
                  ]
          ]
        ]
]

unfoldable pub exit_fill :
    Env → (token curve wallet : ℕ) → Operation → TxRecord → ReceiptView → Result ExitFill
unfolding curve_fill pool_fill
exit_fill env token curve wallet op tx r =
    if str_eq tx.step "curve_sell"
    then ok (curve_fill env curve wallet op r)
    else pool_fill env token curve op r

abbrev pub sell_of : Env → (tokens out gas hash : ℕ) (reason : String) → Sell
sell_of env tokens out gas hash reason = record {
  tokens_sold = tokens;
  eth_out = out;
  exit_gas = gas;
  reason = reason;
  tx = some hash;
  dry_run = false;
  at = env.now_ms / 1000;
}

-- The closure of `update_with`: the position after the exit and the report, or the panic.
abbrev pub exit_closure : Env → Sell → Position → Position × Option AppliedExit
exit_closure env s p = elim (apply_exit env.fmt s p) [
  | none ↦ (p, none)
  | some (after, report) ↦ (after, some report)
]

abbrev pub update_step : Env → String → Sell → Action (Option (Position × Option AppliedExit))
update_step env id s w =
    let (answer, after) = update_with {0} env.now_ms id (exit_closure env s) w.positions in
    (ok answer, record w { positions = after })

-- What follows the write to the position.
unfoldable pub finish_exit :
    Env → Operation → Option (Position × Option AppliedExit) → Action (Unit {0})
unfolding flush_step record_step
finish_exit env op none = block (missing_position op.id)
finish_exit env op (some (after, none)) = require panicked none
finish_exit env op (some (after, some report)) =
    if report.tokens_sold == 0
    then block (not_applied op.id)
    else (flush_step >> record_step env op.id is_applied >> count_exit)

unfoldable pub apply_sale :
    Env → (position_id reason : String) → (tokens out hash : ℕ) → Operation → Action (Unit {0})
unfolding finish_exit operation_gas
apply_sale env position_id reason tokens out hash op = do
  gas ← require malformed_amount (operation_gas env.fmt op)
  answer ← update_step env position_id (sell_of env tokens out gas hash reason)
  finish_exit env op answer

abbrev pub settle_sale :
    Env → (position_id reason : String) → ℕ → Operation → ExitFill → Action (Unit {0})
settle_sale env position_id reason hash op (blocked why) = block why
settle_sale env position_id reason hash op (sold tokens out) =
    apply_sale env position_id reason tokens out hash op

-- One confirmed sale.
unfoldable pub recover_sale :
    Env
    → (position_id reason : String) (token curve wallet : ℕ) → Operation
    → TxRecord
    → Action (Unit {0})
unfolding apply_sale exit_fill
recover_sale env position_id reason token curve wallet op tx = do
  hash ← require malformed_hash (env.parse_hash tx.hash)
  r ← require node_failed (env.node.receipt hash)
  fill ← try (exit_fill env token curve wallet op tx r)
  settle_sale env position_id reason hash op fill

-- The gas of an exit that failed goes on the position.
abbrev pub charge_step : Env → (position_id operation_id : String) → ℕ → Action (Option Position)
charge_step env position_id operation_id gas w =
    let (answer, after) =
      update env.now_ms position_id (λ p. (charge_overhead_gas env.fmt operation_id gas p).1)
        w.positions in
    (ok answer, record w { positions = after })

abbrev pub after_charge : Env → Operation → Option Position → Action (Unit {0})
after_charge env op none = block (missing_gas_position op.id)
after_charge env op (some p) = flush_step >> settle_failed env op

unfoldable pub fail_exit : Env → String → Operation → Action (Unit {0})
unfolding flush_step record_step operation_gas charge_overhead_gas
fail_exit env position_id op = require malformed_amount (operation_gas env.fmt op) >>= λ gas.
    if gas == 0
    then settle_failed env op
    else (charge_step env position_id op.id gas >>= after_charge env op)

abbrev pub settle_sales :
    Env
    → (position_id reason : String) (token curve wallet : ℕ) → Operation
    → List TxRecord
    → Action (Unit {0})
settle_sales env position_id reason token curve wallet op [] =
    if operation_requires_recovery op
    then block (unresolved_exit op.id)
    else fail_exit env position_id op
settle_sales env position_id reason token curve wallet op (tx ∷ []) =
    recover_sale env position_id reason token curve wallet op tx
settle_sales env position_id reason token curve wallet op (tx ∷ more ∷ txs) =
    block (multiple_exits op.id)

unfoldable pub recover_exit :
    Env → (position_id reason : String) (token curve wallet : ℕ) → Operation → Action (Unit {0})
unfolding record_step recover_sale fail_exit
recover_exit env position_id reason token curve wallet op w =
    if any (has_exit_of op position_id) w.positions.list
    then record_step env op.id is_applied w
    else settle_sales env position_id reason token curve wallet op (filter is_sale op.txs) w
