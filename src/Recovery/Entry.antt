-- ===== src/Recovery/Entry.antt =====
-- trade/journal.rs: `recover_entry`.
use bodkin.Prelude.{
  ℕ, ◌-◌, ◌/◌, Bool, false, ◌&&◌, none, some, List, [], ◌∷◌, String, ◌==◌, if◌then◌else◌,
  saturating_add, u256_mod, any,
}
use text.Mathlib.Text.{◌==◌ as str_eq}
use bodkin.Positions.Record.{Position}
use bodkin.Positions.Store.{Opening, open_position}
use bodkin.Journal.Record.{Operation, TxRecord, is_applied, has_failed, operation_has_ambiguous}
use bodkin.Journal.Store.{chain}
use bodkin.Recovery.Fills.{parse_curve_buy_tokens, parse_curve_refund}
use bodkin.Recovery.World.{
  Env, unresolved_burst, zero_net_entry, unresolved_entry, node_failed, malformed_hash,
  malformed_amount, Result, ok, err, Action, ◌>>=◌, ◌>>◌, require, block, record_step, flush_step,
}
use bodkin.Recovery.Receipts.{is_confirmed_tx, operation_gas}
use bodkin.Recovery.Settle.{is_tx_of, filter, count_entry, count_failed, try}

-- The hash, the tokens and the ETH of a fill.
abbrev pub Fill : Type 0
Fill = ℕ × ℕ × ℕ

-- The fills of an entry, or the stop at one that brought tokens for nothing.
pub data EntryFills : Type 0 where
  filled : List Fill → EntryFills
  stopped : EntryFills

abbrev pub more_fills : Fill → EntryFills → EntryFills
more_fills f (filled fs) = filled (f ∷ fs)
more_fills f stopped = stopped

-- What one receipt adds: nothing, a fill, or the stop.
pub data EntryFill : Type 0 where
  nothing zero_net : EntryFill
  one_fill : Fill → EntryFill

abbrev pub after_fill : EntryFill → Result EntryFills → Result EntryFills
after_fill nothing rest = rest
after_fill zero_net rest = ok stopped
after_fill (one_fill f) (ok fills) = ok (more_fills f fills)
after_fill (one_fill f) (err e) = err e

-- The receipt of one confirmed transaction.
unfoldable pub entry_fill : Env → (curve wallet : ℕ) (value : String) → TxRecord → Result EntryFill
entry_fill env curve wallet value tx = elim (env.parse_hash tx.hash) [
  | none ↦ err malformed_hash
  | some hash ↦ elim (env.node.receipt hash) [
    | none ↦ err node_failed
    | some r ↦
        let tokens = parse_curve_buy_tokens env.abi curve wallet r.logs in
        if tokens == 0 then ok nothing else elim (env.fmt.parse value) [
          | none ↦ err malformed_amount
          | some sent ↦
              let actual = sent - parse_curve_refund env.abi curve wallet r.logs in
              if actual == 0 then ok zero_net else ok (one_fill (hash, tokens, actual))
        ]
  ]
]

unfoldable pub entry_fills :
    Env → (curve wallet : ℕ) (value : String) → List TxRecord → Result EntryFills
unfolding entry_fill
entry_fills env curve wallet value [] = ok (filled [])
entry_fills env curve wallet value (tx ∷ txs) = elim (entry_fill env curve wallet value tx) [
  | err e ↦ err e
  | ok f ↦ after_fill f (entry_fills env curve wallet value txs)
]

abbrev pub is_entry_tx : TxRecord → Bool
is_entry_tx tx = is_confirmed_tx tx.state && str_eq tx.step "entry"

abbrev pub sum_tokens : List Fill → ℕ → ℕ
sum_tokens [] sum = sum
sum_tokens ((hash, tokens, eth) ∷ fs) sum = sum_tokens fs (saturating_add u256_mod sum tokens)

abbrev pub sum_eth : List Fill → ℕ → ℕ
sum_eth [] sum = sum
sum_eth ((hash, tokens, eth) ∷ fs) sum = sum_eth fs (saturating_add u256_mod sum eth)

abbrev pub opening_of :
    (token curve : ℕ) (symbol name : String)
    → Operation
    → (wallet gas first : ℕ) → List Fill
    → Opening
opening_of token curve symbol name op wallet gas first fills = record {
  token = token;
  curve = curve;
  symbol = symbol;
  name = name;
  opened_at = op.created_at / 1000;
  entry_tx = some first;
  dry_run = false;
  entry_eth = sum_eth fills 0;
  entry_gas_wei = gas;
  tokens = sum_tokens fills 0;
  chain_id = chain;
  wallet = some wallet;
}

abbrev pub open_step : Env → Opening → Action (Unit {0})
open_step env o w =
    (ok tt, record w { positions = (open_position env.fmt env.now_ms o w.positions).1 })

-- An entry whose position is there: settled, unless some attempt of the burst is open.
unfoldable pub settle_entry : Env → Operation → Action (Unit {0})
unfolding record_step
settle_entry env op =
    if operation_has_ambiguous op
    then block (unresolved_burst op.id)
    else record_step env op.id is_applied

-- The position of the operation is in the store.
abbrev pub is_taken : Operation → List Position → Bool
is_taken op ps = any (λ p. is_tx_of op.txs p.entry_tx) ps

unfoldable pub open_recovered :
    Env
    → (token curve : ℕ) (symbol name : String) → (wallet : ℕ) → Operation
    → Fill
    → List Fill
    → Action (Unit {0})
unfolding operation_gas record_step flush_step settle_entry
open_recovered env token curve symbol name wallet op (hash, tokens, eth) fills = do
  gas ← require malformed_amount (operation_gas env.fmt op)
  open_step env
      (opening_of token curve symbol name op wallet gas hash ((hash, tokens, eth) ∷ fills))
  flush_step
  count_entry
  settle_entry env op

-- No fill at all.
unfoldable pub fail_entry : Env → Operation → Action (Unit {0})
unfolding record_step
fail_entry env op =
    if operation_has_ambiguous op
    then block (unresolved_entry op.id)
    else (record_step env op.id has_failed >> count_failed)

abbrev pub settle_fills :
    Env
    → (token curve : ℕ) (symbol name : String) → (wallet : ℕ) → Operation
    → EntryFills
    → Action (Unit {0})
settle_fills env token curve symbol name wallet op stopped = block (zero_net_entry op.id)
settle_fills env token curve symbol name wallet op (filled []) = fail_entry env op
settle_fills env token curve symbol name wallet op (filled (f ∷ fs)) =
    open_recovered env token curve symbol name wallet op f fs

unfoldable pub recover_entry :
    Env
    → (token curve : ℕ) (symbol name value : String) → (wallet : ℕ) → Operation
    → Action (Unit {0})
unfolding entry_fills settle_entry open_recovered fail_entry
recover_entry env token curve symbol name value wallet op w =
    if is_taken op w.positions.list
    then settle_entry env op w
    else (try (entry_fills env curve wallet value (filter is_entry_tx op.txs))
          >>= settle_fills env token curve symbol name wallet op)
        w
