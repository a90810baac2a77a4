-- ===== src/Recovery/Receipts.antt =====
-- trade/journal.rs: what the receipts on the chain say of an operation's transactions:
-- `canonical_issues`, `refresh_receipts`, `set_tx_state`, `resolved_receipts_changed` and the gas.
use bodkin.Prelude.{
  ℕ, ◌-◌, Bool, true, false, not, ◌&&◌, Option, none, some, option_eq, List, [], ◌∷◌, ◌++◌, String,
  leb, ◌==◌, if◌then◌else◌, saturating_add, u64_mod, u256_mod, find, any,
}
use bodkin.Prelude.Text.{eq_ignore_ascii_case}
use bodkin.Positions.Record.{Formats}
use bodkin.Journal.Record.{
  Operation, OperationState, applied, TxState, submitted, confirmed, reverted, rejected, unresolved,
  dropped, prepared, TxRecord, JournalEvent, is_confirmed, is_reverted, is_unresolved, has_hash,
  write_first,
}
use bodkin.Journal.Store.{
  chain, Write, no_operation, unfit, written, after_write, has_id, not_found, not_staged, not_saved,
}
use bodkin.Recovery.World.{
  ReceiptView, Node, Env, journal_failed, node_failed, malformed_hash, panicked, Result, ok, err,
  Action, ◌>>=◌, ◌>>◌, done, require, head_or_true, rest_of, record_step, saturating_mul,
}

abbrev pub canonicality_depth : ℕ
canonicality_depth = 64

-- `Confirmed | Reverted`
abbrev pub is_resolved : TxState → Bool
is_resolved confirmed = true
is_resolved reverted = true
is_resolved _ = false

abbrev pub is_applied_state : OperationState → Bool
is_applied_state applied = true
is_applied_state _ = false

abbrev pub is_confirmed_tx : TxState → Bool
is_confirmed_tx confirmed = true
is_confirmed_tx _ = false

abbrev pub state_eq : TxState → TxState → Bool
state_eq prepared prepared = true
state_eq submitted submitted = true
state_eq confirmed confirmed = true
state_eq reverted reverted = true
state_eq rejected rejected = true
state_eq unresolved unresolved = true
state_eq dropped dropped = true
state_eq _ _ = false

-- `is_none_or(|block| head <= block.saturating_add(CANONICALITY_DEPTH))`
abbrev pub is_recent : ℕ → Option ℕ → Bool
is_recent head none = true
is_recent head (some block) = leb head (saturating_add u64_mod block canonicality_depth)

-- The block of a receipt is the one that the node has at its height.
abbrev pub is_canonical : Node → ReceiptView → Bool
is_canonical node r = elim (r.block_number) [
  | none ↦ false
  | some number ↦ elim (r.block_hash) [
    | none ↦ false
    | some hash ↦ option_eq (node.block_hash number) (some hash)
  ]
]

-- A text that is there and equal to what `{:#x}` prints.
abbrev pub is_printed : Formats → Option String → Option ℕ → Bool
is_printed fmt (some expected) (some actual) = eq_ignore_ascii_case expected (fmt.show_hash actual)
is_printed fmt _ _ = false

abbrev pub status_is : Option Bool → Bool → Bool
status_is (some true) b = b
status_is (some false) b = not b
status_is none b = false

abbrev pub still_canonical : Env → TxRecord → ℕ → ReceiptView → Bool
still_canonical env tx hash r =
    option_eq r.tx_hash (some hash)
    && status_is r.status (is_confirmed_tx tx.state)
    && option_eq r.block_number tx.block_number
    && is_printed env.fmt tx.block_hash r.block_hash
    && is_canonical env.node r

pub data Issue : Type 0 where
  disappeared : String → ℕ → Issue
  not_canonical : String → String → Issue

abbrev pub issue_at : Env → Operation → TxRecord → ℕ → List Issue
issue_at env op tx hash = elim (env.node.receipt hash) [
  | none ↦ disappeared op.id hash ∷ []
  | some r ↦ if still_canonical env tx hash r then [] else not_canonical op.id tx.hash ∷ []
]

abbrev pub issues_with : List Issue → Result (List Issue) → Result (List Issue)
issues_with found (ok more) = ok (found ++ more)
issues_with found (err e) = err e

unfoldable pub tx_issues : Env → ℕ → Operation → List TxRecord → Result (List Issue)
tx_issues env head op [] = ok []
tx_issues env head op (tx ∷ txs) =
    let rest = tx_issues env head op txs in
    if is_resolved tx.state && is_recent head tx.block_number
    then elim (env.parse_hash tx.hash) [
      | none ↦ err malformed_hash
      | some hash ↦ issues_with (issue_at env op tx hash) rest
    ]
    else rest

abbrev pub is_of : Env → ℕ → Operation → Bool
is_of env wallet op =
    op.chain_id == chain && eq_ignore_ascii_case op.wallet (env.fmt.show_hash wallet)

unfoldable pub operation_issues : Env → ℕ → ℕ → List Operation → Result (List Issue)
unfolding tx_issues
operation_issues env head wallet [] = ok []
operation_issues env head wallet (op ∷ ops) =
    let rest = operation_issues env head wallet ops in
    if is_applied_state op.state && is_of env wallet op
    then elim (tx_issues env head op op.txs) [ err e ↦ err e | ok found ↦ issues_with found rest ]
    else rest

unfoldable pub canonical_issues : Env → ℕ → List Operation → Result (List Issue)
unfolding operation_issues
canonical_issues env wallet ops = elim (env.node.block_number) [
  | none ↦ err node_failed
  | some head ↦ operation_issues env head wallet ops
]

-- The write of `set_tx_state`.
unfoldable pub write_tx : ℕ → String → String → (TxRecord → TxRecord) → List Operation → Write
unfolding write_first
write_tx now id hash f [] = no_operation
write_tx now id hash f (op ∷ ops) =
    let rest = write_tx now id hash f ops in
    if has_id id op
    then elim (write_first hash f op.txs) [
      | none ↦ unfit
      | some txs ↦ written (record op { txs = txs; updated_at = now } ∷ ops)
    ]
    else after_write op rest

unfoldable pub set_tx_state : Env → String → ℕ → TxState → Option ℕ → Action (Unit {0})
unfolding write_tx
set_tx_state env id hash state block_number w =
    elim (write_tx env.now_ms id (env.fmt.show_hash hash)
      (λ tx. record tx { state = state; block_number = block_number }) w.operations) [
        | no_operation ↦ (err (journal_failed (not_found id)), w)
        | unfit ↦ (err (journal_failed not_staged), w)
        | written ops ↦ (
          if head_or_true w.saves then ok tt else err (journal_failed not_saved),
          record w { operations = ops; saves = rest_of w.saves },
        )
      ]

-- What is recorded of a canonical receipt; a mined receipt without its gas panics.
abbrev pub event_of : ℕ → ℕ → ℕ → ℕ → Option Bool → JournalEvent
event_of hash number block gas (some true) = is_confirmed hash number block gas
event_of hash number block gas (some false) = is_reverted hash number block gas
event_of hash number block gas none = is_unresolved hash

unfoldable pub canonical_step : Env → String → ℕ → ReceiptView → Action (Unit {0})
unfolding record_step
canonical_step env id hash r = do
  number ← require panicked r.block_number
  block ← require panicked r.block_hash
  used ← require panicked r.gas_used
  price ← require panicked r.effective_gas_price
  record_step env id (event_of hash number block (saturating_mul used price) r.status)

unfoldable pub receipt_step : Env → String → ℕ → ReceiptView → Action (Unit {0})
unfolding canonical_step record_step
receipt_step env id hash r =
    if option_eq r.tx_hash (some hash) && is_canonical env.node r
    then canonical_step env id hash r
    else record_step env id (is_unresolved hash)

abbrev pub is_settled : TxState → Bool
is_settled rejected = true
is_settled dropped = true
is_settled _ = false

-- An old transaction that the node does not have, and whose nonce was not used.
abbrev pub is_lost : Env → Operation → ℕ → ℕ → TxRecord → Bool
is_lost env op latest pending_nonce tx =
    leb 60_000 (env.now_ms - op.created_at) && leb latest tx.nonce && leb pending_nonce tx.nonce

unfoldable pub refresh_tx : Env → Operation → ℕ → ℕ → TxRecord → Action (Unit {0})
unfolding receipt_step canonical_step record_step set_tx_state
refresh_tx env op latest pending_nonce tx =
    if is_settled tx.state
    then done
    else (require malformed_hash (env.parse_hash tx.hash) >>= λ hash. elim (env.node.receipt hash) [
      | some r ↦ receipt_step env op.id hash r
      | none ↦
          if is_lost env op latest pending_nonce tx
          then set_tx_state env op.id hash dropped none
          else record_step env op.id (is_unresolved hash)
    ])

unfoldable pub refresh_txs : Env → Operation → ℕ → ℕ → List TxRecord → Action (Unit {0})
unfolding refresh_tx
refresh_txs env op latest pending_nonce [] = done
refresh_txs env op latest pending_nonce (tx ∷ txs) =
    refresh_tx env op latest pending_nonce tx >> refresh_txs env op latest pending_nonce txs

unfoldable pub refresh_receipts : Env → Operation → ℕ → ℕ → Action (Unit {0})
unfolding refresh_txs
refresh_receipts env op latest pending_nonce = refresh_txs env op latest pending_nonce op.txs

-- `TxJournal::operation`
unfoldable pub operation_step : String → Action Operation
operation_step id w = elim (find (has_id id) w.operations) [
  | none ↦ (err (journal_failed (not_found id)), w)
  | some op ↦ (ok op, w)
]

-- A hash that was there has to be there still, in any case of letters.
abbrev pub same_block_hash : Option String → Option String → Bool
same_block_hash _ none = false
same_block_hash none (some now) = true
same_block_hash (some before) (some now) = eq_ignore_ascii_case now before

abbrev pub is_unchanged : TxRecord → TxRecord → Bool
is_unchanged before after =
    state_eq after.state before.state
    && option_eq after.block_number before.block_number
    && same_block_hash before.block_hash after.block_hash

abbrev pub was_changed : List TxRecord → TxRecord → Bool
was_changed txs before = elim (find (has_hash before.hash) txs) [
  | none ↦ true
  | some after ↦ not (is_unchanged before after)
]

unfoldable pub resolved_receipts_changed : Operation → Operation → Bool
resolved_receipts_changed previous current =
    any (λ tx. is_resolved tx.state && was_changed current.txs tx) previous.txs

-- The amounts that are there, added up; `none` is a text that does not parse.
unfoldable pub sum_gas : Formats → List TxRecord → ℕ → Option ℕ
sum_gas fmt [] total = some total
sum_gas fmt (tx ∷ txs) total = elim (tx.gas_wei) [
  | none ↦ sum_gas fmt txs total
  | some text ↦ elim (fmt.parse text) [
    | none ↦ none
    | some gas ↦ sum_gas fmt txs (saturating_add u256_mod total gas)
  ]
]

unfoldable pub operation_gas : Formats → Operation → Option ℕ
unfolding sum_gas
operation_gas fmt op = sum_gas fmt op.txs 0
