-- ===== src/Journal/Record.antt =====
-- trade/journal.rs: an operation, its transactions, and what an event does to them. How a hash is
-- printed (`{hash:#x}`) and how an amount is printed are alloy's: parameters.
use bodkin.Prelude.{
  ℕ, Bool, true, false, ◌&&◌, ◌||◌, not, Option, none, some, List, [], ◌∷◌, ◌++◌, String, any,
  if◌then◌else◌, ◌==◌,
}
use bodkin.Prelude.Text.{eq_ignore_ascii_case}
use mathlib.Core.Option
use text.Mathlib.Text.{◌==◌ as str_eq}

pub data CommandEffect : Type 0 where
  receipt : CommandEffect
  required_log runtime_code : ℕ → ℕ → CommandEffect

pub data OperationSpec : Type 0 where
  entry : (token curve : ℕ) (symbol name value : String) → OperationSpec
  exit : (position_id : String) (token curve : ℕ) (reason : String) → OperationSpec
  command : (label : String) (effect : CommandEffect) → OperationSpec

pub data OperationState : Type 0 where
  pending applied failed : OperationState

pub data TxState : Type 0 where
  prepared submitted confirmed reverted rejected unresolved dropped : TxState

pub record TxRecord : Type 0 where
  pub step : String
  pub nonce : ℕ
  pub hash : String
  pub state : TxState
  pub block_number : Option ℕ
  pub block_hash : Option String
  pub gas_wei : Option String

pub record Operation : Type 0 where
  pub id : String
  pub chain_id : ℕ
  pub wallet : String
  pub created_at : ℕ
  pub updated_at : ℕ
  pub state : OperationState
  pub spec : OperationSpec
  pub txs : List TxRecord

pub data JournalEvent : Type 0 where
  stage : (step : String) (nonce hash : ℕ) → JournalEvent
  stage_many : (step : String) (txs : List (ℕ × ℕ)) → JournalEvent
  is_submitted : (hash : ℕ) → JournalEvent
  is_confirmed is_reverted : (hash block_number block_hash gas_wei : ℕ) → JournalEvent
  is_rejected is_unresolved : (hash : ℕ) → JournalEvent
  all_rejected is_applied has_failed : JournalEvent

abbrev pub is_pending : OperationState → Bool
is_pending pending = true
is_pending _ = false

-- `Prepared | Submitted | Unresolved`
abbrev pub is_ambiguous : TxState → Bool
is_ambiguous prepared = true
is_ambiguous submitted = true
is_ambiguous unresolved = true
is_ambiguous _ = false

abbrev pub is_confirmed_state : TxState → Bool
is_confirmed_state confirmed = true
is_confirmed_state _ = false

unfoldable pub same_subject : OperationSpec → OperationSpec → Bool
same_subject (entry a _ _ _ _) (entry b _ _ _ _) = a == b
same_subject (exit a _ _ _) (exit b _ _ _) = str_eq a b
same_subject (command a _) (command b _) = str_eq a b
same_subject _ _ = false

abbrev pub has_hash : String → TxRecord → Bool
has_hash hash tx = eq_ignore_ascii_case tx.hash hash

abbrev pub staged : String → ℕ → String → TxRecord
staged step nonce hash = record {
  step = step;
  nonce = nonce;
  hash = hash;
  state = prepared;
  block_number = none;
  block_hash = none;
  gas_wei = none;
}

-- A hash that is already there is not staged again.
unfoldable pub stage_one : String → ℕ → String → List TxRecord → List TxRecord
stage_one step nonce hash txs =
    if any (has_hash hash) txs then txs else txs ++ staged step nonce hash ∷ []

-- The write to the first record with the hash; `none` if there is no such record.
unfoldable pub write_first : String → (TxRecord → TxRecord) → List TxRecord → Option (List TxRecord)
write_first hash f [] = none
write_first hash f (tx ∷ txs) =
    let rest = write_first hash f txs in
    if has_hash hash tx then some (f tx ∷ txs) else Option.map (λ ts. tx ∷ ts) rest

abbrev pub rejected_if_ambiguous : TxRecord → TxRecord
rejected_if_ambiguous tx = if is_ambiguous tx.state then record tx { state = rejected } else tx

unfoldable pub reject_all : List TxRecord → List TxRecord
reject_all [] = []
reject_all (tx ∷ txs) = rejected_if_ambiguous tx ∷ reject_all txs

module _ (show_hash show_amount : ℕ → String) where
  unfoldable pub stage_all : String → List (ℕ × ℕ) → List TxRecord → List TxRecord
  unfolding stage_one
  stage_all step [] txs = txs
  stage_all step ((nonce, hash) ∷ more) txs =
      stage_all step more (stage_one step nonce (show_hash hash) txs)

  abbrev pub with_state : TxState → Option ℕ → Option ℕ → Option ℕ → TxRecord → TxRecord
  with_state state block_number block_hash gas_wei tx = record tx {
    state = state;
    block_number = block_number;
    block_hash = Option.map show_hash block_hash;
    gas_wei = Option.map show_amount gas_wei;
  }

  -- `None` is the error that the transaction is not staged.
  unfoldable pub set_record :
      Operation → ℕ → TxState → Option ℕ → Option ℕ → Option ℕ → Option Operation
  unfolding write_first
  set_record op hash state block_number block_hash gas_wei =
      Option.map (λ txs. record op { txs = txs })
        (write_first (show_hash hash) (with_state state block_number block_hash gas_wei) op.txs)

  unfoldable pub apply_event : Operation → JournalEvent → Option Operation
  unfolding stage_one stage_all set_record reject_all
  apply_event op (stage step nonce hash) =
      some (record op { txs = stage_one step nonce (show_hash hash) op.txs })
  apply_event op (stage_many step txs) = some (record op { txs = stage_all step txs op.txs })
  apply_event op (is_submitted hash) = set_record op hash submitted none none none
  apply_event op (is_confirmed hash number block gas) =
      set_record op hash confirmed (some number) (some block) (some gas)
  apply_event op (is_reverted hash number block gas) =
      set_record op hash reverted (some number) (some block) (some gas)
  apply_event op (is_rejected hash) = set_record op hash rejected none none none
  apply_event op (is_unresolved hash) = set_record op hash unresolved none none none
  apply_event op all_rejected = some (record op { txs = reject_all op.txs })
  apply_event op is_applied = some (record op { state = applied })
  apply_event op has_failed = some (record op { state = failed })

abbrev pub operation_has_ambiguous : Operation → Bool
operation_has_ambiguous op = any (λ tx. is_ambiguous tx.state) op.txs

abbrev pub tx_has_effect : TxRecord → Bool
tx_has_effect tx = not (str_eq tx.step "token_approval" || str_eq tx.step "permit2_approval")

unfoldable pub operation_requires_recovery : Operation → Bool
operation_requires_recovery op =
    is_pending op.state
    && (operation_has_ambiguous op
        || any (λ tx. is_confirmed_state tx.state && tx_has_effect tx) op.txs)
