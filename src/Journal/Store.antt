-- ===== src/Journal/Store.antt =====
-- trade/journal.rs: `TxJournal`, the operations in memory. Saving them is the database's: each call
-- that saves takes whether that succeeds, and the current time in milliseconds. How an address is
-- printed is alloy's: a parameter like those of Record.
use bodkin.Prelude.{
  ℕ, zero, suc, ◌+◌, ◌/◌, ◌%◌, Bool, false, ◌&&◌, none, some, List, [], ◌∷◌, ◌++◌, String, ltb,
  length, find, if◌then◌else◌,
}
use bodkin.Prelude.Text.{eq_ignore_ascii_case}
use text.Mathlib.Text.{◌==◌ as str_eq}
use Prim.Native.String
use Prim.Native.String.{slice}
use bodkin.Journal.Record.{
  Operation, OperationSpec, JournalEvent, pending, is_pending, same_subject, apply_event,
  operation_requires_recovery,
}

-- `CHAIN_ID` of chain.rs.
abbrev pub chain : ℕ
chain = 4663

-- The decimal digits of a number, before the text so far; 20 digits are enough for a `u64`.
unfoldable pub decimal : ℕ → ℕ → String → String
decimal zero n text = text
decimal (suc digits) n text =
    let longer = String.◌++◌ (slice "0123456789" (n % 10) (n % 10 + 1)) text in
    let rest = decimal digits (n / 10) longer in if ltb n 10 then longer else rest

abbrev pub show : ℕ → String
show n = decimal 20 n ""

-- `{now}-{operations.len()}`
abbrev pub operation_id : ℕ → ℕ → String
operation_id now len = String.◌++◌ (show now) (String.◌++◌ "-" (show len))

pub data JournalError : Type 0 where
  still_pending not_found : String → JournalError
  not_staged not_saved : JournalError

pub data Outcome {ℓ} (A : Type ℓ) : Type ℓ where
  ok : A → Outcome A
  err : JournalError → Outcome A

-- A pending operation of the wallet on the same subject.
abbrev pub blocks : String → OperationSpec → Operation → Bool
blocks wallet spec op =
    is_pending op.state && eq_ignore_ascii_case op.wallet wallet && same_subject op.spec spec

abbrev pub begun : ℕ → ℕ → String → OperationSpec → Operation
begun now len wallet spec = record {
  id = operation_id now len;
  chain_id = chain;
  wallet = wallet;
  created_at = now;
  updated_at = now;
  state = pending;
  spec = spec;
  txs = [];
}

-- What `record` finds: nothing, an event that does not fit, or the operations after the write.
pub data Write : Type 0 where
  no_operation unfit : Write
  written : List Operation → Write

abbrev pub after_write : Operation → Write → Write
after_write op (written ops) = written (op ∷ ops)
after_write op w = w

abbrev pub has_id : String → Operation → Bool
has_id id op = str_eq op.id id

module _ (show_hash show_amount show_address : ℕ → String) where
  unfoldable pub begin :
      Bool → ℕ → ℕ → OperationSpec → List Operation → Outcome String × List Operation
  unfolding same_subject
  begin saved now wallet spec ops = elim (find (blocks (show_address wallet) spec) ops) [
    | some existing ↦ (err (still_pending existing.id), ops)
    | none ↦ (
      if saved then ok (operation_id now (length ops)) else err not_saved,
      ops ++ begun now (length ops) (show_address wallet) spec ∷ [],
    )
  ]

  unfoldable pub write_operation : ℕ → String → JournalEvent → List Operation → Write
  unfolding apply_event
  write_operation now id event [] = no_operation
  write_operation now id event (op ∷ ops) =
      let rest = write_operation now id event ops in
      if has_id id op
      then elim (apply_event show_hash show_amount op event) [
        | none ↦ unfit
        | some changed ↦ written (record changed { updated_at = now } ∷ ops)
      ]
      else after_write op rest

  -- `TxJournal::record`
  unfoldable pub record_event :
      Bool → ℕ → String → JournalEvent → List Operation → Outcome (Unit {0}) × List Operation
  unfolding write_operation
  record_event saved now id event ops = elim (write_operation now id event ops) [
    | no_operation ↦ (err (not_found id), ops)
    | unfit ↦ (err not_staged, ops)
    | written ops' ↦ (if saved then ok tt else err not_saved, ops')
  ]

unfoldable pub requires_recovery : String → List Operation → Bool
unfolding operation_requires_recovery
requires_recovery id ops = elim (find (has_id id) ops) [
  | none ↦ false
  | some op ↦ operation_requires_recovery op
]
