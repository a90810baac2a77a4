-- ===== src/Recovery/World.antt =====
-- trade/journal.rs: what recovery reads and writes: the node, the operations, the positions and the
-- report. Answers of the node and of the disk are arguments.
use bodkin.Prelude.{
  ℕ, ◌-◌, ◌*◌, Bool, true, Option, none, some, List, [], ◌∷◌, ◌++◌, String, if◌then◌else◌, min,
  u256_mod,
}
use bodkin.Prelude.Int.{ℤ}
use bodkin.Flow.Ingest.{CurveLog}
use bodkin.Positions.Record.{Formats}
use bodkin.Positions.Store.{PositionStore, flush}
use bodkin.Journal.Record.{Operation, JournalEvent}
use bodkin.Journal.Store.{Outcome, JournalError, has_id}
use bodkin.Journal.Store
use bodkin.Recovery.Fills.{FillAbi}

-- `ReceiptView`, the fields that are read.
pub record ReceiptView : Type 0 where
  pub logs : List CurveLog
  pub status : Option Bool
  pub block_number : Option ℕ
  pub block_hash : Option ℕ
  pub tx_hash : Option ℕ
  pub gas_used : Option ℕ
  pub effective_gas_price : Option ℕ

-- The factory's record of a token, the fields that are read; `tick_spacing` as an `i32`, 0 if it is
-- none.
pub record LaunchedToken : Type 0 where
  pub pair_token : ℕ
  pub tick_spacing : ℤ
  pub creator_tax_bps : ℕ

-- What the node answers, `none` for an error, also for a fee that is no `u64`; a code is its hash, if
-- it is not empty.
pub record Node : Type 0 where
  pub block_number : Option ℕ
  pub latest_nonce : Option ℕ
  pub pending_nonce : Option ℕ
  pub receipt : ℕ → Option ReceiptView
  pub block_hash : ℕ → Option ℕ
  pub launched_token : ℕ → Option LaunchedToken
  pub fee_bps : ℕ → Option ℕ
  pub code_hash : ℕ → Option (Option ℕ)

-- The libraries, the node, the time and what the disk answers to each save.
pub record Env : Type 0 where
  pub fmt : Formats
  pub parse_hash : String → Option ℕ
  pub abi : FillAbi
  pub node : Node
  pub now_ms : ℕ

-- Why recovery blocks, each with the operation.
pub data Blockage : Type 0 where
  receipt_changed unresolved_burst zero_net_entry unresolved_entry : String → Blockage
  multiple_exits no_swap no_fill zero_movement missing_position not_applied : String → Blockage
  unresolved_exit missing_gas_position unresolved_command missing_log wrong_code : String → Blockage

pub record RecoveryReport : Type 0 where
  pub recovered_entries : ℕ
  pub recovered_exits : ℕ
  pub failed : ℕ
  pub blocked : List Blockage

-- `saves` holds whether the next saves, of an operation or of the positions, succeed; when it is used
-- up they do.
pub record World : Type 0 where
  pub operations : List Operation
  pub positions : PositionStore
  pub report : RecoveryReport
  pub saves : List Bool

pub data RecoveryError : Type 0 where
  journal_failed : JournalError → RecoveryError
  node_failed malformed_hash malformed_amount not_flushed panicked : RecoveryError

pub data Result {ℓ} (A : Type ℓ) : Type ℓ where
  ok : A → Result A
  err : RecoveryError → Result A

-- What is done before an error stays done.
abbrev pub Action : Type 0 → Type 0
Action A = World → Result A × World

infixl 5 ◌>>=◌ ◌>>◌
abbrev pub ◌>>=◌ : {A B : Type 0} → Action A → (A → Action B) → Action B
◌>>=◌ m f w = elim ((m w).0) [ ok a ↦ f a (m w).1 | err e ↦ (err e, (m w).1) ]

abbrev pub ◌>>◌ : {A B : Type 0} → Action A → Action B → Action B
m >> k = m >>= λ _. k

abbrev pub done : Action (Unit {0})
done w = (ok tt, w)

-- `ok_or(e)?`
abbrev pub require : {A : Type 0} → RecoveryError → Option A → Action A
require e none w = (err e, w)
require e (some a) w = (ok a, w)

abbrev pub head_or_true : List Bool → Bool
head_or_true [] = true
head_or_true (b ∷ bs) = b

abbrev pub rest_of : List Bool → List Bool
rest_of [] = []
rest_of (b ∷ bs) = bs

abbrev pub block : Blockage → Action (Unit {0})
block b w =
    (ok tt, record w { report = record (w.report) { blocked = w.report.blocked ++ b ∷ [] } })

-- What the journal answers, as the result of a `?`.
abbrev pub lifted : Outcome (Unit {0}) → Result (Unit {0})
lifted (Store.ok _) = ok tt
lifted (Store.err e) = err (journal_failed e)

-- `self.record`
unfoldable pub record_step : Env → String → JournalEvent → Action (Unit {0})
record_step env id event w =
    let (answer, ops) =
      Store.record_event env.fmt.show_hash env.fmt.show env.fmt.show_hash (head_or_true w.saves)
        env.now_ms id event w.operations in
    (lifted answer, record w { operations = ops; saves = rest_of w.saves })

-- `positions.flush()?`
unfoldable pub flush_step : Action (Unit {0})
flush_step w = (
  if head_or_true w.saves then ok tt else err not_flushed,
  record w { positions = (flush (head_or_true w.saves) w.positions).1; saves = rest_of w.saves },
)

-- `saturating_mul`
abbrev pub saturating_mul : ℕ → ℕ → ℕ
saturating_mul a b = min (a * b) (u256_mod - 1)
