-- ===== src/Recovery/Settle.antt =====
-- trade/journal.rs: what the three ways to settle an operation share.
use bodkin.Prelude.{◌+◌, Bool, false, Option, none, some, List, [], ◌∷◌, String, if◌then◌else◌, any}
use bodkin.Journal.Record.{Operation, TxRecord, has_failed, has_hash}
use bodkin.Recovery.World.{Env, Result, ok, Action, ◌>>◌, record_step}

-- Some transaction of the operation has the hash.
abbrev pub is_tx_of : List TxRecord → Option String → Bool
is_tx_of txs none = false
is_tx_of txs (some hash) = any (has_hash hash) txs

abbrev pub filter {ℓ} : {A : Type ℓ} → (A → Bool) → List A → List A
filter keep [] = []
filter keep (x ∷ xs) = if keep x then x ∷ filter keep xs else filter keep xs

abbrev pub count_entry : Action (Unit {0})
count_entry w = (
  ok tt,
  record w { report = record (w.report) { recovered_entries = w.report.recovered_entries + 1 } },
)

abbrev pub count_exit : Action (Unit {0})
count_exit w = (
  ok tt,
  record w { report = record (w.report) { recovered_exits = w.report.recovered_exits + 1 } },
)

abbrev pub count_failed : Action (Unit {0})
count_failed w = (ok tt, record w { report = record (w.report) { failed = w.report.failed + 1 } })

-- `?` on a result that touches nothing.
abbrev pub try : {A : Type 0} → Result A → Action A
try r w = (r, w)

-- The operation failed on the chain.
abbrev pub settle_failed : Env → Operation → Action (Unit {0})
settle_failed env op = record_step env op.id has_failed >> count_failed
