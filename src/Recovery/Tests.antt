-- ===== src/Recovery/Tests.antt =====
-- Recovery of an entry and of an exit on concrete journals, and the theorems at them.
use bodkin.Prelude.{
  find, ℕ, Option, ◌&&◌, ◌+◌, ◌≤◌, ◌≡◌, refl, true, false, none, some, List, [], ◌∷◌, String,
  if◌then◌else◌, ◌==◌, length, arith,
}
use bodkin.Prelude.Text.{eq_ignore_ascii_case}
use text.Mathlib.Text.{◌==◌ as str_eq}
use bodkin.Flow.Ingest.{CurveLog}
use bodkin.Positions.Record.{Formats, Position}
use bodkin.Positions.Store.{opened, open_position, update_list, update_with}
use bodkin.Positions.Exits.{apply_exit}
use bodkin.Journal.Record.{
  Operation, OperationSpec, entry, exit, TxRecord, TxState, prepared, confirmed, pending,
  apply_event,
}
use bodkin.Journal.Store.{chain, has_id, write_operation, record_event}
use bodkin.Recovery.Fills.{
  FillAbi, parse_curve_buy_tokens, parse_curve_sell_fill, parse_curve_refund,
}
use bodkin.Recovery.World.{ok, ReceiptView, Node, Env, World}
use bodkin.Recovery.Entry.{recover_entry}
use bodkin.Recovery.Exit.{recover_exit}
use bodkin.Recovery.Recover.{no_report, recover_operation}
use bodkin.Recovery.Kept.{the_positions}
use bodkin.Recovery.EntryOnce.{ReadsHashes}
use bodkin.Positions.Decimal.{formats, formats-IsDecimal}
use Prim.Native.Char.{code}
use bodkin.Recovery.Once.{run}
use bodkin.Recovery.Attempts.{Attempt, attempt, attempts-open_once}
use bodkin.Recovery.ExitOnce.{booked}
use bodkin.Recovery.ExitAttempts.{ExitAttempt, exit_attempt, exit_attempts-book_once}
use bodkin.Recovery.Known.{recover_operation-open}
use bodkin.Recovery.Receipts.{refresh_receipts}

abbrev fmt : Formats
fmt = record {
  parse = λ s. if str_eq s "1000" then some 1000 else some 0;
  show = λ n. if n == 1000 then "1000" else "0";
  show_hash = λ n. String.◌∷◌ "0" (String.◌∷◌ "x" (formats.show n));
}

abbrev abi : FillAbi
abi = record {
  decode_buy = λ l. some (9, 1000);
  decode_sell = λ l. some (9, 1000, 700);
  decode_refund = λ l. none;
  decode_swap = λ l. none;
  pool_id = λ k. 0;
  v4_pool_manager = 1;
  pons_hook = 2;
}

abbrev log : CurveLog
log = record {
  address = 8;
  topics = [];
  payload = [];
  transaction_hash = some 170;
  log_index = some 0;
  removed = false;
  block_number = some 5;
  transaction_index = some 0;
  block_hash = some 55;
}

abbrev mined : ReceiptView
mined = record {
  logs = log ∷ [];
  status = some true;
  block_number = some 5;
  block_hash = some 55;
  tx_hash = some 170;
  gas_used = some 3;
  effective_gas_price = some 2;
}

abbrev node : Node
node = record {
  block_number = some 6;
  latest_nonce = some 1;
  pending_nonce = some 1;
  receipt = λ h. if h == 170 then some mined else none;
  block_hash = λ n. if n == 5 then some 55 else none;
  launched_token = λ t. none;
  fee_bps = λ c. none;
  code_hash = λ a. none;
}

-- Decimal, with or without its prefix.
abbrev read_hash : String → Option ℕ
read_hash String.[] = none
read_hash (String.◌∷◌ c String.[]) = formats.parse (String.◌∷◌ c String.[])
read_hash (String.◌∷◌ c (String.◌∷◌ d s)) =
    if code c == 48 && code d == 120
    then formats.parse s
    else formats.parse (String.◌∷◌ c (String.◌∷◌ d s))

abbrev env : Env
env = record { fmt = fmt; parse_hash = read_hash; abi = abi; node = node; now_ms = 90_000 }

env-ReadsHashes : ReadsHashes env
env-ReadsHashes hash small = formats-IsDecimal.parse-show hash small

abbrev hash_text : String
hash_text = fmt.show_hash 170

-- Also a text without its prefix is read.
bare_read : env.parse_hash "0170" ≡ some 170
unfolding formats
bare_read = refl

abbrev tx_of : String → TxState → TxRecord
tx_of step state = record {
  step = step;
  nonce = 0;
  hash = hash_text;
  state = state;
  block_number = some 5;
  block_hash = some "0x37";
  gas_wei = none;
}

abbrev op_of : OperationSpec → TxRecord → Operation
op_of spec tx = record {
  id = "1-0";
  chain_id = chain;
  wallet = "0x9";
  created_at = 1_000;
  updated_at = 1_000;
  state = pending;
  spec = spec;
  txs = tx ∷ [];
}

abbrev buy : OperationSpec
buy = entry 7 8 "SYM" "Name" "1000"

abbrev landed_entry : Operation
landed_entry = op_of buy (tx_of "entry" confirmed)

abbrev world : List Position → World
world ps = record {
  operations = landed_entry ∷ [];
  positions = record { list = ps; dirty = none };
  report = no_report;
  saves = [];
}

-- The first save of each attempt fails: that of the positions, the first time.
abbrev try_entry : Attempt
try_entry = record {
  env = env;
  token = 7;
  curve = 8;
  symbol = "SYM";
  name = "Name";
  value = "1000";
  wallet = 9;
  op = landed_entry;
  saves = false ∷ [];
}

opened_one : length (the_positions (run attempt (try_entry ∷ try_entry ∷ []) (world []))) ≡ 1
unfolding run attempt recover_entry opened open_position eq_ignore_ascii_case parse_curve_buy_tokens
    parse_curve_refund record_event write_operation apply_event formats
opened_one = refl

attempts-open_once_example :
    length (the_positions (run attempt (try_entry ∷ try_entry ∷ []) (world []))) ≤ 0 + 1
attempts-open_once_example =
    attempts-open_once (hash_text ∷ []) (try_entry ∷ try_entry ∷ []) (world []) (
      (env-ReadsHashes, ((170, omega arith, refl), tt), refl),
      ((env-ReadsHashes, ((170, omega arith, refl), tt), refl), tt),
    )

abbrev held : Position
held = opened fmt (record {
  token = 7;
  curve = 8;
  symbol = "SYM";
  name = "Name";
  opened_at = 1;
  entry_tx = none;
  dry_run = false;
  entry_eth = 1000;
  entry_gas_wei = 0;
  tokens = 1000;
  chain_id = chain;
  wallet = some 9;
})

abbrev try_exit : ExitAttempt
try_exit = record {
  env = env;
  reason = "stop";
  token = 7;
  curve = 8;
  wallet = 9;
  op = op_of (exit held.id 7 8 "stop") (tx_of "curve_sell" confirmed);
  saves = false ∷ [];
}

booked_one :
    booked
      (the_positions (run (exit_attempt held.id) (try_exit ∷ try_exit ∷ []) (world (held ∷ []))))
    ≡ 1
unfolding run exit_attempt recover_exit opened apply_exit update_list update_with
    eq_ignore_ascii_case parse_curve_sell_fill record_event write_operation apply_event formats
booked_one = refl

exit_attempts-book_once_example :
    booked
      (the_positions (run (exit_attempt held.id) (try_exit ∷ try_exit ∷ []) (world (held ∷ []))))
    ≤ booked (held ∷ []) + 1
exit_attempts-book_once_example =
    exit_attempts-book_once (hash_text ∷ []) held.id (try_exit ∷ try_exit ∷ []) (world (held ∷ []))
      (
        (env-ReadsHashes, ((170, omega arith, refl), tt), refl),
        ((env-ReadsHashes, ((170, omega arith, refl), tt), refl), tt),
      )

abbrev open_entry : Operation
open_entry = op_of buy (tx_of "entry" prepared)

-- A node that does not have the transaction yet.
abbrev env_before : Env
env_before = record env { node = record node { receipt = λ h. none } }

abbrev world_before : World
world_before = record (world []) { operations = open_entry ∷ [] }

abbrev refreshed : World
refreshed = (refresh_receipts env_before open_entry 1 1 world_before).1

abbrev open_now : Operation
open_now = elim (find (has_id "1-0") refreshed.operations) [ some op ↦ op | none ↦ landed_entry ]

was_refreshed : refresh_receipts env_before open_entry 1 1 world_before ≡ (ok tt, refreshed)
unfolding refresh_receipts record_event write_operation apply_event eq_ignore_ascii_case formats
was_refreshed = refl

recover_operation-open_example :
    (recover_operation env_before 9 1 1 open_entry world_before).1.operations ≡ refreshed.operations
unfolding refresh_receipts record_event write_operation apply_event eq_ignore_ascii_case formats
recover_operation-open_example =
    recover_operation-open env_before 9 1 1 open_entry open_now world_before refreshed was_refreshed
      refl refl refl refl tt
