-- ===== src/Positions/Tests.antt =====
-- Positions on concrete numbers.
use bodkin.Prelude.{
  ℕ, ◌+◌, ◌≡◌, ◌⊎◌, refl, true, false, Option, none, some, List, [], ◌∷◌, String, ◌==◌, arith,
}
use bodkin.Prelude.Int.{pos}
use text.Mathlib.Text.{◌==◌ as str_eq}
use bodkin.Prelude.Text.{eq_ignore_ascii_case}
use bodkin.Positions.Record.{
  Position, AppliedExit, basis, gas_basis, held, signed_wei, realized_pnl_wei,
}
use bodkin.Positions.Exits.{Sell, apply_exit, apply_exits}
use bodkin.Positions.Conserve.{total, apply_exits-conserve}
use bodkin.Positions.Realized.{brought, realized_pnl_wei-exits}
use bodkin.Positions.Store.{Opening, PositionStore, opened, open_positions_for}
use bodkin.Positions.Rules.{ExitLadder, ExitAction, hit}
use bodkin.Positions.Ladder.{ladder_once}
use bodkin.Positions.Whole.{whole}
use bodkin.Positions.Decimal.{formats, formats-IsDecimal}

abbrev opening : Opening
opening = record {
  token = 7;
  curve = 8;
  symbol = "TOK";
  name = "Token";
  opened_at = 100;
  entry_tx = some 9;
  dry_run = false;
  entry_eth = 600;
  entry_gas_wei = 30;
  tokens = 1000;
  chain_id = 4663;
  wallet = some 5;
}

abbrev sell_of : ℕ → ℕ → Sell
sell_of tokens eth = record {
  tokens_sold = tokens;
  eth_out = eth;
  exit_gas = 2;
  reason = "ladder +50%";
  tx = none;
  dry_run = false;
  at = 101;
}

-- A part, then more than there is, then nothing that is left.
abbrev sells : List Sell
sells = sell_of 400 300 ∷ sell_of 5000 500 ∷ sell_of 1 1 ∷ []

abbrev position : Position
position = opened formats opening

apply_exits-conserve_example :
    (q : Position) × (done : List AppliedExit) × (apply_exits formats sells position
      ≡ some (q, done))
    × (held formats q + total (λ a. a.tokens_sold) done ≡ held formats position)
    × (basis formats q + total (λ a. a.basis_sold) done ≡ basis formats position)
    × (gas_basis formats q + total (λ a. a.entry_gas_sold) done ≡ gas_basis formats position)
    × (((held formats position == 0) ≡ false) ⊎ (q.status ≡ position.status))
    × (((held formats position == 0) ≡ true)
        ⊎ ((held formats q == 0) ≡ false)
        ⊎ ((basis formats q ≡ 0) × (gas_basis formats q ≡ 0) × (q.status ≡ "closed")))
apply_exits-conserve_example = apply_exits-conserve formats formats-IsDecimal sells position

-- 300 and 500 came in, and all of the 600 went out with them.
realized_after :
    (elim (apply_exits formats sells position) as (λ _. Option String) [
      | none ↦ none
      | some (q, done) ↦ realized_pnl_wei formats q
    ])
    ≡ some (formats.show 200)
unfolding apply_exits realized_pnl_wei opened formats
realized_after = refl

realized_pnl_wei-exits_example :
    (q : Position) × (done : List AppliedExit) × (apply_exits formats sells (opened formats opening)
      ≡ some (q, done))
    × (realized_pnl_wei formats q
        ≡ some (signed_wei formats (brought sells done) (total (λ a. a.basis_sold) done)))
realized_pnl_wei-exits_example =
    realized_pnl_wei-exits formats formats-IsDecimal opening sells (omega arith) (omega arith)

abbrev store : PositionStore
store = record { list = position ∷ []; dirty = none }

store_owned : open_positions_for formats false (some 5) store ≡ position ∷ []
unfolding open_positions_for opened formats eq_ignore_ascii_case
store_owned = refl

abbrev ladder : ExitLadder
ladder = record { rungs = (34, pos 100) ∷ (33, pos 300) ∷ [] }

abbrev first_hit : ExitAction
first_hit = record { fraction_bps = 3400; reason = "ladder +100%" }

abbrev second_hit : ExitAction
second_hit = record { fraction_bps = 3300; reason = "ladder +300%" }

abbrev ladder_sell : Sell
ladder_sell = record (sell_of 340 408) { reason = "ladder +100%" }

abbrev after_first : Position × AppliedExit
after_first = elim (apply_exit formats ladder_sell position) [
  | some done ↦ done
  | none ↦ (
    position,
    record {
      tokens_sold = 0;
      basis_sold = 0;
      entry_gas_sold = 0;
      exit_gas = 0;
      remaining = 0;
      closed = false;
      realized = "";
      net_realized = "";
    },
  )
]

first_fires : hit whole formats ladder position 1200 ≡ some first_hit
unfolding hit opened formats
first_fires = refl

-- A stop in between, by other means.
abbrev after_stop : Position × List AppliedExit
after_stop = elim (apply_exits formats (sell_of 100 90 ∷ []) after_first.0) [
  | some done ↦ done
  | none ↦ (position, [])
]

second_fires : hit whole formats ladder after_stop.0 9000 ≡ some second_hit
unfolding hit opened formats apply_exit apply_exits
second_fires = refl

ladder_once_example : str_eq second_hit.reason first_hit.reason ≡ false
unfolding apply_exit apply_exits opened formats
ladder_once_example =
    ladder_once whole formats formats-IsDecimal ladder ladder_sell position after_first.0
      after_first.1 (sell_of 100 90 ∷ []) after_stop.0 after_stop.1 1200 9000 first_hit second_hit
      first_fires refl refl refl refl second_fires
