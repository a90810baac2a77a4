-- ===== src/Positions/Store.antt =====
-- trade/positions.rs: `PositionStore`, less its database and its export.
use bodkin.Prelude.{
  ℕ, ◌-◌, leb, Bool, true, false, not, ◌&&◌, ◌||◌, Option, none, some, List, [], ◌∷◌, ◌++◌, String,
  if◌then◌else◌, ◌==◌,
}
use bodkin.Prelude.Text.{is_empty_text, eq_ignore_ascii_case}
use Prim.Native.String
use text.Mathlib.Text.{◌==◌ as str_eq}
use bodkin.Positions.Record.{Formats, Position}
use bodkin.Positions.Exits.{show_tx}

-- `CHAIN_ID` of chain.rs.
abbrev pub chain_id : ℕ
chain_id = 4663

-- The arguments of `open_position`; `show_id` is `format!("{:#x}-{opened_at}", token)`.
pub record Opening : Type 0 where
  pub token : ℕ
  pub curve : ℕ
  pub symbol : String
  pub name : String
  pub opened_at : ℕ
  pub entry_tx : Option ℕ
  pub dry_run : Bool
  pub entry_eth : ℕ
  pub entry_gas_wei : ℕ
  pub tokens : ℕ
  pub chain_id : ℕ
  pub wallet : Option ℕ

abbrev pub or_empty : Option String → String
or_empty none = ""
or_empty (some s) = s

unfoldable pub opened : Formats → Opening → Position
opened fmt o = record {
  id = String.◌++◌ (fmt.show_hash o.token) (String.◌++◌ "-" (fmt.show o.opened_at));
  token = o.token;
  curve = o.curve;
  symbol = o.symbol;
  name = o.name;
  opened_at = o.opened_at;
  entry_tx = show_tx fmt o.entry_tx;
  dry_run = o.dry_run;
  chain_id = o.chain_id;
  wallet = or_empty (show_tx fmt o.wallet);
  entry_eth = fmt.show o.entry_eth;
  entry_gas_wei = some (fmt.show o.entry_gas_wei);
  basis_gas_wei = some (fmt.show o.entry_gas_wei);
  overhead_gas_wei = some (fmt.show 0);
  overhead_operations = [];
  tokens = fmt.show o.tokens;
  basis_eth = some (fmt.show o.entry_eth);
  peak_eth = fmt.show o.entry_eth;
  last_eth = fmt.show o.entry_eth;
  last_at = o.opened_at;
  status = "open";
  exits = [];
}

-- The list and, from the first change that is not yet written, its instant.
pub record PositionStore : Type 0 where
  pub list : List Position
  pub dirty : Option ℕ

-- `get_or_insert_with(Instant::now)`
abbrev pub mark_dirty : ℕ → Option ℕ → Option ℕ
mark_dirty now none = some now
mark_dirty now (some t) = some t

unfoldable pub open_position : Formats → ℕ → Opening → PositionStore → Position × PositionStore
unfolding opened
open_position fmt now o store =
    let p = opened fmt o in
    (p, record { list = store.list ++ p ∷ []; dirty = mark_dirty now store.dirty })

abbrev pub filter : (Position → Bool) → List Position → List Position
filter keep [] = []
filter keep (p ∷ ps) = if keep p then p ∷ filter keep ps else filter keep ps

unfoldable pub open_positions : PositionStore → List Position
open_positions store = filter (λ p. str_eq p.status "open") store.list

abbrev pub is_own_wallet : Formats → Option ℕ → Position → Bool
is_own_wallet fmt none p = false
is_own_wallet fmt (some w) p =
    not (is_empty_text p.wallet) && eq_ignore_ascii_case p.wallet (fmt.show_hash w)

-- The filter of `open_positions_for`.
unfoldable pub is_owned : Formats → Bool → Option ℕ → Position → Bool
is_owned fmt dry_run wallet p =
    if not (same p.dry_run dry_run)
    then false
    else if dry_run
    then p.chain_id == 0 || p.chain_id == chain_id
    else p.chain_id == chain_id && is_own_wallet fmt wallet p
  where
    same : Bool → Bool → Bool
    same true b = b
    same false b = not b

unfoldable pub open_positions_for : Formats → Bool → Option ℕ → PositionStore → List Position
unfolding open_positions is_owned
open_positions_for fmt dry_run wallet store =
    filter (is_owned fmt dry_run wallet) (open_positions store)

-- `find` and the write through what it found.
unfoldable pub update_list {ℓ} :
    {R : Type ℓ}
    → String
    → (Position → Position × R)
    → List Position
    → Option ((Position × R) × List Position)
update_list id f [] = none
update_list id f (p ∷ ps) =
    let rest = update_list id f ps in
    if str_eq p.id id
    then some (f p, (f p).0 ∷ ps)
    else elim rest [ none ↦ none | some (found, after) ↦ some (found, p ∷ after) ]

-- `update_with`: nothing happens to the store where no position has the id.
unfoldable pub update_with {ℓ} :
    {R : Type ℓ}
    → ℕ
    → String
    → (Position → Position × R)
    → PositionStore
    → Option (Position × R) × PositionStore
unfolding update_list
update_with now id f store = elim (update_list id f store.list) [
  | none ↦ (none, store)
  | some (found, after) ↦ (some found, record { list = after; dirty = mark_dirty now store.dirty })
]

-- `update`
unfoldable pub update :
    ℕ → String → (Position → Position) → PositionStore → Option Position × PositionStore
unfolding update_with
update now id f store =
    let (answer, after) = update_with {0} now id (λ p. (f p, tt)) store in
    (elim answer [ none ↦ none | some (p, r) ↦ some p ], after)

-- `flush`: what is handed to the database, which says whether it was saved.
abbrev pub flush : Bool → PositionStore → Option (List Position) × PositionStore
flush saved store = (some store.list, if saved then record store { dirty = none } else store)

-- `flush_if_due`, 250 ms after the first change.
unfoldable pub flush_if_due : ℕ → Bool → PositionStore → Option (List Position) × PositionStore
flush_if_due now saved store = elim (store.dirty) [
  | none ↦ (none, store)
  | some t ↦ if leb 250 (now - t) then flush saved store else (none, store)
]
