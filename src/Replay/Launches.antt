-- ===== src/Replay/Launches.antt =====
-- replay.rs: `replay`, `state_before` and `quoted_entry`.
use bodkin.Prelude.{
  ◌>>=◌, ℕ, ◌+◌, Bool, true, not, ◌&&◌, Option, none, some, List, [], ◌∷◌, ltb, leb, if◌then◌else◌,
  u64_mod, checked_add, checked_sub,
}
use bodkin.Prelude.Int.{ℤ}
use bodkin.Curve.Tax.{snipe_tax_bps}
use bodkin.Curve.Quote.{CurveState, BuyQuote, quote_buy}
use bodkin.Flow.Keys.{EventKey, key_lt}
use bodkin.Flow.Tracker.{FlowEvent, buy, sell, snipe_tax, completed, FlowRecord}

pub record ReplayIntel : Type 0 where
  pub score_total : ℤ
  pub fire : Bool

-- `ReplayLaunch`, the fields that are read.
pub record ReplayLaunch : Type 0 where
  pub launched_at : ℕ
  pub start_bps : ℕ
  pub window : ℕ
  pub taxed_buyers_s1 : ℕ
  pub exempt_buys_s0 : ℕ
  pub gate_observed : Bool
  pub graduated : Bool
  pub outcome_observed : Bool
  pub provenance_complete : Bool
  pub curve_state : Option CurveState
  pub flow : List FlowRecord
  pub intel : Option ReplayIntel

pub record ReplayAlt : Type 0 where
  pub entry_second : ℕ
  pub min_taxed_s1 : ℕ

abbrev pub event_timestamp : FlowEvent → ℕ
event_timestamp (buy recipient quote_in tokens_out fee tax timestamp hash) = timestamp
event_timestamp (sell seller recipient tokens_in quote_out fee tax timestamp) = timestamp
event_timestamp (snipe_tax hash recipient amount timestamp) = timestamp
event_timestamp (completed timestamp) = timestamp

-- One record on the reserves.
unfoldable pub apply_record : FlowEvent → CurveState → Option CurveState
apply_record (buy recipient quote_in tokens_out fee tax timestamp hash) s = do
  gross ← checked_sub quote_in fee
  net ← checked_sub gross tax
  quote_reserve ← checked_add s.quote_reserve net
  real_quote_reserve ← checked_add s.real_quote_reserve net
  token_reserve ← checked_sub s.token_reserve tokens_out
  sellable_tokens ← checked_sub s.sellable_tokens tokens_out
  some (record s {
    quote_reserve = quote_reserve;
    real_quote_reserve = real_quote_reserve;
    token_reserve = token_reserve;
    sellable_tokens = sellable_tokens;
  })
apply_record (sell seller recipient tokens_in quote_out fee tax timestamp) s = do
  with_fee ← checked_add quote_out fee
  gross ← checked_add with_fee tax
  quote_reserve ← checked_sub s.quote_reserve gross
  real_quote_reserve ← checked_sub s.real_quote_reserve gross
  token_reserve ← checked_add s.token_reserve tokens_in
  sellable_tokens ← checked_add s.sellable_tokens tokens_in
  some (record s {
    quote_reserve = quote_reserve;
    real_quote_reserve = real_quote_reserve;
    token_reserve = token_reserve;
    sellable_tokens = sellable_tokens;
  })
apply_record (completed timestamp) s = some (record s { ready_to_graduate = true })
apply_record (snipe_tax hash recipient amount timestamp) s = some s

unfoldable pub apply_records : List FlowRecord → CurveState → Option CurveState
unfolding apply_record
apply_records [] s = some s
apply_records (r ∷ rs) s = apply_record r.event s >>= apply_records rs

abbrev key_of : FlowRecord → EventKey
key_of r = record {
  block_number = r.block_number;
  transaction_index = r.transaction_index;
  log_index = r.log_index;
  transaction_hash = r.transaction_hash;
}

abbrev insert_sorted : FlowRecord → List FlowRecord → List FlowRecord
insert_sorted r [] = r ∷ []
insert_sorted r (q ∷ qs) =
    let rest = insert_sorted r qs in if key_lt (key_of q) (key_of r) then q ∷ rest else r ∷ q ∷ qs

-- `sort_by_key`, which is stable.
unfoldable pub sort_records : List FlowRecord → List FlowRecord
unfolding key_lt
sort_records [] = []
sort_records (r ∷ rs) = insert_sorted r (sort_records rs)

abbrev pub select : (FlowRecord → Bool) → List FlowRecord → List FlowRecord
select keep [] = []
select keep (r ∷ rs) = if keep r then r ∷ select keep rs else select keep rs

-- A record after the state was read and before the entry second.
abbrev pub is_between : CurveState → ℕ → FlowRecord → Bool
is_between s target r = ltb s.read_block r.block_number && ltb (event_timestamp r.event) target

-- `checked_add` on a `u64`.
abbrev pub add_seconds : ℕ → ℕ → Option ℕ
add_seconds a b = if ltb (a + b) u64_mod then some (a + b) else none

-- The state that was read, moved to the entry second.
unfoldable pub state_at : List FlowRecord → (target : ℕ) → CurveState → Option CurveState
unfolding apply_records sort_records
state_at flow target s =
    if leb target s.read_chain_ts
    then none
    else apply_records (sort_records (select (is_between s target) flow)) s

unfoldable pub state_before : ReplayLaunch → ℕ → Option CurveState
unfolding state_at
state_before l entry_second = if not l.provenance_complete then none else (do
  s ← l.curve_state
  target ← add_seconds l.launched_at entry_second
  state_at l.flow target s)

-- What a replay buys: nothing, a quote, or the panic of `quote_buy`.
pub data Entry : Type 0 where
  unmeasured : Entry
  quoted : BuyQuote → Entry
  panicked : Entry

abbrev entry_of : Option BuyQuote → Entry
entry_of none = panicked
entry_of (some q) = quoted q

abbrev quoted_at : (l : ReplayLaunch) (eth_per_buy entry_second : ℕ) → Option CurveState → Entry
quoted_at l eth_per_buy entry_second none = unmeasured
quoted_at l eth_per_buy entry_second (some s) = entry_of (
    quote_buy (record s { opening_tax_bps = snipe_tax_bps l.start_bps l.window entry_second })
      eth_per_buy)

unfoldable pub quoted_entry : ReplayLaunch → (eth_per_buy entry_second : ℕ) → Entry
unfolding state_before quote_buy snipe_tax_bps
quoted_entry l eth_per_buy entry_second =
    quoted_at l eth_per_buy entry_second (state_before l entry_second)
