-- ===== src/Curve/Quote.antt =====
-- pons/curve.rs: pricing on the bonding curve, over 256-bit words. The operators `+`, `-` and `*` of
-- `U256` wrap, and a division by zero panics: `none`.
use bodkin.Prelude.U256
use bodkin.Prelude.{
  ◌>>=◌, ℕ, ◌+◌, ◌-◌, ◌/◌, ◌%◌, Bool, true, false, Option, some, ltb, ◌==◌, if◌then◌else◌, u64_mod,
}

-- `BPS` of chain.rs.
abbrev pub bps : ℕ
bps = 10_000

pub record CurveState : Type 0 where
  pub quote_reserve : ℕ
  pub token_reserve : ℕ
  pub real_quote_reserve : ℕ
  pub sellable_tokens : ℕ
  pub reserved_tokens : ℕ
  pub graduation_threshold : ℕ
  pub fee_bps : ℕ
  pub creator_tax_bps : ℕ
  pub opening_tax_bps : ℕ
  pub graduated : Bool
  pub ready_to_graduate : Bool
  pub launched_at : ℕ
  pub read_at_ms : ℕ
  pub read_block : ℕ
  pub read_chain_ts : ℕ
  pub snipe_tax_start_bps : ℕ
  pub snipe_tax_seconds : ℕ

-- `CurveState::default`
abbrev pub default_state : CurveState
default_state = record {
  quote_reserve = 0;
  token_reserve = 0;
  real_quote_reserve = 0;
  sellable_tokens = 0;
  reserved_tokens = 0;
  graduation_threshold = 0;
  fee_bps = 100;
  creator_tax_bps = 0;
  opening_tax_bps = 0;
  graduated = false;
  ready_to_graduate = false;
  launched_at = 0;
  read_at_ms = 0;
  read_block = 0;
  read_chain_ts = 0;
  snipe_tax_start_bps = 9900;
  snipe_tax_seconds = 3;
}

unfoldable pub amount_out : ℕ → ℕ → ℕ → Option ℕ
amount_out in_amount reserve_in reserve_out =
    U256.div (U256.mul in_amount reserve_out) (U256.add reserve_in in_amount)

unfoldable pub amount_in : ℕ → ℕ → ℕ → Option ℕ
amount_in out_amount reserve_in reserve_out =
    U256.div (U256.mul out_amount reserve_in) (U256.sub reserve_out out_amount) >>= λ q.
    some (U256.add q 1)

unfoldable pub ceil_div : ℕ → ℕ → Option ℕ
ceil_div a b = U256.div (U256.sub (U256.add a b) 1) b

-- `value * rate / BPS`
abbrev pub share : ℕ → ℕ → ℕ
share value rate = U256.mul value rate / bps

-- `BPS - fee_bps - creator_tax_bps`
abbrev pub input_share : CurveState → ℕ
input_share s = U256.sub (U256.sub bps s.fee_bps) s.creator_tax_bps

unfoldable pub effective_opening_bps : CurveState → ℕ
effective_opening_bps s =
    if s.opening_tax_bps == 0
    then 0
    else (let most = U256.sub (input_share s) 100 in
        if ltb most s.opening_tax_bps then most else s.opening_tax_bps)

unfoldable pub with_entry_tax : CurveState → ℕ → CurveState
with_entry_tax s entry_tax_bps = record s { opening_tax_bps = entry_tax_bps }

pub record BuyQuote : Type 0 where
  pub tokens_out : ℕ
  pub spent : ℕ
  pub refund : ℕ
  pub total_input_bps : ℕ
  pub clamped : Bool

-- The spend of a buy that would take more than the curve sells.
unfoldable pub clamped_spend : CurveState → ℕ → ℕ → Option ℕ
clamped_spend s open_bps quote_in =
    amount_in s.sellable_tokens s.quote_reserve s.token_reserve >>= λ net.
    ceil_div (U256.mul net bps) (U256.sub (input_share s) open_bps) >>= λ grossed.
    some (if ltb grossed quote_in then grossed else quote_in)

-- What is left of an input after the fee, the creator's tax and the opening tax.
abbrev pub net_input : CurveState → ℕ → ℕ → ℕ
net_input s open_bps quote_in =
    U256.sub
      (U256.sub (U256.sub quote_in (share quote_in s.fee_bps)) (share quote_in s.creator_tax_bps))
      (share quote_in open_bps)

unfoldable pub quote_buy : CurveState → ℕ → Option BuyQuote
quote_buy s quote_in =
    let open_bps = effective_opening_bps s in
    let total = U256.add (U256.add s.fee_bps s.creator_tax_bps) open_bps in
    amount_out (net_input s open_bps quote_in) s.quote_reserve s.token_reserve >>= λ tokens_out.
    if ltb s.sellable_tokens tokens_out
    then (clamped_spend s open_bps quote_in >>= λ spent. some (record {
      tokens_out = s.sellable_tokens;
      spent = spent;
      refund = U256.sub quote_in spent;
      total_input_bps = total;
      clamped = true;
    }))
    else some (record {
      tokens_out = tokens_out;
      spent = quote_in;
      refund = U256.sub quote_in quote_in;
      total_input_bps = total;
      clamped = false;
    })

unfoldable pub quote_sell : CurveState → ℕ → Option ℕ
quote_sell s tokens_in = amount_out tokens_in s.token_reserve s.quote_reserve >>= λ gross.
    some (U256.sub (U256.sub gross (share gross s.fee_bps)) (share gross s.creator_tax_bps))

-- `BPS - slippage_bps` is on `u64`, whose `-` wraps in a release build.
unfoldable pub min_out_from_rate : ℕ → ℕ → ℕ
min_out_from_rate quote slippage_bps =
    U256.mul quote ((bps + u64_mod - slippage_bps) % u64_mod) / bps

-- `U256::saturating_sub` is `-` on the native numbers.
abbrev pub after_siblings : CurveState → BuyQuote → CurveState
after_siblings s q = record s {
  quote_reserve = U256.add s.quote_reserve (
      U256.sub q.spent (
        share q.spent (U256.add (U256.add s.fee_bps s.creator_tax_bps) (effective_opening_bps s))));
  token_reserve = s.token_reserve - q.tokens_out;
  sellable_tokens = s.sellable_tokens - q.tokens_out;
}

unfoldable pub min_out_as_last_in_block : CurveState → ℕ → ℕ → ℕ → Option ℕ
unfolding min_out_from_rate
min_out_as_last_in_block s our_quote sibling_quote slippage_bps = quote_buy s sibling_quote >>= λ q.
    quote_buy (after_siblings s q) our_quote >>= λ ours.
    some (min_out_from_rate ours.tokens_out slippage_bps)
