-- ===== src/Curve/Tests.antt =====
-- The curve and the opening tax on concrete numbers.
use bodkin.Prelude.{ℕ, ◌+◌, ◌-◌, ◌*◌, ◌≤◌, ◌<◌, ◌≡◌, refl, some, arith, true, false}
use bodkin.Curve.Quote.{
  CurveState, BuyQuote, default_state, amount_out, amount_in, ceil_div, effective_opening_bps,
  quote_buy, quote_sell, clamped_spend,
}
use bodkin.Curve.Exact.{IsSane, net_of}
use bodkin.Curve.Buy.{Quotes, quote_buy-Quotes, round_trip-loses}

abbrev curve : CurveState
curve = record default_state {
  quote_reserve = 10_000;
  token_reserve = 1_000_000;
  sellable_tokens = 800_000;
  creator_tax_bps = 100;
  opening_tax_bps = 19;
}

curve-IsSane : IsSane curve
curve-IsSane = record {
  quote_pos = omega arith;
  quote_bound = omega arith;
  token_bound = omega arith;
  sellable = omega arith;
  rates = omega arith;
}

abbrev small_buy : BuyQuote
small_buy = record {
  tokens_out = 89_170;
  spent = 1_000;
  refund = 0;
  total_input_bps = 219;
  clamped = false;
}

small_buy_quoted : quote_buy curve 1_000 ≡ some small_buy
unfolding quote_buy effective_opening_bps amount_out
small_buy_quoted = refl

-- A buy of more than the curve sells is clamped, and refunds the rest.
large_buy_clamped :
    quote_buy curve 100_000
    ≡ some (record {
      tokens_out = 800_000;
      spent = 40_897;
      refund = 59_103;
      total_input_bps = 219;
      clamped = true;
    })
unfolding quote_buy effective_opening_bps amount_out clamped_spend amount_in ceil_div
large_buy_clamped = refl

quote_buy-Quotes_example :
    (r : BuyQuote) × (quote_buy curve 100_000 ≡ some r) × Quotes curve 100_000 r
quote_buy-Quotes_example = quote_buy-Quotes curve 100_000 curve-IsSane (omega arith)

round_trip-loses_example :
    let t = record curve {
      quote_reserve = curve.quote_reserve + net_of curve 1_000;
      token_reserve = curve.token_reserve - small_buy.tokens_out;
    } in
    (curve.quote_reserve * curve.token_reserve ≤ t.quote_reserve * t.token_reserve)
    × (small_buy.tokens_out < curve.token_reserve)
    × ((back : ℕ) × (quote_sell t small_buy.tokens_out ≡ some back) × (back ≤ 1_000))
round_trip-loses_example =
    round_trip-loses curve 1_000 small_buy curve-IsSane (omega arith) (omega arith) small_buy_quoted
      refl
