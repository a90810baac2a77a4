-- ===== src/Curve/Buy.antt =====
-- The quote of a buy: how the input is split, what it buys, and that a clamped fill is paid for.
use native.Mathlib.Nat.{mul-le-mul_left, mul-add, div-mul-le_self}
use bodkin.Prelude.{
  ℕ, ◌+◌, ◌-◌, ◌*◌, ◌/◌, ◌≤◌, ◌<◌, ◌≡◌, refl, ap, sym, ◌∙◌, subst, inl, inr, true, false, Option,
  some, arith, ltb, Bool-cases, if◌then◌else◌,
}
use bodkin.Prelude.U256
use bodkin.Curve.Quote.{
  CurveState, BuyQuote, bps, effective_opening_bps, amount_out, quote_buy, quote_sell,
}
use bodkin.Curve.Exact.{
  amount_bound, IsSane, amount_out_exact, opening, effective_opening_bps_exact, net_of,
  net_of_bounds, net_input_exact, share-exact,
}
use bodkin.Curve.Fair.{
  tokens_for, amount_in-covers, grossed, clamped_spend_exact, grossed-covers, product-grows,
  back-and-forth, tokens-left,
}

-- A buy that the curve can fill, or one that takes all that it still sells.
pub data Fill (s : CurveState) (q : ℕ) (r : BuyQuote) : Type 0 where
  whole : r.clamped ≡ false → r.spent ≡ q → r.tokens_out ≡ tokens_for s (net_of s q) → Fill s q r
  rest :
      r.clamped ≡ true
      → r.tokens_out ≡ s.sellable_tokens
      → s.sellable_tokens < tokens_for s (net_of s q)
      → s.sellable_tokens ≤ tokens_for s (net_of s r.spent)
      → Fill s q r

pub record Quotes (s : CurveState) (q : ℕ) (r : BuyQuote) : Type 0 where
  pub conserved : r.spent + r.refund ≡ q
  pub sellable : r.tokens_out ≤ s.sellable_tokens
  pub rates : r.total_input_bps ≤ 9_900
  pub fill : Fill s q r

module _ (s : CurveState) (q : ℕ) (h : IsSane s) (hq : q < amount_bound) where
  rates_exact :
      U256.add (U256.add s.fee_bps s.creator_tax_bps) (effective_opening_bps s)
      ≡ s.fee_bps + s.creator_tax_bps + opening s
  rates_exact = rw (effective_opening_bps_exact s h) (omega (arith, h.rates))

  bought_exact :
      amount_out (net_of s q) s.quote_reserve s.token_reserve ≡ some (tokens_for s (net_of s q))
  bought_exact =
      amount_out_exact (net_of s q) s.quote_reserve s.token_reserve
        (omega (arith, (net_of_bounds s q h).0)) h.token_bound h.quote_pos h.quote_bound

  spend : ℕ
  spend = if ltb (grossed s h) q then grossed s h else q

  refund_exact : U256.sub q q ≡ 0
  refund_exact = omega arith

  clamped_quote : BuyQuote
  clamped_quote = record {
    tokens_out = s.sellable_tokens;
    spent = spend;
    refund = q - spend;
    total_input_bps = s.fee_bps + s.creator_tax_bps + opening s;
    clamped = true;
  }

  whole_quote : BuyQuote
  whole_quote = record {
    tokens_out = tokens_for s (net_of s q);
    spent = q;
    refund = 0;
    total_input_bps = s.fee_bps + s.creator_tax_bps + opening s;
    clamped = false;
  }

  spend-le : spend ≤ q
  unfolding spend
  spend-le = ground arith

  refund_clamped : U256.sub q spend ≡ q - spend
  refund_clamped = omega (arith, spend-le)

  clamped_lem : s.sellable_tokens < tokens_for s (net_of s q) → quote_buy s q ≡ some clamped_quote
  unfolding quote_buy clamped_quote spend
  clamped_lem over = rw (net_input_exact s q h hq) (
      rw bought_exact (
        rw (effective_opening_bps_exact s h)
          (rw (clamped_spend_exact s h q) (ground (arith, rates_exact, refund_clamped)))))

  whole_lem : tokens_for s (net_of s q) ≤ s.sellable_tokens → quote_buy s q ≡ some whole_quote
  unfolding quote_buy whole_quote
  whole_lem under =
      rw (net_input_exact s q h hq) (rw bought_exact (ground (arith, rates_exact, refund_exact)))

  clamped-covered :
      s.sellable_tokens < tokens_for s (net_of s q)
      → s.sellable_tokens ≤ tokens_for s (net_of s spend)
  unfolding spend
  clamped-covered over = elim (Bool-cases (ltb (grossed s h) q)) [
    | inl less ↦ rw less (
        amount_in-covers s.sellable_tokens s.quote_reserve s.token_reserve (net_of s (grossed s h))
          h.quote_pos h.sellable (grossed-covers s h))
    | inr all ↦ rw all (omega (arith, over))
  ]

  -- On a curve within the bounds a quote is always given. Spend and refund add up to the input, at
  -- most the sellable tokens are bought, and the rates leave one per cent. Either the whole input is
  -- spent and its net part buys tokens at the curve's formula, or the fill is clamped: it is all the
  -- sellable tokens, fewer than the input would buy, and the net part of the smaller spend buys them.
  pub quote_buy-Quotes : (r : BuyQuote) × (quote_buy s q ≡ some r) × Quotes s q r
  unfolding clamped_quote whole_quote
  quote_buy-Quotes = elim (Bool-cases (ltb s.sellable_tokens (tokens_for s (net_of s q)))) [
    | inl over ↦ (
      clamped_quote,
      clamped_lem (ground arith),
      record {
        conserved = omega (arith, spend-le);
        sellable = omega arith;
        rates = omega (arith, h.rates);
        fill = rest refl refl (ground arith) (clamped-covered (ground arith));
      },
    )
    | inr under ↦ (
      whole_quote,
      whole_lem (ground arith),
      record {
        conserved = omega arith;
        sellable = ground arith;
        rates = omega (arith, h.rates);
        fill = whole refl refl refl;
      },
    )
  ]

quote_sell_exact :
    (s : CurveState) (x gross : ℕ)
    → s.fee_bps + s.creator_tax_bps ≤ bps
    → gross < amount_bound
    → amount_out x s.token_reserve s.quote_reserve ≡ some gross
    → (back : ℕ) × (quote_sell s x ≡ some back) × (back ≤ gross)
unfolding quote_sell
quote_sell_exact s x gross rates small e =
    let (f, f_le) = share-exact gross s.fee_bps (omega arith) (omega arith) in
    let (t, t_le) = share-exact gross s.creator_tax_bps (omega arith) (omega arith) in
    let fee = gross * s.fee_bps / bps in
    let tax = gross * s.creator_tax_bps / bps in
    let both : gross * (s.fee_bps + s.creator_tax_bps) ≤ gross * bps =
      mul-le-mul_left gross rates in
    let split = mul-add gross s.fee_bps s.creator_tax_bps in
    let subtract : U256.sub (U256.sub gross fee) tax ≡ gross - fee - tax =
      omega (arith, f_le, t_le, both, split) in
    (gross - fee - tax, rw (e, f, t) (ap some subtract), omega arith)

whole_tokens :
    (s : CurveState) (q : ℕ) (r : BuyQuote)
    → Fill s q r
    → r.clamped ≡ false
    → r.tokens_out ≡ tokens_for s (net_of s q)
whole_tokens s q r (whole c e t) u = t
whole_tokens s q r (rest c t over covered) u = cc

same_quote : (r r' : BuyQuote) → ◌≡◌ {A = Option BuyQuote} (some r) (some r') → r ≡ r'
same_quote r r' h = cc

quoted_tokens :
    (s : CurveState) (q : ℕ) (r : BuyQuote)
    → IsSane s
    → q < amount_bound
    → quote_buy s q ≡ some r
    → r.clamped ≡ false
    → r.tokens_out ≡ tokens_for s (net_of s q)
quoted_tokens s q r h hq e u =
    let (r', e', v) = quote_buy-Quotes s q h hq in
    let same = same_quote r' r (sym e' ∙ e) in
    whole_tokens s q r (subst (λ z. Fill s q z) same v.fill) u

-- On a curve within the bounds, with an input below the bound both alone and added to the quote
-- reserve, an unclamped fill moves the curve up: with the net input added and the tokens gone, the
-- product of the reserves is no smaller, and the tokens do not exhaust the reserve. Whoever sells
-- the tokens straight back on that curve is quoted no more than the input.
pub round_trip-loses :
    (s : CurveState) (q : ℕ) (r : BuyQuote)
    → IsSane s
    → q < amount_bound
    → s.quote_reserve + q < amount_bound
    → quote_buy s q ≡ some r
    → r.clamped ≡ false
    → let t = record s {
      quote_reserve = s.quote_reserve + net_of s q;
      token_reserve = s.token_reserve - r.tokens_out;
    } in
      (s.quote_reserve * s.token_reserve ≤ t.quote_reserve * t.token_reserve)
      × (r.tokens_out < s.token_reserve)
      × ((back : ℕ) × (quote_sell t r.tokens_out ≡ some back) × (back ≤ q))
round_trip-loses s q r h hq room quoted unclamped =
    let net = net_of s q in
    let sums = (net_of_bounds s q h).0 in
    let out = tokens_for s net in
    let tokens = quoted_tokens s q r h hq quoted unclamped in
    let floor : out * (s.quote_reserve + net) ≤ net * s.token_reserve =
      div-mul-le_self (net * s.token_reserve) (s.quote_reserve + net) in
    let some_left : out < s.token_reserve =
      tokens-left s.quote_reserve net s.token_reserve h.quote_pos (omega (arith, h.sellable)) in
    let after = record s {
      quote_reserve = s.quote_reserve + net;
      token_reserve = s.token_reserve - out;
    } in
    let gross = out * (s.quote_reserve + net) / ((s.token_reserve - out) + out) in
    let no_gain : gross ≤ net =
      back-and-forth net s.quote_reserve s.token_reserve h.quote_pos (omega (arith, h.sellable)) in
    let quote : amount_out out after.token_reserve after.quote_reserve ≡ some gross =
      amount_out_exact out after.token_reserve after.quote_reserve
        (omega (arith, some_left, h.token_bound)) (omega (arith, sums)) (omega (arith, some_left))
        (omega (arith, h.token_bound)) in
    let (back, sold, small) =
      quote_sell_exact after out gross (omega (arith, h.rates)) (omega (arith, no_gain, sums))
        quote in
    rw tokens (
      product-grows net s.quote_reserve s.token_reserve h.quote_pos,
      some_left,
      (back, sold, omega (arith, small, no_gain, sums)),
    )
