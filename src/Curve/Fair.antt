-- ===== src/Curve/Fair.antt =====
-- What the quotes promise: the split of the input, the constant product, and rounding that never
-- pays a trader for going back and forth.
use native.Mathlib.Nat.{
  div-lt_iff_lt-mul, mul-lt-mul_of_pos_left, mul-le-mul_left, div-mul-le_self, div-le_self,
  div-le_of_le-mul, le-div_iff_mul-le, lt-mul-div-succ, mul-add, add-mul, mul_comm, mod-eq_of_lt,
}
use bodkin.Prelude.U256
use bodkin.Prelude.{
  ℕ, ◌+◌, ◌-◌, ◌*◌, ◌/◌, ◌%◌, ◌^◌, ◌≤◌, ◌<◌, ◌≡◌, refl, ap, sym, ◌∙◌, some, arith, ltb,
  if◌then◌else◌, u256_mod,
}
use bodkin.Curve.Quote.{CurveState, bps, ceil_div, clamped_spend, input_share}
use bodkin.Curve.Exact.{mul-bound, IsSane, amount_in_exact, opening, net_of, net_of_bounds}

-- The tokens for a net input, before the clamp.
abbrev pub tokens_for : CurveState → ℕ → ℕ
tokens_for s net = net * s.token_reserve / (s.quote_reserve + net)

-- An input that covers `amount_in` of some tokens gets them.
pub amount_in-covers : (o i r x : ℕ) → 0 < i → o < r → o * i / (r - o) + 1 ≤ x → o ≤ x * r / (i + x)
amount_in-covers o i r x pos lt h =
    let up : o * i < (r - o) * (o * i / (r - o) + 1) = lt-mul-div-succ (o * i) (omega arith) in
    let more : (r - o) * (o * i / (r - o) + 1) ≤ (r - o) * x = mul-le-mul_left (r - o) h in
    let split : (r - o) * x + o * x ≡ r * x =
      sym (add-mul (r - o) o x) ∙ ap (λ (t : ℕ). t * x) (omega arith) in
    (le-div_iff_mul-le (omega arith)).1
      (omega (arith, up, more, split, mul-add o i x, mul_comm r x))

-- The product of the reserves after `out` tokens leave for a net input is no smaller.
pub product-grows : (net r o : ℕ) → 0 < r → r * o ≤ (r + net) * (o - net * o / (r + net))
product-grows net r o pos =
    let out = net * o / (r + net) in
    let floor : out * (r + net) ≤ net * o = div-mul-le_self (net * o) (r + net) in
    let some_left : out ≤ o = div-le_of_le-mul (r + net) (omega (arith, add-mul r net o)) in
    let split : (r + net) * (o - out) + (r + net) * out ≡ (r + net) * o =
      sym (mul-add (r + net) (o - out) out)
      ∙ ap (λ (t : ℕ). (r + net) * t) (omega (arith, some_left)) in
    omega (arith, floor, split, add-mul r net o, mul_comm (r + net) out)

-- The curve never sells its last token.
pub tokens-left : (r net o : ℕ) → 0 < r → 0 < o → net * o / (r + net) < o
tokens-left r net o pos pos' = (div-lt_iff_lt-mul (omega arith)).1 (
    omega (
      arith,
      mul-lt-mul_of_pos_left {m = net} {n = r + net} (omega arith) pos',
      mul_comm net o,
      mul_comm (r + net) o,
    ))

-- Buying tokens and selling them straight back, with no fee on either side, returns no more than was
-- paid.
pub back-and-forth :
    (net r o : ℕ)
    → 0 < r
    → 0 < o
    → let out = net * o / (r + net) in out * (r + net) / ((o - out) + out) ≤ net
back-and-forth net r o pos pos' =
    let out = net * o / (r + net) in
    let floor : out * (r + net) ≤ net * o = div-mul-le_self (net * o) (r + net) in
    let some_left : out ≤ o = div-le_of_le-mul (r + net) (omega (arith, add-mul r net o)) in
    let whole : (o - out) + out ≡ o = omega (arith, some_left) in
    rw whole (div-le_of_le-mul o (omega (arith, floor, mul_comm net o)))

module _ (s : CurveState) (h : IsSane s) where
  -- The rate that is left for the curve.
  abbrev pub kept : ℕ
  kept = bps - s.fee_bps - s.creator_tax_bps - opening s

  input_share_exact : U256.sub (input_share s) (opening s) ≡ kept
  input_share_exact = ground (arith, h.rates)

  gross-covers : (net x : ℕ) → net * bps ≤ x * kept → net ≤ net_of s x
  gross-covers net x big = let b = (net_of_bounds s x h).1 in omega (arith, b, big)

  -- What a clamped buy needs on the curve, and before the shares are taken.
  abbrev pub clamp_net : ℕ
  clamp_net = s.sellable_tokens * s.quote_reserve / (s.token_reserve - s.sellable_tokens) + 1

  abbrev pub grossed : ℕ
  grossed = (clamp_net * bps + kept - 1) / kept

  kept-pos : 100 ≤ kept
  kept-pos = omega (arith, h.rates)

  clamp_net-bound : clamp_net ≤ 2 ^ 224
  clamp_net-bound = omega (
    arith,
    mul-bound s.sellable_tokens s.quote_reserve (omega (arith, h.sellable, h.token_bound))
        h.quote_bound,
    div-le_self (s.sellable_tokens * s.quote_reserve) (s.token_reserve - s.sellable_tokens),
  )

  ceil_div_exact : ceil_div (U256.mul clamp_net bps) kept ≡ some grossed
  unfolding ceil_div
  ceil_div_exact =
      let m : clamp_net * bps % u256_mod ≡ clamp_net * bps =
        mod-eq_of_lt (omega (arith, clamp_net-bound)) in
      let room : kept ≤ bps = omega arith in
      let sum : U256.sub (U256.add (clamp_net * bps) kept) 1 ≡ clamp_net * bps + kept - 1 =
        omega (arith, clamp_net-bound, room, kept-pos) in
      rw (m, sum) (ground (arith, kept-pos))

  pub clamped_spend_exact :
      (q : ℕ) → clamped_spend s (opening s) q ≡ some (if ltb grossed q then grossed else q)
  unfolding clamped_spend
  clamped_spend_exact q =
      rw
        (
          amount_in_exact s.sellable_tokens s.quote_reserve s.token_reserve h.quote_bound
              h.token_bound h.sellable,
          input_share_exact,
        )
        (rw ceil_div_exact refl)

  pub grossed-covers : clamp_net ≤ net_of s grossed
  grossed-covers =
      let up : clamp_net * bps + kept - 1 < kept * (grossed + 1) =
        lt-mul-div-succ (clamp_net * bps + kept - 1) (omega (arith, kept-pos)) in
      gross-covers clamp_net grossed
        (omega (arith, up, kept-pos, mul-add kept grossed 1, mul_comm kept grossed))
