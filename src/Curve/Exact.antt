-- ===== src/Curve/Exact.antt =====
-- No word wraps and nothing divides by zero on a curve whose amounts are below 2 ^ 112 and whose
-- rates leave one per cent: there the quotes are those of plain arithmetic.
use native.Mathlib.Nat.{
  mul-le-mul, mul-le-mul_left, div-le_self, div-mul-le_self, mod-eq_of_lt, mul-add,
}
use bodkin.Prelude.{
  ℕ, ◌+◌, ◌-◌, ◌*◌, ◌/◌, ◌%◌, ◌^◌, ◌≤◌, ◌<◌, ◌≡◌, ap, sym, ◌∙◌, min, some, arith, u256_mod,
}
use bodkin.Curve.Quote.{
  CurveState, bps, amount_out, amount_in, effective_opening_bps, share, net_input,
}

abbrev pub amount_bound : ℕ
amount_bound = 2 ^ 112

pub mul-bound : (a b : ℕ) → a < amount_bound → b < amount_bound → a * b < 2 ^ 224
mul-bound a b ha hb =
    let h : a * b ≤ (amount_bound - 1) * (amount_bound - 1) =
      mul-le-mul {n₂ = amount_bound - 1} {m₂ = amount_bound - 1} (omega arith) (omega arith) in
    omega (arith, h)

-- A curve within the bounds.
pub record IsSane (s : CurveState) : Type 0 where
  pub quote_pos : 0 < s.quote_reserve
  pub quote_bound : s.quote_reserve < amount_bound
  pub token_bound : s.token_reserve < amount_bound
  pub sellable : s.sellable_tokens < s.token_reserve
  pub rates : s.fee_bps + s.creator_tax_bps + 100 ≤ bps

pub amount_out_exact :
    (i r o : ℕ)
    → i < amount_bound
    → o < amount_bound
    → 0 < r
    → r < amount_bound
    → amount_out i r o ≡ some (i * o / (r + i))
unfolding amount_out
amount_out_exact i r o hi ho pos hr =
    let m : i * o % u256_mod ≡ i * o = mod-eq_of_lt (omega (arith, mul-bound i o hi ho)) in
    rw m (ground arith)

pub amount_in_exact :
    (o i r : ℕ)
    → i < amount_bound
    → r < amount_bound
    → o < r
    → amount_in o i r ≡ some (o * i / (r - o) + 1)
unfolding amount_in
amount_in_exact o i r hi hr lt =
    let b = mul-bound o i (omega arith) hi in
    let m : o * i % u256_mod ≡ o * i = mod-eq_of_lt (omega (arith, b)) in
    rw m (ground (arith, div-le_self (o * i) (r - o)))

pub share-exact :
    (v rate : ℕ)
    → v < 2 ^ 224
    → rate ≤ bps
    → (share v rate ≡ v * rate / bps) × (v * rate / bps * bps ≤ v * rate)
share-exact v rate hv hr =
    let h : v * rate ≤ v * bps = mul-le-mul_left v hr in
    (ap (λ (t : ℕ). t / bps) (mod-eq_of_lt (omega (arith, h))), div-mul-le_self (v * rate) bps)

-- The opening tax that applies: what is set, or what leaves the buyer one per cent.
abbrev pub opening : CurveState → ℕ
opening s = min s.opening_tax_bps (bps - s.fee_bps - s.creator_tax_bps - 100)

pub effective_opening_bps_exact : (s : CurveState) → IsSane s → effective_opening_bps s ≡ opening s
unfolding effective_opening_bps
effective_opening_bps_exact s h = ground arith

-- What the three shares leave of an input.
abbrev pub net_of : CurveState → ℕ → ℕ
net_of s q = q - q * s.fee_bps / bps - q * s.creator_tax_bps / bps - q * opening s / bps

-- The shares together are at most their rates' share, which leaves one per cent.
pub net_of_bounds :
    (s : CurveState) (q : ℕ)
    → IsSane s
    → (net_of s q + q * s.fee_bps / bps + q * s.creator_tax_bps / bps + q * opening s / bps ≡ q)
      × (q * (bps - s.fee_bps - s.creator_tax_bps - opening s) ≤ net_of s q * bps)
net_of_bounds s q h =
    let f = div-mul-le_self (q * s.fee_bps) bps in
    let t = div-mul-le_self (q * s.creator_tax_bps) bps in
    let o = div-mul-le_self (q * opening s) bps in
    let total : s.fee_bps + s.creator_tax_bps + opening s ≤ 9_900 = omega (arith, h.rates) in
    let all : q * (s.fee_bps + s.creator_tax_bps + opening s) ≤ q * 9_900 =
      mul-le-mul_left q total in
    let split : q * (bps - s.fee_bps - s.creator_tax_bps - opening s)
          + q * (s.fee_bps + s.creator_tax_bps + opening s)
        ≡ q * bps =
      sym (mul-add q _ _) ∙ ap (λ (z : ℕ). q * z) (omega (arith, total)) in
    (omega (arith, f, t, o, all), omega (arith, f, t, o, all, split))

pub net_input_exact :
    (s : CurveState) (q : ℕ)
    → IsSane s
    → q < amount_bound
    → net_input s (effective_opening_bps s) q ≡ net_of s q
net_input_exact s q h hq =
    let f = share-exact q s.fee_bps (omega arith) (omega (arith, h.rates)) in
    let t = share-exact q s.creator_tax_bps (omega arith) (omega (arith, h.rates)) in
    let o = share-exact q (opening s) (omega arith) (omega (arith, h.rates)) in
    let sums = (net_of_bounds s q h).0 in
    rw (effective_opening_bps_exact s h, f.0, t.0, o.0) (omega (arith, sums))
