-- ===== src/Recovery/Fills.antt =====
-- trade/curve.rs, trade/pool.rs and trade/v4.rs: what the logs of a receipt say was bought, sold and
-- refunded. What a log decodes to is the ABI library's, and the hash of a pool key too: the fields
-- of `FillAbi`.
use bodkin.Prelude.{
  ℕ, zero, suc, ◌*◌, ◌/◌, Bool, true, false, not, ◌&&◌, ◌||◌, Option, none, some, List, [], ◌∷◌,
  ltb, ◌==◌, if◌then◌else◌, saturating_add, u256_mod,
}
use bodkin.Prelude.Int.{ℤ, pos, negsuc}
use bodkin.Flow.Ingest.{CurveLog}

pub record PoolKey : Type 0 where
  pub currency0 : ℕ
  pub currency1 : ℕ
  pub fee : ℕ
  pub tick_spacing : ℤ
  pub hooks : ℕ

-- The recipient with the amounts of a buy, a sale and a refund; the pool id with the two amounts of a
-- swap; the addresses of chain.rs.
pub record FillAbi : Type 0 where
  pub decode_buy : CurveLog → Option (ℕ × ℕ)
  pub decode_sell : CurveLog → Option (ℕ × ℕ × ℕ)
  pub decode_refund : CurveLog → Option (ℕ × ℕ)
  pub decode_swap : CurveLog → Option (ℕ × ℤ × ℤ)
  pub pool_id : PoolKey → ℕ
  pub v4_pool_manager : ℕ
  pub pons_hook : ℕ

abbrev add_wei : ℕ → ℕ → ℕ
add_wei = saturating_add u256_mod

-- `recipient == ZERO || b.recipient == recipient`
abbrev is_for : ℕ → ℕ → Bool
is_for recipient found = recipient == 0 || found == recipient

module _ (abi : FillAbi) (curve recipient : ℕ) where
  abbrev buy_amount : CurveLog → ℕ → ℕ
  buy_amount l out = if not (l.address == curve) then out else elim (abi.decode_buy l) [
    | none ↦ out
    | some (to, tokens_out) ↦ if is_for recipient to then add_wei out tokens_out else out
  ]

  abbrev buy_tokens : List CurveLog → ℕ → ℕ
  buy_tokens [] out = out
  buy_tokens (l ∷ ls) out = buy_tokens ls (buy_amount l out)

  unfoldable pub parse_curve_buy_tokens : List CurveLog → ℕ
  parse_curve_buy_tokens logs = buy_tokens logs 0

  abbrev sell_amount : CurveLog → ℕ × ℕ → ℕ × ℕ
  sell_amount l (tokens, quote) =
      if not (l.address == curve) then (tokens, quote) else elim (abi.decode_sell l) [
        | none ↦ (tokens, quote)
        | some (to, tokens_in, quote_out) ↦
            if is_for recipient to
            then (add_wei tokens tokens_in, add_wei quote quote_out)
            else (tokens, quote)
      ]

  abbrev sell_fill : List CurveLog → ℕ × ℕ → ℕ × ℕ
  sell_fill [] sum = sum
  sell_fill (l ∷ ls) sum = sell_fill ls (sell_amount l sum)

  unfoldable pub parse_curve_sell_fill : List CurveLog → ℕ × ℕ
  parse_curve_sell_fill logs = sell_fill logs (0, 0)

  abbrev refund_amount : CurveLog → ℕ → ℕ
  refund_amount l out = if not (l.address == curve) then out else elim (abi.decode_refund l) [
    | none ↦ out
    | some (to, refund) ↦ if is_for recipient to then add_wei out refund else out
  ]

  abbrev refunds : List CurveLog → ℕ → ℕ
  refunds [] out = out
  refunds (l ∷ ls) out = refunds ls (refund_amount l out)

  unfoldable pub parse_curve_refund : List CurveLog → ℕ
  parse_curve_refund logs = refunds logs 0

unfoldable pub pons_pool_key : FillAbi → ℕ → ℕ → ℤ → PoolKey
pons_pool_key abi token pair_token tick_spacing = record {
  currency0 = if ltb token pair_token then token else pair_token;
  currency1 = if ltb token pair_token then pair_token else token;
  fee = 0;
  tick_spacing = tick_spacing;
  hooks = abi.pons_hook;
}

abbrev is_positive : ℤ → Bool
is_positive (pos zero) = false
is_positive (pos (suc n)) = true
is_positive (negsuc n) = false

abbrev is_negative : ℤ → Bool
is_negative (pos n) = false
is_negative (negsuc n) = true

abbrev unsigned_abs : ℤ → ℕ
unsigned_abs (pos n) = n
unsigned_abs (negsuc n) = suc n

module _ (abi : FillAbi) where
  abbrev swap_amount : ℕ → CurveLog → ℕ × ℕ → ℕ × ℕ
  swap_amount id l (tokens_in, gross_out) =
      if not (l.address == abi.v4_pool_manager)
      then (tokens_in, gross_out)
      else elim (abi.decode_swap l) [
        | none ↦ (tokens_in, gross_out)
        | some (pool, amount0, amount1) ↦
            if pool == id && is_positive amount0 && is_negative amount1
            then (
              add_wei tokens_in (unsigned_abs amount1),
              add_wei gross_out (unsigned_abs amount0),
            )
            else (tokens_in, gross_out)
      ]

  abbrev swap_fill : ℕ → List CurveLog → ℕ × ℕ → ℕ × ℕ
  swap_fill id [] sum = sum
  swap_fill id (l ∷ ls) sum = swap_fill id ls (swap_amount id l sum)

  unfoldable pub parse_pool_sell_fill : List CurveLog → PoolKey → Option (ℕ × ℕ)
  parse_pool_sell_fill logs key =
      let (tokens_in, gross_out) = swap_fill (abi.pool_id key) logs (0, 0) in
      if not (tokens_in == 0) && not (gross_out == 0) then some (tokens_in, gross_out) else none

-- The product is taken in 512 bits; `to` panics (`none`) where the quotient does not fit 256.
unfoldable pub bps_amount : ℕ → ℕ → Option ℕ
bps_amount value bps =
    if ltb (value * bps / 10_000) u256_mod then some (value * bps / 10_000) else none
