-- ===== src/Positions/Exits.antt =====
-- trade/positions.rs: `Position::apply_exit`.
use bodkin.Prelude.{
  ◌>>=◌, ℕ, ◌*◌, ◌/◌, Bool, ◌||◌, Option, none, some, List, [], ◌∷◌, ◌++◌, String, min,
  if◌then◌else◌, leb, ltb, ◌==◌, saturating_add, u256_mod,
}
use bodkin.Prelude.U256
use text.Mathlib.Text.{◌==◌ as str_eq}
use bodkin.Positions.Record.{
  Formats, Exit, Position, AppliedExit, or_zero, basis, gas_basis, held, signed_wei,
}

-- The product is taken in 512 bits; `to` panics (`none`) where the quotient does not fit 256, and the
-- division where `of` is zero.
unfoldable pub scale_held : ℕ → ℕ → ℕ → Option ℕ
scale_held value part of =
    if of == 0
    then none
    else if ltb (value * part / of) u256_mod
    then some (value * part / of)
    else none

-- The arguments of `apply_exit`.
pub record Sell : Type 0 where
  pub tokens_sold : ℕ
  pub eth_out : ℕ
  pub exit_gas : ℕ
  pub reason : String
  pub tx : Option ℕ
  pub dry_run : Bool
  pub at : ℕ

abbrev pub nothing_sold : Formats → Sell → ℕ → Position → Position × AppliedExit
nothing_sold fmt s have p = (
  p,
  record {
    tokens_sold = 0;
    basis_sold = 0;
    entry_gas_sold = 0;
    exit_gas = s.exit_gas;
    remaining = have;
    closed = str_eq p.status "closed";
    realized = "0";
    net_realized = signed_wei fmt 0 s.exit_gas;
  },
)

abbrev pub show_tx : Formats → Option ℕ → Option String
show_tx fmt none = none
show_tx fmt (some h) = some (fmt.show_hash h)

abbrev pub exit_of : Formats → Sell → ℕ → Exit
exit_of fmt s sold = record {
  at = s.at;
  tokens = fmt.show sold;
  eth_out = fmt.show s.eth_out;
  gas_wei = some (fmt.show s.exit_gas);
  reason = s.reason;
  tx = show_tx fmt s.tx;
  dry_run = s.dry_run;
}

-- All of it where everything is sold, else the share.
abbrev pub released : ℕ → ℕ → ℕ → Option ℕ
released value sold have = if leb have sold then some value else scale_held value sold have

-- The position and the report, from what was computed.
abbrev pub sold_from : Formats → Sell → Position → ℕ → ℕ → ℕ → ℕ → ℕ → Position × AppliedExit
sold_from fmt s p sold basis_sold entry_gas_sold peak last =
    let remaining = U256.sub (held fmt p) sold in
    (
      record p {
        peak_eth = fmt.show peak;
        last_eth = fmt.show last;
        tokens = fmt.show remaining;
        basis_eth = some (fmt.show (U256.sub (basis fmt p) basis_sold));
        basis_gas_wei = some (fmt.show (U256.sub (gas_basis fmt p) entry_gas_sold));
        status = if remaining == 0 then "closed" else p.status;
        exits = p.exits ++ exit_of fmt s sold ∷ [];
      },
      record {
        tokens_sold = sold;
        basis_sold = basis_sold;
        entry_gas_sold = entry_gas_sold;
        exit_gas = s.exit_gas;
        remaining = remaining;
        closed = remaining == 0;
        realized = signed_wei fmt s.eth_out basis_sold;
        net_realized = signed_wei fmt s.eth_out (
            saturating_add u256_mod (saturating_add u256_mod basis_sold entry_gas_sold) s.exit_gas);
      },
    )

-- `None` where the code panics.
unfoldable pub apply_exit : Formats → Sell → Position → Option (Position × AppliedExit)
unfolding scale_held basis gas_basis held signed_wei
apply_exit fmt s p =
    let have = held fmt p in
    if have == 0 || s.tokens_sold == 0 then some (nothing_sold fmt s have p) else do
      let sold = min s.tokens_sold have
      basis_sold ← released (basis fmt p) sold have
      entry_gas_sold ← released (gas_basis fmt p) sold have
      let remaining = U256.sub have sold
      peak ← scale_held (or_zero (fmt.parse p.peak_eth)) remaining have
      last ← scale_held (or_zero (fmt.parse p.last_eth)) remaining have
      some (sold_from fmt s p sold basis_sold entry_gas_sold peak last)

-- Exits one after the other, with their reports.
unfoldable pub apply_exits : Formats → List Sell → Position → Option (Position × List AppliedExit)
unfolding apply_exit
apply_exits fmt [] p = some (p, [])
apply_exits fmt (s ∷ ss) p = do
  (p', a) ← apply_exit fmt s p
  (q, more) ← apply_exits fmt ss p'
  some (q, a ∷ more)
