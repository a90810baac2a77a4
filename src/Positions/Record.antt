-- ===== src/Positions/Record.antt =====
-- trade/positions.rs: `Position` and what is read from it. A wei number is kept as decimal text. The
-- conversions are the number crate's: the fields of `Formats`.
use bodkin.Prelude.{
  ◌>>=◌, ℕ, ◌-◌, ◌≡◌, ◌<◌, Bool, true, false, ◌&&◌, ◌||◌, Option, none, some, List, [], ◌∷◌, ◌++◌,
  String, if◌then◌else◌, leb, any, all, saturating_add, checked_add, checked_sub, u256_mod,
}
use Prim.Native.String
use text.Mathlib.Text.{◌==◌ as str_eq}

-- `parse::<U256>().ok()`, `to_string()` and `format!("{:#x}", …)`.
pub record Formats : Type 0 where
  pub parse : String → Option ℕ
  pub show : ℕ → String
  pub show_hash : ℕ → String

-- What is documented of them: a `U256` is read back from its own text, and what is read is a `U256`.
pub record IsDecimal (fmt : Formats) : Type 0 where
  pub parse-show : (n : ℕ) → n < u256_mod → fmt.parse (fmt.show n) ≡ some n
  pub parse-bound : (s : String) (n : ℕ) → fmt.parse s ≡ some n → n < u256_mod

pub record Exit : Type 0 where
  pub at : ℕ
  pub tokens : String
  pub eth_out : String
  pub gas_wei : Option String
  pub reason : String
  pub tx : Option String
  pub dry_run : Bool

pub record Position : Type 0 where
  pub id : String
  pub token : ℕ
  pub curve : ℕ
  pub symbol : String
  pub name : String
  pub opened_at : ℕ
  pub entry_tx : Option String
  pub dry_run : Bool
  pub chain_id : ℕ
  pub wallet : String
  pub entry_eth : String
  pub entry_gas_wei : Option String
  pub basis_gas_wei : Option String
  pub overhead_gas_wei : Option String
  pub overhead_operations : List String
  pub tokens : String
  pub basis_eth : Option String
  pub peak_eth : String
  pub last_eth : String
  pub last_at : ℕ
  pub status : String
  pub exits : List Exit

pub record AppliedExit : Type 0 where
  pub tokens_sold : ℕ
  pub basis_sold : ℕ
  pub entry_gas_sold : ℕ
  pub exit_gas : ℕ
  pub remaining : ℕ
  pub closed : Bool
  pub realized : String
  pub net_realized : String

-- `unwrap_or(U256::ZERO)` and `or_else`.
abbrev pub or_zero : Option ℕ → ℕ
or_zero none = 0
or_zero (some n) = n

abbrev pub or_else : Option ℕ → Option ℕ → Option ℕ
or_else none b = b
or_else (some n) b = some n

-- `as_deref().and_then(|s| s.parse().ok())`
abbrev pub parse_some : Formats → Option String → Option ℕ
parse_some fmt none = none
parse_some fmt (some s) = fmt.parse s

unfoldable pub basis : Formats → Position → ℕ
basis fmt p = or_zero (or_else (parse_some fmt p.basis_eth) (fmt.parse p.entry_eth))

unfoldable pub gas_basis : Formats → Position → ℕ
gas_basis fmt p = or_zero (
    or_else (parse_some fmt p.basis_gas_wei)
      (elim (p.exits) [ [] ↦ parse_some fmt p.entry_gas_wei | e ∷ es ↦ none ]))

unfoldable pub held : Formats → Position → ℕ
held fmt p = or_zero (fmt.parse p.tokens)

-- `filter_map` and `fold` with `saturating_add`, from a start.
unfoldable pub add_parsed : Formats → List (Option String) → ℕ → ℕ
add_parsed fmt [] sum = sum
add_parsed fmt (s ∷ ss) sum = elim (parse_some fmt s) [
  | none ↦ add_parsed fmt ss sum
  | some n ↦ add_parsed fmt ss (saturating_add u256_mod sum n)
]

abbrev pub outs : List Exit → List (Option String)
outs [] = []
outs (e ∷ es) = some e.eth_out ∷ outs es

abbrev pub gases : List Exit → List (Option String)
gases [] = []
gases (e ∷ es) = e.gas_wei ∷ gases es

unfoldable pub realized_out : Formats → Position → ℕ
unfolding add_parsed
realized_out fmt p = add_parsed fmt (outs p.exits) 0

unfoldable pub entry_gas : Formats → Position → ℕ
entry_gas fmt p = or_zero (parse_some fmt p.entry_gas_wei)

unfoldable pub exit_gas : Formats → Position → ℕ
unfolding add_parsed
exit_gas fmt p = add_parsed fmt (gases p.exits) (or_zero (parse_some fmt p.overhead_gas_wei))

unfoldable pub charge_overhead_gas : Formats → String → ℕ → Position → Bool × Position
charge_overhead_gas fmt operation_id gas_wei p =
    if any (λ o. str_eq o operation_id) p.overhead_operations then (false, p) else (
      true,
      record p {
        overhead_operations = p.overhead_operations ++ operation_id ∷ [];
        overhead_gas_wei = some (
            fmt.show
              (saturating_add u256_mod (or_zero (parse_some fmt p.overhead_gas_wei)) gas_wei));
      },
    )

abbrev pub is_some : Option String → Bool
is_some none = false
is_some (some s) = true

unfoldable pub gas_known : Position → Bool
gas_known p =
    p.dry_run
    || (is_some p.entry_gas_wei
        && is_some p.overhead_gas_wei
        && all (λ e. e.dry_run || is_some e.gas_wei) p.exits)

unfoldable pub signed_wei : Formats → ℕ → ℕ → String
signed_wei fmt value cost =
    if leb cost value then fmt.show (value - cost) else String.◌++◌ "-" (fmt.show (cost - value))

-- `try_fold` with `checked_add`.
unfoldable pub sum_out : Formats → List Exit → ℕ → Option ℕ
sum_out fmt [] sum = some sum
sum_out fmt (e ∷ es) sum = do
  n ← fmt.parse e.eth_out
  total ← checked_add sum n
  sum_out fmt es total

unfoldable pub remaining_basis : Formats → ℕ → Position → Option ℕ
remaining_basis fmt entry p = if str_eq p.status "closed" then some 0 else elim (p.basis_eth) [
  | some b ↦ fmt.parse b
  | none ↦ elim (p.exits) [ [] ↦ some entry | e ∷ es ↦ none ]
]

unfoldable pub realized_pnl_wei : Formats → Position → Option String
unfolding signed_wei sum_out remaining_basis
realized_pnl_wei fmt p = do
  entry ← fmt.parse p.entry_eth
  remaining ← remaining_basis fmt entry p
  released ← checked_sub entry remaining
  out ← sum_out fmt p.exits 0
  some (signed_wei fmt out released)
