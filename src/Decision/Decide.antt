-- ===== src/Decision/Decide.antt =====
-- engine.rs: `decide` and `live_gate`, the gates before an entry. A text of `why` is named by its rule,
-- with the numbers that it shows.
use bodkin.Prelude.{
  ℕ, ◌*◌, ◌^◌, Bool, true, false, not, ◌&&◌, ◌||◌, Option, none, some, List, [], ◌∷◌, String, ltb,
  leb, ◌==◌, if◌then◌else◌, length, any, is_empty,
}
use bodkin.Prelude.Int.{ℤ, pos, negsuc}
use bodkin.Prelude.Text.{is_blank}
use bodkin.Prelude.U256
use Prim.Native.String
use text.Mathlib.Text.{◌==◌ as str_eq}
use bodkin.Curve.Quote.{CurveState}
use bodkin.Flow.Tracker.{FlowSnapshot}
use bodkin.Positions.Rules.{Floats}
use bodkin.Decision.Rules.{SnipeRules}

-- What pons/enrich.rs reads of a launch.
pub record Socials : Type 0 where
  pub twitter : String
  pub telegram : String
  pub website : String

pub record TokenMeta : Type 0 where
  pub name : String
  pub symbol : String
  pub description : String
  pub socials : Socials

pub record LaunchRecord : Type 0 where
  pub creator_fee_recipient : ℕ
  pub creator_tax_bps : ℕ
  pub phase : ℕ

pub record LaunchTx : Type 0 where
  pub from : ℕ
  pub dev_buy_wei : ℕ
  pub dev_tokens : ℕ
  pub exemptions : List ℕ
  pub recipient : ℕ
  pub timestamp : ℕ

-- Of the launch itself, the pair and the curve, what `decide` reads: the deployer's address as text, the
-- pair's address, and the curve's two flags.
pub record LaunchIntel : Type 0 where
  pub deployer : String
  pub pair_address : ℕ
  pub meta : Option TokenMeta
  pub launch_record : Option LaunchRecord
  pub tx : Option LaunchTx
  pub curve : Option CurveState
  pub errors : List String

pub data Refusal : Type 0 where
  unreadable : Option String → Refusal
  launch_tx_missing factory_record_missing : Refusal
  open_positions session_budget launch_farm : ℕ → Refusal
  not_eth_pair : Refusal
  low_score : ℤ → Refusal
  dev_share_high dev_share_low : Refusal
  creator_tax : ℕ → Refusal
  no_socials : Refusal
  exempt_wallets : ℕ → Refusal
  keyword_not_found deployer_not_listed curve_not_open : Refusal
  few_taxed_buyers many_exempt_buys : ℕ → Refusal
  insider_sold : Refusal

pub record Decision : Type 0 where
  pub fire : Bool
  pub why : List Refusal

abbrev pub ltb_ℤ : ℤ → ℤ → Bool
ltb_ℤ (pos a) (pos b) = ltb a b
ltb_ℤ (pos a) (negsuc b) = false
ltb_ℤ (negsuc a) (pos b) = true
ltb_ℤ (negsuc a) (negsuc b) = ltb b a

abbrev pub holds {ℓ} : {A : Type ℓ} → Option A → Bool
holds none = false
holds (some a) = true

-- `SUPPLY` of chain.rs.
abbrev pub supply : ℕ
supply = 1_000_000_000 * 10 ^ 18

abbrev pub has_socials : Option TokenMeta → Bool
has_socials none = false
has_socials (some m) =
    not (is_blank m.socials.twitter)
    || not (is_blank m.socials.website)
    || not (is_blank m.socials.telegram)

-- The refusals whose test holds, in their order: `if … { why.push(…) }` one after the other.
abbrev pub failed : List (Bool × Refusal) → List Refusal
failed [] = []
failed ((test, r) ∷ checks) = if test then r ∷ failed checks else failed checks

abbrev pub first : List String → Option String
first [] = none
first (e ∷ es) = some e

abbrev pub refused : Refusal → Decision
refused r = record { fire = false; why = r ∷ [] }

abbrev pub decided : List Refusal → Decision
decided why = record { fire = is_empty why; why = why }

module _ (fl : Floats) where
  abbrev pub dev_share_pct : Option LaunchTx → fl.Float
  dev_share_pct none = fl.of_u64 0
  dev_share_pct (some t) =
      fl.mul (fl.div (fl.wei_to_f64 t.dev_tokens) (fl.of_u128 supply)) (fl.of_u64 100)

  abbrev pub tax_of : Option LaunchRecord → ℕ
  tax_of none = 0
  tax_of (some r) = r.creator_tax_bps

  abbrev pub exempt_of : Option LaunchTx → ℕ
  exempt_of none = 0
  exempt_of (some t) = length t.exemptions

  abbrev pub hay_of : Option TokenMeta → String
  hay_of none = "  "
  hay_of (some m) =
      String.◌++◌ m.name (String.◌++◌ " " (String.◌++◌ m.symbol (String.◌++◌ " " m.description)))

  abbrev pub lacks_keyword : Option (String → Bool) → String → Bool
  lacks_keyword none hay = false
  lacks_keyword (some is_match) hay = not (is_match hay)

  abbrev pub is_open : Option CurveState → Bool
  is_open none = false
  is_open (some c) = not c.graduated && not c.ready_to_graduate

  abbrev pub checks : LaunchIntel → ℤ → SnipeRules fl → ℕ → ℕ → ℕ → List (Bool × Refusal)
  checks intel score rules open_count farm_twins spent_wei =
      let dev = dev_share_pct intel.tx in
      (not (holds intel.launch_record), factory_record_missing)
      ∷ (leb rules.max_open_positions open_count, open_positions open_count)
      ∷ (
        ltb rules.session_budget_wei (U256.add spent_wei rules.eth_per_buy),
        session_budget spent_wei,
      )
      ∷ (ltb rules.max_farm_twins farm_twins, launch_farm farm_twins)
      ∷ (rules.eth_pairs_only && not (intel.pair_address == 0), not_eth_pair)
      ∷ (ltb_ℤ score rules.min_score, low_score score)
      ∷ (fl.lt rules.max_dev_share_pct dev, dev_share_high)
      ∷ (fl.lt dev rules.min_dev_share_pct, dev_share_low)
      ∷ (
        holds intel.launch_record && ltb rules.max_creator_tax_bps (tax_of intel.launch_record),
        creator_tax (tax_of intel.launch_record),
      )
      ∷ (rules.require_socials && not (has_socials intel.meta), no_socials)
      ∷ (
        holds intel.tx && ltb rules.max_exempt_wallets (exempt_of intel.tx),
        exempt_wallets (exempt_of intel.tx),
      )
      ∷ (lacks_keyword rules.keyword (hay_of intel.meta), keyword_not_found)
      ∷ (
        not (is_empty rules.deployers) && not (any (λ d. str_eq d intel.deployer) rules.deployers),
        deployer_not_listed,
      )
      ∷ (not (is_open intel.curve), curve_not_open)
      ∷ []

  unfoldable pub refusals : LaunchIntel → ℤ → SnipeRules fl → ℕ → ℕ → ℕ → List Refusal
  refusals intel score rules open_count farm_twins spent_wei =
      failed (checks intel score rules open_count farm_twins spent_wei)

  unfoldable pub decide : LaunchIntel → ℤ → SnipeRules fl → ℕ → ℕ → ℕ → Decision
  unfolding refusals
  decide intel score rules open_count farm_twins spent_wei =
      if not (holds intel.meta) && not (holds intel.launch_record) && not (holds intel.curve)
      then refused (unreadable (first intel.errors))
      else if not (holds intel.tx)
      then refused launch_tx_missing
      else decided (refusals intel score rules open_count farm_twins spent_wei)

  unfoldable pub live_gate : SnipeRules fl → FlowSnapshot → Decision
  live_gate rules flow = decided (
      failed (
        (ltb flow.taxed_buyers_s1 rules.min_taxed_buyers_s1, few_taxed_buyers flow.taxed_buyers_s1)
        ∷ (ltb rules.max_exempt_buys_s0 flow.exempt_buys_s0, many_exempt_buys flow.exempt_buys_s0)
        ∷ (rules.abort_if_insider_sold && flow.insider_sold, insider_sold)
        ∷ []))
