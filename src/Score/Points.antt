-- ===== src/Score/Points.antt =====
-- score.rs: the closure `add` and its sum. The `i32` sum is kept in two parts, what was added to 50 and
-- what was taken off, which its clamp to 0 and 100 brings together.
use bodkin.Prelude.{ℕ, ◌+◌, ◌-◌, ◌≡◌, List, [], ◌∷◌, ◌++◌, min, arith}

-- A text of `reasons` is named by what it says, with the numbers that it shows.
pub data Reason : Type 0 where
  no_dev_buy token_sized_dev_buy dev_buy_in_band heavy_dev_buy dev_buy_over_ten : Reason
  no_creator_tax : Reason
  low_creator_tax creator_tax high_creator_tax : ℕ → Reason
  fees_to_third_party fee_recipient_contract no_socials x_link website telegram : Reason
  real_description no_bundle_wallets : Reason
  exempt_wallets declared_bundle launch_farm : ℕ → Reason
  one_earlier_launch fresh_deployer : Reason
  deployer_graduated serial_deployer deployer_launches : (graduated prior : ℕ) → Reason
  distinct_buyers : ℕ → Reason
  bots_only more_sells filled_fast : Reason

pub data Points : Type 0 where
  plus less : ℕ → Reason → Points

abbrev pub gained : List Points → ℕ
gained [] = 0
gained (plus n r ∷ ps) = n + gained ps
gained (less n r ∷ ps) = gained ps

abbrev pub lost : List Points → ℕ
lost [] = 0
lost (plus n r ∷ ps) = lost ps
lost (less n r ∷ ps) = n + lost ps

-- `s.clamp(0, 100)`
unfoldable pub total_of : List Points → ℕ
total_of ps = min (50 + gained ps - lost ps) 100

pub gained-append : (ps qs : List Points) → gained (ps ++ qs) ≡ gained ps + gained qs
gained-append [] qs = omega arith
gained-append (plus n r ∷ ps) qs = omega (arith, gained-append ps qs)
gained-append (less n r ∷ ps) qs = gained-append ps qs

pub lost-append : (ps qs : List Points) → lost (ps ++ qs) ≡ lost ps + lost qs
lost-append [] qs = omega arith
lost-append (plus n r ∷ ps) qs = lost-append ps qs
lost-append (less n r ∷ ps) qs = omega (arith, lost-append ps qs)
