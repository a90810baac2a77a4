-- ===== src/Score/Launch.antt =====
-- score.rs: `score_launch`, one section after the other.
use bodkin.Prelude.{
  ℕ, ◌+◌, Bool, false, not, ◌&&◌, Option, none, some, List, [], ◌∷◌, ◌++◌, String, ltb, leb, ◌==◌,
  if◌then◌else◌, length,
}
use bodkin.Prelude.Int.{ℤ, pos, negsuc}
use bodkin.Prelude.Text.{is_blank}
use Prim.Native.String
use bodkin.Curve.Quote.{CurveState}
use bodkin.Positions.Rules.{Floats}
use bodkin.Decision.Decide.{
  TokenMeta, LaunchRecord, LaunchTx, LaunchIntel, ltb_ℤ, has_socials, dev_share_pct,
}
use bodkin.Score.Points
use bodkin.Score.Points.{Points, plus, less, total_of}

pub data Verdict : Type 0 where
  fire watch skip : Verdict

pub record Score : Type 0 where
  pub total : ℕ
  pub verdict : Verdict
  pub reasons : List Points

pub record CurveActivity : Type 0 where
  pub buys : ℕ
  pub sells : ℕ
  pub unique_buyers : ℕ
  pub taxed_buys : ℕ
  pub quote_in : ℕ
  pub quote_out : ℕ

pub record ScoreContext : Type 0 where
  pub deployer : Option (ℕ × ℕ)
  pub activity : Option CurveActivity
  pub age_sec : Option ℕ
  pub farm_twins : ℕ
  pub fire : ℤ
  pub watch : ℤ
  pub fee_recipient_is_contract : Option Bool

abbrev pub fire_th : ScoreContext → ℤ
fire_th ctx = elim (ctx.fire) [ pos n ↦ if n == 0 then pos 75 else pos n | negsuc n ↦ negsuc n ]

abbrev pub watch_th : ScoreContext → ℤ
watch_th ctx = elim (ctx.watch) [ pos n ↦ if n == 0 then pos 45 else pos n | negsuc n ↦ negsuc n ]

abbrev pub points_if : Bool → Points → List Points
points_if test p = if test then p ∷ [] else []

abbrev pub tax_points : ℕ → Points
tax_points tax =
    if tax == 0
    then plus 5 Points.no_creator_tax
    else if leb tax 200
    then plus 10 (Points.low_creator_tax tax)
    else if leb tax 500
    then less 5 (Points.creator_tax tax)
    else less 25 (Points.high_creator_tax tax)

abbrev pub third_party : LaunchRecord → Option LaunchTx → Bool
third_party rec none = false
third_party rec (some tx) = not (rec.creator_fee_recipient == tx.from)

abbrev pub is_true : Option Bool → Bool
is_true none = false
is_true (some b) = b

abbrev pub record_points : Option Bool → Option LaunchRecord → Option LaunchTx → List Points
record_points contract none tx = []
record_points contract (some rec) tx =
    tax_points rec.creator_tax_bps
    ∷ (points_if (third_party rec tx) (plus 5 Points.fees_to_third_party)
        ++ points_if (is_true contract) (less 8 Points.fee_recipient_contract))

abbrev pub linked : (TokenMeta → String) → Option TokenMeta → Bool
linked link none = false
linked link (some m) = not (is_blank (link m))

abbrev pub social_points : Option TokenMeta → List Points
social_points meta =
    if not (has_socials meta)
    then less 15 Points.no_socials ∷ []
    else points_if (linked (λ m. m.socials.twitter) meta) (plus 8 Points.x_link)
      ++ (points_if (linked (λ m. m.socials.website) meta) (plus 8 Points.website)
          ++ points_if (linked (λ m. m.socials.telegram) meta) (plus 8 Points.telegram))

-- `len` counts bytes.
abbrev pub description_length : Option TokenMeta → ℕ
description_length none = 0
description_length (some m) = String.len m.description

abbrev pub exempt_points : Option LaunchTx → List Points
exempt_points none = []
exempt_points (some tx) =
    let n = length tx.exemptions in
    (if n == 0
      then plus 5 Points.no_bundle_wallets
      else if leb n 3
      then less 5 (Points.exempt_wallets n)
      else less 20 (Points.declared_bundle n))
    ∷ []

abbrev pub farm_points : ℕ → List Points
farm_points twins =
    if leb 2 twins
    then less 25 (Points.launch_farm (twins + 1)) ∷ []
    else points_if (twins == 1) (less 8 Points.one_earlier_launch)

abbrev pub activity_points : CurveActivity → List Points
activity_points a =
    (if leb 10 a.unique_buyers
      then plus 10 (Points.distinct_buyers a.unique_buyers) ∷ []
      else points_if (leb 4 a.unique_buyers) (plus 5 (Points.distinct_buyers a.unique_buyers)))
    ++ (points_if (ltb 0 a.buys && a.taxed_buys == a.buys) (less 10 Points.bots_only)
        ++ points_if (ltb a.buys a.sells && ltb 3 a.buys) (less 10 Points.more_sells))

abbrev pub age_of : Option ℕ → ℕ
age_of none = 999
age_of (some age) = age

module _ (fl : Floats) where
  abbrev pub dev_points : Option LaunchTx → List Points
  dev_points none = []
  dev_points (some tx) =
      let dev = dev_share_pct fl (some tx) in
      (if fl.lt (fl.abs (fl.sub dev (fl.literal "0.0"))) fl.epsilon
        then less 10 Points.no_dev_buy
        else if fl.lt dev (fl.literal "1.0")
        then plus 0 Points.token_sized_dev_buy
        else if fl.ge (fl.literal "6.0") dev
        then plus 15 Points.dev_buy_in_band
        else if fl.ge (fl.literal "10.0") dev
        then plus 0 Points.heavy_dev_buy
        else less 25 Points.dev_buy_over_ten)
      ∷ []

  abbrev pub deployer_points : Option (ℕ × ℕ) → List Points
  deployer_points none = []
  deployer_points (some (prior, graduated)) =
      (if prior == 0
        then plus 5 Points.fresh_deployer
        else if fl.ge (fl.div (fl.of_u64 graduated) (fl.of_u64 prior)) (fl.literal "0.3")
        then plus 15 (Points.deployer_graduated graduated prior)
        else if leb 5 prior && graduated == 0
        then less 25 (Points.serial_deployer graduated prior)
        else less 5 (Points.deployer_launches graduated prior))
      ∷ []

  -- `progress` of pons/curve.rs.
  unfoldable pub progress : CurveState → fl.Float
  progress s =
      if s.graduation_threshold == 0
      then fl.literal "0.0"
      else let p =
          fl.div (fl.wei_to_f64 s.real_quote_reserve) (fl.wei_to_f64 s.graduation_threshold) in
        if fl.lt (fl.literal "1.0") p then fl.literal "1.0" else p

  unfoldable pub fills : CurveState → Option ℕ → Bool
  unfolding progress
  fills curve age = fl.ge (progress curve) (fl.literal "0.25") && leb (age_of age) 120

  abbrev pub flow_points : Option CurveActivity → Option CurveState → Option ℕ → List Points
  flow_points (some a) (some curve) age =
      activity_points a ++ points_if (fills curve age) (plus 10 Points.filled_fast)
  flow_points _ _ age = []

  -- The sections before the one on farms, and those after it.
  abbrev pub points_before : LaunchIntel → ScoreContext → List Points
  points_before intel ctx =
      dev_points intel.tx
      ++ (record_points ctx.fee_recipient_is_contract intel.launch_record intel.tx
          ++ (social_points intel.meta
              ++ (points_if (leb 40 (description_length intel.meta))
                    (plus 4 Points.real_description)
                  ++ exempt_points intel.tx)))

  abbrev pub points_after : LaunchIntel → ScoreContext → List Points
  points_after intel ctx =
      deployer_points ctx.deployer ++ flow_points ctx.activity intel.curve ctx.age_sec

  unfoldable pub points : LaunchIntel → ScoreContext → List Points
  unfolding fills
  points intel ctx =
      points_before intel ctx ++ (farm_points ctx.farm_twins ++ points_after intel ctx)

  unfoldable pub score_launch : LaunchIntel → ScoreContext → Score
  unfolding points total_of
  score_launch intel ctx =
      let total = total_of (points intel ctx) in
      record {
        total = total;
        verdict =
            if not (ltb_ℤ (pos total) (fire_th ctx))
            then fire
            else if not (ltb_ℤ (pos total) (watch_th ctx))
            then watch
            else skip;
        reasons = points intel ctx;
      }
