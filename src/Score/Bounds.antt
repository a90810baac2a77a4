-- ===== src/Score/Bounds.antt =====
-- The sum of score.rs: its bounds, and its part on launch farms.
use bodkin.Prelude.{
  ℕ, ◌+◌, ◌≡◌, ◌≤◌, Bool, Bool-cases, inl, inr, true, false, String, Option, none, some, List, [],
  ◌∷◌, ◌++◌, leb, arith,
}
use bodkin.Curve.Quote.{CurveState}
use bodkin.Positions.Rules.{Floats}
use bodkin.Decision.Decide.{TokenMeta, LaunchRecord, LaunchTx, LaunchIntel, has_socials}
use bodkin.Score.Points.{
  Points, Reason, plus, less, fees_to_third_party, fee_recipient_contract, x_link, website,
  telegram, filled_fast, real_description, gained, lost, total_of, gained-append, lost-append,
}
use bodkin.Score.Launch.{
  ScoreContext, CurveActivity, points_if, third_party, is_true, linked, fills, tax_points,
  points_before, points_after, record_points, social_points, description_length, exempt_points,
  farm_points, activity_points, dev_points, deployer_points, flow_points, points, score_launch,
}

-- At most so much gained and so much lost.
abbrev pub Within : ℕ → ℕ → List Points → Type 0
Within g l ps = (gained ps ≤ g) × (lost ps ≤ l)

Within-append :
    (g l h k : ℕ) (ps qs : List Points)
    → Within g l ps
    → Within h k qs
    → Within (g + h) (l + k) (ps ++ qs)
Within-append g l h k ps qs (pg, pl) (qg, ql) =
    (omega (arith, gained-append ps qs), omega (arith, lost-append ps qs))

points_if-plus : (test : Bool) (n : ℕ) (r : Reason) → Within n 0 (points_if test (plus n r))
points_if-plus true n r = (omega arith, omega arith)
points_if-plus false n r = (omega arith, omega arith)

points_if-less : (test : Bool) (n : ℕ) (r : Reason) → Within 0 n (points_if test (less n r))
points_if-less true n r = (omega arith, omega arith)
points_if-less false n r = (omega arith, omega arith)

tax_points-Within : (tax : ℕ) → Within 10 25 (tax_points tax ∷ [])
tax_points-Within tax = (ground arith, ground arith)

exempt_points-Within : (tx : Option LaunchTx) → Within 5 20 (exempt_points tx)
exempt_points-Within none = (omega arith, omega arith)
exempt_points-Within (some tx) = (ground arith, ground arith)

farm_points-Within : (twins : ℕ) → Within 0 25 (farm_points twins)
farm_points-Within twins = (ground arith, ground arith)

record_points-Within :
    (contract : Option Bool) (rec : Option LaunchRecord) (tx : Option LaunchTx)
    → Within 15 33 (record_points contract rec tx)
record_points-Within contract none tx = (omega arith, omega arith)
record_points-Within contract (some rec) tx =
    let (tax_gain, tax_loss) = tax_points-Within rec.creator_tax_bps in
    let (fee_gain, fee_loss) = points_if-plus (third_party rec tx) 5 fees_to_third_party in
    let (code_gain, code_loss) = points_if-less (is_true contract) 8 fee_recipient_contract in
    let (gain, loss) =
      Within-append 10 25 (5 + 0) (0 + 8) (tax_points rec.creator_tax_bps ∷ [])
        (points_if (third_party rec tx) (plus 5 fees_to_third_party)
          ++ points_if (is_true contract) (less 8 fee_recipient_contract))
        (tax_gain, tax_loss)
        (Within-append 5 0 0 8 (points_if (third_party rec tx) (plus 5 fees_to_third_party))
          (points_if (is_true contract) (less 8 fee_recipient_contract)) (fee_gain, fee_loss)
          (code_gain, code_loss)) in
    (gain, loss)

social_points-Within : (meta : Option TokenMeta) → Within 24 15 (social_points meta)
social_points-Within meta = elim (Bool-cases (has_socials meta)) [
  | inr none_linked ↦ rw none_linked (omega arith, omega arith)
  | inl some_linked ↦ rw some_linked (
      widen
        (link_points (λ m. m.socials.twitter) x_link
          ++ (link_points (λ m. m.socials.website) website
              ++ link_points (λ m. m.socials.telegram) telegram))
        (Within-append 8 0 16 0 (link_points (λ m. m.socials.twitter) x_link)
          (link_points (λ m. m.socials.website) website
            ++ link_points (λ m. m.socials.telegram) telegram)
          (points_if-plus (linked (λ m. m.socials.twitter) meta) 8 x_link)
          (Within-append 8 0 8 0 (link_points (λ m. m.socials.website) website)
            (link_points (λ m. m.socials.telegram) telegram)
            (points_if-plus (linked (λ m. m.socials.website) meta) 8 website)
            (points_if-plus (linked (λ m. m.socials.telegram) meta) 8 telegram))))
]
  where
    link_points : (TokenMeta → String) → Reason → List Points
    link_points link r = points_if (linked link meta) (plus 8 r)

    widen : (ps : List Points) → Within 24 0 ps → Within 24 15 ps
    widen ps (g, l) = (g, omega (arith, l))

activity_points-Within : (a : CurveActivity) → Within 10 20 (activity_points a)
activity_points-Within a = (ground arith, ground arith)

module _ (fl : Floats) where
  dev_points-Within : (tx : Option LaunchTx) → Within 15 25 (dev_points fl tx)
  dev_points-Within none = (omega arith, omega arith)
  dev_points-Within (some tx) = (ground arith, ground arith)

  deployer_points-Within : (d : Option (ℕ × ℕ)) → Within 15 25 (deployer_points fl d)
  deployer_points-Within none = (omega arith, omega arith)
  deployer_points-Within (some (prior, graduated)) = (ground arith, ground arith)

  flow_points-Within :
      (a : Option CurveActivity) (c : Option CurveState) (age : Option ℕ)
      → Within 20 20 (flow_points fl a c age)
  flow_points-Within none c age = (omega arith, omega arith)
  flow_points-Within (some a) none age = (omega arith, omega arith)
  flow_points-Within (some a) (some c) age =
      Within-append 10 20 10 0 (activity_points a)
        (points_if (fills fl c age) (plus 10 filled_fast)) (activity_points-Within a)
        (points_if-plus (fills fl c age) 10 filled_fast)

  points_before-Within :
      (intel : LaunchIntel) (ctx : ScoreContext) → Within 63 93 (points_before fl intel ctx)
  points_before-Within intel ctx =
      Within-append 15 25 48 68 (dev_points fl intel.tx)
        (record_part ++ (social_part ++ (text_part ++ exempt_part))) (dev_points-Within intel.tx)
        (Within-append 15 33 33 35 record_part (social_part ++ (text_part ++ exempt_part))
          (record_points-Within ctx.fee_recipient_is_contract intel.launch_record intel.tx)
          (Within-append 24 15 9 20 social_part (text_part ++ exempt_part)
            (social_points-Within intel.meta)
            (Within-append 4 0 5 20 text_part exempt_part
              (points_if-plus (leb 40 (description_length intel.meta)) 4 real_description)
              (exempt_points-Within intel.tx))))
    where
      record_part : List Points
      record_part = record_points ctx.fee_recipient_is_contract intel.launch_record intel.tx

      social_part : List Points
      social_part = social_points intel.meta

      text_part : List Points
      text_part = points_if (leb 40 (description_length intel.meta)) (plus 4 real_description)

      exempt_part : List Points
      exempt_part = exempt_points intel.tx

  points_after-Within :
      (intel : LaunchIntel) (ctx : ScoreContext) → Within 35 45 (points_after fl intel ctx)
  points_after-Within intel ctx =
      Within-append 15 25 20 20 (deployer_points fl ctx.deployer)
        (flow_points fl ctx.activity intel.curve ctx.age_sec) (deployer_points-Within ctx.deployer)
        (flow_points-Within ctx.activity intel.curve ctx.age_sec)

  points-Within : (intel : LaunchIntel) (ctx : ScoreContext) → Within 98 163 (points fl intel ctx)
  unfolding points
  points-Within intel ctx =
      Within-append 63 93 35 70 (points_before fl intel ctx)
        (farm_points ctx.farm_twins ++ points_after fl intel ctx) (points_before-Within intel ctx)
        (Within-append 0 25 35 45 (farm_points ctx.farm_twins) (points_after fl intel ctx)
          (farm_points-Within ctx.farm_twins) (points_after-Within intel ctx))

  gained-points :
      (intel : LaunchIntel) (ctx : ScoreContext)
      → gained (points fl intel ctx)
        ≡ gained (points_before fl intel ctx)
          + gained (farm_points ctx.farm_twins)
          + gained (points_after fl intel ctx)
  unfolding points
  gained-points intel ctx = omega (
    arith,
    gained-append (points_before fl intel ctx)
        (farm_points ctx.farm_twins ++ points_after fl intel ctx),
    gained-append (farm_points ctx.farm_twins) (points_after fl intel ctx),
  )

  lost-points :
      (intel : LaunchIntel) (ctx : ScoreContext)
      → lost (points fl intel ctx)
        ≡ lost (points_before fl intel ctx)
          + lost (farm_points ctx.farm_twins)
          + lost (points_after fl intel ctx)
  unfolding points
  lost-points intel ctx = omega (
    arith,
    lost-append (points_before fl intel ctx)
        (farm_points ctx.farm_twins ++ points_after fl intel ctx),
    lost-append (farm_points ctx.farm_twins) (points_after fl intel ctx),
  )

  farm_points_mono :
      (twins more : ℕ)
      → twins ≤ more
      → (gained (farm_points more) ≡ gained (farm_points twins))
        × (lost (farm_points twins) ≤ lost (farm_points more))
  farm_points_mono twins more h = (ground arith, ground arith)

  -- The more launches share the fingerprint of a launch, the less it scores, all else being the same; no
  -- score is over 100, and what is added and what is taken off stay so small that the sum fits an `i32`.
  pub score_launch_antitone :
      (intel : LaunchIntel) (ctx : ScoreContext) (more : ℕ)
      → ctx.farm_twins ≤ more
      → ((score_launch fl intel (record ctx { farm_twins = more })).total
          ≤ (score_launch fl intel ctx).total)
        × ((score_launch fl intel ctx).total ≤ 100)
        × (gained (score_launch fl intel ctx).reasons ≤ 98)
        × (lost (score_launch fl intel ctx).reasons ≤ 163)
  unfolding score_launch total_of
  score_launch_antitone intel ctx more h =
      let farmed : ScoreContext = record ctx { farm_twins = more } in
      let (gain, loss) = farm_points_mono ctx.farm_twins more h in
      let (most_gain, most_loss) = points-Within intel ctx in
      (
        omega (
          arith,
          gained-points intel ctx,
          gained-points intel farmed,
          lost-points intel ctx,
          lost-points intel farmed,
          gain,
          loss,
        ),
        omega arith,
        most_gain,
        most_loss,
      )
