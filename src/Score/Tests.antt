-- ===== src/Score/Tests.antt =====
-- The score of a concrete launch.
use bodkin.Prelude.{◌≡◌, ◌≤◌, refl, none, some, [], ◌∷◌, arith}
use bodkin.Prelude.Int.{pos}
use bodkin.Positions.Whole.{whole}
use bodkin.Decision.Decide.{LaunchIntel}
use bodkin.Score.Points.{gained, lost, total_of}
use bodkin.Score.Launch.{ScoreContext, watch, points, score_launch}
use bodkin.Score.Bounds.{score_launch_antitone}

abbrev intel : LaunchIntel
intel = record {
  deployer = "0x03";
  pair_address = 0;
  meta = some (record {
    name = "Token";
    symbol = "TOK";
    description = "short";
    socials = record { twitter = "x.com/t"; telegram = " "; website = "" };
  });
  launch_record = some (record { creator_fee_recipient = 4; creator_tax_bps = 100; phase = 0 });
  tx = some (record {
    from = 3;
    dev_buy_wei = 0;
    dev_tokens = 0;
    exemptions = 4 ∷ [];
    recipient = 3;
    timestamp = 1;
  });
  curve = none;
  errors = [];
}

abbrev context : ScoreContext
context = record {
  deployer = some (0, 0);
  activity = none;
  age_sec = none;
  farm_twins = 0;
  fire = pos 0;
  watch = pos 0;
  fee_recipient_is_contract = none;
}

-- 50, less 10 for no dev buy, 10 and 5 for the creator's tax, 8 for a link, less 5 for an exempt wallet
-- and 5 for a fresh deployer.
scored : (score_launch whole intel context).total ≡ 63
unfolding score_launch total_of points
scored = refl

watched : (score_launch whole intel context).verdict ≡ watch
unfolding score_launch total_of points
watched = refl

score_launch_antitone_example :
    ((score_launch whole intel (record context { farm_twins = 2 })).total
      ≤ (score_launch whole intel context).total)
    × ((score_launch whole intel context).total ≤ 100)
    × (gained (score_launch whole intel context).reasons ≤ 98)
    × (lost (score_launch whole intel context).reasons ≤ 163)
score_launch_antitone_example = score_launch_antitone whole intel context 2 (omega arith)
