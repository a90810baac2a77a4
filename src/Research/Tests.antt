-- ===== src/Research/Tests.antt =====
-- The portfolio on concrete numbers: an entry, a partial exit, and an exit whose gas breaches the
-- drawdown limit.
use mathlib.Core.Option
use bodkin.Prelude.{◌+◌, ℕ, ◌*◌, ◌≤◌, ◌≡◌, refl, some, List, [], ◌∷◌, true, if◌then◌else◌, is_empty}
use bodkin.Research.Profile.{
  ok, err, default_profile, validate, modeled_gas, modeled_entry_gas, bps_of,
  entry_value_for_equity, drawdown_bps, halted, liquidating, admissions_halted, invalid_profile,
  admission_exceeded,
}
use bodkin.Research.Portfolio.{
  EntrySettlement, Admission, Portfolio, create, initial, known_equity, add_liquidation,
  refresh_risk,
}
use bodkin.Research.Methods.{
  admission, validate_admission, check_settlement, settle_entry, update_first, remove_first, reduce,
  book_exit, settle_exit,
}
use bodkin.Research.Calls.{Call, settles, exits, perform, Reach, here, next}
use bodkin.Research.Outcomes.{IsAtomic}
use bodkin.Research.Validity.{IsValid, perform-IsValid, Reach-IsValid, perform-IsAtomic}
use bodkin.Research.Latch.{admission_after_breach}
use bodkin.Research.Cash.{invested, Accounts, Reach-Accounts, admission-solvent}

abbrev start : Portfolio
start = initial default_profile

abbrev granted : Admission
granted = record {
  revision = 0;
  entry_value_wei = 600_000_000_000_000;
  entry_gas_limit_wei = 300_000_000_000_000;
  exit_gas_reserve_wei = 1_000_000_000_000_000;
  commitment_wei = 900_000_000_000_000;
}

abbrev fill : EntrySettlement
fill = record {
  id = "first";
  token = 77;
  tokens = 1_000;
  entry_value_wei = 600_000_000_000_000;
  entry_gas_wei = 200_000_000_000_000;
  conservative_liquidation_wei = some 500_000_000_000_000;
}

abbrev entry : Call
entry = settles granted fill

abbrev half_exit : Call
half_exit = exits "first" 500 300_000_000_000_000 100_000_000_000_000

abbrev costly_exit : Call
costly_exit = exits "first" 500 0 6_000_000_000_000_000

abbrev after_entry : Portfolio
after_entry = (perform entry start).1

abbrev after_half : Portfolio
after_half = (perform half_exit after_entry).1

abbrev after_loss : Portfolio
after_loss = (perform costly_exit after_half).1

abbrev entries_made : List Call
entries_made = half_exit ∷ entry ∷ []

start_made : create default_profile ≡ ok start
unfolding create validate
start_made = refl

entry_done : (perform entry start).0 ≡ ok tt
unfolding perform settle_entry check_settlement validate_admission refresh_risk known_equity
    add_liquidation drawdown_bps
entry_done = refl

half_done : (perform half_exit after_entry).0 ≡ ok tt
unfolding perform settle_entry settle_exit book_exit reduce update_first check_settlement
    validate_admission refresh_risk known_equity add_liquidation drawdown_bps Option.bind
half_done = refl

loss_done : (perform costly_exit after_half).0 ≡ ok tt
unfolding perform settle_entry settle_exit book_exit reduce update_first remove_first
    check_settlement validate_admission refresh_risk known_equity add_liquidation drawdown_bps
    Option.bind
loss_done = refl

loss_breaches : after_loss.drawdown_breached ≡ true
unfolding perform settle_entry settle_exit book_exit reduce update_first remove_first
    check_settlement validate_admission refresh_risk known_equity add_liquidation drawdown_bps
    Option.bind
loss_breaches = refl

half_left : after_half.cash_wei ≡ 49_400_000_000_000_000
unfolding perform settle_entry settle_exit book_exit reduce update_first check_settlement
    validate_admission refresh_risk known_equity add_liquidation drawdown_bps Option.bind
half_left = refl

history : Reach start (half_exit ∷ entry ∷ []) after_half
history = next half_exit (next entry here entry_done) half_done

history_of_loss : Reach start (costly_exit ∷ half_exit ∷ entry ∷ []) after_loss
history_of_loss = next costly_exit history loss_done

Reach-IsValid_example : IsValid after_half
Reach-IsValid_example = Reach-IsValid default_profile start_made history

Reach-Accounts_example : Accounts (invested (half_exit ∷ entry ∷ [])) start after_half
Reach-Accounts_example = Reach-Accounts history

perform-IsValid_example : IsValid (perform half_exit after_entry).1
perform-IsValid_example =
    perform-IsValid half_exit after_entry
      (Reach-IsValid default_profile start_made (next entry here entry_done)) half_done

perform-IsAtomic_example : IsAtomic after_half (perform entry after_half)
perform-IsAtomic_example = perform-IsAtomic entry after_half

admission_after_breach_example :
    admission after_loss 1 1 1
    ≡ err (admissions_halted (if is_empty after_loss.positions then halted else liquidating))
admission_after_breach_example =
    admission_after_breach 1 1 1 (Reach-IsValid default_profile start_made history_of_loss)
      loss_breaches here

first_granted :
    admission start 600_000_000_000_000 300_000_000_000_000 1_000_000_000_000_000 ≡ ok granted
unfolding admission bps_of known_equity add_liquidation
first_granted = refl

admission-solvent_example :
    (granted.commitment_wei ≡ 600_000_000_000_000 + 300_000_000_000_000)
    × ((equity : ℕ) × (known_equity start ≡ ok (some equity))
        × (granted.commitment_wei * 10_000 ≤ equity * start.profile.max_commitment_bps))
    × (after_entry.cash_wei + (fill.entry_value_wei + fill.entry_gas_wei) ≡ start.cash_wei)
    × (start.cash_wei ≤ after_entry.cash_wei + granted.commitment_wei)
    × (after_entry.reserved_exit_gas_wei ≡ start.reserved_exit_gas_wei + 1_000_000_000_000_000)
    × (after_entry.reserved_exit_gas_wei ≤ after_entry.cash_wei)
unfolding perform
admission-solvent_example =
    admission-solvent start 600_000_000_000_000 300_000_000_000_000 1_000_000_000_000_000 granted
      fill first_granted entry_done

sized :
    entry_value_for_equity default_profile 50_000_000_000_000_000 100_000_000
    ≡ ok (some 895_000_000_000_000)
unfolding entry_value_for_equity modeled_entry_gas modeled_gas bps_of
sized = refl

gas_modeled : modeled_entry_gas default_profile 100_000_000 ≡ ok 105_000_000_000_000
unfolding modeled_entry_gas modeled_gas
gas_modeled = refl

start_known : known_equity start ≡ ok (some 50_000_000_000_000_000)
unfolding known_equity add_liquidation
start_known = refl

blank_name_refused :
    validate (record default_profile { name = " " }) ≡ err (invalid_profile "profile name is empty")
unfolding validate
blank_name_refused = refl

-- An entry that costs more than was admitted is refused and changes nothing.
dear_entry_refused :
    settle_entry granted (record fill { entry_gas_wei = 400_000_000_000_000 }) start
    ≡ (err admission_exceeded, start)
unfolding settle_entry check_settlement validate_admission
dear_entry_refused = refl
