-- ===== src/Research/Methods.antt =====
-- research.rs: admission of an entry, and the four methods that settle one, fail one, mark a
-- position and settle an exit.
use bodkin.Prelude.{
  ℕ, Bool, not, ◌||◌, Option, List, [], ◌∷◌, ◌++◌, map, String, ltb, leb, ◌==◌, if◌then◌else◌,
  length, any, find, checked_add, checked_sub, checked_mul, checked_div,
}
use mathlib.Core.Option
use bodkin.Prelude.Text.{is_empty_text}
use text.Mathlib.Text.{◌==◌ as str_eq}
use bodkin.Research.Profile
use bodkin.Research.Profile.{
  RiskState, Result, ok, err, ok_or, refuse_if, bps_of, admissions_halted, valuation_is_unknown,
  open_position_limit, zero_commitment, commitment_limit, insufficient_cash, arithmetic_overflow,
  admission_exceeded, stale_admission, duplicate_position, zero_inventory, position_not_found,
  invalid_exit_quantity,
}
use bodkin.Research.Portfolio.{
  Position, EntrySettlement, Admission, Portfolio, Action, ◌>>=◌, ◌>>◌, try, refuse, gets, modify,
  known_equity, is_active, refresh_risk, bump_revision,
}

unfoldable pub admission : Portfolio → ℕ → ℕ → ℕ → Result Admission
admission p entry_value_wei entry_gas_limit_wei exit_gas_reserve_wei =
    refuse_if (not (is_active p.risk_state)) (admissions_halted p.risk_state) (
      refuse_if (leb p.profile.max_open_positions (length p.positions)) open_position_limit (
        Profile.◌>>=◌ (known_equity p) λ known.
          Profile.◌>>=◌ (ok_or known valuation_is_unknown) λ equity.
            Profile.◌>>=◌
              (ok_or (checked_add entry_value_wei entry_gas_limit_wei) arithmetic_overflow)
              λ commitment. refuse_if (commitment == 0) zero_commitment (
                Profile.◌>>=◌ (bps_of equity p.profile.max_commitment_bps) λ ceiling.
                  refuse_if (ltb ceiling commitment) (commitment_limit commitment ceiling) (
                    Profile.◌>>=◌
                      (ok_or (checked_add commitment exit_gas_reserve_wei) arithmetic_overflow)
                      λ required.
                        Profile.◌>>=◌
                          (ok_or (checked_sub p.cash_wei p.reserved_exit_gas_wei)
                            arithmetic_overflow)
                          λ available.
                            refuse_if (ltb available required)
                              (insufficient_cash required available)
                              (ok (record {
                                revision = p.revision;
                                entry_value_wei = entry_value_wei;
                                entry_gas_limit_wei = entry_gas_limit_wei;
                                exit_gas_reserve_wei = exit_gas_reserve_wei;
                                commitment_wei = commitment;
                              }))))))

unfoldable pub validate_admission : Admission → Portfolio → Result (Unit {0})
validate_admission a p = refuse_if (not (a.revision == p.revision)) stale_admission (
    refuse_if (not (is_active p.risk_state)) (admissions_halted p.risk_state) (
      refuse_if (leb p.profile.max_open_positions (length p.positions)) open_position_limit
        (ok tt)))

abbrev pub has_id : String → Position → Bool
has_id id q = str_eq q.id id

abbrev pub opened : Admission → EntrySettlement → Position
opened a s = record {
  id = s.id;
  token = s.token;
  tokens = s.tokens;
  entry_value_wei = s.entry_value_wei;
  entry_gas_wei = s.entry_gas_wei;
  reserved_exit_gas_wei = a.exit_gas_reserve_wei;
  conservative_liquidation_wei = s.conservative_liquidation_wei;
}

-- The checks of `settle_entry`, which write nothing; the result is the actual commitment.
unfoldable pub check_settlement : Admission → EntrySettlement → Portfolio → Result ℕ
unfolding validate_admission
check_settlement a s p = Profile.◌>>=◌ (validate_admission a p) λ _.
    refuse_if (is_empty_text s.id || any (has_id s.id) p.positions) (duplicate_position s.id) (
      refuse_if (s.tokens == 0) zero_inventory (
        Profile.◌>>=◌ (ok_or (checked_add s.entry_value_wei s.entry_gas_wei) arithmetic_overflow)
          λ actual.
            refuse_if
              (ltb a.entry_value_wei s.entry_value_wei
                || ltb a.entry_gas_limit_wei s.entry_gas_wei
                || ltb a.commitment_wei actual)
              admission_exceeded (ok actual)))

-- `self.cash_wei = self.cash_wei.checked_sub(amount)...`
abbrev pub spend_cash : ℕ → Action (Unit {0})
spend_cash amount = do
  cash ← gets (λ p. p.cash_wei)
  left ← try (ok_or (checked_sub cash amount) (insufficient_cash amount cash))
  modify (λ p. record p { cash_wei = left })

-- `self.gas_spent_wei = self.gas_spent_wei.checked_add(gas)...`
abbrev pub count_gas : ℕ → Action (Unit {0})
count_gas gas = do
  spent ← gets (λ p. p.gas_spent_wei)
  total ← try (ok_or (checked_add spent gas) arithmetic_overflow)
  modify (λ p. record p { gas_spent_wei = total })

unfoldable pub settle_entry : Admission → EntrySettlement → Action (Unit {0})
settle_entry a s = do
  checked ← gets (check_settlement a s)
  actual_commitment ← try checked
  spend_cash actual_commitment
  reserved ← gets (λ p. p.reserved_exit_gas_wei)
  total ← try (ok_or (checked_add reserved a.exit_gas_reserve_wei) arithmetic_overflow)
  modify (λ p. record p { reserved_exit_gas_wei = total })
  count_gas s.entry_gas_wei
  modify (λ p. bump_revision (record p { positions = p.positions ++ opened a s ∷ [] }))
  refresh_risk

unfoldable pub fail_entry : Admission → ℕ → Action (Unit {0})
fail_entry a actual_gas_wei = do
  valid ← gets (validate_admission a)
  try valid
  refuse (ltb a.entry_gas_limit_wei actual_gas_wei || ltb a.commitment_wei actual_gas_wei)
      admission_exceeded
  spend_cash actual_gas_wei
  count_gas actual_gas_wei
  modify bump_revision
  refresh_risk

-- `iter_mut().find(...)` with the write to what it finds.
unfoldable pub update_first :
    (Position → Bool) → (Position → Position) → List Position → List Position
update_first test f [] = []
update_first test f (q ∷ qs) = if test q then f q ∷ qs else q ∷ update_first test f qs

-- `remove(index)` at the index that `position(...)` found.
unfoldable pub remove_first : (Position → Bool) → List Position → List Position
remove_first test [] = []
remove_first test (q ∷ qs) = if test q then qs else q ∷ remove_first test qs

unfoldable pub mark : String → Option ℕ → Action (Unit {0})
unfolding update_first
mark id value = do
  found ← gets (λ p. find (has_id id) p.positions)
  try (ok_or found (position_not_found id))
  modify (λ p. bump_revision (record p {
    positions =
        update_first (has_id id) (λ q. record q { conservative_liquidation_wei = value })
          p.positions;
  }))
  refresh_risk

-- The mark of what is left after a partial exit.
abbrev pub prorated : ℕ → ℕ → Option ℕ → Option ℕ
prorated remaining old_tokens value =
    Option.bind (Option.bind value (λ v. checked_mul v remaining)) (λ v. checked_div v old_tokens)

-- The last part of `settle_exit`: the position that is sold out leaves, another one shrinks.
unfoldable pub reduce : String → Position → ℕ → Action (Unit {0})
unfolding update_first remove_first
reduce id q remaining p =
    if remaining == 0
    then (do
      reserved ← gets (λ p. p.reserved_exit_gas_wei)
      left ← try (ok_or (checked_sub reserved q.reserved_exit_gas_wei) arithmetic_overflow)
      modify (λ p. record p {
        reserved_exit_gas_wei = left;
        positions = remove_first (has_id id) p.positions;
      }))
        p
    else (
      ok tt,
      record p {
        positions =
            update_first (has_id id)
              (λ r. record r {
                tokens = remaining;
                conservative_liquidation_wei =
                    prorated remaining q.tokens r.conservative_liquidation_wei;
              })
              p.positions;
      },
    )

-- `settle_exit` once its checks have passed: from the first write on.
unfoldable pub book_exit : String → Position → ℕ → ℕ → ℕ → ℕ → Action (Unit {0})
unfolding reduce
book_exit id q remaining proceeds_wei gas_wei left = do
  modify (λ p. record p { cash_wei = left })
  realized ← gets (λ p. p.realized_proceeds_wei)
  total ← try (ok_or (checked_add realized proceeds_wei) arithmetic_overflow)
  modify (λ p. record p { realized_proceeds_wei = total })
  count_gas gas_wei
  reduce id q remaining
  modify bump_revision
  refresh_risk

unfoldable pub settle_exit : String → ℕ → ℕ → ℕ → Action (Unit {0})
settle_exit id tokens_sold proceeds_wei gas_wei = do
  found ← gets (λ p. find (has_id id) p.positions)
  q ← try (ok_or found (position_not_found id))
  refuse (tokens_sold == 0 || ltb q.tokens tokens_sold) invalid_exit_quantity
  remaining ← try (ok_or (checked_sub q.tokens tokens_sold) arithmetic_overflow)
  cash ← gets (λ p. p.cash_wei)
  cash_with_proceeds ← try (ok_or (checked_add cash proceeds_wei) arithmetic_overflow)
  left ← try (
      ok_or (checked_sub cash_with_proceeds gas_wei) (insufficient_cash gas_wei cash_with_proceeds))
  book_exit id q remaining proceeds_wei gas_wei left

pub record Snapshot : Type 0 where
  pub cash_wei : ℕ
  pub equity_wei : Option ℕ
  pub peak_equity_wei : ℕ
  pub drawdown : Option ℕ
  pub reserved_exit_gas_wei : ℕ
  pub gas_spent_wei : ℕ
  pub realized_proceeds_wei : ℕ
  pub risk_state : RiskState
  pub open_positions : ℕ
  pub liquidation_targets : List String

unfoldable pub snapshot : Portfolio → Result Snapshot
snapshot p = Profile.◌>>=◌ (known_equity p) λ equity_wei. ok (record {
  cash_wei = p.cash_wei;
  equity_wei = equity_wei;
  peak_equity_wei = p.peak_equity_wei;
  drawdown = p.drawdown;
  reserved_exit_gas_wei = p.reserved_exit_gas_wei;
  gas_spent_wei = p.gas_spent_wei;
  realized_proceeds_wei = p.realized_proceeds_wei;
  risk_state = p.risk_state;
  open_positions = length p.positions;
  liquidation_targets = if p.drawdown_breached then map (λ q. q.id) p.positions else [];
})
