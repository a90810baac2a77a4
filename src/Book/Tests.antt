-- ===== src/Book/Tests.antt =====
-- A book under a small encoding: an entry that failed and cost gas, and a save that failed.
use bodkin.Prelude.{
  option_eq, ℕ, ◌≡◌, ◌≢◌, refl, sym, ap, Bool, true, false, not, ◌&&◌, Option, none, some, List, [],
  ◌∷◌, String, is_empty, ◌==◌, if◌then◌else◌, arith, Bool-cases, inl, inr,
}
use text.Mathlib.Text.{◌==◌ as str_eq}
use text.Mathlib.TextEquality.{eq_iff}
use bodkin.Research.Profile.{
  Profile, GraduationPolicy, exit_before_graduation, hold_through_graduation, default_profile,
  RiskState, active, ok, err, validate, arithmetic_overflow, drawdown_bps,
}
use bodkin.Research.Portfolio.{
  Position, Admission, create, initial, is_active, refresh_risk, known_equity, add_liquidation,
}
use bodkin.Research.Methods.{validate_admission, fail_entry}
use bodkin.Research.Calls.{Call, fails, perform}
use bodkin.Research.Validity.{IsValid}
use bodkin.Book.Defs.{
  PersistedPortfolio, Serde, IsFaithful, Book, policy_eq, profile_eq, open_book, book_call,
}
use bodkin.Book.Durable.{Life, first, called, open_book-IsValid, book_call-open_book}

-- A book with no position and no loss of more than the numbers below say.
abbrev plain : (run_id : String) (cash drawdown gas revision : ℕ) → PersistedPortfolio
plain run_id cash drawdown gas revision = record {
  schema = 1;
  run_id = run_id;
  portfolio = record (initial default_profile) {
    cash_wei = cash;
    drawdown = some drawdown;
    gas_spent_wei = gas;
    revision = revision;
  };
}

abbrev or_zero : Option ℕ → ℕ
or_zero none = 0
or_zero (some n) = n

abbrev is_some : Option ℕ → Bool
is_some none = false
is_some (some n) = true

abbrev is_plain : PersistedPortfolio → Bool
is_plain b =
    b.schema == 1
    && str_eq b.run_id "run"
    && profile_eq b.portfolio.profile default_profile
    && b.portfolio.peak_equity_wei == 50_000_000_000_000_000
    && is_some b.portfolio.drawdown
    && b.portfolio.reserved_exit_gas_wei == 0
    && b.portfolio.realized_proceeds_wei == 0
    && is_empty b.portfolio.positions
    && is_active b.portfolio.risk_state
    && not b.portfolio.drawdown_breached

abbrev read_plain : List ℕ → Option PersistedPortfolio
read_plain (cash ∷ drawdown ∷ gas ∷ revision ∷ []) = some (plain "run" cash drawdown gas revision)
read_plain _ = none

abbrev plain_serde : Serde
plain_serde = record {
  write = λ b.
      if is_plain b
      then some (
          b.portfolio.cash_wei
          ∷ or_zero b.portfolio.drawdown
          ∷ b.portfolio.gas_spent_wei
          ∷ b.portfolio.revision
          ∷ [])
      else none;
  read = read_plain;
}

policy_eq_sound : (a b : GraduationPolicy) → policy_eq a b ≡ true → a ≡ b
policy_eq_sound exit_before_graduation exit_before_graduation h = refl
policy_eq_sound hold_through_graduation hold_through_graduation h = refl
policy_eq_sound exit_before_graduation hold_through_graduation h = cc
policy_eq_sound hold_through_graduation exit_before_graduation h = cc

option_eq_sound : (a b : Option ℕ) → option_eq a b ≡ true → a ≡ b
option_eq_sound none none h = refl
option_eq_sound none (some b) h = cc
option_eq_sound (some a) none h = cc
option_eq_sound (some a) (some b) h = ground arith

profile_eq_sound : (a b : Profile) → profile_eq a b ≡ true → a ≡ b
unfolding profile_eq
profile_eq_sound a b h = ground (
  arith,
  eq_iff a.name b.name,
  option_eq_sound a.inactivity_seconds b.inactivity_seconds,
  option_eq_sound a.max_curve_hold_seconds b.max_curve_hold_seconds,
  policy_eq_sound a.graduation_policy b.graduation_policy,
)

is_active-eq : (r : RiskState) → is_active r ≡ true → r ≡ active
is_active-eq active h = refl
is_active-eq _ h = cc

is_empty-eq : (ps : List Position) → is_empty ps ≡ true → ps ≡ []
is_empty-eq [] h = refl
is_empty-eq (p ∷ ps) h = cc

is_some-eq : (o : Option ℕ) → is_some o ≡ true → o ≡ some (or_zero o)
is_some-eq none h = cc
is_some-eq (some n) h = refl

is_plain-eq :
    (b : PersistedPortfolio)
    → is_plain b ≡ true
    → b
      ≡ plain "run" b.portfolio.cash_wei
          (or_zero b.portfolio.drawdown)
          b.portfolio.gas_spent_wei
          b.portfolio.revision
is_plain-eq b h = ground (
  arith,
  eq_iff b.run_id "run",
  profile_eq_sound b.portfolio.profile default_profile,
  is_active-eq b.portfolio.risk_state,
  is_empty-eq b.portfolio.positions,
  is_some-eq b.portfolio.drawdown,
)

plain_serde-IsFaithful : IsFaithful plain_serde
plain_serde-IsFaithful b text h = elim (Bool-cases (is_plain b)) [
  | inr other ↦ absurd (ground (arith, other))
  | inl same ↦
      let shape : text
          ≡ b.portfolio.cash_wei
            ∷ or_zero b.portfolio.drawdown
            ∷ b.portfolio.gas_spent_wei
            ∷ b.portfolio.revision
            ∷ [] =
        ground (arith, same) in
      rw shape (ap some (sym (is_plain-eq b same)))
]

abbrev new_book : Book
new_book = record {
  state = plain "run" 50_000_000_000_000_000 0 0 0;
  file = some (50_000_000_000_000_000 ∷ 0 ∷ 0 ∷ 0 ∷ []);
}

opened : open_book plain_serde true true "run" default_profile none ≡ (ok new_book, new_book.file)
unfolding open_book create validate
opened = refl

abbrev granted : Admission
granted = record {
  revision = 0;
  entry_value_wei = 600_000_000_000_000;
  entry_gas_limit_wei = 300_000_000_000_000;
  exit_gas_reserve_wei = 1_000_000_000_000_000;
  commitment_wei = 900_000_000_000_000;
}

abbrev failing : Call
failing = fails granted 200_000_000_000_000

-- The save fails: the file still has the book as it was new.
abbrev unsaved : Book
unsaved = (book_call plain_serde false failing new_book).1

failing_fits : (perform failing new_book.state.portfolio).0 ≢ err arithmetic_overflow
unfolding perform fail_entry validate_admission refresh_risk known_equity add_liquidation
    drawdown_bps
failing_fits h = cc

new_book-Life : Life plain_serde default_profile new_book
new_book-Life = first true true "run" new_book.file opened

open_book-IsValid_example :
    (b : Book) × ((open_book plain_serde true true "later" default_profile unsaved.file).0 ≡ ok b)
    × (b.state.run_id ≡ unsaved.state.run_id)
    × IsValid b.state.portfolio
open_book-IsValid_example =
    open_book-IsValid plain_serde default_profile plain_serde-IsFaithful
      (called false failing new_book-Life failing_fits) "later"

saved_call : (book_call plain_serde true failing new_book).0 ≡ ok tt
unfolding book_call perform fail_entry validate_admission refresh_risk known_equity add_liquidation
    drawdown_bps profile_eq
saved_call = refl

book_call-open_book_example :
    (open_book plain_serde true true "later" default_profile
      (book_call plain_serde true failing new_book).1.file).0
    ≡ ok (book_call plain_serde true failing new_book).1
book_call-open_book_example =
    book_call-open_book plain_serde default_profile plain_serde-IsFaithful new_book-Life true
      failing "later" saved_call
