-- ===== src/Book/Defs.antt =====
-- research.rs: `ResearchPortfolioBook`, the portfolio of a run with its file. How a book is written
-- as JSON and read back (serde_json) is a parameter; the file is replaced whole or not at all.
use bodkin.Prelude.{
  ℕ, ◌≡◌, Bool, true, false, not, ◌&&◌, ◌||◌, Option, none, some, option_eq, List, String, ◌==◌,
  if◌then◌else◌,
}
use text.Mathlib.Text.{◌==◌ as str_eq}
use bodkin.Research.Profile.{
  Profile, GraduationPolicy, exit_before_graduation, hold_through_graduation, Result, ok, err,
  validate, portfolio_io, portfolio_encoding, incompatible_portfolio_state,
}
use bodkin.Research.Portfolio.{Portfolio, Admission, create}
use bodkin.Research.Methods.{Snapshot, admission, snapshot}
use bodkin.Research.Calls.{Call, perform}

pub record PersistedPortfolio : Type 0 where
  pub schema : ℕ
  pub run_id : String
  pub portfolio : Portfolio

pub record Serde : Type 0 where
  pub write : PersistedPortfolio → Option (List ℕ)
  pub read : List ℕ → Option PersistedPortfolio

-- What is written is read back.
abbrev pub IsFaithful : Serde → Type 0
IsFaithful s =
    (b : PersistedPortfolio) (text : List ℕ) → s.write b ≡ some text → s.read text ≡ some b

-- The book in memory, and the file at its path.
pub record Book : Type 0 where
  pub state : PersistedPortfolio
  pub file : Option (List ℕ)

abbrev pub policy_eq : GraduationPolicy → GraduationPolicy → Bool
policy_eq exit_before_graduation exit_before_graduation = true
policy_eq hold_through_graduation hold_through_graduation = true
policy_eq _ _ = false

-- `==` on profiles.
unfoldable pub profile_eq : Profile → Profile → Bool
profile_eq a b =
    str_eq a.name b.name
    && a.starting_equity_wei == b.starting_equity_wei
    && a.max_commitment_bps == b.max_commitment_bps
    && a.max_drawdown_bps == b.max_drawdown_bps
    && a.max_open_positions == b.max_open_positions
    && a.entry_attempts == b.entry_attempts
    && a.entry_gas_limit == b.entry_gas_limit
    && a.exit_gas_limit == b.exit_gas_limit
    && a.max_fee_multiplier_bps == b.max_fee_multiplier_bps
    && a.min_taxed_buyers_s1 == b.min_taxed_buyers_s1
    && option_eq a.inactivity_seconds b.inactivity_seconds
    && option_eq a.max_curve_hold_seconds b.max_curve_hold_seconds
    && policy_eq a.graduation_policy b.graduation_policy

module _ (s : Serde) where
  -- `persist_portfolio`: the result and the file. `saved` says whether the file can be opened,
  -- written and committed.
  unfoldable pub persist_portfolio :
      Bool → PersistedPortfolio → Option (List ℕ) → Result (Unit {0}) × Option (List ℕ)
  persist_portfolio saved state file = elim (s.write state) [
    | none ↦ (err portfolio_encoding, file)
    | some encoded ↦ if saved then (ok tt, some encoded) else (err portfolio_io, file)
  ]

  -- What `open` starts from: the state in the file, or a new one. `readable` says whether the file
  -- can be read.
  unfoldable pub stored_state :
      Bool → Profile → (run_id : String) → Option (List ℕ) → Result PersistedPortfolio
  unfolding profile_eq
  stored_state readable profile run_id none = elim (create profile) [
    | err e ↦ err e
    | ok p ↦ ok (record { schema = 1; run_id = run_id; portfolio = p })
  ]
  stored_state readable profile run_id (some encoded) =
      if not readable then err portfolio_io else elim (s.read encoded) [
        | none ↦ err portfolio_encoding
        | some state ↦
            if not (state.schema == 1) || not (profile_eq state.portfolio.profile profile)
            then err incompatible_portfolio_state
            else ok state
      ]

  -- The `persist` at the end of `open`.
  abbrev pub persisted :
      PersistedPortfolio → Result (Unit {0}) × Option (List ℕ) → Result Book × Option (List ℕ)
  persisted state (ok _, file) = (ok (record { state = state; file = file }), file)
  persisted state (err e, file) = (err e, file)

  -- `ResearchPortfolioBook::open`: the book, if it opens, and the file in any case.
  unfoldable pub open_book :
      (readable saved : Bool) (run_id : String)
      → Profile
      → Option (List ℕ)
      → Result Book × Option (List ℕ)
  unfolding stored_state persist_portfolio
  open_book readable saved run_id profile file = elim (validate profile) [
    | err e ↦ (err e, file)
    | ok _ ↦ elim (stored_state readable profile run_id file) [
      | err e ↦ (err e, file)
      | ok state ↦ persisted state (persist_portfolio saved state file)
    ]
  ]

  abbrev pub with_file : Book → Result (Unit {0}) × Option (List ℕ) → Result (Unit {0}) × Book
  with_file b (answer, file) = (answer, record b { file = file })

  -- `settle_entry`, `fail_entry`, `mark` and `settle_exit` of the book: the call on the portfolio,
  -- and the save if the call went through.
  unfoldable pub book_call : Bool → Call → Book → Result (Unit {0}) × Book
  unfolding persist_portfolio
  book_call saved c b =
      let (answer, after) = perform c b.state.portfolio in
      let b' : Book = record b { state = record (b.state) { portfolio = after } } in
      elim answer [
        | err e ↦ (err e, b')
        | ok _ ↦ with_file b' (persist_portfolio saved b'.state b.file)
      ]

-- `ResearchPortfolioBook::admission`
unfoldable pub book_admission : Book → ℕ → ℕ → ℕ → Result Admission
book_admission b value gas reserve = admission b.state.portfolio value gas reserve

-- `ResearchPortfolioBook::snapshot`
unfoldable pub book_snapshot : Book → Result Snapshot
book_snapshot b = snapshot b.state.portfolio
