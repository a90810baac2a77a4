-- ===== src/Decision/Gates.antt =====
-- What `decide` of engine.rs stands for, and how it fits the reservation that follows.
use bodkin.Prelude.{
  ℕ, ◌+◌, ◌≡◌, ◌≤◌, ◌<◌, inl, inr, refl, sym, ◌∙◌, Bool, Bool-cases, true, false, not, ◌&&◌, ◌||◌,
  leb, Option, none, some, List, [], ◌∷◌, ltb, if◌then◌else◌, is_empty, length, All, u256_mod,
  arith,
}
use bodkin.Prelude.Int.{ℤ}
use bodkin.Curve.Quote.{CurveState}
use bodkin.Reservation.Defs.{Limits, Shared, try_reserve, risk_cost}
use bodkin.Reservation.Slots.{try_reserve_exact}
use bodkin.Positions.Rules.{Floats}
use bodkin.Decision.Rules.{SnipeRules}
use bodkin.Decision.Decide.{
  LaunchIntel, LaunchRecord, LaunchTx, Refusal, unreadable, launch_tx_missing, first, refused,
  decided, refusals, holds, failed, tax_of, exempt_of, is_open, checks, decide,
}

failed-none : (cs : List (Bool × Refusal)) → is_empty (failed cs) ≡ true → All (λ c. c.0 ≡ false) cs
failed-none [] h = tt
failed-none ((test, r) ∷ cs) h = elim (Bool-cases test) [
  | inl fails ↦ cc (rw fails at h)
  | inr passes ↦ (passes, failed-none cs (rw passes at h))
]

fires :
    (a b : Bool) (r q : Refusal) (why : List Refusal)
    → (if a then refused r else if b then refused q else decided why).fire ≡ true
    → (a ≡ false) × (b ≡ false) × (is_empty why ≡ true)
fires true b r q why h = cc
fires false true r q why h = cc
fires false false r q why h = (refl, refl, h)

module _ (fl : Floats) where
  refusals_none :
      (intel : LaunchIntel) (score : ℤ) (rules : SnipeRules fl) (open_count twins spent : ℕ)
      → is_empty (refusals fl intel score rules open_count twins spent) ≡ true
      → All (λ c. c.0 ≡ false) (checks fl intel score rules open_count twins spent)
  unfolding refusals
  refusals_none intel score rules open_count twins spent h =
      failed-none (checks fl intel score rules open_count twins spent) h

  decide-checks :
      (intel : LaunchIntel) (score : ℤ) (rules : SnipeRules fl) (open_count twins spent : ℕ)
      → (decide fl intel score rules open_count twins spent).fire ≡ true
      → (holds intel.tx ≡ true)
        × All (λ c. c.0 ≡ false) (checks fl intel score rules open_count twins spent)
  unfolding decide
  decide-checks intel score rules open_count twins spent h =
      let (read, found, none_failed) =
        fires (not (holds intel.meta) && not (holds intel.launch_record) && not (holds intel.curve))
          (not (holds intel.tx)) (unreadable (first intel.errors)) launch_tx_missing
          (refusals fl intel score rules open_count twins spent) h in
      (ground (arith, found), refusals_none intel score rules open_count twins spent none_failed)

  -- Where the sum of what is spent and the entry is a 256-bit number, a launch that `decide` fires for has
  -- a factory record with a creator tax within the limit, a launch transaction with no more exempt wallets
  -- than the limit, and a curve that neither graduated nor is ready to; a position is free, no more twins
  -- are known than the limit, and the sum is within the budget.
  pub decide-gates :
      (intel : LaunchIntel) (score : ℤ) (rules : SnipeRules fl) (open_count twins spent : ℕ)
      → spent + rules.eth_per_buy < u256_mod
      → (decide fl intel score rules open_count twins spent).fire ≡ true
      → ((r : LaunchRecord) × (intel.launch_record ≡ some r)
          × (r.creator_tax_bps ≤ rules.max_creator_tax_bps))
        × ((t : LaunchTx) × (intel.tx ≡ some t) × (length t.exemptions ≤ rules.max_exempt_wallets))
        × ((c : CurveState) × (intel.curve ≡ some c)
            × (c.graduated ≡ false)
            × (c.ready_to_graduate ≡ false))
        × (open_count < rules.max_open_positions)
        × (twins ≤ rules.max_farm_twins)
        × (spent + rules.eth_per_buy ≤ rules.session_budget_wei)
  decide-gates intel score rules open_count twins spent word h =
      let (found, passed) = decide-checks intel score rules open_count twins spent h in
      let record_ok = passed.0 in
      let slot = passed.1.0 in
      let budget = passed.1.1.0 in
      let farm = passed.1.1.1.0 in
      let tax = passed.1.1.1.1.1.1.1.1.0 in
      let exempt = passed.1.1.1.1.1.1.1.1.1.1.0 in
      let curve = passed.1.1.1.1.1.1.1.1.1.1.1.1.1.0 in
      (
        record_within intel.launch_record rules.max_creator_tax_bps record_ok tax,
        tx_within intel.tx rules.max_exempt_wallets found exempt,
        curve_open intel.curve curve,
        ground (arith, slot),
        ground (arith, farm),
        ground (arith, budget),
      )
    where
      record_within :
          (r : Option LaunchRecord) (most : ℕ)
          → not (holds r) ≡ false
          → (holds r && ltb most (tax_of fl r)) ≡ false
          → (x : LaunchRecord) × (r ≡ some x) × (x.creator_tax_bps ≤ most)
      record_within none most h k = cc
      record_within (some x) most h k = (x, refl, ground (arith, k))

      tx_within :
          (t : Option LaunchTx) (most : ℕ)
          → holds t ≡ true
          → (holds t && ltb most (exempt_of fl t)) ≡ false
          → (x : LaunchTx) × (t ≡ some x) × (length x.exemptions ≤ most)
      tx_within none most h k = cc
      tx_within (some x) most h k = (x, refl, ground (arith, k))

      curve_open :
          (c : Option CurveState)
          → not (is_open fl c) ≡ false
          → (x : CurveState) × (c ≡ some x) × (x.graduated ≡ false) × (x.ready_to_graduate ≡ false)
      curve_open none h = cc
      curve_open (some x) h = (x, refl, ground arith, ground arith)

  -- What bounds a session, of the rules.
  abbrev pub limits_of : SnipeRules fl → Limits
  limits_of rules = record {
    max_open_positions = rules.max_open_positions;
    session_budget_wei = rules.session_budget_wei;
  }

  absurd_le : {A : Type 0} {a b : ℕ} → a ≤ b → b < a → A
  absurd_le h k = let nothing : ⊥ = omega arith in elim nothing [ ]

  -- If `decide` fires on the open positions and on what is spent while nothing is reserved, then the
  -- reservation that comes next, with nothing in between, is granted in a dry run, and in live mode exactly
  -- if what is left of the budget covers the entry with the worst gas of its burst. What is spent is within
  -- the budget, and value and gas fit their word with it.
  pub decide-reserves :
      (intel : LaunchIntel) (score : ℤ) (rules : SnipeRules fl) (twins : ℕ) (s : Shared)
      (live : Bool) (worst_gas : ℕ)
      → s.open_res ≡ 0
      → s.spent ≤ rules.session_budget_wei
      → rules.session_budget_wei < u256_mod
      → s.spent + rules.eth_per_buy + worst_gas < u256_mod
      → (decide fl intel score rules s.open_positions twins s.spent).fire ≡ true
      → (try_reserve (limits_of rules) (risk_cost live worst_gas rules.eth_per_buy) s).0
        ≡ (not live || leb (s.spent + rules.eth_per_buy + worst_gas) rules.session_budget_wei)
  unfolding risk_cost
  decide-reserves intel score rules twins s live worst_gas unreserved within word sum h =
      let (has_record, has_tx, on_curve, slot, few, budget) =
        decide-gates intel score rules s.open_positions twins s.spent (omega (arith, sum)) h in
      elim (try_reserve_exact (limits_of rules) (risk_cost live worst_gas rules.eth_per_buy) s
        (omega (arith, unreserved)) within word) [
          | inl (granted, slots, res, spent, fits, back) ↦
              granted ∙ sym (ground (arith, spent, fits, sum))
          | inr (denied, same, inl full) ↦
              let full' : rules.max_open_positions ≤ s.open_positions =
                omega (arith, full, unreserved) in
              absurd_le full' slot
          | inr (denied, same, inr over) ↦ denied ∙ sym (ground (arith, over, budget, sum))
        ]
