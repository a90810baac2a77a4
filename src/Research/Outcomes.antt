-- ===== src/Research/Outcomes.antt =====
-- How each method on the portfolio ends: with an error before it wrote anything, with an overflow,
-- or in `refresh_risk` on books written out in full.
use bodkin.Prelude.{
  ℕ, ◌+◌, ◌-◌, ◌≤◌, ◌<◌, ◌≡◌, ◌⊎◌, inl, inr, Option-cases, false, Option, some, [], ◌∷◌, ◌++◌,
  String, arith, find, length, any, ◌==◌, if◌then◌else◌,
}
use bodkin.Prelude.Text.{is_empty_text}
use bodkin.Research.Profile.{Result, ok, err, arithmetic_overflow, active}
use bodkin.Research.Portfolio.{
  Position, EntrySettlement, Admission, Portfolio, refresh_risk, bump_revision,
}
use bodkin.Research.Methods.{
  validate_admission, has_id, opened, check_settlement, settle_entry, fail_entry, update_first,
  remove_first, mark, prorated, book_exit, settle_exit,
}
use bodkin.Research.Refresh.{Result-cases, refresh_risk-err}

-- The books after an entry, before the risk is assessed.
abbrev pub entered : Admission → EntrySettlement → Portfolio → Portfolio
entered a s p = bump_revision (record p {
  cash_wei = p.cash_wei - (s.entry_value_wei + s.entry_gas_wei);
  reserved_exit_gas_wei = p.reserved_exit_gas_wei + a.exit_gas_reserve_wei;
  gas_spent_wei = p.gas_spent_wei + s.entry_gas_wei;
  positions = p.positions ++ opened a s ∷ [];
})

-- What the checks of `settle_entry` establish.
pub record Settles (a : Admission) (s : EntrySettlement) (p : Portfolio) : Type 0 where
  pub current : a.revision ≡ p.revision
  pub is_active : p.risk_state ≡ active
  pub room : length p.positions < p.profile.max_open_positions
  pub unused : any (has_id s.id) p.positions ≡ false
  pub named : is_empty_text s.id ≡ false
  pub stocked : 0 < s.tokens
  pub value : s.entry_value_wei ≤ a.entry_value_wei
  pub gas : s.entry_gas_wei ≤ a.entry_gas_limit_wei
  pub commitment : s.entry_value_wei + s.entry_gas_wei ≤ a.commitment_wei

pub check_settlement-ok :
    (a : Admission) (s : EntrySettlement) (p : Portfolio) (c : ℕ)
    → check_settlement a s p ≡ ok c
    → Settles a s p × (c ≡ s.entry_value_wei + s.entry_gas_wei)
unfolding check_settlement
check_settlement-ok a s p c h = ground arith

pub settle_entry-ok :
    (a : Admission) (s : EntrySettlement) (p : Portfolio)
    → (settle_entry a s p).0 ≡ ok tt
    → Settles a s p
      × (s.entry_value_wei + s.entry_gas_wei ≤ p.cash_wei)
      × (settle_entry a s p ≡ refresh_risk (entered a s p))
unfolding settle_entry
settle_entry-ok a s p h = elim (Result-cases (check_settlement a s p)) [
  | inl (c, k) ↦ ground (arith, check_settlement-ok a s p c k)
  | inr (e, k) ↦ ground arith
]

-- A method that fails with anything but an overflow has not touched the portfolio.
abbrev pub IsAtomic : Portfolio → Result (Unit {0}) × Portfolio → Type 0
IsAtomic p (ok _, q) = Unit
IsAtomic p (err e, q) = (e ≡ arithmetic_overflow) ⊎ (q ≡ p)

refresh_risk-IsAtomic : (p q : Portfolio) → IsAtomic p (refresh_risk q)
refresh_risk-IsAtomic p q = elim (Result-cases (refresh_risk q).0) [
  | inl (u, k) ↦ ground arith
  | inr (e, k) ↦ ground (arith, refresh_risk-err q e k)
]

pub settle_entry-IsAtomic :
    (a : Admission) (s : EntrySettlement) (p : Portfolio) → IsAtomic p (settle_entry a s p)
unfolding settle_entry
settle_entry-IsAtomic a s p = elim (Result-cases (check_settlement a s p)) [
  | inl (c, k) ↦
      ground (arith, check_settlement-ok a s p c k, refresh_risk-IsAtomic p (entered a s p))
  | inr (e, k) ↦ ground arith
]

-- The books after an entry that failed and paid gas.
abbrev pub charged : ℕ → Portfolio → Portfolio
charged gas p =
    bump_revision (record p { cash_wei = p.cash_wei - gas; gas_spent_wei = p.gas_spent_wei + gas })

pub fail_entry-ok :
    (a : Admission) (gas : ℕ) (p : Portfolio)
    → (fail_entry a gas p).0 ≡ ok tt
    → (a.revision ≡ p.revision)
      × (p.risk_state ≡ active)
      × (gas ≤ a.entry_gas_limit_wei)
      × (gas ≤ p.cash_wei)
      × (fail_entry a gas p ≡ refresh_risk (charged gas p))
unfolding fail_entry validate_admission
fail_entry-ok a gas p h = ground arith

pub fail_entry-IsAtomic :
    (a : Admission) (gas : ℕ) (p : Portfolio) → IsAtomic p (fail_entry a gas p)
unfolding fail_entry validate_admission
fail_entry-IsAtomic a gas p = ground (arith, refresh_risk-IsAtomic p (charged gas p))

abbrev pub remarked : Option ℕ → Position → Position
remarked value q = record q { conservative_liquidation_wei = value }

-- The books after a new mark.
abbrev pub marked : String → Option ℕ → Portfolio → Portfolio
marked id value p =
    bump_revision (record p { positions = update_first (has_id id) (remarked value) p.positions })

pub mark-ok :
    (id : String) (value : Option ℕ) (p : Portfolio)
    → (mark id value p).0 ≡ ok tt
    → mark id value p ≡ refresh_risk (marked id value p)
unfolding mark
mark-ok id value p h = ground arith

pub mark-IsAtomic : (id : String) (value : Option ℕ) (p : Portfolio) → IsAtomic p (mark id value p)
unfolding mark
mark-IsAtomic id value p = ground (arith, refresh_risk-IsAtomic p (marked id value p))

abbrev pub shrunk : ℕ → ℕ → Position → Position
shrunk remaining old_tokens r = record r {
  tokens = remaining;
  conservative_liquidation_wei = prorated remaining old_tokens r.conservative_liquidation_wei;
}

-- The books after an exit: the position that is sold out leaves with its gas reserve, another one
-- keeps the tokens that are left and the mark in proportion.
abbrev pub sold : String → Position → ℕ → ℕ → ℕ → Portfolio → Portfolio
sold id q tokens proceeds gas p = bump_revision (record p {
  cash_wei = p.cash_wei + proceeds - gas;
  realized_proceeds_wei = p.realized_proceeds_wei + proceeds;
  gas_spent_wei = p.gas_spent_wei + gas;
  reserved_exit_gas_wei =
      if q.tokens - tokens == 0
      then p.reserved_exit_gas_wei - q.reserved_exit_gas_wei
      else p.reserved_exit_gas_wei;
  positions =
      if q.tokens - tokens == 0
      then remove_first (has_id id) p.positions
      else update_first (has_id id) (shrunk (q.tokens - tokens) q.tokens) p.positions;
})

pub settle_exit-ok :
    (id : String) (tokens proceeds gas : ℕ) (p : Portfolio)
    → (settle_exit id tokens proceeds gas p).0 ≡ ok tt
    → (q : Position) × (find (has_id id) p.positions ≡ some q)
      × (0 < tokens)
      × (tokens ≤ q.tokens)
      × (gas ≤ p.cash_wei + proceeds)
      × (settle_exit id tokens proceeds gas p ≡ refresh_risk (sold id q tokens proceeds gas p))
unfolding settle_exit book_exit
settle_exit-ok id tokens proceeds gas p h = elim (Option-cases (find (has_id id) p.positions)) [
  | inl missing ↦ ground arith
  | inr (q, found) ↦ (q, found, ground arith, ground arith, ground arith, ground arith)
]

-- From the first write on, an exit fails with an overflow only.
abbrev Overflows : Result (Unit {0}) → Type 0
Overflows (ok _) = Unit
Overflows (err e) = e ≡ arithmetic_overflow

refresh_risk-Overflows : (q : Portfolio) → Overflows (refresh_risk q).0
refresh_risk-Overflows q = elim (Result-cases (refresh_risk q).0) [
  | inl (u, k) ↦ ground arith
  | inr (e, k) ↦ ground (arith, refresh_risk-err q e k)
]

book_exit-Overflows :
    (id : String) (q : Position) (remaining proceeds gas left : ℕ) (p : Portfolio)
    → Overflows (book_exit id q remaining proceeds gas left p).0
unfolding book_exit
book_exit-Overflows id q remaining proceeds gas left p = grind (arith, refresh_risk-Overflows)

pub settle_exit-IsAtomic :
    (id : String) (tokens proceeds gas : ℕ) (p : Portfolio)
    → IsAtomic p (settle_exit id tokens proceeds gas p)
unfolding settle_exit
settle_exit-IsAtomic id tokens proceeds gas p = elim (Option-cases (find (has_id id) p.positions)) [
  | inl missing ↦ ground arith
  | inr (q, found) ↦ ground (
    arith,
    book_exit-Overflows id q (q.tokens - tokens) proceeds gas (p.cash_wei + proceeds - gas) p,
  )
]
