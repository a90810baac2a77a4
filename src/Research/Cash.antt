-- ===== src/Research/Cash.antt =====
-- Where the money is: the accounts of a history, the solvency of an admitted entry, and the sizes
-- that the profile's ratios allow.
use native.Mathlib.Nat.{div-add-mod, mod-lt, div-le_of_le-mul}
use bodkin.Prelude.{
  ℕ, ◌+◌, ◌-◌, ◌*◌, ◌/◌, ◌≤◌, ◌<◌, ◌≡◌, inl, inr, some, length, List, [], ◌∷◌, arith, u256_mod,
}
use bodkin.Research.Profile.{
  active, ok, drawdown_bps, bps_of, modeled_entry_gas, entry_value_for_equity,
}
use bodkin.Research.Portfolio.{EntrySettlement, Admission, Portfolio, known_equity}
use bodkin.Research.Methods.{admission, settle_entry}
use bodkin.Research.Refresh.{Equity-cases, refresh_risk-SameBook}
use bodkin.Research.Outcomes.{
  settle_entry-ok, fail_entry-ok, mark-ok, settle_exit-ok, entered, charged, marked, sold,
}
use bodkin.Research.Calls.{Call, settles, fails, marks, exits, perform, Reach, here, next}

-- What the entries of a history paid for their tokens.
unfoldable pub invested : List Call → ℕ
invested [] = 0
invested (settles a s ∷ cs) = s.entry_value_wei + invested cs
invested (_ ∷ cs) = invested cs

-- The accounts agree: `spent` went into tokens between `p` and `q`.
abbrev pub Accounts : ℕ → Portfolio → Portfolio → Type 0
Accounts spent p q =
    q.cash_wei + q.gas_spent_wei + spent + p.realized_proceeds_wei
    ≡ p.cash_wei + p.gas_spent_wei + q.realized_proceeds_wei

perform-Accounts :
    (c : Call) (p : Portfolio)
    → (perform c p).0 ≡ ok tt
    → Accounts (invested (c ∷ [])) p (perform c p).1
unfolding perform invested
perform-Accounts (settles a s) p h =
    ground (arith, settle_entry-ok a s p h, refresh_risk-SameBook (entered a s p))
perform-Accounts (fails a gas) p h =
    ground (arith, fail_entry-ok a gas p h, refresh_risk-SameBook (charged gas p))
perform-Accounts (marks id value) p h =
    ground (arith, mark-ok id value p h, refresh_risk-SameBook (marked id value p))
perform-Accounts (exits id tokens proceeds gas) p h =
    let (q, _, _, _, enough, e) = settle_exit-ok id tokens proceeds gas p h in
    let same = refresh_risk-SameBook (sold id q tokens proceeds gas p) in
    rw e (omega (arith, same.cash, same.gas, same.realized, enough))

invested-cons : (c : Call) (cs : List Call) → invested (c ∷ cs) ≡ invested (c ∷ []) + invested cs
unfolding invested
invested-cons (settles a s) cs = omega arith
invested-cons (fails a gas) cs = omega arith
invested-cons (marks id value) cs = omega arith
invested-cons (exits id tokens proceeds gas) cs = omega arith

-- Over any history of successful calls no wei is lost or made up: the cash that is left, the gas
-- spent and what the entries paid add up to the cash and gas before and the proceeds since.
pub Reach-Accounts :
    {p : Portfolio} {cs : List Call} {q : Portfolio} → Reach p cs q → Accounts (invested cs) p q
unfolding invested
Reach-Accounts here = omega arith
Reach-Accounts {p = p} (next {cs = cs} {q = q} c r done) =
    omega (arith, invested-cons c cs, Reach-Accounts r, perform-Accounts c q done)

-- What a granted admission has been checked for.
pub record Granted (p : Portfolio) (value gas reserve : ℕ) (a : Admission) (equity : ℕ)
    : Type 0 where
  pub known : known_equity p ≡ ok (some equity)
  pub ceiling : (value + gas) * 10_000 ≤ equity * p.profile.max_commitment_bps
  pub cash : value + gas + reserve + p.reserved_exit_gas_wei ≤ p.cash_wei
  pub reserved : a.exit_gas_reserve_wei ≡ reserve
  pub commitment : a.commitment_wei ≡ value + gas

pub admission-ok :
    (p : Portfolio) (value gas reserve : ℕ) (a : Admission)
    → admission p value gas reserve ≡ ok a
    → (equity : ℕ) × Granted p value gas reserve a equity
unfolding admission bps_of
admission-ok p value gas reserve a h = elim (Equity-cases (known_equity p)) [
  | inl (e, k) ↦ ground arith
  | inr (inl k) ↦ ground arith
  | inr (inr (equity, k)) ↦ (
    equity,
    record {
      known = k;
      ceiling = ground arith;
      cash = ground arith;
      reserved = ground arith;
      commitment = ground arith;
    },
  )
]

-- The commitment of an admission that is granted is the value and the gas that were asked for, within the
-- profile's share of the known equity. Settling an entry under it pays no more than the commitment, adds
-- the entry's own exit reserve to those that are held, and leaves enough cash for all of them.
pub admission-solvent :
    (p : Portfolio) (value gas reserve : ℕ) (a : Admission) (s : EntrySettlement)
    → admission p value gas reserve ≡ ok a
    → (settle_entry a s p).0 ≡ ok tt
    → let q = (settle_entry a s p).1 in
      (a.commitment_wei ≡ value + gas)
      × ((equity : ℕ) × (known_equity p ≡ ok (some equity))
          × (a.commitment_wei * 10_000 ≤ equity * p.profile.max_commitment_bps))
      × (q.cash_wei + (s.entry_value_wei + s.entry_gas_wei) ≡ p.cash_wei)
      × (p.cash_wei ≤ q.cash_wei + a.commitment_wei)
      × (q.reserved_exit_gas_wei ≡ p.reserved_exit_gas_wei + reserve)
      × (q.reserved_exit_gas_wei ≤ q.cash_wei)
admission-solvent p value gas reserve a s h done =
    let (equity, g) = admission-ok p value gas reserve a h in
    let (t, enough, e) = settle_entry-ok a s p done in
    let same = refresh_risk-SameBook (entered a s p) in
    (
      g.commitment,
      (equity, g.known, omega (arith, g.ceiling, g.commitment)),
      rw e (omega (arith, same.cash, enough)),
      rw e (omega (arith, same.cash, t.commitment, enough)),
      rw e (omega (arith, same.reserved, g.reserved)),
      rw e (
          omega (
            arith, same.cash, same.reserved, g.cash, g.reserved, g.commitment, t.commitment, enough,
          )),
    )

div_bounds : (x m : ℕ) → 0 < m → (x / m * m ≤ x) × (x < (x / m + 1) * m)
div_bounds x m h = omega (arith, div-add-mod x m, mod-lt x h)

-- The drawdown of a positive peak is the loss in basis points, rounded down, and at most 10000; it
-- overflows for no peak of up to a ten-thousandth of the number range.
pub drawdown_bps_exact :
    (peak equity : ℕ)
    → 0 < peak
    → peak * 10_000 < u256_mod
    → (d : ℕ) × (drawdown_bps peak equity ≡ ok d)
      × (d ≤ 10_000)
      × (d * peak ≤ (peak - equity) * 10_000)
      × ((peak - equity) * 10_000 < (d + 1) * peak)
unfolding drawdown_bps
drawdown_bps_exact peak equity pos small =
    let loss = (peak - equity) * 10_000 in
    let (low, high) = div_bounds loss peak pos in
    let top : loss / peak ≤ 10_000 = div-le_of_le-mul peak (omega arith) in
    (loss / peak, ground arith, top, low, high)

-- The entry value that the sizing rule gives for the known equity is admitted with the modeled gas:
-- on an active portfolio with a free slot, where value, gas and reserve are not all free of charge
-- and the unreserved cash covers them, the commitment never exceeds the ceiling.
pub sized_entry-admitted :
    (p : Portfolio) (equity fee value gas reserve : ℕ)
    → known_equity p ≡ ok (some equity)
    → entry_value_for_equity p.profile equity fee ≡ ok (some value)
    → modeled_entry_gas p.profile fee ≡ ok gas
    → p.risk_state ≡ active
    → length p.positions < p.profile.max_open_positions
    → 0 < value + gas
    → value + gas + reserve + p.reserved_exit_gas_wei ≤ p.cash_wei
    → p.cash_wei < u256_mod
    → (a : Admission) × (admission p value gas reserve ≡ ok a)
      × (a.commitment_wei * 10_000 ≤ equity * p.profile.max_commitment_bps)
unfolding entry_value_for_equity bps_of admission
sized_entry-admitted p equity fee value gas reserve known sized modeled live room pos covered word =
    (
      record {
        revision = p.revision;
        entry_value_wei = value;
        entry_gas_limit_wei = gas;
        exit_gas_reserve_wei = reserve;
        commitment_wei = value + gas;
      },
      ground arith,
      ground arith,
    )
