-- ===== src/Reservation/Defs.antt =====
-- run.rs: `EntryResv`, `try_reserve` and the drop of a reservation, one atomic access at a time.
-- Entry tasks share the session's spend (a mutex), the count of reserved slots (an atomic `u64`) and
-- the position store, of which the count of open positions matters here.
use bodkin.Prelude.{
  ℕ, ◌+◌, ◌-◌, ◌%◌, Bool, true, false, Option, none, some, ltb, leb, if◌then◌else◌, u64_mod,
  u256_mod, saturating_add, wrapping_add,
}

-- The two fields of `SnipeRules` that bound a session.
pub record Limits : Type 0 where
  pub max_open_positions : ℕ
  pub session_budget_wei : ℕ

pub record Shared : Type 0 where
  pub spent : ℕ
  pub open_res : ℕ
  pub open_positions : ℕ

-- `fetch_add(1)` and `fetch_sub(1)` wrap.
unfoldable pub add_slot : Shared → Shared
add_slot s = record s { open_res = wrapping_add u64_mod s.open_res 1 }

unfoldable pub release_slot : Shared → Shared
release_slot s = record s { open_res = (s.open_res + u64_mod - 1) % u64_mod }

unfoldable pub slot_taken : Limits → ℕ → ℕ → Bool
slot_taken l open_now prior = leb l.max_open_positions (open_now + prior)

-- The block under the lock of the spend.
unfoldable pub charge : Limits → ℕ → Shared → Option Shared
charge l cost s =
    if ltb (l.session_budget_wei - s.spent) cost
    then none
    else some (record s { spent = saturating_add u256_mod s.spent cost })

-- What an entry reserves: its value, and the worst gas of its burst in live mode.
unfoldable pub risk_cost : (live : Bool) (worst_gas eth_per_buy : ℕ) → ℕ
risk_cost live worst_gas eth_per_buy =
    saturating_add u256_mod eth_per_buy (if live then worst_gas else 0)

-- `try_reserve` with nothing between its accesses: whether it reserves, and what it leaves.
unfoldable pub try_reserve : Limits → ℕ → Shared → Bool × Shared
unfolding add_slot release_slot slot_taken charge
try_reserve l cost s =
    let s' = add_slot s in
    if slot_taken l s.open_positions s.open_res
    then (false, release_slot s')
    else elim (charge l cost s') [ none ↦ (false, release_slot s') | some s'' ↦ (true, s'') ]

-- `EntryResv::commit` on the spend.
unfoldable pub settle : ℕ → ℕ → Shared → Shared
settle cost booked s =
    if leb cost booked
    then record s { spent = saturating_add u256_mod s.spent (booked - cost) }
    else record s { spent = s.spent - (cost - booked) }

-- The spend when a reservation is dropped that was neither committed nor retained.
unfoldable pub refund : ℕ → Shared → Shared
refund cost s = record s { spent = s.spent - cost }

-- `drop` of a reservation with nothing between its accesses.
unfoldable pub abandon : ℕ → Shared → Shared
unfolding release_slot refund
abandon cost s = refund cost (release_slot s)

-- Where an entry task stands between two accesses.
pub data Task : Type 0 where
  fresh : ℕ → Task
  looked : ℕ → ℕ → Task
  counted : ℕ → ℕ → ℕ → Task
  denied : Task
  reserved : ℕ → Task
  filled : ℕ → Task
  committed : ℕ → Task
  dropping : ℕ → Task
  retained : ℕ → Task
  finished : ℕ → Task

-- What the task does next, where it can choose. `opens` is `open_position`, which comes before the
-- commit; `books` is `commit`, `drops` an abort, `keeps` is `keep_all`.
pub data Choice : Type 0 where
  proceeds opens drops keeps : Choice
  books : ℕ → Choice

-- One access of one task; `none` where the choice does not fit the task.
unfoldable pub advance : Limits → Shared → Task → Choice → Option (Shared × Task)
unfolding add_slot release_slot slot_taken charge settle refund
advance l s (fresh cost) proceeds = some (s, looked cost s.open_positions)
advance l s (looked cost open_now) proceeds = some (add_slot s, counted cost open_now s.open_res)
advance l s (counted cost open_now prior) proceeds =
    if slot_taken l open_now prior
    then some (s, denied)
    else elim (charge l cost s) [ none ↦ some (s, denied) | some s' ↦ some (s', reserved cost) ]
advance l s denied proceeds = some (release_slot s, finished 0)
advance l s (reserved cost) opens =
    some (record s { open_positions = s.open_positions + 1 }, filled cost)
advance l s (reserved cost) (books booked) = some (settle cost booked s, committed booked)
advance l s (reserved cost) drops = some (release_slot s, dropping cost)
advance l s (reserved cost) keeps = some (s, retained cost)
advance l s (filled cost) (books booked) = some (settle cost booked s, committed booked)
advance l s (committed booked) proceeds = some (release_slot s, finished booked)
advance l s (dropping cost) proceeds = some (refund cost s, finished 0)
advance l s _ _ = none
