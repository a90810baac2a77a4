-- ===== src/Reservation/Tests.antt =====
-- Reservations on concrete numbers.
use bodkin.Prelude.{◌<◌, ◌≡◌, refl, true, false, [], ◌∷◌, arith}
use bodkin.Reservation.Defs.{Limits, Shared, fresh, looked, proceeds, advance, try_reserve}
use bodkin.Reservation.Ledger.{System, Balances, Reach, here, next, acts, Reach-Balances}
use bodkin.Reservation.Slots.{Reach-overcommits}

abbrev limits : Limits
limits = record { max_open_positions = 3; session_budget_wei = 1_000 }

abbrev idle : Shared
idle = record { spent = 0; open_res = 0; open_positions = 2 }

abbrev two_entries : System
two_entries = record { shared = idle; tasks = fresh 300 ∷ fresh 300 ∷ [] }

abbrev one_looked : System
one_looked = record { shared = idle; tasks = looked 300 2 ∷ fresh 300 ∷ [] }

two_balance : Balances limits two_entries
two_balance = record {
  spend = refl;
  slot_count = refl;
  budget = omega arith;
  threads = omega arith;
}

first_looks : Reach limits two_entries one_looked
unfolding advance
first_looks =
    next here (acts [] (fresh 300 ∷ []) (fresh 300) (looked 300 2) proceeds refl refl refl tt)

Reach-Balances_example : Balances limits one_looked
Reach-Balances_example = Reach-Balances limits (omega arith) two_balance first_looks

Reach-overcommits_example :
    (t : System) × Reach limits two_entries t × (3 < t.shared.open_positions)
Reach-overcommits_example = Reach-overcommits limits 2 300 refl (omega arith) (omega arith)

last_slot : (try_reserve limits 300 idle).0 ≡ true
unfolding try_reserve
last_slot = refl

no_slot : (try_reserve limits 300 (record idle { open_positions = 3 })).0 ≡ false
unfolding try_reserve
no_slot = refl
