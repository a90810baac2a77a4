-- ===== src/Reservation/Ledger.antt =====
-- Interleavings of entry tasks keep the books of the session: the spend is what the tasks hold, the
-- slot count is how many hold a slot.
use bodkin.Prelude.{
  ℕ, suc, ◌+◌, ◌≤◌, ◌<◌, ◌≡◌, some, List, [], ◌∷◌, ◌++◌, arith, length, length-append, u64_mod,
  u256_mod,
}
use bodkin.Reservation.Defs.{
  Limits, Shared, Task, fresh, looked, counted, denied, reserved, filled, committed, dropping,
  retained, finished, Choice, proceeds, opens, drops, keeps, books, advance,
}

pub record System : Type 0 where
  pub shared : Shared
  pub tasks : List Task

-- A commit books no more than its reservation.
abbrev pub Honours : Task → Choice → Type 0
Honours (reserved cost) (books booked) = booked ≤ cost
Honours (filled cost) (books booked) = booked ≤ cost
Honours _ _ = Unit

-- One task makes one access, or the engine closes a position.
pub data Step (l : Limits) (s t : System) : Type 0 where
  acts :
      (before after : List Task) (k k' : Task) (c : Choice)
      → s.tasks ≡ before ++ k ∷ after
      → advance l s.shared k c ≡ some (t.shared, k')
      → t.tasks ≡ before ++ k' ∷ after
      → Honours k c
      → Step l s t
  closes :
      (n : ℕ)
      → s.shared.open_positions ≡ suc n
      → t.shared ≡ record (s.shared) { open_positions = n }
      → t.tasks ≡ s.tasks
      → Step l s t

pub data Reach (l : Limits) (s : System) : System → Type 0 where
  here : Reach l s s
  next : {t u : System} → Reach l s t → Step l t u → Reach l s u

-- What a task accounts for in the spend: its reservation, or what it booked.
abbrev pub held : Task → ℕ
held (reserved cost) = cost
held (filled cost) = cost
held (committed booked) = booked
held (dropping cost) = cost
held (retained cost) = cost
held (finished booked) = booked
held _ = 0

-- Whether a task holds a slot.
abbrev pub slots : Task → ℕ
slots (counted cost open_now prior) = 1
slots denied = 1
slots (reserved cost) = 1
slots (filled cost) = 1
slots (committed booked) = 1
slots (retained cost) = 1
slots _ = 0

abbrev pub sum_of : (Task → ℕ) → List Task → ℕ
sum_of f [] = 0
sum_of f (k ∷ ks) = f k + sum_of f ks

sum_of-append : (f : Task → ℕ) (xs ys : List Task) → sum_of f (xs ++ ys) ≡ sum_of f xs + sum_of f ys
sum_of-append f [] ys = omega arith
sum_of-append f (k ∷ xs) ys = omega (arith, sum_of-append f xs ys)

pub record Balances (l : Limits) (s : System) : Type 0 where
  pub spend : s.shared.spent ≡ sum_of held s.tasks
  pub slot_count : s.shared.open_res ≡ sum_of slots s.tasks
  pub budget : s.shared.spent ≤ l.session_budget_wei
  pub threads : length s.tasks < u64_mod

-- One access moves the spend and the slot count by what the task's own share changes by.
record Moves (l : Limits) (s t : Shared) (k k' : Task) : Type 0 where
  spend : t.spent + held k ≡ s.spent + held k'
  slot_count : t.open_res + slots k ≡ s.open_res + slots k'
  budget : t.spent ≤ l.session_budget_wei

module _ (l : Limits) (word : l.session_budget_wei < u256_mod) where
  advance-Moves :
      (s t : Shared) (k k' : Task) (c : Choice)
      → advance l s k c ≡ some (t, k')
      → Honours k c
      → held k ≤ s.spent
      → slots k ≤ s.open_res
      → s.open_res + 1 < u64_mod + slots k
      → s.spent ≤ l.session_budget_wei
      → Moves l s t k k'
  unfolding advance
  advance-Moves s t (fresh cost) k' proceeds e h a b m u = ground arith
  advance-Moves s t (looked cost open_now) k' proceeds e h a b m u = ground arith
  advance-Moves s t (counted cost open_now prior) k' proceeds e h a b m u = ground arith
  advance-Moves s t denied k' proceeds e h a b m u = ground arith
  advance-Moves s t (reserved cost) k' opens e h a b m u = ground arith
  advance-Moves s t (reserved cost) k' (books booked) e h a b m u = ground arith
  advance-Moves s t (reserved cost) k' drops e h a b m u = ground arith
  advance-Moves s t (reserved cost) k' keeps e h a b m u = ground arith
  advance-Moves s t (filled cost) k' (books booked) e h a b m u = ground arith
  advance-Moves s t (committed booked) k' proceeds e h a b m u = ground arith
  advance-Moves s t (dropping cost) k' proceeds e h a b m u = ground arith
  advance-Moves s t k k' c e h a b m u = ground arith

  slots-le-one : (k : Task) → slots k ≤ 1
  slots-le-one (counted cost open_now prior) = omega arith
  slots-le-one denied = omega arith
  slots-le-one (reserved cost) = omega arith
  slots-le-one (filled cost) = omega arith
  slots-le-one (committed booked) = omega arith
  slots-le-one (retained cost) = omega arith
  slots-le-one _ = omega arith

  sum_of-slots-le : (ks : List Task) → sum_of slots ks ≤ length ks
  sum_of-slots-le [] = omega arith
  sum_of-slots-le (k ∷ ks) = omega (arith, slots-le-one k, sum_of-slots-le ks)

  -- The shares of the tasks, with one of them taken out.
  split_tasks :
      (f : Task → ℕ) (before after : List Task) (k : Task) (ks : List Task)
      → ks ≡ before ++ k ∷ after
      → sum_of f ks ≡ sum_of f before + (f k + sum_of f after)
  split_tasks f before after k ks e = rw e (sum_of-append f before (k ∷ after))

  Step-Balances : {s t : System} → Step l s t → Balances l s → Balances l t
  Step-Balances {s} {t} (acts before after k k' c es moved et h) b =
      let held_s = split_tasks held before after k s.tasks es in
      let held_t = split_tasks held before after k' t.tasks et in
      let slots_s = split_tasks slots before after k s.tasks es in
      let slots_t = split_tasks slots before after k' t.tasks et in
      let len_s : length s.tasks ≡ length before + suc (length after) =
        rw es (length-append before (k ∷ after)) in
      let len_t : length t.tasks ≡ length before + suc (length after) =
        rw et (length-append before (k' ∷ after)) in
      let m =
        advance-Moves s.shared t.shared k k' c moved h (omega (arith, b.spend, held_s))
          (omega (arith, b.slot_count, slots_s))
          (omega (
            arith,
            b.slot_count,
            b.threads,
            slots_s,
            len_s,
            sum_of-slots-le before,
            sum_of-slots-le after,
          ))
          b.budget in
      record {
        spend = omega (arith, b.spend, m.spend, held_s, held_t);
        slot_count = omega (arith, b.slot_count, m.slot_count, slots_s, slots_t);
        budget = m.budget;
        threads = omega (arith, b.threads, len_s, len_t);
      }
  Step-Balances (closes n e es et) b = record {
    spend = ground (arith, b.spend);
    slot_count = ground (arith, b.slot_count);
    budget = ground (arith, b.budget);
    threads = ground (arith, b.threads);
  }

  -- From books that balance, with a budget that fits a word, and when every commit books at most
  -- what was reserved: however the accesses of the entry tasks interleave, the spend is the sum of
  -- what the tasks hold or have booked and within the budget, and the slot count is the number of
  -- tasks that hold a slot.
  pub Reach-Balances : {s t : System} → Balances l s → Reach l s t → Balances l t
  Reach-Balances b here = b
  Reach-Balances b (next r st) = Step-Balances st (Reach-Balances b r)
