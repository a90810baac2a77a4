-- ===== src/Reservation/Slots.antt =====
-- What the slot test is worth: alone it binds, and between other tasks it reads a stale count.
use bodkin.Prelude.{
  ℕ, suc, ◌+◌, ◌≤◌, ◌<◌, ◌≡◌, refl, ◌⊎◌, true, false, some, [], ◌∷◌, arith, u64_mod, u256_mod,
}
use bodkin.Reservation.Defs.{
  Limits, Shared, Task, fresh, looked, counted, reserved, filled, committed, finished, proceeds,
  opens, books, Choice, advance, try_reserve, abandon,
}
use bodkin.Reservation.Ledger.{System, Honours, acts, Reach, here, next}

-- With nothing in between, a spend within the budget and counts that fit their words, a
-- reservation is granted exactly if a slot and the budget are free; it then counts the cost and
-- the slot, within both limits. A refusal changes nothing, and dropping a granted reservation
-- gives back what it took.
pub try_reserve_exact :
    (l : Limits) (cost : ℕ) (s : Shared)
    → s.open_res + 1 < u64_mod
    → s.spent ≤ l.session_budget_wei
    → l.session_budget_wei < u256_mod
    → let (granted, t) = try_reserve l cost s in
      ((granted ≡ true)
        × (s.open_positions + t.open_res ≤ l.max_open_positions)
        × (t.open_res ≡ s.open_res + 1)
        × (t.spent ≡ s.spent + cost)
        × (t.spent ≤ l.session_budget_wei)
        × (abandon cost t ≡ s))
      ⊎ ((granted ≡ false)
          × (t ≡ s)
          × ((l.max_open_positions ≤ s.open_positions + s.open_res)
              ⊎ (l.session_budget_wei < s.spent + cost)))
unfolding try_reserve abandon
try_reserve_exact l cost s threads within word = ground arith

-- A system of two entry tasks.
abbrev pub pair : Shared → Task → Task → System
pair s a b = record { shared = s; tasks = a ∷ b ∷ [] }

abbrev pub shared : ℕ → ℕ → ℕ → Shared
shared spent open_res open_positions = record {
  spent = spent;
  open_res = open_res;
  open_positions = open_positions;
}

-- One more access, by the first or the second of two tasks.
module _ {l : Limits} {s : System} where
  by_first :
      {x : Shared} {a b : Task} (y : Shared) (a' : Task) (c : Choice)
      → Reach l s (pair x a b)
      → advance l x a c ≡ some (y, a')
      → Honours a c
      → Reach l s (pair y a' b)
  by_first {b = b} y a' c r e h = next r (acts [] (b ∷ []) _ a' c refl e refl h)

  by_second :
      {x : Shared} {a b : Task} (y : Shared) (b' : Task) (c : Choice)
      → Reach l s (pair x a b)
      → advance l x b c ≡ some (y, b')
      → Honours b c
      → Reach l s (pair y a b')
  by_second {a = a} y b' c r e h = next r (acts (a ∷ []) [] _ b' c refl e refl h)

module _ (l : Limits) (m cost : ℕ) (one : l.max_open_positions ≡ suc m)
    (covered : cost + cost ≤ l.session_budget_wei) (word : l.session_budget_wei < u256_mod) where
  abbrev start : System
  start = pair (shared 0 0 m) (fresh cost) (fresh cost)

  -- The first task has read the open positions; the second reserves the slot.
  overtaken : Reach l start (pair (shared cost 1 m) (looked cost m) (reserved cost))
  unfolding advance
  overtaken =
      let r₀ : Reach l start start = here in
      let r₁ = by_first (shared 0 0 m) (looked cost m) proceeds r₀ refl tt in
      let r₂ = by_second (shared 0 0 m) (looked cost m) proceeds r₁ refl tt in
      let r₃ = by_second (shared 0 1 m) (counted cost m 0) proceeds r₂ refl tt in
      by_second (shared cost 1 m) (reserved cost) proceeds r₃ (ground arith) tt

  -- The second task opens its position and hands the slot back.
  opened_once : Reach l start (pair (shared cost 0 (m + 1)) (looked cost m) (finished cost))
  unfolding advance
  opened_once =
      let r₁ = by_second (shared cost 1 (m + 1)) (filled cost) opens overtaken refl tt in
      let r₂ =
        by_second (shared cost 1 (m + 1)) (committed cost) (books cost) r₁ (ground arith)
          (omega arith) in
      by_second (shared cost 0 (m + 1)) (finished cost) proceeds r₂ refl tt

  -- When one slot is free and the budget covers two entries, two concurrent entry tasks can both
  -- get their slot and open one position more than the limit, whatever the limit is.
  pub Reach-overcommits :
      (t : System) × Reach l (pair (shared 0 0 m) (fresh cost) (fresh cost)) t
      × (l.max_open_positions < t.shared.open_positions)
  unfolding advance
  Reach-overcommits =
      let r₁ = by_first (shared cost 1 (m + 1)) (counted cost m 0) proceeds opened_once refl tt in
      let r₂ =
        by_first (shared (cost + cost) 1 (m + 1)) (reserved cost) proceeds r₁ (ground arith) tt in
      let r₃ = by_first (shared (cost + cost) 1 (m + 1 + 1)) (filled cost) opens r₂ refl tt in
      (pair (shared (cost + cost) 1 (m + 1 + 1)) (filled cost) (finished cost), r₃, omega arith)
