-- ===== src/Clock/Projection.antt =====
-- The projections between chain times and instants in pons/clock.rs.
use bodkin.Prelude.{
  ℕ, ◌+◌, ◌-◌, ◌*◌, ◌/◌, ◌≡◌, ◌≤◌, ◌<◌, refl, sym, inl, inr, Bool-cases, true, false, some, min,
  leb, ◌==◌, arith,
}
use bodkin.Clock.State.{
  ClockState, i64_max, u64_max, saturating_mul, Checked, ok, chain_now_ms, wall_for_chain_ms,
  instant_for_chain_ms,
}

ok-inj : {a b : ℕ} → ◌≡◌ {A = Checked ℕ} (ok a) (ok b) → a ≡ b
ok-inj h = cc

elapsed_lem : (anchor d at : ℕ) → at ≡ anchor + d * 1_000_000 → (at - anchor) / 1_000_000 ≡ d
elapsed_lem anchor d at h = omega arith

placed_at :
    (first last chain_ms anchor at : ℕ) (s : ClockState)
    → s.boundary_observed ≡ some anchor
    → saturating_mul s.boundary_ts 1_000 ≤ chain_ms
    → instant_for_chain_ms first last chain_ms s ≡ ok at
    → at ≡ anchor + (chain_ms - saturating_mul s.boundary_ts 1_000) * 1_000_000
unfolding instant_for_chain_ms
placed_at first last chain_ms anchor at s pinned after h =
    let reached : leb (saturating_mul s.boundary_ts 1_000) chain_ms ≡ true = ground arith in
    let placed = rw (instant_for_chain_ms, pinned, reached) at h in
    elim (Bool-cases
      (leb (anchor + (chain_ms - saturating_mul s.boundary_ts 1_000) * 1_000_000) last)) [
        | inl fits ↦ ok-inj (sym (rw fits at placed))
        | inr beyond ↦ cc (rw beyond at placed)
      ]

wall_placed :
    (chain_ms : ℕ) (s : ClockState)
    → 0 < s.boundary_ts
    → saturating_mul s.boundary_ts 1_000 ≤ chain_ms
    → wall_for_chain_ms chain_ms s
      ≡ min (s.boundary_wall_ms + (chain_ms - saturating_mul s.boundary_ts 1_000)) u64_max
unfolding wall_for_chain_ms
wall_placed chain_ms s seen after =
    let set : (s.boundary_ts == 0) ≡ false = ground arith in
    let reached : leb (saturating_mul s.boundary_ts 1_000) chain_ms ≡ true = ground arith in
    rw (wall_for_chain_ms, set, reached) refl

-- From the pinned boundary on, the instant that a chain time is projected to is the instant at which the
-- clock shows that time, and the wall time that it is projected to lies as many milliseconds after the
-- boundary's as the instant does, or is the last one there is.
pub chain_now-instant :
    (first last wall chain_ms anchor at : ℕ) (s : ClockState)
    → s.boundary_observed ≡ some anchor
    → 0 < s.boundary_ts
    → saturating_mul s.boundary_ts 1_000 ≤ chain_ms
    → chain_ms ≤ i64_max
    → instant_for_chain_ms first last chain_ms s ≡ ok at
    → (chain_now_ms at wall s ≡ chain_ms)
      × (wall_for_chain_ms chain_ms s
          ≡ min (s.boundary_wall_ms + (at - anchor) / 1_000_000) u64_max)
unfolding chain_now_ms wall_for_chain_ms instant_for_chain_ms
chain_now-instant first last wall chain_ms anchor at s pinned seen after small h =
    let b = saturating_mul s.boundary_ts 1_000 in
    let at_eq : at ≡ anchor + (chain_ms - b) * 1_000_000 =
      placed_at first last chain_ms anchor at s pinned after h in
    let passed : (at - anchor) / 1_000_000 ≡ chain_ms - b =
      elapsed_lem anchor (chain_ms - b) at at_eq in
    (rw (chain_now_ms, pinned, passed) (omega arith), rw passed (wall_placed chain_ms s seen after))
