-- ===== src/Scheduler/Deadline.antt =====
-- trade/scheduler.rs: `EntryDeadline`, when an entry is prepared and dispatched.
use bodkin.Prelude.{
  ℕ, ◌+◌, ◌-◌, ◌*◌, ◌≤◌, ◌<◌, ◌≡◌, refl, ◌⊎◌, inl, inr, Bool-cases, Bool, false, not, ◌&&◌, Option,
  none, some, arith, min, ltb, leb, if◌then◌else◌, u64_mod,
}
use bodkin.Prelude.Int.{ℤ, pos, negsuc}

abbrev pub dispatch_wake_tolerance_ms : ℕ
dispatch_wake_tolerance_ms = 25

pub record EntryDeadline : Type 0 where
  pub boundary_chain_ms : ℕ
  pub dispatch_chain_ms : ℕ
  pub latest_dispatch_chain_ms : ℕ

pub data DeadlineError : Type 0 where
  boundary_overflows tolerance_overflows : DeadlineError

pub data Made : Type 0 where
  made : EntryDeadline → Made
  failed : DeadlineError → Made

-- `u64::checked_add` and `checked_mul`: the value, if it fits.
abbrev fits : ℕ → Option ℕ
fits n = if ltb n u64_mod then some n else none

infixl 5 ◌>>=◌
abbrev ◌>>=◌ : Option ℕ → (ℕ → Option ℕ) → Option ℕ
none >>= f = none
some a >>= f = f a

-- `EntryDeadline::new`
unfoldable pub create : ℕ → ℕ → ℕ → Made
create launched_at entry_second lead_ms =
    elim (fits (launched_at + entry_second) >>= λ second. fits (second * 1_000)) [
      | none ↦ failed boundary_overflows
      | some boundary ↦
          let dispatch = boundary - lead_ms in
          elim (fits (dispatch + min dispatch_wake_tolerance_ms lead_ms)) [
            | none ↦ failed tolerance_overflows
            | some latest ↦ made (record {
              boundary_chain_ms = boundary;
              dispatch_chain_ms = dispatch;
              latest_dispatch_chain_ms = latest;
            })
          ]
    ]

unfoldable pub preparation_open : EntryDeadline → ℤ → Bool
preparation_open d (pos now) = leb now d.dispatch_chain_ms
preparation_open d (negsuc _) = false

unfoldable pub dispatch_open : EntryDeadline → ℤ → Bool
dispatch_open d (pos now) = leb now d.latest_dispatch_chain_ms
dispatch_open d (negsuc _) = false

-- A deadline is refused exactly if its boundary in milliseconds does not fit a word, and then for
-- that reason alone. Otherwise dispatch comes the lead before the boundary, or at zero, it may wake
-- up to 25 ms late, and where the lead fits before the boundary never past it.
pub create_exact :
    (launched_at entry_second lead_ms : ℕ)
    → ((u64_mod ≤ (launched_at + entry_second) * 1_000)
        × (create launched_at entry_second lead_ms ≡ failed boundary_overflows))
      ⊎ ((d : EntryDeadline) × (create launched_at entry_second lead_ms ≡ made d)
          × (d.boundary_chain_ms ≡ (launched_at + entry_second) * 1_000)
          × (d.boundary_chain_ms < u64_mod)
          × (d.dispatch_chain_ms ≡ d.boundary_chain_ms - lead_ms)
          × (d.dispatch_chain_ms ≤ d.latest_dispatch_chain_ms)
          × (d.latest_dispatch_chain_ms ≤ d.dispatch_chain_ms + dispatch_wake_tolerance_ms)
          × ((d.boundary_chain_ms < lead_ms) ⊎ (d.latest_dispatch_chain_ms ≤ d.boundary_chain_ms)))
unfolding create
create_exact launched_at entry_second lead_ms =
    let boundary = (launched_at + entry_second) * 1_000 in
    elim (Bool-cases (ltb boundary u64_mod)) [
      | inl fit ↦ inr (
        record {
          boundary_chain_ms = boundary;
          dispatch_chain_ms = boundary - lead_ms;
          latest_dispatch_chain_ms = boundary - lead_ms + min dispatch_wake_tolerance_ms lead_ms;
        },
        ground arith,
        refl,
        ground arith,
        refl,
        omega arith,
        omega arith,
        ground arith,
      )
      | inr over ↦ inl (ground arith, ground arith)
    ]

-- The windows are nested and half-closed: what may still be prepared may be dispatched, an earlier
-- instant is as good as a later one, and a negative chain time is never in a window.
pub windows_nested :
    (launched_at entry_second lead_ms : ℕ) (d : EntryDeadline) (now : ℕ) (then_ms : ℕ)
    → create launched_at entry_second lead_ms ≡ made d
    → now ≤ then_ms
    → (preparation_open d (pos now) && not (dispatch_open d (pos now)) ≡ false)
      × (dispatch_open d (pos then_ms) && not (dispatch_open d (pos now)) ≡ false)
      × (dispatch_open d (negsuc now) ≡ false)
unfolding create preparation_open dispatch_open
windows_nested launched_at entry_second lead_ms d now then_ms h le =
    (ground arith, ground arith, refl)
