-- ===== src/Curve/Tax.antt =====
-- pons/tax.rs: the opening tax of a launch, a staircase over the seconds since it.
use native.Mathlib.Nat.{
  le_trans, mul-le-mul_left, pow-le-pow_right, one-le-pow, div-mul-le_self, le-div_iff_mul-le,
  div-le_self,
}
use bodkin.Prelude.{
  ℕ, zero, suc, ◌+◌, ◌-◌, ◌*◌, ◌/◌, ◌^◌, ◌≤◌, ◌<◌, ◌≡◌, refl, ◌↔◌, ◌||◌, arith, min, leb, ◌==◌,
  if◌then◌else◌, u64_mod, saturating_add,
}

abbrev pub live_start_bps : ℕ
live_start_bps = 9900

abbrev pub live_window_secs : ℕ
live_window_secs = 3

-- `u64::saturating_mul`
abbrev saturating_mul : ℕ → ℕ → ℕ
saturating_mul a b = min (a * b) (u64_mod - 1)

-- How far the start is shifted right at `elapsed_secs`.
abbrev shift : ℕ → ℕ → ℕ
shift window_secs elapsed_secs = saturating_mul 14 elapsed_secs / window_secs

unfoldable pub snipe_tax_bps : ℕ → ℕ → ℕ → ℕ
snipe_tax_bps start_bps window_secs elapsed_secs =
    if window_secs == 0 || leb window_secs elapsed_secs
    then 0
    else if leb 64 (shift window_secs elapsed_secs)
    then 0
    else start_bps / 2 ^ shift window_secs elapsed_secs

unfoldable pub boundary_instant : ℕ → ℕ → ℕ
boundary_instant launched_at entry_second = saturating_add u64_mod launched_at entry_second

unfoldable pub live_table : ℕ → ℕ
unfolding snipe_tax_bps
live_table elapsed_secs = snipe_tax_bps live_start_bps live_window_secs elapsed_secs

unfoldable pub tax_at_entry : ℕ → ℕ → ℕ → ℕ
unfolding snipe_tax_bps
tax_at_entry start_bps window_secs entry_second = snipe_tax_bps start_bps window_secs entry_second

div_mono : (a b k : ℕ) → 0 < k → a ≤ b → a / k ≤ b / k
div_mono a b k pos h = (le-div_iff_mul-le pos).1 (le_trans (div-mul-le_self a k) h)

-- A larger divisor gives no more.
div-antitone : (n j k : ℕ) → 0 < j → j ≤ k → n / k ≤ n / j
div-antitone n j k pos h =
    (le-div_iff_mul-le pos).1 (le_trans (mul-le-mul_left (n / k) h) (div-mul-le_self n k))

shift_mono : (w a b : ℕ) → 0 < w → a ≤ b → shift w a ≤ shift w b
shift_mono w a b pos h = div_mono _ _ w pos (omega arith)

shr-antitone : (n i j : ℕ) → i ≤ j → n / 2 ^ j ≤ n / 2 ^ i
shr-antitone n i j h =
    div-antitone n (2 ^ i) (2 ^ j) (one-le-pow i 2 (omega arith))
      (pow-le-pow_right {n = 2} (omega arith) h)

-- The opening tax never rises with time, is at most its start, and is zero from the end of the
-- window on.
pub snipe_tax_bps-staircase :
    (start w a b : ℕ)
    → a ≤ b
    → (snipe_tax_bps start w b ≤ snipe_tax_bps start w a)
      × (snipe_tax_bps start w a ≤ start)
      × (snipe_tax_bps start w (w + a) ≡ 0)
unfolding snipe_tax_bps
snipe_tax_bps-staircase start w a b h = (
  ground (arith, shift_mono w a b, shr-antitone start (shift w a) (shift w b)),
  ground (arith, div-le_self start (2 ^ shift w a)),
  ground arith,
)

live_table_late : (e : ℕ) → 3 ≤ e → live_table e ≡ 0
unfolding live_table
live_table_late e h = ground arith

-- On the live window every ceiling from 19 to 617 bps is one rule: it admits an entry from second
-- two on, and none before.
pub live_table_ceiling :
    (ceiling e : ℕ) → 19 ≤ ceiling → ceiling ≤ 617 → (live_table e ≤ ceiling) ↔ (2 ≤ e)
unfolding live_table
live_table_ceiling ceiling zero lo hi =
    let top : live_table 0 ≡ 9900 = refl in
    (λ h. absurd (omega (arith, top)), λ h. absurd (omega arith))
live_table_ceiling ceiling (suc zero) lo hi =
    let second : live_table 1 ≡ 618 = refl in
    (λ h. absurd (omega (arith, second)), λ h. absurd (omega arith))
live_table_ceiling ceiling (suc (suc zero)) lo hi =
    let third : live_table 2 ≡ 19 = refl in (λ h. omega arith, λ h. omega (arith, third))
live_table_ceiling ceiling (suc (suc (suc e))) lo hi =
    (λ h. omega arith, λ h. omega (arith, live_table_late (suc (suc (suc e))) (omega arith)))
