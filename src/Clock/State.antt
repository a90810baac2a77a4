-- ===== src/Clock/State.antt =====
-- pons/clock.rs: `ChainClock`. Instants are nanoseconds; the wall clock and the instant of a call are its
-- arguments.
use bodkin.Prelude.{
  ℕ, ◌+◌, ◌-◌, ◌*◌, ◌/◌, ◌%◌, ◌^◌, Bool, false, not, ◌||◌, Option, none, some, List, [], ◌∷◌, min,
  ltb, leb, ◌==◌, if◌then◌else◌, saturating_add, u64_mod,
}
use bodkin.Prelude.Int.{ℤ, pos, negsuc}

abbrev pub i64_max : ℕ
i64_max = 2 ^ 63 - 1

abbrev pub u64_max : ℕ
u64_max = u64_mod - 1

-- `u64::saturating_mul`
abbrev pub saturating_mul : ℕ → ℕ → ℕ
saturating_mul a b = min (a * b) u64_max

-- -n, and a - b.
abbrev pub negative : ℕ → ℤ
negative n = if n == 0 then pos 0 else negsuc (n - 1)

abbrev pub difference : ℕ → ℕ → ℤ
difference a b = if leb b a then pos (a - b) else negative (b - a)

abbrev pub is_zero : ℤ → Bool
is_zero (pos n) = n == 0
is_zero (negsuc n) = false

-- `i64::saturating_mul(7)`, `i64::saturating_add`, and `/ 8`, which rounds towards zero.
abbrev pub times_seven : ℤ → ℤ
times_seven (pos n) = pos (min (n * 7) i64_max)
times_seven (negsuc n) = negative (min ((n + 1) * 7) (i64_max + 1))

abbrev pub add_i64 : ℤ → ℤ → ℤ
add_i64 (pos a) (pos b) = pos (min (a + b) i64_max)
add_i64 (pos a) (negsuc b) = difference a (b + 1)
add_i64 (negsuc a) (pos b) = difference b (a + 1)
add_i64 (negsuc a) (negsuc b) = negative (min (a + 1 + (b + 1)) (i64_max + 1))

abbrev pub eighth : ℤ → ℤ
eighth (pos n) = pos (n / 8)
eighth (negsuc n) = negative ((n + 1) / 8)

pub record ClockState : Type 0 where
  pub offset_ms : ℤ
  pub base_fee : ℕ
  pub last_ts : ℕ
  pub last_block : ℕ
  pub last_arrival_ms : ℕ
  pub last_observed : Option ℕ
  pub jitter_ms : ℕ
  pub boundary_ts : ℕ
  pub boundary_wall_ms : ℕ
  pub boundary_observed : Option ℕ
  pub boundary_observations : ℕ

abbrev pub default_clock : ClockState
default_clock = record {
  offset_ms = pos 0;
  base_fee = 100_000_000;
  last_ts = 0;
  last_block = 0;
  last_arrival_ms = 0;
  last_observed = none;
  jitter_ms = 0;
  boundary_ts = 0;
  boundary_wall_ms = 0;
  boundary_observed = none;
  boundary_observations = 0;
}

-- The arguments of `note_header_at`.
pub record Header : Type 0 where
  pub header_ts : ℕ
  pub arrival_ms : ℕ
  pub base_fee : ℕ
  pub block : ℕ
  pub observed_at : ℕ

-- `as_millis()` of the time since an instant, as a `u64`.
abbrev pub millis_since : ℕ → ℕ → ℕ
millis_since now then_at = min ((now - then_at) / 1_000_000) u64_max

abbrev pub abs_diff : ℕ → ℕ → ℕ
abs_diff a b = if leb b a then a - b else b - a

-- The moving average of the offset.
abbrev pub next_offset : Header → ClockState → ℤ
next_offset h s =
    let offset =
      difference (min h.arrival_ms i64_max) (min (saturating_mul h.header_ts 1_000) i64_max) in
    if is_zero s.offset_ms then offset else eighth (add_i64 (times_seven s.offset_ms) offset)

-- The moving average of the jitter: its sum wraps.
abbrev pub next_jitter : Header → ClockState → ℕ
next_jitter h s = elim (s.boundary_observed) [
  | none ↦ s.jitter_ms
  | some previous ↦
      let expected = saturating_mul (h.header_ts - s.boundary_ts) 1_000 in
      let deviation = abs_diff (millis_since h.observed_at previous) expected in
      if s.jitter_ms == 0
      then deviation
      else (saturating_mul s.jitter_ms 7 + deviation) % u64_mod / 8
]

-- The first header of a new second pins its boundary.
unfoldable pub pin_boundary : Header → ClockState → ClockState
pin_boundary h s =
    if s.boundary_ts == 0 || ltb s.boundary_ts h.header_ts
    then record s {
      jitter_ms = next_jitter h s;
      boundary_ts = h.header_ts;
      boundary_wall_ms = h.arrival_ms;
      boundary_observed = some h.observed_at;
      boundary_observations = saturating_add u64_mod s.boundary_observations 1;
    }
    else s

unfoldable pub note_header_at : Header → ClockState → ClockState
unfolding pin_boundary
note_header_at h s =
    if ltb h.block s.last_block
    then s
    else record (pin_boundary h (record s { offset_ms = next_offset h s })) {
      base_fee = h.base_fee;
      last_ts = h.header_ts;
      last_block = h.block;
      last_arrival_ms = h.arrival_ms;
      last_observed = some h.observed_at;
    }

unfoldable pub note_all : List Header → ClockState → ClockState
unfolding note_header_at
note_all [] s = s
note_all (h ∷ hs) s = note_all hs (note_header_at h s)

-- `i128` sums between `u64` and `i64` values do not overflow; `clamp` keeps them in range.
abbrev pub clamp : ℕ → ℤ → ℕ
clamp top (pos n) = min n top
clamp top (negsuc n) = 0

abbrev pub minus : ℕ → ℤ → ℤ
minus a (pos n) = difference a n
minus a (negsuc n) = pos (a + (n + 1))

abbrev pub plus : ℕ → ℤ → ℤ
plus a (pos n) = pos (a + n)
plus a (negsuc n) = difference a (n + 1)

-- At an instant and a wall time.
unfoldable pub chain_now_ms : ℕ → ℕ → ClockState → ℕ
chain_now_ms now wall_ms s = elim (s.boundary_observed) [
  | some observed ↦
      min (saturating_add u64_mod (saturating_mul s.boundary_ts 1_000) (millis_since now observed))
        i64_max
  | none ↦ clamp i64_max (minus wall_ms s.offset_ms)
]

unfoldable pub wall_for_chain_ms : ℕ → ClockState → ℕ
wall_for_chain_ms chain_ms s =
    if not (s.boundary_ts == 0)
    then clamp u64_max
        (plus s.boundary_wall_ms (difference chain_ms (saturating_mul s.boundary_ts 1_000)))
    else clamp u64_max (plus chain_ms s.offset_ms)

pub data ClockError : Type 0 where
  no_boundary_anchor exceeds_range precedes_range unseeded no_transition too_old too_jittery :
      ClockError

pub data Checked {ℓ} (A : Type ℓ) : Type ℓ where
  ok : A → Checked A
  err : ClockError → Checked A

-- An `Instant` has a first and a last value, which the platform chooses: `first` and `last`.
unfoldable pub instant_for_chain_ms : ℕ → ℕ → ℕ → ClockState → Checked ℕ
instant_for_chain_ms first last chain_ms s = elim (s.boundary_observed) [
  | none ↦ err no_boundary_anchor
  | some anchor ↦
      let boundary_chain_ms = saturating_mul s.boundary_ts 1_000 in
      if leb boundary_chain_ms chain_ms
      then (let at = anchor + (chain_ms - boundary_chain_ms) * 1_000_000 in
          if leb at last then ok at else err exceeds_range)
      else (let back = (boundary_chain_ms - chain_ms) * 1_000_000 in
          if leb (first + back) anchor then ok (anchor - back) else err precedes_range)
]

unfoldable pub sequencer_now : ℕ → ℕ → ClockState → ℕ
unfolding chain_now_ms
sequencer_now now wall_ms s = chain_now_ms now wall_ms s / 1_000

abbrev pub seeded : ClockState → Bool
seeded s = ltb 0 s.last_ts

unfoldable pub age_ms : ℕ → ClockState → ℕ
age_ms now s = elim (s.last_observed) [ none ↦ u64_max | some observed ↦ millis_since now observed ]

unfoldable pub require_quality : ℕ → ℕ → ℕ → ClockState → Checked (Unit {0})
unfolding age_ms
require_quality now max_age_ms max_jitter_ms s =
    if not (seeded s)
    then err unseeded
    else if ltb s.boundary_observations 2
    then err no_transition
    else if ltb max_age_ms (age_ms now s)
    then err too_old
    else if ltb max_jitter_ms s.jitter_ms
    then err too_jittery
    else ok tt
