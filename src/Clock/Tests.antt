-- ===== src/Clock/Tests.antt =====
-- The chain clock on concrete headers.
use bodkin.Prelude.{ℕ, ◌+◌, ◌-◌, ◌*◌, ◌/◌, ◌^◌, ◌≡◌, refl, List, [], ◌∷◌, min, arith}
use bodkin.Clock.State.{
  ClockState, Header, ok, err, too_jittery, u64_max, default_clock, note_all, chain_now_ms,
  wall_for_chain_ms, instant_for_chain_ms, require_quality,
}
use bodkin.Clock.Boundary.{Pinned, accepted, note_all-pins}
use bodkin.Clock.Projection.{chain_now-instant}

abbrev header : ℕ → ℕ → ℕ → Header
header ts ms block = record {
  header_ts = ts;
  arrival_ms = 1_000_000 + ms;
  base_fee = 7;
  block = block;
  observed_at = ms * 1_000_000;
}

-- Two of one second, one of an older block, and one of the next second.
abbrev headers : List Header
headers = header 50 100 10 ∷ header 50 300 11 ∷ header 99 400 9 ∷ header 51 1110 12 ∷ []

abbrev clock : ClockState
clock = note_all headers default_clock

boundary_pinned :
    (clock.boundary_ts ≡ 51) × (clock.boundary_wall_ms ≡ 1_001_110) × (clock.jitter_ms ≡ 10)
unfolding note_all
boundary_pinned = (refl, refl, refl)

jitter_refused : require_quality 1_200_000_000 5_000 9 clock ≡ err too_jittery
unfolding note_all require_quality
jitter_refused = refl

note_all-pins_example : Pinned (accepted 0 headers) (note_all headers default_clock)
note_all-pins_example = note_all-pins headers

target : instant_for_chain_ms 0 (2 ^ 80) 51_250 clock ≡ ok 1_360_000_000
unfolding note_all instant_for_chain_ms
target = refl

chain_now-instant_example :
    (chain_now_ms 1_360_000_000 5 clock ≡ 51_250)
    × (wall_for_chain_ms 51_250 clock
        ≡ min (clock.boundary_wall_ms + (1_360_000_000 - 1_110_000_000) / 1_000_000) u64_max)
unfolding note_all
chain_now-instant_example =
    chain_now-instant 0 (2 ^ 80) 5 51_250 1_110_000_000 1_360_000_000 clock refl (omega arith)
      (omega arith) (omega arith) target
