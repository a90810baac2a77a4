-- ===== src/Capture/Sizes.antt =====
-- The loop of `finish` ends.
use bodkin.Prelude.{
  ℕ, zero, suc, ◌+◌, ◌≤◌, ◌<◌, ◌≡◌, ◌≢◌, ap, sym, inl, inr, Option-cases, length, u64_mod, arith,
}
use bodkin.Capture.Format.{
  err, CaptureManifest, StopReason, Serde, HasDecimals, manifest_size, length_or_zero, unsettled,
}
use bodkin.Capture.Recorder.{
  Io, ResearchRecorder, settle, rounds, finish, close, store_manifest, manifest_of,
}

-- A round that does not end the loop.
settle-again :
    (s : Serde) (fuel bytes : ℕ) (m : CaptureManifest)
    → settle s (suc fuel) bytes m ≡ err unsettled
    → (total : ℕ) × (total ≡ bytes + manifest_size s m m.total_bytes)
      × (total < u64_mod)
      × (m.total_bytes ≢ total)
      × (settle s fuel bytes (record m { total_bytes = total }) ≡ err unsettled)
unfolding settle
settle-again s fuel bytes m h = elim (Option-cases (s.write_manifest m)) [
  | inl failed ↦ ground (arith, failed)
  | inr (encoded, wrote) ↦ (
    bytes + length encoded,
    ap (λ t. bytes + length_or_zero t) (sym wrote),
    ground (arith, wrote),
    ground (arith, wrote),
    ground (arith, wrote),
  )
]

-- From a total that its own text has not outgrown, and with a round for each byte that the total
-- can still grow by.
settle-ends :
    (s : Serde)
    → HasDecimals s
    → (fuel bytes : ℕ) (m : CaptureManifest) → m.total_bytes < u64_mod
    → m.total_bytes ≤ bytes + manifest_size s m m.total_bytes
    → bytes + manifest_size s m 0 + 19 < m.total_bytes + fuel
    → settle s fuel bytes m ≢ err unsettled
settle-ends s d zero bytes m fit low high h = absurd (omega (arith, d.bounded m m.total_bytes fit))
settle-ends s d (suc fuel) bytes m fit low high h =
    let (total, e, fit', moved, again) = settle-again s fuel bytes m h in
    settle-ends s d fuel bytes (record m { total_bytes = total }) fit'
      (omega (arith, d.monotone m m.total_bytes total (omega arith))) (ground (arith, moved)) again

-- The first round comes from the total 0.
settle_total :
    (s : Serde)
    → HasDecimals s
    → (bytes : ℕ) (m : CaptureManifest) → m.total_bytes ≡ 0
    → settle s rounds bytes m ≢ err unsettled
settle_total s d bytes m zeroed h =
    let (total, e, fit, moved, again) = settle-again s 20 bytes m h in
    let grown : manifest_size s m m.total_bytes ≡ manifest_size s m 0 =
      ap (manifest_size s m) zeroed in
    settle-ends s d 20 bytes (record m { total_bytes = total }) fit
      (omega (arith, grown, d.monotone m 0 total (omega arith))) (omega (arith, grown)) again

-- Finishing a capture always comes to an end: where a number is written in decimal, 21 rounds
-- settle the total that counts its own digits, whatever the disk and the recorder.
pub finish_ends :
    (s : Serde)
    → HasDecimals s
    → (reason : StopReason) (io : Io) (r : ResearchRecorder)
    → (finish s reason io r).0 ≢ err unsettled
unfolding finish close store_manifest
finish_ends s d reason io r =
    ground (arith, settle_total s d r.event_bytes (manifest_of reason io.now_ms r))
