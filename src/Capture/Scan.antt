-- ===== src/Capture/Scan.antt =====
-- research.rs: `scan_capture`, `verify_capture` and `visit_capture`, on the two files of a capture.
use bodkin.Prelude.{
  ℕ, Bool, true, false, not, ◌||◌, ◌&&◌, none, some, List, [], ◌∷◌, ◌++◌, ltb, ◌==◌, if◌then◌else◌,
  u64_mod, length, saturating_add,
}
use text.Mathlib.Text.{◌==◌ as str_eq}
use bodkin.Capture.Format.{
  Result, ok, err, ◌>>=◌, ResearchEnvelope, CaptureManifest, Serde, newline, chain, checked_add_u64,
  capture_io, capture_encoding, invalid_manifest, integrity_mismatch, arithmetic_overflow,
}
use bodkin.Capture.Recorder.{Directory, zero_hash}

abbrev pub before_line : ℕ → List (List ℕ) → List (List ℕ)
before_line b [] = (b ∷ []) ∷ []
before_line b (l ∷ ls) = (b ∷ l) ∷ ls

-- What `read_until(b'\n')` reads from a file, time after time.
unfoldable pub read_lines : List ℕ → List (List ℕ)
read_lines [] = []
read_lines (b ∷ bs) =
    let rest = read_lines bs in if b == newline then (b ∷ []) ∷ rest else before_line b rest

unfoldable pub ends_line : List ℕ → Bool
ends_line [] = false
ends_line (b ∷ []) = b == newline
ends_line (b ∷ c ∷ bs) = ends_line (c ∷ bs)

-- `==` on hashes.
unfoldable pub bytes_eq : List ℕ → List ℕ → Bool
bytes_eq [] [] = true
bytes_eq (a ∷ as') (b ∷ bs) = a == b && bytes_eq as' bs
bytes_eq _ _ = false

pub record CaptureScan : Type 0 where
  pub event_count : ℕ
  pub event_bytes : ℕ
  pub rolling_hash : List ℕ

abbrev pub scan_start : CaptureScan
scan_start = record { event_count = 0; event_bytes = 0; rolling_hash = zero_hash }

-- The test of an envelope against the manifest.
abbrev pub fits : {V : Type 0} → CaptureManifest → ℕ → ResearchEnvelope V → Bool
fits m count e =
    e.schema == 1
    && str_eq e.run_id m.run_id
    && e.chain_id == m.chain_id
    && str_eq e.version m.version
    && e.sequence == count

-- A visitor has a state of its own.
abbrev pub Visitor {ℓ} : Type 0 → Type ℓ → Type ℓ
Visitor V W = ResearchEnvelope V → W → Result W

module _ (s : Serde) where
  unfoldable pub scan_line {ℓ} :
      {W : Type ℓ}
      → Visitor s.Value W
      → CaptureManifest
      → List ℕ
      → CaptureScan × W
      → Result (CaptureScan × W)
  scan_line visitor m encoded (scan, w) =
      if not (ends_line encoded) then err integrity_mismatch else elim (s.read_envelope encoded) [
        | none ↦ err capture_encoding
        | some e ↦
            if not (fits m scan.event_count e)
            then err integrity_mismatch
            else elim (checked_add_u64 scan.event_bytes (length encoded)) [
              | none ↦ err arithmetic_overflow
              | some bytes ↦ visitor e w >>= λ w'. ok (
                record {
                  event_count = saturating_add u64_mod scan.event_count 1;
                  event_bytes = bytes;
                  rolling_hash = s.keccak256 (scan.rolling_hash ++ encoded);
                },
                w',
              )
            ]
      ]

  unfoldable pub scan_lines {ℓ} :
      {W : Type ℓ}
      → Visitor s.Value W
      → CaptureManifest
      → List (List ℕ)
      → CaptureScan × W
      → Result (CaptureScan × W)
  scan_lines visitor m [] st = ok st
  scan_lines visitor m (l ∷ ls) st = scan_line visitor m l st >>= scan_lines visitor m ls

  unfoldable pub scan_capture {ℓ} :
      {W : Type ℓ} → Visitor s.Value W → CaptureManifest → Directory → W → Result (CaptureScan × W)
  scan_capture visitor m dir w = elim (dir.events) [
    | none ↦ err capture_io
    | some bytes ↦ scan_lines visitor m (read_lines bytes) (scan_start, w)
  ]

  -- `|_| Ok(())`
  abbrev pub ignore : Visitor s.Value (Unit {0})
  ignore e w = ok tt

  abbrev pub same_scan : CaptureScan → CaptureManifest → Bool
  same_scan scan m =
      scan.event_count == m.event_count
      && scan.event_bytes == m.event_bytes
      && bytes_eq scan.rolling_hash m.rolling_hash

  -- The comparison of `verify_capture`, with the length of the manifest's file.
  unfoldable pub check_scan : CaptureManifest → ℕ → CaptureScan → Result CaptureManifest
  check_scan m len scan = elim (checked_add_u64 scan.event_bytes len) [
    | none ↦ err arithmetic_overflow
    | some total ↦
        if not (same_scan scan m) || not (total == m.total_bytes) || ltb m.limits.max_bytes total
        then err integrity_mismatch
        else ok m
  ]

  unfoldable pub verify_manifest : CaptureManifest → ℕ → Directory → Result CaptureManifest
  verify_manifest m len dir =
      if not (m.schema == 1)
        || not (m.chain_id == chain)
        || not (str_eq m.events_file "events.jsonl")
      then err invalid_manifest
      else scan_capture {0} ignore m dir tt >>= λ found. check_scan m len found.0

  unfoldable pub verify_capture : Directory → Result CaptureManifest
  unfolding verify_manifest scan_capture check_scan
  verify_capture dir = elim (dir.manifest) [
    | none ↦ err capture_io
    | some bytes ↦ elim (s.read_manifest bytes) [
      | none ↦ err capture_encoding
      | some m ↦ verify_manifest m (length bytes) dir
    ]
  ]

  -- With the state that the visitor ends in.
  unfoldable pub visit_capture {ℓ} :
      {W : Type ℓ} → Visitor s.Value W → Directory → W → Result (CaptureManifest × W)
  visit_capture visitor dir w = verify_capture dir >>= λ m.
      scan_capture visitor m dir w >>= λ found.
      if same_scan found.0 m then ok (m, found.1) else err integrity_mismatch
