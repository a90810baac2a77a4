-- ===== src/Capture/RoundTrip.antt =====
-- What a recorder wrote is what a visitor of the finished capture sees.
use bodkin.Prelude.{
  ℕ, ◌≡◌, refl, ap, ◌∙◌, true, none, some, List, [], ◌∷◌, String, length, arith, All, if◌then◌else◌,
}
use mathlib.Core.Path.{fun_ext}
use text.Mathlib.TextEquality.{eq_iff}
use bodkin.Capture.Format.{
  CaptureLimits, ok, err, ◌>>=◌, ResearchEnvelope, integrity_mismatch, CaptureManifest, Serde,
  IsFaithful, ReadsBack, validate,
}
use bodkin.Capture.Recorder.{zero_hash, ResearchRecorder, directory_of, Place, create}
use bodkin.Capture.Scan.{
  Visitor, scan_capture, ignore, same_scan, bytes_eq, check_scan, verify_manifest, verify_capture,
  visit_capture,
}
use bodkin.Capture.Lines.{blank, visit_all, Logged-scan, bind_bind}
use bodkin.Capture.Sound.{
  Captured, created, recorded, finished, Sound, Closed, scan_in, finish-Sound,
}
use bodkin.Capture.Appends.{record_event-Sound}

module _ (s : Serde) where
  create-Sound :
      (place : Place) (now : ℕ) (run_id : String) (limits : CaptureLimits) (r : ResearchRecorder)
      → create place now run_id limits ≡ ok r
      → Sound s [] r
  unfolding create validate
  create-Sound place now run_id limits r h =
      let fresh : r ≡ record {
        writer = true;
        limits = limits;
        run_id = run_id;
        started_at_ms = now;
        sequence = 0;
        event_bytes = 0;
        rolling_hash = zero_hash;
        manifest = none;
        events = [];
        manifest_file = none;
      } =
        ground arith in
      rw fresh (record { open_log = λ _ _. blank; closed = λ m k. absurd (cc) })

  pub Captured-Sound :
      {es : List (ResearchEnvelope s.Value)} {r : ResearchRecorder} → Captured s es r → Sound s es r
  Captured-Sound (created {r = r} place now run_id limits h) =
      create-Sound place now run_id limits r h
  Captured-Sound (recorded {es = es} {r = r} c kind canonical content io lands) =
      record_event-Sound s kind canonical content io r es lands (Captured-Sound c)
  Captured-Sound (finished {r = r} c reason io) = finish-Sound s reason io r (Captured-Sound c)

  bytes_eq_refl : (xs : List ℕ) → bytes_eq xs xs ≡ true
  unfolding bytes_eq
  bytes_eq_refl [] = refl
  bytes_eq_refl (x ∷ xs) = ground (arith, bytes_eq_refl xs)

  visit_all-ignore :
      (es : List (ResearchEnvelope s.Value)) → visit_all {0} s (ignore s) es tt ≡ ok tt
  unfolding visit_all
  visit_all-ignore [] = refl
  visit_all-ignore (e ∷ es) = visit_all-ignore es

  check_scan-Closed :
      {es : List (ResearchEnvelope s.Value)} (m : CaptureManifest) (r : ResearchRecorder)
      (c : Closed s es m r)
      → check_scan s m (length c.text) (scan_in m) ≡ ok m
  unfolding check_scan
  check_scan-Closed m r c = ground (arith, c.total, c.within, bytes_eq_refl m.rolling_hash)

  Closed-scan {ℓ} :
      {W : Type ℓ} (visitor : Visitor s.Value W) (w : W) {es : List (ResearchEnvelope s.Value)}
      (m : CaptureManifest) (r : ResearchRecorder)
      → IsFaithful s
      → All (ReadsBack s) es
      → Closed s es m r
      → scan_capture s visitor m (directory_of r) w
        ≡ (visit_all s visitor es w >>= λ w'. ok (scan_in m, w'))
  unfolding scan_capture
  Closed-scan visitor w m r f back c = Logged-scan s visitor f m w c.chained c.versioned c.log back

  verify_manifest-Closed :
      {es : List (ResearchEnvelope s.Value)} (m : CaptureManifest) (r : ResearchRecorder)
      → IsFaithful s
      → All (ReadsBack s) es
      → (c : Closed s es m r) → verify_manifest s m (length c.text) (directory_of r) ≡ ok m
  unfolding verify_manifest
  verify_manifest-Closed {es} m r f back c =
      let scanned : scan_capture {0} s (ignore s) m (directory_of r) tt ≡ ok (scan_in m, tt) =
        Closed-scan {0} (ignore s) tt m r f back c
        ∙ ap (λ q. q >>= λ w'. ok (scan_in m, w')) (visit_all-ignore es) in
      ground (
        arith,
        c.schema,
        c.chained,
        eq_iff m.events_file "events.jsonl",
        c.named,
        scanned,
        check_scan-Closed m r c,
      )

  verify-manifest :
      {es : List (ResearchEnvelope s.Value)} (m : CaptureManifest) (r : ResearchRecorder)
      → IsFaithful s
      → (c : Closed s es m r)
      → verify_capture s (directory_of r) ≡ verify_manifest s m (length c.text) (directory_of r)
  unfolding verify_capture
  verify-manifest m r f c = ground (arith, c.filed, f.manifest_back m c.text c.wrote)

  same_scan_self : (m : CaptureManifest) → same_scan s (scan_in m) m ≡ true
  same_scan_self m = ground (arith, bytes_eq_refl m.rolling_hash)

  verify-Closed :
      {es : List (ResearchEnvelope s.Value)} (m : CaptureManifest) (r : ResearchRecorder)
      → IsFaithful s
      → All (ReadsBack s) es
      → Closed s es m r
      → verify_capture s (directory_of r) ≡ ok m
  verify-Closed m r f back c = verify-manifest m r f c ∙ verify_manifest-Closed m r f back c

  -- Once a recorder has a manifest, visiting its directory shows the visitor the envelopes that were
  -- written, all of them and in their order, and gives the manifest: whatever calls were made, in
  -- time or late, over the size or not, and whatever failed but a write of a line that failed after some
  -- of its bytes, or all, had landed. The data of each envelope is such that it is read back from its
  -- text, which JSON promises of all data but floats.
  pub visit_capture-recorded {ℓ} :
      {W : Type ℓ} (visitor : Visitor s.Value W) (w : W) {es : List (ResearchEnvelope s.Value)}
      (m : CaptureManifest) (r : ResearchRecorder)
      → IsFaithful s
      → Captured s es r
      → All (ReadsBack s) es
      → r.manifest ≡ some m
      → visit_capture s visitor (directory_of r) w ≡ (visit_all s visitor es w >>= λ w'. ok (m, w'))
  unfolding visit_capture
  visit_capture-recorded visitor w {es} m r f c back there =
      let done = (Captured-Sound c).closed m there in
      ap
        (λ q. q >>= λ m'. scan_capture s visitor m' (directory_of r) w >>= λ found.
          if same_scan s found.0 m' then ok (m', found.1) else err integrity_mismatch)
        (verify-Closed m r f back done)
      ∙ ap
          (λ q. q >>= λ found.
            if same_scan s found.0 m then ok (m, found.1) else err integrity_mismatch)
          (Closed-scan visitor w m r f back done)
      ∙ bind_bind (visit_all s visitor es w) (λ w'. ok (scan_in m, w'))
          (λ found. if same_scan s found.0 m then ok (m, found.1) else err integrity_mismatch)
      ∙ ap (λ k. visit_all s visitor es w >>= k) (fun_ext (λ w'. rw (same_scan_self m) refl))
