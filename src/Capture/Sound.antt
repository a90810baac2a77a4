-- ===== src/Capture/Sound.antt =====
-- What holds of a recorder after any calls, and how `finish` keeps it.
use bodkin.Prelude.{
  ℕ, ◌≡◌, ◌⊎◌, refl, sym, ap, subst, inl, inr, Bool-cases, Option-cases, true, false, Option, none,
  some, List, [], ◌∷◌, ◌++◌, String, ltb, ◌==◌, length, arith, zero, suc,
}
use bodkin.Capture.Format.{
  CaptureLimits, CaptureError, Result, ok, err, EventKind, CanonicalObservation, ResearchEnvelope,
  StopReason, CaptureManifest, Serde, chain, version, checked_add_u64,
}
use bodkin.Capture.Recorder.{
  Io, whole, torn, ResearchRecorder, Place, create, manifest_of, CaptureRecordStatus, written,
  stopped, settle, rounds, store_manifest, close, finish, envelope_of, record_event,
}
use bodkin.Capture.Scan.{CaptureScan}
use bodkin.Capture.Lines.{Logged}

abbrev pub scan_of : ResearchRecorder → CaptureScan
scan_of r = record {
  event_count = r.sequence;
  event_bytes = r.event_bytes;
  rolling_hash = r.rolling_hash;
}

abbrev pub scan_in : CaptureManifest → CaptureScan
scan_in m = record {
  event_count = m.event_count;
  event_bytes = m.event_bytes;
  rolling_hash = m.rolling_hash;
}

-- The log after a call of `record`: longer by the envelope if the call wrote it.
abbrev pub after_record :
    {V : Type 0}
    → Result CaptureRecordStatus
    → ResearchEnvelope V
    → List (ResearchEnvelope V)
    → List (ResearchEnvelope V)
after_record (ok (written n)) e es = es ++ e ∷ []
after_record (ok (stopped m)) e es = es
after_record (err f) e es = es

-- The recorders that calls of `record` and `finish` lead to, and the envelopes that were written,
-- where a write of a line that fails has landed nothing of it; everything else may fail.
pub data Captured (s : Serde) : List (ResearchEnvelope s.Value) → ResearchRecorder → Type 0 where
  created :
      {r : ResearchRecorder} (place : Place) (now : ℕ) (run_id : String) (limits : CaptureLimits)
      → create place now run_id limits ≡ ok r
      → Captured s [] r
  recorded :
      {es : List (ResearchEnvelope s.Value)} {r : ResearchRecorder}
      → Captured s es r
      → (kind : EventKind) (canonical : Option CanonicalObservation) (content : s.Value) (io : Io)
      → (io.write ≡ whole) ⊎ (io.write ≡ torn 0)
      → Captured s
          (after_record
            (record_event s kind canonical content io r).0
            (envelope_of s kind canonical content io.now_ms r)
            es)
          (record_event s kind canonical content io r).1
  finished :
      {es : List (ResearchEnvelope s.Value)} {r : ResearchRecorder}
      → Captured s es r
      → (reason : StopReason) (io : Io) → Captured s es (finish s reason io r).1

pub Result-cases {ℓ} :
    {A : Type ℓ} (r : Result A) → ((e : CaptureError) × (r ≡ err e)) ⊎ ((a : A) × (r ≡ ok a))
Result-cases (err e) = inl (e, refl)
Result-cases (ok a) = inr (a, refl)

module _ (s : Serde) where
  -- A manifest that is written, and its events file.
  pub record Closed (es : List (ResearchEnvelope s.Value)) (m : CaptureManifest)
      (r : ResearchRecorder) : Type 0 where
    pub text : List ℕ
    pub log : Logged s m.run_id es (scan_in m) r.events
    pub wrote : s.write_manifest m ≡ some text
    pub filed : r.manifest_file ≡ some text
    pub total : checked_add_u64 m.event_bytes (length text) ≡ some m.total_bytes
    pub within : ltb m.limits.max_bytes m.total_bytes ≡ false
    pub schema : m.schema ≡ 1
    pub chained : m.chain_id ≡ chain
    pub versioned : m.version ≡ version
    pub named : m.events_file ≡ "events.jsonl"

  pub record Sound (es : List (ResearchEnvelope s.Value)) (r : ResearchRecorder) : Type 0 where
    pub open_log : r.manifest ≡ none → r.writer ≡ true → Logged s r.run_id es (scan_of r) r.events
    pub closed : (m : CaptureManifest) → r.manifest ≡ some m → Closed es m r

  settle-ok :
      (fuel bytes : ℕ) (m m' : CaptureManifest) (text : List ℕ)
      → settle s fuel bytes m ≡ ok (m', text)
      → (m' ≡ record m { total_bytes = m'.total_bytes })
        × (s.write_manifest m' ≡ some text)
        × (checked_add_u64 bytes (length text) ≡ some m'.total_bytes)
  unfolding settle
  settle-ok zero bytes m m' text h = cc
  settle-ok (suc fuel) bytes m m' text h = elim (Option-cases (s.write_manifest m)) [
    | inl failed ↦ absurd (ground (arith, failed))
    | inr (encoded, wrote) ↦ elim (Option-cases (checked_add_u64 bytes (length encoded))) [
      | inl over ↦ absurd (ground (arith, wrote, over))
      | inr (total, sum) ↦ elim (Bool-cases (m.total_bytes == total)) [
        | inl done ↦ ground (arith, wrote, sum, done)
        | inr more ↦
            settle-ok fuel bytes (record m { total_bytes = total }) m' text
              (ground (arith, wrote, sum, more))
      ]
    ]
  ]

  -- What `finish` does once the writer is gone: nothing that counts, or it stores a manifest.
  abbrev Stored : Io → StopReason → ResearchRecorder → ResearchRecorder → Type 0
  Stored io reason r after =
      (m : CaptureManifest) × (text : List ℕ) × (settle s rounds r.event_bytes
          (manifest_of reason io.now_ms r)
        ≡ ok (m, text))
      × (ltb r.limits.max_bytes m.total_bytes ≡ false)
      × (after ≡ record r { writer = false; manifest_file = some text; manifest = some m })

  abbrev Unfinished : ResearchRecorder → Type 0
  Unfinished r = (r.manifest ≡ none) × (r.writer ≡ false)

  finish-gone :
      (reason : StopReason) (io : Io) (r : ResearchRecorder)
      → r.manifest ≡ none
      → (finish s reason io r).1.manifest ≡ none
      → (finish s reason io r).1.writer ≡ false
  unfolding finish close store_manifest
  finish-gone reason io r e h = ground arith

  finish-Stored :
      (reason : StopReason) (io : Io) (r : ResearchRecorder) (m : CaptureManifest)
      → r.manifest ≡ none
      → (finish s reason io r).1.manifest ≡ some m
      → (r.writer ≡ true) × Stored io reason r (finish s reason io r).1
  unfolding finish close store_manifest
  finish-Stored reason io r m e h =
      elim (Result-cases (settle s rounds r.event_bytes (manifest_of reason io.now_ms r))) [
        | inl (f, failed) ↦ absurd (ground (arith, failed))
        | inr ((m', text), settled) ↦ (
          ground (arith, settled),
          (m', text, settled, ground (arith, settled), ground (arith, settled)),
        )
      ]

  stored-Sound :
      (reason : StopReason) (io : Io) {es : List (ResearchEnvelope s.Value)} (r : ResearchRecorder)
      (m : CaptureManifest) (text : List ℕ)
      → settle s rounds r.event_bytes (manifest_of reason io.now_ms r) ≡ ok (m, text)
      → ltb r.limits.max_bytes m.total_bytes ≡ false
      → Logged s r.run_id es (scan_of r) r.events
      → Sound es (record r { writer = false; manifest_file = some text; manifest = some m })
  stored-Sound reason io {es} r m text settled fits log =
      let (shape, wrote, total) =
        settle-ok rounds r.event_bytes (manifest_of reason io.now_ms r) m text settled in
      let after : ResearchRecorder = record r {
        writer = false;
        manifest_file = some text;
        manifest = some m;
      } in
      record {
        open_log = λ e w. absurd (cc);
        closed = λ k e.
            let same : m ≡ k = cc in
            subst (λ k'. Closed es k' after) same
              (record {
                text = text;
                log = subst (λ k'. Logged s k'.run_id es (scan_in k') r.events) (sym shape) log;
                wrote = wrote;
                filed = refl;
                total =
                    subst (λ b. checked_add_u64 b (length text) ≡ some m.total_bytes)
                      (sym (ap (λ k'. k'.event_bytes) shape)) total;
                within =
                    subst (λ l. ltb l.max_bytes m.total_bytes ≡ false)
                      (sym (ap (λ k'. k'.limits) shape)) fits;
                schema = ap (λ k'. k'.schema) shape;
                chained = ap (λ k'. k'.chain_id) shape;
                versioned = ap (λ k'. k'.version) shape;
                named = ap (λ k'. k'.events_file) shape;
              });
      }

  pub finish-Sound :
      (reason : StopReason) (io : Io) {es : List (ResearchEnvelope s.Value)} (r : ResearchRecorder)
      → Sound es r
      → Sound es (finish s reason io r).1
  finish-Sound reason io r h = elim (Option-cases r.manifest) [
    | inr (m, there) ↦
        let same : (finish s reason io r).1 ≡ r = unfold finish in ground (arith, there) in
        rw same h
    | inl unfinished ↦ elim (Option-cases (finish s reason io r).1.manifest) [
      | inl still ↦ record {
        open_log = λ e w. absurd (cc (finish-gone reason io r unfinished still));
        closed = λ m e. absurd (cc);
      }
      | inr (m, now) ↦
          let (was_open, (m', text, settled, fits, e)) =
            finish-Stored reason io r m unfinished now in
          rw e (stored-Sound reason io r m' text settled fits (h.open_log unfinished was_open))
    ]
  ]
