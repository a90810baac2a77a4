-- ===== src/Capture/Appends.antt =====
-- `record` keeps what holds of a recorder.
use bodkin.Prelude.{
  ℕ, ◌+◌, ◌≡◌, refl, sym, ap, ◌∙◌, ◌⊎◌, subst, inl, inr, Bool-cases, Option-cases, true, false,
  Option, none, some, List, [], ◌∷◌, ◌++◌, ltb, leb, length, saturating_add, u64_mod, arith,
}
use bodkin.Capture.Format.{
  Result, ok, err, EventKind, CanonicalObservation, ResearchEnvelope, StopReason, duration_limit,
  size_limit, arithmetic_overflow, capture_finished, capture_io, capture_encoding, CaptureManifest,
  Serde, newline, chain, version, checked_add_u64,
}
use bodkin.Capture.Recorder.{
  Io, whole, torn, take, ResearchRecorder, CaptureRecordStatus, written, stopped, finish, append,
  envelope_of, record_event, as_stopped, counted, next_bytes,
}
use mathlib.Core.List.{append-nil}
use bodkin.Capture.Lines.{logged}
use bodkin.Capture.Sound.{after_record, Sound, finish-Sound}

take_none : (bytes : List ℕ) → take 0 bytes ≡ []
take_none [] = refl
take_none (b ∷ bs) = refl

module _ (s : Serde) where
  after_record-stopped :
      {V : Type 0} (p : Result CaptureManifest × ResearchRecorder) (e : ResearchEnvelope V)
      (es : List (ResearchEnvelope V))
      → (after_record (as_stopped p).0 e es ≡ es) × ((as_stopped p).1 ≡ p.1)
  after_record-stopped (ok m, r) e es = (refl, refl)
  after_record-stopped (err f, r) e es = (refl, refl)

  abbrev pub Follows :
      ResearchEnvelope s.Value
      → List (ResearchEnvelope s.Value)
      → Result CaptureRecordStatus × ResearchRecorder
      → Type 0
  Follows e es p = Sound s (after_record p.0 e es) p.1

  stopped-Sound :
      (reason : StopReason) (io : Io) (e : ResearchEnvelope s.Value)
      (es : List (ResearchEnvelope s.Value)) (r : ResearchRecorder)
      → Sound s es r
      → Follows e es (as_stopped (finish s reason io r))
  stopped-Sound reason io e es r h =
      let (log, state) = after_record-stopped (finish s reason io r) e es in
      rw log (rw state (finish-Sound s reason io r h))

  counted-Sound :
      (e : ResearchEnvelope s.Value) (es : List (ResearchEnvelope s.Value)) (r : ResearchRecorder)
      (text : List ℕ) (bytes : ℕ)
      → s.write_envelope e ≡ some text
      → e.schema ≡ 1
      → e.run_id ≡ r.run_id
      → e.chain_id ≡ chain
      → e.version ≡ version
      → e.sequence ≡ r.sequence
      → checked_add_u64 r.event_bytes (length (text ++ newline ∷ [])) ≡ some bytes
      → r.manifest ≡ none
      → r.writer ≡ true
      → Sound s es r
      → Follows e es (counted s (text ++ newline ∷ []) r)
  counted-Sound e es r text bytes wrote a b c d g sum none_yet was_open h =
      let line = text ++ newline ∷ [] in
      let after : ResearchRecorder = record r {
        events = r.events ++ line;
        rolling_hash = s.keccak256 (r.rolling_hash ++ line);
        sequence = saturating_add u64_mod r.sequence 1;
        event_bytes = bytes;
      } in
      let same : counted s line r ≡ (ok (written r.sequence), after) = ground (arith, sum) in
      let there : Sound s (es ++ e ∷ []) after = record {
        open_log = λ _ _. logged (h.open_log none_yet was_open) e text bytes wrote a b c d g sum;
        closed = λ m k. absurd (cc);
      } in
      subst (Follows e es) (sym same) there

  -- The branches of `append`.
  module _ (io : Io) (line : List ℕ) (r : ResearchRecorder) where
    append-over :
        next_bytes r.event_bytes (length line) ≡ none
        → append s io line r ≡ (err arithmetic_overflow, r)
    unfolding append
    append-over over = ground (arith, over)

    append-full :
        (next : ℕ)
        → next_bytes r.event_bytes (length line) ≡ some next
        → ltb r.limits.max_bytes next ≡ true
        → append s io line r ≡ as_stopped (finish s size_limit io r)
    unfolding append
    append-full next sum full = ground (arith, sum, full)

    append-gone :
        (next : ℕ)
        → next_bytes r.event_bytes (length line) ≡ some next
        → ltb r.limits.max_bytes next ≡ false
        → r.writer ≡ false
        → append s io line r ≡ (err capture_finished, r)
    unfolding append
    append-gone next sum fits gone = ground (arith, sum, fits, gone)

    append-counted :
        (next : ℕ)
        → next_bytes r.event_bytes (length line) ≡ some next
        → ltb r.limits.max_bytes next ≡ false
        → r.writer ≡ true
        → io.write ≡ whole
        → append s io line r ≡ counted s line r
    unfolding append
    append-counted next sum fits live lands = ground (arith, sum, fits, live, lands)

    append-torn :
        (next : ℕ)
        → next_bytes r.event_bytes (length line) ≡ some next
        → ltb r.limits.max_bytes next ≡ false
        → r.writer ≡ true
        → io.write ≡ torn 0
        → append s io line r ≡ (err capture_io, r)
    unfolding append
    append-torn next sum fits live lands =
        let same : record r { events = r.events ++ take 0 line } ≡ r =
          ap (λ t. record r { events = t })
            (ap (λ t. r.events ++ t) (take_none line) ∙ append-nil r.events) in
        let failed : append s io line r
            ≡ (err capture_io, record r { events = r.events ++ take 0 line }) =
          ground (arith, sum, fits, live, lands) in
        failed ∙ ap (λ (q : ResearchRecorder). (err capture_io, q)) same

  append-Sound :
      (io : Io) (e : ResearchEnvelope s.Value) (es : List (ResearchEnvelope s.Value))
      (r : ResearchRecorder) (text : List ℕ)
      → (io.write ≡ whole) ⊎ (io.write ≡ torn 0)
      → s.write_envelope e ≡ some text
      → e.schema ≡ 1
      → e.run_id ≡ r.run_id
      → e.chain_id ≡ chain
      → e.version ≡ version
      → e.sequence ≡ r.sequence
      → r.manifest ≡ none
      → Sound s es r
      → Follows e es (append s io (text ++ newline ∷ []) r)
  append-Sound io e es r text lands wrote a b c d g none_yet h =
      let line = text ++ newline ∷ [] in
      elim (Option-cases (next_bytes r.event_bytes (length line))) [
        | inl over ↦ subst (Follows e es) (sym (append-over io line r over)) h
        | inr (next, sum) ↦ elim (Bool-cases (ltb r.limits.max_bytes next)) [
          | inl full ↦
              subst (Follows e es) (sym (append-full io line r next sum full))
                (stopped-Sound size_limit io e es r h)
          | inr fits ↦ elim (Bool-cases r.writer) [
            | inr gone ↦ subst (Follows e es) (sym (append-gone io line r next sum fits gone)) h
            | inl live ↦ elim lands [
              | inr nothing ↦
                  subst (Follows e es) (sym (append-torn io line r next sum fits live nothing)) h
              | inl landed ↦
                  subst (Follows e es) (sym (append-counted io line r next sum fits live landed)) (
                    counted-Sound e es r text (r.event_bytes + length line) wrote a b c d g
                      (ground (arith, sum)) none_yet live h)
            ]
          ]
        ]
      ]

  module _ (kind : EventKind) (canonical : Option CanonicalObservation) (content : s.Value)
      (io : Io) (r : ResearchRecorder) where
    record_event-old :
        (m : CaptureManifest)
        → r.manifest ≡ some m
        → record_event s kind canonical content io r ≡ (ok (stopped m), r)
    unfolding record_event
    record_event-old m there = ground (arith, there)

    record_event-late :
        r.manifest ≡ none
        → leb r.limits.duration_seconds io.elapsed_seconds ≡ true
        → record_event s kind canonical content io r ≡ as_stopped (finish s duration_limit io r)
    unfolding record_event
    record_event-late none_yet late = ground (arith, none_yet, late)

    record_event-mute :
        r.manifest ≡ none
        → leb r.limits.duration_seconds io.elapsed_seconds ≡ false
        → s.write_envelope (envelope_of s kind canonical content io.now_ms r) ≡ none
        → record_event s kind canonical content io r ≡ (err capture_encoding, r)
    unfolding record_event
    record_event-mute none_yet early failed = ground (arith, none_yet, early, failed)

    record_event-append :
        (text : List ℕ)
        → r.manifest ≡ none
        → leb r.limits.duration_seconds io.elapsed_seconds ≡ false
        → s.write_envelope (envelope_of s kind canonical content io.now_ms r) ≡ some text
        → record_event s kind canonical content io r ≡ append s io (text ++ newline ∷ []) r
    unfolding record_event
    record_event-append text none_yet early wrote = ground (arith, none_yet, early, wrote)

    pub record_event-Sound :
        (es : List (ResearchEnvelope s.Value))
        → (io.write ≡ whole) ⊎ (io.write ≡ torn 0)
        → Sound s es r
        → Follows
            (envelope_of s kind canonical content io.now_ms r)
            es
            (record_event s kind canonical content io r)
    record_event-Sound es lands h =
        let e = envelope_of s kind canonical content io.now_ms r in
        elim (Option-cases r.manifest) [
          | inr (m, there) ↦ subst (Follows e es) (sym (record_event-old m there)) h
          | inl none_yet ↦ elim (Bool-cases (leb r.limits.duration_seconds io.elapsed_seconds)) [
            | inl late ↦
                subst (Follows e es) (sym (record_event-late none_yet late))
                  (stopped-Sound duration_limit io e es r h)
            | inr early ↦ elim (Option-cases (s.write_envelope e)) [
              | inl failed ↦ subst (Follows e es) (sym (record_event-mute none_yet early failed)) h
              | inr (text, wrote) ↦
                  subst (Follows e es) (sym (record_event-append text none_yet early wrote))
                    (append-Sound io e es r text lands wrote refl refl refl refl refl none_yet h)
            ]
          ]
        ]
