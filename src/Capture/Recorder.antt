-- ===== src/Capture/Recorder.antt =====
-- research.rs: `ResearchRecorder`. What the disk and the clocks answer during a call is an argument.
use bodkin.Prelude.{
  ℕ, suc, zero, Bool, true, false, not, Option, none, some, List, [], ◌∷◌, ◌++◌, String, ltb, leb,
  ◌==◌, if◌then◌else◌, u64_mod, length, saturating_add,
}
use bodkin.Capture.Format.{
  CaptureLimits, Result, ok, err, validate, EventKind, CanonicalObservation, ResearchEnvelope,
  StopReason, duration_limit, size_limit, requested, CaptureManifest, Serde, newline, chain,
  version, manifest_reserve, checked_add_u64, empty_path, capture_exists, no_parent, capture_io,
  capture_encoding, capture_finished, manifest_too_large, arithmetic_overflow, unsettled,
}

abbrev pub take : ℕ → List ℕ → List ℕ
take n [] = []
take zero (b ∷ bs) = []
take (suc n) (b ∷ bs) = b ∷ take n bs

-- How much of a write reaches the file: all of it, or so many bytes before the error.
pub data Landing : Type 0 where
  whole : Landing
  torn : ℕ → Landing

abbrev pub landed : Landing → List ℕ → List ℕ
landed whole bytes = bytes
landed (torn n) bytes = take n bytes

-- What a call meets: the seconds since the start, the time, and how its writes go.
pub record Io : Type 0 where
  pub elapsed_seconds : ℕ
  pub now_ms : ℕ
  pub write : Landing
  pub flush : Landing
  pub synced : Bool
  pub manifest_created : Bool
  pub manifest_write : Landing
  pub manifest_synced : Bool

-- The files `events.jsonl`, with what the writer still buffers, and `manifest.json`.
pub record Directory : Type 0 where
  pub events : Option (List ℕ)
  pub manifest : Option (List ℕ)

-- `writer` says whether the writer is still there.
pub record ResearchRecorder : Type 0 where
  pub writer : Bool
  pub limits : CaptureLimits
  pub run_id : String
  pub started_at_ms : ℕ
  pub sequence : ℕ
  pub event_bytes : ℕ
  pub rolling_hash : List ℕ
  pub manifest : Option CaptureManifest
  pub events : List ℕ
  pub manifest_file : Option (List ℕ)

abbrev pub directory_of : ResearchRecorder → Directory
directory_of r = record { events = some r.events; manifest = r.manifest_file }

abbrev pub zeros : ℕ → List ℕ
zeros zero = []
zeros (suc n) = 0 ∷ zeros n

-- `B256::ZERO`
abbrev pub zero_hash : List ℕ
zero_hash = zeros 32

-- What `create` finds at the path.
pub record Place : Type 0 where
  pub empty : Bool
  pub exists : Bool
  pub parent : Bool
  pub dir_created : Bool
  pub events_created : Bool

unfoldable pub create :
    Place → (now_ms : ℕ) (run_id : String) → CaptureLimits → Result ResearchRecorder
unfolding validate
create place now_ms run_id limits = elim (validate limits) [
  | err e ↦ err e
  | ok valid ↦
      if place.empty
      then err empty_path
      else if place.exists
      then err capture_exists
      else if not place.parent
      then err no_parent
      else if not place.dir_created
      then err capture_io
      else if not place.events_created
      then err capture_io
      else ok (record {
        writer = true;
        limits = valid;
        run_id = run_id;
        started_at_ms = now_ms;
        sequence = 0;
        event_bytes = 0;
        rolling_hash = zero_hash;
        manifest = none;
        events = [];
        manifest_file = none;
      })
]

-- The manifest that `finish` starts from.
abbrev pub manifest_of : StopReason → ℕ → ResearchRecorder → CaptureManifest
manifest_of reason now r = record {
  schema = 1;
  run_id = r.run_id;
  chain_id = chain;
  version = version;
  started_at_ms = r.started_at_ms;
  ended_at_ms = now;
  event_count = r.sequence;
  event_bytes = r.event_bytes;
  total_bytes = 0;
  rolling_hash = r.rolling_hash;
  limits = r.limits;
  stop_reason = reason;
  events_file = "events.jsonl";
}

pub data CaptureRecordStatus : Type 0 where
  written : ℕ → CaptureRecordStatus
  stopped : CaptureManifest → CaptureRecordStatus

abbrev pub as_stopped :
    Result CaptureManifest × ResearchRecorder → Result CaptureRecordStatus × ResearchRecorder
as_stopped (ok m, r) = (ok (stopped m), r)
as_stopped (err e, r) = (err e, r)

-- The two sums before the test of the size.
abbrev pub next_bytes : ℕ → ℕ → Option ℕ
next_bytes bytes len = elim (checked_add_u64 bytes len) [
  | none ↦ none
  | some sum ↦ checked_add_u64 sum manifest_reserve
]

-- The rounds of the loop in `finish`: a total has at most 20 digits.
abbrev pub rounds : ℕ
rounds = 21

module _ (s : Serde) where
  -- The loop of `finish`: the total has to count the digits of itself.
  unfoldable pub settle : ℕ → ℕ → CaptureManifest → Result (CaptureManifest × List ℕ)
  settle zero event_bytes m = err unsettled
  settle (suc rounds) event_bytes m = elim (s.write_manifest m) [
    | none ↦ err capture_encoding
    | some encoded ↦ elim (checked_add_u64 event_bytes (length encoded)) [
      | none ↦ err arithmetic_overflow
      | some total ↦ elim (m.total_bytes == total) [
        | true ↦ ok (m, encoded)
        | false ↦ settle rounds event_bytes (record m { total_bytes = total })
      ]
    ]
  ]

  -- The end of `finish`, with the manifest and its text.
  unfoldable pub store_manifest :
      Io → CaptureManifest → List ℕ → ResearchRecorder → Result CaptureManifest × ResearchRecorder
  store_manifest io m encoded r =
      if ltb r.limits.max_bytes m.total_bytes
      then (err manifest_too_large, r)
      else if not io.manifest_created
      then (err capture_io, r)
      else elim (io.manifest_write) [
        | torn n ↦ (err capture_io, record r { manifest_file = some (take n encoded) })
        | whole ↦
            if not io.manifest_synced
            then (err capture_io, record r { manifest_file = some encoded })
            else (ok m, record r { manifest_file = some encoded; manifest = some m })
      ]

  -- `finish` once the writer is taken and the events are on disk.
  unfoldable pub close :
      StopReason → Io → ResearchRecorder → Result CaptureManifest × ResearchRecorder
  close reason io r = elim (settle rounds r.event_bytes (manifest_of reason io.now_ms r)) [
    | err e ↦ (err e, r)
    | ok (m, encoded) ↦ store_manifest io m encoded r
  ]

  unfoldable pub finish :
      StopReason → Io → ResearchRecorder → Result CaptureManifest × ResearchRecorder
  finish reason io r = elim (r.manifest) [
    | some m ↦ (ok m, r)
    | none ↦ if not r.writer then (err capture_finished, r) else elim (io.flush) [
      | torn n ↦ (err capture_io, record r { writer = false; events = take n r.events })
      | whole ↦
          if not io.synced
          then (err capture_io, record r { writer = false })
          else close reason io (record r { writer = false })
    ]
  ]

  -- What follows the write of a whole line.
  abbrev pub counted : List ℕ → ResearchRecorder → Result CaptureRecordStatus × ResearchRecorder
  counted encoded r =
      let r' : ResearchRecorder = record r {
        events = r.events ++ encoded;
        rolling_hash = s.keccak256 (r.rolling_hash ++ encoded);
        sequence = saturating_add u64_mod r.sequence 1;
      } in
      elim (checked_add_u64 r.event_bytes (length encoded)) [
        | none ↦ (err arithmetic_overflow, r')
        | some bytes ↦ (ok (written r.sequence), record r' { event_bytes = bytes })
      ]

  unfoldable pub append :
      Io → List ℕ → ResearchRecorder → Result CaptureRecordStatus × ResearchRecorder
  unfolding finish
  append io encoded r = elim (next_bytes r.event_bytes (length encoded)) [
    | none ↦ (err arithmetic_overflow, r)
    | some next ↦
        if ltb r.limits.max_bytes next
        then as_stopped (finish size_limit io r)
        else if not r.writer
        then (err capture_finished, r)
        else elim (io.write) [
          | torn n ↦ (err capture_io, record r { events = r.events ++ take n encoded })
          | whole ↦ counted encoded r
        ]
  ]

  abbrev pub envelope_of :
      EventKind
      → Option CanonicalObservation
      → s.Value
      → ℕ
      → ResearchRecorder
      → ResearchEnvelope s.Value
  envelope_of kind canonical content now r = record {
    schema = 1;
    run_id = r.run_id;
    sequence = r.sequence;
    chain_id = chain;
    version = version;
    observed_at_ms = now;
    kind = kind;
    canonical = canonical;
    content = content;
  }

  -- `ResearchRecorder::record`
  unfoldable pub record_event :
      EventKind
      → Option CanonicalObservation
      → s.Value
      → Io
      → ResearchRecorder
      → Result CaptureRecordStatus × ResearchRecorder
  unfolding finish append
  record_event kind canonical content io r = elim (r.manifest) [
    | some m ↦ (ok (stopped m), r)
    | none ↦
        if leb r.limits.duration_seconds io.elapsed_seconds
        then as_stopped (finish duration_limit io r)
        else elim (s.write_envelope (envelope_of kind canonical content io.now_ms r)) [
          | none ↦ (err capture_encoding, r)
          | some text ↦ append io (text ++ newline ∷ []) r
        ]
  ]

  -- `Drop`
  unfoldable pub drop_recorder : Io → ResearchRecorder → ResearchRecorder
  drop_recorder io r = elim (r.manifest) [ some m ↦ r | none ↦ (finish requested io r).1 ]
