-- ===== src/Capture/Tests.antt =====
-- A capture of two envelopes under a small encoding, and the theorems at it.
use bodkin.Prelude.{
  ℕ, ◌+◌, ◌-◌, ◌≡◌, ◌≢◌, ◌⊎◌, refl, sym, ap, ◌∙◌, Bool, true, false, ◌&&◌, Option, none, some, List,
  [], ◌∷◌, ◌==◌, if◌then◌else◌, All, length, arith, Bool-cases, inl, inr,
}
use text.Mathlib.Text.{◌==◌ as str_eq}
use text.Mathlib.TextEquality.{eq_iff}
use bodkin.Capture.Format.{
  CaptureLimits, ok, err, ◌>>=◌, EventKind, launch, CanonicalObservation, ResearchEnvelope,
  StopReason, requested, CaptureManifest, Serde, IsFaithful, ReadsBack, HasDecimals, newline,
  unsettled, chain, version,
}
use bodkin.Capture.Recorder.{
  Io, whole, torn, ResearchRecorder, directory_of, Place, create, settle, close, store_manifest,
  finish, zeros, zero_hash, record_event,
}
use bodkin.Capture.Scan.{
  Visitor, visit_capture, verify_capture, verify_manifest, scan_capture, scan_lines, scan_line,
  read_lines, ends_line, check_scan, bytes_eq,
}
use bodkin.Capture.Lines.{visit_all}
use bodkin.Capture.Sound.{Captured, created, recorded, finished}
use bodkin.Capture.Sizes.{finish_ends}
use bodkin.Capture.RoundTrip.{visit_capture-recorded}
use bodkin.Capture.Tamper.{Collision, verify_capture-same}

abbrev is_launch : EventKind → Bool
is_launch launch = true
is_launch _ = false

abbrev is_requested : StopReason → Bool
is_requested requested = true
is_requested _ = false

abbrev is_none : Option CanonicalObservation → Bool
is_none none = true
is_none (some c) = false

abbrev limits : CaptureLimits
limits = record { duration_seconds = 60; max_bytes = 10000 }

abbrev envelope : ℕ → ResearchEnvelope (Unit {0})
envelope n = record {
  schema = 1;
  run_id = "1000-7";
  sequence = n;
  chain_id = chain;
  version = version;
  observed_at_ms = 2000;
  kind = launch;
  canonical = none;
  content = tt;
}

abbrev manifest : ℕ → ℕ → ℕ → List ℕ → CaptureManifest
manifest total count bytes hash = record {
  schema = 1;
  run_id = "1000-7";
  chain_id = chain;
  version = version;
  started_at_ms = 1000;
  ended_at_ms = 2000;
  event_count = count;
  event_bytes = bytes;
  total_bytes = total;
  rolling_hash = hash;
  limits = limits;
  stop_reason = requested;
  events_file = "events.jsonl";
}

abbrev is_sample : ResearchEnvelope (Unit {0}) → Bool
is_sample e =
    e.schema == 1
    && str_eq e.run_id "1000-7"
    && e.chain_id == chain
    && str_eq e.version version
    && e.observed_at_ms == 2000
    && is_launch e.kind
    && is_none e.canonical

abbrev is_sample_manifest : CaptureManifest → Bool
is_sample_manifest m =
    m.schema == 1
    && str_eq m.run_id "1000-7"
    && m.chain_id == chain
    && str_eq m.version version
    && m.started_at_ms == 1000
    && m.ended_at_ms == 2000
    && m.limits.duration_seconds == 60
    && m.limits.max_bytes == 10000
    && is_requested m.stop_reason
    && str_eq m.events_file "events.jsonl"

abbrev read_back : List ℕ → Option (ResearchEnvelope (Unit {0}))
read_back [] = none
read_back (b ∷ bs) = some (envelope (b - 11))

abbrev read_manifest_back : List ℕ → Option CaptureManifest
read_manifest_back (total ∷ count ∷ bytes ∷ hash) = some (manifest total count bytes hash)
read_manifest_back _ = none

-- Only the sequence number of an envelope is written, and of a manifest what varies.
abbrev small_serde : Serde
small_serde = record {
  Value = Unit {0};
  write_envelope = λ e. if is_sample e then some ((e.sequence + 11) ∷ []) else none;
  read_envelope = read_back;
  write_manifest = λ m.
      if is_sample_manifest m
      then some (m.total_bytes ∷ m.event_count ∷ m.event_bytes ∷ m.rolling_hash)
      else none;
  read_manifest = read_manifest_back;
  keccak256 = λ bs. length bs ∷ zeros 31;
}

is_launch-eq : (k : EventKind) → is_launch k ≡ true → k ≡ launch
is_launch-eq launch h = refl
is_launch-eq EventKind.refusal h = cc
is_launch-eq _ h = cc

is_requested-eq : (k : StopReason) → is_requested k ≡ true → k ≡ requested
is_requested-eq requested h = refl
is_requested-eq _ h = cc

is_sample-eq : (e : ResearchEnvelope (Unit {0})) → is_sample e ≡ true → e ≡ envelope e.sequence
is_sample-eq e h =
    ground (arith, eq_iff e.run_id "1000-7", eq_iff e.version version, is_launch-eq e.kind)

is_sample_manifest-eq :
    (m : CaptureManifest)
    → is_sample_manifest m ≡ true
    → m ≡ manifest m.total_bytes m.event_count m.event_bytes m.rolling_hash
is_sample_manifest-eq m h = ground (
  arith,
  eq_iff m.run_id "1000-7",
  eq_iff m.version version,
  eq_iff m.events_file "events.jsonl",
  is_requested-eq m.stop_reason,
)

written_text :
    (e : ResearchEnvelope (Unit {0})) (text : List ℕ)
    → small_serde.write_envelope e ≡ some text
    → (text ≡ (e.sequence + 11) ∷ []) × (e ≡ envelope e.sequence)
written_text e text h = elim (Bool-cases (is_sample e)) [
  | inl yes' ↦ (ground (arith, yes'), is_sample-eq e yes')
  | inr no' ↦ absurd (ground (arith, no'))
]

written_manifest :
    (m : CaptureManifest) (text : List ℕ)
    → small_serde.write_manifest m ≡ some text
    → (text ≡ m.total_bytes ∷ m.event_count ∷ m.event_bytes ∷ m.rolling_hash)
      × (m ≡ manifest m.total_bytes m.event_count m.event_bytes m.rolling_hash)
written_manifest m text h = elim (Bool-cases (is_sample_manifest m)) [
  | inl yes' ↦ (ground (arith, yes'), is_sample_manifest-eq m yes')
  | inr no' ↦ absurd (ground (arith, no'))
]

one_line :
    (e : ResearchEnvelope (Unit {0})) (text : List ℕ)
    → small_serde.write_envelope e ≡ some text
    → All (λ b. (b == newline) ≡ false) text
one_line e text h = let (shape, known) = written_text e text h in rw shape (ground (arith), tt)

envelope_back : (e : ResearchEnvelope (Unit {0})) → ReadsBack small_serde e
envelope_back e text h =
    let (shape, known) = written_text e text h in
    let digit : e.sequence + 11 - 11 ≡ e.sequence = omega arith in
    rw shape (ap some (ap envelope digit ∙ sym known))

manifest_back :
    (m : CaptureManifest) (text : List ℕ)
    → small_serde.write_manifest m ≡ some text
    → read_manifest_back text ≡ some m
manifest_back m text h =
    let (shape, known) = written_manifest m text h in rw shape (ap some (sym known))

small_serde-IsFaithful : IsFaithful small_serde
small_serde-IsFaithful = record { one_line = one_line; manifest_back = manifest_back }

abbrev io : Io
io = record {
  elapsed_seconds = 1;
  now_ms = 2000;
  write = whole;
  flush = whole;
  synced = true;
  manifest_created = true;
  manifest_write = whole;
  manifest_synced = true;
}

-- Nothing of the line is written.
abbrev full_disk : Io
full_disk = record io { write = torn 0 }

abbrev place : Place
place = record {
  empty = false;
  exists = false;
  parent = true;
  dir_created = true;
  events_created = true;
}

abbrev fresh : ResearchRecorder
fresh = record {
  writer = true;
  limits = limits;
  run_id = "1000-7";
  started_at_ms = 1000;
  sequence = 0;
  event_bytes = 0;
  rolling_hash = zero_hash;
  manifest = none;
  events = [];
  manifest_file = none;
}

created_fresh : create place 1000 "1000-7" limits ≡ ok fresh
unfolding create
created_fresh = refl

abbrev recorder : ResearchRecorder
recorder =
    (finish small_serde requested io
      (record_event small_serde launch none tt io
        (record_event small_serde launch none tt full_disk
          (record_event small_serde launch none tt io fresh).1).1).1).1

abbrev final : CaptureManifest
final = manifest 39 2 4 (34 ∷ zeros 31)

two_envelopes-Captured : Captured small_serde (envelope 0 ∷ envelope 1 ∷ []) recorder
unfolding record_event
two_envelopes-Captured =
    finished
      (recorded
        (recorded
          (recorded (created place 1000 "1000-7" limits created_fresh) launch none tt io (inl refl))
          launch none tt full_disk (inr refl))
        launch none tt io (inl refl))
      requested io

final_manifest : recorder.manifest ≡ some final
unfolding record_event finish close settle store_manifest
final_manifest = refl

-- A visitor that adds up the sequence numbers.
abbrev add_sequences : Visitor (Unit {0}) ℕ
add_sequences e n = ok (n + e.sequence)

visited : visit_capture {0} small_serde add_sequences (directory_of recorder) 5 ≡ ok (final, 6)
unfolding visit_capture verify_capture record_event finish close settle store_manifest scan_capture
    scan_lines scan_line read_lines ends_line bytes_eq check_scan verify_manifest
visited = refl

visit_capture-recorded_example :
    visit_capture {0} small_serde add_sequences (directory_of recorder) 5 ≡ (
      visit_all {0} small_serde add_sequences (envelope 0 ∷ envelope 1 ∷ []) 5 >>= λ n.
      ok (final, n))
visit_capture-recorded_example =
    visit_capture-recorded small_serde add_sequences 5 final recorder small_serde-IsFaithful
      two_envelopes-Captured (envelope_back (envelope 0), (envelope_back (envelope 1), tt))
      final_manifest

verified : verify_capture small_serde (directory_of recorder) ≡ ok final
unfolding verify_capture record_event finish close settle store_manifest scan_capture scan_lines
    scan_line read_lines ends_line bytes_eq check_scan verify_manifest
verified = refl

verify_capture-same_example :
    ((directory_of recorder).events ≡ (directory_of recorder).events) ⊎ Collision small_serde
verify_capture-same_example =
    verify_capture-same small_serde (λ bs. refl) (directory_of recorder) (directory_of recorder)
      final verified verified

-- An encoding whose texts of a manifest are all of one size.
abbrev even_serde : Serde
even_serde = record {
  Value = Unit {0};
  write_envelope = λ e. none;
  read_envelope = λ bs. none;
  write_manifest = λ m. some (zeros 400);
  read_manifest = λ bs. none;
  keccak256 = λ bs. zeros 32;
}

even_serde-HasDecimals : HasDecimals even_serde
even_serde-HasDecimals = record {
  monotone = λ m t u h. omega arith;
  bounded = λ m t h. omega arith;
}

finish_ends_example : (finish even_serde requested io fresh).0 ≢ err unsettled
finish_ends_example = finish_ends even_serde even_serde-HasDecimals requested io fresh
