-- ===== src/Capture/Format.antt =====
-- research.rs: the limits of a capture, the envelope of an event and the manifest. How these are
-- written as JSON and read back (serde_json), and keccak256, are parameters.
use bodkin.Prelude.{
  ℕ, ◌+◌, ◌≤◌, ◌<◌, ◌≡◌, false, ◌||◌, Option, none, some, List, [], ◌∷◌, ◌++◌, String, ltb, leb,
  ◌==◌, if◌then◌else◌, u64_mod, length, All,
}

abbrev pub max_seconds : ℕ
max_seconds = 86400

abbrev pub max_capture_bytes : ℕ
max_capture_bytes = 1073741824

abbrev pub manifest_reserve : ℕ
manifest_reserve = 4096

-- `CHAIN_ID` of chain.rs, and `CARGO_PKG_VERSION`.
abbrev pub chain : ℕ
chain = 4663

abbrev pub version : String
version = "0.1.0"

-- `ResearchError`, the variants of a capture; `unsettled` is no variant: the fuel of the loop in
-- `finish` ran out.
pub data CaptureError : Type 0 where
  invalid_duration invalid_size empty_path capture_exists no_parent : CaptureError
  capture_io capture_encoding capture_finished manifest_too_large : CaptureError
  invalid_manifest integrity_mismatch arithmetic_overflow unsettled : CaptureError
  visitor_failed : ℕ → CaptureError

pub data Result {ℓ} (A : Type ℓ) : Type ℓ where
  ok : A → Result A
  err : CaptureError → Result A

infixl 5 ◌>>=◌
abbrev pub ◌>>=◌ {ℓ κ} : {A : Type ℓ} {B : Type κ} → Result A → (A → Result B) → Result B
ok a >>= f = f a
err e >>= f = err e

pub record CaptureLimits : Type 0 where
  pub duration_seconds : ℕ
  pub max_bytes : ℕ

abbrev pub default_limits : CaptureLimits
default_limits = record { duration_seconds = max_seconds; max_bytes = max_capture_bytes }

unfoldable pub validate : CaptureLimits → Result CaptureLimits
validate l =
    if l.duration_seconds == 0 || ltb max_seconds l.duration_seconds
    then err invalid_duration
    else if leb l.max_bytes manifest_reserve || ltb max_capture_bytes l.max_bytes
    then err invalid_size
    else ok l

pub data EventKind : Type 0 where
  launch refusal flow outcome coverage missing : EventKind

pub record CanonicalObservation : Type 0 where
  pub block_number : ℕ
  pub block_hash : ℕ
  pub block_timestamp : ℕ

-- `content` is the field `data`, a JSON value.
pub record ResearchEnvelope (V : Type 0) : Type 0 where
  pub schema : ℕ
  pub run_id : String
  pub sequence : ℕ
  pub chain_id : ℕ
  pub version : String
  pub observed_at_ms : ℕ
  pub kind : EventKind
  pub canonical : Option CanonicalObservation
  pub content : V

pub data StopReason : Type 0 where
  requested duration_limit size_limit source_closed : StopReason

-- A hash is its bytes.
pub record CaptureManifest : Type 0 where
  pub schema : ℕ
  pub run_id : String
  pub chain_id : ℕ
  pub version : String
  pub started_at_ms : ℕ
  pub ended_at_ms : ℕ
  pub event_count : ℕ
  pub event_bytes : ℕ
  pub total_bytes : ℕ
  pub rolling_hash : List ℕ
  pub limits : CaptureLimits
  pub stop_reason : StopReason
  pub events_file : String

abbrev pub newline : ℕ
newline = 0xa

-- `serde_json::to_vec`, `to_vec_pretty` and `from_slice`, and `keccak256`.
pub record Serde : Type 1 where
  pub Value : Type 0
  pub write_envelope : ResearchEnvelope Value → Option (List ℕ)
  pub read_envelope : List ℕ → Option (ResearchEnvelope Value)
  pub write_manifest : CaptureManifest → Option (List ℕ)
  pub read_manifest : List ℕ → Option CaptureManifest
  pub keccak256 : List ℕ → List ℕ

-- Compact JSON is one line, and a manifest, which holds no float, is read back from its text.
pub record IsFaithful (s : Serde) : Type 0 where
  pub one_line :
      (e : ResearchEnvelope s.Value) (text : List ℕ)
      → s.write_envelope e ≡ some text
      → All (λ b. (b == newline) ≡ false) text
  pub manifest_back :
      (m : CaptureManifest) (text : List ℕ)
      → s.write_manifest m ≡ some text
      → s.read_manifest text ≡ some m

-- An envelope is read back from its line. Without the feature `float_roundtrip` a float in its data may
-- come back as a neighbour.
abbrev pub ReadsBack : (s : Serde) → ResearchEnvelope s.Value → Type 0
ReadsBack s e =
    (text : List ℕ)
    → s.write_envelope e ≡ some text
    → s.read_envelope (text ++ newline ∷ []) ≡ some e

abbrev pub length_or_zero : Option (List ℕ) → ℕ
length_or_zero none = 0
length_or_zero (some text) = length text

-- The text of a manifest with a total of its own.
abbrev pub manifest_size : Serde → CaptureManifest → ℕ → ℕ
manifest_size s m total = length_or_zero (s.write_manifest (record m { total_bytes = total }))

-- A number is written in decimal: a larger one takes no fewer digits, and a `u64` takes 1 to 20.
pub record HasDecimals (s : Serde) : Type 0 where
  pub monotone : (m : CaptureManifest) (t u : ℕ) → t ≤ u → manifest_size s m t ≤ manifest_size s m u
  pub bounded :
      (m : CaptureManifest) (t : ℕ) → t < u64_mod → manifest_size s m t ≤ manifest_size s m 0 + 19

-- `checked_add` of `u64`; a length that is no `u64` is out of range as well.
abbrev pub checked_add_u64 : ℕ → ℕ → Option ℕ
checked_add_u64 a b = if ltb (a + b) u64_mod then some (a + b) else none
