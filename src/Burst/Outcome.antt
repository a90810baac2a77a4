-- ===== src/Burst/Outcome.antt =====
-- trade/burst.rs: what a burst came to, from the outcomes of its sends in the order of their index,
-- and how the lead adapts.
use bodkin.Prelude.{
  ℕ, zero, suc, ◌%◌, ◌+◌, ◌-◌, Bool, not, ◌&&◌, Option, none, some, List, [], ◌∷◌, String, min, max,
  if◌then◌else◌, ◌==◌, u64_mod,
}
use Prim.Native.String
use bodkin.Prelude.Int.{ℤ}
use bodkin.Journal.Store.{show}

pub data BurstClass : Type 0 where
  sent_with_hash helper_revert late_dup nonce_gap aborted expired shadow_would_land : BurstClass

-- `SendOutcome` of trade/submitter.rs.
pub data SendOutcome : Type 0 where
  accepted : (hash : ℕ) → SendOutcome
  refused : (message : String) → SendOutcome
  turned_away : (code : ℤ) (message : String) → SendOutcome
  known : SendOutcome
  send_error : (message : String) → SendOutcome

pub record SignedTx : Type 0 where
  pub nonce : ℕ
  pub hash : ℕ
  pub raw : List ℕ

pub record BurstTiming : Type 0 where
  pub first_response_ms : Option ℕ
  pub first_useful_ms : Option ℕ
  pub all_responses_ms : ℕ

pub record BurstResult : Type 0 where
  pub class_of : BurstClass
  pub hash : Option ℕ
  pub attempt : ℕ
  pub message : String
  pub outcomes : List (ℕ × SendOutcome)
  pub timing : BurstTiming

abbrev pub no_timing : BurstTiming
no_timing = record { first_response_ms = none; first_useful_ms = none; all_responses_ms = 0 }

-- `BurstCtl::adapt`: the next lead. The sum of two `u64` wraps in a release build.
unfoldable pub adapt : ℕ → Bool → ℕ → ℕ
adapt attempt landed_in_first cur =
    if landed_in_first && attempt == 0
    then max (cur - 10) 40
    else if not landed_in_first
    then min ((cur + 20) % u64_mod) 400
    else cur

abbrev pub hash_at : ℕ → List SignedTx → Option ℕ
hash_at index [] = none
hash_at zero (tx ∷ txs) = some tx.hash
hash_at (suc index) (tx ∷ txs) = hash_at index txs

-- What the loop over the outcomes ends with: an accepted hash, or the first revert and the first
-- transaction that was known.
pub data Scan : Type 0 where
  hit : (index hash : ℕ) → Scan
  over : (first_revert : Option (ℕ × String)) (first_known : Option ℕ) → Scan

abbrev pub first_of {ℓ} : {A : Type ℓ} → Option A → A → Option A
first_of none a = some a
first_of (some b) a = some b

unfoldable pub scan : Option (ℕ × String) → Option ℕ → List (ℕ × SendOutcome) → Scan
scan r k [] = over r k
scan r k ((index, accepted hash) ∷ more) = hit index hash
scan r k ((index, refused message) ∷ more) = scan (first_of r (index, message)) k more
scan r k ((index, known) ∷ more) = scan r (first_of k index) more
scan r k ((index, turned_away code message) ∷ more) = scan r k more
scan r k ((index, send_error message) ∷ more) = scan r k more

-- The result of `fire_burst`; `none` is the panic on an index that was not sent.
unfoldable pub classify : List SignedTx → List (ℕ × SendOutcome) → BurstTiming → Option BurstResult
unfolding scan
classify txs outcomes timing = elim (scan none none outcomes) [
  | hit index hash ↦ some (record {
    class_of = sent_with_hash;
    hash = some hash;
    attempt = index;
    message = String.◌++◌ "submitted attempt " (
        String.◌++◌ (show index)
          (String.◌++◌ " in " (String.◌++◌ (show timing.all_responses_ms) " ms")));
    outcomes = outcomes;
    timing = timing;
  })
  | over r (some index) ↦ elim (hash_at index txs) [
    | none ↦ none
    | some hash ↦ some (record {
      class_of = late_dup;
      hash = some hash;
      attempt = index;
      message = "already known";
      outcomes = outcomes;
      timing = timing;
    })
  ]
  | over (some (index, message)) none ↦ some (record {
    class_of = helper_revert;
    hash = none;
    attempt = index;
    message = message;
    outcomes = outcomes;
    timing = timing;
  })
  | over none none ↦ some (record {
    class_of = nonce_gap;
    hash = none;
    attempt = 0;
    message = "no inclusion";
    outcomes = outcomes;
    timing = timing;
  })
]

unfoldable pub empty_result : BurstClass → String → BurstResult
empty_result class_of message = record {
  class_of = class_of;
  hash = none;
  attempt = 0;
  message = message;
  outcomes = [];
  timing = no_timing;
}

-- `fire_burst`, given what the sends came to.
unfoldable pub burst_result :
    List SignedTx → List (ℕ × SendOutcome) → BurstTiming → Option BurstResult
unfolding classify empty_result
burst_result [] outcomes timing = some (empty_result nonce_gap "empty burst")
burst_result (tx ∷ txs) outcomes timing = classify (tx ∷ txs) outcomes timing
