-- ===== src/Burst/Tests.antt =====
-- Bursts and nonces on concrete numbers.
use bodkin.Prelude.{ℕ, ◌≡◌, refl, some, List, [], ◌∷◌}
use bodkin.Burst.Outcome.{
  SendOutcome, refused, known, SignedTx, BurstResult, no_timing, late_dup, scan, classify,
}

abbrev two_txs : List SignedTx
two_txs = record { nonce = 5; hash = 50; raw = [] } ∷ record { nonce = 6; hash = 60; raw = [] } ∷ []

abbrev mixed : List (ℕ × SendOutcome)
mixed = (0, refused "EarlyBoundary") ∷ (1, known) ∷ []

abbrev duplicate : BurstResult
duplicate = record {
  class_of = late_dup;
  hash = some 60;
  attempt = 1;
  message = "already known";
  outcomes = mixed;
  timing = no_timing;
}

mixed_classified : classify two_txs mixed no_timing ≡ some duplicate
unfolding classify scan
mixed_classified = refl
