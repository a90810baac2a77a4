-- ===== src/Burst/Sends.antt =====
-- `best_send` in trade/submitter.rs: which answer of several nodes counts.
use bodkin.Prelude.{
  ◌≡◌, refl, Bool, true, false, ◌||◌, Option, ◌⊎◌, inl, inr, none, some, List, [], ◌∷◌, any,
  if◌then◌else◌, Bool-cases,
}
use bodkin.Burst.Outcome.{SendOutcome, accepted, refused, turned_away, known, send_error}

abbrev pub is_hash : SendOutcome → Bool
is_hash (accepted h) = true
is_hash _ = false

abbrev pub is_known_send : SendOutcome → Bool
is_known_send known = true
is_known_send _ = false

abbrev pub is_revert : SendOutcome → Bool
is_revert (refused m) = true
is_revert _ = false

-- `find`
abbrev pub find_send : (SendOutcome → Bool) → List SendOutcome → Option SendOutcome
find_send p [] = none
find_send p (o ∷ os) = if p o then some o else find_send p os

abbrev pub or_send : Option SendOutcome → Option SendOutcome → Option SendOutcome
or_send none b = b
or_send (some a) b = some a

unfoldable pub best_send : List SendOutcome → SendOutcome
best_send results =
    elim (or_send (find_send is_hash results) (
      or_send (if any is_known_send results then some known else none)
        (find_send is_revert results))) [
          | none ↦ send_error "all sprays failed"
          | some outcome ↦ outcome
        ]

find_send-any :
    (p : SendOutcome → Bool) (os : List SendOutcome)
    → (find_send p os ≡ none) × (any p os ≡ false)
      ⊎ ((o : SendOutcome) × (find_send p os ≡ some o) × (p o ≡ true) × (any p os ≡ true))
find_send-any p [] = inl (refl, refl)
find_send-any p (o ∷ os) = elim (Bool-cases (p o)) [
  | inl fits ↦ inr (o, rw fits refl, fits, rw fits refl)
  | inr other ↦ rw other (find_send-any p os)
]

revert_neither :
    (o : SendOutcome) → is_revert o ≡ true → (is_hash o ≡ false) × (is_known_send o ≡ false)
revert_neither (refused m) e = (refl, refl)
revert_neither (accepted h) e = cc
revert_neither known e = cc
revert_neither (turned_away c m) e = cc
revert_neither (send_error m) e = cc

-- In whatever order the answers come, an acceptance with a hash counts if there is one, else that the
-- transaction is known if one says so.
pub best_send-prefers :
    (os : List SendOutcome)
    → (is_hash (best_send os) ≡ any is_hash os)
      × ((is_hash (best_send os) || is_known_send (best_send os))
          ≡ (any is_hash os || any is_known_send os))
unfolding best_send
best_send-prefers os = elim (find_send-any is_hash os) [
  | inr (o, found, is, some_hash) ↦ rw (best_send, found, some_hash) (is, rw is refl)
  | inl (no_hash, none_hash) ↦ elim (Bool-cases (any is_known_send os)) [
    | inl some_known ↦ rw (best_send, no_hash, none_hash, some_known) (refl, refl)
    | inr none_known ↦ elim (find_send-any is_revert os) [
      | inl (no_revert, none_revert) ↦
          rw (best_send, no_hash, none_hash, none_known, no_revert) (refl, refl)
      | inr (o, found, is, some_revert) ↦
          let (not_hash, not_known) = revert_neither o is in
          rw (best_send, no_hash, none_hash, none_known, found)
            (not_hash, rw (not_hash, not_known) refl)
    ]
  ]
]
