-- ===== src/Journal/Distinct.antt =====
-- The records of an operation: one for each hash, and a write that changes one of them.
use bodkin.Prelude.{
  ℕ, ◌≡◌, refl, inl, inr, true, false, ◌||◌, Option, Option-cases, Bool-cases, none, some, List, [],
  ◌∷◌, ◌++◌, String, any, find, if◌then◌else◌, arith,
}
use bodkin.Prelude.Text.{eq_ignore_ascii_case, eq_ignore_ascii_case_sym, eq_ignore_ascii_case_trans}
use mathlib.Core.Option
use bodkin.Journal.Record.{
  Operation, TxRecord, TxState, JournalEvent, stage, stage_many, is_submitted, is_confirmed,
  is_reverted, is_rejected, is_unresolved, all_rejected, is_applied, has_failed, has_hash, staged,
  stage_one, stage_all, write_first, with_state, set_record, reject_all, apply_event, submitted,
  confirmed, reverted, rejected, unresolved,
}

abbrev pub HasDistinctHashes : List TxRecord → Type 0
HasDistinctHashes [] = Unit
HasDistinctHashes (tx ∷ txs) = (any (has_hash tx.hash) txs ≡ false) × HasDistinctHashes txs

any-has_hash-snoc :
    (hash : String) (txs : List TxRecord) (new : TxRecord)
    → any (has_hash hash) (txs ++ new ∷ []) ≡ (any (has_hash hash) txs || has_hash hash new)
any-has_hash-snoc hash [] new = ground arith
any-has_hash-snoc hash (tx ∷ txs) new = ground (arith, any-has_hash-snoc hash txs new)

HasDistinctHashes-snoc :
    (txs : List TxRecord) (new : TxRecord)
    → HasDistinctHashes txs
    → any (has_hash new.hash) txs ≡ false
    → HasDistinctHashes (txs ++ new ∷ [])
HasDistinctHashes-snoc [] new d h = (refl, tt)
HasDistinctHashes-snoc (tx ∷ txs) new d h = (
  ground (arith, any-has_hash-snoc tx.hash txs new, eq_ignore_ascii_case_sym tx.hash new.hash, d.0),
  HasDistinctHashes-snoc txs new d.1 (ground arith),
)

stage_one-HasDistinctHashes :
    (step : String) (nonce : ℕ) (hash : String) (txs : List TxRecord)
    → HasDistinctHashes txs
    → HasDistinctHashes (stage_one step nonce hash txs)
unfolding stage_one
stage_one-HasDistinctHashes step nonce hash txs d = elim (Bool-cases (any (has_hash hash) txs)) [
  | inl there ↦ rw there d
  | inr fresh ↦ rw fresh (HasDistinctHashes-snoc txs (staged step nonce hash) d fresh)
]

-- Two texts that agree but for case agree with the same texts.
agree :
    (s t u : String)
    → eq_ignore_ascii_case s t ≡ true
    → eq_ignore_ascii_case s u ≡ eq_ignore_ascii_case t u
agree s t u h = ground (
  arith,
  eq_ignore_ascii_case_sym s t,
  eq_ignore_ascii_case_trans s t u,
  eq_ignore_ascii_case_trans t s u,
)

apart :
    (s t u : String)
    → eq_ignore_ascii_case s t ≡ false
    → eq_ignore_ascii_case s u ≡ true
    → eq_ignore_ascii_case t u ≡ false
apart s t u h k = ground (arith, eq_ignore_ascii_case_sym t u, eq_ignore_ascii_case_trans s u t)

-- A write that keeps the hash.
module _ (hash : String) (f : TxRecord → TxRecord)
    (keeps : (tx : TxRecord) → (f tx).hash ≡ tx.hash) where
  any-write_first :
      (other : String) (txs ts : List TxRecord)
      → write_first hash f txs ≡ some ts
      → any (has_hash other) ts ≡ any (has_hash other) txs
  unfolding write_first
  any-write_first other [] ts e = ground arith
  any-write_first other (tx ∷ txs) ts e = elim (Option-cases (write_first hash f txs)) [
    | inl missing ↦ ground (arith, keeps tx)
    | inr (rest, there) ↦ ground (arith, keeps tx, any-write_first other txs rest there)
  ]

  write_first-HasDistinctHashes :
      (txs ts : List TxRecord)
      → HasDistinctHashes txs
      → write_first hash f txs ≡ some ts
      → HasDistinctHashes ts
  unfolding write_first
  write_first-HasDistinctHashes [] ts d e = ground arith
  write_first-HasDistinctHashes (tx ∷ txs) ts d e = elim (Option-cases (write_first hash f txs)) [
    | inl missing ↦ ground (arith, keeps tx)
    | inr (rest, there) ↦ ground (
      arith,
      keeps tx,
      any-write_first tx.hash txs rest there,
      write_first-HasDistinctHashes txs rest d.1 there,
    )
  ]

  -- A lookup after the write.
  find-write_first :
      (other : String) (txs ts : List TxRecord)
      → write_first hash f txs ≡ some ts
      → find (has_hash other) ts ≡ (
          if eq_ignore_ascii_case hash other
          then Option.map f (find (has_hash other) txs)
          else find (has_hash other) txs)
  unfolding write_first
  find-write_first other [] ts e = ground arith
  find-write_first other (tx ∷ txs) ts e = elim (Option-cases (write_first hash f txs)) [
    | inl missing ↦ ground (arith, keeps tx, agree tx.hash hash other, apart tx.hash hash other)
    | inr (rest, there) ↦ ground (
      arith,
      keeps tx,
      find-write_first other txs rest there,
      agree tx.hash hash other,
      apart tx.hash hash other,
    )
  ]

any-reject_all :
    (hash : String) (txs : List TxRecord)
    → any (has_hash hash) (reject_all txs) ≡ any (has_hash hash) txs
unfolding reject_all
any-reject_all hash [] = refl
any-reject_all hash (tx ∷ txs) = ground (arith, any-reject_all hash txs)

reject_all-HasDistinctHashes :
    (txs : List TxRecord) → HasDistinctHashes txs → HasDistinctHashes (reject_all txs)
unfolding reject_all
reject_all-HasDistinctHashes [] d = tt
reject_all-HasDistinctHashes (tx ∷ txs) d =
    (ground (arith, any-reject_all tx.hash txs, d.0), reject_all-HasDistinctHashes txs d.1)

module _ (show_hash show_amount : ℕ → String) where
  stage_all-HasDistinctHashes :
      (step : String) (more : List (ℕ × ℕ)) (txs : List TxRecord)
      → HasDistinctHashes txs
      → HasDistinctHashes (stage_all show_hash show_amount step more txs)
  unfolding stage_all
  stage_all-HasDistinctHashes step [] txs d = d
  stage_all-HasDistinctHashes step ((nonce, hash) ∷ more) txs d =
      stage_all-HasDistinctHashes step more (stage_one step nonce (show_hash hash) txs)
        (stage_one-HasDistinctHashes step nonce (show_hash hash) txs d)

  set_record-HasDistinctHashes :
      (op op' : Operation) (hash : ℕ) (state : TxState) (number block gas : Option ℕ)
      → HasDistinctHashes op.txs
      → set_record show_hash show_amount op hash state number block gas ≡ some op'
      → HasDistinctHashes op'.txs
  unfolding set_record
  set_record-HasDistinctHashes op op' hash state number block gas d e =
      let f = with_state show_hash show_amount state number block gas in
      elim (Option-cases (write_first (show_hash hash) f op.txs)) [
        | inl missing ↦ ground arith
        | inr (ts, there) ↦
            ground (
              arith,
              write_first-HasDistinctHashes (show_hash hash) f (λ tx. refl) op.txs ts d there,
            )
      ]

  -- What a lookup by hash finds after a transaction's state is set: under the hash that was set, in
  -- whatever case, the record that was there with the new state, block and gas; under any other hash
  -- what was there before.
  pub find-set_record :
      (op op' : Operation) (hash : ℕ) (state : TxState) (number block gas : Option ℕ)
      (other : String)
      → set_record show_hash show_amount op hash state number block gas ≡ some op'
      → find (has_hash other) op'.txs ≡ (
          if eq_ignore_ascii_case (show_hash hash) other
          then Option.map
              (with_state show_hash show_amount state number block gas)
              (find (has_hash other) op.txs)
          else find (has_hash other) op.txs)
  unfolding set_record
  find-set_record op op' hash state number block gas other e =
      let f = with_state show_hash show_amount state number block gas in
      elim (Option-cases (write_first (show_hash hash) f op.txs)) [
        | inl missing ↦ ground arith
        | inr (ts, there) ↦
            ground (arith, find-write_first (show_hash hash) f (λ tx. refl) other op.txs ts there)
      ]

  -- Whatever event an operation takes, no two of its transactions have the same hash.
  pub apply_event-HasDistinctHashes :
      (op op' : Operation) (event : JournalEvent)
      → HasDistinctHashes op.txs
      → apply_event show_hash show_amount op event ≡ some op'
      → HasDistinctHashes op'.txs
  unfolding apply_event
  apply_event-HasDistinctHashes op op' (stage step nonce hash) d e =
      ground (arith, stage_one-HasDistinctHashes step nonce (show_hash hash) op.txs d)
  apply_event-HasDistinctHashes op op' (stage_many step more) d e =
      ground (arith, stage_all-HasDistinctHashes step more op.txs d)
  apply_event-HasDistinctHashes op op' (is_submitted hash) d e =
      set_record-HasDistinctHashes op op' hash submitted none none none d e
  apply_event-HasDistinctHashes op op' (is_confirmed hash number block gas) d e =
      set_record-HasDistinctHashes op op' hash confirmed (some number) (some block) (some gas) d e
  apply_event-HasDistinctHashes op op' (is_reverted hash number block gas) d e =
      set_record-HasDistinctHashes op op' hash reverted (some number) (some block) (some gas) d e
  apply_event-HasDistinctHashes op op' (is_rejected hash) d e =
      set_record-HasDistinctHashes op op' hash rejected none none none d e
  apply_event-HasDistinctHashes op op' (is_unresolved hash) d e =
      set_record-HasDistinctHashes op op' hash unresolved none none none d e
  apply_event-HasDistinctHashes op op' all_rejected d e =
      ground (arith, reject_all-HasDistinctHashes op.txs d)
  apply_event-HasDistinctHashes op op' is_applied d e = ground arith
  apply_event-HasDistinctHashes op op' has_failed d e = ground arith
