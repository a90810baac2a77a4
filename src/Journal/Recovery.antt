-- ===== src/Journal/Recovery.antt =====
-- What must be looked up on the chain after a restart.
use bodkin.Prelude.{
  ℕ, ◌≡◌, refl, inl, inr, Bool, true, false, ◌&&◌, Option-cases, none, some, List, [], ◌∷◌, String,
  any, arith, any-append,
}
use bodkin.Journal.Record.{
  Operation, TxRecord, TxState, stage_many, is_submitted, is_unresolved, all_rejected, pending,
  has_hash, is_ambiguous, is_confirmed_state, staged, stage_one, stage_all, write_first, with_state,
  set_record, reject_all, apply_event, tx_has_effect, operation_requires_recovery, submitted,
  unresolved,
}

abbrev ambiguous : TxRecord → Bool
ambiguous tx = is_ambiguous tx.state

stage_one-ambiguous :
    (step : String) (nonce : ℕ) (hash : String) (txs : List TxRecord)
    → any ambiguous txs ≡ true
    → any ambiguous (stage_one step nonce hash txs) ≡ true
unfolding stage_one
stage_one-ambiguous step nonce hash txs h =
    ground (arith, any-append ambiguous txs (staged step nonce hash ∷ []))

stage_one_fresh :
    (step : String) (nonce : ℕ) (hash : String) (txs : List TxRecord)
    → any (has_hash hash) txs ≡ false
    → any ambiguous (stage_one step nonce hash txs) ≡ true
unfolding stage_one
stage_one_fresh step nonce hash txs h =
    ground (arith, any-append ambiguous txs (staged step nonce hash ∷ []))

any-reject_all-ambiguous : (txs : List TxRecord) → any ambiguous (reject_all txs) ≡ false
unfolding reject_all
any-reject_all-ambiguous [] = refl
any-reject_all-ambiguous (tx ∷ txs) = ground (arith, any-reject_all-ambiguous txs)

-- `Confirmed` with an effect.
abbrev confirmed_effect : TxRecord → Bool
confirmed_effect tx = is_confirmed_state tx.state && tx_has_effect tx

any-reject_all-effect :
    (txs : List TxRecord) → any confirmed_effect (reject_all txs) ≡ any confirmed_effect txs
unfolding reject_all
any-reject_all-effect [] = refl
any-reject_all-effect (tx ∷ txs) = ground (arith, any-reject_all-effect txs)

write_first-ambiguous :
    (hash : String) (f : TxRecord → TxRecord) (txs ts : List TxRecord)
    → ((tx : TxRecord) → is_ambiguous (f tx).state ≡ true)
    → write_first hash f txs ≡ some ts
    → any ambiguous ts ≡ true
unfolding write_first
write_first-ambiguous hash f [] ts stays e = ground arith
write_first-ambiguous hash f (tx ∷ txs) ts stays e = elim (Option-cases (write_first hash f txs)) [
  | inl missing ↦ ground (arith, stays tx)
  | inr (rest, there) ↦ ground (arith, stays tx, write_first-ambiguous hash f txs rest stays there)
]

module _ (show_hash show_amount : ℕ → String) where
  stage_all-ambiguous :
      (step : String) (more : List (ℕ × ℕ)) (txs : List TxRecord)
      → any ambiguous txs ≡ true
      → any ambiguous (stage_all show_hash show_amount step more txs) ≡ true
  unfolding stage_all
  stage_all-ambiguous step [] txs h = h
  stage_all-ambiguous step ((nonce, hash) ∷ more) txs h =
      stage_all-ambiguous step more (stage_one step nonce (show_hash hash) txs)
        (stage_one-ambiguous step nonce (show_hash hash) txs h)

  -- A pending operation needs recovery from the moment that a burst of transactions is staged of
  -- which it did not hold the first before.
  pub staged-requires_recovery :
      (op op' : Operation) (step : String) (nonce hash : ℕ) (more : List (ℕ × ℕ))
      → op.state ≡ pending
      → any (has_hash (show_hash hash)) op.txs ≡ false
      → apply_event show_hash show_amount op (stage_many step ((nonce, hash) ∷ more)) ≡ some op'
      → operation_requires_recovery op' ≡ true
  unfolding apply_event stage_all operation_requires_recovery
  staged-requires_recovery op op' step nonce hash more live fresh e = ground (
    arith,
    stage_all-ambiguous step more (stage_one step nonce (show_hash hash) op.txs)
        (stage_one_fresh step nonce (show_hash hash) op.txs fresh),
  )

  set_record-requires_recovery :
      (op op' : Operation) (hash : ℕ) (state : TxState)
      → op.state ≡ pending
      → is_ambiguous state ≡ true
      → set_record show_hash show_amount op hash state none none none ≡ some op'
      → operation_requires_recovery op' ≡ true
  unfolding set_record operation_requires_recovery
  set_record-requires_recovery op op' hash state live stays e =
      let f = with_state show_hash show_amount state none none none in
      elim (Option-cases (write_first (show_hash hash) f op.txs)) [
        | inl missing ↦ ground arith
        | inr (ts, there) ↦
            ground (arith, write_first-ambiguous (show_hash hash) f op.txs ts (λ tx. stays) there)
      ]

  -- A pending operation with a transaction that was sent, or whose fate is unknown, needs recovery;
  -- once all open transactions are rejected it needs it only for a confirmed one with an effect.
  pub event-requires_recovery :
      (op sent lost closed : Operation) (hash : ℕ)
      → op.state ≡ pending
      → apply_event show_hash show_amount op (is_submitted hash) ≡ some sent
      → apply_event show_hash show_amount op (is_unresolved hash) ≡ some lost
      → apply_event show_hash show_amount op all_rejected ≡ some closed
      → (operation_requires_recovery sent ≡ true)
        × (operation_requires_recovery lost ≡ true)
        × (operation_requires_recovery closed ≡ any confirmed_effect op.txs)
  unfolding apply_event set_record operation_requires_recovery
  event-requires_recovery op sent lost closed hash live e₁ e₂ e₃ = (
    set_record-requires_recovery op sent hash submitted live refl e₁,
    set_record-requires_recovery op lost hash unresolved live refl e₂,
    ground (arith, any-reject_all-ambiguous op.txs, any-reject_all-effect op.txs),
  )
