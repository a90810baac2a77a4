-- ===== src/Journal/Pending.antt =====
-- At most one pending operation for each wallet and subject, over any use of the journal.
use bodkin.Prelude.{
  ℕ, ◌≡◌, refl, ◌⊎◌, inl, inr, Bool, false, ◌&&◌, Option, Option-cases, Bool-cases, none, some,
  List, [], ◌∷◌, ◌++◌, String, any, find, arith, any-append, map, length,
}
use bodkin.Journal.Record.{
  Operation, OperationSpec, TxState, JournalEvent, stage, stage_many, is_submitted, is_confirmed,
  is_reverted, is_rejected, is_unresolved, all_rejected, is_applied, has_failed, is_pending,
  write_first, with_state, set_record, apply_event, submitted, confirmed, reverted, rejected,
  unresolved,
}
use bodkin.Journal.Store.{
  blocks, begun, begin, Write, no_operation, unfit, written, has_id, write_operation, record_event,
}

-- What no event changes.
abbrev pub identity : Operation → String × ℕ × String × ℕ × OperationSpec
identity op = (op.id, op.chain_id, op.wallet, op.created_at, op.spec)

-- Two operations that are pending at once for one wallet and subject.
abbrev pub rivals : Operation → Operation → Bool
rivals op other = is_pending op.state && blocks other.wallet other.spec op && is_pending other.state

abbrev pub HasNoRivals : List Operation → Type 0
HasNoRivals [] = Unit
HasNoRivals (op ∷ ops) = (any (rivals op) ops ≡ false) × HasNoRivals ops

HasNoRivals-snoc :
    (ops : List Operation) (now len : ℕ) (wallet : String) (spec : OperationSpec)
    → HasNoRivals ops
    → find (blocks wallet spec) ops ≡ none
    → HasNoRivals (ops ++ begun now len wallet spec ∷ [])
HasNoRivals-snoc [] now len wallet spec d e = (refl, tt)
HasNoRivals-snoc (op ∷ ops) now len wallet spec d e = (
  ground (arith, any-append (rivals op) ops (begun now len wallet spec ∷ []), d.0),
  HasNoRivals-snoc ops now len wallet spec d.1 (ground arith),
)

Write-cases :
    (w : Write) → ((ops : List Operation) × (w ≡ written ops)) ⊎ (w ≡ no_operation) ⊎ (w ≡ unfit)
Write-cases (written ops) = inl (ops, refl)
Write-cases no_operation = inr (inl refl)
Write-cases unfit = inr (inr refl)

module _ (show_hash show_amount show_address : ℕ → String) where
  -- An event keeps what an operation is, and makes none pending.
  record Follows (op op' : Operation) : Type 0 where
    same : identity op' ≡ identity op
    state : (is_pending op'.state && is_pending op.state) ≡ is_pending op'.state

  set_record-Follows :
      (op op' : Operation) (hash : ℕ) (state : TxState) (number block gas : Option ℕ)
      → set_record show_hash show_amount op hash state number block gas ≡ some op'
      → Follows op op'
  unfolding set_record
  set_record-Follows op op' hash state number block gas e =
      elim (Option-cases (
        write_first (show_hash hash) (with_state show_hash show_amount state number block gas)
          op.txs)) [ inl missing ↦ ground arith | inr (ts, there) ↦ ground arith ]

  apply_event-Follows :
      (op op' : Operation) (event : JournalEvent)
      → apply_event show_hash show_amount op event ≡ some op'
      → Follows op op'
  unfolding apply_event
  apply_event-Follows op op' (stage step nonce hash) e = ground arith
  apply_event-Follows op op' (stage_many step more) e = ground arith
  apply_event-Follows op op' (is_submitted hash) e =
      set_record-Follows op op' hash submitted none none none e
  apply_event-Follows op op' (is_confirmed hash number block gas) e =
      set_record-Follows op op' hash confirmed (some number) (some block) (some gas) e
  apply_event-Follows op op' (is_reverted hash number block gas) e =
      set_record-Follows op op' hash reverted (some number) (some block) (some gas) e
  apply_event-Follows op op' (is_rejected hash) e =
      set_record-Follows op op' hash rejected none none none e
  apply_event-Follows op op' (is_unresolved hash) e =
      set_record-Follows op op' hash unresolved none none none e
  apply_event-Follows op op' all_rejected e = ground arith
  apply_event-Follows op op' is_applied e = ground arith
  apply_event-Follows op op' has_failed e = ground arith

  rivals_after :
      (op op' other : Operation)
      → Follows op op'
      → (rivals op other ≡ false → rivals op' other ≡ false)
        × (rivals other op ≡ false → rivals other op' ≡ false)
  rivals_after op op' other f =
      (λ h. ground (arith, f.same, f.state), λ h. ground (arith, f.same, f.state))

  any-rivals_after :
      (op op' : Operation) (ops : List Operation)
      → Follows op op'
      → any (rivals op) ops ≡ false
      → any (rivals op') ops ≡ false
  any-rivals_after op op' [] f h = refl
  any-rivals_after op op' (x ∷ ops) f h =
      ground (arith, rivals_after op op' x f, any-rivals_after op op' ops f)

  -- The write of `record`: one operation follows itself, the others stay.
  data Wrote : List Operation → List Operation → Type 0 where
    wrote_here :
        {ops : List Operation} (op op' : Operation) → Follows op op' → Wrote (op ∷ ops) (op' ∷ ops)
    wrote_later :
        {ops ops' : List Operation} (op : Operation) → Wrote ops ops' → Wrote (op ∷ ops) (op ∷ ops')

  write_operation-Wrote :
      (now : ℕ) (id : String) (event : JournalEvent) (ops ops' : List Operation)
      → write_operation show_hash show_amount show_address now id event ops ≡ written ops'
      → Wrote ops ops'
  unfolding write_operation
  write_operation-Wrote now id event [] ops' e = ground arith
  write_operation-Wrote now id event (op ∷ ops) ops' e = elim (Bool-cases (has_id id op)) [
    | inl hit ↦ elim (Option-cases (apply_event show_hash show_amount op event)) [
      | inl misfit ↦ ground arith
      | inr (changed, fit) ↦
          let f = apply_event-Follows op changed event fit in
          let stamped : Operation = record changed { updated_at = now } in
          let same : ops' ≡ stamped ∷ ops = ground arith in
          rw same (wrote_here op stamped (record { same = f.same; state = f.state }))
    ]
    | inr miss ↦
        elim (Write-cases (write_operation show_hash show_amount show_address now id event ops)) [
          | inl (rest, there) ↦
              let same : ops' ≡ op ∷ rest = ground arith in
              rw same (wrote_later op (write_operation-Wrote now id event ops rest there))
          | inr (inl nobody) ↦ ground arith
          | inr (inr misfit) ↦ ground arith
        ]
  ]

  any-rivals-Wrote :
      (op : Operation) {ops ops' : List Operation}
      → Wrote ops ops'
      → any (rivals op) ops ≡ false
      → any (rivals op) ops' ≡ false
  any-rivals-Wrote op (wrote_here x x' f) h = ground (arith, rivals_after x x' op f)
  any-rivals-Wrote op (wrote_later x w) h = ground (arith, any-rivals-Wrote op w)

  Wrote-HasNoRivals :
      {ops ops' : List Operation} → Wrote ops ops' → HasNoRivals ops → HasNoRivals ops'
  Wrote-HasNoRivals (wrote_here {ops} op op' f) d = (any-rivals_after op op' ops f d.0, d.1)
  Wrote-HasNoRivals (wrote_later op w) d = (any-rivals-Wrote op w d.0, Wrote-HasNoRivals w d.1)

  Wrote-identity :
      {ops ops' : List Operation} → Wrote ops ops' → map identity ops' ≡ map identity ops
  Wrote-identity (wrote_here op op' f) = ground (arith, f.same)
  Wrote-identity (wrote_later op w) = ground (arith, Wrote-identity w)

  -- Recording an event, whether it fails or not, neither adds, drops nor reorders operations, and
  -- changes no operation's id, chain, wallet, time of creation or subject.
  pub record_event-identity :
      (saved : Bool) (now : ℕ) (id : String) (event : JournalEvent) (ops : List Operation)
      → map identity (record_event show_hash show_amount show_address saved now id event ops).1
        ≡ map identity ops
  unfolding record_event
  record_event-identity saved now id event ops =
      elim (Write-cases (write_operation show_hash show_amount show_address now id event ops)) [
        | inl (rest, there) ↦
            ground (arith, Wrote-identity (write_operation-Wrote now id event ops rest there))
        | inr (inl nobody) ↦ ground arith
        | inr (inr misfit) ↦ ground arith
      ]

  -- The operations that calls of `begin` and `record` lead to, whether they fail or not.
  pub data Reach : List Operation → Type 0 where
    empty : Reach []
    begins :
        {ops : List Operation} (saved : Bool) (now wallet : ℕ) (spec : OperationSpec)
        → Reach ops
        → Reach (begin show_hash show_amount show_address saved now wallet spec ops).1
    records :
        {ops : List Operation} (saved : Bool) (now : ℕ) (id : String) (event : JournalEvent)
        → Reach ops
        → Reach (record_event show_hash show_amount show_address saved now id event ops).1

  begin-HasNoRivals :
      (saved : Bool) (now wallet : ℕ) (spec : OperationSpec) (ops : List Operation)
      → HasNoRivals ops
      → HasNoRivals (begin show_hash show_amount show_address saved now wallet spec ops).1
  unfolding begin
  begin-HasNoRivals saved now wallet spec ops d =
      elim (Option-cases (find (blocks (show_address wallet) spec) ops)) [
        | inl nobody ↦
            let same : (begin show_hash show_amount show_address saved now wallet spec ops).1
                ≡ ops ++ begun now (length ops) (show_address wallet) spec ∷ [] =
              ground arith in
            rw same (HasNoRivals-snoc ops now (length ops) (show_address wallet) spec d nobody)
        | inr (existing, found) ↦
            let same : (begin show_hash show_amount show_address saved now wallet spec ops).1
                ≡ ops =
              ground arith in
            rw same d
      ]

  record_event-HasNoRivals :
      (saved : Bool) (now : ℕ) (id : String) (event : JournalEvent) (ops : List Operation)
      → HasNoRivals ops
      → HasNoRivals (record_event show_hash show_amount show_address saved now id event ops).1
  unfolding record_event
  record_event-HasNoRivals saved now id event ops d =
      elim (Write-cases (write_operation show_hash show_amount show_address now id event ops)) [
        | inl (rest, there) ↦
            let same : (record_event show_hash show_amount show_address saved now id event ops).1
                ≡ rest =
              ground arith in
            rw same (Wrote-HasNoRivals (write_operation-Wrote now id event ops rest there) d)
        | inr stays ↦
            let same : (record_event show_hash show_amount show_address saved now id event ops).1
                ≡ ops =
              ground arith in
            rw same d
      ]

  -- Over any sequence of `begin` and `record`, failed ones and failed saves included, no two
  -- operations of one wallet on one subject are pending at once.
  pub Reach-HasNoRivals : {ops : List Operation} → Reach ops → HasNoRivals ops
  Reach-HasNoRivals empty = tt
  Reach-HasNoRivals (begins {ops = ops} saved now wallet spec r) =
      begin-HasNoRivals saved now wallet spec ops (Reach-HasNoRivals r)
  Reach-HasNoRivals (records {ops = ops} saved now id event r) =
      record_event-HasNoRivals saved now id event ops (Reach-HasNoRivals r)
