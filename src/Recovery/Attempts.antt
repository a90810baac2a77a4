-- ===== src/Recovery/Attempts.antt =====
-- Attempts to recover one entry, one after the other: the operation may stand differently each time,
-- as may the node, the time and the disk.
use bodkin.Prelude.{
  ℕ, ◌+◌, ◌≤◌, ◌≡◌, ◌⊎◌, refl, ap, sym, subst, ◌∙◌, Bool, true, false, Option, none, some, List, [],
  ◌∷◌, ◌++◌, String, inl, inr, any, All, length, length-append, arith,
}
use bodkin.Prelude.Text.{eq_ignore_ascii_case}
use bodkin.Positions.Record.{Position}
use bodkin.Journal.Record.{Operation, TxRecord, has_hash}
use bodkin.Recovery.World.{Env, World}
use bodkin.Recovery.Settle.{is_tx_of}
use bodkin.Recovery.Entry.{is_taken, recover_entry}
use bodkin.Recovery.Kept.{the_positions}
use bodkin.Recovery.Once.{run, AddsOnce, run-once}
use bodkin.Recovery.EntryOnce.{
  ReadsHashes, IsPrinted, hashes-ArePrinted, hashes, recover_entry-Opens, recover_entry-taken,
}

pub record Attempt : Type 0 where
  pub env : Env
  pub token : ℕ
  pub curve : ℕ
  pub symbol : String
  pub name : String
  pub value : String
  pub wallet : ℕ
  pub op : Operation
  pub saves : List Bool

unfoldable pub attempt : Attempt → World → World
attempt a w =
    (recover_entry a.env a.token a.curve a.symbol a.name a.value a.wallet a.op
      (record w { saves = a.saves })).1

-- Of one operation, whose transactions keep their hashes, printed as the journal prints them.
abbrev pub IsOf : List String → Attempt → Type 0
IsOf hs a = ReadsHashes a.env × All (IsPrinted a.env) hs × (hashes a.op.txs ≡ hs)

abbrev pub is_hash_of : List String → Option String → Bool
is_hash_of hs none = false
is_hash_of hs (some h) = any (λ t. eq_ignore_ascii_case t h) hs

-- Some position was opened by a transaction with one of the hashes.
abbrev pub taken : List String → List Position → Bool
taken hs ps = any (λ p. is_hash_of hs p.entry_tx) ps

any-hashes :
    (txs : List TxRecord) (h : String)
    → any (has_hash h) txs ≡ any (λ t. eq_ignore_ascii_case t h) (hashes txs)
any-hashes [] h = refl
any-hashes (tx ∷ txs) h = ground (arith, any-hashes txs h)

pub is_tx_of-hashes :
    (txs : List TxRecord) (o : Option String) → is_tx_of txs o ≡ is_hash_of (hashes txs) o
is_tx_of-hashes txs none = refl
is_tx_of-hashes txs (some h) = any-hashes txs h

is_taken-taken : (op : Operation) (ps : List Position) → is_taken op ps ≡ taken (hashes op.txs) ps
is_taken-taken op [] = refl
is_taken-taken op (p ∷ ps) = ground (arith, is_tx_of-hashes op.txs p.entry_tx, is_taken-taken op ps)

attempt-taken :
    (hs : List String) (a : Attempt) (w : World)
    → IsOf hs a
    → taken hs (the_positions w) ≡ true
    → the_positions (attempt a w) ≡ the_positions w
unfolding attempt
attempt-taken hs a w (reads, printed, same) there =
    recover_entry-taken a.env a.token a.curve a.symbol a.name a.value a.wallet a.op
      (record w { saves = a.saves })
      (is_taken-taken a.op (the_positions w) ∙ ap (λ t. taken t (the_positions w)) same ∙ there)

attempt-Opens :
    (hs : List String) (a : Attempt) (w : World)
    → IsOf hs a
    → taken hs (the_positions w) ≡ false
    → (the_positions (attempt a w) ≡ the_positions w)
      ⊎ ((p : Position) × (the_positions (attempt a w) ≡ the_positions w ++ p ∷ [])
          × (is_hash_of hs p.entry_tx ≡ true))
unfolding attempt
attempt-Opens hs a w (reads, printed, same) new =
    elim (recover_entry-Opens a.env a.token a.curve a.symbol a.name a.value a.wallet a.op
      (record w { saves = a.saves }) reads
      (hashes-ArePrinted a.env a.op.txs (subst (All (IsPrinted a.env)) (sym same) printed))
      (is_taken-taken a.op (the_positions w) ∙ ap (λ t. taken t (the_positions w)) same ∙ new)) [
        | inl still ↦ inl still
        | inr (p, more, known) ↦ inr (
          p,
          more,
          ap (λ t. is_hash_of t p.entry_tx) (sym same)
              ∙ sym (is_tx_of-hashes a.op.txs p.entry_tx)
              ∙ known,
        )
      ]

taken-snoc :
    (hs : List String) (ps : List Position) (p : Position)
    → is_hash_of hs p.entry_tx ≡ true
    → taken hs (ps ++ p ∷ []) ≡ true
taken-snoc hs [] p h = ground (arith, h)
taken-snoc hs (q ∷ ps) p h = ground (arith, taken-snoc hs ps p h)

attempt-AddsOnce :
    (hs : List String)
    → AddsOnce attempt (λ w. taken hs (the_positions w)) (λ w. length (the_positions w)) (IsOf hs)
attempt-AddsOnce hs = record {
  after = λ a w of there.
      let same = attempt-taken hs a w of there in
      (ap (taken hs) same ∙ there, ap (length {0}) same);
  before = λ a w of new. elim (attempt-Opens hs a w of new) [
    | inl same ↦ inl (ap (length {0}) same)
    | inr (p, more, known) ↦ inr (
      omega (arith, ap (length {0}) more, length-append {0} (the_positions w) (p ∷ [])),
      ap (taken hs) more ∙ taken-snoc hs (the_positions w) p known,
    )
  ];
}

-- Recovering one entry any number of times opens one position at most, whatever failed in between: the
-- node, the save of the positions or that of the journal. The transactions keep their hashes, and these
-- stand in the journal as `{:#x}` prints them, from which the library reads them back.
pub attempts-open_once :
    (hs : List String) (tries : List Attempt) (w : World)
    → All (IsOf hs) tries
    → length (the_positions (run attempt tries w)) ≤ length (the_positions w) + 1
attempts-open_once hs tries w of =
    run-once attempt (λ w'. taken hs (the_positions w')) (λ w'. length (the_positions w')) (IsOf hs)
      (attempt-AddsOnce hs) tries w of
