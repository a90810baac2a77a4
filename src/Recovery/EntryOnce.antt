-- ===== src/Recovery/EntryOnce.antt =====
-- However often an entry is recovered, it opens one position at most.
use bodkin.Prelude.{
  ℕ, ◌≡◌, ◌⊎◌, refl, ap, ◌∙◌, Bool, true, false, Option, none, some, List, [], ◌∷◌, ◌++◌, map,
  String, inl, inr, any, arith, ◌<◌, u256_mod, All, Bool-cases,
}
use bodkin.Prelude.Text.{eq_ignore_ascii_case, eq_ignore_ascii_case_refl}
use bodkin.Positions.Record.{Position}
use bodkin.Positions.Store.{opened, open_position, Opening}
use bodkin.Journal.Record.{Operation, TxRecord, has_hash}
use bodkin.Recovery.World.{
  Env, World, RecoveryError, malformed_amount, flush_step, Result, ok, err, Action, ◌>>=◌, ◌>>◌,
  require,
}
use bodkin.Recovery.Receipts.{operation_gas}
use bodkin.Recovery.Settle.{try, filter, is_tx_of, count_entry}
use bodkin.Recovery.Entry.{
  Fill, EntryFills, filled, stopped, EntryFill, nothing, zero_net, one_fill, after_fill, entry_fill,
  entry_fills, is_entry_tx, settle_entry, is_taken, open_step, opening_of, open_recovered,
  fail_entry, settle_fills, recover_entry,
}
use bodkin.Recovery.Kept.{Keeps, the_positions, keeps_rules}

-- `B256::from_str` reads a hash back from what `{:#x}` prints; what else it reads is left open.
abbrev pub ReadsHashes : Env → Type 0
ReadsHashes env = (hash : ℕ) → hash < u256_mod → env.parse_hash (env.fmt.show_hash hash) ≡ some hash

-- Printed from a hash by `{:#x}`, as the journal keeps them.
abbrev pub IsPrinted : Env → String → Type 0
IsPrinted env text = (hash : ℕ) × (hash < u256_mod) × (text ≡ env.fmt.show_hash hash)

abbrev pub hashes : List TxRecord → List String
hashes = map (λ tx. tx.hash)

-- So are the hashes of all transactions.
abbrev pub ArePrinted : Env → List TxRecord → Type 0
ArePrinted env = All (λ tx. IsPrinted env tx.hash)

pub ArePrinted-filter :
    (env : Env) (keep : TxRecord → Bool) (txs : List TxRecord)
    → ArePrinted env txs
    → ArePrinted env (filter keep txs)
ArePrinted-filter env keep [] printed = tt
ArePrinted-filter env keep (tx ∷ txs) (here, there) = elim (Bool-cases (keep tx)) [
  | inl kept ↦ rw kept (here, ArePrinted-filter env keep txs there)
  | inr left ↦ rw left (ArePrinted-filter env keep txs there)
]

pub hashes-ArePrinted :
    (env : Env) (txs : List TxRecord) → All (IsPrinted env) (hashes txs) → ArePrinted env txs
hashes-ArePrinted env [] printed = tt
hashes-ArePrinted env (tx ∷ txs) (here, there) = (here, hashes-ArePrinted env txs there)

-- A hash that is read from a printed text is the printed one.
pub printed-back :
    (env : Env) (text : String) (hash : ℕ)
    → ReadsHashes env
    → IsPrinted env text
    → env.parse_hash text ≡ some hash
    → eq_ignore_ascii_case text (env.fmt.show_hash hash) ≡ true
printed-back env text hash reads (printed, small, same) read =
    let known : printed ≡ hash = cc (reads printed small, same, read) in
    rw (same, known) (eq_ignore_ascii_case_refl (env.fmt.show_hash hash))

EntryFill-cases :
    (r : Result EntryFill)
    → ((e : RecoveryError) × (r ≡ err e))
      ⊎ (r ≡ ok nothing)
      ⊎ (r ≡ ok zero_net)
      ⊎ ((f : Fill) × (r ≡ ok (one_fill f)))
EntryFill-cases (err e) = inl (e, refl)
EntryFill-cases (ok nothing) = inr (inl refl)
EntryFill-cases (ok zero_net) = inr (inr (inl refl))
EntryFill-cases (ok (one_fill f)) = inr (inr (inr (f, refl)))

after_fill-one :
    (f : Fill) (r : Result EntryFills) (g : Fill) (fs : List Fill)
    → after_fill (one_fill f) r ≡ ok (filled (g ∷ fs))
    → f ≡ g
after_fill-one f (err e) g fs h = cc
after_fill-one f (ok stopped) g fs h = cc
after_fill-one f (ok (filled fills)) g fs h = cc

module _ (env : Env) where
  settle_entry-positions : (op : Operation) → Keeps the_positions (settle_entry env op)
  unfolding settle_entry
  settle_entry-positions op = search keeps_rules

  fail_entry-positions : (op : Operation) → Keeps the_positions (fail_entry env op)
  unfolding fail_entry
  fail_entry-positions op = search keeps_rules

  entry_fill-hash :
      (curve wallet : ℕ) (value : String) (tx : TxRecord) (hash tokens eth : ℕ)
      → entry_fill env curve wallet value tx ≡ ok (one_fill (hash, tokens, eth))
      → env.parse_hash tx.hash ≡ some hash
  unfolding entry_fill
  entry_fill-hash curve wallet value tx hash tokens eth h = ground arith

  pub is_tx_of-filter :
      (keep : TxRecord → Bool) (txs : List TxRecord) (hash : String)
      → any (has_hash hash) (filter keep txs) ≡ true
      → any (has_hash hash) txs ≡ true
  is_tx_of-filter keep [] hash h = h
  is_tx_of-filter keep (tx ∷ txs) hash h = ground (arith, is_tx_of-filter keep txs hash)

  -- What recovery does to the positions.
  abbrev pub Opens : Operation → World → World → Type 0
  Opens op w after =
      (the_positions after ≡ the_positions w)
      ⊎ ((p : Position) × (the_positions after ≡ the_positions w ++ p ∷ [])
          × (is_tx_of op.txs p.entry_tx ≡ true))

  entry_fills-first :
      (curve wallet : ℕ) (value : String) (txs : List TxRecord) (hash tokens eth : ℕ)
      (fs : List Fill)
      → ReadsHashes env
      → ArePrinted env txs
      → entry_fills env curve wallet value txs ≡ ok (filled ((hash, tokens, eth) ∷ fs))
      → is_tx_of txs (some (env.fmt.show_hash hash)) ≡ true
  unfolding entry_fills
  entry_fills-first curve wallet value [] hash tokens eth fs reads printed h = absurd (ground arith)
  entry_fills-first curve wallet value (tx ∷ txs) hash tokens eth fs reads printed h =
      elim (EntryFill-cases (entry_fill env curve wallet value tx)) [
        | inl (e, k) ↦ absurd (ground (arith, k))
        | inr (inl k) ↦
            ground (
              arith,
              k,
              entry_fills-first curve wallet value txs hash tokens eth fs reads printed.1,
            )
        | inr (inr (inl k)) ↦ absurd (ground (arith, k))
        | inr (inr (inr (f, k))) ↦
            let same : f ≡ (hash, tokens, eth) =
              after_fill-one f (entry_fills env curve wallet value txs) (hash, tokens, eth) fs
                (ground (arith, k)) in
            let read =
              entry_fill-hash curve wallet value tx hash tokens eth
                (k ∙ ap (λ g. ok (one_fill g)) same) in
            ground (arith, printed-back env tx.hash hash reads printed.0 read)
      ]

  opened-Opens :
      (e : RecoveryError) (gas : Option ℕ) (hash : ℕ) (opening : ℕ → Opening)
      (rest : Action (Unit {0})) (op : Operation) (w : World)
      → ((g : ℕ) → (opening g).entry_tx ≡ some hash)
      → is_tx_of op.txs (some (env.fmt.show_hash hash)) ≡ true
      → Keeps the_positions rest
      → Opens op w ((require e gas >>= λ g. open_step env (opening g) >> rest) w).1
  unfolding open_position opened
  opened-Opens e none hash opening rest op w tx known kept = inl refl
  opened-Opens e (some g) hash opening rest op w tx known kept =
      inr (opened env.fmt (opening g), kept.at (open_step env (opening g) w).1, rw (tx g) known)

  after_open-positions :
      (op : Operation) → Keeps the_positions (flush_step >> (count_entry >> settle_entry env op))
  after_open-positions op = search (keeps_rules, settle_entry-positions)

  open_recovered-Opens :
      (token curve : ℕ) (symbol name : String) (wallet : ℕ) (op : Operation) (hash tokens eth : ℕ)
      (fs : List Fill) (w : World)
      → is_tx_of op.txs (some (env.fmt.show_hash hash)) ≡ true
      → Opens op w (open_recovered env token curve symbol name wallet op (hash, tokens, eth) fs w).1
  unfolding open_recovered
  open_recovered-Opens token curve symbol name wallet op hash tokens eth fs w known =
      opened-Opens malformed_amount (operation_gas env.fmt op) hash
        (λ g. opening_of token curve symbol name op wallet g hash ((hash, tokens, eth) ∷ fs))
        (flush_step >> (count_entry >> settle_entry env op)) op w (λ g. refl) known
        (after_open-positions op)

  settle_fills-Opens :
      (token curve : ℕ) (symbol name value : String) (wallet : ℕ) (op : Operation) (w : World)
      (r : Result EntryFills)
      → ReadsHashes env
      → ArePrinted env op.txs
      → entry_fills env curve wallet value (filter is_entry_tx op.txs) ≡ r
      → Opens op w ((try r >>= settle_fills env token curve symbol name wallet op) w).1
  settle_fills-Opens token curve symbol name value wallet op w (err e) reads printed h = inl refl
  settle_fills-Opens token curve symbol name value wallet op w (ok stopped) reads printed h =
      inl refl
  settle_fills-Opens token curve symbol name value wallet op w (ok (filled [])) reads printed h =
      inl ((fail_entry-positions op).at w)
  settle_fills-Opens token curve symbol name value wallet op w
        (ok (filled ((hash, tokens, eth) ∷ fs))) reads printed h =
      open_recovered-Opens token curve symbol name wallet op hash tokens eth fs w (
        is_tx_of-filter is_entry_tx op.txs (env.fmt.show_hash hash) (
          entry_fills-first curve wallet value (filter is_entry_tx op.txs) hash tokens eth fs reads
            (ArePrinted-filter env is_entry_tx op.txs printed) h))

  pub recover_entry-Opens :
      (token curve : ℕ) (symbol name value : String) (wallet : ℕ) (op : Operation) (w : World)
      → ReadsHashes env
      → ArePrinted env op.txs
      → is_taken op (the_positions w) ≡ false
      → Opens op w (recover_entry env token curve symbol name value wallet op w).1
  unfolding recover_entry
  recover_entry-Opens token curve symbol name value wallet op w reads printed new = rw new (
      settle_fills-Opens token curve symbol name value wallet op w
        (entry_fills env curve wallet value (filter is_entry_tx op.txs)) reads printed refl)

  pub recover_entry-taken :
      (token curve : ℕ) (symbol name value : String) (wallet : ℕ) (op : Operation) (w : World)
      → is_taken op (the_positions w) ≡ true
      → the_positions (recover_entry env token curve symbol name value wallet op w).1
        ≡ the_positions w
  unfolding recover_entry
  recover_entry-taken token curve symbol name value wallet op w there =
      rw there ((settle_entry-positions op).at w)
