-- ===== src/Recovery/ExitAttempts.antt =====
-- Attempts to recover one exit, one after the other.
use bodkin.Prelude.{
  subst, ℕ, ◌+◌, ◌≤◌, ◌≡◌, ◌⊎◌, refl, ap, sym, ◌∙◌, Bool, true, false, ◌&&◌, List, [], ◌∷◌, String,
  inl, inr, any, All, map, Option, length, arith,
}
use text.Mathlib.Text.{◌==◌ as str_eq}
use bodkin.Positions.Record.{Exit, Position}
use bodkin.Journal.Record.{Operation, TxRecord}
use bodkin.Recovery.World.{Env, World}
use bodkin.Recovery.Settle.{is_tx_of}
use bodkin.Recovery.Exit.{has_exit_of, recover_exit}
use bodkin.Recovery.Kept.{the_positions}
use bodkin.Recovery.EntryOnce.{ReadsHashes, IsPrinted, hashes-ArePrinted, hashes}
use bodkin.Recovery.Once.{run, AddsOnce, run-once}
use bodkin.Recovery.Attempts.{is_hash_of, is_tx_of-hashes}
use bodkin.Recovery.ExitOnce.{marks, booked}
use bodkin.Recovery.ExitSteps.{recover_exit-Booked, recover_exit-taken}

pub record ExitAttempt : Type 0 where
  pub env : Env
  pub reason : String
  pub token : ℕ
  pub curve : ℕ
  pub wallet : ℕ
  pub op : Operation
  pub saves : List Bool

unfoldable pub exit_attempt : String → ExitAttempt → World → World
exit_attempt position_id a w =
    (recover_exit a.env position_id a.reason a.token a.curve a.wallet a.op
      (record w { saves = a.saves })).1

-- Of one operation, whose transactions keep their hashes, printed as the journal prints them.
abbrev pub IsExitOf : List String → ExitAttempt → Type 0
IsExitOf hs a = ReadsHashes a.env × All (IsPrinted a.env) hs × (hashes a.op.txs ≡ hs)

-- The position has an exit by a transaction with one of the hashes.
abbrev has_sold : List String → String → Position → Bool
has_sold hs id p = str_eq p.id id && any (λ x. is_hash_of hs x.tx) p.exits

any-exits :
    (txs : List TxRecord) (xs : List Exit)
    → any (λ x. is_tx_of txs x.tx) xs ≡ any (λ x. is_hash_of (hashes txs) x.tx) xs
any-exits txs [] = refl
any-exits txs (x ∷ xs) = ground (arith, is_tx_of-hashes txs x.tx, any-exits txs xs)

any-sold :
    (op : Operation) (id : String) (ps : List Position)
    → any (has_exit_of op id) ps ≡ any (has_sold (hashes op.txs) id) ps
any-sold op id [] = refl
any-sold op id (p ∷ ps) = ground (arith, any-exits op.txs p.exits, any-sold op id ps)

abbrev marked : List (String × List (Option String)) → ℕ
marked [] = 0
marked ((id, txs) ∷ ms) = length txs + marked ms

length-txs : (xs : List Exit) → length (map (λ (x : Exit). x.tx) xs) ≡ length xs
length-txs [] = refl
length-txs (x ∷ xs) = omega (arith, length-txs xs)

booked-marked : (ps : List Position) → booked ps ≡ marked (marks ps)
booked-marked [] = refl
booked-marked (p ∷ ps) = omega (arith, length-txs p.exits, booked-marked ps)

booked-marks : (ps qs : List Position) → marks ps ≡ marks qs → booked ps ≡ booked qs
booked-marks ps qs h = booked-marked ps ∙ ap marked h ∙ sym (booked-marked qs)

module _ (hs : List String) (id : String) where
  abbrev sold_in : World → Bool
  sold_in w = any (has_sold hs id) (the_positions w)

  after-sold :
      (a : ExitAttempt) (w : World)
      → IsExitOf hs a
      → sold_in w ≡ true
      → the_positions (exit_attempt id a w) ≡ the_positions w
  unfolding exit_attempt
  after-sold a w (reads, printed, same) there =
      recover_exit-taken a.env a.op id a.reason a.token a.curve a.wallet
        (record w { saves = a.saves })
        (any-sold a.op id (the_positions w)
          ∙ ap (λ t. any (has_sold t id) (the_positions w)) same
          ∙ there)

  before-sold :
      (a : ExitAttempt) (w : World)
      → IsExitOf hs a
      → sold_in w ≡ false
      → (booked (the_positions (exit_attempt id a w)) ≡ booked (the_positions w))
        ⊎ ((booked (the_positions (exit_attempt id a w)) ≡ booked (the_positions w) + 1)
            × (sold_in (exit_attempt id a w) ≡ true))
  unfolding exit_attempt
  before-sold a w (reads, printed, same) new =
      elim (recover_exit-Booked a.env a.op id reads
        (hashes-ArePrinted a.env a.op.txs (subst (All (IsPrinted a.env)) (sym same) printed))
        a.reason a.token a.curve a.wallet (record w { saves = a.saves })
        (any-sold a.op id (the_positions w)
          ∙ ap (λ t. any (has_sold t id) (the_positions w)) same
          ∙ new)) [
            | inl still ↦
                inl (booked-marks (the_positions (exit_attempt id a w)) (the_positions w) still)
            | inr (grown, ours) ↦ inr (
              grown,
              ap (λ t. any (has_sold t id) (the_positions (exit_attempt id a w))) (sym same)
                  ∙ sym (any-sold a.op id (the_positions (exit_attempt id a w)))
                  ∙ ours,
            )
          ]

  exit_attempt-AddsOnce :
      AddsOnce (exit_attempt id) sold_in (λ w. booked (the_positions w)) (IsExitOf hs)
  exit_attempt-AddsOnce = record {
    after = λ a w of there.
        let same = after-sold a w of there in
        (ap (any (has_sold hs id)) same ∙ there, ap booked same);
    before = before-sold;
  }

-- Recovering one exit any number of times books one exit at most, over all positions, whatever failed in
-- between: the node, the save of the positions or that of the journal. The transactions keep their hashes,
-- and these stand in the journal as `{:#x}` prints them, from which the library reads them back.
pub exit_attempts-book_once :
    (hs : List String) (position_id : String) (tries : List ExitAttempt) (w : World)
    → All (IsExitOf hs) tries
    → booked (the_positions (run (exit_attempt position_id) tries w)) ≤ booked (the_positions w) + 1
exit_attempts-book_once hs position_id tries w of =
    run-once (exit_attempt position_id) (sold_in hs position_id) (λ w'. booked (the_positions w'))
      (IsExitOf hs) (exit_attempt-AddsOnce hs position_id) tries w of
