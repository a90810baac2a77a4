-- ===== src/Recovery/ExitSteps.antt =====
-- What `recover_exit` does to the exits of the positions.
use bodkin.Prelude.{
  ℕ, ◌≡◌, refl, ap, sym, subst, ◌∙◌, true, false, Bool-cases, Option-cases, Option, none, some,
  List, [], ◌∷◌, String, inl, inr, any, arith, ◌==◌,
}
use text.Mathlib.Text.{◌==◌ as str_eq}
use bodkin.Positions.Record.{Formats, Position, AppliedExit, charge_overhead_gas}
use bodkin.Positions.Exits.{Sell, show_tx}
use bodkin.Positions.Store.{PositionStore, update_list, update_with, update}
use bodkin.Journal.Record.{is_applied, Operation, TxRecord, has_hash, operation_requires_recovery}
use bodkin.Recovery.World.{
  ReceiptView, Env, World, RecoveryError, malformed_amount, malformed_hash, node_failed, Result, ok,
  err, Action, ◌>>=◌, require,
}
use bodkin.Recovery.Receipts.{operation_gas}
use bodkin.Recovery.Settle.{is_tx_of, filter, try}
use bodkin.Recovery.Exit.{
  has_exit_of, is_sale, ExitFill, sold, blocked, exit_fill, sell_of, exit_closure, update_step,
  finish_exit, apply_sale, settle_sale, recover_sale, charge_step, after_charge, fail_exit,
  settle_sales, recover_exit,
}
use bodkin.Recovery.Kept.{
  Keeps, the_positions, keeps_rules, >>=-Keeps, if-Keeps, require-Keeps, record_step-positions,
}
use bodkin.Recovery.EntryOnce.{
  ReadsHashes, ArePrinted, ArePrinted-filter, printed-back, is_tx_of-filter,
}
use bodkin.Recovery.ExitOnce.{mark, marks, Books, update_list-Books}

abbrev the_marks : World → List (String × List (Option String))
the_marks w = marks (the_positions w)

Keeps-marks : {A : Type 0} {m : Action A} → Keeps the_positions m → Keeps the_marks m
Keeps-marks h = record { at = λ w. ap marks (h.at w) }

update_list-marks :
    {R : Type 0} (id : String) (f : Position → Position × R)
    → ((p : Position) → mark (f p).0 ≡ mark p)
    → (ps after : List Position) (found : Position × R)
    → update_list {0} id f ps ≡ some (found, after)
    → marks after ≡ marks ps
unfolding update_list
update_list-marks id f same [] after found h = absurd (cc)
update_list-marks id f same (p ∷ ps) after found h = elim (Bool-cases (str_eq p.id id)) [
  | inl hit ↦
      let here' : after ≡ (f p).0 ∷ ps = ground (arith, hit) in
      ap marks here' ∙ ap (λ t. t ∷ marks ps) (same p)
  | inr miss ↦ elim (Option-cases (update_list {0} id f ps)) [
    | inl nobody ↦ absurd (ground (arith, miss, nobody))
    | inr ((found', after'), there) ↦
        let later : after ≡ p ∷ after' = ground (arith, miss, there) in
        ap marks later ∙ ap (λ t. mark p ∷ t) (update_list-marks id f same ps after' found' there)
  ]
]

module _ {R : Type 0} (now : ℕ) (id : String) (f : Position → Position × R)
    (store : PositionStore) where
  update_with-none :
      update_list {0} id f store.list ≡ none → (update_with {0} now id f store).1.list ≡ store.list
  unfolding update_with
  update_with-none nobody = rw (nobody, update_with) refl

  update_with-some :
      (found : Position × R) (after : List Position)
      → update_list {0} id f store.list ≡ some (found, after)
      → (update_with {0} now id f store).1.list ≡ after
  unfolding update_with
  update_with-some found after there = rw (there, update_with) refl

charge-mark :
    (fmt : Formats) (operation_id : String) (gas : ℕ) (p : Position)
    → mark (charge_overhead_gas fmt operation_id gas p).1 ≡ mark p
unfolding charge_overhead_gas
charge-mark fmt operation_id gas p = ground arith

charge_step-marks :
    (env : Env) (position_id operation_id : String) (gas : ℕ)
    → Keeps the_marks (charge_step env position_id operation_id gas)
unfolding update
charge_step-marks env position_id operation_id gas = record {
  at = λ w.
      let charge : Position → Position × Unit {0} =
        λ p. ((charge_overhead_gas env.fmt operation_id gas p).1, tt) in
      elim (Option-cases (update_list {0} position_id charge (the_positions w))) [
        | inl nobody ↦ ap marks (update_with-none env.now_ms position_id charge w.positions nobody)
        | inr ((found, after), there) ↦
            ap marks (update_with-some env.now_ms position_id charge w.positions found after there)
            ∙ update_list-marks position_id charge (charge-mark env.fmt operation_id gas)
                (the_positions w) after found there
      ];
}

module _ (env : Env) (op : Operation) (position_id : String) where
  after_charge-positions : (o : Option Position) → Keeps the_positions (after_charge env op o)
  after_charge-positions none = search keeps_rules
  after_charge-positions (some p) = search keeps_rules

  fail_exit-marks : Keeps the_marks (fail_exit env position_id op)
  unfolding fail_exit
  fail_exit-marks = >>=-Keeps (require-Keeps malformed_amount (operation_gas env.fmt op)) (λ gas.
      if-Keeps (gas == 0) (Keeps-marks (search keeps_rules)) (
        >>=-Keeps (charge_step-marks env position_id op.id gas)
          (λ o. Keeps-marks (after_charge-positions o))))

  finish_exit-positions :
      (o : Option (Position × Option AppliedExit)) → Keeps the_positions (finish_exit env op o)
  unfolding finish_exit
  finish_exit-positions none = search keeps_rules
  finish_exit-positions (some (p, none)) = search keeps_rules
  finish_exit-positions (some (p, some report)) = search keeps_rules

  update_step-Books :
      (s : Sell) (w : World)
      → is_tx_of op.txs (show_tx env.fmt s.tx) ≡ true
      → Books op position_id (the_positions w) (the_positions (update_step env position_id s w).1)
  update_step-Books s w ours =
      elim (Option-cases (update_list {0} position_id (exit_closure env s) (the_positions w))) [
        | inl nobody ↦ inl (
            ap marks
              (update_with-none env.now_ms position_id (exit_closure env s) w.positions nobody))
        | inr ((found, after), there) ↦
            subst (Books op position_id (the_positions w))
              (sym (
                update_with-some env.now_ms position_id (exit_closure env s) w.positions found after
                  there))
              (update_list-Books env op position_id s ours (the_positions w) after found there)
      ]

  -- A step, of which the positions tell what it did.
  abbrev Booked : Action (Unit {0}) → World → Type 0
  Booked m w = Books op position_id (the_positions w) (the_positions (m w).1)

  require-Booked :
      {A : Type 0} (e : RecoveryError) (o : Option A) (k : A → Action (Unit {0})) (w : World)
      → ((a : A) → o ≡ some a → Booked (k a) w)
      → Booked (require e o >>= k) w
  require-Booked e none k w h = inl refl
  require-Booked e (some a) k w h = h a refl

  try-Booked :
      {A : Type 0} (r : Result A) (k : A → Action (Unit {0})) (w : World)
      → ((a : A) → Booked (k a) w)
      → Booked (try r >>= k) w
  try-Booked (err e) k w h = inl refl
  try-Booked (ok a) k w h = h a

  apply_sale-Booked :
      (reason : String) (tokens out hash : ℕ) (w : World)
      → is_tx_of op.txs (some (env.fmt.show_hash hash)) ≡ true
      → Booked (apply_sale env position_id reason tokens out hash op) w
  unfolding apply_sale
  apply_sale-Booked reason tokens out hash w ours =
      require-Booked malformed_amount (operation_gas env.fmt op)
        (λ gas.
          update_step env position_id (sell_of env tokens out gas hash reason)
          >>= finish_exit env op)
        w
        λ gas _.
          let s = sell_of env tokens out gas hash reason in
          let (answer, after) =
            update_with {0} env.now_ms position_id (exit_closure env s) w.positions in
          subst (Books op position_id (the_positions w))
            (sym ((finish_exit-positions answer).at (update_step env position_id s w).1))
            (update_step-Books s w ours)

  settle_sale-Booked :
      (reason : String) (hash : ℕ) (fill : ExitFill) (w : World)
      → is_tx_of op.txs (some (env.fmt.show_hash hash)) ≡ true
      → Booked (settle_sale env position_id reason hash op fill) w
  settle_sale-Booked reason hash (blocked why) w ours = inl refl
  settle_sale-Booked reason hash (sold tokens out) w ours =
      apply_sale-Booked reason tokens out hash w ours

  recover_sale-Booked :
      (reason : String) (token curve wallet : ℕ) (tx : TxRecord) (w : World)
      → ((hash : ℕ)
          → env.parse_hash tx.hash ≡ some hash
          → is_tx_of op.txs (some (env.fmt.show_hash hash)) ≡ true)
      → Booked (recover_sale env position_id reason token curve wallet op tx) w
  unfolding recover_sale
  recover_sale-Booked reason token curve wallet tx w ours =
      let settles = λ (hash : ℕ). settle_sale env position_id reason hash op in
      let reads = λ (hash : ℕ) (r : ReceiptView).
        (try (exit_fill env token curve wallet op tx r) >>= settles hash) in
      let asks = λ (hash : ℕ). (require node_failed (env.node.receipt hash) >>= reads hash) in
      require-Booked malformed_hash (env.parse_hash tx.hash) asks w λ hash read.
        require-Booked node_failed (env.node.receipt hash) (reads hash) w λ r _.
          try-Booked (exit_fill env token curve wallet op tx r) (settles hash) w
            λ fill. settle_sale-Booked reason hash fill w (ours hash read)

  -- The one sale that is recovered is one of the operation's transactions.
  settle_sales-Booked :
      ReadsHashes env
      → (reason : String) (token curve wallet : ℕ) (sales : List TxRecord) (w : World)
      → ArePrinted env sales
      → ((hash : String) → any (has_hash hash) sales ≡ true → any (has_hash hash) op.txs ≡ true)
      → Booked (settle_sales env position_id reason token curve wallet op sales) w
  settle_sales-Booked reads reason token curve wallet [] w printed within =
      elim (Bool-cases (operation_requires_recovery op)) [
        | inl needs ↦ rw needs (inl refl)
        | inr failed ↦ rw failed (inl (fail_exit-marks.at w))
      ]
  settle_sales-Booked reads reason token curve wallet (tx ∷ []) w printed within =
      recover_sale-Booked reason token curve wallet tx w λ hash read.
        within (env.fmt.show_hash hash)
          (ground (arith, printed-back env tx.hash hash reads printed.0 read))
  settle_sales-Booked reads reason token curve wallet (tx ∷ more ∷ txs) w printed within = inl refl

  pub recover_exit-Booked :
      ReadsHashes env
      → ArePrinted env op.txs
      → (reason : String) (token curve wallet : ℕ) (w : World)
      → any (has_exit_of op position_id) (the_positions w) ≡ false
      → Books op position_id
          (the_positions w)
          (the_positions (recover_exit env position_id reason token curve wallet op w).1)
  unfolding recover_exit
  recover_exit-Booked reads printed reason token curve wallet w new = rw new (
      settle_sales-Booked reads reason token curve wallet (filter is_sale op.txs) w
        (ArePrinted-filter env is_sale op.txs printed) (is_tx_of-filter env is_sale op.txs))

  pub recover_exit-taken :
      (reason : String) (token curve wallet : ℕ) (w : World)
      → any (has_exit_of op position_id) (the_positions w) ≡ true
      → the_positions (recover_exit env position_id reason token curve wallet op w).1
        ≡ the_positions w
  unfolding recover_exit
  recover_exit-taken reason token curve wallet w there =
      rw there ((record_step-positions env op.id is_applied).at w)
