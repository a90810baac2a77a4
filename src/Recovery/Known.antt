-- ===== src/Recovery/Known.antt =====
-- Recovery settles nothing while a transaction of the operation is open.
use bodkin.Prelude.{
  ℕ, ◌≡◌, refl, ap, ◌∙◌, true, false, Bool-cases, List, [], ◌∷◌, String, inl, inr, any, arith, find,
  some,
}
use bodkin.Journal.Record.{
  Operation, OperationState, pending, applied, failed, OperationSpec, entry, exit, command,
  CommandEffect, is_pending, operation_has_ambiguous, operation_requires_recovery,
}
use bodkin.Recovery.World.{Env, World, ok, err, Result, Action, ◌>>=◌}
use bodkin.Recovery.Receipts.{is_applied_state, refresh_receipts, operation_step}
use bodkin.Journal.Store.{has_id}
use bodkin.Recovery.Settle.{filter}
use bodkin.Recovery.Entry.{
  Fill, EntryFills, filled, stopped, entry_fills, is_entry_tx, settle_entry, is_taken,
  open_recovered, fail_entry, settle_fills, recover_entry,
}
use bodkin.Recovery.Exit.{has_exit_of, is_sale, recover_exit}
use bodkin.Recovery.Command.{recover_command}
use bodkin.Recovery.Recover.{settle_operation, recover_current, recover_operation}
use bodkin.Recovery.Kept.{Keeps, the_operations, keeps_rules, >>=-Keeps, try-Keeps}

module _ (env : Env) (wallet : ℕ) (op : Operation)
    (is_open : operation_has_ambiguous op ≡ true) where
  settle_entry-open : Keeps the_operations (settle_entry env op)
  unfolding settle_entry
  settle_entry-open = rw is_open (search keeps_rules)

  fail_entry-open : Keeps the_operations (fail_entry env op)
  unfolding fail_entry
  fail_entry-open = rw is_open (search keeps_rules)

  open_recovered-open :
      (token curve : ℕ) (symbol name : String) (f : Fill) (fs : List Fill)
      → Keeps the_operations (open_recovered env token curve symbol name wallet op f fs)
  unfolding open_recovered
  open_recovered-open token curve symbol name f fs = search (keeps_rules, settle_entry-open)

  settle_fills-open :
      (token curve : ℕ) (symbol name : String) (fills : EntryFills)
      → Keeps the_operations (settle_fills env token curve symbol name wallet op fills)
  settle_fills-open token curve symbol name stopped = search keeps_rules
  settle_fills-open token curve symbol name (filled []) = fail_entry-open
  settle_fills-open token curve symbol name (filled (f ∷ fs)) =
      open_recovered-open token curve symbol name f fs

  recover_entry-open :
      (token curve : ℕ) (symbol name value : String) (w : World)
      → (recover_entry env token curve symbol name value wallet op w).1.operations ≡ w.operations
  unfolding recover_entry
  recover_entry-open token curve symbol name value w =
      elim (Bool-cases (is_taken op w.positions.list)) [
        | inl there ↦ rw there (settle_entry-open.at w)
        | inr new ↦ rw new (
            (>>=-Keeps {part = the_operations}
                (try-Keeps (entry_fills env curve wallet value (filter is_entry_tx op.txs)))
                (settle_fills-open token curve symbol name)).at
              w)
      ]

  recover_command-open :
      (effect : CommandEffect) (w : World)
      → (recover_command env effect op w).1.operations ≡ w.operations
  unfolding recover_command
  recover_command-open effect w = rw is_open refl

  open-requires : is_pending op.state ≡ true → operation_requires_recovery op ≡ true
  unfolding operation_requires_recovery
  open-requires live = ground (arith, is_open, live)

  recover_exit-open :
      (position_id reason : String) (token curve : ℕ) (w : World)
      → is_pending op.state ≡ true
      → any (has_exit_of op position_id) w.positions.list ≡ false
      → filter is_sale op.txs ≡ []
      → (recover_exit env position_id reason token curve wallet op w).1.operations ≡ w.operations
  unfolding recover_exit
  recover_exit-open position_id reason token curve w live unsold no_sale =
      rw unsold (rw no_sale (rw (open-requires live) refl))

-- The chain or the positions show that the exit sold.
abbrev pub HasNoSale : Operation → OperationSpec → World → Type 0
HasNoSale op (exit position_id token curve reason) w =
    (any (has_exit_of op position_id) w.positions.list ≡ false) × (filter is_sale op.txs ≡ [])
HasNoSale op _ w = Unit

-- While a transaction of a pending operation may still land, settling it leaves the journal as it is,
-- whatever the node and the disk answer.
pub settle_operation-open :
    (env : Env) (wallet : ℕ) (op : Operation) (spec : OperationSpec) (w : World)
    → operation_has_ambiguous op ≡ true
    → is_pending op.state ≡ true
    → HasNoSale op spec w
    → (settle_operation env wallet op spec w).1.operations ≡ w.operations
unfolding settle_operation
settle_operation-open env wallet op (entry token curve symbol name value) w is_open live sale =
    recover_entry-open env wallet op is_open token curve symbol name value w
settle_operation-open env wallet op (exit position_id token curve reason) w is_open live sale =
    recover_exit-open env wallet op is_open position_id reason token curve w live sale.0 sale.1
settle_operation-open env wallet op (command label effect) w is_open live sale =
    recover_command-open env wallet op is_open effect w

bind-ok :
    {A B : Type 0} (m : Action A) (f : A → Action B) (a : A) (w after : World)
    → m w ≡ (ok a, after)
    → (m >>= f) w ≡ f a after
bind-ok {B = B} m f a w after h =
    ap
      (λ (r : Result _ × World). elim (r.0) as (λ _. Result B × World) [
        | ok b ↦ f b r.1
        | err e ↦ (err e, r.1)
      ])
      h

pending-applied : (s : OperationState) → is_pending s ≡ true → is_applied_state s ≡ false
pending-applied pending h = refl
pending-applied applied h = cc
pending-applied failed h = cc

-- Where some transaction of a pending operation may still land once its receipts are refreshed, the refresh
-- is all that recovery writes to the journal for it: the operation is neither applied nor failed, whatever
-- the node and the disk answer. An exit is the exception once a sale of it is confirmed or on the position.
pub recover_operation-open :
    (env : Env) (wallet latest pending_nonce : ℕ) (op current : Operation) (w refreshed : World)
    → refresh_receipts env op latest pending_nonce w ≡ (ok tt, refreshed)
    → find (has_id op.id) refreshed.operations ≡ some current
    → is_pending op.state ≡ true
    → is_pending current.state ≡ true
    → operation_has_ambiguous current ≡ true
    → HasNoSale current current.spec refreshed
    → (recover_operation env wallet latest pending_nonce op w).1.operations ≡ refreshed.operations
unfolding recover_operation
recover_operation-open env wallet latest pending_nonce op current w refreshed after there was live
      is_open sale =
    let settles = λ (now : Operation). recover_current env wallet op now in
    let not_applied : is_applied_state op.state ≡ false = pending-applied op.state was in
    let found : operation_step op.id refreshed ≡ (ok current, refreshed) =
      rw (there, operation_step) refl in
    let settled : recover_current env wallet op current refreshed
        ≡ settle_operation env wallet current current.spec refreshed =
      rw (not_applied, recover_current) refl in
    ap (λ r. r.1.operations)
      (bind-ok (refresh_receipts env op latest pending_nonce)
          (λ _. operation_step op.id >>= settles) tt w refreshed after
        ∙ bind-ok (operation_step op.id) settles current refreshed refreshed found
        ∙ settled)
    ∙ settle_operation-open env wallet current current.spec refreshed is_open live sale
