-- ===== src/Journal/Tests.antt =====
-- The journal on concrete operations, with decimal text in place of the hexadecimal one.
use bodkin.Prelude.{◌≡◌, refl, true, false, Option, some, none, List, [], ◌∷◌}
use bodkin.Prelude.Text.{eq_ignore_ascii_case}
use bodkin.Journal.Record.{
  Operation, OperationSpec, entry, stage, stage_many, is_submitted, is_confirmed, is_unresolved,
  all_rejected, same_subject, stage_one, stage_all, write_first, set_record, apply_event, confirmed,
  operation_requires_recovery,
}
use bodkin.Journal.Store.{
  decimal, show, operation_id, begun, begin, record_event, err, still_pending,
}
use bodkin.Journal.Distinct.{HasDistinctHashes, apply_event-HasDistinctHashes}
use bodkin.Journal.Recovery.{staged-requires_recovery}
use bodkin.Journal.Pending.{HasNoRivals, empty, begins, records, Reach-HasNoRivals}

abbrev buy : OperationSpec
buy = entry 7 8 "SYM" "Name" "1000"

abbrev fresh : Operation
fresh = begun 5 0 "99" buy

abbrev sent : Operation
sent = elim (apply_event show show fresh (stage_many "entry" ((3, 41) ∷ (4, 42) ∷ []))) [
  | none ↦ fresh
  | some op ↦ op
]

id_printed : operation_id 1_700_000_000_123 40 ≡ "1700000000123-40"
unfolding decimal
id_printed = refl

burst_staged : apply_event show show fresh (stage_many "entry" ((3, 41) ∷ (4, 42) ∷ [])) ≡ some sent
unfolding apply_event stage_all stage_one decimal eq_ignore_ascii_case
burst_staged = refl

staged-requires_recovery_example : operation_requires_recovery sent ≡ true
staged-requires_recovery_example =
    staged-requires_recovery show show fresh sent "entry" 3 41 ((4, 42) ∷ []) refl refl burst_staged

sent-HasDistinctHashes : HasDistinctHashes sent.txs
sent-HasDistinctHashes =
    apply_event-HasDistinctHashes show show fresh sent (stage_many "entry" ((3, 41) ∷ (4, 42) ∷ []))
      tt burst_staged

abbrev landed : Operation
landed = elim (set_record show show sent 41 confirmed (some 9) (some 77) (some 600)) [
  | none ↦ fresh
  | some op ↦ op
]

landed_set : set_record show show sent 41 confirmed (some 9) (some 77) (some 600) ≡ some landed
unfolding set_record write_first apply_event stage_all stage_one decimal eq_ignore_ascii_case
landed_set = refl

landed_event : apply_event show show sent (is_confirmed 41 9 77 600) ≡ some landed
unfolding set_record write_first apply_event stage_all stage_one decimal eq_ignore_ascii_case
landed_event = refl

abbrev or_fresh : Option Operation → Operation
or_fresh none = fresh
or_fresh (some op) = op

submitted_event :
    apply_event show show sent (is_submitted 41)
    ≡ some (or_fresh (apply_event show show sent (is_submitted 41)))
unfolding set_record write_first apply_event stage_all stage_one decimal eq_ignore_ascii_case
submitted_event = refl

unresolved_event :
    apply_event show show sent (is_unresolved 41)
    ≡ some (or_fresh (apply_event show show sent (is_unresolved 41)))
unfolding set_record write_first apply_event stage_all stage_one decimal eq_ignore_ascii_case
unresolved_event = refl

rejected_event :
    apply_event show show sent all_rejected
    ≡ some (or_fresh (apply_event show show sent all_rejected))
unfolding apply_event
rejected_event = refl

sent_pending : sent.state ≡ fresh.state
unfolding apply_event
sent_pending = refl

abbrev one_begun : List Operation
one_begun = (begin show show show true 5 99 buy []).1

second_refused :
    (begin show show show true 6 99 (entry 7 0 "" "" "") one_begun).0 ≡ err (still_pending "5-0")
unfolding begin same_subject decimal eq_ignore_ascii_case
second_refused = refl

Reach-HasNoRivals_example :
    HasNoRivals (record_event show show show false 6 "5-0" (stage "entry" 3 41) one_begun).1
Reach-HasNoRivals_example =
    Reach-HasNoRivals show show show
      (records {ops = one_begun} false 6 "5-0" (stage "entry" 3 41) (begins true 5 99 buy empty))
