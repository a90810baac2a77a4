-- ===== src/Scheduler/Queue.antt =====
-- trade/scheduler.rs: the waiters of `ExecutionScheduler` and the steps that its tasks take on the
-- shared state. Instants are nanoseconds.
use bodkin.Prelude.{
  ℕ, ◌-◌, Bool, true, false, not, ◌&&◌, ◌||◌, Option, none, some, List, [], ◌∷◌, ◌++◌, ltb, leb,
  ◌==◌, if◌then◌else◌, u64_mod, wrapping_add,
}

-- `ROUTINE_EXIT_MAX_DEFERRAL`, 100 ms.
abbrev pub routine_exit_max_deferral : ℕ
routine_exit_max_deferral = 100_000_000

pub data OperationClass : Type 0 where
  emergency deadline_entry routine_exit : OperationClass

pub record Waiter : Type 0 where
  pub id : ℕ
  pub kind : OperationClass
  pub enqueued : ℕ
  pub deadline : Option ℕ

pub record State : Type 0 where
  pub owned : Bool
  pub next_id : ℕ
  pub waiters : List Waiter

-- `deadline.is_some_and(|value| value <= now)`
unfoldable pub expired : Option ℕ → ℕ → Bool
expired none now = false
expired (some deadline) now = leb deadline now

unfoldable pub rank_of : OperationClass → Bool → ℕ
rank_of emergency aged = 0
rank_of deadline_entry aged = 2
rank_of routine_exit aged = if aged then 1 else 3

-- The rank of a waiter: a routine exit ages.
unfoldable pub rank : ℕ → Waiter → ℕ
unfolding rank_of
rank now w = rank_of w.kind (leb routine_exit_max_deferral (now - w.enqueued))

-- The order of the keys `(rank, id)`.
unfoldable pub precedes : ℕ → Waiter → Waiter → Bool
precedes now v w = ltb (rank now v) (rank now w) || (rank now v == rank now w && ltb v.id w.id)

-- `min_by_key` over the waiters that have not expired: of equal keys the first one.
unfoldable pub best : ℕ → List Waiter → Option Waiter
unfolding expired precedes
best now [] = none
best now (w ∷ ws) =
    let rest = best now ws in
    if expired w.deadline now
    then rest
    else elim rest [ none ↦ some w | some v ↦ if precedes now v w then some v else some w ]

unfoldable pub next_waiter : ℕ → List Waiter → Option ℕ
next_waiter now ws = elim (best now ws) [ none ↦ none | some w ↦ some w.id ]

-- The last element goes where the removed one was.
unfoldable pub last_first : Waiter → List Waiter → List Waiter
last_first w [] = w ∷ []
last_first w (v ∷ vs) = elim (last_first v vs) [ [] ↦ w ∷ [] | l ∷ ls ↦ l ∷ w ∷ ls ]

unfoldable pub swap_remove : ℕ → List Waiter → List Waiter
unfolding last_first
swap_remove id [] = []
swap_remove id (w ∷ ws) =
    let rest = swap_remove id ws in
    if w.id == id then elim ws [ [] ↦ [] | v ∷ vs ↦ last_first v vs ] else w ∷ rest

unfoldable pub remove_waiter : ℕ → State → State
unfolding swap_remove
remove_waiter id s = record s { waiters = swap_remove id s.waiters }

-- The entry of `acquire`: refused if its deadline has passed, else a new waiter and its id.
unfoldable pub enqueue : OperationClass → Option ℕ → ℕ → State → Option ℕ × State
unfolding expired
enqueue kind deadline now s = if expired deadline now then (none, s) else (
  some s.next_id,
  record s {
    next_id = wrapping_add u64_mod s.next_id 1;
    waiters =
        s.waiters
        ++ record { id = s.next_id; kind = kind; enqueued = now; deadline = deadline } ∷ [];
  },
)

pub data Polled : Type 0 where
  granted deadline_expired waiting : Polled

-- One round of the loop of `acquire`, under the lock.
unfoldable pub poll : ℕ → Option ℕ → ℕ → State → Polled × State
unfolding remove_waiter
poll id deadline now s =
    if expired deadline now
    then (deadline_expired, remove_waiter id s)
    else elim (next_waiter now s.waiters) [
      | none ↦ (waiting, s)
      | some next ↦
          if not s.owned && next == id
          then (granted, record (remove_waiter id s) { owned = true })
          else (waiting, s)
    ]

-- `drop` of a registration that is still active, and of a permit.
unfoldable pub cancel : ℕ → State → State
unfolding remove_waiter
cancel id s = remove_waiter id s

unfoldable pub release : State → State
release s = record s { owned = false }
