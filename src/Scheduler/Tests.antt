-- ===== src/Scheduler/Tests.antt =====
-- The scheduler and the deadlines on concrete waiters.
use bodkin.Prelude.{arith, ◌≤◌, ◌≡◌, refl, true, false, none, some, [], ◌∷◌}
use bodkin.Scheduler.Queue.{
  deadline_entry, routine_exit, Waiter, State, expired, rank, precedes, best, next_waiter, poll,
  granted, waiting,
}
use bodkin.Scheduler.Priority.{LeadsAll, poll-granted, poll-stalls}
use bodkin.Scheduler.Ownership.{System, here, next, acquires, IsExclusive, Reach-IsExclusive}
use bodkin.Scheduler.Deadline.{EntryDeadline, create, made}

abbrev exit_waiter : Waiter
exit_waiter = record { id = 4; kind = routine_exit; enqueued = 0; deadline = none }

abbrev entry_waiter : Waiter
entry_waiter = record { id = 5; kind = deadline_entry; enqueued = 10; deadline = some 500_000_000 }

abbrev queue : State
queue = record { owned = false; next_id = 6; waiters = exit_waiter ∷ entry_waiter ∷ [] }

-- The entry comes first while the exit is fresh.
entry_granted : (poll 5 (some 500_000_000) 1_000 queue).0 ≡ granted
unfolding poll next_waiter best precedes rank expired
entry_granted = refl

-- The exit comes first once it has waited 100 ms.
aged_exit_granted : (poll 4 none 100_000_000 queue).0 ≡ granted
unfolding poll next_waiter best precedes rank expired
aged_exit_granted = refl

aged_exit_holds_entry : (poll 5 (some 500_000_000) 100_000_000 queue).0 ≡ waiting
unfolding poll next_waiter best precedes rank expired
aged_exit_holds_entry = refl

poll-granted_example :
    (queue.owned ≡ false)
    × (expired (some 500_000_000) 1_000 ≡ false)
    × ((poll 5 (some 500_000_000) 1_000 queue).1.owned ≡ true)
    × ((w : Waiter) × (w.id ≡ 5)
        × (best 1_000 queue.waiters ≡ some w)
        × LeadsAll 1_000 w queue.waiters)
poll-granted_example = poll-granted 5 1_000 (some 500_000_000) queue entry_granted

poll-stalls_example :
    (poll 4 none 99_999_999 queue ≡ (waiting, queue))
    × (poll 5 (some 500_000_000) 100_000_000 queue ≡ (waiting, queue))
unfolding expired
poll-stalls_example =
    poll-stalls queue exit_waiter entry_waiter 99_999_999 100_000_000 refl refl refl refl
      (omega arith) (omega arith) refl refl refl refl

abbrev unowned : System
unowned = record { state = queue; permits = 0 }

abbrev owned_once : System
owned_once = record { state = (poll 5 (some 500_000_000) 1_000 queue).1; permits = 1 }

Reach-IsExclusive_example : IsExclusive owned_once × (owned_once.permits ≤ 1)
Reach-IsExclusive_example =
    Reach-IsExclusive {s = unowned} refl
      (next here (acquires 5 1_000 (some 500_000_000) entry_granted refl refl))

abbrev deadline : EntryDeadline
deadline = record {
  boundary_chain_ms = 1_002_000;
  dispatch_chain_ms = 1_001_850;
  latest_dispatch_chain_ms = 1_001_875;
}

deadline_made : create 1_000 2 150 ≡ made deadline
unfolding create
deadline_made = refl
