-- ===== src/Scheduler/Ownership.antt =====
-- One owner at a time, and waiters that leave without disturbing the others.
use mathlib.Core.List.{Perm}
use mathlib.Core.List.Perm
use bodkin.Prelude.{
  ℕ, ◌+◌, ◌≤◌, ◌≡◌, ◌≢◌, refl, ◌⊎◌, inl, inr, true, false, Bool-cases, Option, none, some, List, [],
  ◌∷◌, arith, ◌==◌, if◌then◌else◌, find,
}
use bodkin.Scheduler.Queue.{
  OperationClass, Waiter, State, last_first, swap_remove, remove_waiter, enqueue, poll, granted,
  cancel, release,
}

last_first-perm : (w : Waiter) (ws : List Waiter) → Perm (w ∷ ws) (last_first w ws)
unfolding last_first
last_first-perm w [] = Perm.refl (w ∷ [])
last_first-perm w (v ∷ vs) = step (last_first v vs) (last_first-perm v vs)
  where
    step :
        (ls : List Waiter)
        → Perm (v ∷ vs) ls
        → Perm (w ∷ v ∷ vs) (elim ls [ [] ↦ w ∷ [] | l ∷ ls' ↦ l ∷ w ∷ ls' ])
    step [] p = Perm.cons w p
    step (l ∷ ls') p = Perm.trans (Perm.cons w p) (Perm.swap l w ls')

swap_remove_hit :
    (w : Waiter) (ws : List Waiter) → Perm ws (elim ws [ [] ↦ [] | v ∷ vs ↦ last_first v vs ])
swap_remove_hit w [] = Perm.refl []
swap_remove_hit w (v ∷ vs) = last_first-perm v vs

-- Removing a waiter takes out the first one with that id and no other, though it may reorder the
-- rest; with no such waiter the queue is as before.
pub swap_remove-perm :
    (id : ℕ) (ws : List Waiter)
    → ((w : Waiter) × (find (λ v. v.id == id) ws ≡ some w) × Perm ws (w ∷ swap_remove id ws))
      ⊎ ((find (λ v. v.id == id) ws ≡ none) × (swap_remove id ws ≡ ws))
unfolding swap_remove
swap_remove-perm id [] = inr (refl, refl)
swap_remove-perm id (w ∷ ws) = elim (Bool-cases (w.id == id)) [
  | inl hit ↦ inl (w, rw hit, rw hit (Perm.cons w (swap_remove_hit w ws)))
  | inr miss ↦ elim (swap_remove-perm id ws) [
    | inl (v, found, p) ↦
        inl (
          v,
          rw miss found,
          rw miss (Perm.trans (Perm.cons w p) (Perm.swap v w (swap_remove id ws))),
        )
    | inr (nobody, same) ↦ inr (rw miss nobody, rw miss (rw same))
  ]
]

-- The state with the number of permits that tasks hold.
pub record System : Type 0 where
  pub state : State
  pub permits : ℕ

-- What tasks do, in any order: call `acquire`, go through its loop, give up, drop a permit.
pub data Step (s t : System) : Type 0 where
  enqueues :
      (kind : OperationClass) (deadline : Option ℕ) (now : ℕ)
      → t.state ≡ (enqueue kind deadline now s.state).1
      → t.permits ≡ s.permits
      → Step s t
  acquires :
      (id now : ℕ) (deadline : Option ℕ)
      → (poll id deadline now s.state).0 ≡ granted
      → t.state ≡ (poll id deadline now s.state).1
      → t.permits ≡ s.permits + 1
      → Step s t
  waits :
      (id now : ℕ) (deadline : Option ℕ)
      → (poll id deadline now s.state).0 ≢ granted
      → t.state ≡ (poll id deadline now s.state).1
      → t.permits ≡ s.permits
      → Step s t
  cancels : (id : ℕ) → t.state ≡ cancel id s.state → t.permits ≡ s.permits → Step s t
  releases : t.state ≡ release s.state → s.permits ≡ t.permits + 1 → Step s t

pub data Reach (s : System) : System → Type 0 where
  here : Reach s s
  next : {t u : System} → Reach s t → Step t u → Reach s u

-- The flag tells how many permits are out.
abbrev pub IsExclusive : System → Type 0
IsExclusive s = s.permits ≡ (if s.state.owned then 1 else 0)

enqueue-owned :
    (kind : OperationClass) (deadline : Option ℕ) (now : ℕ) (s : State)
    → (enqueue kind deadline now s).1.owned ≡ s.owned
unfolding enqueue
enqueue-owned kind deadline now s = ground arith

poll-owned :
    (id now : ℕ) (deadline : Option ℕ) (s : State)
    → (((poll id deadline now s).0 ≡ granted)
        × (s.owned ≡ false)
        × ((poll id deadline now s).1.owned ≡ true))
      ⊎ (((poll id deadline now s).0 ≢ granted) × ((poll id deadline now s).1.owned ≡ s.owned))
unfolding poll
poll-owned id now deadline s = ground arith

Step-IsExclusive : {s t : System} → Step s t → IsExclusive s → IsExclusive t
unfolding cancel remove_waiter release
Step-IsExclusive {s} (enqueues kind deadline now e p) x =
    ground (arith, enqueue-owned kind deadline now s.state)
Step-IsExclusive {s} (acquires id now deadline g e p) x =
    ground (arith, poll-owned id now deadline s.state)
Step-IsExclusive {s} (waits id now deadline g e p) x =
    ground (arith, poll-owned id now deadline s.state)
Step-IsExclusive (cancels id e p) x = ground arith
Step-IsExclusive {s} (releases e p) x = elim (Bool-cases s.state.owned) [
  | inl owned ↦ ground arith
  | inr free ↦ ground arith
]

permits_agree : {s t : System} → IsExclusive s → Reach s t → IsExclusive t
permits_agree x here = x
permits_agree x (next r st) = Step-IsExclusive st (permits_agree x r)

-- From a state that tells how many permits are out, whatever calls of `acquire`, cancellations and
-- drops of permits interleave, at most one permit is out, and the state says so exactly while one
-- is.
pub Reach-IsExclusive : {s t : System} → IsExclusive s → Reach s t → IsExclusive t × (t.permits ≤ 1)
Reach-IsExclusive x r = let y = permits_agree x r in (y, ground (arith, y))
