-- ===== src/Scheduler/Priority.antt =====
-- Who gets the right to execute next.
use bodkin.Prelude.{
  ℕ, ◌+◌, ◌-◌, ◌≤◌, false, ◌==◌, leb, ◌<◌, ◌≡◌, ◌⊎◌, inl, inr, true, false, Bool-cases,
  Option-cases, Option, none, some, List, [], ◌∷◌, arith, if◌then◌else◌, All,
}
use bodkin.Scheduler.Queue.{
  deadline_entry, routine_exit, routine_exit_max_deferral, Waiter, State, expired, rank, precedes,
  best, next_waiter, poll, granted, waiting, rank_of,
}

-- No waiter that has not expired comes before `w`.
abbrev pub IsFirst : ℕ → Waiter → List Waiter → Type 0
IsFirst now w = All λ v. expired v.deadline now ≡ false → precedes now v w ≡ false

precedes_asym : (now : ℕ) (v w : Waiter) → precedes now v w ≡ true → precedes now w v ≡ false
unfolding precedes
precedes_asym now v w a = ground arith

precedes_irrefl : (now : ℕ) (w : Waiter) → precedes now w w ≡ false
unfolding precedes
precedes_irrefl now w = ground arith

precedes_chain :
    (now : ℕ) (u v w : Waiter)
    → precedes now u v ≡ false
    → precedes now v w ≡ false
    → precedes now u w ≡ false
unfolding precedes
precedes_chain now u v w a b = ground arith

IsFirst-chain :
    (now : ℕ) (v w : Waiter) (ws : List Waiter)
    → IsFirst now v ws
    → precedes now v w ≡ false
    → IsFirst now w ws
IsFirst-chain now v w [] f h = tt
IsFirst-chain now v w (u ∷ ws) f h =
    (λ live. precedes_chain now u v w (f.0 live) h, IsFirst-chain now v w ws f.1 h)

-- `best` gives a waiter that has not expired and that no other such waiter comes before; it gives
-- none exactly if every waiter has expired.
abbrev pub BestOf : ℕ → List Waiter → Option Waiter → Type 0
BestOf now ws none = All (λ w. expired w.deadline now ≡ true) ws
BestOf now ws (some w) = (expired w.deadline now ≡ false) × IsFirst now w ws

best-add :
    (now : ℕ) (w : Waiter) (ws : List Waiter) (rest : Option Waiter)
    → BestOf now ws rest
    → BestOf now (w ∷ ws) (
        if expired w.deadline now
        then rest
        else elim rest [ none ↦ some w | some v ↦ if precedes now v w then some v else some w ])
best-add now w ws none b = elim (Bool-cases (expired w.deadline now)) [
  | inl gone ↦ rw gone (gone, b)
  | inr live ↦ rw live (live, (λ h. precedes_irrefl now w, all-expired ws b))
]
  where
    all-expired :
        (vs : List Waiter) → All (λ v. expired v.deadline now ≡ true) vs → IsFirst now w vs
    all-expired [] h = tt
    all-expired (v ∷ vs) h = (λ live. cc (h.0, live), all-expired vs h.1)
best-add now w ws (some v) b = elim (Bool-cases (expired w.deadline now)) [
  | inl gone ↦ rw gone (b.0, (λ live. cc (gone, live), b.1))
  | inr live ↦ elim (Bool-cases (precedes now v w)) [
    | inl less ↦ rw (live, less) (b.0, (λ h. precedes_asym now v w less, b.1))
    | inr more ↦
        rw (live, more) (live, (λ h. precedes_irrefl now w, IsFirst-chain now v w ws b.1 more))
  ]
]

best-BestOf : (now : ℕ) (ws : List Waiter) → BestOf now ws (best now ws)
unfolding best
best-BestOf now [] = tt
best-BestOf now (w ∷ ws) = best-add now w ws (best now ws) (best-BestOf now ws)

-- `w` ranks before `v`, or has waited no shorter at the same rank: ids grow with each call.
abbrev pub Leads : ℕ → Waiter → Waiter → Type 0
Leads now w v = (rank now w < rank now v) ⊎ ((rank now w ≡ rank now v) × (w.id ≤ v.id))

precedes-Leads : (now : ℕ) (v w : Waiter) → precedes now v w ≡ false → Leads now w v
unfolding precedes
precedes-Leads now v w h = ground arith

-- Every waiter that has not expired is led by `w`.
abbrev pub LeadsAll : ℕ → Waiter → List Waiter → Type 0
LeadsAll now w = All λ v. (expired v.deadline now ≡ true) ⊎ Leads now w v

IsFirst-LeadsAll : (now : ℕ) (w : Waiter) (ws : List Waiter) → IsFirst now w ws → LeadsAll now w ws
IsFirst-LeadsAll now w [] f = tt
IsFirst-LeadsAll now w (v ∷ ws) f = (
  elim (Bool-cases (expired v.deadline now)) [
    | inl gone ↦ inl gone
    | inr live ↦ inr (precedes-Leads now v w (f.0 live))
  ],
  IsFirst-LeadsAll now w ws f.1,
)

best_first :
    (now : ℕ) (ws : List Waiter) (w : Waiter)
    → best now ws ≡ some w
    → (expired w.deadline now ≡ false) × LeadsAll now w ws
best_first now ws w e =
    let b : BestOf now ws (some w) = rw e at (best-BestOf now ws) in
    (b.0, IsFirst-LeadsAll now w ws b.1)

-- A task gets the right to execute only while nobody owns it, at an instant before its deadline, and
-- as the waiter that leads every waiter whose deadline has not passed: a lower rank comes first, and
-- within a rank the earlier call. From then on the right is owned.
pub poll-granted :
    (id now : ℕ) (deadline : Option ℕ) (s : State)
    → (poll id deadline now s).0 ≡ granted
    → (s.owned ≡ false)
      × (expired deadline now ≡ false)
      × ((poll id deadline now s).1.owned ≡ true)
      × ((w : Waiter) × (w.id ≡ id) × (best now s.waiters ≡ some w) × LeadsAll now w s.waiters)
unfolding poll next_waiter
poll-granted id now deadline s h = elim (Option-cases (best now s.waiters)) [
  | inl nobody ↦ ground arith
  | inr (w, e) ↦ (
    ground arith,
    ground arith,
    ground arith,
    (w, ground arith, e, (best_first now s.waiters w e).1),
  )
]

-- Where the right is free and only a routine exit and an entry wait for it, neither past its deadline, a
-- round of the exit just before it has aged and a round of the entry after that both wait: they leave the
-- waiters as they are and the right free.
pub poll-stalls :
    (s : State) (v w : Waiter) (before after : ℕ)
    → s.waiters ≡ v ∷ w ∷ []
    → v.kind ≡ routine_exit
    → w.kind ≡ deadline_entry
    → (v.id == w.id) ≡ false
    → before < v.enqueued + routine_exit_max_deferral
    → v.enqueued + routine_exit_max_deferral ≤ after
    → expired v.deadline before ≡ false
    → expired w.deadline before ≡ false
    → expired v.deadline after ≡ false
    → expired w.deadline after ≡ false
    → (poll v.id v.deadline before s ≡ (waiting, s)) × (poll w.id w.deadline after s ≡ (waiting, s))
unfolding poll next_waiter best precedes rank rank_of
poll-stalls s v w before after two exits enters apart early late a b c d =
    let fresh : leb routine_exit_max_deferral (before - v.enqueued) ≡ false = ground arith in
    let aged : leb routine_exit_max_deferral (after - v.enqueued) ≡ true = ground arith in
    (
      ground (arith, two, exits, enters, fresh, a, b, apart),
      ground (arith, two, exits, enters, aged, c, d, apart),
    )
