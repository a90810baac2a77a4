-- ===== src/Flow/Rewind.antt =====
-- `FlowTracker::rewind` in pons/stream.rs: what it leaves of a flow.
use bodkin.Prelude.{ℕ, ◌≡◌, ap, inl, inr, true, Bool-cases, some, List, [], ◌∷◌, ltb, arith}
use bodkin.Flow.Keys.{EventKey, Events, IsAbove, IsOrdered}
use bodkin.Flow.Tracker.{
  StoredEvent, Identity, same_identity, CurveFlow, key_of, keep_events, keep_identities,
  rewind_flow,
}
use bodkin.Flow.Identities.{identity_of, IsIndexed, IsKeyed, IsConsistent}

keep_events-IsAbove :
    (k : EventKey) (from : ℕ) (m : Events StoredEvent)
    → IsAbove k m
    → IsAbove k (keep_events from m)
unfolding keep_events
keep_events-IsAbove k from [] a = tt
keep_events-IsAbove k from ((j, v) ∷ m) a = elim (Bool-cases (ltb j.block_number from)) [
  | inl kept ↦ rw kept (a.0, keep_events-IsAbove k from m a.1)
  | inr cut ↦ rw cut (keep_events-IsAbove k from m a.1)
]

keep_events-IsOrdered :
    (from : ℕ) (m : Events StoredEvent) → IsOrdered m → IsOrdered (keep_events from m)
unfolding keep_events
keep_events-IsOrdered from [] o = tt
keep_events-IsOrdered from ((j, v) ∷ m) o = elim (Bool-cases (ltb j.block_number from)) [
  | inl kept ↦ rw kept (keep_events-IsAbove j from m o.0, keep_events-IsOrdered from m o.1)
  | inr cut ↦ rw cut (keep_events-IsOrdered from m o.1)
]

keep_identities-IsKeyed :
    (from : ℕ) (m : List (Identity × EventKey)) → IsKeyed m → IsKeyed (keep_identities from m)
unfolding keep_identities
keep_identities-IsKeyed from [] k = tt
keep_identities-IsKeyed from ((i, j) ∷ m) k = elim (Bool-cases (ltb j.block_number from)) [
  | inl kept ↦ rw kept (k.0, keep_identities-IsKeyed from m k.1)
  | inr cut ↦ rw cut (keep_identities-IsKeyed from m k.1)
]

key_of-keep_identities :
    (from : ℕ) (id : Identity) (k : EventKey) (m : List (Identity × EventKey))
    → ltb k.block_number from ≡ true
    → key_of id m ≡ some k
    → key_of id (keep_identities from m) ≡ some k
unfolding key_of keep_identities
key_of-keep_identities from id k [] l h = h
key_of-keep_identities from id k ((i, j) ∷ m) l h = elim (Bool-cases (same_identity i id)) [
  | inl here ↦
      let same : j ≡ k = cc (rw here at h) in
      let kept : ltb j.block_number from ≡ true = rw same l in rw kept (rw here (ap some same))
  | inr there ↦
      let rest = key_of-keep_identities from id k m l (rw there at h) in ground (arith, rest)
]

keep-IsIndexed :
    (from : ℕ) (ids : List (Identity × EventKey)) (m : Events StoredEvent)
    → IsIndexed ids m
    → IsIndexed (keep_identities from ids) (keep_events from m)
unfolding keep_events
keep-IsIndexed from ids [] x = tt
keep-IsIndexed from ids ((j, v) ∷ m) x = elim (Bool-cases (ltb j.block_number from)) [
  | inl kept ↦
      rw kept
        (key_of-keep_identities from (identity_of j) j ids kept x.0, keep-IsIndexed from ids m x.1)
  | inr cut ↦ rw cut (keep-IsIndexed from ids m x.1)
]

pub rewind_flow-IsConsistent :
    (from : ℕ) (f : CurveFlow) → IsConsistent f → IsConsistent (rewind_flow from f)
unfolding rewind_flow
rewind_flow-IsConsistent from f c = record {
  ordered = keep_events-IsOrdered from f.events c.ordered;
  indexed = keep-IsIndexed from f.identities f.events c.indexed;
  keyed = keep_identities-IsKeyed from f.identities c.keyed;
}
