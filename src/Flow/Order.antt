-- ===== src/Flow/Order.antt =====
-- Logs that come out of order, twice, or are removed again.
use bodkin.Prelude.{ℕ, ◌≡◌, refl, ap, sym, ◌∙◌, true, false, Option, some, arith}
use bodkin.Flow.Keys.{EventKey}
use bodkin.Flow.Tracker.{StoredEvent, Identity, same_identity, CurveFlow}
use bodkin.Flow.Ingest.{CurveLog, Abi, Result, ok, err, ingest_flow}
use bodkin.Flow.Identities.{identity_of, IsConsistent}
use bodkin.Flow.Held.{held, held-events}
use bodkin.Flow.Replay.{
  Effect, nothing, stores, unstores, effect, effect_of, held_after, effect-IsConsistent,
  held-effect, ingest_flow-effect,
}

-- The log at which an effect aims, if any.
abbrev Concerns : Identity → Effect → Type 0
Concerns id nothing = Unit
Concerns id (stores key stored) = identity_of key ≡ id
Concerns id (unstores i) = i ≡ id

ok-inj : {A : Type 0} {a b : A} → ok a ≡ ok b → a ≡ b
ok-inj h = cc

effect_of-Concerns :
    (abi : Abi) (log : CurveLog) (ts hash index : ℕ) (d : Effect)
    → log.transaction_hash ≡ some hash
    → log.log_index ≡ some index
    → effect_of abi log ts ≡ ok d
    → Concerns (hash, index) d
unfolding effect_of
effect_of-Concerns abi log ts hash index d h i e = ground arith

ingest_flow-ok :
    (abi : Abi) (log : CurveLog) (ts : ℕ) (f f' : CurveFlow)
    → ingest_flow abi log ts f ≡ ok f'
    → (d : Effect) × (effect_of abi log ts ≡ ok d) × (f' ≡ effect d f)
ingest_flow-ok abi log ts f f' h = go (effect_of abi log ts) refl
  where
    go :
        (r : Result Effect)
        → effect_of abi log ts ≡ r
        → (d : Effect) × (effect_of abi log ts ≡ ok d) × (f' ≡ effect d f)
    go (err e) q = cc (ingest_flow-effect abi log ts f, q, h)
    go (ok d) q = (d, q, ok-inj (sym h ∙ ingest_flow-effect abi log ts f ∙ rw q refl))

held_after_comm :
    (p q id : Identity) (d e : Effect) (x : Option (EventKey × StoredEvent))
    → same_identity p q ≡ false
    → Concerns p d
    → Concerns q e
    → held_after e id (held_after d id x) ≡ held_after d id (held_after e id x)
held_after_comm p q id nothing e x a c b = refl
held_after_comm p q id (stores k v) nothing x a c b = refl
held_after_comm p q id (stores k v) (stores j w) x a c b = ground arith
held_after_comm p q id (stores k v) (unstores j) x a c b = ground arith
held_after_comm p q id (unstores i) nothing x a c b = refl
held_after_comm p q id (unstores i) (stores j w) x a c b = ground arith
held_after_comm p q id (unstores i) (unstores j) x a c b = ground arith

held_after_twice :
    (id : Identity) (d : Effect) (x : Option (EventKey × StoredEvent))
    → held_after d id (held_after d id x) ≡ held_after d id x
held_after_twice id nothing x = refl
held_after_twice id (stores k v) x = ground arith
held_after_twice id (unstores i) x = ground arith

held_both :
    (d e : Effect) (id : Identity) (f : CurveFlow)
    → IsConsistent f
    → held id (effect e (effect d f)).events ≡ held_after e id (held_after d id (held id f.events))
held_both d e id f c =
    held-effect e id (effect d f) (effect-IsConsistent d f c)
    ∙ ap (held_after e id) (held-effect d id f c)

both-events :
    (d e d' e' : Effect) (f : CurveFlow)
    → IsConsistent f
    → ((id : Identity) (x : Option (EventKey × StoredEvent))
        → held_after e id (held_after d id x) ≡ held_after e' id (held_after d' id x))
    → (effect e (effect d f)).events ≡ (effect e' (effect d' f)).events
both-events d e d' e' f c h =
    held-events (effect e (effect d f)) (effect e' (effect d' f))
      (effect-IsConsistent e (effect d f) (effect-IsConsistent d f c))
      (effect-IsConsistent e' (effect d' f) (effect-IsConsistent d' f c))
      (λ id. held_both d e id f c ∙ h id (held id f.events) ∙ sym (held_both d' e' id f c))

effect_of-ingest_flow :
    (abi : Abi) (log : CurveLog) (ts : ℕ) (f : CurveFlow) (d : Effect)
    → effect_of abi log ts ≡ ok d
    → ingest_flow abi log ts f ≡ ok (effect d f)
effect_of-ingest_flow abi log ts f d q = ingest_flow-effect abi log ts f ∙ rw q refl

-- Two logs of different identities that go in one after the other also go in in the other order, and
-- the events are then the same.
pub ingest_comm :
    (abi : Abi) (l m : CurveLog) (s t h i h' i' : ℕ) (f a b : CurveFlow)
    → IsConsistent f
    → l.transaction_hash ≡ some h
    → l.log_index ≡ some i
    → m.transaction_hash ≡ some h'
    → m.log_index ≡ some i'
    → same_identity (h, i) (h', i') ≡ false
    → ingest_flow abi l s f ≡ ok a
    → ingest_flow abi m t a ≡ ok b
    → (a' : CurveFlow) × (b' : CurveFlow) × (ingest_flow abi m t f ≡ ok a')
      × (ingest_flow abi l s a' ≡ ok b')
      × (b'.events ≡ b.events)
ingest_comm abi l m s t h i h' i' f a b c lh li mh mi apart first second =
    let (d, of_d, at_d) = ingest_flow-ok abi l s f a first in
    let (e, of_e, at_e) = ingest_flow-ok abi m t a b second in
    let l_at = effect_of-Concerns abi l s h i d lh li of_d in
    let m_at = effect_of-Concerns abi m t h' i' e mh mi of_e in
    let same =
      both-events e d d e f c
        (λ id x. sym (held_after_comm (h, i) (h', i') id d e x apart l_at m_at)) in
    (
      effect e f,
      effect d (effect e f),
      effect_of-ingest_flow abi m t f e of_e,
      effect_of-ingest_flow abi l s (effect e f) d of_d,
      rw (at_e, at_d) same,
    )

-- A log that went in goes in again, and the events stay as they are.
pub ingest_twice :
    (abi : Abi) (log : CurveLog) (ts : ℕ) (f a : CurveFlow)
    → IsConsistent f
    → ingest_flow abi log ts f ≡ ok a
    → (b : CurveFlow) × (ingest_flow abi log ts a ≡ ok b) × (b.events ≡ a.events)
ingest_twice abi log ts f a c first =
    let (d, of_d, at_d) = ingest_flow-ok abi log ts f a first in
    let same = both-events d d nothing d f c (λ id x. held_after_twice id d x) in
    (effect d a, effect_of-ingest_flow abi log ts a d of_d, rw at_d same)

removal_undoes :
    (p id : Identity) (d : Effect) (x : Option (EventKey × StoredEvent))
    → Concerns p d
    → held_after (unstores p) id (held_after d id x) ≡ held_after (unstores p) id x
removal_undoes p id nothing x c = refl
removal_undoes p id (stores k v) x c = ground arith
removal_undoes p id (unstores i) x c = ground arith

-- A log that went in and is then sent as removed leaves the events that its removal alone leaves.
pub ingest_removed :
    (abi : Abi) (log : CurveLog) (ts later h i : ℕ) (f a : CurveFlow)
    → IsConsistent f
    → log.transaction_hash ≡ some h
    → log.log_index ≡ some i
    → ingest_flow abi log ts f ≡ ok a
    → (b : CurveFlow) × (b' : CurveFlow) × (ingest_flow abi (record log { removed = true }) later a
        ≡ ok b)
      × (ingest_flow abi (record log { removed = true }) later f ≡ ok b')
      × (b.events ≡ b'.events)
ingest_removed abi log ts later h i f a c lh li first =
    let (d, of_d, at_d) = ingest_flow-ok abi log ts f a first in
    let there = effect_of-Concerns abi log ts h i d lh li of_d in
    let gone : effect_of abi (record log { removed = true }) later ≡ ok (unstores (h, i)) =
      unfold effect_of in ground arith in
    let same =
      both-events d (unstores (h, i)) nothing (unstores (h, i)) f c
        (λ id x. removal_undoes (h, i) id d x there) in
    (
      effect (unstores (h, i)) a,
      effect (unstores (h, i)) f,
      effect_of-ingest_flow abi (record log { removed = true }) later a (unstores (h, i)) gone,
      effect_of-ingest_flow abi (record log { removed = true }) later f (unstores (h, i)) gone,
      rw at_d same,
    )
