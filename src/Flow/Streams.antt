-- ===== src/Flow/Streams.antt =====
-- All the flows of a tracker in pons/stream.rs, after every operation.
use bodkin.Prelude.{
  ℕ, ◌≡◌, refl, subst, inl, inr, Bool-cases, Option-cases, some, List, [], ◌∷◌, ◌==◌, All,
}
use bodkin.Deployer.Maps.{get, upsert}
use bodkin.Flow.Tracker.{
  CurveFlow, FlowTracker, watched, default_flow, watch, rewind_flow, change_flow, rewind, unwatch,
}
use bodkin.Flow.Ingest.{
  CurveLog, Abi, Result, Result-cases, ok, err, ingest_flow, ingest, ingest_all, advanced,
  check_range, apply_range,
}
use bodkin.Flow.Identities.{IsConsistent}
use bodkin.Flow.Rewind.{rewind_flow-IsConsistent}
use bodkin.Flow.Replay.{Effect, effect, effect_of, effect-IsConsistent, ingest_flow-effect}

pub ingest_flow-IsConsistent :
    (abi : Abi) (log : CurveLog) (ts : ℕ) (f a : CurveFlow)
    → IsConsistent f
    → ingest_flow abi log ts f ≡ ok a
    → IsConsistent a
ingest_flow-IsConsistent abi log ts f a c h = go (effect_of abi log ts) refl
  where
    go : (r : Result Effect) → effect_of abi log ts ≡ r → IsConsistent a
    go (err e) q = cc (ingest_flow-effect abi log ts f, q, h)
    go (ok d) q =
        let same : effect d f ≡ a = cc (ingest_flow-effect abi log ts f, q, h) in
        subst IsConsistent same (effect-IsConsistent d f c)

abbrev pub AllConsistent : FlowTracker → Type 0
AllConsistent = All λ e. IsConsistent e.1

pub get-IsConsistent :
    (curve : ℕ) (t : FlowTracker) (f : CurveFlow)
    → AllConsistent t
    → get curve t ≡ some f
    → IsConsistent f
get-IsConsistent curve [] f c h = cc
get-IsConsistent curve ((k, g) ∷ t) f c h = elim (Bool-cases (k == curve)) [
  | inl here ↦ let same : g ≡ f = cc (rw here at h) in subst IsConsistent same c.0
  | inr there ↦ get-IsConsistent curve t f c.1 (rw there at h)
]

-- A change of one flow that keeps a consistent flow so.
change_flow-AllConsistent :
    (curve : ℕ) (change : CurveFlow → CurveFlow) (t : FlowTracker)
    → ((f : CurveFlow) → get curve t ≡ some f → IsConsistent f → IsConsistent (change f))
    → AllConsistent t
    → AllConsistent (change_flow curve change t)
unfolding change_flow
change_flow-AllConsistent curve change [] keeps c = tt
change_flow-AllConsistent curve change ((k, g) ∷ t) keeps c = elim (Bool-cases (k == curve)) [
  | inl here ↦ rw here (keeps g (rw here refl) c.0, c.1)
  | inr there ↦
      rw there (c.0, change_flow-AllConsistent curve change t (λ f h. keeps f (rw there h)) c.1)
]

watched-IsConsistent :
    (at block : ℕ) (insiders : List ℕ) (f : CurveFlow)
    → IsConsistent f
    → IsConsistent (watched at block insiders f)
watched-IsConsistent at block insiders f c = record {
  ordered = c.ordered;
  indexed = c.indexed;
  keyed = c.keyed;
}

default_flow-IsConsistent : IsConsistent default_flow
default_flow-IsConsistent = record { ordered = tt; indexed = tt; keyed = tt }

watch-AllConsistent :
    (curve at block : ℕ) (insiders : List ℕ) (t : FlowTracker)
    → AllConsistent t
    → AllConsistent (watch curve at block insiders t)
unfolding watch upsert
watch-AllConsistent curve at block insiders [] c =
    (watched-IsConsistent at block insiders default_flow default_flow-IsConsistent, tt)
watch-AllConsistent curve at block insiders ((k, g) ∷ t) c = elim (Bool-cases (k == curve)) [
  | inl here ↦ rw here (watched-IsConsistent at block insiders g c.0, c.1)
  | inr there ↦ rw there (c.0, watch-AllConsistent curve at block insiders t c.1)
]

unwatch-AllConsistent :
    (curve : ℕ) (t : FlowTracker) → AllConsistent t → AllConsistent (unwatch curve t)
unfolding unwatch
unwatch-AllConsistent curve [] c = tt
unwatch-AllConsistent curve ((k, g) ∷ t) c = elim (Bool-cases (k == curve)) [
  | inl here ↦ rw here c.1
  | inr there ↦ rw there (c.0, unwatch-AllConsistent curve t c.1)
]

pub ingest-cases :
    (abi : Abi) (log : CurveLog) (ts : ℕ) (t t' : FlowTracker)
    → ingest abi log ts t ≡ ok t'
    → (f : CurveFlow) × (f' : CurveFlow) × (get log.address t ≡ some f)
      × (ingest_flow abi log ts f ≡ ok f')
      × (t' ≡ change_flow log.address (λ _. f') t)
unfolding ingest
ingest-cases abi log ts t t' h = elim (Option-cases (get log.address t)) [
  | inl absent ↦ cc (rw absent at h)
  | inr (f, found) ↦ go f found (ingest_flow abi log ts f) refl
]
  where
    go :
        (f : CurveFlow)
        → get log.address t ≡ some f
        → (r : Result CurveFlow) → ingest_flow abi log ts f ≡ r
        → (g : CurveFlow) × (f' : CurveFlow) × (get log.address t ≡ some g)
          × (ingest_flow abi log ts g ≡ ok f')
          × (t' ≡ change_flow log.address (λ _. f') t)
    go f found (err e) q = cc (rw (found, q) at h)
    go f found (ok f') q = (f, f', found, q, cc (rw (found, q) at h))

pub ingest-AllConsistent :
    (abi : Abi) (log : CurveLog) (ts : ℕ) (t t' : FlowTracker)
    → AllConsistent t
    → ingest abi log ts t ≡ ok t'
    → AllConsistent t'
ingest-AllConsistent abi log ts t t' c h =
    let (f, f', found, went, after) = ingest-cases abi log ts t t' h in
    let kept =
      ingest_flow-IsConsistent abi log ts f f' (get-IsConsistent log.address t f c found) went in
    rw after (change_flow-AllConsistent log.address (λ _. f') t (λ _ _ _. kept) c)

pub ingest_all-AllConsistent :
    (abi : Abi) (logs : List (CurveLog × ℕ)) (t : FlowTracker)
    → AllConsistent t
    → AllConsistent (ingest_all abi logs t).1
unfolding ingest_all
ingest_all-AllConsistent abi [] t c = c
ingest_all-AllConsistent abi ((log, ts) ∷ logs) t c = elim (Result-cases (ingest abi log ts t)) [
  | inl (e, fails) ↦ rw (ingest_all, fails) c
  | inr (t', goes) ↦
      rw (ingest_all, goes)
        (ingest_all-AllConsistent abi logs t' (ingest-AllConsistent abi log ts t t' c goes))
]

rewind-AllConsistent :
    (curve from : ℕ) (t : FlowTracker) → AllConsistent t → AllConsistent (rewind curve from t)
unfolding rewind
rewind-AllConsistent curve from t c =
    change_flow-AllConsistent curve (rewind_flow from) t
      (λ f _ d. rewind_flow-IsConsistent from f d) c

advanced-IsConsistent :
    (block hash : ℕ) (f : CurveFlow) → IsConsistent f → IsConsistent (advanced block hash f)
advanced-IsConsistent block hash f c = record {
  ordered = c.ordered;
  indexed = c.indexed;
  keyed = c.keyed;
}

apply_range-AllConsistent :
    (abi : Abi) (curve from_block to_block to_hash : ℕ) (logs : List (CurveLog × ℕ))
    (t : FlowTracker)
    → AllConsistent t
    → AllConsistent (apply_range abi curve from_block to_block to_hash logs t).1
unfolding apply_range
apply_range-AllConsistent abi curve from_block to_block to_hash logs t c =
    let went = ingest_all-AllConsistent abi logs t c in
    elim (Result-cases (check_range curve from_block to_block to_hash t)) [
      | inl (e, fails) ↦ rw (apply_range, fails) c
      | inr (u, goes) ↦ elim (Result-cases ((ingest_all abi logs t).0)) [
        | inl (e, stops) ↦ rw (apply_range, goes, stops) went
        | inr (v, all) ↦
            rw (apply_range, goes, all)
              (change_flow-AllConsistent curve (advanced to_block to_hash) (ingest_all abi logs t).1
                (λ f _ d. advanced-IsConsistent to_block to_hash f d) went)
      ]
    ]

-- What is done to a tracker.
pub data Operation : Type 0 where
  watches : (curve launched_at origin_block : ℕ) → (insiders : List ℕ) → Operation
  rewinds : (curve from_block : ℕ) → Operation
  applies : (curve from_block to_block to_hash : ℕ) → (logs : List (CurveLog × ℕ)) → Operation
  unwatches : (curve : ℕ) → Operation

unfoldable pub run : Abi → List Operation → FlowTracker → FlowTracker
run abi [] t = t
run abi (watches curve at block insiders ∷ ops) t = run abi ops (watch curve at block insiders t)
run abi (rewinds curve from ∷ ops) t = run abi ops (rewind curve from t)
run abi (applies curve from to hash logs ∷ ops) t =
    run abi ops (apply_range abi curve from to hash logs t).1
run abi (unwatches curve ∷ ops) t = run abi ops (unwatch curve t)

-- Any operations, on a consistent tracker, whether the ranges succeed or not, leave every flow's
-- events in the order of their keys, each under the identity of its log, and no two under one.
pub run-AllConsistent :
    (abi : Abi) (ops : List Operation) (t : FlowTracker)
    → AllConsistent t
    → AllConsistent (run abi ops t)
unfolding run
run-AllConsistent abi [] t c = c
run-AllConsistent abi (watches curve at block insiders ∷ ops) t c =
    run-AllConsistent abi ops (watch curve at block insiders t)
      (watch-AllConsistent curve at block insiders t c)
run-AllConsistent abi (rewinds curve from ∷ ops) t c =
    run-AllConsistent abi ops (rewind curve from t) (rewind-AllConsistent curve from t c)
run-AllConsistent abi (applies curve from to hash logs ∷ ops) t c =
    run-AllConsistent abi ops (apply_range abi curve from to hash logs t).1
      (apply_range-AllConsistent abi curve from to hash logs t c)
run-AllConsistent abi (unwatches curve ∷ ops) t c =
    run-AllConsistent abi ops (unwatch curve t) (unwatch-AllConsistent curve t c)
