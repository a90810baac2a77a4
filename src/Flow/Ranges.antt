-- ===== src/Flow/Ranges.antt =====
-- Ranges of logs: what they come to for each identity, and where the next one starts.
use bodkin.Prelude.{
  ℕ, ◌≡◌, refl, ap, sym, ◌∙◌, inl, inr, Bool-cases, Option, none, some, List, [], ◌∷◌,
  if◌then◌else◌, ◌==◌, arith,
}
use bodkin.Deployer.Maps.{get}
use bodkin.Flow.Keys.{EventKey}
use bodkin.Flow.Tracker.{StoredEvent, Identity, CurveFlow, FlowTracker, change_flow}
use bodkin.Flow.Ingest.{CurveLog, Abi, Result-cases, ok, err, ingest, ingest_all}
use bodkin.Flow.Held.{held}
use bodkin.Flow.Replay.{effect, effect_of, held_after, held-effect, ingest_flow-effect}
use bodkin.Flow.Streams.{AllConsistent, get-IsConsistent, ingest-cases, ingest-AllConsistent}

get-change_flow :
    (curve other : ℕ) (change : CurveFlow → CurveFlow) (t : FlowTracker)
    → get other (change_flow curve change t) ≡ (
        if curve == other
        then elim (get other t) [ none ↦ none | some f ↦ some (change f) ]
        else get other t)
unfolding change_flow
get-change_flow curve other change [] = ground arith
get-change_flow curve other change ((k, f) ∷ t) =
    ground (arith, get-change_flow curve other change t)

-- What is under an identity in the flow of a curve.
unfoldable pub view : ℕ → Identity → FlowTracker → Option (EventKey × StoredEvent)
unfolding held
view curve id t = elim (get curve t) [ none ↦ none | some f ↦ held id f.events ]

-- What logs come to for one identity of one curve, in their order.
unfoldable pub view_after :
    Abi
    → ℕ
    → Identity
    → List (CurveLog × ℕ)
    → Option (EventKey × StoredEvent)
    → Option (EventKey × StoredEvent)
unfolding effect_of
view_after abi curve id [] before = before
view_after abi curve id ((log, ts) ∷ logs) before = view_after abi curve id logs (
    if log.address == curve
    then elim (effect_of abi log ts) [ err e ↦ before | ok d ↦ held_after d id before ]
    else before)

view-get :
    (curve : ℕ) (id : Identity) (t : FlowTracker) (f : CurveFlow)
    → get curve t ≡ some f
    → view curve id t ≡ held id f.events
unfolding view
view-get curve id t f h = rw (view, h) refl

view_same :
    (curve : ℕ) (id : Identity) (t u : FlowTracker)
    → get curve t ≡ get curve u
    → view curve id t ≡ view curve id u
unfolding view
view_same curve id t u h = rw (view, h) refl

view-ingest :
    (abi : Abi) (curve : ℕ) (id : Identity) (log : CurveLog) (ts : ℕ) (t t' : FlowTracker)
    → AllConsistent t
    → ingest abi log ts t ≡ ok t'
    → view curve id t' ≡ (
        if log.address == curve
        then elim (effect_of abi log ts) [
          | err e ↦ view curve id t
          | ok d ↦ held_after d id (view curve id t)
        ]
        else view curve id t)
view-ingest abi curve id log ts t t' c h =
    let (f, f', found, went, after) = ingest-cases abi log ts t t' h in
    let changed = ap (get curve) after ∙ get-change_flow log.address curve (λ _. f') t in
    elim (Result-cases (effect_of abi log ts)) [
      | inl (e, fails) ↦ cc (ingest_flow-effect abi log ts f, fails, went)
      | inr (d, goes) ↦ elim (Bool-cases (log.address == curve)) [
        | inl here ↦
            let at : log.address ≡ curve = ground arith in
            let found' : get curve t ≡ some f = rw (sym at) found in
            let got : get curve t' ≡ some f' = changed ∙ rw (here, found') refl in
            let same : f' ≡ effect d f = cc (ingest_flow-effect abi log ts f, goes, went) in
            let step = held-effect d id f (get-IsConsistent log.address t f c found) in
            rw (here, goes)
              (view-get curve id t' f' got
                ∙ ap (λ g. held id g.events) same
                ∙ step
                ∙ ap (held_after d id) (sym (view-get curve id t f found')))
        | inr apart ↦ rw apart (view_same curve id t' t (changed ∙ rw apart refl))
      ]
    ]

-- A range of logs that all go into a consistent tracker leaves, under each identity of each curve,
-- what the logs come to for it one by one, from what was there: the last log of the identity that
-- is an event or a removal decides.
pub view-ingest_all :
    (abi : Abi) (curve : ℕ) (id : Identity) (logs : List (CurveLog × ℕ)) (t : FlowTracker)
    → AllConsistent t
    → (ingest_all abi logs t).0 ≡ ok tt
    → view curve id (ingest_all abi logs t).1 ≡ view_after abi curve id logs (view curve id t)
unfolding view_after ingest_all
view-ingest_all abi curve id [] t c h = refl
view-ingest_all abi curve id ((log, ts) ∷ logs) t c h = elim (Result-cases (ingest abi log ts t)) [
  | inl (e, fails) ↦ cc (rw (ingest_all, fails) at h)
  | inr (t', goes) ↦
      let rest =
        view-ingest_all abi curve id logs t' (ingest-AllConsistent abi log ts t t' c goes)
          (rw (ingest_all, goes) at h) in
      rw (ingest_all, goes)
        (rest ∙ ap (view_after abi curve id logs) (view-ingest abi curve id log ts t t' c goes))
]
