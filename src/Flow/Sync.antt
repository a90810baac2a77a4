-- ===== src/Flow/Sync.antt =====
-- Where the next range of a curve starts: `FlowTracker::sync` and apply_range in pons/stream.rs.
use bodkin.Prelude.{
  ℕ, ◌≡◌, ◌≤◌, refl, ap, sym, ◌∙◌, ◌⊎◌, inl, inr, true, false, Bool-cases, Option, Option-cases,
  none, some, List, [], ◌∷◌, if◌then◌else◌, ◌==◌, leb, max, arith, saturating_add, u64_mod,
}
use bodkin.Deployer.Maps.{get}
use bodkin.Flow.Tracker.{CurveFlow, FlowSync, FlowTracker, sync, change_flow}
use bodkin.Flow.Ingest.{
  CurveLog, Abi, FlowError, Result-cases, ok, err, ingest_flow, store_event, unstore_event, ingest,
  ingest_all, advanced, check_range, apply_range,
}
use bodkin.Flow.Replay.{Effect, nothing, stores, unstores, effect, effect_of, ingest_flow-effect}
use bodkin.Flow.Streams.{ingest-cases}

abbrev pub sync_of : CurveFlow → FlowSync
sync_of f = record { origin_block = f.origin_block; from_block = f.next_block; anchor = f.anchor }

sync-change_flow :
    (curve other : ℕ) (change : CurveFlow → CurveFlow) (t : FlowTracker)
    → sync other (change_flow curve change t) ≡ (
        if curve == other
        then elim (get other t) [ none ↦ none | some f ↦ some (sync_of (change f)) ]
        else sync other t)
unfolding change_flow sync
sync-change_flow curve other change [] = ground arith
sync-change_flow curve other change ((k, f) ∷ t) =
    ground (arith, sync-change_flow curve other change t)

sync_of-effect : (d : Effect) (f : CurveFlow) → sync_of (effect d f) ≡ sync_of f
unfolding store_event unstore_event
sync_of-effect nothing f = refl
sync_of-effect (stores key stored) f = refl
sync_of-effect (unstores id) f = ground arith

sync_of-ingest_flow :
    (abi : Abi) (log : CurveLog) (ts : ℕ) (f f' : CurveFlow)
    → ingest_flow abi log ts f ≡ ok f'
    → sync_of f' ≡ sync_of f
sync_of-ingest_flow abi log ts f f' h = elim (Result-cases (effect_of abi log ts)) [
  | inl (e, fails) ↦ cc (ingest_flow-effect abi log ts f, fails, h)
  | inr (d, goes) ↦
      let same : f' ≡ effect d f = cc (ingest_flow-effect abi log ts f, goes, h) in
      rw same (sync_of-effect d f)
]

sync-get :
    (curve : ℕ) (t : FlowTracker) (f : CurveFlow)
    → get curve t ≡ some f
    → sync curve t ≡ some (sync_of f)
unfolding sync
sync-get curve t f h = rw (sync, h) refl

sync-ingest :
    (abi : Abi) (other : ℕ) (log : CurveLog) (ts : ℕ) (t t' : FlowTracker)
    → ingest abi log ts t ≡ ok t'
    → sync other t' ≡ sync other t
sync-ingest abi other log ts t t' h =
    let (f, f', found, went, after) = ingest-cases abi log ts t t' h in
    let changed = ap (sync other) after ∙ sync-change_flow log.address other (λ _. f') t in
    let kept = sync_of-ingest_flow abi log ts f f' went in
    elim (Bool-cases (log.address == other)) [
      | inl here ↦
          let at : log.address ≡ other = ground arith in
          let found' : get other t ≡ some f = rw (sym at) found in
          changed ∙ rw (here, found') (ap some kept ∙ sym (sync-get other t f found'))
      | inr apart ↦ changed ∙ rw apart refl
    ]

sync-ingest_all :
    (abi : Abi) (other : ℕ) (logs : List (CurveLog × ℕ)) (t : FlowTracker)
    → sync other (ingest_all abi logs t).1 ≡ sync other t
unfolding ingest_all
sync-ingest_all abi other [] t = refl
sync-ingest_all abi other ((log, ts) ∷ logs) t = elim (Result-cases (ingest abi log ts t)) [
  | inl (e, fails) ↦ rw (ingest_all, fails) refl
  | inr (t', goes) ↦
      rw (ingest_all, goes)
        (sync-ingest_all abi other logs t' ∙ sync-ingest abi other log ts t t' goes)
]

abbrev pub moved : ℕ → ℕ → FlowSync → FlowSync
moved to_block to_hash s = record s {
  from_block = max s.from_block (saturating_add u64_mod to_block 1);
  anchor = some (to_block, to_hash);
}

check_range-ok :
    (curve from_block to_block to_hash : ℕ) (t : FlowTracker)
    → check_range curve from_block to_block to_hash t ≡ ok tt
    → (f : CurveFlow) × (get curve t ≡ some f)
      × (leb from_block to_block ≡ true)
      × ((to_hash == 0) ≡ false)
      × (leb from_block f.next_block ≡ true)
unfolding check_range
check_range-ok curve from_block to_block to_hash t h = elim (Option-cases (get curve t)) [
  | inl absent ↦ cc (rw absent at h)
  | inr (f, found) ↦
      let rest = rw found at h in (f, found, ground arith, ground arith, ground arith)
]

sync-advanced :
    (curve other to_block to_hash : ℕ) (t : FlowTracker)
    → sync other (change_flow curve (advanced to_block to_hash) t) ≡ (
        if curve == other
        then elim (sync other t) [ none ↦ none | some s ↦ some (moved to_block to_hash s) ]
        else sync other t)
unfolding sync
sync-advanced curve other to_block to_hash t =
    sync-change_flow curve other (advanced to_block to_hash) t ∙ ground arith

-- A range that fails moves the sync point of no curve. One that succeeds is of a watched curve, has its
-- bounds in order, a hash, and a start no later than the block that was expected; it moves the sync
-- point of its curve past its end, never back, and those of the other curves not at all.
pub apply_range-sync :
    (abi : Abi) (curve from_block to_block to_hash other : ℕ) (logs : List (CurveLog × ℕ))
    (t : FlowTracker)
    → ((e : FlowError) × ((apply_range abi curve from_block to_block to_hash logs t).0 ≡ err e)
        × (sync other (apply_range abi curve from_block to_block to_hash logs t).1 ≡ sync other t))
      ⊎ ((before : FlowSync) × (sync curve t ≡ some before)
          × ((apply_range abi curve from_block to_block to_hash logs t).0 ≡ ok tt)
          × (from_block ≤ to_block)
          × ((to_hash == 0) ≡ false)
          × (from_block ≤ before.from_block)
          × (sync other (apply_range abi curve from_block to_block to_hash logs t).1
              ≡ (if curve == other then some (moved to_block to_hash before) else sync other t)))
unfolding apply_range
apply_range-sync abi curve from_block to_block to_hash other logs t =
    let kept = sync-ingest_all abi other logs t in
    elim (Result-cases (check_range curve from_block to_block to_hash t)) [
      | inl (e, fails) ↦ inl (e, rw (apply_range, fails) refl, rw (apply_range, fails) refl)
      | inr (u, goes) ↦ elim (Result-cases ((ingest_all abi logs t).0)) [
        | inl (e, stops) ↦
            inl (e, rw (apply_range, goes, stops) stops, rw (apply_range, goes, stops) kept)
        | inr (v, all) ↦
            let (f, found, ordered, hashed, met) =
              check_range-ok curve from_block to_block to_hash t goes in
            let here = sync-get curve t f found in
            inr (
              sync_of f,
              here,
              rw (apply_range, goes, all) refl,
              ground (arith, ordered),
              hashed,
              ground (arith, met),
              rw (apply_range, goes, all)
                  (sync-advanced curve other to_block to_hash (ingest_all abi logs t).1
                    ∙ rw kept (at_curve here)),
            )
      ]
    ]
  where
    at_curve :
        {before : FlowSync}
        → sync curve t ≡ some before
        → (if curve == other
            then elim (sync other t) as (λ _. Option FlowSync) [
              | none ↦ none
              | some s ↦ some (moved to_block to_hash s)
            ]
            else sync other t)
          ≡ (if curve == other then some (moved to_block to_hash before) else sync other t)
    at_curve here = elim (Bool-cases (curve == other)) [
      | inl e ↦ let same : curve ≡ other = ground arith in rw (e, rw same at here) refl
      | inr e ↦ rw e refl
    ]
