-- ===== src/Burst/Classes.antt =====
-- What a burst's class says of its outcomes, and the bounds of the lead.
use bodkin.Prelude.{
  ℕ, ◌+◌, ◌-◌, ◌≤◌, ◌≡◌, refl, ◌⊎◌, inl, inr, Bool, true, false, ◌||◌, Option, none, some, List, [],
  ◌∷◌, String, min, max, if◌then◌else◌, any, arith,
}
use bodkin.Burst.Outcome.{
  BurstClass, sent_with_hash, helper_revert, late_dup, nonce_gap, SendOutcome, accepted, refused,
  turned_away, known, send_error, SignedTx, BurstTiming, BurstResult, adapt, Scan, hit, over, scan,
  classify,
}

abbrev pub is_accepted : ℕ × SendOutcome → Bool
is_accepted (index, accepted hash) = true
is_accepted (index, _) = false

abbrev pub is_known : ℕ × SendOutcome → Bool
is_known (index, known) = true
is_known (index, _) = false

abbrev pub is_refused : ℕ × SendOutcome → Bool
is_refused (index, refused message) = true
is_refused (index, _) = false

-- Whether an option holds something.
abbrev pub holds {ℓ} : {A : Type ℓ} → Option A → Bool
holds none = false
holds (some a) = true

-- The class that the outcomes alone tell.
abbrev pub class_of_outcomes : List (ℕ × SendOutcome) → BurstClass
class_of_outcomes os =
    if any is_accepted os
    then sent_with_hash
    else if any is_known os
    then late_dup
    else if any is_refused os
    then helper_revert
    else nonce_gap

abbrev class_of_scan : Scan → BurstClass
class_of_scan (hit index hash) = sent_with_hash
class_of_scan (over r k) =
    if holds k then late_dup else if holds r then helper_revert else nonce_gap

abbrev class_from : Option (ℕ × String) → Option ℕ → List (ℕ × SendOutcome) → BurstClass
class_from r k os =
    if any is_accepted os
    then sent_with_hash
    else if holds k || any is_known os
    then late_dup
    else if holds r || any is_refused os
    then helper_revert
    else nonce_gap

scan-class :
    (r : Option (ℕ × String)) (k : Option ℕ) (os : List (ℕ × SendOutcome))
    → class_of_scan (scan r k os) ≡ class_from r k os
unfolding scan
scan-class r k [] = ground arith
scan-class r k ((index, accepted hash) ∷ os) = refl
scan-class none k ((index, refused message) ∷ os) =
    ground (arith, scan-class (some (index, message)) k os)
scan-class (some b) k ((index, refused message) ∷ os) = ground (arith, scan-class (some b) k os)
scan-class r none ((index, known) ∷ os) = ground (arith, scan-class r (some index) os)
scan-class r (some b) ((index, known) ∷ os) = ground (arith, scan-class r (some b) os)
scan-class r k ((index, turned_away code message) ∷ os) = ground (arith, scan-class r k os)
scan-class r k ((index, send_error message) ∷ os) = ground (arith, scan-class r k os)

Scan-cases :
    (s : Scan)
    → ((i : ℕ) × (h : ℕ) × (s ≡ hit i h))
      ⊎ ((r : Option (ℕ × String)) × (i : ℕ) × (s ≡ over r (some i)))
      ⊎ ((i : ℕ) × (m : String) × (s ≡ over (some (i, m)) none))
      ⊎ (s ≡ over none none)
Scan-cases (hit i h) = inl (i, h, refl)
Scan-cases (over r (some i)) = inr (inl (r, i, refl))
Scan-cases (over (some (i, m)) none) = inr (inr (inl (i, m, refl)))
Scan-cases (over none none) = inr (inr (inr refl))

-- A burst counts as submitted exactly if some send was accepted with a hash; failing that as a late
-- duplicate if one was known, failing that as a revert if one was reverted, and else as a nonce gap.
-- A hash is given in the first two cases only, and the outcomes are passed on.
pub classify-class :
    (txs : List SignedTx) (os : List (ℕ × SendOutcome)) (timing : BurstTiming) (r : BurstResult)
    → classify txs os timing ≡ some r
    → (r.class_of ≡ class_of_outcomes os)
      × (holds r.hash ≡ (any is_accepted os || any is_known os))
      × (r.outcomes ≡ os)
unfolding classify
classify-class txs os timing r e = elim (Scan-cases (scan none none os)) [
  | inl (i, h, s) ↦ ground (arith, scan-class none none os)
  | inr (inl (b, i, s)) ↦ ground (arith, scan-class none none os)
  | inr (inr (inl (i, m, s))) ↦ ground (arith, scan-class none none os)
  | inr (inr (inr s)) ↦ ground (arith, scan-class none none os)
]

-- The lead stays between 40 and 400 ms once it is there, grows by 20 ms up to the top after a miss,
-- shrinks by 10 ms down to the bottom after a first attempt that landed, and else stays.
pub adapt-bounds :
    (attempt cur : ℕ) (landed : Bool)
    → 40 ≤ cur
    → cur ≤ 400
    → (40 ≤ adapt attempt landed cur)
      × (adapt attempt landed cur ≤ 400)
      × ((adapt attempt landed cur ≡ max (cur - 10) 40)
          ⊎ (adapt attempt landed cur ≡ min (cur + 20) 400)
          ⊎ (adapt attempt landed cur ≡ cur))
unfolding adapt
adapt-bounds attempt cur landed low high = ground arith
