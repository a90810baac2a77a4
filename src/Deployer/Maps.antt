-- ===== src/Deployer/Maps.antt =====
-- The hash maps of the index as association lists: each key stands once.
use bodkin.Prelude.{
  ℕ, ◌≡◌, Bool, true, false, Option, none, some, List, [], ◌∷◌, if◌then◌else◌, ◌==◌, arith,
}

module _ {ℓ} {V : Type ℓ} where
  abbrev pub get : ℕ → List (ℕ × V) → Option V
  get key [] = none
  get key ((k, v) ∷ m) = if k == key then some v else get key m

  -- `contains_key`
  abbrev pub contains : ℕ → List (ℕ × V) → Bool
  contains key m = elim (get key m) [ none ↦ false | some v ↦ true ]

  -- `entry(key).and_modify(change).or_insert(new)`: with a constant change, `insert`.
  unfoldable pub upsert : ℕ → (V → V) → V → List (ℕ × V) → List (ℕ × V)
  upsert key change new [] = (key, new) ∷ []
  upsert key change new ((k, v) ∷ m) =
      let rest = upsert key change new m in if k == key then (k, change v) ∷ m else (k, v) ∷ rest

  abbrev pub changed_or : (V → V) → V → Option V → V
  changed_or change new none = new
  changed_or change new (some v) = change v

  pub get-upsert :
      (key other : ℕ) (change : V → V) (new : V) (m : List (ℕ × V))
      → get other (upsert key change new m)
        ≡ (if key == other then some (changed_or change new (get other m)) else get other m)
  unfolding upsert
  get-upsert key other change new [] = ground arith
  get-upsert key other change new ((k, v) ∷ m) = ground (arith, get-upsert key other change new m)
