-- ===== src/Recovery/Once.antt =====
-- Steps of which each adds one at most, and none after one has added.
use bodkin.Prelude.{
  ℕ, ◌+◌, ◌≤◌, ◌≡◌, ◌⊎◌, refl, ◌∙◌, Bool, true, false, Bool-cases, List, [], ◌∷◌, inl, inr, All,
  arith,
}

unfoldable pub run {ℓ κ} : {A : Type ℓ} {S : Type κ} → (A → S → S) → List A → S → S
run step [] s = s
run step (a ∷ more) s = run step more (step a s)

module _ {A S : Type 0} (step : A → S → S) (taken : S → Bool) (size : S → ℕ) where
  pub record AddsOnce (Good : A → Type 0) : Type 0 where
    pub after :
        (a : A) (s : S)
        → Good a
        → taken s ≡ true
        → (taken (step a s) ≡ true) × (size (step a s) ≡ size s)
    pub before :
        (a : A) (s : S)
        → Good a
        → taken s ≡ false
        → (size (step a s) ≡ size s) ⊎ ((size (step a s) ≡ size s + 1) × (taken (step a s) ≡ true))

  run-taken :
      (Good : A → Type 0)
      → AddsOnce Good
      → (more : List A) (s : S) → All Good more
      → taken s ≡ true
      → size (run step more s) ≡ size s
  unfolding run
  run-taken Good h [] s g there = refl
  run-taken Good h (a ∷ more) s g there =
      let (still, same) = h.after a s g.0 there in run-taken Good h more (step a s) g.1 still ∙ same

  pub run-once :
      (Good : A → Type 0)
      → AddsOnce Good
      → (more : List A) (s : S) → All Good more
      → size (run step more s) ≤ size s + 1
  unfolding run
  run-once Good h [] s g = omega arith
  run-once Good h (a ∷ more) s g = elim (Bool-cases (taken s)) [
    | inl there ↦ omega (arith, run-taken Good h (a ∷ more) s g there)
    | inr new ↦ elim (h.before a s g.0 new) [
      | inl same ↦ omega (arith, same, run-once Good h more (step a s) g.1)
      | inr (grown, there) ↦ omega (arith, grown, run-taken Good h more (step a s) g.1 there)
    ]
  ]
