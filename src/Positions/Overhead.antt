-- ===== src/Positions/Overhead.antt =====
-- `Position::charge_overhead_gas` in trade/positions.rs, over many charges.
use bodkin.Prelude.{
  ℕ, ◌≡◌, refl, ◌∙◌, Bool, Bool-cases, inl, inr, true, false, List, [], ◌∷◌, String, any,
  any-append,
}
use text.Mathlib.Text.{◌==◌ as str_eq}
use text.Mathlib.TextEquality.{eq_iff}
use bodkin.Positions.Record.{Formats, Position, charge_overhead_gas}

unfoldable pub charge_all : Formats → List (String × ℕ) → Position → Position
unfolding charge_overhead_gas
charge_all fmt [] p = p
charge_all fmt ((operation, gas) ∷ cs) p =
    charge_all fmt cs (charge_overhead_gas fmt operation gas p).1

abbrev pub is_charged : String → Position → Bool
is_charged operation p = any (λ o. str_eq o operation) p.overhead_operations

module _ (fmt : Formats) where
  charge-charged :
      (operation : String) (gas : ℕ) (p : Position)
      → is_charged operation (charge_overhead_gas fmt operation gas p).1 ≡ true
  unfolding charge_overhead_gas
  charge-charged operation gas p = elim (Bool-cases (is_charged operation p)) [
    | inl before ↦ rw (charge_overhead_gas, before) before
    | inr not_yet ↦
        let self : str_eq operation operation ≡ true = (eq_iff operation operation).1 refl in
        rw (charge_overhead_gas, not_yet)
          (any-append (λ o. str_eq o operation) p.overhead_operations (operation ∷ [])
            ∙ rw (not_yet, self) refl)
  ]

  charge_keeps :
      (operation other : String) (gas : ℕ) (p : Position)
      → is_charged operation p ≡ true
      → is_charged operation (charge_overhead_gas fmt other gas p).1 ≡ true
  unfolding charge_overhead_gas
  charge_keeps operation other gas p h = elim (Bool-cases (is_charged other p)) [
    | inl before ↦ rw (charge_overhead_gas, before) h
    | inr not_yet ↦
        rw (charge_overhead_gas, not_yet)
          (any-append (λ o. str_eq o operation) p.overhead_operations (other ∷ []) ∙ rw h refl)
  ]

  charge_all_keeps :
      (operation : String) (cs : List (String × ℕ)) (p : Position)
      → is_charged operation p ≡ true
      → is_charged operation (charge_all fmt cs p) ≡ true
  unfolding charge_all
  charge_all_keeps operation [] p h = h
  charge_all_keeps operation ((other, gas) ∷ cs) p h =
      charge_all_keeps operation cs (charge_overhead_gas fmt other gas p).1
        (charge_keeps operation other gas p h)

  -- The overhead gas of an operation that was charged is never charged again, whatever gas is named and
  -- whatever else was charged in between: the answer is `false` and the position stays as it is.
  pub charge_overhead_gas_once :
      (operation : String) (gas again : ℕ) (cs : List (String × ℕ)) (p : Position)
      → charge_overhead_gas fmt operation again
          (charge_all fmt cs (charge_overhead_gas fmt operation gas p).1)
        ≡ (false, charge_all fmt cs (charge_overhead_gas fmt operation gas p).1)
  unfolding charge_overhead_gas
  charge_overhead_gas_once operation gas again cs p =
      charged_again (charge_all fmt cs (charge_overhead_gas fmt operation gas p).1) (
        charge_all_keeps operation cs (charge_overhead_gas fmt operation gas p).1
          (charge-charged operation gas p))
    where
      charged_again :
          (q : Position)
          → is_charged operation q ≡ true
          → charge_overhead_gas fmt operation again q ≡ (false, q)
      charged_again q h = rw (charge_overhead_gas, h) refl
