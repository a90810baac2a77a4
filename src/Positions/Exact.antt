-- ===== src/Positions/Exact.antt =====
-- One exit in trade/positions.rs: the amounts that are sold and left.
use native.Mathlib.Nat.{div-le_of_le-mul, mul-le-mul_left, mul_comm}
use bodkin.Prelude.{
  ℕ, ◌-◌, ◌*◌, ◌/◌, ◌≡◌, ◌<◌, ◌≤◌, ◌⊎◌, inl, inr, refl, subst, Bool-cases, Option-cases, false,
  Option, none, some, List, [], ◌∷◌, String, leb, ◌==◌, u256_mod, arith,
}
use bodkin.Prelude.U256
use bodkin.Positions.Record.{
  Formats, IsDecimal, Exit, Position, or_zero, or_else, parse_some, basis, gas_basis, held,
}
use bodkin.Positions.Exits.{scale_held, released}

share_le : (value part of : ℕ) → part ≤ of → value * part / of ≤ value
share_le value part of h =
    div-le_of_le-mul of
      (subst (λ n. value * part ≤ n) (mul_comm value of) (mul-le-mul_left value h))

pub scale_held-some :
    (value part of : ℕ)
    → value < u256_mod
    → part ≤ of
    → (of == 0) ≡ false
    → scale_held value part of ≡ some (value * part / of)
unfolding scale_held
scale_held-some value part of v h z = ground (arith, share_le value part of h)

pub released-some :
    (value sold have : ℕ)
    → value < u256_mod
    → sold ≤ have
    → (have == 0) ≡ false
    → (r : ℕ) × (released value sold have ≡ some r)
      × (r ≤ value)
      × ((leb have sold ≡ false) ⊎ (r ≡ value))
released-some value sold have v h z = elim (Bool-cases (leb have sold)) [
  | inl all ↦ (value, rw all refl, omega arith, inr refl)
  | inr part ↦ (
    value * sold / have,
    rw part (scale_held-some value sold have v h z),
    share_le value sold have h,
    inl part,
  )
]

module _ (fmt : Formats) (dec : IsDecimal fmt) where
  pub or_zero-parse_bound : (s : String) → or_zero (fmt.parse s) < u256_mod
  or_zero-parse_bound s = elim (Option-cases (fmt.parse s)) [
    | inl bad ↦ rw bad (omega arith)
    | inr (n, good) ↦ rw good (dec.parse-bound s n good)
  ]

  pub held_bound : (p : Position) → held fmt p < u256_mod
  unfolding held
  held_bound p = or_zero-parse_bound p.tokens

  parse_some-bound : (o : Option String) (n : ℕ) → parse_some fmt o ≡ some n → n < u256_mod
  parse_some-bound none n h = cc
  parse_some-bound (some s) n h = dec.parse-bound s n h

  or_else-bound :
      (a b : Option ℕ)
      → ((n : ℕ) → a ≡ some n → n < u256_mod)
      → ((n : ℕ) → b ≡ some n → n < u256_mod)
      → or_zero (or_else a b) < u256_mod
  or_else-bound none none f g = omega arith
  or_else-bound none (some b) f g = g b refl
  or_else-bound (some a) b f g = f a refl

  pub basis_bound : (p : Position) → basis fmt p < u256_mod
  unfolding basis
  basis_bound p =
      or_else-bound (parse_some fmt p.basis_eth) (fmt.parse p.entry_eth)
        (parse_some-bound p.basis_eth) (dec.parse-bound p.entry_eth)

  first_gas : List Exit → Option String → Option ℕ
  first_gas es g = elim es [ [] ↦ parse_some fmt g | e ∷ more ↦ none ]

  first_gas-bound :
      (es : List Exit) (g : Option String) (n : ℕ) → first_gas es g ≡ some n → n < u256_mod
  unfolding first_gas
  first_gas-bound [] g n h = parse_some-bound g n h
  first_gas-bound (e ∷ es) g n h = cc

  pub gas_basis_bound : (p : Position) → gas_basis fmt p < u256_mod
  unfolding gas_basis first_gas
  gas_basis_bound p =
      or_else-bound (parse_some fmt p.basis_gas_wei) (first_gas p.exits p.entry_gas_wei)
        (parse_some-bound p.basis_gas_wei) (first_gas-bound p.exits p.entry_gas_wei)

  -- What is left reads back.
  pub sub_exact : (a b : ℕ) → a < u256_mod → b ≤ a → U256.sub a b ≡ a - b
  sub_exact a b l h = omega arith
