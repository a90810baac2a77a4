-- ===== src/Decision/Rungs.antt =====
-- config.rs: `parse_exit_ladder`, and the validation of engine.rs. `str` methods are the standard
-- library's: the fields of `Splitting`.
use bodkin.Prelude.{
  ℕ, ◌≡◌, refl, Bool-cases, Option-cases, inl, inr, false, ◌&&◌, ◌||◌, Option, none, some, List, [],
  ◌∷◌, String, ltb, leb, ◌==◌, if◌then◌else◌, arith,
}
use bodkin.Prelude.Int.{ℤ}
use bodkin.Prelude.Text.{is_empty_text}
use bodkin.Decision.Rules.{check_rungs}

-- `split(',')`, `trim`, `split_once('@')`, and `parse` to a `u32` and an `i32`.
pub record Splitting : Type 0 where
  pub split_commas : String → List String
  pub trim : String → String
  pub split_at : String → Option (String × String)
  pub parse_u32 : String → Option ℕ
  pub parse_i32 : String → Option ℤ

abbrev pub rung_of : Option ℕ → Option ℤ → Option (ℕ × ℤ)
rung_of (some f) (some a) = if leb 1 f && leb f 100 then some (f, a) else none
rung_of _ _ = none

-- An entry; `none` where it is skipped with a warning.
unfoldable pub parse_rung : Splitting → String → Option (ℕ × ℤ)
parse_rung str part =
    let entry = str.trim part in
    if is_empty_text entry then none else elim (str.split_at entry) [
      | none ↦ none
      | some (frac, at) ↦ rung_of (str.parse_u32 (str.trim frac)) (str.parse_i32 (str.trim at))
    ]

-- `filter_map`
unfoldable pub parse_rungs : Splitting → List String → List (ℕ × ℤ)
unfolding parse_rung
parse_rungs str [] = []
parse_rungs str (part ∷ parts) = elim (parse_rung str part) [
  | none ↦ parse_rungs str parts
  | some rung ↦ rung ∷ parse_rungs str parts
]

unfoldable pub parse_exit_ladder : Splitting → String → List (ℕ × ℤ)
unfolding parse_rungs
parse_exit_ladder str raw = parse_rungs str (str.split_commas raw)

rung_of-fits :
    (f : Option ℕ) (a : Option ℤ) (frac : ℕ) (at : ℤ)
    → rung_of f a ≡ some (frac, at)
    → (frac == 0 || ltb 100 frac) ≡ false
rung_of-fits none a frac at h = cc
rung_of-fits (some f) none frac at h = cc
rung_of-fits (some f) (some a) frac at h = elim (Bool-cases (leb 1 f && leb f 100)) [
  | inr bad ↦ cc (rw bad at h)
  | inl good ↦ let same : f ≡ frac = cc (rw good at h) in ground arith
]

parse_rung-fits :
    (str : Splitting) (part : String) (frac : ℕ) (at : ℤ)
    → parse_rung str part ≡ some (frac, at)
    → (frac == 0 || ltb 100 frac) ≡ false
unfolding parse_rung
parse_rung-fits str part frac at h = elim (Bool-cases (is_empty_text (str.trim part))) [
  | inl blank ↦ cc (rw (parse_rung, blank) at h)
  | inr entry ↦ elim (Option-cases (str.split_at (str.trim part))) [
    | inl whole ↦ cc (rw (parse_rung, entry, whole) at h)
    | inr ((left, right), halves) ↦
        rung_of-fits (str.parse_u32 (str.trim left)) (str.parse_i32 (str.trim right)) frac at
          (rw (parse_rung, entry, halves) at h)
  ]
]

parse_rungs-check_rungs :
    (str : Splitting) (parts : List String) → check_rungs (parse_rungs str parts) ≡ none
unfolding parse_rungs
parse_rungs-check_rungs str [] = refl
parse_rungs-check_rungs str (part ∷ parts) = elim (Option-cases (parse_rung str part)) [
  | inl skipped ↦ rw (parse_rungs, skipped) (parse_rungs-check_rungs str parts)
  | inr ((frac, at), kept) ↦
      rw (parse_rungs, kept, parse_rung-fits str part frac at kept)
        (parse_rungs-check_rungs str parts)
]

-- Whatever text the ladder is read from, the rungs that are kept pass the validation of the rules.
pub parse_exit_ladder-check_rungs :
    (str : Splitting) (raw : String) → check_rungs (parse_exit_ladder str raw) ≡ none
unfolding parse_exit_ladder
parse_exit_ladder-check_rungs str raw = parse_rungs-check_rungs str (str.split_commas raw)
