-- ===== src/Decision/Fraction.antt =====
-- What `pick_exit` of engine.rs asks to sell, under rules that `validate` lets through.
use bodkin.Prelude.{
  ℕ, ◌*◌, ◌%◌, ◌^◌, ◌≡◌, ◌≤◌, ◌<◌, refl, sym, ◌∙◌, subst, Bool, Bool-cases, inl, inr, true, false,
  not, ◌&&◌, ◌||◌, Option, none, some, List, [], ◌∷◌, String, ltb, ◌==◌, if◌then◌else◌, arith,
}
use bodkin.Prelude.Int.{ℤ}
use bodkin.Flow.Tracker.{FlowSnapshot}
use bodkin.Positions.Record.{Formats, Exit, Position, basis}
use bodkin.Positions.Rules.{
  Floats, ExitLadder, ExitAction, pnl_pct, tag_of, first_rung, hit, exit_reason,
}
use bodkin.Positions.Ladder.{is_made}
use bodkin.Decision.Rules.{SnipeRules, check_rungs, validate}
use bodkin.Decision.Exit.{
  all_of, insider_out, ready, is_stale, stale_text, ready_text, curve_exit, pick_exit,
}

abbrev IsShare : ℕ → Type 0
IsShare n = (0 < n) × (n ≤ 10_000)

validate-check_rungs :
    (fl : Floats) (rules : SnipeRules fl)
    → validate fl rules ≡ none
    → check_rungs rules.ladder.rungs ≡ none
unfolding validate
validate-check_rungs fl rules h = ground arith

some-inj : {x y : ExitAction} → ◌≡◌ {A = Option ExitAction} (some x) (some y) → x ≡ y
some-inj e = cc

all_of-IsShare :
    (reason : String) (a : ExitAction)
    → ◌≡◌ {A = Option ExitAction} (some (all_of reason)) (some a)
    → IsShare a.fraction_bps
all_of-IsShare reason a h =
    subst (λ x. IsShare x.fraction_bps) (some-inj h) (omega arith, omega arith)

module _ (fl : Floats) where
  first_rung-IsShare :
      (exits : List Exit) (gain : fl.Float) (rungs : List (ℕ × ℤ)) (a : ExitAction)
      → check_rungs rungs ≡ none
      → first_rung fl exits gain rungs ≡ some a
      → IsShare a.fraction_bps
  unfolding first_rung
  first_rung-IsShare exits gain [] a c h = cc
  first_rung-IsShare exits gain ((frac, at) ∷ rungs) a c h =
      elim (Bool-cases (frac == 0 || ltb 100 frac)) [
        | inl bad ↦ cc (rw bad at c)
        | inr good ↦
            elim (Bool-cases (fl.ge gain (fl.of_i32 at) && not (is_made (tag_of fl at) exits))) [
              | inr passes ↦ first_rung-IsShare exits gain rungs a (rw good at c) (rw passes at h)
              | inl fires ↦
                  let action : ExitAction = record {
                    fraction_bps = frac * 100 % 2 ^ 32;
                    reason = tag_of fl at;
                  } in
                  let same : action ≡ a = some-inj (rw fires at h) in
                  subst (λ x. IsShare x.fraction_bps) same (ground arith, ground arith)
            ]
      ]

  hit-IsShare :
      (fmt : Formats) (ladder : ExitLadder) (p : Position) (value : ℕ) (a : ExitAction)
      → check_rungs ladder.rungs ≡ none
      → hit fl fmt ladder p value ≡ some a
      → IsShare a.fraction_bps
  unfolding hit
  hit-IsShare fmt ladder p value a c h = elim (Bool-cases (basis fmt p == 0)) [
    | inl no_cost ↦ cc (rw (hit, no_cost) at h)
    | inr cost ↦
        let gain = pnl_pct fl value (basis fmt p) in
        let opened : hit fl fmt ladder p value ≡ first_rung fl p.exits gain ladder.rungs =
          rw (hit, cost) refl in
        first_rung-IsShare p.exits gain ladder.rungs a c (sym opened ∙ h)
  ]

  -- The four answers that `pick_exit` can give.
  picked-IsShare :
      (graduated insider : Bool) (reason : Option String) (laddered rest : Option ExitAction)
      (a : ExitAction)
      → (if graduated
          then elim reason as (λ _. Option ExitAction) [ none ↦ none | some r ↦ some (all_of r) ]
          else if insider
          then some (all_of "insider sold")
          else elim laddered as (λ _. Option ExitAction) [
            | none ↦ rest
            | some action ↦ some action
          ])
        ≡ some a
      → ((b : ExitAction) → laddered ≡ some b → IsShare b.fraction_bps)
      → ((b : ExitAction) → rest ≡ some b → IsShare b.fraction_bps)
      → IsShare a.fraction_bps
  picked-IsShare true insider none laddered rest a h l r = cc
  picked-IsShare true insider (some reason) laddered rest a h l r = all_of-IsShare reason a h
  picked-IsShare false true reason laddered rest a h l r = all_of-IsShare "insider sold" a h
  picked-IsShare false false reason none rest a h l r = r a h
  picked-IsShare false false reason (some action) rest a h l r = l a h

  curve_exit-IsShare :
      (fmt : Formats) (progress : fl.Float) (rules : SnipeRules fl) (p : Position)
      (flow : Option FlowSnapshot) (now : ℕ) (a : ExitAction)
      → curve_exit fl fmt rules p flow now progress ≡ some a
      → IsShare a.fraction_bps
  curve_exit-IsShare fmt progress rules p flow now a h =
      elim (Bool-cases (is_stale fl fmt rules p now progress)) [
        | inl stale ↦ all_of-IsShare (stale_text fl fmt rules) a (rw stale at h)
        | inr fresh ↦ elim (Bool-cases (fl.ge progress (fl.literal "0.90") || ready flow)) [
          | inl done ↦ all_of-IsShare (ready_text fl fmt progress) a (rw (fresh, done) at h)
          | inr more ↦ cc (rw (fresh, more) at h)
        ]
      ]

  -- Under rules that `validate` lets through, each exit that `pick_exit` asks for sells some part of what
  -- is left, and no more than all of it.
  pub pick_exit-share :
      (fmt : Formats) (progress : fl.Float) (rules : SnipeRules fl) (p : Position) (value now : ℕ)
      (flow : Option FlowSnapshot) (graduated : Bool) (a : ExitAction)
      → validate fl rules ≡ none
      → pick_exit fl fmt p value rules flow now graduated progress ≡ some a
      → (0 < a.fraction_bps) × (a.fraction_bps ≤ 10_000)
  unfolding pick_exit
  pick_exit-share fmt progress rules p value now flow graduated a valid h =
      picked-IsShare graduated (insider_out flow) (exit_reason fl fmt p value rules.exits now)
        (hit fl fmt rules.ladder p value) (curve_exit fl fmt rules p flow now progress) a h
        (λ b. hit-IsShare fmt rules.ladder p value b (validate-check_rungs fl rules valid))
        (λ b. curve_exit-IsShare fmt progress rules p flow now b)
