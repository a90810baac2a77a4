-- ===== src/Positions/Ladder.antt =====
-- `ExitLadder::hit` in trade/positions.rs and the exits already made.
use bodkin.Prelude.{
  ℕ, ◌*◌, ◌%◌, ◌^◌, ◌≡◌, refl, sym, ap, ◌∙◌, subst, Bool, Bool-cases, inl, inr, true, false, not,
  ◌&&◌, Option, none, some, List, [], ◌∷◌, String, any, any-append, ◌==◌, arith,
}
use bodkin.Prelude.Int.{ℤ}
use Prim.Native.String
use Prim.Native.String.append
use text.Mathlib.Text.{◌==◌ as str_eq, starts_with}
use text.Mathlib.TextEquality.{eq_iff, starts_with_iff}
use bodkin.Positions.Record.{Formats, IsDecimal, Exit, Position, AppliedExit, basis}
use bodkin.Positions.Exits.{Sell, exit_of, apply_exit, apply_exits}
use bodkin.Positions.Conserve.{apply_exit-Conserved, apply_exits-conserve}
use bodkin.Positions.Rules.{Floats, ExitLadder, ExitAction, pnl_pct, tag_of, first_rung, hit}

-- Whether an exit with a reason that starts so was made.
abbrev pub is_made : String → List Exit → Bool
is_made reason exits = any (λ e. starts_with e.reason reason) exits

append-empty : (s : String) → String.◌++◌ s String.[] ≡ s
append-empty String.[] = append.nil String.[]
append-empty (String.◌∷◌ c s) = append.cons c s String.[] ∙ ap (String.◌∷◌ c) (append-empty s)

some-inj : {A : Type 0} {a b : A} → ◌≡◌ {A = Option A} (some a) (some b) → a ≡ b
some-inj h = cc

starts_with_self : (s : String) → starts_with s s ≡ true
starts_with_self s = (starts_with_iff s s).1 (String.[], append-empty s)

abbrev action_reason : Option ExitAction → String
action_reason none = ""
action_reason (some a) = a.reason

module _ (fl : Floats) where
  first_rung-new :
      (exits : List Exit) (gain : fl.Float) (rungs : List (ℕ × ℤ)) (a : ExitAction)
      → first_rung fl exits gain rungs ≡ some a
      → is_made a.reason exits ≡ false
  unfolding first_rung
  first_rung-new exits gain [] a h = cc
  first_rung-new exits gain ((frac, at) ∷ rungs) a h =
      elim (Bool-cases (fl.ge gain (fl.of_i32 at) && not (is_made (tag_of fl at) exits))) [
        | inl fires ↦
            let same : ◌≡◌ {A = Option ExitAction}
                (some (record { fraction_bps = frac * 100 % 2 ^ 32; reason = tag_of fl at }))
                (some a) =
              rw fires at h in
            let new : is_made (tag_of fl at) exits ≡ false = ground arith in
            subst (λ t. is_made t exits ≡ false) (ap action_reason same) new
        | inr passes ↦ first_rung-new exits gain rungs a (rw passes at h)
      ]

  hit-new :
      (fmt : Formats) (ladder : ExitLadder) (p : Position) (value : ℕ) (a : ExitAction)
      → hit fl fmt ladder p value ≡ some a
      → is_made a.reason p.exits ≡ false
  unfolding hit
  hit-new fmt ladder p value a h = elim (Bool-cases (basis fmt p == 0)) [
    | inl no_cost ↦ cc (rw (hit, no_cost) at h)
    | inr cost ↦
        let gain = pnl_pct fl value (basis fmt p) in
        let opened : hit fl fmt ladder p value ≡ first_rung fl p.exits gain ladder.rungs =
          rw (hit, cost) refl in
        first_rung-new p.exits gain ladder.rungs a (sym opened ∙ h)
  ]

  sold-is_made :
      (fmt : Formats) (dec : IsDecimal fmt) (s : Sell) (p p' : Position) (r : AppliedExit)
      → apply_exit fmt s p ≡ some (p', r)
      → (r.tokens_sold == 0) ≡ false
      → is_made s.reason p'.exits ≡ true
  sold-is_made fmt dec s p p' r sold some_sold =
      let (q, report, one, c, books) = apply_exit-Conserved fmt dec s p in
      let pairs : ◌≡◌ {A = Position × AppliedExit} (q, report) (p', r) =
        some-inj (sym one ∙ sold) in
      let position : q ≡ p' = ap (λ x. x.0) pairs in
      let reports : report ≡ r = ap (λ x. x.1) pairs in
      elim books [
        | inl (idle, none_sold) ↦
            let idle_sold : r.tokens_sold ≡ 0 = cc (none_sold, reports) in ground arith
        | inr booked ↦
            rw (sym position, booked.exits)
              (any-append (λ e. starts_with e.reason s.reason) p.exits
                  (exit_of fmt s report.tokens_sold ∷ [])
                ∙ ground (arith, starts_with_self s.reason))
      ]

  -- Exits are only ever added.
  apply_exit-is_made :
      (fmt : Formats) (dec : IsDecimal fmt) (s : Sell) (p p' : Position) (r : AppliedExit)
      (reason : String)
      → apply_exit fmt s p ≡ some (p', r)
      → is_made reason p.exits ≡ true
      → is_made reason p'.exits ≡ true
  apply_exit-is_made fmt dec s p p' r reason sold made =
      let (q, report, one, c, books) = apply_exit-Conserved fmt dec s p in
      let pairs : ◌≡◌ {A = Position × AppliedExit} (q, report) (p', r) =
        some-inj (sym one ∙ sold) in
      let position : q ≡ p' = ap (λ x. x.0) pairs in
      elim books [
        | inl (idle, none_sold) ↦ rw (sym position, idle) made
        | inr booked ↦
            rw (sym position, booked.exits)
              (any-append (λ e. starts_with e.reason reason) p.exits
                  (exit_of fmt s report.tokens_sold ∷ [])
                ∙ ground (arith, made))
      ]

  apply_exits-is_made :
      (fmt : Formats) (dec : IsDecimal fmt) (ss : List Sell) (p q : Position)
      (done : List AppliedExit) (reason : String)
      → apply_exits fmt ss p ≡ some (q, done)
      → is_made reason p.exits ≡ true
      → is_made reason q.exits ≡ true
  unfolding apply_exits
  apply_exits-is_made fmt dec [] p q done reason sold made =
      let same : p ≡ q = ap (λ x. x.0) (some-inj {A = Position × List AppliedExit} sold) in
      subst (λ x. is_made reason x.exits ≡ true) same made
  apply_exits-is_made fmt dec (s ∷ ss) p q done reason sold made =
      let (p', a, one, c, books) = apply_exit-Conserved fmt dec s p in
      let (q', more, rest, _, _, _, _, _) = apply_exits-conserve fmt dec ss p' in
      let both : apply_exits fmt (s ∷ ss) p ≡ some (q', a ∷ more) =
        rw (apply_exits, one, rest) refl in
      let same : q' ≡ q =
        ap (λ x. x.0) (some-inj {A = Position × List AppliedExit} (sym both ∙ sold)) in
      subst (λ x. is_made reason x.exits ≡ true) same
        (apply_exits-is_made fmt dec ss p' q' more reason rest
          (apply_exit-is_made fmt dec s p p' a reason one made))

  -- Once an exit that the ladder asked for has sold anything, the ladder does not ask for one with the
  -- same reason again: after any further exits, and at no value of what is left.
  pub ladder_once :
      (fmt : Formats) (dec : IsDecimal fmt) (ladder : ExitLadder) (s : Sell) (p p' : Position)
      (r : AppliedExit) (more : List Sell) (q : Position) (done : List AppliedExit)
      (value later : ℕ) (a b : ExitAction)
      → hit fl fmt ladder p value ≡ some a
      → s.reason ≡ a.reason
      → apply_exit fmt s p ≡ some (p', r)
      → (r.tokens_sold == 0) ≡ false
      → apply_exits fmt more p' ≡ some (q, done)
      → hit fl fmt ladder q later ≡ some b
      → str_eq b.reason a.reason ≡ false
  ladder_once fmt dec ladder s p p' r more q done value later a b first same sold some_sold rest
        again =
      elim (Bool-cases (str_eq b.reason a.reason)) [
        | inr other ↦ other
        | inl equal ↦
            let reasons : b.reason ≡ s.reason = (eq_iff b.reason a.reason).0 equal ∙ sym same in
            cc (
              apply_exits-is_made fmt dec more p' q done s.reason rest
                  (sold-is_made fmt dec s p p' r sold some_sold),
              ap (λ t. is_made t q.exits) reasons,
              hit-new fmt ladder q later b again,
            )
      ]
