-- ===== src/Recovery/ExitOnce.antt =====
-- However often an exit is recovered, it is booked once at most.
use bodkin.Prelude.{
  ℕ, min, ◌==◌, ◌+◌, ◌≡◌, ◌⊎◌, refl, ap, sym, ◌∙◌, true, ◌||◌, Bool-cases, Option-cases, Option,
  some, List, [], ◌∷◌, ◌++◌, map, String, inl, inr, any, any-append, length, length-append, arith,
}
use text.Mathlib.Text.{◌==◌ as str_eq}
use bodkin.Positions.Record.{Formats, Exit, Position, AppliedExit, held}
use bodkin.Positions.Exits.{Sell, apply_exit, exit_of, show_tx}
use bodkin.Positions.Store.{update_list}
use bodkin.Journal.Record.{Operation}
use bodkin.Recovery.World.{Env}
use bodkin.Recovery.Settle.{is_tx_of}
use bodkin.Recovery.Exit.{has_exit_of, exit_closure}

-- What tells the exits of a position.
abbrev pub mark : Position → String × List (Option String)
mark p = (p.id, map (λ x. x.tx) p.exits)

abbrev pub marks : List Position → List (String × List (Option String))
marks = map mark

-- All exits that are booked.
abbrev pub booked : List Position → ℕ
booked [] = 0
booked (p ∷ ps) = length p.exits + booked ps

apply_exit-cases :
    (fmt : Formats) (s : Sell) (p after : Position) (report : AppliedExit)
    → apply_exit fmt s p ≡ some (after, report)
    → (after.id ≡ p.id)
      × ((after.exits ≡ p.exits)
          ⊎ ((x : Exit) × (x.tx ≡ show_tx fmt s.tx) × (after.exits ≡ p.exits ++ x ∷ [])))
unfolding apply_exit
apply_exit-cases fmt s p after report h =
    elim (Bool-cases (held fmt p == 0 || s.tokens_sold == 0)) [
      | inl none' ↦
          let same : p ≡ after = ground (arith, none') in
          (ap (λ q. q.id) (sym same), inl (ap (λ q. q.exits) (sym same)))
      | inr some' ↦
          let more : (after.id ≡ p.id)
              × (after.exits ≡ p.exits ++ exit_of fmt s (min s.tokens_sold (held fmt p)) ∷ []) =
            ground (arith, some') in
          (more.0, inr (exit_of fmt s (min s.tokens_sold (held fmt p)), refl, more.1))
    ]

-- What recovering an exit does to the positions.
abbrev pub Books : Operation → String → List Position → List Position → Type 0
Books op id ps after =
    (marks after ≡ marks ps)
    ⊎ ((booked after ≡ booked ps + 1) × (any (has_exit_of op id) after ≡ true))

mark-eq : (a b : Position) → a.id ≡ b.id → a.exits ≡ b.exits → mark a ≡ mark b
mark-eq a b same still = cc (same, ap (map (λ (x : Exit). x.tx)) still)

has_exit-first :
    (op : Operation) (id : String) (q p : Position) (ps : List Position) (x : Exit)
    → str_eq q.id id ≡ true
    → q.exits ≡ p.exits ++ x ∷ []
    → is_tx_of op.txs x.tx ≡ true
    → any (has_exit_of op id) (q ∷ ps) ≡ true
has_exit-first op id q p ps x hit more ours = ground (
  arith,
  ap (any (λ (y : Exit). is_tx_of op.txs y.tx)) more,
  any-append (λ (y : Exit). is_tx_of op.txs y.tx) p.exits (x ∷ []),
  hit,
  ours,
)

module _ (env : Env) (op : Operation) (id : String) (s : Sell)
    (is_ours : is_tx_of op.txs (show_tx env.fmt s.tx) ≡ true) where
  closure-cases :
      (p : Position)
      → ((exit_closure env s p).0.id ≡ p.id)
        × (((exit_closure env s p).0.exits ≡ p.exits)
            ⊎ ((x : Exit) × (x.tx ≡ show_tx env.fmt s.tx)
                × ((exit_closure env s p).0.exits ≡ p.exits ++ x ∷ [])))
  closure-cases p = elim (Option-cases (apply_exit env.fmt s p)) [
    | inl panics ↦ rw (panics, exit_closure) (refl, inl refl)
    | inr ((after, report), goes) ↦
        rw (goes, exit_closure) (apply_exit-cases env.fmt s p after report goes)
  ]

  pub update_list-Books :
      (ps after : List Position) (found : Position × Option AppliedExit)
      → update_list {0} id (exit_closure env s) ps ≡ some (found, after)
      → Books op id ps after
  unfolding update_list
  update_list-Books [] after found h = absurd (cc)
  update_list-Books (p ∷ ps) after found h = elim (Bool-cases (str_eq p.id id)) [
    | inl hit ↦
        let here' : after ≡ (exit_closure env s p).0 ∷ ps = ground (arith, hit) in
        let (same, how) = closure-cases p in
        elim how [
          | inl still ↦ inl (
              ap marks here'
              ∙ ap (λ m. m ∷ marks ps) (mark-eq (exit_closure env s p).0 p same still))
          | inr (x, tx, more) ↦ inr (
            omega
                (arith, ap booked here', ap (length {0}) more, length-append {0} p.exits (x ∷ [])),
            ap (any (has_exit_of op id)) here'
                ∙ has_exit-first op id (exit_closure env s p).0 p ps x
                    (ap (λ i. str_eq i id) same ∙ hit) more (ap (is_tx_of op.txs) tx ∙ is_ours),
          )
        ]
    | inr miss ↦ elim (Option-cases (update_list {0} id (exit_closure env s) ps)) [
      | inl nobody ↦ absurd (ground (arith, miss, nobody))
      | inr ((found', after'), there) ↦
          let later : after ≡ p ∷ after' = ground (arith, miss, there) in
          elim (update_list-Books ps after' found' there) [
            | inl same ↦ inl (ap marks later ∙ ap (λ t. mark p ∷ t) same)
            | inr (grown, ours) ↦ inr (
              omega (arith, ap booked later, grown),
              ap (any (has_exit_of op id)) later ∙ ground (arith, ours),
            )
          ]
    ]
  ]
