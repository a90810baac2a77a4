-- ===== src/Positions/Conserve.antt =====
-- Any number of exits in trade/positions.rs: the inventory, its cost and its gas.
use bodkin.Prelude.{
  ℕ, ◌+◌, ◌-◌, ◌*◌, ◌/◌, ◌≡◌, ◌<◌, ◌≤◌, ◌⊎◌, inl, inr, refl, sym, ap, ◌∙◌, Bool-cases, true, false,
  ◌||◌, some, List, [], ◌∷◌, ◌++◌, String, min, if◌then◌else◌, leb, ◌==◌, u256_mod, arith,
}
use bodkin.Prelude.U256
use bodkin.Positions.Record.{
  Formats, IsDecimal, Position, AppliedExit, or_zero, basis, gas_basis, held,
}
use bodkin.Positions.Exits.{Sell, nothing_sold, exit_of, sold_from, apply_exit, apply_exits}
use bodkin.Positions.Exact.{
  released-some, scale_held-some, held_bound, basis_bound, gas_basis_bound, or_zero-parse_bound,
  sub_exact,
}

-- What else is booked: the exit, where anything was sold, and the status.
pub record Sold (fmt : Formats) (s : Sell) (p p' : Position) (a : AppliedExit) : Type 0 where
  pub some_held : (held fmt p == 0) ≡ false
  pub some_sold : (a.tokens_sold == 0) ≡ false
  pub entry_eth : p'.entry_eth ≡ p.entry_eth
  pub exits : p'.exits ≡ p.exits ++ exit_of fmt s a.tokens_sold ∷ []
  pub basis_eth : p'.basis_eth ≡ some (fmt.show (basis fmt p'))
  pub status : p'.status ≡ (if held fmt p' == 0 then "closed" else p.status)

-- What an exit leaves of a position, and what it sold, add up; when nothing is left of what was held,
-- no cost is left either, and the position is closed.
pub record Conserved (fmt : Formats) (p p' : Position) (a : AppliedExit) : Type 0 where
  pub tokens : held fmt p' + a.tokens_sold ≡ held fmt p
  pub cost : basis fmt p' + a.basis_sold ≡ basis fmt p
  pub gas : gas_basis fmt p' + a.entry_gas_sold ≡ gas_basis fmt p
  pub left : a.remaining ≡ held fmt p'
  pub over :
      ((held fmt p == 0) ≡ true)
      ⊎ ((held fmt p' == 0) ≡ false)
      ⊎ ((basis fmt p' ≡ 0) × (gas_basis fmt p' ≡ 0) × (p'.status ≡ "closed"))
  pub kept : ((held fmt p == 0) ≡ false) ⊎ (p'.status ≡ p.status)

abbrev pub total : (AppliedExit → ℕ) → List AppliedExit → ℕ
total f [] = 0
total f (a ∷ rest) = f a + total f rest

module _ (fmt : Formats) (dec : IsDecimal fmt) where
  pub basis_shown :
      (n : ℕ) (p : Position) → n < u256_mod → p.basis_eth ≡ some (fmt.show n) → basis fmt p ≡ n
  unfolding basis
  basis_shown n p h e = rw (e, dec.parse-show n h) refl

  sold_from-Conserved :
      (s : Sell) (p : Position) (cost gas peak last : ℕ)
      → (held fmt p == 0) ≡ false
      → cost ≤ basis fmt p
      → gas ≤ gas_basis fmt p
      → (leb (held fmt p) (min s.tokens_sold (held fmt p)) ≡ false) ⊎ (cost ≡ basis fmt p)
      → (leb (held fmt p) (min s.tokens_sold (held fmt p)) ≡ false) ⊎ (gas ≡ gas_basis fmt p)
      → Conserved fmt p
          (sold_from fmt s p (min s.tokens_sold (held fmt p)) cost gas peak last).0
          (sold_from fmt s p (min s.tokens_sold (held fmt p)) cost gas peak last).1
  sold_from-Conserved s p cost gas peak last some_held cost_le gas_le cost_all gas_all =
      let have = held fmt p in
      let sold = min s.tokens_sold have in
      let done = sold_from fmt s p sold cost gas peak last in
      let have_lt = held_bound fmt dec p in
      let cost_lt = basis_bound fmt dec p in
      let gas_lt = gas_basis_bound fmt dec p in
      let left = sub_exact fmt dec have sold have_lt (omega arith) in
      let cost_left = sub_exact fmt dec (basis fmt p) cost cost_lt cost_le in
      let gas_left = sub_exact fmt dec (gas_basis fmt p) gas gas_lt gas_le in
      let tokens_read : held fmt done.0 ≡ have - sold =
        unfold held in rw left (ap or_zero (dec.parse-show (have - sold) (omega arith))) in
      let cost_read : basis fmt done.0 ≡ basis fmt p - cost =
        unfold basis in rw (cost_left, dec.parse-show (basis fmt p - cost) (omega arith)) refl in
      let gas_read : gas_basis fmt done.0 ≡ gas_basis fmt p - gas =
        unfold gas_basis in
        rw (gas_left, dec.parse-show (gas_basis fmt p - gas) (omega arith)) refl in
      record {
        tokens = rw tokens_read (omega arith);
        cost = rw cost_read (omega arith);
        gas = rw gas_read (omega arith);
        left = left ∙ sym tokens_read;
        over = inr (elim (Bool-cases (leb have sold)) [
          | inl all ↦ inr (
            rw cost_read (elim cost_all [ inl part ↦ cc (all, part) | inr same ↦ omega arith ]),
            rw gas_read (elim gas_all [ inl part ↦ cc (all, part) | inr same ↦ omega arith ]),
            let empty : (U256.sub have sold == 0) ≡ true = rw left (ground arith) in rw empty refl,
          )
          | inr part ↦ inl (rw tokens_read (ground arith))
        ]);
        kept = inl some_held;
      }

  idle-Conserved :
      (s : Sell) (p : Position)
      → ((held fmt p == 0) || (s.tokens_sold == 0)) ≡ true
      → Conserved fmt p p (nothing_sold fmt s (held fmt p) p).1
  idle-Conserved s p idle = record {
    tokens = omega arith;
    cost = omega arith;
    gas = omega arith;
    left = refl;
    over = ground arith;
    kept = inr refl;
  }

  pub apply_exit-Conserved :
      (s : Sell) (p : Position)
      → (p' : Position) × (a : AppliedExit) × (apply_exit fmt s p ≡ some (p', a))
        × Conserved fmt p p' a
        × (((p' ≡ p) × (a.tokens_sold ≡ 0)) ⊎ Sold fmt s p p' a)
  unfolding apply_exit basis gas_basis held
  apply_exit-Conserved s p = elim (Bool-cases ((held fmt p == 0) || (s.tokens_sold == 0))) [
    | inl idle ↦
        let done = nothing_sold fmt s (held fmt p) p in
        (done.0, done.1, rw (apply_exit, idle) refl, idle-Conserved s p idle, inl (refl, refl))
    | inr sells ↦
        let have = held fmt p in
        let sold = min s.tokens_sold have in
        let some_held : (have == 0) ≡ false = ground arith in
        let (cost, cost_eq, cost_le, cost_all) =
          released-some (basis fmt p) sold have (basis_bound fmt dec p) (omega arith) some_held in
        let (gas, gas_eq, gas_le, gas_all) =
          released-some (gas_basis fmt p) sold have (gas_basis_bound fmt dec p) (omega arith)
            some_held in
        let left : U256.sub have sold ≡ have - sold =
          sub_exact fmt dec have sold (held_bound fmt dec p) (omega arith) in
        let scaled = λ (text : String).
          scale_held-some (or_zero (fmt.parse text)) (have - sold) have
            (or_zero-parse_bound fmt dec text) (omega arith) some_held in
        let peak = or_zero (fmt.parse p.peak_eth) * (have - sold) / have in
        let last = or_zero (fmt.parse p.last_eth) * (have - sold) / have in
        let done = sold_from fmt s p sold cost gas peak last in
        let c =
          sold_from-Conserved s p cost gas peak last some_held cost_le gas_le cost_all gas_all in
        (
          done.0,
          done.1,
          rw (apply_exit, sells, cost_eq, gas_eq, left, scaled p.peak_eth, scaled p.last_eth) refl,
          c,
          inr (record {
            some_held = some_held;
            some_sold = ground arith;
            entry_eth = refl;
            exits = refl;
            basis_eth = ap some (
                ap fmt.show
                  (sym (basis_shown (U256.sub (basis fmt p) cost) done.0 (omega arith) refl)));
            status = ap (λ n. if n == 0 then "closed" else p.status) c.left;
          }),
        )
  ]

  -- Any exits of any position go through without a panic. The tokens sold and those left are the tokens
  -- that were held, and the same holds of the cost and of the gas of the entry. When nothing is left of
  -- what was held, no cost and no gas are left, and the position is closed.
  pub apply_exits-conserve :
      (ss : List Sell) (p : Position)
      → (q : Position) × (done : List AppliedExit) × (apply_exits fmt ss p ≡ some (q, done))
        × (held fmt q + total (λ a. a.tokens_sold) done ≡ held fmt p)
        × (basis fmt q + total (λ a. a.basis_sold) done ≡ basis fmt p)
        × (gas_basis fmt q + total (λ a. a.entry_gas_sold) done ≡ gas_basis fmt p)
        × (((held fmt p == 0) ≡ false) ⊎ (q.status ≡ p.status))
        × (((held fmt p == 0) ≡ true)
            ⊎ ((held fmt q == 0) ≡ false)
            ⊎ ((basis fmt q ≡ 0) × (gas_basis fmt q ≡ 0) × (q.status ≡ "closed")))
  unfolding apply_exits
  apply_exits-conserve [] p =
      (p, [], refl, omega arith, omega arith, omega arith, inr refl, ground arith)
  apply_exits-conserve (s ∷ ss) p =
      let (p', a, one, c, books) = apply_exit-Conserved s p in
      let (q, more, rest, tokens, cost, gas, kept, over) = apply_exits-conserve ss p' in
      (
        q,
        a ∷ more,
        rw (apply_exits, one, rest) refl,
        omega (arith, c.tokens),
        omega (arith, c.cost),
        omega (arith, c.gas),
        elim (c.kept) [
          | inl some_held ↦ inl some_held
          | inr same ↦ elim kept [
            | inl still ↦ inl (ground (arith, c.tokens))
            | inr later ↦ inr (later ∙ same)
          ]
        ],
        elim (Bool-cases (held fmt p' == 0)) [
          | inr still ↦ elim over [ inl gone ↦ cc (still, gone) | inr more ↦ inr more ]
          | inl gone ↦ elim (c.over) [
            | inl none_held ↦ inl none_held
            | inr (inl still) ↦ cc (still, gone)
            | inr (inr (no_cost, no_gas, closed)) ↦
                let stays : q.status ≡ "closed" = elim kept [
                  | inl still ↦ cc (still, gone)
                  | inr same ↦ same ∙ closed
                ] in
                inr (inr (omega arith, omega arith, stays))
          ]
        ],
      )
