-- ===== src/Positions/Realized.antt =====
-- `realized_pnl_wei` and the overhead gas in trade/positions.rs, over the life of a position.
use bodkin.Prelude.{
  ℕ, ◌+◌, ◌-◌, ◌≡◌, ◌<◌, ◌≤◌, ◌⊎◌, inl, inr, refl, sym, ap, ◌∙◌, subst, Bool-cases, Option-cases,
  true, false, some, List, [], ◌∷◌, ◌++◌, if◌then◌else◌, leb, ltb, ◌==◌, u256_mod, arith,
}
use text.Mathlib.Text.{◌==◌ as str_eq}
use bodkin.Positions.Record.{
  Formats, IsDecimal, Exit, Position, AppliedExit, basis, held, signed_wei, sum_out,
  remaining_basis, realized_pnl_wei,
}
use bodkin.Positions.Exits.{Sell, exit_of, apply_exit, apply_exits}
use bodkin.Positions.Exact.{basis_bound}
use bodkin.Positions.Store.{Opening, opened}
use bodkin.Positions.Conserve.{Conserved, Sold, apply_exit-Conserved, total}

-- The ETH that the exits which sold anything brought.
abbrev pub brought : List Sell → List AppliedExit → ℕ
brought (s ∷ ss) (a ∷ done) = (if a.tokens_sold == 0 then 0 else s.eth_out) + brought ss done
brought _ _ = 0

-- What the exits would bring if each sold something.
abbrev pub offered : List Sell → ℕ
offered [] = 0
offered (s ∷ ss) = s.eth_out + offered ss

module _ (fmt : Formats) (dec : IsDecimal fmt) where
  sum_out-append :
      (es : List Exit) (e : Exit) (from sum n : ℕ)
      → sum_out fmt es from ≡ some sum
      → fmt.parse e.eth_out ≡ some n
      → sum + n < u256_mod
      → sum_out fmt (es ++ e ∷ []) from ≡ some (sum + n)
  unfolding sum_out
  sum_out-append [] e from sum n h parsed small = ground arith
  sum_out-append (d ∷ es) e from sum n h parsed small = elim (Option-cases (fmt.parse d.eth_out)) [
    | inl bad ↦ cc (rw bad at h)
    | inr (m, good) ↦ elim (Bool-cases (ltb (from + m) u256_mod)) [
      | inr large ↦ cc (rw (good, large) at h)
      | inl fits ↦
          rw (good, fits) (sum_out-append es e (from + m) sum n (rw (good, fits) at h) parsed small)
    ]
  ]

  -- The basis that is left and what was released make up the entry, and the exits' texts what they
  -- brought.
  record Priced (entry out gone : ℕ) (p : Position) : Type 0 where
    entered : fmt.parse p.entry_eth ≡ some entry
    remains : remaining_basis fmt entry p ≡ some (basis fmt p)
    sums : sum_out fmt p.exits 0 ≡ some out
    adds : basis fmt p + gone ≡ entry
    status_open : ((held fmt p == 0) ≡ true) ⊎ (str_eq p.status "closed" ≡ false)

  Priced-realized_pnl_wei :
      (entry out gone : ℕ) (p : Position)
      → Priced entry out gone p
      → realized_pnl_wei fmt p ≡ some (signed_wei fmt out gone)
  unfolding realized_pnl_wei
  Priced-realized_pnl_wei entry out gone p c =
      let within : leb (basis fmt p) entry ≡ true = ground (arith, c.adds) in
      let rest : entry - basis fmt p ≡ gone = omega (arith, c.adds) in
      rw (c.entered, c.remains, within, c.sums, rest) refl

  closed-remaining_basis :
      (p : Position) (entry : ℕ) → p.status ≡ "closed" → remaining_basis fmt entry p ≡ some 0
  unfolding remaining_basis
  closed-remaining_basis p entry h = rw h refl

  open-remaining_basis :
      (p : Position) (entry left : ℕ)
      → str_eq p.status "closed" ≡ false
      → p.basis_eth ≡ some (fmt.show left)
      → left < u256_mod
      → remaining_basis fmt entry p ≡ some left
  unfolding remaining_basis
  open-remaining_basis p entry left h e word = rw (h, e) (dec.parse-show left word)

  Priced-at :
      (entry out gone out' gone' : ℕ) (p : Position)
      → out ≡ out'
      → gone ≡ gone'
      → Priced entry out gone p
      → Priced entry out' gone' p
  Priced-at entry out gone out' gone' p h k c =
      subst (λ n. Priced entry n gone' p) h (subst (λ n. Priced entry out n p) k c)

  -- What an exit brings is at most what it was offered.
  got_le : (n e : ℕ) → (if n == 0 then 0 else e) ≤ e
  got_le n e = ground arith

  Sold-remaining_basis :
      (s : Sell) (p p' : Position) (a : AppliedExit) (entry : ℕ)
      → str_eq p.status "closed" ≡ false
      → Conserved fmt p p' a
      → Sold fmt s p p' a
      → remaining_basis fmt entry p' ≡ some (basis fmt p')
  unfolding remaining_basis
  Sold-remaining_basis s p p' a entry was_open c b = elim (Bool-cases (held fmt p' == 0)) [
    | inl gone ↦ elim (c.over) [
      | inl none_held ↦ cc (none_held, b.some_held)
      | inr (inl still) ↦ cc (gone, still)
      | inr (inr (no_cost, no_gas, closed)) ↦
          closed-remaining_basis p' entry closed ∙ ap some (sym no_cost)
    ]
    | inr still ↦
        let status : p'.status ≡ p.status = b.status ∙ rw still refl in
        open-remaining_basis p' entry (basis fmt p') (rw status was_open) b.basis_eth
          (basis_bound fmt dec p')
  ]

  Sold-Priced :
      (s : Sell) (p p' : Position) (a : AppliedExit) (entry out gone : ℕ)
      → Priced entry out gone p
      → Conserved fmt p p' a
      → Sold fmt s p p' a
      → s.eth_out < u256_mod
      → out + s.eth_out < u256_mod
      → Priced entry (out + s.eth_out) (gone + a.basis_sold) p'
  Sold-Priced s p p' a entry out gone c kept b word small =
      let was_open : str_eq p.status "closed" ≡ false = elim (c.status_open) [
        | inl none_held ↦ cc (none_held, b.some_held)
        | inr e ↦ e
      ] in
      record {
        entered = rw b.entry_eth c.entered;
        remains = Sold-remaining_basis s p p' a entry was_open kept b;
        sums = rw b.exits (
            sum_out-append p.exits (exit_of fmt s a.tokens_sold) 0 out s.eth_out c.sums
              (dec.parse-show s.eth_out word) small);
        adds = omega (arith, c.adds, kept.cost);
        status_open = elim (Bool-cases (held fmt p' == 0)) [
          | inl gone_all ↦ inl gone_all
          | inr still ↦
              let status : p'.status ≡ p.status = b.status ∙ rw still refl in
              inr (rw status was_open)
        ];
      }

  apply_exit-Priced :
      (s : Sell) (p : Position) (entry out gone : ℕ)
      → Priced entry out gone p
      → s.eth_out < u256_mod
      → out + s.eth_out < u256_mod
      → (p' : Position) × (a : AppliedExit) × (apply_exit fmt s p ≡ some (p', a))
        × Priced entry
            (out + (if a.tokens_sold == 0 then 0 else s.eth_out))
            (gone + a.basis_sold)
            p'
  apply_exit-Priced s p entry out gone c word small =
      let (p', a, one, kept, books) = apply_exit-Conserved fmt dec s p in
      (
        p',
        a,
        one,
        elim books [
          | inl (same, none_sold) ↦
              let released : a.basis_sold ≡ 0 = omega (arith, kept.cost, ap (basis fmt) same) in
              rw (same, none_sold, released)
                (Priced-at entry out gone (out + 0) (gone + 0) p (omega arith) (omega arith) c)
          | inr b ↦ rw b.some_sold (Sold-Priced s p p' a entry out gone c kept b word small)
        ],
      )

  apply_exits-Priced :
      (ss : List Sell) (p : Position) (entry out gone : ℕ)
      → Priced entry out gone p
      → out + offered ss < u256_mod
      → (q : Position) × (done : List AppliedExit) × (apply_exits fmt ss p ≡ some (q, done))
        × Priced entry (out + brought ss done) (gone + total (λ a. a.basis_sold) done) q
  unfolding apply_exits
  apply_exits-Priced [] p entry out gone c small =
      (p, [], refl, Priced-at entry out gone (out + 0) (gone + 0) p (omega arith) (omega arith) c)
  apply_exits-Priced (s ∷ ss) p entry out gone c small =
      let (p', a, one, step) = apply_exit-Priced s p entry out gone c (omega arith) (omega arith) in
      let got = if a.tokens_sold == 0 then 0 else s.eth_out in
      let (q, done, rest, priced) =
        apply_exits-Priced ss p' entry (out + got) (gone + a.basis_sold) step
          (omega (arith, got_le a.tokens_sold s.eth_out)) in
      (
        q,
        a ∷ done,
        rw (apply_exits, one, rest) refl,
        Priced-at entry (out + got + brought ss done)
            (gone + a.basis_sold + total (λ d. d.basis_sold) done) (out + (got + brought ss done))
            (gone + (a.basis_sold + total (λ d. d.basis_sold) done)) q (omega arith) (omega arith)
            priced,
      )

  opened-Priced : (o : Opening) → o.entry_eth < u256_mod → Priced o.entry_eth 0 0 (opened fmt o)
  unfolding opened remaining_basis sum_out basis
  opened-Priced o word = record {
    entered = dec.parse-show o.entry_eth word;
    remains = rw (dec.parse-show o.entry_eth word) refl;
    sums = refl;
    adds = rw (dec.parse-show o.entry_eth word) (omega arith);
    status_open = inr refl;
  }

  -- A position that is opened and then exited any number of times reports as realised the ETH that its
  -- exits brought less the cost that they released, as long as what they bring is a 256-bit number in
  -- all.
  pub realized_pnl_wei-exits :
      (o : Opening) (ss : List Sell)
      → o.entry_eth < u256_mod
      → offered ss < u256_mod
      → (q : Position) × (done : List AppliedExit) × (apply_exits fmt ss (opened fmt o)
          ≡ some (q, done))
        × (realized_pnl_wei fmt q
            ≡ some (signed_wei fmt (brought ss done) (total (λ a. a.basis_sold) done)))
  realized_pnl_wei-exits o ss word small =
      let (q, done, ran, priced) =
        apply_exits-Priced ss (opened fmt o) o.entry_eth 0 0 (opened-Priced o word) (omega arith) in
      (
        q,
        done,
        ran,
        Priced-realized_pnl_wei o.entry_eth (brought ss done) (total (λ a. a.basis_sold) done) q (
            Priced-at o.entry_eth (0 + brought ss done) (0 + total (λ a. a.basis_sold) done)
              (brought ss done) (total (λ a. a.basis_sold) done) q (omega arith) (omega arith)
              priced),
      )
