-- ===== src/Positions/Owned.antt =====
-- `PositionStore::open_positions_for` in trade/positions.rs: who manages what.
use bodkin.Prelude.{
  ℕ, ◌≡◌, Bool-cases, inl, inr, true, false, Option, some, List, [], ◌∷◌, All, arith,
}
use bodkin.Prelude.Text.{eq_ignore_ascii_case, eq_ignore_ascii_case_sym, eq_ignore_ascii_case_trans}
use bodkin.Positions.Record.{Formats, Position}
use bodkin.Positions.Store.{
  PositionStore, filter, open_positions, is_own_wallet, is_owned, open_positions_for,
}

module _ (fmt : Formats) where
  own_wallets :
      (w v : ℕ) (p : Position)
      → eq_ignore_ascii_case (fmt.show_hash w) (fmt.show_hash v) ≡ false
      → is_own_wallet fmt (some w) p ≡ true
      → is_own_wallet fmt (some v) p ≡ false
  own_wallets w v p apart own = ground (
    arith,
    eq_ignore_ascii_case_trans (fmt.show_hash w) p.wallet (fmt.show_hash v),
    eq_ignore_ascii_case_sym (fmt.show_hash w) p.wallet,
  )

  owned_apart :
      (w v : ℕ) (u : Option ℕ) (p : Position)
      → eq_ignore_ascii_case (fmt.show_hash w) (fmt.show_hash v) ≡ false
      → is_owned fmt false (some w) p ≡ true
      → (is_owned fmt false (some v) p ≡ false) × (is_owned fmt true u p ≡ false)
  unfolding is_owned
  owned_apart w v u p apart own = ground (arith, own_wallets w v p apart)

  filter_apart :
      (w v : ℕ) (u : Option ℕ) (ps : List Position)
      → eq_ignore_ascii_case (fmt.show_hash w) (fmt.show_hash v) ≡ false
      → All
          (λ p. (is_owned fmt false (some v) p ≡ false) × (is_owned fmt true u p ≡ false))
          (filter (is_owned fmt false (some w)) ps)
  filter_apart w v u [] apart = tt
  filter_apart w v u (p ∷ ps) apart = elim (Bool-cases (is_owned fmt false (some w) p)) [
    | inl own ↦ rw own (owned_apart w v u p apart own, filter_apart w v u ps apart)
    | inr other ↦ rw other (filter_apart w v u ps apart)
  ]

  -- Of two live engines whose wallets are written apart, neither manages a position of the other, and no
  -- engine in dry mode manages one of a live engine.
  pub open_positions_for-apart :
      (w v : ℕ) (u : Option ℕ) (store : PositionStore)
      → eq_ignore_ascii_case (fmt.show_hash w) (fmt.show_hash v) ≡ false
      → All
          (λ p. (is_owned fmt false (some v) p ≡ false) × (is_owned fmt true u p ≡ false))
          (open_positions_for fmt false (some w) store)
  unfolding open_positions_for
  open_positions_for-apart w v u store apart = filter_apart w v u (open_positions store) apart
