-- ===== src/Burst/Nonces.antt =====
-- trade/wallet.rs: the nonce allocator of `Wallet`, an atomic word.
use bodkin.Prelude.{
  ℕ, zero, suc, ◌+◌, ◌%◌, ◌<◌, ◌≡◌, ap, Bool, true, false, List, [], ◌∷◌, ◌++◌, if◌then◌else◌, ◌==◌,
  arith, u64_mod, wrapping_add, saturating_add,
}

-- `start`, `start + 1` and so on, `n` of them; the sums wrap in a release build.
unfoldable pub range_from : ℕ → ℕ → List ℕ
range_from start zero = []
range_from start (suc n) = start % u64_mod ∷ range_from (start + 1) n

-- `take_nonces`: the nonces and the next one.
unfoldable pub take_nonces : ℕ → ℕ → List ℕ × ℕ
unfolding range_from
take_nonces n nonce = (range_from nonce n, wrapping_add u64_mod nonce n)

unfoldable pub next_nonce : ℕ → ℕ × ℕ
next_nonce nonce = (nonce, wrapping_add u64_mod nonce 1)

-- `rewind_nonces`: whether the exchange took place, and the next nonce.
unfoldable pub rewind_nonces : ℕ → ℕ → ℕ → Bool × ℕ
rewind_nonces start count nonce =
    if nonce == saturating_add u64_mod start count then (true, start) else (false, nonce)

range_from-append :
    (start m n : ℕ) → range_from start (m + n) ≡ range_from start m ++ range_from (start + m) n
unfolding range_from
range_from-append start zero n = ground arith
range_from-append start (suc m) n =
    let e₁ : suc m + n ≡ suc (m + n) = omega arith in
    let e₂ : start + suc m ≡ start + 1 + m = omega arith in
    rw (e₁, e₂) (ap (λ l. start % u64_mod ∷ l) (range_from-append (start + 1) m n))

-- Two takes one after the other give, without gap or overlap, the nonces of one take of both counts,
-- and leave the same next nonce, as long as the nonces fit a word.
pub take_nonces_twice :
    (m n nonce : ℕ)
    → nonce + m + n < u64_mod
    → let first = take_nonces m nonce in
      let second = take_nonces n first.1 in
      (take_nonces (m + n) nonce).0 ≡ first.0 ++ second.0
      × ((take_nonces (m + n) nonce).1 ≡ second.1)
unfolding take_nonces
take_nonces_twice m n nonce small = ground (arith, range_from-append nonce m n)

-- Nonces that were taken go back exactly if nobody took others since: rewinding straight after a take
-- restores the next nonce, and after a further take of at least one it is refused and changes nothing.
pub rewind-take_nonces :
    (m n nonce : ℕ)
    → nonce + m + n + 1 < u64_mod
    → let after = (take_nonces m nonce).1 in
      let later = (take_nonces (n + 1) after).1 in
      (rewind_nonces nonce m after ≡ (true, nonce)) × (rewind_nonces nonce m later ≡ (false, later))
unfolding take_nonces rewind_nonces
rewind-take_nonces m n nonce small = ground arith
