-- ===== src/Flow/Ordered.antt =====
-- An ordered map does not tell in which order its entries came.
use bodkin.Prelude.{◌≡◌, refl, ◌⊎◌, inl, inr, true, false, ◌||◌, Bool-cases, [], ◌∷◌, arith}
use bodkin.Flow.Keys.{
  EventKey, key_lt, key_lt_irrefl, key_lt_asym, key_lt_trans, key_lt_connex, Events, insert_event,
  remove_event, IsAbove, IsOrdered,
}

-- How two keys compare.
pub key-cases :
    (a b : EventKey)
    → ((key_lt a b ≡ true) × (key_lt b a ≡ false))
      ⊎ ((key_lt a b ≡ false) × (key_lt b a ≡ true))
      ⊎ ((key_lt a b ≡ false) × (key_lt b a ≡ false) × (a ≡ b))
key-cases a b = elim (Bool-cases (key_lt a b)) [
  | inl less ↦ inl (less, key_lt_asym a b less)
  | inr l ↦ elim (Bool-cases (key_lt b a)) [
    | inl more ↦ inr (inl (l, more))
    | inr r ↦ inr (inr (l, r, key_lt_connex a b l r))
  ]
]

module _ {V : Type 0} where
  IsAbove-trans : (a b : EventKey) (m : Events V) → key_lt a b ≡ true → IsAbove b m → IsAbove a m
  IsAbove-trans a b [] h above = tt
  IsAbove-trans a b (e ∷ m) h above =
      (key_lt_trans a b e.0 h above.0, IsAbove-trans a b m h above.1)

  insert_event-IsAbove :
      (a k : EventKey) (v : V) (m : Events V)
      → key_lt a k ≡ true
      → IsAbove a m
      → IsAbove a (insert_event k v m)
  unfolding insert_event
  insert_event-IsAbove a k v [] h above = (h, tt)
  insert_event-IsAbove a k v ((j, w) ∷ m) h above = elim (key-cases k j) [
    | inl (l, r) ↦ rw l (h, above)
    | inr (inl (l, r)) ↦ rw (l, r) (above.0, insert_event-IsAbove a k v m h above.1)
    | inr (inr (l, r, e)) ↦ rw (l, r) (h, above.1)
  ]

  pub insert_event-IsOrdered :
      (k : EventKey) (v : V) (m : Events V) → IsOrdered m → IsOrdered (insert_event k v m)
  unfolding insert_event
  insert_event-IsOrdered k v [] o = (tt, tt)
  insert_event-IsOrdered k v ((j, w) ∷ m) o = elim (key-cases k j) [
    | inl (l, r) ↦ rw l ((l, IsAbove-trans k j m l o.0), o)
    | inr (inl (l, r)) ↦
        rw (l, r) (insert_event-IsAbove j k v m r o.0, insert_event-IsOrdered k v m o.1)
    | inr (inr (l, r, e)) ↦ rw (l, r) (rw e o.0, o.1)
  ]

  remove_event-IsAbove :
      (a k : EventKey) (m : Events V) → IsAbove a m → IsAbove a (remove_event k m)
  unfolding remove_event
  remove_event-IsAbove a k [] above = tt
  remove_event-IsAbove a k ((j, w) ∷ m) above = elim (Bool-cases (key_lt k j || key_lt j k)) [
    | inl other ↦ rw other (above.0, remove_event-IsAbove a k m above.1)
    | inr found ↦ rw found above.1
  ]

  pub remove_event-IsOrdered :
      (k : EventKey) (m : Events V) → IsOrdered m → IsOrdered (remove_event k m)
  unfolding remove_event
  remove_event-IsOrdered k [] o = tt
  remove_event-IsOrdered k ((j, w) ∷ m) o = elim (Bool-cases (key_lt k j || key_lt j k)) [
    | inl other ↦ rw other (remove_event-IsAbove j k m o.0, remove_event-IsOrdered k m o.1)
    | inr found ↦ rw found o.1
  ]

  -- Entries under different keys come in either order.
  pub insert_event_comm :
      (k j : EventKey) (v w : V) (m : Events V)
      → key_lt k j || key_lt j k ≡ true
      → insert_event k v (insert_event j w m) ≡ insert_event j w (insert_event k v m)
  unfolding insert_event
  insert_event_comm k j v w [] d = elim (key-cases k j) [
    | inl (l, r) ↦ rw (l, r) refl
    | inr (inl (l, r)) ↦ rw (l, r) refl
    | inr (inr (l, r, e)) ↦ ground arith
  ]
  insert_event_comm k j v w ((i, u) ∷ m) d = ground (
    arith,
    insert_event_comm k j v w m d,
    key-cases k j,
    key-cases k i,
    key-cases j i,
    key_lt_trans k i j,
    key_lt_trans j i k,
    key_lt_trans k j i,
    key_lt_trans j k i,
    key_lt_trans i j k,
    key_lt_trans i k j,
  )

  -- The later of two entries under one key stays.
  pub insert_event_twice :
      (k : EventKey) (v w : V) (m : Events V)
      → insert_event k v (insert_event k w m) ≡ insert_event k v m
  unfolding insert_event
  insert_event_twice k v w [] = rw (key_lt_irrefl k) refl
  insert_event_twice k v w ((j, u) ∷ m) =
      ground (arith, key-cases k j, key_lt_irrefl k, insert_event_twice k v w m)

  remove_above : (k : EventKey) (m : Events V) → IsAbove k m → remove_event k m ≡ m
  unfolding remove_event
  remove_above k [] above = refl
  remove_above k ((j, w) ∷ m) above = ground (arith, above.0, remove_above k m above.1)

  pub remove-insert_event :
      (k : EventKey) (v : V) (m : Events V)
      → IsOrdered m
      → remove_event k (insert_event k v m) ≡ remove_event k m
  unfolding remove_event insert_event
  remove-insert_event k v [] o = rw (key_lt_irrefl k) refl
  remove-insert_event k v ((j, w) ∷ m) o = elim (key-cases k j) [
    | inl (l, r) ↦ ground (arith, key_lt_irrefl k, remove_above k m (IsAbove-trans k j m l o.0))
    | inr (inl (l, r)) ↦ ground (arith, remove-insert_event k v m o.1)
    | inr (inr (l, r, e)) ↦ ground (arith, key_lt_irrefl k)
  ]

  insert_above :
      (k : EventKey) (v : V) (m : Events V) → IsAbove k m → insert_event k v m ≡ (k, v) ∷ m
  unfolding insert_event
  insert_above k v [] above = refl
  insert_above k v ((j, w) ∷ m) above = rw above.0 refl

  pub insert-remove_event :
      (k : EventKey) (v : V) (m : Events V)
      → IsOrdered m
      → insert_event k v (remove_event k m) ≡ insert_event k v m
  unfolding remove_event insert_event
  insert-remove_event k v [] o = refl
  insert-remove_event k v ((j, w) ∷ m) o = elim (key-cases k j) [
    | inl (l, r) ↦ ground (arith, remove_above k m (IsAbove-trans k j m l o.0))
    | inr (inl (l, r)) ↦ ground (arith, insert-remove_event k v m o.1)
    | inr (inr (l, r, e)) ↦ rw (l, r) (insert_above k v m (rw e o.0))
  ]

  -- A removal and an entry under another key come in either order.
  pub remove-insert_other :
      (k j : EventKey) (w : V) (m : Events V)
      → key_lt k j || key_lt j k ≡ true
      → IsOrdered m
      → remove_event k (insert_event j w m) ≡ insert_event j w (remove_event k m)
  unfolding remove_event insert_event
  remove-insert_other k j w [] d o = rw d refl
  remove-insert_other k j w ((i, u) ∷ m) d o = elim (key-cases j i) [
    | inl (l, r) ↦ elim (key-cases k i) [
      | inl (l', r') ↦ ground arith
      | inr (inl (l', r')) ↦ ground arith
      | inr (inr (l', r', e)) ↦ ground (arith, insert_above j w m (IsAbove-trans j i m l o.0))
    ]
    | inr (inl (l, r)) ↦ ground (arith, remove-insert_other k j w m d o.1)
    | inr (inr (l, r, e)) ↦ ground arith
  ]

  pub remove_event_comm :
      (k j : EventKey) (m : Events V)
      → remove_event k (remove_event j m) ≡ remove_event j (remove_event k m)
  unfolding remove_event
  remove_event_comm k j [] = refl
  remove_event_comm k j ((i, u) ∷ m) =
      ground (arith, remove_event_comm k j m, key_lt_connex k i, key_lt_connex j i)
