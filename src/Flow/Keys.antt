-- ===== src/Flow/Keys.antt =====
-- pons/stream.rs: the order of `EventKey`, the `BTreeMap` keyed by it as an ordered list, and the hash
-- map of identities.
use bodkin.Prelude.{
  ℕ, ◌≡◌, Bool, true, false, ◌&&◌, ◌||◌, List, [], ◌∷◌, ltb, ◌==◌, if◌then◌else◌, arith, All,
}

pub record EventKey : Type 0 where
  pub block_number : ℕ
  pub transaction_index : ℕ
  pub log_index : ℕ
  pub transaction_hash : ℕ

-- The derived `Ord`.
unfoldable pub key_lt : EventKey → EventKey → Bool
key_lt a b =
    ltb a.block_number b.block_number
    || (a.block_number == b.block_number
        && (ltb a.transaction_index b.transaction_index
            || (a.transaction_index == b.transaction_index
                && (ltb a.log_index b.log_index
                    || (a.log_index == b.log_index && ltb a.transaction_hash b.transaction_hash)))))

pub key_lt_irrefl : (a : EventKey) → key_lt a a ≡ false
unfolding key_lt
key_lt_irrefl a = ground arith

pub key_lt_asym : (a b : EventKey) → key_lt a b ≡ true → key_lt b a ≡ false
unfolding key_lt
key_lt_asym a b h = ground arith

pub key_lt_trans : (a b c : EventKey) → key_lt a b ≡ true → key_lt b c ≡ true → key_lt a c ≡ true
unfolding key_lt
key_lt_trans a b c h k = ground arith

pub key_lt_connex : (a b : EventKey) → key_lt a b ≡ false → key_lt b a ≡ false → a ≡ b
unfolding key_lt
key_lt_connex a b h k = ground arith

abbrev pub Events : Type 0 → Type 0
Events V = List (EventKey × V)

module _ {V : Type 0} where
  -- `BTreeMap::insert`
  unfoldable pub insert_event : EventKey → V → Events V → Events V
  insert_event k v [] = (k, v) ∷ []
  insert_event k v ((j, w) ∷ m) =
      let rest = insert_event k v m in
      if key_lt k j then (k, v) ∷ (j, w) ∷ m else if key_lt j k then (j, w) ∷ rest else (k, v) ∷ m

  -- `BTreeMap::remove`
  unfoldable pub remove_event : EventKey → Events V → Events V
  remove_event k [] = []
  remove_event k ((j, w) ∷ m) =
      let rest = remove_event k m in if key_lt k j || key_lt j k then (j, w) ∷ rest else m

  abbrev pub IsAbove : EventKey → Events V → Type 0
  IsAbove k = All λ e. key_lt k e.0 ≡ true

  abbrev pub IsOrdered : Events V → Type 0
  IsOrdered [] = Unit
  IsOrdered (e ∷ m) = IsAbove e.0 m × IsOrdered m
