-- ===== src/Research/Books.antt =====
-- The books of a portfolio: gas reserves, distinct ids and inventory, and what the three changes of
-- the list of positions do to them.
use text.Mathlib.TextEquality.{eq_iff}
use text.Mathlib.Text.{◌==◌ as str_eq}
use bodkin.Prelude.{
  ℕ, ◌+◌, ◌≤◌, ◌<◌, ◌≡◌, refl, false, some, List, [], ◌∷◌, ◌++◌, String, arith, find, length, any,
  All,
}
use bodkin.Research.Portfolio.{Position}
use bodkin.Research.Methods.{has_id, update_first, remove_first}

abbrev pub sum_reserved : List Position → ℕ
sum_reserved [] = 0
sum_reserved (q ∷ qs) = q.reserved_exit_gas_wei + sum_reserved qs

abbrev pub IsStocked : List Position → Type 0
IsStocked = All λ q. 0 < q.tokens

abbrev pub HasDistinctIds : List Position → Type 0
HasDistinctIds [] = Unit
HasDistinctIds (q ∷ qs) = (any (has_id q.id) qs ≡ false) × HasDistinctIds qs

pub sum_reserved-append :
    (qs : List Position) (q : Position)
    → sum_reserved (qs ++ q ∷ []) ≡ sum_reserved qs + q.reserved_exit_gas_wei
sum_reserved-append [] q = omega arith
sum_reserved-append (x ∷ qs) q = omega (arith, sum_reserved-append qs q)

str_eq_sym : (s t : String) → str_eq s t ≡ str_eq t s
str_eq_sym s t = ground (arith, eq_iff s t, eq_iff t s)

any-snoc :
    (id : String) (qs : List Position) (q : Position)
    → any (has_id id) qs ≡ false
    → str_eq q.id id ≡ false
    → any (has_id id) (qs ++ q ∷ []) ≡ false
any-snoc id [] q h e = ground arith
any-snoc id (x ∷ qs) q h e = ground (arith, any-snoc id qs q)

pub HasDistinctIds-snoc :
    (qs : List Position) (q : Position)
    → HasDistinctIds qs
    → any (has_id q.id) qs ≡ false
    → HasDistinctIds (qs ++ q ∷ [])
HasDistinctIds-snoc [] q d h = (refl, tt)
HasDistinctIds-snoc (x ∷ qs) q d h = (
  any-snoc x.id qs q d.0 (ground (arith, str_eq_sym q.id x.id)),
  HasDistinctIds-snoc qs q d.1 (ground arith),
)

-- A write that keeps ids and reserves.
module _ (id : String) (f : Position → Position)
    (keeps : (q : Position)
      → ((f q).id ≡ q.id) × ((f q).reserved_exit_gas_wei ≡ q.reserved_exit_gas_wei)) where
  pub sum_reserved-update_first :
      (qs : List Position) → sum_reserved (update_first (has_id id) f qs) ≡ sum_reserved qs
  unfolding update_first
  sum_reserved-update_first [] = refl
  sum_reserved-update_first (q ∷ qs) = ground (arith, keeps q, sum_reserved-update_first qs)

  pub length-update_first :
      (qs : List Position) → length (update_first (has_id id) f qs) ≡ length qs
  unfolding update_first
  length-update_first [] = refl
  length-update_first (q ∷ qs) = ground (arith, length-update_first qs)

  any-update_first :
      (j : String) (qs : List Position)
      → any (has_id j) (update_first (has_id id) f qs) ≡ any (has_id j) qs
  unfolding update_first
  any-update_first j [] = refl
  any-update_first j (q ∷ qs) = ground (arith, keeps q, any-update_first j qs)

  pub HasDistinctIds-update_first :
      (qs : List Position) → HasDistinctIds qs → HasDistinctIds (update_first (has_id id) f qs)
  unfolding update_first
  HasDistinctIds-update_first [] d = tt
  HasDistinctIds-update_first (q ∷ qs) d =
      ground (arith, keeps q, any-update_first q.id qs, HasDistinctIds-update_first qs d.1)

  pub IsStocked-update_first :
      (qs : List Position)
      → ((q : Position) → 0 < q.tokens → 0 < (f q).tokens)
      → IsStocked qs
      → IsStocked (update_first (has_id id) f qs)
  unfolding update_first
  IsStocked-update_first [] more s = tt
  IsStocked-update_first (q ∷ qs) more s =
      ground (arith, more q s.0, IsStocked-update_first qs more s.1)

pub sum_reserved-remove_first :
    (id : String) (qs : List Position) (q : Position)
    → find (has_id id) qs ≡ some q
    → sum_reserved (remove_first (has_id id) qs) + q.reserved_exit_gas_wei ≡ sum_reserved qs
unfolding remove_first
sum_reserved-remove_first id [] q h = cc
sum_reserved-remove_first id (x ∷ qs) q h = ground (arith, sum_reserved-remove_first id qs q)

pub length-remove_first :
    (id : String) (qs : List Position) → length (remove_first (has_id id) qs) ≤ length qs
unfolding remove_first
length-remove_first id [] = omega arith
length-remove_first id (q ∷ qs) = ground (arith, length-remove_first id qs)

any-remove_first :
    (id j : String) (qs : List Position)
    → any (has_id j) qs ≡ false
    → any (has_id j) (remove_first (has_id id) qs) ≡ false
unfolding remove_first
any-remove_first id j [] h = refl
any-remove_first id j (q ∷ qs) h = ground (arith, any-remove_first id j qs)

pub HasDistinctIds-remove_first :
    (id : String) (qs : List Position)
    → HasDistinctIds qs
    → HasDistinctIds (remove_first (has_id id) qs)
unfolding remove_first
HasDistinctIds-remove_first id [] d = tt
HasDistinctIds-remove_first id (q ∷ qs) d =
    ground (arith, any-remove_first id q.id qs, HasDistinctIds-remove_first id qs d.1)

pub IsStocked-remove_first :
    (id : String) (qs : List Position) → IsStocked qs → IsStocked (remove_first (has_id id) qs)
unfolding remove_first
IsStocked-remove_first id [] s = tt
IsStocked-remove_first id (q ∷ qs) s = ground (arith, IsStocked-remove_first id qs s.1)
