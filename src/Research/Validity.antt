-- ===== src/Research/Validity.antt =====
-- A portfolio stays well formed: its books balance, and its risk state follows from them.
use bodkin.Prelude.{
  ℕ, ◌-◌, ◌≤◌, ◌<◌, ◌≡◌, refl, inl, inr, false, Option, some, List, [], ◌∷◌, String, arith, find,
  length, is_empty, Bool-cases, length-append, All-append, ◌==◌,
}
use bodkin.Research.Profile.{Profile, ok, validate, drawdown_bps, active}
use bodkin.Research.Portfolio.{
  Position, EntrySettlement, Admission, Portfolio, create, initial, known_equity, add_liquidation,
  refresh_risk,
}
use bodkin.Research.Methods.{has_id, opened, update_first, remove_first}
use bodkin.Research.Refresh.{
  refresh_risk-SameBook, RiskFollows, LatchReady, refresh_risk-RiskFollows,
}
use bodkin.Research.Outcomes.{
  Settles, entered, charged, marked, sold, remarked, shrunk, settle_entry-ok, fail_entry-ok,
  mark-ok, settle_exit-ok, IsAtomic, settle_entry-IsAtomic, fail_entry-IsAtomic, mark-IsAtomic,
  settle_exit-IsAtomic,
}
use bodkin.Research.Books.{
  sum_reserved, IsStocked, HasDistinctIds, sum_reserved-append, HasDistinctIds-snoc,
  sum_reserved-update_first, length-update_first, HasDistinctIds-update_first,
  IsStocked-update_first, sum_reserved-remove_first, length-remove_first,
  HasDistinctIds-remove_first, IsStocked-remove_first,
}
use bodkin.Research.Calls.{Call, settles, fails, marks, exits, perform, Reach, here, next}

pub record BooksBalance (p : Portfolio) : Type 0 where
  pub reserved : p.reserved_exit_gas_wei ≡ sum_reserved p.positions
  pub capacity : length p.positions ≤ p.profile.max_open_positions
  pub stocked : IsStocked p.positions
  pub distinct : HasDistinctIds p.positions

pub record IsValid (p : Portfolio) : Type 0 where
  pub books : BooksBalance p
  pub risk : RiskFollows p

refresh_risk-IsValid :
    (p : Portfolio)
    → BooksBalance p
    → LatchReady p
    → (refresh_risk p).0 ≡ ok tt
    → IsValid (refresh_risk p).1
refresh_risk-IsValid p b ready h = record {
  books = ground (arith, refresh_risk-SameBook p);
  risk = refresh_risk-RiskFollows p ready h;
}

active-unlatched :
    (p : Portfolio) → RiskFollows p → p.risk_state ≡ active → p.drawdown_breached ≡ false
active-unlatched p f h = ground arith

entered-BooksBalance :
    (a : Admission) (s : EntrySettlement) (p : Portfolio)
    → BooksBalance p
    → Settles a s p
    → BooksBalance (entered a s p)
entered-BooksBalance a s p b t = record {
  reserved = omega (arith, b.reserved, sum_reserved-append p.positions (opened a s));
  capacity = omega (arith, t.room, length-append p.positions (opened a s ∷ []));
  stocked = All-append (λ q. 0 < q.tokens) p.positions _ (t.stocked, tt) b.stocked;
  distinct = HasDistinctIds-snoc p.positions (opened a s) b.distinct t.unused;
}

is_empty-update_first :
    (id : String) (f : Position → Position) (qs : List Position)
    → is_empty (update_first (has_id id) f qs) ≡ is_empty qs
unfolding update_first
is_empty-update_first id f [] = refl
is_empty-update_first id f (q ∷ qs) = ground arith

-- Rewriting a position in place keeps the books, if its id, its reserve and its being stocked stay.
module _ (id : String) (f : Position → Position)
    (keeps : (q : Position)
      → ((f q).id ≡ q.id) × ((f q).reserved_exit_gas_wei ≡ q.reserved_exit_gas_wei))
    (more : (q : Position) → 0 < q.tokens → 0 < (f q).tokens) where
  updated-BooksBalance :
      (p : Portfolio)
      → BooksBalance p
      → BooksBalance (record p { positions = update_first (has_id id) f p.positions })
  updated-BooksBalance p b = record {
    reserved = omega (arith, b.reserved, sum_reserved-update_first id f keeps p.positions);
    capacity = omega (arith, b.capacity, length-update_first id f keeps p.positions);
    stocked = IsStocked-update_first id f keeps p.positions more b.stocked;
    distinct = HasDistinctIds-update_first id f keeps p.positions b.distinct;
  }

marked-BooksBalance :
    (id : String) (value : Option ℕ) (p : Portfolio)
    → BooksBalance p
    → BooksBalance (marked id value p)
marked-BooksBalance id value p b =
    let u = updated-BooksBalance id (remarked value) (λ q. (refl, refl)) (λ q s. s) p b in
    record {
      reserved = u.reserved;
      capacity = u.capacity;
      stocked = u.stocked;
      distinct = u.distinct;
    }

module _ (id : String) (q : Position) (tokens proceeds gas : ℕ) (p : Portfolio) (b : BooksBalance p)
    (found : find (has_id id) p.positions ≡ some q) where
  sold_out-BooksBalance : BooksBalance (record p {
    reserved_exit_gas_wei = p.reserved_exit_gas_wei - q.reserved_exit_gas_wei;
    positions = remove_first (has_id id) p.positions;
  })
  sold_out-BooksBalance = record {
    reserved = omega (arith, b.reserved, sum_reserved-remove_first id p.positions q found);
    capacity = omega (arith, b.capacity, length-remove_first id p.positions);
    stocked = IsStocked-remove_first id p.positions b.stocked;
    distinct = HasDistinctIds-remove_first id p.positions b.distinct;
  }

  sold-BooksBalance : BooksBalance (sold id q tokens proceeds gas p)
  sold-BooksBalance = elim (Bool-cases (q.tokens - tokens == 0)) [
    | inl out ↦
        let u = sold_out-BooksBalance in
        record {
          reserved = rw out u.reserved;
          capacity = rw out u.capacity;
          stocked = rw out u.stocked;
          distinct = rw out u.distinct;
        }
    | inr left ↦
        let u =
          updated-BooksBalance id (shrunk (q.tokens - tokens) q.tokens) (λ r. (refl, refl))
            (λ r s. ground arith) p b in
        record {
          reserved = rw left u.reserved;
          capacity = rw left u.capacity;
          stocked = rw left u.stocked;
          distinct = rw left u.distinct;
        }
  ]

  is_empty-remove_first :
      is_empty (remove_first (has_id id) p.positions) ≡ false → is_empty p.positions ≡ false
  unfolding remove_first
  is_empty-remove_first h = ground arith

  sold-LatchReady : RiskFollows p → LatchReady (sold id q tokens proceeds gas p)
  sold-LatchReady f = ground (
    arith,
    is_empty-remove_first,
    is_empty-update_first id (shrunk (q.tokens - tokens) q.tokens) p.positions,
  )

-- A call that succeeds keeps a portfolio well formed.
pub perform-IsValid :
    (c : Call) (p : Portfolio) → IsValid p → (perform c p).0 ≡ ok tt → IsValid (perform c p).1
unfolding perform
perform-IsValid (settles a s) p v h =
    let (t, enough, e) = settle_entry-ok a s p h in
    rw e (
      refresh_risk-IsValid (entered a s p) (entered-BooksBalance a s p v.books t)
        (ground (arith, active-unlatched p v.risk t.is_active)) (rw e at h))
perform-IsValid (fails a gas) p v h =
    let (_, live, _, _, e) = fail_entry-ok a gas p h in
    let b = v.books in
    rw e (
      refresh_risk-IsValid (charged gas p)
        (record {
          reserved = b.reserved;
          capacity = b.capacity;
          stocked = b.stocked;
          distinct = b.distinct;
        })
        (ground (arith, active-unlatched p v.risk live)) (rw e at h))
perform-IsValid (marks id value) p v h =
    let e = mark-ok id value p h in
    rw e (
      refresh_risk-IsValid (marked id value p) (marked-BooksBalance id value p v.books)
        (ground (arith, is_empty-update_first id (remarked value) p.positions)) (rw e at h))
perform-IsValid (exits id tokens proceeds gas) p v h =
    let (q, found, _, _, _, e) = settle_exit-ok id tokens proceeds gas p h in
    rw e (
      refresh_risk-IsValid (sold id q tokens proceeds gas p)
        (sold-BooksBalance id q tokens proceeds gas p v.books found)
        (sold-LatchReady id q tokens proceeds gas p v.books found v.risk) (rw e at h))

create-ok :
    (profile : Profile) (p : Portfolio)
    → create profile ≡ ok p
    → (p ≡ initial profile) × (0 < profile.max_drawdown_bps)
unfolding create validate
create-ok profile p h = ground arith

initial-IsValid : (profile : Profile) → 0 < profile.max_drawdown_bps → IsValid (initial profile)
unfolding known_equity add_liquidation drawdown_bps
initial-IsValid profile h = record {
  books = record { reserved = refl; capacity = omega arith; stocked = tt; distinct = tt };
  risk =
      inr (inr (refl, refl, (profile.starting_equity_wei, 0, refl, omega arith, ground arith, h)));
}

create-IsValid : (profile : Profile) (p : Portfolio) → create profile ≡ ok p → IsValid p
create-IsValid profile p h =
    let (e, pos) = create-ok profile p h in rw e (initial-IsValid profile pos)

-- A portfolio that any history of successful calls leads to is well formed: its reserve is the sum
-- of its positions' reserves, it holds no more positions than its profile allows, each with tokens
-- left and an id of its own, and its risk state follows from the latch and the known equity.
pub Reach-IsValid :
    {p : Portfolio} {cs : List Call} {q : Portfolio} (profile : Profile)
    → create profile ≡ ok p
    → Reach p cs q
    → IsValid q
Reach-IsValid {p = p} profile made here = create-IsValid profile p made
Reach-IsValid profile made (next {q = q} c r done) =
    perform-IsValid c q (Reach-IsValid profile made r) done

-- A call that fails with anything but an arithmetic overflow leaves the portfolio as it was.
pub perform-IsAtomic : (c : Call) (p : Portfolio) → IsAtomic p (perform c p)
unfolding perform
perform-IsAtomic (settles a s) p = settle_entry-IsAtomic a s p
perform-IsAtomic (fails a gas) p = fail_entry-IsAtomic a gas p
perform-IsAtomic (marks id value) p = mark-IsAtomic id value p
perform-IsAtomic (exits id tokens proceeds gas) p = settle_exit-IsAtomic id tokens proceeds gas p
