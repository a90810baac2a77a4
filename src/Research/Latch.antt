-- ===== src/Research/Latch.antt =====
-- The drawdown latch, the peak and the revision: what no call takes back.
use bodkin.Prelude.{
  ℕ, ◌+◌, ◌%◌, ◌≤◌, ◌<◌, ◌≡◌, true, ◌||◌, Option, is_empty, if◌then◌else◌, List, String, arith,
  u64_mod,
}
use bodkin.Research.Profile.{ok, err, admissions_halted, stale_admission, halted, liquidating}
use bodkin.Research.Portfolio.{Position, EntrySettlement, Admission, Portfolio, refresh_risk}
use bodkin.Research.Methods.{
  admission, validate_admission, check_settlement, settle_entry, fail_entry, mark, settle_exit,
  book_exit, reduce,
}
use bodkin.Research.Refresh.{refresh_risk-SameBook}
use bodkin.Research.Outcomes.{
  settle_entry-ok, fail_entry-ok, mark-ok, settle_exit-ok, entered, charged, marked, sold,
}
use bodkin.Research.Calls.{Call, settles, fails, marks, exits, perform, Reach, here, next}
use bodkin.Research.Validity.{IsValid, perform-IsValid}

-- The latch holds, and the peak has not fallen.
pub record Ratchets (p q : Portfolio) : Type 0 where
  pub latched : (p.drawdown_breached || q.drawdown_breached) ≡ q.drawdown_breached
  pub peak : p.peak_equity_wei ≤ q.peak_equity_wei

refresh_risk-Ratchets : (p : Portfolio) → Ratchets p (refresh_risk p).1
unfolding refresh_risk
refresh_risk-Ratchets p = ground arith

settle_entry-Ratchets :
    (a : Admission) (s : EntrySettlement) (p : Portfolio) → Ratchets p (settle_entry a s p).1
unfolding settle_entry
settle_entry-Ratchets a s p = grind (arith, refresh_risk-Ratchets)

fail_entry-Ratchets : (a : Admission) (gas : ℕ) (p : Portfolio) → Ratchets p (fail_entry a gas p).1
unfolding fail_entry
fail_entry-Ratchets a gas p = grind (arith, refresh_risk-Ratchets)

mark-Ratchets : (id : String) (value : Option ℕ) (p : Portfolio) → Ratchets p (mark id value p).1
unfolding mark
mark-Ratchets id value p = grind (arith, refresh_risk-Ratchets)

reduce-Ratchets :
    (id : String) (q : Position) (remaining : ℕ) (p : Portfolio)
    → Ratchets p (reduce id q remaining p).1
unfolding reduce
reduce-Ratchets id q remaining p = ground arith

book_exit-Ratchets :
    (id : String) (q : Position) (remaining proceeds gas left : ℕ) (p : Portfolio)
    → Ratchets p (book_exit id q remaining proceeds gas left p).1
unfolding book_exit
book_exit-Ratchets id q remaining proceeds gas left p = grind (arith, refresh_risk-Ratchets)

settle_exit-Ratchets :
    (id : String) (tokens proceeds gas : ℕ) (p : Portfolio)
    → Ratchets p (settle_exit id tokens proceeds gas p).1
unfolding settle_exit
settle_exit-Ratchets id tokens proceeds gas p = grind (arith, book_exit-Ratchets)

-- Whatever a call does and however it ends, a breached drawdown stays breached and the peak of the
-- equity does not fall.
pub perform-Ratchets : (c : Call) (p : Portfolio) → Ratchets p (perform c p).1
unfolding perform
perform-Ratchets (settles a s) p = settle_entry-Ratchets a s p
perform-Ratchets (fails a gas) p = fail_entry-Ratchets a gas p
perform-Ratchets (marks id value) p = mark-Ratchets id value p
perform-Ratchets (exits id tokens proceeds gas) p = settle_exit-Ratchets id tokens proceeds gas p

Reach-IsValid_from :
    {p : Portfolio} {cs : List Call} {q : Portfolio} → IsValid p → Reach p cs q → IsValid q
Reach-IsValid_from v here = v
Reach-IsValid_from v (next {q = q} c r done) = perform-IsValid c q (Reach-IsValid_from v r) done

Reach-latched :
    {p : Portfolio} {cs : List Call} {q : Portfolio}
    → p.drawdown_breached ≡ true
    → Reach p cs q
    → q.drawdown_breached ≡ true
Reach-latched l here = l
Reach-latched l (next {q = q} c r done) =
    ground (arith, (perform-Ratchets c q).latched, Reach-latched l r)

halted-refuses :
    (p : Portfolio) (value gas reserve : ℕ)
    → IsValid p
    → p.drawdown_breached ≡ true
    → admission p value gas reserve
      ≡ err (admissions_halted (if is_empty p.positions then halted else liquidating))
unfolding admission
halted-refuses p value gas reserve v l = ground (arith, v.risk)

-- Once the drawdown of a well-formed portfolio is breached, no history of successful calls makes it
-- admit an entry again, of whatever size: each admission is refused as halted, or as liquidating
-- while positions are left.
pub admission_after_breach :
    {p : Portfolio} {cs : List Call} {q : Portfolio} (value gas reserve : ℕ)
    → IsValid p
    → p.drawdown_breached ≡ true
    → Reach p cs q
    → admission q value gas reserve
      ≡ err (admissions_halted (if is_empty q.positions then halted else liquidating))
admission_after_breach {q = q} value gas reserve v l r =
    halted-refuses q value gas reserve (Reach-IsValid_from v r) (Reach-latched l r)

-- A call that succeeds moves the revision on.
perform-revision :
    (c : Call) (p : Portfolio)
    → (perform c p).0 ≡ ok tt
    → (perform c p).1.revision ≡ (p.revision + 1) % u64_mod
unfolding perform
perform-revision (settles a s) p h =
    ground (arith, settle_entry-ok a s p h, refresh_risk-SameBook (entered a s p))
perform-revision (fails a gas) p h =
    ground (arith, fail_entry-ok a gas p h, refresh_risk-SameBook (charged gas p))
perform-revision (marks id value) p h =
    ground (arith, mark-ok id value p h, refresh_risk-SameBook (marked id value p))
perform-revision (exits id tokens proceeds gas) p h =
    let (q, _, _, _, _, e) = settle_exit-ok id tokens proceeds gas p h in
    rw e (refresh_risk-SameBook (sold id q tokens proceeds gas p)).revision

-- An admission is good for one state of the portfolio: after any call that succeeded, neither a
-- settlement nor a failure under an older admission goes through, and the portfolio stays as it is.
pub stale_after_call :
    (c : Call) (p : Portfolio) (a : Admission) (s : EntrySettlement) (gas : ℕ)
    → p.revision < u64_mod
    → a.revision ≡ p.revision
    → (perform c p).0 ≡ ok tt
    → let q = (perform c p).1 in
      (settle_entry a s q ≡ (err stale_admission, q))
      × (fail_entry a gas q ≡ (err stale_admission, q))
unfolding settle_entry check_settlement fail_entry validate_admission
stale_after_call c p a s gas small e h =
    (ground (arith, perform-revision c p h), ground (arith, perform-revision c p h))
