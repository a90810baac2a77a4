-- ===== src/Research/Calls.antt =====
-- The calls that a run makes on its portfolio, one after another.
use bodkin.Prelude.{ℕ, ◌≡◌, Option, List, [], ◌∷◌, String}
use bodkin.Research.Profile.{ok}
use bodkin.Research.Portfolio.{EntrySettlement, Admission, Portfolio, Action}
use bodkin.Research.Methods.{settle_entry, fail_entry, mark, settle_exit}

pub data Call : Type 0 where
  settles : Admission → EntrySettlement → Call
  fails : Admission → ℕ → Call
  marks : String → Option ℕ → Call
  exits : String → ℕ → ℕ → ℕ → Call

unfoldable pub perform : Call → Action (Unit {0})
perform (settles a s) = settle_entry a s
perform (fails a gas) = fail_entry a gas
perform (marks id value) = mark id value
perform (exits id tokens proceeds gas) = settle_exit id tokens proceeds gas

-- The portfolios that a history of calls leads to, each call having succeeded.
pub data Reach (p : Portfolio) : List Call → Portfolio → Type 0 where
  here : Reach p [] p
  next :
      {cs : List Call} {q : Portfolio} (c : Call)
      → Reach p cs q
      → (perform c q).0 ≡ ok tt
      → Reach p (c ∷ cs) (perform c q).1
