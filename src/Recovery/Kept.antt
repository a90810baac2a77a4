-- ===== src/Recovery/Kept.antt =====
-- Which steps of recovery leave the positions alone, and which the operations.
use bodkin.Prelude.{
  ◌≡◌, refl, ◌∙◌, arith, Bool, true, false, Option, none, some, List, String, if◌then◌else◌,
}
use bodkin.Positions.Record.{Position}
use bodkin.Journal.Record.{Operation, JournalEvent}
use bodkin.Recovery.World.{
  Env, Blockage, World, RecoveryError, Result, ok, err, Action, ◌>>=◌, done, require, block,
  record_step, flush_step,
}
use bodkin.Recovery.Settle.{count_entry, count_exit, count_failed, try}

-- A step that leaves a part of the world alone.
pub record Keeps {A B : Type 0} (part : World → B) (m : Action A) : Type 0 where
  pub at : (w : World) → part (m w).1 ≡ part w

abbrev pub the_positions : World → List Position
the_positions w = w.positions.list

abbrev pub the_operations : World → List Operation
the_operations w = w.operations

-- The second half of a bind.
abbrev pub and_then : {A C : Type 0} → (A → Action C) → Result A × World → Result C × World
and_then f r = elim (r.0) [ ok a ↦ f a r.1 | err e ↦ (err e, r.1) ]

and_then-Keeps :
    {A B C : Type 0} (part : World → B) (f : A → Action C)
    → ((a : A) → Keeps part (f a))
    → (r : Result A × World) → part (and_then f r).1 ≡ part r.1
and_then-Keeps part f k (ok a, w) = (k a).at w
and_then-Keeps part f k (err e, w) = refl

pub >>=-Keeps :
    {A B C : Type 0} {part : World → B} {m : Action A} {f : A → Action C}
    → Keeps part m
    → ((a : A) → Keeps part (f a))
    → Keeps part (m >>= f)
>>=-Keeps {part = part} {m = m} {f = f} h k = record {
  at = λ w. and_then-Keeps part f k (m w) ∙ h.at w;
}

pub if-Keeps :
    {A B : Type 0} {part : World → B} {m n : Action A} (b : Bool)
    → Keeps part m
    → Keeps part n
    → Keeps part (if b then m else n)
if-Keeps true h k = h
if-Keeps false h k = k

module _ {B : Type 0} {part : World → B} where
  pub done-Keeps : Keeps part done
  done-Keeps = record { at = λ w. refl }

  pub require-Keeps : {A : Type 0} (e : RecoveryError) (o : Option A) → Keeps part (require e o)
  require-Keeps e none = record { at = λ w. refl }
  require-Keeps e (some a) = record { at = λ w. refl }

  pub try-Keeps : {A : Type 0} (r : Result A) → Keeps part (try r)
  try-Keeps r = record { at = λ w. refl }

pub block-positions : (b : Blockage) → Keeps the_positions (block b)
block-positions b = record { at = λ w. refl }

pub record_step-positions :
    (env : Env) (id : String) (event : JournalEvent)
    → Keeps the_positions (record_step env id event)
unfolding record_step
record_step-positions env id event = record { at = λ w. refl }

pub flush_step-positions : Keeps the_positions flush_step
unfolding flush_step
flush_step-positions = record { at = λ w. ground arith }

pub count_entry-positions : Keeps the_positions count_entry
count_entry-positions = record { at = λ w. refl }

pub count_exit-positions : Keeps the_positions count_exit
count_exit-positions = record { at = λ w. refl }

pub count_failed-positions : Keeps the_positions count_failed
count_failed-positions = record { at = λ w. refl }

pub block-operations : (b : Blockage) → Keeps the_operations (block b)
block-operations b = record { at = λ w. refl }

pub flush_step-operations : Keeps the_operations flush_step
unfolding flush_step
flush_step-operations = record { at = λ w. refl }

pub ruleset keeps_rules = (
  >>=-Keeps, if-Keeps, done-Keeps, require-Keeps, try-Keeps, block-positions, record_step-positions,
  flush_step-positions, count_entry-positions, count_exit-positions, count_failed-positions,
  block-operations, flush_step-operations,
)
