-- ===== src/Outcomes/Balance.antt =====
-- outcomes.rs: the counts of a summary against each other.
use bodkin.Prelude.{
  ℕ, ◌+◌, ◌≤◌, ◌<◌, ◌≡◌, refl, Bool, true, false, Option, none, some, List, [], ◌∷◌, String, arith,
  length, u64_mod, if◌then◌else◌,
}
use bodkin.Prelude.Int.{ℤ}
use bodkin.Positions.Rules.{Floats}
use bodkin.Outcomes.Summary.{
  Json, RuleCount, OutcomeSummary, is_simulated, is_fill, unmeasured, simulated_exit, measured_exit,
  with_exit, realized_of, rule_of, note_named, bump, bump_if, is_gain, note_rule, Tally,
  attempt_event, fire_event, exit_realizing, note_event, note_events, note_kind, kind, Kind,
  launch_seen, hold, attempt, fire, exit, exit_failed, other, no_events, summarize,
}

abbrev pub counts : List RuleCount → ℕ
counts [] = 0
counts (r ∷ rs) = r.count + counts rs

abbrev pub gains : List RuleCount → ℕ
gains [] = 0
gains (r ∷ rs) = r.hits + gains rs

pub bump_exact : (n : ℕ) → n + 1 < u64_mod → bump n ≡ n + 1
bump_exact n small = omega arith

counts-note_rule :
    (rule : String) (hit : Bool) (rs : List RuleCount)
    → counts rs + 1 < u64_mod
    → counts (note_rule rule hit rs) ≡ counts rs + 1
unfolding note_rule
counts-note_rule rule hit [] small = refl
counts-note_rule rule hit (r ∷ rs) small = ground (arith, counts-note_rule rule hit rs)

gains-note_rule :
    (rule : String) (hit : Bool) (rs : List RuleCount)
    → gains rs + 1 < u64_mod
    → gains (note_rule rule hit rs) ≡ gains rs + (if hit then 1 else 0)
unfolding note_rule
gains-note_rule rule true [] small = refl
gains-note_rule rule false [] small = refl
gains-note_rule rule true (r ∷ rs) small = ground (arith, gains-note_rule rule true rs)
gains-note_rule rule false (r ∷ rs) small = ground (arith, gains-note_rule rule false rs)

-- Every exit is of one of three kinds, the hits are among the measured exits, and the exits and the hits
-- by rule among these.
abbrev pub HasParts : {fl : Floats} → OutcomeSummary fl → Type 0
HasParts s =
    (s.exits ≡ s.measured_exits + s.simulated_exits + s.unmeasured_exits)
    × (s.hit ≤ s.measured_exits)
    × (counts s.by_rule ≤ s.measured_exits)
    × (gains s.by_rule ≤ s.hit)
    × (s.first_block_plus2 ≤ s.attempts)

-- The events that are counted, over all kinds.
abbrev pub noted : {fl : Floats} → OutcomeSummary fl → ℕ
noted s =
    s.launches
    + s.holds
    + s.attempts
    + (s.simulated + s.fills + s.unknown_fires)
    + s.exits
    + s.failed_exits

-- The counts after n events.
pub record IsBalanced {fl : Floats} (n : ℕ) (t : Tally fl) : Type 0 where
  pub parts : HasParts t.s
  pub few : noted t.s ≤ n

if-IsBalanced :
    {fl : Floats} (n : ℕ) (c : Bool) (a b : Tally fl)
    → IsBalanced n a
    → IsBalanced n b
    → IsBalanced n (if c then a else b)
if-IsBalanced n true a b first second = first
if-IsBalanced n false a b first second = second

counts-note_named :
    (rule : Option String) (hit : Bool) (rs : List RuleCount) (n : ℕ)
    → n + 1 < u64_mod
    → counts rs ≤ n
    → counts (note_named rule hit rs) ≤ n + 1
counts-note_named none hit rs n small fit = omega arith
counts-note_named (some rule) hit rs n small fit = ground (arith, counts-note_rule rule hit rs)

gains-note_named :
    (rule : Option String) (hit : Bool) (rs : List RuleCount) (n : ℕ)
    → n + 1 < u64_mod
    → gains rs ≤ n
    → gains (note_named rule hit rs) ≤ bump_if hit n
gains-note_named none true rs n small fit = omega arith
gains-note_named none false rs n small fit = omega arith
gains-note_named (some rule) true rs n small fit = ground (arith, gains-note_rule rule true rs)
gains-note_named (some rule) false rs n small fit = ground (arith, gains-note_rule rule false rs)

module _ (j : Json) {fl : Floats} (n : ℕ) (small : n + 1 < u64_mod) (t : Tally fl)
    (b : IsBalanced n t) where
  attempt_event-IsBalanced : (e : j.Value) → IsBalanced (n + 1) (attempt_event j e t)
  unfolding attempt_event
  attempt_event-IsBalanced e =
      let (parts, gained, ruled, ruled_gains, firsts) = b.parts in
      record { parts = (parts, gained, ruled, ruled_gains, ground arith); few = ground arith }

  fire_event-IsBalanced : (e : j.Value) → IsBalanced (n + 1) (fire_event j e t)
  unfolding fire_event
  fire_event-IsBalanced e =
      if-IsBalanced (n + 1) (is_simulated j e)
        (record t { s = record (t.s) { simulated = bump t.s.simulated } }) _
        (record { parts = b.parts; few = ground arith })
        (if-IsBalanced (n + 1) (is_fill j e)
          (record t { s = record (t.s) { fills = bump t.s.fills } })
          (record t { s = record (t.s) { unknown_fires = bump t.s.unknown_fires } })
          (record { parts = b.parts; few = ground arith })
          (record { parts = b.parts; few = ground arith }))

  unmeasured-IsBalanced : IsBalanced (n + 1) (unmeasured j (with_exit j t))
  unmeasured-IsBalanced =
      let (parts, gained, ruled, ruled_gains, firsts) = b.parts in
      record { parts = (ground arith, gained, ruled, ruled_gains, firsts); few = ground arith }

  simulated_exit-IsBalanced : (r : ℤ) → IsBalanced (n + 1) (simulated_exit j r (with_exit j t))
  simulated_exit-IsBalanced r =
      let (parts, gained, ruled, ruled_gains, firsts) = b.parts in
      record { parts = (ground arith, gained, ruled, ruled_gains, firsts); few = ground arith }

  measured_exit-IsBalanced :
      (rule : Option String) (r : ℤ) → IsBalanced (n + 1) (measured_exit j rule r (with_exit j t))
  measured_exit-IsBalanced rule r =
      let (parts, gained, ruled, ruled_gains, firsts) = b.parts in
      let by_rule =
        counts-note_named rule (is_gain r) t.s.by_rule t.s.measured_exits (ground arith) ruled in
      let by_gain =
        gains-note_named rule (is_gain r) t.s.by_rule t.s.hit (ground arith) ruled_gains in
      record {
        parts = (ground arith, ground arith, ground arith, by_gain, firsts);
        few = ground arith;
      }

  exit_realizing-IsBalanced :
      (e : j.Value) (realized : Option ℤ)
      → IsBalanced (n + 1) (exit_realizing j e realized (with_exit j t))
  unfolding exit_realizing
  exit_realizing-IsBalanced e none = unmeasured-IsBalanced
  exit_realizing-IsBalanced e (some r) = if-IsBalanced (n + 1) _ _ _ unmeasured-IsBalanced (
      if-IsBalanced (n + 1) _ _ _ (simulated_exit-IsBalanced r) (
        if-IsBalanced (n + 1) _ _ _ (measured_exit-IsBalanced (rule_of j e) r)
          unmeasured-IsBalanced))

  pub note_kind-IsBalanced : (k : Kind) (e : j.Value) → IsBalanced (n + 1) (note_kind j k e t)
  unfolding note_kind
  note_kind-IsBalanced launch_seen e = record { parts = b.parts; few = ground arith }
  note_kind-IsBalanced hold e = record { parts = b.parts; few = ground arith }
  note_kind-IsBalanced attempt e = attempt_event-IsBalanced e
  note_kind-IsBalanced fire e = fire_event-IsBalanced e
  note_kind-IsBalanced exit e = exit_realizing-IsBalanced e (realized_of j e)
  note_kind-IsBalanced exit_failed e = record { parts = b.parts; few = ground arith }
  note_kind-IsBalanced other e = record { parts = b.parts; few = ground arith }

note_events-IsBalanced :
    (j : Json) {fl : Floats} (es : List j.Value) (n most : ℕ) (t : Tally fl)
    → n + length es ≤ most
    → most < u64_mod
    → IsBalanced n t
    → IsBalanced most (note_events j es t)
unfolding note_events
note_events-IsBalanced j [] n most t few small b = record { parts = b.parts; few = ground arith }
note_events-IsBalanced j (e ∷ es) n most t few small b =
    note_events-IsBalanced j es (n + 1) most (note_event j e t) (omega arith) small
      (note_kind-IsBalanced j n (omega arith) t b (kind j e) e)

pub summarize-HasParts :
    (j : Json) (fl : Floats) (events : List j.Value)
    → length events < u64_mod
    → HasParts (summarize j fl events)
unfolding summarize
summarize-HasParts j fl events small =
    let b =
      note_events-IsBalanced j events 0 (length events) (no_events fl) (omega arith) small (record {
        parts = (refl, omega arith, omega arith, omega arith, omega arith);
        few = omega arith;
      }) in
    b.parts
