-- ===== src/Outcomes/Kinds.antt =====
-- outcomes.rs: the counts of a summary are those of the events of each kind.
use bodkin.Prelude.{
  ℕ, ◌+◌, ◌≤◌, ◌<◌, ◌≡◌, refl, ap, ◌∙◌, Bool, true, false, Option, none, some, List, [], ◌∷◌,
  String, arith, length, u64_mod, if◌then◌else◌,
}
use text.Mathlib.Text.{◌==◌ as str_eq}
use text.Mathlib.TextEquality.{eq_iff}
use bodkin.Prelude.Int.{ℤ}
use bodkin.Positions.Rules.{Floats}
use bodkin.Outcomes.Summary.{
  Json, OutcomeSummary, Tally, Kind, launch_seen, hold, attempt, fire, exit, exit_failed, other,
  kind_named, kind, text_at, text_or_empty, bump, attempt_event, fire_event, is_simulated, is_fill,
  exit_realizing, with_exit, realized_of, note_kind, note_event, note_events, no_events, summarize,
}
use bodkin.Outcomes.Balance.{
  HasParts, noted, IsBalanced, bump_exact, note_kind-IsBalanced, summarize-HasParts,
}

-- The events of each kind; a fire is simulated, a fill or unknown.
record Counts : Type 0 where
  launches : ℕ
  holds : ℕ
  attempts : ℕ
  fires : ℕ
  exits : ℕ
  failed : ℕ

abbrev counts_of : {fl : Floats} → OutcomeSummary fl → Counts
counts_of s = record {
  launches = s.launches;
  holds = s.holds;
  attempts = s.attempts;
  fires = s.simulated + s.fills + s.unknown_fires;
  exits = s.exits;
  failed = s.failed_exits;
}

abbrev plus_kind : Kind → Counts → Counts
plus_kind launch_seen c = record c { launches = c.launches + 1 }
plus_kind hold c = record c { holds = c.holds + 1 }
plus_kind attempt c = record c { attempts = c.attempts + 1 }
plus_kind fire c = record c { fires = c.fires + 1 }
plus_kind exit c = record c { exits = c.exits + 1 }
plus_kind exit_failed c = record c { failed = c.failed + 1 }
plus_kind other c = c

module _ (j : Json) {fl : Floats} (n : ℕ) (small : n + 1 < u64_mod) (t : Tally fl)
    (few : noted t.s ≤ n) where
  if-counts :
      (c : Bool) (a b : Tally fl) (v : Counts)
      → counts_of a.s ≡ v
      → counts_of b.s ≡ v
      → counts_of (if c then a else b).s ≡ v
  if-counts true a b v first second = first
  if-counts false a b v first second = second

  fire_event-counts :
      (e : j.Value) → counts_of (fire_event j e t).s ≡ plus_kind fire (counts_of t.s)
  unfolding fire_event
  fire_event-counts e =
      let fires = λ (m : ℕ). record (counts_of t.s) { fires = m } in
      if-counts (is_simulated j e)
        (record t { s = record (t.s) { simulated = bump t.s.simulated } }) _ _
        (ap fires (omega (arith, few)))
        (if-counts (is_fill j e) (record t { s = record (t.s) { fills = bump t.s.fills } })
          (record t { s = record (t.s) { unknown_fires = bump t.s.unknown_fires } }) _
          (ap fires (omega (arith, few))) (ap fires (omega (arith, few))))

  exit_realizing-counts :
      (e : j.Value) (realized : Option ℤ) (u : Tally fl)
      → counts_of (exit_realizing j e realized u).s ≡ counts_of u.s
  unfolding exit_realizing
  exit_realizing-counts e none u = refl
  exit_realizing-counts e (some r) u = ground arith

  note_kind-counts :
      (k : Kind) (e : j.Value) → counts_of (note_kind j k e t).s ≡ plus_kind k (counts_of t.s)
  unfolding note_kind attempt_event
  note_kind-counts launch_seen e =
      ap (λ m. record (counts_of t.s) { launches = m })
        (bump_exact t.s.launches (omega (arith, few)))
  note_kind-counts hold e =
      ap (λ m. record (counts_of t.s) { holds = m }) (bump_exact t.s.holds (omega (arith, few)))
  note_kind-counts attempt e =
      ap (λ m. record (counts_of t.s) { attempts = m })
        (bump_exact t.s.attempts (omega (arith, few)))
  note_kind-counts fire e = fire_event-counts e
  note_kind-counts exit e =
      exit_realizing-counts e (realized_of j e) (with_exit j t)
      ∙ ap (λ m. record (counts_of t.s) { exits = m }) (bump_exact t.s.exits (omega (arith, few)))
  note_kind-counts exit_failed e =
      ap (λ m. record (counts_of t.s) { failed = m })
        (bump_exact t.s.failed_exits (omega (arith, few)))
  note_kind-counts other e = refl

abbrev pub count : {A : Type 0} → (A → Bool) → List A → ℕ
count p [] = 0
count p (x ∷ xs) = (if p x then 1 else 0) + count p xs

-- The text at `kind` is the name.
abbrev pub is_kind : (j : Json) → String → j.Value → Bool
is_kind j name e = str_eq (text_or_empty (text_at j e "kind")) name

apart : (name a b : String) → str_eq a b ≡ false → str_eq name a ≡ true → str_eq name b ≡ false
apart name a b differ same = let known = (eq_iff name a).0 same in rw known differ

launches-kind_named :
    (name : String) (c : Counts)
    → (plus_kind (kind_named name) c).launches
      ≡ c.launches + (if str_eq name "launch_seen" then 1 else 0)
unfolding kind_named
launches-kind_named name c = ground (arith)

holds-kind_named :
    (name : String) (c : Counts)
    → (plus_kind (kind_named name) c).holds ≡ c.holds + (if str_eq name "hold" then 1 else 0)
unfolding kind_named
holds-kind_named name c = ground (arith, apart name "launch_seen" "hold" refl)

attempts-kind_named :
    (name : String) (c : Counts)
    → (plus_kind (kind_named name) c).attempts
      ≡ c.attempts + (if str_eq name "attempt" then 1 else 0)
unfolding kind_named
attempts-kind_named name c =
    ground (arith, apart name "launch_seen" "attempt" refl, apart name "hold" "attempt" refl)

fires-kind_named :
    (name : String) (c : Counts)
    → (plus_kind (kind_named name) c).fires ≡ c.fires + (if str_eq name "fire" then 1 else 0)
unfolding kind_named
fires-kind_named name c = ground (
  arith,
  apart name "launch_seen" "fire" refl,
  apart name "hold" "fire" refl,
  apart name "attempt" "fire" refl,
)

exits-kind_named :
    (name : String) (c : Counts)
    → (plus_kind (kind_named name) c).exits ≡ c.exits + (if str_eq name "exit" then 1 else 0)
unfolding kind_named
exits-kind_named name c = ground (
  arith,
  apart name "launch_seen" "exit" refl,
  apart name "hold" "exit" refl,
  apart name "attempt" "exit" refl,
  apart name "fire" "exit" refl,
)

failed-kind_named :
    (name : String) (c : Counts)
    → (plus_kind (kind_named name) c).failed
      ≡ c.failed + (if str_eq name "exit_failed" then 1 else 0)
unfolding kind_named
failed-kind_named name c = ground (
  arith,
  apart name "launch_seen" "exit_failed" refl,
  apart name "hold" "exit_failed" refl,
  apart name "attempt" "exit_failed" refl,
  apart name "fire" "exit_failed" refl,
  apart name "exit" "exit_failed" refl,
)

-- A field that grows with the events for which a test holds counts these.
note_events-count :
    (j : Json) {fl : Floats} (field : Counts → ℕ) (p : j.Value → Bool) (es : List j.Value)
    (n most : ℕ) (t : Tally fl)
    → ((e : j.Value) (c : Counts)
        → field (plus_kind (kind j e) c) ≡ field c + (if p e then 1 else 0))
    → n + length es ≤ most
    → most < u64_mod
    → IsBalanced n t
    → field (counts_of (note_events j es t).s) ≡ field (counts_of t.s) + count p es
unfolding note_events
note_events-count j field p [] n most t grows few small b = omega arith
note_events-count j field p (e ∷ es) n most t grows few small b =
    let one = ap field (note_kind-counts j n (omega arith) t b.few (kind j e) e) in
    let more =
      note_events-count j field p es (n + 1) most (note_event j e t) grows (omega arith) small
        (note_kind-IsBalanced j n (omega arith) t b (kind j e) e) in
    omega (arith, one, more, grows e (counts_of t.s))

-- Each count of a summary of fewer than 2 ^ 64 events is the number of the events of that kind, a fire being
-- simulated, a fill or unknown. Each exit is measured, simulated or unmeasured; the hits are among the
-- measured exits, the exits and hits by rule among these, and the first-block attempts among the attempts.
pub summarize-counts :
    (j : Json) (fl : Floats) (events : List j.Value)
    → length events < u64_mod
    → let s = summarize j fl events in
      let events_of = λ (name : String). count (is_kind j name) events in
      (s.launches ≡ events_of "launch_seen")
      × (s.holds ≡ events_of "hold")
      × (s.attempts ≡ events_of "attempt")
      × (s.simulated + s.fills + s.unknown_fires ≡ events_of "fire")
      × (s.exits ≡ events_of "exit")
      × (s.failed_exits ≡ events_of "exit_failed")
      × HasParts s
unfolding summarize
summarize-counts j fl events small =
    let b : IsBalanced 0 (no_events fl) = record {
      parts = (refl, omega arith, omega arith, omega arith, omega arith);
      few = omega arith;
    } in
    let at =
      λ (field : Counts → ℕ) (name : String)
          (grows : (e : j.Value) (c : Counts)
            → field (plus_kind (kind j e) c) ≡ field c + (if is_kind j name e then 1 else 0)).
        note_events-count j field (is_kind j name) events 0 (length events) (no_events fl) grows
          (omega arith) small b in
    let name_of = λ (e : j.Value). text_or_empty (text_at j e "kind") in
    (
      omega (arith, at (λ c. c.launches) "launch_seen" (λ e c. launches-kind_named (name_of e) c)),
      omega (arith, at (λ c. c.holds) "hold" (λ e c. holds-kind_named (name_of e) c)),
      omega (arith, at (λ c. c.attempts) "attempt" (λ e c. attempts-kind_named (name_of e) c)),
      omega (arith, at (λ c. c.fires) "fire" (λ e c. fires-kind_named (name_of e) c)),
      omega (arith, at (λ c. c.exits) "exit" (λ e c. exits-kind_named (name_of e) c)),
      omega (arith, at (λ c. c.failed) "exit_failed" (λ e c. failed-kind_named (name_of e) c)),
      summarize-HasParts j fl events small,
    )
