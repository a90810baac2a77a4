-- ===== src/Clock/Boundary.antt =====
-- `note_header_at` in pons/clock.rs: which header pins the boundary of the second.
use bodkin.Prelude.{
  ℕ, ◌≡◌, ◌<◌, ◌⊎◌, inl, inr, refl, subst, sym, ap, ◌∙◌, Bool, Bool-cases, true, false, ◌||◌,
  Option, none, some, List, [], ◌∷◌, ◌++◌, max, ltb, ◌==◌, find, if◌then◌else◌, arith,
}
use mathlib.Core.List.{append-nil, append_assoc}
use bodkin.Clock.State.{ClockState, default_clock, Header, pin_boundary, note_header_at, note_all}

-- The headers that are not of an older block than one before them.
abbrev pub accepted : ℕ → List Header → List Header
accepted last [] = []
accepted last (h ∷ hs) = if ltb h.block last then accepted last hs else h ∷ accepted h.block hs

abbrev pub newest_ts : List Header → ℕ
newest_ts [] = 0
newest_ts (h ∷ hs) = max h.header_ts (newest_ts hs)

abbrev pub first_at : ℕ → List Header → Option Header
first_at ts = find (λ h. h.header_ts == ts)

-- The boundary is the newest second that the headers show, and where there is one, the wall time and the
-- instant of the first header of that second.
pub record Pinned (seen : List Header) (s : ClockState) : Type 0 where
  pub newest : s.boundary_ts ≡ newest_ts seen
  pub first :
      (s.boundary_ts ≡ 0)
      ⊎ ((h : Header) × (first_at (newest_ts seen) seen ≡ some h)
          × (s.boundary_wall_ms ≡ h.arrival_ms)
          × (s.boundary_observed ≡ some h.observed_at))

newest_ts-append : (xs ys : List Header) → newest_ts (xs ++ ys) ≡ max (newest_ts xs) (newest_ts ys)
newest_ts-append [] ys = omega arith
newest_ts-append (x ∷ xs) ys = omega (arith, newest_ts-append xs ys)

first_at-append :
    (ts : ℕ) (xs ys : List Header)
    → first_at ts (xs ++ ys) ≡ elim (first_at ts xs) [ none ↦ first_at ts ys | some h ↦ some h ]
first_at-append ts [] ys = refl
first_at-append ts (x ∷ xs) ys = ground (arith, first_at-append ts xs ys)

first_at-newer : (ts : ℕ) (xs : List Header) → newest_ts xs < ts → first_at ts xs ≡ none
first_at-newer ts [] h = refl
first_at-newer ts (x ∷ xs) h = ground (arith, first_at-newer ts xs)

abbrev moves : Header → ClockState → Bool
moves h s = s.boundary_ts == 0 || ltb s.boundary_ts h.header_ts

moved-boundary :
    (h : Header) (s : ClockState)
    → ltb h.block s.last_block ≡ false
    → moves h s ≡ true
    → ((note_header_at h s).boundary_ts ≡ h.header_ts)
      × ((note_header_at h s).boundary_wall_ms ≡ h.arrival_ms)
      × ((note_header_at h s).boundary_observed ≡ some h.observed_at)
unfolding note_header_at pin_boundary
moved-boundary h s new m = (
  rw (note_header_at, new, m) refl,
  rw (note_header_at, new, m) refl,
  rw (note_header_at, new, m) refl,
)

kept-boundary :
    (h : Header) (s : ClockState)
    → ltb h.block s.last_block ≡ false
    → moves h s ≡ false
    → ((note_header_at h s).boundary_ts ≡ s.boundary_ts)
      × ((note_header_at h s).boundary_wall_ms ≡ s.boundary_wall_ms)
      × ((note_header_at h s).boundary_observed ≡ s.boundary_observed)
unfolding note_header_at pin_boundary
kept-boundary h s new m = (
  rw (note_header_at, new, m) refl,
  rw (note_header_at, new, m) refl,
  rw (note_header_at, new, m) refl,
)

note_header_at-block :
    (h : Header) (s : ClockState)
    → (note_header_at h s).last_block ≡ (if ltb h.block s.last_block then s.last_block else h.block)
unfolding note_header_at
note_header_at-block h s = elim (Bool-cases (ltb h.block s.last_block)) [
  | inl old ↦ rw (note_header_at, old) refl
  | inr new ↦ rw (note_header_at, new) refl
]

newest_ts-last :
    (seen : List Header) (h : Header)
    → newest_ts (seen ++ h ∷ []) ≡ max (newest_ts seen) h.header_ts
newest_ts-last seen h = omega (arith, newest_ts-append seen (h ∷ []))

moved-Pinned :
    (seen : List Header) (h : Header) (s : ClockState)
    → Pinned seen s
    → ltb h.block s.last_block ≡ false
    → moves h s ≡ true
    → Pinned (seen ++ h ∷ []) (note_header_at h s)
moved-Pinned seen h s c new m =
    let (ts, wall, observed) = moved-boundary h s new m in
    let newest : newest_ts (seen ++ h ∷ []) ≡ h.header_ts =
      ground (arith, c.newest, newest_ts-last seen h) in
    record {
      newest = ts ∙ sym newest;
      first = elim (Bool-cases (h.header_ts == 0)) [
        | inl zero ↦ inl (ground (arith, ts))
        | inr later ↦
            let newer : first_at h.header_ts seen ≡ none =
              first_at-newer h.header_ts seen (ground (arith, c.newest)) in
            inr (
              h,
              rw newest (first_at-append h.header_ts seen (h ∷ []) ∙ rw newer (ground arith)),
              wall,
              observed,
            )
      ];
    }

kept-Pinned :
    (seen : List Header) (h : Header) (s : ClockState)
    → Pinned seen s
    → ltb h.block s.last_block ≡ false
    → moves h s ≡ false
    → Pinned (seen ++ h ∷ []) (note_header_at h s)
kept-Pinned seen h s c new m =
    let (ts, wall, observed) = kept-boundary h s new m in
    let newest : newest_ts (seen ++ h ∷ []) ≡ newest_ts seen =
      ground (arith, c.newest, newest_ts-last seen h) in
    record {
      newest = ts ∙ c.newest ∙ sym newest;
      first = elim (c.first) [
        | inl zero ↦ inl (ts ∙ zero)
        | inr (first, found, at_wall, at_instant) ↦ inr (
          first,
          rw newest (first_at-append (newest_ts seen) seen (h ∷ []) ∙ rw found refl),
          wall ∙ at_wall,
          observed ∙ at_instant,
        )
      ];
    }

note_header_at-Pinned :
    (seen : List Header) (h : Header) (s : ClockState)
    → Pinned seen s
    → ltb h.block s.last_block ≡ false
    → Pinned (seen ++ h ∷ []) (note_header_at h s)
note_header_at-Pinned seen h s c new = elim (Bool-cases (moves h s)) [
  | inl m ↦ moved-Pinned seen h s c new m
  | inr m ↦ kept-Pinned seen h s c new m
]

note_all-Pinned :
    (seen hs : List Header) (s : ClockState)
    → Pinned seen s
    → Pinned (seen ++ accepted s.last_block hs) (note_all hs s)
unfolding note_all
note_all-Pinned seen [] s c = rw (append-nil seen) c
note_all-Pinned seen (h ∷ hs) s c = elim (Bool-cases (ltb h.block s.last_block)) [
  | inl old ↦ rw old (note_all-Pinned seen hs s c)
  | inr new ↦
      let block : (note_header_at h s).last_block ≡ h.block =
        note_header_at-block h s ∙ rw new refl in
      let rest =
        note_all-Pinned (seen ++ h ∷ []) hs (note_header_at h s)
          (note_header_at-Pinned seen h s c new) in
      let taken : accepted s.last_block (h ∷ hs) ≡ h ∷ accepted h.block hs = rw new refl in
      let all =
        ap (λ b. (seen ++ h ∷ []) ++ accepted b hs) block
        ∙ append_assoc seen (h ∷ []) (accepted h.block hs)
        ∙ ap (λ l. seen ++ l) (sym taken) in
      subst (λ l. Pinned l (note_all hs (note_header_at h s))) all rest
]

-- After any headers the boundary of the clock is the newest second of those that were not of an older
-- block than one before them, and its wall time and instant are those of the first such header of that
-- second: later headers of the same second and late headers of older blocks do not move it. Second 0
-- stands for no boundary.
pub note_all-pins : (hs : List Header) → Pinned (accepted 0 hs) (note_all hs default_clock)
note_all-pins hs = note_all-Pinned [] hs default_clock (record { newest = refl; first = inl refl })
