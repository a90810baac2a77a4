-- ===== src/Replay/Reserves.antt =====
-- replay.rs: what a replayed flow keeps of the reserves.
use bodkin.Prelude.{
  ◌>>=◌, ℕ, ◌+◌, ◌≡◌, refl, Bool, true, false, Option, none, some, List, [], ◌∷◌, arith,
  if◌then◌else◌, ◌≤◌, ◌++◌, ap, All, not, ltb, leb, u64_mod,
}
use bodkin.Curve.Quote.{CurveState}
use bodkin.Flow.Tracker.{FlowEvent, buy, sell, snipe_tax, completed, FlowRecord}
use bodkin.Replay.Launches.{
  ReplayLaunch, apply_record, apply_records, state_at, state_before, sort_records, select,
  is_between, add_seconds, event_timestamp,
}

-- The virtual part of each reserve is the same.
abbrev pub SameVirtual : CurveState → CurveState → Type 0
SameVirtual s t =
    (t.quote_reserve + s.real_quote_reserve ≡ s.quote_reserve + t.real_quote_reserve)
    × (t.token_reserve + s.sellable_tokens ≡ s.token_reserve + t.sellable_tokens)

apply_record-SameVirtual :
    (e : FlowEvent) (s t : CurveState) → apply_record e s ≡ some t → SameVirtual s t
unfolding apply_record
apply_record-SameVirtual (buy recipient quote_in tokens_out fee tax timestamp hash) s t done =
    (ground arith, ground arith)
apply_record-SameVirtual (sell seller recipient tokens_in quote_out fee tax timestamp) s t done =
    (ground arith, ground arith)
apply_record-SameVirtual (completed timestamp) s t done = (ground arith, ground arith)
apply_record-SameVirtual (snipe_tax hash recipient amount timestamp) s t done =
    (ground arith, ground arith)

bind-some :
    {A B : Type 0} (o : Option A) (f : A → Option B) (b : B)
    → (o >>= f) ≡ some b
    → (a : A) × ((o ≡ some a) × (f a ≡ some b))
bind-some (some a) f b found = (a, (refl, found))
bind-some none f b found = absurd (cc)

apply_records-SameVirtual :
    (rs : List FlowRecord) (s t : CurveState) → apply_records rs s ≡ some t → SameVirtual s t
unfolding apply_records
apply_records-SameVirtual [] s t found = (ground arith, ground arith)
apply_records-SameVirtual (r ∷ rs) s t found =
    let (u, (first, rest)) = bind-some (apply_record r.event s) (apply_records rs) t found in
    let (quote, token) = apply_record-SameVirtual r.event s u first in
    let (quote_rest, token_rest) = apply_records-SameVirtual rs u t rest in
    (omega arith, omega arith)

state_at-SameVirtual :
    (flow : List FlowRecord) (target : ℕ) (s t : CurveState)
    → state_at flow target s ≡ some t
    → SameVirtual s t
unfolding state_at
state_at-SameVirtual flow target s t found =
    apply_records-SameVirtual (sort_records (select (is_between s target) flow)) s t (ground arith)

unless-some :
    {A : Type 0} (c : Bool) (o : Option A) (a : A) → (if c then none else o) ≡ some a → o ≡ some a
unless-some true o a found = absurd (cc)
unless-some false o a found = found

-- However a replay moves a curve to the entry second, the part of each reserve that is not real stays as it
-- was read.
pub state_before-SameVirtual :
    (l : ReplayLaunch) (entry_second : ℕ) (t : CurveState)
    → state_before l entry_second ≡ some t
    → (s : CurveState) × ((l.curve_state ≡ some s) × SameVirtual s t)
unfolding state_before
state_before-SameVirtual l entry_second t found =
    let (s, (read, moved)) =
      bind-some l.curve_state
        (λ s. add_seconds l.launched_at entry_second >>= λ target. state_at l.flow target s) t
        (unless-some (not l.provenance_complete) _ t found) in
    let (target, (there, at)) =
      bind-some (add_seconds l.launched_at entry_second) (λ target. state_at l.flow target s) t
        moved in
    (s, (read, state_at-SameVirtual l.flow target s t at))

select-late :
    (s : CurveState) (target : ℕ) (flow later : List FlowRecord)
    → All (λ r. target ≤ event_timestamp r.event) later
    → select (is_between s target) (flow ++ later) ≡ select (is_between s target) flow
select-late s target [] [] late = refl
select-late s target [] (r ∷ later) (now, late) = ground (arith, select-late s target [] later late)
select-late s target (r ∷ flow) later late = ground (arith, select-late s target flow later late)

bind_cong :
    {A B : Type 0} (o : Option A) (f g : A → Option B)
    → ((a : A) → f a ≡ g a)
    → (o >>= f) ≡ (o >>= g)
bind_cong none f g same = refl
bind_cong (some a) f g same = same a

guarded_cong :
    {A B : Type 0} (c : Bool) (a : A) (f g : A → Option B)
    → f a ≡ g a
    → ((if c then some a else none) >>= f) ≡ ((if c then some a else none) >>= g)
guarded_cong true a f g same = same
guarded_cong false a f g same = refl

-- What happens at the entry second or later does not change the state that a replay buys at.
pub state_before-late :
    (l : ReplayLaunch) (entry_second : ℕ) (later : List FlowRecord)
    → All (λ r. l.launched_at + entry_second ≤ event_timestamp r.event) later
    → state_before (record l { flow = l.flow ++ later }) entry_second ≡ state_before l entry_second
unfolding state_before state_at
state_before-late l entry_second later late =
    ap (λ (o : Option CurveState). if not l.provenance_complete then none else o)
      (bind_cong l.curve_state _ _ (λ s.
        guarded_cong (ltb (l.launched_at + entry_second) u64_mod) (l.launched_at + entry_second) _ _
          (ap
            (λ rs.
              if leb (l.launched_at + entry_second) s.read_chain_ts
              then none
              else apply_records (sort_records rs) s)
            (select-late s (l.launched_at + entry_second) l.flow later late))))
