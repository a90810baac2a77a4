-- ===== src/Flow/Held.antt =====
-- The events of a flow in pons/stream.rs as a map from identities.
use bodkin.Prelude.{
  ◌≡◌, refl, ap, sym, ◌∙◌, ◌⊎◌, inl, inr, true, false, Bool-cases, Option, Option-cases, none, some,
  List, [], ◌∷◌, if◌then◌else◌, arith,
}
use bodkin.Flow.Keys.{
  EventKey, key_lt, key_lt_asym, Events, insert_event, remove_event, IsAbove, IsOrdered,
}
use bodkin.Flow.Ordered.{key-cases}
use bodkin.Flow.Tracker.{StoredEvent, Identity, same_identity, CurveFlow, key_of}
use bodkin.Flow.Identities.{identity_of, IsConsistent, IsIndexed, key_of-identity, IsAbove-Differs}
use bodkin.Flow.Ingest.{store_event, unstore_event}
use bodkin.Flow.Consistent.{
  without, Lacks, without-Lacks, indexed-Differs-Lacks, store_event-events, unstore_event-events,
}

unfoldable pub held : Identity → Events StoredEvent → Option (EventKey × StoredEvent)
held id [] = none
held id (e ∷ m) = if same_identity (identity_of e.0) id then some e else held id m

held-Lacks :
    (id other : Identity) (m : Events StoredEvent)
    → Lacks id m
    → same_identity id other ≡ true
    → held other m ≡ none
unfolding held
held-Lacks id other [] l s = refl
held-Lacks id other (e ∷ m) l s = ground (arith, l.0, held-Lacks id other m l.1 s)

held-insert_event :
    (other : Identity) (k : EventKey) (v : StoredEvent) (m : Events StoredEvent)
    → Lacks (identity_of k) m
    → held other (insert_event k v m)
      ≡ (if same_identity (identity_of k) other then some (k, v) else held other m)
unfolding held insert_event
held-insert_event other k v [] l = refl
held-insert_event other k v ((j, w) ∷ m) l = elim (key-cases k j) [
  | inl (p, r) ↦ rw p refl
  | inr (inl (p, r)) ↦ rw (p, r) (ground (arith, l.0, held-insert_event other k v m l.1))
  | inr (inr (p, r, same)) ↦ rw (p, r) (ground (arith, l.0, ap identity_of same))
]

held-remove_event :
    (other : Identity) (k : EventKey) (m : Events StoredEvent)
    → same_identity (identity_of k) other ≡ false
    → held other (remove_event k m) ≡ held other m
unfolding held remove_event
held-remove_event other k [] s = refl
held-remove_event other k ((j, w) ∷ m) s = elim (key-cases k j) [
  | inl (p, r) ↦ rw p (ground (arith, held-remove_event other k m s))
  | inr (inl (p, r)) ↦ rw (p, r) (ground (arith, held-remove_event other k m s))
  | inr (inr (p, r, same)) ↦ rw (p, r) (ground (arith, ap identity_of same))
]

held-without :
    (id other : Identity) (f : CurveFlow)
    → IsConsistent f
    → held other (without (key_of id f.identities) f.events)
      ≡ (if same_identity id other then none else held other f.events)
held-without id other f c = elim (Bool-cases (same_identity id other)) [
  | inl same ↦
      rw same (
        held-Lacks id other (without (key_of id f.identities) f.events) (without-Lacks id f c) same)
  | inr apart ↦ rw apart (elim (Option-cases (key_of id f.identities)) [
    | inl fresh ↦ rw fresh refl
    | inr (p, known) ↦
        let here : same_identity (identity_of p) id ≡ true =
          key_of-identity id p f.identities c.keyed known in
        rw known (held-remove_event other p f.events (ground arith))
  ])
]

pub held-store_event :
    (other : Identity) (key : EventKey) (stored : StoredEvent) (f : CurveFlow)
    → IsConsistent f
    → held other (store_event key stored f).events
      ≡ (if same_identity (identity_of key) other then some (key, stored) else held other f.events)
held-store_event other key stored f c =
    let rest = without (key_of (identity_of key) f.identities) f.events in
    let before = held-without (identity_of key) other f c in
    let after = held-insert_event other key stored rest (without-Lacks (identity_of key) f c) in
    rw (store_event-events key stored f) (ground (arith, before, after))

pub held-unstore_event :
    (id other : Identity) (f : CurveFlow)
    → IsConsistent f
    → held other (unstore_event id f).events
      ≡ (if same_identity id other then none else held other f.events)
held-unstore_event id other f c = rw (unstore_event-events id f) (held-without id other f c)

-- No two events under one identity.
abbrev pub IsDistinct : Events StoredEvent → Type 0
IsDistinct [] = Unit
IsDistinct (e ∷ m) = Lacks (identity_of e.0) m × IsDistinct m

indexed-IsDistinct :
    (ids : List (Identity × EventKey)) (m : Events StoredEvent)
    → IsIndexed ids m
    → IsOrdered m
    → IsDistinct m
indexed-IsDistinct ids [] x o = tt
indexed-IsDistinct ids ((k, v) ∷ m) x o = (
  indexed-Differs-Lacks (identity_of k) k ids m x.1 x.0 (IsAbove-Differs k m o.0),
  indexed-IsDistinct ids m x.1 o.1,
)

held-IsAbove :
    (id : Identity) (a : EventKey) (e : EventKey × StoredEvent) (m : Events StoredEvent)
    → IsAbove a m
    → held id m ≡ some e
    → key_lt a e.0 ≡ true
unfolding held
held-IsAbove id a e [] l h = cc
held-IsAbove id a e (d ∷ m) l h = elim (Bool-cases (same_identity (identity_of d.0) id)) [
  | inl here ↦ let same : d ≡ e = cc (rw here at h) in rw (sym same) l.0
  | inr there ↦ held-IsAbove id a e m l.1 (rw there at h)
]

-- The head of one list is the other's, or stands in its tail.
head_place :
    (e d : EventKey × StoredEvent) (m : Events StoredEvent)
    → IsAbove d.0 m
    → held (identity_of e.0) (d ∷ m) ≡ some e
    → (d ≡ e) ⊎ (key_lt d.0 e.0 ≡ true)
unfolding held
head_place e d m l h = elim (Bool-cases (same_identity (identity_of d.0) (identity_of e.0))) [
  | inl here ↦ inl (cc (rw here at h))
  | inr there ↦ inr (held-IsAbove (identity_of e.0) d.0 e m l (rw there at h))
]

held_head :
    (e : EventKey × StoredEvent) (m : Events StoredEvent) → held (identity_of e.0) (e ∷ m) ≡ some e
unfolding held
held_head e m = ground arith

held_tail :
    (id : Identity) (e : EventKey × StoredEvent) (m n : Events StoredEvent)
    → Lacks (identity_of e.0) m
    → Lacks (identity_of e.0) n
    → held id (e ∷ m) ≡ held id (e ∷ n)
    → held id m ≡ held id n
unfolding held
held_tail id e m n l r h = elim (Bool-cases (same_identity (identity_of e.0) id)) [
  | inl here ↦
      held-Lacks (identity_of e.0) id m l here ∙ sym (held-Lacks (identity_of e.0) id n r here)
  | inr there ↦ rw there at h
]

same_head :
    (e d : EventKey × StoredEvent) (m n : Events StoredEvent)
    → IsAbove e.0 m
    → IsAbove d.0 n
    → ((id : Identity) → held id (e ∷ m) ≡ held id (d ∷ n))
    → d ≡ e
same_head e d m n l r h = elim (head_place e d n r (sym (h (identity_of e.0)) ∙ held_head e m)) [
  | inl same ↦ same
  | inr below ↦ elim (head_place d e m l (h (identity_of d.0) ∙ held_head d n)) [
    | inl same ↦ sym same
    | inr above ↦ cc (key_lt_asym e.0 d.0 above, below)
  ]
]

held-none : (id : Identity) → held id [] ≡ none
unfolding held
held-none id = refl

held_ext :
    (m n : Events StoredEvent)
    → IsOrdered m
    → IsDistinct m
    → IsOrdered n
    → IsDistinct n
    → ((id : Identity) → held id m ≡ held id n)
    → m ≡ n
held_ext [] [] o x p y h = refl
held_ext [] (d ∷ n) o x p y h = cc (held-none (identity_of d.0), h (identity_of d.0), held_head d n)
held_ext (e ∷ m) [] o x p y h = cc (held-none (identity_of e.0), h (identity_of e.0), held_head e m)
held_ext (e ∷ m) (d ∷ n) o x p y h =
    let same = same_head e d m n o.0 p.0 h in
    let tails =
      held_ext m n o.1 x.1 p.1 y.1
        (λ id. held_tail id e m n x.0 (rw same at y.0) (rw same at (h id))) in
    rw (same, tails) refl

pub held-events :
    (f g : CurveFlow)
    → IsConsistent f
    → IsConsistent g
    → ((id : Identity) → held id f.events ≡ held id g.events)
    → f.events ≡ g.events
held-events f g c d =
    held_ext f.events g.events c.ordered
      (indexed-IsDistinct f.identities f.events c.indexed c.ordered) d.ordered
      (indexed-IsDistinct g.identities g.events d.indexed d.ordered)
