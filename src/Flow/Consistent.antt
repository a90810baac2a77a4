-- ===== src/Flow/Consistent.antt =====
-- The events of a flow and its hash map of identities in pons/stream.rs, after a log.
use bodkin.Prelude.{
  ◌≡◌, refl, ◌∙◌, inl, inr, true, false, ◌||◌, Bool-cases, Option, Option-cases, none, some, List,
  [], ◌∷◌, arith, All,
}
use bodkin.Flow.Keys.{
  EventKey, key_lt, key_lt_irrefl, Events, insert_event, remove_event, IsOrdered,
}
use bodkin.Flow.Ordered.{insert_event-IsOrdered, remove_event-IsOrdered}
use bodkin.Flow.Tracker.{StoredEvent, Identity, same_identity, CurveFlow, key_of, set_key, drop_key}
use bodkin.Flow.Identities.{
  identity_of, key_of-set_key, key_of-drop_key, key_of_same, IsIndexed, IsConsistent,
  set_key-IsKeyed, drop_key-IsKeyed, insert_event-IsIndexed, Differs, remove_event-Differs,
  remove_event-IsIndexed,
}
use bodkin.Flow.Ingest.{store_event, unstore_event}

-- The events that are left when the one under an identity goes.
abbrev pub without : Option EventKey → Events StoredEvent → Events StoredEvent
without none m = m
without (some k) m = remove_event k m

-- Under no other event's identity.
abbrev pub Lacks : Identity → Events StoredEvent → Type 0
Lacks id = All λ e. same_identity (identity_of e.0) id ≡ false

indexed-Lacks :
    (id : Identity) (ids : List (Identity × EventKey)) (m : Events StoredEvent)
    → IsIndexed ids m
    → key_of id ids ≡ none
    → Lacks id m
indexed-Lacks id ids [] x e = tt
indexed-Lacks id ids ((j, w) ∷ m) x e = (
  elim (Bool-cases (same_identity (identity_of j) id)) [
    | inl same ↦ cc (x.0, e, key_of_same (identity_of j) id ids same)
    | inr apart ↦ apart
  ],
  indexed-Lacks id ids m x.1 e,
)

pub indexed-Differs-Lacks :
    (id : Identity) (p : EventKey) (ids : List (Identity × EventKey)) (m : Events StoredEvent)
    → IsIndexed ids m
    → key_of id ids ≡ some p
    → Differs p m
    → Lacks id m
indexed-Differs-Lacks id p ids [] x e d = tt
indexed-Differs-Lacks id p ids ((j, w) ∷ m) x e d = (
  elim (Bool-cases (same_identity (identity_of j) id)) [
    | inl same ↦ absurd_key (some-inj (cc (x.0, e, key_of_same (identity_of j) id ids same))) d.0
    | inr apart ↦ apart
  ],
  indexed-Differs-Lacks id p ids m x.1 e d.1,
)
  where
    some-inj : {a b : EventKey} → ◌≡◌ {A = Option EventKey} (some a) (some b) → a ≡ b
    some-inj h = cc

    absurd_key : p ≡ j → key_lt p j || key_lt j p ≡ true → same_identity (identity_of j) id ≡ false
    absurd_key same differ = ground (arith, key_lt_irrefl p, key_lt_irrefl j)

pub without-Lacks :
    (id : Identity) (f : CurveFlow)
    → IsConsistent f
    → Lacks id (without (key_of id f.identities) f.events)
without-Lacks id f c = elim (Option-cases (key_of id f.identities)) [
  | inl fresh ↦ rw fresh (indexed-Lacks id f.identities f.events c.indexed fresh)
  | inr (p, known) ↦ rw known (
      indexed-Differs-Lacks id p f.identities (remove_event p f.events)
        (remove_event-IsIndexed f.identities p f.events c.indexed) known
        (remove_event-Differs p f.events c.ordered))
]

pub without-IsOrdered :
    (k : Option EventKey) (m : Events StoredEvent) → IsOrdered m → IsOrdered (without k m)
without-IsOrdered none m o = o
without-IsOrdered (some k) m o = remove_event-IsOrdered k m o

without-IsIndexed :
    (ids : List (Identity × EventKey)) (k : Option EventKey) (m : Events StoredEvent)
    → IsIndexed ids m
    → IsIndexed ids (without k m)
without-IsIndexed ids none m x = x
without-IsIndexed ids (some k) m x = remove_event-IsIndexed ids k m x

-- A change of the identities under `id` does not concern events that lack it.
changed-IsIndexed :
    (id : Identity) (ids ids' : List (Identity × EventKey)) (m : Events StoredEvent)
    → ((other : Identity) → same_identity id other ≡ false → key_of other ids' ≡ key_of other ids)
    → Lacks id m
    → IsIndexed ids m
    → IsIndexed ids' m
changed-IsIndexed id ids ids' [] h l x = tt
changed-IsIndexed id ids ids' ((j, w) ∷ m) h l x =
    (h (identity_of j) (ground (arith, l.0)) ∙ x.0, changed-IsIndexed id ids ids' m h l.1 x.1)

pub store_event-events :
    (key : EventKey) (stored : StoredEvent) (f : CurveFlow)
    → (store_event key stored f).events
      ≡ insert_event key stored (without (key_of (identity_of key) f.identities) f.events)
unfolding store_event
store_event-events key stored f = ground arith

pub store_event-IsConsistent :
    (key : EventKey) (stored : StoredEvent) (f : CurveFlow)
    → IsConsistent f
    → IsConsistent (store_event key stored f)
store_event-IsConsistent key stored f c =
    let id = identity_of key in
    let rest = without (key_of id f.identities) f.events in
    let ids = set_key id key f.identities in
    let ids_eq : (store_event key stored f).identities ≡ ids = unfold store_event in refl in
    let found : key_of id ids ≡ some key = ground (arith, key_of-set_key id id key f.identities) in
    let kept =
      changed-IsIndexed id f.identities ids rest
        (λ other e. ground (arith, key_of-set_key id other key f.identities)) (without-Lacks id f c)
        (without-IsIndexed f.identities (key_of id f.identities) f.events c.indexed) in
    record {
      ordered = rw (store_event-events key stored f) (
          insert_event-IsOrdered key stored rest
            (without-IsOrdered (key_of id f.identities) f.events c.ordered));
      indexed =
          rw (store_event-events key stored f, ids_eq)
            (insert_event-IsIndexed ids key stored rest found kept);
      keyed = rw ids_eq (set_key-IsKeyed key f.identities c.keyed);
    }

pub unstore_event-events :
    (id : Identity) (f : CurveFlow)
    → (unstore_event id f).events ≡ without (key_of id f.identities) f.events
unfolding unstore_event
unstore_event-events id f = ground arith

pub unstore_event-IsConsistent :
    (id : Identity) (f : CurveFlow) → IsConsistent f → IsConsistent (unstore_event id f)
unfolding unstore_event
unstore_event-IsConsistent id f c = elim (Option-cases (key_of id f.identities)) [
  | inl fresh ↦ let same : unstore_event id f ≡ f = ground arith in rw same c
  | inr (p, known) ↦
      let ids = drop_key id f.identities in
      let rest = remove_event p f.events in
      let g : CurveFlow = record f { identities = ids; events = rest } in
      let same : unstore_event id f ≡ g = ground arith in
      let g_consistent : IsConsistent g = record {
        ordered = remove_event-IsOrdered p f.events c.ordered;
        indexed =
            changed-IsIndexed id f.identities ids rest
              (λ other e. ground (arith, key_of-drop_key id other f.identities))
              (rw known at (without-Lacks id f c))
              (remove_event-IsIndexed f.identities p f.events c.indexed);
        keyed = drop_key-IsKeyed id f.identities c.keyed;
      } in
      rw same g_consistent
]
