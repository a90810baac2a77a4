-- ===== src/Flow/Identities.antt =====
-- pons/stream.rs: the hash map of identities, and what it means that the events agree with it.
use bodkin.Prelude.{
  ◌≡◌, refl, inl, inr, true, ◌||◌, Bool-cases, none, some, List, [], ◌∷◌, if◌then◌else◌, arith, All,
}
use bodkin.Flow.Keys.{EventKey, key_lt, Events, insert_event, remove_event, IsAbove, IsOrdered}
use bodkin.Flow.Ordered.{key-cases}
use bodkin.Flow.Tracker.{StoredEvent, Identity, same_identity, CurveFlow, key_of, set_key, drop_key}

abbrev pub identity_of : EventKey → Identity
identity_of key = (key.transaction_hash, key.log_index)

pub key_of-set_key :
    (id other : Identity) (key : EventKey) (m : List (Identity × EventKey))
    → key_of other (set_key id key m)
      ≡ (if same_identity id other then some key else key_of other m)
unfolding key_of set_key
key_of-set_key id other key [] = refl
key_of-set_key id other key ((i, k) ∷ m) = ground (arith, key_of-set_key id other key m)

pub key_of-drop_key :
    (id other : Identity) (m : List (Identity × EventKey))
    → key_of other (drop_key id m) ≡ (if same_identity id other then none else key_of other m)
unfolding key_of drop_key
key_of-drop_key id other [] = ground arith
key_of-drop_key id other ((i, k) ∷ m) = ground (arith, key_of-drop_key id other m)

pub key_of_same :
    (id other : Identity) (m : List (Identity × EventKey))
    → same_identity id other ≡ true
    → key_of id m ≡ key_of other m
unfolding key_of
key_of_same id other [] h = refl
key_of_same id other ((i, k) ∷ m) h = ground (arith, key_of_same id other m h)

-- Each event is the one that its log's identity leads to.
abbrev pub IsIndexed : List (Identity × EventKey) → Events StoredEvent → Type 0
IsIndexed ids = All λ e. key_of (identity_of e.0) ids ≡ some e.0

-- Each identity leads to a key with that identity.
abbrev pub IsKeyed : List (Identity × EventKey) → Type 0
IsKeyed = All λ e. same_identity e.0 (identity_of e.1) ≡ true

pub record IsConsistent (f : CurveFlow) : Type 0 where
  pub ordered : IsOrdered f.events
  pub indexed : IsIndexed f.identities f.events
  pub keyed : IsKeyed f.identities

pub set_key-IsKeyed :
    (key : EventKey) (m : List (Identity × EventKey))
    → IsKeyed m
    → IsKeyed (set_key (identity_of key) key m)
unfolding set_key
set_key-IsKeyed key [] h = (ground arith, tt)
set_key-IsKeyed key ((i, k) ∷ m) h = elim (Bool-cases (same_identity i (identity_of key))) [
  | inl hit ↦ rw hit (hit, h.1)
  | inr miss ↦ rw miss (h.0, set_key-IsKeyed key m h.1)
]

pub drop_key-IsKeyed :
    (id : Identity) (m : List (Identity × EventKey)) → IsKeyed m → IsKeyed (drop_key id m)
unfolding drop_key
drop_key-IsKeyed id [] h = tt
drop_key-IsKeyed id ((i, k) ∷ m) h = elim (Bool-cases (same_identity i id)) [
  | inl hit ↦ rw hit (drop_key-IsKeyed id m h.1)
  | inr miss ↦ rw miss (h.0, drop_key-IsKeyed id m h.1)
]

pub key_of-identity :
    (id : Identity) (key : EventKey) (m : List (Identity × EventKey))
    → IsKeyed m
    → key_of id m ≡ some key
    → same_identity (identity_of key) id ≡ true
unfolding key_of
key_of-identity id key [] h e = cc
key_of-identity id key ((i, k) ∷ m) h e = ground (arith, h.0, key_of-identity id key m h.1)

pub insert_event-IsIndexed :
    (ids : List (Identity × EventKey)) (k : EventKey) (v : StoredEvent) (m : Events StoredEvent)
    → key_of (identity_of k) ids ≡ some k
    → IsIndexed ids m
    → IsIndexed ids (insert_event k v m)
unfolding insert_event
insert_event-IsIndexed ids k v [] e x = (e, tt)
insert_event-IsIndexed ids k v ((j, w) ∷ m) e x = elim (key-cases k j) [
  | inl (l, r) ↦ rw l (e, x)
  | inr (inl (l, r)) ↦ rw (l, r) (x.0, insert_event-IsIndexed ids k v m e x.1)
  | inr (inr (l, r, same)) ↦ rw (l, r) (e, x.1)
]

abbrev pub Differs : EventKey → Events StoredEvent → Type 0
Differs k = All λ e. (key_lt k e.0 || key_lt e.0 k) ≡ true

pub IsAbove-Differs : (k : EventKey) (m : Events StoredEvent) → IsAbove k m → Differs k m
IsAbove-Differs k [] a = tt
IsAbove-Differs k (e ∷ m) a = (ground (arith, a.0), IsAbove-Differs k m a.1)

pub remove_event-Differs :
    (k : EventKey) (m : Events StoredEvent) → IsOrdered m → Differs k (remove_event k m)
unfolding remove_event
remove_event-Differs k [] o = tt
remove_event-Differs k ((j, w) ∷ m) o = elim (key-cases k j) [
  | inl (l, r) ↦ rw (l, r) (ground arith, remove_event-Differs k m o.1)
  | inr (inl (l, r)) ↦ rw (l, r) (ground arith, remove_event-Differs k m o.1)
  | inr (inr (l, r, e)) ↦ rw (l, r) (IsAbove-Differs k m (rw e o.0))
]

pub remove_event-IsIndexed :
    (ids : List (Identity × EventKey)) (k : EventKey) (m : Events StoredEvent)
    → IsIndexed ids m
    → IsIndexed ids (remove_event k m)
unfolding remove_event
remove_event-IsIndexed ids k [] x = tt
remove_event-IsIndexed ids k ((j, w) ∷ m) x = elim (Bool-cases (key_lt k j || key_lt j k)) [
  | inl other ↦ rw other (x.0, remove_event-IsIndexed ids k m x.1)
  | inr found ↦ rw found x.1
]
