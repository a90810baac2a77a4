-- ===== src/Flow/Tracker.antt =====
-- pons/stream.rs: `FlowTracker`. What a log's topics and data decode to is the ABI library's: the
-- fields of `Abi`.
use bodkin.Prelude.{
  ℕ, Bool, ◌&&◌, Option, none, some, List, [], ◌∷◌, ◌++◌, max, ltb, ◌==◌, if◌then◌else◌, any, map,
}
use bodkin.Deployer.Maps.{get, upsert}
use bodkin.Flow.Keys.{EventKey, Events}

pub record FlowSnapshot : Type 0 where
  pub taxed_buyers_s1 : ℕ
  pub exempt_buys_s0 : ℕ
  pub insider_sold : Bool
  pub ready_to_graduate : Bool
  pub buys : ℕ
  pub sells : ℕ
  pub unique_buyers : ℕ
  pub quote_in : ℕ
  pub quote_out : ℕ
  pub last_non_insider_buy_at : Option ℕ

pub data FlowEvent : Type 0 where
  buy : (recipient quote_in tokens_out fee tax timestamp transaction_hash : ℕ) → FlowEvent
  sell : (seller recipient tokens_in quote_out fee tax timestamp : ℕ) → FlowEvent
  snipe_tax : (transaction_hash recipient amount timestamp : ℕ) → FlowEvent
  completed : (timestamp : ℕ) → FlowEvent

pub record FlowRecord : Type 0 where
  pub block_number : ℕ
  pub block_hash : ℕ
  pub transaction_index : ℕ
  pub log_index : ℕ
  pub transaction_hash : ℕ
  pub event : FlowEvent

pub record StoredEvent : Type 0 where
  pub block_hash : ℕ
  pub event : FlowEvent

-- A transaction and the index of a log in its block.
abbrev pub Identity : Type 0
Identity = ℕ × ℕ

abbrev pub same_identity : Identity → Identity → Bool
same_identity a b = a.0 == b.0 && a.1 == b.1

pub record CurveFlow : Type 0 where
  pub launched_at : ℕ
  pub origin_block : ℕ
  pub next_block : ℕ
  pub anchor : Option (ℕ × ℕ)
  pub insiders : List ℕ
  pub events : Events StoredEvent
  pub identities : List (Identity × EventKey)

abbrev pub default_flow : CurveFlow
default_flow = record {
  launched_at = 0;
  origin_block = 0;
  next_block = 0;
  anchor = none;
  insiders = [];
  events = [];
  identities = [];
}

pub record FlowSync : Type 0 where
  pub origin_block : ℕ
  pub from_block : ℕ
  pub anchor : Option (ℕ × ℕ)

abbrev pub FlowTracker : Type 0
FlowTracker = List (ℕ × CurveFlow)

-- `HashMap::get`, `insert` and `remove` on the identities.
unfoldable pub key_of : Identity → List (Identity × EventKey) → Option EventKey
key_of id [] = none
key_of id ((i, k) ∷ m) = if same_identity i id then some k else key_of id m

unfoldable pub set_key :
    Identity → EventKey → List (Identity × EventKey) → List (Identity × EventKey)
set_key id key [] = (id, key) ∷ []
set_key id key ((i, k) ∷ m) =
    let rest = set_key id key m in if same_identity i id then (i, key) ∷ m else (i, k) ∷ rest

unfoldable pub drop_key : Identity → List (Identity × EventKey) → List (Identity × EventKey)
drop_key id [] = []
drop_key id ((i, k) ∷ m) =
    let rest = drop_key id m in if same_identity i id then rest else (i, k) ∷ rest

-- `HashSet::insert` and `extend`, past the zero address.
abbrev pub has : ℕ → List ℕ → Bool
has a = any (◌==◌ a)

abbrev pub add : ℕ → List ℕ → List ℕ
add a s = if has a s then s else s ++ a ∷ []

unfoldable pub add_insiders : List ℕ → List ℕ → List ℕ
add_insiders [] known = known
add_insiders (a ∷ more) known = add_insiders more (if a == 0 then known else add a known)

abbrev pub watched : ℕ → ℕ → List ℕ → CurveFlow → CurveFlow
watched launched_at origin_block insiders flow = record flow {
  launched_at = launched_at;
  origin_block = origin_block;
  next_block = if flow.next_block == 0 then origin_block else flow.next_block;
  insiders = add_insiders insiders flow.insiders;
}

unfoldable pub watch : ℕ → ℕ → ℕ → List ℕ → FlowTracker → FlowTracker
unfolding add_insiders upsert
watch curve launched_at origin_block insiders =
    upsert curve (watched launched_at origin_block insiders)
      (watched launched_at origin_block insiders default_flow)

unfoldable pub sync : ℕ → FlowTracker → Option FlowSync
sync curve t = elim (get curve t) [
  | none ↦ none
  | some flow ↦ some (record {
    origin_block = flow.origin_block;
    from_block = flow.next_block;
    anchor = flow.anchor;
  })
]

-- `retain` below a block.
unfoldable pub keep_events : ℕ → Events StoredEvent → Events StoredEvent
keep_events from [] = []
keep_events from ((k, e) ∷ m) =
    let rest = keep_events from m in if ltb k.block_number from then (k, e) ∷ rest else rest

unfoldable pub keep_identities : ℕ → List (Identity × EventKey) → List (Identity × EventKey)
keep_identities from [] = []
keep_identities from ((i, k) ∷ m) =
    let rest = keep_identities from m in if ltb k.block_number from then (i, k) ∷ rest else rest

unfoldable pub rewind_flow : ℕ → CurveFlow → CurveFlow
unfolding keep_events keep_identities
rewind_flow from flow = record flow {
  events = keep_events from flow.events;
  identities = keep_identities from flow.identities;
  next_block = max from flow.origin_block;
  anchor = none;
}

-- `get_mut`: a write to what is there.
unfoldable pub change_flow : ℕ → (CurveFlow → CurveFlow) → FlowTracker → FlowTracker
change_flow curve f [] = []
change_flow curve f ((c, flow) ∷ t) =
    let rest = change_flow curve f t in if c == curve then (c, f flow) ∷ t else (c, flow) ∷ rest

unfoldable pub rewind : ℕ → ℕ → FlowTracker → FlowTracker
unfolding change_flow rewind_flow
rewind curve from = change_flow curve (rewind_flow from)

-- `get` on the tracker, and the events in the order of their keys.
abbrev pub flow_record : EventKey × StoredEvent → FlowRecord
flow_record (key, stored) = record {
  block_number = key.block_number;
  block_hash = stored.block_hash;
  transaction_index = key.transaction_index;
  log_index = key.log_index;
  transaction_hash = key.transaction_hash;
  event = stored.event;
}

unfoldable pub records : ℕ → FlowTracker → List FlowRecord
records curve t = elim (get curve t) [ none ↦ [] | some flow ↦ map flow_record flow.events ]

-- `HashMap::remove`
unfoldable pub unwatch : ℕ → FlowTracker → FlowTracker
unwatch curve [] = []
unwatch curve ((c, flow) ∷ t) =
    let rest = unwatch curve t in if c == curve then t else (c, flow) ∷ rest
