-- ===== src/TwinStore/Memory.antt =====
-- `MemoryStore` of flow-core/internal/twinstore/store.go. The lock makes the first part of a merge
-- one step; the notification of the watches comes after the lock is released, on the list of
-- watches as the merge found it. A channel is its buffer; a send on a closed channel panics.
pub mod Watches
pub mod Merged
pub mod Valid
use thingsflow.Base.{
  ℕ, suc, List, [], ◌∷◌, ◌++◌, Bool, true, false, ◌&&◌, ◌||◌, Option, none, some, ltb, ◌==◌,
  if◌then◌else◌, length,
}
use thingsflow.Base.Text.{Text, text_eq, trim_space, has_prefix}
use thingsflow.Base.Dict.{Dict, get, put, keys}
use thingsflow.Base.Sort.{sort_by}
use thingsflow.Base.Int.{ℤ}
use thingsflow.Base.Json.{Json}
use thingsflow.TwinStore.{
  Value, State, empty_state, key, ensure_state, effective_ts, merge_telemetry, merge_attributes,
  normalize_scope,
}

-- `Change`
pub record Change : Type 0 where
  pub old : State
  pub new : State

-- The buffered channel of a watch.
pub record Channel : Type 0 where
  pub id : ℕ
  pub queue : List Change
  pub closed : Bool

-- `memoryWatch`; the channel by its number.
pub record MemoryWatch : Type 0 where
  pub prefix : Text
  pub channel : ℕ

-- `MemoryStore`, with the channels that it has made and how many.
pub record MemoryStore : Type 0 where
  pub states : Dict State
  pub watches : List MemoryWatch
  pub channels : List Channel
  pub made : ℕ

-- `make(chan Change, 32)`
abbrev pub buffer_size : ℕ
buffer_size = 32

-- `select { case ch <- change: default: }`
unfoldable pub offer : Change → List Change → List Change
offer change queue = if ltb (length queue) buffer_size then queue ++ change ∷ [] else queue

unfoldable pub send : ℕ → Change → List Channel → Option (List Channel)
unfolding offer
send id change [] = some []
send id change (c ∷ cs) =
    let rest = send id change cs in
    if c.id == id
    then if c.closed then none else some (record c { queue = offer change c.queue } ∷ cs)
    else elim rest [ none ↦ none | some cs' ↦ some (c ∷ cs') ]

-- The test of `notify` on a watch.
unfoldable pub is_watched : Text → MemoryWatch → Bool
unfolding text_eq has_prefix
is_watched k w = text_eq w.prefix [] || has_prefix k w.prefix

unfoldable pub send_if : Bool → ℕ → Change → List Channel → Option (List Channel)
unfolding send
send_if wanted id change cs = if wanted then send id change cs else some cs

-- `notify`; nothing where a send panics.
unfoldable pub notify : Text → List MemoryWatch → Change → List Channel → Option (List Channel)
unfolding send_if is_watched
notify k [] change cs = some cs
notify k (w ∷ ws) change cs = elim (send_if (is_watched k w) w.channel change cs) [
  | none ↦ none
  | some cs' ↦ notify k ws change cs'
]

-- What a merge hands over when it releases the lock.
pub record Notification : Type 0 where
  pub key : Text
  pub watches : List MemoryWatch
  pub change : Change

-- `s.states[k]`, the zero value for a missing key.
unfoldable pub held_state : Option State → State
held_state none = empty_state
held_state (some state) = state

-- A merge under the lock, with `f` the loop over the values.
unfoldable pub merge_locked :
    (State → State) → Text → Text → Text → MemoryStore → MemoryStore × Notification
unfolding held_state key ensure_state get put
merge_locked f tenant_id entity_type entity_id s =
    let k = key entity_type tenant_id entity_id in
    let old = held_state (get s.states k) in
    let next = f (ensure_state old tenant_id entity_type entity_id) in
    (
      record s { states = put s.states k next },
      record { key = k; watches = s.watches; change = record { old = old; new = next } },
    )

-- The notification, as a step of its own.
unfoldable pub deliver : Notification → MemoryStore → Option MemoryStore
unfolding notify
deliver n s = elim (notify n.key n.watches n.change s.channels) [
  | none ↦ none
  | some cs ↦ some (record s { channels = cs })
]

-- `MergeTelemetry`, up to the notification.
unfoldable pub merge_telemetry_into :
    ℤ → Text → Text → Text → ℤ → Dict Json → MemoryStore → MemoryStore × Notification
unfolding merge_locked effective_ts merge_telemetry
merge_telemetry_into now tenant_id entity_type entity_id ts values =
    merge_locked (merge_telemetry (effective_ts now ts) values) tenant_id entity_type entity_id

-- `MergeAttributes`, up to the notification.
unfoldable pub merge_attributes_into :
    ℤ → Text → Text → Text → Text → ℤ → Dict Json → MemoryStore → MemoryStore × Notification
unfolding merge_locked effective_ts merge_attributes normalize_scope
merge_attributes_into now tenant_id entity_type entity_id scope ts values =
    merge_locked (merge_attributes (normalize_scope scope) (effective_ts now ts) values) tenant_id
      entity_type entity_id

-- `GetEntityState`; nothing for `ErrNotFound`.
unfoldable pub get_entity_state : Text → Text → Text → MemoryStore → Option State
unfolding get key
get_entity_state tenant_id entity_type entity_id s =
    get s.states (key entity_type tenant_id entity_id)

abbrev pub itself : Text → Text
itself s = s

-- `GetTelemetryKeys`
unfoldable pub get_telemetry_keys : Text → Text → Text → MemoryStore → Option (List Text)
unfolding get_entity_state keys sort_by
get_telemetry_keys tenant_id entity_type entity_id s =
    elim (get_entity_state tenant_id entity_type entity_id s) [
      | none ↦ none
      | some state ↦ some (sort_by itself (keys state.telemetry))
    ]

-- The loop over the requested keys.
unfoldable pub pick : Dict Value → List Text → Dict Value → Dict Value
unfolding get put trim_space
pick held [] result = result
pick held (k ∷ ks) result =
    pick held ks
      (elim (get held (trim_space k)) [ none ↦ result | some v ↦ put result (trim_space k) v ])

unfoldable pub latest_of : Dict Value → List Text → Dict Value
unfolding pick
latest_of held [] = held
latest_of held (k ∷ ks) = pick held (k ∷ ks) []

-- `GetLatestTelemetry`
unfoldable pub get_latest_telemetry :
    Text → Text → Text → List Text → MemoryStore → Option (Dict Value)
unfolding get_entity_state latest_of
get_latest_telemetry tenant_id entity_type entity_id names s =
    elim (get_entity_state tenant_id entity_type entity_id s) [
      | none ↦ none
      | some state ↦ some (latest_of state.telemetry names)
    ]

-- `Watch`
unfoldable pub watch : Text → MemoryStore → MemoryStore
watch prefix s = record s {
  watches = s.watches ++ record { prefix = prefix; channel = s.made } ∷ [];
  channels = record { id = s.made; queue = []; closed = false } ∷ s.channels;
  made = suc s.made;
}

-- The first watch of the channel leaves the list.
unfoldable pub unlisted : ℕ → List MemoryWatch → List MemoryWatch
unlisted id [] = []
unlisted id (w ∷ ws) = let rest = unlisted id ws in if w.channel == id then ws else w ∷ rest

-- `close(ch)`
unfoldable pub close : ℕ → List Channel → List Channel
close id [] = []
close id (c ∷ cs) = (if c.id == id then record c { closed = true } else c) ∷ close id cs

-- What the goroutine of `Watch` does when the context is done.
unfoldable pub cancel : ℕ → MemoryStore → MemoryStore
unfolding unlisted close
cancel id s = record s { watches = unlisted id s.watches; channels = close id s.channels }
