-- ===== src/TwinStore/Nats.antt =====
-- flow-core/internal/twinstore/nats.go: the state of the twins in a key-value bucket that other
-- writers share. A payload is the value that its JSON text encodes. The bucket is the server's: it
-- is an interface with the laws that the merge relies on.
pub mod Merging
use thingsflow.Base.{
  ℕ, zero, suc, List, [], ◌∷◌, ◌≡◌, Bool, true, false, not, ◌&&◌, Option, none, some, if◌then◌else◌,
}
use thingsflow.Base.Text.{Text, text_eq, trim_space, has_prefix, drop_prefix}
use thingsflow.Base.Dict.{Dict, get, put, keys}
use thingsflow.Base.Sort.{sort_by}
use thingsflow.Base.Result.{Result, ok, err}
use thingsflow.Base.Int.{ℤ, pos}
use thingsflow.Base.Json.{Json, null}
use thingsflow.TwinStore.{
  Value, State, empty_state, key, telemetry_prefix, telemetry_key, ensure_state,
}
use thingsflow.TwinStore.Memory.{
  MemoryStore, merge_telemetry_into, merge_attributes_into, get_entity_state, held_state, itself,
}

-- What a payload encodes: a whole document, a bare value of one telemetry key, or neither.
pub data Payload : Type 0 where
  document : State → Payload
  bare : Value → Payload
  garbage : Payload

unfoldable pub is_empty : {A : Type 0} → List A → Bool
is_empty [] = true
is_empty (x ∷ xs) = false

-- The test for `errNotState`.
unfoldable pub is_blank : State → Bool
unfolding is_empty text_eq
is_blank s =
    text_eq s.entity_id []
    && (is_empty s.telemetry && (is_empty s.attributes && is_empty s.activity))

-- `decodeState`; a bare value decodes into an empty document, which is refused.
unfoldable pub decode_state : Payload → Option State
unfolding is_blank ensure_state
decode_state (document s) =
    if is_blank s then none else some (ensure_state s s.tenant_id s.entity_type s.entity_id)
decode_state (bare v) = none
decode_state garbage = none

-- `decodeValue`; a document has neither of a value's fields, which stay zero.
unfoldable pub decode_value : Payload → Option Value
decode_value (document s) = some (record { ts = pos 0; value = null })
decode_value (bare v) = some v
decode_value garbage = none

-- One key of the bucket, as the server keeps it: `look` is what a get finds, with the revision, and
-- `Later` relates a bucket to what it may become.
pub record KeyValue : Type 1 where
  pub Bucket : Type 0
  pub Later : Bucket → Bucket → Type 0
  pub look : Bucket → Option (Payload × ℕ)
  pub create : Payload → Bucket → Bool × Bucket
  pub update : Payload → ℕ → Bucket → Bool × Bucket
  -- A create succeeds only where the key has no value, and gives it one.
  pub created :
      (p : Payload) (b : Bucket)
      → (create p b).0 ≡ true
      → (look b ≡ none) × ((r : ℕ) × (look (create p b).1 ≡ some (p, r)))
  -- An update succeeds only at the revision that it names, and replaces the value.
  pub updated :
      (p : Payload) (r : ℕ) (b : Bucket)
      → (update p r b).0 ≡ true
      → ((q : Payload) × (look b ≡ some (q, r)))
        × ((r' : ℕ) × (look (update p r b).1 ≡ some (p, r')))
  -- A revision belongs to one value.
  pub revision_unique :
      (b b' : Bucket) (p q : Payload) (r : ℕ)
      → Later b b'
      → look b ≡ some (p, r)
      → look b' ≡ some (q, r)
      → p ≡ q

pub data MergeError : Type 0 where
  cancelled get_failed undecodable conflict : MergeError

module _ (kv : KeyValue) where
  open kv use {Bucket, Later, look, create, update}

  -- What surrounds one attempt: whether the context is done and whether the get fails, and what the
  -- other writers do before the get and between the get and the write.
  pub record Turn : Type 0 where
    pub is_done : Bool
    pub fails : Bool
    pub before : Bucket → Bucket
    pub between : Bucket → Bucket
    pub between_later : (b : Bucket) → Later b (between b)

  -- The outcome of one attempt.
  pub data Attempt : Type 0 where
    finished : Option MergeError → Bucket → Attempt
    again : Bucket → Attempt

  -- A write that does not succeed is tried again.
  unfoldable pub settle : Bool × Bucket → Attempt
  settle (true, b) = finished none b
  settle (false, b) = again b

  -- The write behind the get.
  unfoldable pub write : (State → State) → Option (Payload × ℕ) → Bucket → Attempt
  unfolding settle decode_state
  write apply none b = settle (create (document (apply empty_state)) b)
  write apply (some (p, r)) b = elim (decode_state p) [
    | none ↦ finished (some undecodable) b
    | some current ↦ settle (update (document (apply current)) r b)
  ]

  unfoldable pub attempt : Turn → (State → State) → Bucket → Attempt
  unfolding write
  attempt t apply b =
      let seen = t.before b in
      if t.is_done
      then finished (some cancelled) b
      else if t.fails
      then finished (some get_failed) seen
      else write apply (look seen) (t.between seen)

  -- The loop, with the attempts that are left.
  unfoldable pub merge_from : ℕ → (ℕ → Turn) → (State → State) → Bucket → Option MergeError × Bucket
  unfolding attempt
  merge_from zero turns apply b = (some conflict, b)
  merge_from (suc n) turns apply b = elim (attempt (turns n) apply b) [
    | finished e b' ↦ (e, b')
    | again b' ↦ merge_from n turns apply b'
  ]

  -- `merge`
  unfoldable pub merge : (ℕ → Turn) → (State → State) → Bucket → Option MergeError × Bucket
  unfolding merge_from
  merge = merge_from 8

-- A `MemoryStore` that holds one document.
abbrev pub store_of : Text → State → MemoryStore
store_of k state = record { states = (k, state) ∷ []; watches = []; channels = []; made = 0 }

-- What `MergeTelemetry` applies to the current document.
unfoldable pub apply_telemetry : ℤ → Text → Text → Text → ℤ → Dict Json → State → State
unfolding key merge_telemetry_into get_entity_state held_state
apply_telemetry now tenant_id entity_type entity_id ts values state = held_state (
    get_entity_state tenant_id entity_type entity_id
      (merge_telemetry_into now tenant_id entity_type entity_id ts values
        (store_of (key entity_type tenant_id entity_id) state)).0)

-- What `MergeAttributes` applies to the current document.
unfoldable pub apply_attributes : ℤ → Text → Text → Text → Text → ℤ → Dict Json → State → State
unfolding key merge_attributes_into get_entity_state held_state
apply_attributes now tenant_id entity_type entity_id scope ts values state = held_state (
    get_entity_state tenant_id entity_type entity_id
      (merge_attributes_into now tenant_id entity_type entity_id scope ts values
        (store_of (key entity_type tenant_id entity_id) state)).0)
