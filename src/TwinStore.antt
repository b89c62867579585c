-- ===== src/TwinStore.antt =====
-- flow-core/internal/twinstore: the state of the digital twins. This file has the document of an
-- entity, its keys and the merges of store.go; the children have the stores and the laws.
-- A document is a value: the copies that `cloneState` makes are not told from their originals.
pub mod Keys
pub mod Lww
pub mod Documents
pub mod Memory
pub mod Nats
mod Tests
use thingsflow.Base.{
  ℕ, List, [], ◌∷◌, ◌++◌, Bool, true, false, not, ◌&&◌, Option, none, some, if◌then◌else◌,
}
use thingsflow.Base.Text.{Text, codes, text_eq, trim_space, to_upper, split_n}
use thingsflow.Base.Dict.{Dict, get, put}
use thingsflow.Base.Int.{ℤ, pos, lt_int, is_zero}
use thingsflow.Base.Json.{Json}

-- `Value`
pub record Value : Type 0 where
  pub ts : ℤ
  pub value : Json

-- `State`
pub record State : Type 0 where
  pub schema : Text
  pub tenant_id : Text
  pub entity_type : Text
  pub entity_id : Text
  pub updated_ts : ℤ
  pub telemetry : Dict Value
  pub attributes : Dict (Dict Value)
  pub activity : Dict Json

-- `State{}`
abbrev pub empty_state : State
empty_state = record {
  schema = [];
  tenant_id = [];
  entity_type = [];
  entity_id = [];
  updated_ts = pos 0;
  telemetry = [];
  attributes = [];
  activity = [];
}

-- `Schema`
abbrev pub state_schema : Text
state_schema = codes "thingsflow.twin-state.v1"

unfoldable pub normalize_entity_type : Text → Text
unfolding to_upper trim_space text_eq
normalize_entity_type entity_type =
    let trimmed = trim_space (to_upper entity_type) in
    if text_eq trimmed [] then codes "DEVICE" else trimmed

abbrev pub dot : ℕ
dot = 46

-- The arguments stand in the order of `Key(entityType, tenantID, entityID)`.
unfoldable pub key : Text → Text → Text → Text
unfolding normalize_entity_type
key entity_type tenant_id entity_id =
    normalize_entity_type entity_type ++ (dot ∷ (tenant_id ++ (dot ∷ entity_id)))

-- `TelemetryKey`, with `TelemetryPrefix` in it.
unfoldable pub telemetry_prefix : Text → Text → Text → Text
unfolding key
telemetry_prefix entity_type tenant_id entity_id =
    key entity_type tenant_id entity_id ++ (dot ∷ (codes "telemetry" ++ (dot ∷ [])))

unfoldable pub telemetry_key : Text → Text → Text → Text → Text
unfolding telemetry_prefix trim_space
telemetry_key entity_type tenant_id entity_id name =
    telemetry_prefix entity_type tenant_id entity_id ++ trim_space name

-- What `ParseTelemetryKey` returns: the entity's type, its tenant, the entity and the name.
pub record ParsedKey : Type 0 where
  pub entity_type : Text
  pub tenant_id : Text
  pub entity_id : Text
  pub name : Text

unfoldable pub parse_parts : List Text → Option ParsedKey
unfolding normalize_entity_type text_eq
parse_parts (a ∷ b ∷ c ∷ d ∷ e ∷ []) =
    if text_eq d (codes "telemetry") && not (text_eq e [])
    then some
        (record { entity_type = normalize_entity_type a; tenant_id = b; entity_id = c; name = e })
    else none
parse_parts _ = none

unfoldable pub parse_telemetry_key : Text → Option ParsedKey
unfolding parse_parts split_n trim_space
parse_telemetry_key text = parse_parts (split_n 4 dot (trim_space text))

unfoldable pub ensure_state : State → Text → Text → Text → State
unfolding normalize_entity_type text_eq
ensure_state state tenant_id entity_type entity_id = record state {
  schema = if text_eq state.schema [] then state_schema else state.schema;
  tenant_id = tenant_id;
  entity_type = normalize_entity_type entity_type;
  entity_id = entity_id;
}

-- `existing, exists := m[key]; exists && existing.TS > ts`
unfoldable pub is_stale : ℤ → Option Value → Bool
unfolding lt_int
is_stale ts none = false
is_stale ts (some existing) = lt_int ts existing.ts

-- The loop over the written values, on the values held and the time of the last update.
unfoldable pub merge_values : ℤ → Dict Json → Dict Value → ℤ → Dict Value × ℤ
unfolding is_stale
merge_values ts [] held updated = (held, updated)
merge_values ts ((k, v) ∷ rest) held updated =
    let stale = is_stale ts (get held k) in
    merge_values ts rest (if stale then held else put held k (record { ts = ts; value = v }))
      (if stale then updated else if lt_int updated ts then ts else updated)

-- `if ts == 0 { ts = time.Now().UnixMilli() }`
unfoldable pub effective_ts : ℤ → ℤ → ℤ
effective_ts now ts = if is_zero ts then now else ts

-- `MergeTelemetry` on the document, behind `ensureState`.
unfoldable pub merge_telemetry : ℤ → Dict Json → State → State
merge_telemetry ts values state =
    let (telemetry, updated) = merge_values ts values state.telemetry state.updated_ts in
    record state { telemetry = telemetry; updated_ts = updated }

unfoldable pub normalize_scope : Text → Text
unfolding to_upper trim_space text_eq
normalize_scope scope =
    let trimmed = to_upper (trim_space scope) in
    if text_eq trimmed [] then codes "SERVER_SCOPE" else trimmed

-- The values of a scope; a missing scope is made empty.
unfoldable pub scope_values : Option (Dict Value) → Dict Value
scope_values none = []
scope_values (some values) = values

-- `MergeAttributes` on the document, behind `ensureState` and the normalization of the scope.
unfoldable pub merge_attributes : Text → ℤ → Dict Json → State → State
unfolding scope_values
merge_attributes scope ts values state =
    let (held, updated) =
      merge_values ts values (scope_values (get state.attributes scope)) state.updated_ts in
    record state { attributes = put state.attributes scope held; updated_ts = updated }
