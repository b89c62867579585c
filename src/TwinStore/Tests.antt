-- ===== src/TwinStore/Tests.antt =====
-- Runs and instances of the theorems on the state of the twins.
use thingsflow.Base.{
  ℕ, suc, ◌≡◌, ◌≢◌, refl, [], ◌∷◌, Bool, true, false, Option, none, some, arith, inl, inr, ◌==◌,
  if◌then◌else◌, NoDup, Bool-cases, ==_iff, ap,
}
use thingsflow.Base.Text.{Text, codes, text_eq}
use thingsflow.Base.Dict.{Dict, get, put, keys}
use thingsflow.Base.Int.{pos, lt_int}
use thingsflow.Base.Json.{Json, bool}
use thingsflow.TwinStore.{
  State, empty_state, key, ensure_state, merge_values, merge_telemetry, merge_attributes,
  scope_values,
}
use thingsflow.TwinStore.Documents.{
  IsFresh, attribute, merges-IsFresh, merges_comm, Write, to_telemetry, to_attributes, merged,
}
use thingsflow.TwinStore.Memory.{MemoryStore, deliver, merge_locked, held_state, cancel, is_watched}
use thingsflow.TwinStore.Memory.Watches.{is_open}
use thingsflow.TwinStore.Memory.Merged.{IsValid, deliver-merge, deliver-cancelled}
use thingsflow.TwinStore.Nats.{Payload, document, KeyValue, Turn, merge}
use thingsflow.TwinStore.Nats.Merging.{Merged, merge-Merged}

abbrev tenant : Text
tenant = codes "t1"

abbrev meter : Text
meter = codes "d1"

abbrev writes : Dict Json
writes = (codes "temp", bool true) ∷ (codes "a.b", bool false) ∷ []

blank-IsFresh : IsFresh empty_state
unfolding get scope_values
blank-IsFresh = record { telemetry = λ k v h. cc h; attributes = λ scope k v h. cc h }

-- A document that a merge has written to.
abbrev earlier : State
earlier = merge_telemetry (pos 5) writes empty_state

earlier-IsFresh : IsFresh earlier
earlier-IsFresh = (merges-IsFresh (pos 5) (codes "SERVER_SCOPE") writes empty_state blank-IsFresh).0

differ : NoDup (keys writes)
unfolding keys
differ = ground arith

-- A write with an earlier time leaves the value, and a new key enters with its own time.
keeps_later :
    get (merge_telemetry (pos 3) ((codes "temp", bool false) ∷ []) earlier).telemetry (codes "temp")
    ≡ some (record { ts = pos 5; value = bool true })
unfolding merge_telemetry merge_values get put text_eq lt_int
keeps_later = refl

merges-IsFresh_example :
    IsFresh (merge_telemetry (pos 7) writes earlier)
    × IsFresh (merge_attributes (codes "SERVER_SCOPE") (pos 7) writes earlier)
merges-IsFresh_example =
    merges-IsFresh (pos 7) (codes "SERVER_SCOPE") writes earlier earlier-IsFresh

seven≢eight : pos 7 ≢ pos 8
seven≢eight = ground arith

-- A write to the telemetry, and one to the attributes of a scope.
abbrev reading : Write
reading = to_telemetry (pos 7) writes

abbrev setting : Write
setting = to_attributes (codes "A") (pos 8) writes

merges_comm_example :
    (get (merged reading (merged setting earlier)).telemetry (codes "temp")
      ≡ get (merged setting (merged reading earlier)).telemetry (codes "temp"))
    × (attribute (merged reading (merged setting earlier)) (codes "A") (codes "temp")
        ≡ attribute (merged setting (merged reading earlier)) (codes "A") (codes "temp"))
    × ((merged reading (merged setting earlier)).updated_ts
        ≡ (merged setting (merged reading earlier)).updated_ts)
merges_comm_example =
    merges_comm reading setting earlier (codes "A") (codes "temp") seven≢eight differ differ
      earlier-IsFresh

-- A store with one watch on all keys.
abbrev watched : MemoryStore
watched = record {
  states = [];
  watches = record { prefix = []; channel = 0 } ∷ [];
  channels = record { id = 0; queue = []; closed = false } ∷ [];
  made = 1;
}

watched-IsValid : IsValid watched
unfolding is_open
watched-IsValid = record {
  opened = (refl, tt);
  unshared = ((λ h. h), tt);
  numbered = (omega arith, tt);
  bounded = (omega arith, tt);
}

abbrev writing : State → State
writing = merge_telemetry (pos 7) writes

deliver-merge_example :
    (after : MemoryStore) × (deliver
        (merge_locked writing tenant (codes "DEVICE") meter watched).1
        (merge_locked writing tenant (codes "DEVICE") meter watched).0
      ≡ some after)
    × IsValid after
    × ((k : Text)
        → get after.states k ≡ (
            if text_eq (key (codes "DEVICE") tenant meter) k
            then some (
                writing (
                  ensure_state
                    (held_state (get watched.states (key (codes "DEVICE") tenant meter)))
                    tenant
                    (codes "DEVICE")
                    meter))
            else get watched.states k))
deliver-merge_example = deliver-merge writing tenant (codes "DEVICE") meter watched watched-IsValid

deliver-cancelled_example :
    deliver
      (merge_locked writing tenant (codes "DEVICE") meter watched).1
      (cancel 0 (merge_locked writing tenant (codes "DEVICE") meter watched).0)
    ≡ none
unfolding is_watched
deliver-cancelled_example =
    deliver-cancelled writing tenant (codes "DEVICE") meter watched
      (record { prefix = []; channel = 0 }) watched-IsValid (inl refl) refl

-- A bucket in memory: the value of the key and the number of its writes.
record Cell : Type 0 where
  content : Option Payload
  revision : ℕ

abbrev look_at : Option Payload → ℕ → Option (Payload × ℕ)
look_at none r = none
look_at (some p) r = some (p, r)

abbrev filled : Payload → ℕ → Cell
filled p r = record { content = some p; revision = suc r }

abbrev create_in : Payload → Option Payload → Cell → Bool × Cell
create_in p none c = (true, filled p c.revision)
create_in p (some q) c = (false, c)

abbrev update_in : Payload → ℕ → Option Payload → Cell → Bool × Cell
update_in p r none c = (false, c)
update_in p r (some q) c = if c.revision == r then (true, filled p c.revision) else (false, c)

created_in :
    (p : Payload) (o : Option Payload) (c : Cell)
    → (create_in p o c).0 ≡ true
    → (look_at o c.revision ≡ none)
      × ((r : ℕ) × (look_at (create_in p o c).1.content (create_in p o c).1.revision ≡ some (p, r)))
created_in p none c h = (refl, (suc c.revision, refl))
created_in p (some q) c h = cc

updated_in :
    (p : Payload) (r : ℕ) (o : Option Payload) (c : Cell)
    → (update_in p r o c).0 ≡ true
    → ((q : Payload) × (look_at o c.revision ≡ some (q, r)))
      × ((s : ℕ) × (look_at (update_in p r o c).1.content (update_in p r o c).1.revision
            ≡ some (p, s)))
updated_in p r none c h = cc
updated_in p r (some q) c h = elim (Bool-cases (c.revision == r)) [
  | inl e ↦ ((q, ap (λ n. some (q, n)) ((==_iff c.revision r).0 e)), (suc c.revision, rw e))
  | inr e ↦ cc (rw e at h)
]

revision_in :
    (o o' : Option Payload) (a b : ℕ) (p q : Payload) (r : ℕ)
    → (a ≡ b → o ≡ o')
    → look_at o a ≡ some (p, r)
    → look_at o' b ≡ some (q, r)
    → p ≡ q
revision_in none o' a b p q r l h k = cc h
revision_in (some x) none a b p q r l h k = cc k
revision_in (some x) (some y) a b p q r l h k = ground (arith, l (cc (h, k)))

abbrev in_memory : KeyValue
in_memory = record {
  Bucket = Cell;
  Later = λ c d. c.revision ≡ d.revision → c.content ≡ d.content;
  look = λ c. look_at c.content c.revision;
  create = λ p c. create_in p c.content c;
  update = λ p r c. update_in p r c.content c;
  created = λ p c h. created_in p c.content c h;
  updated = λ p r c h. updated_in p r c.content c h;
  revision_unique =
      λ c d p q r l h k. revision_in c.content d.content c.revision d.revision p q r l h k;
}

abbrev quiet : Turn in_memory
quiet = record {
  is_done = false;
  fails = false;
  before = λ c. c;
  between = λ c. c;
  between_later = λ c e. refl;
}

-- Another writer replaces the document between the get and the write.
abbrev busy : Turn in_memory
busy = record {
  is_done = false;
  fails = false;
  before = λ c. c;
  between = λ c. filled (document earlier) c.revision;
  between_later = λ c e. absurd (omega arith);
}

abbrev turns : ℕ → Turn in_memory
turns n = if n == 7 then busy else quiet

abbrev cell : Cell
cell = filled (document (record empty_state { entity_id = meter })) 0

second_try :
    merge in_memory turns writing cell
    ≡ (none, filled (document (writing (ensure_state earlier [] [] []))) 2)
unfolding merge merge_telemetry merge_values get put text_eq lt_int
second_try = refl

merge-Merged_example :
    (c : Cell) × Merged in_memory writing c
      (filled (document (writing (ensure_state earlier [] [] []))) 2)
merge-Merged_example = merge-Merged in_memory writing turns cell _ second_try
