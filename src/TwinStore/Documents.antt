-- ===== src/TwinStore/Documents.antt =====
-- The merges of twinstore/store.go on the document of an entity: the invariant on its last update,
-- and the order of the writes.
use thingsflow.Base.{
  [], ◌∷◌, ◌≡◌, ◌≢◌, sym, subst, ap, ◌∙◌, refl, false, Option, none, Bool-cases, inl, inr, NoDup,
  if◌then◌else◌,
}
use thingsflow.Base.Text.{Text, text_eq, text_eq_iff}
use thingsflow.Base.Dict.{Dict, get, keys, get-put}
use thingsflow.Base.Int.{ℤ, lt_int, lt_int_irrefl, lt_int_cotrans}
use thingsflow.Base.Json.{Json}
use thingsflow.TwinStore.{
  Value, State, merge_values, merge_telemetry, merge_attributes, scope_values,
}
use thingsflow.TwinStore.Lww.{
  written, Fresh, updated_by, later_le, get-merge_values, merge_values-Fresh, written_comm,
  updated_by_comm,
}

-- The document of an entity whose last update is at least as late as every value in it.
pub record IsFresh (s : State) : Type 0 where
  pub telemetry : Fresh s.telemetry s.updated_ts
  pub attributes : (scope : Text) → Fresh (scope_values (get s.attributes scope)) s.updated_ts

Fresh-later : (held : Dict Value) (a b : ℤ) → lt_int b a ≡ false → Fresh held a → Fresh held b
Fresh-later held a b le f k v e = lt_int_cotrans b a v.ts le (f k v e)

updated_by_le :
    (ts : ℤ) (x : Dict Json) (updated : ℤ) → lt_int (updated_by ts x updated) updated ≡ false
updated_by_le ts [] updated = lt_int_irrefl updated
updated_by_le ts (p ∷ x) updated = later_le ts updated

-- The value that a document holds for an attribute.
abbrev pub attribute : State → Text → Text → Option Value
attribute s scope k = get (scope_values (get s.attributes scope)) k

scope_values-merge :
    (scope other : Text) (ts : ℤ) (values : Dict Json) (s : State)
    → scope_values (get (merge_attributes scope ts values s).attributes other) ≡ (
        if text_eq scope other
        then (merge_values ts values (scope_values (get s.attributes scope)) s.updated_ts).0
        else scope_values (get s.attributes other))
unfolding merge_attributes scope_values
scope_values-merge scope other ts values s =
    rw get-put (elim (Bool-cases (text_eq scope other)) [ inl e ↦ rw e | inr e ↦ rw e ])

-- Both merges keep the time of the last update at least as late as every value of the document.
pub merges-IsFresh :
    (ts : ℤ) (scope : Text) (values : Dict Json) (s : State)
    → IsFresh s
    → IsFresh (merge_telemetry ts values s) × IsFresh (merge_attributes scope ts values s)
unfolding merge_telemetry merge_attributes
merges-IsFresh ts scope values s f =
    let (e, t) = merge_values-Fresh ts values s.telemetry s.updated_ts f.telemetry in
    let (e', t') =
      merge_values-Fresh ts values (scope_values (get s.attributes scope)) s.updated_ts
        (f.attributes scope) in
    (
      record {
        telemetry = t;
        attributes = λ other. rw e (
            Fresh-later _ s.updated_ts _ (updated_by_le ts values s.updated_ts)
              (f.attributes other));
      },
      record {
        telemetry =
            rw e' (Fresh-later _ s.updated_ts _ (updated_by_le ts values s.updated_ts) f.telemetry);
        attributes = λ other. elim (Bool-cases (text_eq scope other)) [
          | inl q ↦
              subst (λ h. Fresh h (merge_attributes scope ts values s).updated_ts)
                (sym (scope_values-merge scope other ts values s ∙ rw q)) t'
          | inr q ↦
              let kept : Fresh (scope_values (get s.attributes other))
                  (merge_attributes scope ts values s).updated_ts =
                rw e' (
                  Fresh-later _ s.updated_ts _ (updated_by_le ts values s.updated_ts)
                    (f.attributes other)) in
              subst (λ h. Fresh h (merge_attributes scope ts values s).updated_ts)
                (sym (scope_values-merge scope other ts values s ∙ rw q)) kept
        ];
      },
    )

attribute-merge :
    (scope other : Text) (ts : ℤ) (values : Dict Json) (s : State) (k : Text)
    → NoDup (keys values)
    → attribute (merge_attributes scope ts values s) other k ≡ (
        if text_eq scope other
        then written ts (get values k) (attribute s other k)
        else attribute s other k)
attribute-merge scope other ts values s k d = elim (Bool-cases (text_eq scope other)) [
  | inl e ↦
      rw (scope_values-merge scope other ts values s, e)
        (get-merge_values ts values _ s.updated_ts k d
          ∙ ap (λ o. written ts (get values k) (attribute s o k)) ((text_eq_iff scope other).0 e))
  | inr e ↦ rw (scope_values-merge scope other ts values s, e)
]

telemetry_lem :
    (ts : ℤ) (values : Dict Json) (s : State) (k : Text)
    → NoDup (keys values)
    → get (merge_telemetry ts values s).telemetry k ≡ written ts (get values k) (get s.telemetry k)
unfolding merge_telemetry
telemetry_lem ts values s k d = get-merge_values ts values s.telemetry s.updated_ts k d

updated_ts_lem :
    (ts : ℤ) (scope : Text) (values : Dict Json) (s : State)
    → IsFresh s
    → ((merge_telemetry ts values s).updated_ts ≡ updated_by ts values s.updated_ts)
      × ((merge_attributes scope ts values s).updated_ts ≡ updated_by ts values s.updated_ts)
unfolding merge_telemetry merge_attributes
updated_ts_lem ts scope values s f = (
  (merge_values-Fresh ts values s.telemetry s.updated_ts f.telemetry).0,
  (merge_values-Fresh ts values _ s.updated_ts (f.attributes scope)).0,
)

-- Both merges are last-write-wins for each key: what is written to a key replaces its value unless
-- that has a later time, and a key that is not written, in the telemetry or in any scope, keeps its
-- value. The written keys differ, and the order in which the loop visits them does not matter.
pub merges-written :
    (ts : ℤ) (scope other : Text) (values : Dict Json) (s : State) (k : Text)
    → NoDup (keys values)
    → (get (merge_telemetry ts values s).telemetry k
        ≡ written ts (get values k) (get s.telemetry k))
      × (attribute (merge_attributes scope ts values s) other k ≡ (
          if text_eq scope other
          then written ts (get values k) (attribute s other k)
          else attribute s other k))
merges-written ts scope other values s k d =
    (telemetry_lem ts values s k d, attribute-merge scope other ts values s k d)

-- A write of values with a time: to the telemetry, or to the attributes of a scope.
pub data Write : Type 0 where
  to_telemetry : ℤ → Dict Json → Write
  to_attributes : Text → ℤ → Dict Json → Write

abbrev pub time_of : Write → ℤ
time_of (to_telemetry ts values) = ts
time_of (to_attributes scope ts values) = ts

abbrev pub values_of : Write → Dict Json
values_of (to_telemetry ts values) = values
values_of (to_attributes scope ts values) = values

-- The merge that a write makes.
abbrev pub merged : Write → State → State
merged (to_telemetry ts values) = merge_telemetry ts values
merged (to_attributes scope ts values) = merge_attributes scope ts values

-- What a write gives a key of the telemetry, and one of a scope.
abbrev telemetry_given : Write → Text → Option Json
telemetry_given (to_telemetry ts values) k = get values k
telemetry_given (to_attributes scope ts values) k = none

abbrev attribute_given : Write → Text → Text → Option Json
attribute_given (to_telemetry ts values) other k = none
attribute_given (to_attributes scope ts values) other k =
    if text_eq scope other then get values k else none

merged-telemetry :
    (w : Write) (s : State) (k : Text)
    → NoDup (keys (values_of w))
    → get (merged w s).telemetry k ≡ written (time_of w) (telemetry_given w k) (get s.telemetry k)
merged-telemetry (to_telemetry ts values) s k d = telemetry_lem ts values s k d
merged-telemetry (to_attributes scope ts values) s k d = unfold merge_attributes in refl

merged-attribute :
    (w : Write) (s : State) (other k : Text)
    → NoDup (keys (values_of w))
    → attribute (merged w s) other k
      ≡ written (time_of w) (attribute_given w other k) (attribute s other k)
merged-attribute (to_telemetry ts values) s other k d = unfold merge_telemetry in refl
merged-attribute (to_attributes scope ts values) s other k d =
    attribute-merge scope other ts values s k d
    ∙ elim (Bool-cases (text_eq scope other)) [ inl e ↦ rw e refl | inr e ↦ rw e refl ]

merged-updated :
    (w : Write) (s : State)
    → IsFresh s
    → (merged w s).updated_ts ≡ updated_by (time_of w) (values_of w) s.updated_ts
merged-updated (to_telemetry ts values) s f = (updated_ts_lem ts [] values s f).0
merged-updated (to_attributes scope ts values) s f = (updated_ts_lem ts scope values s f).1

merged-IsFresh : (w : Write) (s : State) → IsFresh s → IsFresh (merged w s)
merged-IsFresh (to_telemetry ts values) s f = (merges-IsFresh ts [] values s f).0
merged-IsFresh (to_attributes scope ts values) s f = (merges-IsFresh ts scope values s f).1

-- Any two merges with different times, each of telemetry or of the attributes of a scope, come to
-- the same in either order, on a document whose last update is at least as late as every value in
-- it: the same telemetry values, the same attributes in every scope and the same time of the last
-- update. The keys that one merge writes differ.
pub merges_comm :
    (u v : Write) (s : State) (scope k : Text)
    → time_of u ≢ time_of v
    → NoDup (keys (values_of u))
    → NoDup (keys (values_of v))
    → IsFresh s
    → (get (merged u (merged v s)).telemetry k ≡ get (merged v (merged u s)).telemetry k)
      × (attribute (merged u (merged v s)) scope k ≡ attribute (merged v (merged u s)) scope k)
      × ((merged u (merged v s)).updated_ts ≡ (merged v (merged u s)).updated_ts)
merges_comm u v s scope k h du dv f = (
  rw
      (
        merged-telemetry u (merged v s) k du,
        merged-telemetry v s k dv,
        merged-telemetry v (merged u s) k dv,
        merged-telemetry u s k du,
      )
      (written_comm (time_of u) (time_of v) (telemetry_given u k) (telemetry_given v k)
        (get s.telemetry k) h),
  rw
      (
        merged-attribute u (merged v s) scope k du,
        merged-attribute v s scope k dv,
        merged-attribute v (merged u s) scope k dv,
        merged-attribute u s scope k du,
      )
      (written_comm (time_of u) (time_of v) (attribute_given u scope k) (attribute_given v scope k)
        (attribute s scope k) h),
  merged-updated u (merged v s) (merged-IsFresh v s f)
      ∙ ap (updated_by (time_of u) (values_of u)) (merged-updated v s f)
      ∙ updated_by_comm (time_of u) (time_of v) (values_of u) (values_of v) s.updated_ts
      ∙ ap (updated_by (time_of v) (values_of v)) (sym (merged-updated u s f))
      ∙ sym (merged-updated v (merged u s) (merged-IsFresh u s f)),
)
