-- ===== src/TwinStore/Nats/Merging.antt =====
-- The merge of twinstore/nats.go among other writers: a merge that succeeds has happened in one step.
use thingsflow.Base.{
  ℕ, zero, suc, [], ◌≡◌, ◌≢◌, refl, subst, ◌∙◌, Bool, true, false, Option, none, some, Bool-cases,
  Option-cases, inl, inr, ◌⊎◌, if◌then◌else◌,
}
use thingsflow.Base.Text.{Text, text_eq, text_eq_refl, text_eq_ne, text_eq_iff}
use thingsflow.Base.Dict.{Dict}
use thingsflow.Base.Int.{ℤ}
use thingsflow.Base.Json.{Json}
use thingsflow.TwinStore.{
  State, empty_state, key, ensure_state, normalize_entity_type, state_schema, effective_ts,
  merge_telemetry, merge_attributes, normalize_scope,
}
use thingsflow.TwinStore.Keys.{normalize_entity_type_idem}
use thingsflow.TwinStore.Nats.{
  Payload, document, KeyValue, decode_state, is_blank, Turn, Attempt, finished, again, settle,
  write, attempt, merge_from, merge, apply_telemetry, apply_attributes,
}

module _ (kv : KeyValue) (apply : State → State) where
  open kv use {Bucket, Later, look, create, update, created, updated, revision_unique}

  -- The one step from `c` to `b`: the key had no value and has the merge of an empty document, or it
  -- had a document and has the merge of that one.
  abbrev pub Merged : Bucket → Bucket → Type 0
  Merged c b =
      ((look c ≡ none)
        × (b ≡ (create (document (apply empty_state)) c).1)
        × ((r : ℕ) × (look b ≡ some (document (apply empty_state), r))))
      ⊎ ((p : Payload) × (s : State) × (r : ℕ) × (look c ≡ some (p, r))
          × (decode_state p ≡ some s)
          × (b ≡ (update (document (apply s)) r c).1)
          × ((r' : ℕ) × (look b ≡ some (document (apply s), r'))))

  settle-finished :
      (out : Bool × Bucket) {b : Bucket}
      → settle kv out ≡ finished none b
      → (out.0 ≡ true) × (b ≡ out.1)
  unfolding settle
  settle-finished (true, d) h = (refl, cc)
  settle-finished (false, d) h = cc

  update-Merged :
      (seen c : Bucket) (p : Payload) (s : State) (r : ℕ) {b : Bucket}
      → Later seen c
      → look seen ≡ some (p, r)
      → decode_state p ≡ some s
      → settle kv (update (document (apply s)) r c) ≡ finished none b
      → Merged c b
  update-Merged seen c p s r l e n h =
      let (t, same) = settle-finished (update (document (apply s)) r c) h in
      let (q, found) = (updated (document (apply s)) r c t).0 in
      let (r', full) = (updated (document (apply s)) r c t).1 in
      let kept : p ≡ q = revision_unique seen c p q r l e found in
      inr (q, s, r, found, subst (λ x. decode_state x ≡ some s) kept n, same, (r', rw same full))

  create-Merged :
      (c : Bucket) {b : Bucket}
      → settle kv (create (document (apply empty_state)) c) ≡ finished none b
      → Merged c b
  create-Merged c h =
      let (t, same) = settle-finished (create (document (apply empty_state)) c) h in
      let (empty, full) = created (document (apply empty_state)) c t in
      inl (empty, same, (full.0, rw same full.1))

  write-Merged :
      (seen c : Bucket) (o : Option (Payload × ℕ)) {b : Bucket}
      → Later seen c
      → look seen ≡ o
      → write kv apply o c ≡ finished none b
      → Merged c b
  unfolding write
  write-Merged seen c none l e h = create-Merged c h
  write-Merged seen c (some (p, r)) l e h = elim (Option-cases (decode_state p)) [
    | inl n ↦ cc (rw (n, write) at h)
    | inr (s, n) ↦ update-Merged seen c p s r l e n (rw (n, write) at h)
  ]

  attempt-Merged :
      (t : Turn kv) (b : Bucket) {b' : Bucket}
      → attempt kv t apply b ≡ finished none b'
      → (c : Bucket) × Merged c b'
  unfolding attempt
  attempt-Merged t b h = elim (Bool-cases t.is_done) [
    | inl d ↦ cc (rw d at h)
    | inr d ↦ elim (Bool-cases t.fails) [
      | inl f ↦ cc (rw (d, f) at h)
      | inr f ↦
          let seen = t.before b in
          (
            t.between seen,
            write-Merged seen (t.between seen) (look seen) (t.between_later seen) refl
                (rw (d, f) at h),
          )
    ]
  ]

  merge_from-Merged :
      (n : ℕ) (turns : ℕ → Turn kv) (b : Bucket) {b' : Bucket}
      → merge_from kv n turns apply b ≡ (none, b')
      → (c : Bucket) × Merged c b'
  unfolding merge_from
  merge_from-Merged zero turns b h = cc h
  merge_from-Merged (suc n) turns b {b' = b'} h =
      go (λ d q. merge_from-Merged n turns d q) (attempt kv (turns n) apply b) refl
    where
      go :
          ((d : Bucket) → merge_from kv n turns apply d ≡ (none, b') → (c : Bucket) × Merged c b')
          → (a : Attempt kv) → attempt kv (turns n) apply b ≡ a
          → (c : Bucket) × Merged c b'
      go rest (finished e d) q =
          let out : (e, d) ≡ (none, b') = (rw (q, merge_from) at h) in
          attempt-Merged (turns n) b (q ∙ cc out)
      go rest (again d) q = rest d (rw (q, merge_from) at h)

-- A merge that returns no error has taken place in one step, however the other writers come in
-- between: at the moment of its write the key had no value, or a document, and has now the merge of
-- the empty document, or of that very one. So no write of another is lost.
pub merge-Merged :
    (kv : KeyValue) (apply : State → State) (turns : ℕ → Turn kv) (b b' : kv.Bucket)
    → merge kv turns apply b ≡ (none, b')
    → (c : kv.Bucket) × Merged kv apply c b'
unfolding merge
merge-Merged kv apply turns b b' h = merge_from-Merged kv apply 8 turns b h

-- What the bucket's merges apply is the merge of the document behind `ensure_state`.
pub apply_telemetry_lem :
    (now : ℤ) (tenant_id entity_type entity_id : Text) (ts : ℤ) (values : Dict Json) (s : State)
    → apply_telemetry now tenant_id entity_type entity_id ts values s
      ≡ merge_telemetry
          (effective_ts now ts)
          values
          (ensure_state s tenant_id entity_type entity_id)
unfolding apply_telemetry
apply_telemetry_lem now tenant_id entity_type entity_id ts values s =
    simp (text_eq_refl (key entity_type tenant_id entity_id))

pub apply_attributes_lem :
    (now : ℤ) (tenant_id entity_type entity_id scope : Text) (ts : ℤ) (values : Dict Json)
    (s : State)
    → apply_attributes now tenant_id entity_type entity_id scope ts values s
      ≡ merge_attributes
          (normalize_scope scope)
          (effective_ts now ts)
          values
          (ensure_state s tenant_id entity_type entity_id)
unfolding apply_attributes
apply_attributes_lem now tenant_id entity_type entity_id scope ts values s =
    simp (text_eq_refl (key entity_type tenant_id entity_id))

schema_set : (schema : Text) → (if text_eq schema [] then state_schema else schema) ≢ []
schema_set schema = elim (Bool-cases (text_eq schema [])) [
  | inl e ↦ rw e (λ p. cc)
  | inr e ↦ rw e (λ p. cc (e, (text_eq_iff schema []).1 p))
]

-- A document whose identity `ensure_state` has set is decoded as it is.
decode-ensured :
    (u : State)
    → u.entity_id ≢ []
    → u.schema ≢ []
    → normalize_entity_type u.entity_type ≡ u.entity_type
    → decode_state (document u) ≡ some u
unfolding decode_state is_blank ensure_state
decode-ensured u h k n = rw (text_eq_ne u.entity_id [] h, text_eq_ne u.schema [] k, n)

-- What both merges write into the bucket is read back as it is, if the entity's identifier is not
-- empty: the merged document itself, under the given tenant and entity.
pub decode-apply :
    (now : ℤ) (tenant_id entity_type entity_id scope : Text) (ts : ℤ) (values : Dict Json)
    (s : State)
    → entity_id ≢ []
    → (decode_state (document (apply_telemetry now tenant_id entity_type entity_id ts values s))
        ≡ some (
            merge_telemetry
              (effective_ts now ts)
              values
              (ensure_state s tenant_id entity_type entity_id)))
      × (decode_state
            (document (apply_attributes now tenant_id entity_type entity_id scope ts values s))
          ≡ some (
              merge_attributes
                (normalize_scope scope)
                (effective_ts now ts)
                values
                (ensure_state s tenant_id entity_type entity_id)))
decode-apply now tenant_id entity_type entity_id scope ts values s h = (
  rw (apply_telemetry_lem now tenant_id entity_type entity_id ts values s) (
      decode-ensured _ (unfold merge_telemetry ensure_state in h)
        (unfold merge_telemetry ensure_state in schema_set s.schema)
        (unfold merge_telemetry ensure_state in normalize_entity_type_idem entity_type)),
  rw (apply_attributes_lem now tenant_id entity_type entity_id scope ts values s) (
      decode-ensured _ (unfold merge_attributes ensure_state in h)
        (unfold merge_attributes ensure_state in schema_set s.schema)
        (unfold merge_attributes ensure_state in normalize_entity_type_idem entity_type)),
)
