-- ===== src/TwinStore/Keys.antt =====
-- The keys of twinstore/store.go: `ParseTelemetryKey` reads back what `TelemetryKey` wrote.
use thingsflow.Base.{
  ℕ, [], ◌∷◌, ◌++◌, ◌≡◌, ◌≢◌, refl, sym, subst, ap, false, some, arith, Bool-cases, inl, inr, All,
}
use thingsflow.Base.Text.{
  Text, codes, text_eq, trim_space, is_space, to_upper, upper, trim, split_n, split_n-append, Free,
  text_eq_ne,
}
use thingsflow.Base.Trim.{
  trim_idem, trim_right-trim, trim-Starts, Starts, trim-append_self, All-trim,
}
use thingsflow.TwinStore.{
  normalize_entity_type, key, telemetry_prefix, telemetry_key, parse_parts, parse_telemetry_key,
  dot,
}
use mathlib.Core.List.{append_assoc}

-- An upper-case code point stays.
abbrev IsUpper : ℕ → Type 0
IsUpper c = upper c ≡ c

upper_idem : (c : ℕ) → IsUpper (upper c)
unfolding upper
upper_idem c = ground arith

to_upper-IsUpper : (s : Text) → All IsUpper (to_upper s)
unfolding to_upper
to_upper-IsUpper [] = tt
to_upper-IsUpper (c ∷ s) = (upper_idem c, to_upper-IsUpper s)

to_upper-eq_self : (s : Text) → All IsUpper s → to_upper s ≡ s
unfolding to_upper
to_upper-eq_self [] h = refl
to_upper-eq_self (c ∷ s) h = rw (h.0, to_upper-eq_self s h.1)

pub normalize_entity_type_idem :
    (t : Text) → normalize_entity_type (normalize_entity_type t) ≡ normalize_entity_type t
unfolding normalize_entity_type
normalize_entity_type_idem t = elim (Bool-cases (text_eq (trim_space (to_upper t)) [])) [
  | inl e ↦ rw e
  | inr e ↦
      let u : to_upper (trim_space (to_upper t)) ≡ trim_space (to_upper t) =
        to_upper-eq_self _
          (unfold trim_space in All-trim is_space IsUpper _ (to_upper-IsUpper t)) in
      let v : trim_space (trim_space (to_upper t)) ≡ trim_space (to_upper t) =
        (unfold trim_space in trim_idem is_space (to_upper t)) in
      rw e (rw (u, v, e))
]

-- A normalized type starts with a code point that is no space.
normalize_entity_type-Starts :
    (t : Text) → (c : ℕ) × (s : Text) × (normalize_entity_type t ≡ c ∷ s) × (is_space c ≡ false)
unfolding normalize_entity_type
normalize_entity_type-Starts t = go (trim_space (to_upper t)) refl
  where
    go :
        (u : Text)
        → trim_space (to_upper t) ≡ u
        → (c : ℕ) × (s : Text) × (normalize_entity_type t ≡ c ∷ s) × (is_space c ≡ false)
    go [] e = (68, codes "EVICE", rw (e, normalize_entity_type), unfold is_space in refl)
    go (c ∷ s) e =
        let starts : Starts is_space (trim_space (to_upper t)) =
          (unfold trim_space in trim-Starts is_space (to_upper t)) in
        (c, s, rw (e, normalize_entity_type), subst (Starts is_space) e starts)

-- The parts of a key behind the type, up to the name.
abbrev middle : Text → Text → Text
middle tenant_id entity_id =
    dot ∷ (tenant_id ++ (dot ∷ (entity_id ++ (dot ∷ (codes "telemetry" ++ (dot ∷ []))))))

telemetry_key-middle :
    (entity_type tenant_id entity_id name : Text)
    → telemetry_key entity_type tenant_id entity_id name
      ≡ normalize_entity_type entity_type ++ (middle tenant_id entity_id ++ trim_space name)
unfolding telemetry_key telemetry_prefix key
telemetry_key-middle entity_type tenant_id entity_id name = simp append_assoc

trim_space-telemetry_key :
    (entity_type tenant_id entity_id name : Text)
    → trim_space name ≢ []
    → trim_space (telemetry_key entity_type tenant_id entity_id name)
      ≡ telemetry_key entity_type tenant_id entity_id name
trim_space-telemetry_key entity_type tenant_id entity_id name h =
    let (c, s, e, space) = normalize_entity_type-Starts entity_type in
    let whole : telemetry_key entity_type tenant_id entity_id name
        ≡ c ∷ ((s ++ middle tenant_id entity_id) ++ trim_space name) =
      rw (telemetry_key-middle entity_type tenant_id entity_id name, e)
        (sym (ap (◌∷◌ c) (append_assoc s (middle tenant_id entity_id) (trim_space name)))) in
    rw whole (
      unfold trim_space in
      trim-append_self is_space c (s ++ middle tenant_id entity_id) (trim is_space name) space
        (trim_right-trim is_space name) h)

split-telemetry_key :
    (entity_type tenant_id entity_id name : Text)
    → Free dot (normalize_entity_type entity_type)
    → Free dot tenant_id
    → Free dot entity_id
    → split_n 4 dot (telemetry_key entity_type tenant_id entity_id name)
      ≡ normalize_entity_type entity_type
        ∷ tenant_id
        ∷ entity_id
        ∷ codes "telemetry"
        ∷ trim_space name
        ∷ []
unfolding telemetry_key telemetry_prefix key split_n
split-telemetry_key entity_type tenant_id entity_id name h k l =
    let flat : telemetry_key entity_type tenant_id entity_id name
        ≡ normalize_entity_type entity_type
          ++ (dot
              ∷ (tenant_id
                  ++ (dot
                      ∷ (entity_id ++ (dot ∷ (codes "telemetry" ++ (dot ∷ trim_space name))))))) =
      simp append_assoc in
    rw (
      flat,
      split_n-append 3 dot (normalize_entity_type entity_type) _ h,
      split_n-append 2 dot tenant_id _ k,
      split_n-append 1 dot entity_id _ l,
      split_n-append 0 dot (codes "telemetry") (trim_space name) (omega arith),
    )

-- A key of a telemetry value is read back as the normalized type, the tenant, the entity and the
-- trimmed name that it was written for, if neither the first three hold a dot nor the name is
-- blank. The name may hold dots.
pub parse-telemetry_key :
    (entity_type tenant_id entity_id name : Text)
    → Free dot (normalize_entity_type entity_type)
    → Free dot tenant_id
    → Free dot entity_id
    → trim_space name ≢ []
    → parse_telemetry_key (telemetry_key entity_type tenant_id entity_id name)
      ≡ some (record {
        entity_type = normalize_entity_type entity_type;
        tenant_id = tenant_id;
        entity_id = entity_id;
        name = trim_space name;
      })
unfolding parse_telemetry_key parse_parts
parse-telemetry_key entity_type tenant_id entity_id name h k l n = rw (
  trim_space-telemetry_key entity_type tenant_id entity_id name n,
  split-telemetry_key entity_type tenant_id entity_id name h k l,
  normalize_entity_type_idem entity_type,
  text_eq_ne (trim_space name) [] n,
)
