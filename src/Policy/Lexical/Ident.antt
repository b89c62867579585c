-- ===== src/Policy/Lexical/Ident.antt =====
-- The normal form of policy identifiers.
use thingsflow.Base.{
  ℕ, ◌≤◌, ◌≡◌, ◌≢◌, refl, ap, [], ◌∷◌, Bool, true, false, arith, All, length, Bool-cases, inl, inr,
}
use thingsflow.Base.Text.{Text, text_eq_iff, lower, to_lower, trim}
use thingsflow.Base.Trim.{trim_idem, All-trim}
use thingsflow.Base.Result.{ok}
use thingsflow.Policy.Lexical.{
  id_char, underscore, squash, canonical_policy_id, normalize_policy_id, max_policy_id_bytes,
}

-- Every character is one of `[a-z0-9_]`.
abbrev pub IsIdentifier : Text → Type 0
IsIdentifier s = All (λ c. id_char c ≡ true) s

squash-IsIdentifier : (run : Bool) (s : Text) → IsIdentifier (squash run s)
unfolding squash
squash-IsIdentifier run [] = tt
squash-IsIdentifier run (c ∷ s) = elim (Bool-cases (id_char c)) [
  | inl e ↦ rw e (e, squash-IsIdentifier false s)
  | inr e ↦ elim (Bool-cases run) [
    | inl q ↦ rw (e, q) (squash-IsIdentifier true s)
    | inr q ↦ rw (e, q) (refl, squash-IsIdentifier true s)
  ]
]

squash-eq_self : (run : Bool) (s : Text) → IsIdentifier s → squash run s ≡ s
unfolding squash
squash-eq_self run [] h = refl
squash-eq_self run (c ∷ s) h = rw h.0 (ap (λ r. c ∷ r) (squash-eq_self false s h.1))

lower-id_char : (c : ℕ) → id_char c ≡ true → lower c ≡ c
unfolding id_char lower
lower-id_char c h = ground arith

to_lower-eq_self : (s : Text) → IsIdentifier s → to_lower s ≡ s
unfolding to_lower
to_lower-eq_self [] h = refl
to_lower-eq_self (c ∷ s) h = cc (lower-id_char c h.0, to_lower-eq_self s h.1)

canonical-IsIdentifier : (raw : Text) → IsIdentifier (canonical_policy_id raw)
unfolding canonical_policy_id
canonical-IsIdentifier raw =
    All-trim underscore (λ c. id_char c ≡ true) _ (squash-IsIdentifier false (to_lower raw))

trim-canonical : (raw : Text) → trim underscore (canonical_policy_id raw) ≡ canonical_policy_id raw
unfolding canonical_policy_id
trim-canonical raw = trim_idem underscore (squash false (to_lower raw))

canonical_idem :
    (raw : Text) → canonical_policy_id (canonical_policy_id raw) ≡ canonical_policy_id raw
unfolding canonical_policy_id
canonical_idem raw =
    let c = canonical_policy_id raw in
    let h : IsIdentifier c = canonical-IsIdentifier raw in
    rw (to_lower-eq_self c h, squash-eq_self false c h)
      (trim_idem underscore (squash false (to_lower raw)))

-- A normalized identifier is the canonical form, is not empty, is trimmed and fits the column.
normalize_policy_id-ok :
    (raw : Text) {c : Text}
    → normalize_policy_id raw ≡ ok c
    → (c ≡ canonical_policy_id raw) × (c ≢ []) × (length c ≤ max_policy_id_bytes)
unfolding normalize_policy_id
normalize_policy_id-ok raw {c} h = ground (arith, text_eq_iff (canonical_policy_id raw) [])

normalize_policy_id-canonical :
    (c : Text)
    → canonical_policy_id c ≡ c
    → trim underscore c ≡ c
    → c ≢ []
    → length c ≤ max_policy_id_bytes
    → normalize_policy_id c ≡ ok c
unfolding normalize_policy_id
normalize_policy_id-canonical c e t full short = rw (e, t) (ground (arith, text_eq_iff c []))

-- An accepted identifier is a word over `[a-z0-9_]` of 1 to 255 characters that neither starts
-- nor ends with `_`, and normalizing it again gives it back.
pub normalize_policy_id_lem :
    (raw : Text) {c : Text}
    → normalize_policy_id raw ≡ ok c
    → IsIdentifier c
      × (c ≢ [])
      × (length c ≤ max_policy_id_bytes)
      × (trim underscore c ≡ c)
      × (normalize_policy_id c ≡ ok c)
normalize_policy_id_lem raw {c} h =
    let (e, full, short) = normalize_policy_id-ok raw h in
    (
      rw e (canonical-IsIdentifier raw),
      full,
      short,
      rw e (trim-canonical raw),
      normalize_policy_id-canonical c (rw e (canonical_idem raw)) (rw e (trim-canonical raw)) full
          short,
    )
