-- ===== src/Policy/Normalize/Rounds.antt =====
-- One round of each loop of `Normalize`: what it appends is good, and a good item is appended as
-- it is.
use thingsflow.Base.{
  ◌≡◌, ◌≢◌, List, [], ◌∷◌, ◌++◌, true, false, none, arith, All, Bool-cases, Option-cases, inl, inr,
  if◌then◌else◌,
}
use thingsflow.Base.Text.{
  Text, text_eq, text_eq_iff, text_eq_ne, contains, contains_iff, trim_space, to_upper, is_space,
}
use thingsflow.Base.Trim.{trim_idem}
use thingsflow.Base.Sort.{Sorted}
use thingsflow.Base.Collect.{HasKey, Distinct, Appends}
use thingsflow.Base.Result.{Result, ok}
use thingsflow.Policy.Lexical.{subject_ok, validate_resource_path}
use thingsflow.Policy.Normalize.{
  Label, PolicyError, itself, add_subject, add_resource, add_action, checked, known_actions,
}

abbrev pub GoodSubject : Text → Type 0
GoodSubject s = (trim_space s ≡ s) × (s ≢ []) × (subject_ok s ≡ true)

abbrev pub GoodResource : Text → Type 0
GoodResource r = (trim_space r ≡ r) × (validate_resource_path r ≡ none)

abbrev pub GoodAction : Text → Type 0
GoodAction a = contains known_actions a ≡ true

pub trim_space_idem : (s : Text) → trim_space (trim_space s) ≡ trim_space s
unfolding trim_space
trim_space_idem s = trim_idem is_space s

pub not_in : (l : List Text) (a : Text) → contains l a ≡ false → ¬ HasKey itself a l
not_in l a h = λ i. cc (h, (contains_iff l a).1 i)

pub absent : (l : List Text) (a : Text) → ¬ HasKey itself a l → contains l a ≡ false
absent l a h = elim (Bool-cases (contains l a)) [
  | inl e ↦ absurd (h ((contains_iff l a).0 e))
  | inr e ↦ e
]

-- The shared end of a round: append what is not there.
append_new :
    (G : Text → Type 0) (acc acc' : List Text) (x : Text)
    → G x
    → ◌≡◌ {A = Result PolicyError (List Text)}
        (if contains acc x then ok acc else ok (acc ++ x ∷ []))
        (ok acc')
    → Appends itself G acc acc'
append_new G acc acc' x g h = elim (Bool-cases (contains acc x)) [
  | inl e ↦ inl (ground (arith, e))
  | inr e ↦ inr (x, g, not_in acc x e, ground (arith, e))
]

pub add_subject-Appends :
    (acc : List Text) (raw : Text) (acc' : List Text)
    → add_subject acc raw ≡ ok acc'
    → Appends itself GoodSubject acc acc'
unfolding add_subject
add_subject-Appends acc raw acc' h =
    let s = trim_space raw in
    elim (Bool-cases (text_eq s [])) [
      | inl e ↦ inl (ground (arith, e))
      | inr e ↦ elim (Bool-cases (subject_ok s)) [
        | inl q ↦
            append_new GoodSubject acc acc' s
              (trim_space_idem raw, (λ n. cc (e, (text_eq_iff s []).1 n)), q) (rw (e, q) at h)
        | inr q ↦ ground (arith, e, q)
      ]
    ]

pub add_subject_good :
    (acc : List Text) (x : Text)
    → GoodSubject x
    → ¬ HasKey itself x acc
    → add_subject acc x ≡ ok (acc ++ x ∷ [])
unfolding add_subject
add_subject_good acc x (t, full, good) new =
    rw t (rw (text_eq_ne x [] full, good, absent acc x new))

pub add_resource-Appends :
    (acc : List Text) (raw : Text) (acc' : List Text)
    → add_resource acc raw ≡ ok acc'
    → Appends itself GoodResource acc acc'
unfolding add_resource checked
add_resource-Appends acc raw acc' h =
    let r = trim_space raw in
    elim (Option-cases (validate_resource_path r)) [
      | inl e ↦ append_new GoodResource acc acc' r (trim_space_idem raw, e) (rw e at h)
      | inr (x, e) ↦ ground (arith, e)
    ]

pub add_resource_good :
    (acc : List Text) (x : Text)
    → GoodResource x
    → ¬ HasKey itself x acc
    → add_resource acc x ≡ ok (acc ++ x ∷ [])
unfolding add_resource checked
add_resource_good acc x (t, good) new = rw t (rw (good, absent acc x new))

module _ (label : Label) (resource : Text) where
  pub add_action-Appends :
      (acc : List Text) (raw : Text) (acc' : List Text)
      → add_action label resource acc raw ≡ ok acc'
      → Appends itself GoodAction acc acc'
  unfolding add_action
  add_action-Appends acc raw acc' h =
      let a = to_upper (trim_space raw) in
      elim (Bool-cases (contains known_actions a)) [
        | inl e ↦ append_new GoodAction acc acc' a e (rw e at h)
        | inr e ↦ ground (arith, e)
      ]

  -- The four known actions are trimmed and in upper case.
  pub known_self : (a : Text) → GoodAction a → to_upper (trim_space a) ≡ a
  unfolding to_upper trim_space
  known_self a g = elim ((contains_iff known_actions a).0 g) [
    | inl e ↦ rw e
    | inr (inl e) ↦ rw e
    | inr (inr (inl e)) ↦ rw e
    | inr (inr (inr (inl e))) ↦ rw e
    | inr (inr (inr (inr e))) ↦ absurd e
  ]

  pub add_action_good :
      (acc : List Text) (x : Text)
      → GoodAction x
      → ¬ HasKey itself x acc
      → add_action label resource acc x ≡ ok (acc ++ x ∷ [])
  unfolding add_action
  add_action_good acc x g new = rw (known_self x g) (rw (g, absent acc x new))

-- The normal form of the actions of an entry.
pub record NormalActions (l : List Text) : Type 0 where
  pub some_action : l ≢ []
  pub known : All GoodAction l
  pub distinct : Distinct itself l
  pub sorted : Sorted itself l
