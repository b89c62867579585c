-- ===== src/TwinModel/Conforms/Single.antt =====
-- One value: the checks of flow-core/internal/twinmodel/validate.go report nothing exactly if it
-- fits.
use thingsflow.Base.{
  List, [], ◌∷◌, ◌++◌, ◌≡◌, ◌↔◌, ◌⊎◌, refl, subst, inl, inr, Bool, true, false, not, ◌&&◌, Option,
  none, some, length, Any, Bool-cases,
}
use thingsflow.Base.Text.{Text, codes, text_eq, text_eq_iff}
use thingsflow.Base.Int.{ℤ, pos, lt_int}
use thingsflow.Base.Json.{Json, null, bool, number, text, array, object}
use thingsflow.TwinModel.{
  PropertySpec, Message, Violation, at_least, at_most, length_at_least, length_at_most, expected,
  not_allowed, no_match,
}
use thingsflow.TwinModel.Value.{
  flag, lower_check, upper_check, number_checks, text_checks, matches_type, enum_contains, is_nil,
  validate_value, numeric_value, candidate_equal,
}
use thingsflow.TwinModel.Conforms.Types.{matches_type_iff}
use thingsflow.TwinModel.Conforms.{Within, Allowed, Fits}

pub append_nil_iff : (xs ys : List Violation) → (xs ++ ys ≡ []) ↔ ((xs ≡ []) × (ys ≡ []))
append_nil_iff [] ys = ((λ h. (refl, h)), (λ h. h.1))
append_nil_iff (x ∷ xs) ys = ((λ h. cc), (λ h. cc (h.0)))

pub flag_iff :
    (b : Bool) (path keyword : Text) (message : Message) (got : Json)
    → (flag b path keyword message got ≡ []) ↔ (b ≡ false)
unfolding flag
flag_iff true path keyword message got = ((λ h. cc), (λ h. cc))
flag_iff false path keyword message got = ((λ h. refl), (λ h. refl))

lower_check_iff :
    (path keyword : Text) (message : ℤ → Message) (got : Json) (n : ℤ) (o : Option ℤ)
    → (lower_check path keyword message got n o ≡ []) ↔ ((m : ℤ) → o ≡ some m → lt_int n m ≡ false)
unfolding lower_check
lower_check_iff path keyword message got n none = ((λ h m e. cc), (λ h. refl))
lower_check_iff path keyword message got n (some k) =
    let f = flag_iff (lt_int n k) path keyword (message k) got in
    ((λ h m e. cc (f.0 h, e)), (λ h. f.1 (h k refl)))

upper_check_iff :
    (path keyword : Text) (message : ℤ → Message) (got : Json) (n : ℤ) (o : Option ℤ)
    → (upper_check path keyword message got n o ≡ []) ↔ ((m : ℤ) → o ≡ some m → lt_int m n ≡ false)
unfolding upper_check
upper_check_iff path keyword message got n none = ((λ h m e. cc), (λ h. refl))
upper_check_iff path keyword message got n (some k) =
    let f = flag_iff (lt_int k n) path keyword (message k) got in
    ((λ h m e. cc (f.0 h, e)), (λ h. f.1 (h k refl)))

enum_contains_iff :
    (enum : List Json) (v : Json)
    → (enum_contains enum v ≡ true)
      ↔ Any (λ c. candidate_equal c v (numeric_value c) (numeric_value v) ≡ true) enum
unfolding enum_contains
enum_contains_iff [] v = ((λ h. cc), (λ h. elim h [ ]))
enum_contains_iff (c ∷ enum) v =
    let ih = enum_contains_iff enum v in
    elim (Bool-cases (candidate_equal c v (numeric_value c) (numeric_value v))) [
      | inl e ↦ ((λ h. inl e), (λ h. rw e))
      | inr e ↦ (
        (λ h. inr (ih.0 (rw e at h))),
        (λ h. elim h [ inl d ↦ cc (d, e) | inr m ↦ rw e (ih.1 m) ]),
      )
    ]

enum_check_iff :
    (enum : List Json) (v : Json)
    → ((not (is_nil enum) && not (enum_contains enum v)) ≡ false) ↔ Allowed enum v
unfolding is_nil
enum_check_iff [] v = ((λ h. inl refl), (λ h. refl))
enum_check_iff (c ∷ enum) v =
    let all = enum_contains_iff (c ∷ enum) v in
    elim (Bool-cases (enum_contains (c ∷ enum) v)) [
      | inl e ↦ ((λ h. inr (all.0 e)), (λ h. rw e))
      | inr e ↦ ((λ h. cc (rw e at h)), (λ h. elim h [ inl d ↦ cc d | inr m ↦ cc (all.1 m, e) ]))
    ]

number_checks_iff :
    (spec : PropertySpec) (path : Text) (v : Json)
    → (number_checks spec path v (numeric_value v) ≡ [])
      ↔ ((n : ℤ) → v ≡ number n → Within n spec.minimum spec.maximum)
unfolding number_checks numeric_value
number_checks_iff spec path (number n) =
    let low = lower_check_iff path (codes "minimum") at_least (number n) n spec.minimum in
    let high = upper_check_iff path (codes "maximum") at_most (number n) n spec.maximum in
    let both =
      append_nil_iff (lower_check path (codes "minimum") at_least (number n) n spec.minimum)
        (upper_check path (codes "maximum") at_most (number n) n spec.maximum) in
    (
      (λ h k e.
          let same : n ≡ k = cc e in
          subst (λ x. Within x spec.minimum spec.maximum) same
            (low.0 (both.0 h).0, high.0 (both.0 h).1)),
      (λ h. let (l, u) = h n refl in both.1 (low.1 l, high.1 u)),
    )
number_checks_iff spec path null = ((λ h n e. cc e), (λ h. refl))
number_checks_iff spec path (bool b) = ((λ h n e. cc e), (λ h. refl))
number_checks_iff spec path (text t) = ((λ h n e. cc e), (λ h. refl))
number_checks_iff spec path (array is) = ((λ h n e. cc e), (λ h. refl))
number_checks_iff spec path (object fs) = ((λ h n e. cc e), (λ h. refl))

module _ (matches : Text → Text → Bool) where
  pattern_check_iff :
      (spec : PropertySpec) (t : Text)
      → ((not (text_eq spec.pattern []) && not (matches spec.pattern t)) ≡ false)
        ↔ ((spec.pattern ≡ []) ⊎ (matches spec.pattern t ≡ true))
  pattern_check_iff spec t = (
    (λ h. elim (Bool-cases (text_eq spec.pattern [])) [
      | inl e ↦ inl ((text_eq_iff spec.pattern []).0 e)
      | inr e ↦ elim (Bool-cases (matches spec.pattern t)) [
        | inl m ↦ inr m
        | inr m ↦ cc (rw (e, m) at h)
      ]
    ]),
    (λ h. elim h [
      | inl e ↦ rw ((text_eq_iff spec.pattern []).1 e) refl
      | inr m ↦ elim (Bool-cases (text_eq spec.pattern [])) [
        | inl e ↦ rw e refl
        | inr e ↦ rw (e, m) refl
      ]
    ]),
  )

  text_checks_iff :
      (spec : PropertySpec) (path : Text) (v : Json)
      → (text_checks matches spec path v ≡ []) ↔ (
          (t : Text)
          → v ≡ text t
          → Within (pos (length t)) spec.min_length spec.max_length
            × ((spec.pattern ≡ []) ⊎ (matches spec.pattern t ≡ true)))
  unfolding text_checks
  text_checks_iff spec path (text t) =
      let got = text t in
      let n = pos (length t) in
      let wrong = not (text_eq spec.pattern []) && not (matches spec.pattern t) in
      let low = lower_check_iff path (codes "minLength") length_at_least got n spec.min_length in
      let high = upper_check_iff path (codes "maxLength") length_at_most got n spec.max_length in
      let fits = flag_iff wrong path (codes "pattern") no_match got in
      let ends =
        append_nil_iff (upper_check path (codes "maxLength") length_at_most got n spec.max_length)
          (flag wrong path (codes "pattern") no_match got) in
      let all =
        append_nil_iff (lower_check path (codes "minLength") length_at_least got n spec.min_length)
          (upper_check path (codes "maxLength") length_at_most got n spec.max_length
            ++ flag wrong path (codes "pattern") no_match got) in
      (
        (λ h s e.
            let same : t ≡ s = cc e in
            let (l, r) = all.0 h in
            let (u, p) = ends.0 r in
            subst
              (λ x.
                Within (pos (length x)) spec.min_length spec.max_length
                × ((spec.pattern ≡ []) ⊎ (matches spec.pattern x ≡ true)))
              same ((low.0 l, high.0 u), (pattern_check_iff spec t).0 (fits.0 p))),
        (λ h.
            let ((l, u), p) = h t refl in
            all.1 (low.1 l, ends.1 (high.1 u, fits.1 ((pattern_check_iff spec t).1 p)))),
      )
  text_checks_iff spec path null = ((λ h n e. cc e), (λ h. refl))
  text_checks_iff spec path (bool b) = ((λ h n e. cc e), (λ h. refl))
  text_checks_iff spec path (number t) = ((λ h n e. cc e), (λ h. refl))
  text_checks_iff spec path (array is) = ((λ h n e. cc e), (λ h. refl))
  text_checks_iff spec path (object fs) = ((λ h n e. cc e), (λ h. refl))

  -- Nothing is reported of a value exactly if it fits.
  pub validate_value_iff :
      (spec : PropertySpec) (path : Text) (v : Json)
      → (validate_value matches spec path v ≡ []) ↔ Fits matches spec v
  unfolding validate_value
  validate_value_iff spec path v =
      let typed =
        flag_iff (not (matches_type spec.type v)) path (codes "type") (expected spec.type) v in
      let listed =
        flag_iff (not (is_nil spec.enum) && not (enum_contains spec.enum v)) path (codes "enum")
          not_allowed v in
      let numbers = number_checks_iff spec path v in
      let texts = text_checks_iff spec path v in
      (
        (λ h.
            let (t, r) = (append_nil_iff _ _).0 h in
            let (e, q) = (append_nil_iff _ _).0 r in
            let (n, s) = (append_nil_iff _ _).0 q in
            (
              (matches_type_iff spec.type v).0 (not_false (typed.0 t)),
              (enum_check_iff spec.enum v).0 (listed.0 e),
              numbers.0 n,
              texts.0 s,
            )),
        (λ h.
            let (t, e, n, s) = h in
            rw
              (
                typed.1 (rw ((matches_type_iff spec.type v).1 t) refl),
                listed.1 ((enum_check_iff spec.enum v).1 e),
                numbers.1 n,
                texts.1 s,
              )
              refl),
      )
    where
      not_false : {b : Bool} → not b ≡ false → b ≡ true
      not_false {b = true} h = refl
      not_false {b = false} h = cc h
