-- ===== src/Policy/Authorize/Decision.antt =====
-- `Authorize` against the precedence that its comment states.
use thingsflow.Base.{
  ℕ, ◌≤◌, ◌≡◌, ◌≢◌, refl, sym, ◌∙◌, ◌↔◌, ◌⊎◌, inl, inr, List, [], ◌∷◌, true, Option, none, some,
  arith, Any, All, Any-map, All-map, Option-cases,
}
use thingsflow.Base.Text.{Text, text_eq_iff, trim_space, to_upper}
use thingsflow.Base.Dict.{Dict}
use thingsflow.Policy.Path.{star, match_resource}
use thingsflow.Policy.Authorize.{
  DerivedPolicy, subject_matches, bound_by, action_covered, deeper, deepest_from, covering,
  decide_at, authorize,
}

-- The subject is named, and the policy binds it or everyone.
abbrev pub Binds : DerivedPolicy → Text → Type 0
Binds doc subject = (subject ≢ []) × Any (λ b. (b ≡ star) ⊎ (b ≡ subject)) doc.subjects

abbrev pub Entries : Type 0
Entries = Dict (List Text)

-- Some entry of the map matches the resource at this depth.
abbrev pub Reaches : Text → ℕ → Entries → Type 0
Reaches resource d m = Any (λ e. match_resource e.0 resource ≡ some d) m

-- No entry of the map matches the resource deeper.
abbrev pub Bounded : Text → ℕ → Entries → Type 0
Bounded resource d m = All (λ e. (k : ℕ) → match_resource e.0 resource ≡ some k → k ≤ d) m

-- Some entry that matches at this depth covers the action.
abbrev pub Settles : Text → Text → ℕ → Entries → Type 0
Settles resource action d m =
    Any (λ e. (match_resource e.0 resource ≡ some d) × Any (λ a. (a ≡ star) ⊎ (a ≡ action)) e.1) m

-- The depth at which the policy decides.
abbrev pub IsDeepest : Text → ℕ → DerivedPolicy → Type 0
IsDeepest resource d doc =
    (Reaches resource d doc.grants ⊎ Reaches resource d doc.revokes)
    × Bounded resource d doc.grants
    × Bounded resource d doc.revokes

-- A Boolean walk that looks for one of two texts.
action_covered_iff :
    (l : List Text) (action : Text)
    → (action_covered l action ≡ true) ↔ Any (λ a. (a ≡ star) ⊎ (a ≡ action)) l
unfolding action_covered
action_covered_iff [] action = ((λ h. cc), λ h. elim h [ ])
action_covered_iff (a ∷ l) action = (
  (λ h. ground (arith, text_eq_iff a star, text_eq_iff a action, action_covered_iff l action)),
  λ h. ground (arith, text_eq_iff a star, text_eq_iff a action, action_covered_iff l action),
)

bound_by_iff :
    (l : List Text) (subject : Text)
    → (bound_by subject l ≡ true) ↔ Any (λ b. (b ≡ star) ⊎ (b ≡ subject)) l
unfolding bound_by
bound_by_iff [] subject = ((λ h. cc), λ h. elim h [ ])
bound_by_iff (a ∷ l) subject = (
  (λ h. ground (arith, text_eq_iff a star, text_eq_iff a subject, bound_by_iff l subject)),
  λ h. ground (arith, text_eq_iff a star, text_eq_iff a subject, bound_by_iff l subject),
)

subject_matches_iff :
    (doc : DerivedPolicy) (subject : Text)
    → (subject_matches subject doc.subjects ≡ true) ↔ Binds doc subject
unfolding subject_matches
subject_matches_iff doc subject = (
  (λ h.
      (ground (arith, text_eq_iff subject []), ground (arith, bound_by_iff doc.subjects subject))),
  λ h. ground (arith, text_eq_iff subject [], bound_by_iff doc.subjects subject),
)

covering_iff :
    (resource action : Text) (d : ℕ) (m : Entries)
    → (covering resource action d m ≡ true) ↔ Settles resource action d m
unfolding covering
covering_iff resource action d [] = ((λ h. cc), λ h. elim h [ ])
covering_iff resource action d ((path, actions) ∷ m) = (
  (λ h. ground (arith, action_covered_iff actions action, covering_iff resource action d m)),
  λ h. ground (arith, action_covered_iff actions action, covering_iff resource action d m),
)

-- What the loop over a map knows of the depth it ends with.
abbrev Walked : Text → Option ℕ → Entries → Option ℕ → Type 0
Walked resource start m none = (start ≡ none) × All (λ e. match_resource e.0 resource ≡ none) m
Walked resource start m (some d) =
    ((start ≡ some d) ⊎ Reaches resource d m)
    × Bounded resource d m
    × ((k : ℕ) → start ≡ some k → k ≤ d)

deeper-none : (a b : Option ℕ) → deeper a b ≡ none → (a ≡ none) × (b ≡ none)
unfolding deeper
deeper-none none b h = (refl, h)
deeper-none (some a) none h = cc
deeper-none (some a) (some b) h = ground arith

deeper-some : (a b : Option ℕ) (d : ℕ) → deeper a b ≡ some d → (a ≡ some d) ⊎ (b ≡ some d)
unfolding deeper
deeper-some none b d h = inr h
deeper-some (some a) none d h = inl h
deeper-some (some a) (some b) d h = ground arith

deeper-le :
    (a b : Option ℕ) (d : ℕ)
    → ((k : ℕ) → deeper a b ≡ some k → k ≤ d)
    → ((k : ℕ) → a ≡ some k → k ≤ d) × ((k : ℕ) → b ≡ some k → k ≤ d)
unfolding deeper
deeper-le none b d f = ((λ k e. cc), f)
deeper-le (some a) none d f = (f, λ k e. cc)
deeper-le (some a) (some b) d f =
    ((λ k e. ground (arith, f a, f b)), λ k e. ground (arith, f a, f b))

deepest_from-Walked :
    (resource : Text) (start : Option ℕ) (m : Entries)
    → Walked resource start m (deepest_from resource start m)
unfolding deepest_from
deepest_from-Walked resource none [] = (refl, tt)
deepest_from-Walked resource (some d) [] = (inl refl, tt, λ k e. ground arith)
deepest_from-Walked resource start ((path, actions) ∷ m) =
    let here = match_resource path resource in
    extend here start path actions m (deepest_from resource (deeper here start) m) refl
      (deepest_from-Walked resource (deeper here start) m)
  where
    extend :
        (here start : Option ℕ) (path : Text) (actions : List Text) (m : Entries) (r : Option ℕ)
        → match_resource path resource ≡ here
        → Walked resource (deeper here start) m r
        → Walked resource start ((path, actions) ∷ m) r
    extend here start path actions m none e (s, none_left) =
        let (h, q) = deeper-none here start s in (q, (e ∙ h, none_left))
    extend here start path actions m (some d) e (from, bound, above) =
        let (h, q) = deeper-le here start d above in
        (
          (elim from [
            | inl s ↦ elim (deeper-some here start d s) [
              | inl x ↦ inr (inl (e ∙ x))
              | inr x ↦ inl x
            ]
            | inr r ↦ inr (inr r)
          ]),
          ((λ k x. h k (sym e ∙ x)), bound),
          q,
        )

abbrev depth_of : Text → DerivedPolicy → Option ℕ
depth_of resource doc = deepest_from resource (deepest_from resource none doc.grants) doc.revokes

two_walks :
    (resource : Text) (g : Option ℕ) (m n : Entries) (d : ℕ)
    → Walked resource none m g
    → Walked resource g n (some d)
    → (Reaches resource d m ⊎ Reaches resource d n) × Bounded resource d m × Bounded resource d n
two_walks resource none m n d (_, unmatched) (from, bound, above) = (
  (elim from [ inl x ↦ absurd (cc x) | inr r ↦ inr r ]),
  All-map (λ e. match_resource e.0 resource ≡ none) _ m (λ e x k y. cc) unmatched,
  bound,
)
two_walks resource (some k) m n d (reach, bound_m, _) (from, bound, above) = (
  (elim from [
    | inl x ↦ inl (elim reach [ inl y ↦ absurd (cc y) | inr y ↦ Any-map _ _ m (λ e z. z ∙ x) y ])
    | inr r ↦ inr r
  ]),
  All-map (λ e. (j : ℕ) → match_resource e.0 resource ≡ some j → j ≤ k) _ m
      (λ e x j y. omega (arith, x j y, above k refl)) bound_m,
  bound,
)

-- The two loops end with the deepest depth.
depth-IsDeepest :
    (resource : Text) (doc : DerivedPolicy) (d : ℕ)
    → depth_of resource doc ≡ some d
    → IsDeepest resource d doc
depth-IsDeepest resource doc d e =
    two_walks resource (deepest_from resource none doc.grants) doc.grants doc.revokes d
      (deepest_from-Walked resource none doc.grants)
      (rw e at (deepest_from-Walked resource (deepest_from resource none doc.grants) doc.revokes))

Reaches-le :
    (resource : Text) (d k : ℕ) (m : Entries) → Reaches resource d m → Bounded resource k m → d ≤ k
Reaches-le resource d k [] r b = elim r [ ]
Reaches-le resource d k (e ∷ m) (inl r) b = b.0 d r
Reaches-le resource d k (e ∷ m) (inr r) b = Reaches-le resource d k m r b.1

IsDeepest-le :
    (resource : Text) (doc : DerivedPolicy) (d k : ℕ)
    → Reaches resource d doc.grants ⊎ Reaches resource d doc.revokes
    → IsDeepest resource k doc
    → d ≤ k
IsDeepest-le resource doc d k (inl r) b = Reaches-le resource d k doc.grants r b.1
IsDeepest-le resource doc d k (inr r) b = Reaches-le resource d k doc.revokes r b.2

abbrev Unmatched : Text → Entries → Type 0
Unmatched resource m = All (λ e. match_resource e.0 resource ≡ none) m

two_walks_none :
    (resource : Text) (g : Option ℕ) (m n : Entries)
    → Walked resource none m g
    → Walked resource g n none
    → Unmatched resource m × Unmatched resource n
two_walks_none resource none m n (_, a) (_, b) = (a, b)
two_walks_none resource (some k) m n v (x, b) = absurd (cc x)

Unmatched-Reaches :
    (resource : Text) (d : ℕ) (m : Entries) → Unmatched resource m → ¬ Reaches resource d m
Unmatched-Reaches resource d [] u r = r
Unmatched-Reaches resource d (e ∷ m) u (inl r) = cc (u.0, r)
Unmatched-Reaches resource d (e ∷ m) u (inr r) = Unmatched-Reaches resource d m u.1 r

IsDeepest-depth :
    (resource : Text) (doc : DerivedPolicy) (d : ℕ)
    → IsDeepest resource d doc
    → depth_of resource doc ≡ some d
IsDeepest-depth resource doc d h = elim (Option-cases (depth_of resource doc)) [
  | inl e ↦
      let (u, v) =
        two_walks_none resource (deepest_from resource none doc.grants) doc.grants doc.revokes
          (deepest_from-Walked resource none doc.grants)
          (rw e at
            (deepest_from-Walked resource (deepest_from resource none doc.grants) doc.revokes)) in
      absurd (elim h.0 [
        | inl r ↦ Unmatched-Reaches resource d doc.grants u r
        | inr r ↦ Unmatched-Reaches resource d doc.revokes v r
      ])
  | inr (k, e) ↦
      let top = depth-IsDeepest resource doc k e in
      let same : k ≡ d =
        omega
          (arith, IsDeepest-le resource doc d k h.0 top, IsDeepest-le resource doc k d top.0 h) in
      rw (← same) e
]

-- The policy allows the action: at the deepest level that matches the resource an entry grants
-- it, and none revokes it.
abbrev pub Allows : DerivedPolicy → Text → Text → Type 0
Allows doc resource action =
    (d : ℕ) × IsDeepest resource d doc
    × Settles resource action d doc.grants
    × ¬ Settles resource action d doc.revokes

decide_at-Allows :
    (doc : DerivedPolicy) (resource action : Text)
    → decide_at doc resource action (depth_of resource doc) ≡ true
    → Allows doc resource action
unfolding decide_at
decide_at-Allows doc resource action h = elim (Option-cases (depth_of resource doc)) [
  | inl e ↦ ground (arith, e)
  | inr (d, e) ↦
      let h' = rw e at h in
      (
        d,
        depth-IsDeepest resource doc d e,
        (covering_iff resource action d doc.grants).0 (ground arith),
        λ r. ground (arith, (covering_iff resource action d doc.revokes).1 r),
      )
]

Allows-decide_at :
    (doc : DerivedPolicy) (resource action : Text)
    → Allows doc resource action
    → decide_at doc resource action (depth_of resource doc) ≡ true
unfolding decide_at
Allows-decide_at doc resource action (d, top, granted, kept) =
    rw (IsDeepest-depth resource doc d top) (
      ground (
        arith,
        (covering_iff resource action d doc.grants).1 granted,
        λ (e : covering resource action d doc.revokes ≡ true).
            kept ((covering_iff resource action d doc.revokes).0 e),
      ))

-- `authorize` allows a request exactly if the policy binds the subject and, at the deepest depth
-- at which an entry of either map matches the resource, a grant covers the action (trimmed, in
-- upper case) and no revoke does. All else is denied: an unmatched path, a level that only
-- covers other actions, and a revoke beside the grant.
pub authorize_iff :
    (subject : Text) (doc : DerivedPolicy) (resource action : Text)
    → (authorize subject doc resource action ≡ true)
      ↔ (Binds doc subject × Allows doc resource (to_upper (trim_space action)))
unfolding authorize
authorize_iff subject doc resource action =
    let a = to_upper (trim_space action) in
    (
      (λ h. (
        (subject_matches_iff doc subject).0 (ground arith),
        decide_at-Allows doc resource a (ground arith),
      )),
      λ (binds, allowed).
          rw ((subject_matches_iff doc subject).1 binds) (Allows-decide_at doc resource a allowed),
    )
