-- ===== src/Policy/Enforce/Requests.antt =====
-- Which requests the check of policy/middleware.go lets through.
use thingsflow.Base.{
  List, [], ◌∷◌, ◌++◌, ◌≡◌, ◌≢◌, ◌↔◌, refl, subst, true, false, Option, none, some, arith,
  Bool-cases, inl, inr, ◌⊎◌, All,
}
use thingsflow.Base.Text.{Text, codes, text_eq, text_eq_iff}
use thingsflow.Base.Result.{Result, ok, err}
use thingsflow.Policy.Authorize.{DerivedPolicy, Claims, subject_for_claims, authorize, sys_admin}
use thingsflow.Policy.Store.{StoreError, resolve}
use thingsflow.Policy.Enforce.{
  Service, Context, resolved, no_entity, lookup_failed, proceed, enforcement_enabled,
  all_authorized, check_paths, check_policy, check_context, enforce_entity_request, check_list,
  default_reference, enforce_list,
}

all_authorized_iff :
    (subject : Text) (doc : DerivedPolicy) (action : Text) (paths : List Text)
    → (all_authorized subject doc action paths ≡ true)
      ↔ All (λ p. authorize subject doc p action ≡ true) paths
unfolding all_authorized
all_authorized_iff subject doc action [] = ((λ h. tt), (λ h. refl))
all_authorized_iff subject doc action (p ∷ paths) =
    let ih = all_authorized_iff subject doc action paths in
    elim (Bool-cases (authorize subject doc p action)) [
      | inl e ↦ ((λ h. (e, ih.0 (rw e at h))), (λ h. rw e (ih.1 h.1)))
      | inr e ↦ ((λ h. cc (rw e at h)), (λ h. cc (h.0, e)))
    ]

-- The document that the reference of the entity resolves to covers every path for the subject.
abbrev pub Covered : Service → Text → Text → (Text → Option (List Text)) → Text → Text → Type 0
Covered s subject action paths tenant policy_id =
    (doc : DerivedPolicy) × (ps : List Text) × (resolve tenant policy_id s.answered s.catalog
      ≡ ok doc)
    × (paths tenant ≡ some ps)
    × All (λ p. authorize subject doc p action ≡ true) ps

-- The request's entity is missing, or its policy covers the paths.
abbrev pub Passes : Service → Text → Text → (Text → Option (List Text)) → Context → Type 0
Passes s subject action paths context =
    (context ≡ no_entity)
    ⊎ ((tenant policy_id : Text) × (context ≡ resolved tenant policy_id)
        × Covered s subject action paths tenant policy_id)

check_paths_iff :
    (subject : Text) (doc : DerivedPolicy) (action : Text) (paths : Option (List Text))
    → (check_paths subject doc action paths ≡ proceed)
      ↔ ((ps : List Text) × (paths ≡ some ps) × All (λ p. authorize subject doc p action ≡ true) ps)
unfolding check_paths
check_paths_iff subject doc action none = ((λ h. cc), (λ h. cc (h.1)))
check_paths_iff subject doc action (some ps) =
    elim (Bool-cases (all_authorized subject doc action ps)) [
      | inl e ↦ ((λ h. (ps, refl, (all_authorized_iff subject doc action ps).0 e)), (λ h. rw e))
      | inr e ↦ (
        (λ h. cc (rw e at h)),
        (λ h.
            let (qs, q, a) = h in
            let same : qs ≡ ps = cc q in
            let b = (all_authorized_iff subject doc action ps).1 (rw same at a) in cc (b, e)),
      )
    ]

check_policy_iff :
    (s : Service) (subject action : Text) (paths : Text → Option (List Text))
    (tenant policy_id : Text)
    → (check_policy subject action paths tenant (resolve tenant policy_id s.answered s.catalog)
        ≡ proceed)
      ↔ Covered s subject action paths tenant policy_id
unfolding check_policy
check_policy_iff s subject action paths tenant policy_id =
    go (resolve tenant policy_id s.answered s.catalog) refl
  where
    go :
        (o : Result StoreError DerivedPolicy)
        → resolve tenant policy_id s.answered s.catalog ≡ o
        → (check_policy subject action paths tenant o ≡ proceed) ↔ (
            (doc : DerivedPolicy) × (ps : List Text) × (o ≡ ok doc)
            × (paths tenant ≡ some ps)
            × All (λ p. authorize subject doc p action ≡ true) ps)
    go (err e) q = ((λ h. cc), (λ h. cc (h.2)))
    go (ok doc) q = (
      (λ h.
          let (ps, e, a) = (check_paths_iff subject doc action (paths tenant)).0 h in
          (doc, ps, refl, e, a)),
      (λ h.
          let (d, ps, e, f, a) = h in
          let same : d ≡ doc = cc e in
          (check_paths_iff subject doc action (paths tenant)).1
            (ps, f, subst (λ x. All (λ p. authorize subject x p action ≡ true) ps) same a)),
    )

check_context_iff :
    (s : Service) (subject action : Text) (paths : Text → Option (List Text)) (context : Context)
    → (check_context s subject action paths context ≡ proceed)
      ↔ Passes s subject action paths context
unfolding check_context
check_context_iff s subject action paths no_entity = ((λ h. inl refl), (λ h. refl))
check_context_iff s subject action paths lookup_failed =
    ((λ h. cc), (λ h. elim h [ inl e ↦ cc e | inr (t, i, e, c) ↦ cc e ]))
check_context_iff s subject action paths (resolved tenant policy_id) = (
  (λ h.
      inr
        (tenant, policy_id, refl, (check_policy_iff s subject action paths tenant policy_id).0 h)),
  (λ h. elim h [
    | inl e ↦ cc e
    | inr (t, i, e, c) ↦
        let same_tenant : t ≡ tenant = cc e in
        let same_policy : i ≡ policy_id = cc e in
        (check_policy_iff s subject action paths tenant policy_id).1 (
          subst (λ x. Covered s subject action paths x policy_id) same_tenant
            (subst (λ x. Covered s subject action paths t x) same_policy c))
  ]),
)

-- An authenticated request goes on exactly if the check is switched off, the subject is SYS_ADMIN,
-- or there is a database and either the entity is missing, or its reference resolves to a document
-- that authorizes the subject for the action on every path that is derived of the request. A
-- request without valid claims is refused.
pub enforce_iff :
    (s : Service) (claims : Claims) (context : Context) (action : Text)
    (paths : Text → Option (List Text))
    → ((enforce_entity_request s (some claims) context action paths ≡ proceed) ↔ (
        (enforcement_enabled s ≡ false)
        ⊎ (subject_for_claims claims ≡ sys_admin)
        ⊎ ((s.ready ≡ true) × Passes s (subject_for_claims claims) action paths context)))
      × (enforce_entity_request s none context action paths ≢ proceed)
unfolding enforce_entity_request
enforce_iff s claims context action paths = (
  (
    (λ h. elim (Bool-cases (enforcement_enabled s)) [
      | inr off ↦ inl off
      | inl on ↦ elim (Bool-cases (text_eq (subject_for_claims claims) sys_admin)) [
        | inl admin ↦ inr (inl ((text_eq_iff _ sys_admin).0 admin))
        | inr user ↦ elim (Bool-cases s.ready) [
          | inr absent ↦ cc (rw (on, user, absent) at h)
          | inl ready ↦ inr (
              inr (
                ready,
                (check_context_iff s (subject_for_claims claims) action paths context).0
                    (rw (on, user, ready) at h),
              ))
        ]
      ]
    ]),
    (λ h. elim h [
      | inl off ↦ rw off
      | inr (inl admin) ↦ elim (Bool-cases (enforcement_enabled s)) [
        | inr off ↦ rw off
        | inl on ↦ rw (on, (text_eq_iff _ sys_admin).1 admin)
      ]
      | inr (inr (ready, p)) ↦
          let checked = (check_context_iff s _ action paths context).1 p in
          elim (Bool-cases (enforcement_enabled s)) [
            | inr off ↦ rw off
            | inl on ↦ elim (Bool-cases (text_eq (subject_for_claims claims) sys_admin)) [
              | inl admin ↦ rw (on, admin)
              | inr user ↦ rw (on, user, ready, checked)
            ]
          ]
    ]),
  ),
  (λ h. cc h),
)

check_list_iff :
    (subject tenant : Text) (o : Result StoreError DerivedPolicy)
    → (check_list subject tenant o ≡ proceed) ↔ (
        (doc : DerivedPolicy) × (o ≡ ok doc)
        × (authorize subject doc (codes "thing:/" ++ tenant) (codes "READ") ≡ true))
unfolding check_list
check_list_iff subject tenant (err e) = ((λ h. cc), (λ h. cc (h.1)))
check_list_iff subject tenant (ok doc) =
    elim (Bool-cases (authorize subject doc (codes "thing:/" ++ tenant) (codes "READ"))) [
      | inl a ↦ ((λ h. (doc, refl, a)), (λ h. rw a))
      | inr a ↦ (
        (λ h. cc (rw a at h)),
        (λ h. let (d, e, b) = h in let same : d ≡ doc = cc e in cc (rw same at b, a)),
      )
    ]

-- An authenticated request for the list of the twins goes on exactly if the check is switched off,
-- the subject is SYS_ADMIN, the claims name no tenant, or there is a database and the tenant's
-- default policy resolves to a document that authorizes the subject to READ the tenant's root. A
-- request without valid claims is refused.
pub enforce_list_iff :
    (s : Service) (claims : Claims)
    → ((enforce_list s (some claims) ≡ proceed) ↔ (
        (enforcement_enabled s ≡ false)
        ⊎ (subject_for_claims claims ≡ sys_admin)
        ⊎ (claims.tenant_id ≡ [])
        ⊎ ((s.ready ≡ true)
            × (doc : DerivedPolicy) × (resolve claims.tenant_id
                  (default_reference claims.tenant_id)
                  s.answered
                  s.catalog
                ≡ ok doc)
            × (authorize
                  (subject_for_claims claims)
                  doc
                  (codes "thing:/" ++ claims.tenant_id)
                  (codes "READ")
                ≡ true))))
      × (enforce_list s none ≢ proceed)
unfolding enforce_list
enforce_list_iff s claims = (
  ground (
    arith,
    text_eq_iff (subject_for_claims claims) sys_admin,
    text_eq_iff claims.tenant_id [],
    check_list_iff (subject_for_claims claims) claims.tenant_id
        (resolve claims.tenant_id (default_reference claims.tenant_id) s.answered s.catalog),
  ),
  (λ h. cc h),
)
