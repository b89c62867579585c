-- ===== src/Topology/Traverse/Tenant.antt =====
-- The tenant of what a walk in flow-core/internal/topology/topology.go reaches.
use thingsflow.Base.{
  ℕ, List, ◌≡◌, ◌⊎◌, refl, sym, ◌∙◌, ap, subst, inl, inr, Bool, true, ◌&&◌, Option, none, some, In,
  Bool-cases, &&_iff, ||_iff,
}
use thingsflow.Base.Text.{Text, codes, text_eq, text_eq_iff, contains}
use thingsflow.Base.Result.{ok}
use thingsflow.Topology.{
  EntityRef, Edge, Relation, Owned, Catalog, Graph, normalize_entity_type, normalize_ref, has_table,
  resolve_entity_tenant, common,
}
use thingsflow.Topology.Model.{is_bidirectional}
use thingsflow.Topology.Store.Saved.{Tenanted}
use thingsflow.Topology.Traverse.{
  Link, along, against, select, selected, is_directed, legacy_tenant, is_tenant, legacy_selected,
  legacy_along, legacy_against, union_from, union_to, neighbor_union, edge_source, neighbors_of,
  direction_of, types_of,
}
use thingsflow.Topology.Traverse.Query.{expand_with_cte}
use thingsflow.Topology.Traverse.Walk.{here, onward, Within}
use thingsflow.Topology.Traverse.Rows.{In-select_iff, In-four_iff}
use thingsflow.Topology.Traverse.Levels.{In-neighbors_of}
use thingsflow.Topology.Traverse.Expanded.{expand_with_cte-Within}

normal :
    (t : Text) (s : Text)
    → normalize_entity_type s ≡ s
    → text_eq t s ≡ true
    → normalize_entity_type t ≡ t
normal t s n h = let e : t ≡ s = (text_eq_iff t s).0 h in rw e n

-- The names of the tables are normal.
has_table-normal : (t : Text) → has_table t ≡ true → normalize_entity_type t ≡ t
unfolding has_table normalize_entity_type
has_table-normal t h = elim ((||_iff (text_eq t (codes "ASSET")) _).0 h) [
  | inl e ↦ normal t (codes "ASSET") refl e
  | inr h1 ↦ elim ((||_iff (text_eq t (codes "DEVICE")) _).0 h1) [
    | inl e ↦ normal t (codes "DEVICE") refl e
    | inr h2 ↦ elim ((||_iff (text_eq t (codes "CUSTOMER")) _).0 h2) [
      | inl e ↦ normal t (codes "CUSTOMER") refl e
      | inr h3 ↦ elim ((||_iff (text_eq t (codes "ENTITY_VIEW")) _).0 h3) [
        | inl e ↦ normal t (codes "ENTITY_VIEW") refl e
        | inr h4 ↦ elim ((||_iff (text_eq t (codes "DASHBOARD")) _).0 h4) [
          | inl e ↦ normal t (codes "DASHBOARD") refl e
          | inr h5 ↦ elim ((||_iff (text_eq t (codes "DEVICE_PROFILE")) _).0 h5) [
            | inl e ↦ normal t (codes "DEVICE_PROFILE") refl e
            | inr e ↦ normal t (codes "ASSET_PROFILE") refl e
          ]
        ]
      ]
    ]
  ]
]

-- An end that has the tenant in the query has it when its owner is resolved.
legacy_tenant-resolve :
    (entities : List Owned) (r : EntityRef) (t : Text)
    → legacy_tenant entities r ≡ some t
    → resolve_entity_tenant entities r ≡ some t
unfolding legacy_tenant resolve_entity_tenant normalize_ref
legacy_tenant-resolve entities r t h = elim (Bool-cases (text_eq r.type (codes "TENANT"))) [
  | inl e ↦
      rw (normal r.type (codes "TENANT") (unfold normalize_entity_type in refl) e)
        (rw e (rw e at h))
  | inr e ↦ elim (Bool-cases (has_table r.type)) [
    | inl q ↦ rw (has_table-normal r.type q) (rw (e, q) (rw (e, q) at h))
    | inr q ↦ cc (rw (e, q) at h)
  ]
]

is_tenant_lem : (tenant : Text) (o : Option Text) → is_tenant tenant o ≡ true → o ≡ some tenant
unfolding is_tenant
is_tenant_lem tenant none h = cc
is_tenant_lem tenant (some t) h = ap some ((text_eq_iff t tenant).0 h)

module _ (c : Catalog) (tenant : Text) (types : List Text) (g : Graph)
    (tenanted : Tenanted c g) where
  abbrev OfTenant : EntityRef → Type 0
  OfTenant r = resolve_entity_tenant c.entities r ≡ some tenant

  selected-owned :
      (e : Edge) (more : Bool)
      → In e g.edges
      → (selected tenant types e && more) ≡ true
      → OfTenant e.from × OfTenant e.to
  unfolding selected
  selected-owned e more i h =
      let s = ((&&_iff (selected tenant types e) more).0 h).0 in
      let t = (text_eq_iff e.tenant_id tenant).0 ((&&_iff (text_eq e.tenant_id tenant) _).0 s).0 in
      let (from, to) = tenanted e i in (from ∙ ap some t, to ∙ ap some t)

  along-owned :
      (p : Edge → Bool) (l : Link)
      → In l (select (λ e. selected tenant types e && p e) along g.edges)
      → OfTenant l.nb
  unfolding along
  along-owned p l h =
      let (e, i, s, q) =
        (In-select_iff (λ e. selected tenant types e && p e) along g.edges l).0 h in
      subst (λ x. OfTenant x.nb) (sym q) (selected-owned e (p e) i s).1

  against-owned :
      (p : Edge → Bool) (l : Link)
      → In l (select (λ e. selected tenant types e && p e) against g.edges)
      → OfTenant l.nb
  unfolding against
  against-owned p l h =
      let (e, i, s, q) =
        (In-select_iff (λ e. selected tenant types e && p e) against g.edges l).0 h in
      subst (λ x. OfTenant x.nb) (sym q) (selected-owned e (p e) i s).0

  legacy-owned :
      (end : Relation → EntityRef) (columns : Relation → Link) (l : Link)
      → ((r : Relation) → (columns r).nb ≡ end r)
      → In l (select (λ r. legacy_selected c tenant types g.edges (end r) r) columns g.relations)
      → OfTenant l.nb
  unfolding legacy_selected
  legacy-owned end columns l same h =
      let (r, i, s, q) =
        (In-select_iff (λ r. legacy_selected c tenant types g.edges (end r) r) columns g.relations
            l).0
          h in
      let s1 = ((&&_iff (text_eq r.relation_type_group common) _).0 s).1 in
      let s2 = ((&&_iff (contains types r.relation_type) _).0 s1).1 in
      let s3 = ((&&_iff (is_tenant tenant (legacy_tenant c.entities (end r))) _).0 s2).0 in
      subst OfTenant (sym (ap (λ x. x.nb) q ∙ same r)) (
        legacy_tenant-resolve c.entities (end r) tenant
          (is_tenant_lem tenant (legacy_tenant c.entities (end r)) s3))

  union_from-owned : (l : Link) → In l (union_from c tenant types g) → OfTenant l.nb
  unfolding union_from legacy_along
  union_from-owned l h = elim ((In-four_iff l _ _ _ _).0 h) [
    | inl i ↦ along-owned is_directed l i
    | inr (inl i) ↦ along-owned is_bidirectional l i
    | inr (inr (inl i)) ↦ against-owned is_bidirectional l i
    | inr (inr (inr i)) ↦ legacy-owned (λ r. r.to) legacy_along l (λ r. refl) i
  ]

  union_to-owned : (l : Link) → In l (union_to c tenant types g) → OfTenant l.nb
  unfolding union_to legacy_against
  union_to-owned l h = elim ((In-four_iff l _ _ _ _).0 h) [
    | inl i ↦ against-owned is_directed l i
    | inr (inl i) ↦ along-owned is_bidirectional l i
    | inr (inr (inl i)) ↦ against-owned is_bidirectional l i
    | inr (inr (inr i)) ↦ legacy-owned (λ r. r.from) legacy_against l (λ r. refl) i
  ]

pub edge_source-owned :
    (c : Catalog) (tenant direction : Text) (types : List Text) (g : Graph)
    → Tenanted c g
    → (l : Link) → In l (edge_source c tenant direction types g)
    → resolve_entity_tenant c.entities l.nb ≡ some tenant
unfolding edge_source neighbor_union
edge_source-owned c tenant direction types g tenanted l h =
    elim (Bool-cases (text_eq (direction_of direction) (codes "TO"))) [
      | inl e ↦ union_to-owned c tenant (types_of types) g tenanted l (rw e at h)
      | inr e ↦ union_from-owned c tenant (types_of types) g tenanted l (rw e at h)
    ]

Within-owned :
    (c : Catalog) (tenant direction : Text) (types : List Text) (g : Graph) (root n : EntityRef)
    (depth : ℕ)
    → Tenanted c g
    → Within (neighbors_of (edge_source c tenant direction types g)) root depth n
    → (n ≡ root) ⊎ (resolve_entity_tenant c.entities n ≡ some tenant)
Within-owned c tenant direction types g root n depth tenanted (k, here, d) = inl refl
Within-owned c tenant direction types g root n depth tenanted (k, onward {m = m} w i, d) =
    let (l, j, a, b) = (In-neighbors_of (edge_source c tenant direction types g) m n).0 i in
    inr (
      subst (λ x. resolve_entity_tenant c.entities x ≡ some tenant) b
        (edge_source-owned c tenant direction types g tenanted l j))

-- A normalized type is one of the tables', or the tenant's, where an owner is resolved.
resolve-normalize :
    (entities : List Owned) (r : EntityRef) (t : Text)
    → resolve_entity_tenant entities r ≡ some t
    → resolve_entity_tenant entities (normalize_ref r) ≡ some t
unfolding resolve_entity_tenant normalize_ref
resolve-normalize entities r t h =
    let type = normalize_entity_type r.type in
    elim (Bool-cases (text_eq type (codes "TENANT"))) [
      | inl e ↦ rw (normal type (codes "TENANT") (unfold normalize_entity_type in refl) e) h
      | inr e ↦ elim (Bool-cases (has_table type)) [
        | inl q ↦ rw (has_table-normal type q) h
        | inr q ↦ cc (rw (e, q) at h)
      ]
    ]

-- ExpandWithCTE stays within the tenant: whatever the direction, the types and the limits, what it
-- returns, other than the root, is owned by the tenant, also where it is reached over a row of
-- `relation`, which has no tenant. Every edge is within the tenant of its ends.
pub expand_with_cte-owned :
    (before : Text → Text → Bool) (executed : Bool) (c : Catalog) (tenant : Text) (root : EntityRef)
    (direction : Text) (types : List Text) (max_depth max_nodes : ℕ) (g : Graph)
    (out : List EntityRef)
    → Tenanted c g
    → expand_with_cte before executed c tenant root direction types max_depth max_nodes g ≡ ok out
    → (r : EntityRef) → In r out
    → (r ≡ normalize_ref (normalize_ref root)) ⊎ (resolve_entity_tenant c.entities r ≡ some tenant)
expand_with_cte-owned before executed c tenant root direction types max_depth max_nodes g out
      tenanted h r i =
    let (n, e, w) =
      expand_with_cte-Within before executed c tenant root direction types max_depth max_nodes g out
        h r i in
    elim (Within-owned c tenant direction types g (normalize_ref root) n max_depth tenanted w) [
      | inl same ↦ inl (e ∙ ap normalize_ref same)
      | inr owned ↦ inr (
          subst (λ x. resolve_entity_tenant c.entities x ≡ some tenant) (sym e)
            (resolve-normalize c.entities n tenant owned))
    ]
