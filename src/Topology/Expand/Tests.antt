-- ===== src/Topology/Expand/Tests.antt =====
-- Runs of the option `expand`, and the witnesses of its theorems.
use thingsflow.Base.{
  ℕ, ◌+◌, ◌≤◌, List, [], ◌∷◌, ◌≡◌, ◌≢◌, ◌⊎◌, refl, sym, ◌∙◌, ap, subst, inl, inr, true, some, In,
  All-In, length, arith,
}
use thingsflow.Base.Text.{Text, codes, text_eq, text_eq_iff}
use thingsflow.Base.Sort.{text_leb}
use thingsflow.Base.Result.{ok, err}
use thingsflow.Base.Dict.{get}
use thingsflow.Policy.Enforce.Handler.{Entity}
use thingsflow.Topology.{EntityRef, absent, directed, common, normalize_ref}
use thingsflow.Topology.Traverse.{Link, edge_source, neighbors_tenant}
use thingsflow.Topology.Traverse.Query.{expand_with_cte}
use thingsflow.Topology.Traverse.Walk.{Walk, here, onward}
use thingsflow.Topology.Expand.{
  parse_expand_spec, expand_depths, node_key, depth_too_large, malformed_spec,
}
use thingsflow.Topology.Expand.Annotate.{
  Database, Projection, EmbeddedState, bare, of_row, expand_relations, neighbors_query,
}
use thingsflow.Topology.Expand.Embedded.{traversal_tenant, Isolated}
use thingsflow.Topology.Expand.Answer.{expand_relations-Isolated, expand_relations-bounded}
use thingsflow.Topology.Expand.Agree.{Normal, source, neighbors, expand_with_cte-labelled}

abbrev plant : EntityRef
plant = record { type = codes "ASSET"; id = codes "p" }

abbrev line : EntityRef
line = record { type = codes "ASSET"; id = codes "l" }

abbrev tenant : Text
tenant = codes "t"

abbrev line_row : Entity
line_row = record { id = codes "l"; tenant_id = tenant }

abbrev database : Database
database = record {
  ready = true;
  executed = true;
  answers = λ r. true;
  before = text_leb;
  catalog = record {
    relation_types = [];
    entities = [];
    registry = [];
    models = [];
    relation_enforce = [];
  };
  twins = record {
    devices = [];
    assets = record { id = codes "p"; tenant_id = tenant } ∷ line_row ∷ [];
    registry = [];
    entity_answered = true;
    registry_answered = true;
  };
  graph = record {
    edges =
        record {
          tenant_id = tenant;
          from = plant;
          to = line;
          relation_type = codes "Contains";
          relation_type_group = common;
          direction = directed;
          metadata = absent;
          version = 1;
        }
        ∷ [];
    relations = [];
  };
}

too_deep : parse_expand_spec (codes " relations(11)") ≡ err depth_too_large
unfolding parse_expand_spec
too_deep = refl

no_depth : parse_expand_spec (codes "relations()") ≡ err malformed_spec
unfolding parse_expand_spec
no_depth = refl

abbrev line_projection : EmbeddedState → Projection
line_projection state = record {
  type = [];
  group = codes "COMMON";
  direction = codes "OUT";
  source = codes "t:asset:p";
  target = codes "t:asset:l";
  source_entity = plant;
  target_entity = line;
  depth = 1;
  state = some state;
}

abbrev line_answer : List Projection
line_answer = line_projection (of_row line_row) ∷ []

answered : expand_relations database [] tenant plant (codes "relations(2)") [] ≡ ok line_answer
unfolding expand_relations text_leb
answered = refl

abbrev foreign_database : Database
foreign_database = record database {
  twins = record {
    devices = [];
    assets = record { id = codes "l"; tenant_id = codes "u" } ∷ [];
    registry = [];
    entity_answered = true;
    registry_answered = true;
  };
}

-- Another tenant's row is not embedded.
foreign_answered :
    expand_relations foreign_database [] tenant plant (codes "relations(2)") []
    ≡ ok (line_projection (bare line) ∷ [])
unfolding expand_relations text_leb
foreign_answered = refl

expand_relations-Isolated_example :
    Isolated (traversal_tenant [] tenant) (line_projection (of_row line_row))
expand_relations-Isolated_example =
    expand_relations-Isolated database [] tenant plant (codes "relations(2)") [] line_answer
      (λ p i. elim i [ ]) answered (line_projection (of_row line_row)) (inl refl)

expand_relations-bounded_example :
    (depth : ℕ) × (parse_expand_spec (codes "relations(2)") ≡ ok depth)
    × (1 ≤ depth)
    × (depth ≤ 10)
    × (length line_answer ≤ 0 + 5000)
    × ((p : Projection) → In p line_answer → (1 ≤ p.depth) × (p.depth ≤ depth))
expand_relations-bounded_example =
    expand_relations-bounded database [] tenant plant (codes "relations(2)") [] line_answer
      (λ e. cc e) answered

-- What is reached from the plant.
reached :
    (n : EntityRef) (k : ℕ) → Walk (neighbors database tenant) plant n k → (n ≡ plant) ⊎ (n ≡ line)
unfolding neighbors_tenant
reached n k here = inl refl
reached n k (onward {m = m} {k = j} w i) = elim (reached m j w) [
  | inl e ↦ elim (subst (λ x. In n (neighbors database tenant x)) e i) [
    | inl q ↦ inr q
    | inr x ↦ elim x [ ]
  ]
  | inr e ↦ elim (subst (λ x. In n (neighbors database tenant x)) e i) [ ]
]

keys-apart : node_key plant ≢ node_key line
unfolding text_eq node_key
keys-apart = λ e. ground (arith, (text_eq_iff (node_key plant) (node_key line)).1 e)

keys-distinct :
    (a b : EntityRef)
    → (a ≡ plant) ⊎ (a ≡ line)
    → (b ≡ plant) ⊎ (b ≡ line)
    → node_key a ≡ node_key b
    → a ≡ b
keys-distinct a b (inl p) (inl q) e = p ∙ sym q
keys-distinct a b (inr p) (inr q) e = p ∙ sym q
keys-distinct a b (inl p) (inr q) e = absurd (keys-apart (sym (ap node_key p) ∙ e ∙ ap node_key q))
keys-distinct a b (inr p) (inl q) e =
    absurd (keys-apart (sym (ap node_key q) ∙ sym e ∙ ap node_key p))

source-Normal : (l : Link) → In l (source database tenant) → Normal l.nb
unfolding edge_source normalize_ref
source-Normal l i = All-In (λ x. Normal x.nb) (source database tenant) (refl, tt) i

expand_with_cte-labelled_example :
    (d : ℕ) × (get (expand_depths (neighbors_query database tenant) plant 2) (node_key line)
      ≡ some d)
    × (d ≤ 2)
    × Walk (neighbors database tenant) plant line d
    × ((j : ℕ) → Walk (neighbors database tenant) plant line j → d ≤ j)
expand_with_cte-labelled_example =
    expand_with_cte-labelled database tenant source-Normal plant 2 (plant ∷ line ∷ [])
      (unfold normalize_ref in refl) (λ r. refl)
      (λ a b i j w v e. keys-distinct a b (reached a i w) (reached b j v) e)
      (unfold expand_with_cte text_leb in refl) line (inr (inl refl))
