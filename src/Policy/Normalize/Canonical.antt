-- ===== src/Policy/Normalize/Canonical.antt =====
-- `Normalize` as a whole: the policies that it returns, and that it leaves them alone.
use thingsflow.Base.{
  ◌≡◌, ◌≢◌, refl, sym, ap, ◌∙◌, subst, List, [], ◌∷◌, true, false, not, Option, none, some, arith,
  All,
}
use thingsflow.Base.Text.{Text, text_eq, text_eq_iff, text_eq_refl}
use thingsflow.Base.Sort.{sort_by, Sorted, sort_by-Sorted, sort_by-eq_self, All-sort_by}
use thingsflow.Base.Collect.{Distinct, Distinct-sort_by, each-Collected, each-eq_self}
use thingsflow.Base.Result.{Result, ok, err, each, >>=-eq-ok, guard, guard-eq-ok}
use thingsflow.Policy.Lexical.{IdError, normalize_policy_id, validate_version}
use thingsflow.Policy.Lexical.Ident.{normalize_policy_id_lem}
use thingsflow.Policy.Authorize.{DerivedPolicy}
use thingsflow.Policy.Normalize.{
  Entry, Label, Policy, PolicyError, itself, entry_key, twin, grant, revoke, checked, add_subject,
  add_subjects, add_resource, add_resources, add_entry, normalize_entries, no_elements, derive,
  normalize_decoded, wrapped, default_kind, bad_kind, bad_version, no_subjects,
}
use thingsflow.Policy.Normalize.Rounds.{
  GoodSubject, GoodResource, add_subject-Appends, add_subject_good, add_resource-Appends,
  add_resource_good,
}
use thingsflow.Policy.Normalize.Entries.{
  GoodEntry, add_entry-Appends, add_entry_good, sort_by-ne-nil,
}

-- Good items with different keys, sorted by them.
pub record IsNormalList {A : Type 0} (key : A → Text) (G : A → Type 0) (l : List A) : Type 0 where
  pub good : All G l
  pub distinct : Distinct key l
  pub sorted : Sorted key l

pub record IsNormal (p : Policy) : Type 0 where
  pub policy_id : normalize_policy_id p.policy_id ≡ ok p.policy_id
  pub version : validate_version p.version ≡ none
  pub kind : p.kind ≡ twin
  pub some_subject : p.subjects ≢ []
  pub subjects : IsNormalList itself GoodSubject p.subjects
  pub resources : IsNormalList itself GoodResource p.resources
  pub grants : IsNormalList entry_key GoodEntry p.grants
  pub revokes : IsNormalList entry_key GoodEntry p.revokes

sort_by-IsNormalList :
    {A : Type 0} (key : A → Text) (G : A → Type 0) (l : List A)
    → All G l × Distinct key l
    → IsNormalList key G (sort_by key l)
sort_by-IsNormalList key G l (g, d) = record {
  good = All-sort_by key G l g;
  distinct = Distinct-sort_by key l d;
  sorted = sort_by-Sorted key l;
}

normalize_entries-IsNormalList :
    (label : Label) (raws l : List Entry)
    → normalize_entries label raws ≡ ok l
    → IsNormalList entry_key GoodEntry l
unfolding normalize_entries
normalize_entries-IsNormalList label raws l h =
    let (out, e, q) = >>=-eq-ok (each (add_entry label) [] raws) _ h in
    let same : sort_by entry_key out ≡ l = ground arith in
    rw (← same) (
      sort_by-IsNormalList entry_key GoodEntry out
        (each-Collected entry_key GoodEntry (add_entry label) (add_entry-Appends label) raws out e))

normalize_entries-eq_self :
    (label : Label) (l : List Entry)
    → IsNormalList entry_key GoodEntry l
    → normalize_entries label l ≡ ok l
unfolding normalize_entries
normalize_entries-eq_self label l n =
    rw
      (each-eq_self entry_key GoodEntry (add_entry label) (add_entry_good label) [] l n.good
        n.distinct)
      (ap ok (sort_by-eq_self entry_key l n.sorted))

add_subjects-Normal :
    (raws l : List Text)
    → add_subjects raws ≡ ok l
    → IsNormalList itself GoodSubject (sort_by itself l)
unfolding add_subjects
add_subjects-Normal raws l h =
    sort_by-IsNormalList itself GoodSubject l
      (each-Collected itself GoodSubject add_subject add_subject-Appends raws l h)

add_resources-Normal :
    (raws l : List Text)
    → add_resources raws ≡ ok l
    → IsNormalList itself GoodResource (sort_by itself l)
unfolding add_resources
add_resources-Normal raws l h =
    sort_by-IsNormalList itself GoodResource l
      (each-Collected itself GoodResource add_resource add_resource-Appends raws l h)

add_subjects-eq_self : (l : List Text) → IsNormalList itself GoodSubject l → add_subjects l ≡ ok l
unfolding add_subjects
add_subjects-eq_self l n =
    each-eq_self itself GoodSubject add_subject add_subject_good [] l n.good n.distinct

add_resources-eq_self :
    (l : List Text) → IsNormalList itself GoodResource l → add_resources l ≡ ok l
unfolding add_resources
add_resources-eq_self l n =
    each-eq_self itself GoodResource add_resource add_resource_good [] l n.good n.distinct

no_elements-ne : (l : List Text) → l ≢ [] → no_elements l ≡ false
unfolding no_elements
no_elements-ne [] h = absurd (h refl)
no_elements-ne (x ∷ l) h = refl

ne-no_elements : (l : List Text) → not (no_elements l) ≡ true → l ≢ []
unfolding no_elements
ne-no_elements [] h = cc
ne-no_elements (x ∷ l) h = λ e. cc

default_kind-twin :
    (kind : Text) → kind ≡ twin → (default_kind kind ≡ kind) × (text_eq kind twin ≡ true)
unfolding default_kind text_eq
default_kind-twin kind e = rw e (refl, text_eq_refl twin)

-- A policy in normal form is left as it is, and derived.
IsNormal-normalize : (p : Policy) → IsNormal p → normalize_decoded p ≡ ok (p, derive p)
unfolding normalize_decoded checked wrapped
IsNormal-normalize p n =
    let (same, is_twin) = default_kind-twin p.kind n.kind in
    rw (
      n.policy_id,
      n.version,
      same,
      is_twin,
      add_subjects-eq_self p.subjects n.subjects,
      no_elements-ne p.subjects n.some_subject,
      add_resources-eq_self p.resources n.resources,
      normalize_entries-eq_self grant p.grants n.grants,
      normalize_entries-eq_self revoke p.revokes n.revokes,
      sort_by-eq_self itself p.subjects n.subjects.sorted,
      sort_by-eq_self itself p.resources n.resources.sorted,
    )

wrapped-ok : (r : Result IdError Text) {c : Text} → wrapped r ≡ ok c → r ≡ ok c
unfolding wrapped
wrapped-ok (ok c) h = ground arith
wrapped-ok (err e) h = cc

checked-ok :
    {E : Type 0} (wrap : E → PolicyError) (o : Option E) {u : Unit {0}}
    → checked wrap o ≡ ok u
    → o ≡ none
unfolding checked
checked-ok wrap none h = refl
checked-ok wrap (some e) h = cc

ok_pair :
    {E A B : Type 0} {a a' : A} {b b' : B}
    → ◌≡◌ {A = Result E (A × B)} (ok (a, b)) (ok (a', b'))
    → (a ≡ a') × (b ≡ b')
ok_pair h = (cc, cc)

returned :
    (p p' : Policy) (d : DerivedPolicy)
    → IsNormal p
    → ◌≡◌ {A = Result PolicyError (Policy × DerivedPolicy)} (ok (p, derive p)) (ok (p', d))
    → IsNormal p' × (d ≡ derive p')
returned p p' d n h = let (e, f) = ok_pair h in (subst IsNormal e n, sym f ∙ ap derive e)

normalize-IsNormal :
    (p : Policy) {p' : Policy} {d : DerivedPolicy}
    → normalize_decoded p ≡ ok (p', d)
    → IsNormal p' × (d ≡ derive p')
unfolding normalize_decoded
normalize-IsNormal p {p'} {d} h =
    let (c, h₁, q₁) = >>=-eq-ok (wrapped (normalize_policy_id p.policy_id)) _ h in
    let (_, h₂, q₂) = >>=-eq-ok (checked bad_version (validate_version p.version)) _ q₁ in
    let (_, h₃, q₃) = >>=-eq-ok (guard (text_eq (default_kind p.kind) twin) bad_kind) _ q₂ in
    let (subjects, h₄, q₄) = >>=-eq-ok (add_subjects p.subjects) _ q₃ in
    let (_, h₅, q₅) = >>=-eq-ok (guard (not (no_elements subjects)) no_subjects) _ q₄ in
    let (resources, h₆, q₆) = >>=-eq-ok (add_resources p.resources) _ q₅ in
    let (grants, h₇, q₇) = >>=-eq-ok (normalize_entries grant p.grants) _ q₆ in
    let (revokes, h₈, q₈) = >>=-eq-ok (normalize_entries revoke p.revokes) _ q₇ in
    let made : IsNormal (record {
      policy_id = c;
      version = p.version;
      kind = default_kind p.kind;
      subjects = sort_by itself subjects;
      resources = sort_by itself resources;
      grants = grants;
      revokes = revokes;
    }) =
      record {
        policy_id = (normalize_policy_id_lem p.policy_id (wrapped-ok _ h₁)).4;
        version = checked-ok bad_version _ h₂;
        kind = (text_eq_iff _ _).0 (guard-eq-ok _ _ h₃);
        some_subject =
            sort_by-ne-nil itself subjects (ne-no_elements subjects (guard-eq-ok _ _ h₅));
        subjects = add_subjects-Normal p.subjects subjects h₄;
        resources = add_resources-Normal p.resources resources h₆;
        grants = normalize_entries-IsNormalList grant p.grants grants h₇;
        revokes = normalize_entries-IsNormalList revoke p.revokes revokes h₈;
      } in
    returned _ p' d made q₈

-- What `normalize_decoded` accepts it returns in normal form: the identifier canonical, the
-- version valid, the kind TWIN, at least one subject; subjects, resources, grants and revokes are
-- trimmed, valid, without repeats and sorted, and so are the known actions of each entry, of
-- which there is at least one.
-- Normalizing the result again gives the same policy and the same derived policy.
pub normalize_decoded_idem :
    (p : Policy) {p' : Policy} {d : DerivedPolicy}
    → normalize_decoded p ≡ ok (p', d)
    → IsNormal p' × (normalize_decoded p' ≡ ok (p', d))
normalize_decoded_idem p {p'} {d} h =
    let (n, e) = normalize-IsNormal p h in (n, rw e (IsNormal-normalize p' n))
