-- ===== src/Policy/Authorize/Order.antt =====
-- What a decision does not depend on, and what further revokes may change. Go iterates over a
-- map in any order, so two lists with the same entries stand for one map.
use thingsflow.Base.{
  ◌≡◌, inl, List, true, Any, All, In, Any-In, In-Any, All-In, In-All, Bool-ext, Any-map,
}
use thingsflow.Base.Text.{Text}
use thingsflow.Policy.Authorize.{DerivedPolicy, authorize}
use thingsflow.Policy.Authorize.Decision.{Entries, Allows, authorize_iff}

-- Every entry of one map is one of the other.
abbrev pub Within : Entries → Entries → Type 0
Within m n = (e : Text × List Text) → In e m → In e n

Any-Within : (P : Text × List Text → Type 0) (m n : Entries) → Within m n → Any P m → Any P n
Any-Within P m n f h = let (e, i, p) = Any-In P m h in In-Any P n (f e i) p

All-Within : (P : Text × List Text → Type 0) (m n : Entries) → Within m n → All P n → All P m
All-Within P m n f h = In-All P m (λ e i. All-In P n h (f e i))

Allows-Within :
    (doc doc' : DerivedPolicy) (resource action : Text)
    → Within doc.grants doc'.grants
    → Within doc'.grants doc.grants
    → Within doc'.revokes doc.revokes
    → Allows doc resource action
    → Allows doc' resource action
Allows-Within doc doc' resource action f g h (d, (reach, bound_g, bound_r), granted, kept) =
    let granted' = Any-Within _ doc.grants doc'.grants f granted in
    (
      d,
      (
        inl (Any-map _ _ doc'.grants (λ e x. x.0) granted'),
        All-Within _ doc'.grants doc.grants g bound_g,
        All-Within _ doc'.revokes doc.revokes h bound_r,
      ),
      granted',
      λ r. kept (Any-Within _ doc'.revokes doc.revokes h r),
    )

-- Two policies that bind the same subjects and whose maps of grants and of revokes have the same
-- entries, in whatever order, decide every request alike.
pub authorize-order :
    (doc doc' : DerivedPolicy) (subject resource action : Text)
    → doc.subjects ≡ doc'.subjects
    → Within doc.grants doc'.grants × Within doc'.grants doc.grants
    → Within doc.revokes doc'.revokes × Within doc'.revokes doc.revokes
    → authorize subject doc resource action ≡ authorize subject doc' resource action
authorize-order doc doc' subject resource action e (f, g) (h, k) =
    let there = authorize_iff subject doc resource action in
    let back = authorize_iff subject doc' resource action in
    Bool-ext _ _
      (λ p. back.1 (rw e at ((there.0 p).0), Allows-Within doc doc' resource _ f g k (there.0 p).1))
      (λ p.
        there.1 (rw (← e) at ((back.0 p).0), Allows-Within doc' doc resource _ g f h (back.0 p).1))

-- Adding revokes to a policy allows nothing that it denied: what is allowed with more revokes is
-- allowed with fewer.
pub revokes_only_deny :
    (doc : DerivedPolicy) (revokes' : Entries) (subject resource action : Text)
    → Within doc.revokes revokes'
    → authorize subject (record doc { revokes = revokes' }) resource action ≡ true
    → authorize subject doc resource action ≡ true
revokes_only_deny doc revokes' subject resource action f p =
    let more = record doc { revokes = revokes' } in
    let (binds, allowed) = (authorize_iff subject more resource action).0 p in
    (authorize_iff subject doc resource action).1
      (binds, Allows-Within more doc resource _ (λ e i. i) (λ e i. i) f allowed)
