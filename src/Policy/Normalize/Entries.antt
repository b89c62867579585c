-- ===== src/Policy/Normalize/Entries.antt =====
-- The entries of a policy: their actions, and the round of `normalizeEntries`.
use thingsflow.Base.{
  ◌≡◌, ◌≢◌, refl, ap, List, [], ◌∷◌, ◌++◌, arith, Bool-cases, Option-cases, inl, inr, ◌⊎◌,
}
use thingsflow.Base.Text.{Text, contains, trim_space}
use thingsflow.Base.Sort.{sort_by, insert_by, sort_by-Sorted, sort_by-eq_self, All-sort_by}
use thingsflow.Base.Collect.{HasKey, Distinct-sort_by, Appends, each-Collected, each-eq_self}
use thingsflow.Base.Result.{ok, each, each_inv, each-cons-ok, >>=-eq-ok}
use thingsflow.Policy.Lexical.{validate_resource_path}
use thingsflow.Policy.Normalize.{
  Entry, Label, itself, entry_key, add_action, add_entry, checked, normalize_actions, resources_of,
}
use thingsflow.Policy.Normalize.Rounds.{
  GoodResource, GoodAction, NormalActions, add_action-Appends, add_action_good, trim_space_idem,
  absent, not_in,
}

append-ne-nil : {A : Type 0} (l : List A) (x : A) → l ++ x ∷ [] ≢ []
append-ne-nil [] x = λ e. cc
append-ne-nil (y ∷ l) x = λ e. cc

insert_by-ne-nil : {A : Type 0} (key : A → Text) (a : A) (l : List A) → insert_by key a l ≢ []
unfolding insert_by
insert_by-ne-nil key a [] = λ e. cc
insert_by-ne-nil key a (x ∷ l) = ground arith

pub sort_by-ne-nil : {A : Type 0} (key : A → Text) (l : List A) → l ≢ [] → sort_by key l ≢ []
unfolding sort_by
sort_by-ne-nil key [] h = h
sort_by-ne-nil key (x ∷ l) h = insert_by-ne-nil key x (sort_by key l)

module _ (label : Label) (resource : Text) where
  Appends-ne-nil :
      (acc : List Text) (raw : Text) (acc' : List Text)
      → acc ≢ []
      → add_action label resource acc raw ≡ ok acc'
      → acc' ≢ []
  Appends-ne-nil acc raw acc' h e = elim (add_action-Appends label resource acc raw acc' e) [
    | inl q ↦ rw q h
    | inr (x, _, _, q) ↦ rw q (append-ne-nil acc x)
  ]

  first_action :
      (raw : Text) (acc' : List Text) → add_action label resource [] raw ≡ ok acc' → acc' ≢ []
  unfolding add_action contains
  first_action raw acc' h = ground arith

  normalize_actions-Normal :
      (raws l : List Text) → normalize_actions label resource raws ≡ ok l → NormalActions l
  unfolding normalize_actions
  normalize_actions-Normal [] l h = cc
  normalize_actions-Normal (raw ∷ rest) l h =
      let (out, e, q) = >>=-eq-ok (each (add_action label resource) [] (raw ∷ rest)) _ h in
      let (good, distinct) =
        each-Collected itself GoodAction (add_action label resource)
          (add_action-Appends label resource) (raw ∷ rest) out e in
      let full : out ≢ [] = first_full raw rest out e in
      let same : sort_by itself out ≡ l = ground arith in
      rw (← same) (record {
        some_action = sort_by-ne-nil itself out full;
        known = All-sort_by itself GoodAction out good;
        distinct = Distinct-sort_by itself out distinct;
        sorted = sort_by-Sorted itself out;
      })
    where
      first_full :
          (raw : Text) (rest out : List Text)
          → each (add_action label resource) [] (raw ∷ rest) ≡ ok out
          → out ≢ []
      first_full raw rest out e =
          let (acc, a, b) = each-cons-ok (add_action label resource) [] raw rest e in
          each_inv (λ (s : List Text). s ≢ []) (add_action label resource) Appends-ne-nil acc rest
            out (first_action raw acc a) b

  normalize_actions-eq_self :
      (l : List Text) → NormalActions l → normalize_actions label resource l ≡ ok l
  unfolding normalize_actions
  normalize_actions-eq_self [] n = absurd (n.some_action refl)
  normalize_actions-eq_self (a ∷ l) n =
      rw
        (each-eq_self itself GoodAction (add_action label resource) (add_action_good label resource)
          [] (a ∷ l) n.known n.distinct)
        (ap ok (sort_by-eq_self itself (a ∷ l) n.sorted))

-- The normal form of an entry.
abbrev pub GoodEntry : Entry → Type 0
GoodEntry e = GoodResource e.resource × NormalActions e.actions

resources_of-HasKey :
    (acc : List Entry) (k : Text) → HasKey itself k (resources_of acc) ≡ HasKey entry_key k acc
unfolding resources_of
resources_of-HasKey [] k = refl
resources_of-HasKey (e ∷ acc) k =
    ap (λ (t : Type 0). (k ≡ e.resource) ⊎ t) (resources_of-HasKey acc k)

module _ (label : Label) where
  pub add_entry-Appends :
      (acc : List Entry) (raw : Entry) (acc' : List Entry)
      → add_entry label acc raw ≡ ok acc'
      → Appends entry_key GoodEntry acc acc'
  unfolding add_entry checked
  add_entry-Appends acc raw acc' h =
      let r = trim_space raw.resource in
      elim (Option-cases (validate_resource_path r)) [
        | inl v ↦
            let h' = rw v at h in
            let (actions, e, q) = >>=-eq-ok (normalize_actions label r raw.actions) _ h' in
            elim (Bool-cases (contains (resources_of acc) r)) [
              | inl old ↦ ground (arith, old)
              | inr new ↦ inr (
                record { resource = r; actions = actions },
                (
                  (trim_space_idem raw.resource, v),
                  normalize_actions-Normal label r raw.actions actions e,
                ),
                rw resources_of-HasKey at (not_in (resources_of acc) r new),
                ground (arith, new),
              )
            ]
        | inr (x, v) ↦ ground (arith, v)
      ]

  pub add_entry_good :
      (acc : List Entry) (x : Entry)
      → GoodEntry x
      → ¬ HasKey entry_key x.resource acc
      → add_entry label acc x ≡ ok (acc ++ x ∷ [])
  unfolding add_entry checked
  add_entry_good acc x ((t, v), n) new = rw t (
      rw (
        v,
        normalize_actions-eq_self label x.resource x.actions n,
        absent (resources_of acc) x.resource (rw (resources_of-HasKey acc x.resource) new),
      ))
