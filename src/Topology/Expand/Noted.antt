-- ===== src/Topology/Expand/Noted.antt =====
-- One round of `expandDepths` in flow-core/internal/twin/expand.go.
use thingsflow.Base.{
  ℕ, List, [], ◌∷◌, ◌++◌, ◌≡◌, ◌⊎◌, refl, ap, inl, inr, none, some, In, arith, Bool-cases,
  Option-cases,
}
use thingsflow.Base.Text.{Text, text_eq, text_eq_iff, text_eq_refl}
use thingsflow.Base.Dict.{Dict, get, put, get-put}
use thingsflow.Topology.{EntityRef}
use thingsflow.Topology.Expand.{Labels, node_key, note_neighbor, note_neighbors}
use thingsflow.Topology.Traverse.Rows.{In-append_iff}

-- The key has the label.
abbrev pub At : Dict ℕ → Text → ℕ → Type 0
At depths k d = get depths k ≡ some d

At-put-self : (m : Dict ℕ) (k : Text) (d : ℕ) → At (put m k d) k d
At-put-self m k d = rw (get-put m k k d, text_eq_refl k) refl

At-put-keeps : (m : Dict ℕ) (k j : Text) (d e : ℕ) → get m k ≡ none → At m j e → At (put m k d) j e
At-put-keeps m k j d e fresh h = elim (Bool-cases (text_eq k j)) [
  | inr other ↦ rw (get-put m k j d, other) h
  | inl same ↦ let q : k ≡ j = (text_eq_iff k j).0 same in cc (fresh, ap (get m) q, h)
]

put-At : (m : Dict ℕ) (k j : Text) (d e : ℕ) → At (put m k d) j e → At m j e ⊎ ((k ≡ j) × (e ≡ d))
put-At m k j d e h = elim (Bool-cases (text_eq k j)) [
  | inl same ↦ inr ((text_eq_iff k j).0 same, ground (arith, rw (get-put m k j d, same) at h))
  | inr other ↦ inl (rw (get-put m k j d, other) at h)
]

-- What a round does to the labels `s`, on the entities `ns`: it keeps the labels, gives the new ones
-- to entities of `ns` that it puts in front of the next round, and leaves each of `ns` with a label.
pub record Noted (level : ℕ) (ns : List EntityRef) (s out : Labels) : Type 0 where
  pub kept : (k : Text) (d : ℕ) → At s.depths k d → At out.depths k d
  pub fresh :
      (k : Text) (d : ℕ)
      → At out.depths k d
      → At s.depths k d ⊎ ((d ≡ level) × ((n : EntityRef) × In n out.next × (node_key n ≡ k)))
  pub found : (n : EntityRef) → In n out.next → In n s.next ⊎ In n ns
  pub stays : (n : EntityRef) → In n s.next → In n out.next
  pub all : (n : EntityRef) → In n ns → (d : ℕ) × At out.depths (node_key n) d
  pub labelled :
      ((n : EntityRef) → In n s.next → At s.depths (node_key n) level)
      → (n : EntityRef) → In n out.next
      → At out.depths (node_key n) level

pub Noted-none : (level : ℕ) (s : Labels) → Noted level [] s s
Noted-none level s = record {
  kept = λ k d h. h;
  fresh = λ k d h. inl h;
  found = λ n i. inl i;
  stays = λ n i. i;
  all = λ n i. elim i [ ];
  labelled = λ h n i. h n i;
}

pub Noted-append :
    (level : ℕ) (ms ns : List EntityRef) (s t out : Labels)
    → Noted level ms s t
    → Noted level ns t out
    → Noted level (ms ++ ns) s out
Noted-append level ms ns s t out a b = record {
  kept = λ k d h. b.kept k d (a.kept k d h);
  fresh = λ k d h. elim (b.fresh k d h) [
    | inr new ↦ inr new
    | inl old ↦ elim (a.fresh k d old) [
      | inl before ↦ inl before
      | inr (e, (n, i, q)) ↦ inr (e, (n, b.stays n i, q))
    ]
  ];
  found = λ n i. elim (b.found n i) [
    | inr j ↦ inr ((In-append_iff n ms ns).1 (inr j))
    | inl j ↦ elim (a.found n j) [ inl k ↦ inl k | inr k ↦ inr ((In-append_iff n ms ns).1 (inl k)) ]
  ];
  stays = λ n i. b.stays n (a.stays n i);
  all = λ n i. elim ((In-append_iff n ms ns).0 i) [
    | inl j ↦ let (d, h) = a.all n j in (d, b.kept (node_key n) d h)
    | inr j ↦ b.all n j
  ];
  labelled = λ h. b.labelled (a.labelled h);
}

Noted-one :
    (level : ℕ) (n : EntityRef) (s : Labels) → Noted level (n ∷ []) s (note_neighbor level n s)
unfolding note_neighbor
Noted-one level n s = elim (Option-cases (get s.depths (node_key n))) [
  | inr (d, e) ↦
      rw (note_neighbor, e)
        (record {
          kept = λ k d h. h;
          fresh = λ k d h. inl h;
          found = λ m i. inl i;
          stays = λ m i. i;
          all = λ m i. elim i [ inl q ↦ (d, rw q e) | inr x ↦ elim x [ ] ];
          labelled = λ h m i. h m i;
        })
  | inl e ↦
      rw (note_neighbor, e)
        (record {
          kept = λ k d h. At-put-keeps s.depths (node_key n) k level d e h;
          fresh = λ k d h. elim (put-At s.depths (node_key n) k level d h) [
            | inl old ↦ inl old
            | inr (q, l) ↦ inr (l, (n, (In-append_iff n s.next (n ∷ [])).1 (inr (inl refl)), q))
          ];
          found = λ m i. (In-append_iff m s.next (n ∷ [])).0 i;
          stays = λ m i. (In-append_iff m s.next (n ∷ [])).1 (inl i);
          all = λ m i. elim i [
            | inl q ↦ (level, rw q (At-put-self s.depths (node_key n) level))
            | inr x ↦ elim x [ ]
          ];
          labelled = λ h m i. elim ((In-append_iff m s.next (n ∷ [])).0 i) [
            | inl j ↦ At-put-keeps s.depths (node_key n) (node_key m) level level e (h m j)
            | inr (inl q) ↦ rw q (At-put-self s.depths (node_key n) level)
            | inr (inr x) ↦ elim x [ ]
          ];
        })
]

pub note_neighbors-Noted :
    (level : ℕ) (ns : List EntityRef) (s : Labels) → Noted level ns s (note_neighbors level ns s)
unfolding note_neighbors
note_neighbors-Noted level [] s = Noted-none level s
note_neighbors-Noted level (n ∷ ns) s =
    Noted-append level (n ∷ []) ns s (note_neighbor level n s) _ (Noted-one level n s)
      (note_neighbors-Noted level ns (note_neighbor level n s))
