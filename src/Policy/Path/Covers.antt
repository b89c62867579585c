-- ===== src/Policy/Path/Covers.antt =====
-- `matchResource` decides the pattern language that its comment describes.
use thingsflow.Base.{
  ℕ, ◌+◌, ◌≡◌, ◌≢◌, refl, sym, ◌∙◌, ap, ◌↔◌, ◌⊎◌, inl, inr, List, [], ◌∷◌, ◌++◌, true, some, arith,
  length,
}
use thingsflow.Base.Text.{Text, text_eq_iff, text_eq_refl, text_eq_ne, Text-cases}
use thingsflow.Policy.Path.{
  hash, star, Scan, found, missed, consumed, scan, ends_star, verdict, match_segments, segments,
  match_resource,
}

-- The pattern's segments fit the first segments of the resource: `*` fits any one, other
-- segments fit themselves, and none is `#`.
abbrev pub Fits : List Text → List Text → Type 0
Fits [] rs = Unit
Fits (p ∷ ps) [] = ⊥
Fits (p ∷ ps) (r ∷ rs) = (p ≢ hash) × ((p ≡ star) ⊎ (p ≡ r)) × Fits ps rs

-- A front that fits, and then `#`, which covers whatever follows.
abbrev pub Recursive : List Text → List Text → ℕ → Type 0
Recursive ps rs d =
    (front rest : List Text) × (ps ≡ front ++ hash ∷ rest) × Fits front rs × (d ≡ length front + 1)

-- The whole pattern fits; it covers what lies below unless it ends in `*`.
abbrev pub Prefix : List Text → List Text → ℕ → Type 0
Prefix ps rs d =
    Fits ps rs
    × (d ≡ length ps)
    × ((front : List Text) → ps ≡ front ++ star ∷ [] → length rs ≡ length ps)

abbrev pub Covers : List Text → List Text → ℕ → Type 0
Covers ps rs d = Recursive ps rs d ⊎ Prefix ps rs d

-- One round of the loop returns at `#`, goes on past a segment that fits, or gives up.
abbrev Round : Text → List Text → Text → List Text → ℕ → Type 0
Round p ps r rs i =
    ((p ≡ hash) × (scan (p ∷ ps) (r ∷ rs) i ≡ found (i + 1)))
    ⊎ (((p ≢ hash) × ((p ≡ star) ⊎ (p ≡ r)) × (scan (p ∷ ps) (r ∷ rs) i ≡ scan ps rs (i + 1)))
        ⊎ (scan (p ∷ ps) (r ∷ rs) i ≡ missed))

round : (p : Text) (ps : List Text) (r : Text) (rs : List Text) (i : ℕ) → Round p ps r rs i
unfolding scan
round p ps r rs i = elim (Text-cases p hash) [
  | inl e ↦ inl (e, ground (arith, text_eq_iff p hash))
  | inr n ↦ elim (Text-cases p star) [
    | inl e ↦ inr (inl (n, inl e, ground (arith, text_eq_iff p hash, text_eq_iff p star)))
    | inr m ↦ elim (Text-cases p r) [
      | inl e ↦
          inr (inl (n, inr e, rw (text_eq_ne p hash n, text_eq_ne p star m, (text_eq_iff p r).1 e)))
      | inr k ↦ inr (inr (rw (text_eq_ne p hash n, text_eq_ne p star m, text_eq_ne p r k)))
    ]
  ]
]

scan-consumed : (ps rs : List Text) (i : ℕ) → scan ps rs i ≡ consumed → Fits ps rs
unfolding scan
scan-consumed [] rs i h = tt
scan-consumed (p ∷ ps) [] i h = ground (arith)
scan-consumed (p ∷ ps) (r ∷ rs) i h = elim (round p ps r rs i) [
  | inl (e, q) ↦ cc (q, h)
  | inr (inl (n, f, q)) ↦ (n, f, scan-consumed ps rs (i + 1) (sym q ∙ h))
  | inr (inr q) ↦ cc (q, h)
]

Fits-scan : (ps rs : List Text) (i : ℕ) → Fits ps rs → scan ps rs i ≡ consumed
unfolding scan
Fits-scan [] rs i h = refl
Fits-scan (p ∷ ps) [] i h = elim h [ ]
Fits-scan (p ∷ ps) (r ∷ rs) i h =
    ground
      (arith, text_eq_iff p hash, text_eq_iff p star, text_eq_iff p r, Fits-scan ps rs (i + 1) h.2)

scan-found :
    (ps rs : List Text) (i d : ℕ)
    → scan ps rs i ≡ found d
    → (front rest : List Text) × (ps ≡ front ++ hash ∷ rest)
      × Fits front rs
      × (d ≡ i + (length front + 1))
unfolding scan
scan-found [] rs i d h = cc
scan-found (p ∷ ps) [] i d h = elim (Text-cases p hash) [
  | inl e ↦ ([], ps, rw e, tt, ground (arith, text_eq_iff p hash))
  | inr e ↦ absurd (ground (arith, text_eq_iff p hash))
]
scan-found (p ∷ ps) (r ∷ rs) i d h = elim (round p ps r rs i) [
  | inl (e, q) ↦ ([], ps, rw e, tt, ground (arith, q, h))
  | inr (inl (n, f, q)) ↦
      let (front, rest, e, fits, m) = scan-found ps rs (i + 1) d (sym q ∙ h) in
      (p ∷ front, rest, ap (λ l. p ∷ l) e, (n, f, fits), omega arith)
  | inr (inr q) ↦ cc (q, h)
]

found-scan :
    (front rest rs : List Text) (i : ℕ)
    → Fits front rs
    → scan (front ++ hash ∷ rest) rs i ≡ found (i + (length front + 1))
unfolding scan
found-scan [] rest [] i h = ground (arith, text_eq_refl hash)
found-scan [] rest (r ∷ rs) i h = ground (arith, text_eq_refl hash)
found-scan (p ∷ front) rest [] i h = elim h [ ]
found-scan (p ∷ front) rest (r ∷ rs) i h = ground (
  arith,
  text_eq_iff p hash,
  text_eq_iff p star,
  text_eq_iff p r,
  found-scan front rest rs (i + 1) h.2,
)

ends_star_front :
    (ps : List Text) → ends_star ps ≡ true → (front : List Text) × (ps ≡ front ++ star ∷ [])
unfolding ends_star
ends_star_front [] h = cc
ends_star_front (p ∷ []) h = ([], ground (arith, text_eq_iff p star))
ends_star_front (p ∷ q ∷ ps) h =
    let (front, e) = ends_star_front (q ∷ ps) h in (p ∷ front, ap (λ l. p ∷ l) e)

front-ends_star : (front : List Text) → ends_star (front ++ star ∷ []) ≡ true
unfolding ends_star
front-ends_star [] = text_eq_refl star
front-ends_star (p ∷ []) = text_eq_refl star
front-ends_star (p ∷ q ∷ front) = front-ends_star (q ∷ front)

Scan-cases : (s : Scan) → ((d : ℕ) × (s ≡ found d)) ⊎ ((s ≡ missed) ⊎ (s ≡ consumed))
Scan-cases (found d) = inl (d, refl)
Scan-cases missed = inr (inl refl)
Scan-cases consumed = inr (inr refl)

-- At the end of the pattern only a last `*` asks for a resource of the same length.
verdict-consumed :
    (ps rs : List Text) (d : ℕ)
    → (verdict ps rs consumed ≡ some d)
      ↔ ((d ≡ length ps) × (ends_star ps ≡ true → length rs ≡ length ps))
unfolding verdict
verdict-consumed ps rs d = ((λ h. (ground arith, λ e. ground arith)), λ h. ground arith)

match_segments-Covers : (ps rs : List Text) (d : ℕ) → match_segments ps rs ≡ some d → Covers ps rs d
unfolding match_segments verdict
match_segments-Covers ps rs d h = elim (Scan-cases (scan ps rs 0)) [
  | inl (k, e) ↦
      let (front, rest, q, fits, m) = scan-found ps rs 0 k e in
      inl (front, rest, q, fits, ground arith)
  | inr (inl e) ↦ ground arith
  | inr (inr e) ↦
      let (m, f) = (verdict-consumed ps rs d).0 (rw e at h) in
      inr (scan-consumed ps rs 0 e, m, λ front q. f (rw q (front-ends_star front)))
]

Covers-match_segments : (ps rs : List Text) (d : ℕ) → Covers ps rs d → match_segments ps rs ≡ some d
unfolding match_segments
Covers-match_segments ps rs d (inl (front, rest, q, fits, m)) =
    rw (q, found-scan front rest rs 0 fits) (unfold verdict in ground arith)
Covers-match_segments ps rs d (inr (fits, m, f)) =
    rw (Fits-scan ps rs 0 fits)
      ((verdict-consumed ps rs d).1 (m, λ e. let (front, q) = ends_star_front ps e in f front q))

-- `match_resource` gives a depth exactly if the segments of the pattern cover those of the
-- resource at that depth: by a front that fits and `#`, or by all segments fitting the first
-- ones of the resource, which has no more if the pattern ends in `*`.
pub match_resource_iff :
    (pattern_ resource : Text) (d : ℕ)
    → (match_resource pattern_ resource ≡ some d) ↔ Covers (segments pattern_) (segments resource) d
unfolding match_resource
match_resource_iff pattern_ resource d = (
  match_segments-Covers (segments pattern_) (segments resource) d,
  Covers-match_segments (segments pattern_) (segments resource) d,
)
